-- ===== src/Sys/Io/Write.antt =====
-- `sys_write` of zeos/sys.c: the pieces of 512 bytes print the same as the whole.
use soa_subject.Prelude.{
  ℕ, zero, suc, ◌+◌, ◌-◌, ◌<◌, ◌≡◌, refl, sym, ap, inl, inr, ◌∙◌, not, ltb, ◌==◌, if◌then◌else◌,
  arith, Bool-cases, for_range, for_range-add, for_range-cong, for_range-shift, neg32, is_neg,
}
use soa_subject.Config.{ebadf, einval, efault}
use soa_subject.Console.{Console, printc, sys_write_console}
use soa_subject.Access.{access_ok, verify_read, copy_data, copy_data_lem}
use soa_subject.Kernel.{Kernel, returned}
use soa_subject.Sys.Io.{write_chunks, sys_write, tam_buffer, check_fd}

-- The bytes from `at` on, printed one by one.
abbrev printed : (n at : ℕ) → (ℕ → ℕ) → Console → Console
printed n at buffer c = for_range n 0 (λ i d. printc (buffer (at + i)) d) c

-- A piece that went through `localbuffer` prints what the buffer holds.
piece :
    (n at : ℕ) (buffer localbuffer : ℕ → ℕ) (c : Console)
    → for_range n 0 (λ i d. printc (copy_data n (λ j. buffer (at + j)) localbuffer i) d) c
      ≡ printed n at buffer c
piece n at buffer localbuffer c = for_range-cong n 0 _ _ c (λ k t l.
    ap (λ b. printc b t) (copy_data_lem n (λ j. buffer (at + j)) localbuffer k ∙ ground (arith, l)))

two_pieces :
    (n m at : ℕ) (buffer : ℕ → ℕ) (c : Console)
    → printed m (at + n) buffer (printed n at buffer c) ≡ printed (n + m) at buffer c
two_pieces n m at buffer c =
    for_range-cong m 0 (λ i d. printc (buffer (at + n + i)) d)
      (λ i d. printc (buffer (at + (n + i))) d) (printed n at buffer c)
      (λ k t _.
        ap (λ j. printc (buffer j) t) (let e : at + n + k ≡ at + (n + k) = omega arith in e))
    ∙ sym (for_range-shift m n 0 (λ i d. printc (buffer (at + i)) d) (printed n at buffer c))
    ∙ ap (λ a. for_range m a (λ i d. printc (buffer (at + i)) d) (printed n at buffer c))
        (let e : n + 0 ≡ 0 + n = omega arith in e)
    ∙ sym (for_range-add n m 0 (λ i d. printc (buffer (at + i)) d) c)

-- A piece as the code prints it.
copied_piece :
    (n at : ℕ) (buffer localbuffer : ℕ → ℕ) (c : Console)
    → sys_write_console (copy_data n (λ j. buffer (at + j)) localbuffer) n c
      ≡ (n, printed n at buffer c)
unfolding sys_write_console
copied_piece n at buffer localbuffer c = ap (λ d. (n, d)) (piece n at buffer localbuffer c)

write_chunks-whole :
    (rounds at n : ℕ) (buffer localbuffer : ℕ → ℕ) (c : Console)
    → n < rounds
    → write_chunks rounds at n buffer localbuffer c ≡ (0, printed n at buffer c)
unfolding write_chunks for_range
write_chunks-whole zero at n buffer localbuffer c h = absurd (omega arith)
write_chunks-whole (suc rounds) at n buffer localbuffer c h = elim (Bool-cases (ltb tam_buffer n)) [
  | inl e ↦
      rw (e, copied_piece tam_buffer at buffer localbuffer c)
        (write_chunks-whole rounds (at + tam_buffer) (n - tam_buffer) buffer
            (copy_data tam_buffer (λ j. buffer (at + j)) localbuffer)
            (printed tam_buffer at buffer c) (ground arith)
          ∙ ap (λ d. (0, d))
              (two_pieces tam_buffer (n - tam_buffer) at buffer c
                ∙ ap (λ m. printed m at buffer c)
                    (let f : tam_buffer + (n - tam_buffer) ≡ n = ground arith in f)))
  | inr e ↦ elim (Bool-cases (ltb 0 n)) [
    | inl f ↦
        rw (e, f, copied_piece n at buffer localbuffer c)
          (ap (λ m. (m, printed n at buffer c)) (let g : n - n ≡ 0 = omega arith in g))
    | inr f ↦ rw (e, f) (ap (λ m. (0, printed m at buffer c)) (let g : 0 ≡ n = ground arith in g))
  ]
]

all_printed :
    (n : ℕ) (bytes localbuffer : ℕ → ℕ) (c : Console)
    → write_chunks (n + 1) 0 n bytes localbuffer c
      ≡ (0, for_range n 0 (λ i d. printc (bytes i) d) c)
all_printed n bytes localbuffer c =
    write_chunks-whole (n + 1) 0 n bytes localbuffer c (omega arith)
    ∙ ap (λ d. (0, d))
        (for_range-cong n 0 (λ i d. printc (bytes (0 + i)) d) (λ i d. printc (bytes i) d) c
          (λ i t _. ap (λ j. printc (bytes j) t) (let e : 0 + i ≡ i = omega arith in e)))

-- `sys_write` to any other descriptor than 1 answers -EBADF, with a negative size -EINVAL, and from
-- a block that `access_ok` refuses -EFAULT, and nothing changes. Otherwise the answer is the size
-- and the console has printed the bytes one by one in order, whatever their number.
pub sys_write-whole :
    (fd buffer nbytes : ℕ) (bytes : ℕ → ℕ) (k : Kernel)
    → sys_write fd buffer nbytes bytes k ≡ (
        if not (fd == 1)
        then (k, returned (neg32 ebadf))
        else if is_neg nbytes
        then (k, returned (neg32 einval))
        else if not (access_ok verify_read buffer nbytes)
        then (k, returned (neg32 efault))
        else (
          record k { console = for_range nbytes 0 (λ i d. printc (bytes i) d) k.console },
          returned nbytes,
        ))
unfolding sys_write check_fd
sys_write-whole fd buffer nbytes bytes k =
    rw
      (
        all_printed nbytes bytes (λ _. 0) k.console,
        (let g : nbytes - 0 ≡ nbytes = omega arith in g),
      )
      (elim (Bool-cases (fd == 1)) [ inl e ↦ rw e refl | inr e ↦ rw e refl ])

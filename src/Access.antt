-- ===== src/Access.antt =====
-- `access_ok` and the copying of bytes (zeos/utils.c).
use soa_subject.Prelude.{
  ℕ, zero, suc, ◌+◌, ◌-◌, ◌*◌, ◌/◌, ◌^◌, ◌<◌, ◌≡◌, ◌∙◌, inl, inr, Bool, false, ltb, leb, ◌&&◌, ◌||◌,
  ◌==◌, if◌then◌else◌, update, arith, add32, Bool-cases, for_range, for_range-update,
}
use soa_subject.Config.{user_first_page, num_pag_code, num_pag_data}

-- `VERIFY_READ` and `VERIFY_WRITE`
pub data Access : Type 0 where
  verify_read verify_write : Access

-- The test under `case VERIFY_WRITE`.
abbrev write_case : Access → ℕ → ℕ → Bool
write_case verify_read addr_ini addr_fin = false
write_case verify_write addr_ini addr_fin =
    leb (user_first_page + num_pag_code) addr_ini
    && leb addr_fin (user_first_page + num_pag_code + num_pag_data)

-- With no `break`, the first case falls through to the second.
unfoldable pub access_ok : Access → (addr size : ℕ) → Bool
access_ok type addr size =
    let addr_ini = addr / 2 ^ 12 in
    let addr_fin = add32 addr size / 2 ^ 12 in
    if ltb addr_fin addr_ini
    then false
    else (write_case type addr_ini addr_fin
        || leb user_first_page addr_ini
          && leb addr_fin (user_first_page + num_pag_code + num_pag_data))

-- `access_ok` gives the same answer for a write as for a read, the read-only code pages included.
-- A block that does not wrap around is accepted if it starts at or behind the first user page and
-- its end, the byte behind it, is no further than the page behind the user's data; one that wraps
-- around is accepted if its end is back in the page of a start in that range.
pub access_ok-write :
    (addr size : ℕ)
    → addr < 2 ^ 32
    → size < 2 ^ 32
    → let user_end = user_first_page + num_pag_code + num_pag_data in
      (access_ok verify_write addr size ≡ access_ok verify_read addr size)
      × (access_ok verify_write addr size ≡ (
          if ltb (addr + size) (2 ^ 32)
          then leb (user_first_page * 2 ^ 12) addr && ltb (addr + size) ((user_end + 1) * 2 ^ 12)
          else (addr / 2 ^ 12 == (addr + size - 2 ^ 32) / 2 ^ 12)
            && leb (user_first_page * 2 ^ 12) addr
            && ltb addr ((user_end + 1) * 2 ^ 12)))
unfolding access_ok
access_ok-write addr size ha hs = (ground arith, ground arith)

-- The loop on words of `copy_data`, from offset `at` on with the rounds left.
unfoldable pub copy_words : (rounds at size : ℕ) → (start dest : ℕ → ℕ) → ℕ → ℕ
copy_words zero at size start dest = dest
copy_words (suc rounds) at size start dest =
    let word = for_range 4 at (λ i d. update d i (start i)) dest in
    let rest = copy_words rounds (at + 4) (size - 4) start word in
    if ltb 4 size then rest else for_range size at (λ i d. update d i (start i)) dest

-- `copy_data`, `copy_from_user` and `copy_to_user`: `size` bytes that do not overlap.
unfoldable pub copy_data : (size : ℕ) → (start dest : ℕ → ℕ) → ℕ → ℕ
unfolding copy_words
copy_data size start dest = copy_words (size + 1) 0 size start dest

copy_words_lem :
    (rounds at size : ℕ) (start dest : ℕ → ℕ) (j : ℕ)
    → size < rounds
    → copy_words rounds at size start dest j
      ≡ (if leb at j && ltb j (at + size) then start j else dest j)
unfolding copy_words
copy_words_lem zero at size start dest j h = absurd (omega arith)
copy_words_lem (suc rounds) at size start dest j h = elim (Bool-cases (ltb 4 size)) [
  | inl e ↦ rw e (
      copy_words_lem rounds (at + 4) (size - 4) start
        (for_range 4 at (λ i d. update d i (start i)) dest) j (ground arith)
      ∙ ground (arith, for_range-update 4 at start dest j))
  | inr e ↦ rw e (for_range-update size at start dest j)
]

-- `copy_data` copies the `size` bytes and leaves what is behind them.
pub copy_data_lem :
    (size : ℕ) (start dest : ℕ → ℕ) (j : ℕ)
    → copy_data size start dest j ≡ (if ltb j size then start j else dest j)
unfolding copy_data
copy_data_lem size start dest j =
    copy_words_lem (size + 1) 0 size start dest j (omega arith) ∙ ground arith

unfoldable pub memset : (c size : ℕ) → (ℕ → ℕ) → ℕ → ℕ
memset c size m = for_range size 0 (λ i m. update m i c) m

-- `memset` sets the first `size` bytes and no other.
pub memset_lem :
    (c size : ℕ) (m : ℕ → ℕ) (j : ℕ) → memset c size m j ≡ (if ltb j size then c else m j)
unfolding memset
memset_lem c size m j = for_range-update size 0 (λ _. c) m j ∙ ground arith

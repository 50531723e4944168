-- ===== src/Image/Headers.antt =====
-- The sizes in the disk image of zeos/build.c, as zeos/system.c reads them.
use soa_subject.Prelude.{
  ℕ, ◌+◌, ◌-◌, ◌/◌, ◌%◌, ◌*◌, ◌^◌, ◌≤◌, ◌<◌, ◌≡◌, refl, ap, ◌∙◌, ◌⊎◌, inl, inr, not, ltb, leb, ◌&&◌,
  ◌||◌, ◌==◌, if◌then◌else◌, Option, none, some, arith, Bool-cases,
}
use soa_subject.Image.{
  File, Output, Failure, boot_not_512, no_boot_flag, image, write, check_boot, or_else, minix_open,
  size_bytes, write_parts, write_sizes, build, build_from,
}
use soa_subject.Image.Parts.{Laid, write_parts-Laid}

-- An `unsigned int` in memory at `p`.
unfoldable pub long_at : (ℕ → ℕ) → ℕ → ℕ
long_at m p = m p + m (p + 1) * 2 ^ 8 + m (p + 2) * 2 ^ 16 + m (p + 3) * 2 ^ 24

module _ (sys_size usr_size : ℕ) (o : Output) where
  -- The places from 500 on that are written.
  sizes_lem :
      (p : ℕ)
      → (write_sizes sys_size usr_size o).bytes p ≡ (
          if leb 520 p && ltb p 524
          then size_bytes 0x7E1A (p - 520)
          else if leb 516 p && ltb p 520
          then size_bytes usr_size (p - 516)
          else if leb 512 p && ltb p 516
          then size_bytes sys_size (p - 512)
          else if leb 500 p && ltb p 502
          then size_bytes ((sys_size + usr_size + 15) % 2 ^ 32 / 16) (p - 500)
          else o.bytes p)
  unfolding write_sizes write
  sizes_lem p = refl

  sizes_length : 524 ≤ o.length → (write_sizes sys_size usr_size o).length ≡ o.length
  unfolding write_sizes write
  sizes_length h = ground arith

-- The boot flag of a sector that passes.
boot_flag :
    (f : File) → check_boot f ≡ none → (f.bytes (32 + 510) ≡ 0x55) × (f.bytes (32 + 511) ≡ 0xAA)
unfolding check_boot or_else
boot_flag f h = go (minix_open f) h
  where
    go :
        (e : Option Failure)
        → or_else e (
            if not ((if ltb 1024 (f.size - 32) then 1024 else f.size - 32) == 512)
            then some boot_not_512
            else if not (f.bytes (32 + 510) == 0x55) || not (f.bytes (32 + 511) == 0xaa)
            then some no_boot_flag
            else none)
          ≡ none
        → (f.bytes (32 + 510) ≡ 0x55) × (f.bytes (32 + 511) ≡ 0xAA)
    go none p = ground arith
    go (some e) p = cc

-- What the boot sector and the kernel find in the image.
pub record IsImage (boot sys usr : File) (o : Output) : Type 0 where
  pub length : o.length ≡ 512 + sys.size + usr.size
  pub paragraphs :
      (sys.size + usr.size ≤ (o.bytes 500 + o.bytes 501 * 2 ^ 8) * 16)
      × ((o.bytes 500 + o.bytes 501 * 2 ^ 8) * 16 < sys.size + usr.size + 16)
  pub flag : (o.bytes 510 ≡ 0x55) × (o.bytes 511 ≡ 0xAA)
  pub system_size : long_at o.bytes 512 ≡ sys.size
  pub user_size : long_at o.bytes 516 ≡ usr.size
  pub sector : (q : ℕ) → (500 ≤ q) ⊎ (o.bytes q ≡ boot.bytes (32 + q))
  pub system : (q : ℕ) → (q < 12) ⊎ (sys.size ≤ q) ⊎ (o.bytes (512 + q) ≡ sys.bytes q)
  pub user : (q : ℕ) → (usr.size ≤ q) ⊎ (o.bytes (512 + long_at o.bytes 512 + q) ≡ usr.bytes q)

module _ (boot sys usr : File) (passed : check_boot boot ≡ none) (room : 12 ≤ sys.size)
    (fits : sys.size + usr.size + 16 ≤ 2 ^ 20) where
  made : Output
  made = write_sizes sys.size usr.size (write_parts boot sys usr)

  laid : Laid boot sys usr (write_parts boot sys usr)
  laid = write_parts-Laid boot sys usr (omega arith) (omega arith)

  system_size_lem : long_at made.bytes 512 ≡ sys.size
  unfolding made long_at size_bytes
  system_size_lem =
      let b = sizes_lem sys.size usr.size (write_parts boot sys usr) in
      omega (arith, b 512, b 513, b 514, b 515)

  user_size_lem : long_at made.bytes 516 ≡ usr.size
  unfolding made long_at size_bytes
  user_size_lem =
      let b = sizes_lem sys.size usr.size (write_parts boot sys usr) in
      omega (arith, b 516, b 517, b 518, b 519)

  paragraphs_lem :
      (sys.size + usr.size ≤ (made.bytes 500 + made.bytes 501 * 2 ^ 8) * 16)
      × ((made.bytes 500 + made.bytes 501 * 2 ^ 8) * 16 < sys.size + usr.size + 16)
  unfolding made size_bytes
  paragraphs_lem =
      let b = sizes_lem sys.size usr.size (write_parts boot sys usr) in omega (arith, b 500, b 501)

  made-IsImage : IsImage boot sys usr made
  unfolding made
  made-IsImage =
      let b = sizes_lem sys.size usr.size (write_parts boot sys usr) in
      record {
        length = sizes_length _ _ _ (omega (arith, laid.length)) ∙ laid.length;
        paragraphs = paragraphs_lem;
        flag = (
          b 510 ∙ laid.sector 510 (omega arith) ∙ (boot_flag boot passed).0,
          b 511 ∙ laid.sector 511 (omega arith) ∙ (boot_flag boot passed).1,
        );
        system_size = system_size_lem;
        user_size = user_size_lem;
        sector = λ q. elim (Bool-cases (leb 500 q)) [
          | inl t ↦ inl (ground (arith, t))
          | inr t ↦
              inr
                (let lt : q < 512 = ground (arith, t) in b q ∙ ground (arith, t, laid.sector q lt))
        ];
        system = λ q. elim (Bool-cases (ltb q 12)) [
          | inl t ↦ inl (ground (arith, t))
          | inr t ↦ elim (Bool-cases (leb sys.size q)) [
            | inl u ↦ inr (inl (ground (arith, u)))
            | inr u ↦ inr (inr (b (512 + q) ∙ ground (arith, t, u, laid.system q)))
          ]
        ];
        user = λ q. elim (Bool-cases (leb usr.size q)) [
          | inl t ↦ inl (ground (arith, t))
          | inr t ↦ inr (
              ap (λ n. made.bytes (512 + n + q)) system_size_lem
              ∙ b (512 + sys.size + q)
              ∙ ground (arith, t, laid.user q))
        ];
      }

pub build-IsImage :
    (boot sys usr : File)
    → check_boot boot ≡ none
    → 12 ≤ sys.size
    → sys.size + usr.size + 16 ≤ 2 ^ 20
    → (o : Output) × (build 4 (some boot) (some sys) (some usr) ≡ image o) × IsImage boot sys usr o
unfolding build build_from made
build-IsImage boot sys usr passed room fits =
    let s : sys.size % 2 ^ 32 ≡ sys.size = omega arith in
    let u : usr.size % 2 ^ 32 ≡ usr.size = omega arith in
    (
      made boot sys usr passed room fits,
      rw (passed, s, u) refl,
      made-IsImage boot sys usr passed room fits,
    )

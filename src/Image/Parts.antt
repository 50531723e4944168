-- ===== src/Image/Parts.antt =====
-- What stands where in the disk image of zeos/build.c, as zeos/system.c reads it.
use soa_subject.Prelude.{
  ℕ, zero, suc, ◌+◌, ◌-◌, ◌%◌, ◌^◌, ◌≤◌, ◌<◌, ◌≡◌, refl, ◌∙◌, ◌⊎◌, inl, inr, ltb, leb, ◌&&◌, ◌||◌,
  ◌==◌, if◌then◌else◌, update, arith, Bool-cases,
}
use soa_subject.Image.{File, Output, write, copy_file, write_parts, empty_output}

-- An output that goes on with a file: `sz` bytes of it from byte `at` on.
record Copied (f : File) (at sz : ℕ) (o o' : Output) : Type 0 where
  place : o'.place ≡ o.place + sz
  length : o'.length ≡ (if ltb o.length (o.place + sz) then o.place + sz else o.length)
  bytes :
      (p : ℕ)
      → o'.bytes p ≡ (
          if leb o.place p && ltb p (o.place + sz) then f.bytes (at + (p - o.place)) else o.bytes p)

Copied-step :
    (f : File) (at l sz : ℕ) (o o' : Output)
    → l ≤ sz
    → Copied f (at + l) (sz - l) (write (λ p. f.bytes (at + p)) l o) o'
    → Copied f at sz o o'
unfolding write
Copied-step f at l sz o o' le c = record {
  place = omega (arith, c.place);
  length = c.length ∙ ground arith;
  bytes = λ p.
      let q : at + l + (p - (o.place + l)) ≡ at + (p - o.place) ⊎ (p < o.place + l) =
        ground arith in
      c.bytes p ∙ ground (arith, q);
}

Copied-zero : (f : File) (at sz : ℕ) (o : Output) → o.place ≤ o.length → sz ≡ 0 → Copied f at sz o o
Copied-zero f at sz o le e = record {
  place = omega arith;
  length = ground arith;
  bytes = λ p. ground arith;
}

copy_file-Copied :
    (fuel : ℕ) (f : File) (at sz : ℕ) (o : Output)
    → sz ≤ fuel
    → o.place ≤ o.length
    → Copied f at sz o (copy_file fuel f at sz o)
unfolding copy_file
copy_file-Copied zero f at sz o h le = Copied-zero f at sz o le (omega arith)
copy_file-Copied (suc fuel) f at sz o h le = elim (Bool-cases (ltb 0 sz)) [
  | inr t ↦ rw t (Copied-zero f at sz o le (ground (arith, t)))
  | inl t ↦
      let l = if ltb 1024 sz then 1024 else sz in
      let some_bytes : (l ≤ sz) × (1 ≤ l) = ground (arith, t) in
      let rest =
        copy_file-Copied fuel f (at + l) (sz - l) (write (λ p. f.bytes (at + p)) l o)
          (omega (arith, some_bytes.1)) (unfold write in ground arith) in
      rw t (Copied-step f at l sz o _ some_bytes.0 rest)
]

-- The boot sector, the system and the user's program, one behind the other.
pub record Laid (boot sys usr : File) (o : Output) : Type 0 where
  pub length : o.length ≡ 512 + sys.size + usr.size
  pub sector :
      (p : ℕ) → p < 512 → o.bytes p ≡ (if (p == 508) || (p == 509) then 0 else boot.bytes (32 + p))
  pub system : (q : ℕ) → q < sys.size → o.bytes (512 + q) ≡ sys.bytes q
  pub user : (q : ℕ) → q < usr.size → o.bytes (512 + sys.size + q) ≡ usr.bytes q

module _ (boot sys usr : File) where
  first_part : Output
  first_part = write (update (update (λ p. boot.bytes (32 + p)) 508 0) 509 0) 512 empty_output

  second_part : Output
  unfolding first_part
  second_part = copy_file sys.size sys 0 sys.size first_part

  first_lem :
      (first_part.place ≡ 512)
      × (first_part.length ≡ 512)
      × ((p : ℕ)
          → p < 512
          → first_part.bytes p ≡ (if (p == 508) || (p == 509) then 0 else boot.bytes (32 + p)))
  unfolding first_part write
  first_lem = (refl, refl, λ p h. ground arith)

  second_Copied : Copied sys 0 sys.size first_part second_part
  unfolding second_part
  second_Copied =
      copy_file-Copied sys.size sys 0 sys.size first_part (omega arith)
        (omega (arith, first_lem.0, first_lem.1))

  third_part : Output
  unfolding second_part
  third_part = copy_file usr.size usr 0 usr.size second_part

  second_place : (second_part.place ≡ 512 + sys.size) × (second_part.length ≡ 512 + sys.size)
  second_place =
      let c = second_Copied in ground (arith, c.place, c.length, first_lem.0, first_lem.1)

  third_Copied : Copied usr 0 usr.size second_part third_part
  unfolding third_part
  third_Copied =
      copy_file-Copied usr.size usr 0 usr.size second_part (omega arith)
        (omega (arith, second_place.0, second_place.1))

  -- The user's program changes nothing before it.
  third_before : (p : ℕ) → p < 512 + sys.size → third_part.bytes p ≡ second_part.bytes p
  third_before p h = third_Copied.bytes p ∙ ground (arith, second_place.0)

  third_Laid : Laid boot sys usr third_part
  third_Laid = record {
    length = third_Copied.length ∙ ground (arith, second_place.0, second_place.1);
    sector = λ p h.
        third_before p (omega arith)
        ∙ second_Copied.bytes p
        ∙ ground (arith, first_lem.0, first_lem.2 p h);
    system = λ q h.
        let at : 512 + q - first_part.place ≡ q = omega (arith, first_lem.0) in
        third_before (512 + q) (omega arith)
        ∙ second_Copied.bytes (512 + q)
        ∙ ground (arith, first_lem.0, at);
    user = λ q h.
        let at : 512 + sys.size + q - second_part.place ≡ q = omega (arith, second_place.0) in
        third_Copied.bytes (512 + sys.size + q) ∙ ground (arith, second_place.0, at);
  }

  pub write_parts-Laid :
      sys.size < 2 ^ 32 → usr.size < 2 ^ 32 → Laid boot sys usr (write_parts boot sys usr)
  unfolding write_parts third_part second_part first_part
  write_parts-Laid hs hu =
      let s : sys.size % 2 ^ 32 ≡ sys.size = omega arith in
      let u : usr.size % 2 ^ 32 ≡ usr.size = omega arith in rw (s, u) third_Laid

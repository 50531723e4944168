-- ===== src/Boot/Copied.antt =====
-- The copying through the page tables at the start of the kernel (`copy_data`, called by `main` of
-- zeos/system.c).
use soa_subject.Prelude.{
  ℕ, zero, suc, ◌+◌, ◌-◌, ◌*◌, ◌/◌, ◌≤◌, ◌<◌, ◌≡◌, ap, ◌∙◌, subst, ltb, leb, ◌&&◌, ◌==◌,
  if◌then◌else◌, arith, Bool-cases, inl, inr, for_range_inv,
}
use soa_subject.Config.{page_size}
use soa_subject.Mm.{Memory, get_frame}
use soa_subject.Boot.Pages.{Placed}
use soa_subject.Boot.{Ram, load8, store8, copy_bytes, copy_logical}

-- The addresses of the pages that `Placed` places.
abbrev pub InPages : ℕ → Type 0
InPages a = (page_size ≤ a) × (a < 284 * page_size)

module _ (pt : ℕ) (m : Memory) (p : Placed pt m) where
  frame_lem :
      (a : ℕ)
      → InPages a
      → let i = a / page_size in get_frame pt i m ≡ (if ltb i 256 then i else 256 + 2 * (i - 256))
  frame_lem a h = elim (Bool-cases (ltb (a / page_size) 256)) [
    | inl e ↦ rw e (p.kernel (a / page_size) (omega arith) (ground (arith, e)))
    | inr e ↦ rw e (
        ap (λ i. get_frame pt i m)
          (let b : a / page_size ≡ 256 + (a / page_size - 256) = ground (arith, e) in b)
        ∙ p.user (a / page_size - 256) (omega arith))
  ]

  -- A byte that is stored is read back, and no other changes.
  load-store :
      (a b v : ℕ) (ram : Ram)
      → InPages a
      → InPages b
      → load8 pt a m (store8 pt b v m ram) ≡ (if a == b then v else load8 pt a m ram)
  unfolding load8 store8
  load-store a b v ram ha hb = ground (arith, frame_lem a ha, frame_lem b hb)

  -- What `n` bytes copied to `dest` leave at the address `a`.
  abbrev pub Copied : (n start dest : ℕ) → (ram ram' : Ram) → Type 0
  Copied n start dest ram ram' =
      (a : ℕ)
      → InPages a
      → load8 pt a m ram' ≡ (
          if leb dest a && ltb a (dest + n)
          then load8 pt (start + (a - dest)) m ram
          else load8 pt a m ram)

  -- One byte more.
  Copied-next :
      (n start dest : ℕ) (ram r : Ram)
      → page_size ≤ start
      → start + n < dest
      → dest + n < 284 * page_size
      → Copied n start dest ram r
      → Copied (n + 1) start dest ram (store8 pt (dest + n) (load8 pt (start + n) m r) m r)
  Copied-next n start dest ram r lo apart fits c a ha =
      let v = load8 pt (start + n) m r in
      load-store a (dest + n) v r ha (omega arith) ∙ elim (Bool-cases (a == dest + n)) [
        | inl e ↦
            let at : start + n ≡ start + (a - dest) = ground (arith, e) in
            let moved = ap (λ b. load8 pt b m ram) at in
            let source : v ≡ load8 pt (start + n) m ram =
              c (start + n) (omega arith) ∙ ground arith in
            ground (arith, e, source, moved)
        | inr e ↦ ground (arith, e, c a ha)
      ]

  copy_bytes-Copied :
      (n start dest : ℕ) (ram : Ram)
      → page_size ≤ start
      → start + n ≤ dest
      → dest + n ≤ 284 * page_size
      → Copied n start dest ram (copy_bytes n pt start dest m ram)
  unfolding copy_bytes
  copy_bytes-Copied n start dest ram lo apart fits =
      for_range_inv (λ i r. Copied i start dest ram r) _ n 0 n ram (omega arith)
        (λ i r _ l c. Copied-next i start dest ram r lo (omega arith) (omega arith) c)
        (λ a ha. ground arith)

  -- A word, and then the bytes behind it.
  Copied-join :
      (n start dest : ℕ) (ram word ram' : Ram)
      → page_size ≤ start
      → start + (n + 4) ≤ dest
      → dest + (n + 4) ≤ 284 * page_size
      → Copied 4 start dest ram word
      → Copied n (start + 4) (dest + 4) word ram'
      → Copied (n + 4) start dest ram ram'
  Copied-join n start dest ram word ram' lo apart fits c d a ha =
      d a ha ∙ elim (Bool-cases (leb (dest + 4) a && ltb a (dest + (n + 4)))) [
        | inl t ↦
            let at : start + 4 + (a - (dest + 4)) ≡ start + (a - dest) = ground (arith, t) in
            let moved = ap (λ b. load8 pt b m word) at in
            ground (arith, t, moved, c (start + (a - dest)) (ground (arith, t), ground (arith, t)))
        | inr t ↦ ground (arith, t, c a ha)
      ]

  pub copy_logical-Copied :
      (rounds size start dest : ℕ) (ram : Ram)
      → size < rounds
      → page_size ≤ start
      → start + size ≤ dest
      → dest + size ≤ 284 * page_size
      → Copied size start dest ram (copy_logical rounds size pt start dest m ram)
  unfolding copy_logical
  copy_logical-Copied zero size start dest ram enough lo apart fits = absurd (omega arith)
  copy_logical-Copied (suc rounds) size start dest ram enough lo apart fits =
      elim (Bool-cases (ltb 4 size)) [
        | inr e ↦ rw e (copy_bytes-Copied size start dest ram lo apart fits)
        | inl e ↦
            let word = copy_bytes 4 pt start dest m ram in
            let back : size - 4 + 4 ≡ size = ground (arith, e) in
            let last = copy_logical rounds (size - 4) pt (start + 4) (dest + 4) m word in
            rw e (
              subst (λ n. Copied n start dest ram last) back
                (Copied-join (size - 4) start dest ram word last lo (omega (arith, back))
                  (omega (arith, back))
                  (copy_bytes-Copied 4 start dest ram lo (omega (arith, back))
                    (omega (arith, back)))
                  (copy_logical-Copied rounds (size - 4) (start + 4) (dest + 4) word
                    (omega (arith, back)) (omega arith) (omega (arith, back))
                    (omega (arith, back)))))
      ]

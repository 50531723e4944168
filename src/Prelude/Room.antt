-- ===== src/Prelude/Room.antt =====
-- Distinct numbers from 1 to `n` are `n` at most.
use Prim.Native.Nat.{ℕ, zero, suc, ◌≤◌}
use mathlib.Core.Path.{subst}
use mathlib.Core.Logic.{◌≢◌, inl, inr}
use mathlib.Core.List.{List, [], ◌∷◌}
use native.Mathlib.Omega.{arith}
use soa_subject.Prelude.Tests.{◌==◌, if◌then◌else◌, ==→≡, ==→≢, Bool-cases}
use soa_subject.Prelude.Lists.{length, All, All_mono, All-both, NotIn, Distinct}

-- The list without the first `m`.
erase : ℕ → List ℕ → List ℕ
erase m [] = []
erase m (x ∷ xs) = if x == m then xs else x ∷ erase m xs

length-erase : (m : ℕ) (xs : List ℕ) → length xs ≤ suc (length (erase m xs))
unfolding erase
length-erase m [] = omega arith
length-erase m (x ∷ xs) = ground (arith, length-erase m xs)

All-erase {κ} : (P : ℕ → Type κ) (m : ℕ) (xs : List ℕ) → All P xs → All P (erase m xs)
unfolding erase
All-erase P m [] h = tt
All-erase P m (x ∷ xs) h = elim (Bool-cases (x == m)) [
  | inl e ↦ rw e h.1
  | inr e ↦ rw e (h.0, All-erase P m xs h.1)
]

Distinct-erase : (m : ℕ) (xs : List ℕ) → Distinct xs → Distinct (erase m xs)
unfolding erase
Distinct-erase m [] d = tt
Distinct-erase m (x ∷ xs) d = elim (Bool-cases (x == m)) [
  | inl e ↦ rw e d.1
  | inr e ↦ rw e (All-erase (λ y. y ≢ x) m xs d.0, Distinct-erase m xs d.1)
]

NotIn-erase : (m : ℕ) (xs : List ℕ) → Distinct xs → NotIn m (erase m xs)
unfolding erase
NotIn-erase m [] d = tt
NotIn-erase m (x ∷ xs) d = elim (Bool-cases (x == m)) [
  | inl e ↦ rw e (subst (λ k. NotIn k xs) (==→≡ x m e) d.0)
  | inr e ↦ rw e (==→≢ x m e, NotIn-erase m xs d.1)
]

pub length_of_Distinct :
    (n : ℕ) (xs : List ℕ) → Distinct xs → All (λ x. (1 ≤ x) × (x ≤ n)) xs → length xs ≤ n
length_of_Distinct n [] d h = omega arith
length_of_Distinct zero (x ∷ xs) d h = absurd (omega arith)
length_of_Distinct (suc n) (x ∷ xs) d h = omega (
  arith,
  length-erase (suc n) (x ∷ xs),
  length_of_Distinct n (erase (suc n) (x ∷ xs)) (Distinct-erase (suc n) (x ∷ xs) d) (
      All_mono (erase (suc n) (x ∷ xs)) (λ y k. omega (arith, k))
        (All-both (λ y. (1 ≤ y) × (y ≤ suc n)) (λ y. y ≢ suc n) (erase (suc n) (x ∷ xs))
          (All-erase (λ y. (1 ≤ y) × (y ≤ suc n)) (suc n) (x ∷ xs) h)
          (NotIn-erase (suc n) (x ∷ xs) d))),
)

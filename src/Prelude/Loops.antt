-- ===== src/Prelude/Loops.antt =====
-- Counted loops, and the rule that an invariant gives.
use Prim.Native.Nat.{ℕ, zero, suc, ◌+◌, ◌-◌, ◌<◌, ◌≤◌}
use mathlib.Core.Path.{◌≡◌, ◌∙◌, refl, ap, subst}
use mathlib.Core.Bool.{◌&&◌}
use native.Mathlib.Omega.{arith}
use soa_subject.Prelude.Tests.{if◌then◌else◌, ltb, leb, update}

-- `for (k = first; k < first + rounds; k++) state = step(k, state)`.
module _ {ℓ} {S : Type ℓ} where
  unfoldable pub for_range : (rounds first : ℕ) → (step : ℕ → S → S) → S → S
  for_range zero first step state = state
  for_range (suc rounds) first step state = for_range rounds (first + 1) step (step first state)

-- `for (k = first; k > first - rounds; k--) state = step(k, state)`.
module _ {ℓ} {S : Type ℓ} where
  unfoldable pub for_down : (rounds first : ℕ) → (step : ℕ → S → S) → S → S
  for_down zero first step state = state
  for_down (suc rounds) first step state = for_down rounds (first - 1) step (step first state)

-- What each round keeps, from `first` up to `last`, holds at the end.
module _ {ℓ κ} {S : Type ℓ} (Inv : ℕ → S → Type κ) (step : ℕ → S → S) where
  pub for_range_inv :
      (rounds first last : ℕ) (state : S)
      → first + rounds ≡ last
      → ((k : ℕ) (t : S) → first ≤ k → k < last → Inv k t → Inv (k + 1) (step k t))
      → Inv first state
      → Inv last (for_range rounds first step state)
  unfolding for_range
  for_range_inv zero first last state end keep start =
      subst (λ k. Inv k state) (let same : first ≡ last = omega arith in same) start
  for_range_inv (suc rounds) first last state end keep start =
      let once = keep first state (omega arith) (omega arith) start in
      for_range_inv rounds (first + 1) last (step first state) (omega arith)
        (λ k t lo hi inv. keep k t (let le : first ≤ k = omega arith in le) hi inv) once

-- A loop that writes `v k` at each index `k` of its range.
pub for_range-update {ℓ} :
    {A : Type ℓ} (n i : ℕ) (v : ℕ → A) (f : ℕ → A) (j : ℕ)
    → for_range n i (λ k g. update g k (v k)) f j ≡ (if leb i j && ltb j (i + n) then v j else f j)
unfolding for_range
for_range-update zero i v f j = ground arith
for_range-update (suc n) i v f j = for_range-update n (i + 1) v (update f i (v i)) j ∙ ground arith

pub for_range-add {ℓ} :
    {S : Type ℓ} (n m i : ℕ) (body : ℕ → S → S) (s : S)
    → for_range (n + m) i body s ≡ for_range m (i + n) body (for_range n i body s)
unfolding for_range
for_range-add zero m i body s =
    ap (λ a. for_range a i body s) (let e : zero + m ≡ m = omega arith in e)
    ∙ ap (λ a. for_range m a body s) (let e : i ≡ i + zero = omega arith in e)
for_range-add (suc n) m i body s =
    ap (λ a. for_range a i body s) (let e : suc n + m ≡ suc (n + m) = omega arith in e)
    ∙ for_range-add n m (i + 1) body (body i s)
    ∙ ap (λ a. for_range m a body (for_range n (i + 1) body (body i s)))
        (let e : i + 1 + n ≡ i + suc n = omega arith in e)

-- Bodies that agree on the range give the same.
pub for_range-cong {ℓ} :
    {S : Type ℓ} (n i : ℕ) (body body' : ℕ → S → S) (s : S)
    → ((k : ℕ) (t : S) → k < i + n → body k t ≡ body' k t)
    → for_range n i body s ≡ for_range n i body' s
unfolding for_range
for_range-cong zero i body body' s h = refl
for_range-cong (suc n) i body body' s h =
    for_range-cong n (i + 1) body body' (body i s) (λ k t l. h k t (omega arith))
    ∙ ap (for_range n (i + 1) body') (h i s (omega arith))

pub for_range-shift {ℓ} :
    {S : Type ℓ} (n d i : ℕ) (body : ℕ → S → S) (s : S)
    → for_range n (d + i) body s ≡ for_range n i (λ k. body (d + k)) s
unfolding for_range
for_range-shift zero d i body s = refl
for_range-shift (suc n) d i body s =
    ap (λ a. for_range n a body (body (d + i) s))
      (let e : d + i + 1 ≡ d + (i + 1) = omega arith in e)
    ∙ for_range-shift n d (i + 1) body (body (d + i) s)

-- What every round keeps holds at the end, whichever way the loop goes.
module _ {ℓ κ} {S : Type ℓ} (P : S → Type κ) (step : ℕ → S → S)
    (keep : (k : ℕ) (t : S) → P t → P (step k t)) where
  pub for_range_kept :
      (rounds first : ℕ) (state : S) → P state → P (for_range rounds first step state)
  unfolding for_range
  for_range_kept zero first state p = p
  for_range_kept (suc rounds) first state p =
      for_range_kept rounds (first + 1) (step first state) (keep first state p)

  pub for_down_kept :
      (rounds first : ℕ) (state : S) → P state → P (for_down rounds first step state)
  unfolding for_down
  for_down_kept zero first state p = p
  for_down_kept (suc rounds) first state p =
      for_down_kept rounds (first - 1) (step first state) (keep first state p)

-- ===== src/Libc/Rounds.antt =====
-- The two loops of `itoa` (zeos/libc.c): the digits, the lowest first, and their reversal.
use soa_subject.Prelude.{
  ℕ, zero, suc, ◌+◌, ◌-◌, ◌/◌, ◌%◌, ◌≤◌, ◌<◌, ◌≡◌, ◌≢◌, refl, ap, ◌∙◌, ltb, leb, ◌||◌,
  if◌then◌else◌, update, for_range, for_range_inv, arith, Bool-cases, inl, inr,
}
use soa_subject.Libc.{Bytes, Digits, put_digits, swap_digits}

-- `a` without its last `k` decimal digits.
unfoldable pub upper : (k a : ℕ) → ℕ
upper zero a = a
upper (suc k) a = upper k (a / 10)

pub upper-suc : (k a : ℕ) → upper (suc k) a ≡ upper k a / 10
unfolding upper
upper-suc zero a = refl
upper-suc (suc k) a = upper-suc k (a / 10)

-- What the loop leaves: `n` digits of `a`, the lowest at `b + i`.
pub record Written (a i b n : ℕ) (m : Bytes) (d : Digits) : Type 0 where
  pub counted : d.count ≡ i + n
  pub digit : (k : ℕ) → k < n → d.bytes (b + (i + k)) ≡ upper k a % 10 + b'0'
  pub done : upper n a ≡ 0
  pub top : (k : ℕ) → k < n → upper k a ≢ 0
  pub below : (p : ℕ) → p < b + i → d.bytes p ≡ m p
  pub above : (p : ℕ) → b + (i + n) ≤ p → d.bytes p ≡ m p

Written-suc :
    (a i b n : ℕ) (m : Bytes) (d : Digits)
    → 0 < a
    → Written (a / 10) (i + 1) b n (update m (b + i) (a % 10 + b'0')) d
    → Written a i b (suc n) m d
unfolding upper
Written-suc a i b n m d pos w = record {
  counted = omega (arith, w.counted);
  digit = digit';
  done = w.done;
  top = top';
  below = λ p lt. w.below p (omega arith) ∙ ground arith;
  above = λ p le. w.above p (omega arith) ∙ ground arith;
}
  where
    digit' : (k : ℕ) → k < suc n → d.bytes (b + (i + k)) ≡ upper k a % 10 + b'0'
    digit' zero lt = ap d.bytes (omega arith) ∙ w.below (b + i) (omega arith) ∙ ground arith
    digit' (suc k) lt =
        ap d.bytes (let e : b + (i + suc k) ≡ b + (i + 1 + k) = omega arith in e)
        ∙ w.digit k (omega arith)

    top' : (k : ℕ) → k < suc n → upper k a ≢ 0
    top' zero lt = omega arith
    top' (suc k) lt = w.top k (omega arith)

pub put_digits-Written :
    (fuel a i b : ℕ) (m : Bytes) → a ≤ fuel → (n : ℕ) × Written a i b n m (put_digits fuel a i b m)
unfolding put_digits upper
put_digits-Written zero a i b m le = (
  0,
  record {
    counted = omega arith;
    digit = λ k lt. absurd (omega arith);
    done = omega arith;
    top = λ k lt. absurd (omega arith);
    below = λ p lt. refl;
    above = λ p le. refl;
  },
)
put_digits-Written (suc fuel) a i b m le = elim (Bool-cases (ltb 0 a)) [
  | inl t ↦
      let (n, w) =
        put_digits-Written fuel (a / 10) (i + 1) b (update m (b + i) (a % 10 + b'0'))
          (ground (arith, t)) in
      rw t (suc n, Written-suc a i b n m _ (ground (arith, t)) w)
  | inr t ↦ rw t (
    0,
    record {
      counted = omega arith;
      digit = λ k lt. absurd (omega arith);
      done = ground (arith, t);
      top = λ k lt. absurd (omega arith);
      below = λ p lt. refl;
      above = λ p le. refl;
    },
  )
]

-- The rounds that the second loop has made: the outer digits are exchanged.
unfoldable pub Reversed : (n b : ℕ) (m : Bytes) → (i1 : ℕ) → Bytes → Type 0
Reversed n b m i1 r =
    ((k : ℕ)
      → k < n
      → r (b + k) ≡ (if ltb k i1 || leb n (k + i1) then m (b + (n - k - 1)) else m (b + k)))
    × ((p : ℕ) → p < b → r p ≡ m p)
    × ((p : ℕ) → b + n ≤ p → r p ≡ m p)

swap_digits-Reversed :
    (n b : ℕ) (m : Bytes) (i1 : ℕ) (r : Bytes)
    → i1 < n / 2
    → Reversed n b m i1 r
    → Reversed n b m (i1 + 1) (swap_digits n b i1 r)
unfolding swap_digits Reversed
swap_digits-Reversed n b m i1 r lt (inside, below, above) = (
  λ k le. ground (arith, inside k, inside i1, inside (n - i1 - 1)),
  λ p le. ground (arith, below p),
  λ p le. ground (arith, above p),
)

pub reversed_lem :
    (n b : ℕ) (m : Bytes)
    → Reversed n b m (n / 2) (for_range (n / 2) 0 (λ i1 m. swap_digits n b i1 m) m)
reversed_lem n b m =
    for_range_inv (Reversed n b m) (λ i1 m. swap_digits n b i1 m) (n / 2) 0 (n / 2) m (omega arith)
      (λ i1 r lo hi inv. swap_digits-Reversed n b m i1 r hi inv)
      (unfold Reversed in (λ k lt. ground arith, λ p lt. refl, λ p le. refl))

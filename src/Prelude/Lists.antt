-- ===== src/Prelude/Lists.antt =====
-- Lists measured by native numbers, and predicates on them by recursion.
use Prim.Native.Nat.{ℕ, suc, ◌+◌}
use mathlib.Core.Path.{◌≡◌, sym}
use mathlib.Core.Bool.{Bool, true, false}
use mathlib.Core.Logic.{◌≢◌, ◌⊎◌, inl, inr}
use mathlib.Core.List.{List, [], ◌∷◌, ◌++◌}
use native.Mathlib.Omega.{arith}

module _ {ℓ} {A : Type ℓ} where
  abbrev pub length : List A → ℕ
  length [] = 0
  length (x ∷ xs) = suc (length xs)

  abbrev pub is_nil : List A → Bool
  is_nil [] = true
  is_nil (x ∷ xs) = false

  pub length-append : (xs ys : List A) → length (xs ++ ys) ≡ length xs + length ys
  length-append [] ys = omega arith
  length-append (x ∷ xs) ys = omega (arith, length-append xs ys)

abbrev pub All {ℓ κ} : {A : Type ℓ} → (A → Type κ) → List A → Type κ
All P [] = Unit
All P (x ∷ xs) = P x × All P xs

-- `n` differs from every element.
abbrev pub NotIn : ℕ → List ℕ → Type 0
NotIn n xs = All (λ x. x ≢ n) xs

abbrev pub Distinct : List ℕ → Type 0
Distinct [] = Unit
Distinct (x ∷ xs) = NotIn x xs × Distinct xs

pub All-append {ℓ κ} :
    {A : Type ℓ} (P : A → Type κ) (xs ys : List A) → All P xs → All P ys → All P (xs ++ ys)
All-append P [] ys h k = k
All-append P (x ∷ xs) ys h k = (h.0, All-append P xs ys h.1 k)

pub All_mono {ℓ κ μ} :
    {A : Type ℓ} {P : A → Type κ} {Q : A → Type μ} (xs : List A)
    → ((x : A) → P x → Q x)
    → All P xs
    → All Q xs
All_mono [] f h = tt
All_mono (x ∷ xs) f h = (f x h.0, All_mono xs f h.1)

pub All-both {ℓ κ μ} :
    {A : Type ℓ} (P : A → Type κ) (Q : A → Type μ) (xs : List A)
    → All P xs
    → All Q xs
    → All (λ x. P x × Q x) xs
All-both P Q [] h k = tt
All-both P Q (x ∷ xs) h k = ((h.0, k.0), All-both P Q xs h.1 k.1)

pub Distinct-snoc : (xs : List ℕ) (n : ℕ) → Distinct xs → NotIn n xs → Distinct (xs ++ (n ∷ []))
Distinct-snoc [] n d h = (tt, tt)
Distinct-snoc (x ∷ xs) n d h =
    (All-append (λ y. y ≢ x) xs (n ∷ []) d.0 ((λ e. h.0 (sym e)), tt), Distinct-snoc xs n d.1 h.1)

-- `n` is one of the elements.
abbrev pub Occurs : ℕ → List ℕ → Type 0
Occurs n [] = ⊥
Occurs n (x ∷ xs) = (n ≡ x) ⊎ Occurs n xs

pub Occurs-left : (n : ℕ) (xs ys : List ℕ) → Occurs n xs → Occurs n (xs ++ ys)
Occurs-left n [] ys h = absurd h
Occurs-left n (x ∷ xs) ys (inl e) = inl e
Occurs-left n (x ∷ xs) ys (inr h) = inr (Occurs-left n xs ys h)

pub Occurs-right : (n : ℕ) (xs ys : List ℕ) → Occurs n ys → Occurs n (xs ++ ys)
Occurs-right n [] ys h = h
Occurs-right n (x ∷ xs) ys h = inr (Occurs-right n xs ys h)

pub Occurs-other :
    (n m : ℕ) (xs ys : List ℕ) → n ≢ m → Occurs n (xs ++ (m ∷ ys)) → Occurs n (xs ++ ys)
Occurs-other n m [] ys ne (inl e) = absurd (ne e)
Occurs-other n m [] ys ne (inr h) = h
Occurs-other n m (x ∷ xs) ys ne (inl e) = inl e
Occurs-other n m (x ∷ xs) ys ne (inr h) = inr (Occurs-other n m xs ys ne h)

pub All-split {ℓ κ} :
    {A : Type ℓ} (P : A → Type κ) (xs ys : List A) → All P (xs ++ ys) → All P xs × All P ys
All-split P [] ys h = (tt, h)
All-split P (x ∷ xs) ys h = let (a, b) = All-split P xs ys h.1 in ((h.0, a), b)

-- What it says of a list with `n` in the middle that its elements are distinct.
pub record Around (xs : List ℕ) (n : ℕ) (ys : List ℕ) : Type 0 where
  pub left : Distinct xs
  pub right : Distinct ys
  pub not_left : NotIn n xs
  pub not_right : NotIn n ys
  pub apart : All (λ y. NotIn y xs) ys
  pub both : Distinct (xs ++ ys)

NotIn-all : (x : ℕ) (ys : List ℕ) → NotIn x ys → All (λ y. x ≢ y) ys
NotIn-all x [] h = tt
NotIn-all x (y ∷ ys) h = ((λ e. h.0 (sym e)), NotIn-all x ys h.1)

pub Distinct-Around :
    (xs : List ℕ) (n : ℕ) (ys : List ℕ) → Distinct (xs ++ (n ∷ ys)) → Around xs n ys
Distinct-Around [] n ys d = record {
  left = tt;
  right = d.1;
  not_left = tt;
  not_right = d.0;
  apart = All_true ys;
  both = d.1;
}
  where
    All_true : (ys : List ℕ) → All (λ y. NotIn y []) ys
    All_true [] = tt
    All_true (y ∷ ys) = (tt, All_true ys)
Distinct-Around (x ∷ xs) n ys d =
    let r = Distinct-Around xs n ys d.1 in
    let (out, rest) = All-split (λ y. y ≢ x) xs (n ∷ ys) d.0 in
    record {
      left = (out, r.left);
      right = r.right;
      not_left = ((λ e. rest.0 (sym e)), r.not_left);
      not_right = r.not_right;
      apart = All-both (λ y. x ≢ y) (λ y. NotIn y xs) ys (NotIn-all x ys rest.1) r.apart;
      both = (All-append (λ y. y ≢ x) xs ys out rest.1, r.both);
    }

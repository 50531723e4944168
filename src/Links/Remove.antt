-- ===== src/Links/Remove.antt =====
-- `list_del` of zeos/list.c: what it leaves of the list that holds the node.
use soa_subject.Prelude.{
  ℕ, ◌≡◌, ◌≢◌, refl, List, [], ◌∷◌, ◌++◌, arith, NotIn, All, sym, subst, All-append, All_mono,
  append-nil, All-both, All-split, Distinct-Around, Around,
}
use soa_subject.Links.{Links, null, list_del}
use soa_subject.Links.Chain.{
  Linked, IsCircular, frame, split, join, last_of, prev-last, relink, All-last,
}

-- The node behind `p`.
abbrev pub first_of : List ℕ → ℕ → ℕ
first_of [] q = q
first_of (y ∷ ys) q = y

pub All-first : (P : ℕ → Type 0) (ys : List ℕ) (q : ℕ) → P q → All P ys → P (first_of ys q)
All-first P [] q hq us = hq
All-first P (y ∷ ys) q hq us = us.0

next-first : (h : Links) (p : ℕ) (xs : List ℕ) (q : ℕ) → Linked h p xs q → h.next p ≡ first_of xs q
next-first h p [] q l = l.0
next-first h p (x ∷ xs) q l = l.0

module _ {h : Links} {head : ℕ} (xs : List ℕ) (n : ℕ) (ys : List ℕ)
    (c : IsCircular h head (xs ++ (n ∷ ys))) where
  -- `list_del` takes a node out of the list that it is in, and sets its pointers to NULL.
  around : Around xs n ys
  around = Distinct-Around xs n ys c.distinct

  outside : NotIn head xs × NotIn head (n ∷ ys)
  outside = All-split (λ a. a ≢ head) xs (n ∷ ys) c.apart

  halves : Linked h head xs n × Linked h n ys head
  halves = split h head xs n ys head c.linked

  pub prev_eq : h.prev n ≡ last_of head xs
  prev_eq = prev-last h head xs n halves.0

  pub next_eq : h.next n ≡ first_of ys head
  next_eq = next-first h n ys head halves.1

  last_ne : last_of head xs ≢ n
  last_ne = All-last (λ a. a ≢ n) head xs (λ e. outside.1.0 (sym e)) around.not_left

  -- The chain before the node, led to the node behind it.
  before : (b : ℕ) → b ≡ first_of ys head → b ≢ n → NotIn b xs → Linked (list_del n h) head xs b
  unfolding list_del
  before b e ne out =
      relink h (list_del n h) (λ a. a ≢ n) (λ a. (a ≢ n) × (a ≢ b)) head xs n b
        (λ a k m. ground (arith, prev_eq)) (λ a k. ground (arith, next_eq))
        (λ e. outside.1.0 (sym e)) around.not_left
        (All-both (λ a. a ≢ n) (λ a. a ≢ b) xs around.not_left out) outside.0 around.left
        (ground (arith, prev_eq, next_eq, last_ne)) (ground (arith, prev_eq, next_eq)) halves.0

  -- No node behind `n` is the last one before it.
  right_ne_last : All (λ y. y ≢ last_of head xs) ys
  right_ne_last =
      All_mono ys (λ y k e. All-last (λ a. a ≢ y) head xs (λ f. k.1 (sym f)) k.0 (sym e))
        (All-both (λ y. NotIn y xs) (λ y. y ≢ head) ys around.apart outside.1.1)

rejoin :
    {h : Links} {head : ℕ} (xs : List ℕ) (n : ℕ) (ys : List ℕ)
    → IsCircular h head (xs ++ (n ∷ ys))
    → Linked (list_del n h) head (xs ++ ys) head
rejoin {h} {head} xs n [] c =
    subst (λ l. Linked (list_del n h) head l head) (sym (append-nil xs))
      (before xs n [] c head refl (λ e. (outside xs n [] c).1.0 (sym e)) (outside xs n [] c).0)
rejoin {h} {head} xs n (y ∷ ys) c =
    join (list_del n h) head xs y ys head (before xs n (y ∷ ys) c y refl a.not_right.0 a.apart.0) (
      frame h (list_del n h) (λ a. (a ≢ n) × (a ≢ last_of head xs)) (λ a. (a ≢ n) × (a ≢ y)) y ys
        head (λ b k. next_kept b k) (λ b k. prev_kept b k) (a.not_right.0, far.0)
        (All-both (λ b. b ≢ n) (λ b. b ≢ last_of head xs) ys a.not_right.1 far.1)
        (All-both (λ b. b ≢ n) (λ b. b ≢ y) ys a.not_right.1 a.right.0)
        ((λ e. o.1.0 (sym e)), (λ e. o.1.1.0 (sym e))) (halves xs n (y ∷ ys) c).1.2)
  where
    a : Around xs n (y ∷ ys)
    a = around xs n (y ∷ ys) c

    o : NotIn head xs × NotIn head (n ∷ y ∷ ys)
    o = outside xs n (y ∷ ys) c

    far : All (λ b. b ≢ last_of head xs) (y ∷ ys)
    far = right_ne_last xs n (y ∷ ys) c

    next_kept : (b : ℕ) → (b ≢ n) × (b ≢ last_of head xs) → (list_del n h).next b ≡ h.next b
    next_kept b k = unfold list_del in ground (arith, prev_eq xs n (y ∷ ys) c)

    prev_kept : (b : ℕ) → (b ≢ n) × (b ≢ y) → (list_del n h).prev b ≡ h.prev b
    prev_kept b k = unfold list_del in ground (arith, next_eq xs n (y ∷ ys) c)

-- `list_del` takes a node out of the list that it is in and leaves the others in their order; the
-- pointers of the node are NULL then.
pub list_del-removes :
    {h : Links} {head : ℕ} (xs : List ℕ) (n : ℕ) (ys : List ℕ)
    → IsCircular h head (xs ++ (n ∷ ys))
    → IsCircular (list_del n h) head (xs ++ ys)
      × ((list_del n h).next n ≡ null)
      × ((list_del n h).prev n ≡ null)
unfolding list_del
list_del-removes {h} {head} xs n ys c = (
  record {
    linked = rejoin xs n ys c;
    apart = All-append (λ a. a ≢ head) xs ys (outside xs n ys c).0 (outside xs n ys c).1.1;
    distinct = (around xs n ys c).both;
  },
  ground arith,
  ground arith,
)

-- ===== src/Links/Chain.antt =====
-- What the pointers of zeos/list.c stand for: a chain of nodes between two ends.
use soa_subject.Prelude.{
  ℕ, ◌≡◌, ◌≢◌, List, [], ◌∷◌, ◌++◌, arith, NotIn, Distinct, All, sym, ◌∙◌, subst, All-append,
  All-both, Distinct-snoc,
}
use soa_subject.Links.{Links, list_add_tail, list_first}

-- From `p` the `next` pointers lead through the nodes `xs` to `q`, and the `prev` pointers back.
abbrev pub Linked : Links → ℕ → List ℕ → ℕ → Type 0
Linked h p [] q = (h.next p ≡ q) × (h.prev q ≡ p)
Linked h p (x ∷ xs) q = (h.next p ≡ x) × (h.prev x ≡ p) × Linked h x xs q

-- The circular list at `head`.
pub record IsCircular (h : Links) (head : ℕ) (xs : List ℕ) : Type 0 where
  pub linked : Linked h head xs head
  pub apart : NotIn head xs
  pub distinct : Distinct xs

-- A chain is kept if the pointers that it uses are: `P` holds where `next` is kept, `Q` where `prev`.
pub frame :
    (h g : Links) (P Q : ℕ → Type 0) (p : ℕ) (xs : List ℕ) (q : ℕ)
    → ((a : ℕ) → P a → g.next a ≡ h.next a)
    → ((a : ℕ) → Q a → g.prev a ≡ h.prev a)
    → P p
    → All P xs
    → All Q xs
    → Q q
    → Linked h p xs q
    → Linked g p xs q
frame h g P Q p [] q nx pv hp us bs hq l = (nx p hp ∙ l.0, pv q hq ∙ l.1)
frame h g P Q p (x ∷ xs) q nx pv hp us bs hq l =
    (nx p hp ∙ l.0, pv x bs.0 ∙ l.1, frame h g P Q x xs q nx pv us.0 us.1 bs.1 hq l.2)

-- A chain falls into two at each of its nodes.
pub split :
    (h : Links) (p : ℕ) (xs : List ℕ) (n : ℕ) (ys : List ℕ) (q : ℕ)
    → Linked h p (xs ++ (n ∷ ys)) q
    → Linked h p xs n × Linked h n ys q
split h p [] n ys q l = ((l.0, l.1), l.2)
split h p (x ∷ xs) n ys q l = let (a, b) = split h x xs n ys q l.2 in ((l.0, l.1, a), b)

pub join :
    (h : Links) (p : ℕ) (xs : List ℕ) (n : ℕ) (ys : List ℕ) (q : ℕ)
    → Linked h p xs n
    → Linked h n ys q
    → Linked h p (xs ++ (n ∷ ys)) q
join h p [] n ys q a b = (a.0, a.1, b)
join h p (x ∷ xs) n ys q a b = (a.0, a.1, join h x xs n ys q a.2 b)

-- The node before `q`.
abbrev pub last_of : ℕ → List ℕ → ℕ
last_of p [] = p
last_of p (x ∷ xs) = last_of x xs

pub prev-last :
    (h : Links) (p : ℕ) (xs : List ℕ) (q : ℕ) → Linked h p xs q → h.prev q ≡ last_of p xs
prev-last h p [] q l = l.1
prev-last h p (x ∷ xs) q l = prev-last h x xs q l.2

last_ne : (p x : ℕ) (xs : List ℕ) → NotIn p (x ∷ xs) → last_of x xs ≢ p
last_ne p x [] h = h.0
last_ne p x (y ∷ ys) h = last_ne p y ys h.1

-- A chain led to a new end `r`: `next` of its last node and `prev` of `r` are all that it takes.
pub relink :
    (h g : Links) (P Q : ℕ → Type 0) (p : ℕ) (xs : List ℕ) (q r : ℕ)
    → ((a : ℕ) → P a → a ≢ last_of p xs → g.next a ≡ h.next a)
    → ((a : ℕ) → Q a → g.prev a ≡ h.prev a)
    → P p
    → All P xs
    → All Q xs
    → NotIn p xs
    → Distinct xs
    → g.next (last_of p xs) ≡ r
    → g.prev r ≡ last_of p xs
    → Linked h p xs q
    → Linked g p xs r
relink h g P Q p [] q r nx pv hp us bs out d e f l = (e, f)
relink h g P Q p (x ∷ xs) q r nx pv hp us bs out d e f l = (
  nx p hp (λ k. last_ne p x xs out (sym k)) ∙ l.0,
  pv x bs.0 ∙ l.1,
  relink h g P Q x xs q r nx pv us.0 us.1 bs.1 d.0 d.1 e f l.2,
)

pub All-last : (P : ℕ → Type 0) (p : ℕ) (xs : List ℕ) → P p → All P xs → P (last_of p xs)
All-last P p [] hp us = hp
All-last P p (x ∷ xs) hp us = All-last P x xs us.0 us.1

module _ {h : Links} {head : ℕ} {xs : List ℕ} (c : IsCircular h head xs) where
  pub list_first-head : (x : ℕ) (ys : List ℕ) → xs ≡ x ∷ ys → list_first head h ≡ x
  unfolding list_first
  list_first-head x ys e = (subst (λ zs. Linked h head zs head) e c.linked).0

  -- `list_add_tail` puts a node that is not in the list behind its last node.
  pub list_add_tail-append :
      (n : ℕ) → n ≢ head → NotIn n xs → IsCircular (list_add_tail n head h) head (xs ++ (n ∷ []))
  unfolding list_add_tail
  list_add_tail-append n ne out = record {
    linked =
        join g head xs n [] head
          (relink h g (λ a. a ≢ n) (λ a. (a ≢ n) × (a ≢ head)) head xs head n
            (λ a k m. ground (arith, tail_eq)) (λ a k. ground arith) (λ e. ne (sym e)) out
            (All-both (λ a. a ≢ n) (λ a. a ≢ head) xs out c.apart) c.apart c.distinct
            (ground (arith, tail_eq, tail_ne)) (ground (arith, tail_eq)) c.linked)
          (ground (arith, tail_eq, tail_ne), ground (arith));
    apart = All-append (λ a. a ≢ head) xs (n ∷ []) c.apart (ne, tt);
    distinct = Distinct-snoc xs n c.distinct out;
  }
    where
      g : Links
      g = list_add_tail n head h

      tail_eq : h.prev head ≡ last_of head xs
      tail_eq = prev-last h head xs head c.linked

      tail_ne : last_of head xs ≢ n
      tail_ne = All-last (λ a. a ≢ n) head xs (λ e. ne (sym e)) out

-- ===== src/Links/Queues.antt =====
-- Several lists of zeos/list.c over the same nodes: the free tasks, the ready ones, and those
-- blocked on each semaphore. Each node is in one list at most.
use soa_subject.Prelude.{
  ℕ, ◌≡◌, ◌≢◌, refl, ap, is_nil, List, [], ◌∷◌, ◌++◌, arith, NotIn, Occurs, Occurs-left,
  Occurs-right, Occurs-other, All, update, ◌==◌, sym, ◌∙◌, subst, All-append, All-both, All-split,
  Distinct-Around, Around, Bool, true, false, ◌⊎◌, inl, inr, All_mono, update_elim, update_self,
  update_ne,
}
use soa_subject.Links.{Links, null, list_del, list_add_tail, list_first, list_empty}
use soa_subject.Links.Chain.{Linked, IsCircular, frame, prev-last, All-last, list_add_tail-append}
use soa_subject.Links.Remove.{list_del-removes, prev_eq, next_eq, All-first}

-- `live` marks the heads, `queue` gives the nodes of the list at each, and `owner` the head of the
-- list that a node is in, or NULL.
pub record Queues (h : Links) (live : ℕ → Bool) (owner : ℕ → ℕ) (queue : ℕ → List ℕ) : Type 0 where
  pub null_dead : live null ≡ false
  pub head_free : (a : ℕ) → live a ≡ true → owner a ≡ null
  pub circular : (a : ℕ) → live a ≡ true → IsCircular h a (queue a)
  pub owned : (a : ℕ) → live a ≡ true → All (λ x. (owner x ≡ a) × (live x ≡ false)) (queue a)
  pub placed : (x : ℕ) → owner x ≢ null → live (owner x) ≡ true
  pub listed : (a : ℕ) → live a ≡ true → (x : ℕ) → owner x ≡ a → Occurs x (queue a)

module _ {h : Links} {live : ℕ → Bool} {owner : ℕ → ℕ} {queue : ℕ → List ℕ}
    (qs : Queues h live owner queue) where
  ne_null : (a : ℕ) → live a ≡ true → a ≢ null
  ne_null a l e = ground (arith, qs.null_dead, ap live e)

  -- A node that is in no list.
  pub not_queued : (n : ℕ) → owner n ≡ null → (a : ℕ) → live a ≡ true → NotIn n (queue a)
  not_queued n e a l =
      All_mono (queue a) (λ x k f. ne_null a l (sym k.0 ∙ ap owner f ∙ e)) (qs.owned a l)

  -- A list is kept by a change of pointers of `n` and of the list at `head` only.
  others :
      (g : Links) (n head : ℕ)
      → ((a : ℕ) → (a ≢ n) × (a ≢ head) × (owner a ≢ head) → g.next a ≡ h.next a)
      → ((a : ℕ) → (a ≢ n) × (a ≢ head) × (owner a ≢ head) → g.prev a ≡ h.prev a)
      → live head ≡ true
      → (b : ℕ) → live b ≡ true
      → b ≢ head
      → b ≢ n
      → NotIn n (queue b)
      → IsCircular g b (queue b)
  others g n head nx pv lh b lb ne nb out = record {
    linked = frame h g Far Far b (queue b) b nx pv here far far here c.linked;
    apart = c.apart;
    distinct = c.distinct;
  }
    where
      c : IsCircular h b (queue b)
      c = qs.circular b lb

      Far : ℕ → Type 0
      Far a = (a ≢ n) × (a ≢ head) × (owner a ≢ head)

      here : Far b
      here = (nb, ne, (λ e. ne_null head lh (sym e ∙ qs.head_free b lb)))

      far : All Far (queue b)
      far =
          All_mono (queue b)
            (λ x k. (k.0, (λ e. ground (arith, ap live e)), (λ e. ne (sym k.1.0 ∙ e))))
            (All-both (λ x. x ≢ n) (λ x. (owner x ≡ b) × (live x ≡ false)) (queue b) out
              (qs.owned b lb))

  near_ne : (a b head : ℕ) → (a ≢ head) × (owner a ≢ head) → (b ≡ head) ⊎ (owner b ≡ head) → a ≢ b
  near_ne a b head k (inl e) f = k.0 (f ∙ e)
  near_ne a b head k (inr e) f = k.1 (ap owner f ∙ e)

  near_prev : (head : ℕ) → live head ≡ true → (h.prev head ≡ head) ⊎ (owner (h.prev head) ≡ head)
  near_prev head lh =
      subst (λ a. (a ≡ head) ⊎ (owner a ≡ head))
        (sym (prev-last h head (queue head) head (qs.circular head lh).linked))
        (All-last (λ a. (a ≡ head) ⊎ (owner a ≡ head)) head (queue head) (inl refl)
          (All_mono (queue head) (λ x k. inr k.0) (qs.owned head lh)))

  -- `list_add_tail` puts a node that is in no list behind the list at `head`.
  pub add_tail :
      (n head : ℕ)
      → live head ≡ true
      → live n ≡ false
      → owner n ≡ null
      → Queues
          (list_add_tail n head h)
          live
          (update owner n head)
          (update queue head (queue head ++ (n ∷ [])))
  add_tail n head lh ln free = record {
    null_dead = qs.null_dead;
    head_free = λ a l. update_ne owner n head a (live_ne a l) ∙ qs.head_free a l;
    circular =
        update_elim (λ a xs. live a ≡ true → IsCircular g a xs) queue head (queue head ++ (n ∷ []))
          (λ l. list_add_tail-append (qs.circular head lh) n ne (not_queued n free head lh))
          (λ b nb l.
            others g n head next_kept prev_kept lh b l nb (λ e. live_ne b l (sym e))
              (not_queued n free b l));
    owned =
        update_elim
          (λ a xs. live a ≡ true → All (λ x. (update owner n head x ≡ a) × (live x ≡ false)) xs)
          queue head (queue head ++ (n ∷ []))
          (λ l.
            All-append _ (queue head) (n ∷ []) (still head lh) ((update_self owner n head, ln), tt))
          (λ b nb l. still b l);
    placed =
        update_elim (λ x a. a ≢ null → live a ≡ true) owner n head (λ _. lh) (λ x nx. qs.placed x);
    listed =
        update_elim (λ a xs. live a ≡ true → (x : ℕ) → update owner n head x ≡ a → Occurs x xs)
          queue head (queue head ++ (n ∷ []))
          (λ l.
            update_elim (λ x o. o ≡ head → Occurs x (queue head ++ (n ∷ []))) owner n head
              (λ _. Occurs-right n (queue head) (n ∷ []) (inl refl))
              (λ x nx e. Occurs-left x (queue head) (n ∷ []) (qs.listed head lh x e)))
          (λ b nb l.
            update_elim (λ x o. o ≡ b → Occurs x (queue b)) owner n head (λ e. absurd (nb (sym e)))
              (λ x nx e. qs.listed b l x e));
  }
    where
      g : Links
      g = list_add_tail n head h

      live_ne : (a : ℕ) → live a ≡ true → n ≢ a
      live_ne a l e = ground (arith, ap live e)

      ne : n ≢ head
      ne = live_ne head lh

      still :
          (b : ℕ)
          → live b ≡ true
          → All (λ x. (update owner n head x ≡ b) × (live x ≡ false)) (queue b)
      still b l =
          All_mono (queue b) (λ x k. (update_ne owner n head x (λ e. k.0 (sym e)) ∙ k.1.0, k.1.1))
            (All-both (λ x. x ≢ n) (λ x. (owner x ≡ b) × (live x ≡ false)) (queue b)
              (not_queued n free b l) (qs.owned b l))

      next_kept : (a : ℕ) → (a ≢ n) × (a ≢ head) × (owner a ≢ head) → g.next a ≡ h.next a
      next_kept a k =
          unfold list_add_tail in
          ground (arith, near_ne a (h.prev head) head (k.1, k.2) (near_prev head lh))

      prev_kept : (a : ℕ) → (a ≢ n) × (a ≢ head) × (owner a ≢ head) → g.prev a ≡ h.prev a
      prev_kept a k = unfold list_add_tail in ground arith

-- `list_del` takes a node out of its list and leaves every other list as it is.
module _ {h : Links} {live : ℕ → Bool} {owner : ℕ → ℕ} {queue : ℕ → List ℕ}
    (qs : Queues h live owner queue) (head n : ℕ) (xs ys : List ℕ) (lh : live head ≡ true)
    (here : queue head ≡ xs ++ (n ∷ ys)) where
  held : IsCircular h head (xs ++ (n ∷ ys))
  held = subst (IsCircular h head) here (qs.circular head lh)

  Held : ℕ → Type 0
  Held x = (owner x ≡ head) × (live x ≡ false)

  owned_parts : All Held xs × All Held (n ∷ ys)
  unfolding Held
  owned_parts = All-split Held xs (n ∷ ys) (subst (All Held) here (qs.owned head lh))

  Near : ℕ → Type 0
  Near a = (a ≡ head) ⊎ (owner a ≡ head)

  Near-before : Near (h.prev n)
  unfolding Near Held
  Near-before =
      subst Near (sym (prev_eq xs n ys held))
        (All-last Near head xs (inl refl) (All_mono xs (λ x k. inr k.0) owned_parts.0))

  Near-behind : Near (h.next n)
  unfolding Near Held
  Near-behind =
      subst Near (sym (next_eq xs n ys held))
        (All-first Near ys head (inl refl) (All_mono ys (λ x k. inr k.0) owned_parts.1.1))

  pub remove : Queues (list_del n h) live (update owner n null) (update queue head (xs ++ ys))
  unfolding Near Held
  remove = record {
    null_dead = qs.null_dead;
    head_free = λ a l. update_ne owner n null a (live_ne a l) ∙ qs.head_free a l;
    circular =
        update_elim (λ a zs. live a ≡ true → IsCircular g a zs) queue head (xs ++ ys)
          (λ l. (list_del-removes xs n ys held).0)
          (λ b nb l.
            others qs g n head next_kept prev_kept lh b l nb (λ e. live_ne b l (sym e))
              (away b nb l));
    owned =
        update_elim
          (λ a zs. live a ≡ true → All (λ x. (update owner n null x ≡ a) × (live x ≡ false)) zs)
          queue head (xs ++ ys)
          (λ l.
            All-append _ xs ys (still head xs ar.not_left owned_parts.0)
              (still head ys ar.not_right owned_parts.1.1))
          (λ b nb l. still b (queue b) (away b nb l) (qs.owned b l));
    placed =
        update_elim (λ x a. a ≢ null → live a ≡ true) owner n null (λ ne. absurd (ne refl))
          (λ x nx. qs.placed x);
    listed =
        update_elim (λ a zs. live a ≡ true → (x : ℕ) → update owner n null x ≡ a → Occurs x zs)
          queue head (xs ++ ys)
          (λ l.
            update_elim (λ x o. o ≡ head → Occurs x (xs ++ ys)) owner n null
              (λ e. absurd (ne_null qs head lh (sym e)))
              (λ x nx e. Occurs-other x n xs ys nx (subst (Occurs x) here (qs.listed head lh x e))))
          (λ b nb l.
            update_elim (λ x o. o ≡ b → Occurs x (queue b)) owner n null
              (λ e. absurd (ne_null qs b l (sym e))) (λ x nx e. qs.listed b l x e));
  }
    where
      g : Links
      g = list_del n h

      ar : Around xs n ys
      ar = Distinct-Around xs n ys held.distinct

      live_ne : (a : ℕ) → live a ≡ true → n ≢ a
      live_ne a l e = ground (arith, ap live e, owned_parts.1.0)

      away : (b : ℕ) → b ≢ head → live b ≡ true → NotIn n (queue b)
      away b nb l =
          All_mono (queue b) (λ x k e. nb (sym k.0 ∙ ap owner e ∙ owned_parts.1.0.0)) (qs.owned b l)

      still :
          (b : ℕ) (zs : List ℕ)
          → NotIn n zs
          → All (λ x. (owner x ≡ b) × (live x ≡ false)) zs
          → All (λ x. (update owner n null x ≡ b) × (live x ≡ false)) zs
      still b zs out k =
          All_mono zs (λ x m. (update_ne owner n null x (λ e. m.0 (sym e)) ∙ m.1.0, m.1.1))
            (All-both (λ x. x ≢ n) (λ x. (owner x ≡ b) × (live x ≡ false)) zs out k)

      next_kept : (a : ℕ) → (a ≢ n) × (a ≢ head) × (owner a ≢ head) → g.next a ≡ h.next a
      next_kept a k =
          unfold list_del in ground (arith, near_ne qs a (h.prev n) head (k.1, k.2) Near-before)

      prev_kept : (a : ℕ) → (a ≢ n) × (a ≢ head) × (owner a ≢ head) → g.prev a ≡ h.prev a
      prev_kept a k =
          unfold list_del in ground (arith, near_ne qs a (h.next n) head (k.1, k.2) Near-behind)

module _ {h : Links} {live : ℕ → Bool} {owner : ℕ → ℕ} {queue : ℕ → List ℕ}
    (qs : Queues h live owner queue) where
  -- `list_first` of a list that is not empty is its first node.
  pub first :
      (head x : ℕ) (xs : List ℕ) → live head ≡ true → queue head ≡ x ∷ xs → list_first head h ≡ x
  unfolding list_first
  first head x xs l e =
      list_first_of (subst (λ zs. Linked h head zs head) e (qs.circular head l).linked)
    where
      list_first_of : Linked h head (x ∷ xs) head → h.next head ≡ x
      list_first_of k = k.0

  -- `list_empty` tells whether the list has a node.
  pub list_empty-queue : (head : ℕ) → live head ≡ true → list_empty head h ≡ is_nil (queue head)
  unfolding list_empty
  list_empty-queue head l = go (queue head) (qs.circular head l)
    where
      go : (xs : List ℕ) → IsCircular h head xs → (h.next head == head) ≡ is_nil xs
      go [] c = ground (arith, c.linked)
      go (x ∷ xs) c = ground (arith, c.linked, c.apart)

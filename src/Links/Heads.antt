-- ===== src/Links/Heads.antt =====
-- New heads of lists (zeos/list.c), heads that are given up, and nodes in no list.
use soa_subject.Prelude.{
  ℕ, ◌≡◌, ◌≢◌, refl, ap, List, [], arith, Occurs, All, update, sym, ◌∙◌, subst, All-both, Bool,
  true, false, All_mono, update_elim, update_ne,
}
use soa_subject.Links.{Links, null, init_list_head}
use soa_subject.Links.Chain.{IsCircular, frame}
use soa_subject.Links.Queues.{Queues, not_queued}

module _ {h : Links} {live : ℕ → Bool} {owner : ℕ → ℕ} {queue : ℕ → List ℕ}
    (qs : Queues h live owner queue) where
  -- The pointers of a node that is in no list may change.
  pub touch :
      (g : Links) (n : ℕ)
      → live n ≡ false
      → owner n ≡ null
      → ((a : ℕ) → a ≢ n → g.next a ≡ h.next a)
      → ((a : ℕ) → a ≢ n → g.prev a ≡ h.prev a)
      → Queues g live owner queue
  touch g n ln free nx pv = record {
    null_dead = qs.null_dead;
    head_free = qs.head_free;
    circular = λ b l.
        let c = qs.circular b l in
        record {
          linked =
              frame h g (λ a. a ≢ n) (λ a. a ≢ n) b (queue b) b nx pv (live_ne b l)
                (not_queued qs n free b l) (not_queued qs n free b l) (live_ne b l) c.linked;
          apart = c.apart;
          distinct = c.distinct;
        };
    owned = qs.owned;
    placed = qs.placed;
    listed = qs.listed;
  }
    where
      live_ne : (b : ℕ) → live b ≡ true → b ≢ n
      live_ne b l e = ground (arith, ap live e)

  -- `INIT_LIST_HEAD` on a node that is in no list makes it the head of an empty one.
  pub init :
      (n : ℕ)
      → owner n ≡ null
      → n ≢ null
      → live n ≡ false
      → Queues (init_list_head n h) (update live n true) owner (update queue n [])
  unfolding init_list_head
  init n free nn ln = record {
    null_dead = update_ne live n true null nn ∙ qs.null_dead;
    head_free =
        update_elim (λ a b. b ≡ true → owner a ≡ null) live n true (λ _. free)
          (λ a ne l. qs.head_free a l);
    circular =
        update_elim (λ a xs. update live n true a ≡ true → IsCircular g a xs) queue n []
          (λ _. record { linked = (ground arith, ground arith); apart = tt; distinct = tt })
          (λ b ne l. kept b ne (was_live b ne l));
    owned =
        update_elim
          (λ a xs.
            update live n true a ≡ true
            → All (λ x. (owner x ≡ a) × (update live n true x ≡ false)) xs)
          queue n [] (λ _. tt) (λ b ne l. still b (was_live b ne l));
    placed = λ x o. placed_more (owner x) (qs.placed x o);
    listed =
        update_elim (λ a xs. update live n true a ≡ true → (x : ℕ) → owner x ≡ a → Occurs x xs)
          queue n [] (λ _ x e. absurd (not_owner x e))
          (λ b ne l x e. qs.listed b (was_live b ne l) x e);
  }
    where
      g : Links
      g = init_list_head n h

      placed_more : (a : ℕ) → live a ≡ true → update live n true a ≡ true
      placed_more a l = ground arith

      not_owner : (x : ℕ) → owner x ≢ n
      not_owner x e = ground (arith, ln, sym (ap live e) ∙ qs.placed x (λ z. nn (sym e ∙ z)))

      was_live : (b : ℕ) → b ≢ n → update live n true b ≡ true → live b ≡ true
      was_live b ne l = sym (update_ne live n true b (λ e. ne (sym e))) ∙ l

      kept : (b : ℕ) → b ≢ n → live b ≡ true → IsCircular g b (queue b)
      kept b ne l =
          let c = qs.circular b l in
          record {
            linked =
                frame h g (λ a. a ≢ n) (λ a. a ≢ n) b (queue b) b (λ a k. ground arith)
                  (λ a k. ground arith) ne (not_queued qs n free b l) (not_queued qs n free b l) ne
                  c.linked;
            apart = c.apart;
            distinct = c.distinct;
          }

      still :
          (b : ℕ)
          → live b ≡ true
          → All (λ x. (owner x ≡ b) × (update live n true x ≡ false)) (queue b)
      still b l =
          All_mono (queue b) (λ x m. (m.1.0, update_ne live n true x (λ e. m.0 (sym e)) ∙ m.1.1))
            (All-both (λ x. x ≢ n) (λ x. (owner x ≡ b) × (live x ≡ false)) (queue b)
              (not_queued qs n free b l) (qs.owned b l))

  -- A head whose list is empty may be given up.
  pub drop : (n : ℕ) → queue n ≡ [] → live n ≡ true → Queues h (update live n false) owner queue
  drop n e ln = record {
    null_dead =
        update_elim (λ a b. a ≡ null → b ≡ false) live n false (λ _. refl)
          (λ a ne f. ap live f ∙ qs.null_dead) null refl;
    head_free = λ a l. qs.head_free a (was_live a l);
    circular = λ a l. qs.circular a (was_live a l);
    owned = λ a l.
        All_mono (queue a)
          (λ x k. (
            k.0,
            update_elim (λ b d. live b ≡ false → d ≡ false) live n false (λ _. refl) (λ b ne f. f) x
                k.1,
          ))
          (qs.owned a (was_live a l));
    placed = λ x o. update_ne live n false (owner x) (λ f. empty_at x (sym f)) ∙ qs.placed x o;
    listed = λ a l. qs.listed a (was_live a l);
  }
    where
      was_live : (a : ℕ) → update live n false a ≡ true → live a ≡ true
      was_live a l = ground arith

      empty_at : (x : ℕ) → owner x ≢ n
      empty_at x f = subst (Occurs x) e (qs.listed n ln x f)

-- ===== src/Sched/Spawn.antt =====
-- Taking the first free task and queueing it, as `sys_fork` and `sys_createthread` do.
use soa_subject.Prelude.{
  ℕ, ◌≤◌, ◌<◌, ◌≡◌, ◌≢◌, refl, sym, ap, ◌∙◌, subst, ◌⊎◌, inl, inr, true, false, update, List, [],
  ◌∷◌, ◌++◌, arith, length, All, update_self, update_ne, update_elim,
}
use soa_subject.Config.{nr_tasks}
use soa_subject.Links.{Links, null, list_add_tail, list_del}
use soa_subject.Links.Queues
use soa_subject.Links.Heads
use soa_subject.Links.Queues.{Queues}
use soa_subject.Kernel.{Kernel, task_link, freequeue, readyqueue, sem_blocked}
use soa_subject.Sched.{is_running}
use soa_subject.Sched.Invariant.{Counted, Counters, IsValid, live}

module _ {k : Kernel} (v : IsValid k) (x : ℕ) (xs : List ℕ) (e : v.queue freequeue ≡ x ∷ xs) where
  held : (v.owner x ≡ freequeue) × (live k.list_sem x ≡ false)
  held =
      (subst (All (λ y. (v.owner y ≡ freequeue) × (live k.list_sem y ≡ false))) e
        (v.base.queues.owned freequeue refl)).0

  -- The first free task is neither the running one nor idle.
  pub first_free-fresh :
      (1 ≤ x) × (x ≤ nr_tasks) × (x ≢ task_link k.current) × (x ≢ task_link k.idle_task)
  first_free-fresh =
      let r = v.base.range x (λ z. absurd (omega (arith, held.0, z))) in
      (
        r.0,
        r.1,
        (λ f. absurd (omega (arith, held.0, ap v.owner f, v.runs.unqueued))),
        (λ f. absurd (not_idle f v.base.idle_home)),
      )
    where
      not_idle :
          x ≡ task_link k.idle_task
          → (v.owner (task_link k.idle_task) ≡ null)
            ⊎ (v.owner (task_link k.idle_task) ≡ readyqueue)
          → ⊥
      not_idle f (inl h) = absurd (omega (arith, held.0, ap v.owner f, h))
      not_idle f (inr h) = absurd (omega (arith, held.0, ap v.owner f, h))

  abbrev claimed : ℕ → List ℕ
  claimed = update v.queue freequeue xs

  -- The queues once the task is at the end of the list at `head`.
  abbrev pub queue_with : ℕ → ℕ → List ℕ
  queue_with head = update claimed head (claimed head ++ (x ∷ []))

  abbrev owner_with : ℕ → ℕ → ℕ
  owner_with head = update (update v.owner x null) x head

  pub owner_other : (head y : ℕ) → y ≢ x → owner_with head y ≡ v.owner y
  owner_other head y ne =
      update_ne (update v.owner x null) x head y (λ f. ne (sym f))
      ∙ update_ne v.owner x null y (λ f. ne (sym f))

  pub queue-sem :
      (head s : ℕ) → head < 13 → queue_with head (sem_blocked s) ≡ v.queue (sem_blocked s)
  queue-sem head s lt =
      update_ne claimed head (claimed head ++ (x ∷ [])) (sem_blocked s) (omega arith)
      ∙ update_ne v.queue freequeue xs (sem_blocked s) (omega arith)

  pub spawned-Queues :
      (head : ℕ) (g : Links)
      → live k.list_sem head ≡ true
      → ((a : ℕ) → a ≢ x → g.next a ≡ (list_del x k.links).next a)
      → ((a : ℕ) → a ≢ x → g.prev a ≡ (list_del x k.links).prev a)
      → Queues (list_add_tail x head g) (live k.list_sem) (owner_with head) (queue_with head)
  spawned-Queues head g lh nx pv =
      Queues.add_tail
        (Heads.touch (Queues.remove v.base.queues freequeue x [] xs refl e) g x held.1
          (update_self v.owner x null) nx pv)
        x head lh held.1 (update_self v.owner x null)

  -- What the taking of a task leaves as it was.
  pub record Kept (k' : Kernel) : Type 0 where
    pub sems : k'.list_sem ≡ k.list_sem
    pub current : k'.current ≡ k.current
    pub idle : k'.idle_task ≡ k.idle_task
    pub running : is_running (k'.tasks k'.current).state ≡ true

  -- The task may go to either of the queues, whatever its pointers held in between.
  abbrev pub spawned-IsValid :
      (head : ℕ) (g : Links) (k' : Kernel)
      → live k.list_sem head ≡ true
      → head < 13
      → ((a : ℕ) → a ≢ x → g.next a ≡ (list_del x k.links).next a)
      → ((a : ℕ) → a ≢ x → g.prev a ≡ (list_del x k.links).prev a)
      → k'.links ≡ list_add_tail x head g
      → Kept k'
      → IsValid k'
  spawned-IsValid head g k' lh lt nx pv el r =
      let f = first_free-fresh in
      record {
        owner = owner_with head;
        queue = queue_with head;
        base = record {
          queues =
              subst (λ l. Queues l (live k'.list_sem) (owner_with head) (queue_with head)) (sym el)
                (subst
                  (λ s.
                    Queues (list_add_tail x head g) (live s) (owner_with head) (queue_with head))
                  (sym r.sems) (spawned-Queues head g lh nx pv));
          range =
              update_elim (λ y o. o ≢ null → (1 ≤ y) × (y ≤ nr_tasks)) (update v.owner x null) x
                head (λ _. (f.0, f.1))
                (λ y ne.
                  subst (λ o. o ≢ null → (1 ≤ y) × (y ≤ nr_tasks))
                    (sym (update_ne v.owner x null y (λ z. ne (sym z)))) (v.base.range y));
          current_lt = omega (arith, r.current, v.base.current_lt);
          idle_lt = omega (arith, r.idle, v.base.idle_lt);
          idle_home =
              subst
                (λ i.
                  (owner_with head (task_link i) ≡ null)
                  ⊎ (owner_with head (task_link i) ≡ readyqueue))
                (sym r.idle)
                (subst (λ o. (o ≡ null) ⊎ (o ≡ readyqueue))
                  (sym (owner_other head (task_link k.idle_task) (λ z. f.3 (sym z))))
                  v.base.idle_home);
        };
        runs = record {
          unqueued =
              ap (λ i. owner_with head (task_link i)) r.current
              ∙ owner_other head (task_link k.current) (λ z. f.2 (sym z))
              ∙ v.runs.unqueued;
          marked = r.running;
        };
        counters =
            subst (λ s. Counters s (queue_with head)) (sym r.sems)
              (λ s lts init.
                subst (λ q. Counted (k.list_sem s).counter (length q)) (sym (queue-sem head s lt))
                  (v.counters s lts init));
      }

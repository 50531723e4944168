-- ===== src/Sched/Invariant.antt =====
-- What holds of the queues and of the running task between any two system calls.
use soa_subject.Prelude.{
  ℕ, ◌+◌, ◌-◌, ◌≤◌, ◌<◌, ◌≡◌, ◌≢◌, refl, sym, ap, ◌∙◌, subst, ◌⊎◌, inl, inr, Bool, true, false, not,
  ltb, leb, ◌&&◌, ◌||◌, ◌==◌, if◌then◌else◌, update, List, [], ◌∷◌, arith, is_neg, ◌^◌, length,
  is_nil, Occurs, All, update_self, update_ne, update_elim,
}
use soa_subject.Config.{nr_tasks, max_sem}
use soa_subject.Links.{null, list_del}
use soa_subject.Links.Queues
use soa_subject.Links.Queues.{Queues}
use soa_subject.Kernel.{
  Semaphore, Kernel, task_link, freequeue, readyqueue, sem_blocked, list_head_to_task_struct,
}
use soa_subject.Sched.{is_running, pick_next}

-- The heads of lists: the two queues, and the semaphores that are initialised.
abbrev pub live : (ℕ → Semaphore) → ℕ → Bool
live sems a =
    (a == freequeue)
    || (a == readyqueue)
    || (leb 13 a && ltb a (13 + max_sem) && not ((sems (a - 13)).is_init == 0))

-- The queues are lists of tasks with no task in two of them, and idle is in none but the ready one.
pub record Base (k : Kernel) (owner : ℕ → ℕ) (queue : ℕ → List ℕ) : Type 0 where
  pub queues : Queues k.links (live k.list_sem) owner queue
  pub range : (x : ℕ) → owner x ≢ null → (1 ≤ x) × (x ≤ nr_tasks)
  pub current_lt : k.current < nr_tasks
  pub idle_lt : k.idle_task < nr_tasks
  pub idle_home :
      (owner (task_link k.idle_task) ≡ null) ⊎ (owner (task_link k.idle_task) ≡ readyqueue)

-- The running task is marked so and is in no queue.
pub record Runs (k : Kernel) (owner : ℕ → ℕ) : Type 0 where
  pub unqueued : owner (task_link k.current) ≡ null
  pub marked : is_running (k.tasks k.current).state ≡ true

-- A counter below 0 is minus the number of the tasks that wait.
abbrev pub Counted : ℕ → ℕ → Type 0
Counted c n = (c < 2 ^ 32) × (n ≡ (if is_neg c then 2 ^ 32 - c else 0))

abbrev pub Counters : (ℕ → Semaphore) → (ℕ → List ℕ) → Type 0
Counters sems queue =
    (s : ℕ)
    → s < max_sem
    → (sems s).is_init ≢ 0
    → Counted (sems s).counter (length (queue (sem_blocked s)))

pub record IsValid (k : Kernel) : Type 0 where
  pub owner : ℕ → ℕ
  pub queue : ℕ → List ℕ
  pub base : Base k owner queue
  pub runs : Runs k owner
  pub counters : Counters k.list_sem queue

live_ready : (sems : ℕ → Semaphore) → live sems readyqueue ≡ true
live_ready sems = refl

-- How the choice `p` of the next task changes the queues.
pub record Picked (k : Kernel) (owner : ℕ → ℕ) (queue : ℕ → List ℕ) (p : ℕ × Kernel) : Type 0 where
  pub owner' : ℕ → ℕ
  pub queue' : ℕ → List ℕ
  pub queues : Queues p.1.links (live k.list_sem) owner' queue'
  pub shrinks : (x : ℕ) → owner' x ≢ null → owner' x ≡ owner x
  pub chosen_lt : p.0 < nr_tasks
  pub chosen_out : owner' (task_link p.0) ≡ null
  pub elsewhere : (a : ℕ) → a ≢ readyqueue → queue' a ≡ queue a
  pub taken :
      ((queue readyqueue ≡ []) × (p.0 ≡ k.idle_task) × (queue' readyqueue ≡ []))
      ⊎ (queue readyqueue ≡ task_link p.0 ∷ queue' readyqueue)

module _ {k : Kernel} {owner : ℕ → ℕ} {queue : ℕ → List ℕ} (b : Base k owner queue) where
  idle_out : queue readyqueue ≡ [] → owner (task_link k.idle_task) ≡ null
  idle_out e = go b.idle_home
    where
      go :
          (owner (task_link k.idle_task) ≡ null) ⊎ (owner (task_link k.idle_task) ≡ readyqueue)
          → owner (task_link k.idle_task) ≡ null
      go (inl f) = f
      go (inr f) = absurd (
          subst (Occurs (task_link k.idle_task)) e
            (b.queues.listed readyqueue refl (task_link k.idle_task) f))

  pick_next-nil : queue readyqueue ≡ [] → pick_next k ≡ (k.idle_task, k)
  unfolding pick_next
  pick_next-nil e = rw (Queues.list_empty-queue b.queues readyqueue refl ∙ ap is_nil e)

  pick_next-cons :
      (x : ℕ) (xs : List ℕ)
      → queue readyqueue ≡ x ∷ xs
      → pick_next k ≡ (list_head_to_task_struct x, record k { links = list_del x k.links })
  unfolding pick_next
  pick_next-cons x xs e = rw (
    Queues.list_empty-queue b.queues readyqueue refl ∙ ap is_nil e,
    Queues.first b.queues readyqueue x xs refl e,
  )

  pub pick_lem : Picked k owner queue (pick_next k)
  pick_lem = go (queue readyqueue) refl
    where
      go : (q : List ℕ) → queue readyqueue ≡ q → Picked k owner queue (pick_next k)
      go [] e = subst (Picked k owner queue) (sym (pick_next-nil e)) (record {
        owner' = owner;
        queue' = queue;
        queues = b.queues;
        shrinks = λ x _. refl;
        chosen_lt = b.idle_lt;
        chosen_out = idle_out e;
        elsewhere = λ a _. refl;
        taken = inl (e, refl, e);
      })
      go (x ∷ xs) e =
          let held : owner x ≡ readyqueue =
            (subst (All (λ y. (owner y ≡ readyqueue) × (live k.list_sem y ≡ false))) e
              (b.queues.owned readyqueue refl)).0.0 in
          let r : (1 ≤ x) × (x ≤ nr_tasks) = b.range x (omega arith) in
          let back : x ≡ task_link (list_head_to_task_struct x) = omega arith in
          subst (Picked k owner queue) (sym (pick_next-cons x xs e)) (record {
            owner' = update owner x null;
            queue' = update queue readyqueue xs;
            queues = Queues.remove b.queues readyqueue x [] xs refl e;
            shrinks = λ y.
                update_elim (λ y o. o ≢ null → o ≡ owner y) owner x null (λ ne. absurd (ne refl))
                  (λ y _ _. refl) y;
            chosen_lt = omega arith;
            chosen_out = ap (update owner x null) (sym back) ∙ update_self owner x null;
            elsewhere = λ a ne. update_ne queue readyqueue xs a (λ f. ne (sym f));
            taken = inr (e ∙ ap (λ y. y ∷ xs) back);
          })

-- The parts of the state that the invariant reads.
pub record SameQueues (k k' : Kernel) : Type 0 where
  pub links : k'.links ≡ k.links
  pub sems : k'.list_sem ≡ k.list_sem
  pub current : k'.current ≡ k.current
  pub idle : k'.idle_task ≡ k.idle_task
  pub marked :
      is_running (k.tasks k.current).state ≡ true → is_running (k'.tasks k'.current).state ≡ true

pub Base-same :
    {k k' : Kernel} {owner : ℕ → ℕ} {queue : ℕ → List ℕ}
    → SameQueues k k'
    → Base k owner queue
    → Base k' owner queue
Base-same {k} {k'} {owner} {queue} e b = record {
  queues =
      subst (λ l. Queues l (live k'.list_sem) owner queue) (sym e.links)
        (subst (λ s. Queues k.links (live s) owner queue) (sym e.sems) b.queues);
  range = b.range;
  current_lt = omega (arith, e.current, b.current_lt);
  idle_lt = omega (arith, e.idle, b.idle_lt);
  idle_home =
      subst (λ i. (owner (task_link i) ≡ null) ⊎ (owner (task_link i) ≡ readyqueue)) (sym e.idle)
        b.idle_home;
}

abbrev pub IsValid-same : {k k' : Kernel} → SameQueues k k' → IsValid k → IsValid k'
IsValid-same {k} {k'} e v = record {
  owner = v.owner;
  queue = v.queue;
  base = Base-same e v.base;
  runs = record {
    unqueued = ap (λ i. v.owner (task_link i)) e.current ∙ v.runs.unqueued;
    marked = e.marked v.runs.marked;
  };
  counters = subst (λ s. Counters s v.queue) (sym e.sems) v.counters;
}

-- ===== src/Sched/Preempt.antt =====
-- `schedule` and `force_task_switch` of zeos/sched.c.
use soa_subject.Prelude.{
  ℕ, ◌≡◌, ◌≢◌, refl, sym, ap, ◌∙◌, subst, ◌⊎◌, inl, inr, true, false, ◌==◌, List, [], ◌∷◌, ◌++◌,
  arith, length, Bool-cases, ==→≡, ==→≢, sub32, is_nil, update_ne,
}
use soa_subject.Links.{list_add_tail, list_empty}
use soa_subject.Links.Queues
use soa_subject.Kernel.{
  Kernel, Resume, task_link, readyqueue, sem_blocked, in_schedule, in_yield, returned, Outcome,
}
use soa_subject.Sched.{
  update_process_state_rr, is_running, schedule, force_task_switch, sched_next_rr,
}
use soa_subject.Sched.Invariant.{Counted, Counters, IsValid, IsValid-same}
use soa_subject.Sched.Next.{sched_next_rr-Switched, Switched-IsValid, next_of}
use soa_subject.Sched.Enqueue.{Base-enqueue, queue_after}

-- The parts of the state behind `update_process_state_rr(current(), &readyqueue)`.
ready_parts :
    (k : Kernel)
    → is_running (k.tasks k.current).state ≡ true
    → let k' = update_process_state_rr k.current readyqueue k in
      (k'.links ≡ list_add_tail (task_link k.current) readyqueue k.links)
      × (k'.list_sem ≡ k.list_sem)
      × (k'.current ≡ k.current)
      × (k'.idle_task ≡ k.idle_task)
unfolding update_process_state_rr
ready_parts k e = rw e (ground arith)

module _ {k : Kernel} (v : IsValid k) where
  Counters-ready : Counters k.list_sem (queue_after v readyqueue refl (inr refl))
  Counters-ready s lt init =
      subst (λ q. Counted (k.list_sem s).counter (length q))
        (sym (
          update_ne v.queue readyqueue (v.queue readyqueue ++ (task_link k.current ∷ []))
            (sem_blocked s) (omega arith)))
        (v.counters s lt init)

  -- The running task went behind the ready ones and the first of them all runs; the other queues are
  -- as they were.
  pub record Turned (k' : Kernel) : Type 0 where
    pub valid : IsValid k'
    pub chosen : k'.current ≡ next_of (v.queue readyqueue ++ (task_link k.current ∷ [])) k.idle_task
    pub order :
        v.queue readyqueue ++ (task_link k.current ∷ [])
        ≡ task_link k'.current ∷ valid.queue readyqueue
    pub elsewhere : (a : ℕ) → a ≢ readyqueue → valid.queue a ≡ v.queue a

  order_lem :
      (q rest : List ℕ) (x next : ℕ)
      → ((q ++ (x ∷ []) ≡ []) × (rest ≡ [])) ⊎ (q ++ (x ∷ []) ≡ next ∷ rest)
      → q ++ (x ∷ []) ≡ next ∷ rest
  order_lem q rest x next (inr e) = e
  order_lem [] rest x next (inl e) = cc
  order_lem (y ∷ q) rest x next (inl e) = cc

  pub switch-Turned :
      (here : Resume)
      → Turned (sched_next_rr here (update_process_state_rr k.current readyqueue k)).0
  switch-Turned here =
      let k1 = update_process_state_rr k.current readyqueue k in
      let p = ready_parts k v.runs.marked in
      let b = Base-enqueue v readyqueue refl (inr refl) k1 p.0 p.1 p.2 p.3 in
      let w = sched_next_rr-Switched here b in
      record {
        valid = Switched-IsValid here b w (
            subst (λ s. Counters s (queue_after v readyqueue refl (inr refl))) (sym p.1)
              Counters-ready);
        chosen = w.chosen ∙ ap (next_of (v.queue readyqueue ++ (task_link k.current ∷ []))) p.3;
        order =
            order_lem (v.queue readyqueue) (w.queue' readyqueue) (task_link k.current) _ w.taken;
        elsewhere = λ a ne.
            w.elsewhere a ne
            ∙ update_ne v.queue readyqueue (v.queue readyqueue ++ (task_link k.current ∷ [])) a
                (λ e. ne (sym e));
      }

  -- `force_task_switch` keeps the state valid: the running task goes behind the ready ones, the first
  -- of them all is taken out and runs, and the other queues are as they were.
  pub force_task_switch-IsValid : Turned (force_task_switch k).0
  unfolding force_task_switch
  force_task_switch-IsValid = switch-Turned in_yield

  -- The running task goes on, with one tick less, and every queue is as it was.
  pub record Continued (k' : Kernel) : Type 0 where
    pub valid : IsValid k'
    pub running : k'.current ≡ k.current
    pub queues : (a : ℕ) → valid.queue a ≡ v.queue a
    pub left : k'.remaining_quantum ≡ sub32 k.remaining_quantum 1

-- The remaining quantum is no part of the invariant.
abbrev pub IsValid-quantum :
    {k : Kernel} (n : ℕ) → IsValid k → IsValid (record k { remaining_quantum = n })
IsValid-quantum n v =
    IsValid-same
      (record { links = refl; sems = refl; current = refl; idle = refl; marked = λ e. e }) v

-- The three ways through `schedule`.
module _ (k : Kernel) where
  abbrev pub ticked : Kernel
  ticked = record k { remaining_quantum = sub32 k.remaining_quantum 1 }

  pub schedule-keep : (sub32 k.remaining_quantum 1 == 0) ≡ false → schedule k ≡ (ticked, returned 0)
  unfolding schedule
  schedule-keep e = rw e

  schedule-reset :
      (sub32 k.remaining_quantum 1 == 0) ≡ true
      → list_empty readyqueue k.links ≡ true
      → schedule k
        ≡ (record k { remaining_quantum = (k.tasks k.current).total_quantum }, returned 0)
  unfolding schedule
  schedule-reset e f = rw (e, f)

  pub schedule-switch :
      (sub32 k.remaining_quantum 1 == 0) ≡ true
      → list_empty readyqueue k.links ≡ false
      → schedule k ≡ sched_next_rr in_schedule (update_process_state_rr k.current readyqueue ticked)
  unfolding schedule
  schedule-switch e f = rw (e, f)

-- A tick of the clock keeps the state valid. While quantum is left the task goes on and every queue
-- is as it was; at its end the task goes behind the ready ones, the first of them all, which is the
-- task itself if no other is ready, is taken out and runs, and the other queues are as they were.
pub schedule-IsValid :
    {k : Kernel} (v : IsValid k)
    → let k' = (schedule k).0 in
      ((sub32 k.remaining_quantum 1 ≡ 0) × Turned v k')
      ⊎ ((sub32 k.remaining_quantum 1 ≢ 0) × Continued v k')
schedule-IsValid {k} v = elim (Bool-cases (sub32 k.remaining_quantum 1 == 0)) [
  | inr e ↦ inr (
    ==→≢ _ _ e,
    subst (λ (r : Kernel × Outcome). Continued v r.0) (sym (schedule-keep k e))
        (record {
          valid = IsValid-quantum (sub32 k.remaining_quantum 1) v;
          running = refl;
          queues = λ a. refl;
          left = refl;
        }),
  )
  | inl e ↦ inl (==→≡ _ _ e, at_end e (v.queue readyqueue) refl)
]
  where
    at_end :
        (sub32 k.remaining_quantum 1 == 0) ≡ true
        → (q : List ℕ) → v.queue readyqueue ≡ q
        → Turned v (schedule k).0
    at_end e [] f =
        let m = Queues.list_empty-queue v.base.queues readyqueue refl ∙ ap is_nil f in
        subst (λ (r : Kernel × Outcome). Turned v r.0) (sym (schedule-reset k e m))
          (record {
            valid = IsValid-quantum _ v;
            chosen = rw f (omega arith);
            order = rw f refl;
            elsewhere = λ a ne. refl;
          })
    at_end e (x ∷ xs) f =
        let m = Queues.list_empty-queue v.base.queues readyqueue refl ∙ ap is_nil f in
        let t = switch-Turned (IsValid-quantum (sub32 k.remaining_quantum 1) v) in_schedule in
        subst (λ (r : Kernel × Outcome). Turned v r.0) (sym (schedule-switch k e m))
          (record { valid = t.valid; chosen = t.chosen; order = t.order; elsewhere = t.elsewhere })

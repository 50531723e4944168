-- ===== src/Sched/Next.antt =====
-- `sched_next_rr` of zeos/sched.c: which task runs next, and that the queues stay well formed.
use soa_subject.Prelude.{
  ℕ, ◌-◌, ◌≡◌, ◌≢◌, sym, ap, ◌∙◌, subst, ◌⊎◌, inl, inr, true, ◌==◌, List, [], ◌∷◌, arith, length,
  Bool-cases, ==→≡, ==→≢,
}
use soa_subject.Links.{null}
use soa_subject.Links.Queues.{Queues}
use soa_subject.Kernel.{Kernel, Resume, switched, task_link, readyqueue, sem_blocked}
use soa_subject.Sched.{is_running, pick_next, sched_next_rr}
use soa_subject.Sched.Invariant.{Base, Runs, Counted, Counters, IsValid, Picked, pick_lem, live}

module _ (here : Resume) (k : Kernel) where
  -- `sched_next_rr` makes the chosen task the running one and marks it so, points the processor to
  -- its stack and its directory, gives it its whole quantum and goes on where it had stopped; the
  -- place to go on at is kept for the task that ran. Semaphores and idle are as they were.
  pub sched_next_rr_lem :
      let (k', out) = sched_next_rr here k in
      (k'.current ≡ (pick_next k).0)
      × (k'.links ≡ (pick_next k).1.links)
      × (k'.list_sem ≡ k.list_sem)
      × (k'.idle_task ≡ k.idle_task)
      × (is_running (k'.tasks k'.current).state ≡ true)
      × (k'.cpu.esp0 ≡ k'.current)
      × (k'.cpu.sysenter_esp ≡ k'.current)
      × (k'.cpu.cr3 ≡ (k'.tasks k'.current).dir)
      × ((k'.tasks k.current).register_esp ≡ here)
      × (out ≡ switched (k.tasks k'.current).register_esp)
      × (k'.remaining_quantum ≡ (k'.tasks k'.current).total_quantum)
  unfolding sched_next_rr
  sched_next_rr_lem = ground arith

-- The task that the ready queue `q` puts first, or idle.
abbrev pub next_of : List ℕ → ℕ → ℕ
next_of [] idle = idle
next_of (x ∷ q) idle = x - 1

module _ (here : Resume) {k : Kernel} {owner : ℕ → ℕ} {queue : ℕ → List ℕ}
    (b : Base k owner queue) where
  -- What `sched_next_rr` does to a kernel whose current task is already where it belongs.
  pub record Switched (k' : Kernel) : Type 0 where
    pub owner' : ℕ → ℕ
    pub queue' : ℕ → List ℕ
    pub base : Base k' owner' queue'
    pub runs : Runs k' owner'
    pub elsewhere : (a : ℕ) → a ≢ readyqueue → queue' a ≡ queue a
    pub sems : k'.list_sem ≡ k.list_sem
    pub chosen : k'.current ≡ next_of (queue readyqueue) k.idle_task
    pub taken :
        ((queue readyqueue ≡ []) × (queue' readyqueue ≡ []))
        ⊎ (queue readyqueue ≡ task_link k'.current ∷ queue' readyqueue)

  chosen_next :
      (p : ℕ × Kernel) (q : List ℕ)
      → ((queue readyqueue ≡ []) × (p.0 ≡ k.idle_task) × (q ≡ []))
        ⊎ (queue readyqueue ≡ task_link p.0 ∷ q)
      → p.0 ≡ next_of (queue readyqueue) k.idle_task
  chosen_next p q (inl e) = rw e.0 e.1
  chosen_next p q (inr e) = rw e (omega arith)

  taken_next :
      (p : ℕ × Kernel) (q : List ℕ) (current : ℕ)
      → current ≡ p.0
      → ((queue readyqueue ≡ []) × (p.0 ≡ k.idle_task) × (q ≡ []))
        ⊎ (queue readyqueue ≡ task_link p.0 ∷ q)
      → ((queue readyqueue ≡ []) × (q ≡ [])) ⊎ (queue readyqueue ≡ task_link current ∷ q)
  taken_next p q current same (inl e) = inl (e.0, e.2)
  taken_next p q current same (inr e) = inr (e ∙ ap (λ t. task_link t ∷ q) (sym same))

  home :
      (c : Picked k owner queue (pick_next k))
      → (c.owner' (task_link k.idle_task) ≡ null) ⊎ (c.owner' (task_link k.idle_task) ≡ readyqueue)
  home c = elim (Bool-cases (c.owner' (task_link k.idle_task) == null)) [
    | inl e ↦ inl (==→≡ _ _ e)
    | inr e ↦
        let kept = c.shrinks (task_link k.idle_task) (==→≢ _ _ e) in
        subst (λ o. (o ≡ null) ⊎ (o ≡ readyqueue)) (sym kept) b.idle_home
  ]

  -- `sched_next_rr` takes the first ready task, or else idle; it keeps the queues well formed and
  -- touches none but the ready one.
  pub sched_next_rr-Switched : Switched (sched_next_rr here k).0
  sched_next_rr-Switched =
      let p = sched_next_rr_lem here k in
      let c = pick_lem b in
      record {
        owner' = c.owner';
        queue' = c.queue';
        base = record {
          queues =
              subst (λ l. Queues l (live (sched_next_rr here k).0.list_sem) c.owner' c.queue')
                (sym p.1)
                (subst (λ s. Queues (pick_next k).1.links (live s) c.owner' c.queue') (sym p.2)
                  c.queues);
          range = λ x ne. b.range x (λ e. ne (c.shrinks x ne ∙ e));
          current_lt = omega (arith, c.chosen_lt);
          idle_lt = omega (arith, b.idle_lt);
          idle_home =
              subst (λ i. (c.owner' (task_link i) ≡ null) ⊎ (c.owner' (task_link i) ≡ readyqueue))
                (sym p.3) (home c);
        };
        runs = record {
          unqueued = ap (λ i. c.owner' (task_link i)) p.0 ∙ c.chosen_out;
          marked = p.4;
        };
        elsewhere = c.elsewhere;
        sems = p.2;
        chosen = p.0 ∙ chosen_next (pick_next k) (c.queue' readyqueue) c.taken;
        taken = taken_next (pick_next k) (c.queue' readyqueue) _ p.0 c.taken;
      }

pub Counters-Switched :
    (here : Resume) {k k' : Kernel} {owner : ℕ → ℕ} {queue : ℕ → List ℕ} (b : Base k owner queue)
    (w : Switched here b k')
    → Counters k.list_sem queue
    → Counters k'.list_sem w.queue'
Counters-Switched here {k} {k'} {queue} b w cs =
    subst (λ s. Counters s w.queue') (sym w.sems)
      (λ s lt init.
        subst (λ q. Counted (k.list_sem s).counter (length q))
          (sym (w.elsewhere (sem_blocked s) (omega arith))) (cs s lt init))

-- After the switch the state is valid, with the counters as they were.
abbrev pub Switched-IsValid :
    (here : Resume) {k k' : Kernel} {owner : ℕ → ℕ} {queue : ℕ → List ℕ} (b : Base k owner queue)
    → Switched here b k'
    → Counters k.list_sem queue
    → IsValid k'
Switched-IsValid here b w cs = record {
  owner = w.owner';
  queue = w.queue';
  base = w.base;
  runs = w.runs;
  counters = Counters-Switched here b w cs;
}

-- ===== src/Sys/Process/Exit.antt =====
-- `sys_exit` and `sys_terminatethread` of zeos/sys.c: the running task gives up its structure.
use soa_subject.Prelude.{
  ◌≡◌, ◌≢◌, refl, sym, ap, ◌∙◌, subst, inl, [], ◌∷◌, ◌++◌, arith, length, update_self, update_ne,
}
use soa_subject.Links.{list_add_tail}
use soa_subject.Kernel.{Kernel, Resume, in_exit, freequeue, readyqueue, sem_blocked, task_link}
use soa_subject.Sched.{sched_next_rr}
use soa_subject.Sched.Invariant.{Counted, Counters, IsValid}
use soa_subject.Sched.Next.{sched_next_rr-Switched, Switched-IsValid, next_of}
use soa_subject.Sched.Enqueue.{Base-enqueue, queue_after}
use soa_subject.Sys.Process.{sys_exit}

-- The running task is behind the free ones and another runs.
pub record Left {k : Kernel} (v : IsValid k) (k' : Kernel) : Type 0 where
  pub valid : IsValid k'
  pub freed : valid.queue freequeue ≡ v.queue freequeue ++ (task_link k.current ∷ [])
  pub running : k'.current ≡ next_of (v.queue readyqueue) k.idle_task

module _ {k : Kernel} (v : IsValid k) (ne : k.current ≢ k.idle_task) where
  Counters-free : Counters k.list_sem (queue_after v freequeue refl (inl ne))
  Counters-free s lt init =
      subst (λ q. Counted (k.list_sem s).counter (length q))
        (sym (
          update_ne v.queue freequeue (v.queue freequeue ++ (task_link k.current ∷ []))
            (sem_blocked s) (omega arith)))
        (v.counters s lt init)

  pub leave-Left :
      (here : Resume) (k' : Kernel)
      → k'.links ≡ list_add_tail (task_link k.current) freequeue k.links
      → k'.list_sem ≡ k.list_sem
      → k'.current ≡ k.current
      → k'.idle_task ≡ k.idle_task
      → Left v (sched_next_rr here k').0
  leave-Left here k' el es ec ei =
      let b = Base-enqueue v freequeue refl (inl ne) k' el es ec ei in
      let w = sched_next_rr-Switched here b in
      record {
        valid = Switched-IsValid here b w (
            subst (λ s. Counters s (queue_after v freequeue refl (inl ne))) (sym es) Counters-free);
        freed =
            w.elsewhere freequeue (omega arith)
            ∙ update_self v.queue freequeue (v.queue freequeue ++ (task_link k.current ∷ []));
        running =
            w.chosen
            ∙ ap (λ i. next_of (queue_after v freequeue refl (inl ne) readyqueue) i) ei
            ∙ ap (λ q. next_of q k.idle_task)
                (update_ne v.queue freequeue (v.queue freequeue ++ (task_link k.current ∷ []))
                  readyqueue (omega arith));
      }

  -- `sys_exit` by a task other than idle keeps the state valid: the task goes behind the free ones
  -- and the first ready task runs, or idle.
  pub sys_exit-Left : Left v (sys_exit k).0
  unfolding sys_exit
  sys_exit-Left = leave-Left in_exit _ refl refl refl refl

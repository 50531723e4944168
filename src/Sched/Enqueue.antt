-- ===== src/Sched/Enqueue.antt =====
-- Putting the running task at the end of a queue, as `update_process_state_rr`, `sys_sem_wait`,
-- `sys_exit` and `sys_terminatethread` do before they call `sched_next_rr`.
use soa_subject.Prelude.{
  ℕ, ◌≤◌, ◌<◌, ◌≡◌, ◌≢◌, sym, ap, ◌∙◌, subst, ◌⊎◌, inl, inr, true, false, ◌==◌, update, List, [],
  ◌∷◌, ◌++◌, arith, Bool-cases, ==→≡, ==→≢, update_self, update_ne, update_elim,
}
use soa_subject.Config.{nr_tasks}
use soa_subject.Links.{null, list_add_tail}
use soa_subject.Links.Queues
use soa_subject.Links.Queues.{Queues}
use soa_subject.Kernel.{Semaphore, Kernel, task_link, readyqueue}
use soa_subject.Sched.Invariant.{Base, IsValid, live}

-- No task is a head of a list.
pub task_not_live : (sems : ℕ → Semaphore) (i : ℕ) → i < nr_tasks → live sems (task_link i) ≡ false
task_not_live sems i h = ground arith

module _ {k : Kernel} (v : IsValid k) (head : ℕ) (lh : live k.list_sem head ≡ true)
    (fits : (k.current ≢ k.idle_task) ⊎ (head ≡ readyqueue)) where
  abbrev pub owner_after : ℕ → ℕ
  owner_after = update v.owner (task_link k.current) head

  abbrev pub queue_after : ℕ → List ℕ
  queue_after = update v.queue head (v.queue head ++ (task_link k.current ∷ []))

  IsHome : Type 0
  IsHome =
      (owner_after (task_link k.idle_task) ≡ null)
      ⊎ (owner_after (task_link k.idle_task) ≡ readyqueue)

  home_other : k.current ≢ k.idle_task → IsHome
  unfolding IsHome
  home_other ne =
      subst (λ o. (o ≡ null) ⊎ (o ≡ readyqueue))
        (sym (
          update_ne v.owner (task_link k.current) head (task_link k.idle_task)
            (λ e. ne (omega arith))))
        v.base.idle_home

  home_after : IsHome
  unfolding IsHome
  home_after = go fits
    where
      go : (k.current ≢ k.idle_task) ⊎ (head ≡ readyqueue) → IsHome
      go (inl ne) = home_other ne
      go (inr e) = elim (Bool-cases (k.current == k.idle_task)) [
        | inl same ↦ inr (
            ap (λ i. owner_after (task_link i)) (sym (==→≡ _ _ same))
            ∙ update_self v.owner (task_link k.current) head
            ∙ e)
        | inr differ ↦ home_other (==→≢ _ _ differ)
      ]

  pub Base-enqueue :
      (k' : Kernel)
      → k'.links ≡ list_add_tail (task_link k.current) head k.links
      → k'.list_sem ≡ k.list_sem
      → k'.current ≡ k.current
      → k'.idle_task ≡ k.idle_task
      → Base k' owner_after queue_after
  unfolding IsHome
  Base-enqueue k' el es ec ei = record {
    queues =
        subst (λ l. Queues l (live k'.list_sem) owner_after queue_after) (sym el)
          (subst
            (λ s.
              Queues (list_add_tail (task_link k.current) head k.links) (live s) owner_after
                queue_after)
            (sym es)
            (Queues.add_tail v.base.queues (task_link k.current) head lh
              (task_not_live k.list_sem k.current v.base.current_lt) v.runs.unqueued));
    range =
        update_elim (λ x o. o ≢ null → (1 ≤ x) × (x ≤ nr_tasks)) v.owner (task_link k.current) head
          (λ _. omega (arith, v.base.current_lt)) (λ x _. v.base.range x);
    current_lt = omega (arith, v.base.current_lt);
    idle_lt = omega (arith, v.base.idle_lt);
    idle_home =
        subst (λ i. (owner_after (task_link i) ≡ null) ⊎ (owner_after (task_link i) ≡ readyqueue))
          (sym ei) home_after;
  }

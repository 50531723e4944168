-- ===== src/Sys/Sem/Wait.antt =====
-- `sys_sem_wait` of zeos/sys.c.
use soa_subject.Prelude.{
  ℕ, ◌<◌, ◌≡◌, ◌≢◌, refl, sym, ap, ◌∙◌, subst, ◌⊎◌, inl, inr, Bool, true, false, ◌&&◌, ◌==◌,
  if◌then◌else◌, update, List, [], ◌∷◌, ◌++◌, arith, length-append, is_neg, neg32, sub32,
  Bool-cases, update_self, update_ne, update_same, ==_refl,
}
use soa_subject.Config.{max_sem}
use soa_subject.Links.{list_add_tail}
use soa_subject.Kernel.{
  Kernel, Outcome, returned, in_sem_wait, readyqueue, sem_blocked, task_link, with_links,
}
use soa_subject.Sched.{sched_next_rr}
use soa_subject.Sched.Invariant.{Base, Counters, IsValid, SameQueues, IsValid-same}
use soa_subject.Sched.Next.{sched_next_rr-Switched, Switched-IsValid, next_of}
use soa_subject.Sched.Enqueue.{Base-enqueue}
use soa_subject.Sys.Sem.{valid_sem, sys_sem_wait, sem_wait_end, with_sem}
use soa_subject.Sys.Sem.Facts.{
  live_counter, live_sem, valid_sem_old, length-queue, Counters-set, Base-sems,
}

-- The state with the counter of semaphore `n` one lower.
abbrev pub lowered : ℕ → Kernel → Kernel
lowered n k = with_sem n (λ s. record s { counter = sub32 s.counter 1 }) k

abbrev pub new_counter : ℕ → Kernel → ℕ
new_counter n k = sub32 (k.list_sem n).counter 1

-- The state with the running task at the end of the semaphore's list too.
abbrev pub parked : ℕ → Kernel → Kernel
parked n k = with_links (list_add_tail (task_link k.current) (sem_blocked n)) (lowered n k)

-- The ways through `sys_sem_wait`.
module _ (n : ℕ) (k : Kernel) where
  wait-bad : (valid_sem n false k == 0) ≡ false → sys_sem_wait n k ≡ (k, returned (neg32 1))
  unfolding sys_sem_wait
  wait-bad e = rw e

  counter-lowered : ((lowered n k).list_sem n).counter ≡ new_counter n k
  counter-lowered =
      ap (λ s. s.counter)
        (update_self k.list_sem n
          (record (k.list_sem n) { counter = sub32 (k.list_sem n).counter 1 }))

  pub wait-pass :
      (valid_sem n false k == 0) ≡ true
      → is_neg (new_counter n k) ≡ false
      → sys_sem_wait n k ≡ sem_wait_end (lowered n k)
  unfolding sys_sem_wait
  wait-pass e f = rw (e, ==_refl n, f)

  pub wait-park :
      (valid_sem n false k == 0) ≡ true
      → is_neg (new_counter n k) ≡ true
      → sys_sem_wait n k ≡ sched_next_rr in_sem_wait (parked n k)
  unfolding sys_sem_wait
  wait-park e f = rw (e, ==_refl n, f)

-- The end of a wait changes no queue.
pub end_same : (k : Kernel) → SameQueues k (sem_wait_end k).0
unfolding sem_wait_end
end_same k = record {
  links = ground arith;
  sems = ground arith;
  current = ground arith;
  idle = ground arith;
  marked = λ m. ground arith;
}

module _ {k : Kernel} (v : IsValid k) (n : ℕ) (lt : n < max_sem)
    (init : (k.list_sem n).is_init ≢ 0) where
  lowered-Base :
      {k' : Kernel} {owner : ℕ → ℕ} {queue : ℕ → List ℕ}
      → Base k' owner queue
      → Base (lowered n k') owner queue
  lowered-Base {k'} b =
      Base-sems (lowered n k').list_sem (live_counter k'.list_sem n (new_counter n k')) b

  lowered-Counters : is_neg (new_counter n k) ≡ false → Counters (lowered n k).list_sem v.queue
  lowered-Counters pos =
      subst (Counters (lowered n k).list_sem) (update_same v.queue (sem_blocked n)) (
        Counters-set k.list_sem v.queue n (record (k.list_sem n) { counter = new_counter n k })
          (v.queue (sem_blocked n)) v.counters
          (ground (
            arith,
            v.counters n lt init,
            length-queue v.base (sem_blocked n) (live_sem k.list_sem n lt init),
          )))

  -- A counter that is still not negative has no task waiting.
  abbrev lowered-IsValid : is_neg (new_counter n k) ≡ false → IsValid (lowered n k)
  lowered-IsValid pos = record {
    owner = v.owner;
    queue = v.queue;
    base = lowered-Base v.base;
    runs = record { unqueued = v.runs.unqueued; marked = v.runs.marked };
    counters = lowered-Counters pos;
  }

  abbrev parked_queue : ℕ → List ℕ
  parked_queue =
      update v.queue (sem_blocked n) (v.queue (sem_blocked n) ++ (task_link k.current ∷ []))

  parked-Counters : is_neg (new_counter n k) ≡ true → Counters (lowered n k).list_sem parked_queue
  parked-Counters neg =
      Counters-set k.list_sem v.queue n (record (k.list_sem n) { counter = new_counter n k })
        (v.queue (sem_blocked n) ++ (task_link k.current ∷ [])) v.counters
        (ground (
          arith,
          v.counters n lt init,
          length-append (v.queue (sem_blocked n)) (task_link k.current ∷ []),
          length-queue v.base (sem_blocked n) (live_sem k.list_sem n lt init),
        ))

  parked-Base :
      k.current ≢ k.idle_task
      → Base (parked n k) (update v.owner (task_link k.current) (sem_blocked n)) parked_queue
  parked-Base ne = lowered-Base (
      Base-enqueue v (sem_blocked n) (live_sem k.list_sem n lt init) (inl ne)
        (with_links (list_add_tail (task_link k.current) (sem_blocked n)) k) refl refl refl refl)

-- How `sys_sem_wait` leaves the semaphore's list and which task runs: the caller is parked at the
-- end of the list if the counter falls below 0, and then the first ready task runs, or idle.
abbrev pub parks : ℕ → Kernel → Bool
parks n k = (valid_sem n false k == 0) && is_neg (new_counter n k)

pub record Waited {k : Kernel} (v : IsValid k) (n : ℕ) (r : Kernel × Outcome) : Type 0 where
  pub valid : IsValid r.0
  pub waiting : valid.queue (sem_blocked n) ≡ (
      if parks n k
      then v.queue (sem_blocked n) ++ (task_link k.current ∷ [])
      else v.queue (sem_blocked n))
  pub running :
      r.0.current ≡ (if parks n k then next_of (v.queue readyqueue) k.idle_task else k.current)
  pub refused : ((valid_sem n false k == 0) ≡ true) ⊎ (r ≡ (k, returned (neg32 1)))

-- `sys_sem_wait` by a task other than idle keeps the state valid. A number that is out of range or
-- not in use gets -1 and nothing changes; a caller that finds no unit left is put at the end of the
-- semaphore's list and the next ready task runs; any other caller goes on.
pub sys_sem_wait-Waited :
    {k : Kernel} (v : IsValid k) (n : ℕ) → k.current ≢ k.idle_task → Waited v n (sys_sem_wait n k)
sys_sem_wait-Waited {k} v n ne = elim (Bool-cases (valid_sem n false k == 0)) [
  | inr bad ↦
      subst (Waited v n) (sym (wait-bad n k bad))
        (record { valid = v; waiting = rw bad; running = rw bad; refused = inr refl })
  | inl ok ↦ elim (Bool-cases (is_neg (new_counter n k))) [
    | inr pos ↦
        let (lt, init) = valid_sem_old n k ok in
        subst (Waited v n) (sym (wait-pass n k ok pos)) (record {
          valid = IsValid-same (end_same (lowered n k)) (lowered-IsValid v n lt init pos);
          waiting = rw (ok, pos);
          running = rw (ok, pos) (end_same (lowered n k)).current;
          refused = inl ok;
        })
    | inl neg ↦
        let (lt, init) = valid_sem_old n k ok in
        let b = parked-Base v n lt init ne in
        let w = sched_next_rr-Switched in_sem_wait b in
        subst (Waited v n) (sym (wait-park n k ok neg)) (record {
          valid = Switched-IsValid in_sem_wait b w (parked-Counters v n lt init neg);
          waiting =
              rw (ok, neg)
                (w.elsewhere (sem_blocked n) (omega arith) ∙ update_self v.queue (sem_blocked n) _);
          running =
              rw (ok, neg)
                (w.chosen
                  ∙ ap (λ q. next_of q k.idle_task)
                      (update_ne v.queue (sem_blocked n) _ readyqueue (omega arith)));
          refused = inl ok;
        })
  ]
]

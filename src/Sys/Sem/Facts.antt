-- ===== src/Sys/Sem/Facts.antt =====
-- Facts that the proofs about semaphores share.
use mathlib.Core.Path.{fun_ext}
use soa_subject.Prelude.{
  ℕ, ◌≤◌, ◌<◌, ◌≡◌, ◌≢◌, ◌⊎◌, inl, inr, sym, ◌∙◌, subst, true, false, ◌==◌, update, List, arith,
  Bool-cases, ==→≢, length, All_mono, length_of_Distinct, update_elim, update_self, update_ne,
}
use soa_subject.Config.{max_sem, nr_tasks}
use soa_subject.Links.{null}
use soa_subject.Links.Queues.{Queues}
use soa_subject.Kernel.{Semaphore, Kernel, readyqueue, sem_blocked}
use soa_subject.Sched.Invariant.{live, Base, Counted, Counters}
use soa_subject.Sys.Sem.{valid_sem}

-- A counter is no part of what makes a head live.
pub live_counter :
    (sems : ℕ → Semaphore) (n c : ℕ)
    → live (update sems n (record (sems n) { counter = c })) ≡ live sems
live_counter sems n c = fun_ext (λ a. ground arith)

pub live_init :
    (sems : ℕ → Semaphore) (n c : ℕ)
    → n < max_sem
    → update (live sems) (sem_blocked n) true
      ≡ live (update sems n (record { is_init = 1; counter = c }))
live_init sems n c h = fun_ext (λ a. ground arith)

pub live_destroy :
    (sems : ℕ → Semaphore) (n c : ℕ)
    → n < max_sem
    → update (live sems) (sem_blocked n) false
      ≡ live (update sems n (record { is_init = 0; counter = c }))
live_destroy sems n c h = fun_ext (λ a. ground arith)

pub live_sem :
    (sems : ℕ → Semaphore) (n : ℕ)
    → n < max_sem
    → (sems n).is_init ≢ 0
    → live sems (sem_blocked n) ≡ true
live_sem sems n h e = ground arith

pub dead_sem :
    (sems : ℕ → Semaphore) (n : ℕ) → (sems n).is_init ≡ 0 → live sems (sem_blocked n) ≡ false
dead_sem sems n e = ground arith

-- What the answer 0 of `valid_sem` means.
pub valid_sem_old :
    (n : ℕ) (k : Kernel)
    → (valid_sem n false k == 0) ≡ true
    → (n < max_sem) × ((k.list_sem n).is_init ≢ 0)
unfolding valid_sem
valid_sem_old n k e = ground arith

pub valid_sem_new :
    (n : ℕ) (k : Kernel)
    → (valid_sem n true k == 0) ≡ true
    → (n < max_sem) × ((k.list_sem n).is_init ≡ 0)
unfolding valid_sem
valid_sem_new n k e = ground arith

-- What the refusal of a new semaphore means.
pub valid_sem_bad :
    (n : ℕ) (k : Kernel)
    → (valid_sem n true k == 0) ≡ false
    → (max_sem ≤ n) ⊎ ((k.list_sem n).is_init ≢ 0)
unfolding valid_sem
valid_sem_bad n k e = elim (Bool-cases ((k.list_sem n).is_init == 0)) [
  | inl f ↦ inl (ground (arith, e, f))
  | inr f ↦ inr (==→≢ _ _ f)
]

-- A queue holds no more than all the tasks.
pub length-queue :
    {k : Kernel} {owner : ℕ → ℕ} {queue : ℕ → List ℕ}
    → Base k owner queue
    → (a : ℕ) → live k.list_sem a ≡ true
    → length (queue a) ≤ nr_tasks
length-queue {k} {owner} {queue} b a l =
    length_of_Distinct nr_tasks (queue a) (b.queues.circular a l).distinct
      (All_mono (queue a) (λ x h. b.range x (λ e. ne (sym h.0 ∙ e))) (b.queues.owned a l))
  where
    ne : a ≢ null
    ne e = ground (arith, l)

-- The counters stay right if one semaphore and its list change together.
pub Counters-set :
    (sems : ℕ → Semaphore) (queue : ℕ → List ℕ) (n : ℕ) (m : Semaphore) (q : List ℕ)
    → Counters sems queue
    → Counted m.counter (length q)
    → Counters (update sems n m) (update queue (sem_blocked n) q)
Counters-set sems queue n m q cs new =
    update_elim
      (λ s m'.
        s < max_sem
        → m'.is_init ≢ 0
        → Counted m'.counter (length (update queue (sem_blocked n) q (sem_blocked s))))
      sems n m
      (λ _ _.
        subst (λ l. Counted m.counter (length l)) (sym (update_self queue (sem_blocked n) q)) new)
      (λ s ne lt i.
        subst (λ l. Counted (sems s).counter (length l))
          (sym (update_ne queue (sem_blocked n) q (sem_blocked s) (λ e. ne (omega arith))))
          (cs s lt i))

-- They do not look at the ready queue.
pub Counters-ready :
    (sems : ℕ → Semaphore) (queue : ℕ → List ℕ) (q : List ℕ)
    → Counters sems queue
    → Counters sems (update queue readyqueue q)
Counters-ready sems queue q cs s lt i =
    subst (λ l. Counted (sems s).counter (length l))
      (sym (update_ne queue readyqueue q (sem_blocked s) (omega arith))) (cs s lt i)

-- The queues do not depend on the counters.
pub Base-sems :
    {k : Kernel} {owner : ℕ → ℕ} {queue : ℕ → List ℕ} (sems : ℕ → Semaphore)
    → live sems ≡ live k.list_sem
    → Base k owner queue
    → Base (record k { list_sem = sems }) owner queue
Base-sems {k} {owner} {queue} sems e b = record {
  queues = subst (λ l. Queues k.links l owner queue) (sym e) b.queues;
  range = b.range;
  current_lt = b.current_lt;
  idle_lt = b.idle_lt;
  idle_home = b.idle_home;
}

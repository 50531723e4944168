-- ===== src/Reach/Units.antt =====
-- The units of a semaphore (`sys_sem_wait` and `sys_sem_signal` of zeos/sys.c) over any sequence of
-- steps.
use soa_subject.Prelude.{
  ℕ, zero, suc, ◌+◌, ◌-◌, ◌^◌, ◌<◌, ◌≤◌, ◌≡◌, ◌≢◌, sym, ap, ◌∙◌, subst, true, false, ◌==◌,
  if◌then◌else◌, arith, length, is_neg, Bool-cases, update_self, inl, inr,
}
use soa_subject.Config.{max_sem, nr_tasks}
use soa_subject.Kernel.{Semaphore, Kernel, Outcome, in_sem_wait, sem_blocked}
use soa_subject.Sched.Next.{sched_next_rr_lem}
use soa_subject.Sys.Sem.Wait.{lowered, new_counter, parked, wait-pass, wait-park, end_same}
use soa_subject.Sys.Sem.Wake.{raised, raised_counter, wakes, signal-pass, signal-wake}
use soa_subject.Sched.Invariant.{IsValid, Counted}
use soa_subject.Sys.Sem.{valid_sem, sys_sem_wait, sys_sem_signal}
use soa_subject.Sys.Sem.Facts.{length-queue, live_sem}
use soa_subject.Reach.{Step, sem_wait, sem_signal, Step-IsValid}
use soa_subject.Reach.Sems.{OtherThan, sems-Step}

-- What happens from state `k` on, with the number of the calls of `sem_wait` and of `sem_signal` for
-- semaphore `n` so far.
pub data History (n : ℕ) (k : Kernel) : (waits signals : ℕ) → Kernel → Type 0 where
  begun : History n k zero zero k
  waited :
      {w s : ℕ} {k1 k2 : Kernel}
      → History n k w s k1
      → k1.current ≢ k1.idle_task
      → (sys_sem_wait n k1).0 ≡ k2
      → History n k (suc w) s k2
  signalled :
      {w s : ℕ} {k1 k2 : Kernel}
      → History n k w s k1
      → (k1.list_sem n).counter ≢ 2 ^ 31 - 1
      → (sys_sem_signal n k1).0 ≡ k2
      → History n k w (suc s) k2
  other :
      {w s : ℕ} {k1 k2 : Kernel}
      → History n k w s k1
      → (st : Step k1 k2) → OtherThan n st
      → History n k w s k2

module _ (n : ℕ) (k : Kernel) where
  usable : n < max_sem → (k.list_sem n).is_init ≢ 0 → (valid_sem n false k == 0) ≡ true
  unfolding valid_sem
  usable lt used = ground arith

  after_wait :
      (valid_sem n false k == 0) ≡ true → (sys_sem_wait n k).0.list_sem ≡ (lowered n k).list_sem
  after_wait ok = elim (Bool-cases (is_neg (new_counter n k))) [
    | inl neg ↦
        ap (λ (r : Kernel × Outcome). r.0.list_sem) (wait-park n k ok neg)
        ∙ (sched_next_rr_lem in_sem_wait (parked n k)).2
    | inr pos ↦
        ap (λ (r : Kernel × Outcome). r.0.list_sem) (wait-pass n k ok pos)
        ∙ (end_same (lowered n k)).sems
  ]

  after_signal :
      (valid_sem n false k == 0) ≡ true → (sys_sem_signal n k).0.list_sem ≡ (raised n k).list_sem
  after_signal ok = elim (Bool-cases (wakes n k)) [
    | inl wk ↦ ap (λ (r : Kernel × Outcome). r.0.list_sem) (signal-wake n k ok wk)
    | inr nw ↦ ap (λ (r : Kernel × Outcome). r.0.list_sem) (signal-pass n k ok nw)
  ]

-- The counter read as an integer is the value at the beginning with the signals more and the waits
-- less.
abbrev Balanced : (value w s c : ℕ) → Type 0
Balanced value w s c = c + w ≡ value + s + (if is_neg c then 2 ^ 32 else 0)

record Balance (n value w s : ℕ) (k : Kernel) : Type 0 where
  pub valid : IsValid k
  pub in_use : (k.list_sem n).is_init ≢ 0
  pub balanced : Balanced value w s (k.list_sem n).counter

-- A semaphore's list holds what its counter says, and no more than all the tasks.
waiting_lem :
    (n : ℕ)
    → n < max_sem
    → {k : Kernel} (v : IsValid k) → (k.list_sem n).is_init ≢ 0
    → Counted (k.list_sem n).counter (length (v.queue (sem_blocked n)))
      × (length (v.queue (sem_blocked n)) ≤ nr_tasks)
waiting_lem n lt {k} v used =
    (v.counters n lt used, length-queue v.base (sem_blocked n) (live_sem k.list_sem n lt used))

module _ (n : ℕ) (lt : n < max_sem) (value : ℕ) where
  Balance-wait :
      {w s : ℕ} {k k' : Kernel}
      → Balance n value w s k
      → k.current ≢ k.idle_task
      → (sys_sem_wait n k).0 ≡ k'
      → Balance n value (suc w) s k'
  Balance-wait {w} {s} {k} {k'} b ne e = record {
    valid = Step-IsValid b.valid (sem_wait n ne e);
    in_use = ground (arith, at, b.in_use);
    balanced = ground (arith, at, waiting_lem n lt b.valid b.in_use, b.balanced);
  }
    where
      at : k'.list_sem n ≡ record (k.list_sem n) { counter = new_counter n k }
      at =
          subst (λ (t : Kernel). t.list_sem n ≡ record (k.list_sem n) { counter = new_counter n k })
            e (ap (λ f. f n) (after_wait n k (usable n k lt b.in_use)) ∙ update_self k.list_sem n _)

  Balance-signal :
      {w s : ℕ} {k k' : Kernel}
      → Balance n value w s k
      → (k.list_sem n).counter ≢ 2 ^ 31 - 1
      → (sys_sem_signal n k).0 ≡ k'
      → Balance n value w (suc s) k'
  Balance-signal {w} {s} {k} {k'} b fits e = record {
    valid = Step-IsValid b.valid (sem_signal n fits e);
    in_use = ground (arith, at, b.in_use);
    balanced = ground (arith, at, waiting_lem n lt b.valid b.in_use, b.balanced);
  }
    where
      at : k'.list_sem n ≡ record (k.list_sem n) { counter = raised_counter n k }
      at =
          subst
            (λ (t : Kernel). t.list_sem n ≡ record (k.list_sem n) { counter = raised_counter n k })
            e
            (ap (λ f. f n) (after_signal n k (usable n k lt b.in_use)) ∙ update_self k.list_sem n _)

  Balance-other :
      {w s : ℕ} {k k' : Kernel}
      → Balance n value w s k
      → (st : Step k k') → OtherThan n st
      → Balance n value w s k'
  Balance-other {w} {s} {k} {k'} b st o =
      let at = sems-Step n st o b.in_use in
      record {
        valid = Step-IsValid b.valid st;
        in_use = subst (λ (m : Semaphore). m.is_init ≢ 0) (sym at) b.in_use;
        balanced = subst (λ (m : Semaphore). Balanced value w s m.counter) (sym at) b.balanced;
      }

  History-Balance :
      {k : Kernel}
      → Balance n value 0 0 k
      → {w s : ℕ} {k' : Kernel} → History n k w s k'
      → Balance n value w s k'
  History-Balance b begun = b
  History-Balance b (waited h ne e) = Balance-wait (History-Balance b h) ne e
  History-Balance b (signalled h fits e) = Balance-signal (History-Balance b h) fits e
  History-Balance b (other h st o) = Balance-other (History-Balance b h) st o

-- If semaphore `n` is in use with the value of its counter not negative in a valid state, then the
-- following holds after any interrupts, user code and system calls that do not destroy it, with a
-- waits and b signals on it among them, if no semaphore is initialised with a value of 2^31 or more,
-- none is signalled at 2^31 - 1, idle neither waits nor exits nor ends as a thread, and no
-- createthread faults. The state is valid, the semaphore is in use, and exactly as many tasks are in
-- its list as there were waits beyond the value and the signals: no more have passed than the value
-- and the signals, and none waits while fewer have.
pub History-waiting :
    {k k' : Kernel} (v : IsValid k) (n : ℕ) {a b : ℕ}
    → n < max_sem
    → (k.list_sem n).is_init ≢ 0
    → (k.list_sem n).counter < 2 ^ 31
    → History n k a b k'
    → (v' : IsValid k') × ((k'.list_sem n).is_init ≢ 0)
      × (length (v'.queue (sem_blocked n)) ≡ a - ((k.list_sem n).counter + b))
History-waiting {k} {k'} v n {a} {b} lt used small h =
    let r =
      History-Balance n lt (k.list_sem n).counter
        (record { valid = v; in_use = used; balanced = ground arith }) h in
    (r.valid, r.in_use, ground (arith, waiting_lem n lt r.valid r.in_use, r.balanced))

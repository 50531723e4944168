-- ===== src/Tests/Units.antt =====
-- The theorem on the units of a semaphore at a concrete sequence of steps.
use soa_subject.Prelude.{◌+◌, ◌-◌, ◌≡◌, ◌≢◌, refl, arith, length}
use soa_subject.Kernel.{sem_blocked}
use soa_subject.Interrupt.{clock_routine}
use soa_subject.Sched.Invariant.{IsValid}
use soa_subject.Sys.Sem.{sys_sem_wait}
use soa_subject.Reach.{tick}
use soa_subject.Reach.Units.{History, begun, waited, other, History-waiting}
use soa_subject.Tests.{started, booted, guarded, guarded_valid, guarded_busy, fresh_counter}

-- A wait for semaphore 3, which has no unit, and then a tick.

abbrev history : History 3 guarded 1 0 (clock_routine (λ ticks c. c) (sys_sem_wait 3 guarded).0).0
history = other (waited begun guarded_busy refl) (tick (λ ticks c. c) refl) tt

guarded_used : (guarded.list_sem 3).is_init ≢ 0
guarded_used e = omega (arith, e, (fresh_counter started (booted.unused 3)).1)

History-waiting_example :
    let k' = (clock_routine (λ ticks c. c) (sys_sem_wait 3 guarded).0).0 in
    (v' : IsValid k') × ((k'.list_sem 3).is_init ≢ 0)
    × (length (v'.queue (sem_blocked 3)) ≡ 1 - ((guarded.list_sem 3).counter + 0))
History-waiting_example =
    History-waiting guarded_valid 3 (omega arith) guarded_used
      (omega (arith, (fresh_counter started (booted.unused 3)).0)) history

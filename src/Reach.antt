-- ===== src/Reach.antt =====
-- Runs of the kernel: the start, and then any sequence of interrupts, system calls and user code.
pub mod Quiet
pub mod Sems
pub mod Units
use soa_subject.Prelude.{ℕ, ◌^◌, ◌-◌, ◌<◌, ◌≡◌, ◌≢◌, sym, subst, inl, inr}
use soa_subject.Console.{Console}
use soa_subject.Kernel.{Kernel, Outcome, page_fault}
use soa_subject.Sched.{schedule}
use soa_subject.Interrupt.{clock_routine, keyboard_routine}
use soa_subject.Sched.Invariant.{IsValid, SameQueues, IsValid-same}
use soa_subject.Sched.Preempt.{force_task_switch-IsValid, schedule-IsValid}
use soa_subject.Boot.{main}
use soa_subject.Boot.Queues.{main-Booted}
use soa_subject.Sys.Sem.{sem_wait_end, sys_sem_init, sys_sem_wait, sys_sem_signal, sys_sem_destroy}
use soa_subject.Sys.Sem.Enter.{Inited-IsValid, sys_sem_init-IsValid}
use soa_subject.Sys.Sem.Wait.{end_same, sys_sem_wait-Waited}
use soa_subject.Sys.Sem.Wake.{sys_sem_signal-Signalled}
use soa_subject.Sys.Sem.Destroy.{sys_sem_destroy-Destroyed}
use soa_subject.Sys.Process.{sys_fork, sys_exit, sys_yield, user_to_system, system_to_user}
use soa_subject.Sys.Process.Fork.{Forked, no_task, no_frames, child, sys_fork-Forked}
use soa_subject.Sys.Process.Exit.{Left, sys_exit-Left}
use soa_subject.Sys.Pages.{sys_alloc, sys_dealloc}
use soa_subject.Sys.Io.{sys_write, sys_dump_screen, sys_get_key, sys_get_stats}
use soa_subject.Sys.Thread.{sys_createthread, sys_terminatethread}
use soa_subject.Sys.Thread.Create
use soa_subject.Sys.Thread.Create.{Created, sys_createthread-Created}
use soa_subject.Sys.Thread.Terminate.{sys_terminatethread-Left}
use soa_subject.Reach.Quiet.{
  user_code, user_code-SameQueues, clocked, clocked-SameQueues, keyboard_routine-SameQueues,
  user_to_system-SameQueues, system_to_user-SameQueues, sys_alloc-SameQueues,
  sys_dealloc-SameQueues, sys_write-SameQueues, sys_dump_screen-SameQueues, sys_get_key-SameQueues,
  sys_get_stats-SameQueues,
}

-- An interrupt, a system call of the running task, what goes around them, or what the task does in
-- user mode. Idle makes no call that gives up its place, and a call that faults does not end. The value
-- of a new semaphore is no negative `int`, and no signal takes a counter past the greatest one.
-- `sys_getpid`, `sys_gettime`, `sys_ni_syscall` and the end of a yield change nothing; what
-- `sys_get_key` and `sys_get_stats` store in user memory is in `user_code`.
pub data Step (k k' : Kernel) : Type 0 where
  tick :
      (zeos_show_clock : ℕ → Console → Console)
      → (clock_routine zeos_show_clock k).0 ≡ k'
      → Step k k'
  key : (c : ℕ) (beyond : ℕ → ℕ) → keyboard_routine c beyond k ≡ k' → Step k k'
  enter : user_to_system k ≡ k' → Step k k'
  leave : system_to_user k ≡ k' → Step k k'
  user : (ram : ℕ → ℕ → ℕ) (esp eip : ℕ) → user_code ram esp eip k ≡ k' → Step k k'
  yield : (sys_yield k).0 ≡ k' → Step k k'
  sem_init : (n value : ℕ) → value < 2 ^ 31 → (sys_sem_init n value k).0 ≡ k' → Step k k'
  sem_wait : (n : ℕ) → k.current ≢ k.idle_task → (sys_sem_wait n k).0 ≡ k' → Step k k'
  wait_end : (sem_wait_end k).0 ≡ k' → Step k k'
  sem_signal :
      (n : ℕ) → (k.list_sem n).counter ≢ 2 ^ 31 - 1 → (sys_sem_signal n k).0 ≡ k' → Step k k'
  sem_destroy : (n : ℕ) → (sys_sem_destroy n k).0 ≡ k' → Step k k'
  fork : (sys_fork k).0 ≡ k' → Step k k'
  exit : k.current ≢ k.idle_task → (sys_exit k).0 ≡ k' → Step k k'
  createthread :
      (twrap function param : ℕ)
      → (sys_createthread twrap function param k).1 ≢ page_fault
      → (sys_createthread twrap function param k).0 ≡ k'
      → Step k k'
  terminatethread : k.current ≢ k.idle_task → (sys_terminatethread k).0 ≡ k' → Step k k'
  alloc : (sys_alloc k).0 ≡ k' → Step k k'
  dealloc : (address : ℕ) → (sys_dealloc address k).0 ≡ k' → Step k k'
  write :
      (fd buffer nbytes : ℕ) (bytes : ℕ → ℕ)
      → (sys_write fd buffer nbytes bytes k).0 ≡ k'
      → Step k k'
  get_key : (c : ℕ) → (sys_get_key c k).1 ≡ k' → Step k k'
  dump_screen : (address : ℕ) (cells : ℕ → ℕ) → (sys_dump_screen address cells k).0 ≡ k' → Step k k'
  get_stats : (pid st : ℕ) → (sys_get_stats pid st k).1 ≡ k' → Step k k'

-- The states that the kernel can come to, by the start and the steps behind it.
pub data Reachable : Kernel → Type 0 where
  start :
      (guard_lo guard_hi : ℕ) (k : Kernel)
      → ((s : ℕ) → (k.list_sem s).is_init ≡ 0)
      → Reachable (main guard_lo guard_hi k)
  next : (k k' : Kernel) → Reachable k → Step k k' → Reachable k'

Forked-IsValid : {k : Kernel} (v : IsValid k) (r : Kernel × Outcome) → Forked v r → IsValid r.0
Forked-IsValid v r (no_task q e) = subst (λ (s : Kernel × Outcome). IsValid s.0) (sym e) v
Forked-IsValid v r (no_frames x xs valid few e f g h i) = valid
Forked-IsValid v r (child x xs valid enough e f g h i j) = valid

Created-IsValid :
    {k : Kernel} (v : IsValid k) (function param : ℕ) (r : Kernel × Outcome)
    → r.1 ≢ page_fault
    → Created function param v r
    → IsValid r.0
Created-IsValid v f p r ok (Create.no_task q e) =
    subst (λ (s : Kernel × Outcome). IsValid s.0) (sym e) v
Created-IsValid v f p r ok (Create.faulted x xs e g h) = absurd (ok h)
Created-IsValid v f p r ok (Create.thread x xs valid e g h i j l) = valid

schedule_valid : {k : Kernel} → IsValid k → IsValid (schedule k).0
schedule_valid v = elim (schedule-IsValid v) [ inl t ↦ t.1.valid | inr c ↦ c.1.valid ]

clock_routine-IsValid :
    (zeos_show_clock : ℕ → Console → Console) {k : Kernel}
    → IsValid k
    → IsValid (clock_routine zeos_show_clock k).0
unfolding clock_routine
clock_routine-IsValid zeos_show_clock {k} v =
    schedule_valid {k = clocked zeos_show_clock k}
      (IsValid-same (clocked-SameQueues zeos_show_clock k) v)

sys_terminatethread-IsValid :
    {k : Kernel} → IsValid k → k.current ≢ k.idle_task → IsValid (sys_terminatethread k).0
sys_terminatethread-IsValid v ne = elim ((sys_terminatethread-Left v ne).ending) [
  | inl e ↦ subst (λ (s : Kernel × Outcome). IsValid s.0) (sym e.1) v
  | inr e ↦ e.1.valid
]

-- A step that leaves the queues alone.
kept : {k k' k'' : Kernel} → IsValid k → SameQueues k k' → k' ≡ k'' → IsValid k''
kept v s e = subst IsValid e (IsValid-same s v)

pub Step-IsValid : {k k' : Kernel} → IsValid k → Step k k' → IsValid k'
Step-IsValid v (tick show e) = subst IsValid e (clock_routine-IsValid show v)
Step-IsValid {k} v (key c beyond e) = kept v (keyboard_routine-SameQueues c beyond k) e
Step-IsValid {k} v (enter e) = kept v (user_to_system-SameQueues k) e
Step-IsValid {k} v (leave e) = kept v (system_to_user-SameQueues k) e
Step-IsValid {k} v (user ram esp eip e) = kept v (user_code-SameQueues ram esp eip k) e
Step-IsValid v (yield e) = subst IsValid e (unfold sys_yield in (force_task_switch-IsValid v).valid)
Step-IsValid v (sem_init n value small e) =
    subst IsValid e (Inited-IsValid v n value _ (sys_sem_init-IsValid v n value small))
Step-IsValid v (sem_wait n ne e) = subst IsValid e (sys_sem_wait-Waited v n ne).valid
Step-IsValid {k} v (wait_end e) = kept v (end_same k) e
Step-IsValid v (sem_signal n fits e) = subst IsValid e (sys_sem_signal-Signalled v n fits).valid
Step-IsValid v (sem_destroy n e) = subst IsValid e (sys_sem_destroy-Destroyed v n).valid
Step-IsValid v (fork e) = subst IsValid e (Forked-IsValid v _ (sys_fork-Forked v))
Step-IsValid v (exit ne e) = subst IsValid e (sys_exit-Left v ne).valid
Step-IsValid v (createthread t f p ok e) =
    subst IsValid e (Created-IsValid v f p _ ok (sys_createthread-Created v t f p))
Step-IsValid v (terminatethread ne e) = subst IsValid e (sys_terminatethread-IsValid v ne)
Step-IsValid {k} v (alloc e) = kept v (sys_alloc-SameQueues k) e
Step-IsValid {k} v (dealloc address e) = kept v (sys_dealloc-SameQueues address k) e
Step-IsValid {k} v (write fd buffer nbytes bytes e) =
    kept v (sys_write-SameQueues fd buffer nbytes bytes k) e
Step-IsValid {k} v (get_key c e) = kept v (sys_get_key-SameQueues c k) e
Step-IsValid {k} v (dump_screen address cells e) =
    kept v (sys_dump_screen-SameQueues address cells k) e
Step-IsValid {k} v (get_stats pid st e) = kept v (sys_get_stats-SameQueues pid st k) e

-- Every state is valid that the kernel can come to, by clock and keyboard interrupts, the entry and
-- exit of the kernel, user code, and system calls with the ends of waits, from its start with no
-- semaphore in use, if no semaphore is initialised with a value of 2^31 or more, none is signalled at
-- 2^31 - 1, idle neither waits nor exits nor ends as a thread, and no createthread faults. That is: the
-- free, ready and blocked queues are circular lists with each task in one at most, idle is in none
-- but the ready one, the running task is marked so and is in no queue, and a counter below 0 is minus
-- the number of the tasks that wait.
pub Reachable-IsValid : (k : Kernel) → Reachable k → IsValid k
Reachable-IsValid k (start lo hi k0 z) = (main-Booted lo hi k0 z).valid
Reachable-IsValid k (next k0 k1 r s) = Step-IsValid (Reachable-IsValid k0 r) s

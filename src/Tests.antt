-- ===== src/Tests.antt =====
-- The theorems at concrete states: the kernel as it starts, then with a semaphore in use, and small
-- lists, rings and consoles.
pub mod Turns
pub mod Images
pub mod Forks
pub mod Units
pub mod Parts
pub mod Programs
pub mod Fleets
use soa_subject.Prelude.{
  ℕ, ◌+◌, ◌-◌, ◌*◌, ◌/◌, ◌%◌, ◌^◌, ◌≡◌, ◌≢◌, refl, ◌⊎◌, true, false, not, ltb, ◌&&◌, ◌==◌,
  if◌then◌else◌, [], ◌∷◌, ◌++◌, arith, neg32, sub32, is_neg,
}
use soa_subject.Config.{num_pag_kernel, free_frame_mark, used_frame_mark, buff_size}
use soa_subject.Links.{Links, list_add_tail, list_del, null}
use soa_subject.Links.Chain.{IsCircular, list_add_tail-append}
use soa_subject.Links.Remove.{list_del-removes}
use soa_subject.Ring
use soa_subject.Ring.Queue
use soa_subject.Mm.{Memory, zero_entry, init_frames, alloc_frame, alloc_scan, free_frame, get_frame}
use soa_subject.Mm.Frames.{
  Allocated, Exhausted, init_frames_lem, alloc_frame_lem, free_frame-alloc_frame,
}
use soa_subject.Stats.{init_stats}
use soa_subject.Stats.Account.{charges-total, to_user, to_system, charges, charged}
use soa_subject.Console.{Console, sys_write_console, dump_matrix, newline}
use soa_subject.Console.Cursor.{IsOnScreen, SameBeyond, sys_write_console_lem}
use soa_subject.Console.Dump.{dump_matrix_lem}
use soa_subject.Access.{
  access_ok, verify_read, verify_write, copy_data, access_ok-write, copy_data_lem,
}
use soa_subject.Kernel.{Kernel, returned, in_yield, unset, st_run, readyqueue, task_link, get_pt}
use soa_subject.Sched.{schedule, force_task_switch, sched_next_rr}
use soa_subject.Sched.Invariant.{IsValid}
use soa_subject.Sched.Next.{sched_next_rr_lem, sched_next_rr-Switched, Switched, next_of}
use soa_subject.Sched.Preempt.{Turned, Continued, force_task_switch-IsValid, schedule-IsValid}
use soa_subject.Boot.{main}
use soa_subject.Boot.Queues.{Booted, main-Booted}
use soa_subject.Sys.Sem.{valid_sem, sys_sem_init, sys_sem_wait, sys_sem_signal, sys_sem_destroy}
use soa_subject.Sys.Sem.Enter.{Inited, Inited-IsValid, sys_sem_init-IsValid}
use soa_subject.Sys.Sem.Wait.{sys_sem_wait-Waited, Waited}
use soa_subject.Sys.Sem.Wake.{sys_sem_signal-Signalled, Signalled}
use soa_subject.Sys.Sem.Destroy.{sys_sem_destroy-Destroyed, Destroyed}
use soa_subject.Sys.Process.{sys_fork, sys_exit}
use soa_subject.Sys.Process.Fork.{Forked, sys_fork-Forked}
use soa_subject.Sys.Process.Exit.{Left, sys_exit-Left}
use soa_subject.Sys.Thread.{sys_terminatethread}
use soa_subject.Sys.Thread.Terminate.{Terminated, sys_terminatethread-Left}
use soa_subject.Sys.Pages.{alloc_k, dealloc_k, find_page, alloc_at}
use soa_subject.Sys.Pages.Alloc.{Mapped, alloc_k-Mapped}
use soa_subject.Sys.Pages.Dealloc.{Unmapped, dealloc_k-Unmapped, dealloc_k-alloc_k}
use soa_subject.Sys.Io.{sys_write, sys_get_key}
use soa_subject.Sys.Io.Write.{sys_write-whole}
use soa_subject.Reach.{Reachable, start, next, fork, Reachable-IsValid}
use soa_subject.Sys.Io.Keys.{answer, sys_get_key-dequeue}

abbrev pub blank_memory : Memory
blank_memory = record {
  phys_mem = λ _. 0;
  dir_pages = λ _. zero_entry;
  pagusr_table = λ _ _. zero_entry;
}

abbrev pub blank_console : Console
blank_console = record { x = 0; y = 0; screen = λ _. 0; port_e9 = [] }

-- The kernel's data before the start.
abbrev pub blank : Kernel
blank = record {
  tasks = λ _. record {
    pid = 0;
    tid = 0;
    destroyed = 0;
    dir = 0;
    register_esp = unset;
    state = st_run;
    total_quantum = 0;
    p_stats = record {
      user_ticks = 0;
      system_ticks = 0;
      blocked_ticks = 0;
      ready_ticks = 0;
      elapsed_total_ticks = 0;
      total_trans = 0;
      remaining_ticks = 0;
    };
    user_esp = 0;
    user_eip = 0;
  };
  links = record { next = λ _. 0; prev = λ _. 0 };
  current = 0;
  idle_task = 0;
  remaining_quantum = 0;
  list_sem = λ _. record { is_init = 0; counter = 0 };
  global_pid = 1000;
  global_tid = 0;
  zeos_ticks = 0;
  cpu = record { esp0 = 0; sysenter_esp = 0; cr3 = 0 };
  mm = blank_memory;
  ram = λ _ _. 0;
  console = blank_console;
  keys = Ring.empty;
  tsc = λ n. n * 1000000;
  reads = 0;
}

main-Booted_example : Booted (main 18 29 blank)
main-Booted_example = main-Booted 18 29 blank (λ s. refl)

abbrev pub started : Kernel
started = main 18 29 blank

pub booted : Booted started
booted = main-Booted 18 29 blank (λ s. refl)

abbrev pub valid : IsValid started
valid = booted.valid

busy : started.current ≢ started.idle_task
busy e = omega (arith, e, booted.current, booted.idle)

sched_next_rr_lem_example :
    (sched_next_rr in_yield started).0.cpu.esp0 ≡ (sched_next_rr in_yield started).0.current
sched_next_rr_lem_example = (sched_next_rr_lem in_yield started).5

force_task_switch-IsValid_example : Turned valid (force_task_switch started).0
force_task_switch-IsValid_example = force_task_switch-IsValid valid

schedule-IsValid_example :
    let k' = (schedule started).0 in
    ((sub32 started.remaining_quantum 1 ≡ 0) × Turned valid k')
    ⊎ ((sub32 started.remaining_quantum 1 ≢ 0) × Continued valid k')
schedule-IsValid_example = schedule-IsValid valid

sys_fork-Forked_example : Forked valid (sys_fork started)
sys_fork-Forked_example = sys_fork-Forked valid

sys_exit-Left_example : Left valid (sys_exit started).0
sys_exit-Left_example = sys_exit-Left valid busy

sys_terminatethread-Left_example : Terminated valid busy (sys_terminatethread started)
sys_terminatethread-Left_example = sys_terminatethread-Left valid busy

-- Semaphore 3 with no unit.
sys_sem_init-IsValid_example : Inited valid 3 0 (sys_sem_init 3 0 started)
sys_sem_init-IsValid_example = sys_sem_init-IsValid valid 3 0 (omega arith)

abbrev pub guarded : Kernel
guarded = (sys_sem_init 3 0 started).0

pub guarded_valid : IsValid guarded
guarded_valid =
    Inited-IsValid valid 3 0 (sys_sem_init 3 0 started)
      (sys_sem_init-IsValid valid 3 0 (omega arith))

still :
    (n value : ℕ) (k : Kernel)
    → ((sys_sem_init n value k).0.current ≡ k.current)
      × ((sys_sem_init n value k).0.idle_task ≡ k.idle_task)
unfolding sys_sem_init
still n value k = ground arith

pub guarded_busy : guarded.current ≢ guarded.idle_task
guarded_busy e = busy (omega (arith, e, still 3 0 started))

sys_sem_wait-Waited_example : Waited guarded_valid 3 (sys_sem_wait 3 guarded)
sys_sem_wait-Waited_example = sys_sem_wait-Waited guarded_valid 3 guarded_busy

pub fresh_counter :
    (k : Kernel)
    → (k.list_sem 3).is_init ≡ 0
    → (((sys_sem_init 3 0 k).0.list_sem 3).counter ≡ 0)
      × (((sys_sem_init 3 0 k).0.list_sem 3).is_init ≡ 1)
unfolding sys_sem_init valid_sem
fresh_counter k e = ground arith

counter_fits : (guarded.list_sem 3).counter ≢ 2 ^ 31 - 1
counter_fits e = omega (arith, e, (fresh_counter started (booted.unused 3)).0)

sys_sem_signal-Signalled_example : Signalled guarded_valid 3 (sys_sem_signal 3 guarded)
sys_sem_signal-Signalled_example = sys_sem_signal-Signalled guarded_valid 3 counter_fits

waited_lem : Waited guarded_valid 3 (sys_sem_wait 3 guarded)
waited_lem = sys_sem_wait-Waited guarded_valid 3 guarded_busy

sys_sem_destroy-Destroyed_example :
    Destroyed waited_lem.valid 3 (sys_sem_destroy 3 (sys_sem_wait 3 guarded).0)
sys_sem_destroy-Destroyed_example = sys_sem_destroy-Destroyed waited_lem.valid 3

alloc_k-Mapped_example :
    let (r, k') = alloc_k started in Mapped (get_pt started.current started) started.mm r k'.mm
alloc_k-Mapped_example = alloc_k-Mapped started

dealloc_k-Unmapped_example :
    let (r, k') = dealloc_k 284 started in
    Unmapped 284 (get_pt started.current started) started.mm r k'.mm
dealloc_k-Unmapped_example = dealloc_k-Unmapped 284 started

alloc_blank : (alloc_k blank).0 ≡ 284 * 2 ^ 12
unfolding alloc_k find_page alloc_at alloc_frame alloc_scan get_frame get_pt
alloc_blank = refl

dealloc_k-alloc_k_example :
    let (r, k') = dealloc_k (284 * 2 ^ 12 / 2 ^ 12) (alloc_k blank).1 in
    let pt = get_pt 0 blank in
    (r ≡ 0)
    × ((p : ℕ)
        → get_frame pt p k'.mm
          ≡ (if p == 284 * 2 ^ 12 / 2 ^ 12 then 0 else get_frame pt p blank.mm))
    × ((i : ℕ) → i ≢ num_pag_kernel → k'.mm.phys_mem i ≡ blank.mm.phys_mem i)
dealloc_k-alloc_k_example =
    dealloc_k-alloc_k blank (284 * 2 ^ 12) alloc_blank (λ e. omega (arith, e))

forked-Reachable : Reachable (sys_fork started).0
forked-Reachable = next started (sys_fork started).0 (start 18 29 blank (λ s. refl)) (fork refl)

Reachable-IsValid_example : IsValid (sys_fork started).0
Reachable-IsValid_example = Reachable-IsValid (sys_fork started).0 forked-Reachable

-- ===== src/Reach/Quiet.antt =====
-- What leaves the queues, the semaphores and the running task alone: the keyboard, the entry and exit
-- of the kernel, user code, and most system calls.
use soa_subject.Prelude.{ℕ, add32, arith}
use soa_subject.Console.{Console}
use soa_subject.Kernel.{Kernel, get_ticks, with_task}
use soa_subject.Sched.Invariant.{SameQueues}
use soa_subject.Interrupt.{keyboard_routine}
use soa_subject.Sys.Pages.{sys_alloc, alloc_k, sys_dealloc, dealloc_k}
use soa_subject.Sys.Process.{user_to_system, system_to_user}
use soa_subject.Sys.Io.{sys_write, sys_dump_screen, sys_get_key, give_key, sys_get_stats, stats_of}

-- What the running task does in user mode: memory that it writes, and the stack pointer and the
-- address that are saved when it enters the kernel again.
unfoldable pub user_code : (ram : ℕ → ℕ → ℕ) → (esp eip : ℕ) → Kernel → Kernel
user_code ram esp eip k =
    with_task k.current (λ t. record t { user_esp = esp; user_eip = eip }) (record k { ram = ram })

pub user_code-SameQueues :
    (ram : ℕ → ℕ → ℕ) (esp eip : ℕ) (k : Kernel) → SameQueues k (user_code ram esp eip k)
unfolding user_code
user_code-SameQueues ram esp eip k = ground arith

-- What the clock routine does before it calls `schedule`.
abbrev pub clocked : (zeos_show_clock : ℕ → Console → Console) → Kernel → Kernel
clocked zeos_show_clock k = record k {
  console = zeos_show_clock k.zeos_ticks k.console;
  zeos_ticks = add32 k.zeos_ticks 1;
}

pub clocked-SameQueues :
    (zeos_show_clock : ℕ → Console → Console) (k : Kernel)
    → SameQueues k (clocked zeos_show_clock k)
clocked-SameQueues zeos_show_clock k = ground arith

pub keyboard_routine-SameQueues :
    (c : ℕ) (beyond : ℕ → ℕ) (k : Kernel) → SameQueues k (keyboard_routine c beyond k)
unfolding keyboard_routine
keyboard_routine-SameQueues c beyond k = ground arith

pub user_to_system-SameQueues : (k : Kernel) → SameQueues k (user_to_system k)
unfolding user_to_system get_ticks
user_to_system-SameQueues k = ground arith

pub system_to_user-SameQueues : (k : Kernel) → SameQueues k (system_to_user k)
unfolding system_to_user get_ticks
system_to_user-SameQueues k = ground arith

pub sys_alloc-SameQueues : (k : Kernel) → SameQueues k (sys_alloc k).0
unfolding sys_alloc alloc_k
sys_alloc-SameQueues k = ground arith

pub sys_dealloc-SameQueues : (address : ℕ) (k : Kernel) → SameQueues k (sys_dealloc address k).0
unfolding sys_dealloc dealloc_k
sys_dealloc-SameQueues address k = ground arith

pub sys_write-SameQueues :
    (fd buffer nbytes : ℕ) (bytes : ℕ → ℕ) (k : Kernel)
    → SameQueues k (sys_write fd buffer nbytes bytes k).0
unfolding sys_write
sys_write-SameQueues fd buffer nbytes bytes k = ground arith

pub sys_dump_screen-SameQueues :
    (address : ℕ) (cells : ℕ → ℕ) (k : Kernel) → SameQueues k (sys_dump_screen address cells k).0
unfolding sys_dump_screen
sys_dump_screen-SameQueues address cells k = ground arith

pub sys_get_key-SameQueues : (c : ℕ) (k : Kernel) → SameQueues k (sys_get_key c k).1
unfolding sys_get_key give_key
sys_get_key-SameQueues c k = ground arith

pub sys_get_stats-SameQueues : (pid st : ℕ) (k : Kernel) → SameQueues k (sys_get_stats pid st k).1
unfolding sys_get_stats stats_of
sys_get_stats-SameQueues pid st k = ground arith

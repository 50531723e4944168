-- ===== src/Kernel.antt =====
-- The state of the kernel: the globals of zeos/sched.c, sys.c, mm.c, interrupt.c and io.c, the task
-- structures, and what the kernel sees of the processor.
use soa_subject.Prelude.{ℕ, suc, ◌+◌, ◌-◌, update}
use soa_subject.Links.{Links}
use soa_subject.Mm.{Memory}
use soa_subject.Console.{Console}
use soa_subject.Ring.{Ring}
use soa_subject.Stats.{Stats, ticks_of}

-- `enum state_t`
pub data State : Type 0 where
  st_run st_ready st_blocked : State

-- Where the kernel stack that `register_esp` points to goes on: the return address and the frames
-- above it. `unset` is a `register_esp` that was never written.
pub data Resume : Type 0 where
  unset : Resume
  cpu_idle : Resume  -- as `init_idle` leaves it
  ret_from_fork : Resume  -- as `sys_fork` leaves the child
  thread_entry : Resume  -- as `sys_createthread` leaves the thread
  in_schedule : Resume  -- inside `sched_next_rr`, called by `schedule`
  in_yield : Resume  -- the same, called by `force_task_switch`
  in_sem_wait : Resume  -- the same, called by `sys_sem_wait`
  in_exit : Resume
  in_terminatethread : Resume

-- `struct task_struct`, with the two words of the kernel stack that `sys_createthread` sets. Its
-- `list` is in the kernel's `links`. `dir` is the index of the directory in `dir_pages`.
pub record Task : Type 0 where
  pub pid : ℕ
  pub tid : ℕ
  pub destroyed : ℕ
  pub dir : ℕ
  pub register_esp : Resume
  pub state : State
  pub total_quantum : ℕ
  pub p_stats : Stats
  pub user_esp : ℕ  -- stack[KERNEL_STACK_SIZE-2]
  pub user_eip : ℕ  -- stack[KERNEL_STACK_SIZE-5]

-- An entry of `list_sem`; its `blocked` is in the kernel's `links`.
pub record Semaphore : Type 0 where
  pub is_init : ℕ
  pub counter : ℕ

-- The task whose stack `tss.esp0` and MSR 0x175 point to the end of, and the directory in CR3.
pub record Cpu : Type 0 where
  pub esp0 : ℕ
  pub sysenter_esp : ℕ
  pub cr3 : ℕ

-- `tsc` gives the values that successive `rdtsc` instructions read, `reads` counts them; `ram` is
-- the contents of each frame by offset. An `int` is its bit pattern.
pub record Kernel : Type 0 where
  pub tasks : ℕ → Task
  pub links : Links
  pub current : ℕ
  pub idle_task : ℕ
  pub remaining_quantum : ℕ
  pub list_sem : ℕ → Semaphore
  pub global_pid : ℕ
  pub global_tid : ℕ
  pub zeos_ticks : ℕ
  pub cpu : Cpu
  pub mm : Memory
  pub ram : ℕ → ℕ → ℕ
  pub console : Console
  pub keys : Ring
  pub tsc : ℕ → ℕ
  pub reads : ℕ

-- Addresses of list heads: NULL is 0, `task[i].task.list` is `i + 1`.
abbrev pub task_link : ℕ → ℕ
task_link i = suc i

abbrev pub freequeue : ℕ
freequeue = 11

abbrev pub readyqueue : ℕ
readyqueue = 12

abbrev pub sem_blocked : ℕ → ℕ
sem_blocked s = 13 + s

-- The task that a list head is in.
abbrev pub list_head_to_task_struct : ℕ → ℕ
list_head_to_task_struct l = l - 1

abbrev pub with_task : ℕ → (Task → Task) → Kernel → Kernel
with_task i f k = record k { tasks = update k.tasks i (f (k.tasks i)) }

abbrev pub with_links : (Links → Links) → Kernel → Kernel
with_links f k = record k { links = f k.links }

-- `get_ticks`
unfoldable pub get_ticks : Kernel → ℕ × Kernel
get_ticks k = (ticks_of (k.tsc k.reads), record k { reads = k.reads + 1 })

-- `get_PT`, as the index of the table.
unfoldable pub get_pt : ℕ → Kernel → ℕ
get_pt i k = (k.mm.dir_pages (k.tasks i).dir).pbase_addr

-- `allocate_DIR`
unfoldable pub allocate_dir : ℕ → Kernel → Kernel
allocate_dir i k = with_task i (λ t. record t { dir = i }) k

-- `set_cr3(get_DIR(t))`
abbrev pub set_cr3 : ℕ → Kernel → Kernel
set_cr3 dir k = record k { cpu = record k.cpu { cr3 = dir } }

-- How a system call leaves the kernel: with a result for the task that called, by a switch to the
-- context that some task has saved, or by a page fault.
pub data Outcome : Type 0 where
  returned : ℕ → Outcome
  switched : Resume → Outcome
  page_fault : Outcome

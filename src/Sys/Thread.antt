-- ===== src/Sys/Thread.antt =====
-- `sys_createthread` and `sys_terminatethread` (zeos/sys.c).
pub mod Create
pub mod Terminate
use soa_subject.Prelude.{
  ℕ, suc, ◌+◌, ◌-◌, ◌*◌, ◌/◌, ◌%◌, ◌^◌, ltb, ◌&&◌, ◌==◌, if◌then◌else◌, neg32, add32, is_neg,
  Option, none, some, update,
}
use soa_subject.Config.{total_pages, page_size, enomem}
use soa_subject.Links.{list_add_tail, list_empty}
use soa_subject.Kernel.{
  Kernel, Outcome, returned, page_fault, thread_entry, in_terminatethread, st_ready, freequeue,
  readyqueue, task_link, with_task, with_links, get_pt,
}
use soa_subject.Sched.{sched_next_rr}
use soa_subject.Sys.Pages.{alloc_k, dealloc_k}
use soa_subject.Sys.Process.{take_task}

-- `*(unsigned long *)address = value` through the tables of the current task; `none` is the fault
-- at a page that is not present. The word lies within one page.
unfoldable pub store32 : (address value : ℕ) → Kernel → Option Kernel
store32 address value k =
    let a = address % 2 ^ 32 in
    let entry = k.mm.pagusr_table (get_pt k.current k) (a / page_size) in
    let at = a % page_size in
    let bytes = k.ram entry.pbase_addr in
    let b1 = update bytes at (value % 256) in
    let b2 = update b1 (at + 1) (value / 2 ^ 8 % 256) in
    let b3 = update b2 (at + 2) (value / 2 ^ 16 % 256) in
    let b4 = update b3 (at + 3) (value / 2 ^ 24 % 256) in
    if ltb (a / page_size) total_pages && (entry.present == 1)
    then some (record k { ram = update k.ram entry.pbase_addr b4 })
    else none

-- The three words that `sys_createthread` stores at the end of the stack page.
unfoldable pub fill_stack : (user_stack function param : ℕ) → Kernel → Option Kernel
fill_stack user_stack function param k = elim (store32 (user_stack + 4 * 1021) 0 k) [
  | none ↦ none
  | some k1 ↦ elim (store32 (user_stack + 4 * 1022) function k1) [
    | none ↦ none
    | some k2 ↦ store32 (user_stack + 4 * 1023) param k2
  ]
]

-- The rest of `sys_createthread`.
unfoldable pub start_thread : (child twrap user_stack : ℕ) → Kernel → Kernel
start_thread child twrap user_stack k =
    let tid = add32 k.global_tid 1 in
    let k1 =
      with_task child
        (λ t. record t {
          user_esp = add32 user_stack (4 * 1021);
          user_eip = twrap;
          register_esp = thread_entry;
          tid = tid;
          state = st_ready;
        })
        (record k { global_tid = tid }) in
    with_links (list_add_tail (task_link child) readyqueue) k1

-- How `sys_createthread` goes on when the stack is filled, and when a word of it faults.
unfoldable pub thread_end : (child twrap user_stack : ℕ) → Kernel → Option Kernel → Kernel × Outcome
unfolding start_thread
thread_end child twrap user_stack k none = (k, page_fault)
thread_end child twrap user_stack k (some k') = (start_thread child twrap user_stack k', returned 0)

-- `sys_createthread` once the structure is copied. `alloc_k`'s result is used as an address whatever
-- it is.
unfoldable pub thread_with : (child twrap function param : ℕ) → Kernel → Kernel × Outcome
unfolding alloc_k thread_end
thread_with child twrap function param k =
    let (user_stack, k') = alloc_k k in
    thread_end child twrap user_stack k' (fill_stack user_stack function param k')

unfoldable pub sys_createthread : (twrap function param : ℕ) → Kernel → Kernel × Outcome
unfolding take_task thread_with
sys_createthread twrap function param k =
    if list_empty freequeue k.links
    then (k, returned (neg32 enomem))
    else (let (child, k') = take_task k in thread_with child twrap function param k')

unfoldable pub sys_terminatethread : Kernel → Kernel × Outcome
unfolding dealloc_k sched_next_rr
sys_terminatethread k =
    let user_stack = (k.tasks k.current).user_esp in
    let (is_error, k1) = dealloc_k (user_stack / 2 ^ 12) k in
    if is_neg is_error
    then (k1, returned is_error)
    else sched_next_rr in_terminatethread
        (with_links (list_add_tail (task_link k1.current) freequeue) k1)

-- ===== src/Sys/Process.antt =====
-- `sys_fork`, `sys_exit`, `sys_yield` and the small calls about processes (zeos/sys.c).
pub mod Exit
pub mod Prepared
pub mod Fork
pub mod Copy
pub mod Inherit
pub mod Given
pub mod Aside
pub mod Filled
pub mod Isolated
use soa_subject.Prelude.{
  ℕ, zero, suc, ◌+◌, ◌-◌, ◌*◌, ◌/◌, ◌%◌, ◌^◌, Bool, not, ltb, leb, ◌||◌, ◌==◌, if◌then◌else◌, neg32,
  add32, Option, none, some, update, for_range,
}
use soa_subject.Config.{
  total_pages, num_pag_kernel, num_pag_code, num_pag_data, pag_log_init_code, pag_log_init_data,
  enomem, eagain, enosys,
}
use soa_subject.Links.{Links, set_next, set_prev, list_add_tail, list_del, list_empty, list_first}
use soa_subject.Mm.{Memory, alloc_frame, free_frame, set_ss_pag, del_ss_pag, get_frame}
use soa_subject.Stats.{charge_user, charge_system}
use soa_subject.Kernel.{
  Task, Kernel, Outcome, returned, ret_from_fork, in_exit, st_ready, freequeue, readyqueue,
  task_link, list_head_to_task_struct, with_task, with_links, get_pt, set_cr3, allocate_dir,
  get_ticks,
}
use soa_subject.Sched.{sched_next_rr, force_task_switch, start_stats}

unfoldable pub sys_ni_syscall : Kernel → Kernel × Outcome
sys_ni_syscall k = (k, returned (neg32 enosys))

unfoldable pub sys_getpid : Kernel → Kernel × Outcome
sys_getpid k = (k, returned (k.tasks k.current).pid)

unfoldable pub sys_gettime : Kernel → Kernel × Outcome
sys_gettime k = (k, returned k.zeos_ticks)

unfoldable pub sys_yield : Kernel → Kernel × Outcome
unfolding force_task_switch
sys_yield k = force_task_switch k

-- What a task that had yielded returns when it goes on.
unfoldable pub yield_end : Kernel → Kernel × Outcome
yield_end k = (k, returned 0)

-- `user_to_system` and `system_to_user`, called by zeos/entry.S around the interrupt routines.
unfoldable pub user_to_system : Kernel → Kernel
unfolding get_ticks
user_to_system k =
    let (now, k') = get_ticks k in
    with_task k.current (λ t. record t { p_stats = charge_user now t.p_stats }) k'

unfoldable pub system_to_user : Kernel → Kernel
unfolding get_ticks
system_to_user k =
    let (now, k') = get_ticks k in
    with_task k.current (λ t. record t { p_stats = charge_system now t.p_stats }) k'

-- `copy_data(current(), uchild, sizeof(union task_union))`: the fields, and the `list` among them.
unfoldable pub copy_task : (child : ℕ) → Kernel → Kernel
copy_task child k =
    let copied = with_task child (λ _. k.tasks k.current) k in
    with_links
      (λ h.
        set_prev (task_link child) (h.prev (task_link k.current))
          (set_next (task_link child) (h.next (task_link k.current)) h))
      copied

-- The free task that `sys_fork` and `sys_createthread` take, and the state with its copy made.
unfoldable pub take_task : Kernel → ℕ × Kernel
unfolding copy_task
take_task k =
    let lhcurrent = list_first freequeue k.links in
    let child = list_head_to_task_struct lhcurrent in
    (child, copy_task child (with_links (list_del lhcurrent) k))

-- The loop that allocates the child's data pages: the page at which no frame was left, if any.
unfoldable pub alloc_pages : (rounds pag pt : ℕ) → Memory → Option ℕ × Memory
alloc_pages zero pag pt m = (none, m)
alloc_pages (suc rounds) pag pt m =
    let (frame, m') = alloc_frame m in
    let rest = alloc_pages rounds (pag + 1) pt (set_ss_pag pt (pag_log_init_data + pag) frame m') in
    if frame == neg32 1 then (some pag, m') else rest

-- The first `n` data pages given back, in `sys_fork` after a failure and in `sys_exit`.
unfoldable pub free_pages : (n pt : ℕ) → Memory → Memory
free_pages n pt m =
    for_range n 0
      (λ i m.
        del_ss_pag pt (pag_log_init_data + i)
          (free_frame (get_frame pt (pag_log_init_data + i) m) m))
      m

-- The loops that copy `n` mappings from page `first` on.
unfoldable pub share_pages : (n first parent_pt pt : ℕ) → Memory → Memory
share_pages n first parent_pt pt m =
    for_range n 0 (λ pag m. set_ss_pag pt (first + pag) (get_frame parent_pt (first + pag) m) m) m

-- `copy_data` of the page `from` to the page `to`, through the table `pt`.
abbrev pub copy_page : (pt from_page to_page : ℕ) → Kernel → Kernel
copy_page pt from_page to_page k = record k {
  ram = update k.ram (get_frame pt to_page k.mm) (k.ram (get_frame pt from_page k.mm));
}

abbrev pub with_mm : (Memory → Memory) → Kernel → Kernel
with_mm f k = record k { mm = f k.mm }

-- The loop that copies the data pages, each through page `pag+NUM_PAG_DATA` of the parent.
unfoldable pub copy_pages : (parent_pt pt : ℕ) → Kernel → Kernel
copy_pages parent_pt pt k =
    for_range num_pag_data (num_pag_kernel + num_pag_code)
      (λ pag k.
        let mapped =
          with_mm (set_ss_pag parent_pt (pag + num_pag_data) (get_frame pt pag k.mm)) k in
        with_mm (del_ss_pag parent_pt (pag + num_pag_data))
          (copy_page parent_pt pag (pag + num_pag_data) mapped))
      k

-- The mappings and the data that the child gets from its parent.
unfoldable pub fork_memory : (child : ℕ) → Kernel → Kernel
fork_memory child k =
    let pt = get_pt child k in
    let parent_pt = get_pt k.current k in
    let k1 =
      with_mm
        (λ m.
          share_pages num_pag_code pag_log_init_code parent_pt pt
            (share_pages num_pag_kernel 0 parent_pt pt m))
        k in
    set_cr3 (k.tasks k.current).dir (copy_pages parent_pt pt k1)

-- The rest of `sys_fork`: the child's identity, its start and its place in the ready queue.
unfoldable pub start_child : (child : ℕ) → Kernel → Kernel × Outcome
unfolding start_stats
start_child child k =
    let pid = add32 k.global_pid 1 in
    let k1 =
      with_task child (λ t. record t { pid = pid; state = st_ready; register_esp = ret_from_fork })
        (record k { global_pid = pid }) in
    let k2 = with_task child (λ t. record t { state = st_ready }) (start_stats child k1) in
    (with_links (list_add_tail (task_link child) readyqueue) k2, returned pid)

-- What `sys_fork` does with the outcome of the allocation.
unfoldable pub fork_with : (child : ℕ) → Option ℕ × Memory → Kernel → Kernel × Outcome
unfolding fork_memory start_child
fork_with child (none, m) k = start_child child (fork_memory child (record k { mm = m }))
fork_with child (some pag, m) k =
    let undone = record k { mm = free_pages pag (get_pt child k) m } in
    (with_links (list_add_tail (task_link child) freequeue) undone, returned (neg32 eagain))

unfoldable pub sys_fork : Kernel → Kernel × Outcome
unfolding take_task allocate_dir fork_with
sys_fork k =
    if list_empty freequeue k.links
    then (k, returned (neg32 enomem))
    else (let (child, k1) = take_task k in
        let k2 = allocate_dir child k1 in
        fork_with child (alloc_pages num_pag_data 0 (get_pt child k2) k2.mm) k2)

unfoldable pub sys_exit : Kernel → Kernel × Outcome
unfolding sched_next_rr
sys_exit k =
    let k1 = with_mm (free_pages num_pag_data (get_pt k.current k)) k in
    let k2 = with_links (list_add_tail (task_link k.current) freequeue) k1 in
    sched_next_rr in_exit (with_task k.current (λ t. record t { pid = neg32 1 }) k2)

-- ===== src/Boot.antt =====
-- The start of the kernel: `init_mm` of zeos/mm.c, `init_sched`, `init_idle` and `init_task1` of
-- zeos/sched.c, and the copy of the user's program, in the order of `main` of zeos/system.c.
pub mod Queues
pub mod Pages
pub mod Copied
pub mod User
use soa_subject.Prelude.{
  ℕ, zero, suc, ◌+◌, ◌-◌, ◌*◌, ◌/◌, ◌%◌, ◌^◌, ltb, if◌then◌else◌, update, neg32, for_range,
}
use soa_subject.Config.{nr_tasks, default_quantum, page_size, kernel_start, ph_user_start}
use soa_subject.Links.{init_list_head, list_add_tail, list_del, list_first}
use soa_subject.Mm.{
  Memory, get_frame, init_table_pages, init_frames, init_dir_pages, set_user_pages,
}
use soa_subject.Kernel.{
  Kernel, cpu_idle, st_run, freequeue, readyqueue, task_link, list_head_to_task_struct, with_task,
  with_links, allocate_dir, get_pt, set_cr3,
}
use soa_subject.Sched.{start_stats}

-- `guard_lo` and `guard_hi` are the pages of the first and the last of the `protected_tasks`.
unfoldable pub init_mm : (guard_lo guard_hi : ℕ) → Kernel → Kernel
unfolding allocate_dir
init_mm guard_lo guard_hi k =
    let m = init_dir_pages (init_frames (init_table_pages guard_lo guard_hi k.mm)) in
    set_cr3 0 (allocate_dir 0 (record k { mm = m }))

unfoldable pub init_freequeue : Kernel → Kernel
init_freequeue k =
    for_range nr_tasks 0
      (λ i k.
        with_links (list_add_tail (task_link i) freequeue)
          (with_task i (λ t. record t { pid = neg32 1 }) k))
      (with_links (init_list_head freequeue) k)

unfoldable pub init_sched : Kernel → Kernel
unfolding init_freequeue
init_sched k = with_links (init_list_head readyqueue) (init_freequeue k)

unfoldable pub init_idle : Kernel → Kernel
unfolding start_stats allocate_dir
init_idle k =
    let l = list_first freequeue k.links in
    let c = list_head_to_task_struct l in
    let k1 =
      with_task c (λ t. record t { pid = 0; total_quantum = default_quantum })
        (with_links (list_del l) k) in
    let k2 = allocate_dir c (start_stats c k1) in
    record (with_task c (λ t. record t { register_esp = cpu_idle }) k2) { idle_task = c }

unfoldable pub init_task1 : Kernel → Kernel
unfolding start_stats allocate_dir
init_task1 k =
    let l = list_first freequeue k.links in
    let c = list_head_to_task_struct l in
    let k1 =
      with_task c (λ t. record t { pid = 1; total_quantum = default_quantum; state = st_run })
        (with_links (list_del l) k) in
    let k2 = allocate_dir c (start_stats c (record k1 { remaining_quantum = default_quantum })) in
    let k3 = record k2 { mm = set_user_pages (get_pt c k2) k2.mm } in
    set_cr3 (k3.tasks c).dir (record k3 { cpu = record k3.cpu { esp0 = c; sysenter_esp = c } })

-- The contents of the frames by offset.
abbrev pub Ram : Type 0
Ram = ℕ → ℕ → ℕ

-- The byte at the logical address `a` of the table `pt`. The kernel writes to read-only pages too.
unfoldable pub load8 : (pt a : ℕ) → Memory → Ram → ℕ
load8 pt a m ram = ram (get_frame pt (a / page_size) m) (a % page_size)

unfoldable pub store8 : (pt a v : ℕ) → Memory → Ram → Ram
store8 pt a v m ram =
    let frame = get_frame pt (a / page_size) m in
    update ram frame (update (ram frame) (a % page_size) v)

-- `n` bytes from address `start` to address `dest`, one by one.
unfoldable pub copy_bytes : (n pt start dest : ℕ) → Memory → Ram → Ram
unfolding load8 store8
copy_bytes n pt start dest m ram =
    for_range n 0 (λ i r. store8 pt (dest + i) (load8 pt (start + i) m r) m r) ram

-- `copy_data` through the table `pt`: words, and then the bytes that are left. The fuel bounds its
-- rounds.
unfoldable pub copy_logical : (rounds size pt start dest : ℕ) → Memory → Ram → Ram
unfolding copy_bytes
copy_logical zero size pt start dest m ram = ram
copy_logical (suc rounds) size pt start dest m ram =
    let rest =
      copy_logical rounds (size - 4) pt (start + 4) (dest + 4) m
        (copy_bytes 4 pt start dest m ram) in
    if ltb 4 size then rest else copy_bytes size pt start dest m ram

-- An `unsigned int` at a logical address.
unfoldable pub load32 : (pt a : ℕ) → Memory → Ram → ℕ
unfolding load8
load32 pt a m ram =
    load8 pt a m ram
    + load8 pt (a + 1) m ram * 2 ^ 8
    + load8 pt (a + 2) m ram * 2 ^ 16
    + load8 pt (a + 3) m ram * 2 ^ 24

-- `copy_data((void *) KERNEL_START + *p_sys_size, usr_main, *p_usr_size)`, through the directory in
-- CR3; there is one round more than there are bytes.
unfoldable pub load_user : Kernel → Kernel
load_user k =
    let pt = (k.mm.dir_pages k.cpu.cr3).pbase_addr in
    let sys_size = load32 pt kernel_start k.mm k.ram in
    let usr_size = load32 pt (kernel_start + 4) k.mm k.ram in
    record k {
      ram =
          copy_logical (usr_size + 1) usr_size pt (kernel_start + sys_size) ph_user_start k.mm
            k.ram;
    }

-- The steps of `main` that set up memory and tasks, the copy of the user's program, and
-- `return_gate`: from user mode the next entry to the kernel is on the stack at `tss.esp0`.
unfoldable pub main : (guard_lo guard_hi : ℕ) → Kernel → Kernel
unfolding init_mm init_sched init_idle init_task1 load_user
main guard_lo guard_hi k =
    let started = load_user (init_task1 (init_idle (init_sched (init_mm guard_lo guard_hi k)))) in
    record started { current = started.cpu.esp0 }

-- ===== src/Sched.antt =====
-- zeos/sched.c: the round-robin scheduler and the task switch.
pub mod Invariant
pub mod Next
pub mod Preempt
pub mod Enqueue
pub mod Spawn
pub mod Fair
use soa_subject.Prelude.{
  ℕ, suc, ◌+◌, ◌-◌, Bool, true, false, not, ltb, leb, ◌&&◌, ◌==◌, if◌then◌else◌, update, sub32,
  add32, neg32, for_range,
}
use soa_subject.Config.{nr_tasks, default_quantum}
use soa_subject.Links.{Links, null, init_list_head, list_add_tail, list_del, list_empty, list_first}
use soa_subject.Mm.{Memory, set_user_pages, init_table_pages, init_frames, init_dir_pages}
use soa_subject.Stats.{charge_user, charge_system, charge_ready, init_stats}
use soa_subject.Kernel.{
  State, st_run, st_ready, st_blocked, Resume, unset, in_schedule, in_yield, Task, Cpu, Kernel,
  Outcome, returned, switched, task_link, freequeue, readyqueue, list_head_to_task_struct,
  with_task, with_links, get_ticks, allocate_dir, set_cr3, get_pt,
}

-- `get_quantum`, `set_quantum`
unfoldable pub get_quantum : Task → ℕ
get_quantum t = t.total_quantum

unfoldable pub set_quantum : Task → ℕ → Task
set_quantum t new_quantum = record t { total_quantum = new_quantum }

-- `update_stats` on the system or ready ticks of task `i`, at the next reading of the clock.
unfoldable pub update_system : ℕ → Kernel → Kernel
unfolding get_ticks
update_system i k =
    let (now, k') = get_ticks k in
    with_task i (λ t. record t { p_stats = charge_system now t.p_stats }) k'

unfoldable pub update_ready : ℕ → Kernel → Kernel
unfolding get_ticks
update_ready i k =
    let (now, k') = get_ticks k in
    with_task i (λ t. record t { p_stats = charge_ready now t.p_stats }) k'

-- `init_stats` of task `i`, which reads the clock twice.
unfoldable pub start_stats : ℕ → Kernel → Kernel
unfolding get_ticks
start_stats i k =
    let (now, k') = get_ticks k in
    let (now', k'') = get_ticks k' in
    with_task i (λ t. record t { p_stats = init_stats now now' }) k''

unfoldable pub update_sched_data_rr : Kernel → Kernel
update_sched_data_rr k = record k { remaining_quantum = sub32 k.remaining_quantum 1 }

unfoldable pub needs_sched_rr : Kernel → Bool × Kernel
unfolding get_quantum
needs_sched_rr k =
    if (k.remaining_quantum == 0) && not (list_empty readyqueue k.links)
    then (true, k)
    else if k.remaining_quantum == 0
    then (false, record k { remaining_quantum = get_quantum (k.tasks k.current) })
    else (false, k)

-- `t->state!=ST_RUN`
abbrev pub is_running : State → Bool
is_running st_run = true
is_running st_ready = false
is_running st_blocked = false

-- `update_process_state_rr(t, dst_queue)`; a `dst_queue` of `null` is NULL.
unfoldable pub update_process_state_rr : (t dst_queue : ℕ) → Kernel → Kernel
unfolding update_system
update_process_state_rr t dst_queue k =
    let k1 = if is_running (k.tasks t).state then k else with_links (list_del (task_link t)) k in
    if dst_queue == null
    then with_task t (λ s. record s { state = st_run }) k1
    else (let k2 = with_links (list_add_tail (task_link t) dst_queue) k1 in
        if dst_queue == readyqueue
        then with_task t (λ s. record s { state = st_ready }) (update_system t k2)
        else with_task t (λ s. record s { state = st_blocked }) k2)

-- `task_switch` and `inner_task_switch`: `here` is what the current task goes on with when it runs
-- again. The new stack pointer is an argument of `switch_stack`, so it is read before the old one
-- is saved.
unfoldable pub task_switch : Resume → ℕ → Kernel → Kernel × Outcome
task_switch here new k =
    let target = (k.tasks new).register_esp in
    let saved =
      with_task k.current (λ t. record t { register_esp = here })
        (record k { cpu = record { esp0 = new; sysenter_esp = new; cr3 = (k.tasks new).dir } }) in
    (record saved { current = new }, switched target)

-- The first part of `sched_next_rr`: the next task, taken from the ready queue or else idle.
unfoldable pub pick_next : Kernel → ℕ × Kernel
pick_next k =
    if not (list_empty readyqueue k.links)
    then (let e = list_first readyqueue k.links in
        (list_head_to_task_struct e, with_links (list_del e) k))
    else (k.idle_task, k)

unfoldable pub sched_next_rr : Resume → Kernel → Kernel × Outcome
unfolding pick_next get_quantum update_system update_ready task_switch
sched_next_rr here k =
    let (t, k1) = pick_next k in
    let k2 = with_task t (λ s. record s { state = st_run }) k1 in
    let k3 = record k2 { remaining_quantum = get_quantum (k2.tasks t) } in
    let k4 = update_ready t (update_system k.current k3) in
    let count = λ (s : Task). record s {
      p_stats = record s.p_stats { total_trans = add32 s.p_stats.total_trans 1 };
    } in
    task_switch here t (with_task t count k4)

-- `schedule`; the result 0 stands for a return with no switch.
unfoldable pub schedule : Kernel → Kernel × Outcome
unfolding update_sched_data_rr needs_sched_rr update_process_state_rr sched_next_rr
schedule k =
    let (needed, k1) = needs_sched_rr (update_sched_data_rr k) in
    if needed
    then sched_next_rr in_schedule (update_process_state_rr k1.current readyqueue k1)
    else (k1, returned 0)

unfoldable pub force_task_switch : Kernel → Kernel × Outcome
unfolding update_process_state_rr sched_next_rr
force_task_switch k = sched_next_rr in_yield (update_process_state_rr k.current readyqueue k)

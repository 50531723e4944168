-- ===== src/Sys/Sem.antt =====
-- The semaphores of zeos/sys.c.
pub mod Facts
pub mod Enter
pub mod Wait
pub mod Wake
pub mod Destroy
use soa_subject.Prelude.{
  ℕ, zero, suc, ◌+◌, ◌-◌, ◌%◌, ◌^◌, Bool, true, false, not, ltb, leb, ◌&&◌, ◌||◌, ◌==◌,
  if◌then◌else◌, update, neg32, add32, sub32, is_neg,
}
use soa_subject.Config.{max_sem, nr_tasks}
use soa_subject.Links.{Links, null, init_list_head, list_add_tail, list_del, list_empty, list_first}
use soa_subject.Kernel.{
  Semaphore, Kernel, Task, Outcome, returned, in_sem_wait, task_link, readyqueue, sem_blocked,
  list_head_to_task_struct, with_task, with_links,
}
use soa_subject.Sched.{sched_next_rr}

-- An assignment to `list_sem[n_sem]`.
abbrev pub with_sem : ℕ → (Semaphore → Semaphore) → Kernel → Kernel
with_sem n f k = record k { list_sem = update k.list_sem n (f (k.list_sem n)) }

-- `valid_sem(n_sem, isNew)`: 0 or -1.
unfoldable pub valid_sem : (n_sem : ℕ) → (is_new : Bool) → Kernel → ℕ
valid_sem n_sem is_new k =
    if is_neg n_sem || leb max_sem n_sem
    then neg32 1
    else if is_new
    then (if not ((k.list_sem n_sem).is_init == 0) then neg32 1 else 0)
    else (if (k.list_sem n_sem).is_init == 0 then neg32 1 else 0)

unfoldable pub sys_sem_init : (n_sem value : ℕ) → Kernel → Kernel × Outcome
sys_sem_init n_sem value k =
    if not (valid_sem n_sem true k == 0)
    then (k, returned (neg32 1))
    else (let k1 = with_sem n_sem (λ s. record s { counter = value }) k in
        let k2 = with_links (init_list_head (sem_blocked n_sem)) k1 in
        (with_sem n_sem (λ s. record s { is_init = 1 }) k2, returned 0))

-- The end of `sys_sem_wait`: what a task does when it goes on after its wait.
unfoldable pub sem_wait_end : Kernel → Kernel × Outcome
sem_wait_end k =
    if (k.tasks k.current).destroyed == 1
    then (with_task k.current (λ t. record t { destroyed = 0 }) k, returned (neg32 1))
    else (k, returned 0)

unfoldable pub sys_sem_wait : (n_sem : ℕ) → Kernel → Kernel × Outcome
unfolding sem_wait_end sched_next_rr
sys_sem_wait n_sem k =
    if not (valid_sem n_sem false k == 0)
    then (k, returned (neg32 1))
    else (let k1 = with_sem n_sem (λ s. record s { counter = sub32 s.counter 1 }) k in
        if is_neg (k1.list_sem n_sem).counter
        then (let k2 = with_links (list_add_tail (task_link k1.current) (sem_blocked n_sem)) k1 in
            sched_next_rr in_sem_wait k2)
        else sem_wait_end k1)

unfoldable pub sys_sem_signal : (n_sem : ℕ) → Kernel → Kernel × Outcome
sys_sem_signal n_sem k =
    if not (valid_sem n_sem false k == 0)
    then (k, returned (neg32 1))
    else (let k1 = with_sem n_sem (λ s. record s { counter = add32 s.counter 1 }) k in
        let c = (k1.list_sem n_sem).counter in
        if is_neg c || (c == 0)
        then (let lib = list_first (sem_blocked n_sem) k1.links in
            (with_links (list_add_tail lib readyqueue) (with_links (list_del lib) k1), returned 0))
        else (k1, returned 0))

-- The `while` of `sys_sem_destroy`; the fuel bounds its rounds.
unfoldable pub wake_all : ℕ → (n_sem : ℕ) → Kernel → Kernel
wake_all zero n_sem k = k
wake_all (suc fuel) n_sem k =
    let lib = list_first (sem_blocked n_sem) k.links in
    let k1 = with_links (list_del lib) k in
    let k2 = with_task (list_head_to_task_struct lib) (λ t. record t { destroyed = 1 }) k1 in
    let rest = wake_all fuel n_sem (with_links (list_add_tail lib readyqueue) k2) in
    if not (list_empty (sem_blocked n_sem) k.links) then rest else k

-- Each round wakes one of the `NR_TASKS` tasks.
unfoldable pub sys_sem_destroy : (n_sem : ℕ) → Kernel → Kernel × Outcome
unfolding wake_all
sys_sem_destroy n_sem k = if not (valid_sem n_sem false k == 0) then (k, returned (neg32 1)) else (
  with_sem n_sem (λ s. record s { is_init = 0 }) (wake_all (nr_tasks + 1) n_sem k),
  returned 0,
)

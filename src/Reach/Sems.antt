-- ===== src/Reach/Sems.antt =====
-- The steps that leave a semaphore of zeos/sys.c as it is.
use soa_subject.Prelude.{
  ℕ, zero, suc, ◌+◌, ◌/◌, ◌^◌, ◌≡◌, ◌≢◌, refl, ap, ◌∙◌, subst, false, ◌==◌, Option, none, some,
  arith, update_ne, Bool-cases, inl, inr,
}
use soa_subject.Config.{nr_tasks}
use soa_subject.Mm.{Memory}
use soa_subject.Links.{list_empty}
use soa_subject.Console.{Console}
use soa_subject.Interrupt.{clock_routine}
use soa_subject.Kernel.{Kernel, sem_blocked, freequeue}
use soa_subject.Sched.{schedule, force_task_switch}
use soa_subject.Sys.Sem.{
  valid_sem, sem_wait_end, sys_sem_init, sys_sem_wait, sys_sem_signal, sys_sem_destroy, wake_all,
}
use soa_subject.Sys.Process.{sys_fork, sys_exit, sys_yield, take_task, fork_with, start_child}
use soa_subject.Sys.Process.Prepared.{fork_memory-Quiet}
use soa_subject.Sys.Thread.{
  sys_createthread, sys_terminatethread, thread_with, thread_end, fill_stack, start_thread,
}
use soa_subject.Sys.Thread.Create.{
  alloc_k-Quiet, dealloc_k-Quiet, fill_stack-Quiet, IfStored, Quiet,
}
use soa_subject.Sys.Pages.{alloc_k}
use soa_subject.Reach.{
  Step, tick, key, enter, leave, user, yield, sem_init, sem_wait, wait_end, sem_signal, sem_destroy,
  fork, exit, createthread, terminatethread, alloc, dealloc, write, get_key, dump_screen, get_stats,
}
use soa_subject.Reach.Quiet.{
  user_code-SameQueues, clocked, keyboard_routine-SameQueues, user_to_system-SameQueues,
  system_to_user-SameQueues, sys_alloc-SameQueues, sys_dealloc-SameQueues, sys_write-SameQueues,
  sys_dump_screen-SameQueues, sys_get_key-SameQueues, sys_get_stats-SameQueues,
}

-- What the scheduler does leaves the semaphores as they are.
sems-schedule : (k : Kernel) → (schedule k).0.list_sem ≡ k.list_sem
unfolding schedule
sems-schedule k = ground arith

sems-clock_routine :
    (zeos_show_clock : ℕ → Console → Console) (k : Kernel)
    → (clock_routine zeos_show_clock k).0.list_sem ≡ k.list_sem
unfolding clock_routine
sems-clock_routine zeos_show_clock k = sems-schedule (clocked zeos_show_clock k)

sems-force_task_switch : (k : Kernel) → (sys_yield k).0.list_sem ≡ k.list_sem
unfolding sys_yield force_task_switch
sems-force_task_switch k = ground arith

sems-sys_exit : (k : Kernel) → (sys_exit k).0.list_sem ≡ k.list_sem
unfolding sys_exit
sems-sys_exit k = ground arith

sems-fork_with :
    (c : ℕ) (a : Option ℕ × Memory) (k : Kernel) → (fork_with c a k).0.list_sem ≡ k.list_sem
unfolding fork_with start_child
sems-fork_with c (some pag, m) k = refl
sems-fork_with c (none, m) k = (fork_memory-Quiet c (record k { mm = m })).sems

sems-sys_fork : (k : Kernel) → (sys_fork k).0.list_sem ≡ k.list_sem
unfolding sys_fork take_task
sems-sys_fork k = elim (Bool-cases (list_empty freequeue k.links)) [
  | inl e ↦ rw e
  | inr e ↦ rw e (sems-fork_with _ _ _)
]

sems-thread_end :
    (c w u : ℕ) (k : Kernel) (o : Option Kernel)
    → IfStored (Quiet k) o
    → (thread_end c w u k o).0.list_sem ≡ k.list_sem
unfolding thread_end
sems-thread_end c w u k none q = refl
sems-thread_end c w u k (some k') q = unfold start_thread in q.sems

sems-thread_with : (c w f p : ℕ) (k : Kernel) → (thread_with c w f p k).0.list_sem ≡ k.list_sem
unfolding thread_with
sems-thread_with c w f p k =
    sems-thread_end c w (alloc_k k).0 (alloc_k k).1 (fill_stack (alloc_k k).0 f p (alloc_k k).1)
      (fill_stack-Quiet (alloc_k k).0 f p (alloc_k k).1)
    ∙ (alloc_k-Quiet k).sems

sems-sys_createthread :
    (w f p : ℕ) (k : Kernel) → (sys_createthread w f p k).0.list_sem ≡ k.list_sem
unfolding sys_createthread take_task
sems-sys_createthread w f p k = elim (Bool-cases (list_empty freequeue k.links)) [
  | inl e ↦ rw e
  | inr e ↦ rw e (sems-thread_with _ w f p _)
]

sems-sys_terminatethread : (k : Kernel) → (sys_terminatethread k).0.list_sem ≡ k.list_sem
unfolding sys_terminatethread
sems-sys_terminatethread k =
    ground (arith, (dealloc_k-Quiet ((k.tasks k.current).user_esp / 2 ^ 12) k).sems)

sems-wait_end : (k : Kernel) → (sem_wait_end k).0.list_sem ≡ k.list_sem
unfolding sem_wait_end
sems-wait_end k = ground arith

-- A call for one semaphore leaves the others as they are.
module _ (n m : ℕ) (k : Kernel) where
  sems-sys_sem_init :
      (value : ℕ)
      → (k.list_sem n).is_init ≢ 0
      → (sys_sem_init m value k).0.list_sem n ≡ k.list_sem n
  unfolding sys_sem_init valid_sem
  sems-sys_sem_init value used = ground arith

  sems-sys_sem_wait : m ≢ n → (sys_sem_wait m k).0.list_sem n ≡ k.list_sem n
  unfolding sys_sem_wait
  sems-sys_sem_wait ne = ground arith

  sems-sys_sem_signal : m ≢ n → (sys_sem_signal m k).0.list_sem n ≡ k.list_sem n
  unfolding sys_sem_signal
  sems-sys_sem_signal ne = ground arith

sems-wake_all : (fuel m : ℕ) (k : Kernel) → (wake_all fuel m k).list_sem ≡ k.list_sem
unfolding wake_all
sems-wake_all zero m k = refl
sems-wake_all (suc fuel) m k = elim (Bool-cases (list_empty (sem_blocked m) k.links)) [
  | inl e ↦ rw e
  | inr e ↦ rw e (sems-wake_all fuel m _)
]

sems-sys_sem_destroy :
    (n m : ℕ) (k : Kernel) → m ≢ n → (sys_sem_destroy m k).0.list_sem n ≡ k.list_sem n
unfolding sys_sem_destroy
sems-sys_sem_destroy n m k ne = elim (Bool-cases (valid_sem m false k == 0)) [
  | inr bad ↦ rw bad
  | inl ok ↦ rw ok (
      update_ne (wake_all (nr_tasks + 1) m k).list_sem m _ n ne
      ∙ ap (λ f. f n) (sems-wake_all (nr_tasks + 1) m k))
]

-- A step that is no wait, signal or end of semaphore `n`.
abbrev pub OtherThan : ℕ → {k k' : Kernel} → Step k k' → Type 0
OtherThan n (sem_wait m ne e) = m ≢ n
OtherThan n (sem_signal m fits e) = m ≢ n
OtherThan n (sem_destroy m e) = m ≢ n
OtherThan n s = Unit

abbrev Keeps : ℕ → Kernel → Kernel → Type 0
Keeps n k t = t.list_sem n ≡ k.list_sem n

-- Such a step leaves a semaphore in use as it is.
pub sems-Step :
    (n : ℕ) {k k' : Kernel} (s : Step k k')
    → OtherThan n s
    → (k.list_sem n).is_init ≢ 0
    → k'.list_sem n ≡ k.list_sem n
sems-Step n {k} (tick show e) o used =
    subst (Keeps n k) e (ap (λ f. f n) (sems-clock_routine show k))
sems-Step n {k} (key c beyond e) o used =
    subst (Keeps n k) e (ap (λ f. f n) (keyboard_routine-SameQueues c beyond k).sems)
sems-Step n {k} (enter e) o used =
    subst (Keeps n k) e (ap (λ f. f n) (user_to_system-SameQueues k).sems)
sems-Step n {k} (leave e) o used =
    subst (Keeps n k) e (ap (λ f. f n) (system_to_user-SameQueues k).sems)
sems-Step n {k} (user ram esp eip e) o used =
    subst (Keeps n k) e (ap (λ f. f n) (user_code-SameQueues ram esp eip k).sems)
sems-Step n {k} (alloc e) o used = subst (Keeps n k) e (ap (λ f. f n) (sys_alloc-SameQueues k).sems)
sems-Step n {k} (dealloc a e) o used =
    subst (Keeps n k) e (ap (λ f. f n) (sys_dealloc-SameQueues a k).sems)
sems-Step n {k} (write fd buffer nbytes bytes e) o used =
    subst (Keeps n k) e (ap (λ f. f n) (sys_write-SameQueues fd buffer nbytes bytes k).sems)
sems-Step n {k} (get_key c e) o used =
    subst (Keeps n k) e (ap (λ f. f n) (sys_get_key-SameQueues c k).sems)
sems-Step n {k} (dump_screen a cells e) o used =
    subst (Keeps n k) e (ap (λ f. f n) (sys_dump_screen-SameQueues a cells k).sems)
sems-Step n {k} (get_stats pid st e) o used =
    subst (Keeps n k) e (ap (λ f. f n) (sys_get_stats-SameQueues pid st k).sems)
sems-Step n {k} (yield e) o used = subst (Keeps n k) e (ap (λ f. f n) (sems-force_task_switch k))
sems-Step n {k} (sem_init m value small e) o used =
    subst (Keeps n k) e (sems-sys_sem_init n m k value used)
sems-Step n {k} (sem_wait m ne e) o used = subst (Keeps n k) e (sems-sys_sem_wait n m k o)
sems-Step n {k} (wait_end e) o used = subst (Keeps n k) e (ap (λ f. f n) (sems-wait_end k))
sems-Step n {k} (sem_signal m fits e) o used = subst (Keeps n k) e (sems-sys_sem_signal n m k o)
sems-Step n {k} (sem_destroy m e) o used = subst (Keeps n k) e (sems-sys_sem_destroy n m k o)
sems-Step n {k} (fork e) o used = subst (Keeps n k) e (ap (λ f. f n) (sems-sys_fork k))
sems-Step n {k} (exit ne e) o used = subst (Keeps n k) e (ap (λ f. f n) (sems-sys_exit k))
sems-Step n {k} (createthread w f p fine e) o used =
    subst (Keeps n k) e (ap (λ f. f n) (sems-sys_createthread w f p k))
sems-Step n {k} (terminatethread ne e) o used =
    subst (Keeps n k) e (ap (λ f. f n) (sems-sys_terminatethread k))

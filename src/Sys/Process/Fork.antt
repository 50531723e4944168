-- ===== src/Sys/Process/Fork.antt =====
-- `sys_fork` of zeos/sys.c: the child and the queues.
use soa_subject.Prelude.{
  ℕ, ◌-◌, ◌≤◌, ◌<◌, ◌≡◌, ◌≢◌, refl, sym, ap, ◌∙◌, subst, ◌⊎◌, inl, inr, List, [], ◌∷◌, ◌++◌, arith,
  neg32, add32, Option, none, some, update, update_self, update_ne,
}
use soa_subject.Config.{num_pag_data, enomem, eagain}
use soa_subject.Links.{list_add_tail}
use soa_subject.Mm.{Memory}
use soa_subject.Mm.Free.{available}
use soa_subject.Kernel.{
  Kernel, Task, Outcome, returned, freequeue, readyqueue, task_link, get_pt,
  list_head_to_task_struct,
}
use soa_subject.Sched.{is_running, start_stats}
use soa_subject.Sched.Invariant.{IsValid}
use soa_subject.Sched.Spawn.{first_free-fresh}
use soa_subject.Sys.Process.{sys_fork, fork_with, start_child, fork_memory, alloc_pages, copy_task}
use soa_subject.Kernel.{allocate_dir, get_ticks}
use soa_subject.Sys.Process.Prepared.{
  Quiet, prepared, allocated, sys_fork-nil, sys_fork-cons, enough_lem, fork_memory-Quiet,
  prepared-Prepared, queued-IsValid,
}

-- How `sys_fork` ends, by the free tasks that there were.
pub data Forked {k : Kernel} (v : IsValid k) (r : Kernel × Outcome) : Type 0 where
  -- No free task: -ENOMEM, and nothing changes.
  no_task : v.queue freequeue ≡ [] → r ≡ (k, returned (neg32 enomem)) → Forked v r
  -- Not enough frames: -EAGAIN, and the task goes behind the free ones.
  no_frames :
      (x : ℕ) (xs : List ℕ) (valid : IsValid r.0)
      → available k.mm < num_pag_data
      → v.queue freequeue ≡ x ∷ xs
      → valid.queue freequeue ≡ xs ++ (x ∷ [])
      → valid.queue readyqueue ≡ v.queue readyqueue
      → r.0.current ≡ k.current
      → r.1 ≡ returned (neg32 eagain)
      → Forked v r
  -- The first free task is the child and goes behind the ready ones with a new pid.
  child :
      (x : ℕ) (xs : List ℕ) (valid : IsValid r.0)
      → num_pag_data ≤ available k.mm
      → v.queue freequeue ≡ x ∷ xs
      → valid.queue freequeue ≡ xs
      → valid.queue readyqueue ≡ v.queue readyqueue ++ (x ∷ [])
      → r.0.current ≡ k.current
      → (r.0.tasks (list_head_to_task_struct x)).pid ≡ add32 k.global_pid 1
      → r.1 ≡ returned (add32 k.global_pid 1)
      → Forked v r

-- What `start_child` makes of a state that runs another task than the child.
start_parts :
    (c : ℕ) (k : Kernel)
    → c ≢ k.current
    → let (k', out) = start_child c k in
      (k'.links ≡ list_add_tail (task_link c) readyqueue k.links)
      × (k'.list_sem ≡ k.list_sem)
      × (k'.current ≡ k.current)
      × (k'.idle_task ≡ k.idle_task)
      × (is_running (k'.tasks k'.current).state ≡ is_running (k.tasks k.current).state)
      × ((k'.tasks c).pid ≡ add32 k.global_pid 1)
      × (out ≡ returned (add32 k.global_pid 1))
unfolding start_child start_stats get_ticks
start_parts c k ne = ground arith

module _ {k : Kernel} (v : IsValid k) (x : ℕ) (xs : List ℕ) (e : v.queue freequeue ≡ x ∷ xs) where
  tail_back : task_link (x - 1) ≡ x
  tail_back = let f = first_free-fresh v x xs e in omega arith

  -- The task goes back behind the free ones.
  given_back :
      (k' : Kernel)
      → available k.mm < num_pag_data
      → k'.links ≡ list_add_tail (task_link (x - 1)) freequeue (prepared x k).links
      → k'.list_sem ≡ (prepared x k).list_sem
      → k'.current ≡ (prepared x k).current
      → k'.idle_task ≡ (prepared x k).idle_task
      → k'.tasks ≡ (prepared x k).tasks
      → Forked v (k', returned (neg32 eagain))
  given_back k' few el es ec ei et =
      let q = prepared-Prepared v x xs e in
      no_frames x xs
        (queued-IsValid v x xs e freequeue k' q (inl refl)
          (el ∙ ap (λ y. list_add_tail y freequeue (prepared x k).links) tail_back)
          (record {
            sems = es ∙ q.sems;
            current = ec ∙ q.current;
            idle = ei ∙ q.idle;
            running =
                ap (λ i. is_running (k'.tasks i).state) ec
                ∙ ap (λ (t : ℕ → Task). is_running (t (prepared x k).current).state) et
                ∙ q.running;
          }))
        few e
        (update_self (update v.queue freequeue xs) freequeue _
          ∙ ap (λ q. q ++ (x ∷ [])) (update_self v.queue freequeue xs))
        (update_ne (update v.queue freequeue xs) freequeue
            (update v.queue freequeue xs freequeue ++ (x ∷ [])) readyqueue (omega arith)
          ∙ update_ne v.queue freequeue xs readyqueue (omega arith))
        (ec ∙ q.current) refl

  -- The child is behind the ready ones.
  started :
      (p : Kernel)
      → num_pag_data ≤ available k.mm
      → Quiet (prepared x k) p
      → p.global_pid ≡ k.global_pid
      → Forked v (start_child (x - 1) p)
  started p enough y ep =
      let f = first_free-fresh v x xs e in
      let q = prepared-Prepared v x xs e in
      let r = start_parts (x - 1) p (λ z. f.2 (omega (arith, z, y.current, q.current, f.0))) in
      child x xs
        (queued-IsValid v x xs e readyqueue (start_child (x - 1) p).0 q (inr refl)
          (r.0
            ∙ ap (λ l. list_add_tail l readyqueue p.links) tail_back
            ∙ ap (list_add_tail x readyqueue) y.links)
          (record {
            sems = r.1 ∙ y.sems ∙ q.sems;
            current = r.2 ∙ y.current ∙ q.current;
            idle = r.3 ∙ y.idle ∙ q.idle;
            running =
                r.4
                ∙ ap (λ (t : ℕ → Task). is_running (t p.current).state) y.tasks
                ∙ ap (λ i. is_running ((prepared x k).tasks i).state) y.current
                ∙ q.running;
          }))
        enough e
        (update_ne (update v.queue freequeue xs) readyqueue
            (update v.queue freequeue xs readyqueue ++ (x ∷ [])) freequeue (omega arith)
          ∙ update_self v.queue freequeue xs)
        (update_self (update v.queue freequeue xs) readyqueue _
          ∙ ap (λ q. q ++ (x ∷ [])) (update_ne v.queue freequeue xs readyqueue (omega arith)))
        (r.2 ∙ y.current ∙ q.current) (r.5 ∙ ap (λ n. add32 n 1) ep)
        (r.6 ∙ ap (λ n. returned (add32 n 1)) ep)

  prepared_mm : (prepared x k).mm ≡ k.mm
  prepared_mm = unfold allocate_dir copy_task in refl

  -- The frames for the child are found exactly if there are enough.
  allocated_lem :
      ((allocated x k).0 ≡ none) × (num_pag_data ≤ available k.mm)
      ⊎ ((allocated x k).0 ≢ none) × (available k.mm < num_pag_data)
  allocated_lem =
      subst
        (λ m.
          ((alloc_pages num_pag_data 0 (get_pt (x - 1) (prepared x k)) (prepared x k).mm).0 ≡ none)
            × (num_pag_data ≤ available m)
          ⊎ ((alloc_pages num_pag_data 0 (get_pt (x - 1) (prepared x k)) (prepared x k).mm).0
              ≢ none)
            × (available m < num_pag_data))
        prepared_mm (enough_lem num_pag_data (get_pt (x - 1) (prepared x k)) (prepared x k).mm)

  fork_with-Forked :
      (a : Option ℕ × Memory)
      → (a.0 ≡ none) × (num_pag_data ≤ available k.mm)
        ⊎ (a.0 ≢ none) × (available k.mm < num_pag_data)
      → Forked v (fork_with (x - 1) a (prepared x k))
  unfolding fork_with
  fork_with-Forked (some pag, m) (inl h) =
      absurd (let e : some pag ≡ none = h.0 in ground (arith, e))
  fork_with-Forked (some pag, m) (inr h) = given_back _ h.1 refl refl refl refl refl
  fork_with-Forked (none, m) (inr h) = absurd (h.0 refl)
  fork_with-Forked (none, m) (inl h) =
      let y = fork_memory-Quiet (x - 1) (record (prepared x k) { mm = m }) in
      started (fork_memory (x - 1) (record (prepared x k) { mm = m })) h.1
        (record {
          links = y.links;
          sems = y.sems;
          current = y.current;
          idle = y.idle;
          tasks = y.tasks;
          pids = y.pids;
        })
        (y.pids ∙ prepared_pid)
    where
      prepared_pid : (prepared x k).global_pid ≡ k.global_pid
      prepared_pid = unfold allocate_dir copy_task in refl

-- `sys_fork` keeps the state valid and the caller running. With no free task it answers -ENOMEM and
-- changes nothing. With one, if fewer than 20 frames that `alloc_frame` can find are free, it answers
-- -EAGAIN and the first free task goes behind the free ones; if at least 20 are, that task gets the
-- next pid and goes behind the ready ones, and the pid is the answer.
pub sys_fork-Forked : {k : Kernel} (v : IsValid k) → Forked v (sys_fork k)
sys_fork-Forked {k} v = go (v.queue freequeue) refl
  where
    go : (q : List ℕ) → v.queue freequeue ≡ q → Forked v (sys_fork k)
    go [] e = no_task e (sys_fork-nil v e)
    go (x ∷ xs) e =
        subst (Forked v) (sym (sys_fork-cons v x xs e))
          (fork_with-Forked v x xs e (allocated x k) (allocated_lem v x xs e))

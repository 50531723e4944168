-- ===== src/Boot/Queues.antt =====
-- The queues that the start of the kernel leaves.
use mathlib.Core.Path.{fun_ext}
use soa_subject.Prelude.{
  ℕ, zero, suc, ◌+◌, ◌-◌, ◌≤◌, ◌<◌, ◌≡◌, ◌≢◌, refl, sym, ap, ◌∙◌, subst, inl, Bool, true, false,
  update, List, [], ◌∷◌, ◌++◌, arith, for_range_inv, neg32, update_ne, update_elim,
}
use soa_subject.Config.{nr_tasks}
use soa_subject.Links.{Links, null, init_list_head, list_add_tail, list_del, list_first}
use soa_subject.Links.Queues
use soa_subject.Links.Heads
use soa_subject.Links.Queues.{Queues}
use soa_subject.Kernel.{
  Kernel, Semaphore, freequeue, readyqueue, task_link, get_ticks, allocate_dir, with_links,
  with_task,
}
use soa_subject.Sched.{is_running, start_stats}
use soa_subject.Sched.Invariant.{IsValid, live}
use soa_subject.Boot.{init_mm, init_freequeue, init_sched, init_idle, init_task1, load_user, main}

abbrev free_only : ℕ → Bool
free_only = update (λ _. false) freequeue true

-- The tasks 0 to n-1 by their links.
abbrev tasks_upto : ℕ → List ℕ
tasks_upto zero = []
tasks_upto (suc n) = tasks_upto n ++ (task_link n ∷ [])

-- What the loop of `init_freequeue` has built behind task `i`.
record Filled (k0 : Kernel) (i : ℕ) (k : Kernel) : Type 0 where
  pub owner : ℕ → ℕ
  pub queue : ℕ → List ℕ
  pub queues : Queues k.links free_only owner queue
  pub beyond : (x : ℕ) → i < x → owner x ≡ null
  pub range : (x : ℕ) → owner x ≢ null → (1 ≤ x) × (x ≤ i)
  pub elements : queue freequeue ≡ tasks_upto i
  pub sems : k.list_sem ≡ k0.list_sem

no-Queues : (h : Links) → Queues h (λ _. false) (λ _. null) (λ _. [])
no-Queues h = record {
  null_dead = refl;
  head_free = λ a l. refl;
  circular = λ a l. cc;
  owned = λ a l. tt;
  placed = λ x ne. absurd (ne refl);
  listed = λ a l. cc;
}

Filled-zero : (k : Kernel) → Filled k 0 (with_links (init_list_head freequeue) k)
Filled-zero k = record {
  owner = λ _. null;
  queue = update (λ _. []) freequeue [];
  queues = Heads.init (no-Queues k.links) freequeue refl (omega arith) refl;
  beyond = λ x l. refl;
  range = λ x ne. absurd (ne refl);
  elements = refl;
  sems = refl;
}

Filled-suc :
    (k0 : Kernel) (i : ℕ) (k : Kernel)
    → i < nr_tasks
    → Filled k0 i k
    → Filled k0 (i + 1) (
        with_links
          (list_add_tail (task_link i) freequeue)
          (with_task i (λ t. record t { pid = neg32 1 }) k))
Filled-suc k0 i k lt f = record {
  owner = update f.owner (task_link i) freequeue;
  queue = update f.queue freequeue (f.queue freequeue ++ (task_link i ∷ []));
  queues =
      Queues.add_tail f.queues (task_link i) freequeue refl (ground arith)
        (f.beyond (task_link i) (omega arith));
  beyond =
      λ x l. update_ne f.owner (task_link i) freequeue x (omega arith) ∙ f.beyond x (omega arith);
  range =
      update_elim (λ x o. o ≢ null → (1 ≤ x) × (x ≤ i + 1)) f.owner (task_link i) freequeue
        (λ _. omega arith) (λ x ne o. let r = f.range x o in omega arith);
  elements =
      ap (λ q. q ++ (task_link i ∷ [])) f.elements
      ∙ ap tasks_upto (let e : suc i ≡ i + 1 = omega arith in e);
  sems = f.sems;
}

init_freequeue-Filled : (k : Kernel) → Filled k nr_tasks (init_freequeue k)
unfolding init_freequeue
init_freequeue-Filled k =
    for_range_inv (Filled k) _ nr_tasks 0 nr_tasks _ refl (λ i t _ lt f. Filled-suc k i t lt f)
      (Filled-zero k)

-- Both queues are there: all tasks are free and none is ready.
record Sorted (sems : ℕ → Semaphore) (free : List ℕ) (k : Kernel) : Type 0 where
  pub owner : ℕ → ℕ
  pub queue : ℕ → List ℕ
  pub queues : Queues k.links (live sems) owner queue
  pub range : (x : ℕ) → owner x ≢ null → (1 ≤ x) × (x ≤ nr_tasks)
  pub free_list : queue freequeue ≡ free
  pub ready_list : queue readyqueue ≡ []

both_live :
    (sems : ℕ → Semaphore)
    → ((s : ℕ) → (sems s).is_init ≡ 0)
    → update free_only readyqueue true ≡ live sems
both_live sems z = fun_ext λ a. ground (arith, z (a - 13))

init_sched-Sorted :
    (k : Kernel)
    → ((s : ℕ) → (k.list_sem s).is_init ≡ 0)
    → Sorted k.list_sem (tasks_upto nr_tasks) (init_sched k)
unfolding init_sched
init_sched-Sorted k z =
    let f = init_freequeue-Filled k in
    record {
      owner = f.owner;
      queue = update f.queue readyqueue [];
      queues =
          subst
            (λ l.
              Queues (init_list_head readyqueue (init_freequeue k).links) l f.owner
                (update f.queue readyqueue []))
            (both_live k.list_sem z)
            (Heads.init f.queues readyqueue (f.beyond readyqueue (omega arith)) (omega arith) refl);
      range = f.range;
      free_list = f.elements;
      ready_list = refl;
    }

module _ {sems : ℕ → Semaphore} (x : ℕ) (xs : List ℕ) {k : Kernel}
    (q : Sorted sems (x ∷ xs) k) where
  Sorted-first : list_first freequeue k.links ≡ x
  Sorted-first = Queues.first q.queues freequeue x xs refl q.free_list

  -- The first free task is taken out.
  abbrev Sorted-take : (k' : Kernel) → k'.links ≡ list_del x k.links → Sorted sems xs k'
  Sorted-take k' e = record {
    owner = update q.owner x null;
    queue = update q.queue freequeue xs;
    queues =
        subst (λ l. Queues l (live sems) (update q.owner x null) (update q.queue freequeue xs))
          (sym e) (Queues.remove q.queues freequeue x [] xs refl q.free_list);
    range =
        update_elim (λ y o. o ≢ null → (1 ≤ y) × (y ≤ nr_tasks)) q.owner x null
          (λ ne. absurd (ne refl)) (λ y _. q.range y);
    free_list = refl;
    ready_list = q.ready_list;
  }

init_idle-parts :
    (k : Kernel) (l : ℕ)
    → list_first freequeue k.links ≡ l
    → let k' = init_idle k in
      (k'.links ≡ list_del l k.links) × (k'.list_sem ≡ k.list_sem) × (k'.idle_task ≡ l - 1)
unfolding init_idle start_stats get_ticks allocate_dir
init_idle-parts k l e = (ap (λ y. list_del y k.links) e, refl, ap (λ y. y - 1) e)

init_task1-parts :
    (k : Kernel) (l : ℕ)
    → list_first freequeue k.links ≡ l
    → let k' = init_task1 k in
      (k'.links ≡ list_del l k.links)
      × (k'.list_sem ≡ k.list_sem)
      × (k'.idle_task ≡ k.idle_task)
      × (k'.cpu.esp0 ≡ l - 1)
      × (is_running (k'.tasks (l - 1)).state ≡ true)
unfolding init_task1 start_stats get_ticks allocate_dir
init_task1-parts k l e =
    (ap (λ y. list_del y k.links) e, refl, refl, ap (λ y. y - 1) e, rw e (ground arith))

-- What `main` leaves: a valid state in which task 1 runs, task 0 is idle, the others are free,
-- none is ready and no semaphore is in use.
pub record Booted (k : Kernel) : Type 0 where
  pub valid : IsValid k
  pub current : k.current ≡ 1
  pub idle : k.idle_task ≡ 0
  pub free : valid.queue freequeue ≡ 3 ∷ 4 ∷ 5 ∷ 6 ∷ 7 ∷ 8 ∷ 9 ∷ 10 ∷ []
  pub ready : valid.queue readyqueue ≡ []
  pub unused : (s : ℕ) → (k.list_sem s).is_init ≡ 0

booted :
    (sems : ℕ → Semaphore) (free : List ℕ) (k : Kernel) (q : Sorted sems free k)
    → ((s : ℕ) → (sems s).is_init ≡ 0)
    → free ≡ 3 ∷ 4 ∷ 5 ∷ 6 ∷ 7 ∷ 8 ∷ 9 ∷ 10 ∷ []
    → q.owner 1 ≡ null
    → q.owner 2 ≡ null
    → k.list_sem ≡ sems
    → k.idle_task ≡ 0
    → k.cpu.esp0 ≡ 1
    → is_running (k.tasks 1).state ≡ true
    → Booted (record k { current = k.cpu.esp0 })
booted sems free k q z ef o1 o2 es ei ec run = record {
  valid = record {
    owner = q.owner;
    queue = q.queue;
    base = record {
      queues = subst (λ s. Queues k.links (live s) q.owner q.queue) (sym es) q.queues;
      range = q.range;
      current_lt = omega (arith, ec);
      idle_lt = omega (arith, ei);
      idle_home = inl (ap (λ i. q.owner (task_link i)) ei ∙ o1);
    };
    runs = record {
      unqueued = ap (λ i. q.owner (task_link i)) ec ∙ o2;
      marked = ap (λ i. is_running (k.tasks i).state) ec ∙ run;
    };
    counters = λ s lt init. absurd (init (ap (λ f. (f s).is_init) es ∙ z s));
  };
  current = ec;
  idle = ei;
  free = q.free_list ∙ ef;
  ready = q.ready_list;
  unused = λ s. ap (λ f. (f s).is_init) es ∙ z s;
}

Filled-sems : (k : Kernel) → (init_sched k).list_sem ≡ k.list_sem
unfolding init_sched
Filled-sems k = (init_freequeue-Filled k).sems

sched-Booted :
    (k : Kernel)
    → ((s : ℕ) → (k.list_sem s).is_init ≡ 0)
    → let k' = load_user (init_task1 (init_idle (init_sched k))) in
      Booted (record k' { current = k'.cpu.esp0 })
unfolding load_user
sched-Booted k z =
    let q1 = init_sched-Sorted k z in
    let i = init_idle-parts (init_sched k) 1 (Sorted-first 1 _ q1) in
    let q2 = Sorted-take 1 _ q1 (init_idle (init_sched k)) i.0 in
    let t = init_task1-parts (init_idle (init_sched k)) 2 (Sorted-first 2 _ q2) in
    let q3 = Sorted-take 2 _ q2 (load_user (init_task1 (init_idle (init_sched k)))) t.0 in
    booted k.list_sem _ _ q3 z refl refl refl (t.1 ∙ i.1 ∙ Filled-sems k) (t.2 ∙ i.2) t.3 t.4

-- The start of the kernel sets up a valid state, whatever the memory holds, if no semaphore is in
-- use at first: task 0 is idle, task 1 runs, the other eight are free, and none is ready.
pub main-Booted :
    (guard_lo guard_hi : ℕ) (k : Kernel)
    → ((s : ℕ) → (k.list_sem s).is_init ≡ 0)
    → Booted (main guard_lo guard_hi k)
unfolding main
main-Booted guard_lo guard_hi k z = sched-Booted (init_mm guard_lo guard_hi k) (unfold init_mm in z)

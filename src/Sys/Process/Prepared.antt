-- ===== src/Sys/Process/Prepared.antt =====
-- `sys_fork` of zeos/sys.c up to the child's start: the structure that is copied, and what the copying
-- leaves alone.
use soa_subject.Prelude.{
  ℕ, ◌+◌, ◌-◌, ◌≤◌, ◌<◌, ◌≡◌, ◌≢◌, refl, ap, ◌∙◌, ◌⊎◌, inl, inr, true, List, [], ◌∷◌, arith, neg32,
  Option, none, is_nil, leb, Bool-cases, for_range_inv,
}
use soa_subject.Config.{num_pag_data, num_pag_kernel, num_pag_code, enomem}
use soa_subject.Links.{list_add_tail, list_del}
use soa_subject.Links.Queues
use soa_subject.Mm.{Memory}
use soa_subject.Mm.Free.{available}
use soa_subject.Kernel.{Kernel, returned, freequeue, readyqueue, get_pt}
use soa_subject.Sched.{is_running}
use soa_subject.Sched.Invariant.{IsValid, live}
use soa_subject.Sched.Spawn.{first_free-fresh, Kept, spawned-IsValid}
use soa_subject.Sys.Process.{
  sys_fork, fork_with, fork_memory, copy_pages, take_task, alloc_pages, copy_task,
}
use soa_subject.Sys.Process.Given.{alloc_pages-Given, alloc_pages_short}
use soa_subject.Kernel.{allocate_dir}

-- The copying of pages changes memory and page tables only.
pub record Quiet (k k' : Kernel) : Type 0 where
  pub links : k'.links ≡ k.links
  pub sems : k'.list_sem ≡ k.list_sem
  pub current : k'.current ≡ k.current
  pub idle : k'.idle_task ≡ k.idle_task
  pub tasks : k'.tasks ≡ k.tasks
  pub pids : k'.global_pid ≡ k.global_pid

copy_pages-Quiet : (parent_pt pt : ℕ) (k : Kernel) → Quiet k (copy_pages parent_pt pt k)
unfolding copy_pages
copy_pages-Quiet parent_pt pt k =
    for_range_inv (λ _ t. Quiet k t) _ num_pag_data (num_pag_kernel + num_pag_code) 284 k refl
      (λ i t _ _ q. record {
        links = q.links;
        sems = q.sems;
        current = q.current;
        idle = q.idle;
        tasks = q.tasks;
        pids = q.pids;
      })
      (record { links = refl; sems = refl; current = refl; idle = refl; tasks = refl; pids = refl })

-- The state with the child's structure copied and its directory set.
abbrev pub prepared : (x : ℕ) → Kernel → Kernel
prepared x k = allocate_dir (x - 1) (copy_task (x - 1) (record k { links = list_del x k.links }))

abbrev pub allocated : (x : ℕ) → Kernel → Option ℕ × Memory
allocated x k = let p = prepared x k in alloc_pages num_pag_data 0 (get_pt (x - 1) p) p.mm

module _ {k : Kernel} (v : IsValid k) where
  pub sys_fork-nil : v.queue freequeue ≡ [] → sys_fork k ≡ (k, returned (neg32 enomem))
  unfolding sys_fork
  sys_fork-nil e = rw (Queues.list_empty-queue v.base.queues freequeue refl ∙ ap is_nil e)

  pub sys_fork-cons :
      (x : ℕ) (xs : List ℕ)
      → v.queue freequeue ≡ x ∷ xs
      → sys_fork k ≡ fork_with (x - 1) (allocated x k) (prepared x k)
  unfolding sys_fork take_task
  sys_fork-cons x xs e = rw (
    Queues.list_empty-queue v.base.queues freequeue refl ∙ ap is_nil e,
    Queues.first v.base.queues freequeue x xs refl e,
  )

-- A run of `alloc_pages` finds its frames exactly if there are enough.
pub enough_lem :
    (n pt : ℕ) (m : Memory)
    → ((alloc_pages n 0 pt m).0 ≡ none) × (n ≤ available m)
      ⊎ ((alloc_pages n 0 pt m).0 ≢ none) × (available m < n)
enough_lem n pt m = elim (Bool-cases (leb n (available m))) [
  | inl e ↦
      inl (let le : n ≤ available m = ground (arith, e) in ((alloc_pages-Given n 0 pt m le).0, le))
  | inr e ↦
      inr (let lt : available m < n = ground (arith, e) in (alloc_pages_short n 0 pt m lt, lt))
]

pub fork_memory-Quiet : (c : ℕ) (k : Kernel) → Quiet k (fork_memory c k)
unfolding fork_memory
fork_memory-Quiet c k =
    let q = copy_pages-Quiet _ _ _ in
    record {
      links = q.links;
      sems = q.sems;
      current = q.current;
      idle = q.idle;
      tasks = q.tasks;
      pids = q.pids;
    }

module _ {k : Kernel} (v : IsValid k) (x : ℕ) (xs : List ℕ) (e : v.queue freequeue ≡ x ∷ xs) where
  -- What the copying of the structure leaves as it was.
  pub record Prepared (p : Kernel) : Type 0 where
    pub sems : p.list_sem ≡ k.list_sem
    pub current : p.current ≡ k.current
    pub idle : p.idle_task ≡ k.idle_task
    pub running : is_running (p.tasks p.current).state ≡ true
    pub nexts : (a : ℕ) → a ≢ x → p.links.next a ≡ (list_del x k.links).next a
    pub prevs : (a : ℕ) → a ≢ x → p.links.prev a ≡ (list_del x k.links).prev a

  pub copied-Prepared : Prepared (copy_task (x - 1) (record k { links = list_del x k.links }))
  unfolding copy_task
  copied-Prepared =
      let f = first_free-fresh v x xs e in
      record {
        sems = refl;
        current = refl;
        idle = refl;
        running = ground (arith, f, v.runs.marked);
        nexts = λ a ne. ground (arith, f);
        prevs = λ a ne. ground (arith, f);
      }

  pub prepared-Prepared : Prepared (prepared x k)
  unfolding allocate_dir
  prepared-Prepared =
      let c = copied-Prepared in
      let f = first_free-fresh v x xs e in
      record {
        sems = c.sems;
        current = c.current;
        idle = c.idle;
        running = ground (arith, c.running, c.current, f);
        nexts = c.nexts;
        prevs = c.prevs;
      }

  pub to_queue :
      {head : ℕ}
      → (head ≡ freequeue) ⊎ (head ≡ readyqueue)
      → (live k.list_sem head ≡ true) × (head < 13)
  to_queue h = (ground (arith, h), ground (arith, h))

  -- Queueing the prepared task leaves a valid state.
  abbrev pub queued-IsValid :
      (head : ℕ) {p : Kernel} (k' : Kernel)
      → Prepared p
      → (head ≡ freequeue) ⊎ (head ≡ readyqueue)
      → k'.links ≡ list_add_tail x head p.links
      → Kept v x xs e k'
      → IsValid k'
  queued-IsValid head {p} k' q h el r =
      spawned-IsValid v x xs e head p.links k' (to_queue h).0 (to_queue h).1 q.nexts q.prevs el r

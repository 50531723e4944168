-- ===== src/Sys/Thread/Create.antt =====
-- `sys_createthread` and `sys_terminatethread` of zeos/sys.c.
use soa_subject.Prelude.{
  ℕ, ◌+◌, ◌-◌, ◌*◌, ◌≡◌, ◌≢◌, refl, sym, ap, ◌∙◌, subst, inl, inr, ◌==◌, ◌||◌, ◌&&◌, ltb, leb, ◌/◌,
  ◌%◌, ◌^◌, List, [], ◌∷◌, ◌++◌, arith, neg32, add32, Option, none, some, is_nil, update,
  update_self, update_ne, Bool-cases,
}
use soa_subject.Config.{enomem, first_free_page, total_pages, page_size}
use soa_subject.Links.{list_add_tail, list_del}
use soa_subject.Links.Queues
use soa_subject.Mm.{get_frame}
use soa_subject.Kernel.{
  Kernel, Task, Outcome, returned, page_fault, freequeue, readyqueue, get_pt, task_link,
  list_head_to_task_struct,
}
use soa_subject.Sched.{is_running}
use soa_subject.Sched.Invariant.{IsValid}
use soa_subject.Sched.Spawn.{first_free-fresh}
use soa_subject.Sys.Pages.{alloc_k, dealloc_k}
use soa_subject.Sys.Process.{copy_task, take_task}
use soa_subject.Sys.Process.Prepared.{copied-Prepared, queued-IsValid}
use soa_subject.Sys.Thread.{
  store32, fill_stack, start_thread, thread_end, thread_with, sys_createthread,
}

-- The storing of words changes memory only.
pub record Quiet (k k' : Kernel) : Type 0 where
  pub links : k'.links ≡ k.links
  pub sems : k'.list_sem ≡ k.list_sem
  pub current : k'.current ≡ k.current
  pub idle : k'.idle_task ≡ k.idle_task
  pub tasks : k'.tasks ≡ k.tasks
  pub tids : k'.global_tid ≡ k.global_tid

Quiet-refl : (k : Kernel) → Quiet k k
Quiet-refl k = record {
  links = refl;
  sems = refl;
  current = refl;
  idle = refl;
  tasks = refl;
  tids = refl;
}

pub alloc_k-Quiet : (k : Kernel) → Quiet k (alloc_k k).1
unfolding alloc_k
alloc_k-Quiet k = record {
  links = refl;
  sems = refl;
  current = refl;
  idle = refl;
  tasks = refl;
  tids = refl;
}

pub dealloc_k-Quiet : (lpage : ℕ) (k : Kernel) → Quiet k (dealloc_k lpage k).1
unfolding dealloc_k
dealloc_k-Quiet lpage k = elim (Bool-cases (ltb lpage first_free_page || leb total_pages lpage)) [
  | inl e ↦ rw e (Quiet-refl k)
  | inr e ↦ elim (Bool-cases (get_frame (get_pt k.current k) lpage k.mm == 0)) [
    | inl f ↦ rw (e, f) (Quiet-refl k)
    | inr f ↦
        rw (e, f)
          (record {
            links = refl;
            sems = refl;
            current = refl;
            idle = refl;
            tasks = refl;
            tids = refl;
          })
  ]
]

-- Each outcome of a store that holds.
abbrev pub IfStored : (Kernel → Type 0) → Option Kernel → Type 0
IfStored P none = Unit
IfStored P (some k) = P k

store32-Quiet : (a x : ℕ) (k : Kernel) → IfStored (Quiet k) (store32 a x k)
unfolding store32
store32-Quiet a x k =
    let w = a % 2 ^ 32 / page_size in
    elim (Bool-cases
      (ltb w total_pages && ((k.mm.pagusr_table (get_pt k.current k) w).present == 1))) [
        | inl e ↦ rw e (record {
          links = refl;
          sems = refl;
          current = refl;
          idle = refl;
          tasks = refl;
          tids = refl;
        })
        | inr e ↦ rw e tt
      ]

Quiet-trans : {k k' k'' : Kernel} → Quiet k k' → Quiet k' k'' → Quiet k k''
Quiet-trans q r = record {
  links = r.links ∙ q.links;
  sems = r.sems ∙ q.sems;
  current = r.current ∙ q.current;
  idle = r.idle ∙ q.idle;
  tasks = r.tasks ∙ q.tasks;
  tids = r.tids ∙ q.tids;
}

IfStored-trans :
    {k k' : Kernel}
    → Quiet k k'
    → (o : Option Kernel) → IfStored (Quiet k') o
    → IfStored (Quiet k) o
IfStored-trans q none h = tt
IfStored-trans q (some k'') h = Quiet-trans q h

IfStored-bind :
    (k : Kernel) (g : Kernel → Option Kernel)
    → ((k1 : Kernel) → IfStored (Quiet k1) (g k1))
    → (o : Option Kernel) → IfStored (Quiet k) o
    → IfStored (Quiet k) (elim o [ none ↦ none | some k1 ↦ g k1 ])
IfStored-bind k g h none q = tt
IfStored-bind k g h (some k1) q = IfStored-trans q (g k1) (h k1)

pub fill_stack-Quiet : (s f p : ℕ) (k : Kernel) → IfStored (Quiet k) (fill_stack s f p k)
unfolding fill_stack
fill_stack-Quiet s f p k =
    IfStored-bind k
      (λ k1. elim (store32 (s + 4 * 1022) f k1) [
        | none ↦ none
        | some k2 ↦ store32 (s + 4 * 1023) p k2
      ])
      (λ k1.
        IfStored-bind k1 (λ k2. store32 (s + 4 * 1023) p k2)
          (λ k2. store32-Quiet (s + 4 * 1023) p k2) (store32 (s + 4 * 1022) f k1)
          (store32-Quiet (s + 4 * 1022) f k1))
      (store32 (s + 4 * 1021) 0 k) (store32-Quiet (s + 4 * 1021) 0 k)

start_thread_parts :
    (c w s : ℕ) (k : Kernel)
    → c ≢ k.current
    → let k' = start_thread c w s k in
      (k'.links ≡ list_add_tail (task_link c) readyqueue k.links)
      × (k'.list_sem ≡ k.list_sem)
      × (k'.current ≡ k.current)
      × (k'.idle_task ≡ k.idle_task)
      × (is_running (k'.tasks k'.current).state ≡ is_running (k.tasks k.current).state)
      × ((k'.tasks c).tid ≡ add32 k.global_tid 1)
unfolding start_thread
start_thread_parts c w s k ne = ground arith

-- The state with the thread's structure copied.
abbrev copied : (x : ℕ) → Kernel → Kernel
copied x k = copy_task (x - 1) (record k { links = list_del x k.links })

-- The state with the stack page allocated, and the address that `alloc_k` gave.
abbrev stacked : (x : ℕ) → Kernel → ℕ × Kernel
stacked x k = alloc_k (copied x k)

-- How `sys_createthread` ends.
pub data Created (function param : ℕ) {k : Kernel} (v : IsValid k) (r : Kernel × Outcome)
    : Type 0 where
  -- No free task: -ENOMEM, and nothing changes.
  no_task : v.queue freequeue ≡ [] → r ≡ (k, returned (neg32 enomem)) → Created function param v r
  -- A word of the stack cannot be stored: a page fault in the kernel.
  faulted :
      (x : ℕ) (xs : List ℕ)
      → v.queue freequeue ≡ x ∷ xs
      → fill_stack (stacked x k).0 function param (stacked x k).1 ≡ none
      → r.1 ≡ page_fault
      → Created function param v r
  -- The first free task is the thread and goes behind the ready ones with the next tid.
  thread :
      (x : ℕ) (xs : List ℕ) (valid : IsValid r.0)
      → v.queue freequeue ≡ x ∷ xs
      → valid.queue freequeue ≡ xs
      → valid.queue readyqueue ≡ v.queue readyqueue ++ (x ∷ [])
      → r.0.current ≡ k.current
      → (r.0.tasks (list_head_to_task_struct x)).tid ≡ add32 k.global_tid 1
      → r.1 ≡ returned 0
      → Created function param v r

module _ {k : Kernel} (v : IsValid k) (twrap function param : ℕ) where
  createthread-nil :
      v.queue freequeue ≡ []
      → sys_createthread twrap function param k ≡ (k, returned (neg32 enomem))
  unfolding sys_createthread
  createthread-nil e = rw (Queues.list_empty-queue v.base.queues freequeue refl ∙ ap is_nil e)

  take_task-first :
      (x : ℕ) (xs : List ℕ) → v.queue freequeue ≡ x ∷ xs → take_task k ≡ (x - 1, copied x k)
  unfolding take_task
  take_task-first x xs e = rw (Queues.first v.base.queues freequeue x xs refl e)

  createthread-cons :
      (x : ℕ) (xs : List ℕ)
      → v.queue freequeue ≡ x ∷ xs
      → sys_createthread twrap function param k
        ≡ thread_with (x - 1) twrap function param (copied x k)
  unfolding sys_createthread
  createthread-cons x xs e =
      rw (Queues.list_empty-queue v.base.queues freequeue refl ∙ ap is_nil e)
        (ap (λ (r : ℕ × Kernel). thread_with r.0 twrap function param r.1) (take_task-first x xs e))

  started :
      (x : ℕ) (xs : List ℕ) (e : v.queue freequeue ≡ x ∷ xs) (p : Kernel)
      → Quiet (copied x k) p
      → Created function param v (start_thread (x - 1) twrap (stacked x k).0 p, returned 0)
  started x xs e p y =
      let f = first_free-fresh v x xs e in
      let q = copied-Prepared v x xs e in
      let r =
        start_thread_parts (x - 1) twrap (stacked x k).0 p
          (λ z. f.2 (omega (arith, z, y.current, q.current, f.0))) in
      thread x xs
        (queued-IsValid v x xs e readyqueue (start_thread (x - 1) twrap (stacked x k).0 p) q
          (inr refl)
          (r.0
            ∙ ap (λ l. list_add_tail l readyqueue p.links) (omega (arith, f.0))
            ∙ ap (list_add_tail x readyqueue) y.links)
          (record {
            sems = r.1 ∙ y.sems ∙ q.sems;
            current = r.2 ∙ y.current ∙ q.current;
            idle = r.3 ∙ y.idle ∙ q.idle;
            running =
                r.4
                ∙ ap (λ (t : ℕ → Task). is_running (t p.current).state) y.tasks
                ∙ ap (λ i. is_running ((copied x k).tasks i).state) y.current
                ∙ q.running;
          }))
        e
        (update_ne (update v.queue freequeue xs) readyqueue
            (update v.queue freequeue xs readyqueue ++ (x ∷ [])) freequeue (omega arith)
          ∙ update_self v.queue freequeue xs)
        (update_self (update v.queue freequeue xs) readyqueue
            (update v.queue freequeue xs readyqueue ++ (x ∷ []))
          ∙ ap (λ q. q ++ (x ∷ [])) (update_ne v.queue freequeue xs readyqueue (omega arith)))
        (r.2 ∙ y.current ∙ q.current) (r.5 ∙ ap (λ n. add32 n 1) (y.tids ∙ copied_tid)) refl
    where
      copied_tid : (copied x k).global_tid ≡ k.global_tid
      copied_tid = unfold copy_task in refl

  ended-Created :
      (x : ℕ) (xs : List ℕ)
      → v.queue freequeue ≡ x ∷ xs
      → (o : Option Kernel) → fill_stack (stacked x k).0 function param (stacked x k).1 ≡ o
      → IfStored (Quiet (stacked x k).1) o
      → Created function param v (thread_end (x - 1) twrap (stacked x k).0 (stacked x k).1 o)
  unfolding thread_end
  ended-Created x xs e none f h = faulted x xs e f refl
  ended-Created x xs e (some p) f h = started x xs e p (Quiet-trans (alloc_k-Quiet (copied x k)) h)

  pub sys_createthread-Created : Created function param v (sys_createthread twrap function param k)
  sys_createthread-Created = go (v.queue freequeue) refl
    where
      with_lem :
          (x : ℕ) (xs : List ℕ)
          → v.queue freequeue ≡ x ∷ xs
          → Created function param v (thread_with (x - 1) twrap function param (copied x k))
      with_lem x xs e =
          unfold thread_with in
          ended-Created x xs e (fill_stack (stacked x k).0 function param (stacked x k).1) refl
            (fill_stack-Quiet (stacked x k).0 function param (stacked x k).1)

      go :
          (q : List ℕ)
          → v.queue freequeue ≡ q
          → Created function param v (sys_createthread twrap function param k)
      go [] e = no_task e (createthread-nil e)
      go (x ∷ xs) e =
          subst (Created function param v) (sym (createthread-cons x xs e)) (with_lem x xs e)

-- ===== src/Sys/Sem/Wake.antt =====
-- `sys_sem_signal` and `sys_sem_destroy` of zeos/sys.c.
use soa_subject.Prelude.{
  ℕ, ◌-◌, ◌≤◌, ◌<◌, ◌≡◌, ◌≢◌, refl, sym, ap, ap₂, ◌∙◌, subst, ◌⊎◌, inl, inr, Bool, true, false,
  ◌||◌, ◌==◌, update, List, [], ◌∷◌, ◌++◌, arith, length, ◌^◌, is_neg, neg32, add32, Bool-cases,
  update_elim, update_self, update_ne, update_same, ==_refl, All,
}
use soa_subject.Config.{max_sem, nr_tasks}
use soa_subject.Links.{null, list_add_tail, list_del, list_first}
use soa_subject.Links.Queues
use soa_subject.Links.Queues.{Queues}
use soa_subject.Kernel.{Kernel, Outcome, returned, readyqueue, sem_blocked, task_link, with_links}
use soa_subject.Sched.Invariant.{live, Base, Counters, IsValid}
use soa_subject.Sys.Sem.{valid_sem, sys_sem_signal, with_sem}
use soa_subject.Sys.Sem.Facts.{
  live_counter, live_sem, valid_sem_old, length-queue, Counters-set, Counters-ready, Base-sems,
}

-- The first task of a semaphore's list moved to the end of the ready queue.
abbrev pub moved : ℕ → Kernel → Kernel
moved lib k = with_links (list_add_tail lib readyqueue) (with_links (list_del lib) k)

module _ {k : Kernel} {owner : ℕ → ℕ} {queue : ℕ → List ℕ} (b : Base k owner queue) (n : ℕ)
    (l : live k.list_sem (sem_blocked n) ≡ true) (x : ℕ) (xs : List ℕ)
    (e : queue (sem_blocked n) ≡ x ∷ xs) where
  abbrev pub moved_owner : ℕ → ℕ
  moved_owner = update (update owner x null) x readyqueue

  abbrev pub moved_queue : ℕ → List ℕ
  moved_queue =
      update (update queue (sem_blocked n) xs) readyqueue
        (update queue (sem_blocked n) xs readyqueue ++ (x ∷ []))

  pub first_eq : list_first (sem_blocked n) k.links ≡ x
  first_eq = Queues.first b.queues (sem_blocked n) x xs l e

  held : (owner x ≡ sem_blocked n) × (live k.list_sem x ≡ false)
  held =
      (subst (All (λ y. (owner y ≡ sem_blocked n) × (live k.list_sem y ≡ false))) e
        (b.queues.owned (sem_blocked n) l)).0

  pub held_range : (1 ≤ x) × (x ≤ nr_tasks)
  held_range = b.range x (omega (arith, held))

  pub moved-Base : Base (moved x k) moved_owner moved_queue
  moved-Base = record {
    queues =
        Queues.add_tail (Queues.remove b.queues (sem_blocked n) x [] xs l e) x readyqueue refl
          held.1 (update_self owner x null);
    range =
        update_elim (λ y o. o ≢ null → (1 ≤ y) × (y ≤ nr_tasks)) (update owner x null) x readyqueue
          (λ _. held_range)
          (update_elim (λ y o. y ≢ x → o ≢ null → (1 ≤ y) × (y ≤ nr_tasks)) owner x null
            (λ ne. absurd (ne refl)) (λ y _ _ ne. b.range y ne));
    current_lt = b.current_lt;
    idle_lt = b.idle_lt;
    idle_home =
        update_elim (λ y o. y ≡ task_link k.idle_task → (o ≡ null) ⊎ (o ≡ readyqueue))
          (update owner x null) x readyqueue (λ _. inr refl)
          (λ y nx f.
            subst (λ o. (o ≡ null) ⊎ (o ≡ readyqueue))
              (sym (update_ne owner x null y (λ g. nx (sym g))))
              (subst (λ z. (owner z ≡ null) ⊎ (owner z ≡ readyqueue)) (sym f) b.idle_home))
          (task_link k.idle_task) refl;
  }

  pub moved_sem : moved_queue (sem_blocked n) ≡ xs
  moved_sem =
      update_ne (update queue (sem_blocked n) xs) readyqueue _ (sem_blocked n) (omega arith)
      ∙ update_self queue (sem_blocked n) xs

  pub moved_ready : moved_queue readyqueue ≡ queue readyqueue ++ (x ∷ [])
  moved_ready =
      ap (λ q. q ++ (x ∷ [])) (update_ne queue (sem_blocked n) xs readyqueue (omega arith))

  pub moved_else : (a : ℕ) → a ≢ readyqueue → a ≢ sem_blocked n → moved_queue a ≡ queue a
  moved_else a nr ns =
      update_ne (update queue (sem_blocked n) xs) readyqueue _ a (λ f. nr (sym f))
      ∙ update_ne queue (sem_blocked n) xs a (λ f. ns (sym f))

  -- A task that is in no queue is not the one that moves.
  pub moved_out : (y : ℕ) → owner y ≡ null → moved_owner y ≡ null
  moved_out y f =
      update_ne (update owner x null) x readyqueue y ne ∙ update_ne owner x null y ne ∙ f
    where
      ne : x ≢ y
      ne g = omega (arith, held, ap owner g)

abbrev pub raised : ℕ → Kernel → Kernel
raised n k = with_sem n (λ s. record s { counter = add32 s.counter 1 }) k

abbrev pub raised_counter : ℕ → Kernel → ℕ
raised_counter n k = add32 (k.list_sem n).counter 1

-- The condition under which `sys_sem_signal` wakes a task.
abbrev pub wakes : ℕ → Kernel → Bool
wakes n k = is_neg (raised_counter n k) || (raised_counter n k == 0)

-- The ways through `sys_sem_signal`.
module _ (n : ℕ) (k : Kernel) where
  signal-bad : (valid_sem n false k == 0) ≡ false → sys_sem_signal n k ≡ (k, returned (neg32 1))
  unfolding sys_sem_signal
  signal-bad e = rw e

  pub signal-pass :
      (valid_sem n false k == 0) ≡ true
      → wakes n k ≡ false
      → sys_sem_signal n k ≡ (raised n k, returned 0)
  unfolding sys_sem_signal
  signal-pass e f = rw (e, ==_refl n, f)

  pub signal-wake :
      (valid_sem n false k == 0) ≡ true
      → wakes n k ≡ true
      → sys_sem_signal n k ≡ (moved (list_first (sem_blocked n) k.links) (raised n k), returned 0)
  unfolding sys_sem_signal
  signal-wake e f = rw (e, ==_refl n, f)

-- How `sys_sem_signal` leaves the queues.
pub record Signalled {k : Kernel} (v : IsValid k) (n : ℕ) (r : Kernel × Outcome) : Type 0 where
  pub valid : IsValid r.0
  pub running : r.0.current ≡ k.current
  pub refused : ((valid_sem n false k == 0) ≡ true) ⊎ (r ≡ (k, returned (neg32 1)))
  pub passed :
      ((valid_sem n false k == 0) ≡ false) ⊎ ((wakes n k ≡ true) ⊎ (r ≡ (raised n k, returned 0)))
  pub woken :
      ((valid_sem n false k == 0) ≡ false)
      ⊎ ((wakes n k ≡ false)
          ⊎ ((r.1 ≡ returned 0)
              × (v.queue (sem_blocked n)
                  ≡ list_first (sem_blocked n) k.links ∷ valid.queue (sem_blocked n))
              × (valid.queue readyqueue
                  ≡ v.queue readyqueue ++ (list_first (sem_blocked n) k.links ∷ []))))

module _ {k : Kernel} (v : IsValid k) (n : ℕ) (lt : n < max_sem) (init : (k.list_sem n).is_init ≢ 0)
    (fits : (k.list_sem n).counter ≢ 2 ^ 31 - 1) where
  l : live k.list_sem (sem_blocked n) ≡ true
  l = live_sem k.list_sem n lt init

  raised-Base :
      {k' : Kernel} {owner : ℕ → ℕ} {queue : ℕ → List ℕ}
      → Base k' owner queue
      → Base (raised n k') owner queue
  raised-Base {k'} b =
      Base-sems (raised n k').list_sem (live_counter k'.list_sem n (raised_counter n k')) b

  raised-Counters : wakes n k ≡ false → Counters (raised n k).list_sem v.queue
  raised-Counters nw =
      subst (Counters (raised n k).list_sem) (update_same v.queue (sem_blocked n)) (
        Counters-set k.list_sem v.queue n (record (k.list_sem n) { counter = raised_counter n k })
          (v.queue (sem_blocked n)) v.counters
          (ground (arith, v.counters n lt init, length-queue v.base (sem_blocked n) l)))

  abbrev raised-IsValid : wakes n k ≡ false → IsValid (raised n k)
  raised-IsValid nw = record {
    owner = v.owner;
    queue = v.queue;
    base = raised-Base v.base;
    runs = record { unqueued = v.runs.unqueued; marked = v.runs.marked };
    counters = raised-Counters nw;
  }

  -- If a task is to be woken, one waits.
  waits : wakes n k ≡ true → (x : ℕ) × (xs : List ℕ) × (v.queue (sem_blocked n) ≡ x ∷ xs)
  waits wk = go (v.queue (sem_blocked n)) refl
    where
      go :
          (q : List ℕ)
          → v.queue (sem_blocked n) ≡ q
          → (x : ℕ) × (xs : List ℕ) × (v.queue (sem_blocked n) ≡ x ∷ xs)
      go [] e = absurd (ground (arith, v.counters n lt init, ap length e))
      go (x ∷ xs) e = (x, xs, e)

  module _ (x : ℕ) (xs : List ℕ) (e : v.queue (sem_blocked n) ≡ x ∷ xs) where
    moved-Counters :
        wakes n k ≡ true → Counters (raised n k).list_sem (moved_queue v.base n l x xs e)
    moved-Counters wk = Counters-ready (raised n k).list_sem (update v.queue (sem_blocked n) xs) _ (
        Counters-set k.list_sem v.queue n (record (k.list_sem n) { counter = raised_counter n k })
          xs v.counters
          (ground
            (arith, v.counters n lt init, ap length e, length-queue v.base (sem_blocked n) l)))

    abbrev moved-IsValid : wakes n k ≡ true → IsValid (moved x (raised n k))
    moved-IsValid wk = record {
      owner = moved_owner v.base n l x xs e;
      queue = moved_queue v.base n l x xs e;
      base = raised-Base (moved-Base v.base n l x xs e);
      runs = record {
        unqueued = moved_out v.base n l x xs e (task_link k.current) v.runs.unqueued;
        marked = v.runs.marked;
      };
      counters = moved-Counters wk;
    }

-- `sys_sem_signal` keeps the state valid if the counter is not the greatest `int`. A number that is
-- out of range or not in use gets -1 and nothing changes; if tasks wait, the first of them goes to
-- the end of the ready queue; otherwise only the counter changes.
pub sys_sem_signal-Signalled :
    {k : Kernel} (v : IsValid k) (n : ℕ)
    → (k.list_sem n).counter ≢ 2 ^ 31 - 1
    → Signalled v n (sys_sem_signal n k)
sys_sem_signal-Signalled {k} v n fits = elim (Bool-cases (valid_sem n false k == 0)) [
  | inr bad ↦
      subst (Signalled v n) (sym (signal-bad n k bad)) (record {
        valid = v;
        running = refl;
        refused = inr refl;
        passed = inl bad;
        woken = inl bad;
      })
  | inl ok ↦ elim (Bool-cases (wakes n k)) [
    | inr nw ↦
        let (lt, init) = valid_sem_old n k ok in
        subst (Signalled v n) (sym (signal-pass n k ok nw)) (record {
          valid = raised-IsValid v n lt init fits nw;
          running = refl;
          refused = inl ok;
          passed = inr (inr refl);
          woken = inr (inl nw);
        })
    | inl wk ↦
        let (lt, init) = valid_sem_old n k ok in
        let (x, xs, e) = waits v n lt init fits wk in
        let first = first_eq v.base n (live_sem k.list_sem n lt init) x xs e in
        subst (Signalled v n)
          (sym (signal-wake n k ok wk ∙ ap (λ y. (moved y (raised n k), returned 0)) first))
          (record {
            valid = moved-IsValid v n lt init fits x xs e wk;
            running = refl;
            refused = inl ok;
            passed = inr (inl wk);
            woken = inr (
                inr (
                  refl,
                  e
                      ∙ ap₂ ◌∷◌ (sym first)
                          (sym (moved_sem v.base n (live_sem k.list_sem n lt init) x xs e)),
                  moved_ready v.base n (live_sem k.list_sem n lt init) x xs e
                      ∙ ap (λ y. v.queue readyqueue ++ (y ∷ [])) (sym first),
                ));
          })
  ]
]

-- ===== src/Sys/Sem/Destroy.antt =====
-- `sys_sem_destroy` of zeos/sys.c.
use soa_subject.Prelude.{
  ℕ, zero, suc, ◌+◌, ◌<◌, ◌≡◌, ◌≢◌, refl, sym, ap, ◌∙◌, subst, ◌⊎◌, inl, inr, true, false, ◌==◌,
  List, [], ◌∷◌, ◌++◌, arith, length, append-nil, append_assoc, is_nil, neg32, Bool-cases,
  update_elim, update_self, All,
}
use soa_subject.Config.{max_sem, nr_tasks}
use soa_subject.Links.{null, list_add_tail, list_del, list_first, list_empty}
use soa_subject.Links.Queues
use soa_subject.Links.Heads
use soa_subject.Links.Queues.{Queues}
use soa_subject.Kernel.{
  Kernel, Outcome, returned, readyqueue, sem_blocked, task_link, with_links, with_task,
  list_head_to_task_struct,
}
use soa_subject.Sched.{is_running}
use soa_subject.Sched.Invariant.{live, Base, Counted, Counters, IsValid, Base-same}
use soa_subject.Sys.Sem.{valid_sem, sys_sem_destroy, wake_all, with_sem}
use soa_subject.Sys.Sem.Facts.{live_destroy, live_sem, valid_sem_old, length-queue}
use soa_subject.Sys.Sem.Wake.{
  moved-Base, moved_owner, moved_queue, moved_sem, moved_ready, moved_else, moved_out, first_eq,
}

abbrev destroyed_at : Kernel → ℕ → ℕ
destroyed_at k x = (k.tasks (list_head_to_task_struct x)).destroyed

-- One round of the loop.
abbrev woken : ℕ → Kernel → Kernel
woken lib k = with_links (list_add_tail lib readyqueue) (
    with_task (list_head_to_task_struct lib) (λ t. record t { destroyed = 1 })
      (with_links (list_del lib) k))

module _ (x : ℕ) (k : Kernel) where
  woken_mark :
      is_running (k.tasks k.current).state ≡ true
      → is_running ((woken x k).tasks k.current).state ≡ true
  woken_mark m = ground arith

  woken_flag : destroyed_at (woken x k) x ≡ 1
  woken_flag = ground arith

  woken_kept : (y : ℕ) → destroyed_at k y ≡ 1 → destroyed_at (woken x k) y ≡ 1
  woken_kept y h = ground arith

wake_all-more :
    (fuel n x : ℕ) (k : Kernel)
    → list_empty (sem_blocked n) k.links ≡ false
    → list_first (sem_blocked n) k.links ≡ x
    → wake_all (suc fuel) n k ≡ wake_all fuel n (woken x k)
unfolding wake_all
wake_all-more fuel n x k e f = rw (e, f)

wake_all-done :
    (fuel n : ℕ) (k : Kernel)
    → list_empty (sem_blocked n) k.links ≡ true
    → wake_all (suc fuel) n k ≡ k
unfolding wake_all
wake_all-done fuel n k e = rw e

-- What the loop has done when it ends: the tasks `q` that waited are ready, in their order, behind
-- those that were, and are marked; nobody waits.
record Emptied (k : Kernel) (owner : ℕ → ℕ) (queue : ℕ → List ℕ) (n : ℕ) (q : List ℕ) (k' : Kernel)
    : Type 0 where
  owner' : ℕ → ℕ
  queue' : ℕ → List ℕ
  base : Base k' owner' queue'
  same_sems : k'.list_sem ≡ k.list_sem
  same_current : k'.current ≡ k.current
  same_mark :
      is_running (k.tasks k.current).state ≡ true → is_running (k'.tasks k'.current).state ≡ true
  out : (y : ℕ) → owner y ≡ null → owner' y ≡ null
  none_waits : queue' (sem_blocked n) ≡ []
  all_ready : queue' readyqueue ≡ queue readyqueue ++ q
  elsewhere : (a : ℕ) → a ≢ readyqueue → a ≢ sem_blocked n → queue' a ≡ queue a
  flagged : All (λ x. destroyed_at k' x ≡ 1) q
  kept : (y : ℕ) → destroyed_at k y ≡ 1 → destroyed_at k' y ≡ 1

wake_all-Emptied :
    (fuel : ℕ) (n : ℕ) {k : Kernel} {owner : ℕ → ℕ} {queue : ℕ → List ℕ} (q : List ℕ)
    → Base k owner queue
    → live k.list_sem (sem_blocked n) ≡ true
    → queue (sem_blocked n) ≡ q
    → length q < fuel
    → Emptied k owner queue n q (wake_all fuel n k)
wake_all-Emptied zero n q b l e enough = absurd (omega arith)
wake_all-Emptied (suc fuel) n {k} {owner} {queue} [] b l e enough =
    subst (Emptied k owner queue n [])
      (sym
        (wake_all-done fuel n k (Queues.list_empty-queue b.queues (sem_blocked n) l ∙ ap is_nil e)))
      (record {
        owner' = owner;
        queue' = queue;
        base = b;
        same_sems = refl;
        same_current = refl;
        same_mark = λ m. m;
        out = λ y h. h;
        none_waits = e;
        all_ready = sym (append-nil (queue readyqueue));
        elsewhere = λ a _ _. refl;
        flagged = tt;
        kept = λ y h. h;
      })
wake_all-Emptied (suc fuel) n {k} {owner} {queue} (x ∷ q) b l e enough =
    let b1 : Base (woken x k) (moved_owner b n l x q e) (moved_queue b n l x q e) =
      Base-same
        (record { links = refl; sems = refl; current = refl; idle = refl; marked = woken_mark x k })
        (moved-Base b n l x q e) in
    let r = wake_all-Emptied fuel n q b1 l (moved_sem b n l x q e) (omega arith) in
    subst (Emptied k owner queue n (x ∷ q))
      (sym (
        wake_all-more fuel n x k (Queues.list_empty-queue b.queues (sem_blocked n) l ∙ ap is_nil e)
          (first_eq b n l x q e)))
      (record {
        owner' = r.owner';
        queue' = r.queue';
        base = r.base;
        same_sems = r.same_sems;
        same_current = r.same_current;
        same_mark = λ m. r.same_mark (woken_mark x k m);
        out = λ y h. r.out y (moved_out b n l x q e y h);
        none_waits = r.none_waits;
        all_ready =
            r.all_ready
            ∙ ap (λ z. z ++ q) (moved_ready b n l x q e)
            ∙ append_assoc (queue readyqueue) (x ∷ []) q;
        elsewhere = λ a nr ns. r.elsewhere a nr ns ∙ moved_else b n l x q e a nr ns;
        flagged = (r.kept x (woken_flag x k), r.flagged);
        kept = λ y h. r.kept y (woken_kept x k y h);
      })

-- The ways through `sys_sem_destroy`.
module _ (n : ℕ) (k : Kernel) where
  abbrev ended : Kernel
  ended = with_sem n (λ s. record s { is_init = 0 }) (wake_all (nr_tasks + 1) n k)

  destroy-bad : (valid_sem n false k == 0) ≡ false → sys_sem_destroy n k ≡ (k, returned (neg32 1))
  destroy-bad e = unfold sys_sem_destroy in rw e

  destroy-ok : (valid_sem n false k == 0) ≡ true → sys_sem_destroy n k ≡ (ended, returned 0)
  destroy-ok e = unfold sys_sem_destroy in rw e

pub record Destroyed {k : Kernel} (v : IsValid k) (n : ℕ) (r : Kernel × Outcome) : Type 0 where
  pub valid : IsValid r.0
  pub running : r.0.current ≡ k.current
  pub refused : ((valid_sem n false k == 0) ≡ true) ⊎ (r ≡ (k, returned (neg32 1)))
  pub ended :
      ((valid_sem n false k == 0) ≡ false)
      ⊎ ((r.1 ≡ returned 0)
          × ((r.0.list_sem n).is_init ≡ 0)
          × (valid.queue readyqueue ≡ v.queue readyqueue ++ v.queue (sem_blocked n))
          × All
              (λ x. (r.0.tasks (list_head_to_task_struct x)).destroyed ≡ 1)
              (v.queue (sem_blocked n)))

module _ {k : Kernel} (v : IsValid k) (n : ℕ) (lt : n < max_sem)
    (init : (k.list_sem n).is_init ≢ 0) where
  emptied : Emptied k v.owner v.queue n (v.queue (sem_blocked n)) (wake_all (nr_tasks + 1) n k)
  emptied =
      wake_all-Emptied (nr_tasks + 1) n (v.queue (sem_blocked n)) v.base
        (live_sem k.list_sem n lt init) refl
        (omega (arith, length-queue v.base (sem_blocked n) (live_sem k.list_sem n lt init)))

  still_live : live (wake_all (nr_tasks + 1) n k).list_sem (sem_blocked n) ≡ true
  still_live = ap (λ s. live s (sem_blocked n)) emptied.same_sems ∙ live_sem k.list_sem n lt init

  ended-Counters : Counters (ended n k).list_sem emptied.queue'
  ended-Counters =
      update_elim
        (λ s m.
          s < max_sem → m.is_init ≢ 0 → Counted m.counter (length (emptied.queue' (sem_blocked s))))
        k'.list_sem n (record (k'.list_sem n) { is_init = 0 }) (λ _ i. absurd (i refl))
        (λ s ne ls i.
          subst (λ q. Counted (k'.list_sem s).counter (length q))
            (sym (emptied.elsewhere (sem_blocked s) (omega arith) (λ e. ne (omega arith))))
            (subst (λ f. Counters f v.queue) (sym emptied.same_sems) v.counters s ls i))
    where
      k' : Kernel
      k' = wake_all (nr_tasks + 1) n k

  abbrev ended-IsValid : IsValid (ended n k)
  ended-IsValid = record {
    owner = emptied.owner';
    queue = emptied.queue';
    base = record {
      queues =
          subst (λ l. Queues (ended n k).links l emptied.owner' emptied.queue')
            (live_destroy (wake_all (nr_tasks + 1) n k).list_sem n _ lt)
            (Heads.drop emptied.base.queues (sem_blocked n) emptied.none_waits still_live);
      range = emptied.base.range;
      current_lt = emptied.base.current_lt;
      idle_lt = emptied.base.idle_lt;
      idle_home = emptied.base.idle_home;
    };
    runs = record {
      unqueued =
          ap (λ i. emptied.owner' (task_link i)) emptied.same_current
          ∙ emptied.out (task_link k.current) v.runs.unqueued;
      marked = emptied.same_mark v.runs.marked;
    };
    counters = ended-Counters;
  }

-- `sys_sem_destroy` keeps the state valid. A number that is out of range or not in use gets -1 and
-- nothing changes. Otherwise every task that waited is marked as destroyed and goes, in its order,
-- behind the ready ones, and the semaphore is not in use any more.
pub sys_sem_destroy-Destroyed :
    {k : Kernel} (v : IsValid k) (n : ℕ) → Destroyed v n (sys_sem_destroy n k)
sys_sem_destroy-Destroyed {k} v n = elim (Bool-cases (valid_sem n false k == 0)) [
  | inr bad ↦
      subst (Destroyed v n) (sym (destroy-bad n k bad))
        (record { valid = v; running = refl; refused = inr refl; ended = inl bad })
  | inl ok ↦
      let (lt, init) = valid_sem_old n k ok in
      let r = emptied v n lt init in
      subst (Destroyed v n) (sym (destroy-ok n k ok)) (record {
        valid = ended-IsValid v n lt init;
        running = r.same_current;
        refused = inl ok;
        ended = inr (
          refl,
          ap (λ s. s.is_init) (update_self (wake_all (nr_tasks + 1) n k).list_sem n _),
          r.all_ready,
          r.flagged,
        );
      })
]

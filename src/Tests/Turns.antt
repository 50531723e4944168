-- ===== src/Tests/Turns.antt =====
-- The turns of the scheduler: task 1 runs and task 2 is ready.
use soa_subject.Prelude.{
  ℕ, ◌+◌, ◌*◌, ◌≤◌, ◌≡◌, ◌≢◌, refl, sym, subst, inl, inr, true, false, ◌==◌, if◌then◌else◌, List,
  [], ◌∷◌, arith, Bool-cases, ==→≡, Occurs, All,
}
use soa_subject.Links.{null}
use soa_subject.Links.Chain.{IsCircular}
use soa_subject.Links.Queues.{Queues}
use soa_subject.Kernel.{Kernel, task_link}
use soa_subject.Sched.Invariant.{IsValid, live}
use soa_subject.Sched.Fair.{ticks, ticks-runs}
use soa_subject.Tests.{blank}

abbrev two_tasks : Kernel
two_tasks = record blank {
  tasks = λ i. record (blank.tasks i) { total_quantum = 10 };
  links = record {
    next = λ a. if a == 12 then 3 else if a == 3 then 12 else a;
    prev = λ a. if a == 12 then 3 else if a == 3 then 12 else a;
  };
  current = 1;
  remaining_quantum = 10;
}

abbrev owner : ℕ → ℕ
owner x = if x == 3 then 12 else null

abbrev queue : ℕ → List ℕ
queue a = if a == 12 then 3 ∷ [] else []

ready_IsCircular : IsCircular two_tasks.links 12 (3 ∷ [])
ready_IsCircular = record {
  linked = ground arith;
  apart = ((λ e. omega (arith, e)), tt);
  distinct = (tt, tt);
}

free_IsCircular : IsCircular two_tasks.links 11 []
free_IsCircular = record { linked = ground arith; apart = tt; distinct = tt }

two_lists : (P : ℕ → Type 0) → P 11 → P 12 → (a : ℕ) → live two_tasks.list_sem a ≡ true → P a
two_lists P p q a l = elim (Bool-cases (a == 12)) [
  | inl e ↦ subst P (sym (==→≡ _ _ e)) q
  | inr e ↦ subst P (let f : 11 ≡ a = ground (arith, l, e) in f) p
]

two_Queues : Queues two_tasks.links (live two_tasks.list_sem) owner queue
two_Queues = record {
  null_dead = refl;
  head_free = two_lists (λ a. owner a ≡ null) refl refl;
  circular =
      two_lists (λ a. IsCircular two_tasks.links a (queue a)) free_IsCircular ready_IsCircular;
  owned =
      two_lists (λ a. All (λ x. (owner x ≡ a) × (live two_tasks.list_sem x ≡ false)) (queue a)) tt
        ((refl, refl), tt);
  placed =
      λ x ne. elim (Bool-cases (x == 3)) [ inl e ↦ rw e refl | inr e ↦ absurd (ne (rw e refl)) ];
  listed =
      two_lists (λ a. (x : ℕ) → owner x ≡ a → Occurs x (queue a)) (λ x e. absurd (ground arith))
        (λ x e. inl (ground arith));
}

two_range : (x : ℕ) → owner x ≢ null → (1 ≤ x) × (x ≤ 10)
two_range x ne = elim (Bool-cases (x == 3)) [
  | inl e ↦ omega (arith, ==→≡ _ _ e)
  | inr e ↦ absurd (ne (rw e refl))
]

abbrev two_valid : IsValid two_tasks
two_valid = record {
  owner = owner;
  queue = queue;
  base = record {
    queues = two_Queues;
    range = two_range;
    current_lt = omega arith;
    idle_lt = omega arith;
    idle_home = inl refl;
  };
  runs = record { unqueued = refl; marked = refl };
  counters = λ s lt init. absurd (init refl);
}

ticks-runs_example : (m : ℕ) × (m ≤ 10 + 0 * 10) × (task_link (ticks m two_tasks).current ≡ 3)
ticks-runs_example =
    ticks-runs 10 two_valid [] [] 3 (omega arith) refl (omega arith) (omega arith) (omega arith)

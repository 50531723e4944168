-- ===== src/Tests/Forks.antt =====
-- A fork while task 1 runs and task 2 is free: in both tables page i has frame i, and the frames below
-- 300 are in use.
use soa_subject.Prelude.{
  ℕ, ◌-◌, ◌^◌, ◌≤◌, ◌<◌, ◌≡◌, ◌≢◌, refl, sym, subst, ◌⊎◌, inl, inr, true, false, ltb, ◌==◌,
  if◌then◌else◌, List, [], ◌∷◌, arith, Bool-cases, ==→≡, neg32, add32, Occurs, All,
}
use soa_subject.Config.{num_pag_data, eagain}
use soa_subject.Links.{null}
use soa_subject.Links.Chain.{IsCircular}
use soa_subject.Links.Queues.{Queues}
use soa_subject.Mm.{get_frame, to_base}
use soa_subject.Mm.Free.{available}
use soa_subject.Kernel.{Kernel, get_pt, returned}
use soa_subject.Sched.Invariant.{IsValid, live}
use soa_subject.Sys.Process.{sys_fork}
use soa_subject.Sys.Process.Copy.{IsData}
use soa_subject.Sys.Process.Filled.{Isolated}
use soa_subject.Sys.Process.Isolated.{sys_fork-Isolated}
use soa_subject.Tests.{blank}

abbrev one_free : Kernel
one_free = record blank {
  tasks = λ i. record (blank.tasks i) { dir = i };
  links = record {
    next = λ a. if a == 11 then 3 else if a == 3 then 11 else a;
    prev = λ a. if a == 11 then 3 else if a == 3 then 11 else a;
  };
  current = 1;
  mm = record {
    phys_mem = λ f. if ltb f 300 then 1 else 0;
    dir_pages = λ t. record { pbase_addr = t; user = 1; rw = 1; present = 1 };
    pagusr_table = λ t i. record { pbase_addr = to_base i; user = 1; rw = 1; present = 1 };
  };
}

abbrev owner : ℕ → ℕ
owner x = if x == 3 then 11 else null

abbrev queue : ℕ → List ℕ
queue a = if a == 11 then 3 ∷ [] else []

free_IsCircular : IsCircular one_free.links 11 (3 ∷ [])
free_IsCircular = record {
  linked = ground arith;
  apart = ((λ e. omega (arith, e)), tt);
  distinct = (tt, tt);
}

ready_IsCircular : IsCircular one_free.links 12 []
ready_IsCircular = record { linked = ground arith; apart = tt; distinct = tt }

own_lists : (P : ℕ → Type 0) → P 12 → P 11 → (a : ℕ) → live one_free.list_sem a ≡ true → P a
own_lists P p q a l = elim (Bool-cases (a == 11)) [
  | inl e ↦ subst P (sym (==→≡ _ _ e)) q
  | inr e ↦ subst P (let f : 12 ≡ a = ground (arith, l, e) in f) p
]

own_Queues : Queues one_free.links (live one_free.list_sem) owner queue
own_Queues = record {
  null_dead = refl;
  head_free = own_lists (λ a. owner a ≡ null) refl refl;
  circular =
      own_lists (λ a. IsCircular one_free.links a (queue a)) ready_IsCircular free_IsCircular;
  owned =
      own_lists (λ a. All (λ x. (owner x ≡ a) × (live one_free.list_sem x ≡ false)) (queue a)) tt
        ((refl, refl), tt);
  placed =
      λ x ne. elim (Bool-cases (x == 3)) [ inl e ↦ rw e refl | inr e ↦ absurd (ne (rw e refl)) ];
  listed =
      own_lists (λ a. (x : ℕ) → owner x ≡ a → Occurs x (queue a)) (λ x e. absurd (ground arith))
        (λ x e. inl (ground arith));
}

own_range : (x : ℕ) → owner x ≢ null → (1 ≤ x) × (x ≤ 10)
own_range x ne = elim (Bool-cases (x == 3)) [
  | inl e ↦ omega (arith, ==→≡ _ _ e)
  | inr e ↦ absurd (ne (rw e refl))
]

abbrev own_valid : IsValid one_free
own_valid = record {
  owner = owner;
  queue = queue;
  base = record {
    queues = own_Queues;
    range = own_range;
    current_lt = omega arith;
    idle_lt = omega arith;
    idle_home = inl refl;
  };
  runs = record { unqueued = refl; marked = refl };
  counters = λ s lt init. absurd (init refl);
}

own_apart : (one_free.mm.dir_pages (3 - 1)).pbase_addr ≢ get_pt one_free.current one_free
unfolding get_pt
own_apart e = omega (arith, e)

own_narrow : (t i : ℕ) → get_frame t i one_free.mm < 2 ^ 20
unfolding get_frame
own_narrow t i = omega arith

own_in_use :
    (i : ℕ)
    → IsData i
    → one_free.mm.phys_mem (get_frame (get_pt one_free.current one_free) i one_free.mm) ≢ 0
unfolding get_frame
own_in_use i h = ground (arith, h)

sys_fork-Isolated_example :
    let (k', out) = sys_fork one_free in
    (num_pag_data ≤ available one_free.mm)
      × (out ≡ returned (add32 one_free.global_pid 1))
      × Isolated
          (one_free.mm.dir_pages (3 - 1)).pbase_addr
          (get_pt one_free.current one_free)
          one_free
          k'
    ⊎ (available one_free.mm < num_pag_data) × (out ≡ returned (neg32 eagain))
sys_fork-Isolated_example = sys_fork-Isolated own_valid 3 [] refl own_apart own_narrow own_in_use

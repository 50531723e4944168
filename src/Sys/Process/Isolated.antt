-- ===== src/Sys/Process/Isolated.antt =====
-- `sys_fork` of zeos/sys.c: the memory of the child is its own.
use soa_subject.Prelude.{
  ℕ, ◌-◌, ◌^◌, ◌≤◌, ◌<◌, ◌≡◌, ◌≢◌, refl, sym, ap, ◌∙◌, subst, inl, inr, ◌⊎◌, leb, neg32, add32,
  Option, none, some, List, ◌∷◌, arith, Bool-cases,
}
use soa_subject.Config.{num_pag_data, free_frame_mark, eagain}
use soa_subject.Mm.{Memory, get_frame}
use soa_subject.Mm.Free.{available}
use soa_subject.Kernel.{Kernel, Outcome, returned, freequeue, get_pt, allocate_dir, get_ticks}
use soa_subject.Sched.{start_stats}
use soa_subject.Sched.Invariant.{IsValid}
use soa_subject.Sched.Spawn.{first_free-fresh}
use soa_subject.Sys.Process.{sys_fork, fork_with, start_child, alloc_pages, copy_task}
use soa_subject.Sys.Process.Copy.{IsData}
use soa_subject.Sys.Process.Prepared.{prepared, allocated, sys_fork-cons, fork_memory-Quiet}
use soa_subject.Sys.Process.Given.{Given, alloc_pages-Given, alloc_pages_short}
use soa_subject.Sys.Process.Filled.{Isolated, given, fork_memory-Isolated}

module _ {k : Kernel} (v : IsValid k) (x : ℕ) (xs : List ℕ) (e : v.queue freequeue ≡ x ∷ xs) where
  -- The table of the slot that the child gets.
  abbrev pub child_table : ℕ
  child_table = (k.mm.dir_pages (x - 1)).pbase_addr

  prepared-memory :
      let p = prepared x k in
      (p.mm ≡ k.mm)
      × (p.ram ≡ k.ram)
      × (get_pt (x - 1) p ≡ child_table)
      × (get_pt p.current p ≡ get_pt k.current k)
      × (p.global_pid ≡ k.global_pid)
  unfolding allocate_dir copy_task get_pt
  prepared-memory =
      let f = first_free-fresh v x xs e in (refl, refl, ground arith, ground (arith, f), refl)

  module _ (apart : child_table ≢ get_pt k.current k)
      (narrow : (t i : ℕ) → get_frame t i k.mm < 2 ^ 20)
      (in_use : (i : ℕ)
        → IsData i
        → k.mm.phys_mem (get_frame (get_pt k.current k) i k.mm) ≢ free_frame_mark) where
    -- `allocated` as the lemmas on `alloc_pages` speak of it.
    allocated_lem : allocated x k ≡ alloc_pages num_pag_data 0 child_table k.mm
    allocated_lem =
        let q = prepared-memory in
        ap (λ t. alloc_pages num_pag_data 0 t (prepared x k).mm) q.2
        ∙ ap (alloc_pages num_pag_data 0 child_table) q.0

    filled :
        (m : Memory)
        → Given child_table 264 284 k.mm m
        → Isolated child_table (get_pt k.current k) k (fork_with (x - 1) (none, m) (prepared x k)).0
    unfolding fork_with allocate_dir copy_task start_child start_stats get_ticks given
    filled m g =
        let q = prepared-memory in
        let h =
          fork_memory-Isolated (x - 1) (prepared x k) m child_table (get_pt k.current k) apart
            narrow in_use g (sym q.2) (sym q.3) in
        record {
          shared = h.shared;
          own = h.own;
          was_free = h.was_free;
          taken = h.taken;
          copied = h.copied;
          parent = h.parent;
          others = h.others;
          kept = h.kept;
        }

    out_child :
        (m : Memory)
        → (fork_with (x - 1) (none, m) (prepared x k)).1 ≡ returned (add32 k.global_pid 1)
    unfolding fork_with start_child start_stats get_ticks
    out_child m =
        ap (λ n. returned (add32 n 1))
          ((fork_memory-Quiet (x - 1) (record (prepared x k) { mm = m })).pids ∙ prepared-memory.4)

    ended-Isolated :
        (a : Option ℕ × Memory)
        → a ≡ alloc_pages num_pag_data 0 child_table k.mm
        → let (k', out) = fork_with (x - 1) a (prepared x k) in
          (num_pag_data ≤ available k.mm)
            × (out ≡ returned (add32 k.global_pid 1))
            × Isolated child_table (get_pt k.current k) k k'
          ⊎ (available k.mm < num_pag_data) × (out ≡ returned (neg32 eagain))
    ended-Isolated (none, m) e = elim (Bool-cases (leb num_pag_data (available k.mm))) [
      | inr few ↦ absurd (
          alloc_pages_short num_pag_data 0 child_table k.mm (ground (arith, few))
            (sym (ap (λ (r : Option ℕ × Memory). r.0) e)))
      | inl enough ↦
          let le : num_pag_data ≤ available k.mm = ground (arith, enough) in
          inl (
            le,
            out_child m,
            filled m (
                subst (Given child_table 264 284 k.mm) (sym (ap (λ (r : Option ℕ × Memory). r.1) e))
                  (alloc_pages-Given num_pag_data 0 child_table k.mm le).1),
          )
    ]
    ended-Isolated (some pag, m) e = elim (Bool-cases (leb num_pag_data (available k.mm))) [
      | inl enough ↦
          let le : num_pag_data ≤ available k.mm = ground (arith, enough) in
          let no =
            ap (λ (r : Option ℕ × Memory). r.0) e
            ∙ (alloc_pages-Given num_pag_data 0 child_table k.mm le).0 in
          absurd (let f : some pag ≡ none = no in ground (arith, f))
      | inr few ↦ inr (ground (arith, few), unfold fork_with in refl)
    ]

-- With a free task, and if its table is another than the caller's, entries have 20 bits and the
-- frames of the caller's data are in use: if at least 20 frames that `alloc_frame` can find are free,
-- `sys_fork` answers the new pid and the child has the caller's system and code pages and a copy of
-- its data in frames that were free, the caller keeps its pages but for the 20 behind its data, and
-- no other table and no frame in use changes; with fewer it answers -EAGAIN.
pub sys_fork-Isolated :
    {k : Kernel} (v : IsValid k) (x : ℕ) (xs : List ℕ)
    → v.queue freequeue ≡ x ∷ xs
    → (k.mm.dir_pages (x - 1)).pbase_addr ≢ get_pt k.current k
    → ((t i : ℕ) → get_frame t i k.mm < 2 ^ 20)
    → ((i : ℕ) → IsData i → k.mm.phys_mem (get_frame (get_pt k.current k) i k.mm) ≢ free_frame_mark)
    → let (k', out) = sys_fork k in
      (num_pag_data ≤ available k.mm)
        × (out ≡ returned (add32 k.global_pid 1))
        × Isolated (k.mm.dir_pages (x - 1)).pbase_addr (get_pt k.current k) k k'
      ⊎ (available k.mm < num_pag_data) × (out ≡ returned (neg32 eagain))
sys_fork-Isolated {k} v x xs e apart narrow in_use =
    subst
      (λ (r : Kernel × Outcome).
        (num_pag_data ≤ available k.mm)
          × (r.1 ≡ returned (add32 k.global_pid 1))
          × Isolated (k.mm.dir_pages (x - 1)).pbase_addr (get_pt k.current k) k r.0
        ⊎ (available k.mm < num_pag_data) × (r.1 ≡ returned (neg32 eagain)))
      (sym (sys_fork-cons v x xs e))
      (ended-Isolated v x xs e apart narrow in_use (allocated x k)
        (allocated_lem v x xs e apart narrow in_use))

-- ===== src/Sys/Process/Filled.antt =====
-- `sys_fork` of zeos/sys.c: the child's memory, filled in the frames that it was given.
use soa_subject.Prelude.{
  ℕ, ◌+◌, ◌-◌, ◌^◌, ◌≤◌, ◌<◌, ◌≡◌, ◌≢◌, sym, ap, ◌∙◌, subst, inl, inr, ◌⊎◌, leb, ltb, ◌&&◌, ◌==◌,
  if◌then◌else◌, arith, Bool-cases,
}
use soa_subject.Config.{total_pages, pag_log_init_data, free_frame_mark, used_frame_mark}
use soa_subject.Mm.{Memory, Pte, get_frame}
use soa_subject.Kernel.{Kernel, get_pt}
use soa_subject.Sys.Process.{fork_memory}
use soa_subject.Sys.Process.Copy.{IsData}
use soa_subject.Sys.Process.Given.{Given}
use soa_subject.Sys.Process.Inherit.{Inherited, fork_memory-Inherited}
use soa_subject.Sys.Process.Aside.{Aside, fork_memory-Aside}

-- The memory behind a fork: the child's table `pt` has the parent's system and code pages, and a
-- frame of its own for each data page, which was free and has a copy of the parent's. The parent's
-- table `pp` is as it was but for the 20 pages behind its data. No other table has changed, and no
-- frame that was in use.
pub record Isolated (pt pp : ℕ) (k k' : Kernel) : Type 0 where
  pub shared : (i : ℕ) → i < pag_log_init_data → get_frame pt i k'.mm ≡ get_frame pp i k.mm
  pub own : (i j : ℕ) → IsData i → IsData j → i < j → get_frame pt i k'.mm ≢ get_frame pt j k'.mm
  pub was_free : (i : ℕ) → IsData i → k.mm.phys_mem (get_frame pt i k'.mm) ≡ free_frame_mark
  pub taken : (i : ℕ) → IsData i → k'.mm.phys_mem (get_frame pt i k'.mm) ≡ used_frame_mark
  pub copied : (i : ℕ) → IsData i → k'.ram (get_frame pt i k'.mm) ≡ k.ram (get_frame pp i k.mm)
  pub parent :
      (i : ℕ) → get_frame pp i k'.mm ≡ (if leb 284 i && ltb i 304 then 0 else get_frame pp i k.mm)
  pub others : (t i : ℕ) → t ≢ pt → t ≢ pp → get_frame t i k'.mm ≡ get_frame t i k.mm
  pub kept :
      (f : ℕ)
      → k.mm.phys_mem f ≢ free_frame_mark
      → (k'.ram f ≡ k.ram f) × (k'.mm.phys_mem f ≡ k.mm.phys_mem f)

-- The frames given to the child, and then its memory filled.
module _ (c : ℕ) (k : Kernel) (m : Memory) (pt pp : ℕ) (apart : pt ≢ pp)
    (narrow : (t i : ℕ) → get_frame t i k.mm < 2 ^ 20)
    (in_use : (i : ℕ) → IsData i → k.mm.phys_mem (get_frame pp i k.mm) ≢ free_frame_mark)
    (g : Given pt 264 284 k.mm m) where
  unfoldable pub given : Kernel
  given = record k { mm = m }

  pp_kept : (i : ℕ) → get_frame pp i m ≡ get_frame pp i k.mm
  pp_kept i = g.others pp i (ground (arith, apart))

  narrow_given : (t i : ℕ) → get_frame t i m < 2 ^ 20
  narrow_given t i = elim (Bool-cases ((pt == t) && leb 264 i && ltb i 284)) [
    | inl e ↦
        let r : get_frame pt i m < total_pages =
          g.range i (ground (arith, e)) (ground (arith, e)) in
        subst (λ u. get_frame u i m < 2 ^ 20) (let h : pt ≡ t = ground (arith, e) in h)
          (omega (arith, r))
    | inr e ↦ omega (arith, g.others t i e, narrow t i)
  ]

  own_given : (i j : ℕ) → IsData i → IsData j → i ≢ j → get_frame pt i m ≢ get_frame pt j m
  own_given i j hi hj ne e = elim (Bool-cases (ltb i j)) [
    | inl l ↦ g.own i j hi.0 (ground (arith, l)) hj.1 e
    | inr l ↦ g.own j i hj.0 (ground (arith, l, ne)) hi.1 (sym e)
  ]

  -- A frame in use is none of the child's.
  not_given : (f i : ℕ) → k.mm.phys_mem f ≢ free_frame_mark → IsData i → f ≢ get_frame pt i m
  not_given f i u h e = u (ap k.mm.phys_mem e ∙ g.fresh i h.0 h.1)

  foreign_given : (i j : ℕ) → IsData i → IsData j → get_frame pt i m ≢ get_frame pp j m
  foreign_given i j hi hj e =
      not_given (get_frame pp j k.mm) i (in_use j hj) hi (sym (e ∙ pp_kept j))

  filled-Isolated :
      (k' : Kernel) → Inherited pt pp given k' → Aside pt pp m k'.mm → Isolated pt pp k k'
  unfolding given
  filled-Isolated k' h a = record {
    shared = λ i l. h.shared i ∙ ground (arith, pp_kept i);
    own = λ i j hi hj l e.
        own_given i j hi hj (omega arith) (sym (data_frame i hi) ∙ e ∙ data_frame j hj);
    was_free = λ i hi. ap k.mm.phys_mem (data_frame i hi) ∙ g.fresh i hi.0 hi.1;
    taken = λ i hi.
        ap (λ (n : ℕ → ℕ). n (get_frame pt i k'.mm)) a.map_kept
        ∙ ap m.phys_mem (data_frame i hi)
        ∙ g.used i hi.0 hi.1;
    copied = λ i hi. copied_at i hi (h.data_copied (i - 264));
    parent = λ i. h.parent i ∙ ground (arith, pp_kept i);
    others = λ t i n p. a.others t i n p ∙ g.others t i (ground (arith, n));
    kept = λ f u.
        (h.kept f (λ j hj. not_given f j u hj), ap (λ (n : ℕ → ℕ). n f) a.map_kept ∙ g.kept f u);
  }
    where
      data_frame : (i : ℕ) → IsData i → get_frame pt i k'.mm ≡ get_frame pt i m
      data_frame i hi = h.shared i ∙ ground (arith, hi)

      copied_at :
          (i : ℕ)
          → IsData i
          → (20 ≤ i - 264)
            ⊎ (k'.ram (get_frame pt (264 + (i - 264)) k'.mm)
                ≡ k.ram (get_frame pp (264 + (i - 264)) m))
          → k'.ram (get_frame pt i k'.mm) ≡ k.ram (get_frame pp i k.mm)
      copied_at i hi (inl far) = absurd (omega (arith, hi.0, hi.1, far))
      copied_at i hi (inr e) =
          subst (λ j. k'.ram (get_frame pt j k'.mm) ≡ k.ram (get_frame pp j m))
            (let back : 264 + (i - 264) ≡ i = omega (arith, hi.0) in back) e
          ∙ ap k.ram (pp_kept i)

  get_pt-given : (i : ℕ) → get_pt i given ≡ get_pt i k
  unfolding given get_pt
  get_pt-given i = ap (λ (d : ℕ → Pte). (d (k.tasks i).dir).pbase_addr) g.dirs

  pub fork_memory-Isolated :
      pt ≡ get_pt c k → pp ≡ get_pt k.current k → Isolated pt pp k (fork_memory c given)
  unfolding given
  fork_memory-Isolated at_child at_parent =
      let ept = at_child ∙ sym (get_pt-given c) in
      let epp = at_parent ∙ sym (get_pt-given k.current) in
      filled-Isolated (fork_memory c given)
        (subst (λ t. Inherited t pp given (fork_memory c given)) (sym ept)
          (subst (λ t. Inherited (get_pt c given) t given (fork_memory c given)) (sym epp)
            (fork_memory-Inherited c given (λ e. apart (ept ∙ e ∙ sym epp))
              (λ i. narrow_given (get_pt c given) i)
              (λ i. narrow_given (get_pt given.current given) i)
              (λ i j hi hj ne e.
                own_given i j hi hj ne
                  (ap (λ t. get_frame t i m) ept ∙ e ∙ sym (ap (λ t. get_frame t j m) ept)))
              (λ i j hi hj e.
                foreign_given i j hi hj
                  (ap (λ t. get_frame t i m) ept ∙ e ∙ sym (ap (λ t. get_frame t j m) epp))))))
        (subst (λ t. Aside t pp given.mm (fork_memory c given).mm) (sym ept)
          (subst (λ t. Aside (get_pt c given) t given.mm (fork_memory c given).mm) (sym epp)
            (fork_memory-Aside c given)))

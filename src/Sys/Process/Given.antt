-- ===== src/Sys/Process/Given.antt =====
-- The frames that `sys_fork` of zeos/sys.c allocates for the data pages of the child.
use soa_subject.Prelude.{
  ℕ, zero, suc, ◌+◌, ◌^◌, ◌≤◌, ◌<◌, ◌≡◌, ◌≢◌, refl, sym, ap, ◌∙◌, subst, inl, inr, ◌⊎◌, false, ltb,
  leb, ◌&&◌, ◌==◌, if◌then◌else◌, update, neg32, Option, none, arith, Bool-cases, ==→≡, ==→≢,
}
use soa_subject.Config.{total_pages, pag_log_init_data, free_frame_mark, used_frame_mark}
use soa_subject.Mm.{Pte, Memory, alloc_frame, set_ss_pag, get_frame}
use soa_subject.Mm.Frames.{Allocated, Exhausted, alloc_frame_lem, pagusr_table-alloc_frame}
use soa_subject.Mm.Free.{available, alloc_frame-available}
use soa_subject.Sys.Process.{alloc_pages}
use soa_subject.Sys.Process.Copy.{get_frame-set}

-- The pages of the table `pt` from `first` up to `last` have got frames of their own that were free,
-- and nothing else has changed.
pub record Given (pt first last : ℕ) (m m' : Memory) : Type 0 where
  pub fresh : (i : ℕ) → first ≤ i → i < last → m.phys_mem (get_frame pt i m') ≡ free_frame_mark
  pub used : (i : ℕ) → first ≤ i → i < last → m'.phys_mem (get_frame pt i m') ≡ used_frame_mark
  pub own : (i j : ℕ) → first ≤ i → i < j → j < last → get_frame pt i m' ≢ get_frame pt j m'
  pub range : (i : ℕ) → first ≤ i → i < last → get_frame pt i m' < total_pages
  pub kept : (f : ℕ) → m.phys_mem f ≢ free_frame_mark → m'.phys_mem f ≡ m.phys_mem f
  pub dirs : m'.dir_pages ≡ m.dir_pages
  pub others :
      (t i : ℕ)
      → ((pt == t) && leb first i && ltb i last) ≡ false
      → get_frame t i m' ≡ get_frame t i m

Given-nil : (pt first : ℕ) (m : Memory) → Given pt first first m m
Given-nil pt first m = record {
  fresh = λ i l h. absurd (omega arith);
  used = λ i l h. absurd (omega arith);
  own = λ i j l h g. absurd (omega arith);
  range = λ i l h. absurd (omega arith);
  kept = λ f u. refl;
  dirs = refl;
  others = λ t i e. refl;
}

-- One frame for page `first`, and then those for the pages behind it.
module _ (pt first last f : ℕ) (m m1 m2 m' : Memory) (below : first < last)
    (a : Allocated m.phys_mem f m1.phys_mem) (tables : m1.pagusr_table ≡ m.pagusr_table)
    (same : m1.dir_pages ≡ m.dir_pages) (set : m2 ≡ set_ss_pag pt first f m1)
    (g : Given pt (first + 1) last m2 m') where
  phys_lem : (j : ℕ) → m2.phys_mem j ≡ update m.phys_mem f used_frame_mark j
  phys_lem j =
      ap (λ (n : Memory). n.phys_mem j) set
      ∙ (unfold set_ss_pag in ap (λ (h : ℕ → ℕ). h j) a.marked)

  small : f < 2 ^ 20
  small = omega (arith, a.candidate.1)

  frame_lem :
      (t i : ℕ) → get_frame t i m2 ≡ (if (pt == t) && (first == i) then f else get_frame t i m)
  frame_lem t i =
      ap (get_frame t i) set
      ∙ get_frame-set pt first m1 f t i small
      ∙ ap (λ x. if (pt == t) && (first == i) then f else x)
          (unfold get_frame in ap (λ (h : ℕ → ℕ → Pte). (h t i).pbase_addr) tables)

  here : get_frame pt first m' ≡ f
  here = g.others pt first (ground arith) ∙ frame_lem pt first ∙ ground arith

  was_free : (j : ℕ) → m2.phys_mem j ≡ free_frame_mark → (m.phys_mem j ≡ free_frame_mark) × (f ≢ j)
  was_free j e = ground (arith, phys_lem j)

  later : (i : ℕ) → first ≤ i → i ≢ first → first + 1 ≤ i
  later i l ne = omega (arith, ne)

  Given-cons : Given pt first last m m'
  Given-cons = record {
    fresh = λ i l h. elim (Bool-cases (first == i)) [
      | inl e ↦
          subst (λ j. m.phys_mem (get_frame pt j m') ≡ free_frame_mark) (==→≡ _ _ e)
            (ap m.phys_mem here ∙ a.was_free)
      | inr e ↦ (was_free _ (g.fresh i (omega (arith, ==→≢ _ _ e)) h)).0
    ];
    used = λ i l h. elim (Bool-cases (first == i)) [
      | inl e ↦
          subst (λ j. m'.phys_mem (get_frame pt j m') ≡ used_frame_mark) (==→≡ _ _ e)
            (ap m'.phys_mem here
              ∙ g.kept f (ground (arith, phys_lem f))
              ∙ ground (arith, phys_lem f))
      | inr e ↦ g.used i (omega (arith, ==→≢ _ _ e)) h
    ];
    own = λ i j l h k. elim (Bool-cases (first == i)) [
      | inl e ↦
          subst (λ n. get_frame pt n m' ≢ get_frame pt j m') (==→≡ _ _ e)
            (λ q. (was_free _ (g.fresh j (omega (arith, ==→≡ _ _ e)) k)).1 (sym here ∙ q))
      | inr e ↦ g.own i j (omega (arith, ==→≢ _ _ e)) h k
    ];
    range = λ i l h. elim (Bool-cases (first == i)) [
      | inl e ↦
          subst (λ j. get_frame pt j m' < total_pages) (==→≡ _ _ e)
            (omega (arith, here, a.candidate.1))
      | inr e ↦ g.range i (omega (arith, ==→≢ _ _ e)) h
    ];
    kept = λ j u.
        let same : m2.phys_mem j ≡ m.phys_mem j = ground (arith, phys_lem j, a.was_free) in
        g.kept j (λ z. u (sym same ∙ z)) ∙ same;
    dirs = g.dirs ∙ ap (λ (n : Memory). n.dir_pages) set ∙ (unfold set_ss_pag in same);
    others = λ t i e. g.others t i (ground (arith, e)) ∙ frame_lem t i ∙ ground (arith, e);
  }

available-set :
    (pt page frame : ℕ) (m : Memory) → available (set_ss_pag pt page frame m) ≡ available m
unfolding available set_ss_pag
available-set pt page frame m = refl

-- The state behind the first round that finds a frame.
abbrev next_round : (pag pt : ℕ) → Memory → Memory
next_round pag pt m = set_ss_pag pt (pag_log_init_data + pag) (alloc_frame m).0 (alloc_frame m).1

alloc_pages-next :
    (n pag pt : ℕ) (m : Memory)
    → (alloc_frame m).0 < total_pages
    → alloc_pages (suc n) pag pt m ≡ alloc_pages n (pag + 1) pt (next_round pag pt m)
unfolding alloc_pages
alloc_pages-next n pag pt m h =
    rw (let e : ((alloc_frame m).0 == neg32 1) ≡ false = ground (arith, h) in e)

-- While enough frames are free, each of the pages gets one.
pub alloc_pages-Given :
    (n pag pt : ℕ) (m : Memory)
    → n ≤ available m
    → let (r, m') = alloc_pages n pag pt m in
      (r ≡ none) × Given pt (pag_log_init_data + pag) (pag_log_init_data + pag + n) m m'
unfolding alloc_pages
alloc_pages-Given zero pag pt m h = (
  refl,
  subst (λ l. Given pt (pag_log_init_data + pag) l m m)
      (let e : pag_log_init_data + pag ≡ pag_log_init_data + pag + zero = omega arith in e)
      (Given-nil pt (pag_log_init_data + pag) m),
)
alloc_pages-Given (suc n) pag pt m h =
    go (alloc_pages-Given n (pag + 1) pt (next_round pag pt m)) (alloc_frame-available m)
      (alloc_frame_lem m)
  where
    go :
        (n ≤ available (next_round pag pt m)
          → let (r, m') = alloc_pages n (pag + 1) pt (next_round pag pt m) in
            (r ≡ none)
            × Given pt
                (pag_log_init_data + (pag + 1))
                (pag_log_init_data + (pag + 1) + n)
                (next_round pag pt m)
                m')
        → (available m ≡ 0) × ((alloc_frame m).0 ≡ neg32 1)
          ⊎ (available (alloc_frame m).1 + 1 ≡ available m) × ((alloc_frame m).0 < total_pages)
        → Allocated m.phys_mem (alloc_frame m).0 (alloc_frame m).1.phys_mem
          ⊎ Exhausted m.phys_mem (alloc_frame m).0 (alloc_frame m).1.phys_mem
        → let (r, m') = alloc_pages (suc n) pag pt m in
          (r ≡ none) × Given pt (pag_log_init_data + pag) (pag_log_init_data + pag + suc n) m m'
    go rec (inl f) a = absurd (omega (arith, f.0, h))
    go rec (inr g) (inr x) = absurd (omega (arith, g.1, x.error))
    go rec (inr g) (inl a) =
        let first = pag_log_init_data + pag in
        let last = pag_log_init_data + pag + suc n in
        let m2 = next_round pag pt m in
        let ih =
          rec (omega (arith, g.0, h, available-set pt first (alloc_frame m).0 (alloc_frame m).1)) in
        subst (λ (r : Option ℕ × Memory). (r.0 ≡ none) × Given pt first last m r.1)
          (sym (alloc_pages-next n pag pt m g.1))
          (
            ih.0,
            Given-cons pt first last (alloc_frame m).0 m (alloc_frame m).1 m2
                (alloc_pages n (pag + 1) pt m2).1 (omega arith) a (pagusr_table-alloc_frame m)
                (unfold alloc_frame in refl) refl
                (subst (λ l. Given pt (first + 1) l m2 (alloc_pages n (pag + 1) pt m2).1)
                  (let e : first + 1 + n ≡ last = omega arith in e)
                  (subst (λ l. Given pt l (l + n) m2 (alloc_pages n (pag + 1) pt m2).1)
                    (let e : pag_log_init_data + (pag + 1) ≡ first + 1 = omega arith in e) ih.1)),
          )

-- With fewer, one of the pages gets none.
pub alloc_pages_short :
    (n pag pt : ℕ) (m : Memory) → available m < n → (alloc_pages n pag pt m).0 ≢ none
unfolding alloc_pages
alloc_pages_short zero pag pt m h = absurd (omega arith)
alloc_pages_short (suc n) pag pt m h =
    go (alloc_pages_short n (pag + 1) pt (next_round pag pt m)) (alloc_frame-available m)
  where
    go :
        (available (next_round pag pt m) < n
          → (alloc_pages n (pag + 1) pt (next_round pag pt m)).0 ≢ none)
        → (available m ≡ 0) × ((alloc_frame m).0 ≡ neg32 1)
          ⊎ (available (alloc_frame m).1 + 1 ≡ available m) × ((alloc_frame m).0 < total_pages)
        → (alloc_pages (suc n) pag pt m).0 ≢ none
    go rec (inl f) = ground (arith, f.1)
    go rec (inr g) =
        subst (λ (r : Option ℕ × Memory). r.0 ≢ none) (sym (alloc_pages-next n pag pt m g.1))
          (rec (
            omega (
              arith,
              g.0,
              h,
              available-set pt (pag_log_init_data + pag) (alloc_frame m).0 (alloc_frame m).1,
            )))

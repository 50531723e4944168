-- ===== src/Sys/Pages/Dealloc.antt =====
-- `dealloc_k` of zeos/sys.c undoes `alloc_k`.
use soa_subject.Prelude.{
  ℕ, ◌/◌, ◌^◌, ◌≤◌, ◌<◌, ◌≡◌, ◌≢◌, refl, sym, ap, ◌∙◌, subst, ◌⊎◌, inl, inr, ◌==◌, ◌||◌, ◌&&◌, ltb,
  leb, if◌then◌else◌, neg32, arith, Bool-cases, ==→≡, ==→≢, Option, none, some, update,
}
use soa_subject.Config.{
  first_free_page, total_pages, enomem, eacces, efault, num_pag_kernel, free_frame_mark,
}
use soa_subject.Mm.{
  Memory, Pte, alloc_frame, set_ss_pag, free_frame, del_ss_pag, get_frame, user_entry, zero_entry,
}
use soa_subject.Mm.Frames.{Allocated, pagusr_table-free_frame}
use soa_subject.Kernel.{Kernel, get_pt}
use soa_subject.Sys.Pages.{alloc_k, alloc_at, find_page, page_rounds, dealloc_k}
use soa_subject.Sys.Pages.Alloc.{Mapped, page, no_page, no_frame, alloc_k-Mapped}

-- How `dealloc_k` ends.
pub data Unmapped (lpage pt : ℕ) (m : Memory) (r : ℕ) (m' : Memory) : Type 0 where
  -- A page of the kernel or of the user's code and data, or past the end: -EACCES.
  protected_page :
      (lpage < first_free_page) ⊎ (total_pages ≤ lpage)
      → r ≡ neg32 eacces
      → m' ≡ m
      → Unmapped lpage pt m r m'
  -- A page with no frame: -EFAULT.
  no_mapping :
      first_free_page ≤ lpage
      → lpage < total_pages
      → get_frame pt lpage m ≡ 0
      → r ≡ neg32 efault
      → m' ≡ m
      → Unmapped lpage pt m r m'
  -- Otherwise the page has no frame any more, and its frame is free if it is one that `free_frame`
  -- takes back, from 257 on.
  unmapped :
      first_free_page ≤ lpage
      → lpage < total_pages
      → get_frame pt lpage m ≢ 0
      → r ≡ 0
      → m'.pagusr_table ≡ update m.pagusr_table pt (update (m.pagusr_table pt) lpage zero_entry)
      → ((i : ℕ)
          → m'.phys_mem i ≡ (
              if (i == get_frame pt lpage m) && (ltb num_pag_kernel i && ltb i total_pages)
              then free_frame_mark
              else m.phys_mem i))
      → Unmapped lpage pt m r m'

-- The byte map behind `free_frame`.
free_frame_cells :
    (frame : ℕ) (m : Memory) (i : ℕ)
    → (free_frame frame m).phys_mem i ≡ (
        if (i == frame) && (ltb num_pag_kernel i && ltb i total_pages)
        then free_frame_mark
        else m.phys_mem i)
unfolding free_frame
free_frame_cells frame m i = ground arith

-- `dealloc_k` refuses the pages that `alloc_k` never gives (-EACCES) and those with no frame (-EFAULT),
-- with nothing changed in the memory. From any other page it takes the frame and answers 0; the other
-- pages keep theirs, the frame is marked free if it is one from 257 to 1023, and every other mark in
-- the byte map is as it was.
pub dealloc_k-Unmapped :
    (lpage : ℕ) (k : Kernel)
    → let (r, k') = dealloc_k lpage k in Unmapped lpage (get_pt k.current k) k.mm r k'.mm
unfolding dealloc_k del_ss_pag
dealloc_k-Unmapped lpage k =
    elim (Bool-cases (ltb lpage first_free_page || leb total_pages lpage)) [
      | inl e ↦ rw e (protected_page (ground arith) refl refl)
      | inr e ↦ elim (Bool-cases (get_frame (get_pt k.current k) lpage k.mm == 0)) [
        | inl f ↦ rw (e, f) (no_mapping (ground arith) (ground arith) (==→≡ _ _ f) refl refl)
        | inr f ↦
            rw (e, f)
              (unmapped (ground arith) (ground arith) (==→≢ _ _ f) refl
                (ap
                  (λ ts.
                    update ts (get_pt k.current k)
                      (update (ts (get_pt k.current k)) lpage zero_entry))
                  (pagusr_table-free_frame (get_frame (get_pt k.current k) lpage k.mm) k.mm))
                (free_frame_cells (get_frame (get_pt k.current k) lpage k.mm) k.mm))
      ]
    ]

dir_pages-alloc_at :
    (o : Option ℕ) (pt : ℕ) (m : Memory) → (alloc_at o pt m).1.dir_pages ≡ m.dir_pages
unfolding alloc_at alloc_frame set_ss_pag
dir_pages-alloc_at none pt m = refl
dir_pages-alloc_at (some lpage) pt m = elim (Bool-cases ((alloc_frame m).0 == neg32 1)) [
  | inl e ↦ rw e
  | inr e ↦ rw e
]

same_table : (k : Kernel) → get_pt (alloc_k k).1.current (alloc_k k).1 ≡ get_pt k.current k
unfolding alloc_k get_pt
same_table k =
    ap (λ (d : ℕ → Pte). (d (k.tasks k.current).dir).pbase_addr)
      (dir_pages-alloc_at (find_page page_rounds first_free_page (get_pt k.current k) k.mm)
        (get_pt k.current k) k.mm)

-- What the memory is like once a page of the table `pt` is mapped and unmapped again.
record Restored (pt lpage : ℕ) (m : Memory) (r : ℕ) (m' : Memory) : Type 0 where
  pub answer : r ≡ 0
  pub pages : (p : ℕ) → get_frame pt p m' ≡ (if p == lpage then 0 else get_frame pt p m)
  pub frames : (i : ℕ) → i ≢ num_pag_kernel → m'.phys_mem i ≡ m.phys_mem i

restore :
    (pt lpage frame r : ℕ) (m m1 m2 : Memory)
    → (first_free_page ≤ lpage) × (lpage < total_pages)
    → Allocated m.phys_mem frame m1.phys_mem
    → m1.pagusr_table
      ≡ update m.pagusr_table pt (update (m.pagusr_table pt) lpage (user_entry frame))
    → Unmapped lpage pt m1 r m2
    → Restored pt lpage m r m2
restore pt lpage frame r m m1 m2 inside a t u = go u
  where
    given : get_frame pt lpage m1 ≡ frame
    given = unfold get_frame in ap (λ ts. (ts pt lpage).pbase_addr) t ∙ ground (arith, a.candidate)

    go : Unmapped lpage pt m1 r m2 → Restored pt lpage m r m2
    go (protected_page h er em) = absurd (ground (arith, h, inside))
    go (no_mapping lo hi z er em) = absurd (omega (arith, z, given, a.candidate))
    go (unmapped lo hi ne er et ep) = record {
      answer = er;
      pages = λ p.
          unfold get_frame in
          ap (λ ts. (ts pt p).pbase_addr) et
          ∙ ap (λ ts. (update ts pt (update (ts pt) lpage zero_entry) pt p).pbase_addr) t
          ∙ ground arith;
      frames = λ i out.
          ep i
          ∙ ground (arith, given, ap (λ (f : ℕ → ℕ). f i) a.marked, a.was_free, a.candidate, out);
    }

-- A page that `alloc_k` gave can be given back by its address: the answer is 0, the page has no
-- frame, every other page of the table has the one it had, and every frame but 256 is as it was.
pub dealloc_k-alloc_k :
    (k : Kernel) (address : ℕ)
    → (alloc_k k).0 ≡ address
    → address ≢ neg32 enomem
    → let (r, k') = dealloc_k (address / 2 ^ 12) (alloc_k k).1 in
      let pt = get_pt k.current k in
      (r ≡ 0)
      × ((p : ℕ)
          → get_frame pt p k'.mm ≡ (if p == address / 2 ^ 12 then 0 else get_frame pt p k.mm))
      × ((i : ℕ) → i ≢ num_pag_kernel → k'.mm.phys_mem i ≡ k.mm.phys_mem i)
dealloc_k-alloc_k k address e ok = go (alloc_k-Mapped k)
  where
    go :
        Mapped (get_pt k.current k) k.mm (alloc_k k).0 (alloc_k k).1.mm
        → let (r, k') = dealloc_k (address / 2 ^ 12) (alloc_k k).1 in
          (r ≡ 0)
          × ((p : ℕ)
              → get_frame (get_pt k.current k) p k'.mm
                ≡ (if p == address / 2 ^ 12 then 0 else get_frame (get_pt k.current k) p k.mm))
          × ((i : ℕ) → i ≢ num_pag_kernel → k'.mm.phys_mem i ≡ k.mm.phys_mem i)
    go (no_page f er em) = absurd (ok (sym e ∙ er))
    go (no_frame frame x er em) = absurd (ok (sym e ∙ er))
    go (page lpage frame f a er t) =
        let at : lpage ≡ address / 2 ^ 12 = omega (arith, e, er) in
        let h =
          restore (get_pt k.current k) (address / 2 ^ 12) frame _ k.mm (alloc_k k).1.mm _
            (omega (arith, at, f.0, f.1)) a
            (t
              ∙ ap
                  (λ l.
                    update k.mm.pagusr_table (get_pt k.current k)
                      (update (k.mm.pagusr_table (get_pt k.current k)) l (user_entry frame)))
                  at)
            (subst
              (λ n.
                Unmapped (address / 2 ^ 12) n (alloc_k k).1.mm
                  (dealloc_k (address / 2 ^ 12) (alloc_k k).1).0
                  (dealloc_k (address / 2 ^ 12) (alloc_k k).1).1.mm)
              (same_table k) (dealloc_k-Unmapped (address / 2 ^ 12) (alloc_k k).1)) in
        (h.answer, h.pages, h.frames)

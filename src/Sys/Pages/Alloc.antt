-- ===== src/Sys/Pages/Alloc.antt =====
-- `alloc_k` of zeos/sys.c: which page and which frame it takes.
use soa_subject.Prelude.{
  ℕ, zero, suc, ◌+◌, ◌*◌, ◌^◌, ◌≤◌, ◌<◌, ◌≡◌, ◌≢◌, refl, ap, subst, inl, inr, false, ◌==◌, Option,
  none, some, neg32, arith, Bool-cases, ==→≡, ==→≢, update,
}
use soa_subject.Config.{first_free_page, total_pages, enomem}
use soa_subject.Mm.{Memory, alloc_frame, get_frame, set_ss_pag, user_entry}
use soa_subject.Mm.Frames.{Allocated, Exhausted, alloc_frame_lem, pagusr_table-alloc_frame}
use soa_subject.Kernel.{Kernel, get_pt}
use soa_subject.Sys.Pages.{find_page, page_rounds, alloc_at, alloc_k}

-- Where the search of `alloc_k` ends: the first page of `[i, j)` with no frame, or none.
abbrev pub Found : (i j pt : ℕ) → Memory → Option ℕ → Type 0
Found i j pt m none = (l : ℕ) → i ≤ l → l < j → get_frame pt l m ≢ 0
Found i j pt m (some p) =
    (i ≤ p) × (p < j) × (get_frame pt p m ≡ 0) × ((l : ℕ) → i ≤ l → l < p → get_frame pt l m ≢ 0)

Found-next :
    (i j pt : ℕ) (m : Memory) (o : Option ℕ)
    → get_frame pt i m ≢ 0
    → Found (i + 1) j pt m o
    → Found i j pt m o
Found-next i j pt m none ne f = λ l lo hi. at l lo hi
  where
    at : (l : ℕ) → i ≤ l → l < j → get_frame pt l m ≢ 0
    at l lo hi = elim (Bool-cases (i == l)) [
      | inl e ↦ subst (λ x. get_frame pt x m ≢ 0) (==→≡ _ _ e) ne
      | inr e ↦ f l (omega (arith, ==→≢ _ _ e)) hi
    ]
Found-next i j pt m (some p) ne f = (omega (arith, f.0), f.1, f.2, at)
  where
    at : (l : ℕ) → i ≤ l → l < p → get_frame pt l m ≢ 0
    at l lo hi = elim (Bool-cases (i == l)) [
      | inl e ↦ subst (λ x. get_frame pt x m ≢ 0) (==→≡ _ _ e) ne
      | inr e ↦ f.3 l (omega (arith, ==→≢ _ _ e)) hi
    ]

find_page-Found :
    (rounds i j pt : ℕ) (m : Memory) → i + rounds ≡ j → Found i j pt m (find_page rounds i pt m)
unfolding find_page
find_page-Found zero i j pt m e = λ l lo hi. absurd (omega arith)
find_page-Found (suc rounds) i j pt m e = elim (Bool-cases (get_frame pt i m == 0)) [
  | inl z ↦ rw z ((omega arith), (omega arith), ==→≡ _ _ z, λ l lo hi. absurd (omega arith))
  | inr z ↦ rw z (
      Found-next i j pt m (find_page rounds (i + 1) pt m) (==→≢ _ _ z)
        (find_page-Found rounds (i + 1) j pt m (omega arith)))
]

-- How `alloc_k` ends, for the table `pt`: `r` is the result and `m'` the memory.
pub data Mapped (pt : ℕ) (m : Memory) (r : ℕ) (m' : Memory) : Type 0 where
  -- The first page behind the user's data with no frame gets the first free frame.
  page :
      (lpage frame : ℕ)
      → Found first_free_page total_pages pt m (some lpage)
      → Allocated m.phys_mem frame m'.phys_mem
      → r ≡ lpage * 2 ^ 12
      → m'.pagusr_table
        ≡ update m.pagusr_table pt (update (m.pagusr_table pt) lpage (user_entry frame))
      → Mapped pt m r m'
  -- No page is left, and nothing changes.
  no_page :
      Found first_free_page total_pages pt m none → r ≡ neg32 enomem → m' ≡ m → Mapped pt m r m'
  -- No frame is left, and nothing changes.
  no_frame :
      (frame : ℕ)
      → Exhausted m.phys_mem frame m'.phys_mem
      → r ≡ neg32 enomem
      → m'.pagusr_table ≡ m.pagusr_table
      → Mapped pt m r m'

alloc_at-Mapped :
    (o : Option ℕ) (pt : ℕ) (m : Memory)
    → Found first_free_page total_pages pt m o
    → let (r, m') = alloc_at o pt m in Mapped pt m r m'
unfolding alloc_at set_ss_pag
alloc_at-Mapped none pt m f = no_page f refl refl
alloc_at-Mapped (some lpage) pt m f = elim (alloc_frame_lem m) [
  | inl a ↦ rw (small a) (
      page lpage (alloc_frame m).0 f a refl (
        ap (λ ts. update ts pt (update (ts pt) lpage (user_entry (alloc_frame m).0)))
          (pagusr_table-alloc_frame m)))
  | inr x ↦
      rw (ap (λ i. i == neg32 1) x.error)
        (no_frame (alloc_frame m).0 x refl (pagusr_table-alloc_frame m))
]
  where
    small :
        Allocated m.phys_mem (alloc_frame m).0 (alloc_frame m).1.phys_mem
        → ((alloc_frame m).0 == neg32 1) ≡ false
    small a = ground (arith, a.candidate)

-- `alloc_k` gives the first page behind the user's data that has no frame the first free frame, and
-- returns the page's address. With no page or no frame left it answers -ENOMEM and changes nothing.
pub alloc_k-Mapped :
    (k : Kernel) → let (r, k') = alloc_k k in Mapped (get_pt k.current k) k.mm r k'.mm
unfolding alloc_k
alloc_k-Mapped k = alloc_at-Mapped _ (get_pt k.current k) k.mm (
    find_page-Found page_rounds first_free_page total_pages (get_pt k.current k) k.mm (omega arith))

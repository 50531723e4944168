-- ===== src/Sys/Process/Inherit.antt =====
-- The memory of a new process (`sys_fork` of zeos/sys.c).
use soa_subject.Prelude.{
  ℕ, ◌+◌, ◌^◌, ◌≤◌, ◌<◌, ◌≡◌, ◌≢◌, refl, sym, ap, ◌∙◌, ◌⊎◌, ltb, leb, ◌&&◌, if◌then◌else◌, arith,
  Bool-cases, inl, inr,
}
use soa_subject.Config.{num_pag_kernel, num_pag_code, pag_log_init_code}
use soa_subject.Mm.{Memory, get_frame}
use soa_subject.Kernel.{Kernel, get_pt}
use soa_subject.Sys.Process.{share_pages, copy_pages, fork_memory}
use soa_subject.Sys.Process.Copy.{Shares, share_pages-Shares, IsData, Copied, copy_pages-Copied}

-- The child's table, the parent's, and the data pages, which are the 20 from page 264 on.
pub record Inherited (pt pp : ℕ) (k k' : Kernel) : Type 0 where
  pub shared :
      (i : ℕ)
      → get_frame pt i k'.mm ≡ (if ltb i 264 then get_frame pp i k.mm else get_frame pt i k.mm)
  pub parent :
      (i : ℕ) → get_frame pp i k'.mm ≡ (if leb 284 i && ltb i 304 then 0 else get_frame pp i k.mm)
  pub data_copied :
      (q : ℕ)
      → (20 ≤ q) ⊎ (k'.ram (get_frame pt (264 + q) k'.mm) ≡ k.ram (get_frame pp (264 + q) k.mm))
  pub data_kept :
      (q : ℕ)
      → (20 ≤ q) ⊎ (k'.ram (get_frame pp (264 + q) k'.mm) ≡ k.ram (get_frame pp (264 + q) k.mm))
  pub kept : (f : ℕ) → ((j : ℕ) → IsData j → f ≢ get_frame pt j k.mm) → k'.ram f ≡ k.ram f
  pub directory : k'.cpu.cr3 ≡ (k.tasks k.current).dir

module _ (pt pp : ℕ) (apart : pt ≢ pp) (k : Kernel)
    (narrow_child : (i : ℕ) → get_frame pt i k.mm < 2 ^ 20)
    (narrow : (i : ℕ) → get_frame pp i k.mm < 2 ^ 20)
    (own : (i j : ℕ) → IsData i → IsData j → i ≢ j → get_frame pt i k.mm ≢ get_frame pt j k.mm)
    (foreign : (i j : ℕ) → IsData i → IsData j → get_frame pt i k.mm ≢ get_frame pp j k.mm) where
  system_shared : Memory
  system_shared = share_pages num_pag_kernel 0 pp pt k.mm

  code_shared : Memory
  unfolding system_shared
  code_shared = share_pages num_pag_code pag_log_init_code pp pt system_shared

  system_lem : Shares pt pp apart k.mm narrow 0 256 k.mm system_shared
  unfolding system_shared
  system_lem = share_pages-Shares pt pp apart k.mm narrow 256 0 k.mm (λ i. refl)

  code_lem : Shares pt pp apart k.mm narrow 256 264 system_shared code_shared
  unfolding code_shared Shares
  code_lem = share_pages-Shares pt pp apart k.mm narrow 8 256 system_shared system_lem.1

  child_lem :
      (i : ℕ)
      → get_frame pt i code_shared
        ≡ (if ltb i 264 then get_frame pp i k.mm else get_frame pt i k.mm)
  unfolding Shares
  child_lem i = code_lem.0 i ∙ ground (arith, system_lem.0 i)

  parent_lem : (i : ℕ) → get_frame pp i code_shared ≡ get_frame pp i k.mm
  unfolding Shares
  parent_lem = code_lem.1

  data_lem : (i : ℕ) → IsData i → get_frame pt i code_shared ≡ get_frame pt i k.mm
  data_lem i h = child_lem i ∙ ground (arith, h)

  started : Kernel
  unfolding code_shared
  started = record k { mm = code_shared }

  narrow_started : (i : ℕ) → get_frame pt i started.mm < 2 ^ 20
  unfolding started
  narrow_started i = ground (arith, child_lem i, narrow i, narrow_child i)

  own_started :
      (i j : ℕ)
      → IsData i
      → IsData j
      → i ≢ j
      → get_frame pt i started.mm ≢ get_frame pt j started.mm
  unfolding started
  own_started i j hi hj ne e = own i j hi hj ne (sym (data_lem i hi) ∙ e ∙ data_lem j hj)

  foreign_started :
      (i j : ℕ) → IsData i → IsData j → get_frame pt i started.mm ≢ get_frame pp j started.mm
  unfolding started
  foreign_started i j hi hj e = foreign i j hi hj (sym (data_lem i hi) ∙ e ∙ parent_lem j)

  data_lem_started : (i : ℕ) → IsData i → get_frame pt i started.mm ≡ get_frame pt i k.mm
  unfolding started
  data_lem_started = data_lem

  ended : Kernel
  unfolding started
  ended = copy_pages pp pt started

  ended_lem : Copied pt pp apart started narrow_started own_started foreign_started 284 ended
  unfolding ended
  ended_lem = copy_pages-Copied pt pp apart started narrow_started own_started foreign_started

  started_ram : started.ram ≡ k.ram
  unfolding started
  started_ram = refl

  child_frame :
      (i : ℕ)
      → get_frame pt i started.mm ≡ (if ltb i 264 then get_frame pp i k.mm else get_frame pt i k.mm)
  unfolding started
  child_frame = child_lem

  parent_frame : (i : ℕ) → get_frame pp i started.mm ≡ get_frame pp i k.mm
  unfolding started
  parent_frame = parent_lem

  parent_data : (q : ℕ) → q < 20 → get_frame pp (264 + q) ended.mm ≡ get_frame pp (264 + q) k.mm
  parent_data q h = ended_lem.parent (264 + q) ∙ ground (arith, parent_frame (264 + q))

  ended-Inherited :
      Inherited pt pp k (record ended { cpu = record ended.cpu { cr3 = (k.tasks k.current).dir } })
  ended-Inherited = record {
    shared = λ i. ended_lem.child i ∙ child_frame i;
    parent = λ i. ended_lem.parent i ∙ ground (arith, parent_frame i);
    data_copied = λ q. elim (Bool-cases (leb 20 q)) [
      | inl t ↦ inl (ground (arith, t))
      | inr t ↦
          let h : q < 20 = ground (arith, t) in
          inr (
            ap ended.ram (ended_lem.child (264 + q))
            ∙ ended_lem.copied (264 + q) (omega arith) (omega arith)
            ∙ ap started.ram (parent_frame (264 + q))
            ∙ ap (λ r. r (get_frame pp (264 + q) k.mm)) started_ram)
    ];
    data_kept = λ q. elim (Bool-cases (leb 20 q)) [
      | inl t ↦ inl (ground (arith, t))
      | inr t ↦
          let h : q < 20 = ground (arith, t) in
          inr (
            ap ended.ram (parent_data q h)
            ∙ ended_lem.kept (get_frame pp (264 + q) k.mm) (λ j l lt e.
              foreign_started j (264 + q) (l, lt) (omega arith, omega arith)
                (sym e ∙ sym (parent_frame (264 + q))))
            ∙ ap (λ r. r (get_frame pp (264 + q) k.mm)) started_ram)
    ];
    kept = λ f out.
        ap ended.ram refl
        ∙ ended_lem.kept f (λ j l lt e. out j (l, lt) (e ∙ data_lem_started j (l, lt)))
        ∙ ap (λ r. r f) started_ram;
    directory = refl;
  }

-- If the child's table is another than the parent's, the entries of both are of 20 bits, and the
-- frames of the child's data pages differ from each other and from those of the parent's, then
-- behind `fork_memory` the child has the parent's system and code pages and a copy of its data in
-- frames of its own; the parent's data is as it was, and CR3 has the parent's directory; but the
-- parent has no frame any more at the 20 pages from 284 on, and its other pages are as they were.
pub fork_memory-Inherited :
    (child : ℕ) (k : Kernel)
    → get_pt child k ≢ get_pt k.current k
    → ((i : ℕ) → get_frame (get_pt child k) i k.mm < 2 ^ 20)
    → ((i : ℕ) → get_frame (get_pt k.current k) i k.mm < 2 ^ 20)
    → ((i j : ℕ)
        → IsData i
        → IsData j
        → i ≢ j
        → get_frame (get_pt child k) i k.mm ≢ get_frame (get_pt child k) j k.mm)
    → ((i j : ℕ)
        → IsData i
        → IsData j
        → get_frame (get_pt child k) i k.mm ≢ get_frame (get_pt k.current k) j k.mm)
    → Inherited (get_pt child k) (get_pt k.current k) k (fork_memory child k)
unfolding fork_memory ended started code_shared system_shared
fork_memory-Inherited child k apart small_child small own foreign =
    ended-Inherited (get_pt child k) (get_pt k.current k) apart k small_child small own foreign

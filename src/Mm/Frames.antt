-- ===== src/Mm/Frames.antt =====
-- The byte map of physical frames: `init_frames`, `alloc_frame` and `free_frame` of zeos/mm.c.
use soa_subject.Prelude.{
  ℕ, zero, suc, ◌+◌, ◌*◌, ◌%◌, ◌≤◌, ◌<◌, ◌≡◌, ◌≢◌, refl, sym, ap, ◌∙◌, ◌⊎◌, inl, inr, ◌&&◌, ltb,
  ◌==◌, if◌then◌else◌, update, neg32, for_range-update, arith, Bool-cases, ==→≡, ==→≢,
}
use soa_subject.Config.{total_pages, num_pag_kernel, free_frame_mark, used_frame_mark}
use soa_subject.Mm.{Memory, init_frames, alloc_scan, alloc_rounds, alloc_frame, free_frame}

-- What `init_frames` leaves: the kernel's frames are used, the others free.
pub init_frames_lem :
    (m : Memory) (i : ℕ)
    → i < total_pages
    → (init_frames m).phys_mem i
      ≡ (if ltb i num_pag_kernel then used_frame_mark else free_frame_mark)
unfolding init_frames
init_frames_lem m i h =
    for_range-update num_pag_kernel 0 (λ _. used_frame_mark) _ i
    ∙ ground (arith, for_range-update total_pages 0 (λ _. free_frame_mark) m.phys_mem i)

-- The frames that `alloc_frame` looks at: every second one from the kernel's end on.
abbrev pub Candidate : ℕ → Type 0
Candidate i = (num_pag_kernel ≤ i) × (i < total_pages) × (i % 2 ≡ 0)

-- The outcome of a successful search: the first candidate that was free is used now.
pub record Allocated (phys : ℕ → ℕ) (i : ℕ) (phys' : ℕ → ℕ) : Type 0 where
  pub candidate : Candidate i
  pub was_free : phys i ≡ free_frame_mark
  pub first : (k : ℕ) → Candidate k → k < i → phys k ≢ free_frame_mark
  pub marked : phys' ≡ update phys i used_frame_mark

-- The outcome of a search in vain.
pub record Exhausted (phys : ℕ → ℕ) (i : ℕ) (phys' : ℕ → ℕ) : Type 0 where
  pub error : i ≡ neg32 1
  pub none_free : (k : ℕ) → Candidate k → phys k ≢ free_frame_mark
  pub same : phys' ≡ phys

alloc_scan_lem :
    (rounds i : ℕ) (phys : ℕ → ℕ)
    → num_pag_kernel ≤ i
    → i % 2 ≡ 0
    → total_pages ≤ i + 2 * rounds
    → ((k : ℕ) → Candidate k → k < i → phys k ≢ free_frame_mark)
    → let (r, phys') = alloc_scan rounds i phys in Allocated phys r phys' ⊎ Exhausted phys r phys'
unfolding alloc_scan
alloc_scan_lem zero i phys lo even enough before =
    inr (record { error = refl; none_free = λ k c. before k c (omega arith); same = refl })
alloc_scan_lem (suc rounds) i phys lo even enough before = elim (Bool-cases (ltb i total_pages)) [
  | inr past ↦
      rw past
        (inr (record { error = refl; none_free = λ k c. before k c (ground arith); same = refl }))
  | inl inside ↦ elim (Bool-cases (phys i == free_frame_mark)) [
    | inl free ↦
        rw (inside, free)
          (inl (record {
            candidate = ground arith;
            was_free = ==→≡ _ _ free;
            first = before;
            marked = refl;
          }))
    | inr used ↦
        rw (inside, used)
          (alloc_scan_lem rounds (i + 2) phys (omega arith) (omega arith) (omega arith)
            (λ k c l. ground (arith, before k c, ==→≢ _ _ used)))
  ]
]

-- `alloc_frame` marks the first free frame of its candidates as used and returns it, or returns -1
-- and changes nothing, and then no candidate is free.
pub alloc_frame_lem :
    (m : Memory)
    → let (r, m') = alloc_frame m in
      Allocated m.phys_mem r m'.phys_mem ⊎ Exhausted m.phys_mem r m'.phys_mem
unfolding alloc_frame
alloc_frame_lem m =
    alloc_scan_lem alloc_rounds num_pag_kernel m.phys_mem (omega arith) (omega arith) (omega arith)
      (λ k c l. absurd (omega arith))

-- The page tables are no concern of the byte map.
pub pagusr_table-alloc_frame : (m : Memory) → (alloc_frame m).1.pagusr_table ≡ m.pagusr_table
unfolding alloc_frame
pagusr_table-alloc_frame m = refl

pub pagusr_table-free_frame :
    (frame : ℕ) (m : Memory) → (free_frame frame m).pagusr_table ≡ m.pagusr_table
unfolding free_frame
pagusr_table-free_frame frame m = ground arith

-- `free_frame` undoes `alloc_frame`, but for frame 256: the test `frame>NUM_PAG_KERNEL` leaves that
-- one used for good.
pub free_frame-alloc_frame :
    (m : Memory) (frame : ℕ)
    → (alloc_frame m).0 ≡ frame
    → frame ≢ neg32 1
    → (i : ℕ)
    → (free_frame frame (alloc_frame m).1).phys_mem i ≡ (
        if (frame == num_pag_kernel) && (i == num_pag_kernel)
        then used_frame_mark
        else m.phys_mem i)
unfolding free_frame
free_frame-alloc_frame m frame e ok i = go (alloc_frame_lem m)
  where
    go :
        Allocated m.phys_mem (alloc_frame m).0 (alloc_frame m).1.phys_mem
          ⊎ Exhausted m.phys_mem (alloc_frame m).0 (alloc_frame m).1.phys_mem
        → (free_frame frame (alloc_frame m).1).phys_mem i ≡ (
            if (frame == num_pag_kernel) && (i == num_pag_kernel)
            then used_frame_mark
            else m.phys_mem i)
    go (inl a) = ground (arith, ap (λ f. f i) a.marked, a.was_free, a.candidate)
    go (inr x) = absurd (ok (sym e ∙ x.error))

-- ===== src/Mm/Free.antt =====
-- How many frames `alloc_frame` of zeos/mm.c has left to give.
use soa_subject.Prelude.{
  ℕ, zero, suc, ◌+◌, ◌<◌, ◌≡◌, refl, ◌⊎◌, inl, inr, ltb, ◌==◌, if◌then◌else◌, update, neg32, arith,
  Bool-cases, false,
}
use soa_subject.Config.{total_pages, num_pag_kernel, free_frame_mark, used_frame_mark}
use soa_subject.Mm.{Memory, alloc_scan, alloc_rounds, alloc_frame}

-- The free ones of the frames that the search from `i` on looks at.
free_from : (rounds i : ℕ) → (ℕ → ℕ) → ℕ
free_from zero i phys = 0
free_from (suc rounds) i phys =
    let rest = free_from rounds (i + 2) phys in
    if ltb i total_pages then (if phys i == free_frame_mark then 1 + rest else rest) else 0

unfoldable pub available : Memory → ℕ
unfolding free_from
available m = free_from alloc_rounds num_pag_kernel m.phys_mem

free_from-update :
    (rounds i j v : ℕ) (phys : ℕ → ℕ)
    → j < i
    → free_from rounds i (update phys j v) ≡ free_from rounds i phys
unfolding free_from
free_from-update zero i j v phys h = refl
free_from-update (suc rounds) i j v phys h =
    ground (arith, free_from-update rounds (i + 2) j v phys)

-- The search leaves what is before its start.
alloc_scan_before :
    (rounds i j : ℕ) (phys : ℕ → ℕ) → j < i → (alloc_scan rounds i phys).1 j ≡ phys j
unfolding alloc_scan
alloc_scan_before zero i j phys h = refl
alloc_scan_before (suc rounds) i j phys h = ground (arith, alloc_scan_before rounds (i + 2) j phys)

-- A search finds a frame exactly if one is free, and then one less is.
alloc_scan-free_from :
    (rounds i : ℕ) (phys : ℕ → ℕ)
    → let (r, phys') = alloc_scan rounds i phys in
      (free_from rounds i phys ≡ 0) × (r ≡ neg32 1)
      ⊎ (free_from rounds i phys' + 1 ≡ free_from rounds i phys) × (r < total_pages)
unfolding alloc_scan free_from
alloc_scan-free_from zero i phys = inl (refl, refl)
alloc_scan-free_from (suc rounds) i phys = elim (Bool-cases (ltb i total_pages)) [
  | inr past ↦ rw past (inl (refl, refl))
  | inl inside ↦ elim (Bool-cases (phys i == free_frame_mark)) [
    | inl free ↦
        rw (inside, free)
          (inr (
            ground (arith, inside, free, free_from-update rounds (i + 2) i used_frame_mark phys),
            ground arith,
          ))
    | inr used ↦
        rw (inside, used)
          (later (alloc_scan-free_from rounds (i + 2) phys)
            (alloc_scan_before rounds (i + 2) i phys (omega arith)) used)
  ]
]
  where
    later :
        let (r, phys') = alloc_scan rounds (i + 2) phys in
        (free_from rounds (i + 2) phys ≡ 0) × (r ≡ neg32 1)
          ⊎ (free_from rounds (i + 2) phys' + 1 ≡ free_from rounds (i + 2) phys) × (r < total_pages)
        → phys' i ≡ phys i
        → (phys i == free_frame_mark) ≡ false
        → (free_from rounds (i + 2) phys ≡ 0) × (r ≡ neg32 1)
          ⊎ ((if phys' i == free_frame_mark
                  then 1 + free_from rounds (i + 2) phys'
                  else free_from rounds (i + 2) phys')
                + 1
              ≡ free_from rounds (i + 2) phys)
            × (r < total_pages)
    later (inl h) e u = inl h
    later (inr h) e u = inr (ground (arith, e, u), h.1)

pub alloc_frame-available :
    (m : Memory)
    → let (r, m') = alloc_frame m in
      (available m ≡ 0) × (r ≡ neg32 1) ⊎ (available m' + 1 ≡ available m) × (r < total_pages)
unfolding alloc_frame available
alloc_frame-available m = alloc_scan-free_from alloc_rounds num_pag_kernel m.phys_mem

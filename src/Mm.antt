-- ===== src/Mm.antt =====
-- zeos/mm.c: physical frames and page tables. A page table is named by its index in
-- `pagusr_table`, which stands for its address shifted right by 12.
pub mod Frames
pub mod Free
use soa_subject.Prelude.{
  ℕ, zero, suc, ◌+◌, ◌*◌, ◌%◌, ◌^◌, ◌&&◌, ltb, ◌==◌, if◌then◌else◌, update, neg32, for_range,
}
use soa_subject.Config.{
  total_pages, num_pag_kernel, num_pag_code, num_pag_data, pag_log_init_code, pag_log_init_data,
  free_frame_mark, used_frame_mark, nr_tasks,
}

-- The bits of a `page_table_entry` that the kernel sets.
pub record Pte : Type 0 where
  pub pbase_addr : ℕ
  pub user : ℕ
  pub rw : ℕ
  pub present : ℕ

-- `.entry = 0`
abbrev pub zero_entry : Pte
zero_entry = record { pbase_addr = 0; user = 0; rw = 0; present = 0 }

abbrev pub PageTable : Type 0
PageTable = ℕ → Pte

-- `phys_mem`, entry `ENTRY_DIR_PAGES` of each of the `dir_pages`, and `pagusr_table`.
pub record Memory : Type 0 where
  pub phys_mem : ℕ → ℕ
  pub dir_pages : ℕ → Pte
  pub pagusr_table : ℕ → PageTable

-- A value stored in the 20 bits of `pbase_addr`.
abbrev pub to_base : ℕ → ℕ
to_base frame = frame % 2 ^ 20

unfoldable pub init_frames : Memory → Memory
init_frames m =
    let free_all = for_range total_pages 0 (λ i f. update f i free_frame_mark) m.phys_mem in
    record m { phys_mem = for_range num_pag_kernel 0 (λ i f. update f i used_frame_mark) free_all }

-- The loop of `alloc_frame` from frame `i` on, with the rounds that are left; it returns the frame
-- or -1.
unfoldable pub alloc_scan : ℕ → ℕ → (ℕ → ℕ) → ℕ × (ℕ → ℕ)
alloc_scan zero i phys = (neg32 1, phys)
alloc_scan (suc rounds) i phys =
    let rest = alloc_scan rounds (i + 2) phys in
    if ltb i total_pages
    then (if phys i == free_frame_mark then (i, update phys i used_frame_mark) else rest)
    else (neg32 1, phys)

-- The rounds that take `i` from `NUM_PAG_KERNEL` past `TOTAL_PAGES` in steps of 2.
abbrev pub alloc_rounds : ℕ
alloc_rounds = 385

unfoldable pub alloc_frame : Memory → ℕ × Memory
alloc_frame m =
    let (frame, phys) = alloc_scan alloc_rounds num_pag_kernel m.phys_mem in
    (frame, record m { phys_mem = phys })

unfoldable pub free_frame : ℕ → Memory → Memory
free_frame frame m =
    if ltb num_pag_kernel frame && ltb frame total_pages
    then record m { phys_mem = update m.phys_mem frame free_frame_mark }
    else m

-- `PT[page]` of the table `pt` set to `e`.
abbrev pub set_entry : (pt page : ℕ) → Pte → Memory → Memory
set_entry pt page e m = record m {
  pagusr_table = update m.pagusr_table pt (update (m.pagusr_table pt) page e);
}

-- The entry that `set_ss_pag` writes.
abbrev pub user_entry : ℕ → Pte
user_entry frame = record { pbase_addr = to_base frame; user = 1; rw = 1; present = 1 }

unfoldable pub set_ss_pag : (pt page frame : ℕ) → Memory → Memory
set_ss_pag pt page frame m = set_entry pt page (user_entry frame) m

unfoldable pub del_ss_pag : (pt page : ℕ) → Memory → Memory
del_ss_pag pt page m = set_entry pt page zero_entry m

unfoldable pub get_frame : (pt page : ℕ) → Memory → ℕ
get_frame pt page m = (m.pagusr_table pt page).pbase_addr

-- `init_dir_pages`: the directory of slot `i` gets the table of slot `i`.
unfoldable pub init_dir_pages : Memory → Memory
init_dir_pages m = record m {
  dir_pages =
      for_range nr_tasks 0
        (λ i d. update d i (record { pbase_addr = to_base i; user = 1; rw = 1; present = 1 }))
        m.dir_pages;
}

-- The table that `init_table_pages` gives every slot. `guard_lo` and `guard_hi` are the pages of
-- `protected_tasks[0]` and `protected_tasks[11]`, where the linker puts them.
unfoldable pub kernel_table : (guard_lo guard_hi : ℕ) → PageTable → PageTable
kernel_table guard_lo guard_hi t =
    let cleared = for_range total_pages 0 (λ i t. update t i zero_entry) t in
    let mapped =
      for_range 255 1
        (λ i t. update t i (record { pbase_addr = to_base i; user = 0; rw = 1; present = 1 }))
        cleared in
    let low = update mapped guard_lo (record (mapped guard_lo) { present = 0 }) in
    update low guard_hi (record (low guard_hi) { present = 0 })

unfoldable pub init_table_pages : (guard_lo guard_hi : ℕ) → Memory → Memory
init_table_pages guard_lo guard_hi m = record m {
  pagusr_table =
      for_range nr_tasks 0 (λ j ts. update ts j (kernel_table guard_lo guard_hi (ts j)))
        m.pagusr_table;
}

-- `set_user_pages`, for the table `pt` of the task: code pages are read-only.
unfoldable pub set_user_pages : ℕ → Memory → Memory
set_user_pages pt m =
    let code =
      for_range num_pag_code 0
        (λ pag m.
          let (frame, m') = alloc_frame m in
          set_entry pt (pag_log_init_code + pag)
            (record { pbase_addr = to_base frame; user = 1; rw = 0; present = 1 }) m')
        m in
    for_range num_pag_data 0
      (λ pag m.
        let (frame, m') = alloc_frame m in
        set_entry pt (pag_log_init_data + pag) (user_entry frame) m')
      code

unfoldable pub free_user_pages : ℕ → Memory → Memory
free_user_pages pt m =
    for_range num_pag_data 0
      (λ pag m.
        set_entry pt (pag_log_init_data + pag) zero_entry
          (free_frame (get_frame pt (pag_log_init_data + pag) m) m))
      m

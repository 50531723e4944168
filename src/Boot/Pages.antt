-- ===== src/Boot/Pages.antt =====
-- The page table of task 1 as the start of the kernel leaves it (zeos/mm.c and zeos/sched.c).
use soa_subject.Prelude.{
  ℕ, ◌+◌, ◌-◌, ◌*◌, ◌/◌, ◌≤◌, ◌<◌, ◌≡◌, ◌≢◌, refl, sym, ap, ◌∙◌, subst, ◌⊎◌, inl, inr, ltb, ◌==◌,
  if◌then◌else◌, update, arith, Bool-cases, ==→≢, update_elim, for_range_inv, for_range,
  for_range_kept, for_range-update,
}
use soa_subject.Config.{
  total_pages, num_pag_kernel, num_pag_code, num_pag_data, pag_log_init_data, nr_tasks,
  free_frame_mark,
}
use soa_subject.Mm.{
  user_entry, Pte, PageTable, Memory, to_base, zero_entry, set_entry, get_frame, alloc_frame,
  kernel_table, init_table_pages, init_frames, init_dir_pages, set_user_pages,
}
use soa_subject.Mm.Frames.{init_frames_lem, Allocated, Exhausted, alloc_frame_lem}
use soa_subject.Kernel.{Kernel, get_pt, get_ticks, allocate_dir}
use soa_subject.Sched.{start_stats}
use soa_subject.Boot.{init_mm, init_freequeue, init_sched, init_idle, init_task1}

-- A guard page keeps its frame.
guarded :
    (t : PageTable) (g i : ℕ)
    → (update t g (record (t g) { present = 0 }) i).pbase_addr ≡ (t i).pbase_addr
guarded t g = update_elim (λ i (e : Pte). e.pbase_addr ≡ (t i).pbase_addr) t g _ refl (λ i _. refl)

-- The table before the guard pages are set.
abbrev mapped : PageTable → PageTable
mapped t =
    for_range 255 1
      (λ i t. update t i (record { pbase_addr = to_base i; user = 0; rw = 1; present = 1 }))
      (for_range total_pages 0 (λ i t. update t i zero_entry) t)

-- The kernel's pages are their own frames.
kernel_table-identity :
    (lo hi : ℕ) (t : PageTable) (i : ℕ)
    → 1 ≤ i
    → i < num_pag_kernel
    → (kernel_table lo hi t i).pbase_addr ≡ i
unfolding kernel_table
kernel_table-identity lo hi t i l h =
    guarded (update (mapped t) lo (record (mapped t lo) { present = 0 })) hi i
    ∙ guarded (mapped t) lo i
    ∙ ap (λ (e : Pte). e.pbase_addr)
        (for_range-update 255 1
          (λ j. record { pbase_addr = to_base j; user = 0; rw = 1; present = 1 })
          (for_range total_pages 0 (λ j t. update t j zero_entry) t) i)
    ∙ ground arith

-- What `init_mm` leaves: directory t has table t, the kernel's pages are their own frames, and the
-- frames behind them are free.
record Initial (m : Memory) : Type 0 where
  pub dirs : (t : ℕ) → t < nr_tasks → (m.dir_pages t).pbase_addr ≡ t
  pub kernel : (t i : ℕ) → t < nr_tasks → 1 ≤ i → i < num_pag_kernel → get_frame t i m ≡ i
  pub free : (f : ℕ) → num_pag_kernel ≤ f → f < total_pages → m.phys_mem f ≡ free_frame_mark

tables-identity :
    (lo hi : ℕ) (m : Memory) (t i : ℕ)
    → t < nr_tasks
    → 1 ≤ i
    → i < num_pag_kernel
    → get_frame t i (init_table_pages lo hi m) ≡ i
unfolding init_table_pages get_frame
tables-identity lo hi m t i lt l h =
    for_range_inv (λ n (ts : ℕ → PageTable). (u : ℕ) → u < n → (ts u i).pbase_addr ≡ i)
      (λ j ts. update ts j (kernel_table lo hi (ts j))) nr_tasks 0 nr_tasks m.pagusr_table refl
      (λ j ts _ _ inv.
        update_elim (λ u (tb : PageTable). u < j + 1 → (tb i).pbase_addr ≡ i) ts j _
          (λ _. kernel_table-identity lo hi (ts j) i l h) (λ u ne b. inv u (omega (arith, ne, b))))
      (λ u b. absurd (omega (arith, b))) t lt

start-Initial :
    (lo hi : ℕ) (m : Memory) → Initial (init_dir_pages (init_frames (init_table_pages lo hi m)))
unfolding init_dir_pages init_frames get_frame
start-Initial lo hi m = record {
  dirs = λ t lt.
      ap (λ (e : Pte). e.pbase_addr)
        (for_range-update nr_tasks 0
          (λ i. record { pbase_addr = to_base i; user = 1; rw = 1; present = 1 }) _ t)
      ∙ ground arith;
  kernel = tables-identity lo hi m;
  free = λ f l h. init_frames_lem (init_table_pages lo hi m) f h ∙ ground arith;
}

-- The first `n` pages of the user have the first `n` frames that `alloc_frame` gives, which are every
-- second one.
pub record Dealt (pt : ℕ) (m0 : Memory) (n : ℕ) (m : Memory) : Type 0 where
  pub pages : (q : ℕ) → q < n → get_frame pt (256 + q) m ≡ 256 + 2 * q
  pub kernel : (i : ℕ) → i < 256 → get_frame pt i m ≡ get_frame pt i m0
  pub dirs : m.dir_pages ≡ m0.dir_pages
  pub used : (q : ℕ) → q < n → m.phys_mem (256 + 2 * q) ≢ free_frame_mark
  pub free : (f : ℕ) → 256 + 2 * n ≤ f → f < total_pages → m.phys_mem f ≡ free_frame_mark

module _ (pt : ℕ) (m0 : Memory) where
  next_frame :
      (n : ℕ) (m : Memory)
      → n < 384
      → Dealt pt m0 n m
      → Allocated m.phys_mem (256 + 2 * n) (alloc_frame m).1.phys_mem
        × ((alloc_frame m).0 ≡ 256 + 2 * n)
  next_frame n m h d = go (alloc_frame_lem m)
    where
      go :
          Allocated m.phys_mem (alloc_frame m).0 (alloc_frame m).1.phys_mem
            ⊎ Exhausted m.phys_mem (alloc_frame m).0 (alloc_frame m).1.phys_mem
          → Allocated m.phys_mem (256 + 2 * n) (alloc_frame m).1.phys_mem
            × ((alloc_frame m).0 ≡ 256 + 2 * n)
      go (inr x) = absurd (
          x.none_free (256 + 2 * n) (omega arith, omega arith, omega arith)
            (d.free (256 + 2 * n) (omega arith) (omega arith)))
      go (inl a) =
          let r = (alloc_frame m).0 in
          let e : r ≡ 256 + 2 * n = elim (Bool-cases (ltb r (256 + 2 * n))) [
            | inl l ↦
                let q = (r - 256) / 2 in
                let back : 256 + 2 * q ≡ r = omega (arith, a.candidate) in
                absurd (d.used q (ground (arith, l, back)) (ap m.phys_mem back ∙ a.was_free))
            | inr l ↦ elim (Bool-cases (ltb (256 + 2 * n) r)) [
              | inl g ↦ absurd (
                  a.first (256 + 2 * n) (omega arith, omega arith, omega arith) (ground (arith, g))
                    (d.free (256 + 2 * n) (omega arith) (omega arith)))
              | inr g ↦ ground (arith, l, g)
            ]
          ] in
          (subst (λ f. Allocated m.phys_mem f (alloc_frame m).1.phys_mem) e a, e)

  frame_after :
      (page i : ℕ) (e : Pte) (m : Memory)
      → get_frame pt i (set_entry pt page e (alloc_frame m).1)
        ≡ (if page == i then e.pbase_addr else get_frame pt i m)
  unfolding get_frame alloc_frame
  frame_after page i e m = ground arith

  -- A round of `set_user_pages`.
  Dealt-next :
      (n : ℕ) (m : Memory) (e : Pte)
      → n < 384
      → e.pbase_addr ≡ to_base (alloc_frame m).0
      → Dealt pt m0 n m
      → Dealt pt m0 (n + 1) (set_entry pt (256 + n) e (alloc_frame m).1)
  Dealt-next n m e h b d =
      let (a, r) = next_frame n m h d in
      let mark = λ (f : ℕ). ap (λ (p : ℕ → ℕ). p f) a.marked in
      let base : e.pbase_addr ≡ 256 + 2 * n = omega (arith, b, r) in
      record {
        pages = λ q l. frame_after (256 + n) (256 + q) e m ∙ elim (Bool-cases (q == n)) [
          | inl t ↦ ground (arith, base, t)
          | inr t ↦ ground (arith, t, d.pages q (omega (arith, l, ==→≢ _ _ t)))
        ];
        kernel = λ i l. frame_after (256 + n) i e m ∙ ground (arith, d.kernel i l);
        dirs = (unfold alloc_frame in d.dirs);
        used = λ q l. elim (Bool-cases (q == n)) [
          | inl t ↦ ground (arith, mark (256 + 2 * q), t)
          | inr t ↦ ground (arith, mark (256 + 2 * q), t, d.used q (omega (arith, l, ==→≢ _ _ t)))
        ];
        free = λ f l k. ground (arith, mark f, d.free f (omega arith) k);
      }

  -- The loops of `set_user_pages`.
  pub set_user_pages-Dealt :
      (m : Memory)
      → Dealt pt m0 0 m
      → Dealt pt m0 (num_pag_code + num_pag_data) (set_user_pages pt m)
  unfolding set_user_pages
  set_user_pages-Dealt m d =
      for_range_inv (λ n s. Dealt pt m0 (num_pag_code + n) s) _ num_pag_data 0 num_pag_data _ refl
        (λ n s l h i.
          subst
            (λ c. Dealt pt m0 c (
              set_entry pt (pag_log_init_data + n) (user_entry (alloc_frame s).0)
                (alloc_frame s).1))
            (let e : num_pag_code + n + 1 ≡ num_pag_code + (n + 1) = omega arith in e)
            (subst
              (λ p.
                Dealt pt m0 (num_pag_code + n + 1)
                  (set_entry pt p (user_entry (alloc_frame s).0) (alloc_frame s).1))
              (let e : 256 + (num_pag_code + n) ≡ pag_log_init_data + n = omega arith in e)
              (Dealt-next (num_pag_code + n) s _ (omega arith) refl i)))
        (for_range_inv (Dealt pt m0) _ num_pag_code 0 num_pag_code m refl
          (λ n s l h i. Dealt-next n s _ (omega arith) refl i) d)

-- `init_sched` and `init_idle` do not touch the memory, and none of the steps the frames' contents.
record SameMemory (k k' : Kernel) : Type 0 where
  pub tables : k'.mm ≡ k.mm
  pub contents : k'.ram ≡ k.ram

init_sched-SameMemory : (k : Kernel) → SameMemory k (init_sched k)
unfolding init_sched init_freequeue
init_sched-SameMemory k = record {
  tables = for_range_kept (λ (s : Kernel). s.mm ≡ k.mm) _ (λ i s e. e) nr_tasks 0 _ refl;
  contents = for_range_kept (λ (s : Kernel). s.ram ≡ k.ram) _ (λ i s e. e) nr_tasks 0 _ refl;
}

init_idle-SameMemory : (k : Kernel) → SameMemory k (init_idle k)
unfolding init_idle start_stats get_ticks allocate_dir
init_idle-SameMemory k = record { tables = refl; contents = refl }

init_task1-memory :
    (k : Kernel)
    → let k' = init_task1 k in
      let c = k'.cpu.esp0 in
      (k'.mm ≡ set_user_pages (k.mm.dir_pages c).pbase_addr k.mm)
      × (k'.cpu.cr3 ≡ c)
      × (k'.ram ≡ k.ram)
unfolding init_task1 start_stats get_ticks allocate_dir get_pt
init_task1-memory k = (ground arith, ground arith, refl)

-- A table in which the kernel's pages are their own frames, and the 28 user's pages have frames of
-- their own behind them.
pub record Placed (pt : ℕ) (m : Memory) : Type 0 where
  pub kernel : (i : ℕ) → 1 ≤ i → i < 256 → get_frame pt i m ≡ i
  pub user : (q : ℕ) → q < 28 → get_frame pt (256 + q) m ≡ 256 + 2 * q

module _ (lo hi : ℕ) (k : Kernel) where
  abbrev pub prepared : Kernel
  prepared = init_task1 (init_idle (init_sched (init_mm lo hi k)))

  before : Kernel
  before = init_idle (init_sched (init_mm lo hi k))

  before-Initial : Initial before.mm
  unfolding before init_mm allocate_dir
  before-Initial =
      subst Initial
        (sym (
          (init_idle-SameMemory (init_sched (init_mm lo hi k))).tables
          ∙ (init_sched-SameMemory (init_mm lo hi k)).tables))
        (start-Initial lo hi k.mm)

  pub prepared_ram : prepared.ram ≡ k.ram
  unfolding init_mm allocate_dir
  prepared_ram =
      (init_task1-memory (init_idle (init_sched (init_mm lo hi k)))).2
      ∙ (init_idle-SameMemory (init_sched (init_mm lo hi k))).contents
      ∙ (init_sched-SameMemory (init_mm lo hi k)).contents

  -- The directory in CR3 is that of task 1, if that is the task which is started.
  pub prepared-Placed :
      prepared.cpu.esp0 ≡ 1 → Placed (prepared.mm.dir_pages prepared.cpu.cr3).pbase_addr prepared.mm
  unfolding before
  prepared-Placed one =
      let i = before-Initial in
      let t = init_task1-memory before in
      let table : (before.mm.dir_pages prepared.cpu.esp0).pbase_addr ≡ 1 =
        ap (λ c. (before.mm.dir_pages c).pbase_addr) one ∙ i.dirs 1 (omega arith) in
      let d : Dealt 1 before.mm 28 prepared.mm =
        subst (Dealt 1 before.mm 28) (sym (t.0 ∙ ap (λ pt. set_user_pages pt before.mm) table))
          (set_user_pages-Dealt 1 before.mm before.mm (nothing_dealt 1 before.mm i.free)) in
      let at : (prepared.mm.dir_pages prepared.cpu.cr3).pbase_addr ≡ 1 =
        ap (λ (f : ℕ → Pte). (f prepared.cpu.cr3).pbase_addr) d.dirs
        ∙ ap (λ c. (before.mm.dir_pages c).pbase_addr) t.1
        ∙ table in
      subst (λ pt. Placed pt prepared.mm) (sym at)
        (record { kernel = λ j l h. d.kernel j h ∙ i.kernel 1 j (omega arith) l h; user = d.pages })
    where
      nothing_dealt :
          (pt : ℕ) (m : Memory)
          → ((f : ℕ) → num_pag_kernel ≤ f → f < total_pages → m.phys_mem f ≡ free_frame_mark)
          → Dealt pt m 0 m
      nothing_dealt pt m free = record {
        pages = λ q l. absurd (omega (arith, l));
        kernel = λ j l. refl;
        dirs = refl;
        used = λ q l. absurd (omega (arith, l));
        free = λ f l h. free f (omega arith) h;
      }

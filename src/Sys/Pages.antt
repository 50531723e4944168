-- ===== src/Sys/Pages.antt =====
-- `alloc_k`, `dealloc_k` and the system calls over them (zeos/sys.c).
pub mod Alloc
pub mod Dealloc
use soa_subject.Prelude.{
  ℕ, zero, suc, ◌+◌, ◌-◌, ◌*◌, ◌/◌, ◌%◌, ◌^◌, Bool, ltb, leb, ◌||◌, ◌==◌, if◌then◌else◌, neg32,
  Option, none, some,
}
use soa_subject.Config.{total_pages, first_free_page, enomem, eacces, efault}
use soa_subject.Mm.{Memory, alloc_frame, free_frame, set_ss_pag, del_ss_pag, get_frame}
use soa_subject.Kernel.{Kernel, Outcome, returned, get_pt, set_cr3}

-- The loop that looks for a logical page with no frame, from page `i` on with the rounds left.
unfoldable pub find_page : (rounds i pt : ℕ) → Memory → Option ℕ
find_page zero i pt m = none
find_page (suc rounds) i pt m =
    let rest = find_page rounds (i + 1) pt m in if get_frame pt i m == 0 then some i else rest

abbrev pub page_rounds : ℕ
page_rounds = total_pages - first_free_page

-- What `alloc_k` does once the search has ended.
unfoldable pub alloc_at : Option ℕ → (pt : ℕ) → Memory → ℕ × Memory
alloc_at none pt m = (neg32 enomem, m)
alloc_at (some lpage) pt m =
    let (frame, m') = alloc_frame m in
    if frame == neg32 1 then (neg32 enomem, m') else (lpage * 2 ^ 12, set_ss_pag pt lpage frame m')

unfoldable pub alloc_k : Kernel → ℕ × Kernel
unfolding alloc_at
alloc_k k =
    let pt = get_pt k.current k in
    let (r, m) = alloc_at (find_page page_rounds first_free_page pt k.mm) pt k.mm in
    (r, record k { mm = m })

unfoldable pub sys_alloc : Kernel → Kernel × Outcome
unfolding alloc_k
sys_alloc k = let (r, k') = alloc_k k in (k', returned r)

unfoldable pub dealloc_k : (lpage : ℕ) → Kernel → ℕ × Kernel
dealloc_k lpage k =
    if ltb lpage first_free_page || leb total_pages lpage
    then (neg32 eacces, k)
    else (let pt = get_pt k.current k in
        let frame = get_frame pt lpage k.mm in
        if frame == 0 then (neg32 efault, k) else (
          0,
          set_cr3 (k.tasks k.current).dir
              (record k { mm = del_ss_pag pt lpage (free_frame frame k.mm) }),
        ))

unfoldable pub sys_dealloc : (address : ℕ) → Kernel → Kernel × Outcome
unfolding dealloc_k
sys_dealloc address k = let (r, k') = dealloc_k (address / 2 ^ 12) k in (k', returned r)

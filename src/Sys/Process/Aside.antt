-- ===== src/Sys/Process/Aside.antt =====
-- `sys_fork` of zeos/sys.c: what the filling of the child's memory leaves alone.
use soa_subject.Prelude.{ℕ, ◌+◌, ◌≡◌, ◌≢◌, refl, inl, inr, ◌⊎◌, arith, for_range_kept}
use soa_subject.Config.{num_pag_kernel, num_pag_code, num_pag_data, pag_log_init_code}
use soa_subject.Mm.{Memory, set_ss_pag, del_ss_pag, get_frame}
use soa_subject.Kernel.{Kernel, get_pt}
use soa_subject.Sys.Process.{fork_memory, share_pages, copy_pages}

-- What the copying of mappings and pages leaves alone: the byte map, and the tables other than the
-- two.
pub record Aside (pt pp : ℕ) (m m' : Memory) : Type 0 where
  pub map_kept : m'.phys_mem ≡ m.phys_mem
  pub others : (t i : ℕ) → t ≢ pt → t ≢ pp → get_frame t i m' ≡ get_frame t i m

module _ (pt pp : ℕ) (m : Memory) where
  Aside-set :
      (t page frame : ℕ) (s : Memory)
      → (t ≡ pt) ⊎ (t ≡ pp)
      → Aside pt pp m s
      → Aside pt pp m (set_ss_pag t page frame s)
  unfolding set_ss_pag get_frame
  Aside-set t page frame s h a = record {
    map_kept = a.map_kept;
    others = λ u i n p. ground (arith, h, a.others u i n p);
  }

  Aside-del : (page : ℕ) (s : Memory) → Aside pt pp m s → Aside pt pp m (del_ss_pag pp page s)
  unfolding del_ss_pag get_frame
  Aside-del page s a = record {
    map_kept = a.map_kept;
    others = λ u i n p. ground (arith, a.others u i n p);
  }

  share_pages-Aside :
      (n first : ℕ) (s : Memory) → Aside pt pp m s → Aside pt pp m (share_pages n first pp pt s)
  unfolding share_pages
  share_pages-Aside n first s a =
      for_range_kept (Aside pt pp m) _
        (λ pag t b. Aside-set pt (first + pag) (get_frame pp (first + pag) t) t (inl refl) b) n 0 s
        a

  copy_pages-Aside : (k : Kernel) → Aside pt pp m k.mm → Aside pt pp m (copy_pages pp pt k).mm
  unfolding copy_pages
  copy_pages-Aside k a =
      for_range_kept (λ (s : Kernel). Aside pt pp m s.mm) _
        (λ pag s b.
          Aside-del (pag + num_pag_data) _
            (Aside-set pp (pag + num_pag_data) (get_frame pt pag s.mm) s.mm (inr refl) b))
        num_pag_data (num_pag_kernel + num_pag_code) k a

pub fork_memory-Aside :
    (c : ℕ) (k : Kernel) → Aside (get_pt c k) (get_pt k.current k) k.mm (fork_memory c k).mm
unfolding fork_memory
fork_memory-Aside c k =
    let pt = get_pt c k in
    let pp = get_pt k.current k in
    copy_pages-Aside pt pp k.mm _ (
      share_pages-Aside pt pp k.mm num_pag_code pag_log_init_code _ (
        share_pages-Aside pt pp k.mm num_pag_kernel 0 k.mm
          (record { map_kept = refl; others = λ t i n p. refl })))

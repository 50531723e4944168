-- ===== src/Sys/Process/Copy.antt =====
-- What `sys_fork` of zeos/sys.c does to the memory of parent and child.
use soa_subject.Prelude.{
  ℕ, ◌+◌, ◌^◌, ◌≤◌, ◌<◌, ◌≡◌, ◌≢◌, refl, sym, ap, ap₂, ◌∙◌, subst, ltb, leb, ◌&&◌, ◌==◌,
  if◌then◌else◌, update, for_range_inv, arith, Bool-cases, ==→≡, ==→≢, inl, inr, update_self,
  update_ne,
}
use soa_subject.Config.{num_pag_kernel, num_pag_code, num_pag_data}
use soa_subject.Mm.{Memory, set_ss_pag, del_ss_pag, get_frame}
use soa_subject.Kernel.{Kernel}
use soa_subject.Sys.Process.{share_pages, copy_page, copy_pages, with_mm}

-- A mapping, read back.
module _ (pt page : ℕ) (m : Memory) where
  pub get_frame-set :
      (frame t i : ℕ)
      → frame < 2 ^ 20
      → get_frame t i (set_ss_pag pt page frame m)
        ≡ (if (pt == t) && (page == i) then frame else get_frame t i m)
  unfolding get_frame set_ss_pag
  get_frame-set frame t i h = ground arith

  pub get_frame-del :
      (t i : ℕ)
      → get_frame t i (del_ss_pag pt page m)
        ≡ (if (pt == t) && (page == i) then 0 else get_frame t i m)
  unfolding get_frame del_ss_pag
  get_frame-del t i = ground arith

module _ (pt pp : ℕ) (apart : pt ≢ pp) (m0 : Memory)
    (narrow : (i : ℕ) → get_frame pp i m0 < 2 ^ 20) where
  -- The child's pages from `first` up to `last` are the parent's, the others are those of `m`; the
  -- parent has what it had.
  unfoldable pub Shares : (first last : ℕ) (m m' : Memory) → Type 0
  Shares first last m m' =
      ((i : ℕ)
        → get_frame pt i m'
          ≡ (if leb first i && ltb i last then get_frame pp i m0 else get_frame pt i m))
      × ((i : ℕ) → get_frame pp i m' ≡ get_frame pp i m0)

  share_step :
      (first k : ℕ) (m s : Memory)
      → Shares first (first + k) m s
      → Shares first (first + (k + 1)) m (set_ss_pag pt (first + k) (get_frame pp (first + k) s) s)
  unfolding Shares
  share_step first k m s (child, parent) =
      let frame = get_frame pp (first + k) s in
      let same : frame ≡ get_frame pp (first + k) m0 = parent (first + k) in
      let small : frame < 2 ^ 20 = omega (arith, same, narrow (first + k)) in
      (
        λ i. get_frame-set pt (first + k) s frame pt i small ∙ elim (Bool-cases (first + k == i)) [
          | inl e ↦
              let at : first + k ≡ i = ==→≡ _ _ e in
              let moved = ap (λ j. get_frame pp j m0) at in ground (arith, e, at, same, moved)
          | inr e ↦ ground (arith, ==→≢ _ _ e, child i)
        ],
        λ i. get_frame-set pt (first + k) s frame pp i small ∙ ground (arith, apart, parent i),
      )

  pub share_pages-Shares :
      (n first : ℕ) (m : Memory)
      → ((i : ℕ) → get_frame pp i m ≡ get_frame pp i m0)
      → Shares first (first + n) m (share_pages n first pp pt m)
  unfolding share_pages
  share_pages-Shares n first m parent =
      for_range_inv (λ k. Shares first (first + k) m)
        (λ pag m. set_ss_pag pt (first + pag) (get_frame pp (first + pag) m) m) n 0 n m
        (omega arith) (λ k s lo hi inv. share_step first k m s inv)
        (unfold Shares in (λ i. ground arith, parent))

-- A page of the user's data.
abbrev pub IsData : ℕ → Type 0
IsData i = (264 ≤ i) × (i < 284)

module _ (pt pp : ℕ) (apart : pt ≢ pp) (k0 : Kernel)
    (narrow : (i : ℕ) → get_frame pt i k0.mm < 2 ^ 20)
    (own : (i j : ℕ) → IsData i → IsData j → i ≢ j → get_frame pt i k0.mm ≢ get_frame pt j k0.mm)
    (foreign : (i j : ℕ) → IsData i → IsData j → get_frame pt i k0.mm ≢ get_frame pp j k0.mm) where
  -- When the loop has come to page `pag`: the data behind it is copied, and the parent has lost the
  -- pages through which it was.
  pub record Copied (pag : ℕ) (k : Kernel) : Type 0 where
    pub child : (i : ℕ) → get_frame pt i k.mm ≡ get_frame pt i k0.mm
    pub parent :
        (i : ℕ)
        → get_frame pp i k.mm ≡ (if leb 284 i && ltb i (pag + 20) then 0 else get_frame pp i k0.mm)
    pub copied :
        (j : ℕ) → 264 ≤ j → j < pag → k.ram (get_frame pt j k0.mm) ≡ k0.ram (get_frame pp j k0.mm)
    pub kept :
        (f : ℕ) → ((j : ℕ) → 264 ≤ j → j < pag → f ≢ get_frame pt j k0.mm) → k.ram f ≡ k0.ram f
    pub tasks : k.tasks ≡ k0.tasks

  copy_body : ℕ → Kernel → Kernel
  copy_body pag k =
      let mapped = with_mm (set_ss_pag pp (pag + num_pag_data) (get_frame pt pag k.mm)) k in
      with_mm (del_ss_pag pp (pag + num_pag_data)) (copy_page pp pag (pag + num_pag_data) mapped)

  module _ (pag : ℕ) (k : Kernel) (lo : 264 ≤ pag) (hi : pag < 284) (c : Copied pag k) where
    small : get_frame pt pag k.mm < 2 ^ 20
    small = omega (arith, c.child pag, narrow pag)

    mapped_mm : Memory
    mapped_mm = set_ss_pag pp (pag + 20) (get_frame pt pag k.mm) k.mm

    mapped_lem :
        (t i : ℕ)
        → get_frame t i mapped_mm
          ≡ (if (pp == t) && (pag + 20 == i) then get_frame pt pag k.mm else get_frame t i k.mm)
    unfolding mapped_mm
    mapped_lem t i = get_frame-set pp (pag + 20) k.mm (get_frame pt pag k.mm) t i small

    to_frame : get_frame pp (pag + 20) mapped_mm ≡ get_frame pt pag k0.mm
    to_frame = mapped_lem pp (pag + 20) ∙ ground (arith, c.child pag)

    from_frame : get_frame pp pag mapped_mm ≡ get_frame pp pag k0.mm
    from_frame = mapped_lem pp pag ∙ ground (arith, c.parent pag)

    body_ram :
        (copy_body pag k).ram
        ≡ update k.ram (get_frame pp (pag + 20) mapped_mm) (k.ram (get_frame pp pag mapped_mm))
    unfolding copy_body mapped_mm
    body_ram = refl

    body_mm : (copy_body pag k).mm ≡ del_ss_pag pp (pag + 20) mapped_mm
    unfolding copy_body mapped_mm
    body_mm = refl

    body_tasks : (copy_body pag k).tasks ≡ k.tasks
    unfolding copy_body
    body_tasks = refl

    frame_lem :
        (t i : ℕ)
        → get_frame t i (copy_body pag k).mm
          ≡ (if (pp == t) && (pag + 20 == i) then 0 else get_frame t i k.mm)
    frame_lem t i =
        ap (get_frame t i) body_mm
        ∙ get_frame-del pp (pag + 20) mapped_mm t i
        ∙ ground (arith, mapped_lem t i)

    ram_lem :
        (copy_body pag k).ram
        ≡ update k.ram (get_frame pt pag k0.mm) (k.ram (get_frame pp pag k0.mm))
    ram_lem = body_ram ∙ ap₂ (λ a b. update k.ram a (k.ram b)) to_frame from_frame

    -- The parent's page has not been written.
    source_kept : k.ram (get_frame pp pag k0.mm) ≡ k0.ram (get_frame pp pag k0.mm)
    source_kept =
        c.kept (get_frame pp pag k0.mm) (λ j l h e. foreign j pag (l, omega arith) (lo, hi) (sym e))

    copy_step : Copied (pag + 1) (copy_body pag k)
    copy_step = record {
      child = λ i. frame_lem pt i ∙ ground (arith, apart, c.child i);
      parent = λ i. frame_lem pp i ∙ ground (arith, c.parent i);
      copied = λ j l h. ap (λ r. r (get_frame pt j k0.mm)) ram_lem ∙ elim (Bool-cases (pag == j)) [
        | inl e ↦
            let at = ==→≡ _ _ e in
            subst
              (λ i.
                update k.ram (get_frame pt pag k0.mm) (k.ram (get_frame pp pag k0.mm))
                  (get_frame pt i k0.mm)
                ≡ k0.ram (get_frame pp i k0.mm))
              at (update_self k.ram (get_frame pt pag k0.mm) _ ∙ source_kept)
        | inr e ↦
            let ne = ==→≢ _ _ e in
            update_ne k.ram (get_frame pt pag k0.mm) _ (get_frame pt j k0.mm)
              (own pag j (lo, hi) (l, omega arith) ne)
            ∙ c.copied j l (omega (arith, ne))
      ];
      kept = λ f out.
          ap (λ r. r f) ram_lem
          ∙ update_ne k.ram (get_frame pt pag k0.mm) _ f (λ e. out pag lo (omega arith) (sym e))
          ∙ c.kept f (λ j l h. out j l (omega arith));
      tasks = body_tasks ∙ c.tasks;
    }

  pub copy_pages-Copied : Copied 284 (copy_pages pp pt k0)
  unfolding copy_pages copy_body
  copy_pages-Copied =
      for_range_inv Copied copy_body num_pag_data (num_pag_kernel + num_pag_code) 284 k0 refl
        (λ pag k lo hi c. copy_step pag k lo hi c)
        (record {
          child = λ i. refl;
          parent = λ i. ground arith;
          copied = λ j l h. absurd (omega arith);
          kept = λ f out. refl;
          tasks = refl;
        })

-- ===== src/Boot/User.antt =====
-- The user's program after the start: the copy of zeos/system.c and the image of zeos/build.c.
use soa_subject.Prelude.{
  ℕ, ◌+◌, ◌-◌, ◌*◌, ◌/◌, ◌%◌, ◌^◌, ◌≤◌, ◌<◌, ◌≡◌, sym, ap, ◌∙◌, subst, ◌⊎◌, none, some, arith, inl,
  inr,
}
use soa_subject.Config.{page_size, kernel_start, ph_user_start, l_user_start}
use soa_subject.Mm.{Memory}
use soa_subject.Kernel.{Kernel}
use soa_subject.Boot.Queues.{main-Booted}
use soa_subject.Image.{File, Output, image, check_boot, build}
use soa_subject.Image.Headers.{IsImage, long_at, build-IsImage}
use soa_subject.Boot.Pages.{Placed, prepared, prepared_ram, prepared-Placed}
use soa_subject.Boot.Copied.{copy_logical-Copied}
use soa_subject.Boot.{Ram, load8, load32, copy_logical, load_user, main}

-- The `n` bytes of the image behind the sector are in memory from `KERNEL_START` on.
abbrev pub InMemory : ℕ → Output → Ram → Type 0
InMemory n o ram =
    (q : ℕ)
    → q < n
    → ram ((kernel_start + q) / page_size) ((kernel_start + q) % page_size) ≡ o.bytes (512 + q)

module _ (pt : ℕ) (m : Memory) (p : Placed pt m) (ram : Ram) (o : Output) (n : ℕ)
    (there : InMemory n o ram) (fits : kernel_start + n ≤ 2 ^ 20) where
  image_at : (q : ℕ) → q < n → load8 pt (kernel_start + q) m ram ≡ o.bytes (512 + q)
  unfolding load8
  image_at q l =
      ap (λ f. ram f ((kernel_start + q) % page_size))
        (p.kernel ((kernel_start + q) / page_size) (omega arith) (omega arith))
      ∙ there q l

  image_near : (q i : ℕ) → q + i < n → load8 pt (kernel_start + q + i) m ram ≡ o.bytes (512 + q + i)
  image_near q i l =
      ap (λ a. load8 pt a m ram)
        (let e : kernel_start + q + i ≡ kernel_start + (q + i) = omega arith in e)
      ∙ image_at (q + i) l
      ∙ ap o.bytes (let e : 512 + (q + i) ≡ 512 + q + i = omega arith in e)

  size_at : (q : ℕ) → q + 4 ≤ n → load32 pt (kernel_start + q) m ram ≡ long_at o.bytes (512 + q)
  unfolding load32 long_at
  size_at q l = omega (
    arith,
    image_at q (omega arith),
    image_near q 1 (omega arith),
    image_near q 2 (omega arith),
    image_near q 3 (omega arith),
  )

module _ (lo hi : ℕ) (k : Kernel) where
  -- What `load_user` makes of the prepared state, by the sizes that it finds.
  loaded_ram :
      (s u : ℕ)
      → let p = prepared lo hi k in
        let pt = (p.mm.dir_pages p.cpu.cr3).pbase_addr in
        load32 pt kernel_start p.mm p.ram ≡ s
        → load32 pt (kernel_start + 4) p.mm p.ram ≡ u
        → (main lo hi k).ram ≡ copy_logical (u + 1) u pt (kernel_start + s) ph_user_start p.mm p.ram
  unfolding main load_user
  loaded_ram s u es eu = rw (es, eu)

  -- The start of the kernel with a disk image of zeos/build.c in memory, the part of it behind the
  -- sector from `KERNEL_START` on: if the image fits below the user's pages, the program has no more
  -- than 28 pages and no semaphore is in use at first, then task 1 finds the bytes of the program in
  -- its pages from `L_USER_START` on.
  pub main-loads :
      ((s : ℕ) → (k.list_sem s).is_init ≡ 0)
      → (boot sys usr : File) → check_boot boot ≡ none
      → 12 ≤ sys.size
      → kernel_start + (sys.size + usr.size) ≤ 2 ^ 20
      → usr.size ≤ 28 * page_size
      → (o : Output) → build 4 (some boot) (some sys) (some usr) ≡ image o
      → InMemory (sys.size + usr.size) o k.ram
      → (q : ℕ) → q < usr.size
      → let k' = main lo hi k in
        load8 (k'.mm.dir_pages k'.cpu.cr3).pbase_addr (l_user_start + q) k'.mm k'.ram ≡ usr.bytes q
  unfolding main load_user
  main-loads z boot sys usr passed room fits pages o made there q l =
      ap (load8 pt (l_user_start + q) p.mm) (
        loaded_ram sys.size usr.size
          (size_at pt p.mm pl p.ram o _ here fits 0 (omega arith) ∙ img.system_size)
          (size_at pt p.mm pl p.ram o _ here fits 4 (omega arith) ∙ img.user_size))
      ∙ copy_logical-Copied pt p.mm pl (usr.size + 1) usr.size (kernel_start + sys.size)
          ph_user_start p.ram (omega arith) (omega arith) (omega (arith, fits))
          (omega (arith, pages)) (l_user_start + q) (omega (arith, pages, l))
      ∙ ground (arith, l, from_image (img.user q))
    where
      p : Kernel
      p = prepared lo hi k

      pt : ℕ
      pt = (p.mm.dir_pages p.cpu.cr3).pbase_addr

      pl : Placed pt p.mm
      pl = prepared-Placed lo hi k (main-Booted lo hi k z).current

      img : IsImage boot sys usr o
      img =
          let r = build-IsImage boot sys usr passed room (omega (arith, fits)) in
          let same : r.0 ≡ o = cc (sym r.1 ∙ made) in subst (IsImage boot sys usr) same r.2

      here : InMemory (sys.size + usr.size) o p.ram
      here = subst (InMemory (sys.size + usr.size) o) (sym (prepared_ram lo hi k)) there

      from_image :
          (usr.size ≤ q) ⊎ (o.bytes (512 + long_at o.bytes 512 + q) ≡ usr.bytes q)
          → load8 pt (kernel_start + sys.size + (l_user_start + q - ph_user_start)) p.mm p.ram
            ≡ usr.bytes q
      from_image (inl far) = absurd (omega (arith, far, l))
      from_image (inr e) =
          ap (λ a. load8 pt a p.mm p.ram)
            (let at : kernel_start + sys.size + (l_user_start + q - ph_user_start)
                  ≡ kernel_start + (sys.size + q) =
                omega arith in
              at)
          ∙ image_at pt p.mm pl p.ram o (sys.size + usr.size) here fits (sys.size + q)
              (omega (arith, l))
          ∙ ap o.bytes (
              let at : 512 + (sys.size + q) ≡ 512 + long_at o.bytes 512 + q =
                omega (arith, img.system_size) in
              at)
          ∙ e

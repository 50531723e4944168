-- ===== src/Image.antt =====
-- The builder of the disk image (zeos/build.c). A file is what `fstat` and `read` give of it; that
-- writing to the output fails is left out.
pub mod Parts
pub mod Headers
use soa_subject.Prelude.{
  ℕ, zero, suc, ◌+◌, ◌-◌, ◌/◌, ◌%◌, ◌*◌, ◌^◌, Bool, not, ltb, leb, ◌&&◌, ◌||◌, ◌==◌, if◌then◌else◌,
  Option, none, some, List, [], ◌∷◌, update,
}

pub record File : Type 0 where
  pub size : ℕ
  pub bytes : ℕ → ℕ

-- The standard output: a regular file, with the place where the next `write` goes.
pub record Output : Type 0 where
  pub place : ℕ
  pub length : ℕ
  pub bytes : ℕ → ℕ

-- The calls of `die`.
pub data Failure : Type 0 where
  usage unable_to_open unable_to_read_header non_minix illegal_data illegal_bss illegal_symbols :
      Failure
  boot_not_512 no_boot_flag : Failure

pub data Built : Type 0 where
  image : Output → Built
  died : Failure → Built

-- `write(1, buf, l)` and `lseek(1, at, SEEK_SET)`
unfoldable pub write : (buf : ℕ → ℕ) → (l : ℕ) → Output → Output
write buf l o = record {
  place = o.place + l;
  length = if ltb o.length (o.place + l) then o.place + l else o.length;
  bytes = λ p. if leb o.place p && ltb p (o.place + l) then buf (p - o.place) else o.bytes p;
}

abbrev pub lseek : ℕ → Output → Output
lseek at o = record o { place = at }

-- `lb[k]`
abbrev long_word : (k : ℕ) → (ℕ → ℕ) → ℕ
long_word k buf =
    buf (4 * k) + buf (4 * k + 1) * 2 ^ 8 + buf (4 * k + 2) * 2 ^ 16 + buf (4 * k + 3) * 2 ^ 24

-- `memcmp(buf, hdr, sizeof(hdr))` is 0.
unfoldable pub begins : (hdr : List ℕ) → (at : ℕ) → (ℕ → ℕ) → Bool
begins [] at buf = Bool.true
begins (c ∷ hdr) at buf = (buf at == c) && begins hdr (at + 1) buf

abbrev pub minix_header : List ℕ
minix_header = 0x01 ∷ 0x03 ∷ 0x10 ∷ 0x04 ∷ 0x20 ∷ 0x00 ∷ 0x00 ∷ 0x00 ∷ []

-- What `minix_open` finds wrong with the file.
unfoldable pub minix_open : File → Option Failure
minix_open f =
    if ltb f.size 32
    then some unable_to_read_header
    else if not (begins minix_header 0 f.bytes) || not (long_word 5 f.bytes == 0)
    then some non_minix
    else if not (long_word 3 f.bytes == 0)
    then some illegal_data
    else if not (long_word 4 f.bytes == 0)
    then some illegal_bss
    else if not (long_word 7 f.bytes == 0)
    then some illegal_symbols
    else none

-- The first failure of two checks.
unfoldable pub or_else : Option Failure → Option Failure → Option Failure
or_else none second = second
or_else (some e) second = some e

-- The checks on the boot sector, which stands behind the header.
unfoldable pub check_boot : File → Option Failure
unfolding minix_open or_else
check_boot f =
    let i = if ltb 1024 (f.size - 32) then 1024 else f.size - 32 in
    or_else (minix_open f) (
      if not (i == 512)
      then some boot_not_512
      else if not (f.bytes (32 + 510) == 0x55) || not (f.bytes (32 + 511) == 0xaa)
      then some no_boot_flag
      else none)

-- The loop that copies `sz` bytes of a file, from its byte `at` on, through `buf`, with fuel.
unfoldable pub copy_file : (fuel : ℕ) → File → (at sz : ℕ) → Output → Output
unfolding write
copy_file zero f at sz o = o
copy_file (suc fuel) f at sz o =
    let l = if ltb 1024 sz then 1024 else sz in
    let rest = copy_file fuel f (at + l) (sz - l) (write (λ p. f.bytes (at + p)) l o) in
    if ltb 0 sz then rest else o

-- The four bytes that hold a size.
unfoldable pub size_bytes : ℕ → ℕ → ℕ
size_bytes n p =
    if p == 0
    then n % 2 ^ 8
    else if p == 1
    then n / 2 ^ 8 % 2 ^ 8
    else if p == 2
    then n / 2 ^ 16 % 2 ^ 8
    else 0

abbrev pub empty_output : Output
empty_output = record { place = 0; length = 0; bytes = λ _. 0 }

-- The boot sector with the root device, and the two files behind it; a size is an `unsigned int`.
unfoldable pub write_parts : (boot sys usr : File) → Output
unfolding write copy_file
write_parts boot sys usr =
    let sector = update (update (λ p. boot.bytes (32 + p)) 508 0) 509 0 in
    let sys_size = sys.size % 2 ^ 32 in
    let usr_size = usr.size % 2 ^ 32 in
    copy_file usr_size usr 0 usr_size
      (copy_file sys_size sys 0 sys_size (write sector 512 empty_output))

-- The sizes, written into the sector and over the start of the system.
unfoldable pub write_sizes : (sys_size usr_size : ℕ) → Output → Output
unfolding write size_bytes
write_sizes sys_size usr_size o =
    let im_size = (sys_size + usr_size + 15) % 2 ^ 32 / 16 in
    let o1 = write (size_bytes im_size) 2 (lseek 500 o) in
    let o2 = write (size_bytes sys_size) 4 (lseek 512 o1) in
    let o3 = write (size_bytes usr_size) 4 (lseek 516 o2) in
    write (size_bytes 0x7E1A) 4 (lseek 520 o3)

-- What `main` does behind the checks on the boot sector: each file is opened when its turn comes;
-- nothing that is written before a failure is kept.
unfoldable pub build_from :
    (checked : Option Failure) → (boot : File) → (sys usr : Option File) → Built
unfolding write_parts write_sizes
build_from (some e) boot sys usr = died e
build_from none boot none usr = died unable_to_open
build_from none boot (some s) none = died unable_to_open
build_from none boot (some s) (some u) =
    image (write_sizes (s.size % 2 ^ 32) (u.size % 2 ^ 32) (write_parts boot s u))

-- `main` with `argc` arguments, the last three of which name files that exist or not.
unfoldable pub build : (argc : ℕ) → (boot sys usr : Option File) → Built
unfolding check_boot build_from
build argc none sys usr = died (if not (argc == 4) then usage else unable_to_open)
build argc (some b) sys usr =
    if not (argc == 4) then died usage else build_from (check_boot b) b sys usr

-- ===== src/Tests/Images.antt =====
-- A disk image, and the kernel that starts from it.
use soa_subject.Prelude.{
  ℕ, ◌+◌, ◌-◌, ◌*◌, ◌/◌, ◌%◌, ◌≡◌, refl, ap, none, ◌==◌, if◌then◌else◌, arith,
}
use soa_subject.Config.{page_size, kernel_start, l_user_start}
use soa_subject.Image.{File, Output, check_boot, begins}
use soa_subject.Image.Headers.{build-IsImage}
use soa_subject.Kernel.{Kernel}
use soa_subject.Boot.{Ram, load8, main}
use soa_subject.Boot.User.{InMemory, main-loads}
use soa_subject.Tests.{blank}

-- A sector with its header and its flag.
abbrev boot : File
boot = record {
  size = 544;
  bytes = λ p.
      if p == 0
      then 0x01
      else if p == 1
      then 0x03
      else if p == 2
      then 0x10
      else if p == 3
      then 0x04
      else if p == 4
      then 0x20
      else if p == 542
      then 0x55
      else if p == 543
      then 0xAA
      else 0;
}

abbrev sys : File
sys = record { size = 3000; bytes = λ p. p }

abbrev usr : File
usr = record { size = 700; bytes = λ p. p + 7 }

passes : check_boot boot ≡ none
unfolding check_boot begins
passes = refl

-- The image in memory behind the address at which the kernel starts.
abbrev contents : Output → Ram
contents o frame offset = o.bytes (512 + (frame * page_size + offset - kernel_start))

contents_lem : (o : Output) → InMemory (sys.size + usr.size) o (contents o)
contents_lem o q l = ap o.bytes (
    let a : ℕ = kernel_start + q in
    let e : 512 + (a / page_size * page_size + a % page_size - kernel_start) ≡ 512 + q =
      omega arith in
    e)

abbrev built : Output
built = (build-IsImage boot sys usr passes (omega arith) (omega arith)).0

abbrev loaded : Kernel
loaded = record blank { ram = contents built }

main-loads_example :
    let k' = main 18 29 loaded in
    load8 (k'.mm.dir_pages k'.cpu.cr3).pbase_addr (l_user_start + 5) k'.mm k'.ram ≡ usr.bytes 5
main-loads_example =
    main-loads 18 29 loaded (λ s. refl) boot sys usr passes (omega arith) (omega arith)
      (omega arith) built (build-IsImage boot sys usr passes (omega arith) (omega arith)).1
      (contents_lem built) 5 (omega arith)

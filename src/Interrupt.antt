-- ===== src/Interrupt.antt =====
-- The interrupt routines of zeos/interrupt.c.
use soa_subject.Prelude.{ℕ, ◌-◌, ◌%◌, leb, ◌==◌, if◌then◌else◌, add32, List, [], ◌∷◌}
use soa_subject.Config.{buff_size}
use soa_subject.Console.{Console}
use soa_subject.Ring.{Ring, write}
use soa_subject.Kernel.{Kernel, Outcome}
use soa_subject.Sched.{schedule}

-- The bytes of `char_map`, by scan code.
abbrev pub char_map : List ℕ
char_map =
    0 ∷ 0 ∷ 49 ∷ 50 ∷ 51 ∷ 52 ∷ 53 ∷ 54 ∷ 55 ∷ 56 ∷ 57 ∷ 48 ∷ 39 ∷ 0 ∷ 0 ∷ 0 ∷ 113 ∷ 119 ∷ 101 ∷ 114
    ∷ 116 ∷ 121 ∷ 117 ∷ 105 ∷ 111 ∷ 112 ∷ 96 ∷ 43 ∷ 0 ∷ 0 ∷ 97 ∷ 115 ∷ 100 ∷ 102 ∷ 103 ∷ 104 ∷ 106
    ∷ 107 ∷ 108 ∷ 0 ∷ 0 ∷ 0 ∷ 0 ∷ 0 ∷ 122 ∷ 120 ∷ 99 ∷ 118 ∷ 98 ∷ 110 ∷ 109 ∷ 44 ∷ 46 ∷ 45 ∷ 0 ∷ 42
    ∷ 0 ∷ 0 ∷ 0 ∷ 0 ∷ 0 ∷ 0 ∷ 0 ∷ 0 ∷ 0 ∷ 0 ∷ 0 ∷ 0 ∷ 0 ∷ 0 ∷ 0 ∷ 55 ∷ 56 ∷ 57 ∷ 45 ∷ 52 ∷ 53 ∷ 54
    ∷ 43 ∷ 49 ∷ 50 ∷ 51 ∷ 48 ∷ 0 ∷ 0 ∷ 0 ∷ 60 ∷ 0 ∷ 0 ∷ 0 ∷ 0 ∷ 0 ∷ 0 ∷ 0 ∷ 0 ∷ 0 ∷ 0 ∷ 0 ∷ []

-- The element `i`, or what `beyond` gives of the memory behind the array.
unfoldable pub get_elem : List ℕ → ℕ → (beyond : ℕ → ℕ) → ℕ
get_elem [] i beyond = beyond i
get_elem (c ∷ l) i beyond = let rest = get_elem l (i - 1) beyond in if i == 0 then c else rest

-- `write_to_buffer` of zeos/io.c
unfoldable pub write_to_buffer : ℕ → Ring → Ring
unfolding write
write_to_buffer c r = write buff_size c r

-- `c` is the byte that `inb(0x60)` reads; bit 7 is set when a key is let go. `beyond` is the memory
-- behind `char_map`.
unfoldable pub keyboard_routine : (c : ℕ) → (beyond : ℕ → ℕ) → Kernel → Kernel
unfolding get_elem write_to_buffer
keyboard_routine c beyond k =
    if leb 0x80 c
    then record k { keys = write_to_buffer (get_elem char_map (c % 0x80) beyond) k.keys }
    else k

-- `zeos_show_clock` is in the library that the kernel is linked with: it draws on the console.
unfoldable pub clock_routine : (zeos_show_clock : ℕ → Console → Console) → Kernel → Kernel × Outcome
unfolding schedule
clock_routine zeos_show_clock k =
    let shown = record k { console = zeos_show_clock k.zeos_ticks k.console } in
    schedule (record shown { zeos_ticks = add32 shown.zeos_ticks 1 })

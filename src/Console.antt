-- ===== src/Console.antt =====
-- The text screen of zeos/io.c and zeos/devices.c: video memory at 0xb8000, the cursor, and the
-- debug port 0xe9 that every printed character goes to.
pub mod Dump
pub mod Cursor
use Prim.Native.Nat.{bit_and, bit_or}
use soa_subject.Prelude.{
  ℕ, suc, ◌+◌, ◌-◌, ◌*◌, ◌%◌, ◌^◌, ◌==◌, ltb, leb, if◌then◌else◌, update, for_range, List, [], ◌∷◌,
  ◌++◌,
}
use soa_subject.Config.{num_columns, num_rows}

-- `x` and `y` are bytes; a cell of `screen` is a `Word`, its colour above its character.
pub record Console : Type 0 where
  pub x : ℕ
  pub y : ℕ
  pub screen : ℕ → ℕ
  pub port_e9 : List ℕ

abbrev pub newline : ℕ
newline = 10

-- The assignments to `x` and `y` for a line feed.
abbrev pub next_line : Console → Console
next_line c = record c { x = 0; y = (c.y + 1) % num_rows }

-- A cell written at the cursor, and the cursor moved on. `++x` is on a byte.
abbrev pub put_cell : ℕ → Console → Console
put_cell cell c =
    let x' = (c.x + 1) % 256 in
    let shown = update c.screen (c.y * num_columns + c.x) cell in
    if leb num_columns x'
    then record c { screen = shown; x = 0; y = (c.y + 1) % num_rows }
    else record c { screen = shown; x = x' }

abbrev pub log_char : ℕ → Console → Console
log_char ch c = record c { port_e9 = c.port_e9 ++ (ch ∷ []) }

-- A `char` is its byte here.
unfoldable pub printc : ℕ → Console → Console
printc ch c =
    let logged = log_char ch c in
    if ch == newline then next_line logged else put_cell (bit_or (bit_and ch 0x00FF) 0x0200) logged

unfoldable pub printc_xy : (mx my ch : ℕ) → Console → Console
printc_xy mx my ch c =
    let done = printc ch (record c { x = mx; y = my }) in record done { x = c.x; y = c.y }

-- `string` up to its terminating 0.
unfoldable pub printk : List ℕ → Console → Console
printk [] c = c
printk (ch ∷ string) c = let rest = printk string (printc ch c) in if ch == 0 then c else rest

-- `cc & 0x00FF` is written `% 256`.
unfoldable pub printcc : ℕ → Console → Console
printcc cc c =
    let ch = cc % 256 in
    let logged = log_char ch c in if ch == newline then next_line logged else put_cell cc logged

unfoldable pub printcc_xy : (mx my cc : ℕ) → Console → Console
printcc_xy mx my cc c =
    let done = printcc cc (record c { x = mx; y = my }) in record done { x = c.x; y = c.y }

-- The two loops of `sys_dump_screen` (zeos/sys.c) over the matrix `address`, row by row.
unfoldable pub dump_row : (address : ℕ → ℕ) → (i : ℕ) → Console → Console
dump_row address i c =
    for_range num_columns 0 (λ j d. printcc_xy j i (address (i * num_columns + j)) d) c

unfoldable pub dump_matrix : (address : ℕ → ℕ) → Console → Console
unfolding dump_row
dump_matrix address c = for_range num_rows 0 (λ i d. dump_row address i d) c

-- zeos/devices.c; the result is `size`.
unfoldable pub sys_write_console : (buffer : ℕ → ℕ) → (size : ℕ) → Console → ℕ × Console
sys_write_console buffer size c = (size, for_range size 0 (λ i d. printc (buffer i) d) c)

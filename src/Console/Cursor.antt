-- ===== src/Console/Cursor.antt =====
-- The cursor of zeos/io.c stays on the screen, and no character is written outside of it.
use soa_subject.Prelude.{ℕ, ◌*◌, ◌<◌, ◌≤◌, ◌≡◌, arith, for_range_inv, refl, ◌∙◌}
use soa_subject.Config.{num_columns, num_rows}
use soa_subject.Console.{Console, printc, printcc, sys_write_console}

pub record IsOnScreen (c : Console) : Type 0 where
  pub x_lt : c.x < num_columns
  pub y_lt : c.y < num_rows

-- What `d` shows beyond the screen's cells is what `c` shows there.
abbrev pub SameBeyond : Console → Console → Type 0
SameBeyond c d = (k : ℕ) → num_rows * num_columns ≤ k → d.screen k ≡ c.screen k

pub printc_lem :
    (ch : ℕ) (c : Console) → IsOnScreen c → IsOnScreen (printc ch c) × SameBeyond c (printc ch c)
unfolding printc
printc_lem ch c v = (ground arith, λ k h. ground arith)

pub printcc_lem :
    (cc : ℕ) (c : Console) → IsOnScreen c → IsOnScreen (printcc cc c) × SameBeyond c (printcc cc c)
unfolding printcc
printcc_lem cc c v = (ground arith, λ k h. ground arith)

-- Any text that is printed leaves the cursor on the screen, writes no cell beyond it, and
-- `sys_write_console` answers with the size that it was given.
pub sys_write_console_lem :
    (buffer : ℕ → ℕ) (size : ℕ) (c : Console)
    → IsOnScreen c
    → let (r, d) = sys_write_console buffer size c in (r ≡ size) × IsOnScreen d × SameBeyond c d
unfolding sys_write_console
sys_write_console_lem buffer size c v =
    let (on, same) =
      for_range_inv (λ i d. IsOnScreen d × SameBeyond c d) (λ i d. printc (buffer i) d) size 0 size
        c (omega arith)
        (λ k t a b p. let (w, s) = printc_lem (buffer k) t p.0 in (w, λ j h. s j h ∙ p.1 j h))
        (v, λ k h. refl) in
    (refl, on, same)

-- ===== src/Console/Dump.antt =====
-- `sys_dump_screen`'s loops: what the screen shows afterwards.
use soa_subject.Prelude.{
  ℕ, suc, ◌+◌, ◌*◌, ◌%◌, ◌<◌, ◌≡◌, ◌==◌, if◌then◌else◌, arith, ltb, for_range_inv, refl, ap, ◌∙◌,
  ◌&&◌, not,
}
use soa_subject.Config.{num_columns, num_rows}
use soa_subject.Console.{Console, newline, printcc, printcc_xy, dump_row, dump_matrix}

-- Cell `k` after the first `n` shorts of the matrix are drawn: a short whose character is a line
-- feed draws nothing.
abbrev pub Drawn : (ℕ → ℕ) → Console → ℕ → Console → Type 0
Drawn address c n d =
    (d.x ≡ c.x)
    × (d.y ≡ c.y)
    × ((k : ℕ)
        → d.screen k
          ≡ (if ltb k n && not (address k % 256 == newline) then address k else c.screen k))

printcc_xy_lem :
    (address : ℕ → ℕ) (c d : Console) (i j : ℕ)
    → i < num_rows
    → j < num_columns
    → Drawn address c (i * num_columns + j) d
    → Drawn address c (i * num_columns + suc j) (printcc_xy j i (address (i * num_columns + j)) d)
unfolding printcc_xy printcc
printcc_xy_lem address c d i j hi hj p = (p.0, p.1, λ k. ground (arith, p.2 k))

dump_row_lem :
    (address : ℕ → ℕ) (c d : Console) (i : ℕ)
    → i < num_rows
    → Drawn address c (i * num_columns) d
    → Drawn address c (suc i * num_columns) (dump_row address i d)
unfolding dump_row
dump_row_lem address c d i hi p =
    let q =
      for_range_inv (λ j e. Drawn address c (i * num_columns + j) e)
        (λ j e. printcc_xy j i (address (i * num_columns + j)) e) num_columns 0 num_columns d
        (omega arith)
        (λ j e a b r.
          let s = printcc_xy_lem address c e i j hi b r in
          (s.0, s.1, λ k. s.2 k ∙ ap (λ n. shown n k) (omega arith)))
        (p.0, p.1, λ k. p.2 k ∙ ap (λ n. shown n k) (omega arith)) in
    (q.0, q.1, λ k. q.2 k ∙ ap (λ n. shown n k) (omega arith))
  where
    shown : ℕ → ℕ → ℕ
    shown n k = if ltb k n && not (address k % 256 == newline) then address k else c.screen k

-- After the loops the screen shows the matrix, but that a short whose character is a line feed
-- leaves its cell; the cursor is where it was and no other cell has changed.
pub dump_matrix_lem :
    (address : ℕ → ℕ) (c : Console)
    → let d = dump_matrix address c in
      (d.x ≡ c.x)
      × (d.y ≡ c.y)
      × ((k : ℕ)
          → d.screen k ≡ (
              if ltb k (num_rows * num_columns) && not (address k % 256 == newline)
              then address k
              else c.screen k))
unfolding dump_matrix
dump_matrix_lem address c =
    for_range_inv (λ i d. Drawn address c (i * num_columns) d) (λ i d. dump_row address i d)
      num_rows 0 num_rows c (omega arith)
      (λ i d a b p.
        let q = dump_row_lem address c d i b p in
        (
          q.0,
          q.1,
          λ k.
              q.2 k
              ∙ ap
                  (λ n.
                    (if ltb k n && not (address k % 256 == newline) then address k else c.screen k))
                  (omega arith),
        ))
      (refl, refl, λ k. ground arith)

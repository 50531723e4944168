-- ===== src/Game/Screen/Cells.antt =====
-- What is seen in a frame that `board_to_screen` of zeos/user.c has drawn.
use soa_subject.Prelude.{
  ℕ, zero, suc, ◌+◌, ◌-◌, ◌*◌, ◌/◌, ◌%◌, ◌≤◌, ◌<◌, ◌≡◌, refl, ap₂, ◌∙◌, Bool-cases, ==→≡, ==→≢, inl,
  inr, Bool, true, ltb, leb, ◌&&◌, ◌==◌, if◌then◌else◌, update, for_range, for_range_inv, arith,
}
use soa_subject.Config.{num_rows, num_columns}
use soa_subject.Ring.{Ring, pending_frames}
use soa_subject.Libc.{stos, itoa, put_digits, swap_digits}
use soa_subject.Game.{Game}
use soa_subject.Game.Screen.{
  Matrix, Meter, compute_fps, glyph, first_char, put_chars, put_two, put_header, put_board,
  board_to_screen,
}

-- The frame when the loops have come to place `n`.
abbrev Filled : (g : Game) (m : Matrix) (n : ℕ) → Matrix → Type 0
Filled g m n f =
    (p : ℕ) → f p ≡ (if leb 80 p && ltb p n then glyph (g.board (p / 80) (p % 80)) else m p)

row-Filled :
    (g : Game) (m f : Matrix) (i : ℕ)
    → 1 ≤ i
    → Filled g m (80 * i) f
    → Filled g m
        (80 * (i + 1))
        (for_range num_columns 0 (λ j f. update f (num_columns * i + j) (glyph (g.board i j))) f)
row-Filled g m f i le inv p =
    for_range_inv (λ j. Filled g m (80 * i + j))
      (λ j f. update f (num_columns * i + j) (glyph (g.board i j))) num_columns 0 80 f refl
      (λ j t lo hi inv' q. cell_lem j t hi inv' q) start p
    ∙ ground arith
  where
    cell_lem :
        (j : ℕ) (t : Matrix)
        → j < 80
        → Filled g m (80 * i + j) t
        → Filled g m (80 * i + (j + 1)) (update t (num_columns * i + j) (glyph (g.board i j)))
    cell_lem j t hi inv' q = elim (Bool-cases (num_columns * i + j == q)) [
      | inl e ↦
          let at : 80 * i + j ≡ q = ==→≡ _ _ e in
          let row : i ≡ q / 80 = omega (arith, at) in
          let column : j ≡ q % 80 = omega (arith, at) in
          let here : glyph (g.board i j) ≡ glyph (g.board (q / 80) (q % 80)) =
            ap₂ (λ r c. glyph (g.board r c)) row column in
          rw e (here ∙ ground (arith, at))
      | inr e ↦ rw e (inv' q ∙ ground (arith, ==→≢ _ _ e))
    ]

    start : Filled g m (80 * i + 0) f
    start q = inv q ∙ ground arith

put_board_cells : (g : Game) (m : Matrix) → Filled g m 2000 (put_board g m)
unfolding put_board
put_board_cells g m =
    for_range_inv (λ i. Filled g m (80 * i))
      (λ i f.
        for_range num_columns 0 (λ j f. update f (num_columns * i + j) (glyph (g.board i j))) f)
      (num_rows - 1) 1 25 m refl (λ i f lo hi inv. row-Filled g m f i lo inv) (λ p. ground arith)

-- The loops write nothing in the first line.
put_board_above : (g : Game) (m : Matrix) (p : ℕ) → p < 80 → put_board g m p ≡ m p
put_board_above g m p h = put_board_cells g m p ∙ ground arith

all_below : ℕ → (ℕ → Bool) → Bool
all_below zero p = true
all_below (suc n) p = p n && all_below n p

all_below_lem : (n : ℕ) (p : ℕ → Bool) (x : ℕ) → all_below n p ≡ true → x < n → p x ≡ true
unfolding all_below
all_below_lem zero p x h lt = absurd (omega arith)
all_below_lem (suc n) p x h lt = ground (arith, all_below_lem n p x)

digit_table : all_below 10 (λ x. first_char x == x + b'0') ≡ true
unfolding all_below first_char itoa put_digits swap_digits for_range
digit_table = refl

digit_lem : (x : ℕ) → x < 10 → first_char x ≡ x + b'0'
digit_lem x lt = ==→≡ _ _ (all_below_lem 10 (λ x. first_char x == x + b'0') x digit_table lt)

-- The number that two places show.
pub shown : (o : ℕ) → Matrix → ℕ
shown o m = (m o % 256 - b'0') * 10 + (m (o + 1) % 256 - b'0')

put_two-shown : (color o v : ℕ) (m : Matrix) → v < 100 → shown o (put_two color o v m) ≡ v
unfolding shown put_two stos
put_two-shown color o v m h =
    ground (arith, digit_lem (v / 10) (omega arith), digit_lem (v % 10) (omega arith))

-- Where the numbers of the first line stand.
module _ (y : ℕ) (s : Meter) (r : Ring) (m : Matrix) where
  header_ship : shown 2 (put_header y s r m) ≡ shown 2 (put_two 6 2 y m)
  unfolding shown put_header put_two put_chars
  header_ship = refl

  header_fps : shown 14 (put_header y s r m) ≡ shown 14 (put_two 4 14 s.fps m)
  unfolding shown put_header put_two put_chars
  header_fps = refl

  header_pfd : shown 21 (put_header y s r m) ≡ shown 21 (put_two 12 21 s.pfd m)
  unfolding shown put_header put_two put_chars
  header_pfd = refl

  header_head : shown 29 (put_header y s r m) ≡ shown 29 (put_two 12 29 r.head m)
  unfolding shown put_header put_two put_chars
  header_head = refl

  header_tail : shown 37 (put_header y s r m) ≡ shown 37 (put_two 12 37 r.tail m)
  unfolding shown put_header put_two put_chars
  header_tail = refl

  header_below : (q : ℕ) → put_header y s r m (80 + q) ≡ m (80 + q)
  unfolding put_header put_two put_chars
  header_below q = ground arith

shown-put_board : (g : Game) (m : Matrix) (o : ℕ) → o < 79 → shown o (put_board g m) ≡ shown o m
unfolding shown
shown-put_board g m o h =
    ap₂ (λ a b. (a % 256 - b'0') * 10 + (b % 256 - b'0')) (put_board_above g m o (omega arith))
      (put_board_above g m (o + 1) (omega arith))

pending_frames_small : (r : Ring) → r.head < 64 → r.tail < 64 → pending_frames r < 100
unfolding pending_frames
pending_frames_small r h t = ground arith

cells_lem :
    (g : Game) (top m : Matrix) (q : ℕ)
    → top (80 + q) ≡ m (80 + q)
    → (if leb 80 (80 + q) && ltb (80 + q) 2000
        then glyph (g.board ((80 + q) / 80) ((80 + q) % 80))
        else top (80 + q))
      ≡ (if ltb q 1920 then glyph (g.board (1 + q / 80) (q % 80)) else m (80 + q))
cells_lem g top m q e =
    let row : (80 + q) / 80 ≡ 1 + q / 80 = omega arith in
    let column : (80 + q) % 80 ≡ q % 80 = omega arith in
    let same = ap₂ (λ i j. glyph (g.board i j)) row column in ground (arith, same, e)

-- The frame shows the board and the state.
pub record Shows (g : Game) (r : Ring) (meter : Meter) (before frame : Matrix) : Type 0 where
  pub cells :
      (q : ℕ)
      → frame (80 + q)
        ≡ (if ltb q 1920 then glyph (g.board (1 + q / 80) (q % 80)) else before (80 + q))
  pub ship_column : shown 2 frame ≡ g.y_ship
  pub rate : shown 14 frame ≡ meter.fps
  pub waiting : shown 21 frame ≡ pending_frames r
  pub head : shown 29 frame ≡ r.head
  pub tail : shown 37 frame ≡ r.tail

-- If the ship's column and the rate of frames have two digits and the indices of the buffer are in
-- its range, the frame that is drawn shows each cell of rows 1 to 24 of the board by its word, in
-- the place of the cell, and the five numbers of the first line are the column, the rate, the
-- frames that wait and the two indices; no word behind the 2000 of the frame changes.
pub board_to_screen-Shows :
    (ticks : ℕ) (g : Game) (r : Ring) (m : Matrix) (s : Meter)
    → g.y_ship < 100
    → (compute_fps ticks s).fps < 100
    → r.head < 64
    → r.tail < 64
    → Shows g r (board_to_screen ticks g r m s).1 m (board_to_screen ticks g r m s).0
unfolding board_to_screen
board_to_screen-Shows ticks g r m s hy hf hh ht =
    let meter = record (compute_fps ticks s) { pfd = pending_frames r } in
    let top = put_header g.y_ship meter r m in
    record {
      cells = λ q.
          put_board_cells g top (80 + q) ∙ cells_lem g top m q (header_below g.y_ship meter r m q);
      ship_column =
          shown-put_board g top 2 (omega arith)
          ∙ header_ship g.y_ship meter r m
          ∙ put_two-shown 6 2 g.y_ship m hy;
      rate =
          shown-put_board g top 14 (omega arith)
          ∙ header_fps g.y_ship meter r m
          ∙ put_two-shown 4 14 meter.fps m hf;
      waiting =
          shown-put_board g top 21 (omega arith)
          ∙ header_pfd g.y_ship meter r m
          ∙ put_two-shown 12 21 meter.pfd m (pending_frames_small r hh ht);
      head =
          shown-put_board g top 29 (omega arith)
          ∙ header_head g.y_ship meter r m
          ∙ put_two-shown 12 29 r.head m (omega arith);
      tail =
          shown-put_board g top 37 (omega arith)
          ∙ header_tail g.y_ship meter r m
          ∙ put_two-shown 12 37 r.tail m (omega arith);
    }

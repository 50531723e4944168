-- ===== src/Game/Screen.antt =====
-- What the game shows (zeos/user.c): the frame that `board_to_screen` draws, as 2000 words.
pub mod Cells
use soa_subject.Prelude.{
  ℕ, zero, suc, ◌+◌, ◌-◌, ◌*◌, ◌/◌, ◌%◌, leb, ◌==◌, if◌then◌else◌, update, for_range, List, [], ◌∷◌,
  sub32,
}
use soa_subject.Config.{num_rows, num_columns}
use soa_subject.Ring.{Ring, pending_frames}
use soa_subject.Libc.{itoa, stos}
use soa_subject.Game.{Cell, Game}

-- The pointer to a frame: a word for each place.
abbrev pub Matrix : Type 0
Matrix = ℕ → ℕ

-- `fps`, `ticks_prveis`, `total_frames` and `pfd`.
pub record Meter : Type 0 where
  pub fps : ℕ
  pub ticks_prveis : ℕ
  pub total_frames : ℕ
  pub pfd : ℕ

-- `compute_fps` when `gettime` answers `ticks`, which does not go back.
unfoldable pub compute_fps : (ticks : ℕ) → Meter → Meter
compute_fps ticks s =
    if leb 18 (ticks - s.ticks_prveis)
    then record s { ticks_prveis = ticks; fps = s.total_frames; total_frames = 0 }
    else s

-- The words for the objects on the board: `alien`, `ship` and so on.
abbrev pub alien_word : ℕ
alien_word = 0x0A00 + b'w'

abbrev pub ship_word : ℕ
ship_word = 0x0900 + b'x'

abbrev pub shield_word : ℕ
shield_word = 0x0800 + b'o'

abbrev pub alien_shoot_word : ℕ
alien_shoot_word = 0x0E00 + b't'

abbrev pub ship_shoot_word : ℕ
ship_shoot_word = 0x0C00 + b'i'

abbrev pub wall_word : ℕ
wall_word = 0x1000

unfoldable pub glyph : Cell → ℕ
glyph c =
    if c.alien == 1
    then alien_word
    else if c.wall == 1
    then wall_word
    else if c.ship == 1
    then ship_word
    else if c.shield == 1
    then shield_word
    else if c.alien_shoot == 1
    then alien_shoot_word
    else if c.ship_shoot == 1
    then ship_shoot_word
    else 0

-- The character that `itoa(x, &cent)` leaves in `cent`.
unfoldable pub first_char : ℕ → ℕ
first_char x = itoa x 0 (λ _. 0) 0

-- The text, one `stos` after the other from place `o` on.
unfoldable pub put_chars : (color o : ℕ) → List ℕ → Matrix → Matrix
put_chars color o [] m = m
put_chars color o (c ∷ cs) m = put_chars color (o + 1) cs (update m o (stos c color))

-- The two statements that write a number below 100.
unfoldable pub put_two : (color o v : ℕ) → Matrix → Matrix
put_two color o v m =
    update (update m o (stos (first_char (v / 10)) color)) (o + 1)
      (stos (first_char (v % 10)) color)

-- The first line.
unfoldable pub put_header : (y_ship : ℕ) → Meter → Ring → Matrix → Matrix
put_header y_ship s r m =
    let m1 = put_two 6 2 y_ship (put_chars 7 1 (b':' ∷ []) (put_chars 6 0 (b'x' ∷ []) m)) in
    let m2 =
      put_chars 6 7 (b'2' ∷ b'2' ∷ []) (put_chars 7 6 (b':' ∷ []) (put_chars 6 5 (b'y' ∷ []) m1)) in
    let m3 =
      put_two 4 14 s.fps
        (put_chars 7 13 (b':' ∷ []) (put_chars 4 10 (b'f' ∷ b'p' ∷ b's' ∷ []) m2)) in
    let m4 =
      put_two 12 21 s.pfd
        (put_chars 7 20 (b':' ∷ []) (put_chars 12 17 (b'p' ∷ b'f' ∷ b'd' ∷ []) m3)) in
    let m5 =
      put_two 12 29 r.head
        (put_chars 7 28 (b':' ∷ []) (put_chars 12 24 (b'h' ∷ b'e' ∷ b'a' ∷ b'd' ∷ []) m4)) in
    put_two 12 37 r.tail
      (put_chars 7 36 (b':' ∷ []) (put_chars 12 32 (b't' ∷ b'a' ∷ b'i' ∷ b'l' ∷ []) m5))

-- The loops over the board.
unfoldable pub put_board : Game → Matrix → Matrix
put_board g m =
    for_range (num_rows - 1) 1
      (λ i m.
        for_range num_columns 0 (λ j m. update m (num_columns * i + j) (glyph (g.board i j))) m)
      m

-- `board_to_screen(matrix)`; `compute_fps` and `pending_frames` come before their numbers.
unfoldable pub board_to_screen : (ticks : ℕ) → Game → Ring → Matrix → Meter → Matrix × Meter
board_to_screen ticks g r m s =
    let s1 = compute_fps ticks s in
    let s2 = record s1 { pfd = pending_frames r } in (put_board g (put_header g.y_ship s2 r m), s2)

-- The text that `game_win` and `game_over` write over row 13.
abbrev pub banner_place : ℕ
banner_place = num_columns * 13 + 36

abbrev pub banner_color : ℕ
banner_color = 0xC0 + 0xF

unfoldable pub put_win : Matrix → Matrix
put_win m =
    put_chars banner_color banner_place (b'Y' ∷ b'O' ∷ b'U' ∷ b' ' ∷ b'W' ∷ b'I' ∷ b'N' ∷ []) m

unfoldable pub put_over : Matrix → Matrix
put_over m =
    put_chars banner_color banner_place
      (b'G' ∷ b'A' ∷ b'M' ∷ b'E' ∷ b' ' ∷ b'O' ∷ b'V' ∷ b'E' ∷ b'R' ∷ []) m

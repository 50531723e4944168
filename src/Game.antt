-- ===== src/Game.antt =====
-- The game of zeos/user.c: its board and its other globals.
pub mod Fleet
pub mod Ship
pub mod Shoots
pub mod Kept
pub mod Screen
pub mod Picture
pub mod Welcome
pub mod Frames
pub mod Play
use soa_subject.Prelude.{
  ℕ, ◌+◌, ◌-◌, ◌*◌, ◌/◌, ◌%◌, Bool, not, ltb, leb, ◌&&◌, ◌||◌, ◌==◌, if◌then◌else◌, update,
  for_range,
}
use soa_subject.Config.{num_rows, num_columns}

-- `cell`
pub record Cell : Type 0 where
  pub alien : ℕ
  pub alien_shoot : ℕ
  pub shield : ℕ
  pub ship : ℕ
  pub ship_shoot : ℕ
  pub wall : ℕ

abbrev pub Board : Type 0
Board = ℕ → ℕ → Cell

-- The globals that change, but the buffer of frames. `x_ship` and `dead_zone` are constants.
pub record Game : Type 0 where
  pub board : Board
  pub lose : ℕ
  pub win : ℕ
  pub x_aliens : ℕ
  pub y_aliens : ℕ
  pub y_ship : ℕ
  pub move_right : ℕ
  pub move_left : ℕ
  pub move_down : ℕ
  pub last_shoot : ℕ
  pub shoot_pointer : ℕ
  pub t0 : ℕ

abbrev pub x_ship : ℕ
x_ship = num_rows - 2

abbrev pub dead_zone : ℕ
dead_zone = 19

abbrev pub empty_cell : Cell
empty_cell = record { alien = 0; alien_shoot = 0; shield = 0; ship = 0; ship_shoot = 0; wall = 0 }

-- The globals as they are initialised.
abbrev pub new_game : Game
new_game = record {
  board = λ i j. empty_cell;
  lose = 0;
  win = 0;
  x_aliens = 3;
  y_aliens = 2;
  y_ship = num_columns / 2;
  move_right = 1;
  move_left = 0;
  move_down = 0;
  last_shoot = 3;
  shoot_pointer = 1;
  t0 = 0;
}

-- An assignment to `board[i][j]`.
abbrev pub set_cell : ℕ → ℕ → (Cell → Cell) → Board → Board
set_cell i j f b = update b i (update (b i) j (f (b i j)))

abbrev pub with_cell : ℕ → ℕ → (Cell → Cell) → Game → Game
with_cell i j f g = record g { board = set_cell i j f g.board }

abbrev pub set_alien : ℕ → Cell → Cell
set_alien v c = record c { alien = v }

abbrev pub set_alien_shoot : ℕ → Cell → Cell
set_alien_shoot v c = record c { alien_shoot = v }

abbrev pub set_shield : ℕ → Cell → Cell
set_shield v c = record c { shield = v }

abbrev pub set_ship : ℕ → Cell → Cell
set_ship v c = record c { ship = v }

abbrev pub set_ship_shoot : ℕ → Cell → Cell
set_ship_shoot v c = record c { ship_shoot = v }

abbrev pub set_wall : ℕ → Cell → Cell
set_wall v c = record c { wall = v }

unfoldable pub is_wall : ℕ → ℕ → Bool
is_wall i j =
    (i == 1)
    || (i == num_rows - 1)
    || (((j == 0) || (j == 1)) && not (i == 0))
    || (((j == num_columns - 1) || (j == num_columns - 2)) && not (i == 0))

-- The assignments for the ship.
unfoldable pub put_ship : (i j : ℕ) → Board → Board
put_ship i j b = set_cell i (j + 2) (set_ship 1) (
    set_cell i (j - 2) (set_ship 1) (
      set_cell i (j + 1) (set_ship 1) (
        set_cell i (j - 1) (set_ship 1)
          (set_cell (i - 1) j (set_ship 1) (set_cell i j (set_ship 1) b)))))

-- The five statements in the body of the loops of `init_board`, in their order.
unfoldable pub draw_wall : (i j : ℕ) → Board → Board
draw_wall i j b = if is_wall i j then set_cell i j (set_wall 1) b else b

unfoldable pub draw_ship : Game → (i j : ℕ) → Board → Board
draw_ship g i j b = if (i == x_ship) && (j == g.y_ship) then put_ship i j b else b

unfoldable pub draw_outer_alien : Game → (i j : ℕ) → Board → Board
draw_outer_alien g i j b =
    if ((i == g.x_aliens) || (i == g.x_aliens + 4))
      && (leb g.y_aliens j && (j % 2 == 0) && ltb j 52)
    then set_cell i j (set_alien 1) b
    else b

unfoldable pub draw_middle_alien : Game → (i j : ℕ) → Board → Board
draw_middle_alien g i j b =
    if (i == g.x_aliens + 2) && leb g.y_aliens j && (j % 2 == 1) && ltb j 51
    then set_cell i j (set_alien 1) b
    else b

unfoldable pub draw_shield : (i j : ℕ) → Board → Board
draw_shield i j b =
    if ((ltb 9 j && ltb j (9 * 2))
        || (ltb (9 * 3) j && ltb j (9 * 4))
        || (ltb (9 * 5) j && ltb j (9 * 6))
        || (ltb (9 * 7) j && ltb j (9 * 8)))
      && ((i == dead_zone) || (i == dead_zone - 1))
    then set_cell i j (set_shield 1) b
    else b

unfoldable pub init_cell : Game → (i j : ℕ) → Board → Board
init_cell g i j b =
    draw_shield i j
      (draw_middle_alien g i j (draw_outer_alien g i j (draw_ship g i j (draw_wall i j b))))

unfoldable pub init_board : Game → Game
init_board g = record g {
  board =
      for_range num_rows 0 (λ i b. for_range num_columns 0 (λ j b. init_cell g i j b) b) g.board;
}

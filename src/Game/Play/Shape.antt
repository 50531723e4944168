-- ===== src/Game/Play/Shape.antt =====
-- The ship of zeos/user.c on the board: six cells, and `y_ship` says where.
use soa_subject.Prelude.{
  ℕ, ◌+◌, ◌-◌, ◌≡◌, refl, ltb, ◌==◌, ◌&&◌, ◌||◌, if◌then◌else◌, List, arith, Bool-cases, inl, inr,
  for_range, for_range_inv, ◌∙◌,
}
use soa_subject.Config.{num_rows, num_columns}
use soa_subject.Game.{
  Game, Board, new_game, init_board, init_cell, draw_wall, draw_ship, draw_outer_alien,
  draw_middle_alien, draw_shield, put_ship, is_wall, set_ship, set_cell,
}
use soa_subject.Game.Play.{Turn, play}
use soa_subject.Game.Play.Kept.{play_kept}
use soa_subject.Game.Play.Outline.{
  is_ship, shape, HasShip, HasShip-ShotsKeep, press-HasShip, move_aliens-HasShip,
}

-- The rows and columns that `init_board` has passed.
abbrev passed : (row k i j : ℕ) → ℕ
passed row k i j = if ltb 23 row || (row == 23 && ltb 40 k) then shape 40 i j else 0

abbrev Drawn : (row k : ℕ) → Board → Type 0
Drawn row k b = (i j : ℕ) → (b i j).ship ≡ passed row k i j

-- What does not touch the ship.
abbrev SameShips : (b b' : Board) → Type 0
SameShips b b' = (k l : ℕ) → (b' k l).ship ≡ (b k l).ship

module _ (i j : ℕ) (b : Board) where
  draw_wall-SameShips : SameShips b (draw_wall i j b)
  unfolding draw_wall
  draw_wall-SameShips k l = elim (Bool-cases (is_wall i j)) [
    | inl t ↦ rw t (ground arith)
    | inr t ↦ rw t refl
  ]

  draw_shield-SameShips : SameShips b (draw_shield i j b)
  unfolding draw_shield
  draw_shield-SameShips k l = ground arith

  draw_outer_alien-SameShips : (g : Game) → SameShips b (draw_outer_alien g i j b)
  unfolding draw_outer_alien
  draw_outer_alien-SameShips g k l = ground arith

  draw_middle_alien-SameShips : (g : Game) → SameShips b (draw_middle_alien g i j b)
  unfolding draw_middle_alien
  draw_middle_alien-SameShips g k l = ground arith

-- The cell that an assignment for the ship sets, read back.
abbrev marked : (i j k l : ℕ) → ℕ → ℕ
marked i j k l old = if (i == k) && (j == l) then 1 else old

mark_lem :
    (i j k l old : ℕ) (b : Board)
    → (b k l).ship ≡ old
    → (set_cell i j (set_ship 1) b k l).ship ≡ marked i j k l old
mark_lem i j k l old b e = ground arith

put_ship_cells :
    (b : Board) (i j k l : ℕ)
    → i ≡ 23
    → j ≡ 40
    → (put_ship i j b k l).ship ≡ (if is_ship 40 k l then 1 else (b k l).ship)
unfolding put_ship
put_ship_cells b i j k l p q =
    let b1 = set_cell i j (set_ship 1) b in
    let b2 = set_cell (i - 1) j (set_ship 1) b1 in
    let b3 = set_cell i (j - 1) (set_ship 1) b2 in
    let b4 = set_cell i (j + 1) (set_ship 1) b3 in
    let b5 = set_cell i (j - 2) (set_ship 1) b4 in
    mark_lem i (j + 2) k l _ b5 (
      mark_lem i (j - 2) k l _ b4 (
        mark_lem i (j + 1) k l _ b3 (
          mark_lem i (j - 1) k l _ b2
            (mark_lem (i - 1) j k l _ b1 (mark_lem i j k l (b k l).ship b refl)))))
    ∙ ground arith

-- The ship is drawn in its cell.
draw_ship-Drawn : (i j : ℕ) (b : Board) → Drawn i j b → Drawn i (j + 1) (draw_ship new_game i j b)
unfolding draw_ship
draw_ship-Drawn i j b d k l = elim (Bool-cases ((i == 23) && (j == 40))) [
  | inl t ↦
      let p : i ≡ 23 = ground (arith, t) in
      let q : j ≡ 40 = ground (arith, t) in
      rw t (put_ship_cells b i j k l p q ∙ ground (arith, d k l))
  | inr t ↦ rw t (ground (arith, d k l, t))
]

init_cell-Drawn : (i j : ℕ) (b : Board) → Drawn i j b → Drawn i (j + 1) (init_cell new_game i j b)
unfolding init_cell
init_cell-Drawn i j b d k l =
    let walled = draw_wall i j b in
    let shipped = draw_ship new_game i j walled in
    let outer = draw_outer_alien new_game i j shipped in
    let middle = draw_middle_alien new_game i j outer in
    draw_shield-SameShips i j middle k l
    ∙ draw_middle_alien-SameShips i j outer new_game k l
    ∙ draw_outer_alien-SameShips i j shipped new_game k l
    ∙ draw_ship-Drawn i j walled (λ m n. draw_wall-SameShips i j b m n ∙ d m n) k l

row-Drawn :
    (i : ℕ) (b : Board)
    → Drawn i 0 b
    → Drawn (i + 1) 0 (for_range num_columns 0 (λ j b. init_cell new_game i j b) b)
row-Drawn i b d k l =
    let done : Drawn i 80 (for_range num_columns 0 (λ j b. init_cell new_game i j b) b) =
      for_range_inv (Drawn i) (λ j b. init_cell new_game i j b) num_columns 0 80 b refl
        (λ j t lo hi inv. init_cell-Drawn i j t inv) d in
    done k l ∙ ground arith

start-HasShip : HasShip (init_board new_game)
unfolding init_board
start-HasShip = record {
  column = omega arith;
  drawn =
      for_range_inv (λ i. Drawn i 0)
        (λ i b. for_range num_columns 0 (λ j b. init_cell new_game i j b) b) num_rows 0 25
        new_game.board refl (λ i b lo hi inv. row-Drawn i b inv) (λ i j. refl);
}

-- Whatever the player does and whatever the clock shows, in the turns of a new game the cells of
-- the board that are marked as ship are the six about `y_ship`, and no others.
pub play-HasShip : (ts : List Turn) → HasShip (play ts (init_board new_game))
play-HasShip ts =
    play_kept HasShip HasShip-ShotsKeep press-HasShip move_aliens-HasShip
      (λ now g h. record { column = h.column; drawn = h.drawn }) ts (init_board new_game)
      start-HasShip

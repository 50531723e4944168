-- ===== src/Game/Ship.antt =====
-- The ship (zeos/user.c).
use soa_subject.Prelude.{ℕ, ◌+◌, ◌-◌, Bool, ltb, ◌||◌, ◌&&◌, ◌==◌, not, if◌then◌else◌}
use soa_subject.Config.{num_columns}
use soa_subject.Game.{Game, with_cell, set_ship, set_ship_shoot, x_ship}

-- The tests of `board[i][j]`.
abbrev pub is_hit : Game → ℕ → ℕ → Bool
is_hit g i j = not ((g.board i j).alien_shoot == 0)

abbrev pub is_free : Game → ℕ → ℕ → Bool
is_free g i j = not ((g.board i j).ship_shoot == 1)

unfoldable pub shoot_colision : Game → Bool
shoot_colision g =
    is_hit g x_ship g.y_ship
    || is_hit g (x_ship - 1) g.y_ship
    || is_hit g x_ship (g.y_ship - 1)
    || is_hit g x_ship (g.y_ship - 2)
    || is_hit g x_ship (g.y_ship + 1)
    || is_hit g x_ship (g.y_ship + 2)

-- `if (shoot_colision()) LOSE = 1`
unfoldable pub check_colision : Game → Game
check_colision g = if shoot_colision g then record g { lose = 1 } else g

unfoldable pub ship_right : Game → Game
ship_right g =
    if ltb g.y_ship (num_columns - 5)
    then (let g1 = with_cell x_ship (g.y_ship + 3) (set_ship 1) g in
        let g2 = with_cell (x_ship - 1) (g.y_ship + 1) (set_ship 1) g1 in
        let g3 = with_cell x_ship (g.y_ship - 2) (set_ship 0) g2 in
        let g4 = with_cell (x_ship - 1) g.y_ship (set_ship 0) g3 in
        check_colision (record g4 { y_ship = g.y_ship + 1 }))
    else g

unfoldable pub ship_left : Game → Game
ship_left g =
    if ltb 4 g.y_ship
    then (let g1 = with_cell x_ship (g.y_ship - 3) (set_ship 1) g in
        let g2 = with_cell (x_ship - 1) (g.y_ship - 1) (set_ship 1) g1 in
        let g3 = with_cell x_ship (g.y_ship + 2) (set_ship 0) g2 in
        let g4 = with_cell (x_ship - 1) g.y_ship (set_ship 0) g3 in
        check_colision (record g4 { y_ship = g.y_ship - 1 }))
    else g

-- `EASY` is 1.
unfoldable pub make_ship_shoot : Game → Game
make_ship_shoot g =
    let shot = with_cell (x_ship - 2) g.y_ship (set_ship_shoot 1) g in
    if is_free g (x_ship - 2) g.y_ship
    then shot
    else if is_free g (x_ship - 3) g.y_ship
        && is_free g (x_ship - 2) (g.y_ship + 1)
        && is_free g (x_ship - 2) (g.y_ship - 1)
    then shot
    else g

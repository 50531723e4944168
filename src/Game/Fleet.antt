-- ===== src/Game/Fleet.antt =====
-- The movement of the aliens (zeos/user.c).
pub mod Same
pub mod March
pub mod Swept
pub mod Shift
pub mod Lower
pub mod Hold
pub mod Drawn
use soa_subject.Prelude.{ℕ, ◌+◌, ◌-◌, ltb, leb, ◌==◌, not, if◌then◌else◌, for_range, for_down}
use soa_subject.Config.{num_columns}
use soa_subject.Game.{Game, Cell, with_cell, set_alien, set_shield}

-- What the loops of the three functions carry: the game and `total_aliens`.
pub record Sweep : Type 0 where
  pub game : Game
  pub total_aliens : ℕ

abbrev pub with_game : (Game → Game) → Sweep → Sweep
with_game f s = record s { game = f s.game }

unfoldable pub down_cell : (i j : ℕ) → Sweep → Sweep
down_cell i j s =
    let c = s.game.board i j in
    let cleared = record s {
      total_aliens = s.total_aliens + 1;
      game = with_cell i j (set_alien 0) s.game;
    } in
    let moved = with_game (with_cell (i + 1) j (set_alien 1)) cleared in
    if c.alien == 1
    then (if not (c.ship_shoot == 1)
        then (if c.shield == 1 then with_game (with_cell i j (set_shield 0)) moved else moved)
        else cleared)
    else s

-- The test behind the loops.
unfoldable pub count_aliens : Sweep → Game
count_aliens s = if s.total_aliens == 0 then record s.game { win = 1 } else s.game

unfoldable pub aliens_down : Game → Game
aliens_down g = count_aliens (
    for_down 20 22 (λ i s. for_range 76 2 (λ j s. down_cell i j s) s)
      (record { game = g; total_aliens = 0 }))

-- The body of the loops of `aliens_right` and `aliens_left`, which move to column `to`.
unfoldable pub side_cell : (i j to : ℕ) → Sweep → Sweep
side_cell i j to s =
    let c = s.game.board i j in
    let counted = record s { total_aliens = s.total_aliens + 1 } in
    let bare =
      if c.shield == 1 then with_game (with_cell i j (set_shield 0)) counted else counted in
    if not (c.alien == 0)
    then with_game (with_cell i to (set_alien 1)) (with_game (with_cell i j (set_alien 0)) bare)
    else s

unfoldable pub aliens_right : Game → Game
aliens_right g = count_aliens (
    for_range 19 3 (λ i s. for_down 76 77 (λ j s. side_cell i j (j + 1) s) s)
      (record { game = g; total_aliens = 0 }))

unfoldable pub aliens_left : Game → Game
aliens_left g = count_aliens (
    for_range 19 3 (λ i s. for_range 76 2 (λ j s. side_cell i j (j - 1) s) s)
      (record { game = g; total_aliens = 0 }))

-- The three branches of `move_aliens`.
unfoldable pub step_down : Game → Game
step_down g =
    let d = aliens_down g in
    let g1 = record d { x_aliens = d.x_aliens + 1 } in
    let g2 = if leb 18 g1.x_aliens then record g1 { lose = 1 } else g1 in
    let g3 = record g2 { move_down = 0 } in
    if leb 29 g3.y_aliens
    then record g3 { move_left = 1 }
    else if leb g3.y_aliens 2
    then record g3 { move_right = 1 }
    else record g3 { move_down = 1 }

unfoldable pub step_right : Game → Game
step_right g =
    let r = aliens_right g in
    let g1 = record r { y_aliens = r.y_aliens + 1 } in
    if g1.y_aliens == 29 then record g1 { move_right = 0; move_down = 1 } else g1

unfoldable pub step_left : Game → Game
step_left g =
    let l = aliens_left g in
    let g1 = record l { y_aliens = l.y_aliens - 1 } in
    if g1.y_aliens == 2 then record g1 { move_left = 0; move_down = 1 } else g1

unfoldable pub move_aliens : Game → Game
move_aliens g =
    if not (g.move_down == 0)
    then step_down g
    else if not (g.move_right == 0)
    then step_right g
    else if not (g.move_left == 0)
    then step_left g
    else g

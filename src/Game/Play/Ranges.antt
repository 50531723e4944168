-- ===== src/Game/Play/Ranges.antt =====
-- The globals of zeos/user.c that index the board.
use soa_subject.Prelude.{
  ℕ, zero, suc, ◌+◌, ◌-◌, ◌/◌, ◌≤◌, ◌<◌, ◌≡◌, ◌≢◌, ◌⊎◌, Option, none, some, List, arith,
}
use soa_subject.Game.{Game, new_game, init_board}
use soa_subject.Game.Ship.{ship_left, ship_right, make_ship_shoot, check_colision}
use soa_subject.Game.Fleet.{
  down_cell, side_cell, count_aliens, step_down, step_right, step_left, move_aliens, aliens_down,
  aliens_right, aliens_left,
}
use soa_subject.Game.Shoots.{alien_shot, ship_shot, cancel_cell, shoot_from}
use soa_subject.Game.Kept.{
  CellsKeep, ShotsKeep, aliens_down_kept, aliens_right_kept, aliens_left_kept,
}
use soa_subject.Game.Fleet.Same.{aliens_right-SameFleet, aliens_left-SameFleet}
use soa_subject.Game.Play.{Turn, press, play}
use soa_subject.Game.Play.Kept.{play_kept}

-- The ship and all its cells are between the walls, the formation fits, the column that the next
-- shot is looked for from is on the board, and no division by `shoot_pointer` is by zero.
pub record InRange (g : Game) : Type 0 where
  pub ship_low : 4 ≤ g.y_ship
  pub ship_high : g.y_ship ≤ 75
  pub fleet_low : 2 ≤ g.y_aliens
  pub fleet_high : g.y_aliens ≤ 29
  pub right_room : (g.move_right ≡ 0) ⊎ (g.y_aliens < 29)
  pub left_room : (g.move_left ≡ 0) ⊎ (2 < g.y_aliens)
  pub column_low : 1 ≤ g.last_shoot
  pub column_high : g.last_shoot ≤ 68
  pub pointer : g.shoot_pointer < 5

-- The column that a shot leaves.
column_lem :
    (p y : ℕ) → p < 5 → 2 ≤ y → y ≤ 29 → (1 ≤ y + 49 - 50 / (p + 1)) × (y + 49 - 50 / (p + 1) ≤ 68)
column_lem zero y h lo hi = omega arith
column_lem (suc zero) y h lo hi = omega arith
column_lem (suc (suc zero)) y h lo hi = omega arith
column_lem (suc (suc (suc zero))) y h lo hi = omega arith
column_lem (suc (suc (suc (suc zero)))) y h lo hi = omega arith
column_lem (suc (suc (suc (suc (suc p))))) y h lo hi = absurd (omega arith)

InRange-CellsKeep : CellsKeep InRange
unfolding down_cell side_cell count_aliens
InRange-CellsKeep = record {
  down_cell_kept = λ i j t r. ground arith;
  side_cell_kept = λ i j to t r. ground arith;
  count_aliens_kept = λ t r. ground arith;
}

InRange-ShotsKeep : ShotsKeep InRange
unfolding alien_shot ship_shot cancel_cell shoot_from
InRange-ShotsKeep = record {
  alien_shot_kept = λ i j h r. ground arith;
  ship_shot_kept = λ i j h r. ground arith;
  cancel_cell_kept = λ i j h r. ground arith;
  shoot_from_kept = λ is_alien k h r. ground (arith, column_lem h.shoot_pointer h.y_aliens);
}

step_down-InRange : (g : Game) → InRange (aliens_down g) → InRange (step_down g)
unfolding step_down
step_down-InRange g r = ground arith

step_right-InRange :
    (g : Game) → InRange (aliens_right g) → (aliens_right g).y_aliens < 29 → InRange (step_right g)
unfolding step_right
step_right-InRange g r h = ground arith

step_left-InRange :
    (g : Game) → InRange (aliens_left g) → 2 < (aliens_left g).y_aliens → InRange (step_left g)
unfolding step_left
step_left-InRange g r h = ground arith

module _ (g : Game) (r : InRange g) where
  heads_right : g.move_right ≢ 0 → InRange (step_right g)
  heads_right n =
      step_right-InRange g (aliens_right_kept InRange InRange-CellsKeep g r)
        (ground (arith, r.right_room, (aliens_right-SameFleet g).y_aliens))

  heads_left : g.move_left ≢ 0 → InRange (step_left g)
  heads_left n =
      step_left-InRange g (aliens_left_kept InRange InRange-CellsKeep g r)
        (ground (arith, r.left_room, (aliens_left-SameFleet g).y_aliens))

move_aliens-InRange : (g : Game) → InRange g → InRange (move_aliens g)
unfolding move_aliens
move_aliens-InRange g r = ground (
  arith,
  step_down-InRange g (aliens_down_kept InRange InRange-CellsKeep g r),
  heads_right g r,
  heads_left g r,
)

press-InRange : (key : Option ℕ) (g : Game) → InRange g → InRange (press key g)
unfolding press ship_left ship_right make_ship_shoot check_colision
press-InRange none g r = r
press-InRange (some c) g r = ground arith

start-InRange : InRange (init_board new_game)
unfolding init_board
start-InRange = ground arith

-- Whatever the player does and whatever the clock shows, in the turns of a new game the ship's column
-- is from 4 to 75 and the formation's from 2 to 29, the column that the next shot is looked for from
-- is from 1 to 68, and `shoot_pointer` is below 5.
pub play-InRange : (ts : List Turn) → InRange (play ts (init_board new_game))
play-InRange ts =
    play_kept InRange InRange-ShotsKeep press-InRange move_aliens-InRange (λ now g r. ground arith)
      ts (init_board new_game) start-InRange

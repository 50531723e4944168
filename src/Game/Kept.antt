-- ===== src/Game/Kept.antt =====
-- What the cells of the board keep, the loops of zeos/user.c over them keep.
use soa_subject.Prelude.{ℕ, zero, suc, ◌+◌, ◌-◌, for_range_kept, for_down_kept, arith}
use soa_subject.Game.{Game}
use soa_subject.Game.Fleet.{
  Sweep, down_cell, count_aliens, aliens_down, side_cell, aliens_right, aliens_left,
}
use soa_subject.Game.Shoots.{
  alien_shot, move_shoots_aliens, ship_shot, move_shoots_ship, cancel_cell, cancel_shoots,
  move_shoots, shoot_from, shoot_first, ia_shoot_alien, find_aliens,
}

-- The bodies of the loops of the aliens keep `P`.
pub record CellsKeep (P : Game → Type 0) : Type 0 where
  pub down_cell_kept : (i j : ℕ) (s : Sweep) → P s.game → P (down_cell i j s).game
  pub side_cell_kept : (i j to : ℕ) (s : Sweep) → P s.game → P (side_cell i j to s).game
  pub count_aliens_kept : (s : Sweep) → P s.game → P (count_aliens s)

-- The bodies of the loops of the shots keep `P`.
pub record ShotsKeep (P : Game → Type 0) : Type 0 where
  pub alien_shot_kept : (i j : ℕ) (g : Game) → P g → P (alien_shot i j g)
  pub ship_shot_kept : (i j : ℕ) (g : Game) → P g → P (ship_shot i j g)
  pub cancel_cell_kept : (i j : ℕ) (g : Game) → P g → P (cancel_cell i j g)
  pub shoot_from_kept : (is_alien : ℕ → ℕ) (k : ℕ) (g : Game) → P g → P (shoot_from is_alien k g)

module _ (P : Game → Type 0) (c : CellsKeep P) where
  pub aliens_down_kept : (g : Game) → P g → P (aliens_down g)
  unfolding aliens_down
  aliens_down_kept g p = c.count_aliens_kept _ (
      for_down_kept (λ s. P s.game) _
        (λ i. for_range_kept (λ s. P s.game) _ (λ j. c.down_cell_kept i j) 76 2) 20 22
        (record { game = g; total_aliens = 0 }) p)

  pub aliens_right_kept : (g : Game) → P g → P (aliens_right g)
  unfolding aliens_right
  aliens_right_kept g p = c.count_aliens_kept _ (
      for_range_kept (λ s. P s.game) _
        (λ i. for_down_kept (λ s. P s.game) _ (λ j. c.side_cell_kept i j (j + 1)) 76 77) 19 3
        (record { game = g; total_aliens = 0 }) p)

  pub aliens_left_kept : (g : Game) → P g → P (aliens_left g)
  unfolding aliens_left
  aliens_left_kept g p = c.count_aliens_kept _ (
      for_range_kept (λ s. P s.game) _
        (λ i. for_range_kept (λ s. P s.game) _ (λ j. c.side_cell_kept i j (j - 1)) 76 2) 19 3
        (record { game = g; total_aliens = 0 }) p)

module _ (P : Game → Type 0) (c : ShotsKeep P) where
  pub move_shoots_kept : (g : Game) → P g → P (move_shoots g)
  unfolding move_shoots cancel_shoots move_shoots_aliens move_shoots_ship
  move_shoots_kept g p =
      for_range_kept P _ (λ i. for_range_kept P _ (c.ship_shot_kept i) 76 2) 22 2 _
        (for_down_kept P _ (λ i. for_range_kept P _ (c.alien_shot_kept i) 76 2) 22 23 _
          (for_range_kept P _ (λ i. for_range_kept P _ (c.cancel_cell_kept i) 76 2) 22 2 g p))

  shoot_first_kept :
      (rounds k : ℕ) (is_alien : ℕ → ℕ) (g : Game) → P g → P (shoot_first rounds k is_alien g)
  unfolding shoot_first
  shoot_first_kept zero k is_alien g p = p
  shoot_first_kept (suc rounds) k is_alien g p =
      ground (arith, c.shoot_from_kept is_alien k g p, shoot_first_kept rounds (k + 1) is_alien g p)

  pub ia_shoot_alien_kept : (now : ℕ) (g : Game) → P g → P (ia_shoot_alien now g)
  unfolding ia_shoot_alien
  ia_shoot_alien_kept now g p =
      ground (arith, p, shoot_first_kept 80 g.last_shoot (find_aliens g) g p)

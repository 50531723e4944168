-- ===== src/Game/Fleet/Same.antt =====
-- What leaves the formation of zeos/user.c where it is.
use soa_subject.Prelude.{ℕ, ◌≡◌, refl, ◌⊎◌, inl, arith}
use soa_subject.Game.{Game}
use soa_subject.Game.Kept.{
  CellsKeep, ShotsKeep, aliens_down_kept, aliens_right_kept, aliens_left_kept, move_shoots_kept,
  ia_shoot_alien_kept,
}
use soa_subject.Game.Shoots.{
  alien_shot, ship_shot, cancel_cell, move_shoots, shoot_from, ia_shoot_alien,
}
use soa_subject.Game.Fleet.{
  down_cell, count_aliens, aliens_down, side_cell, aliens_right, aliens_left,
}

-- The formation is where it was, the ship too, and a game that is lost stays so.
pub record SameFleet (g g' : Game) : Type 0 where
  pub x_aliens : g'.x_aliens ≡ g.x_aliens
  pub y_aliens : g'.y_aliens ≡ g.y_aliens
  pub move_right : g'.move_right ≡ g.move_right
  pub move_left : g'.move_left ≡ g.move_left
  pub move_down : g'.move_down ≡ g.move_down
  pub lost : (g'.lose ≡ g.lose) ⊎ (g'.lose ≡ 1)

pub SameFleet-refl : (g : Game) → SameFleet g g
SameFleet-refl g = record {
  x_aliens = refl;
  y_aliens = refl;
  move_right = refl;
  move_left = refl;
  move_down = refl;
  lost = inl refl;
}

SameFleet-CellsKeep : (g : Game) → CellsKeep (SameFleet g)
unfolding down_cell side_cell count_aliens
SameFleet-CellsKeep g = record {
  down_cell_kept = λ i j t s. ground arith;
  side_cell_kept = λ i j to t s. ground arith;
  count_aliens_kept = λ t s. ground arith;
}

pub SameFleet-ShotsKeep : (g : Game) → ShotsKeep (SameFleet g)
unfolding alien_shot ship_shot cancel_cell shoot_from
SameFleet-ShotsKeep g = record {
  alien_shot_kept = λ i j h s. ground arith;
  ship_shot_kept = λ i j h s. ground arith;
  cancel_cell_kept = λ i j h s. ground arith;
  shoot_from_kept = λ is_alien k h s. ground arith;
}

module _ (g : Game) where
  pub aliens_down-SameFleet : SameFleet g (aliens_down g)
  aliens_down-SameFleet =
      aliens_down_kept (SameFleet g) (SameFleet-CellsKeep g) g (SameFleet-refl g)

  pub aliens_right-SameFleet : SameFleet g (aliens_right g)
  aliens_right-SameFleet =
      aliens_right_kept (SameFleet g) (SameFleet-CellsKeep g) g (SameFleet-refl g)

  pub aliens_left-SameFleet : SameFleet g (aliens_left g)
  aliens_left-SameFleet =
      aliens_left_kept (SameFleet g) (SameFleet-CellsKeep g) g (SameFleet-refl g)

  pub move_shoots-SameFleet : SameFleet g (move_shoots g)
  move_shoots-SameFleet =
      move_shoots_kept (SameFleet g) (SameFleet-ShotsKeep g) g (SameFleet-refl g)

  pub ia_shoot_alien-SameFleet : (now : ℕ) → SameFleet g (ia_shoot_alien now g)
  ia_shoot_alien-SameFleet now =
      ia_shoot_alien_kept (SameFleet g) (SameFleet-ShotsKeep g) now g (SameFleet-refl g)

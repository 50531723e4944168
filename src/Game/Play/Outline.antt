-- ===== src/Game/Play/Outline.antt =====
-- The ship of zeos/user.c as the moves of the game leave it.
use soa_subject.Prelude.{
  ℕ, ◌+◌, ◌≤◌, ◌≡◌, refl, Bool, leb, ◌==◌, ◌&&◌, ◌||◌, if◌then◌else◌, Option, none, some, arith,
  Bool-cases, inl, inr,
}
use soa_subject.Game.{Game, Cell, with_cell, set_alien, set_shield}
use soa_subject.Game.Ship.{ship_left, ship_right, make_ship_shoot, check_colision}
use soa_subject.Game.Fleet.{
  Sweep, down_cell, side_cell, count_aliens, step_down, step_right, step_left, move_aliens,
  aliens_down, aliens_right, aliens_left,
}
use soa_subject.Game.Shoots.{alien_shot, ship_shot, cancel_cell, shoot_from}
use soa_subject.Game.Kept.{
  CellsKeep, ShotsKeep, aliens_down_kept, aliens_right_kept, aliens_left_kept,
}
use soa_subject.Game.Play.{press}

-- The cells of a ship at column `y`: five in row 23, and one above.
abbrev pub is_ship : (y i j : ℕ) → Bool
is_ship y i j = ((i == 23) && (leb y (j + 2) && leb j (y + 2))) || ((i == 22) && (j == y))

abbrev pub shape : (y i j : ℕ) → ℕ
shape y i j = if is_ship y i j then 1 else 0

pub record HasShip (g : Game) : Type 0 where
  pub column : 4 ≤ g.y_ship
  pub drawn : (i j : ℕ) → (g.board i j).ship ≡ shape g.y_ship i j

with_cell-HasShip :
    (i j : ℕ) (f : Cell → Cell) (g : Game)
    → ((c : Cell) → (f c).ship ≡ c.ship)
    → HasShip g
    → HasShip (with_cell i j f g)
with_cell-HasShip i j f g same h = record {
  column = h.column;
  drawn = λ k l. ground (arith, h.drawn k l, same (g.board i j));
}

side_cell-HasShip : (i j to : ℕ) (s : Sweep) → HasShip s.game → HasShip (side_cell i j to s).game
unfolding side_cell
side_cell-HasShip i j to s h = elim (Bool-cases ((s.game.board i j).alien == 0)) [
  | inl e ↦ rw e h
  | inr e ↦ elim (Bool-cases ((s.game.board i j).shield == 1)) [
    | inl b ↦
        rw (e, b)
          (with_cell-HasShip i to (set_alien 1) _ (λ c. refl)
            (with_cell-HasShip i j (set_alien 0) _ (λ c. refl)
              (with_cell-HasShip i j (set_shield 0) s.game (λ c. refl) h)))
    | inr b ↦
        rw (e, b)
          (with_cell-HasShip i to (set_alien 1) _ (λ c. refl)
            (with_cell-HasShip i j (set_alien 0) s.game (λ c. refl) h))
  ]
]

HasShip-CellsKeep : CellsKeep HasShip
unfolding down_cell count_aliens
HasShip-CellsKeep = record {
  down_cell_kept = λ i j t h. record {
    column = ground (arith, h.column);
    drawn = λ k l. ground (arith, h.drawn k l);
  };
  side_cell_kept = side_cell-HasShip;
  count_aliens_kept = λ t h. record {
    column = ground (arith, h.column);
    drawn = λ k l. ground (arith, h.drawn k l);
  };
}

pub HasShip-ShotsKeep : ShotsKeep HasShip
unfolding alien_shot ship_shot cancel_cell shoot_from
HasShip-ShotsKeep = record {
  alien_shot_kept = λ i j g h. record {
    column = ground (arith, h.column);
    drawn = λ k l. ground (arith, h.drawn k l);
  };
  ship_shot_kept = λ i j g h. record {
    column = ground (arith, h.column);
    drawn = λ k l. ground (arith, h.drawn k l);
  };
  cancel_cell_kept = λ i j g h. record {
    column = ground (arith, h.column);
    drawn = λ k l. ground (arith, h.drawn k l);
  };
  shoot_from_kept = λ is_alien k g h. record {
    column = ground (arith, h.column);
    drawn = λ k l. ground (arith, h.drawn k l);
  };
}

ship_right-HasShip : (g : Game) → HasShip g → HasShip (ship_right g)
unfolding ship_right check_colision
ship_right-HasShip g h = record {
  column = ground (arith, h.column);
  drawn = λ k l. ground (arith, h.column, h.drawn k l);
}

ship_left-HasShip : (g : Game) → HasShip g → HasShip (ship_left g)
unfolding ship_left check_colision
ship_left-HasShip g h = record {
  column = ground (arith, h.column);
  drawn = λ k l. ground (arith, h.column, h.drawn k l);
}

make_ship_shoot-HasShip : (g : Game) → HasShip g → HasShip (make_ship_shoot g)
unfolding make_ship_shoot
make_ship_shoot-HasShip g h = record {
  column = ground (arith, h.column);
  drawn = λ k l. ground (arith, h.drawn k l);
}

pub press-HasShip : (key : Option ℕ) (g : Game) → HasShip g → HasShip (press key g)
unfolding press
press-HasShip none g h = h
press-HasShip (some c) g h =
    ground (arith, ship_right-HasShip g h, ship_left-HasShip g h, make_ship_shoot-HasShip g h)

module _ (g : Game) where
  step_down-HasShip : HasShip (aliens_down g) → HasShip (step_down g)
  unfolding step_down
  step_down-HasShip h = record {
    column = ground (arith, h.column);
    drawn = λ k l. ground (arith, h.drawn k l);
  }

  step_right-HasShip : HasShip (aliens_right g) → HasShip (step_right g)
  unfolding step_right
  step_right-HasShip h = record {
    column = ground (arith, h.column);
    drawn = λ k l. ground (arith, h.drawn k l);
  }

  step_left-HasShip : HasShip (aliens_left g) → HasShip (step_left g)
  unfolding step_left
  step_left-HasShip h = record {
    column = ground (arith, h.column);
    drawn = λ k l. ground (arith, h.drawn k l);
  }

  pub move_aliens-HasShip : HasShip g → HasShip (move_aliens g)
  unfolding move_aliens
  move_aliens-HasShip h = ground (
    arith,
    step_down-HasShip (aliens_down_kept HasShip HasShip-CellsKeep g h),
    step_right-HasShip (aliens_right_kept HasShip HasShip-CellsKeep g h),
    step_left-HasShip (aliens_left_kept HasShip HasShip-CellsKeep g h),
  )

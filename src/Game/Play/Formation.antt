-- ===== src/Game/Play/Formation.antt =====
-- The aliens of a game of zeos/user.c stay in their formation.
use soa_subject.Prelude.{
  ℕ, zero, suc, ◌≤◌, ◌<◌, ◌≡◌, ◌≢◌, refl, subst, ◌⊎◌, inl, inr, Option, none, some, List, arith,
}
use soa_subject.Game.{Game, new_game, init_board}
use soa_subject.Game.Ship.{ship_left, ship_right, make_ship_shoot, check_colision}
use soa_subject.Game.Fleet.{move_aliens}
use soa_subject.Game.Fleet.Swept.{aliens_of}
use soa_subject.Game.Fleet.Lower.{Contained}
use soa_subject.Game.Fleet.Hold.{Contained-same, move_aliens-Contained}
use soa_subject.Game.Fleet.Drawn.{init_board-Contained}
use soa_subject.Game.Fleet.Same.{SameFleet, SameFleet-refl, SameFleet-ShotsKeep}
use soa_subject.Game.Fleet.March.{
  Marches, Within, rightwards, leftwards, downwards, Within-zero, Within-SameFleet,
  move_aliens-Within, lost-move_aliens,
}
use soa_subject.Game.Kept.{ShotsKeep}
use soa_subject.Game.Shoots.{alien_shot, ship_shot, cancel_cell, shoot_from}
use soa_subject.Game.Play.{Turn, press, play}
use soa_subject.Game.Play.Ends.{press-SameFleet}
use soa_subject.Game.Play.Kept.{play_kept}

-- The moves that are left, and the aliens about the formation's place.
record Formed (g : Game) : Type 0 where
  moves : ℕ
  marches : Marches moves g
  top : 3 ≤ g.x_aliens
  held : Contained g.x_aliens g.y_aliens g

abbrev Held : Game → Type 0
Held g = (g.lose ≡ 1) ⊎ Formed g

-- What moves nothing and adds no alien.
Held-fewer :
    (g g' : Game)
    → SameFleet g g'
    → ((r c : ℕ) → aliens_of g' r c ≢ 0 → aliens_of g' r c ≡ aliens_of g r c)
    → Held g
    → Held g'
Held-fewer g g' s same (inl e) = inl (ground (arith, s.lost))
Held-fewer g g' s same (inr f) = go (Within-SameFleet f.moves g g' s (inr f.marches))
  where
    go : Within f.moves g' → Held g'
    go (inl e) = inl e
    go (inr m) = inr (record {
      moves = f.moves;
      marches = m;
      top = omega (arith, s.x_aliens, f.top);
      held = Contained-same g g' _ _ _ _ same s.x_aliens s.y_aliens f.held;
    })

Held-ShotsKeep : ShotsKeep Held
unfolding alien_shot ship_shot cancel_cell shoot_from
Held-ShotsKeep = record {
  alien_shot_kept = λ i j g.
      Held-fewer g _ ((SameFleet-ShotsKeep g).alien_shot_kept i j g (SameFleet-refl g))
        (λ r c n. ground (arith, n));
  ship_shot_kept = λ i j g.
      Held-fewer g _ ((SameFleet-ShotsKeep g).ship_shot_kept i j g (SameFleet-refl g))
        (λ r c n. ground (arith, n));
  cancel_cell_kept = λ i j g.
      Held-fewer g _ ((SameFleet-ShotsKeep g).cancel_cell_kept i j g (SameFleet-refl g))
        (λ r c n. ground (arith, n));
  shoot_from_kept = λ is_alien k g.
      Held-fewer g _ ((SameFleet-ShotsKeep g).shoot_from_kept is_alien k g (SameFleet-refl g))
        (λ r c n. ground (arith, n));
}

press_aliens : (key : Option ℕ) (g : Game) (r c : ℕ) → aliens_of (press key g) r c ≡ aliens_of g r c
unfolding press ship_left ship_right make_ship_shoot check_colision
press_aliens none g r c = refl
press_aliens (some k) g r c = ground arith

press-Held : (key : Option ℕ) (g : Game) → Held g → Held (press key g)
press-Held key g = Held-fewer g _ (press-SameFleet key g) (λ r c n. press_aliens key g r c)

Marches-low : (n : ℕ) (g : Game) → Marches n g → g.x_aliens < 18
Marches-low n g (rightwards d r l lo hi x e) = x
Marches-low n g (leftwards d r l lo hi x e) = x
Marches-low n g (downwards d r l y x e) = x

move_aliens-Held : (g : Game) → Held g → Held (move_aliens g)
move_aliens-Held g (inl e) = inl (lost-move_aliens g e)
move_aliens-Held g (inr f) = go f.moves f.marches
  where
    go : (n : ℕ) → Marches n g → Held (move_aliens g)
    go zero m = inl (lost-move_aliens g (Within-zero g (inr m)))
    go (suc k) m =
        let (top, held) =
          move_aliens-Contained g f.top f.held (Marches-low (suc k) g m) (suc k) m in
        elim (move_aliens-Within k g (inr (subst (λ n. Marches n g) (omega arith) m))) [
          | inl e ↦ inl e
          | inr w ↦ inr (record { moves = k; marches = w; top = top; held = held })
        ]

start-Formed : Formed (init_board new_game)
unfolding init_board
start-Formed = record {
  moves = 420;
  marches = rightwards refl refl refl (omega arith) (omega arith) (omega arith) (omega arith);
  top = omega arith;
  held = init_board-Contained;
}

-- The formation is between the walls and above the shields, and every alien is inside.
pub record InFormation (g : Game) : Type 0 where
  pub top : 3 ≤ g.x_aliens
  pub bottom : g.x_aliens ≤ 17
  pub left : 2 ≤ g.y_aliens
  pub right : g.y_aliens ≤ 29
  pub held : Contained g.x_aliens g.y_aliens g

Marches-side : (n : ℕ) (g : Game) → Marches n g → (2 ≤ g.y_aliens) × (g.y_aliens ≤ 29)
Marches-side n g (rightwards d r l lo hi x e) = (lo, omega (arith, hi))
Marches-side n g (leftwards d r l lo hi x e) = (omega (arith, lo), hi)
Marches-side n g (downwards d r l y x e) = (ground (arith, y), ground (arith, y))

-- Whatever the player does and whatever the clock shows, in the turns of a new game that is not lost
-- every alien, marked by 1, is in the five rows from `x_aliens` and the 49 columns from `y_aliens`,
-- where `x_aliens` is from 3 to 17 and `y_aliens` from 2 to 29, so that it is between the walls.
pub play-InFormation :
    (ts : List Turn) → let g = play ts (init_board new_game) in (g.lose ≡ 1) ⊎ InFormation g
play-InFormation ts =
    elim (play_kept Held Held-ShotsKeep press-Held move_aliens-Held
      (λ now g.
        Held-fewer g (record g { t0 = now })
          (record {
            x_aliens = refl;
            y_aliens = refl;
            move_right = refl;
            move_left = refl;
            move_down = refl;
            lost = inl refl;
          })
          (λ r c n. refl))
      ts (init_board new_game) (inr start-Formed)) [
        | inl e ↦ inl e
        | inr f ↦
            let low = Marches-low f.moves _ f.marches in
            let (west, east) = Marches-side f.moves _ f.marches in
            inr (record {
              top = f.top;
              bottom = omega (arith, low);
              left = west;
              right = east;
              held = f.held;
            })
      ]

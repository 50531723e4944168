-- ===== src/Game/Play/Ends.antt =====
-- The moves of the aliens in a game of zeos/user.c, and its end.
use soa_subject.Prelude.{
  ℕ, zero, suc, ◌+◌, ◌-◌, ◌≤◌, ◌<◌, ◌≡◌, refl, sym, subst, ◌⊎◌, inl, inr, true, false, ltb,
  if◌then◌else◌, Option, none, some, List, [], ◌∷◌, arith, Bool-cases,
}
use soa_subject.Game.{Game, new_game, init_board}
use soa_subject.Game.Ship.{ship_left, ship_right, make_ship_shoot, check_colision}
use soa_subject.Game.Fleet.{move_aliens}
use soa_subject.Game.Fleet.Same.{
  SameFleet, SameFleet-refl, move_shoots-SameFleet, ia_shoot_alien-SameFleet,
}
use soa_subject.Game.Fleet.March.{
  Within, rightwards, Within-zero, Within-SameFleet, move_aliens-Within,
}
use soa_subject.Game.Shoots.{move_shoots, ia_move}
use soa_subject.Game.Play.{Turn, press, turn, play, is_due, is_over}

pub press-SameFleet : (key : Option ℕ) (g : Game) → SameFleet g (press key g)
unfolding press ship_left ship_right make_ship_shoot check_colision
press-SameFleet none g = SameFleet-refl g
press-SameFleet (some c) g = ground arith

ia_move-Within : (n now : ℕ) (g : Game) → Within (n + 1) g → Within n (ia_move now g)
unfolding ia_move
ia_move-Within n now g w =
    Within-SameFleet n _ _ (ia_shoot_alien-SameFleet (move_aliens (move_shoots g)) now) (
      move_aliens-Within n (move_shoots g)
        (Within-SameFleet (n + 1) g (move_shoots g) (move_shoots-SameFleet g) w))

-- The moves of the aliens that the turns make.
pub moved : List Turn → Game → ℕ
moved [] g = 0
moved (t ∷ ts) g =
    let rest = moved ts (turn t g) in
    if is_over g then 0 else if is_due t (press t.key g) then suc rest else rest

module _ (t : Turn) (g : Game) where
  turn-due :
      is_due t (press t.key g) ≡ true
      → turn t g ≡ record (ia_move t.now_shoot (press t.key g)) { t0 = t.now_end }
  unfolding turn
  turn-due e = rw e

  turn-wait : is_due t (press t.key g) ≡ false → turn t g ≡ press t.key g
  unfolding turn
  turn-wait e = rw e

-- A turn that is due takes one from the moves that are left.
turn-Within :
    (n : ℕ) (t : Turn) (g : Game)
    → is_due t (press t.key g) ≡ true
    → Within (n + 1) g
    → Within n (turn t g)
turn-Within n t g d w = subst (Within n) (sym (turn-due t g d)) (
    Within-SameFleet n (ia_move t.now_shoot (press t.key g)) _
      (record {
        x_aliens = refl;
        y_aliens = refl;
        move_right = refl;
        move_left = refl;
        move_down = refl;
        lost = inl refl;
      })
      (ia_move-Within n t.now_shoot (press t.key g)
        (Within-SameFleet (n + 1) g (press t.key g) (press-SameFleet t.key g) w)))

-- A game that is not over has a move left.
is_over-Within : (n : ℕ) (g : Game) → Within n g → is_over g ≡ false → (k : ℕ) × (n ≡ k + 1)
is_over-Within zero g w o =
    let lost : g.lose ≡ 1 = Within-zero g w in absurd (ground (arith, lost, o))
is_over-Within (suc k) g w o = (k, omega arith)

play_lem :
    (ts : List Turn) (n : ℕ) (g : Game)
    → Within n g
    → (moved ts g ≤ n) × Within (n - moved ts g) (play ts g)
unfolding moved play
play_lem [] n g w = (omega arith, subst (λ k. Within k g) (omega arith) w)
play_lem (t ∷ ts) n g w = elim (Bool-cases (is_over g)) [
  | inl o ↦ rw o (omega arith, subst (λ k. Within k g) (omega arith) w)
  | inr o ↦ elim (Bool-cases (is_due t (press t.key g))) [
    | inl d ↦
        let (k, e) = is_over-Within n g w o in
        let (le, rest) =
          play_lem ts k (turn t g) (turn-Within k t g d (subst (λ m. Within m g) e w)) in
        rw (o, d)
          (omega (arith, e, le), subst (λ m. Within m (play ts (turn t g))) (omega (arith, e)) rest)
    | inr d ↦
        rw (o, d)
          (play_lem ts n (turn t g) (
            subst (Within n) (sym (turn-wait t g d))
              (Within-SameFleet n g (press t.key g) (press-SameFleet t.key g) w)))
  ]
]

start_Within : Within 420 (init_board new_game)
unfolding init_board
start_Within =
    inr (rightwards refl refl refl (omega arith) (omega arith) (omega arith) (omega arith))

-- Whatever keys the player presses and whatever the clock shows, the turns of a new game make at
-- most 420 moves of the aliens, and when they have made them the game is lost.
pub play-ends :
    (ts : List Turn)
    → let start = init_board new_game in
      (moved ts start ≤ 420) × (((play ts start).lose ≡ 1) ⊎ (moved ts start < 420))
play-ends ts =
    let (le, w) = play_lem ts 420 (init_board new_game) start_Within in
    (
      le,
      elim (Bool-cases (ltb (moved ts (init_board new_game)) 420)) [
        | inl more ↦ inr (ground (arith, more))
        | inr all ↦ inl (
            Within-zero _ (
              subst (λ k. Within k (play ts (init_board new_game)))
                (let e : 420 - moved ts (init_board new_game) ≡ 0 = ground (arith, all) in e) w))
      ],
    )

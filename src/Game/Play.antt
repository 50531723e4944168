-- ===== src/Game/Play.antt =====
-- The inner loop of `main` (zeos/user.c): keys of the player and moves of the aliens.
pub mod Kept
pub mod Ends
pub mod Ranges
pub mod Outline
pub mod Shape
pub mod Formation
use soa_subject.Prelude.{
  ℕ, ◌+◌, Bool, ltb, ◌||◌, ◌==◌, not, if◌then◌else◌, Option, none, some, List, [], ◌∷◌,
}
use soa_subject.Game.{Game}
use soa_subject.Game.Ship.{ship_left, ship_right, make_ship_shoot}
use soa_subject.Game.Shoots.{ia_move}

-- What a turn of the loop gets from the kernel: the key, if `get_key` has one, and the answers of
-- `gettime` to the test, to `ia_shoot_alien` and to the assignment of `t0`.
pub record Turn : Type 0 where
  pub key : Option ℕ
  pub now : ℕ
  pub now_shoot : ℕ
  pub now_end : ℕ

-- `SEG`
abbrev pub seg : ℕ
seg = 18

unfoldable pub press : Option ℕ → Game → Game
press none g = g
press (some c) g =
    if c == 97
    then ship_left g
    else if c == 100
    then ship_right g
    else if c == 119
    then make_ship_shoot g
    else g

-- `gettime()-t0 > SEG`, of a time that does not go back.
abbrev pub is_due : Turn → Game → Bool
is_due t g = ltb (g.t0 + seg) t.now

-- One turn of the loop, but for the frames that it pushes.
unfoldable pub turn : Turn → Game → Game
turn t g =
    let g1 = press t.key g in
    if is_due t g1 then record (ia_move t.now_shoot g1) { t0 = t.now_end } else g1

abbrev pub is_over : Game → Bool
is_over g = not (g.lose == 0) || not (g.win == 0)

-- The loop over the turns that there are.
unfoldable pub play : List Turn → Game → Game
play [] g = g
play (t ∷ ts) g = let rest = play ts (turn t g) in if is_over g then g else rest

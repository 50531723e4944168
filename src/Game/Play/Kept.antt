-- ===== src/Game/Play/Kept.antt =====
-- What the keys, the moves and the cells keep, the game of zeos/user.c keeps.
use soa_subject.Prelude.{ℕ, Option, List, [], ◌∷◌, Bool-cases, inl, inr}
use soa_subject.Game.{Game}
use soa_subject.Game.Kept.{ShotsKeep, move_shoots_kept, ia_shoot_alien_kept}
use soa_subject.Game.Fleet.{move_aliens}
use soa_subject.Game.Shoots.{move_shoots, ia_move}
use soa_subject.Game.Play.{Turn, press, turn, play, is_due, is_over}

module _ (P : Game → Type 0) (cells : ShotsKeep P)
    (press_kept : (key : Option ℕ) (g : Game) → P g → P (press key g))
    (move_aliens_kept : (g : Game) → P g → P (move_aliens g))
    (time_kept : (now : ℕ) (g : Game) → P g → P (record g { t0 = now })) where
  ia_move_kept : (now : ℕ) (g : Game) → P g → P (ia_move now g)
  unfolding ia_move
  ia_move_kept now g p =
      ia_shoot_alien_kept P cells now (move_aliens (move_shoots g))
        (move_aliens_kept (move_shoots g) (move_shoots_kept P cells g p))

  turn_kept : (t : Turn) (g : Game) → P g → P (turn t g)
  unfolding turn
  turn_kept t g p =
      let pressed = press_kept t.key g p in
      elim (Bool-cases (is_due t (press t.key g))) [
        | inl d ↦ rw d (time_kept t.now_end _ (ia_move_kept t.now_shoot _ pressed))
        | inr d ↦ rw d pressed
      ]

  pub play_kept : (ts : List Turn) (g : Game) → P g → P (play ts g)
  unfolding play
  play_kept [] g p = p
  play_kept (t ∷ ts) g p = elim (Bool-cases (is_over g)) [
    | inl o ↦ rw o p
    | inr o ↦ rw o (play_kept ts (turn t g) (turn_kept t g p))
  ]

-- ===== src/Game/Fleet/Drawn.antt =====
-- Where `init_board` of zeos/user.c puts the aliens.
use soa_subject.Prelude.{
  ℕ, ◌+◌, ◌-◌, ◌≡◌, ◌≢◌, refl, ◌∙◌, ◌==◌, ◌&&◌, inl, inr, arith, Bool-cases, for_range_kept,
}
use soa_subject.Config.{num_rows, num_columns}
use soa_subject.Game.{
  Board, new_game, init_board, init_cell, draw_wall, draw_ship, draw_outer_alien, draw_middle_alien,
  draw_shield, put_ship, is_wall, x_ship, set_cell, set_ship,
}
use soa_subject.Game.Fleet.Lower.{Inside, Contained}

-- What `init_board` draws.
abbrev Drawn : Board → Type 0
Drawn b = (r c : ℕ) → (b r c).alien ≢ 0 → ((b r c).alien ≡ 1) × Inside 3 2 r c

mark_alien : (i j r c : ℕ) (b : Board) → (set_cell i j (set_ship 1) b r c).alien ≡ (b r c).alien
mark_alien i j r c b = ground arith

put_ship-alien : (i j : ℕ) (b : Board) (r c : ℕ) → (put_ship i j b r c).alien ≡ (b r c).alien
unfolding put_ship
put_ship-alien i j b r c =
    let b1 = set_cell i j (set_ship 1) b in
    let b2 = set_cell (i - 1) j (set_ship 1) b1 in
    let b3 = set_cell i (j - 1) (set_ship 1) b2 in
    let b4 = set_cell i (j + 1) (set_ship 1) b3 in
    mark_alien i (j + 2) r c (set_cell i (j - 2) (set_ship 1) b4)
    ∙ mark_alien i (j - 2) r c b4
    ∙ mark_alien i (j + 1) r c b3
    ∙ mark_alien i (j - 1) r c b2
    ∙ mark_alien (i - 1) j r c b1
    ∙ mark_alien i j r c b

module _ (i j : ℕ) (b : Board) where
  draw_wall-alien : (r c : ℕ) → (draw_wall i j b r c).alien ≡ (b r c).alien
  unfolding draw_wall
  draw_wall-alien r c = elim (Bool-cases (is_wall i j)) [
    | inl t ↦ rw t (ground arith)
    | inr t ↦ rw t refl
  ]

  draw_ship-alien : (r c : ℕ) → (draw_ship new_game i j b r c).alien ≡ (b r c).alien
  unfolding draw_ship
  draw_ship-alien r c = elim (Bool-cases ((i == x_ship) && (j == new_game.y_ship))) [
    | inl t ↦ rw t (put_ship-alien i j b r c)
    | inr t ↦ rw t refl
  ]

  draw_shield-alien : (r c : ℕ) → (draw_shield i j b r c).alien ≡ (b r c).alien
  unfolding draw_shield
  draw_shield-alien r c = ground arith

  draw_outer_alien-Drawn : Drawn b → Drawn (draw_outer_alien new_game i j b)
  unfolding draw_outer_alien
  draw_outer_alien-Drawn d r c n = ground (arith, d r c, n)

  draw_middle_alien-Drawn : Drawn b → Drawn (draw_middle_alien new_game i j b)
  unfolding draw_middle_alien
  draw_middle_alien-Drawn d r c n = ground (arith, d r c, n)

Drawn-same : (b b' : Board) → ((r c : ℕ) → (b' r c).alien ≡ (b r c).alien) → Drawn b → Drawn b'
Drawn-same b b' e d r c n = ground (arith, e r c, d r c, n)

init_cell-Drawn : (i j : ℕ) (b : Board) → Drawn b → Drawn (init_cell new_game i j b)
unfolding init_cell
init_cell-Drawn i j b d =
    let walled = draw_wall i j b in
    let shipped = draw_ship new_game i j walled in
    let outer = draw_outer_alien new_game i j shipped in
    let middle = draw_middle_alien new_game i j outer in
    Drawn-same middle (draw_shield i j middle) (draw_shield-alien i j middle) (
      draw_middle_alien-Drawn i j outer (
        draw_outer_alien-Drawn i j shipped (
          Drawn-same b shipped (λ r c. draw_ship-alien i j walled r c ∙ draw_wall-alien i j b r c)
            d)))

pub init_board-Contained : Contained 3 2 (init_board new_game)
unfolding init_board
init_board-Contained =
    for_range_kept Drawn _ (λ i. for_range_kept Drawn _ (λ j. init_cell-Drawn i j) num_columns 0)
      num_rows 0 new_game.board (λ r c n. absurd (n refl))

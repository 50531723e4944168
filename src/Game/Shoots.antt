-- ===== src/Game/Shoots.antt =====
-- The shots, and what moves by itself (zeos/user.c).
use soa_subject.Prelude.{
  ℕ, zero, suc, ◌+◌, ◌-◌, ◌/◌, ◌%◌, ltb, leb, ◌||◌, ◌&&◌, ◌==◌, not, if◌then◌else◌, update,
  for_range, for_down,
}
use soa_subject.Config.{num_rows}
use soa_subject.Game.{Game, with_cell, set_alien, set_alien_shoot, set_shield, set_ship_shoot}
use soa_subject.Game.Fleet.{move_aliens}

unfoldable pub alien_shot : (i j : ℕ) → Game → Game
alien_shot i j g =
    let c = g.board i j in
    let below = g.board (i + 1) j in
    let g1 =
      if not (c.shield == 0)
      then with_cell i j (set_shield 0) g
      else if ltb i (num_rows - 2) && (not (c.ship_shoot == 1) || not (below.ship_shoot == 1))
      then with_cell (i + 1) j (set_alien_shoot 1) g
      else g in
    let g2 = if not ((g1.board i j).ship == 0) then record g1 { lose = 1 } else g1 in
    if not (c.alien_shoot == 0) then with_cell i j (set_alien_shoot 0) g2 else g

unfoldable pub move_shoots_aliens : Game → Game
move_shoots_aliens g = for_down 22 23 (λ i g. for_range 76 2 (λ j g. alien_shot i j g) g) g

unfoldable pub ship_shot : (i j : ℕ) → Game → Game
ship_shot i j g =
    let c = g.board i j in
    let above = g.board (i - 1) j in
    let g1 =
      if not (c.alien == 0)
      then with_cell i j (set_alien 0) g
      else if (above.shield == 0)
          && leb 3 i
          && (not (c.alien_shoot == 1) || not (above.alien_shoot == 1))
      then with_cell (i - 1) j (set_ship_shoot 1) g
      else g in
    if not (c.ship_shoot == 0) then with_cell i j (set_ship_shoot 0) g1 else g

unfoldable pub move_shoots_ship : Game → Game
move_shoots_ship g = for_range 22 2 (λ i g. for_range 76 2 (λ j g. ship_shot i j g) g) g

unfoldable pub cancel_cell : (i j : ℕ) → Game → Game
cancel_cell i j g =
    if ((g.board i j).alien_shoot == 1) && ((g.board (i + 1) j).ship_shoot == 1)
    then with_cell (i + 1) j (set_ship_shoot 0) (with_cell i j (set_alien_shoot 0) g)
    else g

unfoldable pub cancel_shoots : Game → Game
cancel_shoots g = for_range 22 2 (λ i g. for_range 76 2 (λ j g. cancel_cell i j g) g) g

unfoldable pub move_shoots : Game → Game
move_shoots g = move_shoots_ship (move_shoots_aliens (cancel_shoots g))

-- The loops of `ia_shoot_alien` that find the lowest alien of each column.
unfoldable pub find_aliens : Game → ℕ → ℕ
find_aliens g =
    for_down 22 23
      (λ i is_alien.
        for_range 76 2
          (λ j is_alien.
            if not ((g.board i j).alien == 0) && (is_alien j == 0)
            then update is_alien j i
            else is_alien)
          is_alien)
      (λ _. 0)

-- The shot of the alien in column `k`, with the next column to start from; the sum is an `int` that
-- is added up from the left here, since `49-(50/shoot_pointer)` may be negative.
unfoldable pub shoot_from : (is_alien : ℕ → ℕ) → (k : ℕ) → Game → Game
shoot_from is_alien k g =
    let g1 = with_cell (is_alien k) k (set_alien_shoot 1) g in
    let p = g1.shoot_pointer + 1 in
    record g1 { last_shoot = g1.y_aliens + 49 - 50 / p; shoot_pointer = p % 5 }

-- The last loop, from column `k` on with the rounds left; `EASY` bounds it by one shot.
unfoldable pub shoot_first : (rounds k : ℕ) → (is_alien : ℕ → ℕ) → Game → Game
shoot_first zero k is_alien g = g
shoot_first (suc rounds) k is_alien g =
    let rest = shoot_first rounds (k + 1) is_alien g in
    if ltb k 80 then (if ltb 0 (is_alien k) then shoot_from is_alien k g else rest) else g

-- `gettime()` answers `now`.
unfoldable pub ia_shoot_alien : (now : ℕ) → Game → Game
ia_shoot_alien now g = if now % 2 == 0 then shoot_first 80 g.last_shoot (find_aliens g) g else g

unfoldable pub ia_move : (now : ℕ) → Game → Game
ia_move now g = ia_shoot_alien now (move_aliens (move_shoots g))

-- ===== src/Game/Fleet/Hold.antt =====
-- The moves of the aliens of zeos/user.c keep them in their rectangle.
use soa_subject.Prelude.{ℕ, ◌+◌, ◌-◌, ◌≤◌, ◌<◌, ◌≡◌, ◌≢◌, sym, subst, ◌∙◌, ◌⊎◌, arith}
use soa_subject.Game.{Game}
use soa_subject.Game.Fleet.{
  aliens_down, aliens_right, aliens_left, step_down, step_right, step_left, move_aliens,
}
use soa_subject.Game.Fleet.Swept.{aliens_of}
use soa_subject.Game.Fleet.Shift.{aliens_side-Shifted}
use soa_subject.Game.Fleet.Lower.{Contained, aliens_down-Contained}
use soa_subject.Game.Fleet.Same.{
  aliens_down-SameFleet, aliens_right-SameFleet, aliens_left-SameFleet,
}
use soa_subject.Game.Fleet.March.{
  Marches, rightwards, leftwards, downwards, move-down, move-right, move-left,
}

pub Contained-same :
    (g g' : Game) (x y x' y' : ℕ)
    → ((r c : ℕ) → aliens_of g' r c ≢ 0 → aliens_of g' r c ≡ aliens_of g r c)
    → x' ≡ x
    → y' ≡ y
    → Contained x y g
    → Contained x' y' g'
Contained-same g g' x y x' y' same ex ey h r c n =
    let e = same r c n in let b = h r c (λ z. n (e ∙ z)) in (e ∙ b.0, ground (arith, b.1, ex, ey))

-- The two sides.
module _ (g : Game) (x y : ℕ) (top : 3 ≤ x) (low : x ≤ 17) (h : Contained x y g) where
  aliens_right-Contained : 2 ≤ y → y < 29 → Contained x (y + 1) (aliens_right g)
  aliens_right-Contained west east r c n =
      let e = (aliens_side-Shifted g).0.aliens r c in
      ground (arith, e, n, h r c, h r (c - 1), h r 77)

  aliens_left-Contained : 2 < y → y ≤ 29 → Contained x (y - 1) (aliens_left g)
  aliens_left-Contained west east r c n =
      let e = (aliens_side-Shifted g).1.aliens r c in
      ground (arith, e, n, h r c, h r (c + 1), h r 2)

-- The three steps.
module _ (g : Game) (top : 3 ≤ g.x_aliens) (held : Contained g.x_aliens g.y_aliens g)
    (low : g.x_aliens < 18) where
  step_right-Contained :
      2 ≤ g.y_aliens
      → g.y_aliens < 29
      → let g' = step_right g in (3 ≤ g'.x_aliens) × Contained g'.x_aliens g'.y_aliens g'
  unfolding step_right
  step_right-Contained west east =
      let s = aliens_right-SameFleet g in
      (
        ground (arith, s.x_aliens, top),
        Contained-same (aliens_right g) (step_right g) _ _ _ _ (λ r c n. ground arith)
            (ground (arith, s.x_aliens)) (ground (arith, s.y_aliens))
            (aliens_right-Contained g _ _ top (omega (arith, low)) held west east),
      )

  step_left-Contained :
      2 < g.y_aliens
      → g.y_aliens ≤ 29
      → let g' = step_left g in (3 ≤ g'.x_aliens) × Contained g'.x_aliens g'.y_aliens g'
  unfolding step_left
  step_left-Contained west east =
      let s = aliens_left-SameFleet g in
      (
        ground (arith, s.x_aliens, top),
        Contained-same (aliens_left g) (step_left g) _ _ _ _ (λ r c n. ground arith)
            (ground (arith, s.x_aliens)) (ground (arith, s.y_aliens))
            (aliens_left-Contained g _ _ top (omega (arith, low)) held west east),
      )

  step_down-Contained :
      (g.y_aliens ≡ 2) ⊎ (g.y_aliens ≡ 29)
      → let g' = step_down g in (3 ≤ g'.x_aliens) × Contained g'.x_aliens g'.y_aliens g'
  unfolding step_down
  step_down-Contained side =
      let s = aliens_down-SameFleet g in
      (
        ground (arith, s.x_aliens, top),
        Contained-same (aliens_down g) (step_down g) _ _ _ _ (λ r c n. ground arith)
            (ground (arith, s.x_aliens)) (ground (arith, s.y_aliens))
            (aliens_down-Contained _ _ top (omega (arith, low)) (ground (arith, side))
              (ground (arith, side)) g held),
      )

  pub move_aliens-Contained :
      (n : ℕ)
      → Marches n g
      → let g' = move_aliens g in (3 ≤ g'.x_aliens) × Contained g'.x_aliens g'.y_aliens g'
  move_aliens-Contained n (rightwards d r l lo hi x e) =
      subst (λ s. (3 ≤ s.x_aliens) × Contained s.x_aliens s.y_aliens s)
        (sym (move-right g d (omega arith))) (step_right-Contained lo hi)
  move_aliens-Contained n (leftwards d r l lo hi x e) =
      subst (λ s. (3 ≤ s.x_aliens) × Contained s.x_aliens s.y_aliens s)
        (sym (move-left g d r (omega arith))) (step_left-Contained lo hi)
  move_aliens-Contained n (downwards d r l y x e) =
      subst (λ s. (3 ≤ s.x_aliens) × Contained s.x_aliens s.y_aliens s)
        (sym (move-down g (omega arith))) (step_down-Contained y)

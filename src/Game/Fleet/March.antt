-- ===== src/Game/Fleet/March.antt =====
-- The march of the aliens: the formation's place and direction, whatever is on the board.
use soa_subject.Prelude.{
  ℕ, ◌+◌, ◌-◌, ◌*◌, ◌≤◌, ◌<◌, ◌≡◌, ◌≢◌, refl, sym, subst, ◌∙◌, ◌⊎◌, inl, inr, true, leb, ◌==◌,
  arith, Bool-cases, ==→≡, ==→≢,
}
use soa_subject.Game.{Game}
use soa_subject.Game.Fleet.{
  aliens_down, aliens_right, aliens_left, step_down, step_right, step_left, move_aliens,
}
use soa_subject.Game.Fleet.Same.{
  SameFleet, aliens_down-SameFleet, aliens_right-SameFleet, aliens_left-SameFleet,
}

-- The three headings, each with the moves that are left until the aliens have landed: 27 sideways
-- and one down for each row.
pub data Marches (n : ℕ) (g : Game) : Type 0 where
  rightwards :
      g.move_down ≡ 0
      → g.move_right ≡ 1
      → g.move_left ≡ 0
      → 2 ≤ g.y_aliens
      → g.y_aliens < 29
      → g.x_aliens < 18
      → n + g.y_aliens ≡ 30 + 28 * (17 - g.x_aliens)
      → Marches n g
  leftwards :
      g.move_down ≡ 0
      → g.move_right ≡ 0
      → g.move_left ≡ 1
      → 2 < g.y_aliens
      → g.y_aliens ≤ 29
      → g.x_aliens < 18
      → n + 1 ≡ g.y_aliens + 28 * (17 - g.x_aliens)
      → Marches n g
  downwards :
      g.move_down ≡ 1
      → g.move_right ≡ 0
      → g.move_left ≡ 0
      → (g.y_aliens ≡ 2) ⊎ (g.y_aliens ≡ 29)
      → g.x_aliens < 18
      → n ≡ 1 + 28 * (17 - g.x_aliens)
      → Marches n g

-- At most `n` moves are left until the game is lost.
abbrev pub Within : ℕ → Game → Type 0
Within n g = (g.lose ≡ 1) ⊎ Marches n g

pub Within-zero : (g : Game) → Within 0 g → g.lose ≡ 1
Within-zero g (inl e) = e
Within-zero g (inr (rightwards d r l lo hi x e)) = absurd (omega arith)
Within-zero g (inr (leftwards d r l lo hi x e)) = absurd (omega arith)
Within-zero g (inr (downwards d r l y x e)) = absurd (omega arith)

-- What changes nothing of the march keeps the bound.
pub Within-SameFleet : (n : ℕ) (g g' : Game) → SameFleet g g' → Within n g → Within n g'
Within-SameFleet n g g' s (inl e) = inl (lost s.lost)
  where
    lost : (g'.lose ≡ g.lose) ⊎ (g'.lose ≡ 1) → g'.lose ≡ 1
    lost (inl f) = f ∙ e
    lost (inr f) = f
Within-SameFleet n g g' s (inr (rightwards d r l lo hi x e)) = inr (
    rightwards (s.move_down ∙ d) (s.move_right ∙ r) (s.move_left ∙ l) (omega (arith, s.y_aliens))
      (omega (arith, s.y_aliens)) (omega (arith, s.x_aliens))
      (omega (arith, s.y_aliens, s.x_aliens)))
Within-SameFleet n g g' s (inr (leftwards d r l lo hi x e)) = inr (
    leftwards (s.move_down ∙ d) (s.move_right ∙ r) (s.move_left ∙ l) (omega (arith, s.y_aliens))
      (omega (arith, s.y_aliens)) (omega (arith, s.x_aliens))
      (omega (arith, s.y_aliens, s.x_aliens)))
Within-SameFleet n g g' s (inr (downwards d r l y x e)) = inr (
    downwards (s.move_down ∙ d) (s.move_right ∙ r) (s.move_left ∙ l) (ground (arith, s.y_aliens, y))
      (omega (arith, s.x_aliens)) (omega (arith, s.x_aliens)))

-- The branches of `move_aliens`.
module _ (g : Game) where
  pub move-down : g.move_down ≢ 0 → move_aliens g ≡ step_down g
  unfolding move_aliens
  move-down d = ground arith

  pub move-right : g.move_down ≡ 0 → g.move_right ≢ 0 → move_aliens g ≡ step_right g
  unfolding move_aliens
  move-right d r = ground arith

  pub move-left : g.move_down ≡ 0 → g.move_right ≡ 0 → g.move_left ≢ 0 → move_aliens g ≡ step_left g
  unfolding move_aliens
  move-left d r l = ground arith

  -- A game that is lost stays so.
  pub lost-move_aliens : g.lose ≡ 1 → (move_aliens g).lose ≡ 1
  unfolding move_aliens step_down step_right step_left
  lost-move_aliens e = ground (
    arith,
    (aliens_down-SameFleet g).lost,
    (aliens_right-SameFleet g).lost,
    (aliens_left-SameFleet g).lost,
  )

  step_right-Within :
      (n : ℕ)
      → g.move_down ≡ 0
      → g.move_left ≡ 0
      → 2 ≤ g.y_aliens
      → g.y_aliens < 29
      → g.x_aliens < 18
      → n + 1 + g.y_aliens ≡ 30 + 28 * (17 - g.x_aliens)
      → g.move_right ≡ 1
      → Within n (step_right g)
  unfolding step_right
  step_right-Within n d l lo hi x e r = go (aliens_right-SameFleet g)
    where
      go : SameFleet g (aliens_right g) → Within n (step_right g)
      go s = elim (Bool-cases ((aliens_right g).y_aliens + 1 == 29)) [
        | inl t ↦ rw t (
            inr (
              downwards refl refl (s.move_left ∙ l) (inr (==→≡ _ _ t)) (omega (arith, s.x_aliens))
                (omega (arith, ==→≡ _ _ t, s.y_aliens, s.x_aliens))))
        | inr t ↦ rw t (
            inr (
              rightwards (s.move_down ∙ d) (s.move_right ∙ r) (s.move_left ∙ l)
                (omega (arith, s.y_aliens)) (omega (arith, s.y_aliens, ==→≢ _ _ t))
                (omega (arith, s.x_aliens)) (omega (arith, s.y_aliens, s.x_aliens))))
      ]

  step_left-Within :
      (n : ℕ)
      → g.move_down ≡ 0
      → g.move_right ≡ 0
      → 2 < g.y_aliens
      → g.y_aliens ≤ 29
      → g.x_aliens < 18
      → n + 1 + 1 ≡ g.y_aliens + 28 * (17 - g.x_aliens)
      → g.move_left ≡ 1
      → Within n (step_left g)
  unfolding step_left
  step_left-Within n d r lo hi x e l = go (aliens_left-SameFleet g)
    where
      go : SameFleet g (aliens_left g) → Within n (step_left g)
      go s = elim (Bool-cases ((aliens_left g).y_aliens - 1 == 2)) [
        | inl t ↦ rw t (
            inr (
              downwards refl (s.move_right ∙ r) refl (inl (==→≡ _ _ t)) (omega (arith, s.x_aliens))
                (omega (arith, ==→≡ _ _ t, s.y_aliens, s.x_aliens))))
        | inr t ↦ rw t (
            inr (
              leftwards (s.move_down ∙ d) (s.move_right ∙ r) (s.move_left ∙ l)
                (omega (arith, s.y_aliens, ==→≢ _ _ t)) (omega (arith, s.y_aliens))
                (omega (arith, s.x_aliens)) (omega (arith, s.y_aliens, s.x_aliens))))
      ]

  step_down-Within :
      (n : ℕ)
      → g.move_right ≡ 0
      → g.move_left ≡ 0
      → (g.y_aliens ≡ 2) ⊎ (g.y_aliens ≡ 29)
      → g.x_aliens < 18
      → n + 1 ≡ 1 + 28 * (17 - g.x_aliens)
      → Within n (step_down g)
  unfolding step_down
  step_down-Within n r l y x e = go (aliens_down-SameFleet g)
    where
      go : SameFleet g (aliens_down g) → Within n (step_down g)
      go s = elim (Bool-cases (leb 18 ((aliens_down g).x_aliens + 1))) [
        | inl t ↦ rw t (inl (ground arith))
        | inr t ↦
            let room : g.x_aliens + 1 < 18 = ground (arith, s.x_aliens) in
            elim (Bool-cases (leb 29 (aliens_down g).y_aliens)) [
              | inl u ↦
                  let at : (aliens_down g).y_aliens ≡ 29 = ground (arith, s.y_aliens, y) in
                  rw (t, u)
                    (inr (
                      leftwards refl (s.move_right ∙ r) refl (omega arith) (omega arith)
                        (omega (arith, s.x_aliens)) (omega (arith, s.x_aliens))))
              | inr u ↦
                  let at : (aliens_down g).y_aliens ≡ 2 = ground (arith, s.y_aliens, y) in
                  let w : leb (aliens_down g).y_aliens 2 ≡ true = ground arith in
                  rw (t, u, w)
                    (inr (
                      rightwards refl refl (s.move_left ∙ l) (omega arith) (omega arith)
                        (omega (arith, s.x_aliens)) (omega (arith, s.x_aliens))))
            ]
      ]

-- Each move takes one from the moves that are left.
pub move_aliens-Within : (n : ℕ) (g : Game) → Within (n + 1) g → Within n (move_aliens g)
move_aliens-Within n g (inl e) = inl (lost-move_aliens g e)
move_aliens-Within n g (inr (rightwards d r l lo hi x e)) =
    subst (Within n) (sym (move-right g d (omega arith))) (step_right-Within g n d l lo hi x e r)
move_aliens-Within n g (inr (leftwards d r l lo hi x e)) =
    subst (Within n) (sym (move-left g d r (omega arith))) (step_left-Within g n d r lo hi x e l)
move_aliens-Within n g (inr (downwards d r l y x e)) =
    subst (Within n) (sym (move-down g (omega arith))) (step_down-Within g n r l y x e)

-- ===== src/Game/Fleet/Lower.antt =====
-- The rectangle that the aliens of zeos/user.c stay in, and how `aliens_down` lowers it.
use soa_subject.Prelude.{
  ℕ, zero, suc, ◌+◌, ◌-◌, ◌≤◌, ◌≡◌, ◌≢◌, refl, sym, subst, ◌∙◌, ltb, ◌&&◌, ◌||◌, ◌==◌,
  if◌then◌else◌, for_range, for_down, for_range_inv, Bool, not, Bool-cases, inl, inr, arith,
}
use soa_subject.Game.{Game}
use soa_subject.Game.Fleet.{Sweep, down_cell, count_aliens, aliens_down}
use soa_subject.Game.Fleet.Swept.{aliens_of}

-- The cell of row `r` and column `c` is among the five rows from `x` and the 49 columns from `y`.
pub record Inside (x y r c : ℕ) : Type 0 where
  pub top : x ≤ r
  pub bottom : r ≤ x + 4
  pub left : y ≤ c
  pub right : c ≤ y + 48

-- Every alien is marked by 1 and inside.
abbrev pub Contained : (x y : ℕ) → Game → Type 0
Contained x y g = (r c : ℕ) → aliens_of g r c ≢ 0 → (aliens_of g r c ≡ 1) × Inside x y r c

-- When the loops of `aliens_down` have come to row `i` and column `j`, the cells behind are a row lower.
abbrev lowered : (x i j r c : ℕ) → ℕ
lowered x i j r c = if ltb i r || ((r == i) && ltb c j) then x + 1 else x

abbrev Lowered : (x y i j : ℕ) → Game → Type 0
Lowered x y i j g =
    (r c : ℕ) → aliens_of g r c ≢ 0 → (aliens_of g r c ≡ 1) × Inside (lowered x i j r c) y r c

-- The aliens when one of column `j` has moved from row `i` to the next, or was shot there.
abbrev sunk : (hit : Bool) → (i j : ℕ) → (ℕ → ℕ → ℕ) → ℕ → ℕ → ℕ
sunk hit i j a r c =
    if not (a i j == 1) || not (c == j)
    then a r c
    else if r == i + 1
    then (if hit then a r c else 1)
    else if r == i
    then 0
    else a r c

down_cell_aliens :
    (i j : ℕ) (s : Sweep) (r c : ℕ)
    → aliens_of (down_cell i j s).game r c
      ≡ sunk ((s.game.board i j).ship_shoot == 1) i j (aliens_of s.game) r c
unfolding down_cell
down_cell_aliens i j s r c = elim (Bool-cases ((s.game.board i j).alien == 1)) [
  | inr e ↦ rw e (ground arith)
  | inl e ↦ elim (Bool-cases ((s.game.board i j).ship_shoot == 1)) [
    | inl f ↦ rw (e, f) (ground arith)
    | inr f ↦ elim (Bool-cases ((s.game.board i j).shield == 1)) [
      | inl d ↦ rw (e, f, d) (ground arith)
      | inr d ↦ rw (e, f, d) (ground arith)
    ]
  ]
]

count_aliens_same : (s : Sweep) (r c : ℕ) → aliens_of (count_aliens s) r c ≡ aliens_of s.game r c
unfolding count_aliens
count_aliens_same s r c = ground arith

module _ (x y : ℕ) (first : 3 ≤ x) (last : x ≤ 17) (west : 2 ≤ y) (east : y ≤ 29) where
  down_cell-Lowered :
      (i j : ℕ) (s : Sweep) → Lowered x y i j s.game → Lowered x y i (j + 1) (down_cell i j s).game
  down_cell-Lowered i j s h r c n =
      let e = down_cell_aliens i j s r c in ground (arith, e, n, h r c, h i j)

  row-Lowered :
      (i : ℕ) (s : Sweep)
      → 1 ≤ i
      → Lowered x y i 2 s.game
      → Lowered x y (i - 1) 2 (for_range 76 2 (λ j s. down_cell i j s) s).game
  row-Lowered i s pos h r c n =
      let e =
        for_range_inv (λ j t. Lowered x y i j t.game) (λ j s. down_cell i j s) 76 2 78 s refl
          (λ j t lo hi inv. down_cell-Lowered i j t inv) h r c n in
      (e.0, ground (arith, e.1))

  rows-Lowered :
      (n i : ℕ) (s : Sweep)
      → n + 2 ≡ i
      → Lowered x y i 2 s.game
      → Lowered x y 2 2 (for_down n i (λ i s. for_range 76 2 (λ j s. down_cell i j s) s) s).game
  unfolding for_down
  rows-Lowered zero i s e h = subst (λ k. Lowered x y k 2 s.game) (sym e) h
  rows-Lowered (suc n) i s e h =
      rows-Lowered n (i - 1) _ (omega (arith, e)) (row-Lowered i s (omega (arith, e)) h)

  pub aliens_down-Contained : (g : Game) → Contained x y g → Contained (x + 1) y (aliens_down g)
  unfolding aliens_down
  aliens_down-Contained g h r c n =
      let e =
        rows-Lowered 20 22 (record { game = g; total_aliens = 0 }) refl
          (λ r c n. let b = h r c n in (b.0, ground (arith, b.1))) r c
          (subst (λ a. a ≢ 0) (count_aliens_same _ r c) n) in
      (count_aliens_same _ r c ∙ e.0, ground (arith, e.1))

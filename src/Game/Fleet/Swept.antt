-- ===== src/Game/Fleet/Swept.antt =====
-- What a loop of `aliens_right` or `aliens_left` of zeos/user.c has done to the cells it was at.
use soa_subject.Prelude.{
  ℕ, ◌≤◌, ◌<◌, ◌≡◌, ◌≢◌, refl, ◌∙◌, ◌⊎◌, Bool, true, false, not, ◌&&◌, ◌||◌, ◌==◌, if◌then◌else◌,
  arith, Bool-cases, inl, inr,
}
use soa_subject.Game.{Game, Cell}
use soa_subject.Game.Fleet.{Sweep, side_cell}

-- The aliens of a board, and a part of its cells.
abbrev pub Aliens : Type 0
Aliens = ℕ → ℕ → ℕ

abbrev pub Part : Type 0
Part = ℕ → ℕ → Bool

abbrev pub aliens_of : Game → Aliens
aliens_of g i j = (g.board i j).alien

-- A cell with neither an alien nor a shield.
abbrev pub bare : Cell → Cell
bare c = record c { alien = 0; shield = 0 }

-- The cells of `part` have been visited: the aliens are now `after`, a shield is gone where an alien
-- was, and `total_aliens` has grown if there was one.
pub record Swept (part : Part) (after : Aliens) (s s' : Sweep) : Type 0 where
  pub aliens : (i j : ℕ) → aliens_of s'.game i j ≡ after i j
  pub shields :
      (i j : ℕ)
      → (s'.game.board i j).shield ≡ (
          if part i j && not (aliens_of s.game i j == 0) && ((s.game.board i j).shield == 1)
          then 0
          else (s.game.board i j).shield)
  pub cells : (i j : ℕ) → bare (s'.game.board i j) ≡ bare (s.game.board i j)
  pub others : record s'.game { board = s.game.board } ≡ s.game
  pub grows : s.total_aliens ≤ s'.total_aliens
  pub counted :
      (i j : ℕ) → part i j ≡ true → aliens_of s.game i j ≢ 0 → s.total_aliens < s'.total_aliens
  pub none :
      ((i j : ℕ) → part i j ≡ true → aliens_of s.game i j ≡ 0) → s'.total_aliens ≡ s.total_aliens

pub Swept-nothing : (s : Sweep) → Swept (λ i j. false) (aliens_of s.game) s s
Swept-nothing s = record {
  aliens = λ i j. refl;
  shields = λ i j. refl;
  cells = λ i j. refl;
  others = refl;
  grows = omega arith;
  counted = λ i j p n. ground arith;
  none = λ h. refl;
}

-- The same by other names.
pub Swept-same :
    (part part' : Part) (after after' : Aliens) (s s' : Sweep)
    → ((i j : ℕ) → part' i j ≡ part i j)
    → ((i j : ℕ) → after' i j ≡ after i j)
    → Swept part after s s'
    → Swept part' after' s s'
Swept-same part part' after after' s s' p a h = record {
  aliens = λ i j. ground (arith, h.aliens i j, a i j);
  shields = λ i j. ground (arith, h.shields i j, p i j);
  cells = h.cells;
  others = h.others;
  grows = h.grows;
  counted = λ i j b n. h.counted i j (ground (arith, b, p i j)) n;
  none = λ e. h.none (λ i j b. e i j (ground (arith, b, p i j)));
}

-- One part after another whose aliens the first has left.
pub Swept-both :
    (part part' : Part) (after after' : Aliens) (s t u : Sweep)
    → ((i j : ℕ) → part' i j ≡ true → after i j ≡ aliens_of s.game i j)
    → Swept part after s t
    → Swept part' after' t u
    → Swept (λ i j. part i j || part' i j) after' s u
Swept-both part part' after after' s t u left h h' = record {
  aliens = h'.aliens;
  shields = λ i j. ground (arith, h'.shields i j, h.shields i j, h.aliens i j, left i j);
  cells = λ i j. h'.cells i j ∙ h.cells i j;
  others = ground (arith, h'.others, h.others);
  grows = omega (arith, h.grows, h'.grows);
  counted = λ i j b n. counted i j n (Bool-cases (part i j)) b;
  none = λ e.
      h'.none (λ i j b.
        h.aliens i j
        ∙ left i j b
        ∙ e i j (let f : part i j || part' i j ≡ true = ground (arith, b) in f))
      ∙ h.none (λ i j b. e i j (ground (arith, b)));
}
  where
    counted :
        (i j : ℕ)
        → aliens_of s.game i j ≢ 0
        → (part i j ≡ true) ⊎ (part i j ≡ false)
        → (part i j || part' i j) ≡ true
        → s.total_aliens < u.total_aliens
    counted i j n (inl e) b = omega (arith, h.counted i j e n, h'.grows)
    counted i j n (inr e) b =
        let e' : part' i j ≡ true = ground (arith, e, b) in
        omega (
          arith,
          h.grows,
          h'.counted i j e' (λ z. n (let f = h.aliens i j ∙ left i j e' in ground (arith, f, z))),
        )

-- The cell of row `i` and column `j`.
abbrev pub cell_at : (i j : ℕ) → Part
cell_at i j r c = (r == i) && (c == j)

abbrev pub moved_to : (i j to : ℕ) → Aliens → Aliens
moved_to i j to a r c =
    if not (r == i) || (a i j == 0)
    then a r c
    else if c == to
    then 1
    else if c == j
    then 0
    else a r c

-- The three ways through `side_cell`.
module _ (i j to : ℕ) (s : Sweep) (r c : ℕ) (ne : j ≢ to) where
  side_cell_aliens :
      aliens_of (side_cell i j to s).game r c ≡ moved_to i j to (aliens_of s.game) r c
  unfolding side_cell
  side_cell_aliens = elim (Bool-cases ((s.game.board i j).alien == 0)) [
    | inl e ↦ rw e (ground (arith, ne))
    | inr e ↦ elim (Bool-cases ((s.game.board i j).shield == 1)) [
      | inl f ↦ rw (e, f) (ground (arith, ne))
      | inr f ↦ rw (e, f) (ground (arith, ne))
    ]
  ]

  side_cell_shields : ((side_cell i j to s).game.board r c).shield ≡ (
      if cell_at i j r c && not (aliens_of s.game r c == 0) && ((s.game.board r c).shield == 1)
      then 0
      else (s.game.board r c).shield)
  unfolding side_cell
  side_cell_shields = elim (Bool-cases ((s.game.board i j).alien == 0)) [
    | inl e ↦ rw e (ground (arith, e))
    | inr e ↦ elim (Bool-cases ((s.game.board i j).shield == 1)) [
      | inl f ↦ rw (e, f) (ground (arith, ne, e, f))
      | inr f ↦ rw (e, f) (ground (arith, ne, e, f))
    ]
  ]

pub side_cell-Swept :
    (i j to : ℕ) (s : Sweep)
    → j ≢ to
    → Swept (cell_at i j) (moved_to i j to (aliens_of s.game)) s (side_cell i j to s)
unfolding side_cell
side_cell-Swept i j to s ne = record {
  aliens = λ r c. side_cell_aliens i j to s r c ne;
  shields = λ r c. side_cell_shields i j to s r c ne;
  cells = λ r c. ground (arith, ne);
  others = ground arith;
  grows = ground arith;
  counted = λ r c b n. ground (arith, b, n);
  none = λ h. ground (arith, h i j);
}

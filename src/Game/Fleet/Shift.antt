-- ===== src/Game/Fleet/Shift.antt =====
-- `aliens_right` and `aliens_left` of zeos/user.c move the whole formation by a column.
use soa_subject.Prelude.{
  ℕ, zero, suc, ◌+◌, ◌-◌, ◌≤◌, ◌≡◌, ◌≢◌, refl, sym, ap, ◌∙◌, fun_ext, ◌⊎◌, true, false, not, leb,
  ltb, ◌&&◌, ◌==◌, if◌then◌else◌, for_range, for_down, arith, Bool-cases, inl, inr,
}
use soa_subject.Game.{Game}
use soa_subject.Game.Fleet.{Sweep, side_cell, count_aliens, aliens_right, aliens_left}
use soa_subject.Game.Fleet.Swept.{
  Aliens, Part, aliens_of, bare, Swept, Swept-nothing, Swept-same, Swept-both, cell_at, moved_to,
  side_cell-Swept,
}

-- The columns from `lo` up to `hi` in the rows from `top` up to `end`.
abbrev block : (top end lo hi : ℕ) → Part
block top end lo hi r c = leb top r && ltb r end && (leb lo c && ltb c hi)

-- A row when the columns from `j` down to `lo` have moved to the right.
abbrev pub right_row : (lo j : ℕ) → (ℕ → ℕ) → ℕ → ℕ
right_row lo j a c =
    if ltb j lo
    then a c
    else if c == j + 1
    then (if a j == 0 then a c else 1)
    else if c == lo
    then 0
    else if ltb lo c && leb c j
    then (if a (c - 1) == 0 then 0 else 1)
    else a c

-- A row when the columns from `j` up to `hi` have moved to the left.
abbrev pub left_row : (hi j : ℕ) → (ℕ → ℕ) → ℕ → ℕ
left_row hi j a c =
    if ltb hi j
    then a c
    else if c + 1 == j
    then (if a j == 0 then a c else 1)
    else if c == hi
    then 0
    else if leb j c && ltb c hi
    then (if a (c + 1) == 0 then 0 else 1)
    else a c

-- The same for the rows from `top` up to `end`.
abbrev pub in_rows : (top end : ℕ) → ((ℕ → ℕ) → ℕ → ℕ) → Aliens → Aliens
in_rows top end f a r c = if leb top r && ltb r end then f (a r) c else a r c

-- A row when the alien of column `j`, if any, has moved to column `to`.
abbrev one_moved : (j to : ℕ) → (ℕ → ℕ) → ℕ → ℕ
one_moved j to a c = if a j == 0 then a c else if c == to then 1 else if c == j then 0 else a c

module _ (a b : ℕ → ℕ) (j c : ℕ) where
  right_row-step :
      (lo : ℕ)
      → lo ≤ j
      → ((x : ℕ) → b x ≡ one_moved j (j + 1) a x)
      → 1 ≤ lo
      → right_row lo j a c ≡ right_row lo (j - 1) b c
  right_row-step lo le h pos = elim (Bool-cases (leb j c)) [
    | inl e ↦ ground (arith, e, le, pos, h c, h (j - 1))
    | inr e ↦ ground (arith, e, le, pos, h c, h (c - 1))
  ]

  left_row-step :
      (hi : ℕ)
      → j ≤ hi
      → ((x : ℕ) → b x ≡ one_moved j (j - 1) a x)
      → 1 ≤ j
      → left_row hi j a c ≡ left_row hi (j + 1) b c
  left_row-step hi le h pos = elim (Bool-cases (leb c j)) [
    | inl e ↦ ground (arith, e, le, pos, h c, h (j + 1))
    | inr e ↦ ground (arith, e, le, pos, h c, h (c + 1))
  ]

module _ (i : ℕ) where
  -- One row, by the aliens of the sweep behind its first cell.
  row_step :
      (j to : ℕ) (f g : (ℕ → ℕ) → ℕ → ℕ) (s : Sweep)
      → j ≢ to
      → ((a b : ℕ → ℕ) (c : ℕ) → ((x : ℕ) → b x ≡ one_moved j to a x) → f a c ≡ g b c)
      → (r c : ℕ)
      → in_rows i (i + 1) f (aliens_of s.game) r c
        ≡ in_rows i (i + 1) g (aliens_of (side_cell i j to s).game) r c
  row_step j to f g s ne step r c = elim (Bool-cases (leb i r && ltb r (i + 1))) [
    | inl e ↦ rw e (
        step (aliens_of s.game r) (aliens_of (side_cell i j to s).game r) c
          (λ x. (side_cell-Swept i j to s ne).aliens r x ∙ ground (arith, e)))
    | inr e ↦ rw e (sym ((side_cell-Swept i j to s ne).aliens r c ∙ ground (arith, e)))
  ]

  right_row-Swept :
      (n lo j : ℕ) (s : Sweep)
      → 1 ≤ lo
      → n + lo ≡ j + 1
      → Swept
          (block i (i + 1) lo (j + 1))
          (in_rows i (i + 1) (right_row lo j) (aliens_of s.game))
          s
          (for_down n j (λ j s. side_cell i j (j + 1) s) s)
  unfolding for_down
  right_row-Swept zero lo j s pos e =
      Swept-same _ _ _ _ s s (λ r c. ground (arith, e)) (λ r c. ground (arith, e)) (Swept-nothing s)
  right_row-Swept (suc n) lo j s pos e =
      let le : lo ≤ j = omega (arith, e) in
      Swept-same _ _ _ _ s _ (λ r c. ground (arith, le))
        (row_step j (j + 1) (right_row lo j) (right_row lo (j - 1)) s (omega arith)
          (λ a b c h. right_row-step a b j c lo le h pos))
        (Swept-both (cell_at i j) _ (moved_to i j (j + 1) (aliens_of s.game)) _ s _ _
          (λ r c b. ground (arith, b, le)) (side_cell-Swept i j (j + 1) s (omega arith))
          (right_row-Swept n lo (j - 1) (side_cell i j (j + 1) s) pos (omega (arith, e, pos))))

  left_row-Swept :
      (n hi j : ℕ) (s : Sweep)
      → 1 ≤ j
      → n + j ≡ hi + 1
      → Swept
          (block i (i + 1) j (hi + 1))
          (in_rows i (i + 1) (left_row hi j) (aliens_of s.game))
          s
          (for_range n j (λ j s. side_cell i j (j - 1) s) s)
  unfolding for_range
  left_row-Swept zero hi j s pos e =
      Swept-same _ _ _ _ s s (λ r c. ground (arith, e)) (λ r c. ground (arith, e)) (Swept-nothing s)
  left_row-Swept (suc n) hi j s pos e =
      let le : j ≤ hi = omega (arith, e) in
      Swept-same _ _ _ _ s _ (λ r c. ground (arith, le))
        (row_step j (j - 1) (left_row hi j) (left_row hi (j + 1)) s (omega (arith, pos))
          (λ a b c h. left_row-step a b j c hi le h pos))
        (Swept-both (cell_at i j) _ (moved_to i j (j - 1) (aliens_of s.game)) _ s _ _
          (λ r c b. ground (arith, b, le, pos)) (side_cell-Swept i j (j - 1) s (omega (arith, pos)))
          (left_row-Swept n hi (j + 1) (side_cell i j (j - 1) s) (omega (arith, pos))
            (omega (arith, e))))

-- Row by row.
module _ (lo hi : ℕ) (f : (ℕ → ℕ) → ℕ → ℕ) (body : ℕ → Sweep → Sweep)
    (row : (i : ℕ) (s : Sweep)
      → Swept (block i (i + 1) lo hi) (in_rows i (i + 1) f (aliens_of s.game)) s (body i s)) where
  rows-Swept :
      (n i : ℕ) (s : Sweep)
      → Swept
          (block i (i + n) lo hi)
          (in_rows i (i + n) f (aliens_of s.game))
          s
          (for_range n i body s)
  unfolding for_range
  rows-Swept zero i s =
      Swept-same _ _ _ _ s s (λ r c. ground arith) (λ r c. ground arith) (Swept-nothing s)
  rows-Swept (suc n) i s =
      Swept-same _ _ _ _ s _ (λ r c. ground arith)
        (λ r c. after r c (Bool-cases (leb i r && ltb r (i + 1))))
        (Swept-both (block i (i + 1) lo hi) _ (in_rows i (i + 1) f (aliens_of s.game)) _ s _ _
          (λ r c b. ground (arith, b)) (row i s) (rows-Swept n (i + 1) (body i s)))
    where
      after :
          (r c : ℕ)
          → ((leb i r && ltb r (i + 1)) ≡ true) ⊎ ((leb i r && ltb r (i + 1)) ≡ false)
          → in_rows i (i + suc n) f (aliens_of s.game) r c
            ≡ in_rows (i + 1) (i + 1 + n) f (aliens_of (body i s).game) r c
      after r c (inl e) = ground (arith, e, (row i s).aliens r c)
      after r c (inr e) =
          let same : aliens_of (body i s).game r ≡ aliens_of s.game r =
            fun_ext (λ x. (row i s).aliens r x ∙ ground (arith, e)) in
          ap (λ a. if leb i r && ltb r (i + suc n) then f a c else a c) (sym same)
          ∙ ground (arith, e)

-- The cells that the loops visit.
abbrev field : Part
field = block 3 22 2 78

-- The game `g'` is `g` with the aliens `after`; a shield is gone where an alien stood, and the game
-- is won if none did.
pub record Shifted (after : Aliens) (g g' : Game) : Type 0 where
  pub aliens : (i j : ℕ) → aliens_of g' i j ≡ after i j
  pub shields :
      (i j : ℕ)
      → (g'.board i j).shield ≡ (
          if field i j && not (aliens_of g i j == 0) && ((g.board i j).shield == 1)
          then 0
          else (g.board i j).shield)
  pub cells : (i j : ℕ) → bare (g'.board i j) ≡ bare (g.board i j)
  pub others : record g' { board = g.board; win = g.win } ≡ g
  pub goes_on : (i j : ℕ) → field i j ≡ true → aliens_of g i j ≢ 0 → g'.win ≡ g.win
  pub won : ((i j : ℕ) → field i j ≡ true → aliens_of g i j ≡ 0) → g'.win ≡ 1

count_aliens-Shifted :
    (after : Aliens) (g : Game) (s : Sweep)
    → Swept field after (record { game = g; total_aliens = 0 }) s
    → Shifted after g (count_aliens s)
unfolding count_aliens
count_aliens-Shifted after g s h = record {
  aliens = λ i j. ground (arith, h.aliens i j);
  shields = λ i j. ground (arith, h.shields i j);
  cells = λ i j. ground (arith, h.cells i j);
  others = ground (arith, h.others);
  goes_on = λ i j b n. ground (arith, h.counted i j b n, h.others);
  won = λ e. ground (arith, h.none e);
}

-- In the rows 3 to 21 `aliens_right` moves each alien of the columns 2 to 77 one column to the
-- right, and `aliens_left` one to the left, with the mark 1, and every other alien stays; a shield is
-- gone where one of these aliens stood, the rest of each cell and the other globals are as they were, and
-- `WIN` becomes 1 if these cells had no alien and stays as it was if they had one.
pub aliens_side-Shifted :
    (g : Game)
    → Shifted (in_rows 3 22 (right_row 2 77) (aliens_of g)) g (aliens_right g)
      × Shifted (in_rows 3 22 (left_row 77 2) (aliens_of g)) g (aliens_left g)
unfolding aliens_right aliens_left
aliens_side-Shifted g = (
  count_aliens-Shifted _ g _ (
      rows-Swept 2 78 (right_row 2 77) _ (λ i s. right_row-Swept i 76 2 77 s (omega arith) refl) 19
        3 (record { game = g; total_aliens = 0 })),
  count_aliens-Shifted _ g _ (
      rows-Swept 2 78 (left_row 77 2) _ (λ i s. left_row-Swept i 76 77 2 s (omega arith) refl) 19 3
        (record { game = g; total_aliens = 0 })),
)

-- ===== src/Game/Picture.antt =====
-- The cells that `welcome` of zeos/user.c colors, statement by statement.
use soa_subject.Prelude.{ℕ, List, [], ◌∷◌}

-- A place on the screen, with the color of the blank that is written there.
pub record Spot : Type 0 where
  pub row : ℕ
  pub column : ℕ
  pub color : ℕ

abbrev pub blank_color : ℕ
blank_color = 0x80

-- `REDBG` and `GREENBG`
abbrev red : ℕ → ℕ → Spot
red row column = record { row = row; column = column; color = 0x40 }

abbrev green : ℕ → ℕ → Spot
green row column = record { row = row; column = column; color = 0x20 }

-- The statements for row 6.
abbrev row_6 : List Spot
row_6 =
    red 6 31
    ∷ red 6 32
    ∷ red 6 33
    ∷ red 6 35
    ∷ red 6 36
    ∷ red 6 37
    ∷ red 6 39
    ∷ red 6 40
    ∷ red 6 41
    ∷ red 6 43
    ∷ red 6 44
    ∷ red 6 45
    ∷ red 6 47
    ∷ red 6 48
    ∷ red 6 49
    ∷ []

-- The statements for row 7.
abbrev row_7 : List Spot
row_7 = red 7 31 ∷ red 7 35 ∷ red 7 37 ∷ red 7 39 ∷ red 7 41 ∷ red 7 43 ∷ red 7 47 ∷ []

-- The statements for row 8.
abbrev row_8 : List Spot
row_8 =
    green 8 9
    ∷ green 8 15
    ∷ red 8 31
    ∷ red 8 32
    ∷ red 8 33
    ∷ red 8 35
    ∷ red 8 36
    ∷ red 8 37
    ∷ red 8 39
    ∷ red 8 40
    ∷ red 8 41
    ∷ red 8 43
    ∷ red 8 47
    ∷ red 8 48
    ∷ green 8 64
    ∷ green 8 70
    ∷ []

-- The statements for row 9.
abbrev row_9 : List Spot
row_9 =
    green 9 10
    ∷ green 9 14
    ∷ red 9 33
    ∷ red 9 35
    ∷ red 9 39
    ∷ red 9 41
    ∷ red 9 43
    ∷ red 9 47
    ∷ green 9 65
    ∷ green 9 69
    ∷ []

-- The statements for row 10.
abbrev row_10 : List Spot
row_10 =
    green 10 9
    ∷ green 10 10
    ∷ green 10 11
    ∷ green 10 12
    ∷ green 10 13
    ∷ green 10 14
    ∷ green 10 15
    ∷ red 10 31
    ∷ red 10 32
    ∷ red 10 33
    ∷ red 10 35
    ∷ red 10 39
    ∷ red 10 41
    ∷ red 10 43
    ∷ red 10 44
    ∷ red 10 45
    ∷ red 10 47
    ∷ red 10 48
    ∷ red 10 49
    ∷ green 10 64
    ∷ green 10 65
    ∷ green 10 66
    ∷ green 10 67
    ∷ green 10 68
    ∷ green 10 69
    ∷ green 10 70
    ∷ []

-- The statements for row 11.
abbrev row_11 : List Spot
row_11 =
    green 11 8
    ∷ green 11 9
    ∷ green 11 11
    ∷ green 11 12
    ∷ green 11 13
    ∷ green 11 15
    ∷ green 11 16
    ∷ green 11 63
    ∷ green 11 64
    ∷ green 11 66
    ∷ green 11 67
    ∷ green 11 68
    ∷ green 11 70
    ∷ green 11 71
    ∷ []

-- The statements for row 12.
abbrev row_12 : List Spot
row_12 =
    green 12 7
    ∷ green 12 8
    ∷ green 12 9
    ∷ green 12 10
    ∷ green 12 11
    ∷ green 12 12
    ∷ green 12 13
    ∷ green 12 14
    ∷ green 12 15
    ∷ green 12 16
    ∷ green 12 17
    ∷ green 12 62
    ∷ green 12 63
    ∷ green 12 64
    ∷ green 12 65
    ∷ green 12 66
    ∷ green 12 67
    ∷ green 12 68
    ∷ green 12 69
    ∷ green 12 70
    ∷ green 12 71
    ∷ green 12 72
    ∷ []

-- The statements for row 13.
abbrev row_13 : List Spot
row_13 =
    green 13 7
    ∷ green 13 9
    ∷ green 13 10
    ∷ green 13 11
    ∷ green 13 12
    ∷ green 13 13
    ∷ green 13 14
    ∷ green 13 15
    ∷ green 13 17
    ∷ red 13 24
    ∷ red 13 25
    ∷ red 13 26
    ∷ red 13 28
    ∷ red 13 31
    ∷ red 13 33
    ∷ red 13 35
    ∷ red 13 37
    ∷ red 13 38
    ∷ red 13 39
    ∷ red 13 41
    ∷ red 13 42
    ∷ red 13 45
    ∷ red 13 46
    ∷ red 13 47
    ∷ red 13 49
    ∷ red 13 50
    ∷ red 13 51
    ∷ red 13 53
    ∷ red 13 54
    ∷ red 13 55
    ∷ green 13 62
    ∷ green 13 64
    ∷ green 13 65
    ∷ green 13 66
    ∷ green 13 67
    ∷ green 13 68
    ∷ green 13 69
    ∷ green 13 70
    ∷ green 13 72
    ∷ []

-- The statements for row 14.
abbrev row_14 : List Spot
row_14 =
    green 14 7
    ∷ green 14 9
    ∷ green 14 15
    ∷ green 14 17
    ∷ red 14 25
    ∷ red 14 28
    ∷ red 14 29
    ∷ red 14 31
    ∷ red 14 33
    ∷ red 14 35
    ∷ red 14 37
    ∷ red 14 39
    ∷ red 14 41
    ∷ red 14 43
    ∷ red 14 45
    ∷ red 14 49
    ∷ red 14 51
    ∷ red 14 53
    ∷ green 14 62
    ∷ green 14 64
    ∷ green 14 70
    ∷ green 14 72
    ∷ []

-- The statements for row 15.
abbrev row_15 : List Spot
row_15 =
    green 15 10
    ∷ green 15 11
    ∷ green 15 13
    ∷ green 15 14
    ∷ red 15 25
    ∷ red 15 28
    ∷ red 15 30
    ∷ red 15 31
    ∷ red 15 33
    ∷ red 15 35
    ∷ red 15 37
    ∷ red 15 38
    ∷ red 15 39
    ∷ red 15 41
    ∷ red 15 43
    ∷ red 15 45
    ∷ red 15 46
    ∷ red 15 49
    ∷ red 15 50
    ∷ red 15 51
    ∷ red 15 53
    ∷ red 15 54
    ∷ red 15 55
    ∷ green 15 65
    ∷ green 15 66
    ∷ green 15 68
    ∷ green 15 69
    ∷ []

-- The statements for row 16.
abbrev row_16 : List Spot
row_16 =
    red 16 25
    ∷ red 16 28
    ∷ red 16 30
    ∷ red 16 31
    ∷ red 16 33
    ∷ red 16 35
    ∷ red 16 37
    ∷ red 16 39
    ∷ red 16 41
    ∷ red 16 43
    ∷ red 16 45
    ∷ red 16 49
    ∷ red 16 50
    ∷ red 16 55
    ∷ []

-- The statements for row 17.
abbrev row_17 : List Spot
row_17 =
    red 17 24
    ∷ red 17 25
    ∷ red 17 26
    ∷ red 17 28
    ∷ red 17 31
    ∷ red 17 34
    ∷ red 17 37
    ∷ red 17 39
    ∷ red 17 41
    ∷ red 17 42
    ∷ red 17 45
    ∷ red 17 46
    ∷ red 17 47
    ∷ red 17 49
    ∷ red 17 51
    ∷ red 17 53
    ∷ red 17 54
    ∷ red 17 55
    ∷ []

-- The statements of `welcome` behind its loops, in their order.
abbrev pub spots : List (List Spot)
spots =
    row_6 ∷ row_7 ∷ row_8 ∷ row_9 ∷ row_10 ∷ row_11 ∷ row_12 ∷ row_13 ∷ row_14 ∷ row_15 ∷ row_16
    ∷ row_17 ∷ []

-- ===== src/Tests/Fleets.antt =====
-- The theorems about the aliens of the game at concrete boards.
use soa_subject.Prelude.{◌≡◌, ◌⊎◌, none, some, List, [], ◌∷◌}
use soa_subject.Game.{new_game, init_board}
use soa_subject.Game.Fleet.{aliens_right, aliens_left}
use soa_subject.Game.Fleet.Swept.{aliens_of}
use soa_subject.Game.Fleet.Shift.{Shifted, in_rows, right_row, left_row, aliens_side-Shifted}
use soa_subject.Game.Play.{Turn, play}
use soa_subject.Game.Play.Formation.{InFormation, play-InFormation}

-- Two moves of the aliens, with a shot before the second.
abbrev moves : List Turn
moves =
    record { key = none; now = 19; now_shoot = 19; now_end = 20 }
    ∷ record { key = some 119; now = 40; now_shoot = 40; now_end = 41 }
    ∷ []

play-InFormation_example :
    ((play moves (init_board new_game)).lose ≡ 1) ⊎ InFormation (play moves (init_board new_game))
play-InFormation_example = play-InFormation moves

aliens_side-Shifted_example :
    Shifted
      (in_rows 3 22 (right_row 2 77) (aliens_of (init_board new_game)))
      (init_board new_game)
      (aliens_right (init_board new_game))
    × Shifted
        (in_rows 3 22 (left_row 77 2) (aliens_of (init_board new_game)))
        (init_board new_game)
        (aliens_left (init_board new_game))
aliens_side-Shifted_example = aliens_side-Shifted (init_board new_game)

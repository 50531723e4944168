-- ===== src/Game/Welcome.antt =====
-- The first picture of the game, which `welcome` of zeos/user.c draws in a page.
use soa_subject.Prelude.{◌+◌, ◌*◌, update, for_range, List, [], ◌∷◌}
use soa_subject.Config.{num_rows, num_columns}
use soa_subject.Libc.{stos}
use soa_subject.Game.Screen.{Matrix}
use soa_subject.Game.Picture.{Spot, spots, blank_color}

unfoldable pub put_spots : List Spot → Matrix → Matrix
put_spots [] m = m
put_spots (s ∷ ss) m = put_spots ss (update m (num_columns * s.row + s.column) (stos b' ' s.color))

unfoldable pub put_rows : List (List Spot) → Matrix → Matrix
unfolding put_spots
put_rows [] m = m
put_rows (r ∷ rs) m = put_rows rs (put_spots r m)

-- What `welcome` draws in a page.
unfoldable pub put_welcome : Matrix → Matrix
unfolding put_rows
put_welcome m = put_rows spots (
    for_range num_rows 0
      (λ i m.
        for_range num_columns 0 (λ j m. update m (num_columns * i + j) (stos b' ' blank_color)) m)
      m)

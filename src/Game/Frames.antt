-- ===== src/Game/Frames.antt =====
-- The two threads of zeos/user.c that share the buffer of frames: `thread_push` draws, `thread_dump`
-- shows. Semaphore 0 makes the body of each one step.
pub mod Order
pub mod Dump
pub mod Run
use soa_subject.Prelude.{
  ℕ, ◌+◌, ◌^◌, Bool, true, false, ◌==◌, if◌then◌else◌, update, List, [], ◌∷◌, ◌++◌, add32,
}
use soa_subject.Ring.{Ring, push_frame, read_frame}
use soa_subject.Game.{Game, init_board}
use soa_subject.Game.Welcome.{put_welcome}
use soa_subject.Game.Screen.{Matrix, Meter, board_to_screen, put_win, put_over}

-- `frame_buff` with its indices, the pages of the process by address, those that `alloc` has given,
-- the counters, and the matrices that `dump_screen` has shown, the last one at the end.
pub record Frames : Type 0 where
  pub frames : Ring
  pub pages : ℕ → Matrix
  pub taken : ℕ → Bool
  pub meter : Meter
  pub shown : List Matrix

-- What `thread_push`, `game_win` and `game_over` put over the frame that they draw.
pub data Banner : Type 0 where
  plain you_win game_over : Banner

unfoldable pub put_banner : Banner → Matrix → Matrix
put_banner plain m = m
put_banner you_win m = put_win m
put_banner game_over m = put_over m

-- The frame that is drawn in the page `mat`, which holds what it held before.
unfoldable pub drawn : (b : Banner) → (mat ticks : ℕ) → Game → Frames → Matrix
unfolding put_banner
drawn b mat ticks g p = put_banner b (board_to_screen ticks g p.frames (p.pages mat) p.meter).0

-- What is common to the functions that draw: the page `mat` that `alloc` gives gets the picture `m`,
-- and goes to the buffer.
unfoldable pub push_page : (mat : ℕ) → Matrix → Meter → Frames → Frames
push_page mat m meter p = record p {
  frames = push_frame mat p.frames;
  pages = update p.pages mat m;
  taken = update p.taken mat true;
  meter = meter;
}

-- `thread_push`, `game_win` and `game_over`, when `alloc` answers `mat` and `gettime` answers `ticks`.
unfoldable pub thread_push : (b : Banner) → (mat ticks : ℕ) → Game → Frames → Frames
unfolding drawn push_page
thread_push b mat ticks g p =
    push_page mat (drawn b mat ticks g p) (board_to_screen ticks g p.frames (p.pages mat) p.meter).1
      p

unfoldable pub welcome : (mat : ℕ) → Frames → Frames
unfolding push_page
welcome mat p = push_page mat (put_welcome (p.pages mat)) p.meter p

-- `setup` behind the call of `createthread`: the pages that `alloc` gives to `welcome` and to
-- `thread_push`, and the answer of `gettime` to the latter.
unfoldable pub setup : (mat mat' ticks : ℕ) → Game → Frames → Game × Frames
unfolding welcome thread_push
setup mat mat' ticks g p =
    let g' = init_board g in (g', thread_push plain mat' ticks g' (welcome mat p))

-- One round of the loop of `thread_dump`.
unfoldable pub thread_dump : Frames → Frames
thread_dump p =
    let (tmp, r) = read_frame p.frames in
    let rest = record p { frames = r } in
    if tmp == 0 then rest else record rest {
      shown = p.shown ++ (p.pages tmp ∷ []);
      meter = record p.meter { total_frames = add32 p.meter.total_frames 1 };
      taken = update p.taken tmp false;
    }

-- ===== src/Game/Frames/Run.antt =====
-- Any interleaving of the two threads of zeos/user.c that share the buffer of frames.
use soa_subject.Prelude.{ℕ, ◌≡◌, ◌≢◌, refl, ap, ◌∙◌, false, List, [], ◌∷◌}
use soa_subject.Game.{Game}
use soa_subject.Game.Screen.{board_to_screen}
use soa_subject.Game.Welcome.{put_welcome}
use soa_subject.Game.Frames.{Frames, Banner, drawn, thread_push, thread_dump, welcome}
use soa_subject.Game.Frames.Order.{
  IsSound, Show, put_last, show_first, view, push_page-put_last, push_page-IsSound,
}
use soa_subject.Game.Frames.Dump.{thread_dump-show_first}

-- What a thread does next: `welcome` or the game draws, in the page that `alloc` gives, or `thread_dump` makes a
-- round.
pub data Event : Type 0 where
  greet : (mat : ℕ) → Event
  draw : (b : Banner) → (mat ticks : ℕ) → Game → Event
  dump : Event

unfoldable pub step : Event → Frames → Frames
step (greet mat) p = welcome mat p
step (draw b mat ticks g) p = thread_push b mat ticks g p
step dump p = thread_dump p

pub run : List Event → Frames → Frames
run [] p = p
run (e ∷ es) p = run es (step e p)

-- Each page that is drawn in is one that `alloc` may give: it is not given yet, and is not NULL.
abbrev pub IsGiven : Event → Frames → Type 0
IsGiven (greet mat) p = (p.taken mat ≡ false) × (mat ≢ 0)
IsGiven (draw b mat ticks g) p = (p.taken mat ≡ false) × (mat ≢ 0)
IsGiven dump p = Unit

abbrev pub AreGiven : List Event → Frames → Type 0
AreGiven [] p = Unit
AreGiven (e ∷ es) p = IsGiven e p × AreGiven es (step e p)

-- The same on the queue of frames: the picture that is drawn goes in, or the first one is shown.
pub promise : Event → Frames → Show → Show
promise (greet mat) p s = put_last (put_welcome (p.pages mat)) s
promise (draw b mat ticks g) p s = put_last (drawn b mat ticks g p) s
promise dump p s = show_first s.queue s.screen

pub promises : List Event → Frames → Show → Show
promises [] p s = s
promises (e ∷ es) p s = promises es (step e p) (promise e p s)

step_lem :
    (e : Event) (p : Frames)
    → IsSound p
    → IsGiven e p
    → (view (step e p) ≡ promise e p (view p)) × IsSound (step e p)
unfolding step promise welcome thread_push
step_lem (greet mat) p s given =
    let m = put_welcome (p.pages mat) in
    (
      push_page-put_last p s mat m p.meter given.0 given.1,
      push_page-IsSound p s mat m p.meter given.0 given.1,
    )
step_lem (draw b mat ticks g) p s given =
    let m = drawn b mat ticks g p in
    let meter = (board_to_screen ticks g p.frames (p.pages mat) p.meter).1 in
    (
      push_page-put_last p s mat m meter given.0 given.1,
      push_page-IsSound p s mat m meter given.0 given.1,
    )
step_lem dump p s given = thread_dump-show_first p s

-- However the two threads take turns, if each page that is drawn in is new, the buffer and the
-- pages do what a queue of at most 64 pictures does: a picture that is drawn while 64 wait is lost,
-- each other waits behind those drawn before, and the screen shows them in that order, as they were
-- drawn.
pub run-promises :
    (es : List Event) (p : Frames)
    → IsSound p
    → AreGiven es p
    → view (run es p) ≡ promises es p (view p)
unfolding run promises
run-promises [] p s given = refl
run-promises (e ∷ es) p s given =
    let (same, sound) = step_lem e p s given.0 in
    run-promises es (step e p) sound given.1 ∙ ap (promises es (step e p)) same

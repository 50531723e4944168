-- ===== src/Ring.antt =====
-- The circular buffers: of typed keys (zeos/io.c) and of pending frames (zeos/user.c). The two
-- copies of the code differ in the size of the array and in what they return.
pub mod Queue
pub mod Trace
use soa_subject.Prelude.{
  ℕ, zero, suc, ◌+◌, ◌-◌, ◌%◌, Bool, not, ◌&&◌, Option, none, some, ltb, ◌==◌, if◌then◌else◌,
  update,
}

-- The array with `Head`, `Tail` and `IsFull_Flag`.
pub record Ring : Type 0 where
  pub buff : ℕ → ℕ
  pub head : ℕ
  pub tail : ℕ
  pub full : ℕ

abbrev pub empty : Ring
empty = record { buff = λ _. 0; head = 0; tail = 0; full = 0 }

-- The shared body of `write_to_buffer` and `push_frame`.
module _ (size : ℕ) where
  unfoldable pub write : ℕ → Ring → Ring
  write c r =
      if r.full == 0
      then (let next = (r.head + 1) % size in
          record r {
            buff = update r.buff r.head c;
            head = next;
            full = if next == r.tail then 1 else r.full;
          })
      else r

  -- The shared body of `read_from_buffer` and `read_frame`; `none` is the early return.
  unfoldable pub read : Ring → Option ℕ × Ring
  read r =
      if (r.head == r.tail) && not (r.full == 1)
      then (none, r)
      else (some (r.buff r.tail), record r { tail = (r.tail + 1) % size; full = 0 })

  -- `pending_frames`
  unfoldable pub pending : Ring → ℕ
  pending r =
      if ltb r.head r.tail
      then r.head + size - r.tail
      else if ltb r.tail r.head
      then r.head - r.tail
      else if not (r.full == 0)
      then size
      else 0

-- The frames of zeos/user.c: the array has 64 pointers, and `read_frame` answers NULL with none.
abbrev pub frame_slots : ℕ
frame_slots = 64

unfoldable pub pending_frames : Ring → ℕ
unfolding pending
pending_frames r = pending frame_slots r

unfoldable pub push_frame : ℕ → Ring → Ring
unfolding write
push_frame mat r = write frame_slots mat r

abbrev pub or_null : Option ℕ → ℕ
or_null none = 0
or_null (some mat) = mat

unfoldable pub read_frame : Ring → ℕ × Ring
unfolding read
read_frame r = let (out, r') = read frame_slots r in (or_null out, r')

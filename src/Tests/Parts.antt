-- ===== src/Tests/Parts.antt =====
-- The theorems about the parts of the kernel at small lists, rings, memories and consoles.
use soa_subject.Prelude.{
  ℕ, ◌+◌, ◌%◌, ◌^◌, ◌≡◌, refl, true, not, ltb, ◌&&◌, ◌==◌, if◌then◌else◌, List, [], ◌∷◌, arith,
  neg32,
}
use soa_subject.Config.{used_frame_mark, buff_size}
use soa_subject.Links.{Links, list_del, null}
use soa_subject.Links.Chain.{IsCircular}
use soa_subject.Links.Remove.{list_del-removes}
use soa_subject.Ring
use soa_subject.Ring.Queue
use soa_subject.Mm.{alloc_frame, alloc_scan, free_frame}
use soa_subject.Mm.Frames.{free_frame-alloc_frame}
use soa_subject.Stats.{init_stats}
use soa_subject.Stats.Account.{charges-total, to_user, to_system, charges, charged}
use soa_subject.Console.{sys_write_console, dump_matrix, newline}
use soa_subject.Console.Cursor.{IsOnScreen, SameBeyond, sys_write_console_lem}
use soa_subject.Console.Dump.{dump_matrix_lem}
use soa_subject.Access.{access_ok, verify_read, verify_write, access_ok-write}
use soa_subject.Kernel.{returned}
use soa_subject.Sys.Io.{sys_write, sys_get_key}
use soa_subject.Sys.Io.Write.{sys_write-whole}
use soa_subject.Sys.Io.Keys.{answer, sys_get_key-dequeue}
use soa_subject.Tests.{blank, blank_memory, blank_console}

first_frame : (alloc_frame blank_memory).0 ≡ 256
unfolding alloc_frame alloc_scan
first_frame = refl

free_frame-alloc_frame_example :
    (free_frame 256 (alloc_frame blank_memory).1).phys_mem 256 ≡ used_frame_mark
free_frame-alloc_frame_example =
    free_frame-alloc_frame blank_memory 256 first_frame (λ e. omega (arith, e)) 256

-- A list of one node, 5, at the head 2.
abbrev one_node : Links
one_node = record { next = λ a. if a == 2 then 5 else 2; prev = λ a. if a == 2 then 5 else 2 }

one_node-IsCircular : IsCircular one_node 2 (5 ∷ [])
one_node-IsCircular = record {
  linked = ground arith;
  apart = ((λ e. omega (arith, e)), tt);
  distinct = (tt, tt);
}

list_del-removes_example :
    IsCircular (list_del 5 one_node) 2 []
    × ((list_del 5 one_node).next 5 ≡ null)
    × ((list_del 5 one_node).prev 5 ≡ null)
list_del-removes_example = list_del-removes [] 5 [] one_node-IsCircular

empty-IsValid : Ring.Queue.IsValid 32 Ring.empty
empty-IsValid = record {
  head_lt = omega arith;
  tail_lt = omega arith;
  full_le = omega arith;
  full_meets = λ _. refl;
}

abbrev accesses : List Ring.Trace.Operation
accesses =
    Ring.Trace.put 97 ∷ Ring.Trace.put 98 ∷ Ring.Trace.take ∷ Ring.Trace.take ∷ Ring.Trace.take ∷ []

answers-queue_example :
    let (outs, r) = Ring.Trace.answers (Ring.write 32) (Ring.read 32) accesses Ring.empty in
    ((outs, Ring.Queue.contents 32 r)
      ≡ Ring.Trace.answers
          (Ring.Queue.enqueue 32)
          Ring.Queue.dequeue
          accesses
          (Ring.Queue.contents 32 Ring.empty))
    × Ring.Queue.IsValid 32 r
answers-queue_example = Ring.Trace.answers-queue 32 accesses Ring.empty empty-IsValid

sys_get_key-dequeue_example :
    let (out, k', result) = sys_get_key 0x110000 blank in
    ((out, Ring.Queue.contents buff_size k'.keys)
      ≡ Ring.Queue.dequeue (Ring.Queue.contents buff_size blank.keys))
    × (result ≡ answer out)
sys_get_key-dequeue_example = sys_get_key-dequeue 0x110000 blank accepted empty-IsValid
  where
    accepted : access_ok verify_write 0x110000 4 ≡ true
    accepted = unfold access_ok in refl

dump_matrix_lem_example :
    let d = dump_matrix (λ k. 0x0200 + 65) blank_console in
    (d.x ≡ 0)
    × (d.y ≡ 0)
    × ((k : ℕ)
        → d.screen k
          ≡ (if ltb k 2000 && not ((0x0200 + 65) % 256 == newline) then 0x0200 + 65 else 0))
dump_matrix_lem_example = dump_matrix_lem (λ k. 0x0200 + 65) blank_console

sys_write_console_lem_example :
    let (r, d) = sys_write_console (λ k. 65) 90 blank_console in
    (r ≡ 90) × IsOnScreen d × SameBeyond blank_console d
sys_write_console_lem_example =
    sys_write_console_lem (λ k. 65) 90 blank_console
      (record { x_lt = omega arith; y_lt = omega arith })

sys_write-whole_example : sys_write 2 0x110000 600 (λ i. 65) blank ≡ (blank, returned (neg32 9))
sys_write-whole_example = sys_write-whole 2 0x110000 600 (λ i. 65) blank

access_ok-write_example :
    (access_ok verify_write 0x100010 4 ≡ access_ok verify_read 0x100010 4)
    × (access_ok verify_write 0x100010 4 ≡ true)
access_ok-write_example = access_ok-write 0x100010 4 (omega arith) (omega arith)

charges-total_example :
    let s = charges ((to_user, 7) ∷ (to_system, 9) ∷ []) (init_stats 5 6) in
    (charged s + 5) % 2 ^ 32 ≡ s.elapsed_total_ticks
charges-total_example =
    charges-total 5 6 ((to_user, 7) ∷ (to_system, 9) ∷ []) (omega arith)
      (omega arith, (omega arith, tt))

-- ===== src/Tests/Programs.antt =====
-- The theorems about the game, the user's library, the processor's tables and the disk image at
-- concrete inputs.
use soa_subject.Prelude.{ℕ, ◌≤◌, ◌<◌, ◌≡◌, ◌⊎◌, refl, false, some, List, [], ◌∷◌, arith}
use soa_subject.Ring
use soa_subject.Libc.{perror}
use soa_subject.Libc.Decimal.{IsDecimal, perror-IsDecimal}
use soa_subject.Game.{new_game, init_board}
use soa_subject.Game.Play.{Turn, play}
use soa_subject.Game.Play.Ends.{moved, play-ends}
use soa_subject.Game.Play.Ranges.{InRange, play-InRange}
use soa_subject.Game.Play.Outline.{HasShip}
use soa_subject.Game.Play.Shape.{play-HasShip}
use soa_subject.Game.Screen.{Meter, compute_fps, board_to_screen}
use soa_subject.Game.Screen.Cells.{Shows, board_to_screen-Shows}
use soa_subject.Game.Frames.{Frames, thread_push, plain, you_win}
use soa_subject.Game.Frames.Order.{IsSound, view}
use soa_subject.Game.Frames.Run.{Event, draw, dump, run, step, AreGiven, promises, run-promises}
use soa_subject.Tables.{Register, Tables, Layout, Tss, set_tables, kernel_cs}
use soa_subject.Hardware.{Machine, set_pe_flag, enter_kernel, leave_kernel}
use soa_subject.Hardware.Enter.{IsUser, leave_kernel-IsUser}
use soa_subject.Tables.Installed.{IsInstalled, set_tables-IsInstalled}

-- The player goes left, then shoots when the aliens move.
abbrev keys : List Turn
keys =
    record { key = some 97; now = 0; now_shoot = 0; now_end = 0 }
    ∷ record { key = some 119; now = 40; now_shoot = 40; now_end = 41 }
    ∷ []

play-ends_example :
    (moved keys (init_board new_game) ≤ 420)
    × (((play keys (init_board new_game)).lose ≡ 1) ⊎ (moved keys (init_board new_game) < 420))
play-ends_example = play-ends keys

play-InRange_example : InRange (play keys (init_board new_game))
play-InRange_example = play-InRange keys

play-HasShip_example : HasShip (play keys (init_board new_game))
play-HasShip_example = play-HasShip keys

perror-IsDecimal_example :
    (n : ℕ) × IsDecimal 38 1000 n (λ _. 0) (perror 38 1000 (λ _. 0)).1
    × ((perror 38 1000 (λ _. 0)).0 ≡ some n)
perror-IsDecimal_example = perror-IsDecimal 38 1000 (λ _. 0) (omega arith)

abbrev meter : Meter
meter = record { fps = 17; ticks_prveis = 0; total_frames = 21; pfd = 0 }

two_digits : (compute_fps 18 meter).fps < 100
unfolding compute_fps
two_digits = omega arith

board_to_screen-Shows_example :
    Shows new_game Ring.empty
      (board_to_screen 18 new_game Ring.empty (λ _. 0) meter).1
      (λ _. 0)
      (board_to_screen 18 new_game Ring.empty (λ _. 0) meter).0
board_to_screen-Shows_example =
    board_to_screen-Shows 18 new_game Ring.empty (λ _. 0) meter (omega arith) two_digits
      (omega arith) (omega arith)

abbrev no_frames : Frames
no_frames = record {
  frames = Ring.empty;
  pages = λ _ _. 0;
  taken = λ _. false;
  meter = meter;
  shown = [];
}

no_frames-IsSound : IsSound no_frames
unfolding Ring.pending
no_frames-IsSound = record {
  ring = record {
    head_lt = omega arith;
    tail_lt = omega arith;
    full_le = omega arith;
    full_meets = λ _. refl;
  };
  held = tt;
  distinct = tt;
}

-- Two pictures, then three rounds of the other thread.
abbrev events : List Event
events = draw plain 0x11C000 1 new_game ∷ draw you_win 0x11D000 2 new_game ∷ dump ∷ dump ∷ dump ∷ []

fresh : AreGiven events no_frames
unfolding step thread_push
fresh = ((refl, λ e. omega (arith, e)), ((refl, λ e. omega (arith, e)), (tt, (tt, (tt, tt)))))

run-promises_example : view (run events no_frames) ≡ promises events no_frames (view no_frames)
run-promises_example = run-promises events no_frames no_frames-IsSound fresh

abbrev no_register : Register
no_register = record { limit = 0; base = 0 }

abbrev no_tss : Tss
no_tss = record {
  previous_task_link = 0;
  esp0 = 0;
  ss0 = 0;
  esp1 = 0;
  ss1 = 0;
  esp2 = 0;
  ss2 = 0;
  cr3 = 0;
  eip = 0;
  e_flags = 0;
  eax = 0;
  ecx = 0;
  edx = 0;
  ebx = 0;
  esp = 0;
  ebp = 0;
  esi = 0;
  edi = 0;
  es = 0;
  cs = 0;
  ss = 0;
  ds = 0;
  fs = 0;
  gs = 0;
  ldt_segment_selector = 0;
  debug_trap = 0;
  io_map_base_address = 0;
}

abbrev no_tables : Tables
no_tables = record {
  idt = λ _. record { low_offset = 0; segment_selector = 0; flags = 0; high_offset = 0 };
  idtr = no_register;
  gdt = λ _. record {
    limit = 103;
    low_base = 0;
    mid_base = 0;
    flags1 = 0x89;
    flags2 = 0;
    high_base = 0;
  };
  gdtr = no_register;
  tss = no_tss;
  loaded_idt = no_register;
  loaded_gdt = no_register;
  task_reg = 0;
  msr = λ _. 0;
}

abbrev layout : Layout
layout = record {
  idt_address = 0x18000;
  tss_address = 0x1A2B40;
  initial_esp = 0x1D000;
  clock_handler = 0x1012340;
  keyboard_handler = 0x1012380;
  system_call_handler = 0x10123C0;
}

set_tables-IsInstalled_example :
    IsInstalled (λ idt. idt) layout no_tables (set_tables (λ idt. idt) layout no_tables)
set_tables-IsInstalled_example =
    set_tables-IsInstalled (λ idt. idt) layout no_tables (omega arith) (omega arith) (omega arith)

-- The processor behind the boot sector.
abbrev machine : Machine
machine = record {
  ds = 0x18;
  es = 0x18;
  fs = 0x18;
  gs = 0x18;
  ss = 0x18;
  cs = kernel_cs;
  esp = 0x9000;
  eip = 0x10000;
  eflags = 0x402;
  cr0 = 1;
  ldt_reg = 0;
  pic_mask = 0xFF;
  words = λ _. 0;
  tables = no_tables;
}

leave_kernel-IsUser_example :
    let k = set_pe_flag (enter_kernel (λ idt. idt) layout 0x1D000 machine) in
    IsUser 0x1234 (leave_kernel 0x1234 k)
    × ((leave_kernel 0x1234 k).tables ≡ set_tables (λ idt. idt) layout no_tables)
leave_kernel-IsUser_example =
    leave_kernel-IsUser (λ idt. idt) layout 0x1D000 0x1234 machine refl (omega arith) (omega arith)
      (omega arith)

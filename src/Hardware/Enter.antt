-- ===== src/Hardware/Enter.antt =====
-- Where the kernel leaves the processor when it enters the user's program (zeos/hardware.c and
-- zeos/system.c).
use soa_subject.Prelude.{ℕ, ◌+◌, ◌*◌, ◌^◌, ◌≤◌, ◌<◌, ◌≡◌, arith}
use soa_subject.Config.{l_user_start, num_pag_code, num_pag_data, page_size}
use soa_subject.Tables.{Gate, Layout, set_tables, kernel_cs, user_cs, user_ds, initial_eflags}
use soa_subject.Hardware.{
  Machine, privilege, flag, pe_flag, set_pe_flag, enter_kernel, leave_kernel,
}

-- The processor in user mode at the start of the program.
pub record IsUser (rdtr : ℕ) (m : Machine) : Type 0 where
  pub runs : (m.cs ≡ user_cs) × (m.eip ≡ l_user_start)
  pub user_mode : privilege m.cs ≡ 3
  pub segments : (m.ds ≡ user_ds) × (m.es ≡ user_ds) × (m.ss ≡ user_ds)
  pub flags : m.eflags ≡ initial_eflags
  pub paging : flag pe_flag m.cr0 ≡ 1
  pub interrupts : m.pic_mask ≡ 0xFC
  pub stack :
      (l_user_start + num_pag_code * page_size ≤ m.esp)
      × (m.esp + 16 ≡ l_user_start + (num_pag_code + num_pag_data) * page_size)
  pub argument : m.words (m.esp + 12) ≡ rdtr

-- From any state of the processor in the kernel's segment, if the stack of `main` stands below the
-- user's pages, the calls of `main` that enter and leave the kernel, with paging turned on between
-- them, lead to the first instruction of the user's program in user mode, with the user's segments and
-- stack, interrupts on, and `rdtr` passed on the user's stack; the tables are those that were set.
pub leave_kernel-IsUser :
    (set_handlers : (ℕ → Gate) → ℕ → Gate) (l : Layout) (stack rdtr : ℕ) (m : Machine)
    → m.cs ≡ kernel_cs
    → 64 ≤ stack
    → stack ≤ l_user_start
    → m.cr0 < 2 ^ 32
    → let k = set_pe_flag (enter_kernel set_handlers l stack m) in
      IsUser rdtr (leave_kernel rdtr k)
      × ((leave_kernel rdtr k).tables ≡ set_tables set_handlers l m.tables)
unfolding enter_kernel leave_kernel set_pe_flag
leave_kernel-IsUser set_handlers l stack rdtr m c lo hi word = (
  record {
    runs = ground arith;
    user_mode = ground arith;
    segments = ground arith;
    flags = ground arith;
    paging = ground arith;
    interrupts = ground arith;
    stack = ground arith;
    argument = ground arith;
  },
  ground arith,
)

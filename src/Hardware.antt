-- ===== src/Hardware.antt =====
-- zeos/hardware.c, and the calls of `main` of zeos/system.c that start and leave the kernel. The
-- instructions in the inline assembly act on the registers of the processor.
pub mod Enter
use soa_subject.Prelude.{ℕ, ◌+◌, ◌-◌, ◌*◌, ◌/◌, ◌%◌, ◌^◌, ◌≤◌, ltb, if◌then◌else◌, update}
use soa_subject.Config.{l_user_start}
use soa_subject.Tables.{
  Register, Gate, Tables, Layout, set_tables, kernel_ds, user_cs, user_ds, user_esp_start,
}

-- The registers, the mask of the interrupt controller (port 0x21), and the memory by words of four
-- bytes. `tables` has the registers of the tables.
pub record Machine : Type 0 where
  pub ds : ℕ
  pub es : ℕ
  pub fs : ℕ
  pub gs : ℕ
  pub ss : ℕ
  pub cs : ℕ
  pub esp : ℕ
  pub eip : ℕ
  pub eflags : ℕ
  pub cr0 : ℕ
  pub ldt_reg : ℕ
  pub pic_mask : ℕ
  pub words : ℕ → ℕ
  pub tables : Tables

-- `pushl` and `popl`
abbrev pub push : ℕ → Machine → Machine
push value m =
    let top = (m.esp + 2 ^ 32 - 4) % 2 ^ 32 in
    record m { esp = top; words = update m.words top value }

abbrev pub pop : Machine → ℕ × Machine
pop m = (m.words m.esp, record m { esp = (m.esp + 4) % 2 ^ 32 })

-- `pushfl; popl`
unfoldable pub get_eflags : Machine → ℕ × Machine
get_eflags m = pop (push m.eflags m)

-- `pushl $0; popfl`
unfoldable pub set_eflags : Machine → Machine
set_eflags m = let (flags, m') = pop (push 0 m) in record m' { eflags = flags }

unfoldable pub set_idt_reg : Register → Machine → Machine
set_idt_reg idt m = record m { tables = record m.tables { loaded_idt = idt } }

unfoldable pub set_gdt_reg : Register → Machine → Machine
set_gdt_reg gdt m = record m { tables = record m.tables { loaded_gdt = gdt } }

unfoldable pub set_ldt_reg : ℕ → Machine → Machine
set_ldt_reg ldt m = record m { ldt_reg = ldt }

unfoldable pub set_task_reg : ℕ → Machine → Machine
set_task_reg tr m = record m { tables = record m.tables { task_reg = tr } }

-- Bit `k` of the flags, and the flags with it cleared or set.
abbrev pub flag : ℕ → ℕ → ℕ
flag k eflags = eflags / 2 ^ k % 2

abbrev pub clear_flag : ℕ → ℕ → ℕ
clear_flag k eflags = eflags - flag k eflags * 2 ^ k

abbrev pub set_flag : ℕ → ℕ → ℕ
set_flag k eflags = eflags + (1 - flag k eflags) * 2 ^ k

-- The direction flag, the interrupt flag, and the flag of `cr0` that turns paging on.
abbrev pub df : ℕ
df = 10

abbrev pub iflag : ℕ
iflag = 9

abbrev pub pe_flag : ℕ
pe_flag = 31

-- `set_pe_flag` of zeos/mm.c, which `init_mm` calls at its end: `cr0 |= 0x80000000`.
unfoldable pub set_pe_flag : Machine → Machine
set_pe_flag m = record m { cr0 = set_flag pe_flag m.cr0 }

-- `cld`, and the moves to the segment registers and to `esp`.
unfoldable pub set_seg_regs : (data_sel stack_sel esp : ℕ) → Machine → Machine
set_seg_regs data_sel stack_sel esp m = record m {
  eflags = clear_flag df m.eflags;
  ds = data_sel;
  es = data_sel;
  fs = data_sel;
  gs = data_sel;
  ss = stack_sel;
  esp = (esp + 2 ^ 32 - 5 * 4) % 2 ^ 32;
}

-- A jump to the next instruction.
unfoldable pub delay : Machine → Machine
delay m = m

-- `outb` of 0xfc to port 0x21, and `sti`.
unfoldable pub enable_int : Machine → Machine
unfolding delay
enable_int m =
    let m' = delay (record m { pic_mask = 0xFC }) in record m' { eflags = set_flag iflag m'.eflags }

-- The privilege level in a selector.
abbrev pub privilege : ℕ → ℕ
privilege selector = selector % 4

-- What a data segment register holds behind a return to the level of `cs`: the processor clears one
-- whose segment is more privileged. Each descriptor has the level that its selectors carry.
abbrev pub checked : (cs selector : ℕ) → ℕ
checked cs selector = if ltb (privilege selector) (privilege cs) then 0 else selector

-- `lret`: to a less privileged segment it takes the stack from the stack too.
unfoldable pub lret : Machine → Machine
lret m =
    let (eip, m1) = pop m in
    let (cs, m2) = pop m1 in
    let (esp, m3) = pop m2 in
    let (ss, m4) = pop m3 in
    if ltb (privilege m.cs) (privilege cs)
    then record m4 {
      eip = eip;
      cs = cs;
      esp = esp;
      ss = ss;
      ds = checked cs m4.ds;
      es = checked cs m4.es;
      fs = checked cs m4.fs;
      gs = checked cs m4.gs;
    }
    else record m2 { eip = eip; cs = cs }

-- `rdtr` is the value of `*p_rdtr`.
unfoldable pub return_gate : (rdtr ds ss esp cs eip : ℕ) → Machine → Machine
unfolding lret
return_gate rdtr ds ss esp cs eip m =
    let m1 = record m { es = ds; ds = ds } in
    let m2 = record m1 { words = update m1.words ((esp + 12) % 2 ^ 32) rdtr } in
    lret (push eip (push cs (push esp (push ss m2))))

-- `main` from its first call up to the tables; `stack` is the address of `protected_tasks[5]`.
unfoldable pub enter_kernel :
    (set_handlers : (ℕ → Gate) → ℕ → Gate) → Layout → (stack : ℕ) → Machine → Machine
unfolding set_eflags set_seg_regs
enter_kernel set_handlers l stack m =
    let m' = set_seg_regs kernel_ds kernel_ds stack (set_eflags m) in
    record m' { tables = set_tables set_handlers l m'.tables }

-- The end of `main`.
unfoldable pub leave_kernel : (rdtr : ℕ) → Machine → Machine
unfolding enable_int return_gate
leave_kernel rdtr m =
    return_gate rdtr user_ds user_ds user_esp_start user_cs l_user_start (enable_int m)

-- ===== src/Tables.antt =====
-- The tables of the processor: interrupt gates (zeos/interrupt.c), the task's segment (zeos/mm.c),
-- and their types (zeos/include/types.h).
pub mod Installed
use Prim.Native.Nat.{bit_or}
use soa_subject.Prelude.{ℕ, ◌+◌, ◌-◌, ◌*◌, ◌/◌, ◌%◌, ◌^◌, update}
use soa_subject.Config.{l_user_start, num_pag_code, num_pag_data}

-- `highWord`, `lowWord`, `midByte` and `highByte`
unfoldable pub high_word : ℕ → ℕ
high_word address = address / 2 ^ 16 % 2 ^ 16

unfoldable pub low_word : ℕ → ℕ
low_word address = address % 2 ^ 16

unfoldable pub mid_byte : ℕ → ℕ
mid_byte address = address / 2 ^ 16 % 2 ^ 8

unfoldable pub high_byte : ℕ → ℕ
high_byte address = address / 2 ^ 24 % 2 ^ 8

pub record Descriptor : Type 0 where
  pub limit : ℕ
  pub low_base : ℕ
  pub mid_base : ℕ
  pub flags1 : ℕ
  pub flags2 : ℕ
  pub high_base : ℕ

pub record Gate : Type 0 where
  pub low_offset : ℕ
  pub segment_selector : ℕ
  pub flags : ℕ
  pub high_offset : ℕ

-- GDTR, IDTR
pub record Register : Type 0 where
  pub limit : ℕ
  pub base : ℕ

-- The words of the structure that `setTSS` writes.
pub record Tss : Type 0 where
  pub previous_task_link : ℕ
  pub esp0 : ℕ
  pub ss0 : ℕ
  pub esp1 : ℕ
  pub ss1 : ℕ
  pub esp2 : ℕ
  pub ss2 : ℕ
  pub cr3 : ℕ
  pub eip : ℕ
  pub e_flags : ℕ
  pub eax : ℕ
  pub ecx : ℕ
  pub edx : ℕ
  pub ebx : ℕ
  pub esp : ℕ
  pub ebp : ℕ
  pub esi : ℕ
  pub edi : ℕ
  pub es : ℕ
  pub cs : ℕ
  pub ss : ℕ
  pub ds : ℕ
  pub fs : ℕ
  pub gs : ℕ
  pub ldt_segment_selector : ℕ
  pub debug_trap : ℕ
  pub io_map_base_address : ℕ

-- The selectors of zeos/include/segment.h.
abbrev pub kernel_cs : ℕ
kernel_cs = 0x10

abbrev pub kernel_ds : ℕ
kernel_ds = 0x18

abbrev pub user_cs : ℕ
user_cs = 0x23

abbrev pub user_ds : ℕ
user_ds = 0x2B

abbrev pub kernel_tss : ℕ
kernel_tss = 0x30

abbrev pub gdt_start : ℕ
gdt_start = 0x901b3

abbrev pub idt_entries : ℕ
idt_entries = 256

abbrev pub initial_eflags : ℕ
initial_eflags = 0x200

abbrev pub user_esp_start : ℕ
user_esp_start = l_user_start + (num_pag_code + num_pag_data) * 0x1000 - 16

-- The tables in memory, and the registers that are loaded from them. `msr` is the low half of each
-- register.
pub record Tables : Type 0 where
  pub idt : ℕ → Gate
  pub idtr : Register
  pub gdt : ℕ → Descriptor
  pub gdtr : Register
  pub tss : Tss
  pub loaded_idt : Register
  pub loaded_gdt : Register
  pub task_reg : ℕ
  pub msr : ℕ → ℕ

-- Where the linker puts what the tables point to.
pub record Layout : Type 0 where
  pub idt_address : ℕ
  pub tss_address : ℕ
  pub initial_esp : ℕ
  pub clock_handler : ℕ
  pub keyboard_handler : ℕ
  pub system_call_handler : ℕ

-- The shared body of `setInterruptHandler` and `setTrapHandler`, which store the same flags.
abbrev pub gate_flags : ℕ → ℕ
gate_flags max_pl = bit_or (max_pl * 2 ^ 13 % 2 ^ 16) 0x8E00

unfoldable pub set_interrupt_handler : (vector handler max_pl : ℕ) → Tables → Tables
unfolding high_word low_word
set_interrupt_handler vector handler max_pl t = record t {
  idt = update t.idt vector (record {
    low_offset = low_word handler;
    segment_selector = kernel_cs;
    flags = gate_flags max_pl;
    high_offset = high_word handler;
  });
}

unfoldable pub set_trap_handler : (vector handler max_pl : ℕ) → Tables → Tables
unfolding high_word low_word
set_trap_handler vector handler max_pl t = record t {
  idt = update t.idt vector (record {
    low_offset = low_word handler;
    segment_selector = kernel_cs;
    flags = gate_flags max_pl;
    high_offset = high_word handler;
  });
}

abbrev pub set_msr : (number low : ℕ) → Tables → Tables
set_msr number low t = record t { msr = update t.msr number low }

unfoldable pub set_sysenter : Layout → Tables → Tables
set_sysenter l t =
    set_msr 0x176 l.system_call_handler (set_msr 0x175 l.initial_esp (set_msr 0x174 kernel_cs t))

-- `set_handlers` is in the library that the kernel is linked with; a gate has 8 bytes.
unfoldable pub set_idt : (set_handlers : (ℕ → Gate) → ℕ → Gate) → Layout → Tables → Tables
unfolding set_interrupt_handler set_sysenter
set_idt set_handlers l t =
    let t1 = record t { idtr = record { base = l.idt_address; limit = idt_entries * 8 - 1 } } in
    let t2 = record t1 { idt = set_handlers t1.idt } in
    let t3 =
      set_interrupt_handler 33 l.keyboard_handler 0
        (set_interrupt_handler 32 l.clock_handler 0 t2) in
    let t4 = set_sysenter l t3 in record t4 { loaded_idt = t4.idtr }

unfoldable pub set_gdt : Layout → Tables → Tables
unfolding low_word mid_byte high_byte
set_gdt l t =
    let entry = record (t.gdt (kernel_tss / 2 ^ 3)) {
      low_base = low_word l.tss_address;
      mid_base = mid_byte l.tss_address;
      high_base = high_byte l.tss_address;
    } in
    let t1 = record t {
      gdt = update t.gdt (kernel_tss / 2 ^ 3) entry;
      gdtr = record { base = gdt_start; limit = 256 * 8 };
    } in
    record t1 { loaded_gdt = t1.gdtr }

unfoldable pub set_tss : Layout → Tables → Tables
set_tss l t = record t {
  tss = record {
    previous_task_link = 0;
    esp0 = l.initial_esp;
    ss0 = kernel_ds;
    esp1 = 0;
    ss1 = 0;
    esp2 = 0;
    ss2 = 0;
    cr3 = 0;
    eip = 0;
    e_flags = initial_eflags;
    eax = 0;
    ecx = 0;
    edx = 0;
    ebx = 0;
    esp = user_esp_start;
    ebp = user_esp_start;
    esi = 0;
    edi = 0;
    es = user_ds;
    cs = user_cs;
    ss = user_ds;
    ds = user_ds;
    fs = 0;
    gs = 0;
    ldt_segment_selector = kernel_tss;
    debug_trap = 0;
    io_map_base_address = 0;
  };
  task_reg = kernel_tss;
}

-- The calls of `main` of zeos/system.c that set the tables.
unfoldable pub set_tables : (set_handlers : (ℕ → Gate) → ℕ → Gate) → Layout → Tables → Tables
unfolding set_gdt set_idt set_tss
set_tables set_handlers l t = set_tss l (set_idt set_handlers l (set_gdt l t))

-- ===== src/Tables/Installed.antt =====
-- What the processor finds in the tables (zeos/interrupt.c, zeos/mm.c).
use soa_subject.Prelude.{
  ℕ, zero, suc, ◌+◌, ◌*◌, ◌/◌, ◌%◌, ◌^◌, ◌<◌, ◌≡◌, refl, ◌⊎◌, inl, inr, arith, Bool-cases, ◌==◌,
}
use soa_subject.Tables.{
  Gate, Descriptor, Tables, Layout, gate_flags, kernel_cs, set_tables, low_word, high_word,
  mid_byte, high_byte,
}

-- The address that the halves of a gate make.
pub target : Gate → ℕ
target g = g.low_offset + g.high_offset * 2 ^ 16

-- A gate that code of level `pl` may use, that is present and that enters the handler in the
-- kernel's segment with interrupts off (type 14).
pub record Enters (handler pl : ℕ) (g : Gate) : Type 0 where
  pub offset : target g ≡ handler
  pub segment : g.segment_selector ≡ kernel_cs
  pub present : g.flags / 2 ^ 15 ≡ 1
  pub level : g.flags / 2 ^ 13 % 4 ≡ pl
  pub kind : g.flags / 2 ^ 8 % 32 ≡ 14

gate_flags_lem :
    (pl : ℕ)
    → pl < 4
    → (gate_flags pl / 2 ^ 15 ≡ 1)
      × (gate_flags pl / 2 ^ 13 % 4 ≡ pl)
      × (gate_flags pl / 2 ^ 8 % 32 ≡ 14)
gate_flags_lem zero l = omega arith
gate_flags_lem (suc zero) l = omega arith
gate_flags_lem (suc (suc zero)) l = omega arith
gate_flags_lem (suc (suc (suc zero))) l = omega arith
gate_flags_lem (suc (suc (suc (suc pl)))) l = absurd (omega arith)

-- What the two functions store.
abbrev pub gate : (handler pl : ℕ) → Gate
gate handler pl = record {
  low_offset = low_word handler;
  segment_selector = kernel_cs;
  flags = gate_flags pl;
  high_offset = high_word handler;
}

gate-Enters : (handler pl : ℕ) → handler < 2 ^ 32 → pl < 4 → Enters handler pl (gate handler pl)
unfolding target low_word high_word
gate-Enters handler pl h l = record {
  offset = omega arith;
  segment = refl;
  present = (gate_flags_lem pl l).0;
  level = (gate_flags_lem pl l).1;
  kind = (gate_flags_lem pl l).2;
}

-- The base that the parts of a descriptor make.
pub base_of : Descriptor → ℕ
base_of d = d.low_base + d.mid_base * 2 ^ 16 + d.high_base * 2 ^ 24

base_of_lem :
    (address : ℕ)
    → address < 2 ^ 32
    → low_word address + mid_byte address * 2 ^ 16 + high_byte address * 2 ^ 24 ≡ address
unfolding low_word mid_byte high_byte
base_of_lem address h = omega arith

-- What the kernel's tables hold when they are set.
pub record IsInstalled (set_handlers : (ℕ → Gate) → ℕ → Gate) (l : Layout) (t t' : Tables)
    : Type 0 where
  pub clock : Enters l.clock_handler 0 (t'.idt 32)
  pub keyboard : Enters l.keyboard_handler 0 (t'.idt 33)
  pub other_gates : (v : ℕ) → (v ≡ 32) ⊎ (v ≡ 33) ⊎ (t'.idt v ≡ set_handlers t.idt v)
  pub all_gates : t'.loaded_idt ≡ record { limit = 2047; base = l.idt_address }
  pub segment : base_of (t'.gdt 6) ≡ l.tss_address
  pub segment_kept : ((t'.gdt 6).limit ≡ (t.gdt 6).limit) × ((t'.gdt 6).flags1 ≡ (t.gdt 6).flags1)
  pub other_segments : (i : ℕ) → (i ≡ 6) ⊎ (t'.gdt i ≡ t.gdt i)
  pub task : t'.task_reg ≡ 6 * 8
  pub stack : (t'.tss.esp0 ≡ l.initial_esp) × (t'.msr 0x175 ≡ t'.tss.esp0)
  pub stack_segment : t'.tss.ss0 ≡ t'.msr 0x174 + 8
  pub fast_entry : t'.msr 0x176 ≡ l.system_call_handler
  pub user_level : (t'.tss.cs % 4 ≡ 3) × (t'.tss.ss % 4 ≡ 3)

-- If the addresses are words of 32 bits, then after `main` has set the tables the clock and the
-- keyboard enter their handlers, in the kernel's segment, with interrupts off and for the hardware
-- only; the other gates are those of `set_handlers`; the processor has all 256 gates; the task's
-- descriptor has the address of the task's segment, and no other descriptor changes; both ways into
-- the kernel take the same stack, the segment of which is the one that `sysenter` takes; a fast
-- system call enters its handler; and the user's segments have level 3.
pub set_tables-IsInstalled :
    (set_handlers : (ℕ → Gate) → ℕ → Gate) (l : Layout) (t : Tables)
    → l.clock_handler < 2 ^ 32
    → l.keyboard_handler < 2 ^ 32
    → l.tss_address < 2 ^ 32
    → IsInstalled set_handlers l t (set_tables set_handlers l t)
unfolding set_tables base_of
set_tables-IsInstalled set_handlers l t hc hk ht = record {
  clock = gate-Enters l.clock_handler 0 hc (omega arith);
  keyboard = gate-Enters l.keyboard_handler 0 hk (omega arith);
  other_gates = λ v. elim (Bool-cases (32 == v)) [
    | inl e ↦ inl (ground (arith, e))
    | inr e ↦ elim (Bool-cases (33 == v)) [
      | inl f ↦ inr (inl (ground (arith, f)))
      | inr f ↦ inr (inr (rw (e, f) refl))
    ]
  ];
  all_gates = refl;
  segment = base_of_lem l.tss_address ht;
  segment_kept = (refl, refl);
  other_segments =
      λ i. elim (Bool-cases (6 == i)) [ inl e ↦ inl (ground (arith, e)) | inr e ↦ inr (rw e refl) ];
  task = refl;
  stack = (refl, refl);
  stack_segment = refl;
  fast_entry = refl;
  user_level = (refl, refl);
}

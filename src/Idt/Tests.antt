-- ===== src/Idt/Tests.antt =====
-- Runs of the descriptor table, and instances of its theorems.
use modos.Base.{ℕ, ◌<◌, ◌≡◌, refl, arith, some, true}
use modos.Idt.{Gate, Idt, idt_len, enable_idt, gate_flags, gate_user}
use modos.Idt.Gates.{IsEnabled, enable_idt_lem}

abbrev no_gate : Gate
no_gate = record {
  offset_0_15 = 0;
  segment_select = 0;
  ist = 0;
  flags = 0;
  offset_16_31 = 0;
  offset_32_63 = 0;
  reserved = 0;
}

abbrev no_gates : Idt
no_gates = record { idt = λ i. no_gate; handlers = λ i. 0 }

enable_idt_lem_example :
    (s' : Idt) × (enable_idt (λ i. 0x1_2345_6789) no_gates ≡ some s')
    × (s'.handlers ≡ no_gates.handlers)
    × ((j : ℕ) → j < idt_len → IsEnabled no_gate 0x1_2345_6789 (s'.idt j))
enable_idt_lem_example = enable_idt_lem (λ i. 0x1_2345_6789) (λ i. omega arith) no_gates

trap_flags : gate_flags gate_user true ≡ 0xEF
unfolding gate_flags
trap_flags = refl

-- ===== src/Idt.antt =====
-- kernel/idt/register_handler.c and kernel/traps/enable_traps.c: the interrupt descriptor table and
-- the handlers behind its shims. The addresses of the shims, `entries`, are in idt/entry_shim.S and
-- a parameter. An index out of the arrays of 255 faults.
pub mod Gates
pub mod Traps
mod Tests
use modos.Base.{
  ℕ, zero, suc, ◌+◌, ◌*◌, ◌/◌, ◌%◌, ◌^◌, Bool, true, false, Option, none, some, ltb, leb, ◌==◌, not,
  if◌then◌else◌, write, bit_or, has_bit,
}

-- struct idt, one gate
pub record Gate : Type 0 where
  pub offset_0_15 : ℕ
  pub segment_select : ℕ
  pub ist : ℕ
  pub flags : ℕ
  pub offset_16_31 : ℕ
  pub offset_32_63 : ℕ
  pub reserved : ℕ

-- the arrays idt and handlers
pub record Idt : Type 0 where
  pub idt : ℕ → Gate
  pub handlers : ℕ → ℕ

abbrev pub idt_len : ℕ
idt_len = 255

-- enum idt_flags
abbrev pub gate_int64 : ℕ
gate_int64 = 0xE

abbrev pub gate_trap64 : ℕ
gate_trap64 = 0xF

abbrev pub gate_kernel : ℕ
gate_kernel = 0

abbrev pub gate_user : ℕ
gate_user = 0x60

abbrev pub gate_present : ℕ
gate_present = 0x80

abbrev pub gdt_kernel_code : ℕ
gdt_kernel_code = 8

-- `ist & ~0b111` of a byte
abbrev pub bad_ist : ℕ → Bool
bad_ist ist = leb 8 ist

-- The flags of a gate for a privilege level.
unfoldable pub gate_flags : ℕ → Bool → ℕ
gate_flags level trap =
    bit_or (bit_or gate_present level) (if trap then gate_trap64 else gate_int64)

-- The three parts of an address in a gate.
unfoldable pub set_offset : ℕ → Gate → Gate
set_offset handler g = record g {
  offset_0_15 = handler % 2 ^ 16;
  offset_16_31 = handler / 2 ^ 16 % 2 ^ 16;
  offset_32_63 = handler / 2 ^ 32 % 2 ^ 32;
}

-- The gate that load_idtentry puts in place of `old`.
unfoldable pub new_gate : (old : Gate) (handler : ℕ) (trap : Bool) (ist : ℕ) → Gate
new_gate old handler trap ist =
    let keep = has_bit 7 old.flags in
    set_offset handler (record {
      offset_0_15 = 0;
      segment_select = gdt_kernel_code;
      ist = if keep then old.ist else ist;
      flags = if keep then old.flags else gate_flags gate_kernel trap;
      offset_16_31 = 0;
      offset_32_63 = 0;
      reserved = 0;
    })

-- The result is the int of the C function.
unfoldable pub load_idtentry : (entries : ℕ → ℕ) → ℕ → Bool → ℕ → Idt → Option (ℕ × Idt)
load_idtentry entries id trap ist s =
    if bad_ist ist
    then some (1, s)
    else if ltb id idt_len
    then some (0, record s { idt = write s.idt id (new_gate (s.idt id) (entries id) trap ist) })
    else none

-- The loop of enable_idt from gate `i` on; the result of load_idtentry is not looked at.
unfoldable pub enable_idt_from : (entries : ℕ → ℕ) → ℕ → ℕ → Idt → Option Idt
enable_idt_from entries zero i s = some s
enable_idt_from entries (suc left) i s = elim (load_idtentry entries i true 0 s) [
  | none ↦ none
  | some (ret, s') ↦ enable_idt_from entries left (i + 1) s'
]

-- All but the instruction that loads the table.
unfoldable pub enable_idt : (entries : ℕ → ℕ) → Idt → Option Idt
enable_idt entries s = enable_idt_from entries 0xFF 0 s

unfoldable pub register_handler : ℕ → ℕ → Bool → ℕ → Bool → Idt → Option (ℕ × Idt)
register_handler handler id trap ist override_shim s =
    let old = s.idt id in
    let placed = if override_shim then set_offset handler old else old in
    let gate = record placed { flags = gate_flags gate_user trap; ist = ist } in
    if bad_ist ist
    then some (1, s)
    else if ltb id idt_len
    then some (0, record { idt = write s.idt id gate; handlers = write s.handlers id handler })
    else none

-- The loop of enable_traps, and the page fault handler after it.
unfoldable pub default_traps : ℕ → ℕ → ℕ → Idt → Option Idt
default_traps default_trap_handler zero i s = some s
default_traps default_trap_handler (suc left) i s =
    elim (register_handler default_trap_handler i true 0 false s) [
      | none ↦ none
      | some (ret, s') ↦ default_traps default_trap_handler left (i + 1) s'
    ]

abbrev pub trap_pgf : ℕ
trap_pgf = 14

unfoldable pub enable_traps : (default_trap_handler page_fault_handler : ℕ) → Idt → Option Idt
enable_traps default_trap_handler page_fault_handler s =
    elim (default_traps default_trap_handler 0x20 0 s) [
      | none ↦ none
      | some s' ↦ elim (register_handler page_fault_handler trap_pgf true 0 false s') [
        | none ↦ none
        | some (ret, s'') ↦ some s''
      ]
    ]

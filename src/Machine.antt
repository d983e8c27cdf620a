-- ===== src/Machine.antt =====
-- What the processor and the devices share with the kernel: the registers that an interrupt saves
-- (include/cpu.h), the state of the interrupt controllers (include/apic.h, include/state.h), and
-- accesses to ports and device registers (include/portio.h) as a history of events. What a device
-- answers to a read is a function of the events before it, and a parameter.
use modos.Base.{ℕ, List}

-- struct regs of include/cpu.h
pub record Regs : Type 0 where
  pub rbp : ℕ
  pub r15 : ℕ
  pub r14 : ℕ
  pub r13 : ℕ
  pub r12 : ℕ
  pub r11 : ℕ
  pub r10 : ℕ
  pub r9 : ℕ
  pub r8 : ℕ
  pub rsi : ℕ
  pub rdi : ℕ
  pub rdx : ℕ
  pub rcx : ℕ
  pub rbx : ℕ
  pub rax : ℕ
  pub irq : ℕ
  pub error_code : ℕ
  pub rip : ℕ
  pub cs : ℕ
  pub rflags : ℕ
  pub rsp : ℕ
  pub ss : ℕ

-- `struct regs regs = {0}`
abbrev pub no_regs : Regs
no_regs = record {
  rbp = 0;
  r15 = 0;
  r14 = 0;
  r13 = 0;
  r12 = 0;
  r11 = 0;
  r10 = 0;
  r9 = 0;
  r8 = 0;
  rsi = 0;
  rdi = 0;
  rdx = 0;
  rcx = 0;
  rbx = 0;
  rax = 0;
  irq = 0;
  error_code = 0;
  rip = 0;
  cs = 0;
  rflags = 0;
  rsp = 0;
  ss = 0;
}

-- write_8 and read_8 of a port, and a store and a load of a 32-bit device register at an address.
pub data Event : Type 0 where
  port_out : ℕ → ℕ → Event
  port_in : ℕ → Event
  reg_store : ℕ → ℕ → Event
  reg_load : ℕ → Event

-- What devices answer after a history of events, the last one first.
pub record Devices : Type 0 where
  pub port : List Event → ℕ → ℕ
  pub register : List Event → ℕ → ℕ

-- struct ioapic
pub record Ioapic : Type 0 where
  pub id : ℕ
  pub ioapic_regs : ℕ
  pub gsid_base : ℕ
  pub relocate_len : ℕ

-- struct ioapic_legacymap
pub record LegacyMap : Type 0 where
  pub legacy_irq : ℕ
  pub gsi_irq : ℕ

-- The part of struct kernel_state about interrupt controllers and firmware tables. An entry of
-- lapics is the id of struct lapic.
pub record Board : Type 0 where
  pub lapics : ℕ → ℕ
  pub cpu_n : ℕ
  pub ioapics : ℕ → Ioapic
  pub n_ioapics : ℕ
  pub legacymaps : ℕ → LegacyMap
  pub n_legacymaps : ℕ
  pub rsdt : ℕ
  pub madt : ℕ

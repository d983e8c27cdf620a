-- ===== src/Asm.antt =====
-- The kernel's assembly around C functions: SAVE_REGS and RESTORE_REGS of include/asm/int_shim.h,
-- syscalls/sysentry.S, syscalls/enable_syscalls.S and idt/entry_shim.S. An instruction is a function on the
-- state Core of a processor, and its memory is that of the kernel. A function that is called is a
-- parameter, which gets the state at its first instruction and gives that before its `ret`.
pub mod Frame
pub mod Syscall
pub mod Rejected
pub mod Interrupt
pub mod Exception
pub mod Switch
pub mod Stack
mod Tests
use modos.Base.{
  ℕ, ◌+◌, ◌*◌, ◌/◌, ◌%◌, ◌^◌, ◌-◌, Bool, Option, none, some, List, [], ◌∷◌, ◌==◌, ◌||◌,
  if◌then◌else◌, u64, bit_or,
}
use modos.Str.{Memory}
use modos.Str.Words.{load64, store64}
use modos.Fs.{World}
use modos.Machine.{Regs}

-- The registers that the entries save.
pub data Reg : Type 0 where
  rbp r15 r14 r13 r12 r11 r10 r9 r8 rsi rdi rdx rcx rbx rax : Reg

-- The number of its word in struct regs of include/cpu.h.
unfoldable pub field_of : Reg → ℕ
field_of rbp = 0
field_of r15 = 1
field_of r14 = 2
field_of r13 = 3
field_of r12 = 4
field_of r11 = 5
field_of r10 = 6
field_of r9 = 7
field_of r8 = 8
field_of rsi = 9
field_of rdi = 10
field_of rdx = 11
field_of rcx = 12
field_of rbx = 13
field_of rax = 14

pub record Core : Type 0 where
  pub gpr : Reg → ℕ
  pub rsp : ℕ
  pub rip : ℕ
  pub rflags : ℕ
  pub cs : ℕ
  pub ss : ℕ
  pub world : World

-- Instructions.
unfoldable pub set_reg : Reg → ℕ → (Reg → ℕ) → Reg → ℕ
unfolding field_of
set_reg r v gpr q = if field_of q == field_of r then v else gpr q

abbrev pub mov : Reg → ℕ → Core → Core
mov r v c = record c { gpr = set_reg r v c.gpr }

unfoldable pub sub_rsp : ℕ → Core → Core
sub_rsp n c = record c { rsp = u64 (c.rsp + (0x1_0000_0000_0000_0000 - n)) }

unfoldable pub add_rsp : ℕ → Core → Core
add_rsp n c = record c { rsp = u64 (c.rsp + n) }

unfoldable pub push : ℕ → Core → Core
push v c =
    let rsp = u64 (c.rsp + 0xFFFF_FFFF_FFFF_FFF8) in
    record c { rsp = rsp; world = record c.world { mem = store64 rsp v c.world.mem } }

-- The word at the top of the stack.
abbrev pub top : Core → ℕ
top c = load64 c.world.mem c.rsp

unfoldable pub pop : Reg → Core → Core
pop r c = record c { gpr = set_reg r (top c) c.gpr; rsp = u64 (c.rsp + 8) }

-- `call` of a function by its address, up to the return; `return_at` is the next instruction.
unfoldable pub call :
    (function : ℕ → Core → Option Core) → (return_at address : ℕ) → Core → Option Core
call function return_at address c = elim (function address (push return_at c)) [
  | none ↦ none
  | some c' ↦ some (record c' { rip = top c'; rsp = u64 (c'.rsp + 8) })
]

-- `sysretq` with 0x18 in the upper half of STAR's upper word; the flags that it clears are left in.
unfoldable pub sysretq : Core → Core
sysretq c = record c { rip = c.gpr rcx; rflags = c.gpr r11; cs = 0x2B; ss = 0x23 }

unfoldable pub iretq : Core → Core
iretq c =
    let word = λ (i : ℕ). load64 c.world.mem (u64 (c.rsp + 8 * i)) in
    record c { rip = word 0; cs = word 1; rflags = word 2; rsp = word 3; ss = word 4 }

unfoldable pub push_all : List Reg → Core → Core
push_all [] c = c
push_all (r ∷ rs) c = push_all rs (push (c.gpr r) c)

unfoldable pub pop_all : List Reg → Core → Core
pop_all [] c = c
pop_all (r ∷ rs) c = pop_all rs (pop r c)

-- The registers of SAVE_REGS and of RESTORE_REGS, in their order.
abbrev pub saved : List Reg
saved = rax ∷ rbx ∷ rcx ∷ rdx ∷ rdi ∷ rsi ∷ r8 ∷ r9 ∷ r10 ∷ r11 ∷ r12 ∷ r13 ∷ r14 ∷ r15 ∷ rbp ∷ []

abbrev pub restored : List Reg
restored =
    rbp ∷ r15 ∷ r14 ∷ r13 ∷ r12 ∷ r11 ∷ r10 ∷ r9 ∷ r8 ∷ rsi ∷ rdi ∷ rdx ∷ rcx ∷ rbx ∷ rax ∷ []

unfoldable pub save_regs : Core → Core
save_regs c = push_all saved c

unfoldable pub restore_regs : Core → Core
restore_regs c = add_rsp 0x10 (pop_all restored c)

-- sysentry up to the call of the handler, with the address of syscall_table.
unfoldable pub sysentry_enter : (syscall_table : ℕ) → Core → Core
sysentry_enter syscall_table c =
    let c1 = save_regs (sub_rsp 0x10 (sub_rsp 0x28 c)) in
    let c2 = mov rdx syscall_table (mov rdi c1.rsp c1) in
    mov rax (load64 c2.world.mem (u64 (c2.gpr rdx + c2.gpr rax * 8))) c2

unfoldable pub sysentry_leave : Core → Core
sysentry_leave c = sysretq (add_rsp 0x28 (restore_regs c))

module _ (function : ℕ → Core → Option Core) (return_at : ℕ) where
  unfoldable pub run_sysentry : (syscall_table : ℕ) → Core → Option Core
  run_sysentry syscall_table c =
      let c1 = sysentry_enter syscall_table c in
      elim (call function return_at (c1.gpr rax) c1) [
        | none ↦ none
        | some c2 ↦ some (sysentry_leave c2)
      ]

-- The vectors of entry_point; those of entry_point_noerr push 0 for an error code first.
unfoldable pub has_error : ℕ → Bool
has_error i =
    i == 10 || i == 11 || i == 12 || i == 13 || i == 14 || i == 17 || i == 21 || i == 29 || i == 30

-- entry_0 to entry_254
unfoldable pub entry_point : (irq : ℕ) → Core → Core
entry_point irq c = if has_error irq then push irq c else push irq (push 0 c)

-- entry_shim up to the call of the handler, with the address of the array handlers.
unfoldable pub shim_enter : (handlers : ℕ) → Core → Core
shim_enter handlers c =
    let c1 = save_regs c in
    let c2 = mov rdx handlers (mov rdi c1.rsp c1) in
    let c3 = mov rcx (load64 c2.world.mem (u64 (c2.gpr rdi + 0x78))) c2 in
    mov r8 (load64 c3.world.mem (u64 (c3.gpr rdx + c3.gpr rcx * 8))) c3

unfoldable pub shim_leave : Core → Core
shim_leave c = iretq (restore_regs c)

module _ (function : ℕ → Core → Option Core) (return_at : ℕ) where
  unfoldable pub entry_shim : (handlers : ℕ) → Core → Option Core
  entry_shim handlers c =
      let c1 = shim_enter handlers c in
      elim (call function return_at (c1.gpr r8) c1) [ none ↦ none | some c2 ↦ some (shim_leave c2) ]

-- switch_process up to the call: the data segment of rsi goes through ax into the segment registers, which
-- are not kept here; rcx is SAVE_SIZE and 0x28.
unfoldable pub switch_enter : Core → Core
switch_enter c =
    let c1 = mov rax (c.gpr rax / 2 ^ 16 * 2 ^ 16 + c.gpr rsi % 2 ^ 16) c in
    let c2 = mov rcx (0x88 + 0x28) (record c1 { rsp = c1.gpr rdi }) in
    mov rdi (u64 (c2.rsp + c2.gpr rcx)) c2

module _ (function : ℕ → Core → Option Core) (return_at : ℕ) where
  unfoldable pub switch_process : Core → Option Core
  switch_process c =
      let c1 = switch_enter c in
      elim (call function return_at (c1.gpr rdx) c1) [
        | none ↦ none
        | some c2 ↦ some (shim_leave c2)
      ]

-- The words of a struct regs in memory.
unfoldable pub load_regs : Memory → ℕ → Regs
load_regs mem p =
    let word = λ (i : ℕ). load64 mem (p + 8 * i) in
    record {
      rbp = word 0;
      r15 = word 1;
      r14 = word 2;
      r13 = word 3;
      r12 = word 4;
      r11 = word 5;
      r10 = word 6;
      r9 = word 7;
      r8 = word 8;
      rsi = word 9;
      rdi = word 10;
      rdx = word 11;
      rcx = word 12;
      rbx = word 13;
      rax = word 14;
      irq = word 15;
      error_code = word 16;
      rip = word 17;
      cs = word 18;
      rflags = word 19;
      rsp = word 20;
      ss = word 21;
    }

-- A saved register in a struct regs.
unfoldable pub reg_of : Regs → Reg → ℕ
reg_of regs rbp = regs.rbp
reg_of regs r15 = regs.r15
reg_of regs r14 = regs.r14
reg_of regs r13 = regs.r13
reg_of regs r12 = regs.r12
reg_of regs r11 = regs.r11
reg_of regs r10 = regs.r10
reg_of regs r9 = regs.r9
reg_of regs r8 = regs.r8
reg_of regs rsi = regs.rsi
reg_of regs rdi = regs.rdi
reg_of regs rdx = regs.rdx
reg_of regs rcx = regs.rcx
reg_of regs rbx = regs.rbx
reg_of regs rax = regs.rax

-- The values that enable_syscalls writes into STAR, LSTAR, FMASK and EFER, whose value was `efer`.
unfoldable pub enable_syscalls : (efer handler : ℕ) → List (ℕ × ℕ)
enable_syscalls efer handler =
    let low = handler % 2 ^ 32 in
    let high = handler / 2 ^ 32 % 2 ^ 32 * 2 ^ 32 in
    (0xC000_0081, 0x18_0008 * 2 ^ 32 + low)
    ∷ (0xC000_0082, high + low)
    ∷ (0xC000_0084, high)
    ∷ (0xC000_0080, bit_or efer 1)
    ∷ []

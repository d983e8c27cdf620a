-- ===== src/Asm/Tests.antt =====
-- Instances of the theorems on the kernel's entries, and what enable_syscalls writes.
use modos.Base.{ℕ, Option, none, All, ◌<◌, ◌^◌, ◌+◌, ◌≡◌, refl, arith, some, inl, inr, ◌-◌, [], ◌∷◌}
use modos.Str.Words.{load64, store64}
use modos.Fs.{World, update_process}
use modos.Fs.Pages.{request_pages}
use modos.Io.{store_64}
use modos.Mm.Arena
use modos.Mm.Paging
use modos.Mm.Layout
use modos.Proc.{init_regs, set_kernel_stack, store_words, regs_words}
use modos.Fs.Sample.{sample}
use modos.Machine.{Regs}
use modos.Syscalls.{default_syscall_handler, e_invptr}
use modos.Syscalls.Sample.{sample_env}
use modos.Syscalls.Table.{Handler, call_handler}
use modos.Asm.{
  Reg, rax, rcx, r11, rsi, rdx, field_of, Core, set_reg, has_error, entry_point, run_sysentry,
  entry_shim, load_regs, reg_of, enable_syscalls, rdi, switch_process,
}
use modos.Asm.Frame.{AllWords, field_of-lt}
use modos.Asm.Syscall.{IsReady, c_handler, run_sysentry-returns}
use modos.Asm.Syscall
use modos.Asm.Rejected.{Outside, run_sysentry-bad_pointer}
use modos.Asm.Interrupt.{IsInterrupted, error_of, entry_shim-resumes}
use modos.Asm.Interrupt
use modos.Asm.Switch.{set_kernel_stack-switch_process}
use modos.Asm.Switch
use modos.Asm.Stack.{HasPlace, switch_stack, switch_stack-moved}
use modos.Asm.Stack
use modos.Fs.Open.{minus}
use modos.Str.{Memory, memcpy}
use modos.Str.Stored.{load64-store64}

-- A program whose registers hold the numbers of their fields.
abbrev program : (rsp : ℕ) → Core
program rsp = record {
  gpr = field_of;
  rsp = rsp;
  rip = 0x40_0000;
  rflags = 0x202;
  cs = 0x1B;
  ss = 0x23;
  world = sample;
}

field_of-AllWords : AllWords field_of
field_of-AllWords r = omega (arith, field_of-lt r)

calling : IsReady 0x5000 0x1000 (program 0x10B0)
unfolding field_of
calling = record {
  stack = refl;
  stack_lt = omega arith;
  room = omega arith;
  words = field_of-AllWords;
  entry_lt = omega arith;
  apart = inr (omega arith);
}

-- The default handler starts here for this program.
abbrev at_handler : World
at_handler =
    Syscall.started sample_env 9 0x7777 0x5000 0x1000 (λ n. Handler.default_handler) (λ r. 0)
      (program 0x10B0) calling

-- It answers -E_NOSYS.
abbrev answered : Regs
answered = record (load_regs at_handler.mem 0x1000) { rax = 0xFFFF_FFFF_FFFF_FFFF }

default_answers :
    call_handler sample_env 9 Handler.default_handler (load_regs at_handler.mem 0x1000) at_handler
    ≡ some (answered, at_handler)
unfolding call_handler default_syscall_handler
default_answers = refl

run_sysentry-returns_example :
    (reg_of (load_regs at_handler.mem 0x1000) ≡ field_of)
    × (run_sysentry
          (c_handler sample_env 9 (λ n. Handler.default_handler) (λ r. 0))
          0x7777
          0x5000
          (program 0x10B0)
        ≡ some (record (program 0x10B0) {
          gpr = set_reg rax 0xFFFF_FFFF_FFFF_FFFF field_of;
          rip = field_of rcx;
          rflags = field_of r11;
          cs = 0x2B;
          ss = 0x23;
          world = record at_handler {
            mem = store64 (0x1000 + 0x70) 0xFFFF_FFFF_FFFF_FFFF at_handler.mem;
          };
        }))
run_sysentry-returns_example =
    run_sysentry-returns sample_env 9 0x7777 0x5000 0x1000 (λ n. Handler.default_handler) (λ r. 0)
      (program 0x10B0) calling answered at_handler default_answers (λ a lo hi. refl) (omega arith)

-- A program that gives read a buffer in the kernel's half.
abbrev reading : Core
reading = record (program 0x10B0) { gpr = set_reg rsi 0xFFFF_8000_0000_0000 field_of }

reading-IsReady : IsReady 0x5000 0x1000 reading
unfolding set_reg field_of
reading-IsReady = record {
  stack = refl;
  stack_lt = omega arith;
  room = omega arith;
  words = λ r. let known = field_of-lt r in ground (arith, known);
  entry_lt = omega arith;
  apart = inr (omega arith);
}

run_sysentry-bad_pointer_example :
    (mem : Memory) × (run_sysentry
        (c_handler sample_env 9 (λ n. Handler.read_handler) (λ r. 0))
        0x7777
        0x5000
        reading
      ≡ some (record reading {
        gpr = set_reg rax (minus e_invptr) reading.gpr;
        rip = reading.gpr rcx;
        rflags = reading.gpr r11;
        cs = 0x2B;
        ss = 0x23;
        world = record reading.world { mem = mem };
      }))
    × ((a : ℕ) → Outside 0x1000 a → mem a ≡ reading.world.mem a)
unfolding set_reg
run_sysentry-bad_pointer_example =
    run_sysentry-bad_pointer sample_env 9 0x7777 0x5000 0x1000 (λ n. Handler.read_handler) (λ r. 0)
      reading reading-IsReady rsi refl (omega arith)

-- A page fault, which has an error code.
faulting : IsInterrupted 0x5000 0x1000 14 (program 0x1080)
unfolding has_error
faulting = record {
  fault = omega arith;
  stack = refl;
  stack_lt = omega arith;
  room = omega arith;
  words = field_of-AllWords;
  irq_lt = omega arith;
  entry_lt = omega arith;
  apart = inr (omega arith);
}

-- A handler that only returns.
abbrev ignore : ℕ → Core → Option Core
ignore address c = some c

abbrev at_fault : Core
at_fault = Interrupt.started ignore 0x7777 0x5000 0x1000 14 (program 0x1080) faulting

entry_shim-resumes_example :
    (at_fault.gpr rdi ≡ 0x1000)
    × (reg_of (load_regs at_fault.world.mem 0x1000) ≡ field_of)
    × ((load_regs at_fault.world.mem 0x1000).irq ≡ 14)
    × ((load_regs at_fault.world.mem 0x1000).error_code ≡ error_of 14 (program 0x1080))
    × (entry_shim ignore 0x7777 0x5000 (entry_point 14 (program 0x1080))
        ≡ some (record at_fault {
          gpr = field_of;
          rip = load64 sample.mem (0x1000 + 0x88);
          cs = load64 sample.mem (0x1000 + 0x90);
          rflags = load64 sample.mem (0x1000 + 0x98);
          rsp = load64 sample.mem (0x1000 + 0xA0);
          ss = load64 sample.mem (0x1000 + 0xA8);
        }))
entry_shim-resumes_example =
    entry_shim-resumes ignore 0x7777 0x5000 0x1000 14 (program 0x1080) faulting at_fault refl refl
      (λ a lo hi. refl)

-- STAR, LSTAR and FMASK for a handler in the upper half.
enable_syscalls_runs :
    enable_syscalls 0x500 0xFFFF_FFFF_8010_2030
    ≡ (0xC000_0081, 0x0018_0008_8010_2030)
      ∷ (0xC000_0082, 0xFFFF_FFFF_8010_2030)
      ∷ (0xC000_0084, 0xFFFF_FFFF_0000_0000)
      ∷ (0xC000_0080, 0x501)
      ∷ []
unfolding enable_syscalls
enable_syscalls_runs = refl

-- The registers of a program, on the kernel stack that it gets.
abbrev program_regs : Regs
program_regs = init_regs 0x7FFF_FFFF_F000 0x40_0000

abbrev stacked : ℕ × World
stacked = elim (set_kernel_stack 1 program_regs sample) [ none ↦ (0, sample) | some r ↦ r ]

stack_set : set_kernel_stack 1 program_regs sample ≡ some (0xFFFF_FFFF_0000_8F50, stacked.1)
unfolding set_kernel_stack update_process request_pages store_words regs_words init_regs store_64
    Arena.request_pages Paging.mapalloc_pages Paging.map_pages Paging.map_pages_from Paging.map_page
    Paging.pml4e_step Paging.table_step Layout.pml4e_offset Paging.enter_table Paging.walk_table
    Paging.pdpte_step Layout.pdpte_offset Paging.get_toplevel Paging.pde_step Layout.pde_offset
    Paging.fill Layout.page_offset
stack_set = refl

program_regs-words : All (λ v. v < 2 ^ 64) (regs_words program_regs)
unfolding regs_words init_regs
program_regs-words = omega arith

-- switch_process as exec_process calls it.
abbrev switching : Core
switching = record (program 0x10B0) { gpr = λ r. 0xFFFF_FFFF_0000_8F50; world = stacked.1 }

set_kernel_stack-switch_process_example :
    ((Switch.started ignore 0x7777 switching).gpr rdi ≡ 0xFFFF_FFFF_0000_8F50 + 0xB0)
    × (switch_process ignore 0x7777 switching
        ≡ some (record (Switch.started ignore 0x7777 switching) {
          gpr = reg_of program_regs;
          rip = program_regs.rip;
          cs = program_regs.cs;
          rflags = program_regs.rflags;
          rsp = program_regs.rsp;
          ss = program_regs.ss;
        }))
set_kernel_stack-switch_process_example =
    set_kernel_stack-switch_process ignore 0x7777 switching 1 program_regs sample stacked.1
      (Switch.started ignore 0x7777 switching) program_regs-words stack_set refl (omega arith)
      (omega arith) refl refl (λ a lo hi. refl)

-- A stack of two words under 0x3000, to be moved under 0x9000; the variables are at 0x100 and 0x108.
abbrev moving_regs : Reg → ℕ
moving_regs = set_reg rsi 0x9000 (set_reg rdi 0x1000 field_of)

abbrev moving : Core
moving = record (program 0x2FF0) {
  gpr = moving_regs;
  world = record sample { mem = store64 0x100 0x3000 sample.mem };
}

abbrev copier : ℕ → Core → Option Core
copier address c = some (record c {
  gpr = set_reg rax (c.gpr rdi) c.gpr;
  world = record c.world { mem = memcpy (c.gpr rdi) (c.gpr rsi) (c.gpr rdx) c.world.mem };
})

moving-HasPlace : HasPlace 0x100 0x108 0x10 0x20 moving
unfolding set_reg field_of
moving-HasPlace = record {
  old = load64-store64 0x100 0x3000 sample.mem (omega arith);
  full = omega arith;
  room = omega arith;
  old_lt = omega arith;
  place = omega arith;
  place_lt = omega arith;
  bottom_lt = omega arith;
  apart = inr (omega arith);
  variables = inl (omega arith);
  top_old = inl (omega arith);
  bottom_old = inl (omega arith);
  top_new = inl (omega arith);
  bottom_new = inl (omega arith);
}

abbrev at_memcpy : Core
at_memcpy = Stack.started copier 0x7777 0x6000 0x100 0x108 0x10 0x20 moving moving-HasPlace

copier_returns : set_reg rax (at_memcpy.gpr rdi) at_memcpy.gpr rax ≡ at_memcpy.gpr rdi
unfolding set_reg field_of
copier_returns = refl

switch_stack-moved_example :
    (c' : Core) × (switch_stack copier 0x7777 0x6000 0x100 0x108 moving ≡ some c')
    × (c'.rip ≡ load64 moving.world.mem 0x2FF0)
    × (c'.rsp + 0x10 ≡ moving_regs rsi + 8)
    × ((i : ℕ)
        → i < 0x10
        → c'.world.mem (moving_regs rsi - 0x10 + i) ≡ moving.world.mem (0x2FF0 + i))
    × (load64 c'.world.mem 0x100 ≡ moving_regs rsi)
    × (load64 c'.world.mem 0x108 ≡ moving_regs rdi)
switch_stack-moved_example =
    switch_stack-moved copier 0x7777 0x6000 0x100 0x108 0x10 0x20 moving moving-HasPlace
      (record at_memcpy {
        gpr = set_reg rax (at_memcpy.gpr rdi) at_memcpy.gpr;
        world = record at_memcpy.world {
          mem =
              memcpy (at_memcpy.gpr rdi) (at_memcpy.gpr rsi) (at_memcpy.gpr rdx)
                at_memcpy.world.mem;
        };
      })
      refl copier_returns (λ a out. refl)

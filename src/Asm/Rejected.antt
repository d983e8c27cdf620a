-- ===== src/Asm/Rejected.antt =====
-- syscalls/sysentry.S and syscalls/register_syscalls.c: a system call with a pointer that the program may not use.
use modos.Base.{
  ℕ, ◌+◌, ◌-◌, ◌*◌, ◌≤◌, ◌<◌, ◌≡◌, ◌⊎◌, inr, refl, ap, ◌∙◌, arith, Option, none, some, none≢some,
  some-injective,
}
use modos.Str.{Memory}
use modos.Str.Words.{load64, store64}
use modos.Str.Stored.{store64-outside}
use modos.Fs.{World}
use modos.Fs.Open.{minus}
use modos.Machine.{Regs}
use modos.Syscalls.{Env, user_end, e_invptr}
use modos.Syscalls.Table.{Handler, call_handler}
use modos.Syscalls.Table.Handler.{
  unset_handler, default_handler, read_handler, write_handler, open_handler, lmod_handler,
  mkdir_handler, mknod_handler,
}
use modos.Syscalls.Pointers.{user_pointer, call_handler-bad_pointer}
use modos.Asm.{
  Reg, rdi, rsi, rcx, r11, rax, field_of, Core, set_reg, push, run_sysentry, load_regs, reg_of,
}
use modos.Asm.Frame.{load_regs-IsFrame, load64-same}
use modos.Asm.Syscall.{IsReady, c_handler, run_sysentry-returns, started, enter_lem, pushed}

-- The register in which a handler is given a pointer.
abbrev pub pointer_reg : Handler → Option Reg
pointer_reg unset_handler = none
pointer_reg default_handler = none
pointer_reg read_handler = some rsi
pointer_reg write_handler = some rsi
pointer_reg open_handler = some rdi
pointer_reg lmod_handler = some rdi
pointer_reg mkdir_handler = some rdi
pointer_reg mknod_handler = some rdi

user_pointer-reg_of :
    (h : Handler) (r : Reg) (regs : Regs)
    → pointer_reg h ≡ some r
    → user_pointer h regs ≡ some (reg_of regs r)
unfolding reg_of
user_pointer-reg_of unset_handler r regs e = absurd (none≢some e)
user_pointer-reg_of default_handler r regs e = absurd (none≢some e)
user_pointer-reg_of read_handler r regs e = ap (λ q. some (reg_of regs q)) (some-injective e)
user_pointer-reg_of write_handler r regs e = ap (λ q. some (reg_of regs q)) (some-injective e)
user_pointer-reg_of open_handler r regs e = ap (λ q. some (reg_of regs q)) (some-injective e)
user_pointer-reg_of lmod_handler r regs e = ap (λ q. some (reg_of regs q)) (some-injective e)
user_pointer-reg_of mkdir_handler r regs e = ap (λ q. some (reg_of regs q)) (some-injective e)
user_pointer-reg_of mknod_handler r regs e = ap (λ q. some (reg_of regs q)) (some-injective e)

-- Bytes outside the frame of a system call.
abbrev pub Outside : (f a : ℕ) → Type 0
Outside f a = (a < f - 8) ⊎ (f + 0x78 ≤ a)

module _ (env : Env) (fuel return_at syscall_table f : ℕ) (handlers : ℕ → Handler) (after : Reg → ℕ)
    (c : Core) (ready : IsReady syscall_table f c) where
  abbrev at : World
  at = started env fuel return_at syscall_table f handlers after c ready

  -- What sysentry has changed when the handler starts.
  at_lem :
      (mem : Memory) × (at ≡ record c.world { mem = mem })
      × (reg_of (load_regs mem f) ≡ c.gpr)
      × ((a : ℕ) → Outside f a → mem a ≡ c.world.mem a)
  at_lem =
      let (mem, run, frame, outside) = enter_lem syscall_table f c ready in
      let m2 = store64 (f - 8) return_at mem in
      (
        m2,
        ap (λ (d : Core). d.world)
            (ap (push return_at) run ∙ pushed syscall_table f c ready mem return_at),
        load_regs-IsFrame f m2 c.gpr (λ r.
            load64-same mem m2 (f + 8 * field_of r)
              (λ a lo hi. store64-outside (f - 8) return_at mem a (inr (omega (arith, ready.room))))
            ∙ frame r),
        (λ a out.
            store64-outside (f - 8) return_at mem a (omega (arith, out, ready.room))
            ∙ outside a (omega (arith, out))),
      )

  -- For a system call with room on its stack whose handler takes a pointer, with a pointer that does not lie
  -- below USER_END: the program goes on behind the call with -E_INVPTR in rax, every other register
  -- is as before, and the kernel's state is as before but for the bytes of the saved registers and
  -- the return address on the stack.
  pub run_sysentry-bad_pointer :
      (r : Reg)
      → pointer_reg (handlers (load64 c.world.mem (syscall_table + c.gpr rax * 8))) ≡ some r
      → user_end ≤ c.gpr r
      → (mem : Memory) × (run_sysentry (c_handler env fuel handlers after) return_at syscall_table c
          ≡ some (record c {
            gpr = set_reg rax (minus e_invptr) c.gpr;
            rip = c.gpr rcx;
            rflags = c.gpr r11;
            cs = 0x2B;
            ss = 0x23;
            world = record c.world { mem = mem };
          }))
        × ((a : ℕ) → Outside f a → mem a ≡ c.world.mem a)
  run_sysentry-bad_pointer r given high =
      let (mem, same, frame, outside) = at_lem in
      let h = handlers (load64 c.world.mem (syscall_table + c.gpr rax * 8)) in
      let regs = load_regs at.mem f in
      let v = minus e_invptr in
      let found : reg_of regs r ≡ c.gpr r =
        ap (λ (w : World). reg_of (load_regs w.mem f) r) same ∙ ap (λ (g : Reg → ℕ). g r) frame in
      let ran : call_handler env fuel h regs at ≡ some (record regs { rax = v }, at) =
        call_handler-bad_pointer env fuel regs at h (reg_of regs r)
          (user_pointer-reg_of h r regs given) (omega (arith, high, found)) in
      let (_, returned) =
        run_sysentry-returns env fuel return_at syscall_table f handlers after c ready
          (record regs { rax = v }) at ran (λ a lo hi. refl) (omega arith) in
      (
        store64 (f + 0x70) v mem,
        returned
            ∙ ap
                (λ (w : World). some (record c {
                  gpr = set_reg rax v c.gpr;
                  rip = c.gpr rcx;
                  rflags = c.gpr r11;
                  cs = 0x2B;
                  ss = 0x23;
                  world = record w { mem = store64 (f + 0x70) v w.mem };
                }))
                same,
        (λ a out. store64-outside (f + 0x70) v mem a (omega (arith, out)) ∙ outside a out),
      )

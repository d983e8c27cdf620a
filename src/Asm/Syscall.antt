-- ===== src/Asm/Syscall.antt =====
-- syscalls/sysentry.S: what a system call does to the registers of the program that makes it.
use mathlib.Core.Path.{subst}
use modos.Base.{
  ℕ, ◌+◌, ◌-◌, ◌*◌, ◌^◌, ◌≤◌, ◌<◌, ◌≡◌, ◌⊎◌, inr, refl, sym, ap, ◌∙◌, arith, Option, none, some,
  u64,
}
use modos.Str.{Memory}
use modos.Str.Words.{load64, store64}
use modos.Str.Stored.{store64-outside}
use modos.Fs.{World}
use modos.Machine.{Regs}
use modos.Syscalls.{Env}
use modos.Syscalls.Table.{Handler, call_handler}
use modos.Asm.{
  Reg, rdi, rcx, r11, rax, rdx, field_of, Core, mov, set_reg, sub_rsp, add_rsp, push, call,
  save_regs, sysretq, sysentry_enter, sysentry_leave, run_sysentry, top, load_regs, reg_of,
}
use modos.Asm.Frame.{
  load64-same, with_stack, AllWords, IsFrame, frame_regs, load_regs-IsFrame, frame_regs-store,
  call_lem, push_lem, save_regs_lem, restore_regs_lem,
}

-- A system call with the struct regs at `f` on its stack, room for it and for the return address, and
-- the entry of the table for the number in rax elsewhere.
pub record IsReady (syscall_table f : ℕ) (c : Core) : Type 0 where
  pub stack : c.rsp ≡ f + 0xB0
  pub stack_lt : c.rsp < 2 ^ 64
  pub room : 8 ≤ f
  pub words : AllWords c.gpr
  pub entry_lt : syscall_table + c.gpr rax * 8 + 8 < 2 ^ 64
  pub apart : (syscall_table + c.gpr rax * 8 + 8 ≤ f) ⊎ (f + 0x78 ≤ syscall_table + c.gpr rax * 8)

module _ (syscall_table f : ℕ) (c : Core) (ready : IsReady syscall_table f c) where
  -- The handler's address, and what it finds: the registers at rdi.
  abbrev pub handler_at : ℕ
  handler_at = load64 c.world.mem (syscall_table + c.gpr rax * 8)

  -- What the handler's code changes before it runs.
  abbrev pub entered : Memory → Core
  entered mem = record (with_stack c f mem) {
    gpr = set_reg rax handler_at (set_reg rdx syscall_table (set_reg rdi f c.gpr));
  }

  pub enter_lem :
      (mem : Memory) × (sysentry_enter syscall_table c ≡ entered mem)
      × IsFrame f mem c.gpr
      × ((a : ℕ) → (a < f) ⊎ (f + 0x78 ≤ a) → mem a ≡ c.world.mem a)
  unfolding sysentry_enter sub_rsp set_reg field_of
  enter_lem =
      let lower : u64
            (u64 (c.rsp + (0x1_0000_0000_0000_0000 - 0x28)) + (0x1_0000_0000_0000_0000 - 0x10))
          ≡ f + 0x78 =
        omega (arith, ready.stack, ready.stack_lt) in
      let (mem, run, frame, outside) =
        save_regs_lem f (record c { rsp = f + 0x78 }) refl
          (omega (arith, ready.stack, ready.stack_lt)) ready.words in
      let fetch =
        load64-same c.world.mem mem (syscall_table + c.gpr rax * 8)
          (λ a lo hi. outside a (omega (arith, ready.apart, lo, hi))) in
      let no_wrap : u64 (syscall_table + c.gpr rax * 8) ≡ syscall_table + c.gpr rax * 8 =
        omega (arith, ready.entry_lt) in
      let from : Core → Core = λ c1.
        let c2 = mov rdx syscall_table (mov rdi c1.rsp c1) in
        mov rax (load64 c2.world.mem (u64 (c2.gpr rdx + c2.gpr rax * 8))) c2 in
      let found : ℕ → Core = λ v. record (with_stack c f mem) {
        gpr = set_reg rax v (set_reg rdx syscall_table (set_reg rdi f c.gpr));
      } in
      (
        mem,
        ap (λ q. from (save_regs (record c { rsp = q }))) lower
            ∙ ap from run
            ∙ ap found (ap (load64 mem) no_wrap ∙ fetch),
        frame,
        outside,
      )

  -- The handler's address is called at `entered mem`, with the return address below the registers.
  pub pushed :
      (mem : Memory) (return_at : ℕ)
      → push return_at (entered mem)
        ≡ with_stack (entered mem) (f - 8) (store64 (f - 8) return_at mem)
  pushed mem return_at =
      push_lem (f - 8) return_at (entered mem) (omega (arith, ready.room))
        (omega (arith, ready.stack, ready.stack_lt))

-- The way back, from the stack pointer that the handler's `ret` leaves.
leave_lem :
    (f : ℕ) (c : Core)
    → c.rsp ≡ f
    → f + 0xB0 < 2 ^ 64
    → sysentry_leave c ≡ record c {
      gpr = frame_regs f c.world.mem;
      rsp = f + 0xB0;
      rip = frame_regs f c.world.mem rcx;
      rflags = frame_regs f c.world.mem r11;
      cs = 0x2B;
      ss = 0x23;
    }
unfolding sysentry_leave sysretq add_rsp
leave_lem f c at fits =
    let end : u64 (f + 0x88 + 0x28) ≡ f + 0xB0 = omega (arith, fits) in
    let gpr = frame_regs f c.world.mem in
    let back : ℕ → Core =
      λ q. record c { gpr = gpr; rsp = q; rip = gpr rcx; rflags = gpr r11; cs = 0x2B; ss = 0x23 } in
    ap (λ (d : Core). sysretq (add_rsp 0x28 d)) (restore_regs_lem f c at (omega (arith, fits)))
    ∙ ap back end

-- A handler of the system calls as the code that sysentry calls: it gets the struct regs at rdi, and writes
-- its rax. `after` is what it leaves in the registers.
unfoldable pub c_handler :
    (env : Env) (fuel : ℕ) (handlers : ℕ → Handler) (after : Reg → ℕ) → ℕ → Core → Option Core
c_handler env fuel handlers after address c =
    let p = c.gpr rdi in
    elim (call_handler env fuel (handlers address) (load_regs c.world.mem p) c.world) [
      | none ↦ none
      | some (regs, w) ↦
          some
            (record c { gpr = after; world = record w { mem = store64 (p + 0x70) regs.rax w.mem } })
    ]

c_handler_lem :
    (env : Env) (fuel : ℕ) (handlers : ℕ → Handler) (after : Reg → ℕ) (address : ℕ) (c : Core)
    (regs : Regs) (w : World)
    → call_handler env fuel (handlers address) (load_regs c.world.mem (c.gpr rdi)) c.world
      ≡ some (regs, w)
    → c_handler env fuel handlers after address c
      ≡ some (record c {
        gpr = after;
        world = record w { mem = store64 (c.gpr rdi + 0x70) regs.rax w.mem };
      })
unfolding c_handler
c_handler_lem env fuel handlers after address c regs w run = rw (c_handler, run) refl

module _ (env : Env) (fuel return_at syscall_table f : ℕ) (handlers : ℕ → Handler) (after : Reg → ℕ)
    (c : Core) (ready : IsReady syscall_table f c) where
  -- The state of the kernel in which the handler starts.
  abbrev pub started : World
  started = (push return_at (sysentry_enter syscall_table c)).world

  -- For a system call with room on its stack, and a handler that returns and leaves the saved registers as
  -- they are: the handler of the number in rax is called and finds the registers of the program in
  -- its struct regs. Afterwards the program goes on behind the call, at rcx with the flags of r11
  -- and its stack pointer, rax is what the handler put there, every other register is as before,
  -- and the kernel's state is what the handler left.
  pub run_sysentry-returns :
      (regs : Regs) (w : World)
      → call_handler env fuel
          (handlers (load64 c.world.mem (syscall_table + c.gpr rax * 8)))
          (load_regs started.mem f)
          started
        ≡ some (regs, w)
      → ((a : ℕ) → f ≤ a → a < f + 0x78 → w.mem a ≡ started.mem a)
      → regs.rax < 2 ^ 64
      → (reg_of (load_regs started.mem f) ≡ c.gpr)
        × (run_sysentry (c_handler env fuel handlers after) return_at syscall_table c
            ≡ some (record c {
              gpr = set_reg rax regs.rax c.gpr;
              rip = c.gpr rcx;
              rflags = c.gpr r11;
              cs = 0x2B;
              ss = 0x23;
              world = record w { mem = store64 (f + 0x70) regs.rax w.mem };
            }))
  unfolding run_sysentry c_handler set_reg field_of
  run_sysentry-returns regs w ran kept small =
      let (mem, run, frame, outside) = enter_lem syscall_table f c ready in
      let m2 = store64 (f - 8) return_at mem in
      let at_call : push return_at (sysentry_enter syscall_table c)
          ≡ with_stack (entered syscall_table f c ready mem) (f - 8) m2 =
        ap (push return_at) run ∙ pushed syscall_table f c ready mem return_at in
      let frame2 : IsFrame f m2 c.gpr = λ r.
        load64-same mem m2 (f + 8 * field_of r)
          (λ a lo hi. store64-outside (f - 8) return_at mem a (inr (omega (arith, ready.room))))
        ∙ frame r in
      let ran2 =
        subst
          (λ (d : Core).
            call_handler env fuel (handlers (handler_at syscall_table f c ready))
              (load_regs d.world.mem f) d.world
            ≡ some (regs, w))
          at_call ran in
      let kept2 : (a : ℕ) → f ≤ a → a < f + 0x78 → w.mem a ≡ m2 a =
        λ a lo hi. kept a lo hi ∙ ap (λ (d : Core). d.world.mem a) at_call in
      let function = c_handler env fuel handlers after in
      let here = entered syscall_table f c ready mem in
      let address = handler_at syscall_table f c ready in
      let returned : Core = record (with_stack here (f - 8) m2) {
        gpr = after;
        world = record w { mem = store64 (f + 0x70) regs.rax w.mem };
      } in
      let up : u64 (f - 8 + 8) ≡ f = omega (arith, ready.room, ready.stack, ready.stack_lt) in
      let resume : Option Core → Option Core =
        λ o. elim o [ none ↦ none | some d ↦ some (sysentry_leave d) ] in
      let from : Core → Option Core = λ d. resume (call function return_at (d.gpr rax) d) in
      let back : (Reg → ℕ) → ℕ → Core = λ g q. record returned {
        gpr = g;
        rsp = q;
        rip = g rcx;
        rflags = g r11;
        cs = 0x2B;
        ss = 0x23;
      } in
      (
        ap (λ (d : Core). reg_of (load_regs d.world.mem f)) at_call
            ∙ load_regs-IsFrame f m2 c.gpr frame2,
        ap from run
            ∙ ap resume (
                call_lem function return_at address here returned (
                  ap (function address) (pushed syscall_table f c ready mem return_at)
                  ∙ c_handler_lem env fuel handlers after address (with_stack here (f - 8) m2) regs
                      w ran2))
            ∙ ap (λ (q : ℕ). resume (some (record returned { rip = top returned; rsp = q }))) up
            ∙ ap some (
                leave_lem f (record returned { rip = top returned; rsp = f }) refl
                  (omega (arith, ready.stack, ready.stack_lt)))
            ∙ ap (λ (g : Reg → ℕ). some (back g (f + 0xB0)))
                (frame_regs-store f regs.rax m2 w.mem c.gpr small frame2 kept2)
            ∙ ap (λ (q : ℕ). some (back (set_reg rax regs.rax c.gpr) q)) (sym ready.stack),
      )

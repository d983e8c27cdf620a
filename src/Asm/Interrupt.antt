-- ===== src/Asm/Interrupt.antt =====
-- idt/entry_shim.S: an interrupt, its handler, and the way back to the interrupted code.
use mathlib.Core.Path.{fun_ext}
use modos.Base.{
  ℕ, ◌+◌, ◌-◌, ◌*◌, ◌^◌, ◌≤◌, ◌<◌, ◌≡◌, ◌⊎◌, inl, inr, refl, sym, ap, ◌∙◌, arith, Option, none,
  some, u64, Bool, Bool-cases, ◌==◌, ◌||◌, ◌&&◌, leb, ◌≢◌, if◌then◌else◌,
}
use modos.Str.{Memory}
use modos.Str.Words.{load64, store64}
use modos.Str.Stored.{load64-store64, store64-outside}
use modos.Asm.{
  Reg, rdi, rcx, rdx, r8, field_of, Core, mov, set_reg, push, call, top, save_regs, iretq,
  has_error, entry_point, shim_enter, shim_leave, entry_shim, load_regs, reg_of,
}
use modos.Asm.Frame.{
  field_of-lt, load64-same, with_stack, AllWords, IsFrame, frame_regs, load_regs-IsFrame, push_lem,
  call_lem, save_regs_lem, restore_regs_lem,
}

-- The interrupts for which the processor pushes an error code, by the architecture.
abbrev pub pushes_code : ℕ → Bool
pushes_code irq =
    irq == 8 || (leb 10 irq && leb irq 14) || irq == 17 || irq == 21 || irq == 29 || irq == 30

-- The code's list of them has all but the double fault, number 8.
has_error_lem : (irq : ℕ) → irq ≢ 8 → has_error irq ≡ pushes_code irq
unfolding has_error
has_error_lem irq ne = grind arith

-- The processor at entry number `irq`: the five words of the interrupted code, and the error code of some
-- interrupts below them, stand on the stack above the struct regs at `f`, and the handler's entry elsewhere.
pub record IsInterrupted (handlers f irq : ℕ) (c : Core) : Type 0 where
  pub fault : irq ≢ 8
  pub stack : c.rsp ≡ (if pushes_code irq then f + 0x80 else f + 0x88)
  pub stack_lt : f + 0xB0 < 2 ^ 64
  pub room : 8 ≤ f
  pub words : AllWords c.gpr
  pub irq_lt : irq < 2 ^ 64
  pub entry_lt : handlers + irq * 8 + 8 < 2 ^ 64
  pub apart : (handlers + irq * 8 + 8 ≤ f) ⊎ (f + 0x88 ≤ handlers + irq * 8)

-- The error code of the processor, and 0 where it pushes none.
abbrev pub error_of : (irq : ℕ) → Core → ℕ
error_of irq c = if pushes_code irq then top c else 0

-- The entry's words on the stack.
abbrev IsEntered : (f irq : ℕ) → Core → Memory → Type 0
IsEntered f irq c m =
    (entry_point irq c ≡ with_stack c (f + 0x78) m)
    × (load64 m (f + 0x78) ≡ irq)
    × (load64 m (f + 0x80) ≡ error_of irq c)
    × ((a : ℕ) → (a < f + 0x78) ⊎ (f + 0x88 ≤ a) → m a ≡ c.world.mem a)

entry_point_lem :
    (handlers f irq : ℕ) (c : Core)
    → IsInterrupted handlers f irq c
    → (m : Memory) × IsEntered f irq c m
unfolding entry_point
entry_point_lem handlers f irq c i = elim (Bool-cases (pushes_code irq)) [
  | inl with_code ↦
      let listed = has_error_lem irq i.fault ∙ with_code in
      let at : c.rsp ≡ f + 0x80 = rw with_code at i.stack in
      let m = store64 (f + 0x78) irq c.world.mem in
      (
        m,
        (
          rw listed (push_lem (f + 0x78) irq c (omega (arith, at)) (omega (arith, at, i.stack_lt))),
          load64-store64 (f + 0x78) irq c.world.mem i.irq_lt,
          rw with_code (
              load64-same c.world.mem m (f + 0x80)
                (λ a lo hi. store64-outside (f + 0x78) irq c.world.mem a (inr (omega arith)))
              ∙ ap (load64 c.world.mem) (sym at)),
          (λ a out. store64-outside (f + 0x78) irq c.world.mem a (omega (arith, out))),
        ),
      )
  | inr without ↦
      let listed = has_error_lem irq i.fault ∙ without in
      let at : c.rsp ≡ f + 0x88 = rw without at i.stack in
      let m1 = store64 (f + 0x80) 0 c.world.mem in
      let m = store64 (f + 0x78) irq m1 in
      (
        m,
        (
          rw listed (
              ap (push irq)
                (push_lem (f + 0x80) 0 c (omega (arith, at)) (omega (arith, at, i.stack_lt)))
              ∙ push_lem (f + 0x78) irq (with_stack c (f + 0x80) m1) (omega arith)
                  (omega (arith, i.stack_lt))),
          load64-store64 (f + 0x78) irq m1 i.irq_lt,
          rw without (
              load64-same m1 m (f + 0x80)
                (λ a lo hi. store64-outside (f + 0x78) irq m1 a (inr (omega arith)))
              ∙ load64-store64 (f + 0x80) 0 c.world.mem (omega arith)),
          (λ a out.
              store64-outside (f + 0x78) irq m1 a (omega (arith, out))
              ∙ store64-outside (f + 0x80) 0 c.world.mem a (omega (arith, out))),
        ),
      )
]

module _ (handlers f irq : ℕ) (c : Core) (i : IsInterrupted handlers f irq c) where
  abbrev handler_of : ℕ
  handler_of = load64 c.world.mem (handlers + irq * 8)

  -- The state in which the shim calls the handler, with `mem` for memory.
  abbrev pub shimmed : Memory → Core
  shimmed mem = record (with_stack c f mem) {
    gpr = set_reg r8 handler_of (set_reg rcx irq (set_reg rdx handlers (set_reg rdi f c.gpr)));
  }

  -- What the handler finds at `f` in memory.
  abbrev IsSaved : Memory → Type 0
  IsSaved mem =
      IsFrame f mem c.gpr
      × (load64 mem (f + 0x78) ≡ irq)
      × (load64 mem (f + 0x80) ≡ error_of irq c)
      × ((a : ℕ) → (a < f) ⊎ (f + 0x88 ≤ a) → mem a ≡ c.world.mem a)

  pub shim_enter_lem :
      (mem : Memory) × (shim_enter handlers (entry_point irq c) ≡ shimmed mem) × IsSaved mem
  unfolding shim_enter set_reg field_of
  shim_enter_lem =
      let (m, (entered, number, code, above)) = entry_point_lem handlers f irq c i in
      let (mem, run, frame, outside) =
        save_regs_lem f (with_stack c (f + 0x78) m) refl (omega (arith, i.stack_lt)) i.words in
      let number' = load64-same m mem (f + 0x78) (λ a lo hi. outside a (inr lo)) ∙ number in
      let code' = load64-same m mem (f + 0x80) (λ a lo hi. outside a (omega (arith, lo))) ∙ code in
      let outside' : (a : ℕ) → (a < f) ⊎ (f + 0x88 ≤ a) → mem a ≡ c.world.mem a =
        λ a out. outside a (omega (arith, out)) ∙ above a (omega (arith, out)) in
      let fetch =
        load64-same c.world.mem mem (handlers + irq * 8)
          (λ a lo hi. outside' a (omega (arith, i.apart, lo, hi))) in
      let place : u64 (f + 0x78) ≡ f + 0x78 = omega (arith, i.stack_lt) in
      let no_wrap : u64 (handlers + irq * 8) ≡ handlers + irq * 8 = omega (arith, i.entry_lt) in
      let from : Core → Core = λ c1.
        let c2 = mov rdx handlers (mov rdi c1.rsp c1) in
        let c3 = mov rcx (load64 c2.world.mem (u64 (c2.gpr rdi + 0x78))) c2 in
        mov r8 (load64 c3.world.mem (u64 (c3.gpr rdx + c3.gpr rcx * 8))) c3 in
      let at_number : ℕ → Core = λ n.
        let d : Core = record (with_stack c f mem) {
          gpr = set_reg rcx n (set_reg rdx handlers (set_reg rdi f c.gpr));
        } in
        mov r8 (load64 mem (u64 (handlers + n * 8))) d in
      let found : ℕ → Core = λ v. record (with_stack c f mem) {
        gpr = set_reg r8 v (set_reg rcx irq (set_reg rdx handlers (set_reg rdi f c.gpr)));
      } in
      (
        mem,
        ap (λ d. from (save_regs d)) entered
            ∙ ap from run
            ∙ ap at_number (ap (load64 mem) place ∙ number')
            ∙ ap found (ap (load64 mem) no_wrap ∙ fetch),
        (frame, number', code', outside'),
      )

-- The way back, from the stack pointer that the handler's `ret` leaves.
pub shim_leave_lem :
    (f : ℕ) (c : Core)
    → c.rsp ≡ f
    → f + 0xB0 < 2 ^ 64
    → shim_leave c ≡ record c {
      gpr = frame_regs f c.world.mem;
      rip = load64 c.world.mem (f + 0x88);
      cs = load64 c.world.mem (f + 0x90);
      rflags = load64 c.world.mem (f + 0x98);
      rsp = load64 c.world.mem (f + 0xA0);
      ss = load64 c.world.mem (f + 0xA8);
    }
unfolding shim_leave iretq
shim_leave_lem f c at fits =
    let word = λ (k n : ℕ) (e : u64 (f + 0x88 + 8 * k) ≡ f + n). ap (load64 c.world.mem) e in
    ap iretq (restore_regs_lem f c at (omega (arith, fits)))
    ∙ rw
        (
          word 0 0x88 (omega (arith, fits)),
          word 1 0x90 (omega (arith, fits)),
          word 2 0x98 (omega (arith, fits)),
          word 3 0xA0 (omega (arith, fits)),
          word 4 0xA8 (omega (arith, fits)),
        )
        refl

module _ (function : ℕ → Core → Option Core) (return_at handlers f irq : ℕ) (c : Core)
    (i : IsInterrupted handlers f irq c) where
  -- The state in which the handler starts.
  abbrev pub started : Core
  started = push return_at (shim_enter handlers (entry_point irq c))

  -- For an interrupt other than the double fault, number 8, whose entry finds the interrupted code's words on the
  -- stack with the error code that the architecture has for its number, room below them, and the
  -- array of handlers elsewhere: the handler of its number is called with a struct regs that has the
  -- registers as they were, the number, and the error code of the processor, or 0 where it pushes
  -- none. When the handler returns with its stack pointer as it was and the struct regs
  -- unchanged, the interrupted code goes on with all its registers, flags and stack pointer.
  pub entry_shim-resumes :
      (d : Core)
      → function (load64 c.world.mem (handlers + irq * 8)) started ≡ some d
      → d.rsp ≡ started.rsp
      → ((a : ℕ) → f ≤ a → a < f + 0xB0 → d.world.mem a ≡ started.world.mem a)
      → (started.gpr rdi ≡ f)
        × (reg_of (load_regs started.world.mem f) ≡ c.gpr)
        × ((load_regs started.world.mem f).irq ≡ irq)
        × ((load_regs started.world.mem f).error_code ≡ error_of irq c)
        × (entry_shim function return_at handlers (entry_point irq c)
            ≡ some (record d {
              gpr = c.gpr;
              rip = load64 c.world.mem (f + 0x88);
              cs = load64 c.world.mem (f + 0x90);
              rflags = load64 c.world.mem (f + 0x98);
              rsp = load64 c.world.mem (f + 0xA0);
              ss = load64 c.world.mem (f + 0xA8);
            }))
  unfolding entry_shim load_regs set_reg field_of
  entry_shim-resumes d ran stack kept =
      let (mem, run, (frame, number, code, outside)) = shim_enter_lem handlers f irq c i in
      let here = shimmed handlers f irq c i mem in
      let m2 = store64 (f - 8) return_at mem in
      let at_call : started ≡ with_stack here (f - 8) m2 =
        ap (push return_at) run
        ∙ push_lem (f - 8) return_at here (omega (arith, i.room)) (omega (arith, i.stack_lt)) in
      let below : (a : ℕ) → f ≤ a → m2 a ≡ mem a =
        λ a lo. store64-outside (f - 8) return_at mem a (inr (omega (arith, i.room))) in
      let word : (n v : ℕ) → load64 mem (f + n) ≡ v → load64 m2 (f + n) ≡ v =
        λ n v e. load64-same mem m2 (f + n) (λ a lo hi. below a (omega arith)) ∙ e in
      let frame2 : IsFrame f m2 c.gpr = λ r. word (8 * field_of r) (c.gpr r) (frame r) in
      let kept2 : (a : ℕ) → f ≤ a → a < f + 0xB0 → d.world.mem a ≡ m2 a =
        λ a lo hi. kept a lo hi ∙ ap (λ (e : Core). e.world.mem a) at_call in
      let same : (r : Reg) → frame_regs f d.world.mem r ≡ c.gpr r = λ r.
        load64-same m2 d.world.mem (f + 8 * field_of r)
          (λ a lo hi. kept2 a (omega arith) (omega (arith, field_of-lt r)))
        ∙ frame2 r in
      let above : (n : ℕ)
          → 0x88 ≤ n
          → n < 0xA9
          → load64 d.world.mem (f + n) ≡ load64 c.world.mem (f + n) =
        λ n lo hi.
          load64-same m2 d.world.mem (f + n) (λ a l h. kept2 a (omega arith) (omega arith))
          ∙ word n (load64 mem (f + n)) refl
          ∙ load64-same c.world.mem mem (f + n) (λ a l h. outside a (inr (omega arith))) in
      let up : u64 (d.rsp + 8) ≡ f =
        omega (arith, stack, ap (λ (e : Core). e.rsp) at_call, i.room, i.stack_lt) in
      let resume : Option Core → Option Core =
        λ o. elim o [ none ↦ none | some e ↦ some (shim_leave e) ] in
      let from : Core → Option Core = λ e. resume (call function return_at (e.gpr r8) e) in
      let handler = handler_of handlers f irq c i in
      let ran2 = ap (λ (e : Core). function handler (push return_at e)) (sym run) ∙ ran in
      let back : (Reg → ℕ) → (ℕ → ℕ) → Core = λ gpr words. record d {
        gpr = gpr;
        rip = words 0x88;
        cs = words 0x90;
        rflags = words 0x98;
        rsp = words 0xA0;
        ss = words 0xA8;
      } in
      (
        ap (λ (e : Core). e.gpr rdi) at_call,
        ap (λ (e : Core). reg_of (load_regs e.world.mem f)) at_call
            ∙ load_regs-IsFrame f m2 c.gpr frame2,
        ap (λ (e : Core). load64 e.world.mem (f + 0x78)) at_call ∙ word 0x78 irq number,
        ap (λ (e : Core). load64 e.world.mem (f + 0x80)) at_call ∙ word 0x80 (error_of irq c) code,
        ap from run
            ∙ ap resume (call_lem function return_at handler here d ran2)
            ∙ ap (λ (q : ℕ). resume (some (record d { rip = top d; rsp = q }))) up
            ∙ ap some (shim_leave_lem f (record d { rip = top d; rsp = f }) refl i.stack_lt)
            ∙ ap (λ (g : Reg → ℕ). some (back g (λ n. load64 d.world.mem (f + n)))) (fun_ext same)
            ∙ rw
                (
                  above 0x88 (omega arith) (omega arith),
                  above 0x90 (omega arith) (omega arith),
                  above 0x98 (omega arith) (omega arith),
                  above 0xA0 (omega arith) (omega arith),
                  above 0xA8 (omega arith) (omega arith),
                )
                refl,
      )

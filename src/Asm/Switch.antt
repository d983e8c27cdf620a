-- ===== src/Asm/Switch.antt =====
-- kernel/proc/exec_process.c and switch_process.S: the start of a program, from the registers on its kernel
-- stack.
use mathlib.Core.Path.{subst, fun_ext}
use modos.Base.{
  ℕ, zero, suc, ◌+◌, ◌-◌, ◌*◌, ◌^◌, ◌≤◌, ◌<◌, ◌≡◌, ◌≢◌, inl, inr, refl, sym, ap, ◌∙◌, arith, Option,
  none, some, u64, List, [], ◌∷◌, All, eq→==, true, ne→==, write, Option-cases, none≢some, ◌/◌,
  Bool-cases, ◌==◌, some-injective, get_elem?,
}
use modos.Str.{Memory}
use modos.Str.Words.{load64, store64}
use modos.Str.Stored.{load64-store64, store64-outside}
use mathlib.Core.Bool.{true≢false}
use modos.Fs.{World, and_then, pure, ◌>>◌, update_process}
use modos.Io.{store_64}
use modos.Machine.{Regs}
use modos.Proc.{minus, regs_size, regs_words, store_words, set_kernel_stack}
use modos.Mm.Layout.{page_size, pg_write}
use modos.Mm.Setup.{stack_size}
use modos.Fs.Pages.{request_pages}
use modos.Asm.{
  Reg, rbp, r15, r14, r13, r12, r11, r10, r9, r8, rsi, rdi, rdx, rcx, rbx, rax, field_of, Core,
  set_reg, push, top, shim_leave, switch_enter, switch_process, reg_of,
}
use modos.Asm.Frame.{field_of-lt, load64-same, with_stack, push_lem, call_lem}
use modos.Asm.Interrupt.{shim_leave_lem}

-- The words from `p` on.
abbrev Stored : List ℕ → ℕ → Memory → Type 0
Stored [] p mem = Unit {0}
Stored (v ∷ vs) p mem = (load64 mem p ≡ v) × Stored vs (p + 8) mem

store_words_lem :
    (vs : List ℕ) (p : ℕ) (w : World)
    → p ≢ 0
    → All (λ v. v < 2 ^ 64) vs
    → (mem : Memory) × (store_words p vs w ≡ some (tt, record w { mem = mem }))
      × Stored vs p mem
      × ((a : ℕ) → a < p → mem a ≡ w.mem a)
unfolding store_words store_64
store_words_lem [] p w given small = (w.mem, refl, tt, (λ a lo. refl))
store_words_lem (v ∷ vs) p w given (small, rest) =
    let m1 = store64 p v w.mem in
    let (mem, run, stored, below) =
      store_words_lem vs (p + 8) (record w { mem = m1 }) (omega arith) rest in
    (
      mem,
      rw (ne→== p 0 given) run,
      (load64-same m1 mem p (λ a lo hi. below a hi) ∙ load64-store64 p v w.mem small, stored),
      (λ a lo. below a (omega arith) ∙ store64-outside p v w.mem a (inl lo)),
    )

store_words-null :
    (regs : Regs) (at : ℕ) (w : World)
    → (at == 0) ≡ true
    → (store_words at (regs_words regs) >> pure at) w ≡ none
unfolding store_words regs_words store_64
store_words-null regs at w null = rw null refl

-- What set_kernel_stack leaves on the kernel stack that it gives.
set_kernel_stack_lem :
    (pid : ℕ) (regs : Regs) (w w' : World) (stack : ℕ)
    → All (λ v. v < 2 ^ 64) (regs_words regs)
    → set_kernel_stack pid regs w ≡ some (stack, w')
    → Stored (regs_words regs) stack w'.mem
unfolding set_kernel_stack update_process
set_kernel_stack_lem pid regs w w' stack small run =
    let w1 = record w { procs = write w.procs pid (record (w.procs pid) { regs = regs }) } in
    elim (Option-cases (request_pages 0 (stack_size / page_size) pg_write w1)) [
      | inl failed ↦ absurd (none≢some (rw failed at run))
      | inr ((block, w2), got) ↦
          let at = minus (u64 (block + stack_size)) regs_size in
          let w3 = record w2 {
            procs = write w2.procs pid (record (w2.procs pid) { kernel_stack = at });
          } in
          let run2 = rw got at run in
          elim (Bool-cases (at == 0)) [
            | inl null ↦ absurd (none≢some (sym (store_words-null regs at w3 null) ∙ run2))
            | inr ne ↦
                let (mem, stored_run, stored, below) =
                  store_words_lem (regs_words regs) at w3
                    (λ e. true≢false (sym (eq→== at 0 e) ∙ ne)) small in
                let done =
                  some-injective (sym (ap (λ o. and_then o (λ _. pure at)) stored_run) ∙ run2) in
                subst (λ (r : ℕ × World). Stored (regs_words regs) (r.0) (r.1.mem)) done stored
          ]
    ]

Stored-at :
    (vs : List ℕ) (p i v : ℕ) (mem : Memory)
    → Stored vs p mem
    → get_elem? vs i ≡ some v
    → load64 mem (p + 8 * i) ≡ v
Stored-at [] p i v mem stored e = absurd (none≢some e)
Stored-at (u ∷ vs) p zero v mem stored e =
    let here : p + 8 * 0 ≡ p = omega arith in ap (load64 mem) here ∙ stored.0 ∙ some-injective e
Stored-at (u ∷ vs) p (suc i) v mem stored e =
    let next : p + 8 * suc i ≡ p + 8 + 8 * i = omega arith in
    ap (load64 mem) next ∙ Stored-at vs (p + 8) i v mem stored.1 e

word_of_reg :
    (regs : Regs) (r : Reg) → get_elem? (regs_words regs) (field_of r) ≡ some (reg_of regs r)
unfolding regs_words field_of reg_of
word_of_reg regs r =
    elim r as (λ q. get_elem? (regs_words regs) (field_of q) ≡ some (reg_of regs q)) [
      | rax ↦ refl
      | rbx ↦ refl
      | rcx ↦ refl
      | rdx ↦ refl
      | rdi ↦ refl
      | rsi ↦ refl
      | r8 ↦ refl
      | r9 ↦ refl
      | r10 ↦ refl
      | r11 ↦ refl
      | r12 ↦ refl
      | r13 ↦ refl
      | r14 ↦ refl
      | r15 ↦ refl
      | rbp ↦ refl
    ]

words_of_iret :
    (regs : Regs)
    → (get_elem? (regs_words regs) 17 ≡ some regs.rip)
      × (get_elem? (regs_words regs) 18 ≡ some regs.cs)
      × (get_elem? (regs_words regs) 19 ≡ some regs.rflags)
      × (get_elem? (regs_words regs) 20 ≡ some regs.rsp)
      × (get_elem? (regs_words regs) 21 ≡ some regs.ss)
unfolding regs_words
words_of_iret regs = (refl, refl, refl, refl, refl)

module _ (function : ℕ → Core → Option Core) (return_at : ℕ) (c : Core) where
  -- The state in which the function that switch_process calls starts.
  abbrev pub started : Core
  started = push return_at (switch_enter c)

  -- When set_kernel_stack gave the stack for the registers of a process, and switch_process is called with it:
  -- the function for the task state gets the end of that stack, and when it returns with its stack
  -- pointer as it was and the stack unchanged, the processor goes on with exactly the registers of the
  -- process: its program starts at rip, with the stack, segments and flags that they have.
  pub set_kernel_stack-switch_process :
      (pid : ℕ) (regs : Regs) (w w' : World) (d : Core)
      → All (λ v. v < 2 ^ 64) (regs_words regs)
      → set_kernel_stack pid regs w ≡ some (c.gpr rdi, w')
      → c.world.mem ≡ w'.mem
      → 8 ≤ c.gpr rdi
      → c.gpr rdi + 0xB0 < 2 ^ 64
      → function (c.gpr rdx) started ≡ some d
      → d.rsp ≡ started.rsp
      → ((a : ℕ) → c.gpr rdi ≤ a → a < c.gpr rdi + 0xB0 → d.world.mem a ≡ started.world.mem a)
      → (started.gpr rdi ≡ c.gpr rdi + 0xB0)
        × (switch_process function return_at c
            ≡ some (record d {
              gpr = reg_of regs;
              rip = regs.rip;
              cs = regs.cs;
              rflags = regs.rflags;
              rsp = regs.rsp;
              ss = regs.ss;
            }))
  unfolding switch_process switch_enter set_reg field_of
  set_kernel_stack-switch_process pid regs w w' d small set same room fits ran stack kept =
      let f = c.gpr rdi in
      let here = switch_enter c in
      let m2 = store64 (f - 8) return_at c.world.mem in
      let at_call : started ≡ with_stack here (f - 8) m2 =
        push_lem (f - 8) return_at here (omega (arith, room)) (omega (arith, fits)) in
      let kept2 : (a : ℕ) → f ≤ a → a < f + 0xB0 → d.world.mem a ≡ c.world.mem a = λ a lo hi.
        kept a lo hi
        ∙ ap (λ (e : Core). e.world.mem a) at_call
        ∙ store64-outside (f - 8) return_at c.world.mem a (inr (omega (arith, room))) in
      let stored = set_kernel_stack_lem pid regs w w' f small set in
      let word : (i v : ℕ)
          → i < 22
          → get_elem? (regs_words regs) i ≡ some v
          → load64 d.world.mem (f + 8 * i) ≡ v =
        λ i v lt e.
          load64-same c.world.mem d.world.mem (f + 8 * i)
            (λ a lo hi. kept2 a (omega arith) (omega arith))
          ∙ ap (λ (m : Memory). load64 m (f + 8 * i)) same
          ∙ Stored-at (regs_words regs) f i v w'.mem stored e in
      let end : u64 (f + 0xB0) ≡ f + 0xB0 = omega (arith, fits) in
      let iret = words_of_iret regs in
      let up : u64 (d.rsp + 8) ≡ f =
        omega (arith, stack, ap (λ (e : Core). e.rsp) at_call, room, fits) in
      let resume : Option Core → Option Core =
        λ o. elim o [ none ↦ none | some e ↦ some (shim_leave e) ] in
      let back : (Reg → ℕ) → (ℕ → ℕ) → Core = λ gpr words. record d {
        gpr = gpr;
        rip = words 0x88;
        cs = words 0x90;
        rflags = words 0x98;
        rsp = words 0xA0;
        ss = words 0xA8;
      } in
      (
        ap (λ (e : Core). e.gpr rdi) at_call ∙ end,
        ap resume (call_lem function return_at (c.gpr rdx) here d ran)
            ∙ ap (λ (q : ℕ). resume (some (record d { rip = top d; rsp = q }))) up
            ∙ ap some (shim_leave_lem f (record d { rip = top d; rsp = f }) refl fits)
            ∙ ap (λ (g : Reg → ℕ). some (back g (λ n. load64 d.world.mem (f + n))))
                (fun_ext (λ r.
                  word (field_of r) (reg_of regs r) (omega (arith, field_of-lt r))
                    (word_of_reg regs r)))
            ∙ rw
                (
                  word 17 regs.rip (omega arith) (iret.0),
                  word 18 regs.cs (omega arith) (iret.1),
                  word 19 regs.rflags (omega arith) (iret.2),
                  word 20 regs.rsp (omega arith) (iret.3),
                  word 21 regs.ss (omega arith) (iret.4),
                )
                refl,
      )

-- ===== src/Asm/Exception.antt =====
-- kernel/traps/exception_handlers.c: what the handlers of exceptions report of the interrupted code.
use modos.Base.{ℕ, ◌+◌, ◌-◌, ◌≡◌, inr, ap, ◌∙◌, arith, Option, List, [], ◌∷◌}
use mathlib.Core.Path.{ap₂}
use modos.Str.Words.{load64, store64}
use modos.Str.Stored.{store64-outside}
use modos.Machine.{Regs}
use modos.Asm.{Core, push, load_regs}
use modos.Asm.Frame.{load64-same, with_stack, push_lem}
use modos.Asm.Interrupt.{IsInterrupted, error_of, shimmed, shim_enter_lem, started}

-- The numbers in the message that a handler panics with, in their order; it does not return.
unfoldable default_trap_handler : Regs → List ℕ
default_trap_handler regs = regs.irq ∷ regs.rip ∷ regs.error_code ∷ []

unfoldable page_fault_handler : (cr2 : ℕ) → Regs → List ℕ
page_fault_handler cr2 regs = regs.rip ∷ cr2 ∷ regs.error_code ∷ []

module _ (function : ℕ → Core → Option Core) (return_at handlers f irq : ℕ) (c : Core)
    (i : IsInterrupted handlers f irq c) where
  abbrev found : Regs
  found = load_regs (started function return_at handlers f irq c i).world.mem f

  found_lem :
      (found.irq ≡ irq)
      × (found.rip ≡ load64 c.world.mem (f + 0x88))
      × (found.error_code ≡ error_of irq c)
  unfolding load_regs
  found_lem =
      let (mem, run, (frame, number, code, outside)) = shim_enter_lem handlers f irq c i in
      let here = shimmed handlers f irq c i mem in
      let m2 = store64 (f - 8) return_at mem in
      let at_call : started function return_at handlers f irq c i ≡ with_stack here (f - 8) m2 =
        ap (push return_at) run
        ∙ push_lem (f - 8) return_at here (omega (arith, i.room)) (omega (arith, i.stack_lt)) in
      let word : (n : ℕ)
          → load64 (started function return_at handlers f irq c i).world.mem (f + n)
            ≡ load64 mem (f + n) =
        λ n.
          ap (λ (e : Core). load64 e.world.mem (f + n)) at_call
          ∙ load64-same mem m2 (f + n) (λ a lo hi.
            store64-outside (f - 8) return_at mem a (inr (omega (arith, lo, i.room)))) in
      (
        word 0x78 ∙ number,
        word 0x88
            ∙ load64-same c.world.mem mem (f + 0x88) (λ a lo hi. outside a (inr (omega arith))),
        word 0x80 ∙ code,
      )

  -- A handler of exceptions that is entered as IsInterrupted says reports the number of the exception, where the
  -- code was interrupted, and the error code that the processor gave, or 0.
  default_trap_handler-started :
      default_trap_handler found ≡ irq ∷ load64 c.world.mem (f + 0x88) ∷ error_of irq c ∷ []
  unfolding default_trap_handler
  default_trap_handler-started =
      let (number, at, code) = found_lem in
      ap (λ n. n ∷ found.rip ∷ found.error_code ∷ []) number ∙ ap₂ (λ r e. irq ∷ r ∷ e ∷ []) at code

  page_fault_handler-started :
      (cr2 : ℕ)
      → page_fault_handler cr2 found ≡ load64 c.world.mem (f + 0x88) ∷ cr2 ∷ error_of irq c ∷ []
  unfolding page_fault_handler
  page_fault_handler-started cr2 =
      let (number, at, code) = found_lem in ap₂ (λ r e. r ∷ cr2 ∷ e ∷ []) at code

-- ===== src/Apic/Eoi.antt =====
-- kernel/irq/irq_handler.c: an interrupt reaches the handler registered for it and is acknowledged.
use modos.Base.{
  ℕ, ◌+◌, ◌<◌, ◌≡◌, ◌≢◌, refl, sym, arith, lt→ltb, ne→==, eq→==, some, ◌∷◌, write, write_ne,
}
use modos.Machine.{Regs, Event}
use modos.Fs.{World, M}
use modos.Io.{store_reg}
use modos.Apic.{
  irq_max, irq_handler, register_irq_handler, write_lapic_reg, lapic_eoi_signal,
  lapic_remap_destination,
}

-- A state with the end of an interrupt as its last event.
abbrev pub acknowledged : World → World
acknowledged w = record w {
  trace = Event.reg_store (lapic_remap_destination + 0xB0) lapic_eoi_signal ∷ w.trace;
}

module _ (call_irq : ℕ → Regs → M Regs) (handler irq : ℕ) (w : World) where
  -- For an interrupt below 255 and a handler that is not NULL, register_irq_handler returns, and
  -- then the interrupt runs the handler: when the handler returns,
  -- irq_handler returns its registers, after the end of the interrupt is written to the local
  -- controller. An interrupt below 255 with no handler is acknowledged at once, and one whose
  -- handler was registered before keeps it.
  pub irq_handler-acknowledged :
      irq < irq_max
      → handler ≢ 0
      → (w1 : World) × (register_irq_handler handler irq w ≡ some (tt, w1))
        × ((regs regs' : Regs) (w2 : World)
            → regs.irq ≡ irq
            → call_irq handler regs w1 ≡ some (regs', w2)
            → irq_handler call_irq regs w1 ≡ some (regs', acknowledged w2))
        × ((regs : Regs)
            → regs.irq < irq_max
            → regs.irq ≢ irq
            → w.irq_handlers regs.irq ≡ 0
            → irq_handler call_irq regs w1 ≡ some (regs, acknowledged w1))
        × ((other : ℕ) → other ≢ irq → w1.irq_handlers other ≡ w.irq_handlers other)
  unfolding register_irq_handler irq_handler write_lapic_reg store_reg
  irq_handler-acknowledged a given =
      let w1 : World = record w { irq_handlers = write w.irq_handlers irq handler } in
      (
        w1,
        rw (lt→ltb irq irq_max a) refl,
        (λ regs regs' w2 e run.
            rw
              (
                lt→ltb regs.irq irq_max (omega (arith, a, e)),
                eq→== irq regs.irq (sym e),
                ne→== handler 0 given,
                run,
              )
              refl),
        (λ regs b ne free.
            rw (lt→ltb regs.irq irq_max b, ne→== irq regs.irq (λ e. ne (sym e)), free) refl),
        (λ other ne. write_ne w.irq_handlers irq handler other (λ e. ne (sym e))),
      )

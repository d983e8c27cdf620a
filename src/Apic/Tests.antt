-- ===== src/Apic/Tests.antt =====
-- Two IOAPICs, and instances of the theorems on interrupts.
use modos.Base.{ℕ, ◌*◌, ◌≡◌, ◌≢◌, ◌<◌, refl, arith, none, some}
use modos.Machine.{Regs, Devices, Ioapic}
use modos.Fs.{World, M, pure}
use modos.Fs.Sample.{sample, sample_board}
use modos.Apic.{
  irq_max, irq_handler, register_irq_handler, write_gsid_redir, read_gsid_redir, ioapic_remap_base,
}
use modos.Apic.Window.{replay}
use modos.Apic.Redirect.{write_gsid_redir-read_gsid_redir}
use modos.Apic.Eoi.{acknowledged, irq_handler-acknowledged}

-- The first has the interrupts below 24 and id 0, the second the others and id 1.
abbrev two_ioapics : ℕ → Ioapic
two_ioapics i = record { id = i; ioapic_regs = 0; gsid_base = i * 24; relocate_len = 0 }

abbrev with_ioapics : World
with_ioapics = record sample {
  board = record sample_board { ioapics = two_ioapics; n_ioapics = 2 };
}

-- A device that keeps what it is written; before that its pins are masked.
abbrev kept : Devices
kept = record {
  port = λ h p. 0;
  register = λ h a.
      let s = replay (ioapic_remap_base 0) h in
      elim (s.values s.select) [ none ↦ 0x1_0000 | some v ↦ v ];
}

write_gsid_redir-read_gsid_redir_example :
    (w1 w2 : World) × (write_gsid_redir 2 0x21 with_ioapics ≡ some (tt, w1))
    × (read_gsid_redir kept 2 w1 ≡ some (0x21, w2))
write_gsid_redir-read_gsid_redir_example =
    write_gsid_redir-read_gsid_redir kept 2 0x21 0 with_ioapics (omega arith) (omega arith)
      (omega arith) refl (λ k a. absurd (omega (arith, a))) (λ j a b. omega (arith, b))
      (record { answers = λ h v lo hi e a. rw (kept, e) refl }) (omega arith)

-- A handler that does nothing.
abbrev idle_irq : ℕ → Regs → M Regs
idle_irq handler regs = pure regs

irq_handler-acknowledged_example :
    (w1 : World) × (register_irq_handler 0x9000 4 sample ≡ some (tt, w1))
    × ((regs regs' : Regs) (w2 : World)
        → regs.irq ≡ 4
        → idle_irq 0x9000 regs w1 ≡ some (regs', w2)
        → irq_handler idle_irq regs w1 ≡ some (regs', acknowledged w2))
    × ((regs : Regs)
        → regs.irq < irq_max
        → regs.irq ≢ 4
        → sample.irq_handlers regs.irq ≡ 0
        → irq_handler idle_irq regs w1 ≡ some (regs, acknowledged w1))
    × ((other : ℕ) → other ≢ 4 → w1.irq_handlers other ≡ sample.irq_handlers other)
irq_handler-acknowledged_example =
    irq_handler-acknowledged idle_irq 0x9000 4 sample (omega arith) (omega arith)

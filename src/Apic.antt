-- ===== src/Apic.antt =====
-- kernel/apic and kernel/irq/irq_handler.c: the local interrupt controller, the IOAPICs, and the
-- handlers of device interrupts. An interrupt controller is an array of uint32_t at a fixed
-- address; a register's address is written out in bytes.
pub mod Window
pub mod Redirect
pub mod Eoi
mod Tests
use modos.Base.{
  ℕ, zero, suc, ◌+◌, ◌-◌, ◌*◌, ◌/◌, ◌%◌, ◌^◌, false, none, some, ltb, leb, ◌==◌, not, if◌then◌else◌,
  write, bit_or, u8, u32,
}
use modos.Machine.{Regs, Devices, Ioapic, Board}
use modos.Idt
use modos.Io.{write_8, store_reg, load_reg}
use modos.Fs.{World, M, pure, fault, gets, ◌>>=◌, ◌>>◌}

-- LAPIC_EOI, LAPIC_SPIVR and LAPIC_EOI_SIGNAL
abbrev pub lapic_eoi : ℕ
lapic_eoi = 11

abbrev pub lapic_spivr : ℕ
lapic_spivr = 15

abbrev pub lapic_eoi_signal : ℕ
lapic_eoi_signal = 0xB0

-- IOAPIC_VER_RDRLEN, IOAPIC_REDIR_BASE and IOAPIC_IRQ_BASE
abbrev pub ioapic_ver_rdrlen : ℕ
ioapic_ver_rdrlen = 1

abbrev pub ioapic_redir_base : ℕ
ioapic_redir_base = 0x10

abbrev pub ioapic_irq_base : ℕ
ioapic_irq_base = 0x20

-- LAPIC_REMAP_DESTINATION and IOAPIC_REMAP_BASE
abbrev pub lapic_remap_destination : ℕ
lapic_remap_destination = 0xFFFF_FFFF_6000_0000

abbrev pub ioapic_remap_base : ℕ → ℕ
ioapic_remap_base id = 0xFFFF_FFFF_6000_1000 + id * 0x1000

-- The length of irq_handlers.
abbrev pub irq_max : ℕ
irq_max = 0xFF

unfoldable pub set_board : Board → M (Unit {0})
set_board board w = some (tt, record w { board = board })

-- A change of the interrupt table, its result not looked at.
unfoldable pub register_handler : ℕ → ℕ → M (Unit {0})
register_handler handler id w = elim (Idt.register_handler handler (u8 id) false 0 false w.idt) [
  | none ↦ none
  | some (ret, idt') ↦ some (tt, record w { idt = idt' })
]

-- The index of the uint32_t is the offset times 4.
unfoldable pub write_lapic_reg : ℕ → ℕ → M (Unit {0})
write_lapic_reg offset value = store_reg (lapic_remap_destination + 4 * u32 (offset * 4)) value

unfoldable pub write_ioapic_reg : Ioapic → ℕ → ℕ → M (Unit {0})
write_ioapic_reg ioapic offset value = do
  store_reg (ioapic_remap_base ioapic.id) offset
  store_reg (ioapic_remap_base ioapic.id + 0x10) value

unfoldable pub write_ioapic_redir : Ioapic → ℕ → ℕ → M (Unit {0})
write_ioapic_redir ioapic offset value = do
  write_ioapic_reg ioapic (ioapic_redir_base + offset * 2) (u32 value)
  write_ioapic_reg ioapic (ioapic_redir_base + offset * 2 + 1) (u32 (value / 2 ^ 32))

-- The loop of write_gsid_redir from IOAPIC `i` on; the pin is a uint8_t.
unfoldable pub write_gsid_from : (gsid value left i : ℕ) → M (Unit {0})
write_gsid_from gsid value zero i = pure tt
write_gsid_from gsid value (suc left) i = do
  ioapic ← gets (λ w. w.board.ioapics i)
  if leb ioapic.gsid_base gsid
      then write_ioapic_redir ioapic (u8 (gsid - ioapic.gsid_base)) value
      else pure tt
  write_gsid_from gsid value left (i + 1)

-- The number is a uint8_t.
unfoldable pub write_gsid_redir : (gsid value : ℕ) → M (Unit {0})
write_gsid_redir gsid value = do
  n ← gets (λ w. w.board.n_ioapics)
  write_gsid_from (u8 gsid) value n 0

unfoldable pub enable_lapic : M (Unit {0})
enable_lapic = write_lapic_reg lapic_spivr 0x1FF

-- The loop of enable_ioapic over the pins.
unfoldable pub redirect_pins : Ioapic → (left i : ℕ) → M (Unit {0})
redirect_pins ioapic zero i = pure tt
redirect_pins ioapic (suc left) i = do
  write_ioapic_redir ioapic (u8 i) (ioapic_irq_base + i)
  redirect_pins ioapic left (i + 1)

-- The first loop of enable_apic, over the vectors.
unfoldable pub register_vectors : (irq_handler left i : ℕ) → M (Unit {0})
register_vectors irq_handler zero i = pure tt
register_vectors irq_handler (suc left) i = do
  register_handler irq_handler i
  register_vectors irq_handler left (i + 1)

-- The last loop of enable_apic.
unfoldable pub redirect_legacy : (left i : ℕ) → M (Unit {0})
redirect_legacy zero i = pure tt
redirect_legacy (suc left) i = do
  map ← gets (λ w. w.board.legacymaps i)
  write_gsid_redir map.gsi_irq (ioapic_irq_base + map.legacy_irq)
  redirect_legacy left (i + 1)

module _ (devices : Devices) where
  unfoldable pub read_lapic_reg : ℕ → M ℕ
  read_lapic_reg offset = load_reg devices (lapic_remap_destination + 4 * u32 (offset * 4))

  unfoldable pub read_ioapic_reg : Ioapic → ℕ → M ℕ
  read_ioapic_reg ioapic offset = do
    store_reg (ioapic_remap_base ioapic.id) offset
    load_reg devices (ioapic_remap_base ioapic.id + 0x10)

  unfoldable pub read_ioapic_redir : Ioapic → ℕ → M ℕ
  read_ioapic_redir ioapic offset = do
    lo ← read_ioapic_reg ioapic (ioapic_redir_base + offset * 2)
    hi ← read_ioapic_reg ioapic (ioapic_redir_base + offset * 2 + 1)
    pure (bit_or (hi * 2 ^ 32) lo)

  -- The loop of read_gsid_redir from IOAPIC `i` on.
  unfoldable pub read_gsid_from : (gsid left i : ℕ) → M ℕ
  read_gsid_from gsid zero i = pure 0
  read_gsid_from gsid (suc left) i = do
    ioapic ← gets (λ w. w.board.ioapics i)
    if leb ioapic.gsid_base gsid
        then read_ioapic_redir ioapic (u8 (gsid - ioapic.gsid_base))
        else read_gsid_from gsid left (i + 1)

  unfoldable pub read_gsid_redir : ℕ → M ℕ
  read_gsid_redir gsid = do n ← gets (λ w. w.board.n_ioapics); read_gsid_from (u8 gsid) n 0

  -- The IOAPIC is number `i` of the board.
  unfoldable pub enable_ioapic : ℕ → M (Unit {0})
  enable_ioapic i = do
    ioapic ← gets (λ w. w.board.ioapics i)
    version ← read_ioapic_reg ioapic ioapic_ver_rdrlen
    let enabled : Ioapic = record ioapic { relocate_len = version / 2 ^ 16 }
    board ← gets (λ w. w.board)
    set_board (record board { ioapics = write board.ioapics i enabled })
    redirect_pins enabled enabled.relocate_len 0

  -- The second loop of enable_apic.
  unfoldable pub enable_ioapics : (left i : ℕ) → M (Unit {0})
  enable_ioapics zero i = pure tt
  enable_ioapics (suc left) i = do enable_ioapic i; enable_ioapics left (i + 1)

  -- `irq_handler` is the address of the function.
  unfoldable pub enable_apic : (irq_handler : ℕ) → M (Unit {0})
  enable_apic irq_handler = do
    write_8 0x21 0xFF
    write_8 0xA1 0xFF
    register_vectors irq_handler 0xDF 0x20
    enable_lapic
    board ← gets (λ w. w.board)
    enable_ioapics board.n_ioapics 0
    redirect_legacy board.n_legacymaps 0

-- A handler is code of a driver, by its address; it gives the registers as it leaves them. An
-- index out of the array faults.
unfoldable pub irq_handler : (call_irq : ℕ → Regs → M Regs) → Regs → M Regs
irq_handler call_irq regs = if not (ltb regs.irq irq_max) then fault else do
  handler ← gets (λ w. w.irq_handlers regs.irq)
  regs' ← if handler == 0 then pure regs else call_irq handler regs
  write_lapic_reg lapic_eoi lapic_eoi_signal
  pure regs'

-- `irq` is a uint8_t.
unfoldable pub register_irq_handler : (handler irq : ℕ) → M (Unit {0})
register_irq_handler handler irq w =
    if ltb irq irq_max
    then some (tt, record w { irq_handlers = write w.irq_handlers irq handler })
    else none

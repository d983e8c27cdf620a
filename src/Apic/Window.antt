-- ===== src/Apic/Window.antt =====
-- kernel/apic/ioapic.c: the registers of an IOAPIC as a device, and the events of a redirection.
use modos.Base.{
  ℕ, zero, suc, ◌+◌, ◌-◌, ◌*◌, ◌/◌, ◌^◌, ◌<◌, ◌≤◌, ◌≡◌, inl, inr, refl, Bool-cases, leb, ◌==◌,
  if◌then◌else◌, List, [], ◌∷◌, Option, none, some, u8, u32, write,
}
use modos.Machine.{Event, Devices, Ioapic}
use modos.Fs.{World}
use modos.Io.{store_reg}
use modos.Apic.{
  ioapic_remap_base, ioapic_redir_base, write_ioapic_reg, write_ioapic_redir, write_gsid_from,
}

-- The state of an IOAPIC: the register that is selected and what was written to each.
pub record Window : Type 0 where
  pub select : ℕ
  pub values : ℕ → Option ℕ

-- The two registers of an IOAPIC at `base` select one of its registers and access it.
abbrev pub step : ℕ → Event → Window → Window
step base (Event.reg_store a v) s =
    if a == base
    then record s { select = v }
    else if a == base + 0x10
    then record s { values = write s.values s.select (some v) }
    else s
step base (Event.reg_load a) s = s
step base (Event.port_out p v) s = s
step base (Event.port_in p) s = s

abbrev pub replay : ℕ → List Event → Window
replay base [] = record { select = 0; values = λ r. none }
replay base (e ∷ h) = step base e (replay base h)

-- A register of the 24 pins of an idle IOAPIC that has been written gives back what was written to it last, when
-- that sets none of the bits from 12 on, among which are those that only the device changes.
pub record IsIoapic (devices : Devices) (base : ℕ) : Type 0 where
  pub answers :
      (h : List Event) (v : ℕ)
      → ioapic_redir_base ≤ (replay base h).select
      → (replay base h).select < ioapic_redir_base + 48
      → (replay base h).values (replay base h).select ≡ some v
      → v < 0x1000
      → devices.register h (base + 0x10) ≡ v

-- The events of a redirection that is written.
abbrev pub redir_events : (base reg value : ℕ) → List Event → List Event
redir_events base reg value h =
    Event.reg_store (base + 0x10) (u32 (value / 2 ^ 32))
    ∷ Event.reg_store base (reg + 1)
    ∷ Event.reg_store (base + 0x10) (u32 value)
    ∷ Event.reg_store base reg
    ∷ h

-- The register of a pin's low half, and the IOAPIC's address.
abbrev pub pin_reg : (gsid : ℕ) → Ioapic → ℕ
pin_reg gsid ioapic = ioapic_redir_base + u8 (gsid - ioapic.gsid_base) * 2

abbrev pub base_of : Ioapic → ℕ
base_of ioapic = ioapic_remap_base ioapic.id

abbrev pub gsid_events : (ℕ → Ioapic) → (gsid value left i : ℕ) → List Event → List Event
gsid_events ioapics gsid value zero i h = h
gsid_events ioapics gsid value (suc left) i h = gsid_events ioapics gsid value left (i + 1) (
    if leb (ioapics i).gsid_base gsid
    then redir_events (base_of (ioapics i)) (pin_reg gsid (ioapics i)) value h
    else h)

pub write_gsid_from_lem :
    (gsid value left i : ℕ) (w : World)
    → write_gsid_from gsid value left i w
      ≡ some (tt, record w { trace = gsid_events w.board.ioapics gsid value left i w.trace })
unfolding write_gsid_from write_ioapic_redir write_ioapic_reg store_reg
write_gsid_from_lem gsid value zero i w = refl
write_gsid_from_lem gsid value (suc left) i w =
    let ioapic = w.board.ioapics i in
    let events = redir_events (base_of ioapic) (pin_reg gsid ioapic) value w.trace in
    elim (Bool-cases (leb ioapic.gsid_base gsid)) [
      | inl here ↦
          rw (here, write_gsid_from_lem gsid value left (i + 1) (record w { trace = events })) refl
      | inr not_here ↦ rw (not_here, write_gsid_from_lem gsid value left (i + 1) w) refl
    ]

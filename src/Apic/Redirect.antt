-- ===== src/Apic/Redirect.antt =====
-- kernel/apic/ioapic.c: what is written to a redirection is read back from it.
use mathlib.Core.Path.{subst}
use modos.Base.{
  ℕ, zero, suc, ◌+◌, ◌-◌, ◌*◌, ◌/◌, ◌^◌, ◌<◌, ◌≤◌, ◌≡◌, ◌≢◌, inl, inr, refl, sym, ap, ◌∙◌, arith,
  true, false, Bool-cases, leb, ◌==◌, ==_iff, eq→==, ne→==, List, ◌∷◌, Option, some, u8, u32, write,
  write_self, write_ne, zero-bit_or,
}
use modos.Machine.{Event, Devices, Ioapic}
use modos.Fs.{World}
use modos.Io.{store_reg, load_reg}
use modos.Apic.{
  ioapic_remap_base, ioapic_redir_base, write_gsid_redir, read_ioapic_reg, read_ioapic_redir,
  read_gsid_from, read_gsid_redir, write_gsid_from,
}
use modos.Apic.Window.{
  Window, replay, IsIoapic, redir_events, pin_reg, base_of, gsid_events, write_gsid_from_lem,
}

-- The halves of a small value stand in the registers of a pin.
abbrev Holds : (base reg value : ℕ) → List Event → Type 0
Holds base reg value h =
    ((replay base h).values reg ≡ some value) × ((replay base h).values (reg + 1) ≡ some 0)

redir_events-values :
    (base reg value : ℕ) (h : List Event)
    → (replay base (redir_events base reg value h)).values
      ≡ write
          (write (replay base h).values reg (some (u32 value)))
          (reg + 1)
          (some (u32 (value / 2 ^ 32)))
redir_events-values base reg value h =
    rw
      (
        eq→== base base refl,
        eq→== (base + 0x10) (base + 0x10) refl,
        ne→== (base + 0x10) base (omega arith),
      )
      refl

redir_events-Holds :
    (base reg value : ℕ) (h : List Event)
    → value < 0x1000
    → Holds base reg value (redir_events base reg value h)
redir_events-Holds base reg value h a =
    let old = write (replay base h).values reg (some (u32 value)) in
    let high = some (u32 (value / 2 ^ 32)) in
    let low_fits : u32 value ≡ value = omega (arith, a) in
    let high_fits : u32 (value / 2 ^ 32) ≡ 0 = omega (arith, a) in
    let at = λ (r : ℕ). ap (λ (v : ℕ → Option ℕ). v r) (redir_events-values base reg value h) in
    (
      at reg
          ∙ write_ne old (reg + 1) high reg (omega arith)
          ∙ write_self (replay base h).values reg (some (u32 value))
          ∙ ap some low_fits,
      at (reg + 1) ∙ write_self old (reg + 1) high ∙ ap some high_fits,
    )

-- Writes to another IOAPIC change no register of this one.
redir_events-other :
    (id other reg value : ℕ) (h : List Event)
    → other ≢ id
    → replay (ioapic_remap_base id) (redir_events (ioapic_remap_base other) reg value h)
      ≡ replay (ioapic_remap_base id) h
redir_events-other id other reg value h ne =
    let base = ioapic_remap_base id in
    let there = ioapic_remap_base other in
    rw
      (
        ne→== there base (omega (arith, ne)),
        ne→== there (base + 0x10) (omega (arith, ne)),
        ne→== (there + 0x10) base (omega (arith, ne)),
        ne→== (there + 0x10) (base + 0x10) (omega (arith, ne)),
      )
      refl

-- The IOAPICs up to `n` but number `i` have other ids than it.
abbrev pub Apart : (ℕ → Ioapic) → ℕ → ℕ → Type 0
Apart ioapics n i = (j : ℕ) → j < n → j ≢ i → (ioapics j).id ≢ (ioapics i).id

module _ (ioapics : ℕ → Ioapic) (gsid value n i : ℕ) where
  gsid_events-after :
      (left j : ℕ) (h : List Event)
      → Apart ioapics n i
      → i < j
      → j + left ≤ n
      → Holds (base_of (ioapics i)) (pin_reg gsid (ioapics i)) value h
      → Holds
          (base_of (ioapics i))
          (pin_reg gsid (ioapics i))
          value
          (gsid_events ioapics gsid value left j h)
  gsid_events-after zero j h apart a b held = held
  gsid_events-after (suc left) j h apart a b held =
      let base = base_of (ioapics i) in
      let reg = pin_reg gsid (ioapics i) in
      elim (Bool-cases (leb (ioapics j).gsid_base gsid)) [
        | inl here ↦
            let kept =
              redir_events-other (ioapics i).id (ioapics j).id (pin_reg gsid (ioapics j)) value h
                (apart j (omega arith) (omega arith)) in
            let h1 = redir_events (base_of (ioapics j)) (pin_reg gsid (ioapics j)) value h in
            let still : Holds base reg value h1 =
              subst (λ (s : Window). (s.values reg ≡ some value) × (s.values (reg + 1) ≡ some 0))
                (sym kept) held in
            rw here (gsid_events-after left (j + 1) h1 apart (omega arith) (omega arith) still)
        | inr not_here ↦
            rw not_here (gsid_events-after left (j + 1) h apart (omega arith) (omega arith) held)
      ]

  gsid_events-here :
      (left : ℕ) (h : List Event)
      → Apart ioapics n i
      → value < 0x1000
      → leb (ioapics i).gsid_base gsid ≡ true
      → i + 1 + left ≤ n
      → Holds
          (base_of (ioapics i))
          (pin_reg gsid (ioapics i))
          value
          (gsid_events ioapics gsid value (suc left) i h)
  gsid_events-here left h apart small here a =
      let base = base_of (ioapics i) in
      let reg = pin_reg gsid (ioapics i) in
      rw here (
        gsid_events-after left (i + 1) (redir_events base reg value h) apart (omega arith)
          (omega arith) (redir_events-Holds base reg value h small))

  gsid_events-Holds :
      (left j : ℕ) (h : List Event)
      → Apart ioapics n i
      → value < 0x1000
      → leb (ioapics i).gsid_base gsid ≡ true
      → j ≤ i
      → i < j + left
      → j + left ≤ n
      → Holds
          (base_of (ioapics i))
          (pin_reg gsid (ioapics i))
          value
          (gsid_events ioapics gsid value left j h)
  gsid_events-Holds zero j h apart small here a b c = absurd (omega arith)
  gsid_events-Holds (suc left) j h apart small here a b c = elim (Bool-cases (j == i)) [
    | inl e ↦
        subst
          (λ (k : ℕ).
            Holds (base_of (ioapics i)) (pin_reg gsid (ioapics i)) value
              (gsid_events ioapics gsid value (suc left) k h))
          (sym ((==_iff j i).0 e)) (gsid_events-here left h apart small here (ground (arith, e)))
    | inr ne ↦
        gsid_events-Holds left (j + 1) _ apart small here (ground (arith, ne)) (omega arith)
          (omega arith)
  ]

-- The answer of an IOAPIC behind a selection.
selected :
    (devices : Devices) (base reg v : ℕ) (h : List Event)
    → IsIoapic devices base
    → ioapic_redir_base ≤ reg
    → reg < ioapic_redir_base + 48
    → (replay base h).values reg ≡ some v
    → v < 0x1000
    → devices.register (Event.reg_store base reg ∷ h) (base + 0x10) ≡ v
selected devices base reg v h idle lo hi e a =
    let h1 = Event.reg_store base reg ∷ h in
    let self = eq→== base base refl in
    let at : (replay base h1).select ≡ reg = rw self refl in
    let same : (replay base h1).values (replay base h1).select ≡ some v = rw self e in
    idle.answers h1 v (omega (arith, at, lo)) (omega (arith, at, hi)) same a

module _ (devices : Devices) (gsid value i : ℕ) where
  read_redir_lem :
      (ioapic : Ioapic) (pin : ℕ) (w : World)
      → IsIoapic devices (base_of ioapic)
      → pin < 24
      → value < 0x1000
      → Holds (base_of ioapic) (ioapic_redir_base + pin * 2) value w.trace
      → (h : List Event) × (read_ioapic_redir devices ioapic pin w
          ≡ some (value, record w { trace = h }))
  unfolding read_ioapic_redir read_ioapic_reg store_reg load_reg
  read_redir_lem ioapic pin w idle few small (lo, hi) =
      let base = base_of ioapic in
      let reg = ioapic_redir_base + pin * 2 in
      let h1 = Event.reg_store base reg ∷ w.trace in
      let h2 = Event.reg_store base (reg + 1) ∷ Event.reg_load (base + 0x10) ∷ h1 in
      let self = eq→== base base refl in
      let low : devices.register h1 (base + 0x10) ≡ value =
        selected devices base reg value w.trace idle (omega arith) (omega (arith, few)) lo small in
      let high : devices.register h2 (base + 0x10) ≡ 0 =
        selected devices base (reg + 1) 0 (Event.reg_load (base + 0x10) ∷ h1) idle (omega arith)
          (omega (arith, few)) (rw self hi) (omega arith) in
      let fits : u32 value ≡ value = omega (arith, small) in
      (Event.reg_load (base + 0x10) ∷ h2, rw (low, high, fits, zero-bit_or value) refl)

  read_gsid_from_lem :
      (left j : ℕ) (w : World)
      → IsIoapic devices (base_of (w.board.ioapics i))
      → u8 (gsid - (w.board.ioapics i).gsid_base) < 24
      → value < 0x1000
      → Holds (base_of (w.board.ioapics i)) (pin_reg gsid (w.board.ioapics i)) value w.trace
      → leb (w.board.ioapics i).gsid_base gsid ≡ true
      → ((k : ℕ) → k < i → leb (w.board.ioapics k).gsid_base gsid ≡ false)
      → j ≤ i
      → i < j + left
      → (h : List Event) × (read_gsid_from devices gsid left j w
          ≡ some (value, record w { trace = h }))
  unfolding read_gsid_from
  read_gsid_from_lem zero j w idle few small held here before a b = absurd (omega arith)
  read_gsid_from_lem (suc left) j w idle few small held here before a b =
      elim (Bool-cases (j == i)) [
        | inl e ↦
            let (h, run) =
              read_redir_lem (w.board.ioapics i) (u8 (gsid - (w.board.ioapics i).gsid_base)) w idle
                few small held in
            (h, rw ((==_iff j i).0 e, here) run)
        | inr ne ↦
            let (h, run) =
              read_gsid_from_lem left (j + 1) w idle few small held here before (ground (arith, ne))
                (omega arith) in
            (h, rw (before j (ground (arith, ne))) run)
      ]

-- For a value below 0x1000 and an interrupt number below 0x100 whose first IOAPIC is number `i`, which is
-- idle, whose id no other has, and one of whose first 24 pins it is, when the registers of these pins give
-- back what was written to them last: write_gsid_redir returns, and read_gsid_redir then gives back the value.
pub write_gsid_redir-read_gsid_redir :
    (devices : Devices) (gsid value i : ℕ) (w : World)
    → gsid < 0x100
    → value < 0x1000
    → i < w.board.n_ioapics
    → leb (w.board.ioapics i).gsid_base gsid ≡ true
    → ((k : ℕ) → k < i → leb (w.board.ioapics k).gsid_base gsid ≡ false)
    → Apart w.board.ioapics w.board.n_ioapics i
    → IsIoapic devices (base_of (w.board.ioapics i))
    → gsid - (w.board.ioapics i).gsid_base < 24
    → (w1 w2 : World) × (write_gsid_redir gsid value w ≡ some (tt, w1))
      × (read_gsid_redir devices gsid w1 ≡ some (value, w2))
unfolding write_gsid_redir read_gsid_redir
write_gsid_redir-read_gsid_redir devices gsid value i w byte small a here before apart idle few =
    let same : u8 gsid ≡ gsid = omega (arith, byte) in
    let pin : u8 (gsid - (w.board.ioapics i).gsid_base) < 24 = omega (arith, few) in
    let n = w.board.n_ioapics in
    let events = gsid_events w.board.ioapics gsid value n 0 w.trace in
    let w1 : World = record w { trace = events } in
    let held =
      gsid_events-Holds w.board.ioapics gsid value n i n 0 w.trace apart small here (omega arith)
        (omega (arith, a)) (omega arith) in
    let (h, run) =
      read_gsid_from_lem devices gsid value i n 0 w1 idle pin small held here before (omega arith)
        (omega (arith, a)) in
    (
      w1,
      record w1 { trace = h },
      ap (λ (g : ℕ). write_gsid_from g value n 0 w) same ∙ write_gsid_from_lem gsid value n 0 w,
      ap (λ (g : ℕ). read_gsid_from devices g n 0 w1) same ∙ run,
    )

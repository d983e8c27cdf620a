-- ===== src/Acpi/Table.antt =====
-- kernel/acpi/search_madt.c and include/acpi.h: what the entries of a MADT mean for the kernel.
use modos.Base.{
  ℕ, zero, suc, ◌+◌, ◌^◌, ◌<◌, ◌≤◌, ◌≡◌, ◌≢◌, refl, arith, List, [], ◌∷◌, ◌++◌, u8, write,
  write_self, write_ne,
}
use modos.Str.{Memory}
use modos.Str.Words.{load32, load64}
use modos.Machine.{Ioapic, LegacyMap, Board}

-- An entry of the table, by include/acpi.h and the type of its header.
pub data MadtEntry : Type 0 where
  lapic_entry : (id : ℕ) → MadtEntry
  ioapic_entry : (id addr gsid : ℕ) → MadtEntry
  iso_entry : (irq_source gsi : ℕ) → MadtEntry
  override_entry : (addr : ℕ) → MadtEntry
  other_entry : MadtEntry

-- What the kernel knows: the controllers in the order of the table, and the address of the local
-- one.
pub record Controllers : Type 0 where
  pub cpus : List ℕ
  pub io : List Ioapic
  pub legacy : List LegacyMap
  pub lapic_base : ℕ

abbrev pub add_entry : MadtEntry → Controllers → Controllers
add_entry (lapic_entry id) c = record c { cpus = c.cpus ++ id ∷ [] }
add_entry (ioapic_entry id addr gsid) c = record c {
  io = c.io ++ record { id = id; ioapic_regs = addr; gsid_base = gsid; relocate_len = 0 } ∷ [];
}
add_entry (iso_entry irq_source gsi) c = record c {
  legacy = c.legacy ++ record { legacy_irq = irq_source; gsi_irq = u8 gsi } ∷ [];
}
add_entry (override_entry addr) c = record c { lapic_base = addr }
add_entry other_entry c = c

abbrev pub add_entries : List MadtEntry → Controllers → Controllers
add_entries [] c = c
add_entries (e ∷ es) c = add_entries es (add_entry e c)

-- The entry whose header stands at `hdr`.
abbrev pub IsEntry : Memory → ℕ → MadtEntry → Type 0
IsEntry mem hdr (lapic_entry id) = (mem hdr ≡ 0) × (mem (hdr + 3) ≡ id)
IsEntry mem hdr (ioapic_entry id addr gsid) =
    (mem hdr ≡ 1)
    × (mem (hdr + 2) ≡ id)
    × (load32 mem (hdr + 4) ≡ addr)
    × (load32 mem (hdr + 8) ≡ gsid)
IsEntry mem hdr (iso_entry irq_source gsi) =
    (mem hdr ≡ 2) × (mem (hdr + 3) ≡ irq_source) × (load32 mem (hdr + 4) ≡ gsi)
IsEntry mem hdr (override_entry addr) = (mem hdr ≡ 5) × (load64 mem (hdr + 8) ≡ addr)
IsEntry mem hdr other_entry = (mem hdr ≢ 0) × (mem hdr ≢ 1) × (mem hdr ≢ 2) × (mem hdr ≢ 5)

-- Entries one behind the other from `hdr` on, at offset `i` of `size`.
abbrev pub IsTable : Memory → (size i hdr : ℕ) → List MadtEntry → Type 0
IsTable mem size i hdr [] = size ≤ i
IsTable mem size i hdr (e ∷ es) =
    (i < size)
    × (hdr ≢ 0)
    × IsEntry mem hdr e
    × (i + mem (hdr + 1) < 2 ^ 64)
    × (hdr + mem (hdr + 1) < 2 ^ 64)
    × IsTable mem size (i + mem (hdr + 1)) (hdr + mem (hdr + 1)) es

-- The first `n` entries of an array.
abbrev pub first_of {ℓ} : {A : Type ℓ} → ℕ → (ℕ → A) → List A
first_of zero f = []
first_of (suc n) f = first_of n f ++ f n ∷ []

pub first_of-write {ℓ} :
    {A : Type ℓ} (n k : ℕ) (f : ℕ → A) (v : A) → n ≤ k → first_of n (write f k v) ≡ first_of n f
first_of-write zero k f v a = refl
first_of-write (suc n) k f v a =
    rw (first_of-write n k f v (omega arith), write_ne f k v n (omega arith)) refl

pub first_of-add {ℓ} :
    {A : Type ℓ} (n : ℕ) (f : ℕ → A) (v : A)
    → n < 0xFF
    → first_of (u8 (n + 1)) (write f n v) ≡ first_of n f ++ v ∷ []
first_of-add n f v a =
    let count : u8 (n + 1) ≡ suc n = omega arith in
    rw (count, first_of-write n n f v (omega arith), write_self f n v) refl

-- The board as the controllers it lists.
abbrev pub controllers : Board → ℕ → Controllers
controllers b lapic_base = record {
  cpus = first_of b.cpu_n b.lapics;
  io = first_of b.n_ioapics b.ioapics;
  legacy = first_of b.n_legacymaps b.legacymaps;
  lapic_base = lapic_base;
}

-- Room for `n` more entries of each kind.
pub record HasRoom (b : Board) (n : ℕ) : Type 0 where
  pub cpus : b.cpu_n + n ≤ 0xFF
  pub io : b.n_ioapics + n ≤ 0xFF
  pub legacy : b.n_legacymaps + n ≤ 0xFF

-- ===== src/Acpi.antt =====
-- kernel/acpi and include/acpi.h: the search for the firmware's tables, and the interrupt
-- controllers that the MADT lists. The compiler does not heed the attribute `packed` where
-- include/compiler.h puts it, so fields stand at their natural alignment.
pub mod Table
pub mod Entries
mod Tests
use modos.Base.{
  ℕ, zero, suc, ◌+◌, ◌-◌, ◌*◌, ◌/◌, ◌^◌, Bool, true, false, Option, none, some, List, [], ◌∷◌, ltb,
  ◌==◌, not, if◌then◌else◌, write, bit_or, u8, u32, u64,
}
use modos.Str.Words.{load32, same_bytes}
use modos.Machine.{Ioapic, LegacyMap, Board}
use modos.Mm.Layout.{p2v, pg_write, pg_pcd}
use modos.Fs.{World, M, pure, fault, gets, not_null, ◌>>=◌, ◌>>◌}
use modos.Fs.Pages.{map_pages}
use modos.Io.{load_8, load_16, load_32, load_64}
use modos.Apic.{set_board, ioapic_remap_base, lapic_remap_destination}

-- rspd_sig and madt_id
abbrev pub rspd_sig : List ℕ
rspd_sig = 0x52 ∷ 0x53 ∷ 0x44 ∷ 0x20 ∷ 0x50 ∷ 0x54 ∷ 0x52 ∷ 0x20 ∷ []

abbrev pub madt_id : List ℕ
madt_id = 0x41 ∷ 0x50 ∷ 0x49 ∷ 0x43 ∷ []

-- sizeof(struct sdthdr), sizeof(struct madt) and the offset of first_hdr
abbrev pub sdthdr_size : ℕ
sdthdr_size = 36

abbrev pub madt_size : ℕ
madt_size = 48

abbrev pub first_hdr : ℕ
first_hdr = 44

-- The length of the arrays of struct kernel_state.
abbrev pub state_max : ℕ
state_max = 0xFF

-- The number of pointers in a root table, as an int; a negative one ends the loop at once.
unfoldable pub table_entries : ℕ → ℕ
table_entries len =
    let entries = u32 (u64 (len + (0x1_0000_0000_0000_0000 - sdthdr_size)) / 4) in
    if ltb entries (2 ^ 31) then entries else 0

-- The loop of find_table from pointer `i` on.
unfoldable pub find_table_from : (rsdt : ℕ) (id : List ℕ) (left i : ℕ) → M ℕ
find_table_from rsdt id zero i = pure 0
find_table_from rsdt id (suc left) i = do
  ptr ← load_32 (rsdt + sdthdr_size + 4 * i)
  let hdr = p2v ptr
  found ← gets (λ w. same_bytes w.mem hdr id)
  if found then pure hdr else find_table_from rsdt id left (i + 1)

unfoldable pub find_table : (rsdt : ℕ) (id : List ℕ) → M ℕ
find_table rsdt id = do len ← load_32 (rsdt + 4); find_table_from rsdt id (table_entries len) 0

-- The loops of init_acpi over addresses 16 bytes apart.
unfoldable pub find_xsdp : (left check : ℕ) → M (Option ℕ)
find_xsdp zero check = pure none
find_xsdp (suc left) check = do
  found ← gets (λ w. same_bytes w.mem check rspd_sig)
  if found then pure (some check) else find_xsdp left (u64 (check + 16))

-- The cases of init_madt's switch for a header at `hdr`; the result is lapic_base. An entry
-- behind the arrays of the state faults.
unfoldable pub madt_ioapic : (hdr : ℕ) → M (Unit {0})
madt_ioapic hdr = do
  id ← load_8 (hdr + 2)
  addr ← load_32 (hdr + 4)
  gsid ← load_32 (hdr + 8)
  ret ← map_pages (ioapic_remap_base id) addr 1 (bit_or pg_write pg_pcd)
  b ← gets (λ w. w.board)
  let new : Ioapic = record { id = id; ioapic_regs = addr; gsid_base = gsid; relocate_len = 0 }
  if not (ltb b.n_ioapics state_max)
      then fault
      else set_board
          (record b { ioapics = write b.ioapics b.n_ioapics new; n_ioapics = u8 (b.n_ioapics + 1) })

unfoldable pub madt_lapic : (hdr : ℕ) → M (Unit {0})
madt_lapic hdr = do
  id ← load_8 (hdr + 3)
  b ← gets (λ w. w.board)
  if not (ltb b.cpu_n state_max)
      then fault
      else set_board (record b { lapics = write b.lapics b.cpu_n id; cpu_n = u8 (b.cpu_n + 1) })

unfoldable pub madt_iso : (hdr : ℕ) → M (Unit {0})
madt_iso hdr = do
  irq_source ← load_8 (hdr + 3)
  gsi ← load_32 (hdr + 4)
  b ← gets (λ w. w.board)
  let new : LegacyMap = record { legacy_irq = irq_source; gsi_irq = u8 gsi }
  if not (ltb b.n_legacymaps state_max)
      then fault
      else set_board (record b {
        legacymaps = write b.legacymaps b.n_legacymaps new;
        n_legacymaps = u8 (b.n_legacymaps + 1);
      })

-- The types are PROC_LOCALAPIC, IOAPIC, IOAPIC_ISO and LAPIC_OVERRIDE.
unfoldable pub madt_entry : (type hdr lapic_base : ℕ) → M ℕ
madt_entry type hdr lapic_base =
    if type == 1
    then madt_ioapic hdr >> pure lapic_base
    else if type == 5
    then load_64 (hdr + 8)
    else if type == 0
    then madt_lapic hdr >> pure lapic_base
    else if type == 2
    then madt_iso hdr >> pure lapic_base
    else pure lapic_base

-- The loop of init_madt at offset `i` and header `hdr`.
unfoldable pub walk_madt : (fuel size i hdr lapic_base : ℕ) → M ℕ
walk_madt zero size i hdr lapic_base = fault
walk_madt (suc fuel) size i hdr lapic_base = if not (ltb i size) then pure lapic_base else do
  type ← load_8 hdr
  base ← madt_entry type hdr lapic_base
  len ← load_8 (hdr + 1)
  walk_madt fuel size (u64 (i + len)) (u64 (hdr + len)) base

unfoldable pub init_madt : (fuel : ℕ) → M ℕ
init_madt fuel = do
  b ← gets (λ w. w.board)
  lapic_base ← load_32 (b.madt + sdthdr_size)
  len ← load_32 (b.madt + 4)
  let size = u64 (len + (0x1_0000_0000_0000_0000 - madt_size))
  base ← walk_madt fuel size 0 (b.madt + first_hdr) lapic_base
  map_pages lapic_remap_destination base 1 (bit_or pg_write pg_pcd)

-- The code behind the label found_xsdp. The log reads the length in the MADT before the test for
-- NULL; a panic faults.
unfoldable pub read_tables : (fuel xsdp : ℕ) → M (Unit {0})
read_tables fuel xsdp = do
  revision ← load_8 (xsdp + 15)
  rsdt_addr ← load_32 (xsdp + 16)
  if not (revision == 0) then fault else do
    b ← gets (λ w. w.board)
    set_board (record b { rsdt = p2v rsdt_addr })
    madt ← find_table (p2v rsdt_addr) madt_id
    b' ← gets (λ w. w.board)
    set_board (record b' { madt = madt })
    not_null madt
    ret ← init_madt fuel
    pure tt

-- EBDA_MAXSIZE is 0x3000, and the BIOS area lies from BIOS_BEGINSEARCH up to BIOS_ENDSEARCH.
unfoldable pub init_acpi : (fuel : ℕ) → M (Unit {0})
init_acpi fuel = do
  ebda_begin ← gets (λ w. w.ebda_begin)
  in_ebda ← find_xsdp 0x300 (p2v ebda_begin)
  found ← elim in_ebda [ some p ↦ pure (some p) | none ↦ find_xsdp 0x2000 (p2v 0xE_0000) ]
  elim found [ none ↦ fault | some p ↦ read_tables fuel p ]

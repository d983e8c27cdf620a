-- ===== src/Acpi/Entries.antt =====
-- kernel/acpi/search_madt.c: the interrupt controllers that the MADT lists.
use modos.Base.{
  ℕ, zero, suc, ◌+◌, ◌-◌, ◌<◌, ◌≤◌, ◌≡◌, ◌≢◌, refl, sym, ap, ◌∙◌, arith, lt→ltb, le→ltb, ne→==,
  List, [], ◌∷◌, some, u8, u64, bit_or, write, length,
}
use modos.Str.{Memory}
use modos.Str.Words.{load32}
use modos.Machine.{Ioapic, LegacyMap, Board}
use mathlib.Core.Path.{ap₂, subst}
use modos.Mm.Layout.{pg_write, pg_pcd}
use modos.Mm.Paging
use modos.Mm.Paging.{Paging}
use modos.Fs.{World}
use modos.Fs.Pages.{map_pages}
use modos.Io.{load_8, load_32, load_64}
use modos.Apic.{set_board, ioapic_remap_base, lapic_remap_destination}
use modos.Acpi.{
  madt_entry, madt_ioapic, madt_lapic, madt_iso, walk_madt, init_madt, state_max, madt_size,
  sdthdr_size, first_hdr,
}
use modos.Acpi.Table.{
  Controllers, MadtEntry, add_entry, add_entries, IsEntry, IsTable, first_of-add, controllers,
  HasRoom,
}
use modos.Acpi.Table.MadtEntry.{lapic_entry, ioapic_entry, iso_entry, override_entry, other_entry}

-- The page tables after the registers of an IOAPIC are mapped, and after those of a list of entries.
abbrev pub map_entry : MadtEntry → Paging → Paging
map_entry (lapic_entry id) s = s
map_entry (ioapic_entry id addr gsid) s =
    (Paging.map_pages (ioapic_remap_base id) addr 1 (bit_or pg_write pg_pcd) s).1
map_entry (iso_entry irq_source gsi) s = s
map_entry (override_entry addr) s = s
map_entry other_entry s = s

abbrev pub map_entries : List MadtEntry → Paging → Paging
map_entries [] s = s
map_entries (e ∷ es) s = map_entries es (map_entry e s)

-- The state after an entry.
record IsAdded (w : World) (e : MadtEntry) (n lapic_base : ℕ) (out : ℕ × World) : Type 0 where
  mem : out.1.mem ≡ w.mem
  room : HasRoom out.1.board n
  view : controllers out.1.board out.0 ≡ add_entry e (controllers w.board lapic_base)
  paging : out.1.heap.vm.paging ≡ map_entry e w.heap.vm.paging

module _ (hdr lapic_base n : ℕ) (w : World) (given : hdr ≢ 0) (room : HasRoom w.board (suc n)) where
  -- An entry counts once at most.
  room_after :
      (b : Board)
      → b.cpu_n ≤ w.board.cpu_n + 1
      → b.n_ioapics ≤ w.board.n_ioapics + 1
      → b.n_legacymaps ≤ w.board.n_legacymaps + 1
      → HasRoom b n
  room_after b x y z = record {
    cpus = omega (arith, room.cpus);
    io = omega (arith, room.io);
    legacy = omega (arith, room.legacy);
  }

  madt_entry_lem :
      (e : MadtEntry)
      → IsEntry w.mem hdr e
      → (out : ℕ × World) × (madt_entry (w.mem hdr) hdr lapic_base w ≡ some out)
        × IsAdded w e n lapic_base out
  unfolding madt_entry madt_lapic madt_ioapic madt_iso load_8 load_32 load_64 set_board map_pages
  madt_entry_lem (lapic_entry id) (type, at) =
      let b = w.board in
      let w' : World = record w {
        board = record b { lapics = write b.lapics b.cpu_n id; cpu_n = u8 (b.cpu_n + 1) };
      } in
      (
        (lapic_base, w'),
        rw
            (
              type,
              ne→== (hdr + 3) 0 (omega (arith, given)),
              at,
              lt→ltb b.cpu_n state_max (omega (arith, room.cpus)),
            )
            refl,
        record {
          mem = refl;
          room = room_after _ (omega arith) (omega arith) (omega arith);
          view =
              ap (λ l. record (controllers b lapic_base) { cpus = l })
                (first_of-add b.cpu_n b.lapics id (omega (arith, room.cpus)));
          paging = refl;
        },
      )
  madt_entry_lem (ioapic_entry id addr gsid) (type, at, address, base) =
      let b = w.board in
      let new : Ioapic = record {
        id = id;
        ioapic_regs = addr;
        gsid_base = gsid;
        relocate_len = 0;
      } in
      let mapped =
        Paging.map_pages (ioapic_remap_base id) addr 1 (bit_or pg_write pg_pcd) w.heap.vm.paging in
      let w' : World = record w {
        heap = record w.heap { vm = record w.heap.vm { paging = mapped.1 } };
        board = record b {
          ioapics = write b.ioapics b.n_ioapics new;
          n_ioapics = u8 (b.n_ioapics + 1);
        };
      } in
      (
        (lapic_base, w'),
        rw
            (
              type,
              ne→== (hdr + 2) 0 (omega (arith, given)),
              ne→== (hdr + 4) 0 (omega (arith, given)),
              ne→== (hdr + 8) 0 (omega (arith, given)),
              at,
              address,
              base,
              lt→ltb b.n_ioapics state_max (omega (arith, room.io)),
            )
            refl,
        record {
          mem = refl;
          room = room_after _ (omega arith) (omega arith) (omega arith);
          view =
              ap (λ l. record (controllers b lapic_base) { io = l })
                (first_of-add b.n_ioapics b.ioapics new (omega (arith, room.io)));
          paging = refl;
        },
      )
  madt_entry_lem (iso_entry irq_source gsi) (type, at, number) =
      let b = w.board in
      let new : LegacyMap = record { legacy_irq = irq_source; gsi_irq = u8 gsi } in
      let w' : World = record w {
        board = record b {
          legacymaps = write b.legacymaps b.n_legacymaps new;
          n_legacymaps = u8 (b.n_legacymaps + 1);
        };
      } in
      (
        (lapic_base, w'),
        rw
            (
              type,
              ne→== (hdr + 3) 0 (omega (arith, given)),
              ne→== (hdr + 4) 0 (omega (arith, given)),
              at,
              number,
              lt→ltb b.n_legacymaps state_max (omega (arith, room.legacy)),
            )
            refl,
        record {
          mem = refl;
          room = room_after _ (omega arith) (omega arith) (omega arith);
          view =
              ap (λ l. record (controllers b lapic_base) { legacy = l })
                (first_of-add b.n_legacymaps b.legacymaps new (omega (arith, room.legacy)));
          paging = refl;
        },
      )
  madt_entry_lem (override_entry addr) (type, at) = (
    (addr, w),
    rw (type, ne→== (hdr + 8) 0 (omega (arith, given)), at) refl,
    record {
      mem = refl;
      room = room_after _ (omega arith) (omega arith) (omega arith);
      view = refl;
      paging = refl;
    },
  )
  madt_entry_lem other_entry (not0, not1, not2, not5) = (
    (lapic_base, w),
    rw
        (
          ne→== (w.mem hdr) 0 not0,
          ne→== (w.mem hdr) 1 not1,
          ne→== (w.mem hdr) 2 not2,
          ne→== (w.mem hdr) 5 not5,
        )
        refl,
    record {
      mem = refl;
      room = room_after _ (omega arith) (omega arith) (omega arith);
      view = refl;
      paging = refl;
    },
  )

-- The loop, for a table with room for its entries.
walk_madt_lem :
    (es : List MadtEntry) (fuel size i hdr lapic_base : ℕ) (w : World)
    → IsTable w.mem size i hdr es
    → HasRoom w.board (length es)
    → length es < fuel
    → (base : ℕ) × (w' : World) × (walk_madt fuel size i hdr lapic_base w ≡ some (base, w'))
      × (w'.mem ≡ w.mem)
      × (controllers w'.board base ≡ add_entries es (controllers w.board lapic_base))
      × (w'.heap.vm.paging ≡ map_entries es w.heap.vm.paging)
unfolding walk_madt load_8
walk_madt_lem es zero size i hdr lapic_base w at room a = absurd (omega arith)
walk_madt_lem [] (suc fuel) size i hdr lapic_base w at room a =
    (lapic_base, w, rw (le→ltb i size at) refl, refl, refl, refl)
walk_madt_lem (e ∷ es) (suc fuel) size i hdr lapic_base w (b, given, entry, c, d, rest) room a =
    let ((base, w1), run, added) = madt_entry_lem hdr lapic_base (length es) w given room e entry in
    let next = i + w.mem (hdr + 1) in
    let next_hdr = hdr + w.mem (hdr + 1) in
    let rest' : IsTable w1.mem size next next_hdr es =
      subst (λ (m : Memory). IsTable m size next next_hdr es) (sym added.mem) rest in
    let (base', w', run', mem', view', paging') =
      walk_madt_lem es fuel size next next_hdr base w1 rest' added.room (omega arith) in
    let whole_i : u64 next ≡ next = omega (arith, c) in
    let whole_hdr : u64 next_hdr ≡ next_hdr = omega (arith, d) in
    (
      base',
      w',
      rw
          (
            lt→ltb i size b,
            ne→== hdr 0 given,
            run,
            ne→== (hdr + 1) 0 (omega (arith, given)),
            added.mem,
            whole_i,
            whole_hdr,
          )
          run',
      mem' ∙ added.mem,
      view' ∙ ap (add_entries es) added.view,
      paging' ∙ ap (map_entries es) added.paging,
    )

-- The size of the loop of init_madt for the table at the address `madt`.
abbrev pub table_size : Memory → ℕ → ℕ
table_size mem madt = u64 (load32 mem (madt + 4) + (0x1_0000_0000_0000_0000 - madt_size))

-- The controllers after the entries, from what the board has and the address in the table.
abbrev pub listed : List MadtEntry → World → Controllers
listed es w = add_entries es (controllers w.board (load32 w.mem (w.board.madt + sdthdr_size)))

-- For a MADT in memory that lists the entries `es`, where the address of an override is taken at byte 8 of its entry
-- as the code takes it, with room for them on the board, and more fuel than there are entries: init_madt
-- returns, changes no byte of memory, and leaves the board with the controllers that adding the entries
-- in their order gives. It maps the registers of the IOAPICs in that order, and then those of the local
-- APIC at the address of the last override, or else of the table, and returns what that mapping does.
pub init_madt_lem :
    (es : List MadtEntry) (fuel : ℕ) (w : World)
    → w.board.madt ≢ 0
    → IsTable w.mem (table_size w.mem w.board.madt) 0 (w.board.madt + first_hdr) es
    → HasRoom w.board (length es)
    → length es < fuel
    → (ret : ℕ) × (w' : World) × (init_madt fuel w ≡ some (ret, w'))
      × (w'.mem ≡ w.mem)
      × (controllers w'.board (listed es w).lapic_base ≡ listed es w)
      × ((ret, w'.heap.vm.paging)
          ≡ Paging.map_pages lapic_remap_destination
              (listed es w).lapic_base
              1
              (bit_or pg_write pg_pcd)
              (map_entries es w.heap.vm.paging))
unfolding init_madt load_32 map_pages
init_madt_lem es fuel w given at room a =
    let madt = w.board.madt in
    let start = load32 w.mem (madt + sdthdr_size) in
    let (base, w1, run, mem, view, paging) =
      walk_madt_lem es fuel (table_size w.mem madt) 0 (madt + first_hdr) start w at room a in
    let mapped =
      Paging.map_pages lapic_remap_destination base 1 (bit_or pg_write pg_pcd) w1.heap.vm.paging in
    let w2 : World = record w1 {
      heap = record w1.heap { vm = record w1.heap.vm { paging = mapped.1 } };
    } in
    let same : base ≡ (listed es w).lapic_base = ap (λ (c : Controllers). c.lapic_base) view in
    (
      mapped.0,
      w2,
      rw (ne→== (madt + sdthdr_size) 0 (omega arith), ne→== (madt + 4) 0 (omega arith), run) refl,
      mem,
      ap (λ n. controllers w1.board n) (sym same) ∙ view,
      ap₂ (λ n s. Paging.map_pages lapic_remap_destination n 1 (bit_or pg_write pg_pcd) s) same
          paging,
    )

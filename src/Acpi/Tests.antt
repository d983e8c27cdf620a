-- ===== src/Acpi/Tests.antt =====
-- A table of two entries, and an instance of the theorem on it.
use modos.Base.{ℕ, ◌≡◌, refl, arith, bit_or, write, some, List, [], ◌∷◌}
use modos.Fs.{World}
use modos.Fs.Sample.{sample, sample_board}
use modos.Str.{Memory}
use modos.Str.Words.{load16, load32, load64}
use modos.Acpi.{init_madt}
use modos.Apic.{lapic_remap_destination}
use modos.Mm.Layout.{pg_write, pg_pcd}
use modos.Mm.Paging
use modos.Acpi.Table.MadtEntry.{lapic_entry, override_entry}
use modos.Acpi.Table.{MadtEntry, controllers}
use modos.Acpi.Entries.{init_madt_lem}

-- The table stands at 0x1000, is 72 bytes long and lists a local controller and the address of
-- the local ones.
abbrev table : Memory
table =
    write
      (write (write (write (write (write (λ a. 0) 0x1004 72) 0x102D 12) 0x102F 3) 0x1038 5) 0x1039
        16)
      0x1041 0x20

abbrev with_table : World
with_table = record sample { mem = table; board = record sample_board { madt = 0x1000 } }

abbrev two_entries : List MadtEntry
two_entries = lapic_entry 3 ∷ override_entry 0x2000 ∷ []

init_madt_lem_example :
    (ret : ℕ) × (w' : World) × (init_madt 3 with_table ≡ some (ret, w'))
    × (w'.mem ≡ table)
    × (controllers w'.board 0x2000
        ≡ record { cpus = 3 ∷ []; io = []; legacy = []; lapic_base = 0x2000 })
    × ((ret, w'.heap.vm.paging)
        ≡ Paging.map_pages lapic_remap_destination 0x2000 1
            (bit_or pg_write pg_pcd)
            sample.heap.vm.paging)
unfolding load32 load16 load64
init_madt_lem_example =
    init_madt_lem two_entries 3 with_table (omega arith)
      (
        omega arith,
        omega arith,
        (refl, refl),
        omega arith,
        omega arith,
        (omega arith, omega arith, (refl, refl), omega arith, omega arith, omega arith),
      )
      (record { cpus = omega arith; io = omega arith; legacy = omega arith }) (omega arith)

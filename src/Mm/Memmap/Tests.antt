-- ===== src/Mm/Memmap/Tests.antt =====
-- Runs of the memory map, and instances of its theorems.
use modos.Base.{ℕ, ◌≡◌, ◌⊎◌, refl, arith, true, none, some, List, [], ◌∷◌, All}
use modos.Mm.Memmap.{
  Entry, MmapRecord, Kernel, parse_from, parse_memmap, put_entry, next_entry, split_kernel,
  put_kernel, setup_arena, choose_arena,
}
use modos.Mm.Pm.{alloc_pages}
use modos.Mm.Memmap.Handed.{InOrder, alloc_each, setup_arena-alloc_pages}
use modos.Mm.Memmap.Largest.{Covers, IsFrom, setup_arena-Largest}

abbrev at_1m : Kernel
at_1m = record { start_low = 0x10_0000; end_physical = 0x20_0000; size = 0x10_0000 }

abbrev one_record : ℕ → MmapRecord
one_record a = record { size = 20; addr = 0x10_0000; len = 0x100_0000; type = 1 }

-- One record of available memory from the kernel's start on gives two entries.
counted : parse_memmap at_1m one_record true 0x9000 0 4 none ≡ some (48, none)
unfolding parse_memmap parse_from put_entry next_entry split_kernel put_kernel
counted = refl

abbrev three_entries : List Entry
three_entries =
    record { addr = 0; len = 0x9_0000; type = 1 }
    ∷ record { addr = 0x20_0000; len = 0xF0_0000; type = 1 }
    ∷ record { addr = 0x100_0000; len = 0x1000_0000; type = 2 }
    ∷ []

setup_arena-Largest_example :
    All
      (Covers (setup_arena three_entries).arena_begin (setup_arena three_entries).arena_end)
      three_entries
    × (((setup_arena three_entries).arena_begin ≡ 0) × ((setup_arena three_entries).arena_end ≡ 0)
        ⊎ IsFrom
            (setup_arena three_entries).arena_begin
            (setup_arena three_entries).arena_end
            three_entries)
    × ((setup_arena three_entries).arena_head ≡ (setup_arena three_entries).arena_begin)
setup_arena-Largest_example =
    setup_arena-Largest three_entries (omega arith, (omega arith, (omega arith, tt)))

setup_arena-alloc_pages_example :
    (begin end : ℕ) × ((begin ≡ 0) × (end ≡ 0) ⊎ IsFrom begin end three_entries)
    × InOrder begin end (alloc_each (3 ∷ 0x1000 ∷ 5 ∷ []) (setup_arena three_entries))
setup_arena-alloc_pages_example =
    setup_arena-alloc_pages three_entries (3 ∷ 0x1000 ∷ 5 ∷ [])
      (
        (omega arith, (λ available. refl)),
        ((omega arith, (λ available. refl)), ((omega arith, (λ available. refl)), tt)),
      )
      (omega arith, (omega arith, (omega arith, tt)))

-- The second request does not fit, and the third one gets the pages behind the first.
blocks_handed :
    alloc_each (3 ∷ 0x1000 ∷ 5 ∷ []) (setup_arena three_entries)
    ≡ (0x20_0000, 3) ∷ (0, 0x1000) ∷ (0x20_3000, 5) ∷ []
unfolding setup_arena choose_arena alloc_pages
blocks_handed = refl

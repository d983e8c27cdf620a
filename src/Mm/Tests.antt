-- ===== src/Mm/Tests.antt =====
-- Runs of kernel/mm on concrete states, and instances of its theorems.
use modos.Base.{ℕ, ◌+◌, ◌*◌, ◌/◌, inr, ◌≤◌, ◌<◌, ◌≡◌, ◌≢◌, ◌⊎◌, refl, none, write, arith, true}
use modos.Mm.Layout.{
  p2v, page_size, pml4e_offset, pdpte_offset, pde_offset, page_offset, check_valid_table,
  pml4e_coverage, pdpte_coverage, pde_coverage,
}
use modos.Mm.Layout.Split.{offsets_split}
use modos.Mm.Layout.{hhdm_size, hhdm_begin}
use modos.Mm.Hhdm.{
  setup_hhdm, setup_hhdm_lem, huge_entry, table_entry, hhdm_pdptes, hhdm_pml4es, hhdm_first,
}
use modos.Mm.Pm.{Pm, alloc_pages}
use modos.Mm.Pm.Bounds
use modos.Mm.Pm.Bounds.{alloc_pages_lem}
use modos.Mm.Paging.{
  Paging, walk_table, enter_table, table_step, pml4e_step, pdpte_step, pde_step, fill, map_page,
  map_pages_from, map_pages, get_toplevel,
}
use modos.Mm.Paging.Tree.{IsTree}
use modos.Mm.Paging.Tree.Translate.{translate, descend}
use modos.Mm.Paging.Cache.{IsCoherent}
use modos.Mm.Paging.Mapped.{Maps, OutOfPages, map_page_lem}
use modos.Mm.Paging.Mapped.Range.{MapsRange, map_pages_lem}
use modos.Mm.Arena.{Heap, kmalloc, vm_begin_request}
use modos.Mm.Arena.Blocks.{Serves, kmalloc_lem}

offsets_split_example :
    (pml4e_offset 0x1234_5678_9abc * pml4e_coverage
        + pdpte_offset 0x1234_5678_9abc * pdpte_coverage
        + pde_offset 0x1234_5678_9abc * pde_coverage
        + page_offset 0x1234_5678_9abc * page_size
        + 0xabc
      ≡ 0x1234_5678_9abc)
    × (pml4e_offset 0x1234_5678_9abc < 512)
    × (pdpte_offset 0x1234_5678_9abc < 512)
    × (pde_offset 0x1234_5678_9abc < 512)
    × (page_offset 0x1234_5678_9abc < 512)
offsets_split_example = offsets_split 0x1234_5678_9abc (omega arith)

abbrev arena : Pm
arena = record { arena_begin = 0x1000; arena_head = 0x2000; arena_end = 0x10_0000 }

alloc_pages_lem_example :
    Bounds.IsValid (alloc_pages 3 arena).1
    × ((0x5000 ≤ 0x10_0000)
          × ((alloc_pages 3 arena).0 ≡ 0x2000)
          × ((alloc_pages 3 arena).0 ≢ 0)
          × ((alloc_pages 3 arena).1 ≡ record arena { arena_head = 0x5000 })
        ⊎ (0x10_0000 < 0x5000) × ((alloc_pages 3 arena).0 ≡ 0) × ((alloc_pages 3 arena).1 ≡ arena))
alloc_pages_lem_example = alloc_pages_lem 3 (omega arith) (omega arith)

-- A toplevel at page 1, the arena from page 2 on, and memory that is all zero.
abbrev booted : Paging
booted = record {
  space = record { mem = λ a. 0; pm = arena; toplevel = 0x1000 };
  caches = record {
    cached_pml4e_offset = 0;
    cached_pdpte_offset = 0;
    cached_pde_offset = 0;
    cached_pml4e_table = 0;
    cached_pdpte_table = 0;
    cached_pde_table = 0;
  };
}

abbrev only_top : ℕ → ℕ
only_top = write (λ _. 0) 0x1000 4

only_top_at : (t : ℕ) → 0 < only_top t → t ≡ 0x1000
only_top_at t h = ground arith

booted-IsTree : IsTree only_top booted.space
booted-IsTree = record {
  top = refl;
  head_aligned = refl;
  head_pos = omega arith;
  end_le = omega arith;
  head_le = omega arith;
  page = λ t h. omega (arith, only_top_at t h);
  child = λ t i h hi v. absurd (zero_not_valid v);
  unique = λ t i t' i' h h' hi hi' v w e. absurd (zero_not_valid v);
  fresh = λ t i a lo hi h. refl;
}
  where
    zero_not_valid : check_valid_table 0 ≢ true
    zero_not_valid v = cc

booted-IsCoherent : IsCoherent booted
booted-IsCoherent = record {
  in_table = omega arith;
  pml4e = λ h. absurd (h refl);
  pdpte = λ h. absurd (h refl);
  pde = λ h. absurd (h refl);
}

booted_faults : (v : ℕ) → translate booted.space v ≡ none
unfolding translate descend
booted_faults v = refl

map_page_lem_example :
    Maps booted 0x40_0000 0x9000 2 (map_page 0x40_0000 0x9000 2 booted)
    ⊎ OutOfPages booted (map_page 0x40_0000 0x9000 2 booted)
map_page_lem_example =
    map_page_lem only_top booted 0x40_0000 0x9000 2 booted-IsTree booted-IsCoherent refl refl
      (booted_faults 0x40_0000)

map_pages_lem_example :
    MapsRange booted 0x40_0000 0x9000 2 0 2 (map_pages 0x40_0000 0x9000 2 2 booted)
map_pages_lem_example =
    map_pages_lem 0x40_0000 0x9000 2 refl refl 2 only_top booted (omega arith) (omega arith)
      (omega arith) booted-IsTree booted-IsCoherent (omega arith) (λ j h. booted_faults _)

second_page_mapped : (map_pages 0x40_0000 0x9000 2 2 booted).1.mem (p2v 0x4008) ≡ 0xa003
unfolding map_pages map_pages_from map_page pml4e_step pdpte_step pde_step table_step fill
    enter_table walk_table get_toplevel pml4e_offset pdpte_offset pde_offset page_offset
second_page_mapped = refl

-- kmalloc with 100 bytes left in its block.
abbrev cut_heap : Heap
cut_heap = record {
  vm = record { paging = booted; vm_arena_head = vm_begin_request + 0x1000 };
  current_base = vm_begin_request;
  current_offset = 0xf9c;
  current_size = 0x1000;
}

kmalloc_lem_example : Serves 64 cut_heap (kmalloc 64 cut_heap)
kmalloc_lem_example = kmalloc_lem 64 cut_heap (omega arith) (omega arith)

kmalloc_cuts : (kmalloc 64 cut_heap).0 ≡ vm_begin_request + 0xf9c
unfolding kmalloc
kmalloc_cuts = refl

hhdm_coverage : (pml4e_offset hhdm_size ≡ hhdm_pml4es) × (pml4e_offset hhdm_begin ≡ hhdm_first)
unfolding pml4e_offset
hhdm_coverage = (refl, refl)

abbrev no_words : ℕ → ℕ
no_words a = 0

hhdm_filled :
    ((i : ℕ)
      → i < hhdm_pdptes
      → setup_hhdm 0x10_0000 0 0x1000 no_words (0x10_0000 + 8 * i) ≡ huge_entry i)
    × ((i : ℕ)
        → i < hhdm_pml4es
        → setup_hhdm 0x10_0000 0 0x1000 no_words (0x1000 + 8 * hhdm_first + 8 * i)
          ≡ table_entry 0x10_0000 i)
    × ((a : ℕ)
        → (a < 0x10_0000) ⊎ (0x10_0000 + 8 * hhdm_pdptes ≤ a)
        → (a < 0x1000 + 8 * hhdm_first) ⊎ (0x1000 + 8 * (hhdm_first + hhdm_pml4es) ≤ a)
        → setup_hhdm 0x10_0000 0 0x1000 no_words a ≡ 0)
hhdm_filled = setup_hhdm_lem 0x10_0000 0 0x1000 no_words (inr (omega arith))

-- The first two entries of the toplevel lead to the same table.
hhdm_same_table : table_entry 0x10_0000 1 / 0x1000 ≡ table_entry 0x10_0000 0 / 0x1000
hhdm_same_table = refl

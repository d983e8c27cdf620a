-- ===== src/Mm/Layout/Split.antt =====
-- The four offsets of a virtual address and the offset in its page determine the address.
use modos.Base.{ℕ, ◌+◌, ◌*◌, ◌%◌, ◌^◌, ◌<◌, ◌≡◌, arith}
use modos.Mm.Layout.{pml4e_offset, pdpte_offset, pde_offset, page_offset, ptable_len}
use modos.Mm.Layout.{pml4e_coverage, pdpte_coverage, pde_coverage, page_size}

-- The four offsets are indices into a table of 512 entries.
pub offsets-lt :
    (v : ℕ)
    → (pml4e_offset v < ptable_len)
      × (pdpte_offset v < ptable_len)
      × (pde_offset v < ptable_len)
      × (page_offset v < ptable_len)
unfolding pml4e_offset pdpte_offset pde_offset page_offset
offsets-lt v = omega arith

-- A 48-bit virtual address is put together again from its four table offsets, each weighted by
-- the memory that an entry of that table covers, and from its offset in the page; and the four
-- offsets are below the 512 entries of a table.
pub offsets_split :
    (v : ℕ)
    → v < 2 ^ 48
    → (pml4e_offset v * pml4e_coverage
          + pdpte_offset v * pdpte_coverage
          + pde_offset v * pde_coverage
          + page_offset v * page_size
          + v % page_size
        ≡ v)
      × (pml4e_offset v < ptable_len)
      × (pdpte_offset v < ptable_len)
      × (pde_offset v < ptable_len)
      × (page_offset v < ptable_len)
unfolding pml4e_offset pdpte_offset pde_offset page_offset
offsets_split v h = omega arith

-- ===== src/Mm/Paging.antt =====
-- kernel/mm/vm/map_pages.c and the toplevel of setup_vm.c: the four levels of page tables, walked
-- through the direct map, with the caches of the last walk.
pub mod Tree
pub mod Cache
pub mod Walk
pub mod Mapped
use modos.Base.{
  ℕ, zero, suc, ◌+◌, ◌*◌, ◌/◌, ◌%◌, ◌^◌, Bool, true, false, not, ◌&&◌, ◌||◌, Option, none, some,
  ltb, leb, ◌==◌, if◌then◌else◌, bit_or, u16, u64, has_bit, low12, clear12, write,
}
use modos.Mm.Layout.{
  ptable_len, page_size, pdpte_coverage, pml4e_offset, pdpte_offset, pde_offset, page_offset, p2v,
  check_valid_table, pg_present, pg_size,
}
use modos.Mm.Pm.{Pm, alloc_pages}

-- Memory as 64-bit words by virtual address, the physical allocator, and the global of setup_vm.c.
pub record Space : Type 0 where
  pub mem : ℕ → ℕ
  pub pm : Pm
  pub toplevel : ℕ

-- The globals of map_pages.c. A null table pointer is 0.
pub record Caches : Type 0 where
  pub cached_pml4e_offset : ℕ
  pub cached_pdpte_offset : ℕ
  pub cached_pde_offset : ℕ
  pub cached_pml4e_table : ℕ
  pub cached_pdpte_table : ℕ
  pub cached_pde_table : ℕ

pub record Paging : Type 0 where
  pub space : Space
  pub open space use *
  pub caches : Caches
  pub open caches use *

unfoldable pub get_toplevel : Space → ℕ
get_toplevel s = s.toplevel

unfoldable pub set_toplevel : ℕ → Space → Space
set_toplevel new s = record s { toplevel = new }

-- The address of `table[offset]` for a table of words at a virtual address.
abbrev pub slot : ℕ → ℕ → ℕ
slot table_virt offset = u64 (table_virt + 8 * offset)

-- The entry that a walk puts where there is no valid table.
abbrev pub new_table_entry : ℕ → ℕ → ℕ
new_table_entry page flags = bit_or (bit_or page (low12 flags)) 1

-- The result is the entry, with its flags; 0 when the offset is out of range or no page is left.
unfoldable pub walk_table : ℕ → ℕ → ℕ → Space → ℕ × Space
unfolding alloc_pages
walk_table table offset flags s =
    let at = slot (p2v table) offset in
    let entry = s.mem at in
    let (new_entry, pm') = alloc_pages 1 s.pm in
    let entry' = new_table_entry new_entry flags in
    if leb ptable_len offset
    then (0, s)
    else if check_valid_table entry
    then (entry, s)
    else if new_entry == 0
    then (0, record s { pm = pm' })
    else (entry', record s { mem = write s.mem at entry'; pm = pm' })

-- A walk and the checks on its result: none is the error return of map_page.
unfoldable pub enter_table : ℕ → ℕ → ℕ → Space → Option ℕ × Space
enter_table table offset flags s =
    let (entry, s') = walk_table table offset flags s in
    if not (has_bit 0 entry) || has_bit 7 entry then (none, s') else (some (clear12 entry), s')

-- One step of map_page down the tables: on a miss it enters entry `offset` of `table` and stores
-- what it found in the caches, on a hit it takes the cached table. It gives the next table and
-- the value of fill_caches after it.
unfoldable pub table_step :
    (miss : Bool) (cached : ℕ) (store : ℕ → Caches) (table offset flags : ℕ) (fill_caches : Bool)
    → Paging
    → Option (ℕ × Bool) × Paging
table_step miss cached store table offset flags fill_caches s =
    let (found, space') = enter_table table offset flags s.space in
    if miss
    then elim found [
      | none ↦ (none, record s { space = space' })
      | some next ↦ (some (next, true), record { space = space'; caches = store next })
    ]
    else (some (cached, fill_caches), s)

-- The three steps. The first one starts with fill_caches at 0.
unfoldable pub pml4e_step : ℕ → ℕ → Paging → Option (ℕ × Bool) × Paging
pml4e_step vaddr flags s =
    let offset = pml4e_offset vaddr in
    table_step (not (s.cached_pml4e_offset == offset) || s.cached_pml4e_table == 0)
      s.cached_pml4e_table
      (λ pml4e. record s.caches { cached_pml4e_table = pml4e; cached_pml4e_offset = offset })
      (get_toplevel s.space) offset flags false s

unfoldable pub pdpte_step : ℕ → ℕ → ℕ → Bool → Paging → Option (ℕ × Bool) × Paging
pdpte_step vaddr flags pml4e fill_caches s =
    let offset = pdpte_offset vaddr in
    table_step (not (s.cached_pdpte_offset == offset) || fill_caches || s.cached_pdpte_table == 0)
      s.cached_pdpte_table
      (λ pdpte. record s.caches { cached_pdpte_table = pdpte; cached_pdpte_offset = offset }) pml4e
      offset flags fill_caches s

unfoldable pub pde_step : ℕ → ℕ → ℕ → Bool → Paging → Option (ℕ × Bool) × Paging
pde_step vaddr flags pdpte fill_caches s =
    let offset = pde_offset vaddr in
    table_step (not (s.cached_pde_offset == offset) || fill_caches || s.cached_pde_table == 0)
      s.cached_pde_table
      (λ pde. record s.caches { cached_pde_table = pde; cached_pde_offset = offset }) pdpte offset
      flags fill_caches s

-- The label `alloc` of map_page; the first component is the return value.
unfoldable pub fill_entry : ℕ → ℕ → ℕ → ℕ → Space → ℕ × Space
fill_entry table offset paddr flags s =
    let at = slot table offset in
    if has_bit 0 (s.mem at)
    then (1, s)
    else (0, record s { mem = write s.mem at (bit_or (bit_or paddr (low12 flags)) pg_present) })

-- fill_entry in a state with the caches.
unfoldable pub fill : ℕ → ℕ → ℕ → ℕ → Paging → ℕ × Paging
unfolding fill_entry
fill table offset paddr flags s =
    let (ret, space') = fill_entry table offset paddr flags s.space in
    (ret, record s { space = space' })

unfoldable pub map_page : ℕ → ℕ → ℕ → Paging → ℕ × Paging
map_page vaddr paddr flags s =
    let huge = has_bit 12 flags in
    let (first, s1) = pml4e_step vaddr flags s in
    elim first [
      | none ↦ (1, s1)
      | some (pml4e, fill1) ↦
          if huge
          then fill (p2v pml4e) (pdpte_offset vaddr) paddr (u16 (bit_or flags pg_size)) s1
          else let (second, s2) = pdpte_step vaddr flags pml4e fill1 s1 in
            elim second [
              | none ↦ (1, s2)
              | some (pdpte, fill2) ↦
                  let (third, s3) = pde_step vaddr flags pdpte fill2 s2 in
                  elim third [
                    | none ↦ (1, s3)
                    | some (pde, fill3) ↦ fill (p2v pde) (page_offset vaddr) paddr flags s3
                  ]
            ]
    ]

-- The loop of map_pages from page i on, with the pages that are left.
unfoldable pub map_pages_from : ℕ → ℕ → ℕ → ℕ → ℕ → ℕ → Paging → ℕ × Paging
map_pages_from zero i psize vaddr paddr flags s = (0, s)
map_pages_from (suc left) i psize vaddr paddr flags s =
    let (ret, s') = map_page (u64 (vaddr + i * psize)) (u64 (paddr + i * psize)) flags s in
    elim (ret == 0) [
      | true ↦ map_pages_from left (i + 1) psize vaddr paddr flags s'
      | false ↦ (ret, s')
    ]

unfoldable pub map_pages : ℕ → ℕ → ℕ → ℕ → Paging → ℕ × Paging
map_pages vaddr paddr n_pages flags s =
    let psize = if has_bit 12 flags then pdpte_coverage else page_size in
    map_pages_from n_pages 0 psize vaddr paddr flags s

unfoldable pub mapalloc_pages : ℕ → ℕ → ℕ → Paging → ℕ × Paging
unfolding alloc_pages
mapalloc_pages vaddr n_pages flags s =
    let n = if has_bit 12 flags then u64 (n_pages * ptable_len * ptable_len) else n_pages in
    let (ppages, pm') = alloc_pages n s.pm in
    let s' = record s { space = record s.space { pm = pm' } } in
    if ppages == 0 then (1, s') else map_pages vaddr ppages n_pages flags s'

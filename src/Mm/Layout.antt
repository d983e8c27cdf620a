-- ===== src/Mm/Layout.antt =====
-- kernel/include/mm/mmhelpers.h, hhdm.h and vm.h: page sizes, the four table offsets of a virtual
-- address, the direct map and the page flags.
pub mod Split
use modos.Base.{ℕ, ◌+◌, ◌*◌, ◌/◌, ◌%◌, ◌^◌, Bool, ◌&&◌, not, u64, has_bit}

abbrev pub ptable_len : ℕ
ptable_len = 0x200

abbrev pub page_size : ℕ
page_size = 0x1000

abbrev pub pde_coverage : ℕ
pde_coverage = page_size * ptable_len

abbrev pub pdpte_coverage : ℕ
pdpte_coverage = pde_coverage * ptable_len

abbrev pub pml4e_coverage : ℕ
pml4e_coverage = pdpte_coverage * ptable_len

abbrev pub hhdm_begin : ℕ
hhdm_begin = 0xFFFF_8000_0000_0000

abbrev pub hhdm_size : ℕ
hhdm_size = 0x0000_4000_0000_0000

-- `x & ((1ULL << VADDR_LEN) - 1)`
abbrev pub trim_canonical_vaddr : ℕ → ℕ
trim_canonical_vaddr vaddr = vaddr % 2 ^ 48

unfoldable pub pml4e_offset : ℕ → ℕ
pml4e_offset vaddr = trim_canonical_vaddr vaddr / pml4e_coverage

unfoldable pub pdpte_offset : ℕ → ℕ
pdpte_offset vaddr = trim_canonical_vaddr vaddr / pdpte_coverage % ptable_len

unfoldable pub pde_offset : ℕ → ℕ
pde_offset vaddr = trim_canonical_vaddr vaddr / pde_coverage % ptable_len

unfoldable pub page_offset : ℕ → ℕ
page_offset vaddr = trim_canonical_vaddr vaddr / page_size % ptable_len

-- P2V
abbrev pub p2v : ℕ → ℕ
p2v paddr = u64 (paddr + hhdm_begin)

-- CHECK_VALID_TABLE
abbrev pub check_valid_table : ℕ → Bool
check_valid_table entry = has_bit 0 entry && not (has_bit 7 entry)

-- enum pg_flags and MAP_HUGE, as numbers
abbrev pub pg_present : ℕ
pg_present = 0x1

abbrev pub pg_write : ℕ
pg_write = 0x2

abbrev pub pg_user : ℕ
pg_user = 0x4

abbrev pub pg_pcd : ℕ
pg_pcd = 0x10

abbrev pub pg_size : ℕ
pg_size = 0x80

abbrev pub map_huge : ℕ
map_huge = 0x1000

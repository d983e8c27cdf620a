-- ===== src/Mm/Setup.antt =====
-- kernel/mm/vm/setup_vm.c: the kernel's first page tables.
use modos.Base.{ℕ, ◌+◌, ◌-◌, ◌/◌, Option, none, some, ◌==◌, if◌then◌else◌, bit_or, u64}
use modos.Mm.Layout.{hhdm_begin, hhdm_size, page_size, pdpte_coverage, pg_write, map_huge, p2v}
use modos.Mm.Pm.{alloc_pages}
use modos.Mm.Paging.{Paging, map_pages, set_toplevel}

-- STACK_SIZE of kinfo.h
abbrev pub stack_size : ℕ
stack_size = 0x8000

-- alloc_pages in a state with the page tables.
unfoldable pub take_pages : ℕ → Paging → ℕ × Paging
take_pages n s =
    let (page, pm') = alloc_pages n s.space.pm in
    (page, record s { space = record s.space { pm = pm' } })

-- `kernel_text` is KERNEL_TEXT, `reloc` is KERNEL_RELOC_OFFSET. A panic gives none. The first
-- component is the new stack as switch_stack gets it.
unfoldable pub setup_vm : (kernel_text reloc kernel_size : ℕ) → Paging → Option ((ℕ × ℕ) × Paging)
setup_vm kernel_text reloc kernel_size s =
    let (top, s1) = take_pages 1 s in
    let s2 : Paging = record s1 { space = set_toplevel top s1.space } in
    let kernel_phys = u64 (kernel_text + (0x1_0000_0000_0000_0000 - reloc)) in
    let (ret, s3) = map_pages kernel_text kernel_phys (kernel_size / page_size) pg_write s2 in
    let (ret', s4) =
      map_pages hhdm_begin 0 (hhdm_size / pdpte_coverage) (bit_or pg_write map_huge) s3 in
    let (stack_phys, s5) = take_pages (stack_size / page_size) s4 in
    if ret == 0
    then if ret' == 0 then some ((p2v stack_phys, u64 (p2v stack_phys + stack_size)), s5) else none
    else none

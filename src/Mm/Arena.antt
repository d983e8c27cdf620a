-- ===== src/Mm/Arena.antt =====
-- kernel/mm/vm/request_pages.c and kmalloc.c: kernel virtual memory from a bump arena, and small
-- blocks cut from it.
pub mod Blocks
use modos.Base.{ℕ, ◌+◌, ◌*◌, ◌/◌, Bool, Option, ltb, ◌==◌, if◌then◌else◌, u64, has_bit}
use modos.Mm.Layout.{page_size, pdpte_coverage, pg_write}
use modos.Mm.Paging.{Paging, map_pages, mapalloc_pages}

abbrev pub vm_begin_request : ℕ
vm_begin_request = 0xFFFF_FFFF_0000_0000

abbrev pub vm_end_request : ℕ
vm_end_request = 0xFFFF_FFFF_6000_0000

-- the page tables and vm_arena_head
pub record Vm : Type 0 where
  pub paging : Paging
  pub vm_arena_head : ℕ

-- NULL is 0. The head moves past the block also when the mapping fails.
unfoldable pub request_pages : ℕ → ℕ → ℕ → Vm → ℕ × Vm
request_pages paddr n_pages flags s =
    let psize = if has_bit 12 flags then pdpte_coverage else page_size in
    let new_head = u64 (s.vm_arena_head + u64 (psize * n_pages)) in
    let (ret, paging') =
      if paddr == 0
      then mapalloc_pages s.vm_arena_head n_pages flags s.paging
      else map_pages s.vm_arena_head paddr n_pages flags s.paging in
    let s' : Vm = record { paging = paging'; vm_arena_head = new_head } in
    if ltb vm_end_request new_head
    then (0, s)
    else if ret == 0
    then (s.vm_arena_head, s')
    else (0, s')

-- virtual memory and the globals of kmalloc.c
pub record Heap : Type 0 where
  pub vm : Vm
  pub current_base : ℕ
  pub current_offset : ℕ
  pub current_size : ℕ

unfoldable pub kmalloc : ℕ → Heap → ℕ × Heap
kmalloc size s =
    let new_offset = u64 (s.current_offset + size) in
    let (new, vm') = request_pages 0 (size / page_size + 1) pg_write s.vm in
    if ltb new_offset s.current_size
    then (u64 (s.current_base + s.current_offset), record s { current_offset = new_offset })
    else if new == 0
    then (0, record s { vm = vm' })
    else (
      new,
      record {
        vm = vm';
        current_base = new;
        current_offset = size;
        current_size = u64 (u64 (size / page_size + 1) * page_size);
      },
    )

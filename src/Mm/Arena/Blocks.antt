-- ===== src/Mm/Arena/Blocks.antt =====
-- Blocks of kmalloc and request_pages lie in the arena and are never handed out twice.
use modos.Base.{
  ℕ, ◌+◌, ◌*◌, ◌/◌, ◌≤◌, ◌<◌, ◌≡◌, ◌⊎◌, arith, has_bit, false, ltb, Bool-cases, refl, inl, inr,
}
use modos.Mm.Layout.{page_size, pg_write}
use modos.Mm.Arena.{Vm, Heap, vm_begin_request, vm_end_request, request_pages, kmalloc}

abbrev pub InArena : Vm → Type 0
InArena s = (vm_begin_request ≤ s.vm_arena_head) × (s.vm_arena_head ≤ vm_end_request)

-- What request_pages makes of the head, for 4 KiB pages and a request that does not wrap.
pub request_pages_bounds :
    (paddr n flags : ℕ) (s : Vm)
    → InArena s
    → has_bit 12 flags ≡ false
    → n * page_size ≤ 0x8000_0000
    → InArena (request_pages paddr n flags s).1
      × (s.vm_arena_head ≤ (request_pages paddr n flags s).1.vm_arena_head)
      × (((request_pages paddr n flags s).0 ≡ 0)
          ⊎ ((request_pages paddr n flags s).0 ≡ s.vm_arena_head)
            × ((request_pages paddr n flags s).1.vm_arena_head ≡ s.vm_arena_head + n * page_size))
unfolding request_pages
request_pages_bounds paddr n flags s inside small fits = ground arith

-- The rest of the current block of kmalloc lies below the head of the arena.
pub record IsValid (s : Heap) : Type 0 where
  pub arena : InArena s.vm
  pub offset : s.current_offset ≤ s.current_size
  pub block : s.current_base + s.current_size ≤ s.vm.vm_arena_head

-- The addresses that kmalloc may still hand out.
abbrev pub Free : Heap → ℕ → Type 0
Free s a =
    (s.current_base + s.current_offset ≤ a) × (a < s.current_base + s.current_size)
    ⊎ (s.vm.vm_arena_head ≤ a)

abbrev pub InBlock : ℕ → ℕ → ℕ → Type 0
InBlock p size a = (p ≤ a) × (a < p + size)

-- The three outcomes of kmalloc: from the current block, no memory, and from a new block.
data Outcome (size : ℕ) (s : Heap) (result : ℕ × Heap) : Type 0 where
  cut :
      s.current_offset + size < s.current_size
      → result
        ≡ (s.current_base + s.current_offset, record s { current_offset = s.current_offset + size })
      → Outcome size s result
  failed :
      (vm' : Vm)
      → InArena vm'
      → s.vm.vm_arena_head ≤ vm'.vm_arena_head
      → result ≡ (0, record s { vm = vm' })
      → Outcome size s result
  fresh :
      (vm' : Vm)
      → InArena vm'
      → vm'.vm_arena_head ≡ s.vm.vm_arena_head + (size / page_size + 1) * page_size
      → result ≡ (
        s.vm.vm_arena_head,
        record {
          vm = vm';
          current_base = s.vm.vm_arena_head;
          current_offset = size;
          current_size = (size / page_size + 1) * page_size;
        },
      )
      → Outcome size s result

outcome : (size : ℕ) (s : Heap) → IsValid s → size < 0x7000_0000 → Outcome size s (kmalloc size s)
unfolding kmalloc
outcome size s v fits = elim (Bool-cases (ltb (s.current_offset + size) s.current_size)) [
  | inl room ↦ cut (ground arith) (ground arith)
  | inr full ↦ elim bounds.2 [
    | inl null ↦
        failed (request_pages 0 pages pg_write s.vm).1 bounds.0 bounds.1
          (ground (arith, full, null))
    | inr (new, moved) ↦
        fresh (request_pages 0 pages pg_write s.vm).1 bounds.0 moved (ground (arith, full, new))
  ]
]
  where
    pages : ℕ
    pages = size / page_size + 1

    bounds :
        InArena (request_pages 0 pages pg_write s.vm).1
        × (s.vm.vm_arena_head ≤ (request_pages 0 pages pg_write s.vm).1.vm_arena_head)
        × (((request_pages 0 pages pg_write s.vm).0 ≡ 0)
            ⊎ ((request_pages 0 pages pg_write s.vm).0 ≡ s.vm.vm_arena_head)
              × ((request_pages 0 pages pg_write s.vm).1.vm_arena_head
                  ≡ s.vm.vm_arena_head + pages * page_size))
    bounds = request_pages_bounds 0 pages pg_write s.vm v.arena refl (omega arith)

-- What kmalloc_lem says of a result.
abbrev pub Serves : ℕ → Heap → ℕ × Heap → Type 0
Serves size s result =
    IsValid result.1
    × ((a : ℕ) → Free result.1 a → Free s a)
    × ((result.0 ≡ 0)
        ⊎ ((a : ℕ) → InBlock result.0 size a → Free s a × (a < vm_end_request) × ¬ Free result.1 a))

serves :
    (size : ℕ) (s : Heap) (result : ℕ × Heap)
    → IsValid s
    → Outcome size s result
    → Serves size s result
serves size s result v (cut room e) =
    rw e (omega arith, (λ a h. ground arith), inr λ a h. ground arith)
serves size s result v (failed vm' arena grows e) =
    rw e (omega arith, (λ a h. ground arith), inl refl)
serves size s result v (fresh vm' arena moved e) =
    rw e (omega arith, (λ a h. ground arith), inr λ a h. ground arith)

-- In a heap whose current block ends at or below the head of the arena, and for a block of less than
-- 0x7000_0000 bytes: kmalloc keeps the heap so, whether it succeeds or not. What is free afterwards, in
-- the current block or from the head on, was free before; and kmalloc returns NULL or a block all of
-- whose bytes were free, lie below the end of the arena and are not free afterwards.
pub kmalloc_lem :
    (size : ℕ) (s : Heap) → IsValid s → size < 0x7000_0000 → Serves size s (kmalloc size s)
kmalloc_lem size s v fits = serves size s (kmalloc size s) v (outcome size s v fits)

-- ===== src/Mm/Pm/Bounds.antt =====
-- What alloc_pages hands out lies in the arena, is aligned, and is never handed out again.
use modos.Base.{ℕ, ◌+◌, ◌*◌, ◌%◌, ◌≤◌, ◌<◌, ◌≡◌, ◌≢◌, ◌⊎◌, arith, w64}
use modos.Mm.Layout.{page_size}
use modos.Mm.Pm.{Pm, alloc_pages}

-- The arena is page aligned, does not hold page 0, and ends below the top of the address space.
pub record IsValid (pm : Pm) : Type 0 where
  pub begins : 0 < pm.arena_begin
  pub aligned : pm.arena_head % page_size ≡ 0
  pub head_ge : pm.arena_begin ≤ pm.arena_head
  pub head_le : pm.arena_head ≤ pm.arena_end
  pub end_lt : pm.arena_end < w64

-- With a request that does not wrap around the address space: if it fits the arena, alloc_pages
-- returns the head, which is not 0, is page aligned and lies in the arena with all the pages
-- asked for, and moves the head past them; if it does not fit, the result is 0 and the allocator
-- is as it was. Either way it stays valid.
pub alloc_pages_lem :
    (n : ℕ) {pm : Pm}
    → IsValid pm
    → pm.arena_head + n * page_size < w64
    → IsValid (alloc_pages n pm).1
      × ((pm.arena_head + n * page_size ≤ pm.arena_end)
            × ((alloc_pages n pm).0 ≡ pm.arena_head)
            × ((alloc_pages n pm).0 ≢ 0)
            × ((alloc_pages n pm).1 ≡ record pm { arena_head = pm.arena_head + n * page_size })
          ⊎ (pm.arena_end < pm.arena_head + n * page_size)
            × ((alloc_pages n pm).0 ≡ 0)
            × ((alloc_pages n pm).1 ≡ pm))
unfolding alloc_pages
alloc_pages_lem n v h = ground arith

-- ===== src/Mm/Pm.antt =====
-- kernel/mm/pm/alloc_pages.c: a bump allocator over the arena [arena_begin, arena_end).
pub mod Bounds
use modos.Base.{ℕ, ◌+◌, ◌*◌, ltb, if◌then◌else◌, u64}
use modos.Mm.Layout.{page_size}

-- the globals of setup_pm.c
pub record Pm : Type 0 where
  pub arena_begin : ℕ
  pub arena_head : ℕ
  pub arena_end : ℕ

-- The result is 0 when the arena has no room.
unfoldable pub alloc_pages : ℕ → Pm → ℕ × Pm
alloc_pages n_pages pm =
    let next = u64 (pm.arena_head + u64 (n_pages * page_size)) in
    if ltb pm.arena_end next then (0, pm) else (pm.arena_head, record pm { arena_head = next })

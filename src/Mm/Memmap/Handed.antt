-- ===== src/Mm/Memmap/Handed.antt =====
-- kernel/mm/pm: what alloc_pages hands out of the arena that setup_pm chose.
use modos.Base.{
  ℕ, ◌+◌, ◌*◌, ◌%◌, ◌^◌, ◌≤◌, ◌<◌, ◌≡◌, ◌⊎◌, inl, inr, refl, arith, List, [], ◌∷◌, All, Bool-cases,
  ltb, u64,
}
use modos.Mm.Layout.{page_size}
use modos.Mm.Pm.{Pm, alloc_pages}
use modos.Mm.Memmap.{Entry, memmap_available, setup_arena}
use modos.Mm.Memmap.Largest.{Ends, IsFrom, setup_arena-Largest}

-- The blocks that a row of requests gives, each with its number of pages.
abbrev pub alloc_each : List ℕ → Pm → List (ℕ × ℕ)
alloc_each [] pm = []
alloc_each (n ∷ requests) pm =
    ((alloc_pages n pm).0, n) ∷ alloc_each requests ((alloc_pages n pm).1)

-- Each block is NULL, or page aligned, from `from` on and up to `end`, with the later ones behind it.
abbrev pub InOrder : (from end : ℕ) → List (ℕ × ℕ) → Type 0
InOrder from end [] = Unit
InOrder from end ((p, n) ∷ rest) =
    (p ≡ 0) × InOrder from end rest
    ⊎ (from ≤ p)
      × (p % page_size ≡ 0)
      × (p + n * page_size ≤ end)
      × InOrder (p + n * page_size) end rest

-- A request of less than half of the address space.
abbrev pub IsSmall : ℕ → Type 0
IsSmall n = n * page_size < 2 ^ 63

-- Available memory that begins at a page and lies in the lower half of the address space.
abbrev pub IsPlain : Entry → Type 0
IsPlain e = (e.addr + e.len < 2 ^ 63) × (e.type ≡ memmap_available → e.addr % page_size ≡ 0)

alloc_pages-cases :
    (n : ℕ) (pm : Pm)
    → pm.arena_head ≤ pm.arena_end
    → pm.arena_end < 2 ^ 63
    → IsSmall n
    → (alloc_pages n pm ≡ (0, pm))
      ⊎ (pm.arena_head + n * page_size ≤ pm.arena_end)
        × (alloc_pages n pm
            ≡ (pm.arena_head, record pm { arena_head = pm.arena_head + n * page_size }))
unfolding alloc_pages
alloc_pages-cases n pm a b small =
    let fits : u64 (pm.arena_head + u64 (n * page_size)) ≡ pm.arena_head + n * page_size =
      omega (arith, a, b, small) in
    rw fits (elim (Bool-cases (ltb pm.arena_end (pm.arena_head + n * page_size))) [
      | inl full ↦ rw full (inl refl)
      | inr room ↦ rw room (inr (ground (arith, room), refl))
    ])

alloc_each-InOrder :
    (requests : List ℕ) (pm : Pm)
    → pm.arena_head % page_size ≡ 0
    → pm.arena_head ≤ pm.arena_end
    → pm.arena_end < 2 ^ 63
    → All IsSmall requests
    → InOrder pm.arena_head pm.arena_end (alloc_each requests pm)
alloc_each-InOrder [] pm aligned a b small = tt
alloc_each-InOrder (n ∷ requests) pm aligned a b (small, rest) =
    elim (alloc_pages-cases n pm a b small) [
      | inl full ↦ rw full (inl (refl, alloc_each-InOrder requests pm aligned a b rest))
      | inr (room, done) ↦ rw done (
          inr (
            omega arith,
            aligned,
            room,
            alloc_each-InOrder requests (record pm { arena_head = pm.arena_head + n * page_size })
                (omega (arith, aligned)) room b rest,
          ))
    ]

IsPlain-Ends : (list : List Entry) → All IsPlain list → All Ends list
IsPlain-Ends [] plain = tt
IsPlain-Ends (e ∷ rest) (p, plain) = (omega (arith, p.0), IsPlain-Ends rest plain)

IsFrom-plain :
    (begin end : ℕ) (list : List Entry)
    → All IsPlain list
    → IsFrom begin end list
    → (begin % page_size ≡ 0) × (begin ≤ end) × (end < 2 ^ 63)
IsFrom-plain begin end [] plain there = elim there [ ]
IsFrom-plain begin end (e ∷ rest) (p, plain) (inl (type, b, f)) =
    (rw b (p.1 type), omega (arith, b, f), omega (arith, f, p.0))
IsFrom-plain begin end (e ∷ rest) (p, plain) (inr there) = IsFrom-plain begin end rest plain there

-- For a list of entries that end in the lower half of the address space, the available ones beginning
-- at a page, and requests that are each smaller than that half: every block that alloc_pages gives
-- after setup_pm is NULL, or is page aligned and lies with all its pages in one available entry of
-- the list (in an empty range at 0 when none was chosen), and no two blocks overlap.
pub setup_arena-alloc_pages :
    (list : List Entry) (requests : List ℕ)
    → All IsPlain list
    → All IsSmall requests
    → (begin end : ℕ) × ((begin ≡ 0) × (end ≡ 0) ⊎ IsFrom begin end list)
      × InOrder begin end (alloc_each requests (setup_arena list))
unfolding setup_arena
setup_arena-alloc_pages list requests plain small =
    let (covers, from, head) = setup_arena-Largest list (IsPlain-Ends list plain) in
    let pm = setup_arena list in
    let (aligned, le, end) : (pm.arena_begin % page_size ≡ 0)
        × (pm.arena_begin ≤ pm.arena_end)
        × (pm.arena_end < 2 ^ 63) =
      elim from [
        | inl (b, e) ↦ (omega (arith, b), omega (arith, b, e), omega (arith, e))
        | inr there ↦ IsFrom-plain pm.arena_begin pm.arena_end list plain there
      ] in
    (pm.arena_begin, pm.arena_end, from, alloc_each-InOrder requests pm aligned le end small)

-- ===== src/Mm/Memmap/Largest.antt =====
-- kernel/mm/pm/setup_pm.c: the arena is the largest piece of available memory.
use modos.Base.{
  ℕ, ◌+◌, ◌-◌, ◌≤◌, ◌<◌, ◌≡◌, ◌⊎◌, inl, inr, refl, ◌∙◌, arith, Bool, true, false, List, [], ◌∷◌,
  All, ltb, ◌==◌, ◌&&◌, Bool-cases, u64, ◌^◌,
}
use modos.Mm.Pm.{Pm}
use modos.Mm.Memmap.{Entry, memmap_available, choose_arena, setup_arena}

-- An entry that ends within 64 bits.
abbrev pub Ends : Entry → Type 0
Ends e = e.addr + e.len < 2 ^ 64

-- The arena is no smaller than an available entry.
abbrev pub Covers : (begin end : ℕ) → Entry → Type 0
Covers begin end e = e.type ≡ memmap_available → begin + e.len ≤ end

-- The arena is an available entry of the list.
abbrev pub IsFrom : (begin end : ℕ) → List Entry → Type 0
IsFrom begin end [] = ⊥
IsFrom begin end (e ∷ rest) =
    (e.type ≡ memmap_available) × (begin ≡ e.addr) × (end ≡ e.addr + e.len) ⊎ IsFrom begin end rest

-- Is this entry taken?
abbrev takes : Entry → Pm → Bool
takes e pm =
    (e.type == memmap_available)
    && ltb (u64 (pm.arena_end + (0x1_0000_0000_0000_0000 - pm.arena_begin))) e.len

takes-true :
    (e : Entry) (pm : Pm)
    → pm.arena_begin ≤ pm.arena_end
    → pm.arena_end < 2 ^ 64
    → takes e pm ≡ true
    → (e.type ≡ memmap_available) × (pm.arena_end < e.len + pm.arena_begin)
takes-true e pm a b h = ground (arith, a, b, h)

takes-false :
    (e : Entry) (pm : Pm)
    → pm.arena_begin ≤ pm.arena_end
    → pm.arena_end < 2 ^ 64
    → takes e pm ≡ false
    → e.type ≡ memmap_available
    → pm.arena_begin + e.len ≤ pm.arena_end
takes-false e pm a b h t = ground (arith, a, b, h, t)

-- An arena chosen after the entry `e` was taken.
later-IsFrom :
    (e : Entry) (rest : List Entry) (pm' : Pm)
    → e.type ≡ memmap_available
    → Ends e
    → (pm'.arena_begin ≡ e.addr) × (pm'.arena_end ≡ u64 (e.addr + e.len))
      ⊎ IsFrom pm'.arena_begin pm'.arena_end rest
    → {B : Type 0} → B ⊎ IsFrom pm'.arena_begin pm'.arena_end (e ∷ rest)
later-IsFrom e rest pm' t end (inl (b, f)) = inr (inl (t, b, f ∙ omega (arith, end)))
later-IsFrom e rest pm' t end (inr there) = inr (inr there)

record IsChoice (pm : Pm) (list : List Entry) (pm' : Pm) : Type 0 where
  pub grows : pm.arena_end + pm'.arena_begin ≤ pm'.arena_end + pm.arena_begin
  pub covers : All (Covers pm'.arena_begin pm'.arena_end) list
  pub from :
      (pm'.arena_begin ≡ pm.arena_begin) × (pm'.arena_end ≡ pm.arena_end)
      ⊎ IsFrom pm'.arena_begin pm'.arena_end list

choose-IsChoice :
    (list : List Entry) (pm : Pm)
    → pm.arena_begin ≤ pm.arena_end
    → pm.arena_end < 2 ^ 64
    → All Ends list
    → IsChoice pm list (choose_arena list pm)
unfolding choose_arena
choose-IsChoice [] pm a b ends = record {
  grows = omega arith;
  covers = tt;
  from = inl (refl, refl);
}
choose-IsChoice (e ∷ rest) pm a b (end, ends) = elim (Bool-cases (takes e pm)) [
  | inl taken ↦
      let pm1 : Pm = record pm { arena_begin = e.addr; arena_end = u64 (e.addr + e.len) } in
      let c = choose-IsChoice rest pm1 (omega (arith, end)) (omega arith) ends in
      rw taken (record {
        grows = omega (arith, c.grows, (takes-true e pm a b taken).1, end);
        covers = ((λ t. omega (arith, c.grows, end)), c.covers);
        from = later-IsFrom e rest (choose_arena rest pm1) (takes-true e pm a b taken).0 end c.from;
      })
  | inr left ↦
      let c = choose-IsChoice rest pm a b ends in
      rw left (record {
        grows = c.grows;
        covers = ((λ t. omega (arith, c.grows, takes-false e pm a b left t)), c.covers);
        from = elim c.from [ inl same ↦ inl same | inr there ↦ inr (inr there) ];
      })
]

-- When every entry ends within 64 bits, setup_pm starts with an arena that no available entry is
-- longer than, and that is one of the available entries, or empty; nothing of it is handed out.
pub setup_arena-Largest :
    (list : List Entry)
    → All Ends list
    → All (Covers (setup_arena list).arena_begin (setup_arena list).arena_end) list
      × (((setup_arena list).arena_begin ≡ 0) × ((setup_arena list).arena_end ≡ 0)
          ⊎ IsFrom (setup_arena list).arena_begin (setup_arena list).arena_end list)
      × ((setup_arena list).arena_head ≡ (setup_arena list).arena_begin)
unfolding setup_arena
setup_arena-Largest list ends =
    let none_yet : Pm = record { arena_begin = 0; arena_head = 0; arena_end = 0 } in
    let c = choose-IsChoice list none_yet (omega arith) (omega arith) ends in
    (c.covers, c.from, refl)

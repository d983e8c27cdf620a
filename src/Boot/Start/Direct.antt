-- ===== src/Boot/Start/Direct.antt =====
-- kernel/mm/hhdm.c: what the processor's walk makes of the direct map that setup_hhdm adds to the boot code's
-- page tables.
use modos.Base.{
  ℕ, ◌+◌, ◌-◌, ◌*◌, ◌/◌, ◌%◌, ◌^◌, ◌≤◌, ◌<◌, ◌≡◌, ◌⊎◌, refl, ap, ◌∙◌, arith, true, some, has_bit,
  clear12, bit_or, bit_or_fields, bit_or_bit, bit_or-low_div, ==_iff, u64,
}
use modos.Mm.Layout.{hhdm_begin, hhdm_size, pml4e_offset, pdpte_offset}
use modos.Mm.Hhdm.{
  setup_hhdm, setup_hhdm_lem, huge_entry, table_entry, hhdm_pdptes, hhdm_pml4es, hhdm_first,
}
use modos.Boot.Start.Walk.{walk}

-- A walk that ends at an entry for a page of 1 GiB.
walk_huge :
    (mem : ℕ → ℕ) (top v i j table base : ℕ)
    → pml4e_offset v ≡ i
    → pdpte_offset v ≡ j
    → has_bit 0 (mem (top + 8 * i)) ≡ true
    → clear12 (mem (top + 8 * i)) ≡ table
    → mem (table + 8 * j) ≡ base + 0x83
    → base % 2 ^ 30 ≡ 0
    → walk mem top v ≡ some (base + v % 2 ^ 30)
unfolding walk
walk_huge mem top v i j table base at4 at3 present leads entry aligned =
    let here : has_bit 0 (base + 0x83) ≡ true = ground (arith, aligned) in
    let large : has_bit 7 (base + 0x83) ≡ true = ground (arith, aligned) in
    let same : (base + 0x83) / 2 ^ 30 * 2 ^ 30 ≡ base = omega (arith, aligned) in
    rw (at4, at3, present, leads, entry, here, large, same) refl

huge_entry_lem : (i : ℕ) → i < hhdm_pdptes → huge_entry i ≡ i * 2 ^ 30 + 0x83
huge_entry_lem i lt =
    let fits : u64 (i * 2 ^ 30) ≡ i * 2 ^ 30 = omega (arith, lt) in
    ap (λ n. bit_or n 0x83) fits ∙ bit_or_fields 30 i 0x83 (omega arith)

present_entry : (paddr i : ℕ) → has_bit 0 (table_entry paddr i) ≡ true
present_entry paddr i = (==_iff _ 1).1 (omega (arith, bit_or_bit 0 (u64 (paddr + i * 0x200)) 3))

-- Eight entries in a row lead to one page.
leads_entry :
    (paddr i : ℕ)
    → paddr % 2 ^ 12 ≡ 0
    → paddr + i * 0x200 < 2 ^ 64
    → clear12 (table_entry paddr i) ≡ paddr + i / 8 * 0x1000
leads_entry paddr i aligned fits =
    omega (arith, bit_or-low_div 12 (u64 (paddr + i * 0x200)) 3 (omega arith), aligned, fits)

-- `phys` is memory by physical address where `mem` is memory by the kernel's: the toplevel stands at its own
-- address, and the table static_hhdm at `paddr`.
pub record IsSeen (static_hhdm paddr toplevel : ℕ) (mem phys : ℕ → ℕ) : Type 0 where
  pub table : (i : ℕ) → i < hhdm_pdptes → phys (paddr + 8 * i) ≡ mem (static_hhdm + 8 * i)
  pub top : (i : ℕ) → i < 512 → phys (toplevel + 8 * i) ≡ mem (toplevel + 8 * i)

module _ (static_hhdm reloc toplevel : ℕ) (mem phys : ℕ → ℕ) where
  abbrev paddr : ℕ
  paddr = u64 (static_hhdm + (0x1_0000_0000_0000_0000 - reloc))

  -- When static_hhdm is a page-aligned table apart from the toplevel, and the processor sees both where they
  -- are: after setup_hhdm, the processor finds at HHDM_BEGIN + p, for each p of the direct map, the physical
  -- address p in the first 512 GiB, and elsewhere the place of p in the piece of 512 GiB whose number
  -- is an eighth of that of p's.
  pub setup_hhdm-walk :
      (p : ℕ)
      → p < hhdm_size
      → paddr % 2 ^ 12 ≡ 0
      → paddr + 8 * hhdm_pdptes < 2 ^ 64
      → (static_hhdm + 8 * hhdm_pdptes ≤ toplevel + 8 * hhdm_first)
        ⊎ (toplevel + 8 * (hhdm_first + hhdm_pml4es) ≤ static_hhdm)
      → IsSeen static_hhdm paddr toplevel (setup_hhdm static_hhdm reloc toplevel mem) phys
      → walk phys toplevel (hhdm_begin + p) ≡ some (p / 2 ^ 42 * 2 ^ 39 + p % 2 ^ 39)
  unfolding pml4e_offset pdpte_offset
  setup_hhdm-walk p small aligned fits apart seen =
      let (filled, tops, others) = setup_hhdm_lem static_hhdm reloc toplevel mem apart in
      let i = p / 2 ^ 39 in
      let j = p / 2 ^ 30 % 512 in
      let lt : i < hhdm_pml4es = omega (arith, small) in
      let g = i / 8 * 512 + j in
      let g_lt : g < hhdm_pdptes = omega (arith, small) in
      let slot : toplevel + 8 * (256 + i) ≡ toplevel + 8 * hhdm_first + 8 * i = omega arith in
      let e4 : phys (toplevel + 8 * (256 + i)) ≡ table_entry paddr i =
        seen.top (256 + i) (omega (arith, lt))
        ∙ ap (setup_hhdm static_hhdm reloc toplevel mem) slot
        ∙ tops i lt in
      let at : paddr + i / 8 * 0x1000 + 8 * j ≡ paddr + 8 * g = omega arith in
      let e3 : phys (paddr + i / 8 * 0x1000 + 8 * j) ≡ g * 2 ^ 30 + 0x83 =
        ap phys at ∙ seen.table g g_lt ∙ filled g g_lt ∙ huge_entry_lem g g_lt in
      walk_huge phys toplevel (hhdm_begin + p) (256 + i) j (paddr + i / 8 * 0x1000) (g * 2 ^ 30)
        (omega (arith, small)) (omega (arith, small))
        (ap (λ e. has_bit 0 e) e4 ∙ present_entry paddr i)
        (ap (λ e. clear12 e) e4 ∙ leads_entry paddr i aligned (omega (arith, fits, lt))) e3
        (omega arith)
      ∙ ap some (omega (arith, small))

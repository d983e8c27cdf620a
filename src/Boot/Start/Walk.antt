-- ===== src/Boot/Start/Walk.antt =====
-- kernel/boot/p32/pmodeEntry.S: the processor's walk of page tables, and what the first ones are for.
use modos.Base.{
  ℕ, ◌+◌, ◌*◌, ◌/◌, ◌%◌, ◌^◌, ◌-◌, ◌≡◌, refl, arith, true, false, not, ◌||◌, Option, none, some,
  if◌then◌else◌, has_bit, clear12, ltb,
}
use modos.Mm.Layout.{pml4e_offset, pdpte_offset, pde_offset, page_offset}

-- The walk of the processor through four levels of tables by their physical addresses, as the architecture
-- describes it: bit 0 of an entry is that it is present, bit 7 in the second and the third level
-- that it maps a large page.
unfoldable pub walk : (ℕ → ℕ) → (top v : ℕ) → Option ℕ
walk mem top v =
    let e4 = mem (top + 8 * pml4e_offset v) in
    let e3 = mem (clear12 e4 + 8 * pdpte_offset v) in
    let e2 = mem (clear12 e3 + 8 * pde_offset v) in
    let e1 = mem (clear12 e2 + 8 * page_offset v) in
    if not (has_bit 0 e4) || not (has_bit 0 e3)
    then none
    else if has_bit 7 e3
    then some (e3 / 2 ^ 30 * 2 ^ 30 + v % 2 ^ 30)
    else if not (has_bit 0 e2)
    then none
    else if has_bit 7 e2
    then some (e2 / 2 ^ 21 * 2 ^ 21 + v % 2 ^ 21)
    else if has_bit 0 e1
    then some (clear12 e1 + v % 2 ^ 12)
    else none

-- What the first page tables are for: the first 2 MiB stand at their own addresses, the kernel's first
-- 2 MiB at -2 GiB, and nothing else is mapped. The upper 16 bits of an address are not looked at.
unfoldable pub boot_view : (kernel_phys v : ℕ) → Option ℕ
boot_view kernel_phys v =
    let t = v % 2 ^ 48 in
    if ltb t 0x20_0000
    then some t
    else if ltb t 0xFFFF_8000_0000
    then none
    else if ltb t 0xFFFF_8020_0000
    then some (kernel_phys + (t - 0xFFFF_8000_0000))
    else none

-- An entry that points to a table.
abbrev pub IsPointer : ℕ → ℕ → Type 0
IsPointer e t = (e ≡ t + 3) × (t % 2 ^ 12 ≡ 0)

pointer_lem :
    (e t : ℕ) → IsPointer e t → (has_bit 0 e ≡ true) × (has_bit 7 e ≡ false) × (clear12 e ≡ t)
pointer_lem e t (at, aligned) = ground (arith, at, aligned)

module _ (mem : ℕ → ℕ) (top v : ℕ) where
  pub walk-absent4 : mem (top + 8 * pml4e_offset v) ≡ 0 → walk mem top v ≡ none
  unfolding walk
  walk-absent4 z = rw z refl

  module _ (t3 : ℕ) (p4 : IsPointer (mem (top + 8 * pml4e_offset v)) t3) where
    pub walk-absent3 : mem (t3 + 8 * pdpte_offset v) ≡ 0 → walk mem top v ≡ none
    unfolding walk
    walk-absent3 z = let (a, b, c) = pointer_lem _ t3 p4 in rw (a, c, z) refl

    module _ (t2 : ℕ) (p3 : IsPointer (mem (t3 + 8 * pdpte_offset v)) t2) where
      pub walk-absent2 : mem (t2 + 8 * pde_offset v) ≡ 0 → walk mem top v ≡ none
      unfolding walk
      walk-absent2 z =
          let (a, b, c) = pointer_lem _ t3 p4 in
          let (a', b', c') = pointer_lem _ t2 p3 in rw (a, c, a', b', c', z) refl

      pub walk-large :
          (base : ℕ)
          → mem (t2 + 8 * pde_offset v) ≡ base + 0x83
          → base % 2 ^ 21 ≡ 0
          → walk mem top v ≡ some (base + v % 2 ^ 21)
      unfolding walk
      walk-large base at aligned =
          let (a, b, c) = pointer_lem _ t3 p4 in
          let (a', b', c') = pointer_lem _ t2 p3 in
          let present : has_bit 0 (base + 0x83) ≡ true = ground (arith, aligned) in
          let large : has_bit 7 (base + 0x83) ≡ true = ground (arith, aligned) in
          let same : (base + 0x83) / 2 ^ 21 * 2 ^ 21 ≡ base = omega (arith, aligned) in
          rw (a, c, a', b', c', at, present, large, same) refl

-- ===== src/Boot/Start/View.antt =====
-- kernel/boot/p32/pmodeEntry.S: what the first page tables map.
use modos.Base.{
  ℕ, ◌+◌, ◌*◌, ◌/◌, ◌%◌, ◌^◌, ◌-◌, ◌≤◌, ◌<◌, ◌≡◌, ◌≢◌, ◌⊎◌, inl, inr, refl, ap, ◌∙◌, arith, true,
  none, some, ◌==◌, ==_iff, has_bit, bit_or, bit_or_bit, ltb, ltb→lt, Bool-cases,
}
use modos.Mm.Layout.{pml4e_offset, pdpte_offset, pde_offset}
use modos.Mm.Layout.Split.{offsets-lt}
use modos.Boot.Start.{Labels, Cpu, boot_tables, pmode_entry}
use modos.Boot.Start.Walk.{
  walk, boot_view, IsPointer, walk-absent4, walk-absent3, walk-absent2, walk-large,
}
use modos.Boot.Start.Stores.{
  IsLoaded, done, at_pml4_low, at_pml4_high, at_pml4e_low, at_pml4e_high, at_pdpte_low,
  at_pdpte_high, other_pml4e_high, other_pml4e_low, other_pdpte_low, other_pdpte_high, other_pml4,
}

same_or_not : (a b : ℕ) → (a ≡ b) ⊎ (a ≢ b)
same_or_not a b = elim (Bool-cases (a == b)) [
  | inl e ↦ inl ((==_iff a b).0 e)
  | inr e ↦ inr (ground (arith, e))
]

module _ (l : Labels) (mem : ℕ → ℕ) (h : IsLoaded l mem) where
  module _ (v : ℕ) where
    pml4_low :
        pml4e_offset v ≡ 0 → IsPointer ((done l mem h) (l.pml4 + 8 * pml4e_offset v)) l.pml4e_low
    pml4_low e = (ap (done l mem h) (omega (arith, e)) ∙ at_pml4_low l mem h, h.pml4e_low.aligned)

    pml4_high :
        pml4e_offset v ≡ 511 → IsPointer ((done l mem h) (l.pml4 + 8 * pml4e_offset v)) l.pml4e_high
    pml4_high e =
        (ap (done l mem h) (omega (arith, e)) ∙ at_pml4_high l mem h, h.pml4e_high.aligned)

    pml4e_low :
        pdpte_offset v ≡ 0
        → IsPointer ((done l mem h) (l.pml4e_low + 8 * pdpte_offset v)) l.pdpte_low
    pml4e_low e = (ap (done l mem h) (omega (arith, e)) ∙ at_pml4e_low l mem h, h.pdpte_low.aligned)

    pml4e_high :
        pdpte_offset v ≡ 510
        → IsPointer ((done l mem h) (l.pml4e_high + 8 * pdpte_offset v)) l.pdpte_high
    pml4e_high e =
        (ap (done l mem h) (omega (arith, e)) ∙ at_pml4e_high l mem h, h.pdpte_high.aligned)

    view_low : v % 2 ^ 48 < 0x20_0000 → walk (done l mem h) l.pml4 v ≡ some (v % 2 ^ 48)
    unfolding pml4e_offset pdpte_offset pde_offset
    view_low small =
        walk-large (done l mem h) l.pml4 v l.pml4e_low (pml4_low (omega (arith, small))) l.pdpte_low
          (pml4e_low (omega (arith, small))) 0
          (ap (done l mem h) (omega (arith, small)) ∙ at_pdpte_low l mem h) refl
        ∙ ap some (omega (arith, small))

    view_high :
        0xFFFF_8000_0000 ≤ v % 2 ^ 48
        → v % 2 ^ 48 < 0xFFFF_8020_0000
        → walk (done l mem h) l.pml4 v ≡ some (l.kernel_phys + (v % 2 ^ 48 - 0xFFFF_8000_0000))
    unfolding pml4e_offset pdpte_offset pde_offset
    view_high lo hi =
        walk-large (done l mem h) l.pml4 v l.pml4e_high (pml4_high (omega (arith, lo))) l.pdpte_high
          (pml4e_high (omega (arith, lo, hi))) l.kernel_phys
          (ap (done l mem h) (omega (arith, lo, hi)) ∙ at_pdpte_high l mem h) h.text_aligned
        ∙ ap some (omega (arith, lo, hi))

    view_else :
        0x20_0000 ≤ v % 2 ^ 48
        → (v % 2 ^ 48 < 0xFFFF_8000_0000) ⊎ (0xFFFF_8020_0000 ≤ v % 2 ^ 48)
        → walk (done l mem h) l.pml4 v ≡ none
    unfolding pml4e_offset pdpte_offset pde_offset
    view_else above out =
        let (lt4, lt3, lt2, lt1) = offsets-lt v in
        elim (same_or_not (pml4e_offset v) 0) [
          | inl low ↦ elim (same_or_not (pdpte_offset v) 0) [
            | inl low' ↦
                walk-absent2 (done l mem h) l.pml4 v l.pml4e_low (pml4_low low) l.pdpte_low
                  (pml4e_low low')
                  (other_pdpte_low l mem h (pde_offset v) lt2 (omega (arith, above, low, low')))
            | inr other ↦
                walk-absent3 (done l mem h) l.pml4 v l.pml4e_low (pml4_low low)
                  (other_pml4e_low l mem h (pdpte_offset v) lt3 other)
          ]
          | inr not_low ↦ elim (same_or_not (pml4e_offset v) 511) [
            | inl high ↦ elim (same_or_not (pdpte_offset v) 510) [
              | inl high' ↦
                  walk-absent2 (done l mem h) l.pml4 v l.pml4e_high (pml4_high high) l.pdpte_high
                    (pml4e_high high')
                    (other_pdpte_high l mem h (pde_offset v) lt2 (omega (arith, out, high, high')))
              | inr other ↦
                  walk-absent3 (done l mem h) l.pml4 v l.pml4e_high (pml4_high high)
                    (other_pml4e_high l mem h (pdpte_offset v) lt3 other)
            ]
            | inr not_high ↦
                walk-absent4 (done l mem h) l.pml4 v
                  (other_pml4 l mem h (pml4e_offset v) lt4 not_low not_high)
          ]
        ]

    view_lem : walk (done l mem h) l.pml4 v ≡ boot_view l.kernel_phys v
    unfolding boot_view
    view_lem = elim (Bool-cases (ltb (v % 2 ^ 48) 0x20_0000)) [
      | inl low ↦ rw low (view_low (ltb→lt _ _ low))
      | inr above ↦
          let past : 0x20_0000 ≤ v % 2 ^ 48 = ground (arith, above) in
          elim (Bool-cases (ltb (v % 2 ^ 48) 0xFFFF_8000_0000)) [
            | inl between ↦ rw (above, between) (view_else past (inl (ltb→lt _ _ between)))
            | inr high ↦
                let from : 0xFFFF_8000_0000 ≤ v % 2 ^ 48 = ground (arith, high) in
                elim (Bool-cases (ltb (v % 2 ^ 48) 0xFFFF_8020_0000)) [
                  | inl inside ↦ rw (above, high, inside) (view_high from (ltb→lt _ _ inside))
                  | inr over ↦
                      let beyond : 0xFFFF_8020_0000 ≤ v % 2 ^ 48 = ground (arith, over) in
                      rw (above, high, over) (view_else past (inr beyond))
                ]
          ]
    ]

set_bit : (k x : ℕ) → 2 ^ k / 2 ^ k % 2 ≡ 1 → has_bit k (bit_or x (2 ^ k)) ≡ true
set_bit k x one = (==_iff _ 1).1 (omega (arith, bit_or_bit k x (2 ^ k), one))

-- With five blank pages for the tables below 4 GiB, and the kernel at a multiple of 2 MiB: in the state in which
-- entry is called, the processor's walk of its page tables gives every address what it is to have at
-- the start, and entry gets the boot loader's information with paging and long mode switched on.
pub pmode_entry-walk :
    (l : Labels) (ebx v : ℕ) (c : Cpu)
    → IsLoaded l c.mem
    → (walk (pmode_entry l ebx c).mem (pmode_entry l ebx c).cr3 v ≡ boot_view l.kernel_phys v)
      × ((pmode_entry l ebx c).rdi ≡ ebx)
      × (has_bit 31 (pmode_entry l ebx c).cr0 ≡ true)
      × (has_bit 5 (pmode_entry l ebx c).cr4 ≡ true)
      × (has_bit 8 (pmode_entry l ebx c).efer ≡ true)
unfolding pmode_entry boot_tables
pmode_entry-walk l ebx v c h =
    (view_lem l c.mem h v, refl, set_bit 31 c.cr0 refl, set_bit 5 c.cr4 refl, set_bit 8 c.efer refl)

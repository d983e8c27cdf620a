-- ===== src/Mm/Paging/Tree/Slots.antt =====
-- The slots of different entries are different words, and what a new table entry holds.
use modos.Base.{
  ℕ, ◌+◌, ◌*◌, ◌%◌, ◌<◌, ◌≡◌, ◌≢◌, ◌⊎◌, true, arith, has_bit, low12, clear12, bit_or, ==_iff, ◌==◌,
  ap, bit_or_bit, bit_or-low_div,
}
use modos.Mm.Layout.{p2v, page_size, ptable_len, hhdm_size}
use modos.Mm.Paging.{slot, new_table_entry}

-- Pages of the direct map do not wrap around the address space.
pub slot_sum :
    (t i : ℕ) → t < hhdm_size → i < ptable_len → slot (p2v t) i ≡ t + 0xFFFF_8000_0000_0000 + 8 * i
slot_sum t i ht hi = omega arith

pub slot_ne :
    (t i t' i' : ℕ)
    → t % page_size ≡ 0
    → t' % page_size ≡ 0
    → t < hhdm_size
    → t' < hhdm_size
    → i < ptable_len
    → i' < ptable_len
    → (t ≢ t') ⊎ (i ≢ i')
    → slot (p2v t) i ≢ slot (p2v t') i'
slot_ne t i t' i' a a' l l' h h' d e = omega (arith, slot_sum t i l h, slot_sum t' i' l' h')

-- An entry is a page with flags in its low twelve bits.
module _ (page flags : ℕ) (aligned : page % page_size ≡ 0) where
  pub clear12-new_table_entry : clear12 (new_table_entry page flags) ≡ page
  clear12-new_table_entry = omega (
    arith,
    bit_or-low_div 12 (bit_or page (low12 flags)) 1 (omega arith),
    bit_or-low_div 12 page (low12 flags) (omega arith),
  )

  pub present-new_table_entry : has_bit 0 (new_table_entry page flags) ≡ true
  present-new_table_entry =
      (==_iff _ 1).1 (omega (arith, bit_or_bit 0 (bit_or page (low12 flags)) 1))

  pub size-new_table_entry : has_bit 7 (new_table_entry page flags) ≡ has_bit 7 flags
  size-new_table_entry =
      ap (λ b. b == 1)
        (omega (arith, bit_or_bit 7 (bit_or page (low12 flags)) 1, bit_or_bit 7 page (low12 flags)))

-- ===== src/Mm/Hhdm.antt =====
-- kernel/mm/hhdm.c: the direct map of physical memory in the page tables of the boot code, which
-- lie in memory as words by address.
use mathlib.Core.Path.{subst}
use modos.Base.{
  ℕ, zero, suc, ◌+◌, ◌-◌, ◌*◌, ◌/◌, ◌≤◌, ◌<◌, ◌≡◌, ◌⊎◌, inl, inr, refl, ◌∙◌, arith, ◌==◌, ==_iff,
  write, write_self, write_ne, Bool-cases, bit_or, u64,
}
use modos.Mm.Layout.{hhdm_size, pdpte_coverage}

-- `for (size_t i = 0; i < n; i++) table[i] = f(i);` from index `i` on
unfoldable pub fill_words : (f : ℕ → ℕ) (table left i : ℕ) → (ℕ → ℕ) → ℕ → ℕ
fill_words f table zero i mem = mem
fill_words f table (suc left) i mem =
    fill_words f table left (i + 1) (write mem (table + 8 * i) (f i))

-- The entries of static_hhdm, pages of 1 GiB, and those of the toplevel for its tables.
abbrev pub huge_entry : ℕ → ℕ
huge_entry i = bit_or (u64 (i * pdpte_coverage)) 0x83

abbrev pub table_entry : ℕ → ℕ → ℕ
table_entry static_hhdm_paddr i = bit_or (u64 (static_hhdm_paddr + i * 0x200)) 3

-- HHDM_PDPTE_COVERAGE, HHDM_PML4E_COVERAGE, HHDM_PML4E_BEGIN
abbrev pub hhdm_pdptes : ℕ
hhdm_pdptes = hhdm_size / pdpte_coverage

abbrev pub hhdm_pml4es : ℕ
hhdm_pml4es = 128

abbrev pub hhdm_first : ℕ
hhdm_first = 256

-- `static_hhdm` is the table's address, `reloc` is KERNEL_RELOC_OFFSET, and `toplevel` is what
-- get_toplevel_real gives.
unfoldable pub setup_hhdm : (static_hhdm reloc toplevel : ℕ) → (ℕ → ℕ) → ℕ → ℕ
setup_hhdm static_hhdm reloc toplevel mem =
    let paddr = u64 (static_hhdm + (0x1_0000_0000_0000_0000 - reloc)) in
    fill_words (table_entry paddr) (toplevel + 8 * hhdm_first) hhdm_pml4es 0
      (fill_words huge_entry static_hhdm hhdm_pdptes 0 mem)

fill_words-outside :
    (f : ℕ → ℕ) (table left i : ℕ) (mem : ℕ → ℕ) (a : ℕ)
    → (a < table + 8 * i) ⊎ (table + 8 * (i + left) ≤ a)
    → fill_words f table left i mem a ≡ mem a
unfolding fill_words
fill_words-outside f table zero i mem a h = refl
fill_words-outside f table (suc left) i mem a h =
    fill_words-outside f table left (i + 1) (write mem (table + 8 * i) (f i)) a (omega (arith, h))
    ∙ write_ne mem (table + 8 * i) (f i) a (omega (arith, h))

fill_words-inside :
    (f : ℕ → ℕ) (table left i : ℕ) (mem : ℕ → ℕ) (j : ℕ)
    → i ≤ j
    → j < i + left
    → fill_words f table left i mem (table + 8 * j) ≡ f j
unfolding fill_words
fill_words-inside f table zero i mem j a b = absurd (omega arith)
fill_words-inside f table (suc left) i mem j a b = elim (Bool-cases (i == j)) [
  | inl e ↦
      subst
        (λ k.
          fill_words f table left (i + 1) (write mem (table + 8 * i) (f i)) (table + 8 * k) ≡ f k)
        ((==_iff i j).0 e)
        (fill_words-outside f table left (i + 1) (write mem (table + 8 * i) (f i)) (table + 8 * i)
            (inl (omega arith))
          ∙ write_self mem (table + 8 * i) (f i))
  | inr ne ↦
      fill_words-inside f table left (i + 1) (write mem (table + 8 * i) (f i)) j
        (ground (arith, ne)) (omega arith)
]

-- When the table static_hhdm and the toplevel do not overlap, setup_hhdm maps GiB number `i` in
-- entry `i` of the table for the whole direct map, puts into the toplevel, from the entry of
-- HHDM_BEGIN on, 128 entries that are 0x200 bytes apart, and changes no other word.
pub setup_hhdm_lem :
    (static_hhdm reloc toplevel : ℕ) (mem : ℕ → ℕ)
    → (static_hhdm + 8 * hhdm_pdptes ≤ toplevel + 8 * hhdm_first)
      ⊎ (toplevel + 8 * (hhdm_first + hhdm_pml4es) ≤ static_hhdm)
    → ((i : ℕ)
        → i < hhdm_pdptes
        → setup_hhdm static_hhdm reloc toplevel mem (static_hhdm + 8 * i) ≡ huge_entry i)
      × ((i : ℕ)
          → i < hhdm_pml4es
          → setup_hhdm static_hhdm reloc toplevel mem (toplevel + 8 * hhdm_first + 8 * i)
            ≡ table_entry (u64 (static_hhdm + (0x1_0000_0000_0000_0000 - reloc))) i)
      × ((a : ℕ)
          → (a < static_hhdm) ⊎ (static_hhdm + 8 * hhdm_pdptes ≤ a)
          → (a < toplevel + 8 * hhdm_first) ⊎ (toplevel + 8 * (hhdm_first + hhdm_pml4es) ≤ a)
          → setup_hhdm static_hhdm reloc toplevel mem a ≡ mem a)
unfolding setup_hhdm
setup_hhdm_lem static_hhdm reloc toplevel mem apart =
    let top = toplevel + 8 * hhdm_first in
    let mem1 = fill_words huge_entry static_hhdm hhdm_pdptes 0 mem in
    let entry = table_entry (u64 (static_hhdm + (0x1_0000_0000_0000_0000 - reloc))) in
    (
      (λ i h.
          fill_words-outside entry top hhdm_pml4es 0 mem1 (static_hhdm + 8 * i)
            (omega (arith, h, apart))
          ∙ fill_words-inside huge_entry static_hhdm hhdm_pdptes 0 mem i (omega arith) h),
      (λ i h. fill_words-inside entry top hhdm_pml4es 0 mem1 i (omega arith) h),
      (λ a p q.
          fill_words-outside entry top hhdm_pml4es 0 mem1 a (omega (arith, q))
          ∙ fill_words-outside huge_entry static_hhdm hhdm_pdptes 0 mem a (omega (arith, p))),
    )

-- ===== src/Boot/Start/Stores.antt =====
-- kernel/boot/p32/pmodeEntry.S: the entries of the first page tables.
use modos.Base.{
  ℕ, ◌+◌, ◌*◌, ◌/◌, ◌%◌, ◌^◌, ◌<◌, ◌≡◌, ◌≢◌, refl, sym, ap, ◌∙◌, arith, ◌++◌, List, [], ◌∷◌, All,
  bit_or, bit_or_fields, write_self, write_ne,
}
use modos.Boot.Start.{Labels, store_low, boot_tables}

store_low_ne : (p v a : ℕ) (mem : ℕ → ℕ) → p ≢ a → store_low p v mem a ≡ mem a
unfolding store_low
store_low_ne p v a mem ne = write_ne mem p (mem p / 2 ^ 32 * 2 ^ 32 + v % 2 ^ 32) a ne

store_low_self : (p v : ℕ) (mem : ℕ → ℕ) → mem p ≡ 0 → v < 2 ^ 32 → store_low p v mem p ≡ v
unfolding store_low
store_low_self p v mem zero_there small =
    write_self mem p (mem p / 2 ^ 32 * 2 ^ 32 + v % 2 ^ 32) ∙ omega (arith, zero_there, small)

-- Stores one after the other, the last one first.
abbrev store_all : List (ℕ × ℕ) → (ℕ → ℕ) → ℕ → ℕ
store_all [] mem = mem
store_all ((p, v) ∷ rest) mem = store_low p v (store_all rest mem)

store_all_other :
    (ps : List (ℕ × ℕ)) (mem : ℕ → ℕ) (a : ℕ)
    → All (λ (s : ℕ × ℕ). s.0 ≢ a) ps
    → store_all ps mem a ≡ mem a
store_all_other [] mem a ne = refl
store_all_other ((p, v) ∷ rest) mem a (here, ne) =
    store_low_ne p v a (store_all rest mem) here ∙ store_all_other rest mem a ne

store_all_at :
    (later earlier : List (ℕ × ℕ)) (mem : ℕ → ℕ) (a v : ℕ)
    → All (λ (s : ℕ × ℕ). s.0 ≢ a) later
    → All (λ (s : ℕ × ℕ). s.0 ≢ a) earlier
    → mem a ≡ 0
    → v < 2 ^ 32
    → store_all (later ++ (a, v) ∷ earlier) mem a ≡ v
store_all_at [] earlier mem a v ne ne' blank small =
    store_low_self a v (store_all earlier mem) (store_all_other earlier mem a ne' ∙ blank) small
store_all_at ((p, u) ∷ later) earlier mem a v (here, ne) ne' blank small =
    store_low_ne p u a (store_all (later ++ (a, v) ∷ earlier) mem) here
    ∙ store_all_at later earlier mem a v ne ne' blank small

-- A page for a table, below 4 GiB and all zero.
pub record IsBlank (t : ℕ) (mem : ℕ → ℕ) : Type 0 where
  pub aligned : t % 2 ^ 12 ≡ 0
  pub lt : t < 2 ^ 32
  pub blank : (i : ℕ) → i < 512 → mem (t + 8 * i) ≡ 0

-- Five pages for the tables, and the kernel's image at a multiple of 2 MiB.
pub record IsLoaded (l : Labels) (mem : ℕ → ℕ) : Type 0 where
  pub pml4 : IsBlank l.pml4 mem
  pub pml4e_high : IsBlank l.pml4e_high mem
  pub pml4e_low : IsBlank l.pml4e_low mem
  pub pdpte_low : IsBlank l.pdpte_low mem
  pub pdpte_high : IsBlank l.pdpte_high mem
  pub text_aligned : l.kernel_phys % 2 ^ 21 ≡ 0
  pub text_lt : l.kernel_phys < 2 ^ 32
  pub pml4_apart :
      All (λ t. l.pml4 ≢ t) (l.pml4e_high ∷ l.pml4e_low ∷ l.pdpte_low ∷ l.pdpte_high ∷ [])
  pub pml4e_high_apart : All (λ t. l.pml4e_high ≢ t) (l.pml4e_low ∷ l.pdpte_low ∷ l.pdpte_high ∷ [])
  pub pml4e_low_apart : All (λ t. l.pml4e_low ≢ t) (l.pdpte_low ∷ l.pdpte_high ∷ [])
  pub pdpte_apart : l.pdpte_low ≢ l.pdpte_high

module _ (l : Labels) (mem : ℕ → ℕ) (h : IsLoaded l mem) where
  abbrev s1 : ℕ × ℕ
  s1 = (l.pdpte_low, 0x83)

  abbrev s2 : ℕ × ℕ
  s2 = (l.pdpte_high, bit_or l.kernel_phys 0x83)

  abbrev s3 : ℕ × ℕ
  s3 = (l.pml4e_low, bit_or l.pdpte_low 3)

  abbrev s4 : ℕ × ℕ
  s4 = (l.pml4e_high + 0xFF0, bit_or l.pdpte_high 3)

  abbrev s5 : ℕ × ℕ
  s5 = (l.pml4, bit_or l.pml4e_low 3)

  abbrev s6 : ℕ × ℕ
  s6 = (l.pml4 + 0xFF8, bit_or l.pml4e_high 3)

  abbrev pub done : ℕ → ℕ
  done = store_all (s6 ∷ s5 ∷ s4 ∷ s3 ∷ s2 ∷ s1 ∷ []) mem

  boot_tables-done : boot_tables l mem ≡ done
  unfolding boot_tables
  boot_tables-done = refl

  pointer_entry : (t : ℕ) → t % 2 ^ 12 ≡ 0 → bit_or t 3 ≡ t + 3
  pointer_entry t aligned =
      let whole : t / 2 ^ 12 * 2 ^ 12 ≡ t = omega (arith, aligned) in
      ap (λ n. bit_or n 3) (sym whole)
      ∙ bit_or_fields 12 (t / 2 ^ 12) 3 (omega arith)
      ∙ ap (λ n. n + 3) whole

  large_entry : bit_or l.kernel_phys 0x83 ≡ l.kernel_phys + 0x83
  large_entry =
      let t = l.kernel_phys in
      let whole : t / 2 ^ 21 * 2 ^ 21 ≡ t = omega (arith, h.text_aligned) in
      ap (λ n. bit_or n 0x83) (sym whole)
      ∙ bit_or_fields 21 (t / 2 ^ 21) 0x83 (omega arith)
      ∙ ap (λ n. n + 0x83) whole

  pages :
      (l.pml4 % 2 ^ 12 ≡ 0)
      × (l.pml4e_high % 2 ^ 12 ≡ 0)
      × (l.pml4e_low % 2 ^ 12 ≡ 0)
      × (l.pdpte_low % 2 ^ 12 ≡ 0)
      × (l.pdpte_high % 2 ^ 12 ≡ 0)
  pages = (
    h.pml4.aligned, h.pml4e_high.aligned, h.pml4e_low.aligned, h.pdpte_low.aligned,
    h.pdpte_high.aligned,
  )

  first : (t : ℕ) → IsBlank t mem → mem t ≡ 0
  first t page = ap mem (omega arith) ∙ page.blank 0 (omega arith)

  pub at_pml4_low : done l.pml4 ≡ l.pml4e_low + 3
  at_pml4_low =
      store_all_at (s6 ∷ []) (s4 ∷ s3 ∷ s2 ∷ s1 ∷ []) mem l.pml4 (bit_or l.pml4e_low 3)
        (omega arith) (omega (arith, pages, h.pml4_apart)) (first l.pml4 h.pml4)
        (omega (
          arith,
          pointer_entry l.pml4e_low h.pml4e_low.aligned,
          h.pml4e_low.aligned,
          h.pml4e_low.lt,
        ))
      ∙ pointer_entry l.pml4e_low h.pml4e_low.aligned

  pub at_pml4_high : done (l.pml4 + 0xFF8) ≡ l.pml4e_high + 3
  at_pml4_high =
      store_all_at [] (s5 ∷ s4 ∷ s3 ∷ s2 ∷ s1 ∷ []) mem (l.pml4 + 0xFF8) (bit_or l.pml4e_high 3) tt
        (omega (arith, pages, h.pml4_apart)) (h.pml4.blank 511 (omega arith))
        (omega (
          arith,
          pointer_entry l.pml4e_high h.pml4e_high.aligned,
          h.pml4e_high.aligned,
          h.pml4e_high.lt,
        ))
      ∙ pointer_entry l.pml4e_high h.pml4e_high.aligned

  pub at_pml4e_high : done (l.pml4e_high + 0xFF0) ≡ l.pdpte_high + 3
  at_pml4e_high =
      store_all_at (s6 ∷ s5 ∷ []) (s3 ∷ s2 ∷ s1 ∷ []) mem (l.pml4e_high + 0xFF0)
        (bit_or l.pdpte_high 3) (omega (arith, pages, h.pml4_apart))
        (omega (arith, pages, h.pml4e_high_apart)) (h.pml4e_high.blank 510 (omega arith))
        (omega (
          arith,
          pointer_entry l.pdpte_high h.pdpte_high.aligned,
          h.pdpte_high.aligned,
          h.pdpte_high.lt,
        ))
      ∙ pointer_entry l.pdpte_high h.pdpte_high.aligned

  pub at_pml4e_low : done l.pml4e_low ≡ l.pdpte_low + 3
  at_pml4e_low =
      store_all_at (s6 ∷ s5 ∷ s4 ∷ []) (s2 ∷ s1 ∷ []) mem l.pml4e_low (bit_or l.pdpte_low 3)
        (omega (arith, pages, h.pml4_apart, h.pml4e_high_apart))
        (omega (arith, pages, h.pml4e_low_apart)) (first l.pml4e_low h.pml4e_low)
        (omega (
          arith,
          pointer_entry l.pdpte_low h.pdpte_low.aligned,
          h.pdpte_low.aligned,
          h.pdpte_low.lt,
        ))
      ∙ pointer_entry l.pdpte_low h.pdpte_low.aligned

  pub at_pdpte_high : done l.pdpte_high ≡ l.kernel_phys + 0x83
  at_pdpte_high =
      store_all_at (s6 ∷ s5 ∷ s4 ∷ s3 ∷ []) (s1 ∷ []) mem l.pdpte_high (bit_or l.kernel_phys 0x83)
        (omega (arith, pages, h.pml4_apart, h.pml4e_high_apart, h.pml4e_low_apart))
        (omega (arith, h.pdpte_apart)) (first l.pdpte_high h.pdpte_high)
        (omega (arith, large_entry, h.text_aligned, h.text_lt))
      ∙ large_entry

  pub at_pdpte_low : done l.pdpte_low ≡ 0x83
  at_pdpte_low =
      store_all_at (s6 ∷ s5 ∷ s4 ∷ s3 ∷ s2 ∷ []) [] mem l.pdpte_low 0x83
        (omega (arith, pages, h.pml4_apart, h.pml4e_high_apart, h.pml4e_low_apart, h.pdpte_apart))
        tt (first l.pdpte_low h.pdpte_low) (omega arith)

  -- The other entries of the tables.
  module _ (i : ℕ) (lt : i < 512) where
    pub other_pml4 : i ≢ 0 → i ≢ 511 → done (l.pml4 + 8 * i) ≡ 0
    other_pml4 a b =
        store_all_other (s6 ∷ s5 ∷ s4 ∷ s3 ∷ s2 ∷ s1 ∷ []) mem (l.pml4 + 8 * i)
          (omega (arith, pages, h.pml4_apart))
        ∙ h.pml4.blank i lt

    pub other_pml4e_high : i ≢ 510 → done (l.pml4e_high + 8 * i) ≡ 0
    other_pml4e_high a =
        store_all_other (s6 ∷ s5 ∷ s4 ∷ s3 ∷ s2 ∷ s1 ∷ []) mem (l.pml4e_high + 8 * i)
          (omega (arith, pages, h.pml4_apart, h.pml4e_high_apart))
        ∙ h.pml4e_high.blank i lt

    pub other_pml4e_low : i ≢ 0 → done (l.pml4e_low + 8 * i) ≡ 0
    other_pml4e_low a =
        store_all_other (s6 ∷ s5 ∷ s4 ∷ s3 ∷ s2 ∷ s1 ∷ []) mem (l.pml4e_low + 8 * i)
          (omega (arith, pages, h.pml4_apart, h.pml4e_high_apart, h.pml4e_low_apart))
        ∙ h.pml4e_low.blank i lt

    pub other_pdpte_low : i ≢ 0 → done (l.pdpte_low + 8 * i) ≡ 0
    other_pdpte_low a =
        store_all_other (s6 ∷ s5 ∷ s4 ∷ s3 ∷ s2 ∷ s1 ∷ []) mem (l.pdpte_low + 8 * i)
          (omega (arith, pages, h.pml4_apart, h.pml4e_high_apart, h.pml4e_low_apart, h.pdpte_apart))
        ∙ h.pdpte_low.blank i lt

    pub other_pdpte_high : i ≢ 0 → done (l.pdpte_high + 8 * i) ≡ 0
    other_pdpte_high a =
        store_all_other (s6 ∷ s5 ∷ s4 ∷ s3 ∷ s2 ∷ s1 ∷ []) mem (l.pdpte_high + 8 * i)
          (omega (arith, pages, h.pml4_apart, h.pml4e_high_apart, h.pml4e_low_apart, h.pdpte_apart))
        ∙ h.pdpte_high.blank i lt

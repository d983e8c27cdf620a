-- ===== src/Mm/Paging/Walk.antt =====
-- The walk of map_page down to the table that maps the page, for flags without MAP_HUGE.
pub mod Down
use mathlib.Core.Path.{subst, subst₂}
use modos.Base.{
  ℕ, zero, suc, ◌+◌, ◌*◌, ◌%◌, ◌≤◌, ◌<◌, ◌≡◌, ◌≢◌, ◌⊎◌, inl, inr, Bool, true, false, not, ◌||◌,
  Option, none, some, List, [], ◌∷◌, length, arith, has_bit, clear12, refl, sym, ◌∙◌, ◌==◌, ==_iff,
  Bool-cases, if◌then◌else◌, ap,
}
use modos.Mm.Layout.{
  ptable_len, page_size, check_valid_table, p2v, pml4e_offset, pdpte_offset, pde_offset,
  page_offset,
}
use modos.Mm.Layout.Split.{offsets-lt}
use modos.Mm.Paging.{
  Space, Caches, Paging, table_step, pml4e_step, pdpte_step, pde_step, get_toplevel, map_page, fill,
}
use modos.Mm.Paging.Tree.{IsTree, entry, Leads}
use modos.Mm.Paging.Tree.Translate.{
  descend, translate, path_of, InTable, descend-Leads, descend-none,
}
use modos.Mm.Paging.Tree.Extends.{Extends, Extends-refl, Extends-trans, Entered, NotLarge}
use modos.Mm.Paging.Cache.{IsCoherent, Stepped, table_step_lem}

-- What the tests of a step say when they all fail.
tests_fail :
    (cached offset table : ℕ) (fill : Bool)
    → not (cached == offset) || fill || table == 0 ≡ false
    → (cached ≡ offset) × (fill ≡ false) × (table ≢ 0)
tests_fail cached offset table fill h = ground arith

Leads-along :
    (s : Space) {t t' i i' : ℕ} (c : ℕ) → t ≡ t' → i ≡ i' → Leads s t i c → Leads s t' i' c
Leads-along s c et ei l = subst₂ (λ t i. Leads s t i c) et ei l

module _ (vaddr flags : ℕ) (not_huge : has_bit 7 flags ≡ false) where
  abbrev pub pml4e_store : Caches → ℕ → Caches
  pml4e_store c t = record c { cached_pml4e_table = t; cached_pml4e_offset = pml4e_offset vaddr }

  abbrev pub pdpte_store : Caches → ℕ → Caches
  pdpte_store c t = record c { cached_pdpte_table = t; cached_pdpte_offset = pdpte_offset vaddr }

  abbrev pub pde_store : Caches → ℕ → Caches
  pde_store c t = record c { cached_pde_table = t; cached_pde_offset = pde_offset vaddr }

  abbrev pub Full : Paging → Type 0
  Full s = s.pm.arena_end < s.pm.arena_head + page_size

  pub pml4e_step_lem :
      (level : ℕ → ℕ) (s : Paging)
      → IsTree level s.space
      → IsCoherent s
      → NotLarge (entry s.space s.toplevel (pml4e_offset vaddr))
      → Stepped level s s.toplevel
          (pml4e_offset vaddr)
          2
          (pml4e_store s.caches)
          false
          (pml4e_step vaddr flags s)
        ⊎ (Full s × (pml4e_step vaddr flags s ≡ (none, s)))
  unfolding pml4e_step get_toplevel
  pml4e_step_lem level s tree coherent not_large =
      table_step_lem level s tree s.toplevel (pml4e_offset vaddr) flags 2 tree.top
        (offsets-lt vaddr).0 not_huge not_large _ s.cached_pml4e_table (pml4e_store s.caches) false
        (λ h. let t = tests h in Leads-along s.space _ refl t.0 (coherent.pml4e t.2))
        (λ h. ap (λ o. record s.caches { cached_pml4e_offset = o }) (tests h).0) (λ h. refl)
    where
      tests :
          not (s.cached_pml4e_offset == pml4e_offset vaddr) || s.cached_pml4e_table == 0 ≡ false
          → (s.cached_pml4e_offset ≡ pml4e_offset vaddr)
            × (false ≡ false)
            × (s.cached_pml4e_table ≢ 0)
      tests h = ground arith

  pub pdpte_step_lem :
      (level : ℕ → ℕ) (s : Paging) (pml4e : ℕ) (fill_caches : Bool)
      → IsTree level s.space
      → level pml4e ≡ 3
      → s.cached_pml4e_table ≡ pml4e
      → (fill_caches ≡ false → IsCoherent s)
      → NotLarge (entry s.space pml4e (pdpte_offset vaddr))
      → Stepped level s pml4e
          (pdpte_offset vaddr)
          1
          (pdpte_store s.caches)
          fill_caches
          (pdpte_step vaddr flags pml4e fill_caches s)
        ⊎ (Full s × (pdpte_step vaddr flags pml4e fill_caches s ≡ (none, s)))
  unfolding pdpte_step
  pdpte_step_lem level s pml4e fill_caches tree deep cached coherent not_large =
      table_step_lem level s tree pml4e (pdpte_offset vaddr) flags 1 deep (offsets-lt vaddr).1
        not_huge not_large _ s.cached_pdpte_table (pdpte_store s.caches) fill_caches
        (λ h. let t = tests h in Leads-along s.space _ cached t.0 ((coherent t.1).pdpte t.2).1)
        (λ h. ap (λ o. record s.caches { cached_pdpte_offset = o }) (tests h).0) (λ h. (tests h).1)
    where
      tests :
          not (s.cached_pdpte_offset == pdpte_offset vaddr)
              || fill_caches
              || s.cached_pdpte_table == 0
            ≡ false
          → (s.cached_pdpte_offset ≡ pdpte_offset vaddr)
            × (fill_caches ≡ false)
            × (s.cached_pdpte_table ≢ 0)
      tests h =
          tests_fail s.cached_pdpte_offset (pdpte_offset vaddr) s.cached_pdpte_table fill_caches h

  pub pde_step_lem :
      (level : ℕ → ℕ) (s : Paging) (pdpte : ℕ) (fill_caches : Bool)
      → IsTree level s.space
      → level pdpte ≡ 2
      → s.cached_pdpte_table ≡ pdpte
      → (fill_caches ≡ false → IsCoherent s)
      → NotLarge (entry s.space pdpte (pde_offset vaddr))
      → Stepped level s pdpte
          (pde_offset vaddr)
          0
          (pde_store s.caches)
          fill_caches
          (pde_step vaddr flags pdpte fill_caches s)
        ⊎ (Full s × (pde_step vaddr flags pdpte fill_caches s ≡ (none, s)))
  unfolding pde_step
  pde_step_lem level s pdpte fill_caches tree deep cached coherent not_large =
      table_step_lem level s tree pdpte (pde_offset vaddr) flags 0 deep (offsets-lt vaddr).2
        not_huge not_large _ s.cached_pde_table (pde_store s.caches) fill_caches
        (λ h. let t = tests h in Leads-along s.space _ cached t.0 ((coherent t.1).pde t.2).1)
        (λ h. ap (λ o. record s.caches { cached_pde_offset = o }) (tests h).0) (λ h. (tests h).1)
    where
      tests :
          not (s.cached_pde_offset == pde_offset vaddr) || fill_caches || s.cached_pde_table == 0
            ≡ false
          → (s.cached_pde_offset ≡ pde_offset vaddr)
            × (fill_caches ≡ false)
            × (s.cached_pde_table ≢ 0)
      tests h = tests_fail s.cached_pde_offset (pde_offset vaddr) s.cached_pde_table fill_caches h

-- ===== src/Mm/Paging/Mapped/Range.antt =====
-- map_pages over a range of pages.
use mathlib.Core.Path.{subst}
use modos.Base.{
  ℕ, zero, suc, ◌+◌, ◌*◌, ◌^◌, ◌≤◌, ◌<◌, ◌≡◌, ◌≢◌, inl, inr, false, none, some, arith, w64, u64,
  has_bit, refl, ◌∙◌, ◌==◌, ==_iff, Bool-cases,
}
use modos.Mm.Layout.{page_size}
use modos.Mm.Paging.{Paging, map_page, map_pages_from, map_pages}
use modos.Mm.Paging.Tree.{IsTree}
use modos.Mm.Paging.Tree.Translate.{translate}
use modos.Mm.Paging.Tree.Fill.{leaf_entry}
use modos.Mm.Paging.Cache.{IsCoherent}
use modos.Mm.Paging.Mapped.{page_of, Maps, map_page_lem}

-- Pages `lo` to `hi` of the range are mapped one after the other, and nothing else changed.
pub record MapsRange (s : Paging) (vaddr paddr flags lo hi : ℕ) (result : ℕ × Paging) : Type 0 where
  pub after : Paging
  pub level : ℕ → ℕ
  pub returns : result ≡ (0, after)
  pub tree : IsTree level after.space
  pub coherent : IsCoherent after
  pub mapped :
      (j : ℕ)
      → lo ≤ j
      → j < hi
      → translate after.space (vaddr + j * page_size)
        ≡ some (leaf_entry (paddr + j * page_size) flags)
  pub others :
      (v : ℕ)
      → ((j : ℕ) → lo ≤ j → j < hi → page_of v ≢ page_of (vaddr + j * page_size))
      → translate after.space v ≡ translate s.space v

-- Pages of a range that is shorter than the 48-bit address space are different pages.
page_of-range :
    (v j k : ℕ)
    → j < 2 ^ 36
    → k < 2 ^ 36
    → j ≢ k
    → page_of (v + j * page_size) ≢ page_of (v + k * page_size)
page_of-range v j k hj hk ne e = omega arith

module _ (vaddr paddr flags : ℕ) (small : has_bit 12 flags ≡ false)
    (not_huge : has_bit 7 flags ≡ false) where
  abbrev page_v : ℕ → ℕ
  page_v j = vaddr + j * page_size

  abbrev page_p : ℕ → ℕ
  page_p j = paddr + j * page_size

  map_pages_from-suc :
      (left i : ℕ) (s : Paging) {s' : Paging}
      → map_page (u64 (page_v i)) (u64 (page_p i)) flags s ≡ (0, s')
      → map_pages_from (suc left) i page_size vaddr paddr flags s
        ≡ map_pages_from left (i + 1) page_size vaddr paddr flags s'
  unfolding map_pages_from
  map_pages_from-suc left i s e = ground (arith, e)

  -- The first page of a range, and then the rest of it.
  prepend :
      (left i hi : ℕ) (s : Paging)
      → hi ≤ 2 ^ 36
      → i + suc left ≡ hi
      → vaddr + hi * page_size ≤ w64
      → paddr + hi * page_size ≤ w64
      → (m : Maps s (page_v i) (page_p i) flags (map_page (page_v i) (page_p i) flags s))
      → MapsRange m.after vaddr paddr flags
          (i + 1)
          hi
          (map_pages_from left (i + 1) page_size vaddr paddr flags m.after)
      → MapsRange s vaddr paddr flags i hi
          (map_pages_from (suc left) i page_size vaddr paddr flags s)
  prepend left i hi s short sum vfits pfits m rest = record {
    after = rest.after;
    level = rest.level;
    returns = map_pages_from-suc left i s (rw (no_wrap, no_wrap') m.returns) ∙ rest.returns;
    tree = rest.tree;
    coherent = rest.coherent;
    mapped = λ j p q. elim (Bool-cases (i == j)) [
      | inl e ↦
          subst (λ k. translate rest.after.space (page_v k) ≡ some (leaf_entry (page_p k) flags))
            ((==_iff i j).0 e)
            (rest.others (page_v i)
                (λ k r t. page_of-range vaddr i k (omega arith) (omega arith) (omega arith))
              ∙ m.mapped)
      | inr e ↦ let ne : i ≢ j = ground (arith, e) in rest.mapped j (omega arith) q
    ];
    others = λ v h.
        rest.others v (λ j p q. h j (omega arith) q) ∙ m.others v (h i (omega arith) (omega arith));
  }
    where
      no_wrap : u64 (page_v i) ≡ page_v i
      no_wrap = omega arith

      no_wrap' : u64 (page_p i) ≡ page_p i
      no_wrap' = omega arith

  from_lem :
      (left i hi : ℕ) (level : ℕ → ℕ) (s : Paging)
      → i + left ≡ hi
      → hi ≤ 2 ^ 36
      → vaddr + hi * page_size ≤ w64
      → paddr + hi * page_size ≤ w64
      → IsTree level s.space
      → IsCoherent s
      → s.pm.arena_head + (3 * left + 1) * page_size ≤ s.pm.arena_end
      → ((j : ℕ) → i ≤ j → j < hi → translate s.space (vaddr + j * page_size) ≡ none)
      → MapsRange s vaddr paddr flags i hi (map_pages_from left i page_size vaddr paddr flags s)
  unfolding map_pages_from
  from_lem zero i hi level s sum short vfits pfits tree coherent room unmapped = record {
    after = s;
    level = level;
    returns = refl;
    tree = tree;
    coherent = coherent;
    mapped = λ j p q. absurd (omega arith);
    others = λ v h. refl;
  }
  from_lem (suc left) i hi level s sum short vfits pfits tree coherent room unmapped =
      elim (map_page_lem level s (page_v i) (page_p i) flags tree coherent small not_huge
        (unmapped i (omega arith) (omega arith))) [
          | inr full ↦ absurd (omega (arith, full.full))
          | inl m ↦ prepend left i hi s short sum vfits pfits m (
              from_lem left (i + 1) hi m.level m.after (omega arith) short vfits pfits m.tree
                m.coherent (omega (arith, m.used, m.arena_end))
                (λ j p q.
                  m.others (page_v j)
                    (page_of-range vaddr j i (omega arith) (omega arith) (omega arith))
                  ∙ unmapped j (omega arith) q))
        ]

  -- In ordered tables, below the direct map's end and with an aligned head of the arena, where
  -- every free page of the arena is all zero (map_pages does not clear the pages that it takes for
  -- new tables, so that this is a condition on the memory that it gets), with caches that are
  -- right for the current toplevel (set_toplevel leaves them at the old one's, so this does not
  -- speak of the mappings right after it), with flags that have neither MAP_HUGE nor the size bit, for a range of pages that are not
  -- mapped, does not wrap around the address space and is shorter than 2^36 pages, and with three
  -- pages of the arena for each of them and one more: map_pages returns 0, page j of the range is
  -- then mapped to physical page j with the flags, every page outside the range is mapped as
  -- before, and the tables and the caches are in order.
  pub map_pages_lem :
      (n : ℕ) (level : ℕ → ℕ) (s : Paging)
      → n ≤ 2 ^ 36
      → vaddr + n * page_size ≤ w64
      → paddr + n * page_size ≤ w64
      → IsTree level s.space
      → IsCoherent s
      → s.pm.arena_head + (3 * n + 1) * page_size ≤ s.pm.arena_end
      → ((j : ℕ) → j < n → translate s.space (page_v j) ≡ none)
      → MapsRange s vaddr paddr flags 0 n (map_pages vaddr paddr n flags s)
  unfolding map_pages
  map_pages_lem n level s short vfits pfits tree coherent room unmapped = rw small (
      from_lem n 0 n level s (omega arith) short vfits pfits tree coherent room
        (λ j p q. unmapped j q))

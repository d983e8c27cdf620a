-- ===== src/Mm/Paging/Cache.antt =====
-- The caches of map_page: when they hold what a walk from the top would find, and a step through
-- them.
use modos.Base.{
  ℕ, suc, ◌+◌, ◌<◌, ◌≡◌, ◌≢◌, ◌⊎◌, inl, inr, Bool, true, false, Option, none, some, arith, has_bit,
  refl, Bool-cases,
}
use modos.Mm.Layout.{ptable_len, page_size}
use modos.Mm.Paging.{Caches, Paging, table_step}
use modos.Mm.Paging.Tree.{IsTree, entry, Leads}
use modos.Mm.Paging.Tree.Extends.{Extends-refl, Extends-trans, Entered, NotLarge, enter_lem}

-- Each cached table is the one that the cached offset leads to from the table above it, which is
-- cached too.
pub record IsCoherent (s : Paging) : Type 0 where
  pub in_table :
      (s.cached_pml4e_offset < ptable_len)
      × (s.cached_pdpte_offset < ptable_len)
      × (s.cached_pde_offset < ptable_len)
  pub pml4e :
      s.cached_pml4e_table ≢ 0 → Leads s.space s.toplevel s.cached_pml4e_offset s.cached_pml4e_table
  pub pdpte :
      s.cached_pdpte_table ≢ 0
      → (s.cached_pml4e_table ≢ 0)
        × Leads s.space s.cached_pml4e_table s.cached_pdpte_offset s.cached_pdpte_table
  pub pde :
      s.cached_pde_table ≢ 0
      → (s.cached_pdpte_table ≢ 0)
        × Leads s.space s.cached_pdpte_table s.cached_pde_offset s.cached_pde_table

-- A successful step of map_page: the next table, and what else it left.
pub record Stepped (level : ℕ → ℕ) (s : Paging) (t i k : ℕ) (store : ℕ → Caches)
    (fill_caches : Bool) (result : Option (ℕ × Bool) × Paging) : Type 0 where
  pub next : ℕ
  pub fill : Bool
  pub after : Paging
  pub level' : ℕ → ℕ
  pub returns : result ≡ (some (next, fill), after)
  pub entered : Entered level s.space t i k next level' after.space
  pub caches : after.caches ≡ store next
  pub hit : fill ≡ false → (after ≡ s) × (fill_caches ≡ false)

module _ (level : ℕ → ℕ) (s : Paging) (tree : IsTree level s.space) (t i flags k : ℕ)
    (deep : level t ≡ suc (suc k)) (in_table : i < ptable_len) (not_huge : has_bit 7 flags ≡ false)
    (not_large : NotLarge (entry s.space t i)) where
  module _ (miss : Bool) (cached : ℕ) (store : ℕ → Caches) (fill_caches : Bool)
      (found : miss ≡ false → Leads s.space t i cached)
      (kept : miss ≡ false → s.caches ≡ store cached)
      (filled : miss ≡ false → fill_caches ≡ false) where
    on_hit :
        miss ≡ false
        → Stepped level s t i k store fill_caches
            (table_step miss cached store t i flags fill_caches s)
    unfolding table_step
    on_hit h = record {
      next = cached;
      fill = fill_caches;
      after = s;
      level' = level;
      returns = rw h;
      entered = record {
        tree = tree;
        leads = found h;
        below =
            let child = tree.child t i (omega (arith, deep)) in_table (found h).0 in
            omega (arith, rw (found h).1 at child, deep);
        extends =
            Extends-trans 1 (omega arith) (Extends-refl level s.space) (Extends-refl level s.space);
      };
      caches = kept h;
      hit = λ e. (refl, e);
    }

    on_miss :
        miss ≡ true
        → Stepped level s t i k store fill_caches
            (table_step miss cached store t i flags fill_caches s)
          ⊎ ((s.pm.arena_end < s.pm.arena_head + page_size)
              × (table_step miss cached store t i flags fill_caches s ≡ (none, s)))
    on_miss h = elim (enter_lem level s.space tree t i flags k deep in_table not_huge not_large) [
      | inl (t', level', s', e, entered) ↦ inl (record {
        next = t';
        fill = true;
        after = record { space = s'; caches = store t' };
        level' = level';
        returns = unfold table_step in ground (arith, h, e);
        entered = entered;
        caches = refl;
        hit = λ e. cc;
      })
      | inr (full, e) ↦ inr (full, unfold table_step in ground (arith, h, e))
    ]

    pub table_step_lem :
        Stepped level s t i k store fill_caches
          (table_step miss cached store t i flags fill_caches s)
        ⊎ ((s.pm.arena_end < s.pm.arena_head + page_size)
            × (table_step miss cached store t i flags fill_caches s ≡ (none, s)))
    table_step_lem = elim (Bool-cases miss) [ inl h ↦ on_miss h | inr h ↦ inl (on_hit h) ]

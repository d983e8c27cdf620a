-- ===== src/Mm/Paging/Mapped.antt =====
-- What map_page and map_pages do to the translation that the processor makes.
pub mod Range
use mathlib.Core.Path.{subst}
use modos.Base.{
  ℕ, zero, suc, ◌+◌, ◌*◌, ◌/◌, ◌%◌, ◌^◌, ◌≤◌, ◌<◌, ◌≡◌, ◌≢◌, ◌⊎◌, inl, inr, Bool, true, false,
  Option, none, some, List, [], ◌∷◌, arith, has_bit, low12, bit_or, refl, sym, ◌∙◌, ap,
  cons-injective,
}
use modos.Mm.Layout.{
  ptable_len, page_size, p2v, trim_canonical_vaddr, pml4e_offset, pdpte_offset, pde_offset,
  page_offset,
}
use modos.Mm.Layout.Split.{offsets-lt}
use modos.Mm.Paging.{Space, Paging, map_page, fill}
use modos.Mm.Paging.Tree.{IsTree, entry, Leads}
use modos.Mm.Paging.Tree.Translate.{descend, translate, path_of, InTable, descend-leaf_none}
use modos.Mm.Paging.Tree.Extends.{Extends}
use modos.Mm.Paging.Tree.Reaches.{Reaches, Reaches-unique, descend-Reaches}
use modos.Mm.Paging.Tree.Fill.{
  leaf_entry, filled, present-leaf_entry, fill_entry-absent, filled-IsTree, descend-filled,
  descend-filled_self, Leads-filled, Reaches-filled,
}
use modos.Mm.Paging.Cache.{IsCoherent}
use modos.Mm.Paging.Walk.Down.{Walked, RanOut, walk_lem}

-- the number of the page that an address lies in
abbrev pub page_of : ℕ → ℕ
page_of v = trim_canonical_vaddr v / page_size

-- Addresses with the same four offsets lie in the same page.
pub path_of_injective : (v w : ℕ) → path_of v ≡ path_of w → page_of v ≡ page_of w
unfolding pml4e_offset pdpte_offset pde_offset page_offset
path_of_injective v w e =
    let (a, e1) = cons-injective e in
    let (b, e2) = cons-injective e1 in
    let (c, e3) = cons-injective e2 in let (d, e4) = cons-injective e3 in omega (arith, a, b, c, d)

-- map_page returned 0: the page is mapped with its flags, no other page is mapped otherwise than
-- before, the tables are in order, at most three pages of the arena went into tables.
pub record Maps (s : Paging) (vaddr paddr flags : ℕ) (result : ℕ × Paging) : Type 0 where
  pub after : Paging
  pub level : ℕ → ℕ
  pub returns : result ≡ (0, after)
  pub tree : IsTree level after.space
  pub coherent : IsCoherent after
  pub mapped : translate after.space vaddr ≡ some (leaf_entry paddr flags)
  pub others : (v : ℕ) → page_of v ≢ page_of vaddr → translate after.space v ≡ translate s.space v
  pub used : after.pm.arena_head ≤ s.pm.arena_head + 3 * page_size
  pub arena_end : after.pm.arena_end ≡ s.pm.arena_end

-- map_page returned 1 since the arena had no page left for a table: every page is mapped as it
-- was, and the tables are in order.
pub record OutOfPages (s : Paging) (result : ℕ × Paging) : Type 0 where
  pub after : Paging
  pub level : ℕ → ℕ
  pub returns : result ≡ (1, after)
  pub tree : IsTree level after.space
  pub full : s.pm.arena_end < s.pm.arena_head + 4 * page_size
  pub unchanged : (v : ℕ) → translate after.space v ≡ translate s.space v

path-InTable : (v : ℕ) → InTable (path_of v)
path-InTable v = let o = offsets-lt v in (o.0, (o.1, (o.2, (o.3, tt))))

translate-Extends :
    {n : ℕ} {level level' : ℕ → ℕ} {s s' : Space} (v : ℕ)
    → IsTree level s
    → Extends n level s level' s'
    → translate s' v ≡ translate s v
unfolding translate
translate-Extends {s} {s'} v tree ext =
    ap (λ t. descend s' t (path_of v)) ext.toplevel
    ∙ ext.walks s.toplevel (path_of v) (omega (arith, tree.top)) tree.top (path-InTable v)

module _ (level : ℕ → ℕ) (s : Paging) (vaddr paddr flags : ℕ) (tree : IsTree level s.space)
    (coherent : IsCoherent s) (small : has_bit 12 flags ≡ false)
    (not_huge : has_bit 7 flags ≡ false) (unmapped : translate s.space vaddr ≡ none) where
  ran_out : RanOut vaddr flags not_huge level s → OutOfPages s (map_page vaddr paddr flags s)
  ran_out r = record {
    after = r.after;
    level = r.level';
    returns = r.returns paddr small;
    tree = r.tree;
    full = omega (arith, r.full, r.extends.used, r.extends.arena_end);
    unchanged = λ v. translate-Extends v tree r.extends;
  }

  module _ (w : Walked vaddr flags not_huge level s) where
    abbrev at : ℕ
    at = page_offset vaddr

    in_table : at < ptable_len
    in_table = (offsets-lt vaddr).3

    abbrev done : Space
    done = filled w.after.space w.pde at (leaf_entry paddr flags)

    top_stays : w.after.toplevel ≡ s.toplevel
    top_stays = w.extends.toplevel

    top_level : w.level' s.toplevel ≡ 4
    top_level = rw top_stays at w.tree.top

    -- The last entry was not present, since the page was not mapped.
    absent : has_bit 0 (entry w.after.space w.pde at) ≡ false
    unfolding translate
    absent = descend-leaf_none w.after.space w.pde at (
        sym (descend-Reaches w.after.space w.pde at s.toplevel (path_of vaddr) w.reaches)
        ∙ ap (λ t. descend w.after.space t (path_of vaddr)) (sym top_stays)
        ∙ translate-Extends vaddr tree w.extends
        ∙ unmapped)

    mapped_here : translate done vaddr ≡ some (leaf_entry paddr flags)
    unfolding translate
    mapped_here =
        ap (λ t. descend done t (path_of vaddr)) top_stays
        ∙ descend-Reaches done w.pde at s.toplevel (path_of vaddr) (
            Reaches-filled w.level' w.after.space w.tree w.pde at w.deep in_table
              (leaf_entry paddr flags) s.toplevel (path_of vaddr) top_level (path-InTable vaddr)
              w.reaches)
        ∙ descend-filled_self w.level' w.after.space w.tree w.pde at w.deep in_table
            (leaf_entry paddr flags) (present-leaf_entry paddr flags)

    others_there :
        (v : ℕ) → page_of v ≢ page_of vaddr → translate done v ≡ translate w.after.space v
    unfolding translate
    others_there v differ =
        elim (descend-filled w.level' w.after.space w.tree w.pde at w.deep in_table
          (leaf_entry paddr flags) w.after.toplevel (path_of v) (omega (arith, w.tree.top))
          w.tree.top (path-InTable v)) [
            | inr same ↦ same
            | inl r ↦
                let (_, same) =
                  Reaches-unique w.after.space w.pde at w.level' w.tree w.after.toplevel s.toplevel
                    (path_of v) (path_of vaddr) w.tree.top top_level refl (path-InTable v)
                    (path-InTable vaddr) r w.reaches in
                absurd (differ (path_of_injective v vaddr same))
          ]

    IsCoherent-done : IsCoherent (record w.after { space = done })
    IsCoherent-done = record {
      in_table = w.coherent.in_table;
      pml4e =
          λ h. keep _ _ _ (omega (arith, w.tree.top)) w.coherent.in_table.0 (w.coherent.pml4e h);
      pdpte = λ h.
          let (up, l) = w.coherent.pdpte h in
          (up, keep _ _ _ (omega (arith, pml4e_level up)) w.coherent.in_table.1 l);
      pde = λ h.
          let (up, l) = w.coherent.pde h in
          (up, keep _ _ _ (omega (arith, pdpte_level up)) w.coherent.in_table.2 l);
    }
      where
        keep :
            (x j y : ℕ)
            → 1 < w.level' x
            → j < ptable_len
            → Leads w.after.space x j y
            → Leads done x j y
        keep x j y =
            Leads-filled w.level' w.after.space w.tree w.pde at w.deep in_table
              (leaf_entry paddr flags) x j y

        child :
            (x j y : ℕ)
            → 1 < w.level' x
            → j < ptable_len
            → Leads w.after.space x j y
            → suc (w.level' y) ≡ w.level' x
        child x j y h hj l = rw l.1 at (w.tree.child x j h hj l.0)

        pml4e_level : w.after.cached_pml4e_table ≢ 0 → w.level' w.after.cached_pml4e_table ≡ 3
        pml4e_level h = omega (
          arith,
          w.tree.top,
          child _ _ _ (omega (arith, w.tree.top)) w.coherent.in_table.0 (w.coherent.pml4e h),
        )

        pdpte_level : w.after.cached_pdpte_table ≢ 0 → w.level' w.after.cached_pdpte_table ≡ 2
        pdpte_level h =
            let (up, l) = w.coherent.pdpte h in
            omega (
              arith,
              pml4e_level up,
              child _ _ _ (omega (arith, pml4e_level up)) w.coherent.in_table.1 l,
            )

    maps : Maps s vaddr paddr flags (map_page vaddr paddr flags s)
    maps = record {
      after = record w.after { space = done };
      level = w.level';
      returns = w.returns paddr small ∙ filled_here;
      tree =
          filled-IsTree w.level' w.after.space w.tree w.pde at w.deep in_table
            (leaf_entry paddr flags);
      coherent = IsCoherent-done;
      mapped = mapped_here;
      others = λ v differ. others_there v differ ∙ translate-Extends v tree w.extends;
      used = w.extends.used;
      arena_end = w.extends.arena_end;
    }
      where
        filled_here : fill (p2v w.pde) at paddr flags w.after ≡ (0, record w.after { space = done })
        filled_here =
            let e =
              fill_entry-absent w.level' w.after.space w.tree w.pde at w.deep in_table paddr flags
                absent in
            unfold fill in rw e

  -- In ordered tables, below the direct map's end and with an aligned head of the arena, where
  -- every free page of the arena is all zero (map_page does not clear the page that it takes for a
  -- new table, so that this is a condition on the memory that it gets), with caches that are
  -- right for the current toplevel (set_toplevel leaves them at the old one's), for a 4 KiB page
  -- that is not mapped and flags that ask for no large page: map_page either returns 0 and maps the page to the physical
  -- address with the low twelve bits of the flags and the present bit, keeping the translation of
  -- every other page, the order of the tables and the caches; or it returns 1, and that only when
  -- the arena holds fewer than four more pages, and then it keeps every translation and the order
  -- of the tables.
  pub map_page_lem :
      Maps s vaddr paddr flags (map_page vaddr paddr flags s)
      ⊎ OutOfPages s (map_page vaddr paddr flags s)
  map_page_lem = elim (walk_lem vaddr flags not_huge level s tree coherent unmapped) [
    | inl w ↦ inl (maps w)
    | inr r ↦ inr (ran_out r)
  ]

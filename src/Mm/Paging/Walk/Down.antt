-- ===== src/Mm/Paging/Walk/Down.antt =====
-- The three steps of map_page put together: where the page was not mapped, the walk comes to the
-- last table, or pages for tables have run out.
use mathlib.Core.Path.{subst}
use modos.Base.{
  ℕ, suc, ◌≤◌, ◌≡◌, ◌≢◌, ◌⊎◌, inl, inr, false, none, List, [], ◌∷◌, length, arith, has_bit, refl,
  sym, ◌∙◌, ap,
}
use modos.Mm.Layout.{p2v, pml4e_offset, pdpte_offset, pde_offset, page_offset}
use modos.Mm.Layout.Split.{offsets-lt}
use modos.Mm.Paging.{Space, Paging, pml4e_step, pdpte_step, pde_step, map_page, fill}
use modos.Mm.Paging.Tree.{IsTree, entry, Leads}
use modos.Mm.Paging.Tree.Translate.{
  descend, translate, path_of, InTable, descend-Leads, descend-none,
}
use modos.Mm.Paging.Tree.Extends.{Extends, Extends-refl, Extends-trans, NotLarge}
use modos.Mm.Paging.Tree.Reaches.{Reaches, Reaches-Leads}
use modos.Mm.Paging.Cache.{IsCoherent, Stepped}
use modos.Mm.Paging.Walk.{
  Full, pml4e_store, pdpte_store, pde_store, pml4e_step_lem, pdpte_step_lem, pde_step_lem,
}

module _ (vaddr flags : ℕ) (not_huge : has_bit 7 flags ≡ false) where
  -- map_page has come down to the last table, whose entry for the page is then filled.
  pub record Walked (level : ℕ → ℕ) (s : Paging) : Type 0 where
    pub pde : ℕ
    pub after : Paging
    pub level' : ℕ → ℕ
    pub tree : IsTree level' after.space
    pub coherent : IsCoherent after
    pub extends : Extends 3 level s.space level' after.space
    pub deep : level' pde ≡ 1
    pub reaches : Reaches after.space s.toplevel (path_of vaddr) pde (page_offset vaddr)
    pub returns :
        (paddr : ℕ)
        → has_bit 12 flags ≡ false
        → map_page vaddr paddr flags s ≡ fill (p2v pde) (page_offset vaddr) paddr flags after

  -- map_page has run out of pages for tables.
  pub record RanOut (level : ℕ → ℕ) (s : Paging) : Type 0 where
    pub after : Paging
    pub level' : ℕ → ℕ
    pub tree : IsTree level' after.space
    pub extends : Extends 3 level s.space level' after.space
    pub full : Full vaddr flags not_huge after
    pub returns : (paddr : ℕ) → has_bit 12 flags ≡ false → map_page vaddr paddr flags s ≡ (1, after)

  -- The walk goes on below table `t`, at the offsets that are left, and faults there.
  below-fault :
      {n : ℕ} {level level' : ℕ → ℕ} {s s' : Space} (t i j k t' : ℕ) (path : List ℕ)
      → level t ≡ length (i ∷ j ∷ path)
      → InTable (i ∷ j ∷ path)
      → Extends n level s level' s'
      → Leads s' t i t'
      → descend s t (i ∷ j ∷ path) ≡ none
      → descend s' t' (j ∷ path) ≡ none
  below-fault t i j k t' path h p e l f =
      sym (descend-Leads _ t i j path l) ∙ e.walks t (i ∷ j ∷ path) (omega (arith, h)) h p ∙ f

  offsets_in : InTable (path_of vaddr)
  offsets_in = let o = offsets-lt vaddr in (o.0, (o.1, (o.2, (o.3, tt))))

  module _ (level : ℕ → ℕ) (s : Paging) (tree : IsTree level s.space) (coherent : IsCoherent s)
      (fault : translate s.space vaddr ≡ none) where
    fault_first : NotLarge (entry s.space s.toplevel (pml4e_offset vaddr))
    unfolding translate
    fault_first =
        descend-none s.space s.toplevel (pml4e_offset vaddr) (pdpte_offset vaddr)
          (pde_offset vaddr ∷ page_offset vaddr ∷ []) fault

    abbrev First : Type 0
    First =
        Stepped level s s.toplevel (pml4e_offset vaddr) 2
          (pml4e_store vaddr flags not_huge s.caches) false (pml4e_step vaddr flags s)

    module _ (one : First) where
      cached_one : one.after.cached_pml4e_table ≡ one.next
      cached_one = ap (λ c. c.cached_pml4e_table) one.caches

      IsCoherent-one : one.fill ≡ false → IsCoherent one.after
      IsCoherent-one h = subst IsCoherent (sym (one.hit h).0) coherent

      abbrev Second : Type 0
      Second =
          Stepped one.level' one.after one.next (pdpte_offset vaddr) 1
            (pdpte_store vaddr flags not_huge one.after.caches) one.fill
            (pdpte_step vaddr flags one.next one.fill one.after)

      fault_one :
          descend one.after.space one.next
            (pdpte_offset vaddr ∷ pde_offset vaddr ∷ page_offset vaddr ∷ [])
          ≡ none
      fault_one =
          below-fault s.toplevel (pml4e_offset vaddr) (pdpte_offset vaddr) 2 one.next
            (pde_offset vaddr ∷ page_offset vaddr ∷ []) tree.top offsets_in one.entered.extends
            one.entered.leads (unfold translate in fault)

      second_lem :
          Stepped one.level' one.after one.next
            (pdpte_offset vaddr)
            1
            (pdpte_store vaddr flags not_huge one.after.caches)
            one.fill
            (pdpte_step vaddr flags one.next one.fill one.after)
          ⊎ (Full vaddr flags not_huge one.after
              × (pdpte_step vaddr flags one.next one.fill one.after ≡ (none, one.after)))
      second_lem =
          pdpte_step_lem vaddr flags not_huge one.level' one.after one.next one.fill
            one.entered.tree one.entered.below cached_one IsCoherent-one
            (descend-none one.after.space one.next _ _ _ fault_one)

      module _ (two : Second) where
        cached_two : two.after.cached_pdpte_table ≡ two.next
        cached_two = ap (λ c. c.cached_pdpte_table) two.caches

        IsCoherent-two : two.fill ≡ false → IsCoherent two.after
        IsCoherent-two h =
            let hit = two.hit h in subst IsCoherent (sym hit.0) (IsCoherent-one hit.1)

        fault_two :
            descend two.after.space two.next (pde_offset vaddr ∷ page_offset vaddr ∷ []) ≡ none
        fault_two =
            below-fault one.next (pdpte_offset vaddr) (pde_offset vaddr) 1 two.next
              (page_offset vaddr ∷ []) one.entered.below offsets_in.1 two.entered.extends
              two.entered.leads fault_one

        third_lem :
            Stepped two.level' two.after two.next
              (pde_offset vaddr)
              0
              (pde_store vaddr flags not_huge two.after.caches)
              two.fill
              (pde_step vaddr flags two.next two.fill two.after)
            ⊎ (Full vaddr flags not_huge two.after
                × (pde_step vaddr flags two.next two.fill two.after ≡ (none, two.after)))
        third_lem =
            pde_step_lem vaddr flags not_huge two.level' two.after two.next two.fill
              two.entered.tree two.entered.below cached_two IsCoherent-two
              (descend-none two.after.space two.next _ _ _ fault_two)

        abbrev Third : Type 0
        Third =
            Stepped two.level' two.after two.next (pde_offset vaddr) 0
              (pde_store vaddr flags not_huge two.after.caches) two.fill
              (pde_step vaddr flags two.next two.fill two.after)

        module _ (three : Third) where
          two_steps : Extends 2 one.level' one.after.space three.level' three.after.space
          two_steps = Extends-trans 2 (omega arith) two.entered.extends three.entered.extends

          all_steps : Extends 3 level s.space three.level' three.after.space
          all_steps = Extends-trans 3 (omega arith) one.entered.extends two_steps

          top_stays : one.level' s.toplevel ≡ 4
          top_stays = one.entered.extends.grows s.toplevel (omega (arith, tree.top)) ∙ tree.top

          Leads-pml4e : Leads three.after.space s.toplevel (pml4e_offset vaddr) one.next
          Leads-pml4e =
              two_steps.keeps s.toplevel (pml4e_offset vaddr) one.next (omega (arith, top_stays))
                offsets_in.0 one.entered.leads

          Leads-pdpte : Leads three.after.space one.next (pdpte_offset vaddr) two.next
          Leads-pdpte =
              three.entered.extends.keeps one.next (pdpte_offset vaddr) two.next
                (omega (
                  arith,
                  two.entered.extends.grows one.next (omega (arith, one.entered.below)),
                  one.entered.below,
                ))
                offsets_in.1.0 two.entered.leads

          caches_all :
              three.after.caches
              ≡ pde_store vaddr flags not_huge
                  (pdpte_store vaddr flags not_huge
                    (pml4e_store vaddr flags not_huge s.caches one.next)
                    two.next)
                  three.next
          caches_all =
              three.caches
              ∙ ap (λ c. pde_store vaddr flags not_huge c three.next)
                  (two.caches ∙ ap (λ c. pdpte_store vaddr flags not_huge c two.next) one.caches)

          not_null : (t k : ℕ) → three.level' t ≡ suc k → t ≢ 0
          not_null t k h e = omega (arith, h, e, three.entered.tree.page t (omega (arith, h)))

          level_one : three.level' one.next ≡ 3
          level_one =
              two_steps.grows one.next (omega (arith, one.entered.below)) ∙ one.entered.below

          level_two : three.level' two.next ≡ 2
          level_two =
              three.entered.extends.grows two.next (omega (arith, two.entered.below))
              ∙ two.entered.below

          IsCoherent-all : IsCoherent three.after
          IsCoherent-all = record {
            in_table = rw caches_all (offsets_in.0, offsets_in.1.0, offsets_in.1.1.0);
            pml4e = λ _. rw (all_steps.toplevel, caches_all) Leads-pml4e;
            pdpte = λ _. rw caches_all (not_null one.next 2 level_one, Leads-pdpte);
            pde = λ _. rw caches_all (not_null two.next 1 level_two, three.entered.leads);
          }

          walked : Walked level s
          walked = record {
            pde = three.next;
            after = three.after;
            level' = three.level';
            tree = three.entered.tree;
            coherent = IsCoherent-all;
            extends = all_steps;
            deep = three.entered.below;
            reaches =
                Reaches-Leads three.after.space three.next (page_offset vaddr) _ _
                  (pdpte_offset vaddr) _ (pde_offset vaddr ∷ page_offset vaddr ∷ []) Leads-pml4e
                  (Reaches-Leads three.after.space three.next (page_offset vaddr) _ _
                    (pde_offset vaddr) _ (page_offset vaddr ∷ []) Leads-pdpte
                    (Reaches-Leads three.after.space three.next (page_offset vaddr) _ _
                      (page_offset vaddr) _ [] three.entered.leads (refl, refl)));
            returns = λ paddr plain.
                unfold map_page in ground (arith, plain, one.returns, two.returns, three.returns);
          }

    ran_out_lem :
        {n : ℕ} {level' : ℕ → ℕ} (after : Paging)
        → n ≤ 3
        → IsTree level' after.space
        → Extends n level s.space level' after.space
        → Full vaddr flags not_huge after
        → ((paddr : ℕ) → has_bit 12 flags ≡ false → map_page vaddr paddr flags s ≡ (1, after))
        → RanOut level s
    ran_out_lem {level'} after few is_tree ext full returns = record {
      after = after;
      level' = level';
      tree = is_tree;
      extends = Extends-trans 3 (omega arith) (Extends-refl level s.space) ext;
      full = full;
      returns = returns;
    }

    pub walk_lem : Walked level s ⊎ RanOut level s
    unfolding map_page
    walk_lem = elim (pml4e_step_lem vaddr flags not_huge level s tree coherent fault_first) [
      | inr (full, e) ↦ inr (
          ran_out_lem s (omega arith) tree (Extends-refl level s.space) full
            (λ paddr plain. ground (arith, e)))
      | inl one ↦ elim (second_lem one) [
        | inr (full, e) ↦ inr (
            ran_out_lem one.after (omega arith) one.entered.tree one.entered.extends full
              (λ paddr plain. ground (arith, plain, one.returns, e)))
        | inl two ↦ elim (third_lem one two) [
          | inr (full, e) ↦ inr (
              ran_out_lem two.after (omega arith) two.entered.tree
                (Extends-trans 2 (omega arith) one.entered.extends two.entered.extends) full
                (λ paddr plain. ground (arith, plain, one.returns, two.returns, e)))
          | inl three ↦ inl (walked one two three)
        ]
      ]
    ]

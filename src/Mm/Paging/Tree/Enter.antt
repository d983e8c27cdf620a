-- ===== src/Mm/Paging/Tree/Enter.antt =====
-- Installing an empty table changes no translation, and enter_table by its three outcomes.
use modos.Base.{
  ℕ, suc, ◌+◌, ◌≤◌, ◌<◌, ◌≡◌, ◌≢◌, ◌⊎◌, inl, inr, false, none, some, List, [], ◌∷◌, length, arith,
  has_bit, clear12, ◌&&◌, refl, ◌∙◌, sym, ap, Bool-cases, ◌==◌,
}
use modos.Mm.Layout.{ptable_len, page_size, hhdm_size}
use modos.Mm.Pm.{Pm, alloc_pages}
use modos.Mm.Paging.{Space, walk_table, enter_table}
use modos.Mm.Paging.Tree.{IsTree, entry, Leads}
use modos.Mm.Paging.Tree.Slots.{
  present-new_table_entry, size-new_table_entry, clear12-new_table_entry,
}
use modos.Mm.Paging.Tree.Install.{
  installed, Leads-installed, entry-installed_ne, entry-installed_blank,
}
use modos.Mm.Paging.Tree.Translate.{
  descend, InTable, descend-Leads, descend-blank, descend-absent, descend-same, descend-same_leaf,
}
use mathlib.Core.Path.{subst₂}

alloc_one :
    (pm : Pm)
    → pm.arena_head + page_size ≤ pm.arena_end
    → pm.arena_end ≤ hhdm_size
    → alloc_pages 1 pm ≡ (pm.arena_head, record pm { arena_head = pm.arena_head + page_size })
unfolding alloc_pages
alloc_one pm room below = ground arith

alloc_one_full :
    (pm : Pm)
    → pm.arena_end < pm.arena_head + page_size
    → pm.arena_head ≤ pm.arena_end
    → pm.arena_end ≤ hhdm_size
    → alloc_pages 1 pm ≡ (0, pm)
unfolding alloc_pages
alloc_one_full pm full ok below = ground arith

module _ (level : ℕ → ℕ) (s : Space) (tree : IsTree level s) (t i flags k : ℕ)
    (deep : level t ≡ suc (suc k)) (in_table : i < ptable_len)
    (not_huge : has_bit 7 flags ≡ false) where
  -- An entry that leads to a table is entered as it is.
  pub enter-valid : {t' : ℕ} → Leads s t i t' → enter_table t i flags s ≡ (some t', s)
  unfolding enter_table walk_table
  enter-valid (v, e) = rw (← e) (ground arith)

  -- Where no page is left nothing changes.
  pub enter-full :
      has_bit 0 (entry s t i) ≡ false
      → s.pm.arena_end < s.pm.arena_head + page_size
      → enter_table t i flags s ≡ (none, s)
  unfolding enter_table walk_table
  enter-full absent full = ground (arith, alloc_one_full s.pm full tree.head_le tree.end_le)

  module _ (room : s.pm.arena_head + page_size ≤ s.pm.arena_end)
      (absent : has_bit 0 (entry s t i) ≡ false) where
    pub enter-absent : enter_table t i flags s ≡ (some s.pm.arena_head, installed s t i flags)
    unfolding enter_table walk_table
    enter-absent = ground (
      arith,
      alloc_one s.pm room tree.end_le,
      tree.head_pos,
      present-new_table_entry s.pm.arena_head flags tree.head_aligned,
      size-new_table_entry s.pm.arena_head flags tree.head_aligned,
      clear12-new_table_entry s.pm.arena_head flags tree.head_aligned,
    )

    other :
        (x a : ℕ)
        → 0 < level x
        → a < ptable_len
        → (t ≢ x) ⊎ (i ≢ a)
        → entry (installed s t i flags) x a ≡ entry s x a
    other x a h ha ne =
        let below = tree.page x h in
        entry-installed_ne level s tree t i flags k deep in_table not_huge room x a below.0
          (omega (arith, tree.end_le, tree.head_le)) ha ne

    -- Below the new entry a walk faults, as it did when the entry was not present.
    at_entry :
        {x a : ℕ} (b : ℕ) (path : List ℕ)
        → InTable (b ∷ path)
        → t ≡ x
        → i ≡ a
        → descend (installed s t i flags) x (a ∷ b ∷ path) ≡ descend s x (a ∷ b ∷ path)
    at_entry b path p et ei =
        subst₂
          (λ x a. descend (installed s t i flags) x (a ∷ b ∷ path) ≡ descend s x (a ∷ b ∷ path)) et
          ei
          (descend-Leads (installed s t i flags) t i b path
              (Leads-installed level s tree t i flags k deep in_table not_huge room)
            ∙ descend-blank (installed s t i flags) s.pm.arena_head b path
                (entry-installed_blank level s tree t i flags k deep in_table not_huge room b p.0)
            ∙ sym (descend-absent s t i (b ∷ path) absent))

    pub descend-installed :
        (x : ℕ) (path : List ℕ)
        → level x ≡ length path
        → InTable path
        → descend (installed s t i flags) x path ≡ descend s x path
    descend-installed x [] h p = unfold descend in refl
    descend-installed x (a ∷ []) h p =
        descend-same_leaf s (installed s t i flags) x a
          (other x a (omega (arith, h)) p.0 (inl λ e. omega (arith, e, h, deep, ap level e)))
    descend-installed x (a ∷ b ∷ path) h p = elim (Bool-cases (t == x && i == a)) [
      | inl e ↦ at_entry b path p.1 (ground arith) (ground arith)
      | inr e ↦
          descend-same s (installed s t i flags) x a b path
            (other x a (omega (arith, h)) p.0 (ground (arith, e)))
            (λ v.
              descend-installed (clear12 (entry s x a)) (b ∷ path)
                (omega (arith, h, tree.child x a (omega (arith, h)) p.0 v)) p.1)
    ]

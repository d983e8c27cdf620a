-- ===== src/Mm/Paging/Tree/Install.antt =====
-- Putting a fresh table into an entry keeps the shape of the page tables.
use modos.Base.{
  ℕ, suc, ◌+◌, ◌%◌, ◌≤◌, ◌<◌, ◌≡◌, ◌≢◌, ◌⊎◌, inl, inr, true, false, arith, clear12, has_bit, write,
  Bool-cases, write_self, write_ne, ==_iff, ◌==◌, ◌&&◌, sym, ◌∙◌, ap,
}
use mathlib.Core.Path.{subst}
use modos.Mm.Layout.{p2v, page_size, ptable_len, hhdm_size, check_valid_table}
use modos.Mm.Paging.{Space, slot, new_table_entry}
use modos.Mm.Paging.Tree.{IsTree, entry, Leads}
use modos.Mm.Paging.Tree.Slots.{
  slot_ne, clear12-new_table_entry, present-new_table_entry, size-new_table_entry,
}

-- The state after walk_table has put a new table into entry `i` of `t`.
abbrev pub installed : Space → ℕ → ℕ → ℕ → Space
installed s t i flags = record s {
  mem = write s.mem (slot (p2v t) i) (new_table_entry s.pm.arena_head flags);
  pm = record s.pm { arena_head = s.pm.arena_head + page_size };
}

module _ (level : ℕ → ℕ) (s : Space) (tree : IsTree level s) (t i flags k : ℕ)
    (deep : level t ≡ suc (suc k)) (in_table : i < ptable_len) (not_huge : has_bit 7 flags ≡ false)
    (room : s.pm.arena_head + page_size ≤ s.pm.arena_end) where
  abbrev pub fresh_page : ℕ
  fresh_page = s.pm.arena_head

  abbrev pub new_level : ℕ → ℕ
  new_level = write level fresh_page (suc k)

  abbrev pub s' : Space
  s' = installed s t i flags

  fresh_is_new : (x : ℕ) → 0 < level x → x ≢ fresh_page
  fresh_is_new x h e = omega (arith, tree.page x h)

  pub new_level_old : (x : ℕ) → 0 < level x → new_level x ≡ level x
  new_level_old x h = write_ne level fresh_page (suc k) x (λ e. fresh_is_new x h (sym e))

  valid-new : check_valid_table (new_table_entry fresh_page flags) ≡ true
  valid-new = rw (
    present-new_table_entry fresh_page flags tree.head_aligned,
    size-new_table_entry fresh_page flags tree.head_aligned,
    not_huge,
  )

  pub entry-installed_self : entry s' t i ≡ new_table_entry fresh_page flags
  entry-installed_self = write_self s.mem (slot (p2v t) i) (new_table_entry fresh_page flags)

  pub Leads-installed : Leads s' t i fresh_page
  Leads-installed = (
    rw entry-installed_self valid-new,
    rw entry-installed_self (clear12-new_table_entry fresh_page flags tree.head_aligned),
  )

  pub entry-installed_ne :
      (x j : ℕ)
      → x % page_size ≡ 0
      → x < hhdm_size
      → j < ptable_len
      → (t ≢ x) ⊎ (i ≢ j)
      → entry s' x j ≡ entry s x j
  entry-installed_ne x j ax lx hj ne =
      let table : 0 < level t = omega (arith, deep) in
      let below = tree.page t table in
      write_ne s.mem (slot (p2v t) i) _ (slot (p2v x) j)
        (slot_ne t i x j below.0 ax (omega (arith, tree.end_le, tree.head_le)) lx in_table hj ne)

  -- An entry of a table after the installation: the new one, one of the new table, which are all
  -- zero, or one that was there before.
  data Place (x j : ℕ) : Type 0 where
    at : t ≡ x → i ≡ j → Place x j
    blank : entry s' x j ≡ 0 → Place x j
    old : 1 < level x → new_level x ≡ level x → entry s' x j ≡ entry s x j → Place x j

  old_place : (x j : ℕ) → 1 < level x → j < ptable_len → (t ≢ x) ⊎ (i ≢ j) → Place x j
  old_place x j h hj ne =
      let below = tree.page x (omega arith) in
      old h (new_level_old x (omega arith))
        (entry-installed_ne x j below.0 (omega (arith, tree.end_le, tree.head_le)) hj ne)

  pub entry-installed_blank : (j : ℕ) → j < ptable_len → entry s' fresh_page j ≡ 0
  entry-installed_blank j hj =
      let ne : t ≢ fresh_page = fresh_is_new t (omega (arith, deep)) in
      entry-installed_ne fresh_page j tree.head_aligned (omega (arith, tree.end_le, room)) hj
        (inl ne)
      ∙ tree.fresh fresh_page j tree.head_aligned (omega arith) room hj

  blank_place : (j : ℕ) → j < ptable_len → Place fresh_page j
  blank_place j hj = blank (entry-installed_blank j hj)

  place : (x j : ℕ) → 1 < new_level x → j < ptable_len → Place x j
  place x j h hj = elim (Bool-cases (fresh_page == x)) [
    | inl e ↦ subst (λ y. Place y j) ((==_iff fresh_page x).0 e) (blank_place j hj)
    | inr e ↦ old_or_at (rw e at h)
  ]
    where
      old_or_at : 1 < level x → Place x j
      old_or_at deeper = elim (Bool-cases (t == x && i == j)) [
        | inl e ↦ at (ground arith) (ground arith)
        | inr e ↦ old_place x j deeper hj (ground arith)
      ]

  not_valid_blank : (e : ℕ) → e ≡ 0 → check_valid_table e ≢ true
  not_valid_blank e z v = ground arith

  child_level :
      (x j : ℕ)
      → Place x j
      → check_valid_table (entry s' x j) ≡ true
      → j < ptable_len
      → suc (new_level (clear12 (entry s' x j))) ≡ new_level x
  child_level x j (at et ei) v hj =
      subst (λ y. suc (new_level (clear12 (entry s' y j))) ≡ new_level y) et
        (subst (λ z. suc (new_level (clear12 (entry s' t z))) ≡ new_level t) ei
          (rw (
            Leads-installed.1,
            write_self level fresh_page (suc k),
            new_level_old t (omega (arith, deep)),
            deep,
          )))
  child_level x j (blank z) v hj = absurd (not_valid_blank _ z v)
  child_level x j (old deeper same e) v hj =
      let before = tree.child x j deeper hj (rw e at v) in
      rw (e, same, new_level_old (clear12 (entry s x j)) (omega (arith, before))) before

  fresh-ne-child :
      (x j : ℕ)
      → 1 < level x
      → j < ptable_len
      → check_valid_table (entry s x j) ≡ true
      → clear12 (entry s x j) ≢ fresh_page
  fresh-ne-child x j deeper hj v = fresh_is_new _ (omega (arith, tree.child x j deeper hj v))

  at_child : (x j : ℕ) → t ≡ x → i ≡ j → clear12 (entry s' x j) ≡ fresh_page
  at_child x j et ei =
      subst (λ y. clear12 (entry s' y j) ≡ fresh_page) et
        (subst (λ z. clear12 (entry s' t z) ≡ fresh_page) ei Leads-installed.1)

  same_parent :
      (x j y l : ℕ)
      → Place x j
      → Place y l
      → j < ptable_len
      → l < ptable_len
      → check_valid_table (entry s' x j) ≡ true
      → check_valid_table (entry s' y l) ≡ true
      → clear12 (entry s' x j) ≡ clear12 (entry s' y l)
      → (x ≡ y) × (j ≡ l)
  same_parent x j y l (blank z) q hj hl v w e = absurd (not_valid_blank _ z v)
  same_parent x j y l (at et ei) (blank z) hj hl v w e = absurd (not_valid_blank _ z w)
  same_parent x j y l (old deeper same f) (blank z) hj hl v w e = absurd (not_valid_blank _ z w)
  same_parent x j y l (at et ei) (at eu ej) hj hl v w e = (sym et ∙ eu, sym ei ∙ ej)
  same_parent x j y l (at et ei) (old deeper same f) hj hl v w e = absurd (
      fresh-ne-child y l deeper hl (rw f at w)
        (ap (λ m. clear12 m) (sym f) ∙ sym e ∙ at_child x j et ei))
  same_parent x j y l (old deeper same f) (at et ei) hj hl v w e = absurd (
      fresh-ne-child x j deeper hj (rw f at v)
        (ap (λ m. clear12 m) (sym f) ∙ e ∙ at_child y l et ei))
  same_parent x j y l (old dx sx ex) (old dy sy ey) hj hl v w e =
      tree.unique x j y l dx dy hj hl (rw ex at v) (rw ey at w)
        ((sym (ap (λ m. clear12 m) ex)) ∙ e ∙ ap (λ m. clear12 m) ey)

  installed_page :
      (x : ℕ) → 0 < new_level x → (x % page_size ≡ 0) × (0 < x) × (x + page_size ≤ s'.pm.arena_head)
  installed_page x h = elim (Bool-cases (fresh_page == x)) [
    | inl e ↦
        let same = (==_iff fresh_page x).0 e in omega (arith, tree.head_aligned, tree.head_pos)
    | inr e ↦ omega (arith, tree.page x (rw e at h))
  ]

  installed_fresh :
      (x j : ℕ)
      → x % page_size ≡ 0
      → s'.pm.arena_head ≤ x
      → x + page_size ≤ s'.pm.arena_end
      → j < ptable_len
      → entry s' x j ≡ 0
  installed_fresh x j ax above below hj =
      let ne : t ≢ x = λ e. omega (arith, e, tree.page t (omega (arith, deep))) in
      entry-installed_ne x j ax (omega (arith, tree.end_le)) hj (inl ne)
      ∙ tree.fresh x j ax (omega arith) below hj

  pub installed-IsTree : IsTree new_level s'
  installed-IsTree = record {
    top = new_level_old s.toplevel (omega (arith, tree.top)) ∙ tree.top;
    head_aligned = omega (arith, tree.head_aligned);
    head_pos = omega arith;
    end_le = tree.end_le;
    head_le = room;
    page = installed_page;
    child = λ x j deeper hj v. child_level x j (place x j deeper hj) v hj;
    unique = λ x j y l dx dy hj hl v w e.
        same_parent x j y l (place x j dx hj) (place y l dy hl) hj hl v w e;
    fresh = installed_fresh;
  }

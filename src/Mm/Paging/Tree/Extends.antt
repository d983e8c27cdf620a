-- ===== src/Mm/Paging/Tree/Extends.antt =====
-- What enter_table may change: it adds tables below entries that were not present, and takes at
-- most one page.
use mathlib.Core.Path.{subst₂}
use native.Mathlib.Decide.{dec_le}
use modos.Base.{
  ℕ, suc, ◌+◌, ◌*◌, ◌≤◌, ◌<◌, ◌≡◌, ◌≢◌, ◌⊎◌, inl, inr, true, false, none, some, List, length, arith,
  has_bit, clear12, refl, ◌∙◌, ◌==◌, ==_iff, Bool-cases,
}
use modos.Mm.Layout.{ptable_len, page_size, check_valid_table}
use modos.Mm.Paging.{Space, enter_table}
use modos.Mm.Paging.Tree.{IsTree, entry, Leads}
use modos.Mm.Paging.Tree.Install.{
  installed, new_level, new_level_old, Leads-installed, entry-installed_ne, installed-IsTree,
}
use modos.Mm.Paging.Tree.Translate.{descend, InTable}
use modos.Mm.Paging.Tree.Enter.{enter-valid, enter-full, enter-absent, descend-installed}

-- `s'` has all the tables of `s` and translates as `s` does, and has taken at most `n` pages.
pub record Extends (n : ℕ) (level : ℕ → ℕ) (s : Space) (level' : ℕ → ℕ) (s' : Space) : Type 0 where
  pub toplevel : s'.toplevel ≡ s.toplevel
  pub arena_end : s'.pm.arena_end ≡ s.pm.arena_end
  pub used : s'.pm.arena_head ≤ s.pm.arena_head + n * page_size
  pub grows : (x : ℕ) → 0 < level x → level' x ≡ level x
  pub keeps : (x j y : ℕ) → 1 < level x → j < ptable_len → Leads s x j y → Leads s' x j y
  pub walks :
      (x : ℕ) (path : List ℕ)
      → 0 < level x
      → level x ≡ length path
      → InTable path
      → descend s' x path ≡ descend s x path

pub Extends-refl : (level : ℕ → ℕ) (s : Space) → Extends 0 level s level s
Extends-refl level s = record {
  toplevel = refl;
  arena_end = refl;
  used = omega arith;
  grows = λ x h. refl;
  keeps = λ x j y h hj l. l;
  walks = λ x path h e p. refl;
}

pub Extends-trans :
    {n m : ℕ} (k : ℕ) {level level' level'' : ℕ → ℕ} {s s' s'' : Space}
    → n + m ≤ k
    → Extends n level s level' s'
    → Extends m level' s' level'' s''
    → Extends k level s level'' s''
Extends-trans {n} {m} k {level} fits e f = record {
  toplevel = f.toplevel ∙ e.toplevel;
  arena_end = f.arena_end ∙ e.arena_end;
  used = omega (arith, e.used, f.used);
  grows = λ x h. f.grows x (rw (e.grows x h) h) ∙ e.grows x h;
  keeps = λ x j y h hj l. f.keeps x j y (rw (e.grows x (omega arith)) h) hj (e.keeps x j y h hj l);
  walks = λ x path h l p.
      f.walks x path (rw (e.grows x h) h) (e.grows x h ∙ l) p ∙ e.walks x path h l p;
}

-- `t'` is the table that entry `i` of `t` leads to in `s'`.
pub record Entered (level : ℕ → ℕ) (s : Space) (t i k t' : ℕ) (level' : ℕ → ℕ) (s' : Space)
    : Type 0 where
  pub tree : IsTree level' s'
  pub leads : Leads s' t i t'
  pub below : level' t' ≡ suc k
  pub extends : Extends 1 level s level' s'

-- An entry that is not present with the size bit.
abbrev pub NotLarge : ℕ → Type 0
NotLarge e = (check_valid_table e ≡ true) ⊎ (has_bit 0 e ≡ false)

module _ (level : ℕ → ℕ) (s : Space) (tree : IsTree level s) (t i flags k : ℕ)
    (deep : level t ≡ suc (suc k)) (in_table : i < ptable_len)
    (not_huge : has_bit 7 flags ≡ false) where
  valid_ne_absent :
      {x j : ℕ}
      → t ≡ x
      → i ≡ j
      → has_bit 0 (entry s t i) ≡ false
      → check_valid_table (entry s x j) ≢ true
  valid_ne_absent et ei absent v =
      let same = subst₂ (λ x j. has_bit 0 (entry s x j) ≡ false) et ei absent in
      ground (arith, same)

  Entered-valid :
      check_valid_table (entry s t i) ≡ true → Entered level s t i k (clear12 (entry s t i)) level s
  Entered-valid v = record {
    tree = tree;
    leads = (v, refl);
    below = omega (arith, tree.child t i (omega (arith, deep)) in_table v, deep);
    extends = Extends-trans 1 (omega arith) (Extends-refl level s) (Extends-refl level s);
  }

  module _ (room : s.pm.arena_head + page_size ≤ s.pm.arena_end)
      (absent : has_bit 0 (entry s t i) ≡ false) where
    abbrev level' : ℕ → ℕ
    level' = new_level level s tree t i flags k deep in_table not_huge room

    keeps-installed :
        (x j y : ℕ)
        → 1 < level x
        → j < ptable_len
        → Leads s x j y
        → Leads (installed s t i flags) x j y
    keeps-installed x j y h hj l =
        let below = tree.page x (omega arith) in
        let ne : (t ≢ x) ⊎ (i ≢ j) = elim (Bool-cases (t == x)) [
          | inl e ↦ inr (λ ei. valid_ne_absent ((==_iff t x).0 e) ei absent l.0)
          | inr e ↦ inl (λ et. absurd (ground arith))
        ] in
        rw
          (entry-installed_ne level s tree t i flags k deep in_table not_huge room x j below.0
            (omega (arith, tree.end_le, tree.head_le)) hj ne)
          l

    Entered-installed : Entered level s t i k s.pm.arena_head level' (installed s t i flags)
    Entered-installed = record {
      tree = installed-IsTree level s tree t i flags k deep in_table not_huge room;
      leads = Leads-installed level s tree t i flags k deep in_table not_huge room;
      below = ground arith;
      extends = record {
        toplevel = refl;
        arena_end = refl;
        used = omega arith;
        grows = λ x h. new_level_old level s tree t i flags k deep in_table not_huge room x h;
        keeps = keeps-installed;
        walks = λ x path h e p.
            descend-installed level s tree t i flags k deep in_table not_huge room absent x path e
              p;
      };
    }

  -- enter_table goes down through an entry that is not a large page, with a new table where there
  -- was none; it fails, and changes nothing, only when no page is left.
  pub enter_lem :
      NotLarge (entry s t i)
      → ((t' : ℕ) × (level' : ℕ → ℕ) × (s' : Space) × (enter_table t i flags s ≡ (some t', s'))
          × Entered level s t i k t' level' s')
        ⊎ ((s.pm.arena_end < s.pm.arena_head + page_size) × (enter_table t i flags s ≡ (none, s)))
  enter_lem (inl v) = inl (
    clear12 (entry s t i),
    level,
    s,
    enter-valid level s tree t i flags k deep in_table not_huge (v, refl),
    Entered-valid v,
  )
  enter_lem (inr absent) = elim (dec_le (s.pm.arena_head + page_size) s.pm.arena_end) [
    | yes room ↦ inl (
      s.pm.arena_head,
      level' room absent,
      installed s t i flags,
      enter-absent level s tree t i flags k deep in_table not_huge room absent,
      Entered-installed room absent,
    )
    | no full ↦ inr (
      omega arith,
      enter-full level s tree t i flags k deep in_table not_huge absent (omega arith),
    )
  ]

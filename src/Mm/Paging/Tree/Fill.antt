-- ===== src/Mm/Paging/Tree/Fill.antt =====
-- Filling an entry of a table of the last level: the tables stay as they are, and the only walk
-- that changes is the one that comes to the entry.
use modos.Base.{
  ℕ, suc, ◌%◌, ◌<◌, ◌≡◌, ◌≢◌, ◌⊎◌, inl, inr, true, false, some, List, [], ◌∷◌, length, arith,
  has_bit, low12, clear12, bit_or, bit_or_bit, sym, ◌∙◌, Bool-cases, ◌==◌, ◌&&◌, ==_iff, ap, write,
  write_self, write_ne,
}
use modos.Mm.Layout.{ptable_len, page_size, hhdm_size, check_valid_table, p2v, pg_present}
use modos.Mm.Paging.{Space, slot, fill_entry}
use modos.Mm.Paging.Tree.{IsTree, entry, Leads}
use modos.Mm.Paging.Tree.Slots.{slot_ne}
use modos.Mm.Paging.Tree.Translate.{descend, InTable, descend-same, descend-same_leaf}
use modos.Mm.Paging.Tree.Reaches.{Reaches}

abbrev pub leaf_entry : ℕ → ℕ → ℕ
leaf_entry paddr flags = bit_or (bit_or paddr (low12 flags)) pg_present

abbrev pub filled : Space → ℕ → ℕ → ℕ → Space
filled s pt i e = record s { mem = write s.mem (slot (p2v pt) i) e }

pub present-leaf_entry : (paddr flags : ℕ) → has_bit 0 (leaf_entry paddr flags) ≡ true
present-leaf_entry paddr flags =
    (==_iff _ 1).1 (omega (arith, bit_or_bit 0 (bit_or paddr (low12 flags)) 1))

module _ (level : ℕ → ℕ) (s : Space) (tree : IsTree level s) (pt i : ℕ) (last : level pt ≡ 1)
    (in_table : i < ptable_len) where
  pub fill_entry-absent :
      (paddr flags : ℕ)
      → has_bit 0 (entry s pt i) ≡ false
      → fill_entry (p2v pt) i paddr flags s ≡ (0, filled s pt i (leaf_entry paddr flags))
  unfolding fill_entry
  fill_entry-absent paddr flags absent = rw absent

  module _ (e : ℕ) where
    entry-filled_ne :
        (x j : ℕ)
        → x % page_size ≡ 0
        → x < hhdm_size
        → j < ptable_len
        → (pt ≢ x) ⊎ (i ≢ j)
        → entry (filled s pt i e) x j ≡ entry s x j
    entry-filled_ne x j ax lx hj ne =
        let below = tree.page pt (omega (arith, last)) in
        write_ne s.mem (slot (p2v pt) i) e (slot (p2v x) j)
          (slot_ne pt i x j below.0 ax (omega (arith, tree.end_le, tree.head_le)) lx in_table hj ne)

    table-filled :
        (x j : ℕ) → 1 < level x → j < ptable_len → entry (filled s pt i e) x j ≡ entry s x j
    table-filled x j h hj =
        let below = tree.page x (omega arith) in
        entry-filled_ne x j below.0 (omega (arith, tree.end_le, tree.head_le)) hj
          (inl (λ same. omega (arith, last, ap level same)))

    pub Leads-filled :
        (x j y : ℕ) → 1 < level x → j < ptable_len → Leads s x j y → Leads (filled s pt i e) x j y
    Leads-filled x j y h hj l = rw (table-filled x j h hj) l

    pub filled-IsTree : IsTree level (filled s pt i e)
    filled-IsTree = record {
      top = tree.top;
      head_aligned = tree.head_aligned;
      head_pos = tree.head_pos;
      end_le = tree.end_le;
      head_le = tree.head_le;
      page = tree.page;
      child = λ x j h hj v.
          let same = table-filled x j h hj in
          ap (λ m. suc (level (clear12 m))) same ∙ tree.child x j h hj (rw same at v);
      unique = λ x j y l hx hy hj hl v w c.
          let same = table-filled x j hx hj in
          let same' = table-filled y l hy hl in
          tree.unique x j y l hx hy hj hl (rw same at v) (rw same' at w)
            (sym (ap (λ m. clear12 m) same) ∙ c ∙ ap (λ m. clear12 m) same');
      fresh = λ x j ax above below hj.
          entry-filled_ne x j ax (omega (arith, tree.end_le)) hj
            (inl (λ same. omega (arith, same, tree.page pt (omega (arith, last)))))
          ∙ tree.fresh x j ax above below hj;
    }

    pub descend-filled_self : has_bit 0 e ≡ true → descend (filled s pt i e) pt (i ∷ []) ≡ some e
    unfolding descend
    descend-filled_self present = rw (write_self s.mem (slot (p2v pt) i) e, present)

    pub descend-filled :
        (x : ℕ) (path : List ℕ)
        → 0 < level x
        → level x ≡ length path
        → InTable path
        → Reaches s x path pt i ⊎ (descend (filled s pt i e) x path ≡ descend s x path)
    descend-filled x [] h hx p = absurd (omega (arith, h, hx))
    descend-filled x (a ∷ []) h hx p = elim (Bool-cases (pt == x && i == a)) [
      | inl same ↦ inl (ground arith)
      | inr differ ↦
          let below = tree.page x h in
          inr (
            descend-same_leaf s (filled s pt i e) x a (
              entry-filled_ne x a below.0 (omega (arith, tree.end_le, tree.head_le)) p.0
                (ground (arith, differ))))
    ]
    descend-filled x (a ∷ b ∷ path) h hx p = elim (Bool-cases (check_valid_table (entry s x a))) [
      | inr leaf ↦ inr (descend-same s (filled s pt i e) x a b path same (λ v. absurd (cc)))
      | inl v ↦
          elim (descend-filled (clear12 (entry s x a)) (b ∷ path) (omega (arith, hx, child v))
            (omega (arith, hx, child v)) p.1) [
              | inl r ↦ inl (v, r)
              | inr e ↦ inr (descend-same s (filled s pt i _) x a b path same (λ _. e))
            ]
    ]
      where
        same : entry (filled s pt i e) x a ≡ entry s x a
        same = table-filled x a (omega (arith, hx)) p.0

        child :
            check_valid_table (entry s x a) ≡ true → suc (level (clear12 (entry s x a))) ≡ level x
        child v = tree.child x a (omega (arith, hx)) p.0 v

    pub Reaches-filled :
        (x : ℕ) (path : List ℕ)
        → level x ≡ length path
        → InTable path
        → Reaches s x path pt i
        → Reaches (filled s pt i e) x path pt i
    Reaches-filled x [] hx p r = r
    Reaches-filled x (a ∷ []) hx p r = r
    Reaches-filled x (a ∷ b ∷ path) hx p r =
        let same = table-filled x a (omega (arith, hx)) p.0 in
        let child = tree.child x a (omega (arith, hx)) p.0 r.0 in
        rw same (
          r.0,
          Reaches-filled (clear12 (entry s x a)) (b ∷ path) (omega (arith, hx, child)) p.1 r.1,
        )

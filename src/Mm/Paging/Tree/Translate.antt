-- ===== src/Mm/Paging/Tree/Translate.antt =====
-- The translation that the processor makes of an address, by the four levels of tables. It is
-- described by the architecture, apart from the code that fills the tables.
use modos.Base.{
  ℕ, ◌<◌, ◌≡◌, ◌⊎◌, inl, inr, true, false, Option, none, some, List, [], ◌∷◌, All, arith, has_bit,
  clear12, if◌then◌else◌, Bool-cases,
}
use modos.Mm.Layout.{
  ptable_len, check_valid_table, pml4e_offset, pdpte_offset, pde_offset, page_offset,
}
use modos.Mm.Paging.{Space}
use modos.Mm.Paging.Tree.{entry, Leads}

-- The entry that a walk by the offsets `path` from table `t` ends at: one of the last level, or a
-- present entry with the size bit, which maps a large page. None is a fault.
unfoldable pub descend : Space → ℕ → List ℕ → Option ℕ
descend s t [] = none
descend s t (i ∷ []) = let e = entry s t i in if has_bit 0 e then some e else none
descend s t (i ∷ j ∷ path) =
    let e = entry s t i in
    let deeper = descend s (clear12 e) (j ∷ path) in
    if has_bit 0 e then (if has_bit 7 e then some e else deeper) else none

abbrev pub path_of : ℕ → List ℕ
path_of v = pml4e_offset v ∷ pdpte_offset v ∷ pde_offset v ∷ page_offset v ∷ []

unfoldable pub translate : Space → ℕ → Option ℕ
translate s v = descend s s.toplevel (path_of v)

abbrev pub InTable : List ℕ → Type 0
InTable path = All (λ i. i < ptable_len) path

-- A step down through a valid entry.
pub descend-Leads :
    (s : Space) (t i j : ℕ) (path : List ℕ) {t' : ℕ}
    → Leads s t i t'
    → descend s t (i ∷ j ∷ path) ≡ descend s t' (j ∷ path)
unfolding descend
descend-Leads s t i j path (v, e) = rw (← e) (ground arith)

-- In a table that is all zero every walk faults.
pub descend-blank :
    (s : Space) (t i : ℕ) (path : List ℕ) → entry s t i ≡ 0 → descend s t (i ∷ path) ≡ none
unfolding descend
descend-blank s t i [] z = rw z
descend-blank s t i (j ∷ path) z = rw z

-- An entry that is not present faults.
pub descend-absent :
    (s : Space) (t i : ℕ) (path : List ℕ)
    → has_bit 0 (entry s t i) ≡ false
    → descend s t (i ∷ path) ≡ none
unfolding descend
descend-absent s t i [] z = rw z
descend-absent s t i (j ∷ path) z = rw z

-- A walk of two or more levels that faults meets at its first table an entry that is valid or not present.
pub descend-none :
    (s : Space) (t i j : ℕ) (path : List ℕ)
    → descend s t (i ∷ j ∷ path) ≡ none
    → (check_valid_table (entry s t i) ≡ true) ⊎ (has_bit 0 (entry s t i) ≡ false)
unfolding descend
descend-none s t i j path h = ground arith

-- Two states agree below an entry that is the same in both, if they agree below its table.
pub descend-same :
    (s s' : Space) (x i j : ℕ) (path : List ℕ)
    → entry s' x i ≡ entry s x i
    → (check_valid_table (entry s x i) ≡ true
        → descend s' (clear12 (entry s x i)) (j ∷ path)
          ≡ descend s (clear12 (entry s x i)) (j ∷ path))
    → descend s' x (i ∷ j ∷ path) ≡ descend s x (i ∷ j ∷ path)
unfolding descend
descend-same s s' x i j path e below = elim (Bool-cases (check_valid_table (entry s x i))) [
  | inl v ↦ rw (e, below v)
  | inr v ↦ rw e (ground (arith, v))
]

pub descend-same_leaf :
    (s s' : Space) (x i : ℕ)
    → entry s' x i ≡ entry s x i
    → descend s' x (i ∷ []) ≡ descend s x (i ∷ [])
unfolding descend
descend-same_leaf s s' x i e = rw e

pub descend-leaf_none :
    (s : Space) (t i : ℕ) → descend s t (i ∷ []) ≡ none → has_bit 0 (entry s t i) ≡ false
unfolding descend
descend-leaf_none s t i h = ground arith

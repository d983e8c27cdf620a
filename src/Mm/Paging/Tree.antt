-- ===== src/Mm/Paging/Tree.antt =====
-- The shape of the page tables: which pages are tables of which level, and what their entries
-- lead to.
pub mod Slots
pub mod Install
pub mod Translate
pub mod Enter
pub mod Extends
pub mod Reaches
pub mod Fill
use modos.Base.{
  ℕ, zero, suc, ◌+◌, ◌*◌, ◌/◌, ◌%◌, ◌≤◌, ◌<◌, ◌≡◌, Bool, true, false, clear12, has_bit, u64, write,
  bit_or, low12,
}
use modos.Mm.Layout.{p2v, page_size, ptable_len, hhdm_size, check_valid_table}
use modos.Mm.Pm.{Pm}
use modos.Mm.Paging.{Space, slot, new_table_entry}

-- entry `i` of the table at physical address `t`
abbrev pub entry : Space → ℕ → ℕ → ℕ
entry s t i = s.mem (slot (p2v t) i)

-- Entry `i` of table `t` is valid and points to the page `t'`.
abbrev pub Leads : Space → ℕ → ℕ → ℕ → Type 0
Leads s t i t' = (check_valid_table (entry s t i) ≡ true) × (clear12 (entry s t i) ≡ t')

-- `level` says of each page whether it is a table, and of which level: 4 is the top, 1 a table of
-- pages, 0 is no table.
pub record IsTree (level : ℕ → ℕ) (s : Space) : Type 0 where
  pub top : level s.toplevel ≡ 4
  pub head_aligned : s.pm.arena_head % page_size ≡ 0
  pub head_pos : 0 < s.pm.arena_head
  pub end_le : s.pm.arena_end ≤ hhdm_size
  pub head_le : s.pm.arena_head ≤ s.pm.arena_end
  pub page :
      (t : ℕ) → 0 < level t → (t % page_size ≡ 0) × (0 < t) × (t + page_size ≤ s.pm.arena_head)
  pub child :
      (t i : ℕ)
      → 1 < level t
      → i < ptable_len
      → check_valid_table (entry s t i) ≡ true
      → suc (level (clear12 (entry s t i))) ≡ level t
  pub unique :
      (t i t' i' : ℕ)
      → 1 < level t
      → 1 < level t'
      → i < ptable_len
      → i' < ptable_len
      → check_valid_table (entry s t i) ≡ true
      → check_valid_table (entry s t' i') ≡ true
      → clear12 (entry s t i) ≡ clear12 (entry s t' i')
      → (t ≡ t') × (i ≡ i')
  pub fresh :
      (t i : ℕ)
      → t % page_size ≡ 0
      → s.pm.arena_head ≤ t
      → t + page_size ≤ s.pm.arena_end
      → i < ptable_len
      → entry s t i ≡ 0

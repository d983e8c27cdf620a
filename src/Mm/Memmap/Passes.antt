-- ===== src/Mm/Memmap/Passes.antt =====
-- kernel/mm/pm/parse_memory_map.c: the pass that counts and the pass that writes.
use modos.Base.{ℕ, ◌^◌, ◌<◌, ◌≡◌, none, some}
use modos.Mm.Memmap.{Entry, MmapRecord, Written}

-- A step that gives the same counters with and without a list.
record IsSame (f : Written → Written) (s : Written) : Type 0 where
  pub without : (f (record s { list = none })).list ≡ none
  pub with :
      (list : ℕ → Entry)
      → (list' : ℕ → Entry) × (f (record s { list = some list })
          ≡ record (f (record s { list = none })) { list = some list' })

-- A memory map without a record of size 0, which ends the loop and is written through the list.
pub record IsMap (records : ℕ → MmapRecord) : Type 0 where
  pub size_pos : (a : ℕ) → 0 < (records a).size
  pub size_lt : (a : ℕ) → (records a).size < 2 ^ 32

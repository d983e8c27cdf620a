-- ===== src/Mm/Memmap.antt =====
-- kernel/mm/pm/parse_memory_map.c and setup_pm.c: the boot loader's map of physical memory, and the
-- arena chosen from it. The records of the map are read by their addresses through the direct map.
pub mod Passes
pub mod Largest
pub mod Handed
mod Tests
use modos.Base.{
  ℕ, zero, suc, ◌+◌, ◌-◌, Bool, true, false, Option, none, some, List, [], ◌∷◌, ltb, leb, ◌==◌,
  ◌&&◌, not, if◌then◌else◌, write, u64,
}
use modos.Mm.Pm.{Pm}

-- struct memmap_entry
pub record Entry : Type 0 where
  pub addr : ℕ
  pub len : ℕ
  pub type : ℕ

-- multiboot_memory_map_t
pub record MmapRecord : Type 0 where
  pub size : ℕ
  pub addr : ℕ
  pub len : ℕ
  pub type : ℕ

-- enum memmap_flags
abbrev pub memmap_null : ℕ
memmap_null = 0

abbrev pub memmap_available : ℕ
memmap_available = 1

abbrev pub memmap_kernel : ℕ
memmap_kernel = 6

-- sizeof(struct memmap_entry)
abbrev pub entry_size : ℕ
entry_size = 24

-- The places of the kernel that the linker fixes: KERNEL_START_LOW, KERNEL_END_PHYSICAL and
-- KERNEL_SIZE.
pub record Kernel : Type 0 where
  pub start_low : ℕ
  pub end_physical : ℕ
  pub size : ℕ

-- The index, size_written, and the list; a NULL list is none.
pub record Written : Type 0 where
  pub i : ℕ
  pub size_written : ℕ
  pub list : Option (ℕ → Entry)

-- `if (list != NULL)` around a change of the list.
abbrev pub with_list : ((ℕ → Entry) → ℕ → Entry) → Option (ℕ → Entry) → Option (ℕ → Entry)
with_list f none = none
with_list f (some list) = some (f list)

-- `i++; size_written += sizeof(struct memmap_entry);`
unfoldable pub next_entry : Written → Written
next_entry s = record s { i = s.i + 1; size_written = u64 (s.size_written + entry_size) }

-- The entry of a record.
unfoldable pub put_entry : MmapRecord → Written → Written
put_entry r s = record s {
  list =
      with_list (λ list. write list s.i (record { addr = r.addr; len = r.len; type = r.type }))
        s.list;
}

-- The entry of the kernel itself, and the memory behind it.
unfoldable pub kernel_list : Kernel → ℕ → (ℕ → Entry) → ℕ → Entry
kernel_list k i list =
    let e = list i in
    let rest = record e {
      addr = k.end_physical;
      len = u64 (e.len + (0x1_0000_0000_0000_0000 - k.size));
    } in
    let list' = if ltb k.size e.len then write list (i + 1) rest else list in
    write list' i (record { addr = k.start_low; len = k.size; type = memmap_kernel })

unfoldable pub put_kernel : Kernel → Written → Written
put_kernel k s = next_entry (record s { list = with_list (kernel_list k s.i) s.list })

-- The part of the loop for available memory from the start of the kernel on.
unfoldable pub split_kernel : Kernel → MmapRecord → Written → Written
split_kernel k r s =
    let shorter = λ (list : ℕ → Entry). write list s.i (record (list s.i) {
      len = u64 (
          (list s.i).len
          + (0x1_0000_0000_0000_0000 - u64 (k.start_low + (0x1_0000_0000_0000_0000 - r.addr))));
    }) in
    if not (leb k.start_low r.addr && r.type == memmap_available)
    then s
    else if r.addr == k.start_low
    then put_kernel k s
    else if ltb k.end_physical (u64 (r.addr + r.len))
    then s
    else put_kernel k (next_entry (record s { list = with_list shorter s.list }))

-- The loop, with `size_read` behind it and the record at address `mmap` next. At a record of size 0
-- it writes through the list also when that is NULL.
unfoldable pub parse_from :
    (k : Kernel) (records : ℕ → MmapRecord) (mmap_len fuel size_read mmap : ℕ)
    → Written
    → Option Written
parse_from k records mmap_len zero size_read mmap s = none
parse_from k records mmap_len (suc fuel) size_read mmap s =
    let r = records mmap in
    let s' = put_entry r s in
    let rest =
      parse_from k records mmap_len fuel (u64 (size_read + r.size)) (u64 (mmap + r.size + 4))
        (next_entry (split_kernel k r s')) in
    if ltb mmap_len size_read
    then some s
    else if r.size == 0
    then elim s'.list [
      | none ↦ none
      | some list ↦
          some
            (record s' { list = some (write list s.i (record (list s.i) { type = memmap_null })) })
    ]
    else rest

-- The return value and the list; `has_map` is the flag of the boot information.
unfoldable pub parse_memmap :
    (k : Kernel) (records : ℕ → MmapRecord) (has_map : Bool) (mmap_addr mmap_len fuel : ℕ)
    → Option (ℕ → Entry)
    → Option (ℕ × Option (ℕ → Entry))
parse_memmap k records has_map mmap_addr mmap_len fuel list = elim has_map [
  | true ↦
      elim (parse_from k records mmap_len fuel 0 mmap_addr
        (record { i = 0; size_written = 0; list = list })) [
          | none ↦ none
          | some s ↦ some (s.size_written, s.list)
        ]
  | false ↦ some (0, list)
]

-- The loop of setup_pm over the entries before MEMMAP_NULL.
unfoldable pub choose_arena : List Entry → Pm → Pm
choose_arena [] pm = pm
choose_arena (e ∷ rest) pm =
    if (e.type == memmap_available)
      && ltb (u64 (pm.arena_end + (0x1_0000_0000_0000_0000 - pm.arena_begin))) e.len
    then choose_arena rest (record pm { arena_begin = e.addr; arena_end = u64 (e.addr + e.len) })
    else choose_arena rest pm

-- The globals after setup_pm, from the entries of the list.
unfoldable pub setup_arena : List Entry → Pm
setup_arena list =
    let pm = choose_arena list (record { arena_begin = 0; arena_head = 0; arena_end = 0 }) in
    record pm { arena_head = pm.arena_begin }

-- The entries of the list from `i` on before one of type MEMMAP_NULL, which is among the next
-- `fuel` entries or there is no result.
unfoldable pub entries_before : (fuel i : ℕ) → (ℕ → Entry) → Option (List Entry)
entries_before zero i list = none
entries_before (suc fuel) i list =
    let rest = entries_before fuel (i + 1) list in
    if (list i).type == memmap_null
    then some []
    else elim rest [ none ↦ none | some es ↦ some (list i ∷ es) ]

-- A panic gives none. `old` is what the stack holds where the list is put.
unfoldable pub setup_pm :
    (k : Kernel) (records : ℕ → MmapRecord) (has_map : Bool) (mmap_addr mmap_len fuel : ℕ)
    → (old : ℕ → Entry) → Option Pm
setup_pm k records has_map mmap_addr mmap_len fuel old =
    elim (parse_memmap k records has_map mmap_addr mmap_len fuel none) [
      | none ↦ none
      | some (counted, no_list) ↦
          if counted == 0
          then none
          else elim (parse_memmap k records has_map mmap_addr mmap_len fuel (some old)) [
            | none ↦ none
            | some (written, none) ↦ none
            | some (written, some list) ↦
                if written == 0 then none else elim (entries_before fuel 0 list) [
                  | none ↦ none
                  | some es ↦ some (setup_arena es)
                ]
          ]
    ]

-- ===== src/Fs/Path.antt =====
-- kernel/fs/fsutils.c and next_elem of kernel/fs/walk_path.c: the parts of a path.
pub mod Split
mod Tests
use modos.Base.{ℕ, zero, suc, ◌+◌, ◌-◌, Option, none, some, ◌==◌, if◌then◌else◌, u64}
use modos.Str.{Memory, memrchr}
use modos.Fs.{M, pure, gets, strlen, kmalloc, memcpy, store_byte, ◌>>=◌, ◌>>◌}

-- '/'
abbrev pub slash : ℕ
slash = 0x2f

-- The search leaves the last byte out; `strlen(path) - 1` wraps around.
unfoldable pub get_basename : ℕ → ℕ → M ℕ
get_basename fuel path = do
  len ← strlen fuel path
  basename ← gets (λ w. memrchr w.mem path slash (u64 (len + 0xFFFF_FFFF_FFFF_FFFF)))
  pure (if basename == 0 then path else basename)

unfoldable pub get_dirname : ℕ → ℕ → M ℕ
get_dirname fuel path = do
  basename ← get_basename fuel path
  let prebase_size = basename - path
  prebase ← kmalloc (u64 (prebase_size + 1))
  memcpy prebase path prebase_size
  store_byte (prebase + prebase_size) 0
  pure prebase

-- The loop of next_elem with `len` bytes behind it: the address behind the slash that it finds,
-- or NULL at the end of the path, and the length of the element.
unfoldable pub next_elem_from : ℕ → Memory → ℕ → ℕ → Option (ℕ × ℕ)
next_elem_from zero mem path len = none
next_elem_from (suc fuel) mem path len =
    let rest = next_elem_from fuel mem (path + 1) (len + 1) in
    if mem path == 0
    then some (0, len)
    else if mem path == slash
    then some (path + 1, len)
    else rest

unfoldable pub next_elem : ℕ → ℕ → M (ℕ × ℕ)
next_elem fuel path w = elim (next_elem_from fuel w.mem path 0) [
  | none ↦ none
  | some r ↦ some (r, w)
]

-- ===== src/Fs/Gfid.antt =====
-- kernel/fs/gfid.c: the global table of open files. Id 0 stands for no file.
pub mod Trace
use modos.Base.{ℕ, ◌+◌, none, some, ltb, if◌then◌else◌, write}
use modos.Fs.{M, gfid_max}

-- An index out of `gfids` faults.
unfoldable pub resolve_gfid : ℕ → M ℕ
resolve_gfid id w = if ltb id gfid_max then some (w.gfids id, w) else none

unfoldable pub add_file : ℕ → M ℕ
add_file file w =
    if ltb w.n_gfids gfid_max
    then some
        (w.n_gfids, record w { gfids = write w.gfids w.n_gfids file; n_gfids = w.n_gfids + 1 })
    else none

unfoldable pub remove_file : ℕ → M (Unit {0})
remove_file id w =
    if ltb id gfid_max then some (tt, record w { gfids = write w.gfids id 0 }) else none

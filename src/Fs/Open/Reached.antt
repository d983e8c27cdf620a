-- ===== src/Fs/Open/Reached.antt =====
-- kernel/fs/open.c: opening a file by its path, from the walk to the descriptor.
use modos.Base.{
  ℕ, ◌<◌, ◌≤◌, ◌≡◌, ◌≢◌, refl, arith, some, List, length, write, write_self, eq→==, ne→==,
}
use mathlib.Core.Path.{subst}
use modos.Fs.{World, Fops, Calls, current_process, gfid_max, fd_max}
use modos.Fs.Access.{load_file_lem, load_node_lem, load_fops_lem}
use modos.Fs.Walk.{walk_path}
use modos.Fs.Walk.Mount.{Nearest}
use modos.Fs.Walk.Whole.{HasCopy, Leads, Opens, file_block, copy_block, copied, walk_path-Leads}
use modos.Fs.Open.{openat, do_openat}
use modos.Fs.Open.Fd.{
  IsFileAt, KeepsFiles, IsDense, entered, entered-IsFileAt, entered-others, entered-KeepsFiles,
  entered-IsDense, do_openat-entered,
}

-- The driver of a file has no open, or its open returns 0.
pub data Accepts (calls : Calls) (f : Fops) (node file : ℕ) (w : World) : World → Type 0 where
  no_open : f.open_fn ≡ 0 → Accepts calls f node file w w
  accepted :
      (w' : World)
      → f.open_fn ≢ 0
      → calls.call_open f.open_fn node file w ≡ some (0, w')
      → Accepts calls f node file w w'

-- The state of walk_path when it returns the file of a node.
abbrev pub walked : (n path node mount : ℕ) → World → World
walked n path node mount w =
    let w1 = copied n path w in
    record w1 {
      files = write w1.files (file_block w) (record { vnode = node; mountpoint = mount });
    }

-- The string at `path` leads from `dir` to a node below a mount, whose driver accepts it.
pub record Reaches (calls : Calls) (w : World) (dir path : ℕ) (w' : World) : Type 0 where
  pub s : List ℕ
  pub node : ℕ
  pub depth : ℕ
  pub mount : ℕ
  pub copy : HasCopy w path s
  pub leads : Leads (copied (length s) path w) dir (copy_block (length s) w) (length s) (some node)
  pub nearest : Nearest (copied (length s) path w) depth node mount
  pub vnode : node ≢ 0
  pub fops : (w.nodes node).fops ≢ 0
  pub accepts :
      Accepts calls
        (w.fops_at (w.nodes node).fops)
        node
        (file_block w)
        (walked (length s) path node mount w)
        w'

openat-walked :
    (calls : Calls) (fuel dir path node mount n : ℕ) (w w' : World)
    → file_block w ≢ 0
    → node ≢ 0
    → (w.nodes node).fops ≢ 0
    → walk_path fuel dir path w ≡ some (file_block w, walked n path node mount w)
    → Accepts calls
        (w.fops_at (w.nodes node).fops)
        node
        (file_block w)
        (walked n path node mount w)
        w'
    → openat calls fuel dir path w ≡ some (file_block w, w')
unfolding openat
openat-walked calls fuel dir path node mount n w w' file given fops run (no_open none_there) =
    rw
      (
        run,
        ne→== (file_block w) 0 file,
        load_file_lem (file_block w) file (walked n path node mount w),
        write_self (copied n path w).files (file_block w)
            (record { vnode = node; mountpoint = mount }),
        load_node_lem node given (walked n path node mount w),
        load_fops_lem (w.nodes node).fops fops (walked n path node mount w),
        eq→== (w.fops_at (w.nodes node).fops).open_fn 0 none_there,
      )
      refl
openat-walked calls fuel dir path node mount n w w' file given fops run (accepted w2 there called) =
    rw
      (
        run,
        ne→== (file_block w) 0 file,
        load_file_lem (file_block w) file (walked n path node mount w),
        write_self (copied n path w).files (file_block w)
            (record { vnode = node; mountpoint = mount }),
        load_node_lem node given (walked n path node mount w),
        load_fops_lem (w.nodes node).fops fops (walked n path node mount w),
        ne→== (w.fops_at (w.nodes node).fops).open_fn 0 there,
        called,
      )
      refl

pub openat-Reaches :
    (calls : Calls) (w : World) (dir path : ℕ) (w' : World)
    → Reaches calls w dir path w'
    → (enough : ℕ) × ((fuel : ℕ)
        → enough ≤ fuel
        → openat calls fuel dir path w ≡ some (file_block w, w'))
openat-Reaches calls w dir path w' r =
    let (enough, run) =
      walk_path-Leads w dir path r.s (some r.node) (file_block w)
        (walked (length r.s) path r.node r.mount w) r.copy r.leads
        (Opens.at_node r.depth r.node r.mount r.nearest) in
    (
      enough,
      (λ fuel a.
          openat-walked calls fuel dir path r.node r.mount (length r.s) w w' r.copy.file r.vnode
            r.fops (run fuel a) r.accepts),
    )

module _ (calls : Calls) (dir path : ℕ) (w w1 : World) where
  -- When a string leads from a directory to a node below a mount, as the comparisons of walk_path decide and
  -- through no symbolic link, its driver accepts it and leaves n_fds, the descriptors below n_fds are those
  -- in use, and both tables have room: with enough fuel, do_openat returns n_fds. It was free and
  -- stands for the new file now, every other descriptor of the process that stood for a file stands
  -- for the same file, and the descriptors in use are those below the new n_fds. Files, nodes and
  -- memory are as the driver's open left them.
  pub do_openat-Reaches :
      Reaches calls w dir path w1
      → (current_process w1).n_fds ≡ (current_process w).n_fds
      → IsDense w1
      → 0 < w1.n_gfids
      → w1.n_gfids < gfid_max
      → (current_process w).n_fds < fd_max
      → (enough : ℕ) × (w2 : World) × ((fuel : ℕ)
          → enough ≤ fuel
          → do_openat calls fuel dir path w ≡ some ((current_process w).n_fds, w2))
        × ((current_process w1).fdtable (current_process w).n_fds ≡ 0)
        × IsFileAt w2 (current_process w).n_fds (file_block w)
        × ((j file' : ℕ)
            → j ≢ (current_process w).n_fds
            → IsFileAt w1 j file'
            → IsFileAt w2 j file')
        × IsDense w2
        × KeepsFiles w1 w2
  do_openat-Reaches r same dense a b c =
      let fd = (current_process w).n_fds in
      let (enough, run) = openat-Reaches calls w dir path w1 r in
      (
        enough,
        entered w1 fd (file_block w),
        (λ fuel more.
            do_openat-entered calls fuel dir path w w1 (file_block w) (run fuel more) r.copy.file a
              b c),
        dense.free fd (omega (arith, same)),
        entered-IsFileAt w1 fd (file_block w) a b,
        (λ j file' ne f. entered-others w1 fd (file_block w) j file' ne f),
        subst (λ (n : ℕ). IsDense (entered w1 n (file_block w))) same
            (entered-IsDense w1 (file_block w) a (omega (arith, same, c)) dense),
        entered-KeepsFiles w1 fd (file_block w),
      )

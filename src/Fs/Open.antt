-- ===== src/Fs/Open.antt =====
-- kernel/fs/open.c: opening a path into the tables of files, and making a directory.
pub mod Child
pub mod Fd
pub mod Reached
pub mod Sample
use modos.Base.{
  ℕ, suc, ◌+◌, ◌-◌, ◌*◌, ◌^◌, Option, none, some, ltb, ◌==◌, not, Bool, true, if◌then◌else◌, write,
  u64,
}
use modos.Fs.{
  World, M, Calls, NodeType, VfsNode, File, Process, pure, fault, gets, not_null, load_node,
  store_node, load_file, load_fops, kmalloc, current_process, store_process, node_size, child_max,
  fd_max, ◌>>=◌, ◌>>◌,
}
use modos.Fs.NodeType.{vfs_dir}
use modos.Fs.Gfid.{add_file}
use modos.Fs.Path.{get_basename}
use modos.Fs.Walk.{walk_path}

-- E_NOENT and E_EXIST of errs.h
abbrev pub e_noent : ℕ
e_noent = 5

abbrev pub e_exist : ℕ
e_exist = 6

-- A negative result, as the 64-bit value that it is extended to.
abbrev pub minus : ℕ → ℕ
minus e = 2 ^ 64 - e

-- The new directory as do_mkdirat fills it in: the fields that it does not set keep what the
-- block from kmalloc had in them.
unfoldable pub new_directory : ℕ → M ℕ
new_directory child_name = do
  new_dir ← kmalloc node_size
  children ← kmalloc (node_size * child_max)
  n ← load_node new_dir
  store_node new_dir
      (record n { children = children; n_children = 0; name = child_name; node_type = vfs_dir })
  pure new_dir

-- `parent->children[parent->n_children] = *node; parent->n_children++;`
unfoldable pub append_child : ℕ → ℕ → M (Unit {0})
append_child parent node = do
  p ← load_node parent
  n ← load_node node
  not_null p.children
  store_node (p.children + p.n_children * node_size) n
  p' ← load_node parent
  store_node parent (record p' { n_children = u64 (p'.n_children + 1) })

module _ (calls : Calls) where
  unfoldable pub openat : ℕ → ℕ → ℕ → M ℕ
  openat fuel dir path = do
    file ← walk_path fuel dir path
    if file == 0 then pure 0 else do
      f ← load_file file
      vnode ← load_node f.vnode
      fops ← load_fops vnode.fops
      if fops.open_fn == 0 then pure file else do
        ret ← calls.call_open fops.open_fn f.vnode file
        pure (if ret == 0 then file else 0)

  unfoldable pub do_openat_global : ℕ → ℕ → ℕ → M ℕ
  do_openat_global fuel dir path = do
    f ← openat fuel dir path
    if f == 0 then pure 0 else add_file f

  -- The table of descriptors has FD_MAX entries.
  unfoldable pub do_openat : ℕ → ℕ → ℕ → M ℕ
  do_openat fuel dir path = do
    new_fd ← gets (λ w. (current_process w).n_fds)
    new_gfid ← do_openat_global fuel dir path
    if new_gfid == 0
        then pure (minus 1)
        else if ltb new_fd fd_max
        then (do
          p ← gets current_process
          store_process
              (record p { fdtable = write p.fdtable new_fd new_gfid; n_fds = u64 (p.n_fds + 1) })
          pure new_fd)
        else fault

  -- The end of do_mkdirat: the driver's mkdir, and the new node behind the parent's children.
  unfoldable pub link_directory : ℕ → ℕ → M (Unit {0})
  link_directory parent new_dir = do
    f ← load_file parent
    vnode ← load_node f.vnode
    fops ← load_fops vnode.fops
    not_null fops.mkdir
    ret ← calls.call_mkdir fops.mkdir parent new_dir
    append_child f.vnode new_dir

  -- none stands for the end of the function with no return. `empty` is the address of the
  -- literal "".
  unfoldable pub do_mkdirat : ℕ → ℕ → ℕ → ℕ → M (Option ℕ)
  do_mkdirat empty fuel dir path = do
    file ← openat fuel dir path
    if not (file == 0) then pure (some (minus e_exist)) else do
      child_name ← get_basename fuel path
      if child_name == 0 then pure (some (minus e_noent)) else do
        parent ← openat fuel dir empty
        new_dir ← new_directory child_name
        link_directory parent new_dir
        pure none

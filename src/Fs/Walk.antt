-- ===== src/Fs/Walk.antt =====
-- kernel/fs/walk_path.c: from a directory and a path to an open file.
pub mod Child
pub mod Mount
pub mod Elems
pub mod Whole
mod Tests
use modos.Base.{
  ℕ, zero, suc, ◌+◌, ◌*◌, true, false, Option, none, some, ◌==◌, ◌&&◌, not, if◌then◌else◌,
}
use modos.Base.Int.{pos}
use modos.Str.{strncmp, int_eq}
use modos.Fs.{
  M, VfsNode, pure, fault, gets, not_null, load_node, load_file, store_file, strlen, kmalloc,
  memcpy, current_process, node_size, file_size, ◌>>=◌, ◌>>◌,
}
use modos.Fs.NodeType.{vfs_file, vfs_dir, vfs_sym, vfs_cdev}
use modos.Fs.Path.{next_elem, slash}

-- The loop reads the node before it tests it for NULL.
unfoldable pub get_mount : ℕ → ℕ → M ℕ
get_mount zero node = fault
get_mount (suc fuel) node = do
  n ← load_node node
  elim (not n.is_mount && not (node == 0)) [
    | true ↦ get_mount fuel n.parent
    | false ↦ if node == 0 then pure 0 else pure n.mount
  ]

-- `check_path_init` for a path that is not empty: a slash at the front leads to the root.
-- path_len keeps its value.
unfoldable pub check_path_init : ℕ → ℕ → ℕ → M (ℕ × ℕ)
check_path_init zero current_node path_begin = fault
check_path_init (suc fuel) current_node path_begin = do
  at_slash ← gets (λ w. w.mem path_begin == slash)
  root ← gets (λ w. (current_process w).root)
  elim at_slash [
    | true ↦ check_path_init fuel root (path_begin + 1)
    | false ↦ pure (current_node, path_begin)
  ]

-- The loop over the children from number `i` on: the first child whose name agrees with the
-- element in `len` bytes. A child with no name is skipped.
unfoldable pub find_child : ℕ → ℕ → ℕ → ℕ → ℕ → M (Option ℕ)
find_child zero i children path_elem len = pure none
find_child (suc left) i children path_elem len = do
  let child = children + i * node_size
  not_null children
  n ← load_node child
  found ← gets (λ w. not (n.name == 0) && int_eq (strncmp w.mem n.name path_elem len) (pos 0))
  elim found [ true ↦ pure (some child) | false ↦ find_child left (i + 1) children path_elem len ]

-- VFS_SYM: the link is walked from the parent of its node, and the rest of the path from there.
unfoldable pub follow : (ℕ → ℕ → M ℕ) → VfsNode → ℕ → M (Option ℕ)
follow walk n path_elem = do
  symresolved ← walk n.parent n.symlink
  if symresolved == 0 then pure none else do
    s ← load_file symresolved
    final ← walk s.vnode path_elem
    if final == 0 then pure none else do f ← load_file final; pure (some f.vnode)

-- The endless loop, with the walk of a symbolic link as an argument: none is a return of NULL.
-- `len` is the length of the element before path_elem once a child has been entered.
unfoldable pub walk_elems : (ℕ → ℕ → M ℕ) → ℕ → ℕ → ℕ → ℕ → M (Option ℕ)
walk_elems walk zero current_node path_elem len = fault
walk_elems walk (suc fuel) current_node path_elem len = elim (path_elem == 0) [
  | true ↦ pure (some current_node)
  | false ↦ do
    n ← load_node current_node
    elim n.node_type [
      | vfs_dir ↦ do
        child ← find_child n.n_children 0 n.children path_elem len
        elim child [
          | none ↦ pure none
          | some next ↦ do
            (path_elem', len') ← next_elem fuel path_elem
            walk_elems walk fuel next path_elem' len'
        ]
      | vfs_cdev ↦ pure none
      | vfs_file ↦ pure none
      | vfs_sym ↦ follow walk n path_elem
    ]
]

-- From the copy of the path on to the label `found`.
unfoldable pub resolve : (ℕ → ℕ → M ℕ) → ℕ → ℕ → ℕ → ℕ → M (Option ℕ)
resolve walk fuel dir path_begin path_len = elim (path_len == 0) [
  | true ↦ pure (some dir)
  | false ↦ do
    (current_node, path_elem) ← check_path_init fuel dir path_begin
    (next, len) ← next_elem fuel path_elem
    walk_elems walk fuel current_node path_elem len
]

-- NULL is 0. The copy of the path gets no NUL byte.
unfoldable pub walk_path : ℕ → ℕ → ℕ → M ℕ
walk_path zero dir path = fault
walk_path (suc fuel) dir path = do
  f ← kmalloc file_size
  n ← strlen fuel path
  path_begin ← kmalloc n
  memcpy path_begin path n
  path_len ← strlen fuel path_begin
  node ← resolve (walk_path fuel) fuel dir path_begin path_len
  elim node [
    | none ↦ pure 0
    | some current_node ↦ do
      mount ← get_mount fuel current_node
      store_file f (record { vnode = current_node; mountpoint = mount })
      pure f
  ]

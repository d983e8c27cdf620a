-- ===== src/Fs/Chrdev.antt =====
-- kernel/fs/register_chrdev.c: character devices, by their major number.
pub mod Device
use modos.Base.{
  ℕ, ◌+◌, ◌*◌, false, none, some, ltb, ◌==◌, not, Bool, true, if◌then◌else◌, write, u64,
}
use modos.Fs.{
  World, M, NodeType, VfsNode, Fops, pure, fault, not_null, load_node, store_node, load_fops,
  chrdev_major_max, node_size, fops_size, ◌>>=◌, ◌>>◌,
}
use modos.Fs.NodeType.{vfs_dir, vfs_cdev}

abbrev pub is_dir : NodeType → Bool
is_dir vfs_dir = true
is_dir _ = false

-- `handlers` is the address of the array chrdev_handlers.
module _ (handlers : ℕ) where
  -- A major number out of the array faults.
  unfoldable pub register_chrdev : ℕ → ℕ → M ℕ
  register_chrdev major fops = do
    f ← load_fops fops
    if not (ltb major chrdev_major_max) then fault else λ w.
        some (major, record w { fops_at = write w.fops_at (handlers + major * fops_size) f })

  unfoldable pub new_device : ℕ → ℕ → ℕ → ℕ → VfsNode
  new_device dir name major minor = record {
    node_type = vfs_cdev;
    is_mount = false;
    fops = u64 (handlers + u64 (major * fops_size));
    name = name;
    offset = 0;
    parent = dir;
    mount = 0;
    children = 0;
    n_children = 0;
    symlink = 0;
    major = major;
    minor = minor;
  }

  unfoldable pub mkcdev : ℕ → ℕ → ℕ → ℕ → M ℕ
  mkcdev dir name major minor = do
    d ← load_node dir
    if not (is_dir d.node_type) then pure 1 else do
      not_null d.children
      store_node (d.children + d.n_children * node_size) (new_device dir name major minor)
      d' ← load_node dir
      store_node dir (record d' { n_children = u64 (d'.n_children + 1) })
      pure 0

-- ===== src/Fs/Chrdev/Device.antt =====
-- kernel/fs/register_chrdev.c: a device node reaches the functions registered for its major number.
use modos.Base.{
  ℕ, ◌+◌, ◌*◌, ◌^◌, ◌<◌, ◌≡◌, ◌≢◌, refl, sym, ap, ◌∙◌, arith, write, write_self, write_ne, lt→ltb,
  some, u64,
}
use modos.Fs.{World, VfsNode, Fops, node_size, fops_size, chrdev_major_max}
use modos.Fs.NodeType.{vfs_dir, vfs_cdev}
use modos.Fs.Access.{load_node_lem, store_node_lem, load_fops_lem, not_null_lem}
use modos.Fs.Chrdev.{is_dir, register_chrdev, mkcdev, new_device}

-- The address of the next child of a directory.
abbrev pub next_child : World → ℕ → ℕ
next_child w dir = (w.nodes dir).children + (w.nodes dir).n_children * node_size

-- A directory with a slot for another child, apart from itself.
pub record HasRoom (w : World) (dir : ℕ) : Type 0 where
  pub given : dir ≢ 0
  pub type : (w.nodes dir).node_type ≡ vfs_dir
  pub children : (w.nodes dir).children ≢ 0
  pub apart : next_child w dir ≢ dir
  pub count : (w.nodes dir).n_children + 1 < 2 ^ 64

-- The device as the last child of the directory, and nothing else changed.
pub record IsLinked (w : World) (dir : ℕ) (fops : Fops) (major minor : ℕ) (w' : World)
    : Type 0 where
  pub type : (w'.nodes (next_child w dir)).node_type ≡ vfs_cdev
  pub handler : w'.fops_at (w'.nodes (next_child w dir)).fops ≡ fops
  pub parent : (w'.nodes (next_child w dir)).parent ≡ dir
  pub numbers :
      ((w'.nodes (next_child w dir)).major ≡ major) × ((w'.nodes (next_child w dir)).minor ≡ minor)
  pub count : (w'.nodes dir).n_children ≡ (w.nodes dir).n_children + 1
  pub children : (w'.nodes dir).children ≡ (w.nodes dir).children
  pub others : (p : ℕ) → p ≢ dir → p ≢ next_child w dir → w'.nodes p ≡ w.nodes p

-- The nodes after mkcdev.
abbrev linked : ℕ → World → ℕ → VfsNode → World
linked handlers w dir n =
    let d = w.nodes dir in
    record w {
      nodes =
          write (write w.nodes (next_child w dir) n) dir
            (record d { n_children = u64 (d.n_children + 1) });
    }

mkcdev-linked :
    (handlers dir name major minor : ℕ) (w : World)
    → HasRoom w dir
    → mkcdev handlers dir name major minor w
      ≡ some (0, linked handlers w dir (new_device handlers dir name major minor))
unfolding mkcdev
mkcdev-linked handlers dir name major minor w room =
    let n = new_device handlers dir name major minor in
    let w' : World = record w { nodes = write w.nodes (next_child w dir) n } in
    rw
      (
        load_node_lem dir room.given w,
        ap is_dir room.type,
        not_null_lem (w.nodes dir).children room.children w,
        store_node_lem (next_child w dir) (omega (arith, room.children)) w n,
        load_node_lem dir room.given w',
        store_node_lem dir room.given w',
        write_ne w.nodes (next_child w dir) n dir room.apart,
      )
      refl

-- The two nodes that mkcdev writes.
linked-child :
    (handlers : ℕ) (w : World) (dir : ℕ) (n : VfsNode)
    → HasRoom w dir
    → (linked handlers w dir n).nodes (next_child w dir) ≡ n
linked-child handlers w dir n room =
    write_ne (write w.nodes (next_child w dir) n) dir _ (next_child w dir) (λ e. room.apart (sym e))
    ∙ write_self w.nodes (next_child w dir) n

linked-dir :
    (handlers : ℕ) (w : World) (dir : ℕ) (n : VfsNode)
    → (linked handlers w dir n).nodes dir
      ≡ record (w.nodes dir) { n_children = u64 ((w.nodes dir).n_children + 1) }
linked-dir handlers w dir n = write_self (write w.nodes (next_child w dir) n) dir _

linked-IsLinked :
    (handlers dir name major minor : ℕ) (w : World) (f : Fops)
    → HasRoom w dir
    → major < chrdev_major_max
    → handlers + chrdev_major_max * fops_size < 2 ^ 64
    → IsLinked w dir f major minor (
        linked handlers
          (record w { fops_at = write w.fops_at (handlers + major * fops_size) f })
          dir
          (new_device handlers dir name major minor))
unfolding new_device
linked-IsLinked handlers dir name major minor w f room b c =
    let n = new_device handlers dir name major minor in
    let w1 : World = record w { fops_at = write w.fops_at (handlers + major * fops_size) f } in
    let child = linked-child handlers w dir n room in
    let parent = linked-dir handlers w dir n in
    let fops : n.fops ≡ handlers + major * fops_size = omega (arith, b, c) in
    record {
      type = ap (λ x. x.node_type) child;
      handler =
          ap (λ x. w1.fops_at x.fops) child
          ∙ ap w1.fops_at fops
          ∙ write_self w.fops_at (handlers + major * fops_size) f;
      parent = ap (λ x. x.parent) child;
      numbers = (ap (λ x. x.major) child, ap (λ x. x.minor) child);
      count = ap (λ x. x.n_children) parent ∙ omega (arith, room.count);
      children = ap (λ x. x.children) parent;
      others = λ p not_dir not_child.
          write_ne (write w.nodes (next_child w dir) n) dir _ p (λ e. not_dir (sym e))
          ∙ write_ne w.nodes (next_child w dir) n p (λ e. not_child (sym e));
    }

module _ (handlers fops major name minor dir : ℕ) (w : World) where
  -- With fops not NULL and the array of handlers below 2^64: after register_chrdev of a major number
  -- below CHRDEV_MAJOR_MAX, mkcdev in a directory with room
  -- returns 0 and puts behind its children a device node whose fops are those registered, with
  -- both numbers, and changes no other node.
  pub register_chrdev-mkcdev :
      fops ≢ 0
      → major < chrdev_major_max
      → handlers + chrdev_major_max * fops_size < 2 ^ 64
      → HasRoom w dir
      → (w1 w2 : World) × (register_chrdev handlers major fops w ≡ some (major, w1))
        × (mkcdev handlers dir name major minor w1 ≡ some (0, w2))
        × IsLinked w dir (w.fops_at fops) major minor w2
  unfolding register_chrdev mkcdev new_device
  register_chrdev-mkcdev a b c room =
      let at = handlers + major * fops_size in
      let w1 : World = record w { fops_at = write w.fops_at at (w.fops_at fops) } in
      (
        w1,
        linked handlers w1 dir (new_device handlers dir name major minor),
        rw (load_fops_lem fops a w, lt→ltb major chrdev_major_max b) refl,
        mkcdev-linked handlers dir name major minor w1 (record {
          given = room.given;
          type = room.type;
          children = room.children;
          apart = room.apart;
          count = room.count;
        }),
        linked-IsLinked handlers dir name major minor w (w.fops_at fops) room b c,
      )

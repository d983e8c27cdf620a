-- ===== src/Tar/Tree.antt =====
-- kernel/tar/create_vfs.c: the nodes for the files of an archive. The header that is read lies at an
-- address of the stack, which is an argument.
use modos.Base.{
  ℕ, zero, suc, ◌+◌, ◌*◌, ◌/◌, Bool, true, false, List, [], ◌∷◌, some, ltb, leb, ◌==◌, ◌&&◌, not,
  if◌then◌else◌, u32, u64,
}
use modos.Base.Int.{pos}
use modos.Str.{int_eq}
use modos.Str.Words.{same_bytes}
use modos.Fs.{
  M, VfsNode, pure, fault, gets, not_null, load_node, store_node, kmalloc, memcpy, strlen, strcmp,
  store_byte, node_size, child_max, ◌>>=◌, ◌>>◌,
}
use modos.Fs.NodeType.{vfs_file, vfs_dir, vfs_sym}
use modos.Fs.Path.{slash, get_basename, get_dirname}
use modos.Io.{load_8}
use modos.Tar.{Disks, failed, mount_read, oct2bin}

-- Addresses that the build and the stack fix: the literals "/" and "", tar_fops, and the header.
pub record Fixed : Type 0 where
  pub root_name : ℕ
  pub empty : ℕ
  pub tar_fops_at : ℕ
  pub hdr : ℕ

-- TAR_MAGIC and the version "00"
abbrev pub tar_magic : List ℕ
tar_magic = 0x75 ∷ 0x73 ∷ 0x74 ∷ 0x61 ∷ 0x72 ∷ []

abbrev pub tar_version : List ℕ
tar_version = 0x30 ∷ 0x30 ∷ []

-- TAR_FILE, TAR_SYMLINK and TAR_DIR
abbrev pub tar_file : ℕ
tar_file = 0x30

abbrev pub tar_symlink : ℕ
tar_symlink = 0x32

abbrev pub tar_dir : ℕ
tar_dir = 0x35

-- sizeof(struct tar_file_hdr)
abbrev pub hdr_size : ℕ
hdr_size = 500

-- The fields of a header behind its name.
abbrev pub hdr_size_field : ℕ
hdr_size_field = 124

abbrev pub hdr_type : ℕ
hdr_type = 156

abbrev pub hdr_linkname : ℕ
hdr_linkname = 157

abbrev pub hdr_magic : ℕ
hdr_magic = 257

abbrev pub hdr_version : ℕ
hdr_version = 263

-- The variables of the loop.
pub record Parse : Type 0 where
  pub current_offset : ℕ
  pub current_parent : ℕ
  pub samedir_identifier : ℕ

-- `= {0}` for `n` bytes
unfoldable pub clear_bytes : (p n : ℕ) → M (Unit {0})
clear_bytes p n w =
    some (tt, record w { mem = λ a. if leb p a && ltb a (p + n) then 0 else w.mem a })

-- A copy of a string with its NUL byte.
unfoldable pub copy_string : (fuel str : ℕ) → M ℕ
copy_string fuel str = do
  n ← strlen fuel str
  copy ← kmalloc (u64 (n + 1))
  memcpy copy str (u64 (n + 1))
  pure copy

-- The last element of the header's name, in a block of its own; a slash at its end is removed in
-- the header.
unfoldable pub node_name : (fuel hdr : ℕ) → M ℕ
node_name fuel hdr = do
  base ← get_basename fuel hdr
  first ← load_8 base
  let basename_ptr = if first == slash then base + 1 else base
  n ← strlen fuel basename_ptr
  let at_end = u64 (basename_ptr + n + 0xFFFF_FFFF_FFFF_FFFF)
  last ← load_8 at_end
  if last == slash then store_byte at_end 0 else pure tt
  copy_string fuel basename_ptr

-- The loop that goes up from directory `samedir` until it is `prebase`, with the parent there.
unfoldable pub go_up : (fuel samedir prebase current_parent : ℕ) → M (ℕ × ℕ)
go_up zero samedir prebase current_parent = fault
go_up (suc fuel) samedir prebase current_parent = do
  differ ← strcmp (suc fuel) samedir prebase
  if int_eq differ (pos 0) then pure (samedir, current_parent) else do
    node ← load_node current_parent
    up ← get_dirname (suc fuel) samedir
    go_up fuel up prebase node.parent

-- The node of a file: of type VFS_FILE, 0, when the header's type is not known.
unfoldable pub new_node : Fixed → (name parent offset : ℕ) → VfsNode
new_node fixed name parent offset = record {
  node_type = vfs_file;
  is_mount = false;
  fops = fixed.tar_fops_at;
  name = name;
  offset = offset;
  parent = parent;
  mount = 0;
  children = 0;
  n_children = 0;
  symlink = 0;
  major = 0;
  minor = 0;
}

-- The switch over the header's type.
unfoldable pub type_node : (fuel hdr type : ℕ) → VfsNode → M VfsNode
type_node fuel hdr type node =
    if type == tar_dir
    then (do
      children ← kmalloc (node_size * child_max)
      pure (record node { node_type = vfs_dir; children = children }))
    else if type == tar_symlink
    then (do
      n ← strlen fuel (hdr + hdr_linkname)
      linkname ← kmalloc (u64 (n + 1))
      memcpy linkname (hdr + hdr_linkname) n
      store_byte (linkname + n) 0
      pure (record node { node_type = vfs_sym; symlink = linkname }))
    else pure node

-- The place of the header behind a file of `filesize` bytes.
unfoldable pub next_offset : (current_offset filesize : ℕ) → ℕ
next_offset current_offset filesize =
    u32 (current_offset + u32 ((u32 (filesize + 511) / 512 + 1) * 512))

-- `current_parent->children[current_parent->n_children] = node`; the address of the child.
unfoldable pub link_node : (current_parent : ℕ) → VfsNode → M ℕ
link_node current_parent node = do
  p ← load_node current_parent
  not_null p.children
  let child = p.children + node_size * p.n_children
  store_node child node
  p' ← load_node current_parent
  store_node current_parent (record p' { n_children = u64 (p'.n_children + 1) })
  pure child

module _ (disks : Disks) (fixed : Fixed) (mnt : ℕ) where
  -- An iteration for the header that was read; false at the end of the disk.
  unfoldable pub parse_file : (fuel : ℕ) → Parse → M (Bool × Parse)
  parse_file fuel s = do
    basename ← node_name fuel fixed.hdr
    prebase ← get_dirname fuel fixed.hdr
    name_cpy ← copy_string fuel fixed.hdr
    (samedir, parent) ← go_up fuel s.samedir_identifier prebase s.current_parent
    type ← gets (λ w. w.mem (fixed.hdr + hdr_type))
    node ← type_node fuel fixed.hdr type (new_node fixed basename parent s.current_offset)
    child ← link_node parent node
    filesize ← gets (λ w. oct2bin w.mem (fixed.hdr + hdr_size_field) 11)
    let current_offset = next_offset s.current_offset filesize
    ret ← mount_read disks mnt fixed.hdr 0x200 current_offset
    pure (
      not (ret == failed),
      if type == tar_dir
          then record {
            current_offset = current_offset;
            current_parent = child;
            samedir_identifier = name_cpy;
          }
          else record {
            current_offset = current_offset;
            current_parent = parent;
            samedir_identifier = samedir;
          },
    )

  -- The loop over the files.
  unfoldable pub parse_files : (fuel : ℕ) → Parse → M (Unit {0})
  parse_files zero s = fault
  parse_files (suc fuel) s = do
    magic ← gets (λ w. same_bytes w.mem (fixed.hdr + hdr_magic) tar_magic)
    if not magic
        then pure tt
        else do (more, s') ← parse_file (suc fuel) s; if more then parse_files fuel s' else pure tt

  unfoldable pub create_vfs_tar : (fuel : ℕ) → M ℕ
  create_vfs_tar fuel = do
    clear_bytes fixed.hdr hdr_size
    ret ← mount_read disks mnt fixed.hdr 0x200 0
    magic ← gets (λ w. same_bytes w.mem (fixed.hdr + hdr_magic) tar_magic)
    version ← gets (λ w. same_bytes w.mem (fixed.hdr + hdr_version) tar_version)
    if not (magic && version) then pure 0 else do
      root ← kmalloc node_size
      children ← kmalloc (node_size * 0xFF)
      old ← load_node root
      store_node root (record old {
        node_type = vfs_dir;
        is_mount = true;
        mount = mnt;
        n_children = 0;
        children = children;
        name = fixed.root_name;
        parent = 0;
        fops = fixed.tar_fops_at;
      })
      parse_files fuel
          (record { current_offset = 0; current_parent = root; samedir_identifier = fixed.empty })
      pure root

-- ===== src/Tar.antt =====
-- kernel/ramdisk/new_ramdisk_mount.c and kernel/tar/tar_fileops.c: files of a tar archive on a disk
-- in memory; and the numbers in the archive's headers, of kernel/tar/create_vfs.c.
pub mod Numbers
pub mod Disk
pub mod Tree
mod Tests
use modos.Base.{
  ℕ, zero, suc, ◌+◌, ◌-◌, ◌*◌, ◌^◌, Bool, Option, none, some, leb, ltb, ◌==◌, if◌then◌else◌, write,
  u32, u64,
}
use modos.Str.{Memory}
use modos.Str
use modos.Fs.{
  World, M, Fops, pure, fault, gets, not_null, load_file, load_node, kmalloc, memcpy, ◌>>=◌, ◌>>◌,
}

-- struct ramdisk
pub record Ramdisk : Type 0 where
  pub begin : ℕ
  pub size : ℕ

-- The functions of a mount; rdisk_mops is the only instance of struct mops.
pub data Mops : Type 0 where
  null_mops rdisk_mops : Mops

-- struct vfs_mount
pub record Mount : Type 0 where
  pub type : ℕ
  pub disk : ℕ
  pub mops : Mops

-- The mounts and disks in memory, by address.
pub record Disks : Type 0 where
  pub mounts : ℕ → Mount
  pub rdisks : ℕ → Ramdisk

-- -1 as an int64_t
abbrev pub failed : ℕ
failed = 2 ^ 64 - 1

-- The copy that a read or a write ends with.
unfoldable pub copy : ℕ → ℕ → ℕ → M ℕ
copy dest src len = memcpy dest src len >> pure len

unfoldable pub rdisk_read : Ramdisk → ℕ → ℕ → ℕ → M ℕ
rdisk_read rdisk buf len offset =
    if leb rdisk.size (u64 (len + offset))
    then pure failed
    else copy buf (u64 (rdisk.begin + offset)) len

unfoldable pub rdisk_write : Ramdisk → ℕ → ℕ → ℕ → M ℕ
rdisk_write rdisk buf len offset =
    if leb rdisk.size (u64 (len + offset))
    then pure failed
    else copy (u64 (rdisk.begin + offset)) buf len

-- `mount->mops->read(mount, ...)` and write, with the disk behind the mount.
unfoldable pub mount_read : Disks → ℕ → ℕ → ℕ → ℕ → M ℕ
mount_read disks mount buf len offset =
    let m = disks.mounts mount in
    not_null mount >> elim m.mops [
      | null_mops ↦ fault
      | rdisk_mops ↦ not_null m.disk >> rdisk_read (disks.rdisks m.disk) buf len offset
    ]

unfoldable pub mount_write : Disks → ℕ → ℕ → ℕ → ℕ → M ℕ
mount_write disks mount buf len offset =
    let m = disks.mounts mount in
    not_null mount >> elim m.mops [
      | null_mops ↦ fault
      | rdisk_mops ↦ not_null m.disk >> rdisk_write (disks.rdisks m.disk) buf len offset
    ]

-- The place of a file's byte in the archive, behind the header of 0x200 bytes.
unfoldable pub global_offset : ℕ → ℕ → ℕ
global_offset node_offset offset = u64 (u64 (node_offset + 0x200) + offset)

unfoldable pub tar_read : Disks → ℕ → ℕ → ℕ → ℕ → M ℕ
tar_read disks fp buffer len offset = do
  f ← load_file fp
  vnode ← load_node f.vnode
  mount_read disks f.mountpoint buffer len (global_offset vnode.offset offset)

unfoldable pub tar_write : Disks → ℕ → ℕ → ℕ → ℕ → M ℕ
tar_write disks fp buffer len offset = do
  f ← load_file fp
  vnode ← load_node f.vnode
  mount_write disks f.mountpoint buffer len (global_offset vnode.offset offset)

unfoldable pub tar_open : ℕ → ℕ → M ℕ
tar_open node file = pure 0

unfoldable pub tar_mkdir : ℕ → ℕ → M ℕ
tar_mkdir parent child = pure failed

-- The functions of the archive's files, as numbers, and the structure that names them.
abbrev pub tar_open_fn : ℕ
tar_open_fn = 4

abbrev pub tar_read_fn : ℕ
tar_read_fn = 5

abbrev pub tar_write_fn : ℕ
tar_write_fn = 6

abbrev pub tar_mkdir_fn : ℕ
tar_mkdir_fn = 7

abbrev pub tar_fops : Fops
tar_fops = record {
  read = tar_read_fn;
  write = tar_write_fn;
  open_fn = tar_open_fn;
  mkdir = tar_mkdir_fn;
}

-- The new mount and the disks with it; sizeof(struct vfs_mount) is 24.
unfoldable pub new_ramdisk_mount : Disks → ℕ → M (ℕ × Disks)
new_ramdisk_mount disks ramdisk = do
  mount ← kmalloc 24
  not_null mount
  not_null ramdisk
  pure (
    mount,
    record disks {
      mounts =
          write disks.mounts mount (record { type = 1; disk = ramdisk; mops = Mops.rdisk_mops });
    },
  )

-- `str[i] - '0'` of a signed char, added to a uint32_t.
unfoldable pub digit : ℕ → ℕ
digit c = if ltb c 0x80 then u32 (c + 0xFFFF_FFD0) else u32 (c + 0xFFFF_FED0)

-- The loop of oct2bin with `n` read and `left` bytes to read.
unfoldable pub oct2bin_from : Memory → ℕ → ℕ → ℕ → ℕ
oct2bin_from mem str zero n = n
oct2bin_from mem str (suc left) n =
    oct2bin_from mem (str + 1) left (u32 (u32 (n * 8) + digit (mem str)))

unfoldable pub oct2bin : Memory → ℕ → ℕ → ℕ
oct2bin mem str size = oct2bin_from mem str size 0

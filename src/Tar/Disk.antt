-- ===== src/Tar/Disk.antt =====
-- kernel/tar/tar_fileops.c over kernel/ramdisk/new_ramdisk_mount.c: the bytes of a file.
use modos.Base.{
  ℕ, ◌+◌, ◌^◌, ◌≤◌, ◌<◌, ◌≡◌, ◌≢◌, ◌⊎◌, refl, ◌∙◌, arith, leb, some, u64, false, ne→==,
}
use modos.Str.{memcpy}
use modos.Str.Bytes.{IsCopy, memcpy-IsCopy}
use modos.Fs.{World, memcpy as fs_memcpy}
use modos.Fs.Access.{load_node_lem, load_file_lem, not_null_lem}
use modos.Tar.{
  Ramdisk, Mops, Disks, copy, rdisk_read, rdisk_write, mount_read, mount_write, global_offset,
  tar_read, tar_write,
}

-- The disk behind an open file, and where a byte of the file stands in memory.
abbrev pub disk_of : Disks → World → ℕ → Ramdisk
disk_of disks w fp = disks.rdisks (disks.mounts (w.files fp).mountpoint).disk

abbrev pub place : Disks → World → ℕ → ℕ → ℕ
place disks w fp offset =
    (disk_of disks w fp).begin + ((w.nodes (w.files fp).vnode).offset + 0x200 + offset)

-- An open file of a mounted disk, with `len` bytes from `offset` on before the disk's last byte.
pub record IsMounted (disks : Disks) (w : World) (fp len offset : ℕ) : Type 0 where
  pub given : fp ≢ 0
  pub vnode : (w.files fp).vnode ≢ 0
  pub mountpoint : (w.files fp).mountpoint ≢ 0
  pub mops : (disks.mounts (w.files fp).mountpoint).mops ≡ Mops.rdisk_mops
  pub disk : (disks.mounts (w.files fp).mountpoint).disk ≢ 0
  pub inside :
      (w.nodes (w.files fp).vnode).offset + 0x200 + offset + len < (disk_of disks w fp).size
  pub words : (disk_of disks w fp).begin + (disk_of disks w fp).size ≤ 2 ^ 64

-- A copy between pointers that are not NULL.
pub copy_lem :
    (dest src len : ℕ) (w : World)
    → dest ≢ 0
    → src ≢ 0
    → copy dest src len w ≡ some (len, record w { mem = memcpy dest src len w.mem })
unfolding copy fs_memcpy
copy_lem dest src len w to from = rw (ne→== dest 0 to, ne→== src 0 from) refl

module _ (disks : Disks) (w : World) (fp len offset : ℕ) (m : IsMounted disks w fp len offset) where
  global_offset_lem :
      global_offset (w.nodes (w.files fp).vnode).offset offset
      ≡ (w.nodes (w.files fp).vnode).offset + 0x200 + offset
  unfolding global_offset
  global_offset_lem = omega (arith, m.inside, m.words)

  in_disk :
      (o : ℕ)
      → o ≡ (w.nodes (w.files fp).vnode).offset + 0x200 + offset
      → leb (disk_of disks w fp).size (u64 (len + o)) ≡ false
  in_disk o e = ground (arith, e, m.inside, m.words)

  start :
      (o : ℕ)
      → o ≡ (w.nodes (w.files fp).vnode).offset + 0x200 + offset
      → u64 ((disk_of disks w fp).begin + o) ≡ place disks w fp offset
  start o e = omega (arith, e, m.inside, m.words)

  pub tar_read-copy :
      (buffer : ℕ)
      → tar_read disks fp buffer len offset w ≡ copy buffer (place disks w fp offset) len w
  unfolding tar_read mount_read rdisk_read
  tar_read-copy buffer =
      rw
        (
          load_file_lem fp m.given w,
          load_node_lem (w.files fp).vnode m.vnode w,
          not_null_lem (w.files fp).mountpoint m.mountpoint w,
          m.mops,
          not_null_lem (disks.mounts (w.files fp).mountpoint).disk m.disk w,
          global_offset_lem,
          in_disk _ refl,
          start _ refl,
        )
        refl

  pub tar_write-copy :
      (buffer : ℕ)
      → tar_write disks fp buffer len offset w ≡ copy (place disks w fp offset) buffer len w
  unfolding tar_write mount_write rdisk_write
  tar_write-copy buffer =
      rw
        (
          load_file_lem fp m.given w,
          load_node_lem (w.files fp).vnode m.vnode w,
          not_null_lem (w.files fp).mountpoint m.mountpoint w,
          m.mops,
          not_null_lem (disks.mounts (w.files fp).mountpoint).disk m.disk w,
          global_offset_lem,
          in_disk _ refl,
          start _ refl,
        )
        refl

  pub place_given : place disks w fp offset ≢ 0
  place_given = omega arith

  -- For a buffer that is not NULL, an open file of a mounted disk and a range that ends before the disk's last byte, tar_read
  -- returns the length and copies the bytes at the file's place in the archive into the buffer,
  -- which does not begin inside them, and changes no other memory.
  pub tar_read_lem :
      (buffer : ℕ)
      → buffer ≢ 0
      → (buffer ≤ place disks w fp offset) ⊎ (place disks w fp offset + len ≤ buffer)
      → (w' : World) × (tar_read disks fp buffer len offset w ≡ some (len, w'))
        × IsCopy buffer (place disks w fp offset) len w.mem w'.mem
  tar_read_lem buffer given apart = (
    _,
    tar_read-copy buffer ∙ copy_lem buffer (place disks w fp offset) len w given place_given,
    memcpy-IsCopy len buffer (place disks w fp offset) w.mem apart,
  )

-- For two buffers that are not NULL, an open file of a mounted disk, and a range of it that ends before the
-- disk's last byte, where the range does not begin inside the first buffer and the second buffer does not
-- begin inside the range: what tar_write puts into the range, tar_read gives back: both return the
-- length, and the second buffer then holds the bytes that the first one held.
pub tar_write-tar_read :
    (disks : Disks) (w : World) (fp len offset src dest : ℕ)
    → src ≢ 0
    → dest ≢ 0
    → IsMounted disks w fp len offset
    → (place disks w fp offset ≤ src) ⊎ (src + len ≤ place disks w fp offset)
    → (dest ≤ place disks w fp offset) ⊎ (place disks w fp offset + len ≤ dest)
    → (w1 w2 : World) × (tar_write disks fp src len offset w ≡ some (len, w1))
      × (tar_read disks fp dest len offset w1 ≡ some (len, w2))
      × ((i : ℕ) → i < len → w2.mem (dest + i) ≡ w.mem (src + i))
tar_write-tar_read disks w fp len offset src dest given given' m a b =
    let at = place disks w fp offset in
    let w1 : World = record w { mem = memcpy at src len w.mem } in
    let m1 : IsMounted disks w1 fp len offset = record {
      given = m.given;
      vnode = m.vnode;
      mountpoint = m.mountpoint;
      mops = m.mops;
      disk = m.disk;
      inside = m.inside;
      words = m.words;
    } in
    let there = memcpy-IsCopy len at src w.mem a in
    let back = memcpy-IsCopy len dest at w1.mem b in
    (
      w1,
      record w1 { mem = memcpy dest at len w1.mem },
      tar_write-copy disks w fp len offset m src
          ∙ copy_lem at src len w (place_given disks w fp len offset m) given,
      tar_read-copy disks w1 fp len offset m1 dest
          ∙ copy_lem dest at len w1 given' (place_given disks w1 fp len offset m1),
      (λ i h. back.inside i h ∙ there.inside i h),
    )

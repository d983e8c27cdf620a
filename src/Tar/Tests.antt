-- ===== src/Tar/Tests.antt =====
-- Runs of the tar files on a small disk, and instances of their theorems.
use modos.Base.{ℕ, ◌+◌, ◌<◌, ◌≡◌, inl, refl, arith, some, ◌==◌, if◌then◌else◌}
use modos.Str.{Memory}
use modos.Fs.{World}
use modos.Fs.Sample.{sample}
use modos.Tar.{Disks, Mops, tar_read, tar_write, rdisk_read, copy, oct2bin}
use modos.Tar.Disk.{IsMounted, tar_write-tar_read}
use modos.Tar.Numbers.{oct2bin_lem}

-- A disk of 0x1000 bytes at 0x8000, behind every mount.
abbrev one_disk : Disks
one_disk = record {
  mounts = λ m. record { type = 1; disk = 0x600; mops = Mops.rdisk_mops };
  rdisks = λ d. record { begin = 0x8000; size = 0x1000 };
}

abbrev mounted : World
mounted = record sample { files = λ p. record { vnode = 0x100; mountpoint = 7 } }

mounted-IsMounted : IsMounted one_disk mounted 0x40 16 4
mounted-IsMounted = record {
  given = omega arith;
  vnode = omega arith;
  mountpoint = omega arith;
  mops = refl;
  disk = omega arith;
  inside = omega arith;
  words = omega arith;
}

tar_write-tar_read_example :
    (w1 w2 : World) × (tar_write one_disk 0x40 0xA000 16 4 mounted ≡ some (16, w1))
    × (tar_read one_disk 0x40 0x100 16 4 w1 ≡ some (16, w2))
    × ((i : ℕ) → i < 16 → w2.mem (0x100 + i) ≡ mounted.mem (0xA000 + i))
tar_write-tar_read_example =
    tar_write-tar_read one_disk mounted 0x40 16 4 0xA000 0x100 (omega arith) (omega arith)
      mounted-IsMounted (inl (omega arith)) (inl (omega arith))

-- "17" at address 0
abbrev seventeen : Memory
seventeen a = if a == 0 then 0x31 else 0x37

oct2bin_lem_example : oct2bin seventeen 0 2 ≡ 15
oct2bin_lem_example =
    oct2bin_lem seventeen 2 0 15
      (1, 7, omega arith, refl, refl, (7, 0, omega arith, refl, refl, refl)) (omega arith)

-- An offset that wraps around passes the bound and reads the byte before the disk.
rdisk_read_wraps :
    rdisk_read (record { begin = 0x8000; size = 0x1000 }) 0x100 1 0xFFFF_FFFF_FFFF_FFFF sample
    ≡ copy 0x100 0x7FFF 1 sample
unfolding rdisk_read
rdisk_read_wraps = refl

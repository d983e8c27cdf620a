-- ===== src/Boot/Tests.antt =====
-- Instances of the theorems on the drivers and on the initial ram disk.
use modos.Base.{ℕ, ◌+◌, ◌<◌, ◌≡◌, ◌≢◌, inl, refl, arith, some, write}
use modos.Str.{Memory}
use modos.Str.Words.{load16, load32, same_bytes}
use modos.Machine.{Regs, Devices, no_regs}
use modos.Mm.Layout.{p2v}
use modos.Mm.Arena
use modos.Fs.{World, pure}
use modos.Fs.Gfid.{resolve_gfid}
use modos.Fs.Sample.{sample, sample_heap, sample_process, sample_calls}
use modos.Tar.{Disks, Mops, tar_fops}
use modos.Syscalls.{Env, sys_read, sys_write}
use modos.Boot.{create_initrd}
use modos.Boot.Drivers.{IsArchived, with_drivers, sys_write-sys_read}
use modos.Boot.Initrd.{disk_block, mount_block, create_initrd_lem}

-- A disk of 0x1000 bytes at 0xFFFF_8000_0000_8000, and file 0x40 on it behind descriptor 0.
abbrev one_disk : Disks
one_disk = record {
  mounts = λ m. record { type = 1; disk = 0x600; mops = Mops.rdisk_mops };
  rdisks = λ d. record { begin = 0xFFFF_8000_0000_8000; size = 0x1000 };
}

abbrev with_file : World
with_file = record sample {
  files = λ p. record { vnode = 0x100; mountpoint = 7 };
  fops_at = λ p. tar_fops;
  gfids = λ id. 0x40;
  n_gfids = 2;
  procs = λ pid. record sample_process { fdtable = λ fd. 1; n_fds = 1 };
}

abbrev any_env : Env
any_env = record {
  calls = sample_calls;
  handlers = 0;
  empty = 0;
  load_module = λ file. pure 0;
  modinit = λ entry. pure 0;
  no_return = 0;
}

abbrev silent : Devices
silent = record { port = λ h p. 0; register = λ h a. 0 }

-- 8 bytes at offset 4, written from 0x5000 and read to 0x6000.
abbrev write_call : Regs
write_call = record no_regs { rdi = 0; rsi = 0x5000; rdx = 8; r8 = 4 }

abbrev read_call : Regs
read_call = record no_regs { rdi = 0; rsi = 0x6000; rdx = 8; r8 = 4 }

archived :
    (buffer : ℕ)
    → buffer ≢ 0
    → buffer < 0x1_0000
    → IsArchived one_disk with_file (record no_regs { rdi = 0; rsi = buffer; rdx = 8; r8 = 4 }) 0x40
unfolding resolve_gfid
archived buffer given a = record {
  fd = omega arith;
  at = record { given = omega arith; old = omega arith; means = refl };
  opened = record { given = omega arith; vnode = omega arith; fops = omega arith };
  fops = refl;
  mounted = record {
    given = omega arith;
    vnode = omega arith;
    mountpoint = omega arith;
    mops = refl;
    disk = omega arith;
    inside = omega arith;
    words = omega arith;
  };
  given = given;
  buffer = omega (arith, a);
  apart = inl (omega (arith, a));
}

sys_write-sys_read_example :
    (w1 w2 : World) × (sys_write
        (with_drivers any_env silent one_disk 0 9 0x40)
        9
        write_call
        with_file
      ≡ some (record write_call { rax = 8 }, w1))
    × (sys_read (with_drivers any_env silent one_disk 0 9 0x40) 9 read_call w1
        ≡ some (record read_call { rax = 8 }, w2))
    × ((i : ℕ) → i < 8 → w2.mem (0x6000 + i) ≡ with_file.mem (0x5000 + i))
sys_write-sys_read_example =
    sys_write-sys_read any_env silent one_disk 0 9 0x40 with_file write_call read_call
      (archived 0x5000 (omega arith) (omega arith)) (archived 0x6000 (omega arith) (omega arith))
      refl refl

-- The boot loader's information at 0x9000: one module from 0x1000 to 0x2000, listed at 0xA000, with
-- its command line at 0xB000.
abbrev cmdline_bytes : Memory
cmdline_bytes =
    write
      (write
        (write
          (write (write (write (λ a. 0) (p2v 0xB000) 0x69) (p2v 0xB001) 0x6E) (p2v 0xB002) 0x69)
          (p2v 0xB003) 0x74)
        (p2v 0xB004) 0x72)
      (p2v 0xB005) 0x64

abbrev boot_bytes : Memory
boot_bytes =
    write
      (write
        (write (write (write (write cmdline_bytes (p2v 0x9000) 8) (p2v 0x9014) 1) (p2v 0x9019) 0xA0)
          (p2v 0xA001) 0x10)
        (p2v 0xA005) 0x20)
      (p2v 0xA009) 0xB0

abbrev with_modules : World
with_modules = record sample {
  mem = boot_bytes;
  heap = record sample_heap { current_size = 0x10_0000 };
}

disk_room : disk_block with_modules ≢ 0
unfolding Arena.kmalloc
disk_room = omega arith

mount_room : mount_block with_modules ≢ 0
unfolding Arena.kmalloc
mount_room = omega arith

create_initrd_lem_example :
    (disks' : Disks) × (w' : World) × (create_initrd one_disk 0x9000 with_modules
      ≡ some ((mount_block with_modules, disks'), w'))
    × ((disks'.mounts (mount_block with_modules)).mops ≡ Mops.rdisk_mops)
    × (disks'.rdisks (disks'.mounts (mount_block with_modules)).disk
        ≡ record { begin = p2v 0x1000; size = 0x1000 })
unfolding load32 load16 same_bytes
create_initrd_lem_example =
    create_initrd_lem one_disk 0x9000 0xA000 1 0 with_modules
      (record {
        place = omega arith;
        flag = refl;
        address = refl;
        count = refl;
        list = omega arith;
      })
      (omega arith) refl (λ j a b. absurd (omega (arith, a, b))) (omega arith) (omega arith)
      disk_room mount_room

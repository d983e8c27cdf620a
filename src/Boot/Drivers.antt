-- ===== src/Boot/Drivers.antt =====
-- The drivers of the kernel behind the table of function pointers: the files of the initial ram disk
-- (kernel/tar/tar_fileops.c) and the serial ports (modules/drivers/serial_com/init.c), as the system
-- calls of kernel/syscalls/register_syscalls.c reach them.
use modos.Base.{
  ℕ, ◌+◌, ◌<◌, ◌≤◌, ◌≡◌, ◌≢◌, ◌⊎◌, refl, ap, ◌∙◌, arith, some, guard-some, ◌==◌, if◌then◌else◌,
}
use modos.Str.{memcpy}
use modos.Str.Bytes.{memcpy-IsCopy}
use modos.Machine.{Regs, Devices}
use modos.Fs.{World, Calls, fault, fd_max}
use modos.Fs.Gfid.{resolve_gfid}
use modos.Fs.Open.Fd.{IsFileAt}
use modos.Serial
use modos.Tar.{
  Disks, tar_read, tar_write, tar_open, tar_mkdir, tar_fops, tar_read_fn, tar_write_fn, tar_open_fn,
  tar_mkdir_fn,
}
use modos.Tar.Disk.{IsMounted, place, tar_read-copy, tar_write-copy, copy_lem, place_given}
use modos.Syscalls.{Env, sys_read, sys_write, user_end}
use modos.Syscalls.Files.{IsOpen, fops_of, sys_read-sys_write}

-- A call through a pointer that is no driver's function faults. `wait` is the fuel for a port.
unfoldable pub kernel_calls : Devices → Disks → (wait : ℕ) → Calls
kernel_calls devices disks wait = record {
  call_open = λ f node file.
      if f == tar_open_fn
      then tar_open node file
      else if f == Serial.open_serial_fn
      then Serial.open_serial devices node file
      else fault;
  call_mkdir = λ f parent child. if f == tar_mkdir_fn then tar_mkdir parent child else fault;
  call_read = λ f file buf len offset.
      if f == tar_read_fn
      then tar_read disks file buf len offset
      else if f == Serial.read_serial_fn
      then Serial.read_serial devices wait file buf len offset
      else fault;
  call_write = λ f file buf len offset.
      if f == tar_write_fn
      then tar_write disks file buf len offset
      else if f == Serial.write_serial_fn
      then Serial.write_serial devices wait file buf len offset
      else fault;
}

-- A descriptor does not depend on memory.
IsFileAt-mem :
    (w : World) (fd file : ℕ) (mem : ℕ → ℕ)
    → IsFileAt w fd file
    → IsFileAt (record w { mem = mem }) fd file
unfolding resolve_gfid
IsFileAt-mem w fd file mem at =
    let (inside, same) = guard-some _ at.means in
    record { given = at.given; old = at.old; means = rw (inside, ap (λ x. x.0) same) refl }

-- An open file of the archive behind a descriptor, with a range that the registers of a call name.
pub record IsArchived (disks : Disks) (w : World) (regs : Regs) (file : ℕ) : Type 0 where
  pub fd : regs.rdi < fd_max
  pub at : IsFileAt w regs.rdi file
  pub opened : IsOpen w file
  pub fops : fops_of w file ≡ tar_fops
  pub mounted : IsMounted disks w file regs.rdx regs.r8
  pub given : regs.rsi ≢ 0
  pub buffer : regs.rsi < user_end
  pub apart :
      (regs.rsi + regs.rdx ≤ place disks w file regs.r8)
      ⊎ (place disks w file regs.r8 + regs.rdx ≤ regs.rsi)

module _ (env : Env) (devices : Devices) (disks : Disks) (wait fuel file : ℕ) where
  -- The system calls' environment with the kernel's drivers.
  abbrev pub with_drivers : Env
  with_drivers = record env { calls = kernel_calls devices disks wait }

  sys_read-archive :
      (w : World) (regs : Regs)
      → IsArchived disks w regs file
      → sys_read with_drivers fuel regs w
        ≡ some (
          record regs { rax = regs.rdx },
          record w { mem = memcpy regs.rsi (place disks w file regs.r8) regs.rdx w.mem },
        )
  unfolding kernel_calls
  sys_read-archive w regs a =
      let read = ap (λ f. f.read) a.fops in
      let write = ap (λ f. f.write) a.fops in
      (sys_read-sys_write with_drivers fuel regs w file a.buffer a.fd a.at a.opened
        (omega (arith, read)) (omega (arith, write))).0
      ∙ rw
          (
            read,
            tar_read-copy disks w file regs.rdx regs.r8 a.mounted regs.rsi,
            copy_lem regs.rsi (place disks w file regs.r8) regs.rdx w a.given
                (place_given disks w file regs.rdx regs.r8 a.mounted),
          )
          refl

  sys_write-archive :
      (w : World) (regs : Regs)
      → IsArchived disks w regs file
      → sys_write with_drivers fuel regs w
        ≡ some (
          record regs { rax = regs.rdx },
          record w { mem = memcpy (place disks w file regs.r8) regs.rsi regs.rdx w.mem },
        )
  unfolding kernel_calls
  sys_write-archive w regs a =
      let read = ap (λ f. f.read) a.fops in
      let write = ap (λ f. f.write) a.fops in
      (sys_read-sys_write with_drivers fuel regs w file a.buffer a.fd a.at a.opened
        (omega (arith, read)) (omega (arith, write))).1
      ∙ rw
          (
            write,
            tar_write-copy disks w file regs.rdx regs.r8 a.mounted regs.rsi,
            copy_lem (place disks w file regs.r8) regs.rsi regs.rdx w
                (place_given disks w file regs.rdx regs.r8 a.mounted) a.given,
          )
          refl

  -- With the kernel's drivers, an open file of the archive behind a descriptor, a range that ends before
  -- the disk's last byte and buffers that are not NULL, lie below USER_END and do not overlap it: the system call write and
  -- then the system call read of the same range both return its length, and the second
  -- buffer then holds the bytes that the first one held.
  pub sys_write-sys_read :
      (w : World) (regs regs' : Regs)
      → IsArchived disks w regs file
      → IsArchived disks w regs' file
      → regs'.rdx ≡ regs.rdx
      → regs'.r8 ≡ regs.r8
      → (w1 w2 : World) × (sys_write with_drivers fuel regs w
          ≡ some (record regs { rax = regs.rdx }, w1))
        × (sys_read with_drivers fuel regs' w1 ≡ some (record regs' { rax = regs'.rdx }, w2))
        × ((i : ℕ) → i < regs.rdx → w2.mem (regs'.rsi + i) ≡ w.mem (regs.rsi + i))
  sys_write-sys_read w regs regs' a b same_len same_offset =
      let at = place disks w file regs.r8 in
      let at' = place disks w file regs'.r8 in
      let w1 : World = record w { mem = memcpy at regs.rsi regs.rdx w.mem } in
      let b1 : IsArchived disks w1 regs' file = record {
        fd = b.fd;
        at = IsFileAt-mem w regs'.rdi file w1.mem b.at;
        opened = record { given = b.opened.given; vnode = b.opened.vnode; fops = b.opened.fops };
        fops = b.fops;
        mounted = record {
          given = b.mounted.given;
          vnode = b.mounted.vnode;
          mountpoint = b.mounted.mountpoint;
          mops = b.mounted.mops;
          disk = b.mounted.disk;
          inside = b.mounted.inside;
          words = b.mounted.words;
        };
        given = b.given;
        buffer = b.buffer;
        apart = b.apart;
      } in
      let there = memcpy-IsCopy regs.rdx at regs.rsi w.mem (omega (arith, a.apart)) in
      let back = memcpy-IsCopy regs'.rdx regs'.rsi at' w1.mem (omega (arith, b.apart)) in
      let same : at' ≡ at = omega (arith, same_offset) in
      (
        w1,
        record w1 { mem = memcpy regs'.rsi at' regs'.rdx w1.mem },
        sys_write-archive w regs a,
        sys_read-archive w1 regs' b1,
        (λ i h.
            back.inside i (omega (arith, h, same_len))
            ∙ ap (λ p. w1.mem (p + i)) same
            ∙ there.inside i h),
      )

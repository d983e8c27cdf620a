-- ===== src/Syscalls/Tests.antt =====
-- Runs of the system calls on a small state, and instances of their theorems.
use modos.Base.{ℕ, ◌<◌, ◌≤◌, ◌≡◌, refl, arith, some}
use modos.Fs.{World, current_process, ◌>>=◌}
use modos.Fs.Sample.{sample, sample_calls, sample_process}
use modos.Fs.Gfid.{resolve_gfid}
use modos.Fs.Open.Fd.{IsFileAt}
use modos.Machine.{Regs}
use modos.Syscalls.{syscall_max, dev_major, dev_minor, returns, sys_open, sys_read, sys_write}
use modos.Syscalls.Table.{Handler, register_syscalls, register_syscalls_lem, numbered, find_handler}
use modos.Syscalls.Sample.{sample_env}
use modos.Syscalls.Device.{makedev, makedev_lem}
use modos.Syscalls.Opened.{sys_open-sys_read}
use modos.Fs.Open.Sample.{root_file, opened, root-Reaches, opened-IsDense}
use modos.Mm.Arena
use modos.Syscalls.Files.{IsOpen}

-- `number` in rax, the arguments in rdi, rsi and rdx
abbrev call_regs : ℕ → ℕ → ℕ → ℕ → Regs
call_regs number rdi rsi rdx = record {
  rbp = 0;
  r15 = 0;
  r14 = 0;
  r13 = 0;
  r12 = 0;
  r11 = 0;
  r10 = 0;
  r9 = 0;
  r8 = 0;
  rsi = rsi;
  rdi = rdi;
  rdx = rdx;
  rcx = 0;
  rbx = 0;
  rax = number;
  irq = 0;
  error_code = 0;
  rip = 0;
  cs = 0;
  rflags = 0;
  rsp = 0;
  ss = 0;
}

abbrev empty_table : ℕ → Handler
empty_table n = Handler.unset_handler

register_syscalls_lem_example :
    (133 < syscall_max → register_syscalls empty_table 133 ≡ find_handler numbered 133)
    × (syscall_max ≤ 133 → register_syscalls empty_table 133 ≡ Handler.unset_handler)
register_syscalls_lem_example = register_syscalls_lem empty_table 133

makedev_splits :
    (dev_major (makedev 0x1234_5678 0x9abc_def0) ≡ 0x1234_5678)
    × (dev_minor (makedev 0x1234_5678 0x9abc_def0) ≡ 0x9abc_def0)
makedev_splits = makedev_lem 0x1234_5678 0x9abc_def0 (omega arith) (omega arith)

-- The root as file 0x40 behind descriptor 0.
abbrev reading : World
reading = record sample {
  files = λ p. record { vnode = 0x100; mountpoint = 7 };
  gfids = λ id. 0x40;
  n_gfids = 2;
  procs = λ pid. record sample_process { fdtable = λ fd. 1; n_fds = 1 };
}

abbrev user_read : Regs
user_read = call_regs 0 0 0x5000 8

reading-IsFileAt : IsFileAt reading 0 0x40
unfolding resolve_gfid
reading-IsFileAt = record { given = omega arith; old = omega arith; means = refl }

reading-IsOpen : IsOpen reading 0x40
reading-IsOpen = record { given = omega arith; vnode = omega arith; fops = omega arith }

-- The root, opened by the empty path at 0x200.
abbrev open_root : Regs
open_root = call_regs 2 0x200 0 0

opened-IsOpen : IsOpen opened root_file
unfolding Arena.kmalloc
opened-IsOpen = record { given = omega arith; vnode = omega arith; fops = omega arith }

sys_open-sys_read_example :
    (enough : ℕ) × (w2 : World) × ((fuel : ℕ)
      → enough ≤ fuel
      → sys_open sample_env fuel open_root sample ≡ some (record open_root { rax = 0 }, w2))
    × ((current_process opened).fdtable 0 ≡ 0)
    × (sys_read sample_env 9 user_read w2
        ≡ (sample_calls.call_read 1 root_file 0x5000 8 0 >>= returns user_read) w2)
    × (sys_write sample_env 9 user_read w2
        ≡ (sample_calls.call_write 2 root_file 0x5000 8 0 >>= returns user_read) w2)
unfolding Arena.kmalloc
sys_open-sys_read_example =
    sys_open-sys_read sample_env 9 open_root user_read sample opened (omega arith) root-Reaches refl
      opened-IsDense opened-IsOpen (omega arith) (omega arith) (omega arith) (omega arith)
      (omega arith) refl (omega arith)

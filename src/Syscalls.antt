-- ===== src/Syscalls.antt =====
-- kernel/syscalls/register_syscalls.c: the handlers of the system calls and their table. A handler
-- gives the registers as it leaves them.
pub mod Pointers
pub mod Table
pub mod Files
pub mod Opened
pub mod Device
pub mod Sample
mod Tests
use modos.Base.{
  ℕ, zero, suc, ◌+◌, ◌-◌, ◌*◌, ◌/◌, ◌%◌, ◌^◌, Bool, Option, none, some, ltb, ◌==◌, not, bit_or, u32,
  u64, if◌then◌else◌, write,
}
use modos.Machine.{Regs}
use modos.Fs.{
  World, M, Calls, pure, fault, gets, not_null, load_node, load_file, load_fops, kmalloc, memcpy,
  strlen, current_process, fd_max, ◌>>=◌, ◌>>◌,
}
use modos.Fs.Gfid.{resolve_gfid}
use modos.Fs.Path.{get_basename, get_dirname}
use modos.Fs.Walk.{walk_path}
use modos.Fs.Open.{openat, do_openat, do_mkdirat, minus}
use modos.Fs.Chrdev.{mkcdev}

-- What the handlers call outside kernel/fs, and what the build fixes: the functions behind fops,
-- the address of chrdev_handlers, the address of the literal "", load_module and the entry of a
-- module, and the value found in rax after a call that ends with no return.
pub record Env : Type 0 where
  pub calls : Calls
  pub handlers : ℕ
  pub empty : ℕ
  pub load_module : ℕ → M ℕ
  pub modinit : ℕ → M ℕ
  pub no_return : ℕ

-- errs.h
abbrev pub e_nosys : ℕ
e_nosys = 1

abbrev pub e_invptr : ℕ
e_invptr = 2

abbrev pub e_fdclsd : ℕ
e_fdclsd = 3

abbrev pub e_badfd : ℕ
e_badfd = 4

abbrev pub e_noent : ℕ
e_noent = 5

abbrev pub e_inval : ℕ
e_inval = 7

-- USER_END of kinfo.h, SYSCALL_MAX of syscalls.h
abbrev pub user_end : ℕ
user_end = 0x7FFF_FFFF_FFFF

abbrev pub syscall_max : ℕ
syscall_max = 0xFFFF

-- VALIDATE_USRPTR
unfoldable pub validate_usrptr : ℕ → Bool
validate_usrptr ptr = ltb ptr user_end

-- `regs->rax = value`
abbrev pub returns : Regs → ℕ → M Regs
returns regs value = pure (record regs { rax = value })

unfoldable pub default_syscall_handler : Regs → M Regs
default_syscall_handler regs = returns regs (minus e_nosys)

-- The copy of a path in kernel memory, with no NUL byte behind it.
unfoldable pub copy_path : ℕ → ℕ → M ℕ
copy_path fuel path = do
  n ← strlen fuel path
  path_cpy ← kmalloc n
  memcpy path_cpy path n
  pure path_cpy

-- The common part of sys_read and sys_write: the file behind a descriptor, or the error.
unfoldable pub descriptor_file : ℕ → M (ℕ × ℕ)
descriptor_file fd = do
  fdtable ← gets (λ w. (current_process w).fdtable)
  if not (ltb fd fd_max) then fault else if fdtable fd == 0 then pure (0, minus e_fdclsd) else do
    file ← resolve_gfid (fdtable fd)
    pure (if file == 0 then (0, minus e_badfd) else (file, 0))

-- The major and minor numbers of a dev_t in rdx.
unfoldable pub dev_major : ℕ → ℕ
dev_major rdx = bit_or (u32 (rdx / 2 ^ 44 % 2 ^ 20 * 2 ^ 12)) (u32 (rdx / 2 ^ 8 % 2 ^ 12))

unfoldable pub dev_minor : ℕ → ℕ
dev_minor rdx = bit_or (u32 (rdx / 2 ^ 20 % 2 ^ 24 * 2 ^ 8)) (u32 (rdx % 2 ^ 8))

module _ (env : Env) (fuel : ℕ) where
  unfoldable pub sys_open : Regs → M Regs
  sys_open regs = if not (validate_usrptr regs.rdi) then returns regs (minus e_invptr) else do
    cwd ← gets (λ w. (current_process w).cwd)
    new_fd ← do_openat env.calls fuel cwd regs.rdi
    returns regs new_fd

  unfoldable pub sys_read : Regs → M Regs
  sys_read regs = if not (validate_usrptr regs.rsi) then returns regs (minus e_invptr) else do
    (file, error) ← descriptor_file regs.rdi
    if file == 0 then returns regs error else do
      f ← load_file file
      vnode ← load_node f.vnode
      fops ← load_fops vnode.fops
      not_null fops.read
      ret ← env.calls.call_read fops.read file regs.rsi regs.rdx regs.r8
      returns regs ret

  unfoldable pub sys_write : Regs → M Regs
  sys_write regs = if not (validate_usrptr regs.rsi) then returns regs (minus e_invptr) else do
    (file, error) ← descriptor_file regs.rdi
    if file == 0 then returns regs error else do
      f ← load_file file
      vnode ← load_node f.vnode
      fops ← load_fops vnode.fops
      not_null fops.write
      ret ← env.calls.call_write fops.write file regs.rsi regs.rdx regs.r8
      returns regs ret

  unfoldable pub sys_mkdir : Regs → M Regs
  sys_mkdir regs = if not (validate_usrptr regs.rdi) then returns regs (minus e_invptr) else do
    path_cpy ← copy_path fuel regs.rdi
    cwd ← gets (λ w. (current_process w).cwd)
    ret ← do_mkdirat env.calls env.empty fuel cwd path_cpy
    returns regs (elim ret [ none ↦ env.no_return | some value ↦ value ])

  unfoldable pub sys_lmod : Regs → M Regs
  sys_lmod regs = if not (validate_usrptr regs.rdi) then returns regs (minus e_invptr) else do
    path_cpy ← copy_path fuel regs.rdi
    cwd ← gets (λ w. (current_process w).cwd)
    file ← openat env.calls fuel cwd path_cpy
    if file == 0 then returns regs (minus e_noent) else do
      entry ← env.load_module file
      if entry == 0
          then returns regs (minus e_inval)
          else do ret ← env.modinit entry; returns regs ret

  unfoldable pub sys_mknod : Regs → M Regs
  sys_mknod regs = if not (validate_usrptr regs.rdi) then returns regs (minus e_invptr) else do
    basename ← get_basename fuel regs.rdi
    dirname ← get_dirname fuel regs.rdi
    cwd ← gets (λ w. (current_process w).cwd)
    dir ← walk_path fuel cwd dirname
    d ← load_file dir
    ret ← mkcdev env.handlers d.vnode (u64 (basename + 1)) (dev_major regs.rdx) (dev_minor regs.rdx)
    returns regs ret

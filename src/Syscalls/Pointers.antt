-- ===== src/Syscalls/Pointers.antt =====
-- kernel/syscalls/register_syscalls.c: VALIDATE_USRPTR at the front of the handlers.
use modos.Base.{ℕ, ◌≤◌, ◌≡◌, refl, Option, none, some, le→ltb, false, none≢some, some-injective}
use modos.Fs.{World}
use modos.Fs.Open.{minus}
use modos.Machine.{Regs}
use modos.Syscalls.{
  Env, user_end, e_invptr, validate_usrptr, sys_open, sys_read, sys_write, sys_mkdir, sys_lmod,
  sys_mknod,
}
use modos.Syscalls.Table.{Handler, call_handler}
use modos.Syscalls.Table.Handler.{
  unset_handler, default_handler, read_handler, write_handler, open_handler, lmod_handler,
  mkdir_handler, mknod_handler,
}

-- The register that holds the pointer a handler is given by the user.
abbrev pub user_pointer : Handler → Regs → Option ℕ
user_pointer unset_handler regs = none
user_pointer default_handler regs = none
user_pointer read_handler regs = some regs.rsi
user_pointer write_handler regs = some regs.rsi
user_pointer open_handler regs = some regs.rdi
user_pointer lmod_handler regs = some regs.rdi
user_pointer mkdir_handler regs = some regs.rdi
user_pointer mknod_handler regs = some regs.rdi

module _ (env : Env) (fuel : ℕ) (regs : Regs) (w : World) where
  rejected : (p : ℕ) → user_end ≤ p → validate_usrptr p ≡ false
  unfolding validate_usrptr
  rejected p h = le→ltb p user_end h

  pub call_handler-bad_pointer :
      (h : Handler) (p : ℕ)
      → user_pointer h regs ≡ some p
      → user_end ≤ p
      → call_handler env fuel h regs w ≡ some (record regs { rax = minus e_invptr }, w)
  unfolding call_handler sys_open sys_read sys_write sys_mkdir sys_lmod sys_mknod
  call_handler-bad_pointer unset_handler p given high = absurd (none≢some given)
  call_handler-bad_pointer default_handler p given high = absurd (none≢some given)
  call_handler-bad_pointer read_handler p given high =
      rw (some-injective given, rejected p high) refl
  call_handler-bad_pointer write_handler p given high =
      rw (some-injective given, rejected p high) refl
  call_handler-bad_pointer open_handler p given high =
      rw (some-injective given, rejected p high) refl
  call_handler-bad_pointer lmod_handler p given high =
      rw (some-injective given, rejected p high) refl
  call_handler-bad_pointer mkdir_handler p given high =
      rw (some-injective given, rejected p high) refl
  call_handler-bad_pointer mknod_handler p given high =
      rw (some-injective given, rejected p high) refl

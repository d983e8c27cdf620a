-- ===== src/Syscalls/Table.antt =====
-- kernel/syscalls/register_syscalls.c: the table of handlers, and the handler that an entry leads to.
use modos.Base.{
  ℕ, zero, suc, ◌+◌, ◌<◌, ◌≤◌, ◌≡◌, refl, arith, ◌==◌, if◌then◌else◌, write, write_ne, ◌⊎◌, inl,
  inr, ◌∙◌, List, [], ◌∷◌,
}
use modos.Fs.{M, fault}
use modos.Machine.{Regs}
use modos.Syscalls.{
  Env, syscall_max, default_syscall_handler, sys_open, sys_read, sys_write, sys_mkdir, sys_lmod,
  sys_mknod,
}

-- The functions that the table points to.
pub data Handler : Type 0 where
  unset_handler default_handler read_handler write_handler open_handler : Handler
  lmod_handler mkdir_handler mknod_handler : Handler

-- The loop that fills the table, from entry `i` on.
unfoldable pub fill_table : ℕ → ℕ → (ℕ → Handler) → ℕ → Handler
fill_table zero i table = table
fill_table (suc left) i table = fill_table left (i + 1) (write table i default_handler)

unfoldable pub register_syscalls : (ℕ → Handler) → ℕ → Handler
register_syscalls table =
    let t0 = fill_table syscall_max 0 table in
    let t1 = write (write (write t0 0 read_handler) 1 write_handler) 2 open_handler in
    let t2 = write (write t1 60 default_handler) 175 lmod_handler in
    write (write t2 83 mkdir_handler) 133 mknod_handler

-- `call *%rax` of sysentry; an entry that is not set is NULL.
unfoldable pub call_handler : (env : Env) (fuel : ℕ) → Handler → Regs → M Regs
call_handler env fuel unset_handler regs = fault
call_handler env fuel default_handler regs = default_syscall_handler regs
call_handler env fuel read_handler regs = sys_read env fuel regs
call_handler env fuel write_handler regs = sys_write env fuel regs
call_handler env fuel open_handler regs = sys_open env fuel regs
call_handler env fuel lmod_handler regs = sys_lmod env fuel regs
call_handler env fuel mkdir_handler regs = sys_mkdir env fuel regs
call_handler env fuel mknod_handler regs = sys_mknod env fuel regs

-- What each number is for, by syscalls.h.
abbrev pub numbered : List (ℕ × Handler)
numbered =
    (0, read_handler)
    ∷ (1, write_handler)
    ∷ (2, open_handler)
    ∷ (83, mkdir_handler)
    ∷ (133, mknod_handler)
    ∷ (175, lmod_handler)
    ∷ []

abbrev pub find_handler : List (ℕ × Handler) → ℕ → Handler
find_handler [] n = default_handler
find_handler ((k, h) ∷ rest) n = if k == n then h else find_handler rest n

fill_table-in :
    (left i : ℕ) (table : ℕ → Handler) (n : ℕ)
    → n < i + left
    → i ≤ n ⊎ (table n ≡ default_handler)
    → fill_table left i table n ≡ default_handler
unfolding fill_table
fill_table-in zero i table n h (inl c) = absurd (omega arith)
fill_table-in zero i table n h (inr d) = d
fill_table-in (suc left) i table n h c =
    fill_table-in left (i + 1) (write table i default_handler) n (omega arith) (ground (arith, c))

fill_table-out :
    (left i : ℕ) (table : ℕ → Handler) (n : ℕ) → i + left ≤ n → fill_table left i table n ≡ table n
unfolding fill_table
fill_table-out zero i table n h = refl
fill_table-out (suc left) i table n h =
    fill_table-out left (i + 1) (write table i default_handler) n (omega arith)
    ∙ write_ne table i default_handler n (omega arith)

-- Every number below SYSCALL_MAX has the handler that syscalls.h names for it, or the default
-- handler, and every entry from SYSCALL_MAX on is as before.
pub register_syscalls_lem :
    (table : ℕ → Handler) (n : ℕ)
    → (n < syscall_max → register_syscalls table n ≡ find_handler numbered n)
      × (syscall_max ≤ n → register_syscalls table n ≡ table n)
unfolding register_syscalls
register_syscalls_lem table n = (
  (λ h.
      let base = fill_table-in syscall_max 0 table n h (inl (omega arith)) in ground (arith, base)),
  (λ h. let base = fill_table-out syscall_max 0 table n h in ground (arith, base)),
)

-- ===== src/Syscalls/Opened.antt =====
-- kernel/syscalls/register_syscalls.c and kernel/fs/open.c: the descriptor that open gives.
use mathlib.Core.Path.{subst}
use modos.Base.{ℕ, ◌<◌, ◌≤◌, ◌≡◌, ◌≢◌, refl, sym, lt→ltb, some}
use modos.Machine.{Regs}
use modos.Fs.{World, current_process, fd_max, gfid_max, ◌>>=◌}
use modos.Fs.Open.Fd.{IsFileAt, KeepsFiles, IsDense}
use modos.Fs.Open.Reached.{Reaches, do_openat-Reaches}
use modos.Fs.Walk.Whole.{file_block}
use modos.Syscalls.{Env, user_end, validate_usrptr, returns, sys_open, sys_read, sys_write}
use modos.Syscalls.Files.{IsOpen, fops_of, sys_read-sys_write}

IsOpen-kept : (w w' : World) (file : ℕ) → KeepsFiles w w' → IsOpen w file → IsOpen w' file
IsOpen-kept w w' file k o = record {
  given = o.given;
  vnode = rw k.files o.vnode;
  fops = rw (k.files, k.nodes) o.fops;
}

fops_of-kept : (w w' : World) (file : ℕ) → KeepsFiles w w' → fops_of w' file ≡ fops_of w file
fops_of-kept w w' file k = rw (k.files, k.nodes, k.fops_at) refl

module _ (env : Env) (later : ℕ) (regs regs' : Regs) (w w1 : World) where
  -- When the path of the system call open is below USER_END and leads to a node, as the comparisons of
  -- walk_path decide and through no symbolic link, its driver accepts it and leaves n_fds, the
  -- descriptors below n_fds are those in use, and the tables have room: with enough fuel, open returns
  -- n_fds, which was free, and then the system calls read and write with that descriptor and a buffer
  -- below USER_END call the read and the write of the node's file, with the buffer, length and offset
  -- of their registers.
  pub sys_open-sys_read :
      regs.rdi < user_end
      → Reaches env.calls w (current_process w).cwd regs.rdi w1
      → (current_process w1).n_fds ≡ (current_process w).n_fds
      → IsDense w1
      → IsOpen w1 (file_block w)
      → 0 < w1.n_gfids
      → w1.n_gfids < gfid_max
      → (current_process w).n_fds < fd_max
      → (fops_of w1 (file_block w)).read ≢ 0
      → (fops_of w1 (file_block w)).write ≢ 0
      → regs'.rdi ≡ (current_process w).n_fds
      → regs'.rsi < user_end
      → (enough : ℕ) × (w2 : World) × ((fuel : ℕ)
          → enough ≤ fuel
          → sys_open env fuel regs w ≡ some (record regs { rax = (current_process w).n_fds }, w2))
        × ((current_process w1).fdtable (current_process w).n_fds ≡ 0)
        × (sys_read env later regs' w2
            ≡ (env.calls.call_read
                    (fops_of w1 (file_block w)).read
                    (file_block w)
                    regs'.rsi
                    regs'.rdx
                    regs'.r8
                  >>= returns regs')
                w2)
        × (sys_write env later regs' w2
            ≡ (env.calls.call_write
                    (fops_of w1 (file_block w)).write
                    (file_block w)
                    regs'.rsi
                    regs'.rdx
                    regs'.r8
                  >>= returns regs')
                w2)
  unfolding sys_open validate_usrptr
  sys_open-sys_read a reached count dense o c d room read write same b =
      let file = file_block w in
      let (enough, w2, opened, unused, at, others, dense', kept) =
        do_openat-Reaches env.calls (current_process w).cwd regs.rdi w w1 reached count dense c d
          room in
      let fops = fops_of-kept w1 w2 file kept in
      let at' = subst (λ j. IsFileAt w2 j file) (sym same) at in
      let (reads, writes) =
        sys_read-sys_write env later regs' w2 file b (subst (λ j. j < fd_max) (sym same) room) at'
          (IsOpen-kept w1 w2 file kept o) (rw fops read) (rw fops write) in
      (
        enough,
        w2,
        (λ fuel more. rw (lt→ltb regs.rdi user_end a, opened fuel more) refl),
        unused,
        rw⁻¹ fops reads,
        rw⁻¹ fops writes,
      )

-- ===== src/Syscalls/Files.antt =====
-- kernel/syscalls/register_syscalls.c: reading and writing through a descriptor.
use modos.Base.{ℕ, ◌<◌, ◌≡◌, ◌≢◌, refl, lt→ltb, ne→==, some, ◌⊎◌, inl, inr, eq→==}
use modos.Fs.{World, Fops, current_process, fd_max, ◌>>=◌}
use modos.Fs.Access.{load_node_lem, load_file_lem, load_fops_lem, not_null_lem}
use modos.Fs.Gfid.{resolve_gfid}
use modos.Fs.Open.{minus}
use modos.Fs.Open.Fd.{IsFileAt}
use modos.Machine.{Regs}
use modos.Syscalls.{
  Env, user_end, e_fdclsd, e_badfd, validate_usrptr, descriptor_file, returns, sys_read, sys_write,
}

-- The node behind a file, and its functions.
abbrev pub fops_of : World → ℕ → Fops
fops_of w file = w.fops_at (w.nodes (w.files file).vnode).fops

-- Pointers of an open file that are not NULL.
pub record IsOpen (w : World) (file : ℕ) : Type 0 where
  pub given : file ≢ 0
  pub vnode : (w.files file).vnode ≢ 0
  pub fops : (w.nodes (w.files file).vnode).fops ≢ 0

descriptor_file_lem :
    (w : World) (fd file : ℕ)
    → fd < fd_max
    → file ≢ 0
    → IsFileAt w fd file
    → descriptor_file fd w ≡ some ((file, 0), w)
unfolding descriptor_file
descriptor_file_lem w fd file a b at =
    rw
      (
        lt→ltb fd fd_max a,
        ne→== ((current_process w).fdtable fd) 0 at.given,
        at.means,
        ne→== file 0 b,
      )
      refl

closed_descriptor :
    (w : World) (fd error : ℕ)
    → fd < fd_max
    → ((current_process w).fdtable fd ≡ 0) × (error ≡ e_fdclsd)
      ⊎ ((current_process w).fdtable fd ≢ 0)
        × (resolve_gfid ((current_process w).fdtable fd) w ≡ some (0, w))
        × (error ≡ e_badfd)
    → descriptor_file fd w ≡ some ((0, minus error), w)
unfolding descriptor_file
closed_descriptor w fd error a (inl (none_there, e)) =
    rw (lt→ltb fd fd_max a, eq→== ((current_process w).fdtable fd) 0 none_there, e) refl
closed_descriptor w fd error a (inr (given, gone, e)) =
    rw (lt→ltb fd fd_max a, ne→== ((current_process w).fdtable fd) 0 given, gone, e) refl

module _ (env : Env) (fuel : ℕ) (regs : Regs) (w : World) where
  read_open :
      (file : ℕ)
      → regs.rsi < user_end
      → descriptor_file regs.rdi w ≡ some ((file, 0), w)
      → IsOpen w file
      → (fops_of w file).read ≢ 0
      → sys_read env fuel regs w
        ≡ (env.calls.call_read (fops_of w file).read file regs.rsi regs.rdx regs.r8
              >>= returns regs)
            w
  unfolding sys_read validate_usrptr
  read_open file p d o given =
      rw
        (
          lt→ltb regs.rsi user_end p,
          d,
          ne→== file 0 o.given,
          load_file_lem file o.given w,
          load_node_lem (w.files file).vnode o.vnode w,
          load_fops_lem (w.nodes (w.files file).vnode).fops o.fops w,
          not_null_lem (fops_of w file).read given w,
        )
        refl

  write_open :
      (file : ℕ)
      → regs.rsi < user_end
      → descriptor_file regs.rdi w ≡ some ((file, 0), w)
      → IsOpen w file
      → (fops_of w file).write ≢ 0
      → sys_write env fuel regs w
        ≡ (env.calls.call_write (fops_of w file).write file regs.rsi regs.rdx regs.r8
              >>= returns regs)
            w
  unfolding sys_write validate_usrptr
  write_open file p d o given =
      rw
        (
          lt→ltb regs.rsi user_end p,
          d,
          ne→== file 0 o.given,
          load_file_lem file o.given w,
          load_node_lem (w.files file).vnode o.vnode w,
          load_fops_lem (w.nodes (w.files file).vnode).fops o.fops w,
          not_null_lem (fops_of w file).write given w,
        )
        refl

  -- sys_read and sys_write with a descriptor that stands for an open file, and a buffer below
  -- USER_END, call the file's read and write with the buffer, length and offset of the registers,
  -- and put the result in rax.
  pub sys_read-sys_write :
      (file : ℕ)
      → regs.rsi < user_end
      → regs.rdi < fd_max
      → IsFileAt w regs.rdi file
      → IsOpen w file
      → (fops_of w file).read ≢ 0
      → (fops_of w file).write ≢ 0
      → (sys_read env fuel regs w
          ≡ (env.calls.call_read (fops_of w file).read file regs.rsi regs.rdx regs.r8
                >>= returns regs)
              w)
        × (sys_write env fuel regs w
            ≡ (env.calls.call_write (fops_of w file).write file regs.rsi regs.rdx regs.r8
                  >>= returns regs)
                w)
  sys_read-sys_write file p a at o r s =
      let d = descriptor_file_lem w regs.rdi file a o.given at in
      (read_open file p d o r, write_open file p d o s)

  -- With a descriptor that stands for no file, or whose file has been removed, and a buffer below
  -- USER_END, both return -E_FDCLSD or -E_BADFD in rax and change nothing else.
  pub sys_read-closed :
      (error : ℕ)
      → regs.rsi < user_end
      → regs.rdi < fd_max
      → ((current_process w).fdtable regs.rdi ≡ 0) × (error ≡ e_fdclsd)
        ⊎ ((current_process w).fdtable regs.rdi ≢ 0)
          × (resolve_gfid ((current_process w).fdtable regs.rdi) w ≡ some (0, w))
          × (error ≡ e_badfd)
      → (sys_read env fuel regs w ≡ some (record regs { rax = minus error }, w))
        × (sys_write env fuel regs w ≡ some (record regs { rax = minus error }, w))
  unfolding sys_read sys_write validate_usrptr
  sys_read-closed error p a why =
      let d = closed_descriptor w regs.rdi error a why in
      (rw (lt→ltb regs.rsi user_end p, d) refl, rw (lt→ltb regs.rsi user_end p, d) refl)

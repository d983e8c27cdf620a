-- ===== src/Proc/Descriptors.antt =====
-- kernel/proc/exec_process.c: the descriptors of a program that is started.
use modos.Base.{
  ℕ, ◌*◌, ◌<◌, ◌≡◌, ◌≢◌, refl, some, lt→ltb, ne→==, eq→==, ltb, write, Bool-cases, inl, inr,
}
use modos.Mm.Arena
use modos.Fs.{World, Process, current_process, kmalloc, update_process, fd_max}
use modos.Fs.Access.{not_null_lem}
use modos.Proc.{Fresh, renew_fds, copy_fds}

-- The block for a new table.
abbrev pub table_block : World → ℕ
table_block w = (Arena.kmalloc (8 * fd_max) w.heap).0

module _ (fresh : Fresh) (pid : ℕ) (w : World) (given : table_block w ≢ 0) where
  -- When there is memory for the table: a process that is not the current one gets the current one's
  -- descriptors, those below the count of descriptors, and its count. But the current process,
  -- which is the only one that do_exec starts, is left with its count and
  -- with whatever the new block contains in place of its descriptors.
  pub renew_fds_lem :
      (w' : World) × (renew_fds fresh pid w ≡ some (tt, w'))
      × ((w'.procs pid).n_fds ≡ (current_process w).n_fds)
      × (pid ≢ w.current_pid
          → (fd : ℕ) → fd < (current_process w).n_fds
          → (w'.procs pid).fdtable fd ≡ (current_process w).fdtable fd)
      × (pid ≡ w.current_pid → (fd : ℕ) → (w'.procs pid).fdtable fd ≡ fresh.block fd)
  unfolding renew_fds update_process kmalloc copy_fds
  renew_fds_lem =
      let old = current_process w in
      let heap' = (Arena.kmalloc (8 * fd_max) w.heap).1 in
      let counted : Process = record (w.procs pid) { n_fds = old.n_fds } in
      let w1 : World = record w { heap = heap'; procs = write w.procs pid counted } in
      let emptied : Process = record (w1.procs pid) { fdtable = fresh.block } in
      let w2 : World = record w1 { procs = write w1.procs pid emptied } in
      let from = (w2.procs w.current_pid).fdtable in
      let p = w2.procs pid in
      let copied : Process = record p { fdtable = copy_fds p.n_fds from p.fdtable } in
      let w3 : World = record w2 { procs = write w2.procs pid copied } in
      let self = eq→== pid pid refl in
      (
        w3,
        rw (not_null_lem (table_block w) given w1) refl,
        rw self refl,
        (λ other fd a. rw (self, ne→== pid w.current_pid other, lt→ltb fd old.n_fds a) refl),
        (λ same fd. elim (Bool-cases (ltb fd old.n_fds)) [
          | inl below ↦ rw (self, eq→== pid w.current_pid same, below) refl
          | inr above ↦ rw (self, above) refl
        ]),
      )

-- ===== src/Fs/Open/Fd.antt =====
-- kernel/fs/open.c and gfid.c: what a new file descriptor stands for.
use modos.Base.{
  ℕ, ◌+◌, ◌<◌, ◌≤◌, ◌≡◌, inl, inr, Bool-cases, ◌==◌, ◌≢◌, refl, sym, ap, arith, ltb, write,
  write_self, write_ne, lt→ltb, ne→==, guard-some, ◌∙◌, some, u64,
}
use modos.Fs.{World, Process, Calls, current_process, gfid_max, fd_max}
use modos.Fs.Gfid.{resolve_gfid, add_file}
use modos.Fs.Open.{openat, do_openat, do_openat_global, minus}

-- The file behind a descriptor of the current process.
pub record IsFileAt (w : World) (fd file : ℕ) : Type 0 where
  pub given : (current_process w).fdtable fd ≢ 0
  pub old : (current_process w).fdtable fd < w.n_gfids
  pub means : resolve_gfid ((current_process w).fdtable fd) w ≡ some (file, w)

-- The state after the entries of a new file in both tables.
abbrev pub entered : World → ℕ → ℕ → World
entered w fd file =
    let p = current_process w in
    record w {
      gfids = write w.gfids w.n_gfids file;
      n_gfids = w.n_gfids + 1;
      procs =
          write w.procs w.current_pid
            (record p { fdtable = write p.fdtable fd w.n_gfids; n_fds = u64 (p.n_fds + 1) });
    }

entered-process :
    (w : World) (fd file j : ℕ)
    → (current_process (entered w fd file)).fdtable j
      ≡ write (current_process w).fdtable fd w.n_gfids j
entered-process w fd file j = ap (λ p. p.fdtable j) (write_self w.procs w.current_pid _)

pub entered-IsFileAt :
    (w : World) (fd file : ℕ)
    → 0 < w.n_gfids
    → w.n_gfids < gfid_max
    → IsFileAt (entered w fd file) fd file
unfolding resolve_gfid
entered-IsFileAt w fd file a b =
    let at = entered-process w fd file fd ∙ write_self (current_process w).fdtable fd w.n_gfids in
    record {
      given = omega (arith, at);
      old = omega (arith, at);
      means = rw (at, lt→ltb w.n_gfids gfid_max b, write_self w.gfids w.n_gfids file) refl;
    }

pub entered-others :
    (w : World) (fd file j file' : ℕ)
    → j ≢ fd
    → IsFileAt w j file'
    → IsFileAt (entered w fd file) j file'
unfolding resolve_gfid
entered-others w fd file j file' ne f =
    let at =
      entered-process w fd file j
      ∙ write_ne (current_process w).fdtable fd w.n_gfids j (λ e. ne (sym e)) in
    let (room, e) = guard-some (ltb ((current_process w).fdtable j) gfid_max) f.means in
    let same = ap (λ r. r.0) e in
    record {
      given = rw at f.given;
      old = omega (arith, at, f.old);
      means =
          rw
            (
              at,
              room,
              write_ne w.gfids w.n_gfids file ((current_process w).fdtable j)
                  (omega (arith, f.old)),
              same,
            )
            refl;
    }

-- A change that leaves the files and what is behind them.
pub record KeepsFiles (w w' : World) : Type 0 where
  pub files : w'.files ≡ w.files
  pub nodes : w'.nodes ≡ w.nodes
  pub fops_at : w'.fops_at ≡ w.fops_at
  pub mem : w'.mem ≡ w.mem

pub entered-KeepsFiles : (w : World) (fd file : ℕ) → KeepsFiles w (entered w fd file)
entered-KeepsFiles w fd file = record { files = refl; nodes = refl; fops_at = refl; mem = refl }

-- The descriptors in use are those below n_fds.
pub record IsDense (w : World) : Type 0 where
  pub used : (j : ℕ) → j < (current_process w).n_fds → (current_process w).fdtable j ≢ 0
  pub free : (j : ℕ) → (current_process w).n_fds ≤ j → (current_process w).fdtable j ≡ 0

pub entered-IsDense :
    (w : World) (file : ℕ)
    → 0 < w.n_gfids
    → (current_process w).n_fds < fd_max
    → IsDense w
    → IsDense (entered w (current_process w).n_fds file)
entered-IsDense w file some_id room dense =
    let p = current_process w in
    let fd = p.n_fds in
    let count : (current_process (entered w fd file)).n_fds ≡ fd + 1 =
      ap (λ (q : Process). q.n_fds) (write_self w.procs w.current_pid _) ∙ omega (arith, room) in
    let at = λ (j : ℕ). entered-process w fd file j in
    record {
      used = λ j lt e. elim (Bool-cases (fd == j)) [
        | inl same ↦
            let new : write p.fdtable fd w.n_gfids j ≡ w.n_gfids = rw same refl in
            omega (arith, some_id, sym e ∙ at j ∙ new)
        | inr other ↦
            let old : write p.fdtable fd w.n_gfids j ≡ p.fdtable j = rw other refl in
            dense.used j (ground (arith, lt, count, other)) (sym (at j ∙ old) ∙ e)
      ];
      free = λ j le.
          at j
          ∙ write_ne p.fdtable fd w.n_gfids j (omega (arith, le, count))
          ∙ dense.free j (omega (arith, le, count));
    }

module _ (calls : Calls) (fuel dir path : ℕ) (w w1 : World) where
  -- When openat gives no file, do_openat returns -1 in the state that openat left.
  pub do_openat-failed :
      openat calls fuel dir path w ≡ some (0, w1)
      → do_openat calls fuel dir path w ≡ some (minus 1, w1)
  unfolding do_openat do_openat_global openat
  do_openat-failed h = rw h refl

  -- When openat gives a file, both tables have room and the next id is not 0, do_openat returns n_fds, and
  -- enters the file behind it.
  pub do_openat-entered :
      (file : ℕ)
      → openat calls fuel dir path w ≡ some (file, w1)
      → file ≢ 0
      → 0 < w1.n_gfids
      → w1.n_gfids < gfid_max
      → (current_process w).n_fds < fd_max
      → do_openat calls fuel dir path w
        ≡ some ((current_process w).n_fds, entered w1 (current_process w).n_fds file)
  unfolding do_openat do_openat_global add_file openat
  do_openat-entered file h some_file a b c =
      rw
        (
          h,
          ne→== file 0 some_file,
          lt→ltb w1.n_gfids gfid_max b,
          ne→== w1.n_gfids 0 (omega arith),
          lt→ltb (current_process w).n_fds fd_max c,
        )
        refl

-- ===== src/Modules/Refuse.antt =====
-- kernel/proc/exec_elf.c and kernel/module/load_module.c: files that are no program or no module.
use modos.Base.{ℕ, ◌≡◌, refl, Bool-cases, true, false, inl, inr, some, none}
use modos.Fs.{World, Calls}
use modos.Elf.{ehdr_size, et_exec, et_dyn, header_ok, negative, read_file}
use modos.Elf.Header.{IsElf, header_ok-IsElf}
use modos.Proc.{Fresh}
use modos.Proc.Exec.{exec_elf}
use modos.Modules.{Linked}
use modos.Modules.Load.{load_module}

refused :
    (e_type : ℕ) (w : World) (hdr : ℕ)
    → ¬ IsElf e_type w.mem hdr
    → header_ok e_type w.mem hdr ≡ false
refused e_type w hdr not_elf = elim (Bool-cases (header_ok e_type w.mem hdr)) [
  | inl ok ↦ absurd (not_elf (header_ok-IsElf e_type w.mem hdr ok))
  | inr bad ↦ bad
]

module _ (calls : Calls) (fresh : Fresh) (linked : Linked) (fuel file pid ret : ℕ)
    (w w1 : World) where
  -- When the first read of a file's header returns: exec_elf returns to its caller, with nothing
  -- changed but by that read, if the read failed or the header is not that of an executable; and
  -- load_module gives NULL, with nothing else changed, if it failed or the header is not that of a
  -- shared object.
  pub exec_elf-load_module :
      read_file calls file fresh.hdr ehdr_size 0 w ≡ some (ret, w1)
      → (negative ret ≡ true
          → (exec_elf calls fresh fuel file pid w ≡ some (none, w1))
            × (load_module calls linked fuel fresh.hdr file w ≡ some (0, w1)))
        × (¬ IsElf et_exec w1.mem fresh.hdr
            → exec_elf calls fresh fuel file pid w ≡ some (none, w1))
        × (¬ IsElf et_dyn w1.mem fresh.hdr
            → load_module calls linked fuel fresh.hdr file w ≡ some (0, w1))
  unfolding exec_elf load_module
  exec_elf-load_module run = (
    (λ bad. (rw (run, bad) refl, rw (run, bad) refl)),
    (λ not_elf. elim (Bool-cases (negative ret)) [
      | inl bad ↦ rw (run, bad) refl
      | inr good ↦ rw (run, good, refused et_exec w1 fresh.hdr not_elf) refl
    ]),
    (λ not_elf. elim (Bool-cases (negative ret)) [
      | inl bad ↦ rw (run, bad) refl
      | inr good ↦ rw (run, good, refused et_dyn w1 fresh.hdr not_elf) refl
    ]),
  )

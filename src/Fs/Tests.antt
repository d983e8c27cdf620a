-- ===== src/Fs/Tests.antt =====
-- Runs of kernel/fs on a small state, and instances of its theorems.
use modos.Base.{ℕ, ◌≤◌, ◌≡◌, ◌≢◌, refl, arith, some, write, [], ◌∷◌, ◌==◌, if◌then◌else◌}
use modos.Fs.{World, current_process}
use modos.Fs.Sample.{sample, sample_calls, sample_fops, sample_root, texts, child_file}
use modos.Fs.Gfid.{add_file, remove_file, resolve_gfid}
use modos.Fs.Gfid.Trace
use modos.Fs.Gfid.Trace.{Steps, add_file-Steps}
use mathlib.Core.Option.{Option, or_else}
use modos.Fs.Walk.{find_child}
use modos.Fs.Open.{do_openat, append_child}
use modos.Fs.Open.Child.{is_named, when, append_child-find_child}
use modos.Fs.Open.Sample.{root_file, opened, root-Reaches, opened-IsDense}
use modos.Fs.Open.Reached.{do_openat-Reaches}
use modos.Mm.Arena
use modos.Fs.Open.Fd.{IsFileAt, KeepsFiles, IsDense}
use modos.Fs.Chrdev.{register_chrdev, mkcdev}
use modos.Fs.Chrdev.Device.{HasRoom, IsLinked, register_chrdev-mkcdev}

-- The state after add_file of the file at 0x77, and after its removal.
abbrev with_file : World
with_file = record sample { gfids = write sample.gfids 1 0x77; n_gfids = 2 }

abbrev without_file : World
without_file = record with_file { gfids = write with_file.gfids 1 0 }

file_added : add_file 0x77 sample ≡ some (1, with_file)
unfolding add_file
file_added = refl

file_removed : Steps with_file (Trace.Op.removes 1 ∷ []) without_file
unfolding remove_file
file_removed =
    Trace.Steps.step (Trace.Op.removes 1) [] with_file without_file without_file
      (Trace.Step.removed 1 with_file without_file refl) (Trace.Steps.stop without_file)

-- n_gfids starts at 1.
abbrev first_id : ℕ
first_id = 1

add_file-Steps_example :
    (first_id ≢ 0)
    × (resolve_gfid 1 without_file ≡ some (0, without_file))
    × ((file' id' : ℕ) (w3 : World) → add_file file' without_file ≡ some (id', w3) → id' ≢ first_id)
add_file-Steps_example =
    add_file-Steps 0x77 1 (Trace.Op.removes 1 ∷ []) sample with_file without_file (omega arith)
      file_added file_removed

do_openat-Reaches_example :
    (enough : ℕ) × (w2 : World) × ((fuel : ℕ)
      → enough ≤ fuel
      → do_openat sample_calls fuel 0x100 0x200 sample ≡ some (0, w2))
    × ((current_process opened).fdtable 0 ≡ 0)
    × IsFileAt w2 0 root_file
    × ((j file' : ℕ) → j ≢ 0 → IsFileAt opened j file' → IsFileAt w2 j file')
    × IsDense w2
    × KeepsFiles opened w2
unfolding Arena.kmalloc
do_openat-Reaches_example =
    do_openat-Reaches sample_calls 0x100 0x200 sample opened root-Reaches refl opened-IsDense
      (omega arith) (omega arith) (omega arith)

sample-HasRoom : HasRoom sample 0x100
sample-HasRoom = record {
  given = omega arith;
  type = refl;
  children = omega arith;
  apart = omega arith;
  count = omega arith;
}

register_chrdev-mkcdev_example :
    (w1 w2 : World) × (register_chrdev 0x9000 10 0x300 sample ≡ some (10, w1))
    × (mkcdev 0x9000 0x100 0x200 10 3 w1 ≡ some (0, w2))
    × IsLinked sample 0x100 sample_fops 10 3 w2
register_chrdev-mkcdev_example =
    register_chrdev-mkcdev 0x9000 0x300 10 0x200 3 0x100 sample (omega arith) (omega arith)
      (omega arith) sample-HasRoom

-- An empty root, and the file "ba" at 0x7000.
abbrev childless : World
childless = record sample {
  mem = texts;
  nodes = λ p. if p == 0x100 then sample_root else child_file;
}

append_child-find_child_example :
    (r : Option ℕ) × (w' : World) × (find_child 0 0 0x5000 0x200 1 childless ≡ some (r, childless))
    × (append_child 0x100 0x7000 childless ≡ some (tt, w'))
    × (w'.nodes 0x100 ≡ record sample_root { n_children = 1 })
    × (w'.nodes 0x5000 ≡ child_file)
    × (find_child (w'.nodes 0x100).n_children 0 (w'.nodes 0x100).children 0x200 1 w'
        ≡ some (or_else r (when (is_named texts child_file 0x200 1) 0x5000), w'))
append_child-find_child_example =
    append_child-find_child childless 0x100 0x7000 0x200 1 (omega arith) (omega arith) (omega arith)
      (omega arith) (λ i below. omega (arith, below))

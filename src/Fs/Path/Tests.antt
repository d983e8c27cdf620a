-- ===== src/Fs/Path/Tests.antt =====
-- Runs of the functions on paths, and an instance of their theorem.
use modos.Base.{ℕ, zero, suc, ◌+◌, ◌<◌, ◌≡◌, refl, arith, some, List, [], ◌∷◌, ◌++◌, length, write}
use modos.Str.{memrchr, strlen, strlen_from}
use modos.Str.Strings.{CString}
use modos.Mm.Arena
use modos.Fs.{World, strlen as fs_strlen}
use modos.Fs.Sample.{sample, sample_heap}
use modos.Fs.Path.{get_basename, get_dirname}
use modos.Fs.Path.Split.{IsBasename, HasBlock, get_dirname-get_basename}

-- "a/b/" at 0x600
abbrev a_b : List ℕ
a_b = 0x61 ∷ 0x2f ∷ 0x62 ∷ 0x2f ∷ []

abbrev with_path : World
with_path = record sample {
  mem = write (write (write (write (λ _. 0) 0x600 0x61) 0x601 0x2f) 0x602 0x62) 0x603 0x2f;
}

-- The basename keeps the slash in front and the one at the end.
get_basename_runs : get_basename 5 0x600 with_path ≡ some (0x601, with_path)
unfolding get_basename fs_strlen strlen strlen_from memrchr
get_basename_runs = refl

block_at : (n : ℕ) → n < 4 → (Arena.kmalloc (n + 1) sample_heap).0 ≡ 0xFFFF_FFFF_0000_0100
unfolding Arena.kmalloc
block_at zero h = refl
block_at (suc zero) h = refl
block_at (suc (suc zero)) h = refl
block_at (suc (suc (suc zero))) h = refl
block_at (suc (suc (suc (suc n)))) h = absurd (omega arith)

with_path-HasBlock : HasBlock with_path 0x600 4
with_path-HasBlock = record {
  given = λ n h. omega (arith, block_at n h);
  apart = λ n h. omega (arith, block_at n h);
}

get_dirname-get_basename_example :
    (d : List ℕ) × (b : List ℕ) × (a_b ≡ d ++ b)
    × IsBasename d b
    × (get_basename 5 0x600 with_path ≡ some (0x600 + length d, with_path))
    × CString with_path.mem (0x600 + length d) b
    × (prebase : ℕ) × (w' : World) × (get_dirname 5 0x600 with_path ≡ some (prebase, w'))
    × CString w'.mem prebase d
    × CString w'.mem 0x600 a_b
get_dirname-get_basename_example =
    get_dirname-get_basename a_b 5 0x600 with_path (omega arith) (omega arith) (λ e. cc e)
      (omega arith) (omega arith) with_path-HasBlock

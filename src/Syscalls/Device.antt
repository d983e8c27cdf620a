-- ===== src/Syscalls/Device.antt =====
-- kernel/syscalls/register_syscalls.c: the device number that sys_mknod takes apart.
use mathlib.Core.Path.{ap₂}
use modos.Base.{ℕ, ◌+◌, ◌*◌, ◌/◌, ◌%◌, ◌^◌, ◌<◌, ◌≡◌, ◌∙◌, arith, bit_or, bit_or_fields, u32}
use modos.Syscalls.{dev_major, dev_minor}

-- A dev_t of glibc: the low 12 bits of the major number stand at bit 8 and the rest at bit 44, the
-- low 8 bits of the minor number at bit 0 and the rest at bit 20.
abbrev pub makedev : ℕ → ℕ → ℕ
makedev major minor =
    major / 2 ^ 12 * 2 ^ 44 + minor / 2 ^ 8 * 2 ^ 20 + major % 2 ^ 12 * 2 ^ 8 + minor % 2 ^ 8

module _ (major minor : ℕ) (a : major < 2 ^ 32) (b : minor < 2 ^ 32) where
  major_high : u32 (makedev major minor / 2 ^ 44 % 2 ^ 20 * 2 ^ 12) ≡ major / 2 ^ 12 * 2 ^ 12
  major_high = omega (arith, a, b)

  major_low : u32 (makedev major minor / 2 ^ 8 % 2 ^ 12) ≡ major % 2 ^ 12
  major_low = omega (arith, a, b)

  minor_high : u32 (makedev major minor / 2 ^ 20 % 2 ^ 24 * 2 ^ 8) ≡ minor / 2 ^ 8 * 2 ^ 8
  minor_high = omega (arith, a, b)

  minor_low : u32 (makedev major minor % 2 ^ 8) ≡ minor % 2 ^ 8
  minor_low = omega (arith, a, b)

  -- sys_mknod reads back the major and the minor number, of 32 bits each, that makedev put
  -- together.
  pub makedev_lem :
      (dev_major (makedev major minor) ≡ major) × (dev_minor (makedev major minor) ≡ minor)
  unfolding dev_major dev_minor
  makedev_lem = (
    ap₂ bit_or major_high major_low
        ∙ bit_or_fields 12 (major / 2 ^ 12) (major % 2 ^ 12) (omega arith)
        ∙ omega arith,
    ap₂ bit_or minor_high minor_low
        ∙ bit_or_fields 8 (minor / 2 ^ 8) (minor % 2 ^ 8) (omega arith)
        ∙ omega arith,
  )

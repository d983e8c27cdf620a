-- ===== src/Base/Memory.antt =====
-- A memory of cells addressed by numbers, and the write of one cell.
use Prim.Native.Nat.{ℕ}
use mathlib.Core.Path.{◌≡◌}
use mathlib.Core.Logic.{◌≢◌}
use native.Mathlib.Omega.{arith}
use modos.Base.Tests.{◌==◌, if◌then◌else◌}

module _ {ℓ} {A : Type ℓ} where
  abbrev pub write : (ℕ → A) → ℕ → A → ℕ → A
  write m p v q = if p == q then v else m q

  pub write_self : (m : ℕ → A) (p : ℕ) (v : A) → write m p v p ≡ v
  write_self m p v = ground arith

  pub write_ne : (m : ℕ → A) (p : ℕ) (v : A) (q : ℕ) → p ≢ q → write m p v q ≡ m q
  write_ne m p v q h = ground arith

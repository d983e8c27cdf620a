-- ===== src/Base/Bits.antt =====
-- Machine words as native numbers: a mask of low bits is `%`, a shift is `/` and `*`, a flag test
-- reads one bit, and `bit_or` is the native operation, with its laws at variables.
mod Step
use Step.{bit_or_step}
use Prim.Native.Nat.{
  ℕ, zero, suc, ◌+◌, ◌-◌, ◌*◌, ◌/◌, ◌%◌, ◌^◌, ◌≤◌, ◌<◌, max, bit_or, bit_or-bitwise,
}
use mathlib.Core.Path.{◌≡◌, refl, sym, ◌∙◌}
use mathlib.Core.Bool.{Bool, true, false, ◌||◌}
use native.Mathlib.Omega.{arith}
use native.Mathlib.Nat.{
  pow-suc, mul_comm, div-div-eq-div-mul, mod-eq-sub-mul-div, mul-div-le, mul-div_left, mul-mod_left,
  div-add-mod', div-eq_of_lt, mod-eq_of_lt, mod-lt, one-le-pow,
}
use modos.Base.Tests.{◌==◌}

-- uintptr_t, size_t, uint64_t
abbrev pub w64 : ℕ
w64 = 0x1_0000_0000_0000_0000

abbrev pub u8 : ℕ → ℕ
u8 x = x % 0x100

abbrev pub u16 : ℕ → ℕ
u16 x = x % 0x1_0000

abbrev pub u32 : ℕ → ℕ
u32 x = x % 0x1_0000_0000

abbrev pub u64 : ℕ → ℕ
u64 x = x % 0x1_0000_0000_0000_0000

-- `x & (1 << k)` as a truth value
abbrev pub has_bit : ℕ → ℕ → Bool
has_bit k x = (x / 2 ^ k) % 2 == 1

-- `x & 0xFFF`
abbrev pub low12 : ℕ → ℕ
low12 x = x % 0x1000

-- `x & ~0xFFF` of a word
abbrev pub clear12 : ℕ → ℕ
clear12 x = x / 0x1000 * 0x1000

-- One step of `bit_or`, seen from both halves.
pub bit_or-half : (a b : ℕ) → bit_or a b / 2 ≡ bit_or (a / 2) (b / 2)
bit_or-half a b = omega (arith, bit_or_step a b)

pub bit_or-parity : (a b : ℕ) → bit_or a b % 2 ≡ max (a % 2) (b % 2)
bit_or-parity a b = omega (arith, bit_or_step a b)

div-two-pow-suc : (x k : ℕ) → x / 2 ^ suc k ≡ x / 2 / 2 ^ k
div-two-pow-suc x k = rw (pow-suc 2 k, mul_comm (2 ^ k) 2, div-div-eq-div-mul x 2 (2 ^ k))

mod-two-pow-suc : (x k : ℕ) → x % 2 ^ suc k ≡ x / 2 % 2 ^ k * 2 + x % 2
mod-two-pow-suc x k =
    rw
      (
        mod-eq-sub-mul-div x (2 ^ suc k),
        div-two-pow-suc x k,
        pow-suc 2 k,
        mod-eq-sub-mul-div (x / 2) (2 ^ k),
      )
      (omega (arith, mul-div-le (x / 2) (2 ^ k)))

-- Shifting right takes `bit_or` apart.
pub bit_or_div : (k a b : ℕ) → bit_or a b / 2 ^ k ≡ bit_or (a / 2 ^ k) (b / 2 ^ k)
bit_or_div zero a b = ground arith
bit_or_div (suc k) a b =
    rw
      (
        div-two-pow-suc (bit_or a b) k,
        bit_or-half,
        bit_or_div k (a / 2) (b / 2),
        ← div-two-pow-suc a k,
        ← div-two-pow-suc b k,
      )
      refl

pub zero-bit_or : (b : ℕ) → bit_or 0 b ≡ b
zero-bit_or b = bit_or-bitwise 0 b

bit_or-zero_fuel : (n a : ℕ) → a ≤ n → bit_or a 0 ≡ a
bit_or-zero_fuel n zero h = refl
bit_or-zero_fuel zero (suc a) h = absurd (omega arith)
bit_or-zero_fuel (suc n) (suc a) h =
    omega (arith, bit_or_step (suc a) 0, bit_or-zero_fuel n (suc a / 2) (omega arith))

pub bit_or-zero : (a : ℕ) → bit_or a 0 ≡ a
bit_or-zero a = bit_or-zero_fuel a a (omega arith)

half-mod : (x k : ℕ) → x % 2 ^ suc k / 2 ≡ x / 2 % 2 ^ k
half-mod x k = omega (arith, mod-two-pow-suc x k)

parity-mod : (x k : ℕ) → x % 2 ^ suc k % 2 ≡ x % 2
parity-mod x k = omega (arith, mod-two-pow-suc x k)

-- Masking takes `bit_or` apart.
pub bit_or_mod : (k a b : ℕ) → bit_or a b % 2 ^ k ≡ bit_or (a % 2 ^ k) (b % 2 ^ k)
bit_or_mod zero a b = ground arith
bit_or_mod (suc k) a b = rw (
  mod-two-pow-suc (bit_or a b) k,
  bit_or-half a b,
  bit_or-parity a b,
  bit_or_mod k (a / 2) (b / 2),
  bit_or_step (a % 2 ^ suc k) (b % 2 ^ suc k),
  half-mod a k,
  half-mod b k,
  parity-mod a k,
  parity-mod b k,
)

-- `(q << k) | r` is a sum when `r` fits `k` bits.
pub bit_or_fields : (k q r : ℕ) → r < 2 ^ k → bit_or (q * 2 ^ k) r ≡ q * 2 ^ k + r
bit_or_fields k q r fits =
    let high : bit_or (q * 2 ^ k) r / 2 ^ k ≡ q =
      rw (bit_or_div k, mul-div_left q (one-le-pow k 2 (omega arith)), div-eq_of_lt fits)
        (bit_or-zero q) in
    let low : bit_or (q * 2 ^ k) r % 2 ^ k ≡ r =
      rw (bit_or_mod k, mul-mod_left q (2 ^ k), mod-eq_of_lt fits) (zero-bit_or r) in
    let whole = div-add-mod' (bit_or (q * 2 ^ k) r) (2 ^ k) in sym whole ∙ (rw (high, low))

-- Two numbers of `k` bits give a number of `k` bits.
pub bit_or-lt : (k a b : ℕ) → a < 2 ^ k → b < 2 ^ k → bit_or a b < 2 ^ k
bit_or-lt k a b p q =
    let fits : bit_or a b ≡ bit_or a b % 2 ^ k =
      rw (bit_or_mod k, mod-eq_of_lt p, mod-eq_of_lt q) in
    rw fits (mod-lt (bit_or a b) (one-le-pow k 2 (omega arith)))

-- Bits from `k` on come from the one operand when the other has `k` bits.
pub bit_or-low_div : (k a b : ℕ) → b < 2 ^ k → bit_or a b / 2 ^ k ≡ a / 2 ^ k
bit_or-low_div k a b p = rw (bit_or_div k, div-eq_of_lt p) (bit_or-zero (a / 2 ^ k))

-- A bit of `bit_or` is set when it is set in one of the operands.
pub bit_or_bit : (k a b : ℕ) → bit_or a b / 2 ^ k % 2 ≡ max (a / 2 ^ k % 2) (b / 2 ^ k % 2)
bit_or_bit k a b = rw (bit_or_div k) (bit_or-parity (a / 2 ^ k) (b / 2 ^ k))

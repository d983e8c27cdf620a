-- ===== src/Tar/Numbers.antt =====
-- kernel/tar/create_vfs.c: octal numbers of a header.
use native.Mathlib.Nat.{div-add-mod, add-mul, mul_assoc, pow-succ', add-mul-mod_self_left}
use modos.Base.{ℕ, zero, suc, ◌+◌, ◌*◌, ◌/◌, ◌%◌, ◌^◌, ◌<◌, ◌≡◌, sym, ap, ◌∙◌, arith, u32}
use modos.Str.{Memory}
use modos.Tar.{digit, oct2bin_from, oct2bin}

-- `size` octal digits for `n` stand at address `p`, the highest first.
abbrev pub Octal : Memory → ℕ → ℕ → ℕ → Type 0
Octal mem p zero n = n ≡ 0
Octal mem p (suc size) n =
    (q : ℕ) × (r : ℕ) × (q < 8)
    × (mem p ≡ 0x30 + q)
    × (n ≡ q * 8 ^ size + r)
    × Octal mem (p + 1) size r

-- A wrapped number may be scaled and added to before it wraps around.
u32-scale : (x m r : ℕ) → u32 (u32 x * m + r) ≡ u32 (x * m + r)
u32-scale x m r =
    let w : ℕ = 0x1_0000_0000 in
    let whole = ap (λ y. y * m) (div-add-mod x w) in
    let split = add-mul (w * (x / w)) (x % w) m in
    let around = mul_assoc w (x / w) m in
    sym (add-mul-mod_self_left (u32 x * m + r) w (x / w * m))
    ∙ ap u32 (omega (arith, whole, split, around))

digit_lem :
    (mem : Memory) (p q k : ℕ)
    → q < 8
    → mem p ≡ 0x30 + q
    → u32 (u32 (k * 8) + digit (mem p)) ≡ u32 (k * 8 + q)
unfolding digit
digit_lem mem p q k small at = rw at (ground (arith, small))

from_lem :
    (mem : Memory) (size p n k : ℕ)
    → Octal mem p size n
    → k < 2 ^ 32
    → oct2bin_from mem p size k ≡ u32 (k * 8 ^ size + n)
unfolding oct2bin_from
from_lem mem zero p n k o h = omega (arith, o, h)
from_lem mem (suc size) p n k (q, r, small, at, split, rest) h =
    let parts = add-mul (k * 8) q (8 ^ size) in
    let scale = mul_assoc k 8 (8 ^ size) in
    let power = ap (λ y. k * y) (pow-succ' 8 size) in
    rw (digit_lem mem p q k small at) (
      from_lem mem size (p + 1) r (u32 (k * 8 + q)) rest (omega arith)
      ∙ u32-scale (k * 8 + q) (8 ^ size) r
      ∙ ap u32 (omega (arith, parts, scale, power, split)))

-- On `size` octal digits for a number below 2^32, oct2bin returns the number.
pub oct2bin_lem :
    (mem : Memory) (size p n : ℕ) → Octal mem p size n → n < 2 ^ 32 → oct2bin mem p size ≡ n
unfolding oct2bin
oct2bin_lem mem size p n o h = from_lem mem size p n 0 o (omega arith) ∙ omega (arith, h)

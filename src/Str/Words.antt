-- ===== src/Str/Words.antt =====
-- Words of 16, 32 and 64 bits in a memory of bytes, the lowest byte first, as x86-64 keeps them, and
-- comparisons of memory with a literal of the source.
use modos.Base.{ℕ, zero, suc, ◌+◌, ◌*◌, ◌/◌, ◌%◌, Bool, true, ◌&&◌, List, [], ◌∷◌, ◌==◌, write}
use modos.Str.{Memory}

unfoldable pub load16 : Memory → ℕ → ℕ
load16 mem p = mem p + mem (p + 1) * 0x100

unfoldable pub load32 : Memory → ℕ → ℕ
load32 mem p = load16 mem p + load16 mem (p + 2) * 0x1_0000

unfoldable pub load64 : Memory → ℕ → ℕ
load64 mem p = load32 mem p + load32 mem (p + 4) * 0x1_0000_0000

-- The lowest `n` bytes of a value.
unfoldable pub store_bytes : ℕ → ℕ → ℕ → Memory → Memory
store_bytes zero p v mem = mem
store_bytes (suc n) p v mem = store_bytes n (p + 1) (v / 0x100) (write mem p (v % 0x100))

abbrev pub store64 : ℕ → ℕ → Memory → Memory
store64 p v mem = store_bytes 8 p v mem

-- `!memcmp(p, literal, n)` for a literal of n bytes
unfoldable pub same_bytes : Memory → ℕ → List ℕ → Bool
same_bytes mem p [] = true
same_bytes mem p (b ∷ bytes) = mem p == b && same_bytes mem (p + 1) bytes

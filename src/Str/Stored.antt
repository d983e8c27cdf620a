-- ===== src/Str/Stored.antt =====
-- Words in a memory of bytes: what is stored is loaded again.
use modos.Base.{
  ℕ, zero, suc, ◌+◌, ◌*◌, ◌/◌, ◌%◌, ◌^◌, ◌<◌, ◌≤◌, ◌≡◌, ◌⊎◌, inl, refl, ap, ◌∙◌, arith, write,
  write_self, write_ne,
}
use modos.Str.{Memory}
use modos.Str.Words.{load16, load32, load64, store_bytes, store64}

store_bytes-outside :
    (n p v : ℕ) (mem : Memory) (a : ℕ) → (a < p) ⊎ (p + n ≤ a) → store_bytes n p v mem a ≡ mem a
unfolding store_bytes
store_bytes-outside zero p v mem a h = refl
store_bytes-outside (suc n) p v mem a h =
    store_bytes-outside n (p + 1) (v / 0x100) (write mem p (v % 0x100)) a (omega (arith, h))
    ∙ write_ne mem p (v % 0x100) a (omega (arith, h))

-- Byte `k` of a value.
abbrev byte_of : ℕ → ℕ → ℕ
byte_of zero v = v % 0x100
byte_of (suc k) v = byte_of k (v / 0x100)

store_bytes-at : (n k p v : ℕ) (mem : Memory) → k < n → store_bytes n p v mem (p + k) ≡ byte_of k v
unfolding store_bytes
store_bytes-at zero k p v mem h = absurd (omega arith)
store_bytes-at (suc n) zero p v mem h =
    let m1 = write mem p (v % 0x100) in
    let here : p + 0 ≡ p = omega arith in
    rw here (
      store_bytes-outside n (p + 1) (v / 0x100) m1 p (inl (omega arith))
      ∙ write_self mem p (v % 0x100))
store_bytes-at (suc n) (suc k) p v mem h =
    let m1 = write mem p (v % 0x100) in
    let next : p + suc k ≡ p + 1 + k = omega arith in
    rw next (store_bytes-at n k (p + 1) (v / 0x100) m1 (omega arith))

digits :
    (v : ℕ)
    → v < 2 ^ 64
    → byte_of 0 v
        + byte_of 1 v * 0x100
        + (byte_of 2 v + byte_of 3 v * 0x100) * 0x1_0000
        + (byte_of 4 v + byte_of 5 v * 0x100 + (byte_of 6 v + byte_of 7 v * 0x100) * 0x1_0000)
          * 0x1_0000_0000
      ≡ v
digits v h = omega (arith, h)

-- A stored word is loaded again, and no byte around it changes.
pub load64-store64 : (p v : ℕ) (mem : Memory) → v < 2 ^ 64 → load64 (store64 p v mem) p ≡ v
unfolding load64 load32 load16
load64-store64 p v mem h =
    let m = store64 p v mem in
    let at = λ (q k : ℕ) (e : q ≡ p + k) (a : k < 8). ap m e ∙ store_bytes-at 8 k p v mem a in
    let b0 = at p 0 (omega arith) (omega arith) in
    let b1 = at (p + 1) 1 refl (omega arith) in
    let b2 = at (p + 2) 2 refl (omega arith) in
    let b3 = at (p + 2 + 1) 3 (omega arith) (omega arith) in
    let b4 = at (p + 4) 4 refl (omega arith) in
    let b5 = at (p + 4 + 1) 5 (omega arith) (omega arith) in
    let b6 = at (p + 4 + 2) 6 (omega arith) (omega arith) in
    let b7 = at (p + 4 + 2 + 1) 7 (omega arith) (omega arith) in
    rw (b0, b1, b2, b3, b4, b5, b6, b7) (digits v h)

pub store64-outside :
    (p v : ℕ) (mem : Memory) (a : ℕ) → (a < p) ⊎ (p + 8 ≤ a) → store64 p v mem a ≡ mem a
store64-outside p v mem a h = store_bytes-outside 8 p v mem a h

pub load64-lt : (mem : Memory) (p : ℕ) → ((a : ℕ) → mem a < 0x100) → load64 mem p < 2 ^ 64
unfolding load64 load32 load16
load64-lt mem p bytes = omega (
  arith,
  bytes p,
  bytes (p + 1),
  bytes (p + 2),
  bytes (p + 2 + 1),
  bytes (p + 4),
  bytes (p + 4 + 1),
  bytes (p + 4 + 2),
  bytes (p + 4 + 2 + 1),
)

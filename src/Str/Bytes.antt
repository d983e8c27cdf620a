-- ===== src/Str/Bytes.antt =====
-- memcpy and memcmp.
use modos.Base.{
  ℕ, zero, suc, ◌+◌, ◌≤◌, ◌<◌, ◌≡◌, ◌≢◌, ◌↔◌, ◌⊎◌, inl, inr, refl, false, ap, ◌∙◌, arith, ==_iff,
  write, write_self, write_ne, ◌==◌, Bool-cases,
}
use modos.Base.Int.{pos, ◌-ℤ◌}
use modos.Str.{Memory, memcpy, memcmp, signed_char}

-- A range that is copied byte after byte: inside, the destination holds what the source held;
-- outside nothing changes.
pub record IsCopy (dest src n : ℕ) (mem mem' : Memory) : Type 0 where
  pub inside : (i : ℕ) → i < n → mem' (dest + i) ≡ mem (src + i)
  pub outside : (a : ℕ) → (a < dest) ⊎ (dest + n ≤ a) → mem' a ≡ mem a

-- One byte in front of a copy.
IsCopy-suc :
    (dest src n : ℕ) (mem mem' : Memory)
    → (dest ≤ src) ⊎ (src + suc n ≤ dest)
    → IsCopy (dest + 1) (src + 1) n (write mem dest (mem src)) mem'
    → IsCopy dest src (suc n) mem mem'
IsCopy-suc dest src n mem mem' apart rest = record {
  inside = within;
  outside =
      λ a h. rest.outside a (omega arith) ∙ write_ne mem dest (mem src) a (λ e. omega (arith, e));
}
  where
    at : (a b : ℕ) → a ≡ b → mem' a ≡ mem' b
    at a b e = ap mem' e

    within : (i : ℕ) → i < suc n → mem' (dest + i) ≡ mem (src + i)
    within zero h =
        at (dest + 0) dest (omega arith)
        ∙ rest.outside dest (inl (omega arith))
        ∙ write_self mem dest (mem src)
        ∙ ap mem (omega arith)
    within (suc i) h =
        at (dest + suc i) (dest + 1 + i) (omega arith)
        ∙ rest.inside i (omega arith)
        ∙ write_ne mem dest (mem src) (src + 1 + i) (λ e. omega (arith, e))
        ∙ ap mem (omega arith)

-- When the destination does not begin inside the source, memcpy copies the `n` bytes that were at
-- the source to the destination and changes no byte outside it. The ranges may overlap if the
-- destination is the lower one.
pub memcpy-IsCopy :
    (n dest src : ℕ) (mem : Memory)
    → (dest ≤ src) ⊎ (src + n ≤ dest)
    → IsCopy dest src n mem (memcpy dest src n mem)
unfolding memcpy
memcpy-IsCopy zero dest src mem apart = record {
  inside = λ i h. absurd (omega arith);
  outside = λ a h. refl;
}
memcpy-IsCopy (suc n) dest src mem apart =
    IsCopy-suc dest src n mem _ apart
      (memcpy-IsCopy n (dest + 1) (src + 1) (write mem dest (mem src)) (omega arith))

abbrev pub IsBytes : Memory → Type 0
IsBytes mem = (a : ℕ) → mem a < 0x100

pub signed_char-diff :
    (a b : ℕ) → a < 0x100 → b < 0x100 → signed_char a -ℤ signed_char b ≡ pos 0 → a ≡ b
unfolding ◌-ℤ◌
signed_char-diff a b ha hb h = ground arith

-- The two ranges of `n` bytes are equal.
abbrev pub Same : Memory → ℕ → ℕ → ℕ → Type 0
Same mem p1 p2 n = (i : ℕ) → i < n → mem (p1 + i) ≡ mem (p2 + i)

pub Same-suc :
    (mem : Memory) (p1 p2 n : ℕ)
    → mem p1 ≡ mem p2
    → Same mem (p1 + 1) (p2 + 1) n
    → Same mem p1 p2 (suc n)
Same-suc mem p1 p2 n e rest zero h = ap mem (omega arith) ∙ e ∙ ap mem (omega arith)
Same-suc mem p1 p2 n e rest (suc i) h =
    ap mem (omega arith) ∙ rest i (omega arith) ∙ ap mem (omega arith)

pub Same-head : (mem : Memory) (p1 p2 n : ℕ) → Same mem p1 p2 (suc n) → mem p1 ≡ mem p2
Same-head mem p1 p2 n same = ap mem (omega arith) ∙ same 0 (omega arith) ∙ ap mem (omega arith)

pub Same-tail : (mem : Memory) (p1 p2 n : ℕ) → Same mem p1 p2 (suc n) → Same mem (p1 + 1) (p2 + 1) n
Same-tail mem p1 p2 n same i h =
    ap mem (omega arith) ∙ same (suc i) (omega arith) ∙ ap mem (omega arith)

-- On a memory of bytes memcmp is 0 exactly when the two ranges of `n` bytes are equal.
pub memcmp_iff :
    (n : ℕ) (mem : Memory) (p1 p2 : ℕ)
    → IsBytes mem
    → (memcmp mem p1 p2 n ≡ pos 0) ↔ Same mem p1 p2 n
unfolding memcmp
memcmp_iff zero mem p1 p2 bytes = ((λ e i h. absurd (omega arith)), (λ same. refl))
memcmp_iff (suc n) mem p1 p2 bytes =
    let ih = memcmp_iff n mem (p1 + 1) (p2 + 1) bytes in
    elim (Bool-cases (mem p1 == mem p2)) [
      | inl e ↦ (
        (λ z. Same-suc mem p1 p2 n ((==_iff _ _).0 e) (ih.0 (rw e at z))),
        (λ same. rw e (ih.1 (Same-tail mem p1 p2 n same))),
      )
      | inr e ↦ (
        (λ z.
            absurd
              (differ e (signed_char-diff (mem p1) (mem p2) (bytes p1) (bytes p2) (rw e at z)))),
        (λ same. absurd (differ e (Same-head mem p1 p2 n same))),
      )
    ]
  where
    differ : (mem p1 == mem p2) ≡ false → mem p1 ≢ mem p2
    differ e same = cc ((==_iff (mem p1) (mem p2)).1 same)

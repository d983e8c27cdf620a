-- ===== src/Str/Strings.antt =====
-- strlen, strcmp and strncmp on NUL-terminated strings.
use mathlib.Core.Path.{ap₂, subst}
use modos.Base.{
  ℕ, zero, suc, ◌++◌, ◌+◌, ◌≤◌, ◌<◌, ◌≡◌, ◌≢◌, ◌↔◌, inl, inr, refl, ◌∙◌, arith, ap, ◌==◌, ==_iff,
  ne→==, cons-injective, sym, Bool-cases, List, [], ◌∷◌, length, take, some, false, true,
}
use modos.Base.Int.{ℤ, pos, negsuc, ◌-ℤ◌}
use modos.Str.{Memory, strlen, strlen_from, strcmp, strncmp, signed_char, int_eq}
use modos.Str.Bytes.{IsBytes, signed_char-diff}

-- The string `s`, with no NUL in it, and a NUL behind it stand at address `p`.
abbrev pub CString : Memory → ℕ → List ℕ → Type 0
CString mem p [] = mem p ≡ 0
CString mem p (c ∷ s) = (mem p ≡ c) × (c ≢ 0) × CString mem (p + 1) s

CString-at : (s : List ℕ) (mem : Memory) (p q : ℕ) → p ≡ q → CString mem p s → CString mem q s
CString-at s mem p q e h = subst (λ r. CString mem r s) e h

-- What stands behind the first part of a string.
pub CString-rest :
    (t s : List ℕ) (mem : Memory) (p : ℕ) → CString mem p (t ++ s) → CString mem (p + length t) s
CString-rest [] s mem p h =
    let here : p ≡ p + 0 = omega arith in subst (λ q. CString mem q s) here h
CString-rest (c ∷ t) s mem p (e, ne, h) =
    let next : p + 1 + length t ≡ p + suc (length t) = omega arith in
    subst (λ q. CString mem q s) next (CString-rest t s mem (p + 1) h)

-- A string does not change with the bytes outside it.
pub CString-same :
    (s : List ℕ) (m m' : Memory) (p : ℕ)
    → CString m p s
    → ((a : ℕ) → p ≤ a → a ≤ p + length s → m' a ≡ m a)
    → CString m' p s
CString-same [] m m' p h same = same p (omega arith) (omega arith) ∙ h
CString-same (c ∷ s) m m' p (e, ne, h) same = (
  same p (omega arith) (omega arith) ∙ e,
  ne,
  CString-same s m m' (p + 1) h (λ a lo hi. same a (omega arith) (omega arith)),
)

-- A copy of the first part of a string, with a NUL behind it.
pub CString-copy :
    (d b : List ℕ) (m m' : Memory) (p q : ℕ)
    → CString m p (d ++ b)
    → ((i : ℕ) → i < length d → m' (q + i) ≡ m (p + i))
    → m' (q + length d) ≡ 0
    → CString m' q d
CString-copy [] b m m' p q h same end = let here : q ≡ q + 0 = omega arith in ap m' here ∙ end
CString-copy (c ∷ d) b m m' p q (e, ne, h) same end =
    let at_q : q ≡ q + 0 = omega arith in
    let at_p : p + 0 ≡ p = omega arith in
    let last : q + 1 + length d ≡ q + suc (length d) = omega arith in
    (
      ap m' at_q ∙ same 0 (omega arith) ∙ ap m at_p ∙ e,
      ne,
      CString-copy d b m m' (p + 1) (q + 1) h
          (λ i a.
            let next_q : q + 1 + i ≡ q + suc i = omega arith in
            let next_p : p + suc i ≡ p + 1 + i = omega arith in
            ap m' next_q ∙ same (suc i) (omega arith) ∙ ap m next_p)
          (ap m' last ∙ end),
    )

strlen_from_lem :
    (s : List ℕ) (fuel : ℕ) (mem : Memory) (p i k : ℕ)
    → CString mem (p + i) s
    → length s < fuel
    → k ≡ i + length s
    → strlen_from fuel mem p i ≡ some k
unfolding strlen_from
strlen_from_lem s zero mem p i k h f e = absurd (omega arith)
strlen_from_lem [] (suc fuel) mem p i k h f e = ground (arith, h)
strlen_from_lem (c ∷ s) (suc fuel) mem p i k h f e =
    let next = CString-at s mem (p + i + 1) (p + (i + 1)) (omega arith) h.2 in
    rw (h.0, ne→== c 0 h.1)
      (strlen_from_lem s fuel mem p (i + 1) k next (omega arith) (omega arith))

-- With fuel for the length, strlen returns the number of bytes before the NUL.
pub strlen_lem :
    (s : List ℕ) (fuel : ℕ) (mem : Memory) (p : ℕ)
    → CString mem p s
    → length s < fuel
    → strlen fuel mem p ≡ some (length s)
unfolding strlen
strlen_lem s fuel mem p h f =
    strlen_from_lem s fuel mem p 0 (length s) (CString-at s mem p (p + 0) (omega arith) h) f
      (omega arith)

differ_iff :
    (a b : ℕ) (s t : List ℕ)
    → a < 0x100
    → b < 0x100
    → a ≢ b
    → (s ≡ t → a ≡ b)
    → (signed_char a -ℤ signed_char b ≡ pos 0) ↔ (s ≡ t)
differ_iff a b s t ha hb ne same =
    ((λ e. absurd (ne (signed_char-diff a b ha hb e))), (λ e. absurd (ne (same e))))

cons_iff :
    (c d : ℕ) (s t : List ℕ) (r : ℤ) → c ≡ d → (r ≡ pos 0) ↔ (s ≡ t) → (r ≡ pos 0) ↔ (c ∷ s ≡ d ∷ t)
cons_iff c d s t r e i = ((λ z. ap₂ ◌∷◌ e (i.0 z)), (λ same. i.1 (cons-injective same).1))

-- On two NUL-terminated strings, with fuel for the length of the first, strcmp returns, and its
-- result is 0 exactly when the strings are equal.
pub strcmp_lem :
    (s t : List ℕ) (fuel : ℕ) (mem : Memory) (p q : ℕ)
    → IsBytes mem
    → CString mem p s
    → CString mem q t
    → length s < fuel
    → (r : ℤ) × (strcmp fuel mem p q ≡ some r) × ((r ≡ pos 0) ↔ (s ≡ t))
unfolding strcmp
strcmp_lem s t zero mem p q bytes hs ht f = absurd (omega arith)
strcmp_lem [] [] (suc fuel) mem p q bytes hs ht f =
    (pos 0, ground (arith, hs, ht), ((λ e. refl), (λ e. refl)))
strcmp_lem [] (d ∷ t) (suc fuel) mem p q bytes hs ht f = (
  signed_char (mem p) -ℤ signed_char (mem q),
  ground (arith, hs, ht),
  differ_iff (mem p) (mem q) [] (d ∷ t) (bytes p) (bytes q) (ground (arith, hs, ht))
      (λ e. absurd (cc)),
)
strcmp_lem (c ∷ s) [] (suc fuel) mem p q bytes hs ht f = (
  signed_char (mem p) -ℤ signed_char (mem q),
  ground (arith, hs, ht),
  differ_iff (mem p) (mem q) (c ∷ s) [] (bytes p) (bytes q) (ground (arith, hs, ht))
      (λ e. absurd (cc)),
)
strcmp_lem (c ∷ s) (d ∷ t) (suc fuel) mem p q bytes hs ht f = elim (Bool-cases (c == d)) [
  | inl e ↦
      let (r, runs, iff) = strcmp_lem s t fuel mem (p + 1) (q + 1) bytes hs.2 ht.2 (omega arith) in
      (r, rw (hs.0, ht.0, ne→== c 0 hs.1, e) runs, cons_iff c d s t r ((==_iff c d).0 e) iff)
  | inr e ↦ (
    signed_char (mem p) -ℤ signed_char (mem q),
    ground (arith, hs, ht, e),
    differ_iff (mem p) (mem q) (c ∷ s) (d ∷ t) (bytes p) (bytes q) (ground (arith, hs.0, ht.0, e))
        (λ same. hs.0 ∙ (cons-injective same).0 ∙ sym ht.0),
  )
]

-- The test for equal bytes.
pub int_eq-zero : (r : ℤ) → (int_eq r (pos 0) ≡ true) ↔ (r ≡ pos 0)
int_eq-zero (pos n) = ground arith
int_eq-zero (negsuc n) = ground arith

unsigned-diff : (a b : ℕ) → pos a -ℤ pos b ≡ pos 0 → a ≡ b
unfolding ◌-ℤ◌
unsigned-diff a b h = ground arith

strncmp-head : (mem : Memory) (p q n : ℕ) → strncmp mem p q (suc n) ≡ pos 0 → mem p ≡ mem q
unfolding strncmp
strncmp-head mem p q n h = elim (Bool-cases (mem p == mem q)) [
  | inl e ↦ (==_iff (mem p) (mem q)).0 e
  | inr e ↦ unsigned-diff (mem p) (mem q) (rw e at h)
]

ne_of : (a b : ℕ) → (a == b) ≡ false → a ≢ b
ne_of a b e same = cc ((==_iff a b).1 same)

-- On two NUL-terminated strings strncmp is 0 exactly when their first `n` bytes are equal; a
-- string shorter than that counts as a whole.
pub strncmp_iff :
    (n : ℕ) (s t : List ℕ) (mem : Memory) (p q : ℕ)
    → CString mem p s
    → CString mem q t
    → (strncmp mem p q n ≡ pos 0) ↔ (take n s ≡ take n t)
unfolding strncmp
strncmp_iff zero s t mem p q hs ht = ((λ e. refl), (λ e. refl))
strncmp_iff (suc n) [] [] mem p q hs ht = ((λ e. refl), (λ e. ground (arith, hs, ht)))
strncmp_iff (suc n) [] (d ∷ t) mem p q hs ht =
    ((λ e. absurd (ht.1 (sym ht.0 ∙ sym (strncmp-head mem p q n e) ∙ hs))), (λ e. absurd (cc)))
strncmp_iff (suc n) (c ∷ s) [] mem p q hs ht =
    ((λ e. absurd (hs.1 (sym hs.0 ∙ strncmp-head mem p q n e ∙ ht))), (λ e. absurd (cc)))
strncmp_iff (suc n) (c ∷ s) (d ∷ t) mem p q hs ht = elim (Bool-cases (c == d)) [
  | inl e ↦
      let ih = strncmp_iff n s t mem (p + 1) (q + 1) hs.2 ht.2 in
      rw (hs.0, ht.0, e, ne→== c 0 hs.1)
        (cons_iff c d (take n s) (take n t) (strncmp mem (p + 1) (q + 1) n) ((==_iff c d).0 e) ih)
  | inr e ↦
      rw (hs.0, ht.0, e)
        (
          (λ z. absurd (ne_of c d e (unsigned-diff c d z))),
          (λ same. absurd (ne_of c d e (cons-injective same).0)),
        )
]

-- ===== src/Str/Search.antt =====
-- memchr, memrchr and strrchr.
use mathlib.Core.Path.{subst}
use modos.Base.{
  ℕ, zero, suc, ◌+◌, ◌≤◌, ◌<◌, ◌≡◌, ◌≢◌, ◌⊎◌, inl, inr, refl, sym, ◌∙◌, arith, ◌==◌, ==_iff, ne→==,
  if◌then◌else◌, Bool-cases, List, [], ◌∷◌, length, some, u8, true,
}
use modos.Base.Int.{ℤ, pos}
use modos.Str.{Memory, signed_char, int_eq, memchr, memrchr, strrchr, strrchr_from}
use modos.Str.Strings.{CString}

-- `r` is the last place below `n` bytes at `s` where `Hit` holds, or `d` when there is none.
pub data Last (Hit : ℕ → Type 0) (s n d r : ℕ) : Type 0 where
  at :
      (i : ℕ)
      → i < n
      → r ≡ s + i
      → Hit (s + i)
      → ((j : ℕ) → i < j → j < n → ¬ Hit (s + j))
      → Last Hit s n d r
  nowhere : r ≡ d → ((j : ℕ) → j < n → ¬ Hit (s + j)) → Last Hit s n d r

Last-suc :
    (Hit : ℕ → Type 0) (s n d r : ℕ) → ¬ Hit (s + n) → Last Hit s n d r → Last Hit s (suc n) d r
Last-suc Hit s n d r miss (at i h e hit none_later) = at i (omega arith) e hit λ j lo hi.
    elim (Bool-cases (j == n)) [
      | inl same ↦ subst (λ k. ¬ Hit (s + k)) (sym ((==_iff j n).0 same)) miss
      | inr differ ↦ none_later j lo (ground (arith, differ))
    ]
Last-suc Hit s n d r miss (nowhere e none_at) = nowhere e λ j hi. elim (Bool-cases (j == n)) [
  | inl same ↦ subst (λ k. ¬ Hit (s + k)) (sym ((==_iff j n).0 same)) miss
  | inr differ ↦ none_at j (ground (arith, differ))
]

-- memrchr gives the last of the `n` bytes that is the byte of `c`, and NULL when there is none.
pub memrchr-Last :
    (n : ℕ) (mem : Memory) (s c : ℕ) → Last (λ a. mem a ≡ u8 c) s n 0 (memrchr mem s c n)
unfolding memrchr
memrchr-Last zero mem s c = nowhere refl (λ j h. absurd (omega arith))
memrchr-Last (suc n) mem s c = elim (Bool-cases (mem (s + n) == u8 c)) [
  | inl e ↦
      at n (omega arith) (ground (arith, e)) ((==_iff _ _).0 e) (λ j lo hi. absurd (omega arith))
  | inr e ↦
      subst (λ r. Last (λ a. mem a ≡ u8 c) s (suc n) 0 r) (ground (arith, e))
        (Last-suc _ s n 0 _ (λ same. cc ((==_iff (mem (s + n)) (u8 c)).1 same))
          (memrchr-Last n mem s c))
]

-- The first place, in the same way.
pub data First (Hit : ℕ → Type 0) (s n r : ℕ) : Type 0 where
  at :
      (i : ℕ)
      → i < n
      → r ≡ s + i
      → Hit (s + i)
      → ((j : ℕ) → j < i → ¬ Hit (s + j))
      → First Hit s n r
  nowhere : r ≡ 0 → ((j : ℕ) → j < n → ¬ Hit (s + j)) → First Hit s n r

First-suc : (Hit : ℕ → Type 0) (s n r : ℕ) → ¬ Hit s → First Hit (s + 1) n r → First Hit s (suc n) r
First-suc Hit s n r miss (at i h e hit none_before) =
    at (suc i) (omega arith) (omega arith) (subst Hit (omega arith) hit) below
  where
    below : (j : ℕ) → j < suc i → ¬ Hit (s + j)
    below zero lo hit' = miss (subst Hit (omega arith) hit')
    below (suc j) lo hit' = none_before j (omega arith) (subst Hit (omega arith) hit')
First-suc Hit s n r miss (nowhere e none_at) = nowhere e below
  where
    below : (j : ℕ) → j < suc n → ¬ Hit (s + j)
    below zero lo hit = miss (subst Hit (omega arith) hit)
    below (suc j) lo hit = none_at j (omega arith) (subst Hit (omega arith) hit)

-- memchr gives the first of the `n` bytes whose value as a signed char is the int `value`, and
-- NULL when there is none.
pub memchr-First :
    (n : ℕ) (mem : Memory) (ptr : ℕ) (value : ℤ)
    → First (λ a. int_eq (signed_char (mem a)) value ≡ true) ptr n (memchr mem ptr value n)
unfolding memchr
memchr-First zero mem ptr value = nowhere refl (λ j h. absurd (omega arith))
memchr-First (suc n) mem ptr value = elim (Bool-cases (int_eq (signed_char (mem ptr)) value)) [
  | inl e ↦ rw e (
      at 0 (omega arith) (omega arith)
        (subst (λ a. int_eq (signed_char (mem a)) value ≡ true) (omega arith) e)
        (λ j lo. absurd (omega arith)))
  | inr e ↦ rw e (First-suc _ ptr n _ (λ hit. cc) (memchr-First n mem (ptr + 1) value))
]

-- A byte at or above 0x80 is a negative char, so memchr never finds a value from 128 on.
pub memchr_high :
    (n : ℕ) (mem : Memory) (ptr v : ℕ)
    → ((a : ℕ) → mem a < 0x100)
    → 0x80 ≤ v
    → memchr mem ptr (pos v) n ≡ 0
unfolding memchr
memchr_high zero mem ptr v bytes h = refl
memchr_high (suc n) mem ptr v bytes h =
    ground (arith, bytes ptr, memchr_high n mem (ptr + 1) v bytes h)

-- A place in front, which is what is found when nothing is found behind it.
Last-cons :
    (Hit : ℕ → Type 0) (s n d d' r : ℕ)
    → (Hit s × (d' ≡ s)) ⊎ ((¬ Hit s) × (d' ≡ d))
    → Last Hit (s + 1) n d' r
    → Last Hit s (suc n) d r
Last-cons Hit s n d d' r front (at i h e hit none_later) =
    at (suc i) (omega arith) (omega arith) (subst Hit (omega arith) hit) later
  where
    later : (j : ℕ) → suc i < j → j < suc n → ¬ Hit (s + j)
    later zero lo hi hit' = absurd (omega arith)
    later (suc j) lo hi hit' =
        none_later j (omega arith) (omega arith) (subst Hit (omega arith) hit')
Last-cons Hit s n d d' r (inl (hit, here)) (nowhere e none_at) =
    at 0 (omega arith) (omega (arith, e, here)) (subst Hit (omega arith) hit) later
  where
    later : (j : ℕ) → 0 < j → j < suc n → ¬ Hit (s + j)
    later zero lo hi hit' = absurd (omega arith)
    later (suc j) lo hi hit' = none_at j (omega arith) (subst Hit (omega arith) hit')
Last-cons Hit s n d d' r (inr (miss, same)) (nowhere e none_at) = nowhere (e ∙ same) below
  where
    below : (j : ℕ) → j < suc n → ¬ Hit (s + j)
    below zero hi hit = miss (subst Hit (omega arith) hit)
    below (suc j) hi hit = none_at j (omega arith) (subst Hit (omega arith) hit)

front_case :
    (mem : Memory) (s c d : ℕ)
    → ((mem s ≡ c) × ((if mem s == c then s else d) ≡ s))
      ⊎ ((mem s ≢ c) × ((if mem s == c then s else d) ≡ d))
front_case mem s c d = elim (Bool-cases (mem s == c)) [
  | inl e ↦ inl ((==_iff (mem s) c).0 e, rw e)
  | inr e ↦ inr ((λ same. cc ((==_iff (mem s) c).1 same)), rw e)
]

strrchr_from-Last :
    (xs : List ℕ) (fuel : ℕ) (mem : Memory) (s c d : ℕ)
    → CString mem s xs
    → length xs < fuel
    → (r : ℕ) × (strrchr_from fuel mem s c d ≡ some r)
      × Last (λ a. mem a ≡ c) s (suc (length xs)) d r
unfolding strrchr_from
strrchr_from-Last xs zero mem s c d h f = absurd (omega arith)
strrchr_from-Last [] (suc fuel) mem s c d h f = (
  if mem s == c then s else d,
  ground (arith, h),
  Last-cons _ s 0 d _ _ (front_case mem s c d) (nowhere refl (λ j lt. absurd (omega arith))),
)
strrchr_from-Last (x ∷ xs) (suc fuel) mem s c d h f =
    let (r, runs, last) =
      strrchr_from-Last xs fuel mem (s + 1) c (if mem s == c then s else d) h.2 (omega arith) in
    (
      r,
      rw (ne→== (mem s) 0 (λ z. h.1 (sym h.0 ∙ z))) runs,
      Last-cons _ s (suc (length xs)) d _ r (front_case mem s c d) last,
    )

-- On a NUL-terminated string, with fuel for its length, strrchr gives the last place of the
-- character, its NUL counted, and NULL when there is none.
pub strrchr-Last :
    (xs : List ℕ) (fuel : ℕ) (mem : Memory) (s c : ℕ)
    → CString mem s xs
    → length xs < fuel
    → (r : ℕ) × (strrchr fuel mem s c ≡ some r) × Last (λ a. mem a ≡ c) s (suc (length xs)) 0 r
unfolding strrchr
strrchr-Last xs fuel mem s c h f = strrchr_from-Last xs fuel mem s c 0 h f

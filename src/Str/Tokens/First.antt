-- ===== src/Str/Tokens/First.antt =====
-- strtok of kernel/_stdfuncs.c: the token that it gives.
use mathlib.Core.List.{append-nil}
use mathlib.Core.Path.{subst}
use modos.Base.{
  ℕ, zero, suc, ◌+◌, ◌<◌, ◌≡◌, ◌≢◌, ◌⊎◌, inl, inr, refl, ◌∙◌, arith, Bool, true, false, Bool-cases,
  some, ◌==◌, eq→==, ne→==, if◌then◌else◌, List, [], ◌∷◌, ◌++◌, length, All, write, write_self,
  write_ne,
}
use modos.Str.{Memory}
use modos.Str.Strings.{CString, CString-rest}
use modos.Str.Tokens.{is_delim, skip_delims, token_end, strtok}

-- Whether a byte is in a list.
abbrev pub elem : List ℕ → ℕ → Bool
elem [] c = false
elem (d ∷ ds) c = if c == d then true else elem ds c

abbrev pub In : List ℕ → ℕ → Type 0
In ds c = elem ds c ≡ true

abbrev pub NotIn : List ℕ → ℕ → Type 0
NotIn ds c = elem ds c ≡ false

is_delim_lem :
    (ds : List ℕ) (fuel : ℕ) (mem : Memory) (p c : ℕ)
    → CString mem p ds
    → length ds < fuel
    → is_delim fuel mem p c ≡ some (elem ds c)
unfolding is_delim
is_delim_lem ds zero mem p c h a = absurd (omega arith)
is_delim_lem [] (suc fuel) mem p c h a = rw (eq→== (mem p) 0 h) refl
is_delim_lem (d ∷ ds) (suc fuel) mem p c (e, ne, h) a =
    rw (e, ne→== d 0 ne, is_delim_lem ds fuel mem (p + 1) c h (omega arith))
      (elim (Bool-cases (c == d)) [ inl same ↦ rw same refl | inr differ ↦ rw differ refl ])

-- A string behind delimiters, up to a byte that is none.
skip_delims_lem :
    (pre : List ℕ) (ds s : List ℕ) (fuel : ℕ) (mem : Memory) (delim p : ℕ)
    → CString mem delim ds
    → CString mem p (pre ++ s)
    → All (In ds) pre
    → elem ds (mem (p + length pre)) ≡ false
    → length pre + length ds < fuel
    → skip_delims fuel mem delim p ≡ some (p + length pre)
unfolding skip_delims
skip_delims_lem pre ds s zero mem delim p hd h all stop a = absurd (omega arith)
skip_delims_lem [] ds s (suc fuel) mem delim p hd h all stop a =
    let here : p + 0 ≡ p = omega arith in
    let stop' : elem ds (mem p) ≡ false = rw⁻¹ here stop in
    rw (skip_delims, is_delim_lem ds (suc fuel) mem delim (mem p) hd (omega arith), stop', here)
      refl
skip_delims_lem (c ∷ pre) ds s (suc fuel) mem delim p hd (e, ne, h) (i, all) stop a =
    let next : p + suc (length pre) ≡ p + 1 + length pre = omega arith in
    let stop' = subst (λ q. elem ds (mem q) ≡ false) next stop in
    rw
      (
        skip_delims,
        is_delim_lem ds (suc fuel) mem delim (mem p) hd (omega arith),
        e,
        i,
        skip_delims_lem pre ds s fuel mem delim (p + 1) hd h all stop' (omega arith),
        next,
      )
      refl

-- A token ends at the end of the string or at a delimiter.
abbrev pub Stops : List ℕ → List ℕ → Type 0
Stops ds [] = Unit
Stops ds (d ∷ r) = In ds d

token_end_lem :
    (t : List ℕ) (ds s : List ℕ) (fuel : ℕ) (mem : Memory) (delim p : ℕ)
    → CString mem delim ds
    → CString mem p (t ++ s)
    → All (NotIn ds) t
    → Stops ds s
    → length t + length ds < fuel
    → token_end fuel mem delim p ≡ some (p + length t)
unfolding token_end
token_end_lem t ds s zero mem delim p hd h all stop a = absurd (omega arith)
token_end_lem [] ds [] (suc fuel) mem delim p hd h all stop a =
    let here : p + 0 ≡ p = omega arith in rw (eq→== (mem p) 0 h, here) refl
token_end_lem [] ds (d ∷ s) (suc fuel) mem delim p hd (e, ne, h) all stop a =
    let here : p + 0 ≡ p = omega arith in
    rw (is_delim_lem ds (suc fuel) mem delim (mem p) hd (omega arith), e, ne→== d 0 ne, stop, here)
      refl
token_end_lem (c ∷ t) ds s (suc fuel) mem delim p hd (e, ne, h) (i, all) stop a =
    let next : p + suc (length t) ≡ p + 1 + length t = omega arith in
    rw
      (
        is_delim_lem ds (suc fuel) mem delim (mem p) hd (omega arith),
        e,
        ne→== c 0 ne,
        i,
        token_end_lem t ds s fuel mem delim (p + 1) hd h all stop (omega arith),
        next,
      )
      refl

-- A string does not change with a byte outside it.
CString-write :
    (s : List ℕ) (mem : Memory) (p a v : ℕ)
    → CString mem p s
    → (a < p) ⊎ (p + length s < a)
    → CString (write mem a v) p s
CString-write [] mem p a v h out = write_ne mem a v p (omega (arith, out)) ∙ h
CString-write (c ∷ s) mem p a v (e, ne, h) out = (
  write_ne mem a v p (omega (arith, out)) ∙ e,
  ne,
  CString-write s mem (p + 1) a v h (omega (arith, out)),
)

-- The first part alone, once a NUL is put behind it.
CString-cut :
    (t s : List ℕ) (mem : Memory) (p : ℕ)
    → CString mem p (t ++ s)
    → CString (write mem (p + length t) 0) p t
CString-cut [] s mem p h = let here : p + 0 ≡ p = omega arith in rw here (write_self mem p 0)
CString-cut (c ∷ t) s mem p (e, ne, h) =
    let next : p + 1 + length t ≡ p + suc (length t) = omega arith in
    (
      write_ne mem (p + suc (length t)) 0 p (omega arith) ∙ e,
      ne,
      subst (λ a. CString (write mem a 0) (p + 1) t) next (CString-cut t s mem (p + 1) h),
    )

-- The search for the start of a token, for its first byte and for its end.
abbrev Token : (ds pre t s : List ℕ) → (fuel : ℕ) → Memory → (delim p c : ℕ) → Type 0
Token ds pre t s fuel mem delim p c =
    (skip_delims fuel mem delim p ≡ some (p + length pre))
    × (mem (p + length pre) ≡ c)
    × (c ≢ 0)
    × (token_end fuel mem delim (p + length pre + 1) ≡ some (p + length pre + 1 + length t))
    × CString mem (p + length pre + 1 + length t) s

module _ (ds pre t s : List ℕ) (c fuel delim : ℕ) (mem : Memory) (p : ℕ)
    (delims : CString mem delim ds) (before : All (In ds) pre) (token : All (NotIn ds) (c ∷ t))
    (enough : length pre + length t + length ds < fuel) where
  token_lem : CString mem p (pre ++ c ∷ (t ++ s)) → Stops ds s → Token ds pre t s fuel mem delim p c
  token_lem h stops =
      let string = CString-rest pre (c ∷ (t ++ s)) mem p h in
      let stop : elem ds (mem (p + length pre)) ≡ false = rw (string.0) (token.0) in
      (
        skip_delims_lem pre ds (c ∷ (t ++ s)) fuel mem delim p delims h before stop (omega arith),
        string.0,
        string.1,
        token_end_lem t ds s fuel mem delim (p + length pre + 1) delims (string.2) (token.1) stops
            (omega arith),
        CString-rest t s mem (p + length pre + 1) (string.2),
      )

-- What is left for the next call behind a token: nothing and NULL, or the rest behind a delimiter.
abbrev pub Left : List ℕ → (next : ℕ) → (mem mem' : Memory) → Type 0
Left [] next mem mem' = (next ≡ 0) × (mem' ≡ mem)
Left (d ∷ r) next mem mem' = CString mem' next r

module _ (ds pre t : List ℕ) (c fuel delim last : ℕ) (mem : Memory) (p : ℕ) (given : p ≢ 0)
    (delims : CString mem delim ds) (before : All (In ds) pre) (token : All (NotIn ds) (c ∷ t))
    (enough : length pre + length t + length ds < fuel) where
  -- For a string of delimiters, a token of at least one byte with no delimiter in it, and either nothing
  -- more or a delimiter and a rest, with fuel for their lengths: strtok returns the address of the
  -- token, which is a string of its own afterwards. When nothing more stands there, the address for
  -- the next call is NULL and memory is not changed; otherwise it is that of the rest, still there.
  pub strtok-first :
      (s : List ℕ)
      → Stops ds s
      → CString mem p (pre ++ c ∷ (t ++ s))
      → (next : ℕ) × (mem' : Memory) × (strtok fuel p delim last mem
          ≡ some ((p + length pre, next), mem'))
        × CString mem' (p + length pre) (c ∷ t)
        × Left s next mem mem'
  unfolding strtok
  strtok-first [] stops h =
      let (skip, first, ne, end, at_end) =
        token_lem ds pre t [] c fuel delim mem p delims before token enough h stops in
      (
        0,
        mem,
        rw
            (
              ne→== p 0 given,
              ne→== p 0 given,
              skip,
              first,
              ne→== c 0 ne,
              end,
              eq→== (mem (p + length pre + 1 + length t)) 0 at_end,
            )
            refl,
        subst (λ v. CString mem (p + length pre) (c ∷ v)) (append-nil t)
            (CString-rest pre (c ∷ (t ++ [])) mem p h),
        (refl, refl),
      )
  strtok-first (d ∷ r) stops h =
      let e = p + length pre + 1 + length t in
      let (skip, first, ne, end, at_end) =
        token_lem ds pre t (d ∷ r) c fuel delim mem p delims before token enough h stops in
      (
        e + 1,
        write mem e 0,
        rw
            (
              ne→== p 0 given,
              ne→== p 0 given,
              skip,
              first,
              ne→== c 0 ne,
              end,
              at_end.0,
              ne→== d 0 (at_end.1),
            )
            refl,
        (
          write_ne mem e 0 (p + length pre) (omega arith) ∙ first,
          ne,
          CString-cut t (d ∷ r) mem (p + length pre + 1)
              ((CString-rest pre (c ∷ (t ++ d ∷ r)) mem p h).2),
        ),
        CString-write r mem (e + 1) e 0 (at_end.2) (inl (omega arith)),
      )

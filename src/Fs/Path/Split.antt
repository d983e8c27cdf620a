-- ===== src/Fs/Path/Split.antt =====
-- kernel/fs/fsutils.c: a path is its dirname followed by its basename.
use mathlib.Core.Path.{subst}
use modos.Base.{
  ℕ, if◌then◌else◌, zero, suc, ◌+◌, ◌-◌, ◌^◌, ◌≤◌, ◌<◌, ◌≡◌, ◌≢◌, ◌⊎◌, inl, inr, refl, sym, ap, ◌∙◌,
  arith, some, ◌==◌, ne→==, List, [], ◌∷◌, ◌++◌, length, length-append, write, write_self, write_ne,
  u64,
}
use modos.Str.{Memory, memrchr}
use modos.Str
use modos.Str.Bytes.{memcpy-IsCopy}
use modos.Str.Strings.{CString, CString-rest, CString-same, CString-copy, strlen_lem}
use modos.Str.Search.{Last, memrchr-Last}
use modos.Mm.Arena
use modos.Fs.{World, strlen, memcpy, store_byte, kmalloc}
use modos.Fs.Path.{slash, get_basename, get_dirname}

-- No byte but the last one is a slash.
abbrev pub Inner : List ℕ → Type 0
Inner [] = Unit {0}
Inner (c ∷ []) = Unit {0}
Inner (c ∷ (d ∷ s)) = (c ≢ slash) × Inner (d ∷ s)

-- `b` is what get_basename takes of a path that is `d` and then `b`.
abbrev pub IsBasename : List ℕ → List ℕ → Type 0
IsBasename d [] = ⊥
IsBasename d (c ∷ r) = (c ≡ slash) × Inner r ⊎ (d ≡ []) × Inner (c ∷ r)

split_at :
    (s : List ℕ) (i : ℕ)
    → i ≤ length s
    → (d : List ℕ) × (b : List ℕ) × (s ≡ d ++ b) × (length d ≡ i)
split_at s zero h = ([], s, refl, refl)
split_at [] (suc i) h = absurd (omega arith)
split_at (c ∷ s) (suc i) h =
    let (d, b, e, n) = split_at s i (omega arith) in (c ∷ d, b, ap (λ t. c ∷ t) e, ap suc n)

Inner-CString :
    (s : List ℕ) (mem : Memory) (p : ℕ)
    → CString mem p s
    → ((j : ℕ) → j + 1 < length s → mem (p + j) ≢ slash)
    → Inner s
Inner-CString [] mem p h free = tt
Inner-CString (c ∷ []) mem p h free = tt
Inner-CString (c ∷ (d ∷ s)) mem p (e, ne, h) free =
    let here : p + 0 ≡ p = omega arith in
    (
      (λ same. free 0 (omega arith) (ap mem here ∙ e ∙ same)),
      Inner-CString (d ∷ s) mem (p + 1) h (λ j a same.
          let next : p + 1 + j ≡ p + (j + 1) = omega arith in
          free (j + 1) (omega arith) (ap mem (sym next) ∙ same)),
    )

-- The place of the basename in a path of `len` bytes.
abbrev base_at : (w : World) (path len : ℕ) → ℕ
base_at w path len =
    let found = memrchr w.mem path slash (len - 1) in if found == 0 then path else found

base_at-found :
    (w : World) (path len q : ℕ)
    → memrchr w.mem path slash (len - 1) ≡ q
    → q ≢ 0
    → base_at w path len ≡ q
base_at-found w path len q r given = rw (r, ne→== q 0 given) refl

-- A slash that is followed by none but perhaps at the end begins a basename.
found_lem :
    (d b : List ℕ) (mem : Memory) (p : ℕ)
    → CString mem (p + length d) b
    → 0 < length b
    → mem (p + length d) ≡ slash
    → ((j : ℕ) → length d < j → j + 1 < length d + length b → mem (p + j) ≢ slash)
    → IsBasename d b
found_lem d [] mem p h some_byte hit later = absurd (omega (arith, some_byte))
found_lem d (c ∷ r) mem p (e, ne, h) some_byte hit later = inl (
  sym e ∙ hit,
  Inner-CString r mem (p + length d + 1) h (λ j a same.
      let at : p + (length d + 1 + j) ≡ p + length d + 1 + j = omega arith in
      later (length d + 1 + j) (omega arith) (omega arith) (ap mem at ∙ same)),
)

bare_lem : (b : List ℕ) → b ≢ [] → Inner b → IsBasename [] b
bare_lem [] some_byte inner = absurd (some_byte refl)
bare_lem (c ∷ r) some_byte inner = inr (refl, inner)

IsBasename-lt : (d b : List ℕ) → IsBasename d b → 0 < length b
IsBasename-lt d [] h = elim h [ ]
IsBasename-lt d (c ∷ r) h = omega arith

-- Where memrchr finds the basename.
basename_lem :
    (s : List ℕ) (w : World) (path : ℕ)
    → path ≢ 0
    → CString w.mem path s
    → s ≢ []
    → (d : List ℕ) × (b : List ℕ) × (s ≡ d ++ b)
      × IsBasename d b
      × (base_at w path (length s) ≡ path + length d)
basename_lem s w path given string some_byte = elim (memrchr-Last (length s - 1) w.mem path slash) [
  | Last.at i below r hit later ↦
      let (d, b, e, n) = split_at s i (omega arith) in
      let sum = ap length e ∙ length-append d b in
      let there : path + length d ≡ path + i = omega (arith, n) in
      (
        d,
        b,
        e,
        found_lem d b w.mem path
            (CString-rest d b w.mem path (subst (λ t. CString w.mem path t) e string))
            (omega (arith, sum, n, below)) (ap w.mem there ∙ hit)
            (λ j lo hi. later j (omega (arith, n)) (omega (arith, n, sum))),
        base_at-found w path (length s) (path + i) r (omega (arith, given)) ∙ sym there,
      )
  | Last.nowhere r free ↦ (
    [],
    s,
    refl,
    bare_lem s some_byte (Inner-CString s w.mem path string (λ j a. free j (omega arith))),
    rw r (omega arith),
  )
]

-- kmalloc gives a block for the dirname, apart from the path of `len` bytes.
pub record HasBlock (w : World) (path len : ℕ) : Type 0 where
  pub given : (n : ℕ) → n < len → (Arena.kmalloc (n + 1) w.heap).0 ≢ 0
  pub apart :
      (n : ℕ)
      → n < len
      → ((Arena.kmalloc (n + 1) w.heap).0 + n < path)
        ⊎ (path + len < (Arena.kmalloc (n + 1) w.heap).0)

length-pos : (s : List ℕ) → s ≢ [] → 0 < length s
length-pos [] some_byte = absurd (some_byte refl)
length-pos (c ∷ s) some_byte = omega arith

-- The state after a dirname of `n` bytes.
abbrev with_dirname : (n path : ℕ) → World → World
with_dirname n path w =
    let (p, heap) = Arena.kmalloc (n + 1) w.heap in
    record w { heap = heap; mem = write (Str.memcpy p path n w.mem) (p + n) 0 }

dirname_run :
    (n fuel path : ℕ) (w : World)
    → get_basename fuel path w ≡ some (path + n, w)
    → path ≢ 0
    → n + 1 < 2 ^ 64
    → (Arena.kmalloc (n + 1) w.heap).0 ≢ 0
    → get_dirname fuel path w ≡ some ((Arena.kmalloc (n + 1) w.heap).0, with_dirname n path w)
unfolding get_dirname kmalloc memcpy store_byte
dirname_run n fuel path w run given short block =
    let p = (Arena.kmalloc (n + 1) w.heap).0 in
    let size : path + n - path ≡ n = omega arith in
    let room : u64 (n + 1) ≡ n + 1 = omega (arith, short) in
    rw
      (
        get_dirname,
        run,
        size,
        room,
        ne→== p 0 block,
        ne→== path 0 given,
        ne→== (p + n) 0 (omega (arith, block)),
      )
      refl

module _ (s : List ℕ) (fuel path : ℕ) (w : World) (given : path ≢ 0) (string : CString w.mem path s)
    (some_byte : s ≢ []) (enough : length s < fuel) (short : length s < 2 ^ 63)
    (block : HasBlock w path (length s)) where
  get_basename_lem : get_basename fuel path w ≡ some (base_at w path (length s), w)
  unfolding get_basename strlen
  get_basename_lem =
      let less : u64 (length s + 0xFFFF_FFFF_FFFF_FFFF) ≡ length s - 1 =
        omega (arith, length-pos s some_byte, short) in
      rw (ne→== path 0 given, strlen_lem s fuel w.mem path string enough, less) refl

  -- For a path of at least one byte, with fuel for it and a block of memory apart from it: get_basename gives
  -- the address of a part of the path up to its end, whose bytes between the first and the last are
  -- no slash, and which begins with a slash or is the whole path. get_dirname gives a string of its
  -- own, which is the path up to that part, and leaves the path as it is.
  pub get_dirname-get_basename :
      (d : List ℕ) × (b : List ℕ) × (s ≡ d ++ b)
      × IsBasename d b
      × (get_basename fuel path w ≡ some (path + length d, w))
      × CString w.mem (path + length d) b
      × (prebase : ℕ) × (w' : World) × (get_dirname fuel path w ≡ some (prebase, w'))
      × CString w'.mem prebase d
      × CString w'.mem path s
  get_dirname-get_basename =
      let (d, b, e, base, at) = basename_lem s w path given string some_byte in
      let sum = ap length e ∙ length-append d b in
      let shorter = IsBasename-lt d b base in
      let both = subst (λ t. CString w.mem path t) e string in
      let run = get_basename_lem ∙ ap (λ q. some (q, w)) at in
      let n = length d in
      let p = (Arena.kmalloc (n + 1) w.heap).0 in
      let fits : n < length s = omega (arith, sum, shorter) in
      let apart = block.apart n fits in
      let copy = memcpy-IsCopy n p path w.mem (omega (arith, apart)) in
      let m1 = Str.memcpy p path n w.mem in
      let kept : (a : ℕ) → path ≤ a → a ≤ path + length s → write m1 (p + n) 0 a ≡ w.mem a =
        λ a lo hi.
          write_ne m1 (p + n) 0 a (omega (arith, apart)) ∙ copy.outside a (omega (arith, apart)) in
      (
        d,
        b,
        e,
        base,
        run,
        CString-rest d b w.mem path both,
        p,
        with_dirname n path w,
        dirname_run n fuel path w run given (omega (arith, fits, short)) (block.given n fits),
        CString-copy d b w.mem (write m1 (p + n) 0) path p both
            (λ i a. write_ne m1 (p + n) 0 (p + i) (omega arith) ∙ copy.inside i a)
            (write_self m1 (p + n) 0),
        CString-same s w.mem (write m1 (p + n) 0) path string kept,
      )

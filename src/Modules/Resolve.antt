-- ===== src/Modules/Resolve.antt =====
-- kernel/module/load_module.c: a relocation against the symbols that the kernel exports.
use mathlib.Core.Path.{subst}
use mathlib.Core.Bool.{true≢false}
use modos.Base.{
  sym, ℕ, zero, suc, ◌+◌, ◌*◌, ◌<◌, ◌≤◌, ◌≡◌, ◌≢◌, ◌↔◌, ◌⊎◌, inl, inr, refl, ◌∙◌, arith, true,
  Bool-cases, ◌==◌, ==_iff, ne→==, List, length, some,
}
use modos.Base.Int.{ℤ, pos}
use modos.Str.{Memory, int_eq}
use modos.Str.Bytes.{IsBytes}
use modos.Str.Strings.{CString, strcmp_lem, int_eq-zero}
use modos.Str.Words.{load64, store64}
use modos.Str.Stored.{load64-store64, load64-lt, store64-outside}
use modos.Fs.{World, strcmp}
use modos.Io.{load_64, store_64}
use modos.Modules.{export_sym_size, resolve_sym}

-- reloc_addr and the address of sym_name of an exported symbol.
abbrev pub reloc_addr : Memory → (ksyms j : ℕ) → ℕ
reloc_addr mem ksyms j = load64 mem (ksyms + export_sym_size * j + 16)

abbrev pub sym_name : Memory → (ksyms j : ℕ) → ℕ
sym_name mem ksyms j = load64 mem (ksyms + export_sym_size * j + 24)

-- The names of the `n` exported symbols and the wanted one are strings, the wanted one shorter than
-- the fuel.
pub record IsExports (mem : Memory) (fuel at ksyms n : ℕ) (wanted : List ℕ) (names : ℕ → List ℕ)
    : Type 0 where
  pub bytes : IsBytes mem
  pub at_given : at ≢ 0
  pub at_string : CString mem at wanted
  pub short : length wanted < fuel
  pub given : (j : ℕ) → j < n → sym_name mem ksyms j ≢ 0
  pub named : (j : ℕ) → j < n → CString mem (sym_name mem ksyms j) (names j)

module _ (fuel at place ksyms n : ℕ) (wanted : List ℕ) (names : ℕ → List ℕ) (w : World)
    (table : IsExports w.mem fuel at ksyms n wanted names) where
  compare_name :
      (j : ℕ)
      → j < n
      → (r : ℤ) × (strcmp fuel at (sym_name w.mem ksyms j) w ≡ some (r, w))
        × ((int_eq r (pos 0) ≡ true) ↔ (wanted ≡ names j))
  unfolding strcmp
  compare_name j a =
      let (r, run, iff) =
        strcmp_lem wanted (names j) fuel w.mem at (sym_name w.mem ksyms j) table.bytes
          table.at_string (table.named j a) table.short in
      (
        r,
        rw (ne→== at 0 table.at_given, ne→== (sym_name w.mem ksyms j) 0 (table.given j a), run)
            refl,
        ((λ e. iff.0 ((int_eq-zero r).0 e)), (λ e. (int_eq-zero r).1 (iff.1 e))),
      )

  resolve_hit :
      (left j : ℕ)
      → j < n
      → place ≢ 0
      → wanted ≡ names j
      → resolve_sym fuel at place ksyms (suc left) j w
        ≡ some (tt, record w { mem = store64 place (reloc_addr w.mem ksyms j) w.mem })
  unfolding resolve_sym load_64 store_64
  resolve_hit left j a b e =
      let (r, run, iff) = compare_name j a in
      rw
        (
          ne→== (ksyms + export_sym_size * j + 24) 0 (omega arith),
          run,
          iff.1 e,
          ne→== (ksyms + export_sym_size * j + 16) 0 (omega arith),
          ne→== place 0 b,
        )
        refl

  resolve_skip :
      (left j : ℕ)
      → j < n
      → wanted ≢ names j
      → resolve_sym fuel at place ksyms (suc left) j w
        ≡ resolve_sym fuel at place ksyms left (j + 1) w
  unfolding resolve_sym load_64
  resolve_skip left j a differ =
      let (r, run, iff) = compare_name j a in
      elim (Bool-cases (int_eq r (pos 0))) [
        | inl same ↦ absurd (differ (iff.0 same))
        | inr other ↦ rw (ne→== (ksyms + export_sym_size * j + 24) 0 (omega arith), run, other) refl
      ]

  -- What a relocation leaves: at the first symbol with the wanted name its address in the 8 bytes at the
  -- place and all other bytes as before, and memory as before when no symbol has that name.
  pub data Relocated (mem' : Memory) : Type 0 where
    found :
        (j : ℕ)
        → j < n
        → wanted ≡ names j
        → ((i : ℕ) → i < j → wanted ≢ names i)
        → load64 mem' place ≡ reloc_addr w.mem ksyms j
        → ((a : ℕ) → (a < place) ⊎ (place + 8 ≤ a) → mem' a ≡ w.mem a)
        → Relocated mem'
    unresolved : ((i : ℕ) → i < n → wanted ≢ names i) → mem' ≡ w.mem → Relocated mem'

  before-suc :
      (k : ℕ)
      → ((i : ℕ) → i < k → wanted ≢ names i)
      → wanted ≢ names k
      → (i : ℕ) → i < k + 1
      → wanted ≢ names i
  before-suc k before differ i a = elim (Bool-cases (i == k)) [
    | inl same ↦ subst (λ q. wanted ≢ names q) (sym ((==_iff i k).0 same)) differ
    | inr other ↦ before i (ground (arith, other))
  ]

  resolve_from :
      (left k : ℕ)
      → k + left ≡ n
      → place ≢ 0
      → ((i : ℕ) → i < k → wanted ≢ names i)
      → (mem' : Memory) × (resolve_sym fuel at place ksyms left k w
          ≡ some (tt, record w { mem = mem' }))
        × Relocated mem'
  unfolding resolve_sym
  resolve_from zero k all given before =
      (w.mem, refl, unresolved (λ i a. before i (omega arith)) refl)
  resolve_from (suc left) k all given before =
      let (r, run, iff) = compare_name k (omega arith) in
      elim (Bool-cases (int_eq r (pos 0))) [
        | inl same ↦
            let e = iff.0 same in
            let v = reloc_addr w.mem ksyms k in
            (
              store64 place v w.mem,
              resolve_hit left k (omega arith) given e,
              found k (omega arith) e before
                  (load64-store64 place v w.mem
                    (load64-lt w.mem (ksyms + export_sym_size * k + 16) table.bytes))
                  (λ b outside. store64-outside place v w.mem b outside),
            )
        | inr other ↦
            let differ : wanted ≢ names k = λ e. true≢false (sym (iff.1 e) ∙ other) in
            let (mem', done, left_so) =
              resolve_from left (k + 1) (omega arith) given (before-suc k before differ) in
            (mem', resolve_skip left k (omega arith) differ ∙ done, left_so)
      ]

  -- For exported symbols with strings for names, and a place that is not NULL: a relocation returns, and puts
  -- the address of the first exported symbol with the wanted name into the 8 bytes at the place
  -- with no other byte changed, or leaves memory as it is when no exported symbol has that name.
  pub resolve_sym_lem :
      place ≢ 0
      → (mem' : Memory) × (resolve_sym fuel at place ksyms n 0 w
          ≡ some (tt, record w { mem = mem' }))
        × Relocated mem'
  resolve_sym_lem given = resolve_from n 0 (omega arith) given (λ i a. absurd (omega arith))

-- ===== src/Modules/Symbols.antt =====
-- kernel/module/load_module.c: the search of a symbol by its name.
use modos.Base.{
  ℕ, zero, suc, ◌+◌, ◌*◌, ◌<◌, ◌≤◌, ◌≡◌, ◌≢◌, ◌↔◌, inl, inr, refl, ◌∙◌, arith, true, Bool-cases,
  ltb, le→ltb, ◌==◌, ==_iff, ne→==, List, length, some, u64,
}
use modos.Base.Int.{ℤ, pos}
use modos.Str.{Memory, int_eq}
use modos.Str.Bytes.{IsBytes}
use modos.Str.Strings.{CString, strcmp_lem, int_eq-zero}
use modos.Str.Words.{load32, load64}
use modos.Fs.{World, strcmp}
use modos.Io.{load_32, load_64}
use modos.Modules.{Dynamic, sym_size, lookup_from, lookup_sym, read_dynamic, no_dynamic}

-- st_name and st_value of a symbol.
abbrev pub st_name : Memory → Dynamic → ℕ → ℕ
st_name mem d i = load32 mem (d.syms + sym_size * i)

abbrev pub st_value : Memory → Dynamic → ℕ → ℕ
st_value mem d i = load64 mem (d.syms + sym_size * i + 8)

-- The symbols of a module: those whose name is in the string table have the strings `names`, which
-- are shorter than the fuel, and `wanted` is the string at `at`.
pub record IsSymtab (mem : Memory) (d : Dynamic) (fuel at : ℕ) (wanted : List ℕ)
    (names : ℕ → List ℕ) : Type 0 where
  pub bytes : IsBytes mem
  pub syms : d.syms ≢ 0
  pub strtab : d.strtab ≢ 0
  pub at_given : at ≢ 0
  pub at_string : CString mem at wanted
  pub named :
      (i : ℕ)
      → i < d.symlen
      → st_name mem d i ≤ d.strtlen
      → CString mem (d.strtab + st_name mem d i) (names i) × (length (names i) < fuel)

-- Symbol `i` has the wanted name.
abbrev pub Matches : Memory → Dynamic → List ℕ → (ℕ → List ℕ) → ℕ → Type 0
Matches mem d wanted names i = (st_name mem d i ≤ d.strtlen) × (names i ≡ wanted)

module _ (fuel base_addr at : ℕ) (d : Dynamic) (wanted : List ℕ) (names : ℕ → List ℕ) (w : World)
    (table : IsSymtab w.mem d fuel at wanted names) where
  compare_lem :
      (i : ℕ)
      → i < d.symlen
      → st_name w.mem d i ≤ d.strtlen
      → (r : ℤ) × (strcmp fuel (d.strtab + st_name w.mem d i) at w ≡ some (r, w))
        × ((int_eq r (pos 0) ≡ true) ↔ (names i ≡ wanted))
  unfolding strcmp
  compare_lem i b a =
      let (string, short) = table.named i b a in
      let p = d.strtab + st_name w.mem d i in
      let (r, run, iff) =
        strcmp_lem (names i) wanted fuel w.mem p at table.bytes string table.at_string short in
      (
        r,
        rw (ne→== p 0 (omega (arith, table.strtab)), ne→== at 0 table.at_given, run) refl,
        ((λ e. iff.0 ((int_eq-zero r).0 e)), (λ e. (int_eq-zero r).1 (iff.1 e))),
      )

  lookup_hit :
      (left i : ℕ)
      → i < d.symlen
      → Matches w.mem d wanted names i
      → lookup_from fuel base_addr d at (suc left) i w
        ≡ some (u64 (st_value w.mem d i + base_addr), w)
  unfolding lookup_from load_32 load_64
  lookup_hit left i b (a, e) =
      let (r, run, iff) = compare_lem i b a in
      rw
        (
          ne→== (d.syms + sym_size * i) 0 (omega (arith, table.syms)),
          le→ltb d.strtlen (st_name w.mem d i) a,
          run,
          iff.1 e,
          ne→== (d.syms + sym_size * i + 8) 0 (omega arith),
        )
        refl

  lookup_skip :
      (left i : ℕ)
      → i < d.symlen
      → ¬ Matches w.mem d wanted names i
      → lookup_from fuel base_addr d at (suc left) i w
        ≡ lookup_from fuel base_addr d at left (i + 1) w
  unfolding lookup_from load_32
  lookup_skip left i b no_match =
      let given = ne→== (d.syms + sym_size * i) 0 (omega (arith, table.syms)) in
      elim (Bool-cases (ltb d.strtlen (st_name w.mem d i))) [
        | inl above ↦ rw (given, above) refl
        | inr within ↦
            let a : st_name w.mem d i ≤ d.strtlen = ground (arith, within) in
            let (r, run, iff) = compare_lem i b a in
            elim (Bool-cases (int_eq r (pos 0))) [
              | inl same ↦ absurd (no_match (a, iff.0 same))
              | inr differ ↦ rw (given, within, run, differ) refl
            ]
      ]

  lookup_first :
      (left k i : ℕ)
      → k ≤ i
      → i < k + left
      → i < d.symlen
      → Matches w.mem d wanted names i
      → ((j : ℕ) → j < i → ¬ Matches w.mem d wanted names j)
      → lookup_from fuel base_addr d at left k w ≡ some (u64 (st_value w.mem d i + base_addr), w)
  lookup_first zero k i a b c match before = absurd (omega arith)
  lookup_first (suc left) k i a b c match before = elim (Bool-cases (k == i)) [
    | inl e ↦ rw ((==_iff k i).0 e) (lookup_hit left i c match)
    | inr ne ↦
        lookup_skip left k (ground (arith, a, c)) (before k (ground (arith, ne)))
        ∙ lookup_first left (k + 1) i (ground (arith, ne)) (omega arith) c match before
  ]

  lookup_none :
      (left k : ℕ)
      → k + left ≤ d.symlen
      → ((j : ℕ) → j < k + left → ¬ Matches w.mem d wanted names j)
      → lookup_from fuel base_addr d at left k w ≡ some (0, w)
  unfolding lookup_from
  lookup_none zero k b free = refl
  lookup_none (suc left) k b free =
      lookup_skip left k (omega arith) (free k (omega arith))
      ∙ lookup_none left (k + 1) (omega arith) (λ j a. free j (omega (arith, a)))

  -- When the dynamic section gives the tables `d` of symbols whose names are strings, lookup_sym gives
  -- the relocated value of the first symbol with the wanted name, and NULL when none of the symbols has
  -- it; memory is not changed.
  pub lookup_sym_lem :
      (dynamic dynlen : ℕ)
      → read_dynamic base_addr dynamic dynlen 0 no_dynamic w ≡ some (d, w)
      → ((i : ℕ)
          → i < d.symlen
          → Matches w.mem d wanted names i
          → ((j : ℕ) → j < i → ¬ Matches w.mem d wanted names j)
          → lookup_sym fuel base_addr dynamic dynlen at w
            ≡ some (u64 (st_value w.mem d i + base_addr), w))
        × (((j : ℕ) → j < d.symlen → ¬ Matches w.mem d wanted names j)
            → lookup_sym fuel base_addr dynamic dynlen at w ≡ some (0, w))
  unfolding lookup_sym
  lookup_sym_lem dynamic dynlen run =
      let syms = ne→== d.syms 0 table.syms in
      let strtab = ne→== d.strtab 0 table.strtab in
      (
        (λ i a match before.
            rw (run, syms, strtab)
              (lookup_first d.symlen 0 i (omega arith) (omega (arith, a)) a match before)),
        (λ free.
            rw (run, syms, strtab)
              (lookup_none d.symlen 0 (omega arith) (λ j a. free j (omega (arith, a))))),
      )

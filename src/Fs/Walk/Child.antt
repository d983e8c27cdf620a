-- ===== src/Fs/Walk/Child.antt =====
-- kernel/fs/walk_path.c: the child of a directory that an element of a path leads to.
use mathlib.Core.Bool.{true≢false}
use modos.Base.{
  sym, ℕ, zero, suc, ◌+◌, ◌*◌, ◌≡◌, ◌≢◌, inl, inr, refl, arith, Bool, true, false, not, ◌&&◌,
  Option, none, some, ◌==◌, Bool-cases, List, take, ne→==, eq→==,
}
use modos.Base.Int.{pos}
use modos.Str.{strncmp, int_eq}
use modos.Str.Strings.{CString, strncmp_iff, int_eq-zero}
use modos.Fs.{World, node_size}
use modos.Fs.Access.{load_node_lem, not_null_lem}
use modos.Fs.Walk.{find_child}

both : (a b : Bool) → (a && b) ≡ true → b ≡ true
both true b e = e
both false b e = absurd (true≢false (sym e))

module _ (w : World) (children path_elem len : ℕ) where
  abbrev pub child_at : ℕ → ℕ
  child_at i = children + i * node_size

  abbrev pub name_at : ℕ → ℕ
  name_at i = (w.nodes (child_at i)).name

  -- Child number `i` has a name, and the name and the rest of the path begin with the same `len` bytes;
  -- a shorter one of them counts as a whole.
  pub record Fits (i : ℕ) : Type 0 where
    pub given : name_at i ≢ 0
    pub name : List ℕ
    pub path : List ℕ
    pub is_name : CString w.mem (name_at i) name
    pub is_path : CString w.mem path_elem path
    pub same : take len name ≡ take len path

  -- Child number `i` has no name, or one that differs from the rest of the path in the first `len` bytes.
  pub data Differs (i : ℕ) : Type 0 where
    no_name : name_at i ≡ 0 → Differs i
    other_name :
        (name path : List ℕ)
        → CString w.mem (name_at i) name
        → CString w.mem path_elem path
        → take len name ≢ take len path
        → Differs i

  -- The first child from number `i` on that fits, among `left` of them, where the children before it
  -- differ.
  pub data First : ℕ → ℕ → Option ℕ → Type 0 where
    no_child : (i : ℕ) → First zero i none
    this_child : (left i : ℕ) → Fits i → First (suc left) i (some (child_at i))
    later_child :
        (left i : ℕ) (r : Option ℕ) → Differs i → First left (i + 1) r → First (suc left) i r

  abbrev agrees : ℕ → Bool
  agrees i =
      let name = name_at i in not (name == 0) && int_eq (strncmp w.mem name path_elem len) (pos 0)

  agrees-Fits : (i : ℕ) → Fits i → agrees i ≡ true
  agrees-Fits i fits =
      let e =
        (strncmp_iff len fits.name fits.path w.mem (name_at i) path_elem fits.is_name
            fits.is_path).1
          fits.same in
      rw (ne→== (name_at i) 0 fits.given, e) refl

  agrees-Differs : (i : ℕ) → Differs i → agrees i ≡ false
  agrees-Differs i (no_name e) = rw (eq→== (name_at i) 0 e) refl
  agrees-Differs i (other_name name path is_name is_path differ) =
      let iff = strncmp_iff len name path w.mem (name_at i) path_elem is_name is_path in
      elim (Bool-cases (agrees i)) [
        | inl there ↦ absurd (
            differ (
              iff.0 (
                (int_eq-zero (strncmp w.mem (name_at i) path_elem len)).0 (
                  both (not (name_at i == 0))
                    (int_eq (strncmp w.mem (name_at i) path_elem len) (pos 0)) there))))
        | inr not_there ↦ not_there
      ]

  -- The search of a directory's children gives the first that fits, or none, and changes nothing.
  pub First-find_child :
      (left i : ℕ) (r : Option ℕ)
      → children ≢ 0
      → First left i r
      → find_child left i children path_elem len w ≡ some (r, w)
  unfolding find_child
  First-find_child zero i r given (no_child j) = refl
  First-find_child (suc left) i r given (this_child l j fits) =
      rw
        (
          not_null_lem children given w,
          load_node_lem (child_at i) (omega (arith, given)) w,
          agrees-Fits i fits,
        )
        refl
  First-find_child (suc left) i r given (later_child l j s differs first) =
      rw
        (
          not_null_lem children given w,
          load_node_lem (child_at i) (omega (arith, given)) w,
          agrees-Differs i differs,
        )
        (First-find_child left (i + 1) r given first)

-- ===== src/Str/Tokens.antt =====
-- strtok of kernel/_stdfuncs.c: the first token of a string, and the rest for the next call. The loops
-- that the data ends take fuel.
pub mod First
use modos.Base.{
  ℕ, zero, suc, ◌+◌, ◌<◌, ◌≡◌, ◌≢◌, ◌⊎◌, inl, inr, refl, sym, ap, ◌∙◌, arith, Bool, true, false,
  Option, none, some, ◌==◌, ==_iff, eq→==, ne→==, if◌then◌else◌, List, [], ◌∷◌, ◌++◌, length, All,
  write, write_self, write_ne,
}
use modos.Str.{Memory}
use modos.Str.Strings.{CString}

-- The loop over the delimiters: whether `c` is one of them; the NUL behind them is none.
unfoldable pub is_delim : (fuel : ℕ) → Memory → (spanp c : ℕ) → Option Bool
is_delim zero mem spanp c = none
is_delim (suc fuel) mem spanp c =
    let rest = is_delim fuel mem (spanp + 1) c in
    if mem spanp == 0 then some false else if c == mem spanp then some true else rest

-- The address of the first byte from `s` on that is no delimiter.
unfoldable pub skip_delims : (fuel : ℕ) → Memory → (delim s : ℕ) → Option ℕ
skip_delims zero mem delim s = none
skip_delims (suc fuel) mem delim s =
    let rest = skip_delims fuel mem delim (s + 1) in
    elim (is_delim (suc fuel) mem delim (mem s)) [
      | none ↦ none
      | some found ↦ if found then rest else some s
    ]

-- The address of the first byte from `s` on that is a delimiter or NUL.
unfoldable pub token_end : (fuel : ℕ) → Memory → (delim s : ℕ) → Option ℕ
token_end zero mem delim s = none
token_end (suc fuel) mem delim s =
    let rest = token_end fuel mem delim (s + 1) in
    if mem s == 0 then some s else elim (is_delim (suc fuel) mem delim (mem s)) [
      | none ↦ none
      | some found ↦ if found then some s else rest
    ]

-- `last` is the static variable; the result is the token, the new `last` and memory.
unfoldable pub strtok : (fuel : ℕ) → (s delim last : ℕ) → Memory → Option ((ℕ × ℕ) × Memory)
strtok fuel s delim last mem =
    let start = if s == 0 then last else s in
    if start == 0 then some ((0, last), mem) else elim (skip_delims fuel mem delim start) [
      | none ↦ none
      | some tok ↦
          if mem tok == 0 then some ((0, 0), mem) else elim (token_end fuel mem delim (tok + 1)) [
            | none ↦ none
            | some e ↦
                if mem e == 0 then some ((tok, 0), mem) else some ((tok, e + 1), write mem e 0)
          ]
    ]

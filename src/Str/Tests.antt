-- ===== src/Str/Tests.antt =====
-- Runs of the string functions, and instances of their theorems.
use modos.Base.{ℕ, ◌≡◌, ◌↔◌, refl, arith, List, [], ◌∷◌, some, write}
use modos.Base.Int.{ℤ, pos, negsuc, ◌-ℤ◌}
use modos.Str.{Memory, strcmp, memcpy, strrchr}
use modos.Str.Bytes.{IsCopy, memcpy-IsCopy, IsBytes}
use modos.Str.Strings.{strcmp_lem}
use modos.Str.Strings.{CString}
use modos.Str.Tokens.{strtok, skip_delims, is_delim, token_end}
use modos.Str.Tokens.First.{Left, strtok-first}

-- "a/b" at 100 and "a/c" at 200
abbrev text : Memory
text =
    write
      (write (write (write (write (write (λ _. 0) 100 0x61) 101 0x2f) 102 0x62) 200 0x61) 201 0x2f)
      202 0x63

abbrev a_b : List ℕ
a_b = 0x61 ∷ 0x2f ∷ 0x62 ∷ []

abbrev a_c : List ℕ
a_c = 0x61 ∷ 0x2f ∷ 0x63 ∷ []

text-IsBytes : IsBytes text
text-IsBytes a = ground arith

memcpy-IsCopy_example : IsCopy 300 100 4 text (memcpy 300 100 4 text)
memcpy-IsCopy_example = memcpy-IsCopy 4 300 100 text (omega arith)

strcmp_lem_example : (r : ℤ) × (strcmp 10 text 100 200 ≡ some r) × ((r ≡ pos 0) ↔ (a_b ≡ a_c))
strcmp_lem_example =
    strcmp_lem a_b a_c 10 text 100 200 text-IsBytes (omega arith) (omega arith) (omega arith)

strrchr_runs : strrchr 10 text 100 0x2f ≡ some 101
unfolding strrchr
strrchr_runs = refl

strcmp_runs : strcmp 10 text 100 200 ≡ some (negsuc 0)
unfolding strcmp ◌-ℤ◌
strcmp_runs = refl

-- ",a,b" at 300, with "," at 400 as the delimiters.
abbrev tokens : Memory
tokens = write (write (write (write (write (λ _. 0) 300 0x2c) 301 0x61) 302 0x2c) 303 0x62) 400 0x2c

strtok-first_example :
    (next : ℕ) × (mem' : Memory) × (strtok 4 300 400 0 tokens ≡ some ((301, next), mem'))
    × CString mem' 301 (0x61 ∷ [])
    × Left (0x2c ∷ 0x62 ∷ []) next tokens mem'
strtok-first_example =
    strtok-first (0x2c ∷ []) (0x2c ∷ []) [] 0x61 4 400 0 tokens 300 (omega arith) (omega arith)
      (refl, tt) (refl, tt) (omega arith) (0x2c ∷ 0x62 ∷ []) refl (omega arith)

strtok_runs : strtok 4 300 400 0 tokens ≡ some ((301, 303), write tokens 302 0)
unfolding strtok skip_delims is_delim token_end
strtok_runs = refl

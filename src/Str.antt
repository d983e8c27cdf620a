-- ===== src/Str.antt =====
-- kernel/_stdfuncs.c over a memory of bytes: an address is a number, a byte is its unsigned value,
-- and a `char` or `int8_t` read of a byte of 0x80 or more is negative, as on x86-64. A loop that
-- only a NUL byte ends takes fuel, and gives none when it runs out. NULL is 0.
pub mod Bytes
pub mod Strings
pub mod Search
pub mod Words
pub mod Stored
pub mod Tokens
mod Tests
use modos.Base.{
  ℕ, zero, suc, ◌+◌, ◌-◌, Bool, true, false, not, ◌||◌, Option, none, some, ltb, ◌==◌, u8,
  if◌then◌else◌, write,
}
use modos.Base.Int.{ℤ, pos, negsuc, ◌-ℤ◌}

abbrev pub Memory : Type 0
Memory = ℕ → ℕ

-- the value of a byte read as a signed char
abbrev pub signed_char : ℕ → ℤ
signed_char b = if ltb b 0x80 then pos b else negsuc (0x100 - b - 1)

-- Equality of two ints.
abbrev pub int_eq : ℤ → ℤ → Bool
int_eq (pos a) (pos b) = a == b
int_eq (pos a) (negsuc b) = false
int_eq (negsuc a) (pos b) = false
int_eq (negsuc a) (negsuc b) = a == b

-- The loop of strlen from index `i` on.
unfoldable pub strlen_from : ℕ → Memory → ℕ → ℕ → Option ℕ
strlen_from zero mem str i = none
strlen_from (suc fuel) mem str i =
    let rest = strlen_from fuel mem str (i + 1) in if mem (str + i) == 0 then some i else rest

unfoldable pub strlen : ℕ → Memory → ℕ → Option ℕ
unfolding strlen_from
strlen fuel mem str = strlen_from fuel mem str 0

-- `while (n--) *d++ = *s++;`
unfoldable pub memcpy : ℕ → ℕ → ℕ → Memory → Memory
memcpy dest src zero mem = mem
memcpy dest src (suc n) mem = memcpy (dest + 1) (src + 1) n (write mem dest (mem src))

-- The loop of memcmp with `n` bytes left. The result is the difference of two signed bytes.
unfoldable pub memcmp : Memory → ℕ → ℕ → ℕ → ℤ
memcmp mem p1 p2 zero = pos 0
memcmp mem p1 p2 (suc n) =
    let rest = memcmp mem (p1 + 1) (p2 + 1) n in
    if mem p1 == mem p2 then rest else signed_char (mem p1) -ℤ signed_char (mem p2)

-- The loop of strcmp at the addresses that it has come to.
unfoldable pub strcmp : ℕ → Memory → ℕ → ℕ → Option ℤ
strcmp zero mem p1 p2 = none
strcmp (suc fuel) mem p1 p2 =
    let rest = strcmp fuel mem (p1 + 1) (p2 + 1) in
    if not (mem p1 == 0) || not (mem p2 == 0)
    then (if mem p1 == mem p2 then rest else some (signed_char (mem p1) -ℤ signed_char (mem p2)))
    else some (pos 0)

-- The difference is of unsigned bytes.
unfoldable pub strncmp : Memory → ℕ → ℕ → ℕ → ℤ
strncmp mem s1 s2 zero = pos 0
strncmp mem s1 s2 (suc n) =
    let rest = strncmp mem (s1 + 1) (s2 + 1) n in
    if mem s1 == mem s2 then (if mem s1 == 0 then pos 0 else rest) else pos (mem s1) -ℤ pos (mem s2)

-- The loop of strrchr; `rtnval` is the last place found.
unfoldable pub strrchr_from : ℕ → Memory → ℕ → ℕ → ℕ → Option ℕ
strrchr_from zero mem s c rtnval = none
strrchr_from (suc fuel) mem s c rtnval =
    let rtnval' = if mem s == c then s else rtnval in
    let rest = strrchr_from fuel mem (s + 1) c rtnval' in if mem s == 0 then some rtnval' else rest

unfoldable pub strrchr : ℕ → Memory → ℕ → ℕ → Option ℕ
unfolding strrchr_from
strrchr fuel mem s c = strrchr_from fuel mem s c 0

-- The comparison is of a signed char with an int.
unfoldable pub memchr : Memory → ℕ → ℤ → ℕ → ℕ
memchr mem ptr value zero = 0
memchr mem ptr value (suc n) =
    let rest = memchr mem (ptr + 1) value n in
    if int_eq (signed_char (mem ptr)) value then ptr else rest

-- From the end: the byte below `s + n`, and then those before it.
unfoldable pub memrchr : Memory → ℕ → ℕ → ℕ → ℕ
memrchr mem s c zero = 0
memrchr mem s c (suc n) =
    let rest = memrchr mem s c n in if mem (s + n) == u8 c then s + n else rest

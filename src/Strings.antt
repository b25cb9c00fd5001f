-- ===== src/Strings.antt =====
-- Arrays of words and character strings: lib/h/dv-string.h and lib/c/dv-memset32.c. Memory is a
-- function of the address, which counts elements of the type in question.
pub mod Copying
pub mod Comparing
use davros.Base.{
  ℕ, zero, suc, ◌+◌, ◌-◌, ◌^◌, ◌%◌, Option, none, some, not, ◌&&◌, ◌==◌, if◌then◌else◌, update,
}

-- Of words of 32 bits, or of characters, which have no sign, as on the supported processors.
abbrev pub Memory : Type 0
Memory = ℕ → ℕ

-- The array from its end to its beginning. The result is `d` and the memory.
unfoldable pub memset32_inline : (d v n : ℕ) → Memory → ℕ × Memory
memset32_inline d v zero m = (d, m)
memset32_inline d v (suc n) m = memset32_inline d v n (update m (d + n) v)

unfoldable pub memset32 : (d v n : ℕ) → Memory → ℕ × Memory
memset32 d v n m = memset32_inline d v n m

unfoldable pub memcpy32 : (d s n : ℕ) → Memory → ℕ × Memory
memcpy32 d s zero m = (d, m)
memcpy32 d s (suc n) m = memcpy32 d s n (update m (d + n) (m (s + n)))

-- The address of the string's end; `none` is out of fuel.
unfoldable pub string_end : (fuel s : ℕ) → Memory → Option ℕ
string_end zero s m = none
string_end (suc fuel) s m =
    let rest = string_end fuel (s + 1) m in if m s == 0 then some s else rest

unfoldable pub strlen : (fuel str : ℕ) → Memory → Option ℕ
strlen fuel str m = elim (string_end fuel str m) [ none ↦ none | some s ↦ some (s - str) ]

-- The difference is a signed number of 32 bits, in two's complement.
unfoldable pub strcmp : (fuel s1 s2 : ℕ) → Memory → Option ℕ
strcmp zero s1 s2 m = none
strcmp (suc fuel) s1 s2 m =
    let rest = strcmp fuel (s1 + 1) (s2 + 1) m in
    if not (m s1 == 0) && (m s1 == m s2) then rest else some ((m s1 + (2 ^ 32 - m s2)) % 2 ^ 32)

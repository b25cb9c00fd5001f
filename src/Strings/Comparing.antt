-- ===== src/Strings/Comparing.antt =====
-- `dv_strlen` and `dv_strcmp` on strings in memory.
use davros.Base.{
  ℕ, zero, suc, ◌+◌, ◌-◌, ◌^◌, ◌≤◌, ◌<◌, ◌≡◌, sym, ◌≢◌, ◌⊎◌, inl, inr, refl, some, List, [], ◌∷◌,
  arith, length,
}
use davros.Strings.{Memory, string_end, strlen, strcmp}

-- The string of the characters `cs` is at `a`, with its end.
abbrev pub IsString : Memory → (a : ℕ) → List ℕ → Type 0
IsString m a [] = m a ≡ 0
IsString m a (c ∷ cs) = (m a ≡ c) × (c ≢ 0) × (c < 256) × IsString m (a + 1) cs

string_end_lem :
    (m : Memory) (a : ℕ) (cs : List ℕ) (fuel : ℕ)
    → IsString m a cs
    → length cs < fuel
    → string_end fuel a m ≡ some (a + length cs)
unfolding string_end
string_end_lem m a [] zero h enough = elim enough [ ]
string_end_lem m a (c ∷ cs) zero h enough = elim enough [ ]
string_end_lem m a [] (suc fuel) h enough = ground arith
string_end_lem m a (c ∷ cs) (suc fuel) h enough =
    ground (arith, string_end_lem m (a + 1) cs fuel h.3 (omega arith))

pub strlen_lem :
    (m : Memory) (a : ℕ) (cs : List ℕ) (fuel : ℕ)
    → IsString m a cs
    → length cs < fuel
    → strlen fuel a m ≡ some (length cs)
unfolding strlen
strlen_lem m a cs fuel h enough = rw (strlen, string_end_lem m a cs fuel h enough) (ground arith)

-- In a dictionary's order the first string is in front of the second.
abbrev pub Before : List ℕ → List ℕ → Type 0
Before xs [] = ⊥
Before [] (y ∷ ys) = Unit
Before (x ∷ xs) (y ∷ ys) = (x < y) ⊎ ((x ≡ y) × Before xs ys)

-- A 32-bit number that is 0, negative or positive, as two strings are equal, in order or not.
abbrev pub Compares : (r : ℕ) → List ℕ → List ℕ → Type 0
Compares r xs ys =
    ((r ≡ 0) × (xs ≡ ys))
    ⊎ (((2 ^ 31 ≤ r) × (r < 2 ^ 32) × Before xs ys) ⊎ ((0 < r) × (r < 2 ^ 31) × Before ys xs))

Compares-cons :
    (r x y : ℕ) (xs ys : List ℕ) → x ≡ y → Compares r xs ys → Compares r (x ∷ xs) (y ∷ ys)
Compares-cons r x y xs ys e (inl (z, same)) = inl (z, rw (e, same) refl)
Compares-cons r x y xs ys e (inr (inl (a, b, before))) = inr (inl (a, b, inr (e, before)))
Compares-cons r x y xs ys e (inr (inr (a, b, before))) = inr (inr (a, b, inr (sym e, before)))

-- If two strings are in memory and the fuel is more than the length of the first, the comparison
-- returns 0 exactly if they are the same, a negative number exactly if the first is in front of the
-- second in a dictionary's order, and a positive number exactly if it is behind it.
pub strcmp_lem :
    (m : Memory) (s1 s2 : ℕ) (xs ys : List ℕ) (fuel : ℕ)
    → IsString m s1 xs
    → IsString m s2 ys
    → length xs < fuel
    → (r : ℕ) × (strcmp fuel s1 s2 m ≡ some r) × Compares r xs ys
unfolding strcmp
strcmp_lem m s1 s2 [] ys zero a b enough = elim enough [ ]
strcmp_lem m s1 s2 (x ∷ xs) ys zero a b enough = elim enough [ ]
strcmp_lem m s1 s2 [] [] (suc fuel) a b enough = (0, ground arith, inl (refl, refl))
strcmp_lem m s1 s2 [] (y ∷ ys) (suc fuel) a b enough =
    (2 ^ 32 - y, ground arith, inr (inl (omega (arith, b.2), ground (arith, b.1), tt)))
strcmp_lem m s1 s2 (x ∷ xs) [] (suc fuel) a b enough =
    (x, ground arith, inr (inr (ground (arith, a.1), omega (arith, a.2), tt)))
strcmp_lem m s1 s2 (x ∷ xs) (y ∷ ys) (suc fuel) a b enough =
    let cases : (x ≡ y) ⊎ ((x < y) ⊎ (y < x)) = omega arith in
    elim cases [
      | inl e ↦
          let (r, run, compares) =
            strcmp_lem m (s1 + 1) (s2 + 1) xs ys fuel a.3 b.3 (omega arith) in
          (r, ground arith, Compares-cons r x y xs ys e compares)
      | inr (inl lt) ↦
          ((x + (2 ^ 32 - y)), ground arith, inr (inl (ground arith, ground arith, inl lt)))
      | inr (inr gt) ↦ (x - y, ground arith, inr (inr (omega arith, ground arith, inl gt)))
    ]

-- ===== src/Base/Bits.antt =====
-- Laws of the bitwise operations on masks of any width.
use Prim.Native.Nat.{
  ℕ, zero, suc, ◌+◌, ◌*◌, ◌/◌, ◌%◌, ◌≤◌, ◌<◌, min, max, bit_and, bit_or, digits, bit_and-bitwise,
  bit_or-bitwise,
}
use davros.Base.Tests.{◌==◌, if◌then◌else◌}
use mathlib.Core.Path.{◌≡◌, refl, sym, ap, ◌∙◌}
use native.Mathlib.Omega.{arith}

-- `n` bounds the number of binary digits of `a`.
abbrev common : (n a b : ℕ) → ℕ
common n a b = digits (λ b. zero) min n a b

common-zero : (n a : ℕ) → common n a 0 ≡ 0
common-zero zero a = refl
common-zero (suc n) zero = refl
common-zero (suc n) (suc a) = omega (arith, common-zero n (suc a / 2))

-- Digits beyond the first number's do not count.
common_longer : (m n a b : ℕ) → a ≤ m → a ≤ n → common m a b ≡ common n a b
common_longer zero zero zero b p q = refl
common_longer zero (suc n) zero b p q = refl
common_longer (suc m) zero zero b p q = refl
common_longer (suc m) (suc n) zero b p q = refl
common_longer zero n (suc a) b p q = elim p [ ]
common_longer (suc m) zero (suc a) b p q = elim q [ ]
common_longer (suc m) (suc n) (suc a) b p q =
    omega (arith, common_longer m n (suc a / 2) (b / 2) (omega arith) (omega arith))

common_comm : (n a b : ℕ) → a ≤ n → b ≤ n → common n a b ≡ common n b a
common_comm zero zero zero p q = refl
common_comm zero (suc a) b p q = elim p [ ]
common_comm zero zero (suc b) p q = elim q [ ]
common_comm (suc n) zero zero p q = refl
common_comm (suc n) zero (suc b) p q = sym (common-zero (suc n) (suc b))
common_comm (suc n) (suc a) zero p q = common-zero (suc n) (suc a)
common_comm (suc n) (suc a) (suc b) p q =
    omega (arith, common_comm n (suc a / 2) (suc b / 2) (omega arith) (omega arith))

pub bit_and_comm : (a b : ℕ) → bit_and a b ≡ bit_and b a
bit_and_comm a b =
    bit_and-bitwise a b
    ∙ common_longer a (a + b) a b (omega arith) (omega arith)
    ∙ common_comm (a + b) a b (omega arith) (omega arith)
    ∙ common_longer (a + b) b b a (omega arith) (omega arith)
    ∙ sym (bit_and-bitwise b a)

pub bit_and_step : (a b : ℕ) → bit_and a b ≡ bit_and (a / 2) (b / 2) * 2 + min (a % 2) (b % 2)
bit_and_step zero b = omega (arith, bit_and-bitwise 0 b, bit_and-bitwise 0 (b / 2))
bit_and_step (suc a) b = omega (
  arith,
  bit_and-bitwise (suc a) b,
  bit_and-bitwise (suc a / 2) (b / 2),
  common_longer a (suc a / 2) (suc a / 2) (b / 2) (omega arith) (omega arith),
)

abbrev either : (n a b : ℕ) → ℕ
either n a b = digits (λ b. b) max n a b

either_longer : (m n a b : ℕ) → a ≤ m → a ≤ n → either m a b ≡ either n a b
either_longer zero zero zero b p q = refl
either_longer zero (suc n) zero b p q = refl
either_longer (suc m) zero zero b p q = refl
either_longer (suc m) (suc n) zero b p q = refl
either_longer zero n (suc a) b p q = elim p [ ]
either_longer (suc m) zero (suc a) b p q = elim q [ ]
either_longer (suc m) (suc n) (suc a) b p q =
    omega (arith, either_longer m n (suc a / 2) (b / 2) (omega arith) (omega arith))

pub bit_or_step : (a b : ℕ) → bit_or a b ≡ bit_or (a / 2) (b / 2) * 2 + max (a % 2) (b % 2)
bit_or_step zero b = omega (arith, bit_or-bitwise 0 b, bit_or-bitwise 0 (b / 2))
bit_or_step (suc a) b = omega (
  arith,
  bit_or-bitwise (suc a) b,
  bit_or-bitwise (suc a / 2) (b / 2),
  either_longer a (suc a / 2) (suc a / 2) (b / 2) (omega arith) (omega arith),
)

-- Digit `k` of a mask.
unfoldable pub digit : (k a : ℕ) → ℕ
digit zero a = a % 2
digit (suc k) a = digit k (a / 2)

-- `1 << k`
unfoldable pub one_at : (k : ℕ) → ℕ
one_at zero = 1
one_at (suc k) = one_at k * 2

pub digit-bit_and : (k a b : ℕ) → digit k (bit_and a b) ≡ min (digit k a) (digit k b)
unfolding digit
digit-bit_and zero a b = omega (arith, bit_and_step a b)
digit-bit_and (suc k) a b =
    let half : bit_and a b / 2 ≡ bit_and (a / 2) (b / 2) = omega (arith, bit_and_step a b) in
    rw half (digit-bit_and k (a / 2) (b / 2))

pub digit-bit_or : (k a b : ℕ) → digit k (bit_or a b) ≡ max (digit k a) (digit k b)
unfolding digit
digit-bit_or zero a b = omega (arith, bit_or_step a b)
digit-bit_or (suc k) a b =
    let half : bit_or a b / 2 ≡ bit_or (a / 2) (b / 2) = omega (arith, bit_or_step a b) in
    rw half (digit-bit_or k (a / 2) (b / 2))

pub digit-lt : (k a : ℕ) → digit k a < 2
unfolding digit
digit-lt zero a = omega arith
digit-lt (suc k) a = digit-lt k (a / 2)

pub digit-zero : (k : ℕ) → digit k 0 ≡ 0
unfolding digit
digit-zero zero = refl
digit-zero (suc k) = digit-zero k

pub digit-one_at : (k j : ℕ) → digit k (one_at j) ≡ (if k == j then 1 else 0)
unfolding digit one_at
digit-one_at zero zero = refl
digit-one_at zero (suc j) = ground arith
digit-one_at (suc k) zero = ground (arith, digit-zero k)
digit-one_at (suc k) (suc j) =
    let half : one_at j * 2 / 2 ≡ one_at j = omega arith in
    rw half (ground (arith, digit-one_at k j))

-- A mask of one digit takes out that digit.
pub bit_and-one_at : (k a : ℕ) → (bit_and a (one_at k) == 0) ≡ (digit k a == 0)
unfolding digit one_at
bit_and-one_at zero a =
    let rest : bit_and (a / 2) 0 ≡ 0 = bit_and_comm (a / 2) 0 ∙ bit_and-bitwise 0 (a / 2) in
    ground (arith, bit_and_step a 1, rest)
bit_and-one_at (suc k) a =
    let double = one_at k * 2 in
    let half : double / 2 ≡ one_at k = omega arith in
    let step : bit_and a double ≡ bit_and (a / 2) (double / 2) * 2 + min (a % 2) (double % 2) =
      bit_and_step a double in
    let same : bit_and (a / 2) (double / 2) ≡ bit_and (a / 2) (one_at k) =
      ap (bit_and (a / 2)) half in
    let short : bit_and a double ≡ bit_and (a / 2) (one_at k) * 2 = omega (arith, step, same) in
    ground (arith, short, bit_and-one_at k (a / 2))

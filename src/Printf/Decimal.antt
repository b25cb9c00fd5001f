-- ===== src/Printf/Decimal.antt =====
-- Decimal numbers are printed in full and can be read back: `prt10`.
use davros.Base.{
  ℕ, zero, suc, ◌+◌, ◌-◌, ◌*◌, ◌/◌, ◌%◌, ◌^◌, ◌<◌, ◌≤◌, ◌≡◌, refl, sym, ap, ◌∙◌, inl, inr, false,
  some, List, [], ◌∷◌, ◌++◌, arith, leb, ◌==◌, Bool-cases, if◌then◌else◌,
}
use mathlib.Core.List.{append-nil}
use davros.Dll.Walk.{All}
use davros.Printf.{
  put_decimal, prt10, conv_d, conv_u, long_of_int, print_digits, signed_number, convert,
}

-- The number that the digits stand for, behind others that stand for `n`.
abbrev pub value_from : (n : ℕ) → List ℕ → ℕ
value_from n [] = n
value_from n (c ∷ cs) = value_from (n * 10 + (c - 48)) cs

-- There is a digit, and the first one is not 0 unless it is the only one.
abbrev pub HasNoLead : List ℕ → Type 0
HasNoLead [] = ⊥
HasNoLead (c ∷ cs) = c ≡ 48 → cs ≡ []

-- The digits are the decimal ones of `val`, of which there is one at least, without a leading 0 if there
-- are several.
pub record IsDecimal (val : ℕ) (cs : List ℕ) : Type 0 where
  pub value_is : value_from 0 cs ≡ val
  pub digits : All (λ c. (48 ≤ c) × (c ≤ 57)) cs
  pub lead : HasNoLead cs

value_from-append :
    (n : ℕ) (cs : List ℕ) (c : ℕ) → value_from n (cs ++ c ∷ []) ≡ value_from n cs * 10 + (c - 48)
value_from-append n [] c = refl
value_from-append n (d ∷ cs) c = value_from-append (n * 10 + (d - 48)) cs c

All-append : (P : ℕ → Type 0) (cs : List ℕ) (c : ℕ) → All P cs → P c → All P (cs ++ c ∷ [])
All-append P [] c a p = (p, tt)
All-append P (d ∷ cs) c a p = (a.0, All-append P cs c a.1 p)

append-snoc : (cs : List ℕ) (c : ℕ) (str : List ℕ) → (cs ++ c ∷ []) ++ str ≡ cs ++ c ∷ str
append-snoc [] c str = refl
append-snoc (d ∷ cs) c str = ap (λ l. d ∷ l) (append-snoc cs c str)

-- The first number with more than `room` digits.
abbrev pub ten_to : ℕ → ℕ
ten_to zero = 1
ten_to (suc room) = 10 * ten_to room

room_left : (room n : ℕ) → 0 < n → n < ten_to room → 0 < room
room_left zero n a b = omega arith
room_left (suc room) n a b = omega arith

record Printed (room val : ℕ) (str : List ℕ) : Type 0 where
  first : ℕ
  rest : List ℕ
  run : put_decimal room val str ≡ some ((first ∷ rest) ++ str)
  value_is : value_from 0 (first ∷ rest) ≡ val
  digits : All (λ c. (48 ≤ c) × (c ≤ 57)) (first ∷ rest)
  zero_is : first ≡ 48 → val ≡ 0
  lead : first ≡ 48 → rest ≡ []

put_decimal-Printed :
    (room val : ℕ) (str : List ℕ) → 0 < room → val < ten_to room → Printed room val str
unfolding put_decimal
put_decimal-Printed zero val str h l = elim h [ ]
put_decimal-Printed (suc room) val str h l =
    let tmp = val / 10 in
    let c = (val - tmp * 10) + 48 in
    elim (Bool-cases (tmp == 0)) [
      | inl e ↦ record {
        first = c;
        rest = [];
        run = rw e refl;
        value_is = ground arith;
        digits = ((omega arith, omega arith), tt);
        zero_is = λ z. ground arith;
        lead = λ z. refl;
      }
      | inr e ↦
          let small : tmp < ten_to room = omega arith in
          let is =
            put_decimal-Printed room tmp (c ∷ str) (room_left room tmp (ground arith) small)
              small in
          let digit : c - 48 ≡ val % 10 = omega arith in
          record {
            first = is.first;
            rest = is.rest ++ c ∷ [];
            run = rw e (is.run ∙ ap some (sym (append-snoc (is.first ∷ is.rest) c str)));
            value_is =
                value_from-append 0 (is.first ∷ is.rest) c ∙ ground (arith, is.value_is, digit);
            digits =
                All-append (λ c. (48 ≤ c) × (c ≤ 57)) (is.first ∷ is.rest) c is.digits
                  (omega arith, omega arith);
            zero_is = λ z. ground (arith, is.zero_is z);
            lead = λ z. absurd (ground (arith, is.zero_is z));
          }
    ]

-- A 64-bit number is printed in full, and its digits read back as the number.
pub prt10_lem : (val : ℕ) → val < 2 ^ 64 → (cs : List ℕ) × (prt10 val ≡ some cs) × IsDecimal val cs
unfolding prt10
prt10_lem val small =
    let is = put_decimal-Printed 31 val [] (omega arith) (omega arith) in
    (
      is.first ∷ is.rest,
      is.run ∙ ap some (append-nil (is.first ∷ is.rest)),
      record { value_is = is.value_is; digits = is.digits; lead = is.lead },
    )

-- What `%d` and `%u` print of an int.
abbrev pub printed_d : ℕ → ℕ
printed_d w = if w == 2 ^ 31 then 2 ^ 64 - 2 ^ 31 else if leb (2 ^ 31) w then 2 ^ 32 - w else w

-- For every int argument, a %d conversion prints a minus sign exactly if the int is negative, and
-- the decimal digits of its absolute value, except for the least int, for which they are those of
-- 2^64 - 2^31; a %u conversion prints no sign and the decimal digits of the int as it is extended
-- to a long, with its sign. The digits fit in the buffer; there is at least one, and no leading 0
-- but in the number 0 itself, which is the one digit 0.
pub convert_lem :
    (w : ℕ)
    → w < 2 ^ 32
    → (ds : List ℕ) × (us : List ℕ) × (convert conv_d false w ≡ (leb (2 ^ 31) w, some ds))
      × IsDecimal (printed_d w) ds
      × (convert conv_u false w ≡ (false, some us))
      × IsDecimal (long_of_int w) us
unfolding convert signed_number print_digits
convert_lem w small =
    let (us, prints, decimal) = prt10_lem (long_of_int w) (ground arith) in
    let (ds, prints_d, decimal_d) = prt10_lem (printed_d w) (ground arith) in
    let sign : leb (2 ^ 63) (long_of_int w) ≡ leb (2 ^ 31) w = ground arith in
    let same : long_of_int (long_of_int w % 2 ^ 32) ≡ long_of_int w = ground arith in
    let size : long_of_int
          ((if leb (2 ^ 31) w then (2 ^ 64 - long_of_int w) % 2 ^ 64 else long_of_int w) % 2 ^ 32)
        ≡ printed_d w =
      ground arith in
    (ds, us, rw (sign, size, prints_d) refl, decimal_d, rw (same, prints) refl, decimal)

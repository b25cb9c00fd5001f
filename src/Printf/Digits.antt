-- ===== src/Printf/Digits.antt =====
-- The digits of a machine word fit in the buffer of `dv_xprintf`.
use davros.Base.{
  ℕ, zero, suc, ◌+◌, ◌-◌, ◌*◌, ◌/◌, ◌%◌, ltb, ◌^◌, ◌<◌, ◌≡◌, refl, inl, inr, Bool, true, false,
  some, List, [], ◌∷◌, arith, ◌==◌, Bool-cases, if◌then◌else◌,
}
use davros.Printf.{
  Conversion, conv_d, conv_u, conv_x, conv_upper_x, put_hex, prt16, print_digits, signed_number,
  convert,
}
use davros.Printf.Decimal.{prt10_lem}
use davros.Printf.Format.{word_of}

-- The first number with more than `room` hexadecimal digits.
abbrev sixteen_to : ℕ → ℕ
sixteen_to zero = 1
sixteen_to (suc room) = 16 * sixteen_to room

hex_room : (room n : ℕ) → 0 < n → n < sixteen_to room → 0 < room
hex_room zero n a b = omega arith
hex_room (suc room) n a b = omega arith

put_hex-some :
    (room val hexdgt : ℕ) (str : List ℕ)
    → 0 < room
    → val < sixteen_to room
    → (cs : List ℕ) × (put_hex room val hexdgt str ≡ some cs)
unfolding put_hex
put_hex-some zero val hexdgt str h l = elim h [ ]
put_hex-some (suc room) val hexdgt str h l =
    let tmp = val % 16 in
    let next = (if ltb tmp 10 then tmp + 48 else hexdgt + (tmp - 10)) ∷ str in
    elim (Bool-cases (val / 16 == 0)) [
      | inl e ↦ (next, rw e refl)
      | inr e ↦
          let small : val / 16 < sixteen_to room = omega arith in
          let (cs, runs) =
            put_hex-some room (val / 16) hexdgt next (hex_room room (val / 16) (ground arith) small)
              small in
          (cs, rw e runs)
    ]

prt16-some : (val hexdgt : ℕ) → val < 2 ^ 64 → (cs : List ℕ) × (prt16 val hexdgt ≡ some cs)
unfolding prt16
prt16-some val hexdgt small = put_hex-some 31 val hexdgt [] (omega arith) (omega arith)

prt10-some : (val : ℕ) → val < 2 ^ 64 → (cs : List ℕ) × (print_digits conv_u val ≡ some cs)
unfolding print_digits
prt10-some val small = let (cs, runs, decimal) = prt10_lem val small in (cs, runs)

print_digits-some :
    (conv : Conversion) (val : ℕ) → val < 2 ^ 64 → (cs : List ℕ) × (print_digits conv val ≡ some cs)
unfolding print_digits
print_digits-some conv_d val small = prt10-some val small
print_digits-some conv_u val small = prt10-some val small
print_digits-some conv_x val small = prt16-some val 97 small
print_digits-some conv_upper_x val small = prt16-some val 65 small

pub word_of-lt : (longarg : Bool) (w : ℕ) → word_of longarg w < (if longarg then 2 ^ 64 else 2 ^ 32)
word_of-lt true w = omega arith
word_of-lt false w = omega arith

signed_number-lt :
    (conv : Conversion) (longarg : Bool) (w : ℕ)
    → w < (if longarg then 2 ^ 64 else 2 ^ 32)
    → (signed_number conv longarg w).1 < 2 ^ 64
unfolding signed_number
signed_number-lt conv true w small = ground arith
signed_number-lt conv false w small = ground arith

-- A conversion of a machine word has its digits.
pub convert-some :
    (conv : Conversion) (longarg : Bool) (w : ℕ)
    → w < (if longarg then 2 ^ 64 else 2 ^ 32)
    → (sign : Bool) × (cs : List ℕ) × (convert conv longarg w ≡ (sign, some cs))
unfolding convert
convert-some conv longarg w small =
    let number = signed_number conv longarg w in
    let (cs, runs) = print_digits-some conv number.1 (signed_number-lt conv longarg w small) in
    (number.0, cs, rw runs refl)

-- ===== src/Printf.antt =====
-- The printing of numbers by lib/c/dv-xprintf.c, where int has 32 bits and long 64 (lib/h/dv-types-64.h).
-- Characters are numbers.
pub mod Decimal
pub mod Digits
pub mod Format
use davros.Base.{
  ℕ, zero, suc, ◌+◌, ◌-◌, ◌*◌, ◌/◌, ◌%◌, ◌^◌, Bool, true, false, Option, none, some, Option, List,
  [], ◌∷◌, leb, ltb, ◌==◌, ◌&&◌, not, if◌then◌else◌,
}

abbrev pub xprint_maxstr : ℕ
xprint_maxstr = 31

-- The loop of `prt10`, with room for that many more characters in front of those in the buffer. A write
-- in front of the buffer is `none`.
unfoldable pub put_decimal : (room val : ℕ) → List ℕ → Option (List ℕ)
put_decimal zero val str = none
put_decimal (suc room) val str =
    let tmp = val / 10 in
    let next = ((val - tmp * 10) + 48) ∷ str in
    let rest = put_decimal room tmp next in if tmp == 0 then some next else rest

unfoldable pub prt10 : (val : ℕ) → Option (List ℕ)
prt10 val = put_decimal xprint_maxstr val []

-- `hexdgt` is 97 for "abcdef" and 65 for "ABCDEF".
unfoldable pub put_hex : (room val hexdgt : ℕ) → List ℕ → Option (List ℕ)
put_hex zero val hexdgt str = none
put_hex (suc room) val hexdgt str =
    let tmp = val % 16 in
    let next = (if ltb tmp 10 then tmp + 48 else hexdgt + (tmp - 10)) ∷ str in
    let rest = put_hex room (val / 16) hexdgt next in if val / 16 == 0 then some next else rest

unfoldable pub prt16 : (val hexdgt : ℕ) → Option (List ℕ)
prt16 val hexdgt = put_hex xprint_maxstr val hexdgt []

pub data Conversion : Type 0 where
  conv_d conv_u conv_x conv_upper_x : Conversion

abbrev pub is_d : Conversion → Bool
is_d conv_d = true
is_d conv_u = false
is_d conv_x = false
is_d conv_upper_x = false

-- The conversion of an int to a long, both in two's complement.
abbrev pub long_of_int : ℕ → ℕ
long_of_int w = if leb (2 ^ 31) w then w + (2 ^ 64 - 2 ^ 32) else w

unfoldable pub print_digits : Conversion → ℕ → Option (List ℕ)
print_digits conv_d num = prt10 num
print_digits conv_u num = prt10 num
print_digits conv_x num = prt16 num 97
print_digits conv_upper_x num = prt16 num 65

-- The number that goes to the digits, and whether a minus sign does, for an argument that is a long or an
-- int.
unfoldable pub signed_number : Conversion → (longarg : Bool) → (arg : ℕ) → Bool × ℕ
signed_number conv longarg arg =
    let num = if longarg then arg else long_of_int arg in
    let sign = is_d conv && leb (2 ^ 63) num in
    let size = if sign then (2 ^ 64 - num) % 2 ^ 64 else num in
    (sign, (if longarg then size else long_of_int (size % 2 ^ 32)))

-- The sign and the digits of a conversion.
unfoldable pub convert : Conversion → (longarg : Bool) → (arg : ℕ) → Bool × Option (List ℕ)
convert conv longarg arg =
    let (sign, num) = signed_number conv longarg arg in (sign, print_digits conv num)

-- ===== src/Printf/Format.antt =====
-- The formatted output of lib/c/dv-xprintf.c: `dv_xprintf`. An int is a 32-bit word in two's complement.
-- Reading an argument that is not there, or of another type, is undefined; so is a number with more digits
-- than the buffer has room for.
pub mod Ends
use davros.Base.{
  ℕ, zero, suc, ◌+◌, ◌-◌, ◌*◌, ◌%◌, ◌^◌, Bool, true, false, Option, none, some, List, [], ◌∷◌, ◌++◌,
  leb, ltb, ◌==◌, ◌&&◌, ◌||◌, not, length, if◌then◌else◌,
}
use davros.Printf.{Conversion, conv_d, conv_u, conv_x, conv_upper_x, convert}

pub data Arg : Type 0 where
  int_arg long_arg : ℕ → Arg
  text_arg : List ℕ → Arg

-- What has been read of a conversion: the character in hand, the format behind it and the arguments left.
pub record Spec : Type 0 where
  pub ch : ℕ
  pub fmt : List ℕ
  pub args : List Arg
  pub ljust : Bool
  pub fill : ℕ
  pub fmin : ℕ
  pub fmax : ℕ
  pub longarg : Bool

-- `a < b` for ints.
abbrev pub int_lt : (a b : ℕ) → Bool
int_lt a b = ltb ((a + 2 ^ 31) % 2 ^ 32) ((b + 2 ^ 31) % 2 ^ 32)

abbrev pub isdigit : ℕ → Bool
isdigit c = leb 48 c && leb c 57

-- `ch = *fmt++`; the format ends with a 0.
abbrev pub next_char : Spec → List ℕ → Spec
next_char p [] = record p { ch = 0; fmt = [] }
next_char p (c ∷ cs) = record p { ch = c; fmt = cs }

unfoldable pub advance_fmt : Spec → Spec
advance_fmt p = next_char p p.fmt

unfoldable pub read_ljust : Spec → Spec
read_ljust p = if p.ch == 45 then advance_fmt (record p { ljust = true }) else p

unfoldable pub read_fill : Spec → Spec
read_fill p = if p.ch == 48 then advance_fmt (record p { fill = 48 }) else p

-- The digits from `c` on: the number, the character behind it and the rest of the format.
unfoldable pub read_digits : (n c : ℕ) → List ℕ → ℕ × ℕ × List ℕ
read_digits n c [] = if isdigit c then ((n * 10 + (c - 48)) % 2 ^ 32, 0, []) else (n, c, [])
read_digits n c (d ∷ ds) =
    let rest = read_digits ((n * 10 + (c - 48)) % 2 ^ 32) d ds in
    if isdigit c then rest else (n, c, d ∷ ds)

-- `va_arg(ap, int)`
unfoldable pub take_int : List Arg → Option (ℕ × List Arg)
take_int [] = none
take_int (int_arg w ∷ args) = some (w, args)
take_int (long_arg w ∷ args) = none
take_int (text_arg s ∷ args) = none

unfoldable pub take_long : List Arg → Option (ℕ × List Arg)
take_long [] = none
take_long (int_arg w ∷ args) = none
take_long (long_arg w ∷ args) = some (w, args)
take_long (text_arg s ∷ args) = none

unfoldable pub take_text : List Arg → Option (List ℕ × List Arg)
take_text [] = none
take_text (int_arg w ∷ args) = none
take_text (long_arg w ∷ args) = none
take_text (text_arg s ∷ args) = some (s, args)

unfoldable pub read_fmin : Spec → Option Spec
read_fmin p =
    if p.ch == 42
    then elim (take_int p.args) [
      | none ↦ none
      | some (w, args) ↦ some (advance_fmt (record p { fmin = w; args = args }))
    ]
    else (let (n, c, rest) = read_digits p.fmin p.ch p.fmt in
        some (record p { fmin = n; ch = c; fmt = rest }))

-- Behind the dot.
unfoldable pub read_precision : Spec → Option Spec
read_precision p =
    if p.ch == 42
    then elim (take_int p.args) [
      | none ↦ none
      | some (w, args) ↦ some (advance_fmt (record p { fmax = w; args = args }))
    ]
    else (let (n, c, rest) = read_digits 0 p.ch p.fmt in
        some (record p { fmax = n; ch = c; fmt = rest }))

unfoldable pub read_fmax : Spec → Option Spec
read_fmax p = if p.ch == 46 then read_precision (advance_fmt p) else some p

unfoldable pub read_longarg : Spec → Spec
read_longarg p = if p.ch == 108 then advance_fmt (record p { longarg = true }) else p

abbrev pub then_longarg : Option Spec → Option Spec
then_longarg none = none
then_longarg (some p) = some (read_longarg p)

abbrev pub then_fmax : Option Spec → Option Spec
then_fmax none = none
then_fmax (some p) = read_fmax p

-- Everything up to the conversion's own character.
unfoldable pub read_spec : Spec → Option Spec
read_spec p = then_longarg (then_fmax (read_fmin (read_fill (read_ljust p))))

-- What a conversion prints: whether a minus sign, the text, and the arguments left.
pub record Text : Type 0 where
  pub sign : Bool
  pub str : List ℕ
  pub left : List Arg

-- What a conversion prints, or why it is undefined: an argument is missing or of another type, or the
-- digits overrun the buffer.
pub data Converted : Type 0 where
  converted : Text → Converted
  bad_argument overrun : Converted

unfoldable pub take_number : Spec → Option (ℕ × List Arg)
take_number p = if p.longarg then take_long p.args else take_int p.args

-- An argument is a machine word.
abbrev pub word_of : (longarg : Bool) → ℕ → ℕ
word_of longarg w = if longarg then w % 2 ^ 64 else w % 2 ^ 32

unfoldable pub text_of_number : Bool × Option (List ℕ) → List Arg → Converted
text_of_number (sign, none) args = overrun
text_of_number (sign, some cs) args = converted (record { sign = sign; str = cs; left = args })

unfoldable pub number_text : Conversion → Spec → Converted
number_text conv p = elim (take_number p) [
  | none ↦ bad_argument
  | some (w, args) ↦ text_of_number (convert conv p.longarg (word_of p.longarg w)) args
]

unfoldable pub char_text : Spec → Converted
char_text p = elim (take_number p) [
  | none ↦ bad_argument
  | some (w, args) ↦
      converted
        (record { sign = false; str = if w % 256 == 0 then [] else (w % 256) ∷ []; left = args })
]

unfoldable pub string_text : Spec → Converted
string_text p = elim (take_text p.args) [
  | none ↦ bad_argument
  | some (s, args) ↦ converted (record { sign = false; str = s; left = args })
]

unfoldable pub spec_text : Spec → Converted
spec_text p =
    if p.ch == 99
    then char_text p
    else if p.ch == 115
    then string_text p
    else if p.ch == 100
    then number_text conv_d p
    else if p.ch == 117
    then number_text conv_u p
    else if p.ch == 120
    then number_text conv_x p
    else if p.ch == 88
    then number_text conv_upper_x p
    else converted (record { sign = false; str = 42 ∷ (42 ∷ (42 ∷ [])); left = p.args })

-- `for ( i = n; i > 0; i-- )`, with the int `n`.
abbrev pub rounds : ℕ → ℕ
rounds n = if leb (2 ^ 31) n then 0 else n

abbrev pub fill_with : (n c : ℕ) → List ℕ
fill_with zero c = []
fill_with (suc n) c = c ∷ fill_with n c

abbrev pub first_of : ℕ → List ℕ → List ℕ
first_of zero cs = []
first_of (suc n) [] = []
first_of (suc n) (c ∷ cs) = c ∷ first_of n cs

abbrev pub one_if : Bool → ℕ
one_if b = if b then 1 else 0

abbrev pub minus_if : Bool → List ℕ
minus_if b = if b then 45 ∷ [] else []

-- The number of characters of the text that are printed, and of those that fill it up.
unfoldable pub text_len : Spec → Text → ℕ
text_len p x = let len = length x.str % 2 ^ 32 in if int_lt p.fmax len then p.fmax else len

unfoldable pub leading : Spec → Text → ℕ
leading p x =
    if int_lt (text_len p x) p.fmin
    then (p.fmin + (2 ^ 32 - text_len p x) + (2 ^ 32 - one_if x.sign)) % 2 ^ 32
    else 0

unfoldable pub layout : Spec → Text → List ℕ
layout p x =
    let pad = fill_with (rounds (leading p x)) p.fill in
    let early = x.sign && (p.fill == 48) in
    minus_if early
    ++ ((if p.ljust then [] else pad)
        ++ (minus_if (x.sign && not early)
            ++ (first_of (rounds (text_len p x)) x.str ++ (if p.ljust then pad else []))))

pub data Output : Type 0 where
  printed : List ℕ → (n : ℕ) → Output
  no_argument buffer_overrun no_fuel : Output

abbrev pub put : List ℕ → Output → Output
put cs (printed out n) = printed (cs ++ out) n
put cs no_argument = no_argument
put cs buffer_overrun = buffer_overrun
put cs no_fuel = no_fuel

abbrev pub fresh_spec : List ℕ → List Arg → Spec
fresh_spec fmt args = record {
  ch = 37;
  fmt = fmt;
  args = args;
  ljust = false;
  fill = 32;
  fmin = 0;
  fmax = 255;
  longarg = false;
}

-- A conversion, with the loop's `rest` for what is behind it.
unfoldable pub print_spec : (rest : List ℕ → List Arg → ℕ → Output) → (n : ℕ) → Option Spec → Output
print_spec rest n none = no_argument
print_spec rest n (some p) =
    if p.ch == 0 then printed (37 ∷ []) ((n + 1) % 2 ^ 32) else elim (spec_text p) [
      | bad_argument ↦ no_argument
      | overrun ↦ buffer_overrun
      | converted x ↦
          put (layout p x)
            (rest p.fmt x.left ((n + (text_len p x + leading p x + one_if x.sign)) % 2 ^ 32))
    ]

-- The loop, with the number of characters printed so far. Each round reads a character of the format.
unfoldable pub print_loop : (fuel : ℕ) → List ℕ → List Arg → (n : ℕ) → Output
print_loop zero fmt args n = no_fuel
print_loop (suc fuel) [] args n = printed [] n
print_loop (suc fuel) (c ∷ cs) args n =
    let rest = print_loop fuel in
    let p = advance_fmt (fresh_spec cs args) in
    if c == 37
    then (if p.ch == 37
        then put (37 ∷ []) (rest p.fmt args ((n + 1) % 2 ^ 32))
        else print_spec rest n (read_spec p))
    else put (c ∷ []) (rest cs args ((n + 1) % 2 ^ 32))

-- The characters that go to `xputc`, and the result.
unfoldable pub xprintf : List ℕ → List Arg → Output
xprintf fmt args = print_loop (length fmt + 1) fmt args 0

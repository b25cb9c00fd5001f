-- ===== src/Printf/Format/Ends.antt =====
-- The loop of `dv_xprintf` ends: each round reads at least a character of the format.
use davros.Base.{
  ℕ, zero, suc, ◌+◌, ◌*◌, ◌-◌, ◌%◌, ◌^◌, ◌≤◌, ◌<◌, ◌≡◌, refl, ◌⊎◌, inl, inr, Bool, true, false,
  Option, none, some, List, [], ◌∷◌, arith, if◌then◌else◌, ◌==◌, length, Bool-cases,
}
use davros.Printf.Format.{
  Spec, Arg, isdigit, next_char, advance_fmt, read_ljust, read_fill, read_digits, take_int,
  read_fmin, read_precision, read_fmax, read_longarg, read_spec, then_longarg, then_fmax, spec_text,
  layout, Output, printed, no_argument, buffer_overrun, no_fuel, Text, Converted, converted,
  bad_argument, number_text, text_of_number, char_text, string_text, take_number, take_text,
  word_of, put, fresh_spec, print_spec, print_loop, xprintf,
}
use davros.Printf.{Conversion, conv_d, conv_u, conv_x, conv_upper_x}
use davros.Printf.Digits.{word_of-lt, convert-some}

-- No more than `n` characters of the format are left.
abbrev AtMost : ℕ → Option Spec → Type 0
AtMost n none = Unit
AtMost n (some p) = length p.fmt ≤ n

next_char-le : (p : Spec) (cs : List ℕ) → length (next_char p cs).fmt ≤ length cs
next_char-le p [] = omega arith
next_char-le p (c ∷ cs) = omega arith

advance_fmt-le : (p : Spec) → length (advance_fmt p).fmt ≤ length p.fmt
unfolding advance_fmt
advance_fmt-le p = next_char-le p p.fmt

read_ljust-le : (p : Spec) → length (read_ljust p).fmt ≤ length p.fmt
unfolding read_ljust
read_ljust-le p = ground (arith, advance_fmt-le (record p { ljust = true }))

read_fill-le : (p : Spec) → length (read_fill p).fmt ≤ length p.fmt
unfolding read_fill
read_fill-le p = ground (arith, advance_fmt-le (record p { fill = 48 }))

read_longarg-le : (p : Spec) → length (read_longarg p).fmt ≤ length p.fmt
unfolding read_longarg
read_longarg-le p = ground (arith, advance_fmt-le (record p { longarg = true }))

read_digits-le : (n c : ℕ) (cs : List ℕ) → length (read_digits n c cs).2 ≤ length cs
unfolding read_digits
read_digits-le n c [] = elim (Bool-cases (isdigit c)) [
  | inl e ↦ rw e (omega arith)
  | inr e ↦ rw e (omega arith)
]
read_digits-le n c (d ∷ ds) = elim (Bool-cases (isdigit c)) [
  | inl e ↦ rw e (omega (arith, read_digits-le ((n * 10 + (c - 48)) % 2 ^ 32) d ds))
  | inr e ↦ rw e (omega arith)
]

option_cases : {A : Type 0} (o : Option A) → (o ≡ none) ⊎ ((a : A) × (o ≡ some a))
option_cases none = inl refl
option_cases (some a) = inr (a, refl)

read_fmin-AtMost : (p : Spec) → AtMost (length p.fmt) (read_fmin p)
unfolding read_fmin
read_fmin-AtMost p = elim (Bool-cases (p.ch == 42)) [
  | inl e ↦ elim (option_cases (take_int p.args)) [
    | inl o ↦ rw (e, o) tt
    | inr ((w, args), o) ↦ rw (e, o) (advance_fmt-le (record p { fmin = w; args = args }))
  ]
  | inr e ↦ rw e (read_digits-le p.fmin p.ch p.fmt)
]

read_precision-AtMost : (p : Spec) → AtMost (length p.fmt) (read_precision p)
unfolding read_precision
read_precision-AtMost p = elim (Bool-cases (p.ch == 42)) [
  | inl e ↦ elim (option_cases (take_int p.args)) [
    | inl o ↦ rw (e, o) tt
    | inr ((w, args), o) ↦ rw (e, o) (advance_fmt-le (record p { fmax = w; args = args }))
  ]
  | inr e ↦ rw e (read_digits-le 0 p.ch p.fmt)
]

AtMost-le : (m n : ℕ) (o : Option Spec) → m ≤ n → AtMost m o → AtMost n o
AtMost-le m n none h a = tt
AtMost-le m n (some p) h a = omega arith

read_fmax-AtMost : (p : Spec) → AtMost (length p.fmt) (read_fmax p)
unfolding read_fmax
read_fmax-AtMost p = elim (Bool-cases (p.ch == 46)) [
  | inl e ↦ rw e (
      AtMost-le (length (advance_fmt p).fmt) (length p.fmt) (read_precision (advance_fmt p))
        (advance_fmt-le p) (read_precision-AtMost (advance_fmt p)))
  | inr e ↦ rw e (omega arith)
]

then_longarg-AtMost : (n : ℕ) (o : Option Spec) → AtMost n o → AtMost n (then_longarg o)
then_longarg-AtMost n none a = tt
then_longarg-AtMost n (some p) a = omega (arith, read_longarg-le p)

then_fmax-AtMost : (n : ℕ) (o : Option Spec) → AtMost n o → AtMost n (then_fmax o)
then_fmax-AtMost n none a = tt
then_fmax-AtMost n (some p) a = AtMost-le (length p.fmt) n (read_fmax p) a (read_fmax-AtMost p)

read_spec-AtMost : (p : Spec) → AtMost (length p.fmt) (read_spec p)
unfolding read_spec
read_spec-AtMost p =
    let q = read_fill (read_ljust p) in
    let q_le : length q.fmt ≤ length p.fmt =
      omega (arith, read_fill-le (read_ljust p), read_ljust-le p) in
    then_longarg-AtMost (length p.fmt) (then_fmax (read_fmin q)) (
      then_fmax-AtMost (length p.fmt) (read_fmin q)
        (AtMost-le (length q.fmt) (length p.fmt) (read_fmin q) q_le (read_fmin-AtMost q)))

-- Whether the output is complete, or an argument is missing or of another type.
abbrev pub has_ended : Output → Bool
has_ended (printed out n) = true
has_ended no_argument = true
has_ended buffer_overrun = false
has_ended no_fuel = false

put-has_ended : (cs : List ℕ) (o : Output) → has_ended o ≡ true → has_ended (put cs o) ≡ true
put-has_ended cs (printed out n) h = refl
put-has_ended cs no_argument h = refl
put-has_ended cs buffer_overrun h = h
put-has_ended cs no_fuel h = h

-- A conversion prints a text, or an argument is missing or of another type.
abbrev Prints : Converted → Type 0
Prints c = (c ≡ bad_argument) ⊎ ((x : Text) × (c ≡ converted x))

number_text-Prints : (conv : Conversion) (p : Spec) → Prints (number_text conv p)
unfolding number_text text_of_number
number_text-Prints conv p = elim (option_cases (take_number p)) [
  | inl o ↦ inl (rw (o, number_text) refl)
  | inr ((w, args), o) ↦
      let (sign, cs, runs) =
        convert-some conv p.longarg (word_of p.longarg w) (word_of-lt p.longarg w) in
      inr (record { sign = sign; str = cs; left = args }, rw (o, number_text, runs) refl)
]

char_text-Prints : (p : Spec) → Prints (char_text p)
unfolding char_text
char_text-Prints p = elim (option_cases (take_number p)) [
  | inl o ↦ inl (rw (o, char_text) refl)
  | inr ((w, args), o) ↦
      let str : List ℕ = if w % 256 == 0 then [] else (w % 256) ∷ [] in
      inr (record { sign = false; str = str; left = args }, rw (o, char_text) refl)
]

string_text-Prints : (p : Spec) → Prints (string_text p)
unfolding string_text
string_text-Prints p = elim (option_cases (take_text p.args)) [
  | inl o ↦ inl (rw (o, string_text) refl)
  | inr ((s, args), o) ↦
      inr (record { sign = false; str = s; left = args }, rw (o, string_text) refl)
]

Prints-if : (b : Bool) (c d : Converted) → Prints c → Prints d → Prints (if b then c else d)
Prints-if true c d x y = x
Prints-if false c d x y = y

spec_text-cases : (p : Spec) → Prints (spec_text p)
unfolding spec_text
spec_text-cases p = Prints-if (p.ch == 99) _ _ (char_text-Prints p) (
    Prints-if (p.ch == 115) _ _ (string_text-Prints p) (
      Prints-if (p.ch == 100) _ _ (number_text-Prints conv_d p) (
        Prints-if (p.ch == 117) _ _ (number_text-Prints conv_u p) (
          Prints-if (p.ch == 120) _ _ (number_text-Prints conv_x p)
            (Prints-if (p.ch == 88) _ _ (number_text-Prints conv_upper_x p) (inr (_, refl)))))))

print_spec-has_ended :
    (rest : List ℕ → List Arg → ℕ → Output) (n : ℕ) (o : Option Spec) (m : ℕ)
    → AtMost m o
    → ((fmt : List ℕ) (args : List Arg) (k : ℕ)
        → length fmt ≤ m
        → has_ended (rest fmt args k) ≡ true)
    → has_ended (print_spec rest n o) ≡ true
unfolding print_spec
print_spec-has_ended rest n none m a h = refl
print_spec-has_ended rest n (some p) m a h = elim (Bool-cases (p.ch == 0)) [
  | inl e ↦ rw e refl
  | inr e ↦ elim (spec_text-cases p) [
    | inl o ↦ rw (e, o) refl
    | inr (x, o) ↦ rw (e, o) (put-has_ended (layout p x) _ (h p.fmt x.left _ a))
  ]
]

print_loop-has_ended :
    (fuel : ℕ) (fmt : List ℕ) (args : List Arg) (n : ℕ)
    → length fmt < fuel
    → has_ended (print_loop fuel fmt args n) ≡ true
unfolding print_loop
print_loop-has_ended zero fmt args n l = elim l [ ]
print_loop-has_ended (suc fuel) [] args n l = refl
print_loop-has_ended (suc fuel) (c ∷ cs) args n l =
    let p = advance_fmt (fresh_spec cs args) in
    let p_le = advance_fmt-le (fresh_spec cs args) in
    elim (Bool-cases (c == 37)) [
      | inr e ↦ rw e (put-has_ended (c ∷ []) _ (print_loop-has_ended fuel cs args _ (omega arith)))
      | inl e ↦ elim (Bool-cases (p.ch == 37)) [
        | inl e' ↦
            rw (e, e')
              (put-has_ended (37 ∷ []) _
                (print_loop-has_ended fuel p.fmt args _ (omega (arith, p_le))))
        | inr e' ↦
            rw (e, e')
              (print_spec-has_ended (print_loop fuel) n (read_spec p) (length p.fmt)
                (read_spec-AtMost p)
                (λ f a k h. print_loop-has_ended fuel f a k (omega (arith, p_le))))
      ]
    ]

-- For every format and all arguments the formatted output ends, with as many rounds as the format
-- has characters and one more: it has a complete output, or an argument is missing or of another
-- type than the format says. No digits overrun the buffer.
pub xprintf_lem : (fmt : List ℕ) (args : List Arg) → has_ended (xprintf fmt args) ≡ true
unfolding xprintf
xprintf_lem fmt args = print_loop-has_ended (length fmt + 1) fmt args 0 (omega arith)

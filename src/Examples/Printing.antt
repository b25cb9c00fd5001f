-- ===== src/Examples/Printing.antt =====
-- Formatted output of numbers and texts.
use davros.Printf.{
  conv_d, conv_u, long_of_int, convert, signed_number, print_digits, prt10, put_decimal,
}
use davros.Printf.Decimal.{IsDecimal, printed_d, convert_lem}
use davros.Printf.Format.{
  Arg, int_arg, text_arg, printed, advance_fmt, read_ljust, read_fill, read_digits, take_int,
  take_long, take_text, read_fmin, read_precision, read_fmax, read_longarg, read_spec, take_number,
  text_of_number, number_text, char_text, string_text, spec_text, text_len, leading, layout,
  print_spec, print_loop, xprintf,
}
use davros.Printf.Format.Ends.{has_ended, xprintf_lem}
use davros.Base.{ℕ, ◌^◌, ◌≡◌, refl, true, false, some, List, [], ◌∷◌, arith, leb}

-- `%04d|%-3s|`
abbrev padded : List ℕ
padded = 37 ∷ (48 ∷ (52 ∷ (100 ∷ (124 ∷ (37 ∷ (45 ∷ (51 ∷ (115 ∷ (124 ∷ [])))))))))

abbrev minus_five : List Arg
minus_five = int_arg 4294967291 ∷ (text_arg (97 ∷ []) ∷ [])

-- `-005|a  |`
padded_output :
    xprintf padded minus_five
    ≡ printed (45 ∷ (48 ∷ (48 ∷ (53 ∷ (124 ∷ (97 ∷ (32 ∷ (32 ∷ (124 ∷ []))))))))) 9
unfolding advance_fmt read_ljust read_fill read_digits take_int take_long take_text read_fmin
    read_precision read_fmax read_longarg read_spec take_number text_of_number number_text char_text
    string_text spec_text text_len leading layout print_spec print_loop xprintf convert
    signed_number print_digits prt10 put_decimal
padded_output = refl

convert_lem_example :
    (ds : List ℕ) × (us : List ℕ) × (convert conv_d false 4294967291
      ≡ (leb (2 ^ 31) 4294967291, some ds))
    × IsDecimal (printed_d 4294967291) ds
    × (convert conv_u false 4294967291 ≡ (false, some us))
    × IsDecimal (long_of_int 4294967291) us
convert_lem_example = convert_lem 4294967291 (omega arith)

xprintf_lem_example : has_ended (xprintf padded minus_five) ≡ true
xprintf_lem_example = xprintf_lem padded minus_five

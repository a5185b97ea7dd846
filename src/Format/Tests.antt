-- ===== src/Format/Tests.antt =====
-- Runs of the formatter, and the theorem about its length at a concrete input.
use cutl.Base.{
  ℕ, ◌+◌, ◌-◌, ◌^◌, ◌≡◌, inr, refl, arith, true, Option, none, some, List, [], ◌∷◌, max, pos,
  negsuc,
}
use cutl.Errors.{Result, success, insufficient_buffer}
use cutl.Streams.{Buffer, put, get}
use cutl.Strings.{String8, advance, shrink}
use cutl.Format.{
  SeparatorSpec, PaddingSpec, padding_both_l, IntegerSpec, extract_next_digit, digit_loop,
  fill_digits, compute_digit_requirements, sign_of, abs_of, separators,
  compute_integer_requirements, value_or, integer_spec_fill_defaults, format8_integer_length,
}
use cutl.Format.Digits.{HasDigits, digit_spec_decimal-IsPlain}
use cutl.Format.Length.{IsPlainSpec, Groups, format8_integer_length-digits}
use cutl.Format.Write.{
  write_output_left, write_output_left_n, write_output_right, write_output_right_n, pad_output,
  write_sign_ltr, write_digits, write_zeros, write_integer_with_separators_rtl, number_sign,
  format8_integer,
}

abbrev spaces : ℕ → PaddingSpec
spaces n = record { padding = 0x20 ∷ []; padding_max = n; direction = padding_both_l }

-- Separators behind every third digit.
abbrev thousands : SeparatorSpec
thousands = record {
  minor_separator = 0x2c ∷ [];
  major_separator = 0x2e ∷ [];
  separator_distance = 3;
}

abbrev with_zeros : ℕ → IntegerSpec
with_zeros n = record {
  digit_spec = none;
  sign_spec = none;
  separator_spec = some thousands;
  padding_spec = some (spaces 9);
  minimum_digits = n;
  always_sign = true;
}

abbrev clean : Buffer
clean i = 0

abbrev whole : ℕ → String8
whole n = record { length = n; data_ptr = 1 }

text_of : ℕ → Option (Result × Buffer) → Option (Result × List ℕ)
text_of n (some (res, mem)) = some (res, get mem 1 n)
text_of n none = none

length_run : format8_integer_length (pos 1234) (with_zeros 0) ≡ some 9
unfolding format8_integer_length compute_integer_requirements compute_digit_requirements digit_loop
    fill_digits extract_next_digit sign_of abs_of separators value_or integer_spec_fill_defaults
length_run = refl

format_run :
    text_of 9 (format8_integer (pos 1234) clean (whole 9) (with_zeros 0))
    ≡ some (success, 0x20 ∷ 0x20 ∷ 0x2b ∷ 0x31 ∷ 0x2c ∷ 0x32 ∷ 0x33 ∷ 0x34 ∷ 0x20 ∷ [])
unfolding text_of get put advance shrink format8_integer number_sign
    write_integer_with_separators_rtl write_zeros write_digits write_sign_ltr pad_output
    write_output_right_n write_output_right write_output_left_n write_output_left
    compute_integer_requirements compute_digit_requirements digit_loop fill_digits
    extract_next_digit sign_of abs_of separators value_or integer_spec_fill_defaults
format_run = refl

format_zeros :
    text_of 9 (format8_integer (negsuc 11) clean (whole 9) (with_zeros 6))
    ≡ some (success, 0x20 ∷ 0x2d ∷ 0x30 ∷ 0x30 ∷ 0x30 ∷ 0x2c ∷ 0x30 ∷ 0x31 ∷ 0x32 ∷ [])
unfolding text_of get put advance shrink format8_integer number_sign
    write_integer_with_separators_rtl write_zeros write_digits write_sign_ltr pad_output
    write_output_right_n write_output_right write_output_left_n write_output_left
    compute_integer_requirements compute_digit_requirements digit_loop fill_digits
    extract_next_digit sign_of abs_of separators value_or integer_spec_fill_defaults
format_zeros = refl

format_short :
    text_of 8 (format8_integer (pos 1234) clean (whole 8) (with_zeros 0))
    ≡ some (insufficient_buffer, 0 ∷ 0 ∷ 0 ∷ 0 ∷ 0 ∷ 0 ∷ 0 ∷ 0 ∷ [])
unfolding text_of get put advance shrink format8_integer number_sign
    write_integer_with_separators_rtl write_zeros write_digits write_sign_ltr pad_output
    write_output_right_n write_output_right write_output_left_n write_output_left
    compute_integer_requirements compute_digit_requirements digit_loop fill_digits
    extract_next_digit sign_of abs_of separators value_or integer_spec_fill_defaults
format_short = refl

-- A separator between the digits of the value and the leading zeros is counted and not written.
format_misses_separator :
    text_of 9 (format8_integer (pos 123) clean (whole 9) (with_zeros 6)) ≡ none
unfolding text_of get put advance shrink format8_integer number_sign
    write_integer_with_separators_rtl write_zeros write_digits write_sign_ltr pad_output
    write_output_right_n write_output_right write_output_left_n write_output_left
    compute_integer_requirements compute_digit_requirements digit_loop fill_digits
    extract_next_digit sign_of abs_of separators value_or integer_spec_fill_defaults
format_misses_separator = refl

with_zeros-IsPlainSpec : IsPlainSpec (integer_spec_fill_defaults (with_zeros 0))
unfolding integer_spec_fill_defaults value_or
with_zeros-IsPlainSpec = record {
  plain = digit_spec_decimal-IsPlain;
  plus = refl;
  minus = refl;
  separator = inr refl;
  padding = inr refl;
  few_digits = omega arith;
  short = omega arith;
}

abs_of_least : abs_of (negsuc (2 ^ 63 - 1)) ≡ none
unfolding abs_of
abs_of_least = refl

format8_integer_length-digits_example :
    (k : ℕ) × (s : ℕ) × HasDigits 10 1234 k
    × Groups 3 (max 0 k) s
    × (format8_integer_length (pos 1234) (with_zeros 0) ≡ some (max 9 (1 + max 0 k + s)))
unfolding integer_spec_fill_defaults value_or
format8_integer_length-digits_example =
    format8_integer_length-digits (with_zeros 0) (pos 1234) with_zeros-IsPlainSpec (omega arith)

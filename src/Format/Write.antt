-- ===== src/Format/Write.antt =====
-- Writing a formatted integer: padding, the sign from the left, and the digits from the right. The
-- memory is a buffer, and the output a view into it that shrinks as it is written.
use cutl.Base.{
  ℕ, zero, suc, ◌+◌, ◌-◌, ◌*◌, ◌/◌, not, ◌&&◌, ◌||◌, Option, none, some, List, [], leb, ◌==◌,
  if◌then◌else◌, get_or, length, u32, ℤ, pos, negsuc,
}
use cutl.Errors.{Result, success, insufficient_buffer}
use cutl.Streams.{Buffer, put}
use cutl.Strings.{String8, advance, shrink}
use cutl.Format.{
  DigitSpec, SignSpec, SeparatorSpec, PaddingDirection, padding_left, padding_right, padding_both_l,
  padding_both_r, FilledSpec, IntegerSpec, extract_next_digit, abs_of, compute_integer_requirements,
  integer_spec_fill_defaults,
}

-- `number_sign_t`
pub data NumberSign : Type 0 where
  sign_none : NumberSign
  sign_positive : NumberSign
  sign_negative : NumberSign

unfoldable pub write_output_left : Buffer × String8 → List ℕ → Buffer × String8
write_output_left (mem, output) str = (put mem output.data_ptr str, advance output (length str))

unfoldable pub write_output_left_n : Buffer × String8 → ℕ → List ℕ → Buffer × String8
write_output_left_n out zero str = out
write_output_left_n out (suc repeats) str =
    write_output_left_n (write_output_left out str) repeats str

unfoldable pub write_output_right : Buffer × String8 → List ℕ → Buffer × String8
write_output_right (mem, output) str =
    (put mem (output.data_ptr + output.length - length str) str, shrink output (length str))

unfoldable pub write_output_right_n : Buffer × String8 → ℕ → List ℕ → Buffer × String8
write_output_right_n out zero str = out
write_output_right_n out (suc repeats) str =
    write_output_right_n (write_output_right out str) repeats str

unfoldable pub pad_output : Buffer × String8 → PaddingDirection → List ℕ → ℕ → Buffer × String8
pad_output out padding_left padding_unit pads = write_output_left_n out pads padding_unit
pad_output out padding_right padding_unit pads = write_output_right_n out pads padding_unit
pad_output out padding_both_l padding_unit pads =
    let right = pads / 2 in
    write_output_right_n (write_output_left_n out (pads - right) padding_unit) right padding_unit
pad_output out padding_both_r padding_unit pads =
    let left = pads / 2 in
    write_output_left_n (write_output_right_n out (pads - left) padding_unit) left padding_unit

unfoldable pub write_sign_ltr : Buffer × String8 → NumberSign → SignSpec → Buffer × String8
write_sign_ltr out sign_positive spec = write_output_left out spec.plus
write_sign_ltr out sign_negative spec = write_output_left out spec.minus
write_sign_ltr out sign_none spec = out

-- The loop on `abs_value`, with the rounds left first: what is written, the counter of the digits since
-- the last separator, and the digits that were written.
unfoldable pub write_digits :
    ℕ
    → Buffer × String8
    → ℕ
    → DigitSpec
    → SeparatorSpec
    → ℕ
    → ℕ
    → Option ((Buffer × String8) × ℕ × ℕ)
write_digits zero out abs_value spec sep counter written =
    if abs_value == 0 then some (out, counter, written) else none
write_digits (suc rounds) out abs_value spec sep counter written =
    let (next_digit, next) = extract_next_digit abs_value spec.base in
    let digit_out = write_output_right out (get_or spec.digits next_digit []) in
    let due = not (next == 0) && u32 (counter + 1) == sep.separator_distance in
    let separated = if due then write_output_right digit_out sep.minor_separator else digit_out in
    let rest =
      write_digits rounds separated next spec sep (if due then 0 else u32 (counter + 1))
        (u32 (written + 1)) in
    if abs_value == 0 then some (out, counter, written) else rest

-- The loop that writes the leading zeros, with the zeros left first.
unfoldable pub write_zeros : ℕ → Buffer × String8 → DigitSpec → SeparatorSpec → ℕ → Buffer × String8
write_zeros zero out spec sep counter = out
write_zeros (suc left) out spec sep counter =
    let digit_out = write_output_right out (get_or spec.digits 0 []) in
    let due = not (left == 0) && u32 (counter + 1) == sep.separator_distance in
    let separated = if due then write_output_right digit_out sep.minor_separator else digit_out in
    write_zeros left separated spec sep (if due then 0 else u32 (counter + 1))

-- A value has at most one digit for each of its 64 bits.
unfoldable pub write_integer_with_separators_rtl :
    Buffer × String8 → ℕ → DigitSpec → SeparatorSpec → ℕ → Option (Buffer × String8)
write_integer_with_separators_rtl out abs_value spec sep minimum_digits =
    elim (write_digits 64 out abs_value spec sep 0 0) [
      | some (digits_out, counter, written) ↦
          let leading_zeros = minimum_digits - written in
          some (
            if sep.separator_distance == 0
              || leb (u32 (counter + leading_zeros)) sep.separator_distance
            then write_output_right_n digits_out leading_zeros (get_or spec.digits 0 [])
            else write_zeros leading_zeros digits_out spec sep counter)
      | none ↦ none
    ]

unfoldable pub number_sign : FilledSpec → ℤ → NumberSign
number_sign spec (negsuc n) = sign_negative
number_sign spec (pos n) = if spec.always_sign then sign_positive else sign_none

-- `none` is the failed assertion that the whole output was written, or the overflow of `abs_of`.
unfoldable pub format8_integer : ℤ → Buffer → String8 → IntegerSpec → Option (Result × Buffer)
format8_integer value mem output given =
    let spec = integer_spec_fill_defaults given in
    elim (compute_integer_requirements spec value) [
      | some len_info ↦
          let padding_units = spec.padding_spec.padding_max - len_info.units in
          let bytes = u32 (len_info.bytes + length spec.padding_spec.padding * padding_units) in
          let padded =
            pad_output (mem, output) spec.padding_spec.direction spec.padding_spec.padding
              padding_units in
          let signed = write_sign_ltr padded (number_sign spec value) spec.sign_spec in
          let written : Option (Buffer × String8) = elim (abs_of value) [
            | some abs_value ↦
                write_integer_with_separators_rtl signed abs_value spec.digit_spec
                  spec.separator_spec spec.minimum_digits
            | none ↦ none
          ] in
          if not (bytes == output.length) then some (insufficient_buffer, mem) else elim written [
            | some (final, left) ↦ if left.length == 0 then some (success, final) else none
            | none ↦ none
          ]
      | none ↦ none
    ]

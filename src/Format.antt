-- ===== src/Format.antt =====
-- src/string/format.c: the length of a formatted integer. A string of a specification is the list of
-- its bytes, a pointer to a specification that may be null is an `Option`, and `none` is a loop that
-- has not ended or a signed overflow.
pub mod Digits
pub mod Length
pub mod Write
pub mod Output
pub mod Text
pub mod Integer
pub mod Steps
pub mod Exact
mod Tests
use cutl.Base.{
  ℕ, zero, suc, ◌+◌, ◌-◌, ◌*◌, ◌/◌, ◌%◌, ◌^◌, Bool, true, false, ◌||◌, Option, none, some, List, [],
  ◌∷◌, ltb, ◌==◌, if◌then◌else◌, get_or, length, u32, u64, ℤ, pos, negsuc,
}

pub record DigitSpec : Type 0 where
  pub base : ℕ
  pub digits : List (List ℕ)

pub record SignSpec : Type 0 where
  pub plus : List ℕ
  pub minus : List ℕ

pub record SeparatorSpec : Type 0 where
  pub minor_separator : List ℕ
  pub major_separator : List ℕ
  pub separator_distance : ℕ

pub data PaddingDirection : Type 0 where
  padding_left : PaddingDirection
  padding_right : PaddingDirection
  padding_both_l : PaddingDirection
  padding_both_r : PaddingDirection

pub record PaddingSpec : Type 0 where
  pub padding : List ℕ
  pub padding_max : ℕ
  pub direction : PaddingDirection

pub record IntegerSpec : Type 0 where
  pub digit_spec : Option DigitSpec
  pub sign_spec : Option SignSpec
  pub separator_spec : Option SeparatorSpec
  pub padding_spec : Option PaddingSpec
  pub minimum_digits : ℕ
  pub always_sign : Bool

-- The specifications with the defaults in the place of null pointers.
pub record FilledSpec : Type 0 where
  pub digit_spec : DigitSpec
  pub sign_spec : SignSpec
  pub separator_spec : SeparatorSpec
  pub padding_spec : PaddingSpec
  pub minimum_digits : ℕ
  pub always_sign : Bool

pub record CharacterRequirements : Type 0 where
  pub bytes : ℕ
  pub units : ℕ

abbrev pub digit_spec_decimal : DigitSpec
digit_spec_decimal = record {
  base = 10;
  digits =
      (0x30 ∷ [])
      ∷ (0x31 ∷ [])
      ∷ (0x32 ∷ [])
      ∷ (0x33 ∷ [])
      ∷ (0x34 ∷ [])
      ∷ (0x35 ∷ [])
      ∷ (0x36 ∷ [])
      ∷ (0x37 ∷ [])
      ∷ (0x38 ∷ [])
      ∷ (0x39 ∷ [])
      ∷ [];
}

abbrev pub separator_spec_none : SeparatorSpec
separator_spec_none = record {
  minor_separator = [];
  major_separator = 0x2e ∷ [];
  separator_distance = 0;
}

-- No distance is given for it.
abbrev pub separator_spec_iso : SeparatorSpec
separator_spec_iso = record {
  minor_separator = 0x20 ∷ [];
  major_separator = 0x2e ∷ [];
  separator_distance = 0;
}

abbrev pub sign_spec_basic : SignSpec
sign_spec_basic = record { plus = 0x2b ∷ []; minus = 0x2d ∷ [] }

abbrev pub padding_spec_none : PaddingSpec
padding_spec_none = record { padding = []; padding_max = 0; direction = padding_left }

-- The digit, and the value that is left in `*v`.
pub extract_next_digit : ℕ → ℕ → ℕ × ℕ
extract_next_digit v base = if v == 0 then (0, v) else (v % base, v / base)

-- The loop on `value`, with the rounds left first.
pub digit_loop : ℕ → ℕ → DigitSpec → CharacterRequirements → Option CharacterRequirements
digit_loop zero value spec reqs = if value == 0 then some reqs else none
digit_loop (suc rounds) value spec reqs =
    let (digit, next) = extract_next_digit value spec.base in
    let counted : CharacterRequirements = record {
      bytes = u32 (reqs.bytes + length (get_or spec.digits digit []));
      units = u32 (reqs.units + 1);
    } in
    let rest = digit_loop rounds next spec counted in if value == 0 then some reqs else rest

-- The zeros that are added up to `min_digits`.
pub fill_digits : CharacterRequirements → DigitSpec → ℕ → CharacterRequirements
fill_digits reqs spec min_digits =
    let missing = min_digits - reqs.units in
    if ltb reqs.units min_digits
    then record {
      bytes = u32 (reqs.bytes + length (get_or spec.digits 0 []) * missing);
      units = u32 (reqs.units + missing);
    }
    else reqs

-- A value has at most one digit for each of its 64 bits.
pub compute_digit_requirements : ℕ → DigitSpec → ℕ → Option CharacterRequirements
compute_digit_requirements value spec min_digits =
    elim (digit_loop 64 value spec (record { bytes = 0; units = 0 })) [
      | some reqs ↦ some (fill_digits reqs spec min_digits)
      | none ↦ none
    ]

pub sign_of : FilledSpec → ℤ → List ℕ × ℕ
sign_of spec (negsuc n) = (spec.sign_spec.minus, 1)
sign_of spec (pos n) = if spec.always_sign then (spec.sign_spec.plus, 1) else ([], 0)

-- `(uintmax_t)(value < 0 ? -value : value)`, where negating the least `intmax_t` overflows, `none`.
pub abs_of : ℤ → Option ℕ
abs_of (pos n) = some n
abs_of (negsuc n) = if ltb (n + 1) (2 ^ 63) then some (n + 1) else none

pub separators : SeparatorSpec → ℕ → ℕ
separators spec units =
    if spec.separator_distance == 0 || units == 0
    then 0
    else ((units - 1) / spec.separator_distance)

pub compute_integer_requirements : FilledSpec → ℤ → Option CharacterRequirements
compute_integer_requirements spec value =
    let (sign, sign_units) = sign_of spec value in
    elim (abs_of value) [
      | some abs_value ↦
          elim (compute_digit_requirements abs_value spec.digit_spec spec.minimum_digits) [
            | some req ↦
                let separator_cnt = separators spec.separator_spec req.units in
                some (record {
                  bytes = u32 (
                      length sign
                      + req.bytes
                      + separator_cnt * length spec.separator_spec.minor_separator);
                  units = u32 (sign_units + req.units + separator_cnt);
                })
            | none ↦ none
          ]
      | none ↦ none
    ]

-- `if (!spec->...) spec->... = &...`
unfoldable pub value_or : {A : Type 0} → Option A → A → A
value_or none default = default
value_or (some a) default = a

unfoldable pub integer_spec_fill_defaults : IntegerSpec → FilledSpec
integer_spec_fill_defaults spec = record {
  digit_spec = value_or spec.digit_spec digit_spec_decimal;
  sign_spec = value_or spec.sign_spec sign_spec_basic;
  separator_spec = value_or spec.separator_spec separator_spec_none;
  padding_spec = value_or spec.padding_spec padding_spec_none;
  minimum_digits = spec.minimum_digits;
  always_sign = spec.always_sign;
}

pub format8_integer_length : ℤ → IntegerSpec → Option ℕ
format8_integer_length value given =
    let spec = integer_spec_fill_defaults given in
    elim (compute_integer_requirements spec value) [
      | some reqs ↦
          let padding_units = spec.padding_spec.padding_max - reqs.units in
          some (
            if ltb reqs.units spec.padding_spec.padding_max
            then u64 (reqs.bytes + length spec.padding_spec.padding * padding_units)
            else reqs.bytes)
      | none ↦ none
    ]

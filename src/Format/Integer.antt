-- ===== src/Format/Integer.antt =====
-- The text of an integer, as an independent description, and its length.
use cutl.Base.{
  ℕ, zero, suc, ◌+◌, ◌-◌, ◌/◌, ◌≡◌, ◌⊎◌, inl, inr, refl, ◌∙◌, arith, List, [], ◌∷◌, ◌++◌, length,
  length-append, get_or, if◌then◌else◌, Bool-cases, max, ℤ, pos, negsuc,
}
use cutl.Errors.{}
use cutl.Streams.{}
use cutl.Streams.Buffers.{}
use cutl.Strings.{}
use cutl.Format.{
  DigitSpec, PaddingDirection, padding_left, padding_right, padding_both_l, padding_both_r,
  FilledSpec,
}
use cutl.Format.Digits.{IsPlain}
use cutl.Format.Length.{IsPlainSpec, magnitude, sign_units}
use cutl.Format.Write.{}
use cutl.Format.Output.{repeated}
use cutl.Format.Text.{numeral, digit_text, AllBelow}

-- How much of the padding is in front and behind.
abbrev pub pads_left : PaddingDirection → ℕ → ℕ
pads_left padding_left p = p
pads_left padding_right p = 0
pads_left padding_both_l p = p - p / 2
pads_left padding_both_r p = p / 2

abbrev pub pads_right : PaddingDirection → ℕ → ℕ
pads_right padding_left p = 0
pads_right padding_right p = p
pads_right padding_both_l p = p / 2
pads_right padding_both_r p = p - p / 2

abbrev pub sign_text : FilledSpec → ℤ → List ℕ
sign_text spec (negsuc n) = spec.sign_spec.minus
sign_text spec (pos n) = if spec.always_sign then spec.sign_spec.plus else []

-- The text of a value: padding, the sign, zeros up to the least number of digits, the digits in the
-- base, and padding.
abbrev pub body_text : FilledSpec → List ℕ → List ℕ
body_text spec ds =
    repeated (spec.minimum_digits - length ds) (get_or spec.digit_spec.digits 0 [])
    ++ digit_text spec.digit_spec ds

abbrev pub padding_of : FilledSpec → ℤ → List ℕ → ℕ
padding_of spec value ds =
    spec.padding_spec.padding_max
    - (sign_units spec.always_sign value + max spec.minimum_digits (length ds))

abbrev pub integer_text : FilledSpec → ℤ → List ℕ
integer_text spec value =
    let ds = numeral 64 spec.digit_spec.base (magnitude value) in
    let p = padding_of spec value ds in
    let direction = spec.padding_spec.direction in
    (repeated (pads_left direction p) spec.padding_spec.padding ++ sign_text spec value)
    ++ (body_text spec ds ++ repeated (pads_right direction p) spec.padding_spec.padding)

pub length-repeated :
    (k : ℕ) (str : List ℕ) → (k ≡ 0) ⊎ (length str ≡ 1) → length (repeated k str) ≡ k
length-repeated zero str h = refl
length-repeated (suc k) str h =
    let one : length str ≡ 1 = elim h [ inl e ↦ absurd (omega arith) | inr e ↦ e ] in
    let rest = length-repeated k str (inr one) in length-append str (repeated k str) ∙ omega arith

pub length-digit_text :
    (spec : DigitSpec)
    → IsPlain spec
    → (ds : List ℕ) → AllBelow spec.base ds
    → length (digit_text spec ds) ≡ length ds
length-digit_text spec plain [] below = refl
length-digit_text spec plain (d ∷ ds) (low, below) =
    let one = plain.one_byte d low in
    let rest = length-digit_text spec plain ds below in
    length-append (digit_text spec ds) (get_or spec.digits d []) ∙ omega arith

pub pads_sum :
    (direction : PaddingDirection) (p : ℕ) → pads_left direction p + pads_right direction p ≡ p
pads_sum padding_left p = omega arith
pads_sum padding_right p = omega arith
pads_sum padding_both_l p = omega arith
pads_sum padding_both_r p = omega arith

pub length-sign_text :
    (spec : FilledSpec) (value : ℤ)
    → IsPlainSpec spec
    → length (sign_text spec value) ≡ sign_units spec.always_sign value
length-sign_text spec (negsuc v) plain = plain.minus
length-sign_text spec (pos v) plain = elim (Bool-cases spec.always_sign) [
  | inl always ↦ rw always plain.plus
  | inr never ↦ rw never refl
]

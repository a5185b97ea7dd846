-- ===== src/Format/Length.antt =====
-- The length of a formatted integer in a specification whose strings are one byte each.
use native.Mathlib.Nat.{div-le_self, div-add-mod, mod-lt}
use cutl.Base.{
  ℕ, ◌+◌, ◌-◌, ◌*◌, ◌/◌, ◌^◌, Bool, true, false, ◌≤◌, ◌<◌, ◌≡◌, ◌⊎◌, inl, inr, refl, ap, arith,
  some, length, u32, lt→ltb, le→ltb, eq→==, ne→==, eq-or-ne, lt-or-le, Bool-cases, max, ℤ, pos,
  negsuc,
}
use cutl.Format.{
  DigitSpec, SeparatorSpec, FilledSpec, IntegerSpec, CharacterRequirements, fill_digits,
  compute_digit_requirements, sign_of, abs_of, separators, compute_integer_requirements,
  integer_spec_fill_defaults, format8_integer_length,
}
use cutl.Format.Digits.{IsPlain, HasDigits, digit_loop-Counts}

-- Strings of one byte each, where they are used at all, and sizes far below 2^32.
pub record IsPlainSpec (spec : FilledSpec) : Type 0 where
  pub plain : IsPlain spec.digit_spec
  pub plus : length spec.sign_spec.plus ≡ 1
  pub minus : length spec.sign_spec.minus ≡ 1
  pub separator :
      (spec.separator_spec.separator_distance ≡ 0)
      ⊎ (length spec.separator_spec.minor_separator ≡ 1)
  pub padding : (spec.padding_spec.padding_max ≡ 0) ⊎ (length spec.padding_spec.padding ≡ 1)
  pub few_digits : spec.minimum_digits < 2 ^ 30
  pub short : spec.padding_spec.padding_max < 2 ^ 30

fill_lem :
    (reqs : CharacterRequirements) (spec : DigitSpec) (min_digits k : ℕ)
    → IsPlain spec
    → min_digits < 2 ^ 30
    → k ≤ 64
    → reqs.bytes ≡ k
    → reqs.units ≡ k
    → ((fill_digits reqs spec min_digits).bytes ≡ max min_digits k)
      × ((fill_digits reqs spec min_digits).units ≡ max min_digits k)
unfolding fill_digits
fill_lem reqs spec min_digits k plain few small bytes units =
    elim (lt-or-le reqs.units min_digits) [
      | inl lt ↦
          let base_bound = plain.base_bound in
          let one = plain.one_byte 0 (omega arith) in
          rw (lt→ltb reqs.units min_digits lt, one) (omega arith, omega arith)
      | inr le ↦ rw (le→ltb reqs.units min_digits le) (omega arith, omega arith)
    ]

-- There are fewer separators than digits, and as many bytes of them.
separators_bytes :
    (spec : SeparatorSpec) (units : ℕ)
    → (spec.separator_distance ≡ 0) ⊎ (length spec.minor_separator ≡ 1)
    → (separators spec units * length spec.minor_separator ≡ separators spec units)
      × (separators spec units ≤ units)
unfolding separators
separators_bytes spec units h = elim (eq-or-ne spec.separator_distance 0) [
  | inl off ↦ rw (eq→== spec.separator_distance 0 off) (omega arith, omega arith)
  | inr on ↦
      let one : length spec.minor_separator ≡ 1 = elim h [
        | inl off ↦ absurd (on off)
        | inr e ↦ e
      ] in
      elim (eq-or-ne units 0) [
        | inl e ↦
            rw (ne→== spec.separator_distance 0 on, eq→== units 0 e) (omega arith, omega arith)
        | inr some_units ↦
            let fewer = div-le_self (units - 1) spec.separator_distance in
            rw (ne→== spec.separator_distance 0 on, ne→== units 0 some_units, one)
              (omega arith, omega arith)
      ]
]

sign_bytes :
    (spec : FilledSpec) (value : ℤ)
    → IsPlainSpec spec
    → (length (sign_of spec value).0 ≡ (sign_of spec value).1) × ((sign_of spec value).1 ≤ 1)
unfolding sign_of
sign_bytes spec (negsuc n) plain = (plain.minus, omega arith)
sign_bytes spec (pos n) plain = elim (Bool-cases spec.always_sign) [
  | inl always ↦ rw always (plain.plus, omega arith)
  | inr never ↦ rw never (refl, omega arith)
]

-- The units of a formatted integer of `k` digits, before padding.
abbrev pub units_of : FilledSpec → ℤ → ℕ → ℕ
units_of spec value k =
    let d = max spec.minimum_digits k in
    (sign_of spec value).1 + d + separators spec.separator_spec d

-- The size of the value without its sign.
abbrev pub magnitude : ℤ → ℕ
magnitude (pos n) = n
magnitude (negsuc n) = n + 1

pub abs_of-magnitude :
    (value : ℤ) → magnitude value < 2 ^ 63 → abs_of value ≡ some (magnitude value)
unfolding abs_of
abs_of-magnitude (pos n) small = refl
abs_of-magnitude (negsuc n) small = rw (lt→ltb (n + 1) (2 ^ 63) small) refl

-- A negative value has a sign, and one that is not negative only if it always has.
abbrev pub sign_units : Bool → ℤ → ℕ
sign_units always (negsuc n) = 1
sign_units true (pos n) = 1
sign_units false (pos n) = 0

pub sign_of-sign_units :
    (spec : FilledSpec) (value : ℤ) → (sign_of spec value).1 ≡ sign_units spec.always_sign value
unfolding sign_of
sign_of-sign_units spec (negsuc n) = refl
sign_of-sign_units spec (pos n) = elim (Bool-cases spec.always_sign) [
  | inl always ↦ rw always refl
  | inr never ↦ rw never refl
]

-- `s` separators cut `d` digits into groups of the distance, the first of which may be shorter.
abbrev pub Groups : ℕ → ℕ → ℕ → Type 0
Groups distance d s =
    (((distance ≡ 0) ⊎ (d ≡ 0)) × (s ≡ 0))
    ⊎ ((0 < distance) × (s * distance < d) × (d ≤ (s + 1) * distance))

pub separators-Groups :
    (spec : SeparatorSpec) (d : ℕ) → Groups spec.separator_distance d (separators spec d)
unfolding separators
separators-Groups spec d = elim (eq-or-ne spec.separator_distance 0) [
  | inl off ↦ inl (inl off, rw (eq→== spec.separator_distance 0 off) refl)
  | inr on ↦ elim (eq-or-ne d 0) [
    | inl e ↦ inl (inr e, rw (ne→== spec.separator_distance 0 on, eq→== d 0 e) refl)
    | inr some_digits ↦
        let distance : ℕ = spec.separator_distance in
        let s : ℕ = (d - 1) / distance in
        let split = div-add-mod (d - 1) distance in
        let low = mod-lt (d - 1) {m = distance} (omega arith) in
        let order : s * distance ≡ distance * s = grind arith in
        let up : (s + 1) * distance ≡ s * distance + distance = grind arith in
        rw (ne→== spec.separator_distance 0 on, ne→== d 0 some_digits)
          (inr (omega arith, omega arith, omega arith))
  ]
]

pub requirements_lem :
    (spec : FilledSpec) (value : ℤ)
    → IsPlainSpec spec
    → magnitude value < 2 ^ 63
    → (k : ℕ) × (reqs : CharacterRequirements) × (compute_integer_requirements spec value
        ≡ some reqs)
      × (reqs.bytes ≡ units_of spec value k)
      × (reqs.units ≡ units_of spec value k)
      × HasDigits spec.digit_spec.base (magnitude value) k
      × (k ≤ 64)
unfolding compute_integer_requirements compute_digit_requirements
requirements_lem spec value plain small =
    let start : CharacterRequirements = record { bytes = 0; units = 0 } in
    let (k, out, e, bytes, units, digits, few) =
      digit_loop-Counts spec.digit_spec plain.plain 64 (magnitude value) start (omega arith)
        (omega arith) (omega arith) in
    let filled = fill_digits out spec.digit_spec spec.minimum_digits in
    let (filled_bytes, filled_units) =
      fill_lem out spec.digit_spec spec.minimum_digits k plain.plain plain.few_digits few
        (omega arith) (omega arith) in
    let (sign_length, sign_few) = sign_bytes spec value plain in
    let (sep_bytes, sep_few) = separators_bytes spec.separator_spec filled.units plain.separator in
    let few_digits = plain.few_digits in
    let same : separators spec.separator_spec filled.units
        ≡ separators spec.separator_spec (max spec.minimum_digits k) =
      ap (separators spec.separator_spec) filled_units in
    (
      k,
      record {
        bytes = u32 (
            length (sign_of spec value).0
            + filled.bytes
            + separators spec.separator_spec filled.units
              * length spec.separator_spec.minor_separator);
        units =
            u32
              ((sign_of spec value).1 + filled.units + separators spec.separator_spec filled.units);
      },
      rw (compute_integer_requirements, abs_of-magnitude value small, compute_digit_requirements, e)
          refl,
      omega arith,
      omega arith,
      digits,
      few,
    )

-- For a specification, its defaults filled in, whose base is two or more and whose digits, signs,
-- separators and padding are one byte each where they are used, with sizes below 2^30, and a value
-- between -2^63 and 2^63, both excluded: the length is found, and it is the larger of the size to pad
-- to and the sum of the sign, the digits and the separators. The digits are as many as the value has
-- in the base, or the minimum if that is more; the sign is one for a negative value or where it is
-- always written; and the separators are as many as cut the digits into groups of the distance.
pub format8_integer_length-digits :
    (given : IntegerSpec) (value : ℤ)
    → IsPlainSpec (integer_spec_fill_defaults given)
    → magnitude value < 2 ^ 63
    → let spec = integer_spec_fill_defaults given in
      (k : ℕ) × (s : ℕ) × HasDigits spec.digit_spec.base (magnitude value) k
      × Groups spec.separator_spec.separator_distance (max spec.minimum_digits k) s
      × (format8_integer_length value given
          ≡ some (
              max spec.padding_spec.padding_max
                (sign_units spec.always_sign value + max spec.minimum_digits k + s)))
unfolding format8_integer_length
format8_integer_length-digits given value plain small =
    let spec = integer_spec_fill_defaults given in
    let (k, reqs, e, bytes, units, digits, few) = requirements_lem spec value plain small in
    let (sep_bytes, sep_few) =
      separators_bytes spec.separator_spec (max spec.minimum_digits k) plain.separator in
    let (sign_length, sign_few) = sign_bytes spec value plain in
    let few_digits = plain.few_digits in
    let short = plain.short in
    let d : ℕ = max spec.minimum_digits k in
    let signs = sign_of-sign_units spec value in
    let groups = separators-Groups spec.separator_spec d in
    let goal : ℕ = spec.padding_spec.padding_max in
    elim (lt-or-le reqs.units goal) [
      | inr le ↦ (
        k,
        separators spec.separator_spec d,
        digits,
        groups,
        rw (format8_integer_length, e, le→ltb reqs.units goal le)
            (ap (λ (n : ℕ). some n) (omega arith)),
      )
      | inl lt ↦
          let one : length spec.padding_spec.padding ≡ 1 = elim plain.padding [
            | inl nothing ↦ absurd (omega arith)
            | inr e1 ↦ e1
          ] in
          (
            k,
            separators spec.separator_spec d,
            digits,
            groups,
            rw (format8_integer_length, e, lt→ltb reqs.units goal lt, one)
                (ap (λ (n : ℕ). some n) (omega arith)),
          )
    ]

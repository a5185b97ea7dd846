-- ===== src/Format/Exact.antt =====
-- The formatter of integers as a whole, for a specification without separators.
use cutl.Base.{
  ℕ, ◌+◌, ◌-◌, ◌*◌, ◌^◌, ◌≤◌, ◌<◌, ◌≡◌, ◌≢◌, ◌⊎◌, inl, inr, refl, sym, ◌∙◌, ap, ap₂, arith, Bool,
  Option, none, some, List, [], ◌++◌, length, length-append, get_or, u32, if◌then◌else◌, not, ◌==◌,
  lt→ltb, le→ltb, eq→==, ne→==, eq-or-ne, lt-or-le, max, ℤ, pos, negsuc, true, false,
}
use cutl.Errors.{success, insufficient_buffer}
use cutl.Streams.{Buffer, get}
use cutl.Streams.Buffers.{get_append}
use cutl.Strings.{String8}
use cutl.Format.{
  FilledSpec, IntegerSpec, CharacterRequirements, integer_spec_fill_defaults,
  format8_integer_length, compute_integer_requirements,
}
use cutl.Format.Digits.{}
use cutl.Format.Length.{
  IsPlainSpec, magnitude, abs_of-magnitude, sign_units, sign_of-sign_units, separators-Groups,
  requirements_lem,
}
use cutl.Format.Write.{
  pad_output, write_sign_ltr, number_sign, write_integer_with_separators_rtl, format8_integer,
}
use cutl.Format.Output.{repeated, Written, WrittenOut}
use cutl.Format.Text.{numeral, IsNumeral, digit_text, HasDigits-unique}
use cutl.Format.Integer.{
  pads_left, pads_right, sign_text, body_text, padding_of, integer_text, length-repeated,
  length-digit_text, pads_sum, length-sign_text,
}
use cutl.Format.Steps.{numeral-IsNumeral, pad_output-Written, write_sign_ltr-Written, rtl-Written}

-- A specification without separators, its defaults filled in, whose strings are one byte each.
pub record IsUnseparated (spec : FilledSpec) : Type 0 where
  pub plain : IsPlainSpec spec
  pub off : spec.separator_spec.separator_distance ≡ 0

sign_units_bound : (always : Bool) (value : ℤ) → sign_units always value ≤ 1
sign_units_bound always (negsuc n) = omega arith
sign_units_bound true (pos n) = omega arith
sign_units_bound false (pos n) = omega arith

module _ (given : IntegerSpec) (value : ℤ) (u : IsUnseparated (integer_spec_fill_defaults given))
    (small : magnitude value < 2 ^ 63) where
  abbrev spec : FilledSpec
  spec = integer_spec_fill_defaults given

  abbrev ds : List ℕ
  ds = numeral 64 spec.digit_spec.base (magnitude value)

  abbrev pads : ℕ
  pads = padding_of spec value ds

  -- The sign and the digits.
  abbrev units : ℕ
  units = sign_units spec.always_sign value + max spec.minimum_digits (length ds)

  pub numeral_lem : IsNumeral spec.digit_spec.base (magnitude value) ds
  numeral_lem = let p = u.plain in numeral-IsNumeral spec.digit_spec (magnitude value) p.plain small

  pads_one : (pads ≡ 0) ⊎ (length spec.padding_spec.padding ≡ 1)
  pads_one = let p = u.plain in elim p.padding [ inl e ↦ inl (omega arith) | inr e ↦ inr e ]

  requirements :
      (reqs : CharacterRequirements) × (compute_integer_requirements spec value ≡ some reqs)
      × (reqs.bytes ≡ units)
      × (reqs.units ≡ units)
      × (length ds ≤ 64)
  requirements =
      let p = u.plain in
      let digits = p.plain in
      let base_bound = digits.base_bound in
      let (k, reqs, e, bytes, count, shape, few) = requirements_lem spec value p small in
      let mine = numeral_lem in
      let same : k ≡ length ds =
        HasDigits-unique spec.digit_spec.base (magnitude value) k (length ds) (omega arith) shape
          mine.shortest in
      let sign = sign_of-sign_units spec value in
      let off = u.off in
      elim (separators-Groups spec.separator_spec (max spec.minimum_digits k)) [
        | inl (_, nothing) ↦ (reqs, e, omega arith, omega arith, omega arith)
        | inr (on, _, _) ↦ absurd (omega arith)
      ]

  body_length : length (body_text spec ds) ≡ max spec.minimum_digits (length ds)
  body_length =
      let p = u.plain in
      let digits = p.plain in
      let base_bound = digits.base_bound in
      let mine = numeral_lem in
      let one = digits.one_byte 0 (omega arith) in
      let left : ℕ = spec.minimum_digits - length ds in
      let zero_str = get_or spec.digit_spec.digits 0 [] in
      let a = length-repeated left zero_str (inr one) in
      let b = length-digit_text spec.digit_spec digits ds mine.below in
      length-append (repeated left zero_str) (digit_text spec.digit_spec ds) ∙ omega arith

  part_length : (k : ℕ) → k ≤ pads → length (repeated k spec.padding_spec.padding) ≡ k
  part_length k low =
      length-repeated k spec.padding_spec.padding
        (elim pads_one [ inl e ↦ inl (omega arith) | inr e ↦ inr e ])

  pub length-integer_text :
      length (integer_text spec value) ≡ max spec.padding_spec.padding_max units
  length-integer_text =
      let p = u.plain in
      let direction = spec.padding_spec.direction in
      let sum = pads_sum direction pads in
      let l : ℕ = pads_left direction pads in
      let r : ℕ = pads_right direction pads in
      let pad = spec.padding_spec.padding in
      let a = part_length l (omega arith) in
      let b = part_length r (omega arith) in
      let s = length-sign_text spec value p in
      let t = body_length in
      let first = length-append (repeated l pad) (sign_text spec value) in
      let last = length-append (body_text spec ds) (repeated r pad) in
      length-append (repeated l pad ++ sign_text spec value) (body_text spec ds ++ repeated r pad)
      ∙ omega arith

  -- The length of the output for a value is that of its text.
  pub format8_integer_length-text :
      format8_integer_length value given ≡ some (length (integer_text spec value))
  unfolding format8_integer_length
  format8_integer_length-text =
      let (reqs, e, bytes, count, few) = requirements in
      let sign = sign_units_bound spec.always_sign value in
      let total = length-integer_text in
      let p = u.plain in
      let short = p.short in
      let few_digits = p.few_digits in
      let goal : ℕ = spec.padding_spec.padding_max in
      elim (lt-or-le reqs.units goal) [
        | inr le ↦
            rw (format8_integer_length, e, le→ltb reqs.units goal le)
              (ap (λ (n : ℕ). some n) (omega arith))
        | inl lt ↦
            let one : length spec.padding_spec.padding ≡ 1 = elim pads_one [
              | inl nothing ↦ absurd (omega arith)
              | inr e1 ↦ e1
            ] in
            rw (format8_integer_length, e, lt→ltb reqs.units goal lt, one)
              (ap (λ (n : ℕ). some n) (omega arith))
      ]

  module _ (mem : Buffer) (output : String8) where
    -- The three steps of writing.
    abbrev printed : Option (Buffer × String8)
    printed =
        write_integer_with_separators_rtl
          (write_sign_ltr
            (pad_output (mem, output) spec.padding_spec.direction spec.padding_spec.padding pads)
            (number_sign spec value) spec.sign_spec)
          (magnitude value) spec.digit_spec spec.separator_spec spec.minimum_digits

    format8_integer-printed : format8_integer value mem output given ≡ (
        if not (length (integer_text spec value) == output.length)
        then some (insufficient_buffer, mem)
        else elim printed [
          | some (final, left) ↦ if left.length == 0 then some (success, final) else none
          | none ↦ none
        ])
    unfolding format8_integer
    format8_integer-printed =
        let (reqs, e, bytes, count, few) = requirements in
        let sign = sign_units_bound spec.always_sign value in
        let total = length-integer_text in
        let p = u.plain in
        let short = p.short in
        let few_digits = p.few_digits in
        let padded : spec.padding_spec.padding_max - reqs.units ≡ pads = omega arith in
        let weight : length spec.padding_spec.padding * pads ≡ pads = elim pads_one [
          | inl nothing ↦ rw nothing (omega arith)
          | inr one ↦ rw one (omega arith)
        ] in
        let size : u32 (reqs.bytes + length spec.padding_spec.padding * pads)
            ≡ length (integer_text spec value) =
          omega arith in
        rw (format8_integer, e, abs_of-magnitude value small, padded, size) refl

    printed-Written :
        output.length ≡ length (integer_text spec value)
        → (out : Buffer × String8) × (printed ≡ some out)
          × WrittenOut mem output.data_ptr output.length out
              (repeated (pads_left spec.padding_spec.direction pads) spec.padding_spec.padding
                ++ sign_text spec value)
              (body_text spec ds
                ++ repeated (pads_right spec.padding_spec.direction pads) spec.padding_spec.padding)
    unfolding get
    printed-Written exact =
        let p = u.plain in
        let total = length-integer_text in
        let direction = spec.padding_spec.direction in
        let pad = spec.padding_spec.padding in
        let sum = pads_sum direction pads in
        let l : ℕ = pads_left direction pads in
        let r : ℕ = pads_right direction pads in
        let base : ℕ = output.data_ptr in
        let n : ℕ = output.length in
        let start : Written mem base n mem output [] [] = record {
          size = omega arith;
          place = inr (omega arith);
          front = refl;
          back = refl;
          kept = λ j h. refl;
        } in
        let padded =
          pad_output-Written mem base n mem output direction pads pad start pads_one
            (omega arith) in
        let out1 = pad_output (mem, output) direction pad pads in
        let a = part_length l (omega arith) in
        let b = part_length r (omega arith) in
        let size1 = padded.size in
        let signed =
          write_sign_ltr-Written mem base n out1.0 out1.1 (repeated l pad) (repeated r pad) spec
            value p padded (omega arith) in
        let out2 = write_sign_ltr out1 (number_sign spec value) spec.sign_spec in
        let size2 = signed.size in
        let s = length-sign_text spec value p in
        let first = length-append (repeated l pad) (sign_text spec value) in
        let mine = numeral_lem in
        let digits = p.plain in
        let base_bound = digits.base_bound in
        let (out, e, _, written) =
          rtl-Written mem base n out2.0 out2.1 (repeated l pad ++ sign_text spec value)
            (repeated r pad) spec (magnitude value) p u.off signed small
            (λ k h.
              let same =
                HasDigits-unique spec.digit_spec.base (magnitude value) k (length ds) (omega arith)
                  h mine.shortest in
              omega arith) in
        (out, e, written)

    -- What the formatter does with an output: one of another length is refused.
    pub format8_integer-text :
        ((output.length ≢ length (integer_text spec value))
          × (format8_integer value mem output given ≡ some (insufficient_buffer, mem)))
        ⊎ ((final : Buffer) × (output.length ≡ length (integer_text spec value))
            × (format8_integer value mem output given ≡ some (success, final))
            × (get final output.data_ptr output.length ≡ integer_text spec value)
            × ((j : ℕ)
                → (j < output.data_ptr) ⊎ (output.data_ptr + output.length ≤ j)
                → final j ≡ mem j))
    format8_integer-text =
        let total = length-integer_text in
        let e = format8_integer-printed in
        elim (eq-or-ne output.length (length (integer_text spec value))) [
          | inr other ↦ inl (
            other,
            e ∙ rw (ne→== (length (integer_text spec value)) output.length (omega arith)) refl,
          )
          | inl exact ↦
              let ((final, view), found, w) = printed-Written exact in
              let first =
                repeated (pads_left spec.padding_spec.direction pads) spec.padding_spec.padding
                ++ sign_text spec value in
              let last =
                body_text spec ds
                ++ repeated (pads_right spec.padding_spec.direction pads)
                    spec.padding_spec.padding in
              let size = w.size in
              let both = length-append first last in
              let empty : view.length ≡ 0 = omega arith in
              let start : output.data_ptr + length first + view.length
                  ≡ output.data_ptr + length first =
                omega arith in
              let whole : output.length ≡ length first + length last = omega arith in
              inr (
                final,
                exact,
                e
                    ∙ rw
                        (
                          eq→== (length (integer_text spec value)) output.length (omega arith),
                          found,
                          eq→== view.length 0 empty,
                        )
                        refl,
                ap (λ k. get final output.data_ptr k) whole
                    ∙ get_append final output.data_ptr (length first) (length last)
                    ∙ ap₂ (λ (x y : List ℕ). x ++ y) w.front
                        (ap (λ k. get final k (length last)) (sym start) ∙ w.back),
                w.kept,
              )
        ]

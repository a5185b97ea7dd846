-- ===== src/Format/Steps.antt =====
-- What each step of the formatter of integers writes: the padding, the sign and the digits.
use cutl.Base.{
  ℕ, ◌+◌, ◌-◌, ◌/◌, ◌^◌, ◌≤◌, ◌<◌, ◌≡◌, ◌⊎◌, inl, inr, refl, sym, ◌∙◌, ap, subst, arith, some, List,
  [], ◌++◌, append-nil, append_assoc, length, length-append, get_or, eq→==, Bool-cases, max, ℤ, pos,
  negsuc,
}
use cutl.Errors.{}
use cutl.Streams.{Buffer, get}
use cutl.Streams.Buffers.{}
use cutl.Strings.{String8}
use cutl.Format.{
  DigitSpec, separator_spec_none, PaddingDirection, padding_left, padding_right, padding_both_l,
  padding_both_r, FilledSpec,
}
use cutl.Format.Digits.{IsPlain, HasDigits, digit_loop-Counts}
use cutl.Format.Length.{IsPlainSpec, sign_units}
use cutl.Format.Write.{
  pad_output, write_sign_ltr, number_sign, write_integer_with_separators_rtl, write_output_right_n,
}
use cutl.Format.Output.{repeated, Written, WrittenOut, left_step, left_n, right_n}
use cutl.Format.Text.{numeral, digit_text, IsNumeral, HasDigits-unique, write_digits-Prints}
use cutl.Format.Integer.{
  pads_left, pads_right, sign_text, body_text, length-repeated, length-digit_text,
}

module _ (mem : Buffer) (base n : ℕ) where
  pub pad_output-Written :
      (now : Buffer) (view : String8) (direction : PaddingDirection) (p : ℕ) (str : List ℕ)
      → Written mem base n now view [] []
      → (p ≡ 0) ⊎ (length str ≡ 1)
      → p ≤ view.length
      → WrittenOut mem base n
          (pad_output (now, view) direction str p)
          (repeated (pads_left direction p) str)
          (repeated (pads_right direction p) str)
  unfolding pad_output
  pad_output-Written now view padding_left p str w h room =
      left_n mem base n p now view [] [] str w h room
  pad_output-Written now view padding_right p str w h room =
      subst (λ t. WrittenOut mem base n (pad_output (now, view) padding_right str p) [] t)
        (append-nil (repeated p str)) (right_n mem base n p now view [] [] str w h room)
  pad_output-Written now view padding_both_l p str w h room =
      let left : ℕ = p - p / 2 in
      let h1 : (left ≡ 0) ⊎ (length str ≡ 1) = elim h [
        | inl e ↦ inl (omega arith)
        | inr e ↦ inr e
      ] in
      let h2 : (p / 2 ≡ 0) ⊎ (length str ≡ 1) = elim h [
        | inl e ↦ inl (omega arith)
        | inr e ↦ inr e
      ] in
      let first = left_n mem base n left now view [] [] str w h1 (omega arith) in
      let size = first.size in
      let before = w.size in
      let many = length-repeated left str h1 in
      subst
        (λ t.
          WrittenOut mem base n (pad_output (now, view) padding_both_l str p) (repeated left str) t)
        (append-nil (repeated (p / 2) str))
        (right_n mem base n (p / 2) _ _ (repeated left str) [] str first h2 (omega arith))
  pad_output-Written now view padding_both_r p str w h room =
      let right : ℕ = p - p / 2 in
      let h1 : (right ≡ 0) ⊎ (length str ≡ 1) = elim h [
        | inl e ↦ inl (omega arith)
        | inr e ↦ inr e
      ] in
      let h2 : (p / 2 ≡ 0) ⊎ (length str ≡ 1) = elim h [
        | inl e ↦ inl (omega arith)
        | inr e ↦ inr e
      ] in
      let first = right_n mem base n right now view [] [] str w h1 (omega arith) in
      let size = first.size in
      let before = w.size in
      let many = length-repeated right str h1 in
      let total = length-append (repeated right str) [] in
      subst
        (λ t.
          WrittenOut mem base n (pad_output (now, view) padding_both_r str p) (repeated (p / 2) str)
            t)
        (append-nil (repeated right str))
        (left_n mem base n (p / 2) _ _ [] (repeated right str ++ []) str first h2 (omega arith))

  pub write_sign_ltr-Written :
      (now : Buffer) (view : String8) (first last : List ℕ) (spec : FilledSpec) (value : ℤ)
      → IsPlainSpec spec
      → Written mem base n now view first last
      → sign_units spec.always_sign value ≤ view.length
      → WrittenOut mem base n
          (write_sign_ltr (now, view) (number_sign spec value) spec.sign_spec)
          (first ++ sign_text spec value)
          last
  unfolding write_sign_ltr number_sign
  write_sign_ltr-Written now view first last spec (negsuc v) plain w room =
      left_step mem base n now view first last w spec.sign_spec.minus plain.minus (omega arith)
  write_sign_ltr-Written now view first last spec (pos v) plain w room =
      elim (Bool-cases spec.always_sign) [
        | inl always ↦
            let some_room : 1 ≤ view.length =
              subst (λ b. sign_units b (pos v) ≤ view.length) always room in
            rw always
              (left_step mem base n now view first last w spec.sign_spec.plus plain.plus some_room)
        | inr never ↦
            rw never (subst (λ t. Written mem base n now view t last) (sym (append-nil first)) w)
      ]

  pub rtl-Written :
      (now : Buffer) (view : String8) (first last : List ℕ) (spec : FilledSpec) (value : ℕ)
      → IsPlainSpec spec
      → spec.separator_spec.separator_distance ≡ 0
      → Written mem base n now view first last
      → value < 2 ^ 63
      → ((k : ℕ) → HasDigits spec.digit_spec.base value k → max spec.minimum_digits k ≤ view.length)
      → (out : Buffer × String8) × (write_integer_with_separators_rtl
            (now, view)
            value
            spec.digit_spec
            spec.separator_spec
            spec.minimum_digits
          ≡ some out)
        × IsNumeral spec.digit_spec.base value (numeral 64 spec.digit_spec.base value)
        × WrittenOut mem base n out first
            (body_text spec (numeral 64 spec.digit_spec.base value) ++ last)
  unfolding write_integer_with_separators_rtl
  rtl-Written now view first last spec value plain off w small room =
      let b : ℕ = spec.digit_spec.base in
      let zero_str = get_or spec.digit_spec.digits 0 [] in
      let (ds, out, counter, e, same, shape, w') =
        write_digits-Prints mem base n spec.digit_spec spec.separator_spec plain.plain off 64 now
          view first last value 0 0 w (omega arith) (omega arith) (omega arith)
          (λ k h. let r = room k h in omega arith) in
      let left : ℕ = spec.minimum_digits - length ds in
      let digits = plain.plain in
      let base_bound = digits.base_bound in
      let one = digits.one_byte 0 (omega arith) in
      let fits = room (length ds) shape.shortest in
      let before = w.size in
      let after = w'.size in
      let total = length-append (digit_text spec.digit_spec ds) last in
      let text = length-digit_text spec.digit_spec digits ds shape.below in
      let z : 0 + length ds ≡ length ds = omega arith in
      let found = e ∙ ap (λ (k : ℕ). some (out, counter, k)) z in
      let final = write_output_right_n out left zero_str in
      let written =
        right_n mem base n left out.0 out.1 first (digit_text spec.digit_spec ds ++ last) zero_str
          w' (inr one) (omega arith) in
      (
        final,
        rw
            (
              write_integer_with_separators_rtl,
              found,
              eq→== spec.separator_spec.separator_distance 0 off,
            )
            refl,
        subst (λ t. IsNumeral b value t) same shape,
        subst (λ t. WrittenOut mem base n final first (body_text spec t ++ last)) same
            (subst (λ t. WrittenOut mem base n final first t)
              (sym (append_assoc (repeated left zero_str) (digit_text spec.digit_spec ds) last))
              written),
      )

pub numeral-IsNumeral :
    (spec : DigitSpec) (value : ℕ)
    → IsPlain spec
    → value < 2 ^ 63
    → IsNumeral spec.base value (numeral 64 spec.base value)
unfolding get
numeral-IsNumeral spec value plain small =
    let base_bound = plain.base_bound in
    let (k, _, _, _, _, digits, few) =
      digit_loop-Counts spec plain 64 value (record { bytes = 0; units = 0 }) (omega arith)
        (omega arith) (omega arith) in
    let view : String8 = record { length = 64; data_ptr = 0 } in
    let mem : Buffer = λ j. 0 in
    let whole : Written mem 0 64 mem view [] [] = record {
      size = refl;
      place = inr refl;
      front = refl;
      back = refl;
      kept = λ j h. refl;
    } in
    let (ds, _, _, _, same, shape, _) =
      write_digits-Prints mem 0 64 spec separator_spec_none plain refl 64 mem view [] [] value 0 0
        whole (omega arith) (omega arith) (omega arith)
        (λ m h.
          let e = HasDigits-unique spec.base value m k (omega arith) h digits in omega arith) in
    subst (λ t. IsNumeral spec.base value t) same shape

-- ===== src/Streams/StringStream/Format.antt =====
-- Formatting a list of arguments into a stream, against a description of the text with no buffer.
use cutl.Base.{
  ℕ, ◌+◌, ◌-◌, ◌≤◌, ◌≡◌, ◌⊎◌, inl, inr, refl, ◌∙◌, ap, ap₂, subst, arith, Option, none, some, List,
  [], ◌∷◌, ◌++◌, append_assoc, ltb, if◌then◌else◌, length, length-append, u64, sub64, lt→ltb,
  le→ltb, lt-or-le, Bool-cases,
}
use cutl.Errors.{Result, success, insufficient_buffer, invalid_type_enum}
use cutl.Streams.{
  is_success, put, Formats, FormatArg, fmt_int, fmt_flt, fmt_exp, fmt_str, fmt_s8, fmt_custom,
  fmt_other, spec_or,
}
use cutl.Streams.Integers.{integer_formatter, default_int_specs, formats_of}
use cutl.Streams.StringStream.Integers.{IsPlainInteger, text_of, integer_formatter-Writes}
use cutl.Streams.StringStream.{
  StringStream, write_s8, write_cstr, get_string, write_integer, write_float, write_exponential,
  format_one, format,
}
use cutl.Streams.StringStream.Contents.{
  IsStream, Appends, nothing-Appends, appended, appended-Appends, value_text, Renders, room_left,
  custom_text, IsExactCustom,
}
use cutl.Streams.StringStream.Render.{write_value-Renders, write_custom-Renders}

abbrev prefix : List ℕ → Option (Result × List ℕ) → Option (Result × List ℕ)
prefix text (some (res, rest)) = some (res, text ++ rest)
prefix text none = none

pub Appends-trans :
    {this next last : StringStream} {a b : List ℕ}
    → Appends this next a
    → Appends next last b
    → Appends this last (a ++ b)
Appends-trans {this} {next} {last} {a} {b} p q =
    let size_p = p.size in
    let pos_p = p.pos in
    let pos_q = q.pos in
    record {
      string = q.string ∙ ap (λ t. t ++ b) p.string ∙ append_assoc (get_string this) a b;
      valid = q.valid;
      size = q.size ∙ p.size;
      pos = omega (arith, length-append a b);
      kept = λ j h.
          q.kept j (elim h [ inl below ↦ inl (omega arith) | inr past ↦ inr (omega arith) ])
          ∙ p.kept j h;
    }

prefix-Renders :
    (this next : StringStream) (bs : List ℕ) (outcome : Option (Result × StringStream))
    (text : Option (Result × List ℕ))
    → Appends this next bs
    → Renders next outcome text
    → Renders this outcome (prefix bs text)
prefix-Renders this next bs outcome text app (inl (e, t)) = rw (e, t) (inl (refl, refl))
prefix-Renders this next bs outcome text app (inr (res, last, rest, e, t, more)) =
    rw (e, t) (inr (res, last, bs ++ rest, refl, refl, Appends-trans app more))

module _ (others : Formats) where
  abbrev f : Formats
  f = formats_of others

  -- The arguments that the description covers: integers whose specification has no separators, custom
  -- values that keep their promise, and everything else but floating-point numbers.
  unfoldable pub IsDescribed : FormatArg (formats_of others) → Type 0
  IsDescribed (fmt_int value spec) = IsPlainInteger value (spec_or spec default_int_specs)
  IsDescribed (fmt_flt value spec) = ⊥
  IsDescribed (fmt_exp value spec) = ⊥
  IsDescribed (fmt_custom custom) = IsExactCustom custom
  IsDescribed other = Unit

  unfoldable pub AreDescribed : List (FormatArg (formats_of others)) → Type 0
  AreDescribed [] = Unit
  AreDescribed (arg ∷ args) = IsDescribed arg × AreDescribed args

  -- What one argument adds: a string that does not fit is left out.
  unfoldable pub arg_text : ℕ → ℕ → FormatArg (formats_of others) → Option (Result × List ℕ)
  arg_text size room (fmt_int value spec) =
      value_text size room (text_of value (spec_or spec default_int_specs))
  arg_text size room (fmt_flt value spec) = none
  arg_text size room (fmt_exp value spec) = none
  arg_text size room (fmt_s8 str) = some (success, if ltb room (length str) then [] else str)
  arg_text size room (fmt_str str) = some (success, if ltb room (length str) then [] else str)
  arg_text size room (fmt_custom custom) = custom_text size room custom
  arg_text size room fmt_other = some (invalid_type_enum, [])

  -- The text of all of them, up to the first that fails.
  unfoldable pub render : ℕ → ℕ → List (FormatArg (formats_of others)) → Option (Result × List ℕ)
  render size room [] = some (success, [])
  render size room (arg ∷ args) = elim (arg_text size room arg) [
    | some (res, text) ↦
        let rest = prefix text (render size (room - length text) args) in
        if is_success res then rest else some (res, text)
    | none ↦ none
  ]

  string-Renders :
      (this : StringStream) (str : List ℕ)
      → IsStream this
      → (write : StringStream → List ℕ → Result × StringStream)
      → write this str ≡ (
          if ltb (sub64 this.buffer_size this.buffer_pos) (length str)
          then (insufficient_buffer, this)
          else (
            success,
            record this {
              buffer = put this.buffer this.buffer_pos str;
              buffer_pos = u64 (this.buffer_pos + length str);
            },
          ))
      → Renders this (some (success, (write this str).1)) (
          some (success, if ltb (this.buffer_size - this.buffer_pos) (length str) then [] else str))
  string-Renders this str stream write e =
      elim (lt-or-le (this.buffer_size - this.buffer_pos) (length str)) [
        | inl short ↦
            rw
              (
                e,
                room_left this stream,
                lt→ltb (this.buffer_size - this.buffer_pos) (length str) short,
              )
              (inr (success, this, [], refl, refl, nothing-Appends this stream))
        | inr enough ↦
            rw
              (
                e,
                room_left this stream,
                le→ltb (this.buffer_size - this.buffer_pos) (length str) enough,
              )
              (inr (
                success,
                appended this stream str,
                str,
                refl,
                refl,
                appended-Appends this stream str enough,
              ))
      ]

  format_one-Renders :
      (this : StringStream) (arg : FormatArg (formats_of others))
      → IsStream this
      → IsDescribed arg
      → Renders this
          (format_one f this arg)
          (arg_text this.buffer_size (this.buffer_size - this.buffer_pos) arg)
  unfolding format_one arg_text IsDescribed write_integer write_float write_exponential write_s8
      write_cstr
  format_one-Renders this (fmt_int value spec) stream law =
      let given = spec_or spec default_int_specs in
      write_value-Renders this stream integer_formatter value spec (text_of value given)
        (integer_formatter-Writes value given law)
  format_one-Renders this (fmt_flt value spec) stream law = absurd law
  format_one-Renders this (fmt_exp value spec) stream law = absurd law
  format_one-Renders this (fmt_str str) stream law = string-Renders this str stream write_cstr refl
  format_one-Renders this (fmt_s8 str) stream law = string-Renders this str stream write_s8 refl
  format_one-Renders this (fmt_custom custom) stream law =
      write_custom-Renders this stream custom law
  format_one-Renders this fmt_other stream law =
      inr (invalid_type_enum, this, [], refl, refl, nothing-Appends this stream)

  step-Renders :
      (this : StringStream) (args : List (FormatArg (formats_of others)))
      (outcome : Option (Result × StringStream)) (text : Option (Result × List ℕ))
      → ((next : StringStream)
          → IsStream next
          → Renders next
              (format f next args)
              (render next.buffer_size (next.buffer_size - next.buffer_pos) args))
      → Renders this outcome text
      → Renders this
          (elim outcome [
            | some (res, next) ↦
                let rest = format f next args in if is_success res then rest else some (res, next)
            | none ↦ none
          ])
          (elim text [
            | some (res, t) ↦
                let rest =
                  prefix t (
                    render this.buffer_size (this.buffer_size - this.buffer_pos - length t) args) in
                if is_success res then rest else some (res, t)
            | none ↦ none
          ])
  step-Renders this args outcome text rest (inl (e, t)) = rw (e, t) (inl (refl, refl))
  step-Renders this args outcome text rest (inr (res, next, bs, e, t, app)) =
      let left : next.buffer_size - next.buffer_pos
          ≡ this.buffer_size - this.buffer_pos - length bs =
        omega (arith, app.size, app.pos) in
      let after = rest next app.valid in
      rw (e, t)
        (elim (Bool-cases (is_success res)) [
          | inl good ↦ rw good (
              subst (λ t. Renders this (format f next args) (prefix bs t))
                (ap₂ (λ s r. render s r args) app.size left)
                (prefix-Renders this next bs _ _ app after))
          | inr bad ↦ rw bad (inr (res, next, bs, refl, refl, app))
        ])

  format-Renders :
      (this : StringStream) (args : List (FormatArg (formats_of others)))
      → IsStream this
      → AreDescribed args
      → Renders this
          (format f this args)
          (render this.buffer_size (this.buffer_size - this.buffer_pos) args)
  unfolding format render AreDescribed
  format-Renders this [] stream laws =
      inr (success, this, [], refl, refl, nothing-Appends this stream)
  format-Renders this (arg ∷ args) stream (law, laws) =
      step-Renders this args (format_one f this arg)
        (arg_text this.buffer_size (this.buffer_size - this.buffer_pos) arg)
        (λ next valid. format-Renders next args valid laws) (format_one-Renders this arg stream law)

  -- Formatting into a valid stream, for arguments that are strings, integers between -2^63 and 2^63
  -- with a specification of a base of two or more, without separators, whose strings are one byte each
  -- and whose sizes are below 2^30, custom values that fill their output or fail, or of an unknown
  -- type: the program does what the description says. Both fail an assertion, or both give the same
  -- result, and the string in the stream is the one from before with the text of the description
  -- behind it, the stream is valid again and of the same size, and no byte outside its buffer was
  -- written.
  pub format-render :
      (this : StringStream) (args : List (FormatArg (formats_of others))) (j : ℕ)
      → IsStream this
      → AreDescribed args
      → this.buffer_size ≤ j
      → ((format f this args ≡ none)
          × (render this.buffer_size (this.buffer_size - this.buffer_pos) args ≡ none))
        ⊎ ((res : Result) × (next : StringStream) × (text : List ℕ) × (format f this args
              ≡ some (res, next))
            × (render this.buffer_size (this.buffer_size - this.buffer_pos) args ≡ some (res, text))
            × (get_string next ≡ get_string this ++ text)
            × IsStream next
            × (next.buffer_size ≡ this.buffer_size)
            × (next.buffer j ≡ this.buffer j))
  format-render this args j stream laws past = elim (format-Renders this args stream laws) [
    | inl h ↦ inl h
    | inr (res, next, text, e, t, app) ↦
        inr (res, next, text, e, t, app.string, app.valid, app.size, app.kept j (inr past))
  ]

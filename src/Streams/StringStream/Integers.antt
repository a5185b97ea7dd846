-- ===== src/Streams/StringStream/Integers.antt =====
-- The formatter of integers writes the text of a value.
use cutl.Base.{ℕ, ◌^◌, ◌<◌, inl, inr, ◌∙◌, sym, ap, arith, List, ℤ}
use cutl.Errors.{}
use cutl.Strings.{}
use cutl.Streams.{get}
use cutl.Streams.Integers.{integer_formatter}
use cutl.Streams.StringStream.Contents.{Writes}
use cutl.Format.{IntegerSpec, integer_spec_fill_defaults}
use cutl.Format.Length.{magnitude}
use cutl.Format.Integer.{integer_text}
use cutl.Format.Exact.{IsUnseparated, format8_integer_length-text, format8_integer-text}

-- A value between -2^63 and 2^63, and a specification without separators.
pub record IsPlainInteger (value : ℤ) (given : IntegerSpec) : Type 0 where
  pub spec : IsUnseparated (integer_spec_fill_defaults given)
  pub small : magnitude value < 2 ^ 63

-- The text of an integer in a specification with its defaults filled in.
abbrev pub text_of : ℤ → IntegerSpec → List ℕ
text_of value given = integer_text (integer_spec_fill_defaults given) value

pub integer_formatter-Writes :
    (value : ℤ) (given : IntegerSpec)
    → IsPlainInteger value given
    → Writes integer_formatter value given (text_of value given)
integer_formatter-Writes value given p = record {
  measured = format8_integer_length-text given value p.spec p.small;
  written = λ mem output exact. elim (format8_integer-text given value p.spec p.small mem output) [
    | inl (other, _) ↦ absurd (other exact)
    | inr (final, size, e, here, kept) ↦ (
      final,
      e,
      ap (λ n. get final output.data_ptr n) (sym size) ∙ here,
      λ j h. kept j (elim h [ inl below ↦ inl below | inr past ↦ inr (omega arith) ]),
    )
  ];
}

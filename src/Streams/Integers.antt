-- ===== src/Streams/Integers.antt =====
-- src/string/format.c as the streams use it: the formatter of integers.
use cutl.Base.{some, false, ℤ, arith, refl, inl}
use cutl.Format.{
  IntegerSpec, integer_spec_fill_defaults, value_or, digit_spec_decimal, sign_spec_basic,
  separator_spec_none, padding_spec_none, format8_integer_length,
}
use cutl.Format.Digits.{digit_spec_decimal-IsPlain}
use cutl.Format.Exact.{IsUnseparated}
use cutl.Format.Write.{format8_integer}
use cutl.Streams.{Formatter, Formats}

-- `DEFAULT_INT_SPECS` of src/string/format_defaults.c
abbrev pub default_int_specs : IntegerSpec
default_int_specs = record {
  digit_spec = some digit_spec_decimal;
  sign_spec = some sign_spec_basic;
  separator_spec = some separator_spec_none;
  padding_spec = some padding_spec_none;
  minimum_digits = 1;
  always_sign = false;
}

pub default_int_specs-IsUnseparated : IsUnseparated (integer_spec_fill_defaults default_int_specs)
unfolding integer_spec_fill_defaults value_or
default_int_specs-IsUnseparated = record {
  plain = record {
    plain = digit_spec_decimal-IsPlain;
    plus = refl;
    minus = refl;
    separator = inl refl;
    padding = inl refl;
    few_digits = omega arith;
    short = omega arith;
  };
  off = refl;
}

abbrev pub integer_formatter : Formatter ℤ IntegerSpec
integer_formatter = record {
  default = default_int_specs;
  length_function = format8_integer_length;
  write_function = format8_integer;
}

-- The formatter of integers beside those of floating-point numbers.
abbrev pub formats_of : Formats → Formats
formats_of others = record {
  Double = others.Double;
  IntegerSpec = IntegerSpec;
  FloatSpec = others.FloatSpec;
  ExponentialSpec = others.ExponentialSpec;
  integer = integer_formatter;
  floating = others.floating;
  exponential = others.exponential;
}

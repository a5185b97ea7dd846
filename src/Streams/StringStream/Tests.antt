-- ===== src/Streams/StringStream/Tests.antt =====
-- Runs of the string stream, and the theorems about it at concrete inputs.
use cutl.Base.{
  ℕ, ◌+◌, ◌==◌, if◌then◌else◌, ◌≡◌, ◌⊎◌, refl, arith, true, Option, none, some, List, [], ◌∷◌, ◌++◌,
  replicate, negsuc,
}
use cutl.Errors.{
  Result, success, failure, insufficient_buffer, index_out_of_bounds, callback_failure,
}
use cutl.Streams.{
  Buffer, put, get, Formatter, Formats, FormatArg, fmt_int, fmt_flt, fmt_str, fmt_s8, fmt_other,
  spec_or, is_success,
}
use cutl.Streams.Integers.{integer_formatter, default_int_specs-IsUnseparated, formats_of}
use cutl.Format.{IntegerSpec, integer_spec_fill_defaults, value_or}
use cutl.Format.Text.{numeral}
use cutl.Streams.StringStream.{
  StringStream, init, write_s8, write_cstr, get_output_string, roll_back, write_value, write_custom,
  get_string, clear, get_pos, set_pos, write_float, write_exponential, format_one, format,
}
use cutl.Streams.StringStream.Contents.{IsStream, value_text}
use cutl.Streams.StringStream.Format.{IsDescribed, AreDescribed, arg_text, render, format-render}

-- A formatter that writes as many `x` as the value plus the spec says, and cannot write three.
abbrev xs : Formatter ℕ ℕ
xs = record {
  default = 0;
  length_function = λ value spec. some (value + spec);
  write_function = λ value mem output spec. some (
    if value == 3 then failure else success,
    put mem output.data_ptr (replicate output.length 120),
  );
}

abbrev others : Formats
others = record {
  Double = ℕ;
  IntegerSpec = IntegerSpec;
  FloatSpec = ℕ;
  ExponentialSpec = ℕ;
  integer = integer_formatter;
  floating = xs;
  exponential = xs;
}

abbrev formats : Formats
formats = formats_of others

abbrev clean : Buffer
clean i = 0

-- Eight bytes, the first of them written.
abbrev started : StringStream
started = record { buffer_size = 8; buffer_pos = 1; buffer = clean }

started-IsStream : IsStream started
started-IsStream = omega arith

-- "-2", then "AB".
abbrev args : List (FormatArg formats)
args = fmt_int (negsuc 1) none ∷ fmt_s8 (65 ∷ 66 ∷ []) ∷ []

args-AreDescribed : AreDescribed others args
unfolding AreDescribed IsDescribed spec_or
args-AreDescribed =
    (record { spec = default_int_specs-IsUnseparated; small = omega arith }, (tt, tt))

string_of : Option (Result × StringStream) → Option (Result × List ℕ)
unfolding get_string get
string_of (some (res, next)) = some (res, get_string next)
string_of none = none

format_run :
    string_of (format others started (fmt_flt 2 none ∷ fmt_s8 (65 ∷ 66 ∷ []) ∷ []))
    ≡ some (success, 0 ∷ 120 ∷ 120 ∷ 65 ∷ 66 ∷ [])
unfolding string_of format format_one write_float write_value get_output_string spec_or is_success
    write_s8 put get get_string
format_run = refl

-- The string that does not fit is left out, and the result is a success all the same.
format_drops :
    string_of
      (format others started (fmt_flt 6 none ∷ fmt_str (65 ∷ 66 ∷ []) ∷ fmt_s8 (67 ∷ []) ∷ []))
    ≡ some (success, 0 ∷ 120 ∷ 120 ∷ 120 ∷ 120 ∷ 120 ∷ 120 ∷ 67 ∷ [])
unfolding string_of format format_one write_float write_value get_output_string spec_or is_success
    write_s8 write_cstr put get get_string
format_drops = refl

-- A value that is no longer than the buffer, and longer than what is left of it.
format_asserts : string_of (format others started (fmt_flt 8 none ∷ [])) ≡ none
unfolding string_of format format_one write_float write_value get_output_string spec_or is_success
    put get get_string
format_asserts = refl

format_fails :
    string_of (format others started (fmt_flt 3 none ∷ fmt_other ∷ [])) ≡ some (failure, 0 ∷ [])
unfolding string_of format format_one write_float write_value get_output_string roll_back spec_or
    is_success put get get_string
format_fails = refl

custom_run :
    (string_of (write_custom started (record { length = 1; write = λ n. (true, 7 ∷ []) }))
      ≡ some (callback_failure, 0 ∷ []))
    × (string_of (write_custom started (record { length = 9; write = λ n. (true, []) }))
        ≡ some (insufficient_buffer, 0 ∷ []))
unfolding string_of write_custom get_output_string roll_back put get get_string
custom_run = (refl, refl)

exponential_run :
    string_of (write_exponential others started 1 (some 1)) ≡ some (success, 0 ∷ 120 ∷ 120 ∷ [])
unfolding string_of write_exponential write_value get_output_string roll_back spec_or is_success put
    get get_string
exponential_run = refl

positions_run :
    (get_pos (clear started) ≡ 0)
    × ((set_pos started 2).0 ≡ index_out_of_bounds)
    × ((init 16 15 clean).0 ≡ insufficient_buffer)
unfolding get_pos clear set_pos init
positions_run = (refl, refl, refl)

format-render_example :
    ((format formats started args ≡ none) × (render others 8 7 args ≡ none))
    ⊎ ((res : Result) × (next : StringStream) × (text : List ℕ) × (format formats started args
          ≡ some (res, next))
        × (render others 8 7 args ≡ some (res, text))
        × (get_string next ≡ get_string started ++ text)
        × IsStream next
        × (next.buffer_size ≡ started.buffer_size)
        × (next.buffer 9 ≡ started.buffer 9))
format-render_example =
    format-render others started args 9 started-IsStream args-AreDescribed (omega arith)

render_run : render others 8 7 args ≡ some (success, 0x2d ∷ 0x32 ∷ 65 ∷ 66 ∷ [])
unfolding render arg_text value_text numeral integer_spec_fill_defaults value_or spec_or is_success
render_run = refl

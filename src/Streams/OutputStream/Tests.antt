-- ===== src/Streams/OutputStream/Tests.antt =====
-- Runs of the output stream, and the theorems about it at concrete inputs.
use cutl.Base.{
  ℕ, ◌+◌, ◌<◌, ◌≤◌, ◌^◌, ◌==◌, ℤ, if◌then◌else◌, ◌≡◌, ◌⊎◌, refl, arith, true, Option, none, some,
  List, [], ◌∷◌, ◌++◌, length, replicate, pos, negsuc,
}
use cutl.Errors.{Result, success, failure, insufficient_buffer, callback_failure, file_io_failure}
use cutl.Streams.{
  put, get, Formatter, Formats, fmt_flt, fmt_str, fmt_s8, fmt_other, spec_or, is_success,
}
use cutl.Streams.Integers.{
  integer_formatter, default_int_specs, default_int_specs-IsUnseparated, formats_of,
}
use cutl.Streams.StringStream.Integers.{IsPlainInteger, text_of}
use cutl.Format.{IntegerSpec, integer_spec_fill_defaults, value_or}
use cutl.Format.Length.{magnitude}
use cutl.Format.Text.{numeral}
use cutl.Streams.OutputStream.{
  FileOps, OutputStream, init, flush_result, flush, copy_in, write_rest, write_u8, write_s8,
  cstr_loop, write_cstr, get_output_string, roll_back, write_value, write_custom, ignored,
  write_integer, write_float, write_exponential, format_one, format,
}
use cutl.Streams.OutputStream.Contents.{IsReliable, IsStream, output}
use cutl.Streams.OutputStream.Strings.{write_s8-output, write_cstr-output, cstr_loop_stuck}
use cutl.Streams.OutputStream.Values.{write_integer-output}

-- A file is the list of its bytes, and every write succeeds.
abbrev ops : FileOps (List ℕ)
ops = record {
  fwrite = λ file bytes. (length bytes, file ++ bytes);
  fflush = λ file. (pos 0, file);
}

abbrev contents : List ℕ → List ℕ
contents file = file

ops-IsReliable : IsReliable ops contents
ops-IsReliable = record {
  fwrite_count = λ file bytes. refl;
  fwrite_contents = λ file bytes. refl;
  fflush_result = λ file. refl;
  fflush_contents = λ file. refl;
}

-- A disk that is full.
abbrev full : FileOps (List ℕ)
full = record { fwrite = λ file bytes. (0, file); fflush = λ file. (negsuc 0, file) }

-- A formatter that writes as many `x` as the value plus the spec says, and cannot write three.
abbrev xs : Formatter ℕ ℕ
xs = record {
  default = 0;
  length_function = λ value spec. some (value + spec);
  write_function = λ value mem output spec. some (
    if value == 3 then failure else success,
    put mem output.data_ptr (replicate output.length 120),
  );
}

abbrev others : Formats
others = record {
  Double = ℕ;
  IntegerSpec = IntegerSpec;
  FloatSpec = ℕ;
  ExponentialSpec = ℕ;
  integer = integer_formatter;
  floating = xs;
  exponential = xs;
}

-- A buffer of four bytes, one of them written.
abbrev started : OutputStream (List ℕ)
started = record { stream = []; buffer_size = 4; buffer_pos = 1; buffer = λ i. 9 }

started-IsStream : IsStream started
started-IsStream = omega arith

bytes_of : Option (Result × OutputStream (List ℕ)) → Option (Result × List ℕ × List ℕ)
bytes_of (some (res, next)) = some (res, next.stream, get next.buffer 0 next.buffer_pos)
bytes_of none = none

-- Three of the five bytes are lost.
write_s8_loses :
    bytes_of (some (write_s8 ops started (1 ∷ 2 ∷ 3 ∷ 4 ∷ 5 ∷ [])))
    ≡ some (success, 9 ∷ [], 4 ∷ 5 ∷ [])
unfolding bytes_of write_s8 write_u8 write_rest flush flush_result copy_in put get is_success
write_s8_loses = refl

write_cstr_run :
    bytes_of (write_cstr ops started (1 ∷ 2 ∷ 3 ∷ 4 ∷ 5 ∷ []))
    ≡ some (success, 9 ∷ 1 ∷ 2 ∷ 3 ∷ [], 4 ∷ 5 ∷ [])
unfolding bytes_of write_cstr cstr_loop flush flush_result copy_in put get is_success
write_cstr_run = refl

full_disk_run : bytes_of (some (flush full started)) ≡ some (file_io_failure, [], 9 ∷ [])
unfolding bytes_of flush get
full_disk_run = refl

format_run :
    bytes_of (
      format ops others started
        (fmt_s8 (1 ∷ []) ∷ fmt_str (2 ∷ []) ∷ fmt_flt 3 none ∷ fmt_other ∷ []))
    ≡ some (failure, 9 ∷ 1 ∷ 2 ∷ [], [])
unfolding bytes_of format format_one ignored write_s8 write_u8 write_cstr cstr_loop write_float
    write_value get_output_string roll_back spec_or copy_in put get is_success flush flush_result
format_run = refl

values_run :
    (bytes_of (write_float ops others started 2 none) ≡ some (success, [], 9 ∷ 120 ∷ 120 ∷ []))
    × (bytes_of (write_exponential ops others started 2 (some 2))
        ≡ some (success, 9 ∷ [], 120 ∷ 120 ∷ 120 ∷ 120 ∷ []))
    × (bytes_of (write_custom ops started (record { length = 2; write = λ n. (true, []) }))
        ≡ some (callback_failure, [], 9 ∷ []))
unfolding bytes_of write_float write_exponential write_custom write_value get_output_string
    roll_back spec_or flush flush_result put get is_success
values_run = (refl, refl, refl)

init_run : (init {File = List ℕ} [] 24 23 (λ i. 0)).0 ≡ insufficient_buffer
unfolding init
init_run = refl

write_s8-output_example :
    ((write_s8 ops started (1 ∷ 2 ∷ 3 ∷ 4 ∷ 5 ∷ [])).0 ≡ success)
    × (output ops contents (write_s8 ops started (1 ∷ 2 ∷ 3 ∷ 4 ∷ 5 ∷ [])).1
        ≡ output ops contents started ++ (4 ∷ 5 ∷ []))
    × IsStream (write_s8 ops started (1 ∷ 2 ∷ 3 ∷ 4 ∷ 5 ∷ [])).1
write_s8-output_example =
    write_s8-output ops contents ops-IsReliable started (1 ∷ 2 ∷ 3 ∷ 4 ∷ 5 ∷ []) started-IsStream

write_cstr-output_example :
    (next : OutputStream (List ℕ)) × (write_cstr ops started (1 ∷ 2 ∷ 3 ∷ 4 ∷ 5 ∷ [])
      ≡ some (success, next))
    × (output ops contents next ≡ output ops contents started ++ (1 ∷ 2 ∷ 3 ∷ 4 ∷ 5 ∷ []))
    × IsStream next
write_cstr-output_example =
    write_cstr-output ops contents ops-IsReliable started (1 ∷ 2 ∷ 3 ∷ 4 ∷ 5 ∷ []) started-IsStream
      (omega arith)

abbrev no_room : OutputStream (List ℕ)
no_room = record { stream = []; buffer_size = 0; buffer_pos = 0; buffer = λ i. 0 }

cstr_loop_stuck_example : cstr_loop ops 9 no_room (1 ∷ []) ≡ none
cstr_loop_stuck_example = cstr_loop_stuck ops 9 no_room 1 [] refl refl

plain_integer : (value : ℤ) → magnitude value < 2 ^ 63 → IsPlainInteger value default_int_specs
plain_integer value small = record { spec = default_int_specs-IsUnseparated; small = small }

abbrev text : List ℕ
text = text_of (negsuc 41) default_int_specs

write_integer-output_example :
    ((4 < length text)
      × (write_integer ops (formats_of others) started (negsuc 41) none
          ≡ some (insufficient_buffer, started)))
    ⊎ ((next : OutputStream (List ℕ)) × (length text ≤ 4)
        × (write_integer ops (formats_of others) started (negsuc 41) none ≡ some (success, next))
        × (output ops contents next ≡ output ops contents started ++ text)
        × IsStream next)
unfolding spec_or
write_integer-output_example =
    write_integer-output ops contents ops-IsReliable others started (negsuc 41) none
      (plain_integer (negsuc 41) (omega arith)) started-IsStream

-- "-42"
text_run : text ≡ 0x2d ∷ 0x34 ∷ 0x32 ∷ []
unfolding numeral integer_spec_fill_defaults value_or
text_run = refl

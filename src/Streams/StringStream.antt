-- ===== src/Streams/StringStream.antt =====
-- src/string/string_stream.c: a stream that fills a buffer. `none` is a failed assertion.
pub mod Contents
pub mod Render
pub mod Integers
pub mod Format
mod Tests
use cutl.Base.{
  ℕ, zero, suc, ◌+◌, ◌-◌, ◌^◌, Bool, true, false, Option, none, some, List, [], ◌∷◌, ltb, leb,
  if◌then◌else◌, u64, sub64, length, ℤ,
}
use cutl.Errors.{
  Result, success, insufficient_buffer, index_out_of_bounds, callback_failure, invalid_type_enum,
}
use cutl.Streams.{
  Buffer, put, get, Formatter, Custom, Formats, FormatArg, fmt_int, fmt_flt, fmt_exp, fmt_str,
  fmt_s8, fmt_custom, fmt_other, spec_or, is_success,
}

pub record StringStream : Type 0 where
  pub buffer_size : ℕ
  pub buffer_pos : ℕ
  pub buffer : Buffer

-- `header` is the size of the struct in front of the buffer, and `memory` what the buffer holds.
pub init : ℕ → ℕ → Buffer → Result × Option StringStream
init header size memory =
    let this : StringStream = record {
      buffer_size = sub64 size header;
      buffer_pos = 0;
      buffer = memory;
    } in
    if ltb size header then (insufficient_buffer, none) else (success, some this)

pub write_s8 : StringStream → List ℕ → Result × StringStream
write_s8 this str =
    let remaining_space = sub64 this.buffer_size this.buffer_pos in
    let written = record this {
      buffer = put this.buffer this.buffer_pos str;
      buffer_pos = u64 (this.buffer_pos + length str);
    } in
    if ltb remaining_space (length str) then (insufficient_buffer, this) else (success, written)

pub write_cstr : StringStream → List ℕ → Result × StringStream
write_cstr this str =
    let len = length str in
    let written = record this {
      buffer = put this.buffer this.buffer_pos str;
      buffer_pos = u64 (this.buffer_pos + len);
    } in
    if ltb (sub64 this.buffer_size this.buffer_pos) len
    then (insufficient_buffer, this)
    else (success, written)

-- The index of the output string in the buffer, and the stream.
pub get_output_string : StringStream → ℕ → Option (ℕ × StringStream)
get_output_string this required_memory =
    if leb required_memory (sub64 this.buffer_size this.buffer_pos)
    then some
        (this.buffer_pos, record this { buffer_pos = u64 (this.buffer_pos + required_memory) })
    else none

-- `this->buffer_pos -= output.length`, for an output of that length.
pub roll_back : StringStream → ℕ → StringStream
roll_back this n = record this { buffer_pos = sub64 this.buffer_pos n }

-- The shape that the functions on formatters share: the value's text into the stream.
pub write_value :
    {Value Spec : Type 0}
    → Formatter Value Spec
    → StringStream
    → Value
    → Option Spec
    → Option (Result × StringStream)
write_value f this value given =
    let spec = spec_or given f.default in
    elim (f.length_function value spec) [
      | some required_memory ↦
          if ltb this.buffer_size required_memory
          then some (insufficient_buffer, this)
          else elim (get_output_string this required_memory) [
            | some (output, moved) ↦
                elim (f.write_function value moved.buffer
                  (record { length = required_memory; data_ptr = output }) spec) [
                    | some (res, buffer) ↦
                        let filled = record moved { buffer = buffer } in
                        some
                          (res, if is_success res then filled else roll_back filled required_memory)
                    | none ↦ none
                  ]
            | none ↦ none
          ]
      | none ↦ none
    ]

pub write_custom : StringStream → Custom → Option (Result × StringStream)
write_custom this custom =
    let required_memory = custom.length in
    let (failed, bytes) = custom.write required_memory in
    if ltb this.buffer_size required_memory
    then some (insufficient_buffer, this)
    else elim (get_output_string this required_memory) [
      | some (output, moved) ↦
          let filled = record moved { buffer = put moved.buffer output bytes } in
          some (
            if failed
            then (callback_failure, roll_back filled required_memory)
            else (success, filled))
      | none ↦ none
    ]

pub get_string : StringStream → List ℕ
get_string this = get this.buffer 0 this.buffer_pos

pub clear : StringStream → StringStream
clear this = record this { buffer_pos = 0 }

pub get_pos : StringStream → ℕ
get_pos this = this.buffer_pos

pub set_pos : StringStream → ℕ → Result × StringStream
set_pos this pos =
    if ltb this.buffer_pos pos
    then (index_out_of_bounds, this)
    else (success, record this { buffer_pos = pos })

module _ (f : Formats) where
  pub write_integer : StringStream → ℤ → Option f.IntegerSpec → Option (Result × StringStream)
  write_integer this value spec = write_value f.integer this value spec

  pub write_float : StringStream → f.Double → Option f.FloatSpec → Option (Result × StringStream)
  write_float this value spec = write_value f.floating this value spec

  pub write_exponential :
      StringStream → f.Double → Option f.ExponentialSpec → Option (Result × StringStream)
  write_exponential this value spec = write_value f.exponential this value spec

  -- One round of the loop: the results of `FMT_S8` and `FMT_STR` are not looked at.
  pub format_one : StringStream → FormatArg f → Option (Result × StringStream)
  format_one this (fmt_int value spec) = write_integer this value spec
  format_one this (fmt_flt value spec) = write_float this value spec
  format_one this (fmt_exp value spec) = write_exponential this value spec
  format_one this (fmt_s8 s8) = some (success, (write_s8 this s8).1)
  format_one this (fmt_str cstr) = some (success, (write_cstr this cstr).1)
  format_one this (fmt_custom custom) = write_custom this custom
  format_one this fmt_other = some (invalid_type_enum, this)

  pub format : StringStream → List (FormatArg f) → Option (Result × StringStream)
  format this [] = some (success, this)
  format this (arg ∷ args) = elim (format_one this arg) [
    | some (res, next) ↦
        let rest = format next args in if is_success res then rest else some (res, next)
    | none ↦ none
  ]

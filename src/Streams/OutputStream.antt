-- ===== src/Streams/OutputStream.antt =====
-- src/string/output_stream.c: a stream that collects bytes in a buffer in front of a file. `fwrite` and
-- `fflush` of the C library are parameters: a file is a state, `fwrite` returns how many bytes it
-- wrote, and `fflush` its result. `none` is a failed assertion, or a loop that has not ended.
pub mod Contents
pub mod Strings
pub mod Values
mod Tests
use cutl.Base.{
  ℕ, zero, suc, ◌+◌, ◌-◌, ◌^◌, Bool, true, false, not, Option, none, some, List, [], ◌∷◌, ltb, leb,
  ◌==◌, if◌then◌else◌, u64, sub64, length, take, drop, ℤ, pos, negsuc, is_minus_one,
}
use cutl.Errors.{
  Result, success, failure, insufficient_buffer, callback_failure, invalid_type_enum,
  file_io_failure,
}
use cutl.Streams.{
  Buffer, put, get, Formatter, Custom, Formats, FormatArg, fmt_int, fmt_flt, fmt_exp, fmt_str,
  fmt_s8, fmt_custom, fmt_other, spec_or, is_success,
}

pub record FileOps (File : Type 0) : Type 0 where
  pub fwrite : File → List ℕ → ℕ × File
  pub fflush : File → ℤ × File

pub record OutputStream (File : Type 0) : Type 0 where
  pub stream : File
  pub buffer_size : ℕ
  pub buffer_pos : ℕ
  pub buffer : Buffer

pub init : {File : Type 0} → File → ℕ → ℕ → Buffer → Result × Option (OutputStream File)
init stream header size memory =
    let this : OutputStream _ = record {
      stream = stream;
      buffer_size = sub64 size header;
      buffer_pos = 0;
      buffer = memory;
    } in
    if ltb size header then (insufficient_buffer, none) else (success, some this)

-- The result of `fflush` as a result code.
pub flush_result : ℤ → Result
flush_result (pos zero) = success
flush_result (pos (suc n)) = failure
flush_result (negsuc n) = if is_minus_one (negsuc n) then file_io_failure else failure

module _ {File : Type 0} (ops : FileOps File) where
  pub flush : OutputStream File → Result × OutputStream File
  flush this =
      let (bytes_written, written) = ops.fwrite this.stream (get this.buffer 0 this.buffer_pos) in
      let (flush_res, flushed) = ops.fflush written in
      if this.buffer_pos == 0
      then (success, this)
      else if not (bytes_written == this.buffer_pos)
      then (file_io_failure, record this { stream = written })
      else (flush_result flush_res, record this { stream = flushed; buffer_pos = 0 })

  -- Copying bytes that fit behind the position.
  pub copy_in : OutputStream File → List ℕ → OutputStream File
  copy_in this bytes = record this {
    buffer = put this.buffer this.buffer_pos bytes;
    buffer_pos = u64 (this.buffer_pos + length bytes);
  }

  -- What is left after the flush: written directly when the buffer cannot hold it.
  pub write_rest : OutputStream File → List ℕ → Result × OutputStream File
  write_rest this bytes =
      let (bytes_written, written) = ops.fwrite this.stream bytes in
      if leb this.buffer_size (length bytes)
      then (
        if bytes_written == length bytes then success else file_io_failure,
        record this { stream = written },
      )
      else (success, copy_in this bytes)

  pub write_u8 : OutputStream File → List ℕ → Result × OutputStream File
  write_u8 this bytes =
      let remaining_space = sub64 this.buffer_size this.buffer_pos in
      let copied = record this {
        buffer = put this.buffer this.buffer_pos (take remaining_space bytes);
      } in
      let (res, flushed) = flush copied in
      let rest = write_rest flushed (drop remaining_space bytes) in
      if ltb remaining_space (length bytes)
      then (if is_success res then rest else (res, flushed))
      else (success, copy_in this bytes)

  pub write_s8 : OutputStream File → List ℕ → Result × OutputStream File
  write_s8 this str = write_u8 this str

  -- The endless loop, with the rounds left first.
  pub cstr_loop : ℕ → OutputStream File → List ℕ → Option (Result × OutputStream File)
  cstr_loop zero this str = none
  cstr_loop (suc rounds) this str =
      let remaining_space = sub64 this.buffer_size this.buffer_pos in
      let filled = copy_in this (take remaining_space str) in
      let (res, flushed) = flush filled in
      let rest = cstr_loop rounds flushed (drop remaining_space str) in
      if leb (length str) remaining_space
      then some (success, filled)
      else if is_success res
      then rest
      else some (res, flushed)

  pub write_cstr : OutputStream File → List ℕ → Option (Result × OutputStream File)
  write_cstr this str = cstr_loop (suc (length str)) this str

  -- The index of the output string in the buffer, when the result is a success.
  pub get_output_string : OutputStream File → ℕ → Option (Result × OutputStream File × ℕ)
  get_output_string this needed_size =
      let remaining_space = sub64 this.buffer_size this.buffer_pos in
      let (res, flushed) = flush this in
      let given : OutputStream File → Result × OutputStream File × ℕ =
        λ s. (success, record s { buffer_pos = u64 (s.buffer_pos + needed_size) }, s.buffer_pos) in
      if ltb this.buffer_size needed_size
      then none
      else if ltb remaining_space needed_size
      then some (if is_success res then given flushed else (res, flushed, 0))
      else some (given this)

  pub roll_back : OutputStream File → ℕ → OutputStream File
  roll_back this n = record this { buffer_pos = sub64 this.buffer_pos n }

  -- The shape that the functions on formatters share.
  pub write_value :
      {Value Spec : Type 0}
      → Formatter Value Spec
      → OutputStream File
      → Value
      → Option Spec
      → Option (Result × OutputStream File)
  write_value f this value given =
      let spec = spec_or given f.default in
      elim (f.length_function value spec) [
        | some required_memory ↦
            if ltb this.buffer_size required_memory
            then some (insufficient_buffer, this)
            else elim (get_output_string this required_memory) [
              | some (got, moved, output) ↦
                  if not (is_success got)
                  then some (got, moved)
                  else elim (f.write_function value moved.buffer
                      (record { length = required_memory; data_ptr = output }) spec) [
                        | some (res, buffer) ↦
                            let filled = record moved { buffer = buffer } in
                            some (
                              res,
                              if is_success res then filled else roll_back filled required_memory,
                            )
                        | none ↦ none
                      ]
              | none ↦ none
            ]
        | none ↦ none
      ]

  pub write_custom : OutputStream File → Custom → Option (Result × OutputStream File)
  write_custom this custom =
      let required_memory = custom.length in
      let (failed, bytes) = custom.write required_memory in
      if ltb this.buffer_size required_memory
      then some (insufficient_buffer, this)
      else elim (get_output_string this required_memory) [
        | some (got, moved, output) ↦
            let filled = record moved { buffer = put moved.buffer output bytes } in
            some (
              if not (is_success got)
              then (got, moved)
              else if failed
              then (callback_failure, roll_back filled required_memory)
              else (success, filled))
        | none ↦ none
      ]

  -- What the loop does with a call whose result it does not look at.
  pub ignored : Option (Result × OutputStream File) → Option (Result × OutputStream File)
  ignored (some (res, next)) = some (success, next)
  ignored none = none

  module _ (f : Formats) where
    pub write_integer :
        OutputStream File → ℤ → Option f.IntegerSpec → Option (Result × OutputStream File)
    write_integer this value spec = write_value f.integer this value spec

    pub write_float :
        OutputStream File → f.Double → Option f.FloatSpec → Option (Result × OutputStream File)
    write_float this value spec = write_value f.floating this value spec

    pub write_exponential :
        OutputStream File
        → f.Double
        → Option f.ExponentialSpec
        → Option (Result × OutputStream File)
    write_exponential this value spec = write_value f.exponential this value spec

    pub format_one : OutputStream File → FormatArg f → Option (Result × OutputStream File)
    format_one this (fmt_int value spec) = write_integer this value spec
    format_one this (fmt_flt value spec) = write_float this value spec
    format_one this (fmt_exp value spec) = write_exponential this value spec
    format_one this (fmt_s8 s8) = ignored (some (write_s8 this s8))
    format_one this (fmt_str cstr) = ignored (write_cstr this cstr)
    format_one this (fmt_custom custom) = write_custom this custom
    format_one this fmt_other = some (invalid_type_enum, this)

    pub format : OutputStream File → List (FormatArg f) → Option (Result × OutputStream File)
    format this [] = some (success, this)
    format this (arg ∷ args) = elim (format_one this arg) [
      | some (res, next) ↦
          let rest = format next args in if is_success res then rest else some (res, next)
      | none ↦ none
    ]

-- ===== src/Streams.antt =====
-- include/cutl/streams: what the two streams share. A buffer is a function of its indices, and a string
-- the list of its bytes. The functions of src/string/format.c that the streams call are an interface,
-- which the module Integers fills for integers.
pub mod Buffers
pub mod Integers
pub mod StringStream
pub mod OutputStream
use cutl.Base.{
  ℕ, zero, suc, ◌+◌, Bool, true, false, Option, none, some, List, [], ◌∷◌, ◌==◌, if◌then◌else◌, ℤ,
}
use cutl.Errors.{Result, success}
use cutl.Strings.{String8}

abbrev pub Buffer : Type 0
Buffer = ℕ → ℕ

-- `memcpy` of bytes into a buffer.
unfoldable pub put : Buffer → ℕ → List ℕ → Buffer
put buffer i [] = buffer
put buffer i (b ∷ bs) = put (λ j. if j == i then b else buffer j) (i + 1) bs

-- The bytes of a buffer from an index on.
unfoldable pub get : Buffer → ℕ → ℕ → List ℕ
get buffer i zero = []
get buffer i (suc n) = buffer i ∷ get buffer (i + 1) n

-- The functions of `format.c` for one type of values: the length of the output, and writing into an
-- output that is a view of a buffer. `none` is a failed assertion.
pub record Formatter (Value Spec : Type 0) : Type 0 where
  pub default : Spec
  pub length_function : Value → Spec → Option ℕ
  pub write_function : Value → Buffer → String8 → Spec → Option (Result × Buffer)

-- `format_length_function` and `format_write_function` at their parameter: a length, and for a length
-- whether the write failed, and what it wrote.
pub record Custom : Type 0 where
  pub length : ℕ
  pub write : ℕ → Bool × List ℕ

pub record Formats : Type 1 where
  pub Double : Type 0
  pub IntegerSpec : Type 0
  pub FloatSpec : Type 0
  pub ExponentialSpec : Type 0
  pub integer : Formatter ℤ IntegerSpec
  pub floating : Formatter Double FloatSpec
  pub exponential : Formatter Double ExponentialSpec

-- `fmt_arg_t`, with `FMT_END` the end of the list; `fmt_other` is a value outside the enumeration.
pub data FormatArg (f : Formats) : Type 0 where
  fmt_int : ℤ → Option f.IntegerSpec → FormatArg f
  fmt_flt : f.Double → Option f.FloatSpec → FormatArg f
  fmt_exp : f.Double → Option f.ExponentialSpec → FormatArg f
  fmt_str : List ℕ → FormatArg f
  fmt_s8 : List ℕ → FormatArg f
  fmt_custom : Custom → FormatArg f
  fmt_other : FormatArg f

-- `if (!spec) spec = &DEFAULT...`
pub spec_or : {Spec : Type 0} → Option Spec → Spec → Spec
spec_or none default = default
spec_or (some spec) default = spec

pub is_success : Result → Bool
is_success success = true
is_success other = false

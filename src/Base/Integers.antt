-- ===== src/Base/Integers.antt =====
-- Signed values: the library's integers over the native numbers, and the C conversions.
use Prim.Native.Nat.{ℕ, zero, ◌-◌, ◌^◌, ◌%◌, ◌<◌}
use mathlib.Core.Path.{◌≡◌}
use mathlib.Core.Bool.{Bool, true, false}
use native.Mathlib.Omega.{arith}
use cutl.Base.Tests.{ltb, if◌then◌else◌, lt→ltb}

pub data ℤ : Type 0 where
  pos : ℕ → ℤ
  negsuc : ℕ → ℤ

abbrev pub minus_one : ℤ
minus_one = negsuc 0

-- `(int32_t)x`
abbrev pub i32 : ℕ → ℤ
i32 x = if ltb (x % 2 ^ 32) (2 ^ 31) then pos (x % 2 ^ 32) else negsuc (2 ^ 32 - 1 - x % 2 ^ 32)

-- `(size_t)x`, for the values of an `int32_t`
abbrev pub size_of_int : ℤ → ℕ
size_of_int (pos n) = n
size_of_int (negsuc n) = 2 ^ 64 - 1 - n

abbrev pub is_minus_one : ℤ → Bool
is_minus_one (negsuc zero) = true
is_minus_one _ = false

pub i32_small : (x : ℕ) → x < 2 ^ 31 → i32 x ≡ pos x
i32_small x h = let e : x % 2 ^ 32 ≡ x = omega arith in rw (e, lt→ltb x (2 ^ 31) h)

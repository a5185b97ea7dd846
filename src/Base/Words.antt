-- ===== src/Base/Words.antt =====
-- Machine words: a value is a plain number, and a C operation reduces it by its width.
use Prim.Native.Nat.{ℕ, ◌+◌, ◌*◌, ◌/◌, ◌-◌, ◌%◌, ◌^◌, ◌<◌}
use mathlib.Core.Path.{◌≡◌, sym, ap, ◌∙◌}
use native.Mathlib.Nat.{add-mul-mod_self_left}
use native.Mathlib.Omega.{arith}

-- `uint8_t`
abbrev pub u8 : ℕ → ℕ
u8 x = x % 2 ^ 8

-- `unsigned`
abbrev pub u32 : ℕ → ℕ
u32 x = x % 2 ^ 32

-- `size_t`, `uintptr_t` and `uintmax_t`
abbrev pub u64 : ℕ → ℕ
u64 x = x % 2 ^ 64

-- `a - b` in `size_t`, for `b` below 2^64
abbrev pub sub64 : ℕ → ℕ → ℕ
sub64 a b = (a + 2 ^ 64 - b) % 2 ^ 64

pub u64_small : (x : ℕ) → x < 2 ^ 64 → u64 x ≡ x
u64_small x h = omega arith

pub u64-add_left : (a b : ℕ) → u64 (u64 a + b) ≡ u64 (a + b)
u64-add_left a b = omega arith

pub u64-mul_left : (a b : ℕ) → u64 (u64 a * b) ≡ u64 (a * b)
u64-mul_left a b =
    let split : a ≡ u64 a + 2 ^ 64 * (a / 2 ^ 64) = omega arith in
    let e : a * b ≡ u64 a * b + 2 ^ 64 * (a / 2 ^ 64 * b) =
      ap (λ (t : ℕ). t * b) split ∙ omega arith in
    sym (add-mul-mod_self_left (u64 a * b) (2 ^ 64) (a / 2 ^ 64 * b))
    ∙ ap (λ (t : ℕ). u64 t) (sym e)

-- ===== src/Base/Division.antt =====
-- Carries: what a sum `f * d + x` makes of the digits `f + x / d` and `x % d`.
use Prim.Native.Nat.{ℕ, ◌+◌, ◌-◌, ◌*◌, ◌/◌, ◌%◌, ◌≤◌, ◌<◌}
use mathlib.Core.Path.{◌≡◌, ap}
use mathlib.Core.Logic.{inl, inr}
use native.Mathlib.Nat.{div-add-mod, mod-lt, mul-le-mul_right}
use native.Mathlib.Omega.{arith}
use cutl.Base.Tests.{lt-or-le}

pub carry_split : (f d x : ℕ) → (f + x / d) * d + x % d ≡ f * d + x
carry_split f d x = omega (arith, div-add-mod x d)

pub carry_lt : (f d x v : ℕ) → f * d + x < v * d → f + x / d < v
carry_lt f d x v h = elim (lt-or-le (f + x / d) v) [
  | inl lt ↦ lt
  | inr le ↦
      let grown : v * d ≤ (f + x / d) * d = mul-le-mul_right d le in
      absurd (omega (arith, carry_split f d x))
]

pub carry_le : (f d x v : ℕ) → 0 < d → v * d ≤ f * d + x → v ≤ f + x / d
carry_le f d x v pos h = elim (lt-or-le (f + x / d) v) [
  | inl lt ↦
      let grown : (f + x / d + 1) * d ≤ v * d = mul-le-mul_right d (omega arith) in
      absurd (omega (arith, carry_split f d x, mod-lt x {m = d} pos))
  | inr le ↦ le
]

pub carry_shrinks : (f d x : ℕ) → 0 < d → f + x / d ≤ f * d + x
carry_shrinks f d x pos =
    let grown : (f + x / d) * 1 ≤ (f + x / d) * d = grind arith in omega (arith, carry_split f d x)

pub carry_big : (f d x v : ℕ) → v * d ≤ f * d + x → f < v → d ≤ x
carry_big f d x v h lt = let grown : (f + 1) * d ≤ v * d = grind arith in omega arith

pub lt_of_mul_lt : (a b d : ℕ) → a * d < b * d → a < b
lt_of_mul_lt a b d h = elim (lt-or-le a b) [
  | inl lt ↦ lt
  | inr le ↦ let grown : b * d ≤ a * d = mul-le-mul_right d le in absurd (omega arith)
]

pub sub_mul : (f q d : ℕ) → q ≤ f → (f - q) * d + q * d ≡ f * d
sub_mul f q d h =
    let e : f - q + q ≡ f = omega arith in
    let grown : (f - q + q) * d ≡ f * d = ap (λ (t : ℕ). t * d) e in omega arith

pub digits_unique : (f o g p d : ℕ) → o < d → p < d → f * d + o ≡ g * d + p → (f ≡ g) × (o ≡ p)
digits_unique f o g p d low low' e =
    let a : f < g + 1 = lt_of_mul_lt f (g + 1) d (omega arith) in
    let b : g < f + 1 = lt_of_mul_lt g (f + 1) d (omega arith) in
    let same : f ≡ g = omega arith in
    let rows : f * d ≡ g * d = ap (λ (t : ℕ). t * d) same in (same, omega arith)

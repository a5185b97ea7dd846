-- ===== src/Combination/Binomial.antt =====
-- Binomial coefficients by Pascal's rule, and the falling factorials that the code computes.
use cutl.Base.{
  ℕ, zero, suc, ◌+◌, ◌-◌, ◌*◌, ◌≤◌, ◌<◌, ◌≡◌, refl, ap, ◌∙◌, arith, lt-or-le, eq-or-ne, inl, inr,
}

abbrev pub binom : ℕ → ℕ → ℕ
binom n zero = 1
binom zero (suc r) = 0
binom (suc n) (suc r) = binom n r + binom n (suc r)

abbrev pub fact : ℕ → ℕ
fact zero = 1
fact (suc n) = suc n * fact n

-- n (n - 1) … (n - r + 1)
abbrev pub falling : ℕ → ℕ → ℕ
falling n zero = 1
falling zero (suc r) = 0
falling (suc n) (suc r) = suc n * falling n r

pub binom_above : (n r : ℕ) → n < r → binom n r ≡ 0
binom_above zero zero h = absurd (omega arith)
binom_above zero (suc r) h = refl
binom_above (suc n) zero h = absurd (omega arith)
binom_above (suc n) (suc r) h =
    omega (arith, binom_above n r (omega arith), binom_above n (suc r) (omega arith))

pub binom_self : (n : ℕ) → binom n n ≡ 1
binom_self zero = refl
binom_self (suc n) = omega (arith, binom_self n, binom_above n (suc n) (omega arith))

pub binom_one : (n : ℕ) → binom n 1 ≡ n
binom_one zero = refl
binom_one (suc n) = omega (arith, binom_one n)

pub binom_pos : (n r : ℕ) → r ≤ n → 0 < binom n r
binom_pos n zero h = omega arith
binom_pos zero (suc r) h = absurd (omega arith)
binom_pos (suc n) (suc r) h = omega (arith, binom_pos n r (omega arith))

-- Pascal's rule, where the code writes `n - 1`.
pub binom_pascal : (n r : ℕ) → 0 < n → binom n (suc r) ≡ binom (n - 1) r + binom (n - 1) (suc r)
binom_pascal zero r h = absurd (omega arith)
binom_pascal (suc n) r h = let e : suc n - 1 ≡ n = omega arith in rw e refl

falling_above : (n r : ℕ) → n < r → falling n r ≡ 0
falling_above zero zero h = absurd (omega arith)
falling_above zero (suc r) h = refl
falling_above (suc n) zero h = absurd (omega arith)
falling_above (suc n) (suc r) h = grind (arith, falling_above n r (omega arith))

pub falling_pos : (n r : ℕ) → r ≤ n → 0 < falling n r
falling_pos n zero h = omega arith
falling_pos zero (suc r) h = absurd (omega arith)
falling_pos (suc n) (suc r) h = grind (arith, falling_pos n r (omega arith))

falling_last : (n r : ℕ) → r ≤ n → falling n (suc r) ≡ falling n r * (n - r)
falling_last zero zero h = refl
falling_last zero (suc r) h = absurd (omega arith)
falling_last (suc n) zero h = omega arith
falling_last (suc n) (suc r) h =
    let e : suc n - suc r ≡ n - r = omega arith in
    rw e (omega (arith, ap (λ (t : ℕ). suc n * t) (falling_last n r (omega arith))))

-- The falling factorial counts every combination once for each order of its elements.
pub falling-eq-binom : (n r : ℕ) → falling n r ≡ binom n r * fact r
falling-eq-binom n zero = omega arith
falling-eq-binom zero (suc r) = omega arith
falling-eq-binom (suc n) (suc r) = elim (lt-or-le n r) [
  | inl above ↦ omega (
    arith,
    ap (λ (t : ℕ). suc n * t) (falling_above n r above),
    ap (λ (t : ℕ). t * (suc r * fact r)) (binom_above (suc n) (suc r) (omega arith)),
  )
  | inr inside ↦ falling_split n r inside (falling-eq-binom n r) (falling-eq-binom n (suc r))
]
  where
    falling_split :
        (n r : ℕ)
        → r ≤ n
        → falling n r ≡ binom n r * fact r
        → falling n (suc r) ≡ binom n (suc r) * fact (suc r)
        → falling (suc n) (suc r) ≡ binom (suc n) (suc r) * fact (suc r)
    falling_split n r h low high =
        let e : suc n ≡ suc r + (n - r) = omega arith in
        let split : suc n * falling n r ≡ suc r * falling n r + (n - r) * falling n r =
          ap (λ (t : ℕ). t * falling n r) e ∙ omega arith in
        omega (arith, falling_last n r h, split, low, high, ap (λ (t : ℕ). suc r * t) low)

falling-le-suc_left : (n r : ℕ) → falling n r ≤ falling (suc n) r
falling-le-suc_left n zero = omega arith
falling-le-suc_left zero (suc r) = omega arith
falling-le-suc_left (suc n) (suc r) = grind (arith, falling-le-suc_left n r)

pub falling_mono : (a b r : ℕ) → a ≤ b → falling a r ≤ falling b r
falling_mono a zero r h = let e : a ≡ 0 = omega arith in rw e (omega arith)
falling_mono a (suc b) r h = elim (eq-or-ne a (suc b)) [
  | inl e ↦ rw e (omega arith)
  | inr ne ↦ omega (arith, falling_mono a b r (omega arith), falling-le-suc_left b r)
]

pub falling-le-suc : (n r : ℕ) → falling n r ≤ falling (suc n) (suc r)
falling-le-suc n r = grind arith

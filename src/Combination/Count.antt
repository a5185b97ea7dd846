-- ===== src/Combination/Count.antt =====
-- `calculate_combination_count` against the binomial coefficients.
use native.Mathlib.Nat.{mul-div_cancel}
use cutl.Base.{
  ℕ, zero, suc, ◌+◌, ◌*◌, ◌^◌, ◌≤◌, ◌<◌, ◌≡◌, refl, sym, ◌∙◌, arith, inl, inr, eq-or-ne, u64_small,
  lt→ltb, le→ltb, eq→==, ne→==,
}
use cutl.Combination.{product_loop, quotient_loop, calculate_combination_count, total_count}
use cutl.Combination.Binomial.{
  binom, fact, falling, binom_self, binom_one, falling_pos, falling-eq-binom,
}

-- The loop multiplies by the `m` numbers from `i` down.
product_loop-eq-falling :
    (i n r m count : ℕ)
    → r ≤ n
    → i + r ≡ n + m
    → count * falling i m < 2 ^ 64
    → product_loop i n r count ≡ count * falling i m
unfolding product_loop
product_loop-eq-falling zero n r zero count h e fits = rw (le→ltb n r h) (omega arith)
product_loop-eq-falling zero n r (suc m) count h e fits = absurd (omega arith)
product_loop-eq-falling (suc i) n r zero count h e fits =
    rw (le→ltb n (suc i + r) (omega arith)) (omega arith)
product_loop-eq-falling (suc i) n r (suc m) count h e fits =
    let assoc : count * falling (suc i) (suc m) ≡ count * suc i * falling i m = omega arith in
    let pos : 0 < falling i m = falling_pos i m (omega arith) in
    let small : count * suc i < 2 ^ 64 = grind arith in
    rw (lt→ltb n (suc i + r) (omega arith), u64_small _ small)
      (product_loop-eq-falling i n r m (count * suc i) h (omega arith) (omega arith) ∙ sym assoc)

quotient_loop-fact : (r b : ℕ) → quotient_loop r (b * fact r) ≡ b
unfolding quotient_loop
quotient_loop-fact zero b = omega arith
quotient_loop-fact (suc zero) b = omega arith
quotient_loop-fact (suc (suc r)) b =
    let e : b * fact (suc (suc r)) ≡ b * fact (suc r) * suc (suc r) = omega arith in
    rw (e, mul-div_cancel (b * fact (suc r)) {n = suc (suc r)} (omega arith))
      (quotient_loop-fact (suc r) b)

-- If the product of `r` factors fits 64 bits, the count is the binomial coefficient: no product
-- wraps and every division is exact.
pub calculate_combination_count-eq-binom :
    (n r : ℕ) → r ≤ n → falling n r < 2 ^ 64 → calculate_combination_count n r ≡ binom n r
unfolding calculate_combination_count
calculate_combination_count-eq-binom n zero h fits = ground arith
calculate_combination_count-eq-binom n (suc zero) h fits = elim (eq-or-ne n 1) [
  | inl e ↦ rw (eq→== n 1 e) (rw e refl)
  | inr ne ↦ rw (ne→== n 1 ne) (sym (binom_one n))
]
calculate_combination_count-eq-binom n (suc (suc r)) h fits = elim (eq-or-ne n (suc (suc r))) [
  | inl e ↦ rw (eq→== n _ e) (rw e (sym (binom_self (suc (suc r)))))
  | inr ne ↦
      rw (ne→== n _ ne, ne→== (suc (suc r)) 0 (omega arith), ne→== (suc (suc r)) 1 (omega arith))
        general
]
  where
    product : product_loop n n (suc (suc r)) 1 ≡ binom n (suc (suc r)) * fact (suc (suc r))
    product =
        product_loop-eq-falling n n (suc (suc r)) (suc (suc r)) 1 h refl (omega arith)
        ∙ omega (arith, falling-eq-binom n (suc (suc r)))

    general : quotient_loop (suc (suc r)) (product_loop n n (suc (suc r)) 1) ≡ binom n (suc (suc r))
    general = rw product (quotient_loop-fact (suc (suc r)) (binom n (suc (suc r))))

-- For `r` up to `n`, if the product of `r` factors fits 64 bits and the binomial coefficient fits
-- 32, the total count is the binomial coefficient: no product wraps and every division is exact.
pub total_count-eq-binom :
    (n r : ℕ) → r ≤ n → falling n r < 2 ^ 64 → binom n r < 2 ^ 32 → total_count n r ≡ binom n r
unfolding total_count
total_count-eq-binom n r h fits small =
    rw (calculate_combination_count-eq-binom n r h fits) (omega arith)

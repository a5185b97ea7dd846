-- ===== src/Permutation/Count.antt =====
-- The total count against the number of arrangements, n (n - 1) … (n - r + 1).
use native.Mathlib.Nat.{mul-le-mul_left}
use cutl.Base.{
  ℕ, zero, suc, ◌+◌, ◌-◌, ◌*◌, ◌^◌, ◌≤◌, ◌<◌, ◌≡◌, refl, ap, arith, inl, inr, lt-or-le, u64_small,
  lt→ltb, le→ltb, ne→==,
}
use cutl.Permutation.{product_loop, calculate_permutation_count, total_count}
use cutl.Permutation.Cycles.{arrangements}

arrangements_mono : (n k m : ℕ) → k + m ≤ n → arrangements n k ≤ arrangements n (k + m)
arrangements_mono n k zero h = let e : k + 0 ≡ k = omega arith in rw e (omega arith)
arrangements_mono n k (suc m) h =
    let e : k + suc m ≡ suc (k + m) = omega arith in
    let ih = arrangements_mono n k m (omega arith) in
    let step : 1 ≤ n - (k + m) = omega arith in
    rw e (omega (arith, mul-le-mul_left (arrangements n (k + m)) step))

product_loop-eq-arrangements :
    (i k n r : ℕ)
    → i + k ≡ n
    → k ≤ r
    → r ≤ n
    → arrangements n r < 2 ^ 64
    → product_loop i n r (arrangements n k) ≡ arrangements n r
unfolding product_loop
product_loop-eq-arrangements zero k n r h b inside fits =
    rw (le→ltb n r inside) (ap (arrangements n) (omega arith))
product_loop-eq-arrangements (suc i) k n r h b inside fits = elim (lt-or-le k r) [
  | inr all ↦ rw (le→ltb n (suc i + r) (omega arith)) (ap (arrangements n) (omega arith))
  | inl more ↦
      let factor : suc i ≡ n - k = omega arith in
      let upto : suc k + (r - suc k) ≡ r = omega arith in
      let below = arrangements_mono n (suc k) (r - suc k) (omega arith) in
      let whole = ap (arrangements n) upto in
      let next : arrangements n k * suc i ≡ arrangements n (suc k) =
        ap (λ t. arrangements n k * t) factor in
      rw
        (
          lt→ltb n (suc i + r) (omega arith),
          u64_small (arrangements n k * suc i) (omega arith),
          next,
        )
        (product_loop-eq-arrangements i (suc k) n r (omega arith) more inside fits)
]

-- For r up to n, if the number of arrangements n (n - 1) … (n - r + 1) fits 32 bits, the total count is this number.
pub total_count-eq-arrangements :
    (n r : ℕ) → r ≤ n → arrangements n r < 2 ^ 32 → total_count n r ≡ arrangements n r
unfolding total_count calculate_permutation_count
total_count-eq-arrangements n zero h fits = refl
total_count-eq-arrangements n (suc zero) h fits =
    let one : arrangements n 1 ≡ n = omega arith in rw one (omega arith)
total_count-eq-arrangements n (suc (suc r)) h fits =
    rw
      (
        ne→== (suc (suc r)) 0 (omega arith),
        ne→== (suc (suc r)) 1 (omega arith),
        product_loop-eq-arrangements n 0 n (suc (suc r)) (omega arith) (omega arith) h
            (omega arith),
      )
      (omega arith)

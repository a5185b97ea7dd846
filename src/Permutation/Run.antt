-- ===== src/Permutation/Run.antt =====
-- Runs of the iterator: `init`, then calls of `next` up to the end.
use native.Mathlib.Nat.{mul-le-mul_right}
use cutl.Base.{
  ℕ, zero, suc, ◌+◌, ◌-◌, ◌*◌, ◌^◌, ◌≤◌, ◌<◌, ◌≡◌, inl, inr, refl, sym, ◌∙◌, ap, arith, some, List,
  length, get_or, lt-or-le, eq→==, ne→==, ◌==◌, subst,
}
use cutl.Permutation.{PermutationIterator, reset, init, next_loop, next, is_done}
use cutl.Permutation.Cycles.{cycle, steps, arrangements, IsValid}
use cutl.Permutation.Steps.{next_loop_lem}
use cutl.Permutation.Start.{iterator_at, Started, steps-Started, reset-Started, init-inside}

-- The iterator after `k` calls of `next`.
pub iterate : ℕ → PermutationIterator → PermutationIterator
iterate zero it = it
iterate (suc k) it = next (iterate k it)

abbrev pub run : ℕ → ℕ → ℕ → List ℕ → List ℕ
run n r zero cells = cells
run n r (suc k) cells = next_loop r n r (run n r k cells)

pub iterate-eq-run :
    (n r k : ℕ) (cells : List ℕ)
    → iterate k (iterator_at n r cells) ≡ iterator_at n r (run n r k cells)
unfolding iterate next
iterate-eq-run n r zero cells = refl
iterate-eq-run n r (suc k) cells = ap next (iterate-eq-run n r k cells)

Started-IsValid : (n r : ℕ) (cells : List ℕ) → r ≤ n → Started n r cells → IsValid n r cells
Started-IsValid n r cells inside s = record {
  size = s.size;
  positive = λ i u. let c = s.cycles i u in omega arith;
  bounded = λ i u. let c = s.cycles i u in omega arith;
}

digit_room : (s a d c : ℕ) → s < a → 0 < c → c ≤ d → s * d + (d - c) < a * d
digit_room s a d c h pos bound = omega (arith, mul-le-mul_right d h)

steps-lt-arrangements :
    (n r k : ℕ) (cells : List ℕ) → k ≤ r → IsValid n r cells → steps n cells k < arrangements n k
steps-lt-arrangements n r zero cells b v = omega arith
steps-lt-arrangements n r (suc k) cells b v =
    digit_room (steps n cells k) (arrangements n k) (n - k) (cycle n cells k)
      (steps-lt-arrangements n r k cells (omega arith) v) (v.positive k (omega arith))
      (v.bounded k (omega arith))

module _ (n r : ℕ) (cells : List ℕ) where
  pub run-steps :
      (k : ℕ)
      → 0 < r
      → r ≤ n
      → n < 2 ^ 8
      → Started n r cells
      → k < arrangements n r
      → IsValid n r (run n r k cells) × (steps n (run n r k cells) r ≡ k)
  run-steps zero some_left inside small s h =
      (Started-IsValid n r cells inside s, steps-Started n r r cells (omega arith) s)
  run-steps (suc k) some_left inside small s h =
      let (v, e) = run-steps k some_left inside small s (omega arith) in
      elim (next_loop_lem n r inside small r (run n r k cells) some_left (omega arith) v) [
        | inl t ↦ let c = t.count in (t.valid, omega arith)
        | inr (done, full) ↦ absurd (omega arith)
      ]

  run_end :
      (k : ℕ)
      → 0 < r
      → r ≤ n
      → n < 2 ^ 8
      → Started n r cells
      → suc k ≡ arrangements n r
      → get_or (run n r (suc k) cells) n 0 ≡ 0
  run_end k some_left inside small s h =
      let (v, e) = run-steps k some_left inside small s (omega arith) in
      elim (next_loop_lem n r inside small r (run n r k cells) some_left (omega arith) v) [
        | inl t ↦
            let c = t.count in
            let below = steps-lt-arrangements n r r (run n r (suc k) cells) (omega arith) t.valid in
            absurd (omega arith)
        | inr (done, full) ↦ done
      ]

  is_done-run :
      (k : ℕ)
      → 0 < r
      → r ≤ n
      → n < 2 ^ 8
      → Started n r cells
      → k ≤ arrangements n r
      → is_done (iterator_at n r (run n r k cells)) ≡ (k == arrangements n r)
  unfolding is_done
  is_done-run k some_left inside small s h = elim (lt-or-le k (arrangements n r)) [
    | inl less ↦
        let (v, _) = run-steps k some_left inside small s less in
        let first : n + 0 ≡ n = omega arith in
        let running : 0 < get_or (run n r k cells) n 0 =
          subst (λ a. 0 < get_or (run n r k cells) a 0) first (v.positive 0 some_left) in
        ne→== (get_or (run n r k cells) n 0) 0 (omega arith)
        ∙ sym (ne→== k (arrangements n r) (omega arith))
    | inr all ↦
        let last : ℕ = k - 1 in
        let positive =
          steps-lt-arrangements n r r cells (omega arith) (Started-IsValid n r cells inside s) in
        let e : k ≡ suc last = omega arith in
        let done = run_end last some_left inside small s (omega arith) in
        eq→== (get_or (run n r k cells) n 0) 0 (ap (λ m. get_or (run n r m cells) n 0) e ∙ done)
        ∙ sym (eq→== k (arrangements n r) (omega arith))
  ]

-- For `r` from 1 on and `n` below 256, started in an array of the size that the iterator asks for,
-- and for a number of calls of `next` up to the number of arrangements of `r` out of `n` elements:
-- the iterator is done exactly when that number is reached.
pub is_done-iterate-arrangements :
    (memory : List ℕ) (n r k : ℕ) {it : PermutationIterator}
    → 0 < r
    → n < 2 ^ 8
    → length memory ≡ n + r + r
    → init memory n r ≡ some it
    → k ≤ arrangements n r
    → is_done (iterate k it) ≡ (k == arrangements n r)
is_done-iterate-arrangements memory n r k {it} some_left small size e h =
    let (inside, started) = init-inside memory n r e in
    let cells = (reset (iterator_at n r memory)).cells in
    ap (λ t. is_done (iterate k t)) started
    ∙ ap is_done (iterate-eq-run n r k cells)
    ∙ is_done-run n r cells k some_left inside small (reset-Started n r memory inside small size) h

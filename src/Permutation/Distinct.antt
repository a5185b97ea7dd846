-- ===== src/Permutation/Distinct.antt =====
-- The values that the caller reads in the course of a run.
use cutl.Base.{
  ℕ, zero, suc, ◌+◌, ◌^◌, ◌≤◌, ◌<◌, ◌≡◌, ◌≢◌, inl, inr, sym, ◌∙◌, ap, arith, some, List, length,
  get_or, subst, ◌⊎◌, eq-or-ne,
}
use cutl.Permutation.{PermutationIterator, init, current_at, reset}
use cutl.Permutation.Cycles.{arrangements}
use cutl.Permutation.Rearranged.{}
use cutl.Permutation.Values.{Shown, next_loop-Shown}
use cutl.Permutation.Start.{iterator_at, Started, reset-Started, init-inside}
use cutl.Permutation.Run.{iterate, run, iterate-eq-run, run-steps}

-- The indices are the numbers below `n` in some order, and the values are the first of them.
record Arranged (n r : ℕ) (cells : List ℕ) : Type 0 where
  inside : (i : ℕ) → i < n → get_or cells i 0 < n
  apart : (i j : ℕ) → i < n → j < n → get_or cells i 0 ≡ get_or cells j 0 → i ≡ j
  values : (i : ℕ) → i < r → get_or cells (n + r + i) 0 ≡ get_or cells i 0

Arranged-Started : (n r : ℕ) (cells : List ℕ) → r ≤ n → Started n r cells → Arranged n r cells
Arranged-Started n r cells b s = record {
  inside = λ i u. let e = s.indices i u in omega arith;
  apart = λ i j u v e. sym (s.indices i u) ∙ e ∙ s.indices j v;
  values = λ i u. s.values i u ∙ sym (s.indices i (omega arith));
}

Arranged-Shown :
    (n r : ℕ) (cells out : List ℕ) → Arranged n r cells → Shown n r cells out → Arranged n r out
Arranged-Shown n r cells out a s =
    let p = s.rearranged in
    record {
      inside = λ i u. rw (p.moved i u) (a.inside (p.place i) (p.inside i u));
      apart = λ i j u v e. p.apart i j u v (
          a.apart (p.place i) (p.place j) (p.inside i u) (p.inside j v)
            (sym (p.moved i u) ∙ e ∙ p.moved j v));
      values = s.values;
    }

run-Arranged :
    (n r k : ℕ) (cells : List ℕ)
    → 0 < r
    → r ≤ n
    → n < 2 ^ 8
    → Started n r cells
    → k < arrangements n r
    → Arranged n r (run n r k cells)
run-Arranged n r zero cells some_left b small s h = Arranged-Started n r cells b s
run-Arranged n r (suc k) cells some_left b small s h =
    let (v, _) = run-steps n r cells k some_left b small s (omega arith) in
    let (v', _) = run-steps n r cells (suc k) some_left b small s h in
    let before = run-Arranged n r k cells some_left b small s (omega arith) in
    let first : n + 0 ≡ n = omega arith in
    let running : 0 < get_or (run n r (suc k) cells) n 0 =
      subst (λ a. 0 < get_or (run n r (suc k) cells) a 0) first (v'.positive 0 some_left) in
    elim (next_loop-Shown n r b small r (run n r k cells) some_left (omega arith) v before.values) [
      | inl done ↦ absurd (omega arith)
      | inr shown ↦ Arranged-Shown n r (run n r k cells) (run n r (suc k) cells) before shown
    ]

-- For `r` from 1 on and `n` below 256, started in an array of the size that the iterator asks for,
-- after fewer calls of `next` than there are arrangements of `r` out of `n` elements: each of the
-- `r` values is below `n`, and two values at different places differ, if there are two.
pub current_at-iterate :
    (memory : List ℕ) (n r k i j : ℕ) {it : PermutationIterator}
    → n < 2 ^ 8
    → length memory ≡ n + r + r
    → init memory n r ≡ some it
    → k < arrangements n r
    → i < r
    → j < r
    → (current_at (iterate k it) i < n)
      × ((i ≡ j) ⊎ (current_at (iterate k it) i ≢ current_at (iterate k it) j))
unfolding current_at
current_at-iterate memory n r k i j {it} small size e h u v =
    let (b, started) = init-inside memory n r e in
    let cells = (reset (iterator_at n r memory)).cells in
    let state : iterate k it ≡ iterator_at n r (run n r k cells) =
      ap (iterate k) started ∙ iterate-eq-run n r k cells in
    let a =
      run-Arranged n r k cells (omega arith) b small (reset-Started n r memory b small size) h in
    let at_i = a.values i u in
    let at_j = a.values j v in
    let below = a.inside i (omega arith) in
    rw state (
      omega arith,
      elim (eq-or-ne i j) [
        | inl e ↦ inl e
        | inr ne ↦
            inr (λ same. ne (a.apart i j (omega arith) (omega arith) (sym at_i ∙ same ∙ at_j)))
      ],
    )

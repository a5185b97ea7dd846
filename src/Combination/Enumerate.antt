-- ===== src/Combination/Enumerate.antt =====
-- From its start the iterator shows all combinations in lexicographic order, and is done after the
-- last one.
use cutl.Base.{
  ℕ, zero, suc, ◌+◌, ◌-◌, ◌^◌, ◌≤◌, ◌<◌, ◌≡◌, refl, sym, ◌∙◌, ap, ap₂, arith, List, [], ◌∷◌, true,
  false, some, inl, inr, length, get_or, set, get_elem?, reverse_onto, set-reverse_onto, u8, eq→==,
  ne→==, Bool-cases,
}
use cutl.Combination.{CombinationIterator, reset_loop, reset, init, is_done, next}
use cutl.Combination.Binomial.{binom, binom_pos}
use cutl.Combination.Rank.{combinations, IsFrom, rank, rank-lt, get_elem?-rank}
use cutl.Combination.Step.{
  run, advance, length-run, length-advance, rank-advance, rank-advance_last, get_or-advance_last,
  get_or-IsFrom_last, run-IsFrom, rank-run,
}
use cutl.Combination.Next.{next_loop_lem}

-- The iterator after `k` calls of `next`.
pub iterate : ℕ → CombinationIterator → CombinationIterator
iterate zero it = it
iterate (suc k) it = next (iterate k it)

abbrev iterator_at : ℕ → ℕ → List ℕ → CombinationIterator
iterator_at n r cs = record { n = n; r = r; counters = cs }

reset_loop-eq-run :
    (t q : List ℕ)
    → length q + length t ≤ 2 ^ 8
    → reset_loop (length t) (length q) (reverse_onto q t)
      ≡ reverse_onto q (run (length q) (length t))
unfolding reset_loop
reset_loop-eq-run [] q h = refl
reset_loop-eq-run (z ∷ t) q h =
    let e : length q ≡ length q + 0 = omega arith in
    let e' : length q + 1 ≡ suc (length q) = omega arith in
    let small : u8 (length q) ≡ length q = omega arith in
    let written : set (reverse_onto q (z ∷ t)) (length q) (u8 (length q))
        ≡ reverse_onto (length q ∷ q) t =
      rw small (
        ap (λ i. set (reverse_onto q (z ∷ t)) i (length q)) e
        ∙ set-reverse_onto q (z ∷ t) 0 (length q)) in
    ap₂ (λ j c. reset_loop (length t) j c) e' written
    ∙ reset_loop-eq-run t (length q ∷ q) (omega arith)
    ∙ ap (λ j. reverse_onto q (length q ∷ run j (length t))) (sym e')

-- A combination that is not the last is followed by the one of the next rank.
next_moves :
    (n c : ℕ) (cs : List ℕ)
    → n < 2 ^ 8
    → IsFrom n 0 (c ∷ cs)
    → next (iterator_at n (suc (length cs)) (c ∷ cs))
      ≡ iterator_at n (suc (length cs)) (advance n (c ∷ cs)).1
unfolding next is_done
next_moves n c cs small h =
    let r : ℕ = suc (length cs) in
    let e : r - 1 ≡ length cs = omega arith in
    rw
      (
        ne→== r 0 (omega arith),
        e,
        ne→== (get_or (c ∷ cs) (length cs) 0) n (omega (arith, get_or-IsFrom_last n 0 c cs h)),
      )
      (ap (λ ds. iterator_at n r ds) (next_loop_lem n (c ∷ cs) small h))

is_done-at :
    (n c : ℕ) (cs : List ℕ)
    → IsFrom n 0 (c ∷ cs)
    → is_done (iterator_at n (suc (length cs)) (c ∷ cs)) ≡ false
unfolding is_done
is_done-at n c cs h =
    let r : ℕ = suc (length cs) in
    let e : r - 1 ≡ length cs = omega arith in
    rw (
      ne→== r 0 (omega arith),
      e,
      ne→== (get_or (c ∷ cs) (length cs) 0) n (omega (arith, get_or-IsFrom_last n 0 c cs h)),
    )

is_done-after_last :
    (n c : ℕ) (cs : List ℕ)
    → (advance n (c ∷ cs)).0 ≡ true
    → is_done (iterator_at n (suc (length cs)) (advance n (c ∷ cs)).1) ≡ true
unfolding is_done
is_done-after_last n c cs e =
    let r : ℕ = suc (length cs) in
    let e' : r - 1 ≡ length cs = omega arith in
    rw (ne→== r 0 (omega arith), e', get_or-advance_last n c cs e, eq→== n n refl)

-- What the iterator shows after `k` steps: a combination of rank `k`.
record Shows (n r k : ℕ) (it : CombinationIterator) : Type 0 where
  values : List ℕ
  state : it ≡ iterator_at n r values
  size : length values ≡ r
  valid : IsFrom n 0 values
  place : rank n 0 values ≡ k

advance-last_or_not :
    (n : ℕ) (cs : List ℕ)
    → IsFrom n 0 cs
    → rank n 0 cs + 1 < binom n (length cs)
    → (advance n cs).0 ≡ false
advance-last_or_not n cs h more = elim (Bool-cases (advance n cs).0) [
  | inl last ↦
      let whole : n - 0 ≡ n = omega arith in
      let e : rank n 0 cs + 1 ≡ binom n (length cs) =
        rw whole at (rank-advance_last n 0 cs h (omega arith) last) in
      absurd (omega arith)
  | inr e ↦ e
]

advance-last :
    (n : ℕ) (cs : List ℕ)
    → IsFrom n 0 cs
    → rank n 0 cs + 1 ≡ binom n (length cs)
    → (advance n cs).0 ≡ true
advance-last n cs h last = elim (Bool-cases (advance n cs).0) [
  | inl e ↦ e
  | inr more ↦
      let whole : n - 0 ≡ n = omega arith in
      let (from, next_rank) = rank-advance n 0 cs h (omega arith) more in
      let lt : rank n 0 (advance n cs).1 < binom n (length (advance n cs).1) =
        rw whole at (rank-lt n 0 (advance n cs).1 from) in
      let lt' : rank n 0 (advance n cs).1 < binom n (length cs) = rw (length-advance n cs) at lt in
      absurd (omega arith)
]

Shows-next :
    (n r k : ℕ) (it : CombinationIterator)
    → n < 2 ^ 8
    → k + 1 < binom n (suc r)
    → Shows n (suc r) k it
    → Shows n (suc r) (k + 1) (next it)
Shows-next n r k it small more s = go s.values s.state s.size s.valid s.place
  where
    go :
        (cs : List ℕ)
        → it ≡ iterator_at n (suc r) cs
        → length cs ≡ suc r
        → IsFrom n 0 cs
        → rank n 0 cs ≡ k
        → Shows n (suc r) (k + 1) (next it)
    go [] state size valid place = absurd (omega arith)
    go (c ∷ cs) state size valid place =
        let r' : r ≡ length cs = omega arith in
        let stays =
          advance-last_or_not n (c ∷ cs) valid (omega (arith, ap (λ (t : ℕ). binom n t) size)) in
        let (from, next_rank) = rank-advance n 0 (c ∷ cs) valid (omega arith) stays in
        record {
          values = (advance n (c ∷ cs)).1;
          state = rw (state, r') (next_moves n c cs small valid);
          size = length-advance n (c ∷ cs) ∙ size;
          valid = from;
          place = next_rank ∙ ap (λ (t : ℕ). t + 1) place;
        }

Shows-last :
    (n r k : ℕ) (it : CombinationIterator)
    → n < 2 ^ 8
    → k + 1 ≡ binom n (suc r)
    → Shows n (suc r) k it
    → is_done (next it) ≡ true
Shows-last n r k it small last s = go s.values s.state s.size s.valid s.place
  where
    go :
        (cs : List ℕ)
        → it ≡ iterator_at n (suc r) cs
        → length cs ≡ suc r
        → IsFrom n 0 cs
        → rank n 0 cs ≡ k
        → is_done (next it) ≡ true
    go [] state size valid place = absurd (omega arith)
    go (c ∷ cs) state size valid place =
        let r' : r ≡ length cs = omega arith in
        let rolled =
          advance-last n (c ∷ cs) valid (omega (arith, ap (λ (t : ℕ). binom n t) size)) in
        rw (state, r', next_moves n c cs small valid) (is_done-after_last n c cs rolled)

init-positive :
    (memory : List ℕ) (n r : ℕ) {it : CombinationIterator}
    → init memory n (suc r) ≡ some it
    → (suc r ≤ n) × (it ≡ iterator_at n (suc r) (reset_loop (suc r) 0 memory))
unfolding init reset
init-positive memory n r e = ground arith

Shows-init :
    (memory : List ℕ) (n r : ℕ) {it : CombinationIterator}
    → n < 2 ^ 8
    → length memory ≡ suc r
    → init memory n (suc r) ≡ some it
    → Shows n (suc r) 0 it
Shows-init memory n r {it} small size e =
    let (inside, state) = init-positive memory n r e in
    let written : reset_loop (suc r) 0 memory ≡ run 0 (suc r) =
      ap (λ k. reset_loop k 0 memory) (sym size)
      ∙ reset_loop-eq-run memory [] (omega arith)
      ∙ ap (λ k. run 0 k) size in
    record {
      values = run 0 (suc r);
      state = state ∙ ap (λ cs. iterator_at n (suc r) cs) written;
      size = length-run 0 (suc r);
      valid = run-IsFrom n 0 (suc r) (omega arith);
      place = rank-run n 0 (suc r);
    }

Shows-iterate :
    (memory : List ℕ) (n r k : ℕ) {it : CombinationIterator}
    → n < 2 ^ 8
    → length memory ≡ suc r
    → init memory n (suc r) ≡ some it
    → k < binom n (suc r)
    → Shows n (suc r) k (iterate k it)
unfolding iterate
Shows-iterate memory n r zero small size e h = Shows-init memory n r small size e
Shows-iterate memory n r (suc k) {it} small size e h =
    let plus : suc k ≡ k + 1 = omega arith in
    rw plus (
      Shows-next n r k (iterate k it) small (omega arith)
        (Shows-iterate memory n r k small size e (omega arith)))

Shows-current :
    (n r k : ℕ) (it : CombinationIterator)
    → Shows n (suc r) k it
    → (is_done it ≡ false) × (get_elem? (combinations 0 n (suc r)) k ≡ some it.counters)
Shows-current n r k it s = go s.values s.state s.size s.valid s.place
  where
    go :
        (cs : List ℕ)
        → it ≡ iterator_at n (suc r) cs
        → length cs ≡ suc r
        → IsFrom n 0 cs
        → rank n 0 cs ≡ k
        → (is_done it ≡ false) × (get_elem? (combinations 0 n (suc r)) k ≡ some it.counters)
    go [] state size valid place = absurd (omega arith)
    go (c ∷ cs) state size valid place =
        let r' : r ≡ length cs = omega arith in
        let listed = get_elem?-rank n 0 n (c ∷ cs) (omega arith) valid in
        (
          rw (state, r') (is_done-at n c cs valid),
          ap₂ (λ i j. get_elem? (combinations 0 n j) i) (sym place) (sym size)
              ∙ listed
              ∙ ap (λ (jt : CombinationIterator). some jt.counters) (sym state),
        )

-- For `r` from 1 on and `n` below 256, started in an array of `r` counters: after `k` calls of
-- `next`, for `k` below the number of combinations, the iterator is not done and its counters are
-- the `k`-th combination in lexicographic order.
pub iterate-combinations :
    (memory : List ℕ) (n r k : ℕ) {it : CombinationIterator}
    → n < 2 ^ 8
    → length memory ≡ suc r
    → init memory n (suc r) ≡ some it
    → k < binom n (suc r)
    → (is_done (iterate k it) ≡ false)
      × (get_elem? (combinations 0 n (suc r)) k ≡ some (iterate k it).counters)
iterate-combinations memory n r k {it} small size e h =
    Shows-current n r k (iterate k it) (Shows-iterate memory n r k small size e h)

-- For `r` from 1 on and `n` below 256, started in an array of `r` counters: the iterator is done
-- after as many calls of `next` as there are combinations.
pub is_done-iterate :
    (memory : List ℕ) (n r : ℕ) {it : CombinationIterator}
    → n < 2 ^ 8
    → length memory ≡ suc r
    → init memory n (suc r) ≡ some it
    → is_done (iterate (binom n (suc r)) it) ≡ true
unfolding iterate
is_done-iterate memory n r {it} small size e =
    let (inside, _) = init-positive memory n r e in
    let pos = binom_pos n (suc r) inside in
    let last : ℕ = binom n (suc r) - 1 in
    let count : binom n (suc r) ≡ suc last = omega arith in
    ap (λ k. is_done (iterate k it)) count
    ∙ Shows-last n r last (iterate last it) small (omega arith)
        (Shows-iterate memory n r last small size e (omega arith))

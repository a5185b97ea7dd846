-- ===== src/Multidim/Recede.antt =====
-- `multidim_iterator_recede` takes the step, `stride` times, from the flat index, or stops at the
-- start.
use native.Mathlib.Nat.{mod-lt, div-add-mod, mul-le-mul_left, mul-le-mul_right}
use cutl.Base.{
  ℕ, zero, suc, ◌+◌, ◌-◌, ◌*◌, ◌/◌, ◌%◌, ◌^◌, ◌≤◌, ◌<◌, ◌≡◌, refl, sym, ◌∙◌, ap, arith, inl, inr,
  lt-or-le, subst, u64, sub64, le→leb, lt→leb, lt_of_mul_lt, sub_mul,
}
use cutl.Multidim.{
  MultidimIterator, dim_at, offset_at, set_offset, set_to_start, required_steps, recede_loop,
}
use cutl.Multidim.Cells.{HasRoom, SameShape, SameShape-refl, SameShape-trans, SameShape-set_offset}
use cutl.Multidim.Flat.{flat, Inside}
use cutl.Multidim.Advance.{Moved, Moved-set_offset, Moved-carry, Inside-set_offset}

-- The smallest number of rounds of `d` that covers the rest.
record Covers (rest d steps : ℕ) : Type 0 where
  enough : rest ≤ steps * d
  least : steps * d < rest + d
  small : steps ≤ rest

required_steps-Covers :
    (rest d : ℕ) → 0 < rest → 0 < d → rest + d < 2 ^ 64 → Covers rest d (required_steps rest d)
unfolding required_steps
required_steps-Covers rest d some_rest some_dim fits =
    let e : sub64 (u64 (rest + d)) 1 ≡ rest + d - 1 = omega arith in
    let x : ℕ = rest + d - 1 in
    let split : d * (x / d) + x % d ≡ x = div-add-mod x d in
    let part : x % d < d = mod-lt x {m = d} some_dim in
    let turned : x / d * d ≡ d * (x / d) = omega arith in
    let capped : x / d ≤ rest = quotient_cap (x / d) rest d some_dim (omega arith) in
    rw e (record { enough = omega arith; least = omega arith; small = capped })
  where
    quotient_cap : (q r c : ℕ) → 0 < c → q * c < r + c → q ≤ r
    quotient_cap q r c pos lt = elim (lt-or-le r q) [
      | inl above ↦
          let grown : (r + 1) * c ≤ q * c = mul-le-mul_right c (omega arith) in
          let one : r * 1 ≤ r * c = mul-le-mul_left r pos in absurd (omega arith)
      | inr le ↦ le
    ]

borrow_below : (f o d step req : ℕ) → step ≤ f * d + o → o < step → req * d < step - o + d → req ≤ f
borrow_below f o d step req le borrows least =
    let lt : req < f + 1 = lt_of_mul_lt req (f + 1) d (omega arith) in omega arith

borrow_digits :
    (f o d step req : ℕ)
    → req ≤ f
    → step - o ≤ req * d
    → (f - req) * d + (o + req * d - step) ≡ f * d + o - step
borrow_digits f o d step req below enough = omega (arith, sub_mul f req d below)

recede_loop_borrow :
    (k step : ℕ) (it : MultidimIterator) (required v : ℕ)
    → offset_at it (suc k) < step
    → required ≡ required_steps (step - offset_at it (suc k)) (dim_at it (suc k))
    → sub64 (u64 (offset_at it (suc k) + u64 (required * dim_at it (suc k)))) step ≡ v
    → recede_loop (suc k) step it ≡ recede_loop k required (set_offset it (suc k) v)
unfolding recede_loop
recede_loop_borrow k step it required v borrows e e' =
    rw (lt→leb step (offset_at it (suc k)) borrows, ← e, e')

-- Where the index is at least the step, the offsets become the digits of the difference. The last
-- offset may be past its dimension, as it is at the end.
pub recede_loop-Moved :
    (k step : ℕ) (it : MultidimIterator)
    → HasRoom it
    → k < it.ndims
    → Inside it k
    → offset_at it k < dim_at it k + step
    → offset_at it k ≤ dim_at it k
    → ((i : ℕ) → i < suc k → (0 < dim_at it i) × (dim_at it i < 2 ^ 63))
    → step < 2 ^ 63
    → step ≤ flat it (suc k)
    → Moved it (recede_loop k step it) (suc k) (flat it (suc k) - step)
unfolding recede_loop
recede_loop-Moved zero step it room b inside last top sized fits le =
    rw (le→leb step (offset_at it 0) (omega arith)) (
      subst (λ t. Moved it (set_offset it 0 (offset_at it 0 - step)) 1 t) (omega arith)
        (Moved-set_offset it 0 (offset_at it 0 - step) room b inside
          (omega (arith, (sized 0 (omega arith)).0))))
recede_loop-Moved (suc k) step it room b inside last top sized fits le =
    let d : ℕ = dim_at it (suc k) in
    let o : ℕ = offset_at it (suc k) in
    let f : ℕ = flat it (suc k) in
    let (some_dim, small_dim) = sized (suc k) (omega arith) in
    elim (lt-or-le o step) [
      | inr stays ↦ rw (le→leb step o stays) (
          subst (λ t. Moved it (set_offset it (suc k) (o - step)) (suc (suc k)) t) (omega arith)
            (Moved-set_offset it (suc k) (o - step) room b inside (omega arith)))
      | inl borrows ↦
          let req : ℕ = required_steps (step - o) d in
          let c = required_steps-Covers (step - o) d (omega arith) some_dim (omega arith) in
          let v : ℕ = o + req * d - step in
          let kept : sub64 (u64 (o + u64 (req * d))) step ≡ v = omega (arith, c.least, c.enough) in
          let below : req ≤ f = borrow_below f o d step req (omega arith) borrows c.least in
          let next : MultidimIterator = set_offset it (suc k) v in
          let lt : v < d = omega (arith, c.least) in
          let (inside', same, _) = Inside-set_offset it (suc k) v room (omega arith) inside in
          let s = SameShape-set_offset it (suc k) v room in
          let here = inside' k (omega arith) in
          let ih =
            recede_loop-Moved k req next s.room (omega (arith, s.ndims))
              (λ i u. inside' i (omega arith)) (omega arith) (omega arith)
              (λ i u. rw (s.dims i (omega arith)) (sized i (omega arith))) (omega (arith, c.small))
              (omega (arith, same)) in
          subst (λ w. Moved it w (suc (suc k)) (f * d + o - step))
            (sym (recede_loop_borrow k step it req v borrows refl kept))
            (subst (λ t. Moved it (recede_loop k req next) (suc (suc k)) t)
              (ap (λ t. (t - req) * d + v) same ∙ borrow_digits f o d step req below c.enough)
              (Moved-carry it (recede_loop k req next) k v (flat next (suc k) - req) room b lt ih))
    ]

-- Where it is not, the loop runs into the first dimension and goes to the start.
pub recede_loop_start :
    (k step : ℕ) (it : MultidimIterator)
    → HasRoom it
    → k < it.ndims
    → Inside it k
    → offset_at it k ≤ dim_at it k
    → ((i : ℕ) → i < suc k → (0 < dim_at it i) × (dim_at it i < 2 ^ 63))
    → step < 2 ^ 63
    → flat it (suc k) < step
    → (mid : MultidimIterator) × SameShape it mid × (recede_loop k step it ≡ set_to_start mid)
unfolding recede_loop
recede_loop_start zero step it room b inside top sized fits lt =
    (it, SameShape-refl it room, rw (lt→leb step (offset_at it 0) (omega arith)))
recede_loop_start (suc k) step it room b inside top sized fits lt =
    let d : ℕ = dim_at it (suc k) in
    let o : ℕ = offset_at it (suc k) in
    let f : ℕ = flat it (suc k) in
    let (some_dim, small_dim) = sized (suc k) (omega arith) in
    let req : ℕ = required_steps (step - o) d in
    let c = required_steps-Covers (step - o) d (omega arith) some_dim (omega arith) in
    let v : ℕ = o + req * d - step in
    let kept : sub64 (u64 (o + u64 (req * d))) step ≡ v = omega (arith, c.least, c.enough) in
    let above : f < req = lt_of_mul_lt f req d (omega (arith, c.enough)) in
    let next : MultidimIterator = set_offset it (suc k) v in
    let (inside', same, _) = Inside-set_offset it (suc k) v room (omega arith) inside in
    let s = SameShape-set_offset it (suc k) v room in
    let here = inside' k (omega arith) in
    let (mid, shape, e) =
      recede_loop_start k req next s.room (omega (arith, s.ndims)) (λ i u. inside' i (omega arith))
        (omega arith) (λ i u. rw (s.dims i (omega arith)) (sized i (omega arith)))
        (omega (arith, c.small)) (omega (arith, same)) in
    (
      mid,
      SameShape-trans it next mid s shape,
      recede_loop_borrow k step it req v (omega arith) refl kept ∙ e,
    )

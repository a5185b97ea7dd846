-- ===== src/Multidim/AtEnd.antt =====
-- `multidim_iterator_is_at_end` tells the end from every element.
use cutl.Base.{
  ℕ, zero, suc, ◌+◌, ◌-◌, ◌*◌, ◌^◌, ◌≤◌, ◌<◌, ◌≡◌, refl, sym, ◌∙◌, ap, arith, inl, inr, lt-or-le,
  true, false, Bool-cases, some, leb, sub64, u64_small, eq→==, ne→==, le→leb, lt→leb,
}
use cutl.Multidim.{
  MultidimIterator, dim_at, offset_at, set_to_end, advance, end_test, is_at_end, get_flat_index,
  total_size,
}
use cutl.Multidim.Cells.{HasRoom}
use cutl.Multidim.Flat.{flat, volume, flat-lt-volume, total_size-eq-volume}
use cutl.Multidim.Ends.{set_to_end_lem}
use cutl.Multidim.Walk.{IsValid, step_size, get_flat_index-small}
use cutl.Multidim.Index.{advance-IsValid, advance_past}

end_test-true :
    (rounds i : ℕ) (it : MultidimIterator)
    → ((k : ℕ) → i ≤ k → k < i + rounds → offset_at it k ≡ sub64 (dim_at it k) 1)
    → end_test rounds i it ≡ true
unfolding end_test
end_test-true zero i it h = refl
end_test-true (suc rounds) i it h =
    rw (eq→== (offset_at it i) (sub64 (dim_at it i) 1) (h i (omega arith) (omega arith)))
      (end_test-true rounds (i + 1) it (λ k l u. h k (omega arith) (omega arith)))

is_at_end-set_to_end :
    (it : MultidimIterator) → HasRoom it → 0 < it.ndims → is_at_end (set_to_end it) ≡ true
unfolding is_at_end
is_at_end-set_to_end it room pos =
    let out : MultidimIterator = set_to_end it in
    let (shape, before, last) = set_to_end_lem it room pos in
    let n : ℕ = it.ndims - 1 in
    let e : out.ndims - 1 ≡ n = ap (λ (k : ℕ). k - 1) shape.ndims in
    let all : end_test (out.ndims - 1) 0 out ≡ true = end_test-true (out.ndims - 1) 0 out (λ k l u.
      before k (omega (arith, shape.ndims))
      ∙ ap (λ d. sub64 d 1) (sym (shape.dims k (omega (arith, shape.ndims))))) in
    let here : offset_at out (out.ndims - 1) ≡ dim_at out (out.ndims - 1) =
      ap (λ k. offset_at out k) e
      ∙ last
      ∙ sym (shape.dims n (omega arith))
      ∙ ap (λ k. dim_at out k) (sym e) in
    rw (all, eq→== (offset_at out (out.ndims - 1)) (dim_at out (out.ndims - 1)) here)

is_at_end-IsValid : (it : MultidimIterator) → IsValid it → is_at_end it ≡ false
unfolding is_at_end
is_at_end-IsValid it v =
    let n : ℕ = it.ndims - 1 in
    let lt = v.inside n (omega (arith, v.some_dims)) in
    elim (Bool-cases (end_test n 0 it)) [
      | inl all ↦ rw (all, ne→== (offset_at it n) (dim_at it n) (omega arith))
      | inr not_all ↦ rw not_all
    ]

-- For a valid iterator, a dimension that it has and a step that passes fewer than 2^63 elements:
-- after `advance` the iterator is at the end exactly when the step led to the total size or past it.
pub is_at_end-advance :
    (it : MultidimIterator) (dim step : ℕ)
    → IsValid it
    → dim < it.ndims
    → step * step_size it dim < 2 ^ 63
    → (out : MultidimIterator) × (advance it dim step ≡ some out)
      × (is_at_end out ≡ leb (total_size it) (get_flat_index it + step * step_size it dim))
is_at_end-advance it dim step v b small =
    let below = flat-lt-volume it it.ndims v.inside in
    let size : total_size it ≡ volume it it.ndims =
      total_size-eq-volume it ∙ u64_small (volume it it.ndims) (omega (arith, v.fits)) in
    let start = get_flat_index-small it (omega (arith, v.fits)) in
    let reached : ℕ = get_flat_index it + step * step_size it dim in
    elim (lt-or-le (flat it it.ndims + step * step_size it dim) (volume it it.ndims)) [
      | inl lt ↦
          let (out, e, shape, valid, index) = advance-IsValid it dim step v b lt in
          (out, e, is_at_end-IsValid out valid ∙ sym (lt→leb (total_size it) reached (omega arith)))
      | inr ge ↦
          let (mid, shape, e) = advance_past it dim step v b small ge in
          let pos : 0 < mid.ndims = omega (arith, shape.ndims, v.some_dims) in
          (
            set_to_end mid,
            e,
            is_at_end-set_to_end mid shape.room pos
                ∙ sym (le→leb (total_size it) reached (omega arith)),
          )
    ]

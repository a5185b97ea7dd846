-- ===== src/Multidim/Back.antt =====
-- `recede` takes the step from the flat index, and undoes `advance`.
use native.Mathlib.Nat.{}
use cutl.Base.{
  ℕ, zero, suc, ◌+◌, ◌-◌, ◌*◌, ◌^◌, ◌≤◌, ◌<◌, ◌≡◌, sym, ◌∙◌, ap, arith, inl, inr, lt-or-le,
  eq-or-ne, some, u64_small, lt→ltb, lt_of_mul_lt, digits_unique,
}
use cutl.Multidim.{
  MultidimIterator, dim_at, offset_at, advance, recede_loop, recede, get_flat_index, total_size,
  set_to_start,
}
use cutl.Multidim.Cells.{SameShape, SameShape-trans}
use cutl.Multidim.Flat.{flat, volume, Inside, flat-lt-volume, total_size-eq-volume}
use cutl.Multidim.Ends.{flat-set_to_start, set_to_start_lem}
use cutl.Multidim.Recede.{recede_loop-Moved, recede_loop_start}
use cutl.Multidim.Walk.{
  IsValid, IsValid-dims, step_size, get_flat_index-small, flat-Moved, Inside-Moved, flat_lower_at,
  flat_upper_at, step_size-SameShape,
}
use cutl.Multidim.Index.{IsValid-SameShape, advance-IsValid}

-- What `recede` does when the element exists.
recede-IsValid :
    (it : MultidimIterator) (dim step : ℕ)
    → IsValid it
    → dim < it.ndims
    → step < 2 ^ 63
    → step * step_size it dim ≤ flat it it.ndims
    → (out : MultidimIterator) × (recede it dim step ≡ some out)
      × SameShape it out
      × IsValid out
      × (flat out it.ndims ≡ flat it it.ndims - step * step_size it dim)
unfolding recede
recede-IsValid it dim step v b small le =
    let f : ℕ = flat it (suc dim) in
    let s : ℕ = step_size it dim in
    let (low, whole) = flat_lower_at it dim b in
    let up = flat_upper_at it dim v b in
    let lt : step < f + 1 = lt_of_mul_lt step (f + 1) s (omega arith) in
    let here = v.inside dim b in
    let m =
      recede_loop-Moved dim step it v.room b (λ i u. v.inside i (omega arith)) (omega arith)
        (omega arith) (λ i u. IsValid-dims it v i (omega arith)) small (omega arith) in
    let out : MultidimIterator = recede_loop dim step it in
    let index = flat-Moved it out dim (f - step) b m in
    let part : (f - step + step) * s ≡ f * s =
      ap (λ (t : ℕ). t * s) (sub_add f step (omega arith)) in
    (
      out,
      rw (lt→ltb dim it.ndims b),
      m.shape,
      IsValid-SameShape it out v m.shape (Inside-Moved it out dim (f - step) b v m),
      omega arith,
    )
  where
    sub_add : (f step : ℕ) → step ≤ f → f - step + step ≡ f
    sub_add f step h = omega arith

-- For a valid iterator, a dimension that it has and a step below 2^63: `recede` returns, and the
-- flat index falls by the step times the number of elements that a step in this dimension passes,
-- or stops at zero.
pub get_flat_index-recede :
    (it : MultidimIterator) (dim step : ℕ)
    → IsValid it
    → dim < it.ndims
    → step < 2 ^ 63
    → (out : MultidimIterator) × (recede it dim step ≡ some out)
      × (get_flat_index out ≡ get_flat_index it - step * step_size it dim)
unfolding recede
get_flat_index-recede it dim step v b small =
    let below = flat-lt-volume it it.ndims v.inside in
    let start = get_flat_index-small it (omega (arith, v.fits)) in
    elim (lt-or-le (flat it it.ndims) (step * step_size it dim)) [
      | inr le ↦
          let (out, e, shape, valid, index) = recede-IsValid it dim step v b small le in
          let same : flat out out.ndims ≡ flat out it.ndims = ap (λ n. flat out n) shape.ndims in
          (out, e, get_flat_index-small out (omega (arith, v.fits)) ∙ omega arith)
      | inl lt ↦
          let f : ℕ = flat it (suc dim) in
          let (low, whole) = flat_lower_at it dim b in
          let here = v.inside dim b in
          let short : f < step = lt_of_mul_lt f step (step_size it dim) (omega arith) in
          let (mid, shape, e) =
            recede_loop_start dim step it v.room b (λ i u. v.inside i (omega arith)) (omega arith)
              (λ i u. IsValid-dims it v i (omega arith)) small short in
          let out : MultidimIterator = set_to_start mid in
          let none_left = flat-set_to_start mid shape.room in
          let same : flat out out.ndims ≡ flat out mid.ndims =
            ap (λ n. flat out n) (set_to_start_lem mid shape.room).0.ndims in
          (
            out,
            rw (lt→ltb dim it.ndims b) (ap (λ t. some t) e),
            get_flat_index-small out (omega arith) ∙ omega arith,
          )
    ]

-- The flat index determines the offsets.
flat_injective :
    (it out : MultidimIterator) (k : ℕ)
    → ((i : ℕ) → i < k → dim_at out i ≡ dim_at it i)
    → Inside it k
    → Inside out k
    → flat out k ≡ flat it k
    → (i : ℕ) → i < k
    → offset_at out i ≡ offset_at it i
flat_injective it out zero d inside inside' e i b = absurd (omega arith)
flat_injective it out (suc k) d inside inside' e i b =
    let same : dim_at out k ≡ dim_at it k = d k (omega arith) in
    let low : offset_at out k < dim_at it k = rw same at (inside' k (omega arith)) in
    let e' : flat out k * dim_at it k + offset_at out k ≡ flat it k * dim_at it k + offset_at it k =
      rw same at e in
    let (rows, here) =
      digits_unique (flat out k) (offset_at out k) (flat it k) (offset_at it k) (dim_at it k) low
        (inside k (omega arith)) e' in
    elim (eq-or-ne i k) [
      | inl at_k ↦ rw at_k here
      | inr before ↦
          flat_injective it out k (λ j u. d j (omega arith)) (λ j u. inside j (omega arith))
            (λ j u. inside' j (omega arith)) rows i (omega arith)
    ]

-- For a valid iterator, a dimension that it has, a step below 2^63 and an element that lies that
-- many steps on: `advance` and then `recede` by the same step in the same dimension return, and
-- bring every offset back.
pub recede-advance :
    (it : MultidimIterator) (dim step i : ℕ)
    → IsValid it
    → dim < it.ndims
    → step < 2 ^ 63
    → get_flat_index it + step * step_size it dim < total_size it
    → i < it.ndims
    → (mid out : MultidimIterator) × (advance it dim step ≡ some mid)
      × (recede mid dim step ≡ some out)
      × (offset_at out i ≡ offset_at it i)
      × (dim_at out i ≡ dim_at it i)
recede-advance it dim step i v b small fits u =
    let size : total_size it ≡ volume it it.ndims =
      total_size-eq-volume it ∙ u64_small (volume it it.ndims) (omega (arith, v.fits)) in
    let below = flat-lt-volume it it.ndims v.inside in
    let start = get_flat_index-small it (omega (arith, v.fits)) in
    let (mid, e, shape, valid, index) = advance-IsValid it dim step v b (omega arith) in
    let same_step : step_size mid dim ≡ step_size it dim = step_size-SameShape it mid dim shape b in
    let total : flat mid mid.ndims ≡ flat mid it.ndims = ap (λ n. flat mid n) shape.ndims in
    let scaled : step * step_size mid dim ≡ step * step_size it dim =
      ap (λ t. step * t) same_step in
    let (out, e', shape', valid', index') =
      recede-IsValid mid dim step valid (omega (arith, shape.ndims)) small (omega arith) in
    let whole = SameShape-trans it mid out shape shape' in
    let back : flat out it.ndims ≡ flat out mid.ndims = ap (λ n. flat out n) (sym shape.ndims) in
    (
      mid,
      out,
      e,
      e',
      flat_injective it out it.ndims whole.dims v.inside
          (λ j w. valid'.inside j (omega (arith, whole.ndims))) (omega arith) i u,
      whole.dims i u,
    )

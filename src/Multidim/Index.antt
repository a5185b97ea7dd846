-- ===== src/Multidim/Index.antt =====
-- The flat index after a whole call of `advance` or `recede`.
use native.Mathlib.Nat.{mul-le-mul_left}
use cutl.Base.{
  ℕ, suc, ◌+◌, ◌*◌, ◌^◌, ◌≤◌, ◌<◌, min, ◌≡◌, sym, ◌∙◌, ap, arith, inl, inr, lt-or-le, some,
  u64_small, lt→ltb, lt_of_mul_lt,
}
use cutl.Multidim.{
  MultidimIterator, dim_at, advance_loop, advance, get_flat_index, total_size, set_to_end,
}
use cutl.Multidim.Cells.{SameShape, SameShape-trans}
use cutl.Multidim.Flat.{flat, volume, Inside, flat-lt-volume, total_size-eq-volume}
use cutl.Multidim.Ends.{flat-set_to_end, volume-SameShape, set_to_end_lem}
use cutl.Multidim.Advance.{advance_loop-Moved, advance_loop_end}
use cutl.Multidim.Recede.{}
use cutl.Multidim.Walk.{
  IsValid, IsValid-dims, step_size, step_size_pos, get_flat_index-small, flat-Moved, Inside-Moved,
  flat_lower_at, flat_upper_at,
}

pub IsValid-SameShape :
    (it out : MultidimIterator) → IsValid it → SameShape it out → Inside out it.ndims → IsValid out
IsValid-SameShape it out v s inside =
    let kept : volume out it.ndims ≡ volume it it.ndims =
      volume-SameShape it out it.ndims s (omega arith) in
    let same : volume out out.ndims ≡ volume out it.ndims = ap (λ n. volume out n) s.ndims in
    record {
      room = s.room;
      some_dims = omega (arith, v.some_dims, s.ndims);
      inside = λ i u. inside i (omega (arith, s.ndims));
      fits = omega (arith, v.fits);
    }

-- What `advance` does to a valid iterator when the element exists.
pub advance-IsValid :
    (it : MultidimIterator) (dim step : ℕ)
    → IsValid it
    → dim < it.ndims
    → flat it it.ndims + step * step_size it dim < volume it it.ndims
    → (out : MultidimIterator) × (advance it dim step ≡ some out)
      × SameShape it out
      × IsValid out
      × (flat out it.ndims ≡ flat it it.ndims + step * step_size it dim)
unfolding advance
advance-IsValid it dim step v b lt =
    let f : ℕ = flat it (suc dim) in
    let s : ℕ = step_size it dim in
    let (low, whole) = flat_lower_at it dim b in
    let pos = step_size_pos it dim v b in
    let less : f + step < volume it (suc dim) =
      lt_of_mul_lt (f + step) (volume it (suc dim)) s (omega arith) in
    let bound : volume it (suc dim) * 1 ≤ volume it (suc dim) * s =
      mul-le-mul_left (volume it (suc dim)) pos in
    let m =
      advance_loop-Moved dim step it v.room b (λ i u. v.inside i (omega arith))
        (omega (arith, v.fits)) less in
    let out : MultidimIterator = advance_loop dim step it in
    let index = flat-Moved it out dim (f + step) b m in
    (
      out,
      rw (lt→ltb dim it.ndims b),
      m.shape,
      IsValid-SameShape it out v m.shape (Inside-Moved it out dim (f + step) b v m),
      omega arith,
    )

-- The end of an iterator with the same shape.
end_of_shape :
    (it mid : MultidimIterator)
    → IsValid it
    → SameShape it mid
    → SameShape it (set_to_end mid) × (flat (set_to_end mid) it.ndims ≡ volume it it.ndims)
end_of_shape it mid v s =
    let sized = λ (i : ℕ) (u : i < mid.ndims).
      let inside : i < it.ndims = omega (arith, s.ndims) in
      let here = IsValid-dims it v i inside in
      let both : (0 < dim_at mid i) × (dim_at mid i < 2 ^ 64) =
        rw (s.dims i inside) (here.0, omega (arith, here.1)) in
      both in
    let pos : 0 < mid.ndims = omega (arith, s.ndims, v.some_dims) in
    let full = flat-set_to_end mid s.room pos sized in
    (
      SameShape-trans it mid (set_to_end mid) s (set_to_end_lem mid s.room pos).0,
      ap (λ n. flat (set_to_end mid) n) (sym s.ndims)
          ∙ full
          ∙ ap (λ n. volume mid n) s.ndims
          ∙ volume-SameShape it mid it.ndims s (omega arith),
    )

-- What it does when there is no such element.
pub advance_past :
    (it : MultidimIterator) (dim step : ℕ)
    → IsValid it
    → dim < it.ndims
    → step * step_size it dim < 2 ^ 63
    → volume it it.ndims ≤ flat it it.ndims + step * step_size it dim
    → (mid : MultidimIterator) × SameShape it mid × (advance it dim step ≡ some (set_to_end mid))
unfolding advance
advance_past it dim step v b small ge =
    let f : ℕ = flat it (suc dim) in
    let s : ℕ = step_size it dim in
    let (low, whole) = flat_lower_at it dim b in
    let up = flat_upper_at it dim v b in
    let pos = step_size_pos it dim v b in
    let lt : volume it (suc dim) < f + step + 1 =
      lt_of_mul_lt (volume it (suc dim)) (f + step + 1) s (omega arith) in
    let one : f * 1 ≤ f * s = mul-le-mul_left f pos in
    let one' : step * 1 ≤ step * s = mul-le-mul_left step pos in
    let below = flat-lt-volume it it.ndims v.inside in
    let (mid, shape, e) =
      advance_loop_end dim step it v.room b (λ i u. v.inside i (omega arith))
        (omega (arith, v.fits)) (omega arith) in
    (mid, shape, rw (lt→ltb dim it.ndims b) (ap (λ t. some t) e))

-- For a valid iterator, a dimension that it has and a step that passes fewer than 2^63 elements:
-- `advance` returns, and the flat index grows by the step times the number of elements that a step
-- in this dimension passes, or stops at the total size, which is the index of the end.
pub get_flat_index-advance :
    (it : MultidimIterator) (dim step : ℕ)
    → IsValid it
    → dim < it.ndims
    → step * step_size it dim < 2 ^ 63
    → (out : MultidimIterator) × (advance it dim step ≡ some out)
      × (get_flat_index out ≡ min (get_flat_index it + step * step_size it dim) (total_size it))
get_flat_index-advance it dim step v b small =
    let below = flat-lt-volume it it.ndims v.inside in
    let size : total_size it ≡ volume it it.ndims =
      total_size-eq-volume it ∙ u64_small (volume it it.ndims) (omega (arith, v.fits)) in
    let start = get_flat_index-small it (omega (arith, v.fits)) in
    elim (lt-or-le (flat it it.ndims + step * step_size it dim) (volume it it.ndims)) [
      | inl lt ↦
          let (out, e, shape, valid, index) = advance-IsValid it dim step v b lt in
          let same : flat out out.ndims ≡ flat out it.ndims = ap (λ n. flat out n) shape.ndims in
          (out, e, get_flat_index-small out (omega (arith, v.fits)) ∙ omega arith)
      | inr ge ↦
          let (mid, shape, e) = advance_past it dim step v b small ge in
          let out : MultidimIterator = set_to_end mid in
          let (shape', index) = end_of_shape it mid v shape in
          let same : flat out out.ndims ≡ flat out it.ndims = ap (λ n. flat out n) shape'.ndims in
          (out, e, get_flat_index-small out (omega (arith, v.fits)) ∙ omega arith)
    ]

-- ===== src/Multidim/Walk.antt =====
-- Moving the iterator moves its flat index: the theorems about whole calls.
use native.Mathlib.Nat.{mul-le-mul_right}
use cutl.Base.{
  ℕ, zero, suc, ◌+◌, ◌-◌, ◌*◌, ◌^◌, ◌≤◌, ◌<◌, ◌≡◌, refl, sym, ◌∙◌, ap, ap₂, arith, inl, inr,
  lt-or-le, eq-or-ne, u64_small,
}
use cutl.Multidim.{MultidimIterator, dim_at, offset_at, get_flat_index}
use cutl.Multidim.Cells.{HasRoom, SameShape}
use cutl.Multidim.Flat.{
  flat, volume, stride, Inside, flat-shift, volume-stride, get_flat_index-eq-flat,
}
use cutl.Multidim.Ends.{}
use cutl.Multidim.Advance.{Moved}

-- An iterator at an element of an array whose size is a valid object size.
pub record IsValid (it : MultidimIterator) : Type 0 where
  pub room : HasRoom it
  pub some_dims : 0 < it.ndims
  pub inside : Inside it it.ndims
  pub fits : volume it it.ndims < 2 ^ 63

-- The number of elements that one step in the dimension `dim` passes.
abbrev pub step_size : MultidimIterator → ℕ → ℕ
step_size it dim = stride it (dim + 1) (it.ndims - (dim + 1))

module _ (it : MultidimIterator) where
  pub stride_pos : (k r : ℕ) → ((i : ℕ) → i < k + r → 0 < dim_at it i) → 0 < stride it k r
  stride_pos k zero h = omega arith
  stride_pos k (suc r) h =
      let ih = stride_pos k r (λ i b. h i (omega arith)) in
      let last = h (k + r) (omega arith) in grind arith

  flat_lower : (k r : ℕ) → flat it k * stride it k r ≤ flat it (k + r)
  flat_lower k zero = let e : k + 0 ≡ k = omega arith in rw e (omega arith)
  flat_lower k (suc r) =
      let e : k + suc r ≡ suc (k + r) = omega arith in
      rw e (omega (arith, mul-le-mul_right (dim_at it (k + r)) (flat_lower k r)))

  volume_pos : (k : ℕ) → ((i : ℕ) → i < k → 0 < dim_at it i) → 0 < volume it k
  volume_pos zero h = omega arith
  volume_pos (suc k) h =
      let ih = volume_pos k (λ i b. h i (omega arith)) in
      let last = h k (omega arith) in grind arith

  -- No dimension is larger than the volume.
  pub dim-le-volume :
      (k i : ℕ) → ((j : ℕ) → j < k → 0 < dim_at it j) → i < k → dim_at it i ≤ volume it k
  dim-le-volume zero i h b = absurd (omega arith)
  dim-le-volume (suc k) i h b =
      let below = volume_pos k (λ j u. h j (omega arith)) in
      let last = h k (omega arith) in
      elim (eq-or-ne i k) [
        | inl e ↦ rw e (grind arith)
        | inr ne ↦
            let ih = dim-le-volume k i (λ j u. h j (omega arith)) (omega arith) in grind arith
      ]

pub IsValid-dims :
    (it : MultidimIterator)
    → IsValid it
    → (i : ℕ) → i < it.ndims
    → (0 < dim_at it i) × (dim_at it i < 2 ^ 63)
IsValid-dims it v i b =
    let pos = λ (j : ℕ) (u : j < it.ndims).
      let lt = v.inside j u in let p : 0 < dim_at it j = omega arith in p in
    (pos i b, omega (arith, dim-le-volume it it.ndims i pos b, v.fits))

-- The flat index below 2^64 is the one that the code returns.
pub get_flat_index-small :
    (it : MultidimIterator) → flat it it.ndims < 2 ^ 64 → get_flat_index it ≡ flat it it.ndims
get_flat_index-small it h = get_flat_index-eq-flat it ∙ u64_small (flat it it.ndims) h

module _ (it out : MultidimIterator) (dim value : ℕ) (b : dim < it.ndims) where
  -- The index of the whole array after the first `dim + 1` offsets moved.
  pub flat-Moved :
      Moved it out (suc dim) value
      → flat out it.ndims + flat it (suc dim) * step_size it dim
        ≡ flat it it.ndims + value * step_size it dim
  flat-Moved m =
      let r : ℕ = it.ndims - (dim + 1) in
      let e : it.ndims ≡ suc dim + r = omega arith in
      let shift =
        flat-shift it out (suc dim) r (λ i u. m.shape.dims i (omega arith))
          (λ i l u. m.above i l (omega arith)) in
      let from : stride it (dim + 1) r ≡ stride it (suc dim) r =
        ap (λ k. stride it k r) (omega arith) in
      ap₂ ◌+◌ (ap (λ n. flat out n) e) (ap (λ t. flat it (suc dim) * t) from)
      ∙ shift
      ∙ ap₂ ◌+◌ (ap (λ n. flat it n) (sym e)) (ap₂ ◌*◌ m.index (sym from))

  pub Inside-Moved : IsValid it → Moved it out (suc dim) value → Inside out it.ndims
  Inside-Moved v m i u = elim (lt-or-le i (suc dim)) [
    | inl below ↦ m.inside i below
    | inr above ↦ rw (m.above i above u, m.shape.dims i u) (v.inside i u)
  ]

pub flat_lower_at :
    (it : MultidimIterator) (dim : ℕ)
    → dim < it.ndims
    → (flat it (suc dim) * step_size it dim ≤ flat it it.ndims)
      × (volume it it.ndims ≡ volume it (suc dim) * step_size it dim)
flat_lower_at it dim b =
    let r : ℕ = it.ndims - (dim + 1) in
    let e : suc dim + r ≡ it.ndims = omega arith in
    let from : suc dim ≡ dim + 1 = omega arith in
    let stride' : stride it (suc dim) r ≡ stride it (dim + 1) r = ap (λ k. stride it k r) from in
    (
      rw (stride', e) at (flat_lower it (suc dim) r),
      rw (stride', e) at (volume-stride it (suc dim) r),
    )

pub step_size_pos :
    (it : MultidimIterator) (dim : ℕ) → IsValid it → dim < it.ndims → 0 < step_size it dim
step_size_pos it dim v b =
    stride_pos it (dim + 1) (it.ndims - (dim + 1)) (λ i u. (IsValid-dims it v i (omega arith)).0)

module _ (it : MultidimIterator) where
  flat_upper :
      (k r : ℕ)
      → ((i : ℕ) → k ≤ i → i < k + r → offset_at it i < dim_at it i)
      → flat it (k + r) + 1 ≤ (flat it k + 1) * stride it k r
  flat_upper k zero h = let e : k + 0 ≡ k = omega arith in rw e (omega arith)
  flat_upper k (suc r) h =
      let e : k + suc r ≡ suc (k + r) = omega arith in
      let ih = flat_upper k r (λ i l u. h i l (omega arith)) in
      rw e (
        omega
          (arith, mul-le-mul_right (dim_at it (k + r)) ih, h (k + r) (omega arith) (omega arith)))

-- The index is less than one step of `dim` above the part that the first offsets make.
pub flat_upper_at :
    (it : MultidimIterator) (dim : ℕ)
    → IsValid it
    → dim < it.ndims
    → flat it it.ndims + 1 ≤ (flat it (suc dim) + 1) * step_size it dim
flat_upper_at it dim v b =
    let r : ℕ = it.ndims - (dim + 1) in
    let e : suc dim + r ≡ it.ndims = omega arith in
    let from : suc dim ≡ dim + 1 = omega arith in
    let stride' : stride it (suc dim) r ≡ stride it (dim + 1) r = ap (λ k. stride it k r) from in
    rw (stride', e) at (flat_upper it (suc dim) r (λ i l u. v.inside i (omega arith)))

stride-SameShape :
    (it out : MultidimIterator) (k r : ℕ)
    → SameShape it out
    → k + r ≤ it.ndims
    → stride out k r ≡ stride it k r
stride-SameShape it out k zero s b = refl
stride-SameShape it out k (suc r) s b =
    ap₂ ◌*◌ (stride-SameShape it out k r s (omega arith)) (s.dims (k + r) (omega arith))

pub step_size-SameShape :
    (it out : MultidimIterator) (dim : ℕ)
    → SameShape it out
    → dim < it.ndims
    → step_size out dim ≡ step_size it dim
step_size-SameShape it out dim s b =
    ap (λ n. stride out (dim + 1) (n - (dim + 1))) s.ndims
    ∙ stride-SameShape it out (dim + 1) (it.ndims - (dim + 1)) s (omega arith)

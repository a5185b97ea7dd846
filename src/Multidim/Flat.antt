-- ===== src/Multidim/Flat.antt =====
-- The flat index and the total size as plain sums and products, and the loops that compute them.
use cutl.Base.{
  ℕ, zero, suc, ◌+◌, ◌*◌, ◌≤◌, ◌<◌, ◌≡◌, refl, ◌∙◌, ap, arith, u64, u64-add_left, u64-mul_left,
}
use cutl.Multidim.{
  MultidimIterator, dim_at, offset_at, flat_loop, get_flat_index, size_loop, total_size,
}

module _ (it : MultidimIterator) where
  -- The index that the first `k` offsets make, row by row.
  abbrev pub flat : ℕ → ℕ
  flat zero = 0
  flat (suc k) = flat k * dim_at it k + offset_at it k

  -- The product of the first `k` dimensions.
  abbrev pub volume : ℕ → ℕ
  volume zero = 1
  volume (suc k) = volume k * dim_at it k

  -- The product of the `r` dimensions from `k` on.
  abbrev pub stride : ℕ → ℕ → ℕ
  stride k zero = 1
  stride k (suc r) = stride k r * dim_at it (k + r)

  -- Every offset among the first `k` is below its dimension.
  abbrev pub Inside : ℕ → Type 0
  Inside k = (i : ℕ) → i < k → offset_at it i < dim_at it i

  pub flat-lt-volume : (k : ℕ) → Inside k → flat k < volume k
  flat-lt-volume zero h = omega arith
  flat-lt-volume (suc k) h =
      let ih = flat-lt-volume k (λ i b. h i (omega arith)) in
      let last = h k (omega arith) in grind arith

  flat_loop_lem :
      (rounds i index : ℕ)
      → index ≡ u64 (flat i)
      → flat_loop rounds i it index ≡ u64 (flat (i + rounds))
  unfolding flat_loop
  flat_loop_lem zero i index h = h ∙ ap (λ k. u64 (flat k)) (omega arith)
  flat_loop_lem (suc rounds) i index h =
      let next : suc i ≡ i + 1 = omega arith in
      flat_loop_lem rounds (i + 1) (u64 (u64 (index * dim_at it i) + offset_at it i)) (
        rw h (
          ap (λ t. u64 (t + offset_at it i)) (u64-mul_left (flat i) (dim_at it i))
          ∙ u64-add_left (flat i * dim_at it i) (offset_at it i)
          ∙ ap (λ k. u64 (flat k)) next))
      ∙ ap (λ k. u64 (flat k)) (omega arith)

  -- The flat index is computed modulo 2^64.
  pub get_flat_index-eq-flat : get_flat_index it ≡ u64 (flat it.ndims)
  unfolding get_flat_index
  get_flat_index-eq-flat = flat_loop_lem it.ndims 0 0 refl ∙ ap (λ k. u64 (flat k)) (omega arith)

  size_loop_lem :
      (rounds i size : ℕ)
      → size ≡ u64 (volume i)
      → size_loop rounds i it size ≡ u64 (volume (i + rounds))
  unfolding size_loop
  size_loop_lem zero i size h = h ∙ ap (λ k. u64 (volume k)) (omega arith)
  size_loop_lem (suc rounds) i size h =
      let next : suc i ≡ i + 1 = omega arith in
      size_loop_lem rounds (i + 1) (u64 (size * dim_at it i))
        (rw h (u64-mul_left (volume i) (dim_at it i) ∙ ap (λ k. u64 (volume k)) next))
      ∙ ap (λ k. u64 (volume k)) (omega arith)

  -- So is the total size.
  pub total_size-eq-volume : total_size it ≡ u64 (volume it.ndims)
  unfolding total_size
  total_size-eq-volume = size_loop_lem it.ndims 0 1 refl ∙ ap (λ k. u64 (volume k)) (omega arith)

  pub volume-stride : (k r : ℕ) → volume (k + r) ≡ volume k * stride k r
  volume-stride k zero = let e : k + 0 ≡ k = omega arith in rw e (omega arith)
  volume-stride k (suc r) =
      let e : k + suc r ≡ suc (k + r) = omega arith in
      rw e (omega (arith, ap (λ (t : ℕ). t * dim_at it (k + r)) (volume-stride k r)))

-- The flat index depends on the places below it alone.
pub flat-SameBelow :
    (it out : MultidimIterator) (k : ℕ)
    → ((i : ℕ) → i < k → dim_at out i ≡ dim_at it i)
    → ((i : ℕ) → i < k → offset_at out i ≡ offset_at it i)
    → flat out k ≡ flat it k
flat-SameBelow it out zero d o = refl
flat-SameBelow it out (suc k) d o =
    rw (flat-SameBelow it out k (λ i b. d i (omega arith)) (λ i b. o i (omega arith)))
      (rw (d k (omega arith), o k (omega arith)) refl)

-- A change of the offsets below `k` moves the flat index by its change there, `stride` times.
pub flat-shift :
    (it out : MultidimIterator) (k r : ℕ)
    → ((i : ℕ) → i < k + r → dim_at out i ≡ dim_at it i)
    → ((i : ℕ) → k ≤ i → i < k + r → offset_at out i ≡ offset_at it i)
    → flat out (k + r) + flat it k * stride it k r ≡ flat it (k + r) + flat out k * stride it k r
flat-shift it out k zero d o = let e : k + 0 ≡ k = omega arith in rw e (omega arith)
flat-shift it out k (suc r) d o =
    let e : k + suc r ≡ suc (k + r) = omega arith in
    let ih = flat-shift it out k r (λ i b. d i (omega arith)) (λ i a b. o i a (omega arith)) in
    rw (e, d (k + r) (omega arith), o (k + r) (omega arith) (omega arith))
      (omega (arith, ap (λ (t : ℕ). t * dim_at it (k + r)) ih))

-- ===== src/Multidim/Ends.antt =====
-- `multidim_iterator_set_to_start` and `multidim_iterator_set_to_end`.
use cutl.Base.{
  ℕ, zero, suc, ◌+◌, ◌-◌, ◌*◌, ◌^◌, ◌≤◌, ◌<◌, ◌≡◌, ◌≢◌, refl, sym, ◌∙◌, ap, ap₂, arith, inl, inr,
  eq-or-ne, ◌⊎◌, sub64,
}
use cutl.Multidim.{
  MultidimIterator, dim_at, offset_at, set_offset, start_loop, set_to_start, end_loop, set_to_end,
}
use cutl.Multidim.Cells.{
  HasRoom, SameShape, SameShape-refl, SameShape-trans, SameShape-set_offset,
  offset_at-set_offset_self, offset_at-set_offset_ne,
}
use cutl.Multidim.Flat.{flat, volume}

-- The offsets of `out` from `i` up to `j` are as given, and the others are those of `it`.
record Fills (it out : MultidimIterator) (i j : ℕ) (value : ℕ → ℕ) : Type 0 where
  shape : SameShape it out
  inside : (k : ℕ) → i ≤ k → k < j → offset_at out k ≡ value k
  outside : (k : ℕ) → (k < i) ⊎ (j ≤ k) → offset_at out k ≡ offset_at it k

-- One write before a loop that fills the rest.
Fills-suc :
    (it out : MultidimIterator) (i j : ℕ) (value : ℕ → ℕ)
    → HasRoom it
    → i < j
    → j ≤ it.ndims
    → Fills (set_offset it i (value i)) out (i + 1) j value
    → Fills it out i j value
Fills-suc it out i j value room b inside f =
    let here = offset_at-set_offset_self it i (value i) room (omega arith) in
    record {
      shape =
          SameShape-trans it (set_offset it i (value i)) out
            (SameShape-set_offset it i (value i) room) f.shape;
      inside = λ k l u. elim (eq-or-ne k i) [
        | inl e ↦ rw e (f.outside i (inl (omega arith)) ∙ here)
        | inr ne ↦ f.inside k (omega arith) u
      ];
      outside =
          λ k o. f.outside k (outer k o) ∙ offset_at-set_offset_ne it i (value i) k (apart k o);
    }
  where
    outer : (k : ℕ) → (k < i) ⊎ (j ≤ k) → (k < i + 1) ⊎ (j ≤ k)
    outer k (inl l) = inl (omega arith)
    outer k (inr g) = inr g

    apart : (k : ℕ) → (k < i) ⊎ (j ≤ k) → i ≢ k
    apart k (inl l) = omega arith
    apart k (inr g) = omega arith

start_loop-Fills :
    (rounds i : ℕ) (it : MultidimIterator)
    → HasRoom it
    → i + rounds ≤ it.ndims
    → Fills it (start_loop rounds i it) i (i + rounds) (λ k. 0)
unfolding start_loop
start_loop-Fills zero i it room b = record {
  shape = SameShape-refl it room;
  inside = λ k l u. absurd (omega arith);
  outside = λ k o. refl;
}
start_loop-Fills (suc rounds) i it room b =
    let e : i + suc rounds ≡ i + 1 + rounds = omega arith in
    let s = SameShape-set_offset it i 0 room in
    Fills-suc it (start_loop rounds (i + 1) (set_offset it i 0)) i (i + suc rounds) (λ k. 0) room
      (omega arith) b
      (rw e (start_loop-Fills rounds (i + 1) (set_offset it i 0) s.room (omega (arith, s.ndims))))

end_loop-Fills :
    (rounds i : ℕ) (it : MultidimIterator)
    → HasRoom it
    → i + rounds ≤ it.ndims
    → Fills it (end_loop rounds i it) i (i + rounds) (λ k. sub64 (dim_at it k) 1)
unfolding end_loop
end_loop-Fills zero i it room b = record {
  shape = SameShape-refl it room;
  inside = λ k l u. absurd (omega arith);
  outside = λ k o. refl;
}
end_loop-Fills (suc rounds) i it room b =
    let e : i + suc rounds ≡ i + 1 + rounds = omega arith in
    let v : ℕ = sub64 (dim_at it i) 1 in
    let s = SameShape-set_offset it i v room in
    let ih = end_loop-Fills rounds (i + 1) (set_offset it i v) s.room (omega (arith, s.ndims)) in
    Fills-suc it (end_loop rounds (i + 1) (set_offset it i v)) i (i + suc rounds)
      (λ k. sub64 (dim_at it k) 1) room (omega arith) b
      (rw e (record {
        shape = ih.shape;
        inside = λ k l u. ih.inside k l u ∙ ap (λ d. sub64 d 1) (s.dims k (omega arith));
        outside = ih.outside;
      }))

-- The start: every offset is zero, and so is the flat index.
pub set_to_start_lem :
    (it : MultidimIterator)
    → HasRoom it
    → SameShape it (set_to_start it) × ((k : ℕ) → k < it.ndims → offset_at (set_to_start it) k ≡ 0)
unfolding set_to_start
set_to_start_lem it room =
    let f = start_loop-Fills it.ndims 0 it room (omega arith) in
    (f.shape, λ k b. f.inside k (omega arith) (omega arith))

flat_zero : (it : MultidimIterator) (k : ℕ) → ((i : ℕ) → i < k → offset_at it i ≡ 0) → flat it k ≡ 0
flat_zero it zero h = refl
flat_zero it (suc k) h =
    rw (flat_zero it k (λ i b. h i (omega arith)), h k (omega arith)) (omega arith)

pub flat-set_to_start : (it : MultidimIterator) → HasRoom it → flat (set_to_start it) it.ndims ≡ 0
flat-set_to_start it room = flat_zero (set_to_start it) it.ndims (set_to_start_lem it room).1

-- The end: every offset is the last one of its dimension, but the last offset is past it.
pub set_to_end_lem :
    (it : MultidimIterator)
    → HasRoom it
    → 0 < it.ndims
    → SameShape it (set_to_end it)
      × ((k : ℕ) → k + 1 < it.ndims → offset_at (set_to_end it) k ≡ sub64 (dim_at it k) 1)
      × (offset_at (set_to_end it) (it.ndims - 1) ≡ dim_at it (it.ndims - 1))
unfolding set_to_end
set_to_end_lem it room pos =
    let n : ℕ = it.ndims - 1 in
    let mid : MultidimIterator = end_loop n 0 it in
    let f = end_loop-Fills n 0 it room (omega arith) in
    let last : ℕ = dim_at it n in
    (
      SameShape-trans it mid (set_offset mid n last) f.shape
          (SameShape-set_offset mid n last f.shape.room),
      λ k b.
          offset_at-set_offset_ne mid n last k (omega arith)
          ∙ f.inside k (omega arith) (omega arith),
      offset_at-set_offset_self mid n last f.shape.room (omega (arith, f.shape.ndims)),
    )

-- The first `k` offsets at their last values.
flat_full :
    (it : MultidimIterator) (k : ℕ)
    → ((i : ℕ) → i < k → offset_at it i + 1 ≡ dim_at it i)
    → flat it k + 1 ≡ volume it k
flat_full it zero h = refl
flat_full it (suc k) h =
    let ih = flat_full it k (λ i b. h i (omega arith)) in
    let last = h k (omega arith) in omega (arith, ap (λ (t : ℕ). t * dim_at it k) ih)

pub volume-SameShape :
    (it out : MultidimIterator) (k : ℕ)
    → SameShape it out
    → k ≤ it.ndims
    → volume out k ≡ volume it k
volume-SameShape it out zero s b = refl
volume-SameShape it out (suc k) s b =
    ap₂ ◌*◌ (volume-SameShape it out k s (omega arith)) (s.dims k (omega arith))

-- The flat index of the end is the total size.
pub flat-set_to_end :
    (it : MultidimIterator)
    → HasRoom it
    → 0 < it.ndims
    → ((i : ℕ) → i < it.ndims → (0 < dim_at it i) × (dim_at it i < 2 ^ 64))
    → flat (set_to_end it) it.ndims ≡ volume it it.ndims
flat-set_to_end it room pos sized =
    let n : ℕ = it.ndims - 1 in
    let out : MultidimIterator = set_to_end it in
    let (shape, before, last) = set_to_end_lem it room pos in
    let e : it.ndims ≡ suc n = omega arith in
    let full : flat out n + 1 ≡ volume out n = flat_full out n (λ i b.
      rw (before i (omega arith), shape.dims i (omega arith))
        (omega (arith, (sized i (omega arith)).0, (sized i (omega arith)).1))) in
    let same = volume-SameShape it out n shape (omega arith) in
    let d : ℕ = dim_at it n in
    let rows : (flat out n + 1) * d ≡ volume it n * d = ap (λ (t : ℕ). t * d) (full ∙ same) in
    let step : flat out (suc n) ≡ volume it (suc n) =
      rw (shape.dims n (omega arith), last) (omega arith) in
    ap (λ k. flat out k) e ∙ step ∙ ap (λ k. volume it k) (sym e)

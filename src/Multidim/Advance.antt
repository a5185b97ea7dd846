-- ===== src/Multidim/Advance.antt =====
-- `multidim_iterator_advance` adds the step, `stride` times, to the flat index, or stops at the end.
use cutl.Base.{
  ℕ, zero, suc, ◌+◌, ◌*◌, ◌/◌, ◌%◌, ◌^◌, ◌≤◌, ◌<◌, ◌≡◌, ◌∙◌, ap, arith, inl, inr, lt-or-le,
  eq-or-ne, u64, lt→ltb, le→ltb, subst, carry_split, carry_lt, carry_le, carry_shrinks, carry_big,
}
use cutl.Multidim.{MultidimIterator, dim_at, offset_at, set_offset, set_to_end, advance_loop}
use cutl.Multidim.Cells.{
  HasRoom, SameShape, SameShape-refl, SameShape-trans, SameShape-set_offset,
  offset_at-set_offset_self, offset_at-set_offset_ne,
}
use cutl.Multidim.Flat.{flat, volume, Inside, flat-lt-volume, flat-SameBelow}
use cutl.Multidim.Ends.{volume-SameShape}
use native.Mathlib.Nat.{mod-lt}

-- The first `k` offsets moved to the flat index `value`, the others are as they were.
pub record Moved (it out : MultidimIterator) (k value : ℕ) : Type 0 where
  pub shape : SameShape it out
  pub above : (i : ℕ) → k ≤ i → i < it.ndims → offset_at out i ≡ offset_at it i
  pub inside : Inside out k
  pub index : flat out k ≡ value

-- Writing the last of the first `suc k` offsets.
pub Moved-set_offset :
    (it : MultidimIterator) (k v : ℕ)
    → HasRoom it
    → k < it.ndims
    → Inside it k
    → v < dim_at it k
    → Moved it (set_offset it k v) (suc k) (flat it k * dim_at it k + v)
Moved-set_offset it k v room b inside lt =
    let s = SameShape-set_offset it k v room in
    let here = offset_at-set_offset_self it k v room b in
    record {
      shape = s;
      above = λ i l u. offset_at-set_offset_ne it k v i (omega arith);
      inside = λ i u. elim (eq-or-ne i k) [
        | inl e ↦ rw e (rw (here, s.dims k b) lt)
        | inr ne ↦
            rw (offset_at-set_offset_ne it k v i (omega arith), s.dims i (omega arith))
              (inside i (omega arith))
      ];
      index =
          let below =
            flat-SameBelow it (set_offset it k v) k (λ i u. s.dims i (omega arith))
              (λ i u. offset_at-set_offset_ne it k v i (omega arith)) in
          rw (below, s.dims k b, here);
    }

-- The carry moves the dimensions below one that was written.
pub Moved-carry :
    (it out : MultidimIterator) (k v value : ℕ)
    → HasRoom it
    → suc k < it.ndims
    → v < dim_at it (suc k)
    → Moved (set_offset it (suc k) v) out (suc k) value
    → Moved it out (suc (suc k)) (value * dim_at it (suc k) + v)
Moved-carry it out k v value room b lt m =
    let s = SameShape-set_offset it (suc k) v room in
    let s' = SameShape-trans it (set_offset it (suc k) v) out s m.shape in
    let here : offset_at out (suc k) ≡ v =
      m.above (suc k) (omega arith) (omega (arith, s.ndims))
      ∙ offset_at-set_offset_self it (suc k) v room b in
    record {
      shape = s';
      above = λ i l u.
          m.above i (omega arith) (omega (arith, s.ndims))
          ∙ offset_at-set_offset_ne it (suc k) v i (omega arith);
      inside = λ i u. elim (eq-or-ne i (suc k)) [
        | inl e ↦ rw e (rw (here, s'.dims (suc k) b) lt)
        | inr ne ↦ m.inside i (omega arith)
      ];
      index = rw (here, s'.dims (suc k) b) (ap (λ t. t * dim_at it (suc k) + v) m.index);
    }

-- What the carry starts from: below the written dimension nothing changed.
pub Inside-set_offset :
    (it : MultidimIterator) (k v : ℕ)
    → HasRoom it
    → k ≤ it.ndims
    → Inside it k
    → Inside (set_offset it k v) k
      × (flat (set_offset it k v) k ≡ flat it k)
      × (volume (set_offset it k v) k ≡ volume it k)
Inside-set_offset it k v room b inside =
    let s = SameShape-set_offset it k v room in
    (
      λ i u.
          rw (offset_at-set_offset_ne it k v i (omega arith), s.dims i (omega arith)) (inside i u),
      flat-SameBelow it (set_offset it k v) k (λ i u. s.dims i (omega arith))
          (λ i u. offset_at-set_offset_ne it k v i (omega arith)),
      volume-SameShape it (set_offset it k v) k s b,
    )

-- Where the sum stays below the volume, the offsets become its digits.
pub advance_loop-Moved :
    (k step : ℕ) (it : MultidimIterator)
    → HasRoom it
    → k < it.ndims
    → Inside it (suc k)
    → flat it (suc k) + step < 2 ^ 64
    → flat it (suc k) + step < volume it (suc k)
    → Moved it (advance_loop k step it) (suc k) (flat it (suc k) + step)
unfolding advance_loop
advance_loop-Moved zero step it room b inside fits lt =
    let new : ℕ = offset_at it 0 + step in
    let small : u64 new ≡ new = omega arith in
    rw (small, lt→ltb new (dim_at it 0) (omega arith))
      (subst (λ t. Moved it (set_offset it 0 new) 1 t) (omega arith)
        (Moved-set_offset it 0 new room b (λ i u. absurd (omega arith)) (omega arith)))
advance_loop-Moved (suc k) step it room b inside fits lt =
    let d : ℕ = dim_at it (suc k) in
    let f : ℕ = flat it (suc k) in
    let new : ℕ = offset_at it (suc k) + step in
    let small : u64 new ≡ new = omega arith in
    let last = inside (suc k) (omega arith) in
    let before = λ (i : ℕ) (u : i < suc k). inside i (omega arith) in
    rw small (elim (lt-or-le new d) [
      | inl stays ↦ rw (lt→ltb new d stays) (
          subst (λ t. Moved it (set_offset it (suc k) new) (suc (suc k)) t) (omega arith)
            (Moved-set_offset it (suc k) new room b before stays))
      | inr carries ↦
          let next : MultidimIterator = set_offset it (suc k) (new % d) in
          let (inside', same, volume') =
            Inside-set_offset it (suc k) (new % d) room (omega arith) before in
          let s = SameShape-set_offset it (suc k) (new % d) room in
          let ih =
            advance_loop-Moved k (new / d) next s.room (omega (arith, s.ndims)) inside'
              (omega (arith, same, carry_shrinks f d new (omega arith)))
              (omega (arith, same, volume', carry_lt f d new (volume it (suc k)) (omega arith))) in
          rw (le→ltb new d carries) (
            subst (λ t. Moved it (advance_loop k (new / d) next) (suc (suc k)) t)
              (ap (λ t. (t + new / d) * d + new % d) same ∙ carry_split f d new ∙ omega arith)
              (Moved-carry it (advance_loop k (new / d) next) k (new % d)
                (flat next (suc k) + new / d) room b (mod-lt new {m = d} (omega arith)) ih))
    ])

advance_loop_carry :
    (k step : ℕ) (it : MultidimIterator) (new : ℕ)
    → u64 (offset_at it (suc k) + step) ≡ new
    → dim_at it (suc k) ≤ new
    → advance_loop (suc k) step it
      ≡ advance_loop k (new / dim_at it (suc k)) (set_offset it (suc k) (new % dim_at it (suc k)))
unfolding advance_loop
advance_loop_carry k step it new small carries = rw (small, le→ltb new (dim_at it (suc k)) carries)

-- Where it does not, the loop runs into the first dimension and goes to the end.
pub advance_loop_end :
    (k step : ℕ) (it : MultidimIterator)
    → HasRoom it
    → k < it.ndims
    → Inside it (suc k)
    → flat it (suc k) + step < 2 ^ 64
    → volume it (suc k) ≤ flat it (suc k) + step
    → (mid : MultidimIterator) × SameShape it mid × (advance_loop k step it ≡ set_to_end mid)
unfolding advance_loop
advance_loop_end zero step it room b inside fits ge =
    let new : ℕ = offset_at it 0 + step in
    let small : u64 new ≡ new = omega arith in
    (it, SameShape-refl it room, rw (small, le→ltb new (dim_at it 0) (omega arith)))
advance_loop_end (suc k) step it room b inside fits ge =
    let d : ℕ = dim_at it (suc k) in
    let f : ℕ = flat it (suc k) in
    let new : ℕ = offset_at it (suc k) + step in
    let small : u64 new ≡ new = omega arith in
    let last = inside (suc k) (omega arith) in
    let before = λ (i : ℕ) (u : i < suc k). inside i (omega arith) in
    let below = flat-lt-volume it (suc k) before in
    let enough : volume it (suc k) ≤ f + new / d =
      carry_le f d new (volume it (suc k)) (omega arith) (omega arith) in
    let carries : d ≤ new = carry_big f d new (volume it (suc k)) (omega arith) below in
    let next : MultidimIterator = set_offset it (suc k) (new % d) in
    let (inside', same, volume') =
      Inside-set_offset it (suc k) (new % d) room (omega arith) before in
    let s = SameShape-set_offset it (suc k) (new % d) room in
    let (mid, shape, e) =
      advance_loop_end k (new / d) next s.room (omega (arith, s.ndims)) inside'
        (omega (arith, same, carry_shrinks f d new (omega arith))) (omega (arith, same, volume')) in
    (mid, SameShape-trans it next mid s shape, advance_loop_carry k step it new small carries ∙ e)

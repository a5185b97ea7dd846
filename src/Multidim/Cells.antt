-- ===== src/Multidim/Cells.antt =====
-- Reading a dimension or an offset of the iterator after one of them was written.
use cutl.Base.{
  ℕ, ◌+◌, ◌≤◌, ◌<◌, ◌≡◌, ◌≢◌, refl, ◌∙◌, arith, length, length-set, get_or-set_self, get_or-set_ne,
}
use cutl.Multidim.{MultidimIterator, dim_at, offset_at, set_offset}

-- The array has room for the dimensions and the offsets.
abbrev pub HasRoom : MultidimIterator → Type 0
HasRoom it = it.ndims + it.ndims ≤ length it.cells

module _ (it : MultidimIterator) (i v : ℕ) where
  pub ndims-set_offset : (set_offset it i v).ndims ≡ it.ndims
  unfolding set_offset
  ndims-set_offset = refl

  pub HasRoom-set_offset : HasRoom it → HasRoom (set_offset it i v)
  unfolding set_offset
  HasRoom-set_offset h = omega (arith, length-set it.cells (it.ndims + i) v)

  pub offset_at-set_offset_self : HasRoom it → i < it.ndims → offset_at (set_offset it i v) i ≡ v
  unfolding set_offset offset_at
  offset_at-set_offset_self h b = get_or-set_self it.cells (it.ndims + i) v 0 (omega arith)

  pub offset_at-set_offset_ne : (j : ℕ) → i ≢ j → offset_at (set_offset it i v) j ≡ offset_at it j
  unfolding set_offset offset_at
  offset_at-set_offset_ne j ne =
      get_or-set_ne it.cells (it.ndims + i) (it.ndims + j) v 0 (omega arith)

  pub dim_at-set_offset : (j : ℕ) → j < it.ndims → dim_at (set_offset it i v) j ≡ dim_at it j
  unfolding set_offset dim_at
  dim_at-set_offset j b = get_or-set_ne it.cells (it.ndims + i) j v 0 (omega arith)

-- What no change of the offsets touches.
pub record SameShape (it out : MultidimIterator) : Type 0 where
  pub ndims : out.ndims ≡ it.ndims
  pub room : HasRoom out
  pub dims : (i : ℕ) → i < it.ndims → dim_at out i ≡ dim_at it i

pub SameShape-refl : (it : MultidimIterator) → HasRoom it → SameShape it it
SameShape-refl it h = record { ndims = refl; room = h; dims = λ i b. refl }

pub SameShape-trans :
    (it mid out : MultidimIterator) → SameShape it mid → SameShape mid out → SameShape it out
SameShape-trans it mid out s t = record {
  ndims = t.ndims ∙ s.ndims;
  room = t.room;
  dims = λ i b. t.dims i (rw (s.ndims) b) ∙ s.dims i b;
}

pub SameShape-set_offset :
    (it : MultidimIterator) (i v : ℕ) → HasRoom it → SameShape it (set_offset it i v)
SameShape-set_offset it i v h = record {
  ndims = ndims-set_offset it i v;
  room = HasRoom-set_offset it i v h;
  dims = λ j b. dim_at-set_offset it i v j b;
}

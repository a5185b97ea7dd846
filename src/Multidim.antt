-- ===== src/Multidim.antt =====
-- src/iterators/multidim_iteration.c: the iterator over a multidimensional array. The flexible array
-- `dims_and_offsets` is the list `cells`: the dimensions, with the offsets behind them from the cell
-- `ndims` on. A loop counter counts the rounds left and the index, so `ndims` is taken to fit the
-- `unsigned` that some of the loops count with.
pub mod Cells
pub mod Flat
pub mod Ends
pub mod Advance
pub mod Recede
pub mod Walk
pub mod Index
pub mod Back
pub mod AtEnd
pub mod Init
mod Tests
use cutl.Base.{
  ℕ, zero, suc, ◌+◌, ◌-◌, ◌*◌, ◌/◌, ◌%◌, Bool, true, false, Option, none, some, List, ltb, leb,
  ◌==◌, if◌then◌else◌, length, get_or, set, u64, sub64,
}

pub record MultidimIterator : Type 0 where
  pub ndims : ℕ
  pub cells : List ℕ

-- `multidim_iterator_dims_ptr(this)[i]` and `multidim_iterator_offsets_ptr(this)[i]`.
pub dim_at : MultidimIterator → ℕ → ℕ
dim_at it i = get_or it.cells i 0

pub offset_at : MultidimIterator → ℕ → ℕ
offset_at it i = get_or it.cells (it.ndims + i) 0

pub set_dim : MultidimIterator → ℕ → ℕ → MultidimIterator
set_dim it i v = record it { cells = set it.cells i v }

pub set_offset : MultidimIterator → ℕ → ℕ → MultidimIterator
set_offset it i v = record it { cells = set it.cells (it.ndims + i) v }

pub init_loop : ℕ → ℕ → List ℕ → MultidimIterator → MultidimIterator
init_loop zero i dims it = it
init_loop (suc rounds) i dims it =
    init_loop rounds (i + 1) dims (set_offset (set_dim it i (get_or dims i 0)) i 0)

-- `memory` is what the array holds before the call.
pub init : List ℕ → ℕ → List ℕ → MultidimIterator
init memory ndims dims = init_loop ndims 0 dims (record { ndims = ndims; cells = memory })

pub init_dim : MultidimIterator → ℕ → ℕ → MultidimIterator
init_dim it dim size =
    let sized = set_dim (record it { ndims = dim + 1 }) dim size in
    let cleared = if ltb 0 dim then set_offset sized (dim - 1) 0 else sized in
    set_offset cleared dim 0

pub start_loop : ℕ → ℕ → MultidimIterator → MultidimIterator
start_loop zero i it = it
start_loop (suc rounds) i it = start_loop rounds (i + 1) (set_offset it i 0)

pub set_to_start : MultidimIterator → MultidimIterator
set_to_start it = start_loop it.ndims 0 it

pub end_loop : ℕ → ℕ → MultidimIterator → MultidimIterator
end_loop zero i it = it
end_loop (suc rounds) i it = end_loop rounds (i + 1) (set_offset it i (sub64 (dim_at it i) 1))

pub set_to_end : MultidimIterator → MultidimIterator
set_to_end it =
    let filled = end_loop (it.ndims - 1) 0 it in
    set_offset filled (it.ndims - 1) (dim_at it (it.ndims - 1))

-- The loop that the `goto` makes, with the dimension first.
pub advance_loop : ℕ → ℕ → MultidimIterator → MultidimIterator
advance_loop zero step it =
    let new_offset = u64 (offset_at it 0 + step) in
    if ltb new_offset (dim_at it 0) then set_offset it 0 new_offset else set_to_end it
advance_loop (suc k) step it =
    let new_offset = u64 (offset_at it (suc k) + step) in
    let carried =
      advance_loop k (new_offset / dim_at it (suc k))
        (set_offset it (suc k) (new_offset % dim_at it (suc k))) in
    if ltb new_offset (dim_at it (suc k)) then set_offset it (suc k) new_offset else carried

-- `none` is the failed assertion.
pub advance : MultidimIterator → ℕ → ℕ → Option MultidimIterator
advance it dim step = if ltb dim it.ndims then some (advance_loop dim step it) else none

-- `(remaining + dim - 1) / dim`
pub required_steps : ℕ → ℕ → ℕ
required_steps remaining dim = sub64 (u64 (remaining + dim)) 1 / dim

pub recede_loop : ℕ → ℕ → MultidimIterator → MultidimIterator
recede_loop zero step it =
    if leb step (offset_at it 0) then set_offset it 0 (offset_at it 0 - step) else set_to_start it
recede_loop (suc k) step it =
    let offset = offset_at it (suc k) in
    let dim = dim_at it (suc k) in
    let required = required_steps (step - offset) dim in
    let carried =
      recede_loop k required
        (set_offset it (suc k) (sub64 (u64 (offset + u64 (required * dim))) step)) in
    if leb step offset then set_offset it (suc k) (offset - step) else carried

pub recede : MultidimIterator → ℕ → ℕ → Option MultidimIterator
recede it dim step = if ltb dim it.ndims then some (recede_loop dim step it) else none

pub start_test : ℕ → ℕ → MultidimIterator → Bool
start_test zero i it = true
start_test (suc rounds) i it =
    let rest = start_test rounds (i + 1) it in if offset_at it i == 0 then rest else false

pub is_at_start : MultidimIterator → Bool
is_at_start it = start_test it.ndims 0 it

pub end_test : ℕ → ℕ → MultidimIterator → Bool
end_test zero i it = true
end_test (suc rounds) i it =
    let rest = end_test rounds (i + 1) it in
    if offset_at it i == sub64 (dim_at it i) 1 then rest else false

pub is_at_end : MultidimIterator → Bool
is_at_end it =
    if end_test (it.ndims - 1) 0 it
    then offset_at it (it.ndims - 1) == dim_at it (it.ndims - 1)
    else false

pub flat_loop : ℕ → ℕ → MultidimIterator → ℕ → ℕ
flat_loop zero i it index = index
flat_loop (suc rounds) i it index =
    flat_loop rounds (i + 1) it (u64 (u64 (index * dim_at it i) + offset_at it i))

pub get_flat_index : MultidimIterator → ℕ
get_flat_index it = flat_loop it.ndims 0 it 0

pub get_dim : MultidimIterator → ℕ → Option ℕ
get_dim it dim = if ltb dim it.ndims then some (dim_at it dim) else none

pub get_offset : MultidimIterator → ℕ → Option ℕ
get_offset it dim = if ltb dim it.ndims then some (offset_at it dim) else none

pub size_loop : ℕ → ℕ → MultidimIterator → ℕ → ℕ
size_loop zero i it total_size = total_size
size_loop (suc rounds) i it total_size =
    size_loop rounds (i + 1) it (u64 (total_size * dim_at it i))

pub total_size : MultidimIterator → ℕ
total_size it = size_loop it.ndims 0 it 1

pub copy_dims : ℕ → ℕ → MultidimIterator → MultidimIterator → MultidimIterator
copy_dims zero i it that = that
copy_dims (suc rounds) i it that = copy_dims rounds (i + 1) it (set_dim that i (dim_at it i))

pub copy_offsets : ℕ → ℕ → MultidimIterator → MultidimIterator → MultidimIterator
copy_offsets zero i it that = that
copy_offsets (suc rounds) i it that =
    copy_offsets rounds (i + 1) it (set_offset that i (offset_at it i))

pub copy : MultidimIterator → MultidimIterator → Option MultidimIterator
copy it that =
    if it.ndims == that.ndims
    then some (copy_offsets it.ndims 0 it (copy_dims it.ndims 0 it that))
    else none

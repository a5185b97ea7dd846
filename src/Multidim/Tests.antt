-- ===== src/Multidim/Tests.antt =====
-- Runs of the multidimensional iterator, and the theorems about it at concrete inputs.
use cutl.Base.{
  ℕ, zero, suc, ◌+◌, ◌*◌, ◌-◌, ◌≡◌, refl, ◌<◌, min, arith, true, none, some, List, [], ◌∷◌, leb,
}
use cutl.Multidim.{
  MultidimIterator, dim_at, offset_at, set_dim, set_offset, init_loop, init, init_dim, start_loop,
  set_to_start, end_loop, set_to_end, advance_loop, advance, required_steps, recede_loop, recede,
  start_test, is_at_start, end_test, is_at_end, flat_loop, get_flat_index, get_dim, get_offset,
  size_loop, total_size, copy_dims, copy_offsets, copy,
}
use cutl.Multidim.Walk.{IsValid, step_size}
use cutl.Multidim.Index.{get_flat_index-advance}
use cutl.Multidim.Back.{get_flat_index-recede, recede-advance}
use cutl.Multidim.AtEnd.{is_at_end-advance}
use cutl.Multidim.Init.{init_dims, init_dims-start}

abbrev memory : List ℕ
memory = 9 ∷ 9 ∷ 9 ∷ 9 ∷ []

-- At row 1 and column 0 of 2 rows and 3 columns.
abbrev row_one : MultidimIterator
row_one = record { ndims = 2; cells = 2 ∷ 3 ∷ 1 ∷ 0 ∷ [] }

abbrev start : MultidimIterator
start = record { ndims = 2; cells = 2 ∷ 3 ∷ 0 ∷ 0 ∷ [] }

init-start : init memory 2 (2 ∷ 3 ∷ []) ≡ start
unfolding init init_loop set_dim set_offset
init-start = refl

init_dim-start : init_dim (init_dim (record start { cells = memory }) 0 2) 1 3 ≡ start
unfolding init_dim set_dim set_offset
init_dim-start = refl

advance-start : advance start 1 4 ≡ some (record start { cells = 2 ∷ 3 ∷ 1 ∷ 1 ∷ [] })
unfolding advance advance_loop set_offset offset_at dim_at
advance-start = refl

recede-row_one : recede row_one 1 2 ≡ some (record start { cells = 2 ∷ 3 ∷ 0 ∷ 1 ∷ [] })
unfolding recede recede_loop required_steps set_offset offset_at dim_at
recede-row_one = refl

is_at_end-set_to_end : is_at_end (set_to_end start) ≡ true
unfolding is_at_end end_test set_to_end end_loop set_offset offset_at dim_at
is_at_end-set_to_end = refl

is_at_start-set_to_start : is_at_start (set_to_start row_one) ≡ true
unfolding is_at_start start_test set_to_start start_loop set_offset offset_at
is_at_start-set_to_start = refl

row_one_reads :
    (get_flat_index row_one ≡ 3)
    × (total_size row_one ≡ 6)
    × (get_dim row_one 1 ≡ some 3)
    × (get_offset row_one 0 ≡ some 1)
    × (get_offset row_one 2 ≡ none)
unfolding get_flat_index flat_loop total_size size_loop get_dim get_offset dim_at offset_at
row_one_reads = (refl, refl, refl, refl, refl)

copy-row_one : copy row_one start ≡ some row_one
unfolding copy copy_dims copy_offsets set_dim set_offset dim_at offset_at
copy-row_one = refl

row_one-inside : (i : ℕ) → i < 2 → offset_at row_one i < dim_at row_one i
unfolding offset_at dim_at
row_one-inside zero b = omega arith
row_one-inside (suc zero) b = omega arith
row_one-inside (suc (suc i)) b = absurd (omega arith)

row_one-IsValid : IsValid row_one
unfolding dim_at
row_one-IsValid = record {
  room = omega arith;
  some_dims = omega arith;
  inside = row_one-inside;
  fits = omega arith;
}

get_flat_index-advance_example :
    (out : MultidimIterator) × (advance row_one 1 2 ≡ some out)
    × (get_flat_index out
        ≡ min (get_flat_index row_one + 2 * step_size row_one 1) (total_size row_one))
unfolding dim_at
get_flat_index-advance_example =
    get_flat_index-advance row_one 1 2 row_one-IsValid (omega arith) (omega arith)

get_flat_index-recede_example :
    (out : MultidimIterator) × (recede row_one 1 2 ≡ some out)
    × (get_flat_index out ≡ get_flat_index row_one - 2 * step_size row_one 1)
get_flat_index-recede_example =
    get_flat_index-recede row_one 1 2 row_one-IsValid (omega arith) (omega arith)

recede-advance_example :
    (mid out : MultidimIterator) × (advance row_one 1 2 ≡ some mid)
    × (recede mid 1 2 ≡ some out)
    × (offset_at out 0 ≡ offset_at row_one 0)
    × (dim_at out 0 ≡ dim_at row_one 0)
unfolding get_flat_index total_size flat_loop size_loop dim_at offset_at
recede-advance_example =
    recede-advance row_one 1 2 0 row_one-IsValid (omega arith) (omega arith) (omega arith)
      (omega arith)

is_at_end-advance_example :
    (out : MultidimIterator) × (advance row_one 1 3 ≡ some out)
    × (is_at_end out ≡ leb (total_size row_one) (get_flat_index row_one + 3 * step_size row_one 1))
unfolding dim_at
is_at_end-advance_example =
    is_at_end-advance row_one 1 3 row_one-IsValid (omega arith) (omega arith)

init_dims-start_example :
    let out = init_dims 0 (2 ∷ 3 ∷ []) (record start { cells = memory }) in
    (out.ndims ≡ 2) × (dim_at out 1 ≡ 3) × (offset_at out 1 ≡ 0)
init_dims-start_example =
    init_dims-start (record start { cells = memory }) 2 (3 ∷ []) 1 (omega arith) (omega arith)

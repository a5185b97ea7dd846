-- ===== src/Permutation/Tests.antt =====
-- Runs of the iterator over permutations, and the theorems about it at concrete inputs.
use cutl.Base.{
  ℕ, zero, suc, ◌⊎◌, ◌≡◌, ◌≢◌, ◌<◌, refl, arith, true, false, none, some, List, [], ◌∷◌,
}
use cutl.Permutation.{
  PermutationIterator, fill_ascending, fill_cycles, reset, init, current_at, is_done, rotate_loop,
  output_loop, rotate, swap, next_loop, next, smaller_loop, sign_loop, current_sign, product_loop,
  calculate_permutation_count, total_count, iterator_total_count,
}
use cutl.Permutation.Run.{iterate, is_done-iterate-arrangements}
use cutl.Permutation.Distinct.{current_at-iterate}
use cutl.Permutation.Count.{total_count-eq-arrangements}

abbrev memory : List ℕ
memory = 9 ∷ 9 ∷ 9 ∷ 9 ∷ 9 ∷ 9 ∷ 9 ∷ []

-- Two out of three elements, from the start.
abbrev fresh : PermutationIterator
fresh = record { n = 3; r = 2; cells = 0 ∷ 1 ∷ 2 ∷ 3 ∷ 2 ∷ 0 ∷ 1 ∷ [] }

init-fresh : init memory 3 2 ≡ some fresh
unfolding init reset fill_ascending fill_cycles
init-fresh = refl

init_too_many : init memory 1 2 ≡ none
unfolding init
init_too_many = refl

next_three :
    (current_at (next (next (next fresh))) 0 ≡ 1)
    × (current_at (next (next (next fresh))) 1 ≡ 2)
    × (current_sign (next fresh) ≡ 0)
    × (current_sign (next (next fresh)) ≡ 1)
unfolding current_at current_sign sign_loop smaller_loop next next_loop rotate rotate_loop swap
    output_loop
next_three = (refl, refl, refl, refl)

is_done-sixth : is_done (next (next (next (next (next (next fresh)))))) ≡ true
unfolding is_done next next_loop rotate rotate_loop swap output_loop
is_done-sixth = refl

iterator_total_count-fresh : iterator_total_count fresh ≡ 6
unfolding iterator_total_count total_count calculate_permutation_count product_loop
iterator_total_count-fresh = refl

is_done-iterate-arrangements_example : is_done (iterate 5 fresh) ≡ false
is_done-iterate-arrangements_example =
    is_done-iterate-arrangements memory 3 2 5 (omega arith) (omega arith) refl init-fresh
      (omega arith)

total_count-eq-arrangements_example : total_count 3 2 ≡ 6
total_count-eq-arrangements_example = total_count-eq-arrangements 3 2 (omega arith) (omega arith)

current_at-iterate_example :
    (current_at (iterate 4 fresh) 0 < 3)
    × ((zero ≡ suc zero) ⊎ (current_at (iterate 4 fresh) 0 ≢ current_at (iterate 4 fresh) 1))
current_at-iterate_example =
    current_at-iterate memory 3 2 4 0 1 (omega arith) refl init-fresh (omega arith) (omega arith)
      (omega arith)

-- ===== src/Combination/Tests.antt =====
-- Runs of the iterator over combinations, and the theorems about it at concrete inputs.
use cutl.Base.{ℕ, ◌≡◌, refl, ◌<◌, arith, true, false, none, some, List, [], ◌∷◌, length, get_elem?}
use cutl.Combination.{
  CombinationIterator, reset_loop, reset, init, current, is_done, roll_over, next_loop, next,
  product_loop, quotient_loop, calculate_combination_count, total_count, iterator_total_count,
  contribution_loop, index_loop, all_below, all_ascending, get_index, find_value, set_loop,
  set_to_index, iterator_set_to_index,
}
use cutl.Combination.Binomial.{}
use cutl.Combination.Rank.{combinations, IsFrom}
use cutl.Combination.Count.{total_count-eq-binom}
use cutl.Combination.Index.{get_index_accepts, get_index-combinations}
use cutl.Combination.Enumerate.{iterate, iterate-combinations, is_done-iterate}
use cutl.Combination.Unrank.{set_to_index-combinations, get_index-set_to_index}

-- Two out of four elements, from the start.
abbrev fresh : CombinationIterator
fresh = record { n = 4; r = 2; counters = 0 ∷ 1 ∷ [] }

abbrev garbage : List ℕ
garbage = 7 ∷ 9 ∷ []

init-fresh : init garbage 4 2 ≡ some fresh
unfolding init reset reset_loop
init-fresh = refl

init_too_many : init garbage 1 2 ≡ none
unfolding init
init_too_many = refl

current-next : current (next (next (next fresh))) ≡ 1 ∷ 2 ∷ []
unfolding current next next_loop roll_over is_done
current-next = refl

next_at_end : next (record fresh { counters = 3 ∷ 4 ∷ [] }) ≡ record fresh { counters = 3 ∷ 4 ∷ [] }
unfolding next is_done next_loop
next_at_end = refl

iterator_total_count-fresh : iterator_total_count fresh ≡ 6
unfolding iterator_total_count total_count calculate_combination_count product_loop quotient_loop
iterator_total_count-fresh = refl

get_index-last : get_index 4 2 (2 ∷ 3 ∷ []) ≡ some 5
unfolding get_index all_below all_ascending index_loop contribution_loop calculate_combination_count
    product_loop quotient_loop
get_index-last = refl

iterator_set_to_index-fresh : current (iterator_set_to_index fresh 4) ≡ 1 ∷ 3 ∷ []
unfolding current iterator_set_to_index set_to_index set_loop find_value calculate_combination_count
    product_loop quotient_loop
iterator_set_to_index-fresh = refl

iterate-combinations_example :
    (is_done (iterate 3 fresh) ≡ false)
    × (get_elem? (combinations 0 4 2) 3 ≡ some (iterate 3 fresh).counters)
iterate-combinations_example =
    iterate-combinations garbage 4 1 3 (omega arith) refl init-fresh (omega arith)

is_done-iterate_example : is_done (iterate 6 fresh) ≡ true
is_done-iterate_example = is_done-iterate garbage 4 1 (omega arith) refl init-fresh

set_to_index-combinations_example :
    (IsFrom 4 0 (set_to_index 4 2 garbage 4))
    × (length (set_to_index 4 2 garbage 4) ≡ 2)
    × (get_elem? (combinations 0 4 2) 4 ≡ some (set_to_index 4 2 garbage 4))
set_to_index-combinations_example =
    set_to_index-combinations 4 1 4 garbage refl (omega arith) (omega arith) (omega arith)
      (omega arith)

get_index-set_to_index_example : get_index 4 2 (set_to_index 4 2 garbage 4) ≡ some 4
get_index-set_to_index_example =
    get_index-set_to_index 4 1 4 garbage refl (omega arith) (omega arith) (omega arith)
      (omega arith)

two_three : IsFrom 4 0 (2 ∷ 3 ∷ [])
two_three = (omega arith, omega arith, (omega arith, omega arith, tt))

get_index-combinations_example :
    (i : ℕ) × (get_index 4 2 (2 ∷ 3 ∷ []) ≡ some i)
    × (i < 6)
    × (get_elem? (combinations 0 4 2) i ≡ some (2 ∷ 3 ∷ []))
get_index-combinations_example =
    get_index-combinations 4 (2 ∷ 3 ∷ []) two_three (omega arith) (omega arith) (omega arith)

get_index_accepts_example : IsFrom 4 0 (2 ∷ 3 ∷ [])
get_index_accepts_example = get_index_accepts 4 (2 ∷ 3 ∷ []) get_index-last

total_count-eq-binom_example : total_count 4 2 ≡ 6
total_count-eq-binom_example = total_count-eq-binom 4 2 (omega arith) (omega arith) (omega arith)

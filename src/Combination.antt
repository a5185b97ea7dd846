-- ===== src/Combination.antt =====
-- src/iterators/combination_iterator.c: the iterator over the combinations of `r` out of `n`
-- elements, their number, and the index of a combination in lexicographic order.
-- The flexible array `counters` is a list. The assertions of a function are its `none`.
pub mod Binomial
pub mod Count
pub mod Rank
pub mod Index
pub mod Step
pub mod Next
pub mod Enumerate
pub mod Unrank
mod Tests
use cutl.Base.{
  ℕ, zero, suc, ◌+◌, ◌-◌, ◌*◌, ◌/◌, Bool, true, false, ◌&&◌, ◌||◌, Option, none, some, List, [],
  ◌∷◌, ltb, leb, ◌==◌, if◌then◌else◌, length, get_or, set, u8, u32, u64,
}

pub record CombinationIterator : Type 0 where
  pub n : ℕ
  pub r : ℕ
  pub counters : List ℕ

-- `for (i = 0; i < r; ++i) counters[i] = i`, with the rounds left first.
pub reset_loop : ℕ → ℕ → List ℕ → List ℕ
reset_loop zero i counters = counters
reset_loop (suc rounds) i counters = reset_loop rounds (i + 1) (set counters i (u8 i))

pub reset : CombinationIterator → CombinationIterator
reset it =
    if it.r == 0
    then record it { counters = set it.counters 0 0 }
    else record it { counters = reset_loop it.r 0 it.counters }

-- `memory` is what the array holds before the call.
pub init : List ℕ → ℕ → ℕ → Option CombinationIterator
init memory n r =
    if leb r n then some (reset (record { n = n; r = r; counters = memory })) else none

pub current : CombinationIterator → List ℕ
current it = it.counters

pub is_done : CombinationIterator → Bool
is_done it =
    if it.r == 0 then get_or it.counters 0 0 == 1 else get_or it.counters (it.r - 1) 0 == it.n

-- `for (j = idx + 1; j < r; ++j) counters[j] = counters[j - 1] + 1`, with the rounds left first.
pub roll_over : ℕ → ℕ → List ℕ → List ℕ
roll_over zero j counters = counters
roll_over (suc rounds) j counters =
    roll_over rounds (j + 1) (set counters j (u8 (get_or counters (j - 1) 0 + 1)))

-- The loop of `next` from the counter `i - 1` down, with `i` first.
pub next_loop : ℕ → ℕ → ℕ → List ℕ → List ℕ
next_loop zero n r counters = counters
next_loop (suc idx) n r counters =
    let cnt = u8 (get_or counters idx 0 + 1) in
    let advanced = set counters idx cnt in
    let rest = next_loop idx n r advanced in
    if (cnt + (r - (idx + 1))) == n then rest else roll_over (r - (idx + 1)) (idx + 1) advanced

pub next : CombinationIterator → CombinationIterator
next it =
    if is_done it
    then it
    else if it.r == 0
    then record it { counters = set it.counters 0 1 }
    else record it { counters = next_loop it.r it.n it.r it.counters }

-- `for (i = n; i + r > n; --i) count *= i`. At `i = 0` with `r > n` the counter wraps round, and the
-- product, zero by then, stays zero until the loop ends.
pub product_loop : ℕ → ℕ → ℕ → ℕ → ℕ
product_loop zero n r count = if ltb n r then 0 else count
product_loop (suc i) n r count =
    let rest = product_loop i n r (u64 (count * suc i)) in if ltb n (suc i + r) then rest else count

-- `for (i = r; i > 1; --i) count /= i`
pub quotient_loop : ℕ → ℕ → ℕ
quotient_loop zero count = count
quotient_loop (suc zero) count = count
quotient_loop (suc (suc i)) count = quotient_loop (suc i) (count / suc (suc i))

pub calculate_combination_count : ℕ → ℕ → ℕ
calculate_combination_count n r =
    if n == r || r == 0 then 1 else if r == 1 then n else quotient_loop r (product_loop n n r 1)

pub total_count : ℕ → ℕ → ℕ
total_count n r = u32 (calculate_combination_count n r)

pub iterator_total_count : CombinationIterator → ℕ
iterator_total_count it = total_count it.n it.r

-- `for (j = min_v; j < ci; ++j) p += count(n - 1 - j, r - 1 - i)`, with the rounds left first;
-- `k` is `r - 1 - i`.
pub contribution_loop : ℕ → ℕ → ℕ → ℕ → ℕ → ℕ
contribution_loop zero n k j p = p
contribution_loop (suc rounds) n k j p =
    contribution_loop rounds n k (j + 1)
      (u32 (p + calculate_combination_count (u8 (n - 1 - j)) (u8 k)))

-- The loop over the positions `i`, with the values that are left.
pub index_loop : List ℕ → ℕ → ℕ → ℕ → ℕ → ℕ
index_loop [] n r min_v index = index
index_loop (ci ∷ vals) n r min_v index =
    index_loop vals n (r - 1) (ci + 1)
      (u32 (index + contribution_loop (ci - min_v) n (r - 1) min_v 0))

-- The two loops of assertions: every value is below `n`, and each is above the one before.
pub all_below : ℕ → List ℕ → Bool
all_below n [] = true
all_below n (v ∷ vals) = ltb v n && all_below n vals

pub all_ascending : List ℕ → Bool
all_ascending [] = true
all_ascending (v ∷ []) = true
all_ascending (v ∷ w ∷ vals) = ltb v w && all_ascending (w ∷ vals)

-- `vals` has length `r`.
pub get_index : ℕ → ℕ → List ℕ → Option ℕ
get_index n r vals =
    if leb r n
    then (if r == 0
        then some 0
        else if all_below n vals && all_ascending vals
        then some (index_loop vals n r 0 0)
        else none)
    else none

-- `for (j = min_val; j < n - r + i; ++j)`, with the rounds left first: the `j` at which the loop
-- stops, and what remains of the index; `k` is `r - 1 - i`.
pub find_value : ℕ → ℕ → ℕ → ℕ → ℕ → ℕ × ℕ
find_value zero n k j remaining = (j, remaining)
find_value (suc rounds) n k j remaining =
    let count = calculate_combination_count (n - 1 - j) k in
    let rest = find_value rounds n k (j + 1) (u32 (remaining - count)) in
    if ltb remaining count then (j, remaining) else rest

-- The loop over the positions `i < r - 1`, with the rounds left first, and the last write.
pub set_loop : ℕ → ℕ → ℕ → ℕ → ℕ → ℕ → List ℕ → List ℕ
set_loop zero i n r min_val remaining vals = set vals (r - 1) (u8 (min_val + remaining))
set_loop (suc rounds) i n r min_val remaining vals =
    let (j, left) = find_value (n - r + i - min_val) n (r - 1 - i) min_val remaining in
    set_loop rounds (i + 1) n r (j + 1) left (set vals i (u8 j))

pub set_to_index : ℕ → ℕ → List ℕ → ℕ → List ℕ
set_to_index n r vals index = if r == 0 then vals else set_loop (r - 1) 0 n r 0 index vals

pub iterator_set_to_index : CombinationIterator → ℕ → CombinationIterator
iterator_set_to_index it index = record it { counters = set_to_index it.n it.r it.counters index }

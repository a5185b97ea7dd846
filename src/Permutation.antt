-- ===== src/Permutation.antt =====
-- src/iterators/permutation_iterator.c: the iterator over the permutations of `r` out of `n`
-- elements. The flexible array `_data` is the list `cells`: `n` indices, behind them `r` cycles, and
-- behind those the `r` values that the caller reads.
pub mod Cycles
pub mod Steps
pub mod Rearranged
pub mod Values
pub mod Start
pub mod Run
pub mod Distinct
pub mod Count
mod Tests
use cutl.Base.{
  ℕ, zero, suc, ◌+◌, ◌-◌, ◌*◌, ◌%◌, Bool, Option, none, some, List, ltb, leb, ◌==◌, if◌then◌else◌,
  get_or, set, u8, u32, u64,
}

pub record PermutationIterator : Type 0 where
  pub n : ℕ
  pub r : ℕ
  pub cells : List ℕ

-- `for (i = 0; i < n; ++i) indices[i] = i`, with the rounds left first; the values likewise.
pub fill_ascending : ℕ → ℕ → ℕ → List ℕ → List ℕ
fill_ascending zero start i cells = cells
fill_ascending (suc rounds) start i cells =
    fill_ascending rounds start (i + 1) (set cells (start + i) (u8 i))

-- `for (i = 0; i < r; ++i) cycles[i] = n - i`
pub fill_cycles : ℕ → ℕ → ℕ → List ℕ → List ℕ
fill_cycles zero n i cells = cells
fill_cycles (suc rounds) n i cells = fill_cycles rounds n (i + 1) (set cells (n + i) (u8 (n - i)))

pub reset : PermutationIterator → PermutationIterator
reset it = record it {
  cells =
      fill_ascending it.r (it.n + it.r) 0
        (fill_cycles it.r it.n 0 (fill_ascending it.n 0 0 it.cells));
}

-- `memory` is what the array holds before the call; `none` is the failed assertion.
pub init : List ℕ → ℕ → ℕ → Option PermutationIterator
init memory n r = if leb r n then some (reset (record { n = n; r = r; cells = memory })) else none

-- The `i`-th of the values that `permutation_iterator_current` points to.
pub current_at : PermutationIterator → ℕ → ℕ
current_at it i = get_or it.cells (it.n + it.r + i) 0

pub is_done : PermutationIterator → Bool
is_done it = get_or it.cells it.n 0 == 0

-- `for (i = k; i < n; ++i) indices[i] = indices[i + 1]`, with the rounds left first. The last round
-- reads the first cycle, and what it writes is overwritten behind the loop.
pub rotate_loop : ℕ → ℕ → List ℕ → List ℕ
rotate_loop zero i cells = cells
rotate_loop (suc rounds) i cells = rotate_loop rounds (i + 1) (set cells i (get_or cells (i + 1) 0))

-- `for (i = k; i < r; ++i) value[i] = indices[i]`
pub output_loop : ℕ → ℕ → ℕ → ℕ → List ℕ → List ℕ
output_loop zero i n r cells = cells
output_loop (suc rounds) i n r cells =
    output_loop rounds (i + 1) n r (set cells (n + r + i) (get_or cells i 0))

-- The branch for a cycle that reached zero, and the one for the others.
pub rotate : ℕ → ℕ → List ℕ → List ℕ
rotate k n cells =
    let tmp = get_or cells k 0 in
    set (set (rotate_loop (n - k) k cells) (n - 1) tmp) (n + k) (u8 (n - k))

pub swap : ℕ → ℕ → List ℕ → List ℕ
swap k1 k2 cells = let tmp = get_or cells k1 0 in set (set cells k1 (get_or cells k2 0)) k2 tmp

-- The loop of `next` from the position `kv - 1` down, with `kv` first, and the write behind it.
pub next_loop : ℕ → ℕ → ℕ → List ℕ → List ℕ
next_loop zero n r cells = set cells n 0
next_loop (suc k) n r cells =
    let ck = u8 (get_or cells (n + k) 0 + 255) in
    let lowered = set cells (n + k) ck in
    let rest = next_loop k n r (rotate k n lowered) in
    if ck == 0 then rest else output_loop (r - k) k n r (swap k (n - ck) lowered)

pub next : PermutationIterator → PermutationIterator
next it = record it { cells = next_loop it.r it.n it.r it.cells }

-- `for (j = 0; j < i; ++j) sign += v < value[j]`, with the rounds left first.
pub smaller_loop : ℕ → ℕ → ℕ → PermutationIterator → ℕ → ℕ
smaller_loop zero j v it sign = sign
smaller_loop (suc rounds) j v it sign =
    smaller_loop rounds (j + 1) v it (sign + (if ltb v (current_at it j) then 1 else 0))

pub sign_loop : ℕ → ℕ → PermutationIterator → ℕ → ℕ
sign_loop zero i it sign = sign
sign_loop (suc rounds) i it sign =
    sign_loop rounds (i + 1) it (smaller_loop i 0 (current_at it i) it sign)

-- The sum is at most 255 * 254 / 2, so the `int` does not overflow.
pub current_sign : PermutationIterator → ℕ
current_sign it = sign_loop (it.r - 1) 1 it 0 % 2

-- `for (i = n; i + r > n; --i) count *= i`. At `i = 0` with `r > n` the counter wraps round, and the
-- product, zero by then, stays zero until the loop ends.
pub product_loop : ℕ → ℕ → ℕ → ℕ → ℕ
product_loop zero n r count = if ltb n r then 0 else count
product_loop (suc i) n r count =
    let rest = product_loop i n r (u64 (count * suc i)) in if ltb n (suc i + r) then rest else count

pub calculate_permutation_count : ℕ → ℕ → ℕ
calculate_permutation_count n r = if r == 0 then 1 else if r == 1 then n else product_loop n n r 1

pub total_count : ℕ → ℕ → ℕ
total_count n r = u32 (calculate_permutation_count n r)

pub iterator_total_count : PermutationIterator → ℕ
iterator_total_count it = total_count it.n it.r

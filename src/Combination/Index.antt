-- ===== src/Combination/Index.antt =====
-- `combination_get_index` returns the place of a combination in lexicographic order.
use cutl.Base.{
  ℕ, zero, suc, ◌+◌, ◌-◌, ◌^◌, ◌≤◌, ◌<◌, ◌≡◌, refl, ◌∙◌, arith, List, [], ◌∷◌, true, some, length,
  get_elem?, u8, u32, ap, get_or, le→leb, lt→ltb, ne→==,
}
use cutl.Combination.{
  calculate_combination_count, contribution_loop, index_loop, all_below, all_ascending, get_index,
}
use cutl.Combination.Binomial.{binom, falling, falling_mono, falling-le-suc}
use cutl.Combination.Count.{calculate_combination_count-eq-binom}
use cutl.Combination.Rank.{
  combinations, IsFrom, rank, length-le, pascal_at, rank-lt, get_elem?-rank,
}

-- The factors of every count that a step from `m` on needs fit 64 bits if those of the whole do.
pub falling_step :
    (n m j k : ℕ)
    → m ≤ j
    → j < n
    → falling (n - m) (suc k) < 2 ^ 64
    → falling (n - 1 - j) k < 2 ^ 64
falling_step n m j k h b fits = omega (
  arith,
  falling-le-suc (n - 1 - j) k,
  falling_mono (suc (n - 1 - j)) (n - m) (suc k) (omega arith),
)

pub count_at :
    (n m j k : ℕ)
    → m ≤ j
    → j + k < n
    → falling (n - m) (suc k) < 2 ^ 64
    → calculate_combination_count (n - 1 - j) k ≡ binom (n - (j + 1)) k
count_at n m j k h b fits =
    let e : n - 1 - j ≡ n - (j + 1) = omega arith in
    calculate_combination_count-eq-binom (n - 1 - j) k (omega arith)
      (falling_step n m j k h (omega arith) fits)
    ∙ rw e refl

-- The inner loop adds up the combinations that have a smaller value at this position.
contribution_loop_lem :
    (rounds n k m j p : ℕ)
    → m ≤ j
    → j + rounds + k < n
    → n ≤ 2 ^ 8
    → falling (n - m) (suc k) < 2 ^ 64
    → p + binom (n - j) (suc k) < 2 ^ 32
    → contribution_loop rounds n k j p + binom (n - (j + rounds)) (suc k)
      ≡ p + binom (n - j) (suc k)
unfolding contribution_loop
contribution_loop_lem zero n k m j p h b top fits small =
    let e : j + 0 ≡ j = omega arith in rw e refl
contribution_loop_lem (suc rounds) n k m j p h b top fits small =
    let e : j + suc rounds ≡ j + 1 + rounds = omega arith in
    let step = pascal_at n j k (omega arith) in
    let sum : u32 (p + binom (n - (j + 1)) k) ≡ p + binom (n - (j + 1)) k = omega arith in
    let first : u8 (n - 1 - j) ≡ n - 1 - j = omega arith in
    let second : u8 k ≡ k = omega arith in
    rw (e, first, second, count_at n m j k h (omega arith) fits, sum)
      (contribution_loop_lem rounds n k m (j + 1) (p + binom (n - (j + 1)) k) (omega arith)
          (omega arith) top fits (omega arith)
        ∙ omega arith)

pub fits_next :
    (n m c k : ℕ)
    → m ≤ c
    → c < n
    → falling (n - m) (suc k) < 2 ^ 64
    → falling (n - (c + 1)) k < 2 ^ 64
fits_next n m c k h b fits =
    let e : n - 1 - c ≡ n - (c + 1) = omega arith in rw e at (falling_step n m c k h b fits)

index_loop-eq-rank :
    (vals : List ℕ) (n m index : ℕ)
    → IsFrom n m vals
    → m ≤ n
    → n ≤ 2 ^ 8
    → falling (n - m) (length vals) < 2 ^ 64
    → index + binom (n - m) (length vals) < 2 ^ 32
    → index_loop vals n (length vals) m index ≡ index + rank n m vals
unfolding index_loop
index_loop-eq-rank [] n m index h k top fits small = omega arith
index_loop-eq-rank (c ∷ vals) n m index (a, b, h) k top fits small =
    let r : ℕ = length vals in
    let e : suc r - 1 ≡ r = omega arith in
    let e' : m + (c - m) ≡ c = omega arith in
    let room : c + 1 + r ≤ n = length-le n (c + 1) vals h (omega arith) in
    let sum =
      contribution_loop_lem (c - m) n r m m 0 (omega arith) (omega arith) top fits (omega arith) in
    let sum' : contribution_loop (c - m) n r m 0 + binom (n - c) (suc r)
        ≡ 0 + binom (n - m) (suc r) =
      rw e' at sum in
    let pascal = pascal_at n c r b in
    let small' : u32 (index + contribution_loop (c - m) n r m 0)
        ≡ index + contribution_loop (c - m) n r m 0 =
      omega arith in
    rw (e, small')
      (index_loop-eq-rank vals n (c + 1) (index + contribution_loop (c - m) n r m 0) h (omega arith)
          top (fits_next n m c r a b fits) (omega arith)
        ∙ omega arith)

-- What the assertions let through are the combinations, and they let all of them through.
all_ascending-IsFrom :
    (n m : ℕ) (vals : List ℕ)
    → all_below n vals ≡ true
    → all_ascending vals ≡ true
    → (m ≤ get_or vals 0 m)
    → IsFrom n m vals
unfolding all_below all_ascending
all_ascending-IsFrom n m [] h k l = tt
all_ascending-IsFrom n m (v ∷ []) h k l = (l, ground arith, tt)
all_ascending-IsFrom n m (v ∷ w ∷ vals) h k l = (
  l,
  ground arith,
  all_ascending-IsFrom n (v + 1) (w ∷ vals) (ground arith) (ground arith) (ground arith),
)

IsFrom-all_below : (n m : ℕ) (vals : List ℕ) → IsFrom n m vals → all_below n vals ≡ true
unfolding all_below
IsFrom-all_below n m [] h = refl
IsFrom-all_below n m (v ∷ vals) (a, b, h) = rw (lt→ltb v n b) (IsFrom-all_below n (v + 1) vals h)

IsFrom-all_ascending : (n m : ℕ) (vals : List ℕ) → IsFrom n m vals → all_ascending vals ≡ true
unfolding all_ascending
IsFrom-all_ascending n m [] h = refl
IsFrom-all_ascending n m (v ∷ []) h = refl
IsFrom-all_ascending n m (v ∷ w ∷ vals) (a, b, h) =
    rw (lt→ltb v w (omega arith)) (IsFrom-all_ascending n (v + 1) (w ∷ vals) h)

-- Whenever the function returns, its argument was a combination: `r` values that ascend below `n`.
pub get_index_accepts :
    (n : ℕ) (vals : List ℕ) {i : ℕ} → get_index n (length vals) vals ≡ some i → IsFrom n 0 vals
unfolding get_index
get_index_accepts n [] h = tt
get_index_accepts n (v ∷ vals) h =
    all_ascending-IsFrom n 0 (v ∷ vals) (ground arith) (ground arith) (omega arith)

pub get_index-eq-rank :
    (n : ℕ) (vals : List ℕ)
    → IsFrom n 0 vals
    → n ≤ 2 ^ 8
    → falling n (length vals) < 2 ^ 64
    → binom n (length vals) < 2 ^ 32
    → get_index n (length vals) vals ≡ some (rank n 0 vals)
unfolding get_index
get_index-eq-rank n [] h top fits small = rw (le→leb 0 n (omega arith))
get_index-eq-rank n (v ∷ vals) h top fits small =
    let whole : n - 0 ≡ n = omega arith in
    rw
      (
        le→leb (suc (length vals)) n (omega (arith, length-le n 0 (v ∷ vals) h (omega arith))),
        ne→== (suc (length vals)) 0 (omega arith),
        IsFrom-all_below n 0 (v ∷ vals) h,
        IsFrom-all_ascending n 0 (v ∷ vals) h,
      )
      (ap (λ (t : ℕ). some t)
        (index_loop-eq-rank (v ∷ vals) n 0 0 h (omega arith) top (rw whole fits)
            (rw whole (omega arith))
          ∙ omega arith))

-- For values that ascend below `n`, at most 256: if the product of as many factors as there are
-- values fits 64 bits and the number of combinations fits 32, the function returns an index below
-- that number, and at that index the list of the combinations in lexicographic order holds the
-- argument.
pub get_index-combinations :
    (n : ℕ) (vals : List ℕ)
    → IsFrom n 0 vals
    → n ≤ 2 ^ 8
    → falling n (length vals) < 2 ^ 64
    → binom n (length vals) < 2 ^ 32
    → (i : ℕ) × (get_index n (length vals) vals ≡ some i)
      × (i < binom n (length vals))
      × (get_elem? (combinations 0 n (length vals)) i ≡ some vals)
get_index-combinations n vals h top fits small = (
  rank n 0 vals,
  get_index-eq-rank n vals h top fits small,
  omega (arith, rank-lt n 0 vals h, ap (λ (t : ℕ). binom t (length vals)) whole),
  get_elem?-rank n 0 n vals (omega arith) h,
)
  where
    whole : n - 0 ≡ n
    whole = omega arith

-- ===== src/Combination/Rank.antt =====
-- The combinations in lexicographic order, and the place of a combination among them.
use mathlib.Core.List.{map}
use cutl.Base.{
  ℕ, zero, suc, ◌+◌, ◌-◌, ◌≤◌, ◌<◌, ◌≡◌, refl, sym, ap, ◌∙◌, arith, List, [], ◌∷◌, ◌++◌, some, inl,
  inr, eq-or-ne, ◌≢◌, length, get_elem?, length-append, length-map, get_elem?-append_left,
  get_elem?-append_right, get_elem?-map,
}
use cutl.Combination.Binomial.{binom, binom_pascal}

-- The combinations of `r` of the `k` numbers from `m` on, in lexicographic order.
pub combinations : ℕ → ℕ → ℕ → List (List ℕ)
combinations m k zero = [] ∷ []
combinations m zero (suc r) = []
combinations m (suc k) (suc r) =
    map (λ cs. m ∷ cs) (combinations (m + 1) k r) ++ combinations (m + 1) k (suc r)

-- There are as many of them as the binomial coefficient says.
pub length-combinations : (m k r : ℕ) → length (combinations m k r) ≡ binom k r
unfolding combinations
length-combinations m k zero = refl
length-combinations m zero (suc r) = refl
length-combinations m (suc k) (suc r) =
    length-append (map (λ cs. m ∷ cs) (combinations (m + 1) k r)) (combinations (m + 1) k (suc r))
    ∙ omega (
      arith,
      length-map (combinations (m + 1) k r) (λ (cs : List ℕ). m ∷ cs),
      length-combinations (m + 1) k r,
      length-combinations (m + 1) k (suc r),
    )

-- The values ascend from `m` on and stay below `n`.
abbrev pub IsFrom : ℕ → ℕ → List ℕ → Type 0
IsFrom n m [] = Unit {0}
IsFrom n m (c ∷ cs) = (m ≤ c) × (c < n) × IsFrom n (c + 1) cs

-- The number of combinations that come before one, of those with values from `m` on.
abbrev pub rank : ℕ → ℕ → List ℕ → ℕ
rank n m [] = 0
rank n m (c ∷ cs) =
    binom (n - m) (suc (length cs)) - binom (n - c) (suc (length cs)) + rank n (c + 1) cs

pub length-le : (n m : ℕ) (cs : List ℕ) → IsFrom n m cs → m ≤ n → m + length cs ≤ n
length-le n m [] h k = omega arith
length-le n m (c ∷ cs) (a, b, h) k = omega (arith, length-le n (c + 1) cs h (omega arith))

binom-le-suc : (n r : ℕ) → binom n r ≤ binom (suc n) r
binom-le-suc n zero = omega arith
binom-le-suc n (suc r) = omega arith

pub binom_mono : (a b r : ℕ) → a ≤ b → binom a r ≤ binom b r
binom_mono a zero r h = let e : a ≡ 0 = omega arith in rw e (omega arith)
binom_mono a (suc b) r h = elim (eq-or-ne a (suc b)) [
  | inl e ↦ rw e (omega arith)
  | inr ne ↦ omega (arith, binom_mono a b r (omega arith), binom-le-suc b r)
]

-- Pascal's rule at the value `c`, in the form that the steps below use.
pub pascal_at :
    (n c r : ℕ)
    → c < n
    → binom (n - c) (suc r) ≡ binom (n - (c + 1)) r + binom (n - (c + 1)) (suc r)
pascal_at n c r h =
    let e : n - c - 1 ≡ n - (c + 1) = omega arith in
    binom_pascal (n - c) r (omega arith) ∙ rw e refl

pub rank-lt : (n m : ℕ) (cs : List ℕ) → IsFrom n m cs → rank n m cs < binom (n - m) (length cs)
rank-lt n m [] h = omega arith
rank-lt n m (c ∷ cs) (a, b, h) = omega (
  arith,
  rank-lt n (c + 1) cs h,
  pascal_at n c (length cs) b,
  binom_mono (n - c) (n - m) (suc (length cs)) (omega arith),
)

-- The rank of a combination is its place in the list.
pub get_elem?-rank :
    (k m n : ℕ) (cs : List ℕ)
    → n ≡ m + k
    → IsFrom n m cs
    → get_elem? (combinations m k (length cs)) (rank n m cs) ≡ some cs
unfolding combinations
get_elem?-rank k m n [] e h = refl
get_elem?-rank zero m n (c ∷ cs) e (a, b, h) = absurd (omega arith)
get_elem?-rank (suc k) m n (c ∷ cs) e (a, b, h) = elim (eq-or-ne c m) [
  | inl same ↦ rw (no_offset same) (
      get_elem?-append_left with_m without_m _ (bound same)
      ∙ get_elem?-map (combinations (m + 1) k (length cs)) (λ (ds : List ℕ). m ∷ ds)
          (rank n (m + 1) cs) (get_elem?-rank k (m + 1) n cs (omega arith) (rw same at h))
      ∙ ap (λ (d : ℕ). some (d ∷ cs)) (sym same))
  | inr later ↦
      get_elem?-append_right with_m without_m _ (omega (arith, offset later, count))
      ∙ rw (past later) (get_elem?-rank k (m + 1) n (c ∷ cs) (omega arith) (omega arith, b, h))
]
  where
    with_m : List (List ℕ)
    with_m = map (λ ds. m ∷ ds) (combinations (m + 1) k (length cs))

    without_m : List (List ℕ)
    without_m = combinations (m + 1) k (suc (length cs))

    count : length with_m ≡ binom k (length cs)
    count =
        length-map (combinations (m + 1) k (length cs)) (λ (ds : List ℕ). m ∷ ds)
        ∙ length-combinations (m + 1) k (length cs)

    no_offset : c ≡ m → rank n m (c ∷ cs) ≡ rank n (m + 1) cs
    no_offset same = rw same (omega arith)

    bound : c ≡ m → rank n (m + 1) cs < length with_m
    bound same =
        let e' : n - (m + 1) ≡ k = omega arith in
        rw count (rw e' at (rank-lt n (m + 1) cs (rw same at h)))

    offset : c ≢ m → rank n m (c ∷ cs) ≡ binom k (length cs) + rank n (m + 1) (c ∷ cs)
    offset later =
        let e' : n - (m + 1) ≡ k = omega arith in
        let e'' : n - m ≡ suc k = omega arith in
        let le = binom_mono (n - c) k (suc (length cs)) (omega arith) in
        rw (e', e'') (omega (arith, le))

    past : c ≢ m → rank n m (c ∷ cs) - length with_m ≡ rank n (m + 1) (c ∷ cs)
    past later = omega (arith, offset later, count)

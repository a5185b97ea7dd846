-- ===== src/Combination/Step.antt =====
-- One step to the next combination, read from the front of the list: what it does to the rank.
use cutl.Base.{
  ℕ, zero, suc, ◌+◌, ◌-◌, ◌≤◌, ◌<◌, ◌≡◌, refl, ap, ◌≢◌, arith, List, [], ◌∷◌, Bool, true, false,
  inl, inr, if◌then◌else◌, ◌==◌, length, get_or, eq→==, ne→==, Bool-cases,
}
use cutl.Combination.Binomial.{binom, binom_self}
use cutl.Combination.Rank.{IsFrom, rank, length-le, pascal_at, binom_mono}

-- `k` numbers in a row from `v` on.
abbrev pub run : ℕ → ℕ → List ℕ
run v zero = []
run v (suc k) = v ∷ run (v + 1) k

-- A counter in front of `k` others, of which those after it did or did not roll over.
carry_into : ℕ → ℕ → ℕ → Bool → List ℕ → Bool × List ℕ
carry_into n x k true cs =
    if (x + 1 + k) == n then (true, (x + 1) ∷ cs) else (false, (x + 1) ∷ run (x + 1 + 1) k)
carry_into n x k false cs = (false, x ∷ cs)

pub advance : ℕ → List ℕ → Bool × List ℕ
unfolding carry_into
advance n [] = (true, [])
advance n (x ∷ cs) = carry_into n x (length cs) (advance n cs).0 (advance n cs).1

pub length-run : (v k : ℕ) → length (run v k) ≡ k
length-run v zero = refl
length-run v (suc k) = ap suc (length-run (v + 1) k)

pub run-IsFrom : (n v k : ℕ) → v + k ≤ n → IsFrom n v (run v k)
run-IsFrom n v zero h = tt
run-IsFrom n v (suc k) h = (omega arith, omega arith, run-IsFrom n (v + 1) k (omega arith))

pub rank-run : (n v k : ℕ) → rank n v (run v k) ≡ 0
rank-run n v zero = refl
rank-run n v (suc k) = omega (arith, rank-run n (v + 1) k)

pub length-advance : (n : ℕ) (cs : List ℕ) → length (advance n cs).1 ≡ length cs
unfolding advance
length-advance n [] = refl
length-advance n (x ∷ cs) = ground (arith, length-advance n cs, length-run (x + 1 + 1) (length cs))

carry_into-true :
    (n x k : ℕ) (b : Bool) (cs : List ℕ)
    → (carry_into n x k b cs).0 ≡ true
    → (b ≡ true) × (x + 1 + k ≡ n)
unfolding carry_into
carry_into-true n x k true cs e = ground arith
carry_into-true n x k false cs e = cc

-- Every counter has rolled over only at the last combination.
pub rank-advance_last :
    (n m : ℕ) (cs : List ℕ)
    → IsFrom n m cs
    → m ≤ n
    → (advance n cs).0 ≡ true
    → rank n m cs + 1 ≡ binom (n - m) (length cs)
unfolding advance
rank-advance_last n m [] h l e = omega arith
rank-advance_last n m (x ∷ cs) (a, b, h) l e =
    let k : ℕ = length cs in
    let (rolled, full) = carry_into-true n x k (advance n cs).0 (advance n cs).1 e in
    let ih = rank-advance_last n (x + 1) cs h (omega arith) rolled in
    let after : n - (x + 1) ≡ k = omega arith in
    let here : n - x ≡ suc k = omega arith in
    let ih' : rank n (x + 1) cs + 1 ≡ binom k k = rw after at ih in
    let mono = binom_mono (n - x) (n - m) (suc k) (omega arith) in
    let mono' : binom (suc k) (suc k) ≤ binom (n - m) (suc k) = rw here at mono in
    rw here (omega (arith, binom_self k, binom_self (suc k)))

-- What the step makes of the counter `x` if those after it do, or do not, roll over.
next_of_rolled :
    (n m x : ℕ) (cs cs' : List ℕ)
    → m ≤ x
    → IsFrom n (x + 1) cs
    → x < n
    → x + 1 + length cs ≢ n
    → rank n (x + 1) cs + 1 ≡ binom (n - (x + 1)) (length cs)
    → let moved = (x + 1) ∷ run (x + 1 + 1) (length cs) in
      IsFrom n m moved × (rank n m moved ≡ rank n m (x ∷ cs) + 1)
next_of_rolled n m x cs cs' a h b ne last =
    let k : ℕ = length cs in
    let room = length-le n (x + 1) cs h (omega arith) in
    let pascal = pascal_at n x k b in
    let mono = binom_mono (n - x) (n - m) (suc k) (omega arith) in
    let none_before = rank-run n (x + 1 + 1) k in
    (
      (omega arith, omega arith, run-IsFrom n (x + 1 + 1) k (omega arith)),
      rw (length-run (x + 1 + 1) k) (omega arith),
    )

-- Any other combination is followed by one of the next rank.
pub rank-advance :
    (n m : ℕ) (cs : List ℕ)
    → IsFrom n m cs
    → m ≤ n
    → (advance n cs).0 ≡ false
    → IsFrom n m (advance n cs).1 × (rank n m (advance n cs).1 ≡ rank n m cs + 1)
unfolding advance
rank-advance n m [] h l e = cc
rank-advance n m (x ∷ cs) (a, b, h) l e = elim (Bool-cases (advance n cs).0) [
  | inl rolled ↦
      let ne : x + 1 + length cs ≢ n = λ full. ground arith in
      rw (rolled, ne→== (x + 1 + length cs) n ne)
        (next_of_rolled n m x cs (advance n cs).1 a h b ne
          (rank-advance_last n (x + 1) cs h (omega arith) rolled))
  | inr stays ↦
      let (from, next) = rank-advance n (x + 1) cs h (omega arith) stays in
      rw stays ((a, b, from), rw (length-advance n cs) (omega arith))
]

-- When every counter has rolled over, the last one is `n`.
pub get_or-advance_last :
    (n x : ℕ) (cs : List ℕ)
    → (advance n (x ∷ cs)).0 ≡ true
    → get_or (advance n (x ∷ cs)).1 (length cs) 0 ≡ n
unfolding advance
get_or-advance_last n x [] e = ground arith
get_or-advance_last n x (y ∷ cs) e =
    let (rolled, full) =
      carry_into-true n x (length (y ∷ cs)) (advance n (y ∷ cs)).0 (advance n (y ∷ cs)).1 e in
    rw (rolled, eq→== (x + 1 + length (y ∷ cs)) n full) (get_or-advance_last n y cs rolled)

pub get_or-IsFrom_last :
    (n m c : ℕ) (cs : List ℕ) → IsFrom n m (c ∷ cs) → get_or (c ∷ cs) (length cs) 0 < n
get_or-IsFrom_last n m c [] (a, b, h) = b
get_or-IsFrom_last n m c (d ∷ cs) (a, b, h) = get_or-IsFrom_last n (c + 1) d cs h

-- The three ways to step from `x ∷ cs`: the step rolls over, moves `x`, or stays behind it.
pub advance_full :
    (n x : ℕ) (cs : List ℕ)
    → (advance n cs).0 ≡ true
    → x + 1 + length cs ≡ n
    → advance n (x ∷ cs) ≡ (true, (x + 1) ∷ (advance n cs).1)
unfolding advance
advance_full n x cs rolled full = rw (rolled, eq→== (x + 1 + length cs) n full)

pub advance_moves :
    (n x : ℕ) (cs : List ℕ)
    → (advance n cs).0 ≡ true
    → x + 1 + length cs ≢ n
    → advance n (x ∷ cs) ≡ (false, (x + 1) ∷ run (x + 1 + 1) (length cs))
unfolding advance
advance_moves n x cs rolled ne = rw (rolled, ne→== (x + 1 + length cs) n ne)

pub advance_stays :
    (n x : ℕ) (cs : List ℕ)
    → (advance n cs).0 ≡ false
    → advance n (x ∷ cs) ≡ (false, x ∷ (advance n cs).1)
unfolding advance
advance_stays n x cs stays = rw stays

pub advance-nil : (n : ℕ) → advance n [] ≡ (true, [])
unfolding advance
advance-nil n = refl

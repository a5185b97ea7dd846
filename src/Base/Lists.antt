-- ===== src/Base/Lists.antt =====
-- C arrays as lists with native indices, under the library's names.
use Prim.Native.Nat.{ℕ, zero, suc, ◌+◌, ◌-◌, ◌<◌, ◌≤◌}
use mathlib.Core.Path.{◌≡◌, refl, ap}
use mathlib.Core.Logic.{◌≢◌}
use mathlib.Core.List.{List, [], ◌∷◌, ◌++◌, map}
use mathlib.Core.Option.{Option, none, some}
use native.Mathlib.Omega.{arith}

module _ {ℓ} {A : Type ℓ} where
  abbrev pub length : List A → ℕ
  length [] = 0
  length (x ∷ xs) = suc (length xs)

  -- A read out of bounds gives the default.
  abbrev pub get_or : List A → ℕ → A → A
  get_or [] i d = d
  get_or (x ∷ xs) zero d = x
  get_or (x ∷ xs) (suc i) d = get_or xs i d

  abbrev pub get_elem? : List A → ℕ → Option A
  get_elem? [] i = none
  get_elem? (x ∷ xs) zero = some x
  get_elem? (x ∷ xs) (suc i) = get_elem? xs i

  -- A write out of bounds changes nothing.
  abbrev pub set : List A → ℕ → A → List A
  set [] i v = []
  set (x ∷ xs) zero v = v ∷ xs
  set (x ∷ xs) (suc i) v = x ∷ set xs i v

  abbrev pub take : ℕ → List A → List A
  take zero xs = []
  take (suc n) [] = []
  take (suc n) (x ∷ xs) = x ∷ take n xs

  abbrev pub drop : ℕ → List A → List A
  drop zero xs = xs
  drop (suc n) [] = []
  drop (suc n) (x ∷ xs) = drop n xs

  abbrev pub replicate : ℕ → A → List A
  replicate zero a = []
  replicate (suc n) a = a ∷ replicate n a

  -- The elements of `q`, last first, in front of `s`: a list seen from a place inside it.
  abbrev pub reverse_onto : List A → List A → List A
  reverse_onto [] s = s
  reverse_onto (x ∷ q) s = reverse_onto q (x ∷ s)

module _ {ℓ} {A : Type ℓ} where
  pub length-append : (xs ys : List A) → length (xs ++ ys) ≡ length xs + length ys
  length-append [] ys = omega arith
  length-append (x ∷ xs) ys = omega (arith, length-append xs ys)

  pub length-set : (xs : List A) (i : ℕ) (v : A) → length (set xs i v) ≡ length xs
  length-set [] i v = refl
  length-set (x ∷ xs) zero v = refl
  length-set (x ∷ xs) (suc i) v = ap suc (length-set xs i v)

  pub get_or-set_self :
      (xs : List A) (i : ℕ) (v d : A) → i < length xs → get_or (set xs i v) i d ≡ v
  get_or-set_self [] i v d h = absurd (omega arith)
  get_or-set_self (x ∷ xs) zero v d h = refl
  get_or-set_self (x ∷ xs) (suc i) v d h = get_or-set_self xs i v d (omega arith)

  pub get_or-set_ne :
      (xs : List A) (i j : ℕ) (v d : A) → i ≢ j → get_or (set xs i v) j d ≡ get_or xs j d
  get_or-set_ne [] i j v d h = refl
  get_or-set_ne (x ∷ xs) zero zero v d h = absurd (h refl)
  get_or-set_ne (x ∷ xs) zero (suc j) v d h = refl
  get_or-set_ne (x ∷ xs) (suc i) zero v d h = refl
  get_or-set_ne (x ∷ xs) (suc i) (suc j) v d h = get_or-set_ne xs i j v d (λ e. h (ap suc e))

  pub length-reverse_onto : (q s : List A) → length (reverse_onto q s) ≡ length q + length s
  length-reverse_onto [] s = omega arith
  length-reverse_onto (x ∷ q) s = omega (arith, length-reverse_onto q (x ∷ s))

  pub get_or-reverse_onto :
      (q s : List A) (i : ℕ) (d : A) → get_or (reverse_onto q s) (length q + i) d ≡ get_or s i d
  get_or-reverse_onto [] s i d = ap (λ k. get_or s k d) (omega arith)
  get_or-reverse_onto (x ∷ q) s i d =
      let e : length (x ∷ q) + i ≡ length q + suc i = omega arith in
      rw e (get_or-reverse_onto q (x ∷ s) (suc i) d)

  pub set-reverse_onto :
      (q s : List A) (i : ℕ) (v : A)
      → set (reverse_onto q s) (length q + i) v ≡ reverse_onto q (set s i v)
  set-reverse_onto [] s i v = ap (λ k. set s k v) (omega arith)
  set-reverse_onto (x ∷ q) s i v =
      let e : length (x ∷ q) + i ≡ length q + suc i = omega arith in
      rw e (set-reverse_onto q (x ∷ s) (suc i) v)

  pub get_or_below : (xs : List A) (i : ℕ) (d e : A) → i < length xs → get_or xs i d ≡ get_or xs i e
  get_or_below [] i d e h = absurd (omega arith)
  get_or_below (x ∷ xs) zero d e h = refl
  get_or_below (x ∷ xs) (suc i) d e h = get_or_below xs i d e (omega arith)

  pub get_or-append_right :
      (p s : List A) (i : ℕ) (d : A) → get_or (p ++ s) (length p + i) d ≡ get_or s i d
  get_or-append_right [] s i d = ap (λ k. get_or s k d) (omega arith)
  get_or-append_right (x ∷ p) s i d =
      let e : length (x ∷ p) + i ≡ suc (length p + i) = omega arith in
      rw e (get_or-append_right p s i d)

  pub set-append_right :
      (p s : List A) (i : ℕ) (v : A) → set (p ++ s) (length p + i) v ≡ p ++ set s i v
  set-append_right [] s i v = ap (λ k. set s k v) (omega arith)
  set-append_right (x ∷ p) s i v =
      let e : length (x ∷ p) + i ≡ suc (length p + i) = omega arith in
      rw e (ap (λ t. x ∷ t) (set-append_right p s i v))

  pub get_elem?-append_left :
      (p s : List A) (i : ℕ) → i < length p → get_elem? (p ++ s) i ≡ get_elem? p i
  get_elem?-append_left [] s i h = absurd (omega arith)
  get_elem?-append_left (x ∷ p) s zero h = refl
  get_elem?-append_left (x ∷ p) s (suc i) h = get_elem?-append_left p s i (omega arith)

  pub get_elem?-append_right :
      (p s : List A) (i : ℕ) → length p ≤ i → get_elem? (p ++ s) i ≡ get_elem? s (i - length p)
  get_elem?-append_right [] s i h = ap (λ k. get_elem? s k) (omega arith)
  get_elem?-append_right (x ∷ p) s zero h = absurd (omega arith)
  get_elem?-append_right (x ∷ p) s (suc i) h =
      let e : suc i - length (x ∷ p) ≡ i - length p = omega arith in
      rw e (get_elem?-append_right p s i (omega arith))

pub length-map {ℓ κ} :
    {A : Type ℓ} {B : Type κ} (xs : List A) (f : A → B) → length (map f xs) ≡ length xs
length-map [] f = refl
length-map (x ∷ xs) f = ap suc (length-map xs f)

pub get_elem?-map {ℓ κ} :
    {A : Type ℓ} {B : Type κ} (xs : List A) (f : A → B) (i : ℕ) {a : A}
    → get_elem? xs i ≡ some a
    → get_elem? (map f xs) i ≡ some (f a)
get_elem?-map [] f i h = cc
get_elem?-map (x ∷ xs) f zero h = cc
get_elem?-map (x ∷ xs) f (suc i) h = get_elem?-map xs f i h

-- ===== src/Permutation/Cycles.antt =====
-- The cycles count the steps: they are the digits of a number that each call of `next` raises.
use cutl.Base.{
  ℕ, zero, suc, ◌+◌, ◌-◌, ◌*◌, ◌≤◌, ◌<◌, ◌≡◌, ◌≢◌, ◌⊎◌, inl, inr, refl, sym, ◌∙◌, ap₂, arith, List,
  length, set, get_or, get_or-set_self, get_or-set_ne, length-set, eq-or-ne,
}
use cutl.Permutation.{rotate_loop, output_loop, swap}

-- The `i`-th cycle.
abbrev pub cycle : ℕ → List ℕ → ℕ → ℕ
cycle n cells i = get_or cells (n + i) 0

-- The steps that the first `k` cycles have counted, and the number of steps they can count.
abbrev pub steps : ℕ → List ℕ → ℕ → ℕ
steps n cells zero = 0
steps n cells (suc k) = steps n cells k * (n - k) + (n - k - cycle n cells k)

abbrev pub arrangements : ℕ → ℕ → ℕ
arrangements n zero = 1
arrangements n (suc k) = arrangements n k * (n - k)

-- The array has its size, and every cycle is between 1 and the number of indices it runs through.
pub record IsValid (n r : ℕ) (cells : List ℕ) : Type 0 where
  pub size : length cells ≡ n + r + r
  pub positive : (i : ℕ) → i < r → 0 < cycle n cells i
  pub bounded : (i : ℕ) → i < r → cycle n cells i ≤ n - i

-- Nothing but indices and values changed.
pub record SameCycles (n r : ℕ) (cells out : List ℕ) : Type 0 where
  pub size : length out ≡ length cells
  pub same : (i : ℕ) → i < r → cycle n out i ≡ cycle n cells i

pub SameCycles-trans :
    (n r : ℕ) (a b c : List ℕ) → SameCycles n r a b → SameCycles n r b c → SameCycles n r a c
SameCycles-trans n r a b c f g = record {
  size = g.size ∙ f.size;
  same = λ i u. g.same i u ∙ f.same i u;
}

pub SameCycles-set :
    (n r : ℕ) (cells : List ℕ) (j v : ℕ)
    → (j < n) ⊎ (n + r ≤ j)
    → SameCycles n r cells (set cells j v)
SameCycles-set n r cells j v h = record {
  size = length-set cells j v;
  same = λ i u.
      get_or-set_ne cells j (n + i) v 0
        (elim h [ inl below ↦ omega arith | inr above ↦ omega arith ]);
}

pub rotate_loop-SameCycles :
    (n r rounds i : ℕ) (cells : List ℕ)
    → rounds + i ≤ n
    → SameCycles n r cells (rotate_loop rounds i cells)
unfolding rotate_loop
rotate_loop-SameCycles n r zero i cells h = record { size = refl; same = λ j u. refl }
rotate_loop-SameCycles n r (suc rounds) i cells h =
    SameCycles-trans n r cells (set cells i (get_or cells (i + 1) 0))
      (rotate_loop rounds (i + 1) (set cells i (get_or cells (i + 1) 0)))
      (SameCycles-set n r cells i (get_or cells (i + 1) 0) (inl (omega arith)))
      (rotate_loop-SameCycles n r rounds (i + 1) (set cells i (get_or cells (i + 1) 0))
        (omega arith))

pub output_loop-SameCycles :
    (n r rounds i : ℕ) (cells : List ℕ) → SameCycles n r cells (output_loop rounds i n r cells)
unfolding output_loop
output_loop-SameCycles n r zero i cells = record { size = refl; same = λ j u. refl }
output_loop-SameCycles n r (suc rounds) i cells =
    SameCycles-trans n r cells (set cells (n + r + i) (get_or cells i 0))
      (output_loop rounds (i + 1) n r (set cells (n + r + i) (get_or cells i 0)))
      (SameCycles-set n r cells (n + r + i) (get_or cells i 0) (inr (omega arith)))
      (output_loop-SameCycles n r rounds (i + 1) (set cells (n + r + i) (get_or cells i 0)))

pub swap-SameCycles :
    (n r k1 k2 : ℕ) (cells : List ℕ) → k1 < n → k2 < n → SameCycles n r cells (swap k1 k2 cells)
unfolding swap
swap-SameCycles n r k1 k2 cells h1 h2 =
    SameCycles-trans n r cells (set cells k1 (get_or cells k2 0))
      (set (set cells k1 (get_or cells k2 0)) k2 (get_or cells k1 0))
      (SameCycles-set n r cells k1 (get_or cells k2 0) (inl h1))
      (SameCycles-set n r (set cells k1 (get_or cells k2 0)) k2 (get_or cells k1 0) (inl h2))

pub steps-cong :
    (n : ℕ) (a b : List ℕ) (k : ℕ)
    → ((i : ℕ) → i < k → cycle n a i ≡ cycle n b i)
    → steps n a k ≡ steps n b k
steps-cong n a b zero h = refl
steps-cong n a b (suc k) h =
    ap₂ (λ s c. s * (n - k) + (n - k - c)) (steps-cong n a b k (λ i u. h i (omega arith)))
      (h k (omega arith))

pub steps_carry :
    (s s' d c : ℕ) → 0 < d → c ≡ 1 → s' ≡ suc s → s' * d + (d - d) ≡ suc (s * d + (d - c))
steps_carry s s' d c pos e t = rw (e, t) (omega arith)

pub steps_full : (s a d c : ℕ) → 0 < d → c ≡ 1 → suc s ≡ a → suc (s * d + (d - c)) ≡ a * d
steps_full s a d c pos e t = rw (e, sym t) (omega arith)

pub steps_lower : (s d c c' : ℕ) → suc c' ≡ c → c ≤ d → s * d + (d - c') ≡ suc (s * d + (d - c))
steps_lower s d c c' e h = rw (sym e) (omega arith)

-- One cycle is another value, the others and the size are as before.
pub record OneCycle (n r k v : ℕ) (cells out : List ℕ) : Type 0 where
  pub size : length out ≡ length cells
  pub here : cycle n out k ≡ v
  pub others : (i : ℕ) → i < r → i ≢ k → cycle n out i ≡ cycle n cells i

pub OneCycle-set :
    (n r k v : ℕ) (cells mid out : List ℕ)
    → k < r
    → n + r ≤ length cells
    → SameCycles n r cells mid
    → SameCycles n r (set mid (n + k) v) out
    → OneCycle n r k v cells out
OneCycle-set n r k v cells mid out b room f g = record {
  size = g.size ∙ length-set mid (n + k) v ∙ f.size;
  here = let at_k = f.size in g.same k b ∙ get_or-set_self mid (n + k) v 0 (omega arith);
  others = λ i u ne. g.same i u ∙ get_or-set_ne mid (n + k) (n + i) v 0 (omega arith) ∙ f.same i u;
}

pub OneCycle-IsValid :
    (n r k v : ℕ) (cells out : List ℕ)
    → IsValid n r cells
    → OneCycle n r k v cells out
    → 0 < v
    → v ≤ n - k
    → IsValid n r out
OneCycle-IsValid n r k v cells out valid one pos bound = record {
  size = one.size ∙ valid.size;
  positive = λ i u. elim (eq-or-ne i k) [
    | inl e ↦ let c = one.here in rw e (rw c pos)
    | inr ne ↦ rw (one.others i u ne) (valid.positive i u)
  ];
  bounded = λ i u. elim (eq-or-ne i k) [
    | inl e ↦ let c = one.here in rw e (rw c bound)
    | inr ne ↦ rw (one.others i u ne) (valid.bounded i u)
  ];
}

-- The loop moved the count on by one, below the position `k` only.
pub record Stepped (n r k : ℕ) (cells out : List ℕ) : Type 0 where
  pub valid : IsValid n r out
  pub count : steps n out k ≡ suc (steps n cells k)
  pub above : (i : ℕ) → k ≤ i → i < r → cycle n out i ≡ cycle n cells i

-- ===== src/Permutation/Start.antt =====
-- The array behind `init`: the indices and the values ascend, and every cycle is full.
use cutl.Base.{
  ℕ, zero, suc, ◌+◌, ◌-◌, ◌^◌, ◌≤◌, ◌<◌, ◌≡◌, ◌≢◌, ◌⊎◌, inl, inr, refl, ◌∙◌, ap, arith, some, List,
  length, set, get_or, get_or-set_self, get_or-set_ne, length-set, eq-or-ne, u8,
}
use cutl.Permutation.{PermutationIterator, fill_ascending, fill_cycles, reset, init}
use cutl.Permutation.Cycles.{cycle, steps, SameCycles, SameCycles-trans, SameCycles-set}

abbrev pub iterator_at : ℕ → ℕ → List ℕ → PermutationIterator
iterator_at n r cells = record { n = n; r = r; cells = cells }

fill_ascending-SameCycles :
    (n r rounds start i : ℕ) (cells : List ℕ)
    → (start + i + rounds ≤ n) ⊎ (n + r ≤ start)
    → SameCycles n r cells (fill_ascending rounds start i cells)
unfolding fill_ascending
fill_ascending-SameCycles n r zero start i cells h = record { size = refl; same = λ j u. refl }
fill_ascending-SameCycles n r (suc rounds) start i cells h =
    let first = set cells (start + i) (u8 i) in
    SameCycles-trans n r cells first (fill_ascending rounds start (i + 1) first)
      (SameCycles-set n r cells (start + i) (u8 i)
        (elim h [ inl below ↦ inl (omega arith) | inr above ↦ inr (omega arith) ]))
      (fill_ascending-SameCycles n r rounds start (i + 1) first
        (elim h [ inl below ↦ inl (omega arith) | inr above ↦ inr above ]))

length-fill_cycles :
    (rounds n i : ℕ) (cells : List ℕ) → length (fill_cycles rounds n i cells) ≡ length cells
unfolding fill_cycles
length-fill_cycles zero n i cells = refl
length-fill_cycles (suc rounds) n i cells =
    length-fill_cycles rounds n (i + 1) (set cells (n + i) (u8 (n - i)))
    ∙ length-set cells (n + i) (u8 (n - i))

cycle-fill_cycles_below :
    (rounds n i j : ℕ) (cells : List ℕ)
    → j < i
    → cycle n (fill_cycles rounds n i cells) j ≡ cycle n cells j
unfolding fill_cycles
cycle-fill_cycles_below zero n i j cells h = refl
cycle-fill_cycles_below (suc rounds) n i j cells h =
    cycle-fill_cycles_below rounds n (i + 1) j (set cells (n + i) (u8 (n - i))) (omega arith)
    ∙ get_or-set_ne cells (n + i) (n + j) (u8 (n - i)) 0 (omega arith)

cycle-fill_cycles :
    (rounds n i j : ℕ) (cells : List ℕ)
    → n < 2 ^ 8
    → n + i + rounds ≤ length cells
    → i ≤ j
    → j < i + rounds
    → cycle n (fill_cycles rounds n i cells) j ≡ n - j
unfolding fill_cycles
cycle-fill_cycles zero n i j cells small room l u = absurd (omega arith)
cycle-fill_cycles (suc rounds) n i j cells small room l u =
    let first = set cells (n + i) (u8 (n - i)) in
    elim (eq-or-ne i j) [
      | inl e ↦
          let value : u8 (n - i) ≡ n - j = omega arith in
          let here : n + j ≡ n + i = omega arith in
          cycle-fill_cycles_below rounds n (i + 1) j first (omega arith)
          ∙ ap (λ a. get_or first a 0) here
          ∙ get_or-set_self cells (n + i) (u8 (n - i)) 0 (omega arith)
          ∙ value
      | inr ne ↦
          cycle-fill_cycles rounds n (i + 1) j first small
            (omega (arith, length-set cells (n + i) (u8 (n - i)))) (omega arith) (omega arith)
    ]

fill_ascending_outside :
    (rounds start i j : ℕ) (cells : List ℕ)
    → (j < start + i) ⊎ (start + i + rounds ≤ j)
    → get_or (fill_ascending rounds start i cells) j 0 ≡ get_or cells j 0
unfolding fill_ascending
fill_ascending_outside zero start i j cells h = refl
fill_ascending_outside (suc rounds) start i j cells h =
    let other : start + i ≢ j = elim h [ inl below ↦ omega arith | inr above ↦ omega arith ] in
    fill_ascending_outside rounds start (i + 1) j (set cells (start + i) (u8 i))
      (elim h [ inl below ↦ inl (omega arith) | inr above ↦ inr (omega arith) ])
    ∙ get_or-set_ne cells (start + i) j (u8 i) 0 other

fill_ascending_inside :
    (rounds start i j : ℕ) (cells : List ℕ)
    → start + i + rounds ≤ length cells
    → i + rounds ≤ 2 ^ 8
    → i ≤ j
    → j < i + rounds
    → get_or (fill_ascending rounds start i cells) (start + j) 0 ≡ j
unfolding fill_ascending
fill_ascending_inside zero start i j cells room small l u = absurd (omega arith)
fill_ascending_inside (suc rounds) start i j cells room small l u =
    let first = set cells (start + i) (u8 i) in
    elim (eq-or-ne i j) [
      | inl e ↦
          let here : start + j ≡ start + i = omega arith in
          let value : u8 i ≡ j = omega arith in
          fill_ascending_outside rounds start (i + 1) (start + j) first (inl (omega arith))
          ∙ ap (λ a. get_or first a 0) here
          ∙ get_or-set_self cells (start + i) (u8 i) 0 (omega arith)
          ∙ value
      | inr ne ↦
          fill_ascending_inside rounds start (i + 1) j first
            (omega (arith, length-set cells (start + i) (u8 i))) (omega arith) (omega arith)
            (omega arith)
    ]

fill_cycles_outside :
    (rounds n i j : ℕ) (cells : List ℕ)
    → j < n + i
    → get_or (fill_cycles rounds n i cells) j 0 ≡ get_or cells j 0
unfolding fill_cycles
fill_cycles_outside zero n i j cells h = refl
fill_cycles_outside (suc rounds) n i j cells h =
    fill_cycles_outside rounds n (i + 1) j (set cells (n + i) (u8 (n - i))) (omega arith)
    ∙ get_or-set_ne cells (n + i) j (u8 (n - i)) 0 (omega arith)

-- The iterator behind `init`: no step is counted.
pub record Started (n r : ℕ) (cells : List ℕ) : Type 0 where
  pub size : length cells ≡ n + r + r
  pub cycles : (i : ℕ) → i < r → cycle n cells i ≡ n - i
  pub indices : (i : ℕ) → i < n → get_or cells i 0 ≡ i
  pub values : (i : ℕ) → i < r → get_or cells (n + r + i) 0 ≡ i

pub steps-Started : (n r k : ℕ) (cells : List ℕ) → k ≤ r → Started n r cells → steps n cells k ≡ 0
steps-Started n r zero cells b s = refl
steps-Started n r (suc k) cells b s =
    let ih = steps-Started n r k cells (omega arith) s in
    let c = s.cycles k (omega arith) in
    let spent : n - k - (n - k) ≡ 0 = omega arith in rw (ih, c, spent) (omega arith)

pub reset-Started :
    (n r : ℕ) (memory : List ℕ)
    → r ≤ n
    → n < 2 ^ 8
    → length memory ≡ n + r + r
    → Started n r (reset (iterator_at n r memory)).cells
unfolding reset
reset-Started n r memory inside small size =
    let first = fill_ascending n 0 0 memory in
    let second = fill_cycles r n 0 first in
    let f = fill_ascending-SameCycles n r n 0 0 memory (inl (omega arith)) in
    let g = fill_ascending-SameCycles n r r (n + r) 0 second (inr (omega arith)) in
    record {
      size = g.size ∙ length-fill_cycles r n 0 first ∙ f.size ∙ size;
      cycles = λ i u.
          g.same i u
          ∙ cycle-fill_cycles r n 0 i first small (omega (arith, f.size)) (omega arith)
              (omega arith);
      indices = λ i u.
          let from_zero : i ≡ 0 + i = omega arith in
          fill_ascending_outside r (n + r) 0 i second (inl (omega arith))
          ∙ fill_cycles_outside r n 0 i first (omega arith)
          ∙ ap (λ a. get_or first a 0) from_zero
          ∙ fill_ascending_inside n 0 0 i memory (omega arith) (omega arith) (omega arith)
              (omega arith);
      values = λ i u.
          fill_ascending_inside r (n + r) 0 i second
            (omega (arith, f.size, length-fill_cycles r n 0 first)) (omega arith) (omega arith)
            (omega arith);
    }

pub init-inside :
    (memory : List ℕ) (n r : ℕ) {it : PermutationIterator}
    → init memory n r ≡ some it
    → (r ≤ n) × (it ≡ iterator_at n r (reset (iterator_at n r memory)).cells)
unfolding init reset
init-inside memory n r e = ground arith

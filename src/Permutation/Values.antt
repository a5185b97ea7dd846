-- ===== src/Permutation/Values.antt =====
-- The values are copies of the first indices, after every call of `next` but the last.
use cutl.Base.{
  ℕ, zero, suc, ◌+◌, ◌-◌, ◌^◌, ◌≤◌, ◌<◌, ◌≡◌, ◌≢◌, ◌⊎◌, inl, inr, refl, sym, ◌∙◌, ap, arith, List,
  length, set, get_or, get_or-set_self, get_or-set_ne, length-set, lt-or-le, eq-or-ne, subst,
}
use cutl.Permutation.{output_loop, rotate, swap, next_loop}
use cutl.Permutation.Cycles.{cycle, IsValid, OneCycle-IsValid}
use cutl.Permutation.Steps.{next_loop_carry, next_loop_stop, OneCycle-rotate}
use cutl.Permutation.Rearranged.{
  Rearranged, Rearranged-trans, Rearranged-same, rotate_outside, rotate-Rearranged, swap_outside,
  swap-Rearranged,
}

output_loop_outside :
    (rounds i n r j : ℕ) (cells : List ℕ)
    → (j < n + r + i) ⊎ (n + r + i + rounds ≤ j)
    → get_or (output_loop rounds i n r cells) j 0 ≡ get_or cells j 0
unfolding output_loop
output_loop_outside zero i n r j cells h = refl
output_loop_outside (suc rounds) i n r j cells h =
    let v = get_or cells i 0 in
    let other : n + r + i ≢ j = elim h [ inl below ↦ omega arith | inr above ↦ omega arith ] in
    output_loop_outside rounds (i + 1) n r j (set cells (n + r + i) v)
      (elim h [ inl below ↦ inl (omega arith) | inr above ↦ inr (omega arith) ])
    ∙ get_or-set_ne cells (n + r + i) j v 0 other

output_loop_inside :
    (rounds i n r j : ℕ) (cells : List ℕ)
    → i + rounds ≤ r
    → n + r + r ≤ length cells
    → r ≤ n
    → i ≤ j
    → j < i + rounds
    → get_or (output_loop rounds i n r cells) (n + r + j) 0 ≡ get_or cells j 0
unfolding output_loop
output_loop_inside zero i n r j cells b room inside l u = absurd (omega arith)
output_loop_inside (suc rounds) i n r j cells b room inside l u =
    let v = get_or cells i 0 in
    elim (eq-or-ne i j) [
      | inl e ↦
          output_loop_outside rounds (i + 1) n r (n + r + j) (set cells (n + r + i) v)
            (inl (omega arith))
          ∙ ap (λ t. get_or (set cells (n + r + i) v) (n + r + t) 0) (sym e)
          ∙ get_or-set_self cells (n + r + i) v 0 (omega arith)
          ∙ ap (λ t. get_or cells t 0) e
      | inr ne ↦
          output_loop_inside rounds (i + 1) n r j (set cells (n + r + i) v) (omega arith)
            (omega (arith, length-set cells (n + r + i) v)) inside (omega arith) (omega arith)
          ∙ get_or-set_ne cells (n + r + i) j v 0 (omega arith)
    ]

length-swap : (k1 k2 : ℕ) (cells : List ℕ) → length (swap k1 k2 cells) ≡ length cells
unfolding swap
length-swap k1 k2 cells =
    length-set (set cells k1 (get_or cells k2 0)) k2 (get_or cells k1 0)
    ∙ length-set cells k1 (get_or cells k2 0)

-- The indices were rearranged, and the values are the first of them.
pub record Shown (n r : ℕ) (cells out : List ℕ) : Type 0 where
  pub rearranged : Rearranged n cells out
  pub values : (i : ℕ) → i < r → get_or out (n + r + i) 0 ≡ get_or out i 0

module _ (n r : ℕ) (inside : r ≤ n) (small : n < 2 ^ 8) where
  lowered-Rearranged : (k v : ℕ) (cells : List ℕ) → Rearranged n cells (set cells (n + k) v)
  lowered-Rearranged k v cells =
      Rearranged-same n cells (set cells (n + k) v)
        (λ i u. get_or-set_ne cells (n + k) i v 0 (omega arith))

  Shown-stop :
      (k c : ℕ) (cells : List ℕ)
      → k < r
      → 0 < c
      → c < n - k
      → length cells ≡ n + r + r
      → ((i : ℕ) → i < k → get_or cells (n + r + i) 0 ≡ get_or cells i 0)
      → Shown n r cells (output_loop (r - k) k n r (swap k (n - c) (set cells (n + k) c)))
  Shown-stop k c cells b pos bound size h =
      let lowered = set cells (n + k) c in
      let swapped = swap k (n - c) lowered in
      let kept = length-set cells (n + k) c in
      let untouched =
        Rearranged-same n swapped (output_loop (r - k) k n r swapped)
          (λ i u. output_loop_outside (r - k) k n r i swapped (inl (omega arith))) in
      record {
        rearranged =
            Rearranged-trans n cells lowered (output_loop (r - k) k n r swapped)
              (lowered-Rearranged k c cells)
              (Rearranged-trans n lowered swapped (output_loop (r - k) k n r swapped)
                (swap-Rearranged n k (n - c) lowered (omega arith) (omega arith) (omega arith))
                untouched);
        values = λ i u. elim (lt-or-le i k) [
          | inl below ↦
              output_loop_outside (r - k) k n r (n + r + i) swapped (inl (omega arith))
              ∙ swap_outside k (n - c) (n + r + i) lowered (omega arith) (omega arith)
              ∙ get_or-set_ne cells (n + k) (n + r + i) c 0 (omega arith)
              ∙ h i below
              ∙ sym (get_or-set_ne cells (n + k) i c 0 (omega arith))
              ∙ sym (swap_outside k (n - c) i lowered (omega arith) (omega arith))
              ∙ sym (output_loop_outside (r - k) k n r i swapped (inl (omega arith)))
          | inr above ↦
              output_loop_inside (r - k) k n r i swapped (omega arith)
                (omega (arith, length-swap k (n - c) lowered)) inside above (omega arith)
              ∙ sym (output_loop_outside (r - k) k n r i swapped (inl (omega arith)))
        ];
      }

  values-rotate :
      (k i : ℕ) (cells : List ℕ)
      → k < r
      → i < k
      → get_or cells (n + r + i) 0 ≡ get_or cells i 0
      → get_or (rotate k n (set cells (n + k) 0)) (n + r + i) 0
        ≡ get_or (rotate k n (set cells (n + k) 0)) i 0
  values-rotate k i cells b u h =
      let lowered = set cells (n + k) 0 in
      rotate_outside k n (n + r + i) lowered (omega arith) (inr (omega arith)) (omega arith)
      ∙ get_or-set_ne cells (n + k) (n + r + i) 0 0 (omega arith)
      ∙ h
      ∙ sym (get_or-set_ne cells (n + k) i 0 0 (omega arith))
      ∙ sym (rotate_outside k n i lowered (omega arith) (inl u) (omega arith))

  -- The values below `k` show the indices: they all do behind the loop, or the iterator is done.
  pub next_loop-Shown :
      (k : ℕ) (cells : List ℕ)
      → 0 < r
      → k ≤ r
      → IsValid n r cells
      → ((i : ℕ) → i < k → get_or cells (n + r + i) 0 ≡ get_or cells i 0)
      → (get_or (next_loop k n r cells) n 0 ≡ 0) ⊎ Shown n r cells (next_loop k n r cells)
  unfolding next_loop
  next_loop-Shown zero cells some_left b valid h =
      let size = valid.size in inl (get_or-set_self cells n 0 0 (omega arith))
  next_loop-Shown (suc k) cells some_left b valid h =
      let pos = valid.positive k b in
      let bound = valid.bounded k b in
      let size = valid.size in
      elim (eq-or-ne (cycle n cells k) 1) [
        | inl one_left ↦
            let lowered = set cells (n + k) 0 in
            let mid = rotate k n lowered in
            let one = OneCycle-rotate k n r cells b inside small (omega arith) in
            let mid_valid =
              OneCycle-IsValid n r k (n - k) cells mid valid one (omega arith) (omega arith) in
            let carry = sym (next_loop_carry k n r cells one_left) in
            elim (next_loop-Shown k mid some_left (omega arith) mid_valid
              (λ i u. values-rotate k i cells b u (h i (omega arith)))) [
                | inl done ↦ inl (subst (λ out. get_or out n 0 ≡ 0) carry done)
                | inr shown ↦
                    let kept = length-set cells (n + k) 0 in
                    let first =
                      Rearranged-trans n cells lowered mid (lowered-Rearranged k 0 cells)
                        (rotate-Rearranged k n lowered (omega arith) (omega arith)) in
                    let whole : Shown n r cells (next_loop k n r mid) = record {
                      rearranged =
                          Rearranged-trans n cells mid (next_loop k n r mid) first shown.rearranged;
                      values = shown.values;
                    } in
                    inr (subst (λ out. Shown n r cells out) carry whole)
              ]
        | inr more ↦
            let c : ℕ = cycle n cells k - 2 in
            let e : cycle n cells k ≡ suc (suc c) = omega arith in
            inr (
              subst (λ out. Shown n r cells out)
                (sym (next_loop_stop k n r cells c e (omega arith)))
                (Shown-stop k (suc c) cells b (omega arith) (omega arith) size
                  (λ i u. h i (omega arith))))
      ]

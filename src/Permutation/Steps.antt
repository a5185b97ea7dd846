-- ===== src/Permutation/Steps.antt =====
-- What a call of `next` does to the number that the cycles count.
use cutl.Base.{
  ℕ, zero, suc, ◌+◌, ◌-◌, ◌*◌, ◌^◌, ◌≤◌, ◌<◌, ◌≡◌, ◌⊎◌, inl, inr, refl, sym, ◌∙◌, ap, ap₂, arith,
  List, length, set, get_or, get_or-set_self, eq-or-ne, ne→==, subst, u8,
}
use cutl.Permutation.{rotate_loop, output_loop, rotate, swap, next_loop}
use cutl.Permutation.Cycles.{
  cycle, steps, arrangements, IsValid, SameCycles-trans, SameCycles-set, rotate_loop-SameCycles,
  output_loop-SameCycles, swap-SameCycles, steps-cong, steps_carry, steps_full, steps_lower,
  OneCycle, OneCycle-set, OneCycle-IsValid, Stepped,
}

module _ (k n r : ℕ) (cells : List ℕ) where
  pub next_loop_carry :
      cycle n cells k ≡ 1
      → next_loop (suc k) n r cells ≡ next_loop k n r (rotate k n (set cells (n + k) 0))
  unfolding next_loop
  next_loop_carry e = rw e refl

  pub next_loop_stop :
      (c : ℕ)
      → cycle n cells k ≡ suc (suc c)
      → suc c < 2 ^ 8
      → next_loop (suc k) n r cells
        ≡ output_loop (r - k) k n r (swap k (n - suc c) (set cells (n + k) (suc c)))
  unfolding next_loop
  next_loop_stop c e small =
      let lowered : u8 (suc (suc c) + 255) ≡ suc c = omega arith in
      rw (e, lowered, ne→== (suc c) 0 (omega arith)) refl

  OneCycle-lowered :
      (v : ℕ) → k < r → n + r ≤ length cells → OneCycle n r k v cells (set cells (n + k) v)
  OneCycle-lowered v b room =
      OneCycle-set n r k v cells cells (set cells (n + k) v) b room
        (record { size = refl; same = λ i u. refl }) (record { size = refl; same = λ i u. refl })

  pub OneCycle-swap :
      (c : ℕ)
      → k < r
      → r ≤ n
      → n + r ≤ length cells
      → 0 < c
      → c ≤ n
      → OneCycle n r k c cells (output_loop (r - k) k n r (swap k (n - c) (set cells (n + k) c)))
  OneCycle-swap c b inside room pos bound =
      let lowered = set cells (n + k) c in
      OneCycle-set n r k c cells cells (output_loop (r - k) k n r (swap k (n - c) lowered)) b room
        (record { size = refl; same = λ i u. refl })
        (SameCycles-trans n r lowered (swap k (n - c) lowered)
          (output_loop (r - k) k n r (swap k (n - c) lowered))
          (swap-SameCycles n r k (n - c) lowered (omega arith) (omega arith))
          (output_loop-SameCycles n r (r - k) k (swap k (n - c) lowered)))

  pub OneCycle-rotate :
      k < r
      → r ≤ n
      → n < 2 ^ 8
      → n + r ≤ length cells
      → OneCycle n r k (n - k) cells (rotate k n (set cells (n + k) 0))
  unfolding rotate
  OneCycle-rotate b inside small room =
      let lowered = set cells (n + k) 0 in
      let rotated = rotate_loop (n - k) k lowered in
      let placed = set rotated (n - 1) (get_or lowered k 0) in
      let same : u8 (n - k) ≡ n - k = omega arith in
      let first = OneCycle-lowered 0 b room in
      let second =
        OneCycle-set n r k (n - k) lowered placed (set placed (n + k) (n - k)) b
          (omega (arith, first.size))
          (SameCycles-trans n r lowered rotated placed
            (rotate_loop-SameCycles n r (n - k) k lowered (omega arith))
            (SameCycles-set n r rotated (n - 1) (get_or lowered k 0) (inl (omega arith))))
          (record { size = refl; same = λ i u. refl }) in
      rw same (record {
        size = second.size ∙ first.size;
        here = second.here;
        others = λ i u ne. second.others i u ne ∙ first.others i u ne;
      })

module _ (n r : ℕ) (inside : r ≤ n) (small : n < 2 ^ 8) where
  Stepped-carry :
      (k : ℕ) (cells mid out : List ℕ)
      → k < r
      → cycle n cells k ≡ 1
      → OneCycle n r k (n - k) cells mid
      → Stepped n r k mid out
      → Stepped n r (suc k) cells out
  Stepped-carry k cells mid out b one_left one s = record {
    valid = s.valid;
    count =
        ap (λ c. steps n out k * (n - k) + (n - k - c)) (s.above k (omega arith) b ∙ one.here)
        ∙ steps_carry (steps n cells k) (steps n out k) (n - k) (cycle n cells k) (omega arith)
            one_left
            (s.count
              ∙ ap suc
                  (steps-cong n mid cells k (λ i u. one.others i (omega arith) (omega arith))));
    above = λ i l u. s.above i (omega arith) u ∙ one.others i u (omega arith);
  }

  Stepped-stop :
      (k c : ℕ) (cells out : List ℕ)
      → k < r
      → IsValid n r cells
      → cycle n cells k ≡ suc (suc c)
      → OneCycle n r k (suc c) cells out
      → Stepped n r (suc k) cells out
  Stepped-stop k c cells out b valid e one =
      let bound = valid.bounded k b in
      record {
        valid = OneCycle-IsValid n r k (suc c) cells out valid one (omega arith) (omega arith);
        count =
            ap₂ (λ s d. s * (n - k) + (n - k - d))
              (steps-cong n out cells k (λ i u. one.others i (omega arith) (omega arith))) one.here
            ∙ steps_lower (steps n cells k) (n - k) (cycle n cells k) (suc c) (sym e) bound;
        above = λ i l u. one.others i u (omega arith);
      }

  -- From position `k - 1` down: the count of the first `k` cycles rises by one, or it was the last,
  -- and the first cycle is set to zero.
  pub next_loop_lem :
      (k : ℕ) (cells : List ℕ)
      → 0 < r
      → k ≤ r
      → IsValid n r cells
      → Stepped n r k cells (next_loop k n r cells)
        ⊎ ((get_or (next_loop k n r cells) n 0 ≡ 0) × (suc (steps n cells k) ≡ arrangements n k))
  unfolding next_loop
  next_loop_lem zero cells some_left b valid =
      let size = valid.size in inr (get_or-set_self cells n 0 0 (omega arith), refl)
  next_loop_lem (suc k) cells some_left b valid =
      let pos = valid.positive k b in
      let bound = valid.bounded k b in
      let size = valid.size in
      elim (eq-or-ne (cycle n cells k) 1) [
        | inl one_left ↦
            let mid = rotate k n (set cells (n + k) 0) in
            let one = OneCycle-rotate k n r cells b inside small (omega arith) in
            let mid_valid =
              OneCycle-IsValid n r k (n - k) cells mid valid one (omega arith) (omega arith) in
            elim (next_loop_lem k mid some_left (omega arith) mid_valid) [
              | inl s ↦
                  let whole = Stepped-carry k cells mid (next_loop k n r mid) b one_left one s in
                  inl (
                    subst (λ out. Stepped n r (suc k) cells out)
                      (sym (next_loop_carry k n r cells one_left)) whole)
              | inr (done, full) ↦ inr (
                ap (λ out. get_or out n 0) (next_loop_carry k n r cells one_left) ∙ done,
                steps_full (steps n cells k) (arrangements n k) (n - k) (cycle n cells k)
                    (omega arith) one_left
                    (ap suc (
                        steps-cong n cells mid k
                          (λ i u. sym (one.others i (omega arith) (omega arith))))
                      ∙ full),
              )
            ]
        | inr more ↦
            let c : ℕ = cycle n cells k - 2 in
            let e : cycle n cells k ≡ suc (suc c) = omega arith in
            let one =
              OneCycle-swap k n r cells (suc c) b inside (omega arith) (omega arith)
                (omega arith) in
            let out = output_loop (r - k) k n r (swap k (n - suc c) (set cells (n + k) (suc c))) in
            let whole = Stepped-stop k c cells out b valid e one in
            inl (
              subst (λ o. Stepped n r (suc k) cells o)
                (sym (next_loop_stop k n r cells c e (omega arith))) whole)
      ]

-- ===== src/Combination/Next.antt =====
-- `combination_iterator_next` on the array of counters, against the step of `Step`.
use cutl.Base.{
  ℕ, ◌+◌, ◌-◌, ◌^◌, ◌<◌, ◌≡◌, refl, sym, ◌∙◌, ap, ap₂, arith, List, [], ◌∷◌, ◌++◌, append-nil, true,
  false, inl, inr, eq-or-ne, length, get_or, set, reverse_onto, length-reverse_onto,
  get_or-reverse_onto, set-reverse_onto, u8, eq→==, ne→==,
}
use cutl.Combination.{roll_over, next_loop}
use cutl.Combination.Rank.{IsFrom, length-le}
use cutl.Combination.Step.{
  run, advance, advance_full, advance_moves, advance_stays, advance-nil, length-advance,
}

-- Reading and writing at the place where the list is seen from.
get_here : (q : List ℕ) (x : ℕ) (s : List ℕ) → get_or (reverse_onto q (x ∷ s)) (length q) 0 ≡ x
get_here q x s =
    let e : length q ≡ length q + 0 = omega arith in rw e (get_or-reverse_onto q (x ∷ s) 0 0)

set_here :
    (q : List ℕ) (x v : ℕ) (s : List ℕ)
    → set (reverse_onto q (x ∷ s)) (length q) v ≡ reverse_onto q (v ∷ s)
set_here q x v s =
    let e : length q ≡ length q + 0 = omega arith in rw e (set-reverse_onto q (x ∷ s) 0 v)

-- The loop that rolls the counters over writes numbers in a row.
roll_over-eq-run :
    (t q : List ℕ) (y : ℕ)
    → y + length t < 2 ^ 8
    → roll_over (length t) (length (y ∷ q)) (reverse_onto (y ∷ q) t)
      ≡ reverse_onto (y ∷ q) (run (y + 1) (length t))
unfolding roll_over
roll_over-eq-run [] q y h = refl
roll_over-eq-run (z ∷ t) q y h =
    let e : length (y ∷ q) - 1 ≡ length q = omega arith in
    let e' : length (y ∷ q) + 1 ≡ length ((y + 1) ∷ y ∷ q) = omega arith in
    let small : u8 (y + 1) ≡ y + 1 = omega arith in
    let array : List ℕ = reverse_onto (y ∷ q) (z ∷ t) in
    let written : set array (length (y ∷ q)) (u8 (get_or array (length (y ∷ q) - 1) 0 + 1))
        ≡ reverse_onto ((y + 1) ∷ y ∷ q) t =
      rw (e, get_here q y (z ∷ t), small) (set_here (y ∷ q) z (y + 1) t) in
    ap₂ (λ j c. roll_over (length t) j c) e' written
    ∙ roll_over-eq-run t (y ∷ q) (y + 1) (omega arith)

roll_over_rest :
    (k : ℕ) (t q : List ℕ) (y : ℕ)
    → length t ≡ k
    → y + k < 2 ^ 8
    → roll_over k (length (y ∷ q)) (reverse_onto (y ∷ q) t) ≡ reverse_onto (y ∷ q) (run (y + 1) k)
roll_over_rest k t q y e h = rw (← e) (roll_over-eq-run t q y (omega arith))

-- A step that stays behind the counters of `q` leaves those alone.
advance-reverse_onto :
    (n : ℕ) (q s : List ℕ)
    → (advance n s).0 ≡ false
    → (advance n (reverse_onto q s)).1 ≡ reverse_onto q (advance n s).1
advance-reverse_onto n [] s e = refl
advance-reverse_onto n (x ∷ q) s e =
    let stays = advance_stays n x s e in
    advance-reverse_onto n q (x ∷ s) (ap (λ p. p.0) stays) ∙ ap (λ p. reverse_onto q p.1) stays

IsFrom-reverse_onto :
    (n m : ℕ) (q s : List ℕ) → IsFrom n m (reverse_onto q s) → (k : ℕ) × IsFrom n k s
IsFrom-reverse_onto n m [] s h = (m, h)
IsFrom-reverse_onto n m (x ∷ q) s h =
    let (k, from) = IsFrom-reverse_onto n m q (x ∷ s) h in (x + 1, from.2)

-- Seen from behind `q`, with the counters from there on rolled over already.
next_loop-eq-advance :
    (n r m : ℕ) (q s : List ℕ)
    → n < 2 ^ 8
    → r ≡ length q + length s
    → IsFrom n m (reverse_onto q s)
    → (advance n s).0 ≡ true
    → next_loop (length q) n r (reverse_onto q (advance n s).1) ≡ (advance n (reverse_onto q s)).1
unfolding next_loop
next_loop-eq-advance n r m [] s small e h rolled = refl
next_loop-eq-advance n r m (x ∷ q) s small e h rolled =
    let (k, from) = IsFrom-reverse_onto n m q (x ∷ s) h in
    let s' : List ℕ = (advance n s).1 in
    let cnt : u8 (x + 1) ≡ x + 1 = omega (arith, from.1) in
    let behind : r - (length q + 1) ≡ length s = omega arith in
    rw (get_here q x s', cnt, set_here q x (x + 1) s', behind)
      (elim (eq-or-ne (x + 1 + length s) n) [
        | inl full ↦
            let step = advance_full n x s rolled full in
            rw (eq→== (x + 1 + length s) n full) (
              ap (λ p. next_loop (length q) n r (reverse_onto q p.1)) (sym step)
              ∙ next_loop-eq-advance n r m q (x ∷ s) small (omega arith) h (ap (λ p. p.0) step))
        | inr ne ↦
            let step = advance_moves n x s rolled ne in
            let same : length s' ≡ length s = length-advance n s in
            let place : length q + 1 ≡ length ((x + 1) ∷ q) = omega arith in
            let room = length-le n (x + 1) s from.2 (omega (arith, from.1)) in
            rw (ne→== (x + 1 + length s) n ne, place)
              (roll_over_rest (length s) s' q (x + 1) same (omega arith)
                ∙ sym (
                    advance-reverse_onto n q (x ∷ s) (ap (λ p. p.0) step)
                    ∙ ap (λ p. reverse_onto q p.1) step))
      ])

reverse_onto_twice :
    (cs acc t : List ℕ) → reverse_onto (reverse_onto cs acc) t ≡ reverse_onto acc (cs ++ t)
reverse_onto_twice [] acc t = refl
reverse_onto_twice (x ∷ cs) acc t = reverse_onto_twice cs (x ∷ acc) t

-- The whole loop of `next` is one step.
pub next_loop_lem :
    (n : ℕ) (cs : List ℕ)
    → n < 2 ^ 8
    → IsFrom n 0 cs
    → next_loop (length cs) n (length cs) cs ≡ (advance n cs).1
next_loop_lem n cs small h =
    let q : List ℕ = reverse_onto cs [] in
    let back : reverse_onto q [] ≡ cs = reverse_onto_twice cs [] [] ∙ append-nil cs in
    let same : length q ≡ length cs = length-reverse_onto cs [] ∙ omega arith in
    let none_left =
      next_loop-eq-advance n (length q) 0 q [] small (omega arith) (rw back h)
        (ap (λ p. p.0) (advance-nil n)) in
    ap₂ (λ k ds. next_loop k n k ds) (sym same) (sym back)
    ∙ ap (λ p. next_loop (length q) n (length q) (reverse_onto q p.1)) (sym (advance-nil n))
    ∙ none_left
    ∙ ap (λ ds. (advance n ds).1) back

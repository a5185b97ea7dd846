-- ===== src/Combination/Unrank.antt =====
-- `combination_set_to_index` writes the combination that stands at the index.
use cutl.Base.{
  ℕ, zero, suc, ◌+◌, ◌-◌, ◌^◌, ◌≤◌, ◌<◌, ◌≡◌, refl, sym, ◌∙◌, ap, ap₂, arith, List, [], ◌∷◌, some,
  inl, inr, length, set, get_elem?, reverse_onto, set-reverse_onto, u8, u32, lt-or-le, lt→ltb,
  le→ltb, ne→==,
}
use cutl.Combination.{find_value, set_loop, set_to_index, get_index}
use cutl.Combination.Binomial.{binom, falling, binom_self, binom_one, binom_above}
use cutl.Combination.Rank.{combinations, IsFrom, rank, pascal_at, binom_mono, get_elem?-rank}
use cutl.Combination.Index.{count_at, fits_next, get_index-eq-rank}

-- The value that the inner loop finds, and what it leaves of the index for the later values.
record Finds (n k j remaining : ℕ) (out : ℕ × ℕ) : Type 0 where
  above : j ≤ out.0
  room : out.0 + k < n
  left : out.1 < binom (n - (out.0 + 1)) k
  spent : remaining + binom (n - out.0) (suc k) ≡ out.1 + binom (n - j) (suc k)

find_value-Finds :
    (rounds n k m j remaining : ℕ)
    → m ≤ j
    → j + rounds + k + 1 ≡ n
    → remaining < binom (n - j) (suc k)
    → remaining < 2 ^ 32
    → falling (n - m) (suc k) < 2 ^ 64
    → Finds n k j remaining (find_value rounds n k j remaining)
unfolding find_value
find_value-Finds zero n k m j remaining h e lt small fits =
    let here : n - j ≡ suc k = omega arith in
    let after : n - (j + 1) ≡ k = omega arith in
    let lt' : remaining < binom (suc k) (suc k) = rw here at lt in
    record {
      above = omega arith;
      room = omega arith;
      left = rw after (omega (arith, binom_self k, binom_self (suc k)));
      spent = refl;
    }
find_value-Finds (suc rounds) n k m j remaining h e lt small fits =
    let count = count_at n m j k h (omega arith) fits in
    let pascal = pascal_at n j k (omega arith) in
    let c : ℕ = binom (n - (j + 1)) k in
    elim (lt-or-le remaining c) [
      | inl stops ↦
          rw (count, lt→ltb remaining c stops)
            (record { above = omega arith; room = omega arith; left = stops; spent = refl })
      | inr goes ↦
          let less : u32 (remaining - c) ≡ remaining - c = omega arith in
          let ih =
            find_value-Finds rounds n k m (j + 1) (remaining - c) (omega arith) (omega arith)
              (omega arith) (omega arith) fits in
          rw (count, le→ltb remaining c goes, less)
            (record {
              above = omega (arith, ih.above);
              room = ih.room;
              left = ih.left;
              spent = omega (arith, ih.spent);
            })
    ]

-- The values that the outer loop writes from the position `length q` on.
record Writes (n m remaining size : ℕ) (q out : List ℕ) : Type 0 where
  values : List ℕ
  array : out ≡ reverse_onto q values
  count : length values ≡ size
  valid : IsFrom n m values
  place : rank n m values ≡ remaining

write_here :
    (q : List ℕ) (x v : ℕ) (s : List ℕ)
    → set (reverse_onto q (x ∷ s)) (length q) v ≡ reverse_onto (v ∷ q) s
write_here q x v s =
    let e : length q ≡ length q + 0 = omega arith in
    ap (λ i. set (reverse_onto q (x ∷ s)) i v) e ∙ set-reverse_onto q (x ∷ s) 0 v

set_loop_last :
    (n r m remaining z : ℕ) (q : List ℕ)
    → r ≡ length q + 1
    → m < n
    → n < 2 ^ 8
    → remaining < binom (n - m) 1
    → Writes n m remaining 1 q (set_loop 0 (length q) n r m remaining (reverse_onto q (z ∷ [])))
unfolding set_loop
set_loop_last n r m remaining z q e b small lt =
    let at : r - 1 ≡ length q = omega arith in
    let fits : m + remaining < n = omega (arith, binom_one (n - m)) in
    let cut : u8 (m + remaining) ≡ m + remaining = omega arith in
    record {
      values = (m + remaining) ∷ [];
      array = rw (at, cut) (write_here q z (m + remaining) []);
      count = refl;
      valid = (omega arith, fits, tt);
      place = omega (arith, binom_one (n - m), binom_one (n - (m + remaining)));
    }

set_loop_step :
    (rounds n r m remaining z : ℕ) (t q : List ℕ) (found : ℕ × ℕ)
    → found ≡ find_value (n - r + length q - m) n (r - 1 - length q) m remaining
    → found.0 < 2 ^ 8
    → set_loop (suc rounds) (length q) n r m remaining (reverse_onto q (z ∷ t))
      ≡ set_loop rounds
          (length (found.0 ∷ q))
          n
          r
          (found.0 + 1)
          found.1
          (reverse_onto (found.0 ∷ q) t)
unfolding set_loop
set_loop_step rounds n r m remaining z t q found e small =
    let cut : u8 found.0 ≡ found.0 = omega arith in
    let place : length q + 1 ≡ length (found.0 ∷ q) = omega arith in
    rw (← e, cut, write_here q z found.0 t, place) refl

Writes-cons :
    (n m remaining rounds r z : ℕ) (t q : List ℕ) (found : ℕ × ℕ)
    → found ≡ find_value (n - r + length q - m) n (r - 1 - length q) m remaining
    → n < 2 ^ 8
    → Finds n (suc rounds) m remaining found
    → Writes n (found.0 + 1) found.1 (suc rounds) (found.0 ∷ q) (
        set_loop rounds
          (length (found.0 ∷ q))
          n
          r
          (found.0 + 1)
          found.1
          (reverse_onto (found.0 ∷ q) t))
    → Writes n m remaining
        (suc (suc rounds))
        q
        (set_loop (suc rounds) (length q) n r m remaining (reverse_onto q (z ∷ t)))
Writes-cons n m remaining rounds r z t q found e small finds ih =
    let v : ℕ = found.0 in
    let mono = binom_mono (n - v) (n - m) (suc (suc rounds)) (omega (arith, finds.above)) in
    record {
      values = v ∷ ih.values;
      array =
          set_loop_step rounds n r m remaining z t q found e (omega (arith, finds.room)) ∙ ih.array;
      count = ap suc ih.count;
      valid = (finds.above, omega (arith, finds.room), ih.valid);
      place = rw (ih.count, ih.place) (omega (arith, finds.spent));
    }

set_loop-Writes :
    (rounds n r m remaining : ℕ) (t q : List ℕ)
    → length t ≡ suc rounds
    → r ≡ length q + suc rounds
    → m + rounds < n
    → n < 2 ^ 8
    → remaining < binom (n - m) (suc rounds)
    → remaining < 2 ^ 32
    → length q ≤ m
    → r ≤ n
    → falling (n - m) (suc rounds) < 2 ^ 64
    → Writes n m remaining
        (suc rounds)
        q
        (set_loop rounds (length q) n r m remaining (reverse_onto q t))
set_loop-Writes rounds n r m remaining [] q size e b small lt lt32 lead inside fits =
    absurd (omega arith)
set_loop-Writes zero n r m remaining (z ∷ []) q size e b small lt lt32 lead inside fits =
    set_loop_last n r m remaining z q e (omega arith) small lt
set_loop-Writes zero n r m remaining (z ∷ y ∷ t) q size e b small lt lt32 lead inside fits =
    absurd (omega arith)
set_loop-Writes (suc rounds) n r m remaining (z ∷ t) q size e b small lt lt32 lead inside fits =
    let k : ℕ = suc rounds in
    let found : ℕ × ℕ = find_value (n - r + length q - m) n (r - 1 - length q) m remaining in
    let at : r - 1 - length q ≡ k = omega arith in
    let finds : Finds n k m remaining found = rw at (
      find_value-Finds (n - r + length q - m) n k m m remaining (omega arith) (omega arith) lt lt32
        fits) in
    let v : ℕ = found.0 in
    let mono = binom_mono (n - v) (n - m) (suc k) (omega (arith, finds.above)) in
    let ih =
      set_loop-Writes rounds n r (v + 1) found.1 t (v ∷ q) (omega arith) (omega arith)
        (omega (arith, finds.room)) small finds.left (omega (arith, finds.spent))
        (omega (arith, finds.above)) inside
        (fits_next n m v k finds.above (omega (arith, finds.room)) fits) in
    Writes-cons n m remaining rounds r z t q found refl small finds ih

set_to_index-Writes :
    (n r index : ℕ) (vals : List ℕ)
    → length vals ≡ suc r
    → n < 2 ^ 8
    → falling n (suc r) < 2 ^ 64
    → binom n (suc r) < 2 ^ 32
    → index < binom n (suc r)
    → Writes n 0 index (suc r) [] (set_to_index n (suc r) vals index)
unfolding set_to_index
set_to_index-Writes n r index vals size small fits fits32 lt = elim (lt-or-le n (suc r)) [
  | inl above ↦ absurd (omega (arith, binom_above n (suc r) above))
  | inr inside ↦
      let whole : n - 0 ≡ n = omega arith in
      let rounds : suc r - 1 ≡ r = omega arith in
      rw (ne→== (suc r) 0 (omega arith), rounds)
        (set_loop-Writes r n (suc r) 0 index vals [] size (omega arith) (omega arith) small
          (rw whole lt) (omega arith) (omega arith) inside (rw whole fits))
]

-- For `r` from 1 on, `n` below 256, a product of `r` factors that fits 64 bits and a number of
-- combinations that fits 32: for every index below that number the function fills the array with
-- `r` values, which are the combination at that index in lexicographic order.
pub set_to_index-combinations :
    (n r index : ℕ) (vals : List ℕ)
    → length vals ≡ suc r
    → n < 2 ^ 8
    → falling n (suc r) < 2 ^ 64
    → binom n (suc r) < 2 ^ 32
    → index < binom n (suc r)
    → (IsFrom n 0 (set_to_index n (suc r) vals index))
      × (length (set_to_index n (suc r) vals index) ≡ suc r)
      × (get_elem? (combinations 0 n (suc r)) index ≡ some (set_to_index n (suc r) vals index))
set_to_index-combinations n r index vals size small fits fits32 lt =
    let w = set_to_index-Writes n r index vals size small fits fits32 lt in
    let listed = get_elem?-rank n 0 n w.values (omega arith) w.valid in
    (
      rw w.array w.valid,
      rw w.array w.count,
      rw w.array
          (ap₂ (λ i k. get_elem? (combinations 0 n k) i) (sym w.place) (sym w.count) ∙ listed),
    )

-- For `r` from 1 on, `n` below 256, an array of `r` values, a product of `r` factors that fits 64
-- bits, a number of combinations that fits 32 and an index below it: `combination_get_index` of
-- what `combination_set_to_index` wrote is the index.
pub get_index-set_to_index :
    (n r index : ℕ) (vals : List ℕ)
    → length vals ≡ suc r
    → n < 2 ^ 8
    → falling n (suc r) < 2 ^ 64
    → binom n (suc r) < 2 ^ 32
    → index < binom n (suc r)
    → get_index n (suc r) (set_to_index n (suc r) vals index) ≡ some index
get_index-set_to_index n r index vals size small fits fits32 lt =
    let w = set_to_index-Writes n r index vals size small fits fits32 lt in
    let found =
      get_index-eq-rank n w.values w.valid (omega arith) (rw w.count fits) (rw w.count fits32) in
    rw w.array
      (ap (λ k. get_index n k w.values) (sym w.count) ∙ found ∙ ap (λ (t : ℕ). some t) w.place)

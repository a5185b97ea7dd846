-- ===== src/Permutation/Rearranged.antt =====
-- Rotating and swapping the indices rearranges them.
use cutl.Base.{
  ℕ, zero, suc, ◌+◌, ◌-◌, ◌≤◌, ◌<◌, ◌≡◌, ◌≢◌, ◌⊎◌, inl, inr, refl, sym, ◌∙◌, ap, arith, List,
  length, set, get_or, get_or-set_self, get_or-set_ne, length-set, lt-or-le, eq-or-ne, u8, ltb,
  ◌==◌, if◌then◌else◌,
}
use cutl.Permutation.{rotate_loop, rotate, swap}

-- The first `n` cells of `out` are those of `cells` in some order.
pub record Rearranged (n : ℕ) (cells out : List ℕ) : Type 0 where
  pub place : ℕ → ℕ
  pub inside : (i : ℕ) → i < n → place i < n
  pub apart : (i j : ℕ) → i < n → j < n → place i ≡ place j → i ≡ j
  pub moved : (i : ℕ) → i < n → get_or out i 0 ≡ get_or cells (place i) 0

pub Rearranged-trans :
    (n : ℕ) (a b c : List ℕ) → Rearranged n a b → Rearranged n b c → Rearranged n a c
Rearranged-trans n a b c f g = record {
  place = λ i. f.place (g.place i);
  inside = λ i u. f.inside (g.place i) (g.inside i u);
  apart = λ i j u v e.
      g.apart i j u v (f.apart (g.place i) (g.place j) (g.inside i u) (g.inside j v) e);
  moved = λ i u. g.moved i u ∙ f.moved (g.place i) (g.inside i u);
}

pub Rearranged-same :
    (n : ℕ) (cells out : List ℕ)
    → ((i : ℕ) → i < n → get_or out i 0 ≡ get_or cells i 0)
    → Rearranged n cells out
Rearranged-same n cells out h = record {
  place = λ i. i;
  inside = λ i u. u;
  apart = λ i j u v e. e;
  moved = h;
}

pub rotate_loop_outside :
    (rounds i j : ℕ) (cells : List ℕ)
    → (j < i) ⊎ (i + rounds ≤ j)
    → get_or (rotate_loop rounds i cells) j 0 ≡ get_or cells j 0
unfolding rotate_loop
rotate_loop_outside zero i j cells h = refl
rotate_loop_outside (suc rounds) i j cells h =
    let v = get_or cells (i + 1) 0 in
    let other : i ≢ j = elim h [ inl below ↦ omega arith | inr above ↦ omega arith ] in
    rotate_loop_outside rounds (i + 1) j (set cells i v)
      (elim h [ inl below ↦ inl (omega arith) | inr above ↦ inr (omega arith) ])
    ∙ get_or-set_ne cells i j v 0 other

rotate_loop_inside :
    (rounds i j : ℕ) (cells : List ℕ)
    → i + rounds ≤ length cells
    → i ≤ j
    → j < i + rounds
    → get_or (rotate_loop rounds i cells) j 0 ≡ get_or cells (j + 1) 0
unfolding rotate_loop
rotate_loop_inside zero i j cells room l u = absurd (omega arith)
rotate_loop_inside (suc rounds) i j cells room l u =
    let v = get_or cells (i + 1) 0 in
    elim (eq-or-ne i j) [
      | inl e ↦
          let next : i + 1 ≡ j + 1 = omega arith in
          rotate_loop_outside rounds (i + 1) j (set cells i v) (inl (omega arith))
          ∙ ap (λ t. get_or (set cells i v) t 0) (sym e)
          ∙ get_or-set_self cells i v 0 (omega arith)
          ∙ ap (λ t. get_or cells t 0) next
      | inr ne ↦
          rotate_loop_inside rounds (i + 1) j (set cells i v) (omega (arith, length-set cells i v))
            (omega arith) (omega arith)
          ∙ get_or-set_ne cells i (j + 1) v 0 (omega arith)
    ]

length-rotate_loop :
    (rounds i : ℕ) (cells : List ℕ) → length (rotate_loop rounds i cells) ≡ length cells
unfolding rotate_loop
length-rotate_loop zero i cells = refl
length-rotate_loop (suc rounds) i cells =
    length-rotate_loop rounds (i + 1) (set cells i (get_or cells (i + 1) 0))
    ∙ length-set cells i (get_or cells (i + 1) 0)

-- Where the rotation and the swap take an index from.
abbrev rotated_from : ℕ → ℕ → ℕ → ℕ
rotated_from k n i = if ltb i k then i else if i == n - 1 then k else (i + 1)

abbrev swapped_from : ℕ → ℕ → ℕ → ℕ
swapped_from k1 k2 i = if i == k2 then k1 else if i == k1 then k2 else i

-- The cells of no index and no cycle keep their values, and so do the indices below `k`.
pub rotate_outside :
    (k n j : ℕ) (cells : List ℕ)
    → k < n
    → (j < k) ⊎ (n ≤ j)
    → n + k ≢ j
    → get_or (rotate k n cells) j 0 ≡ get_or cells j 0
unfolding rotate
rotate_outside k n j cells b h ne =
    let rotated = rotate_loop (n - k) k cells in
    let placed = set rotated (n - 1) (get_or cells k 0) in
    let other : n - 1 ≢ j = elim h [ inl below ↦ omega arith | inr above ↦ omega arith ] in
    get_or-set_ne placed (n + k) j (u8 (n - k)) 0 ne
    ∙ get_or-set_ne rotated (n - 1) j (get_or cells k 0) 0 other
    ∙ rotate_loop_outside (n - k) k j cells
        (elim h [ inl below ↦ inl below | inr above ↦ inr (omega arith) ])

rotated_at :
    (k n i : ℕ) (cells : List ℕ)
    → k < n
    → i < n
    → n ≤ length cells
    → get_or (set (rotate_loop (n - k) k cells) (n - 1) (get_or cells k 0)) i 0
      ≡ get_or cells (rotated_from k n i) 0
rotated_at k n i cells b u room =
    let rotated = rotate_loop (n - k) k cells in
    let tmp = get_or cells k 0 in
    let kept = length-rotate_loop (n - k) k cells in
    elim (eq-or-ne i (n - 1)) [
      | inl last ↦
          let from : rotated_from k n i ≡ k = ground arith in
          ap (λ t. get_or (set rotated (n - 1) tmp) t 0) last
          ∙ get_or-set_self rotated (n - 1) tmp 0 (omega arith)
          ∙ ap (λ t. get_or cells t 0) (sym from)
      | inr ne ↦ elim (lt-or-le i k) [
        | inl below ↦
            let from : rotated_from k n i ≡ i = ground arith in
            get_or-set_ne rotated (n - 1) i tmp 0 (omega arith)
            ∙ rotate_loop_outside (n - k) k i cells (inl below)
            ∙ ap (λ t. get_or cells t 0) (sym from)
        | inr above ↦
            let from : rotated_from k n i ≡ i + 1 = ground arith in
            get_or-set_ne rotated (n - 1) i tmp 0 (omega arith)
            ∙ rotate_loop_inside (n - k) k i cells (omega arith) above (omega arith)
            ∙ ap (λ t. get_or cells t 0) (sym from)
      ]
    ]

pub rotate-Rearranged :
    (k n : ℕ) (cells : List ℕ) → k < n → n ≤ length cells → Rearranged n cells (rotate k n cells)
unfolding rotate
rotate-Rearranged k n cells b room =
    let rotated = rotate_loop (n - k) k cells in
    let tmp = get_or cells k 0 in
    let placed = set rotated (n - 1) tmp in
    let cleared : (i : ℕ) → i < n → get_or (rotate k n cells) i 0 ≡ get_or placed i 0 =
      λ i u. get_or-set_ne placed (n + k) i (u8 (n - k)) 0 (omega arith) in
    record {
      place = rotated_from k n;
      inside = λ i u. ground arith;
      apart = λ i j u v e. ground arith;
      moved = λ i u. cleared i u ∙ rotated_at k n i cells b u room;
    }

swapped_at :
    (k1 k2 i : ℕ) (cells : List ℕ)
    → k1 < length cells
    → k2 < length cells
    → get_or (swap k1 k2 cells) i 0 ≡ get_or cells (swapped_from k1 k2 i) 0
unfolding swap
swapped_at k1 k2 i cells b1 b2 =
    let first = set cells k1 (get_or cells k2 0) in
    let tmp = get_or cells k1 0 in
    let kept = length-set cells k1 (get_or cells k2 0) in
    elim (eq-or-ne i k2) [
      | inl second ↦
          let from : swapped_from k1 k2 i ≡ k1 = ground arith in
          ap (λ t. get_or (set first k2 tmp) t 0) second
          ∙ get_or-set_self first k2 tmp 0 (omega arith)
          ∙ ap (λ t. get_or cells t 0) (sym from)
      | inr ne2 ↦ elim (eq-or-ne i k1) [
        | inl e ↦
            let from : swapped_from k1 k2 i ≡ k2 = ground arith in
            get_or-set_ne first k2 i tmp 0 (omega arith)
            ∙ ap (λ t. get_or first t 0) e
            ∙ get_or-set_self cells k1 (get_or cells k2 0) 0 b1
            ∙ ap (λ t. get_or cells t 0) (sym from)
        | inr ne1 ↦
            let from : swapped_from k1 k2 i ≡ i = ground arith in
            get_or-set_ne first k2 i tmp 0 (omega arith)
            ∙ get_or-set_ne cells k1 i (get_or cells k2 0) 0 (omega arith)
            ∙ ap (λ t. get_or cells t 0) (sym from)
      ]
    ]

pub swap_outside :
    (k1 k2 i : ℕ) (cells : List ℕ)
    → i ≢ k1
    → i ≢ k2
    → get_or (swap k1 k2 cells) i 0 ≡ get_or cells i 0
unfolding swap
swap_outside k1 k2 i cells ne1 ne2 =
    get_or-set_ne (set cells k1 (get_or cells k2 0)) k2 i (get_or cells k1 0) 0 (omega arith)
    ∙ get_or-set_ne cells k1 i (get_or cells k2 0) 0 (omega arith)

pub swap-Rearranged :
    (n k1 k2 : ℕ) (cells : List ℕ)
    → k1 < n
    → k2 < n
    → n ≤ length cells
    → Rearranged n cells (swap k1 k2 cells)
swap-Rearranged n k1 k2 cells b1 b2 room = record {
  place = swapped_from k1 k2;
  inside = λ i u. ground arith;
  apart = λ i j u v e. ground arith;
  moved = λ i u. swapped_at k1 k2 i cells (omega arith) (omega arith);
}

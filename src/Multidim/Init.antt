-- ===== src/Multidim/Init.antt =====
-- The two ways to set the iterator up: from an array of dimensions, or one dimension at a time.
use cutl.Base.{
  ℕ, suc, ◌+◌, ◌-◌, ◌≤◌, ◌<◌, ◌≡◌, ◌≢◌, refl, sym, ◌∙◌, ap, arith, inl, inr, lt-or-le, eq-or-ne,
  List, [], ◌∷◌, length, get_or, set, length-set, get_or-set_self, get_or-set_ne, lt→ltb,
}
use cutl.Multidim.{MultidimIterator, dim_at, offset_at, set_dim, set_offset, init_dim}

-- `multidim_iterator_init_dim` for the dimensions of a list in turn, from `dim` on.
pub init_dims : ℕ → List ℕ → MultidimIterator → MultidimIterator
init_dims dim [] it = it
init_dims dim (size ∷ sizes) it = init_dims (dim + 1) sizes (init_dim it dim size)

-- The first `k` dimensions are set, the offsets behind them are zero.
record Starts (it : MultidimIterator) (k : ℕ) (dims : ℕ → ℕ) : Type 0 where
  shape : it.ndims ≡ k
  sizes : (i : ℕ) → i < k → get_or it.cells i 0 ≡ dims i
  zeros : (i : ℕ) → i < k → get_or it.cells (k + i) 0 ≡ 0

-- The cells that `init_dim` writes, in the order of the writes.
abbrev init_dim_cells : List ℕ → ℕ → ℕ → List ℕ
init_dim_cells cells k size = set (set (set cells k size) (k + 1 + (k - 1)) 0) (k + 1 + k) 0

get_or-cells :
    (cells : List ℕ) (k size i : ℕ)
    → 0 < k
    → i ≢ k
    → i < k + k
    → get_or (init_dim_cells cells k size) i 0 ≡ get_or cells i 0
get_or-cells cells k size i pos ne lt =
    let one : List ℕ = set cells k size in
    let two : List ℕ = set one (k + 1 + (k - 1)) 0 in
    get_or-set_ne two (k + 1 + k) i 0 0 (omega arith)
    ∙ get_or-set_ne one (k + 1 + (k - 1)) i 0 0 (omega arith)
    ∙ get_or-set_ne cells k i size 0 (omega arith)

length-cells : (cells : List ℕ) (k size : ℕ) → length (init_dim_cells cells k size) ≡ length cells
length-cells cells k size =
    let one : List ℕ = set cells k size in
    let two : List ℕ = set one (k + 1 + (k - 1)) 0 in
    length-set two (k + 1 + k) 0 ∙ length-set one (k + 1 + (k - 1)) 0 ∙ length-set cells k size

-- The written cells hold the new size and zero.
written_cells :
    (cells : List ℕ) (k size : ℕ)
    → 0 < k
    → k + k + 1 < length cells
    → (get_or (init_dim_cells cells k size) k 0 ≡ size)
      × (get_or (init_dim_cells cells k size) (k + k) 0 ≡ 0)
      × (get_or (init_dim_cells cells k size) (k + 1 + k) 0 ≡ 0)
written_cells cells k size pos room =
    let one : List ℕ = set cells k size in
    let two : List ℕ = set one (k + 1 + (k - 1)) 0 in
    let place : k + 1 + (k - 1) ≡ k + k = omega arith in
    let size_one = length-set cells k size in
    let size_two = length-set one (k + 1 + (k - 1)) 0 in
    (
      get_or-set_ne two (k + 1 + k) k 0 0 (omega arith)
          ∙ get_or-set_ne one (k + 1 + (k - 1)) k 0 0 (omega arith)
          ∙ get_or-set_self cells k size 0 (omega arith),
      get_or-set_ne two (k + 1 + k) (k + k) 0 0 (omega arith)
          ∙ rw place (get_or-set_self one (k + k) 0 0 (omega arith)),
      get_or-set_self two (k + 1 + k) 0 0 (omega arith),
    )

init_dim_shape :
    (it : MultidimIterator) (k size : ℕ)
    → 0 < k
    → init_dim it k size ≡ record { ndims = k + 1; cells = init_dim_cells it.cells k size }
unfolding init_dim set_dim set_offset
init_dim_shape it k size pos = rw (lt→ltb 0 k pos)

init_dim_first :
    (it : MultidimIterator) (size : ℕ)
    → init_dim it 0 size ≡ record { ndims = 1; cells = set (set it.cells 0 size) 1 0 }
unfolding init_dim set_dim set_offset
init_dim_first it size = refl

Starts-first :
    (it : MultidimIterator) (size : ℕ) (dims : ℕ → ℕ)
    → 1 < length it.cells
    → dims 0 ≡ size
    → Starts (init_dim it 0 size) 1 dims
Starts-first it size dims room e =
    let one : List ℕ = set it.cells 0 size in
    rw (init_dim_first it size) (record {
      shape = refl;
      sizes = λ i b.
          let z : i ≡ 0 = omega arith in
          rw z (
            get_or-set_ne one 1 0 0 0 (omega arith)
            ∙ get_or-set_self it.cells 0 size 0 (omega arith)
            ∙ sym e);
      zeros = λ i b.
          let z : 1 + i ≡ 1 = omega arith in
          rw z (get_or-set_self one 1 0 0 (omega (arith, length-set it.cells 0 size)));
    })

Starts-next :
    (it : MultidimIterator) (k size : ℕ) (dims : ℕ → ℕ)
    → 0 < k
    → k + k + 1 < length it.cells
    → Starts it k dims
    → dims k ≡ size
    → Starts (init_dim it k size) (k + 1) dims
Starts-next it k size dims pos room s e =
    let cells : List ℕ = init_dim_cells it.cells k size in
    let (at_k, at_2k, at_end) = written_cells it.cells k size pos room in
    rw (init_dim_shape it k size pos) (record {
      shape = refl;
      sizes = λ i b. elim (eq-or-ne i k) [
        | inl z ↦ rw z (at_k ∙ sym e)
        | inr ne ↦ get_or-cells it.cells k size i pos ne (omega arith) ∙ s.sizes i (omega arith)
      ];
      zeros = λ i b. elim (lt-or-le (i + 1) k) [
        | inl before ↦
            let place : k + 1 + i ≡ k + (i + 1) = omega arith in
            rw place (
              get_or-cells it.cells k size (k + (i + 1)) pos (omega arith) (omega arith)
              ∙ s.zeros (i + 1) before)
        | inr late ↦ elim (eq-or-ne i k) [
          | inl z ↦ rw z at_end
          | inr ne ↦ let place : k + 1 + i ≡ k + k = omega arith in rw place at_2k
        ]
      ];
    })

length-init_dim :
    (it : MultidimIterator) (k size : ℕ) → length (init_dim it k size).cells ≡ length it.cells
length-init_dim it k size = elim (lt-or-le 0 k) [
  | inl pos ↦
      ap (λ (t : MultidimIterator). length t.cells) (init_dim_shape it k size pos)
      ∙ length-cells it.cells k size
  | inr none_yet ↦
      let z : k ≡ 0 = omega arith in
      rw z (
        ap (λ (t : MultidimIterator). length t.cells) (init_dim_first it size)
        ∙ length-set (set it.cells 0 size) 1 0
        ∙ length-set it.cells 0 size)
]

init_dims-Starts :
    (it : MultidimIterator) (k : ℕ) (sizes : List ℕ) (dims : ℕ → ℕ)
    → 0 < k
    → k + length sizes + (k + length sizes) ≤ length it.cells
    → Starts it k dims
    → ((i : ℕ) → get_or sizes i 0 ≡ dims (k + i))
    → Starts (init_dims k sizes it) (k + length sizes) dims
unfolding init_dims
init_dims-Starts it k [] dims pos room s e = let z : k + 0 ≡ k = omega arith in rw z s
init_dims-Starts it k (size ∷ sizes) dims pos room s e =
    let z : k + length (size ∷ sizes) ≡ k + 1 + length sizes = omega arith in
    let first : dims k ≡ size = ap dims (omega arith) ∙ sym (e 0) in
    let next = Starts-next it k size dims pos (omega arith) s first in
    rw z (
      init_dims-Starts (init_dim it k size) (k + 1) sizes dims (omega arith)
        (omega (arith, length-init_dim it k size)) next (λ i. e (suc i) ∙ ap dims (omega arith)))

-- Started in any memory with room for `dims`, at least one, and as many offsets: setting the
-- dimensions one at a time, the lowest first, gives an iterator over `dims` with all offsets zero.
pub init_dims-start :
    (it : MultidimIterator) (size : ℕ) (sizes : List ℕ) (i : ℕ)
    → length (size ∷ sizes) + length (size ∷ sizes) ≤ length it.cells
    → i < length (size ∷ sizes)
    → let out = init_dims 0 (size ∷ sizes) it in
      (out.ndims ≡ length (size ∷ sizes))
      × (dim_at out i ≡ get_or (size ∷ sizes) i 0)
      × (offset_at out i ≡ 0)
unfolding init_dims dim_at offset_at
init_dims-start it size sizes i room b =
    let dims : ℕ → ℕ = λ k. get_or (size ∷ sizes) k 0 in
    let first = Starts-first it size dims (omega arith) refl in
    let s =
      init_dims-Starts (init_dim it 0 size) 1 sizes dims (omega arith)
        (omega (arith, length-init_dim it 0 size)) first
        (λ k. ap (λ j. get_or (size ∷ sizes) j 0) (one_more k)) in
    (
      s.shape ∙ omega arith,
      s.sizes i (omega arith),
      ap (λ n. get_or (init_dims 1 sizes (init_dim it 0 size)).cells (n + i) 0) s.shape
          ∙ s.zeros i (omega arith),
    )
  where
    one_more : (k : ℕ) → suc k ≡ 1 + k
    one_more k = omega arith

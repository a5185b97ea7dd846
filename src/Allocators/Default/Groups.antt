-- ===== src/Allocators/Default/Groups.antt =====
-- The pieces of a group of allocations, and which allocator is the default.
use native.Mathlib.Nat.{zero-mod, add-mod}
use cutl.Base.{
  ℕ, zero, suc, ◌+◌, ◌%◌, ◌^◌, ◌≤◌, ◌<◌, ◌≡◌, inl, inr, refl, sym, ◌∙◌, ap, arith, none, some, List,
  [], ◌∷◌, get_elem?, u64, Option-cases, eq-or-ne, lt-or-le, ◌≢◌, ◌⊎◌, eq→==, ne→==,
}
use cutl.Allocators.{BuildChoice, allocator_round_up}
use cutl.Allocators.Layout.{IsSound, round_up_bounds}
use cutl.Allocators.Default.{Allocator, alloc, group_size, group_pointers, alloc_group}

-- The bytes that sizes need at most: each of them and an alignment.
abbrev pub span : BuildChoice → List ℕ → ℕ
span l [] = 0
span l (size ∷ sizes) = size + l.alignment + span l sizes

sum_mod : (a b n : ℕ) → a % n ≡ 0 → b % n ≡ 0 → (a + b) % n ≡ 0
sum_mod a b n e h = add-mod a b n ∙ rw (e, h) (zero-mod n)

module _ (l : BuildChoice) (sound : IsSound l) where
  group_size-grows :
      (sizes : List ℕ) (total : ℕ)
      → total + span l sizes < 2 ^ 64
      → total ≤ group_size l total sizes
  unfolding group_size
  group_size-grows [] total small = omega arith
  group_size-grows (size ∷ sizes) total small =
      let b = round_up_bounds l sound size (omega arith) in
      let next : ℕ = u64 (total + allocator_round_up l size) in
      let e : next ≡ total + allocator_round_up l size = omega arith in
      omega (arith, group_size-grows sizes next (omega arith))

  -- A piece starts at the offset or behind it, and ends before the end of the group.
  piece_inside :
      (sizes : List ℕ) (memory offset i size p : ℕ)
      → offset + span l sizes < 2 ^ 64
      → get_elem? sizes i ≡ some size
      → get_elem? (group_pointers l memory offset sizes) i ≡ some p
      → (memory + offset ≤ p) × (p + size ≤ memory + group_size l offset sizes)
  unfolding group_size group_pointers
  piece_inside [] memory offset i size p small at_i at_p = cc
  piece_inside (first ∷ sizes) memory offset zero size p small at_i at_p =
      let b = round_up_bounds l sound first (omega arith) in
      let next : ℕ = u64 (offset + allocator_round_up l first) in
      let e : next ≡ offset + allocator_round_up l first = omega arith in
      let same : first ≡ size = cc in
      let start : memory + offset ≡ p = cc in
      omega (arith, group_size-grows sizes next (omega arith))
  piece_inside (first ∷ sizes) memory offset (suc i) size p small at_i at_p =
      let b = round_up_bounds l sound first (omega arith) in
      let next : ℕ = u64 (offset + allocator_round_up l first) in
      let e : next ≡ offset + allocator_round_up l first = omega arith in
      omega (arith, piece_inside sizes memory next i size p (omega arith) at_i at_p)

  -- Of two pieces the earlier one ends before the later one starts.
  pieces_apart :
      (sizes : List ℕ) (memory offset i j size other p q : ℕ)
      → offset + span l sizes < 2 ^ 64
      → i < j
      → get_elem? sizes i ≡ some size
      → get_elem? sizes j ≡ some other
      → get_elem? (group_pointers l memory offset sizes) i ≡ some p
      → get_elem? (group_pointers l memory offset sizes) j ≡ some q
      → p + size ≤ q
  unfolding group_pointers
  pieces_apart [] memory offset i j size other p q small lt at_i at_j at_p at_q = cc
  pieces_apart (first ∷ sizes) memory offset i zero size other p q small lt at_i at_j at_p at_q =
      absurd (omega arith)
  pieces_apart (first ∷ sizes) memory offset zero (suc j) size other p q small lt at_i at_j at_p
        at_q =
      let b = round_up_bounds l sound first (omega arith) in
      let next : ℕ = u64 (offset + allocator_round_up l first) in
      let e : next ≡ offset + allocator_round_up l first = omega arith in
      let same : first ≡ size = cc in
      let start : memory + offset ≡ p = cc in
      omega (arith, piece_inside sizes memory next j other q (omega arith) at_j at_q)
  pieces_apart (first ∷ sizes) memory offset (suc i) (suc j) size other p q small lt at_i at_j at_p
        at_q =
      let b = round_up_bounds l sound first (omega arith) in
      let next : ℕ = u64 (offset + allocator_round_up l first) in
      let e : next ≡ offset + allocator_round_up l first = omega arith in
      pieces_apart sizes memory next i j size other p q (omega arith) (omega arith) at_i at_j at_p
        at_q

  pieces_aligned :
      (sizes : List ℕ) (memory offset i p : ℕ)
      → offset + span l sizes < 2 ^ 64
      → memory % l.alignment ≡ 0
      → offset % l.alignment ≡ 0
      → get_elem? (group_pointers l memory offset sizes) i ≡ some p
      → p % l.alignment ≡ 0
  unfolding group_pointers
  pieces_aligned [] memory offset i p small whole at_offset at_p = cc
  pieces_aligned (first ∷ sizes) memory offset zero p small whole at_offset at_p =
      let start : memory + offset ≡ p = cc in
      ap (λ (k : ℕ). k % l.alignment) (sym start)
      ∙ sum_mod memory offset l.alignment whole at_offset
  pieces_aligned (first ∷ sizes) memory offset (suc i) p small whole at_offset at_p =
      let (low, high, round) = round_up_bounds l sound first (omega arith) in
      let next : ℕ = u64 (offset + allocator_round_up l first) in
      let e : next ≡ offset + allocator_round_up l first = omega arith in
      pieces_aligned sizes memory next i p (omega arith) whole
        (ap (λ (k : ℕ). k % l.alignment) e
          ∙ sum_mod offset (allocator_round_up l first) l.alignment at_offset round)
        at_p

  -- A group that was handed out comes from one allocation of the sum.
  group_allocated :
      {World : Type 0} (allocator : Allocator World) (sizes : List ℕ) (w next : World) (memory : ℕ)
      (pointers : List ℕ)
      → alloc_group l allocator sizes w ≡ some (memory, some pointers, next)
      → (alloc allocator (group_size l 0 sizes) w ≡ some (memory, next))
        × (group_pointers l memory 0 sizes ≡ pointers)
  unfolding alloc_group
  group_allocated allocator sizes w next memory pointers h =
      elim (Option-cases (alloc allocator (group_size l 0 sizes) w)) [
        | inl e ↦
            let failed : alloc_group l allocator sizes w ≡ none = rw (alloc_group, e) refl in cc
        | inr ((m, out), e) ↦ elim (eq-or-ne m 0) [
          | inl null ↦
              let nothing : alloc_group l allocator sizes w ≡ some (m, none, out) =
                rw (alloc_group, e, eq→== m 0 null) refl in
              cc
          | inr some_memory ↦
              let found : alloc_group l allocator sizes w
                  ≡ some (m, some (group_pointers l m 0 sizes), out) =
                rw (alloc_group, e, ne→== m 0 some_memory) refl in
              (cc, cc)
        ]
      ]

  -- For a sound build and sizes that with an alignment each stay below 2^64 together, and two of the
  -- pointers of a group that was handed out: the group is one allocation of the size of the group,
  -- which starts at the memory returned; as many bytes as were requested behind the pointer are
  -- inside it, and end before the other pointer if that is a later one; and if the memory is aligned,
  -- the pointer is.
  pub alloc_group-apart :
      {World : Type 0} (allocator : Allocator World) (sizes pointers : List ℕ) (w next : World)
      (memory i j size other p q : ℕ)
      → span l sizes < 2 ^ 64
      → alloc_group l allocator sizes w ≡ some (memory, some pointers, next)
      → get_elem? sizes i ≡ some size
      → get_elem? sizes j ≡ some other
      → get_elem? pointers i ≡ some p
      → get_elem? pointers j ≡ some q
      → (alloc allocator (group_size l 0 sizes) w ≡ some (memory, next))
        × (memory ≤ p)
        × (p + size ≤ memory + group_size l 0 sizes)
        × ((j ≤ i) ⊎ (p + size ≤ q))
        × ((memory % l.alignment ≢ 0) ⊎ (p % l.alignment ≡ 0))
  alloc_group-apart allocator sizes pointers w next memory i j size other p q small h at_i at_j at_p
        at_q =
      let (allocated, same) = group_allocated allocator sizes w next memory pointers h in
      let here_p = ap (λ ps. get_elem? ps i) same ∙ at_p in
      let here_q = ap (λ ps. get_elem? ps j) same ∙ at_q in
      let first = piece_inside sizes memory 0 i size p (omega arith) at_i here_p in
      (
        allocated,
        omega arith,
        omega arith,
        elim (lt-or-le i j) [
          | inl lt ↦ inr (
              pieces_apart sizes memory 0 i j size other p q (omega arith) lt at_i at_j here_p
                here_q)
          | inr le ↦ inl le
        ],
        elim (eq-or-ne (memory % l.alignment) 0) [
          | inl whole ↦
              inr (
                pieces_aligned sizes memory 0 i p (omega arith) whole (zero-mod l.alignment) here_p)
          | inr odd ↦ inl odd
        ],
      )

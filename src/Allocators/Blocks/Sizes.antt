-- ===== src/Allocators/Blocks/Sizes.antt =====
-- How `create` divides what is left of the memory into counters and blocks.
use native.Mathlib.Nat.{div-add-mod, mod-lt, mul-le-mul_right, mul-le-mul_left, mod-eq_of_lt}
use cutl.Base.{
  ℕ, ◌+◌, ◌-◌, ◌*◌, ◌/◌, ◌%◌, ◌^◌, ◌≤◌, ◌<◌, ◌≡◌, inl, inr, ap, arith, sub64, lt-or-le,
  lt_of_mul_lt,
}
use cutl.Allocators.{
  BuildChoice, allocator_round_up, allocator_round_down, guard_size, guard_total,
  allocator_block_size,
}
use cutl.Allocators.Layout.{IsSound, round_up_bounds, round_down-mod, block_size_bounds}
use cutl.Allocators.Blocks.{blocks_per_counter_unit}
use cutl.Allocators.Blocks.Interface.{place_blocks}

multiple_bound : (x a : ℕ) → x % a ≡ 0 → 0 < x → a ≤ x
multiple_bound x a whole pos = elim (lt-or-le x a) [
  | inl lt ↦ absurd (omega (arith, mod-eq_of_lt lt))
  | inr le ↦ le
]

div_times : (x d : ℕ) → 0 < d → (x / d * d ≤ x) × (x < x / d * d + d)
div_times x d pos =
    (omega (arith, div-add-mod x d), omega (arith, div-add-mod x d, mod-lt x {m = d} pos))

div_le : (x y d : ℕ) → 0 < d → x ≤ y → x / d ≤ y / d
div_le x y d pos le =
    let a = div_times x d pos in
    let b = div_times y d pos in
    let lt : x / d < y / d + 1 = lt_of_mul_lt (x / d) (y / d + 1) d (omega arith) in omega arith

-- Rounding up to units takes fewer units than there are blocks, when there are two at least.
units_lt : (n unit : ℕ) → 2 ≤ n → 2 ≤ unit → (n + unit - 1) / unit < n
units_lt n unit two wide =
    let q : ℕ = (n + unit - 1) / unit in
    let d = div_times (n + unit - 1) unit (omega arith) in
    elim (lt-or-le q n) [
      | inl lt ↦ lt
      | inr le ↦
          let m : ℕ = n - 2 in
          let grown : n * unit ≤ q * unit = mul-le-mul_right unit le in
          let least : m * 1 ≤ m * unit = mul-le-mul_left m (omega arith) in
          let shape : n ≡ m + 2 = omega arith in
          let split : n * unit ≡ (m + 2) * unit = ap (λ (t : ℕ). t * unit) shape in
          absurd (omega arith)
    ]

module _ (l : BuildChoice) (sound : IsSound l) where
  -- The blocks are at least as large as the alignment.
  pub block_size-aligned :
      (x : ℕ) → x < 2 ^ 63 → 0 < allocator_block_size l x → l.alignment ≤ allocator_block_size l x
  unfolding guard_total guard_size
  block_size-aligned x small pos =
      let b = block_size_bounds l sound x small in
      let (low, high, whole) = round_up_bounds l sound x (omega (arith, sound.small_alignment)) in
      let guards = round_down-mod l sound (l.guard_bytes + (l.alignment - 1)) in
      elim (lt-or-le 0 (allocator_round_up l x)) [
        | inl some_size ↦
            let least = multiple_bound (allocator_round_up l x) l.alignment whole some_size in
            omega arith
        | inr none_left ↦
            let least =
              multiple_bound (allocator_round_down l (l.guard_bytes + (l.alignment - 1)))
                l.alignment guards (omega arith) in
            omega arith
      ]

  pub place_blocks_bounds :
      (useful_size block_size : ℕ)
      → l.alignment ≤ block_size
      → 2 * block_size ≤ useful_size
      → useful_size < 2 ^ 64
      → let (n_blocks, counters) = place_blocks l useful_size block_size in
        (1 ≤ n_blocks)
        × ((n_blocks + blocks_per_counter_unit l - 1) / blocks_per_counter_unit l * l.alignment
            ≤ counters)
        × (counters + n_blocks * block_size ≤ useful_size)
  unfolding place_blocks blocks_per_counter_unit
  place_blocks_bounds useful size aligned two small =
      let pos = sound.some_alignment in
      let unit : ℕ = l.alignment * 8 in
      let n : ℕ = useful / size in
      let q : ℕ = (n + unit - 1) / unit in
      let d = div_times useful size (omega arith) in
      let many : 1 < n = lt_of_mul_lt 1 n size (omega arith) in
      let fewer : q < n = units_lt n unit (omega arith) (omega arith) in
      let counters : ℕ = q * l.alignment in
      let smaller : counters ≤ q * size = mul-le-mul_left q aligned in
      let rows : (q + 1) * size ≤ n * size = mul-le-mul_right size (omega arith) in
      let left : sub64 useful counters ≡ useful - counters = omega arith in
      let k : ℕ = (useful - counters) / size in
      let e = div_times (useful - counters) size (omega arith) in
      let one : 0 < k = lt_of_mul_lt 0 k size (omega arith) in
      let most : k < n + 1 = lt_of_mul_lt k (n + 1) size (omega arith) in
      let fits : (k + unit - 1) / unit ≤ q =
        div_le (k + unit - 1) (n + unit - 1) unit (omega arith) (omega arith) in
      rw left (omega arith, mul-le-mul_right l.alignment fits, omega arith)

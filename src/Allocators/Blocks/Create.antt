-- ===== src/Allocators/Blocks/Create.antt =====
-- What `create` makes of a piece of memory.
use native.Mathlib.Nat.{zero-div, mul-le-mul_left}
use cutl.Base.{
  ℕ, zero, suc, ◌+◌, ◌-◌, ◌*◌, ◌/◌, ◌%◌, ◌^◌, ◌≤◌, ◌<◌, ◌≡◌, ◌≢◌, ◌⊎◌, inl, inr, refl, ap, arith,
  Bool, true, false, ◌||◌, none, some, ltb, u32, sub64, lt→ltb, le→ltb, eq→==, ne→==, eq-or-ne,
  lt-or-le,
}
use cutl.Errors.{success, insufficient_alignment, insufficient_buffer}
use cutl.Allocators.{
  BuildChoice, Bytes, fill, guard_total, allocator_is_aligned, allocator_block_size,
  allocator_usable_size,
}
use cutl.Allocators.Layout.{IsSound, fill_inside, round_up_bounds, block_size_bounds}
use cutl.Allocators.Blocks.{BlockAllocator, test_bit, counter_bytes}
use cutl.Allocators.Blocks.Interface.{assert_free, place_blocks, get_block_size, create}
use cutl.Allocators.Blocks.State.{used, IsPool, get_state_used, counter_before}
use cutl.Allocators.Blocks.Allocate.{fill-small}
use cutl.Allocators.Blocks.Release.{region_end}
use cutl.Allocators.Blocks.Sizes.{block_size-aligned, place_blocks_bounds}

assert_free_lem :
    (rounds i : ℕ) (this : BlockAllocator)
    → i + rounds ≤ this.block_count
    → ((k : ℕ) → k < this.block_count → used this k ≡ false)
    → assert_free rounds i this ≡ true
unfolding assert_free
assert_free_lem zero i this below free = refl
assert_free_lem (suc rounds) i this below free =
    rw (assert_free, get_state_used this i (omega arith), free i (omega arith))
      (assert_free_lem rounds (i + 1) this (omega arith) free)

or_true : (b : Bool) → b || true ≡ true
or_true b = ground arith

zero_byte : (k : ℕ) → test_bit 0 k ≡ false
zero_byte k = rw (zero-div (2 ^ k)) refl

module _ (l : BuildChoice) (sound : IsSound l) (header memory useful size : ℕ) (bytes : Bytes) where
  -- The allocator that `create` fills in, for blocks of `size` bytes.
  abbrev made : BlockAllocator
  made = record {
    block_size = size;
    block_count = u32 (place_blocks l useful size).0;
    memory_ptr = memory + header;
    bytes = fill (place_blocks l useful size).1 bytes (memory + header) 0;
  }

  module _ (aligned : l.alignment ≤ size) (two : 2 * size ≤ useful) (small : useful < 2 ^ 31) where
    made_count : made.block_count ≡ (place_blocks l useful size).0
    made_count =
        let (one, counters, inside) =
          place_blocks_bounds l sound useful size aligned two (omega arith) in
        let n : ℕ = (place_blocks l useful size).0 in
        let pos = sound.some_alignment in
        let least : n * 1 ≤ n * size = mul-le-mul_left n (omega arith) in omega arith

    made_counters : counter_bytes l made ≤ (place_blocks l useful size).1
    unfolding counter_bytes
    made_counters =
        let (one, counters, inside) =
          place_blocks_bounds l sound useful size aligned two (omega arith) in
        rw made_count counters

    made_free : (k : ℕ) → k < made.block_count → used made k ≡ false
    made_free k below =
        let before = counter_before l sound made k below in
        let cleared =
          fill_inside (place_blocks l useful size).1 bytes (memory + header) 0
            (memory + header + k / 8) (omega arith) (omega (arith, made_counters)) in
        rw cleared (zero_byte (k % 8))

    made-asserts : assert_free (place_blocks l useful size).0 0 made ≡ true
    made-asserts =
        assert_free_lem (place_blocks l useful size).0 0 made (omega (arith, made_count)) made_free

    made_inside : region_end l made ≤ memory + header + useful
    made_inside =
        let (one, counters, inside) =
          place_blocks_bounds l sound useful size aligned two (omega arith) in
        let rows : made.block_count * size ≡ (place_blocks l useful size).0 * size =
          ap (λ (n : ℕ). n * size) made_count in
        omega (arith, made_counters)

    made-IsPool : ((a : ℕ) → bytes a < 2 ^ 8) → guard_total l ≤ size → IsPool l made
    made-IsPool small_bytes room =
        let (one, counters, inside) =
          place_blocks_bounds l sound useful size aligned two (omega arith) in
        let n : ℕ = (place_blocks l useful size).0 in
        let pos = sound.some_alignment in
        let least : n * 1 ≤ n * size = mul-le-mul_left n (omega arith) in
        record {
          sound = sound;
          room = room;
          some_size = omega arith;
          small_count = omega (arith, made_count);
          small_bytes = λ a. fill-small _ bytes _ 0 a (omega arith) small_bytes;
        }

module _ (l : BuildChoice) (sound : IsSound l) (requested : ℕ) (small : requested < 2 ^ 32) where
  usable-requested :
      allocator_block_size l requested < 2 ^ 32
      → requested ≤ u32 (allocator_usable_size l (allocator_block_size l requested))
  unfolding allocator_usable_size
  usable-requested fits =
      let (shape, low, high) = block_size_bounds l sound requested (omega arith) in
      let b = round_up_bounds l sound requested (omega (arith, sound.small_alignment)) in
      omega arith

  -- For a sound build and a request that makes blocks of some size, in a piece of memory of less than
  -- 2^31 bytes that the struct fits in, exactly one of these: the memory is not aligned, which is
  -- reported; it is aligned but too small for the struct and two blocks, which is reported; or it is
  -- aligned and large enough, and then there is an allocator of at least one block, all of them free
  -- and none smaller than requested, which starts behind the struct and whose counters and blocks
  -- end inside the memory, and no assertion fails.
  pub create-IsPool :
      (header size memory j : ℕ) (bytes : Bytes)
      → header ≤ size
      → size < 2 ^ 31
      → 0 < allocator_block_size l requested
      → ((a : ℕ) → bytes a < 2 ^ 8)
      → ((memory % l.alignment ≢ 0)
          × (create l header size memory requested bytes ≡ some (insufficient_alignment, none)))
        ⊎ ((memory % l.alignment ≡ 0)
            × (size < header + 2 * allocator_block_size l requested)
            × (create l header size memory requested bytes ≡ some (insufficient_buffer, none)))
        ⊎ ((out : BlockAllocator) × (memory % l.alignment ≡ 0)
            × (header + 2 * allocator_block_size l requested ≤ size)
            × (create l header size memory requested bytes ≡ some (success, some out))
            × IsPool l out
            × (1 ≤ out.block_count)
            × (memory + header ≡ out.memory_ptr)
            × (region_end l out ≤ memory + size)
            × (requested ≤ get_block_size l out)
            × ((out.block_count ≤ j) ⊎ (used out j ≡ false)))
  unfolding create allocator_is_aligned get_block_size
  create-IsPool header size memory j bytes room limit some_size small_bytes =
      let total : ℕ = allocator_block_size l requested in
      let useful : ℕ = size - header in
      let rest : sub64 size header ≡ useful = omega arith in
      elim (eq-or-ne (memory % l.alignment) 0) [
        | inr odd ↦ inl (odd, rw (ne→== (memory % l.alignment) 0 odd) refl)
        | inl even ↦ elim (lt-or-le useful (2 * total)) [
          | inl short ↦ inr (
              inl (
                even,
                omega arith,
                rw
                    (
                      rest,
                      eq→== (memory % l.alignment) 0 even,
                      lt→ltb useful (2 * total) short,
                      or_true (ltb (2 ^ 32 - 1) total),
                    )
                    refl,
              ))
          | inr enough ↦
              let aligned = block_size-aligned l sound requested (omega arith) some_size in
              let below : useful < 2 ^ 31 = omega arith in
              let asserts =
                made-asserts l sound header memory useful total bytes aligned enough below in
              let (shape, low, high) = block_size_bounds l sound requested (omega arith) in
              let bounds = place_blocks_bounds l sound useful total aligned enough (omega arith) in
              inr (
                inr (
                  made l sound header memory useful total bytes,
                  even,
                  omega arith,
                  rw
                      (
                        rest,
                        eq→== (memory % l.alignment) 0 even,
                        le→ltb useful (2 * total) enough,
                        le→ltb (2 ^ 32 - 1) total (omega arith),
                        ne→== total 0 (omega arith),
                        asserts,
                      )
                      refl,
                  made-IsPool l sound header memory useful total bytes aligned enough below
                      small_bytes (omega arith),
                  omega (
                    arith,
                    made_count l sound header memory useful total bytes aligned enough below,
                  ),
                  refl,
                  omega (
                    arith,
                    made_inside l sound header memory useful total bytes aligned enough below,
                  ),
                  usable-requested (omega arith),
                  elim (lt-or-le j (made l sound header memory useful total bytes).block_count) [
                    | inl lt ↦ inr (
                        made_free l sound header memory useful total bytes aligned enough below j
                          lt)
                    | inr le ↦ inl le
                  ],
                ))
        ]
      ]

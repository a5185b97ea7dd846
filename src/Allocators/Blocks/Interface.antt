-- ===== src/Allocators/Blocks/Interface.antt =====
-- Resizing, the callbacks of the allocator interface, and creation.
use cutl.Base.{
  ℕ, zero, suc, ◌+◌, ◌-◌, ◌*◌, ◌/◌, ◌^◌, Bool, true, false, not, ◌||◌, Option, none, some, ltb,
  ◌==◌, if◌then◌else◌, u32, sub64,
}
use cutl.Errors.{
  Result, success, out_of_memory, insufficient_alignment, insufficient_buffer, mismatched_allocator,
  corrupted_pointer,
}
use cutl.Allocators.{
  BuildChoice, Bytes, fill, allocator_is_aligned, allocator_block_size, allocator_usable_size,
  allocator_user_offset, allocator_check_guards,
}
use cutl.Allocators.Blocks.{
  BlockAllocator, no_offset, block_get_state, blocks_per_counter_unit, block_offset, allocate,
  address_to_offset, deallocate,
}

-- The loop of `create` that asserts that every block is free, with the rounds left first.
unfoldable pub assert_free : ℕ → ℕ → BlockAllocator → Bool
assert_free zero i this = true
assert_free (suc rounds) i this =
    let rest = assert_free rounds (i + 1) this in
    elim (block_get_state this i) [ some false ↦ rest | _ ↦ false ]

module _ (l : BuildChoice) where
  unfoldable pub reallocate : BlockAllocator → ℕ → ℕ → ℕ → Result × ℕ
  reallocate this memory size p_memory =
      let offset = address_to_offset l this memory in
      let block_idx = u32 ((offset - allocator_user_offset l) / this.block_size) in
      if offset == no_offset || ltb offset (allocator_user_offset l)
      then (mismatched_allocator, p_memory)
      else if not (
          allocator_check_guards l this.bytes (this.memory_ptr + block_offset l this block_idx)
            this.block_size)
      then (corrupted_pointer, p_memory)
      else if ltb this.block_size (allocator_block_size l size)
      then (out_of_memory, p_memory)
      else (success, memory)

  unfoldable pub get_block_size : BlockAllocator → ℕ
  get_block_size this = u32 (allocator_usable_size l this.block_size)

  -- The callbacks; the null pointer is 0.
  unfoldable pub wrap_allocate : BlockAllocator → ℕ → Option (ℕ × BlockAllocator)
  wrap_allocate this size =
      if size == 0 || ltb this.block_size (allocator_block_size l size)
      then some (0, this)
      else elim (allocate l this 0) [
        | some (success, next, memory) ↦ some (memory, next)
        | some (out_of_memory, next, memory) ↦ some (0, next)
        | other ↦ none
      ]

  unfoldable pub wrap_deallocate : BlockAllocator → ℕ → Option BlockAllocator
  wrap_deallocate this memory = elim (deallocate l this memory) [
    | some (success, next) ↦ some next
    | other ↦ none
  ]

  unfoldable pub wrap_reallocate : BlockAllocator → ℕ → ℕ → Option (ℕ × BlockAllocator)
  wrap_reallocate this memory new_size =
      let (res, p_memory) = reallocate this memory new_size memory in
      let freed : Option (ℕ × BlockAllocator) = elim (wrap_deallocate this memory) [
        | some next ↦ some (0, next)
        | none ↦ none
      ] in
      if memory == 0
      then wrap_allocate this new_size
      else if new_size == 0
      then freed
      else if ltb this.block_size (allocator_block_size l new_size)
      then some (0, this)
      else elim res [ success ↦ some (p_memory, this) | out_of_memory ↦ some (0, this) | _ ↦ none ]

  -- The counters and blocks for a size of what is left after the struct: `n_blocks`, and the bytes
  -- of the counters.
  unfoldable pub place_blocks : ℕ → ℕ → ℕ × ℕ
  place_blocks useful_size block_size =
      let n_blocks = useful_size / block_size in
      let n_counters = (n_blocks + blocks_per_counter_unit l - 1) / blocks_per_counter_unit l in
      let counter_byte_count = n_counters * l.alignment in
      (sub64 useful_size counter_byte_count / block_size, counter_byte_count)

  -- `header` is the size of the struct in front of the array `memory`. `none` is a failed assertion
  -- or a division by zero.
  unfoldable pub create : ℕ → ℕ → ℕ → ℕ → Bytes → Option (Result × Option BlockAllocator)
  create header size memory block_size bytes =
      let total_block_size = allocator_block_size l block_size in
      let useful_size = sub64 size header in
      let (n_blocks, counter_byte_count) = place_blocks useful_size total_block_size in
      let allocator : BlockAllocator = record {
        block_size = total_block_size;
        block_count = u32 n_blocks;
        memory_ptr = memory + header;
        bytes = fill counter_byte_count bytes (memory + header) 0;
      } in
      if not (allocator_is_aligned l memory)
      then some (insufficient_alignment, none)
      else if ltb (2 ^ 32 - 1) total_block_size || ltb useful_size (2 * total_block_size)
      then some (insufficient_buffer, none)
      else if total_block_size == 0
      then none
      else if assert_free n_blocks 0 allocator
      then some (success, some allocator)
      else none

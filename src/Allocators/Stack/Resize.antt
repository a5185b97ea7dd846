-- ===== src/Allocators/Stack/Resize.antt =====
-- Resizing a block of the stack, the callbacks of the allocator interface, and creation.
use cutl.Base.{ℕ, ◌+◌, ◌-◌, ◌*◌, not, Option, none, some, ltb, leb, ◌==◌, if◌then◌else◌, u64, sub64}
use cutl.Errors.{Result, success, out_of_memory, insufficient_alignment, mismatched_allocator}
use cutl.Allocators.{
  BuildChoice, Bytes, block_used, allocator_is_aligned, allocator_block_size, allocator_usable_size,
  allocator_set_guards,
}
use cutl.Allocators.Stack.{
  StackBlockInfo, StackAllocator, set_info, info_of, no_address, copy_bytes, stack_block_info_size,
  allocate, validate_and_adjust_memory_address, stack_memory_info_blocks, deallocate,
}

module _ (l : BuildChoice) where
  -- Growing the topmost block in place, to `adjusted_size` bytes.
  unfoldable pub grow_in_place : StackAllocator → ℕ → ℕ → StackAllocator
  grow_in_place this real_address adjusted_size =
      let start = this.infos real_address in
      let end_address = real_address + adjusted_size - stack_block_info_size l in
      let started = set_info this.infos real_address (record start { size = adjusted_size }) in
      record this {
        top = u64 (this.top + sub64 adjusted_size start.size);
        infos = set_info started end_address (info_of adjusted_size block_used);
        bytes =
            allocator_set_guards l this.bytes (real_address + stack_block_info_size l)
              (sub64 adjusted_size (2 * stack_block_info_size l));
      }

  -- Copying into the block that the allocation returned, and giving the old block back; `old_size`
  -- is the size in the info of the old block.
  unfoldable pub move_block :
      Result × StackAllocator × ℕ → ℕ → ℕ → ℕ → Option (Result × StackAllocator × ℕ)
  move_block (success, this, p_memory) memory size old_size =
      let old_capacity = allocator_usable_size l (sub64 old_size (2 * stack_block_info_size l)) in
      let copied = record this {
        bytes =
            copy_bytes (if ltb old_capacity size then old_capacity else size) this.bytes p_memory
              memory;
      } in
      elim (deallocate l copied memory) [
        | some (success, given_back) ↦ some (success, given_back, p_memory)
        | other ↦ none
      ]
  move_block (res, this, p_memory) memory size old_size = some (res, this, p_memory)

  unfoldable pub reallocate : StackAllocator → ℕ → ℕ → ℕ → Option (Result × StackAllocator × ℕ)
  reallocate this memory size p_memory =
      let real_address = validate_and_adjust_memory_address l this memory in
      let (res, end_address) = stack_memory_info_blocks l this real_address in
      let old_size = (this.infos real_address).size in
      let adjusted_size = u64 (allocator_block_size l size + 2 * stack_block_info_size l) in
      if real_address == no_address then some (mismatched_allocator, this, p_memory) else elim res [
        | success ↦
            if leb adjusted_size old_size
            then some (success, this, memory)
            else if this.top == u64 (sub64 real_address this.data_ptr + old_size)
            then some (success, grow_in_place this real_address adjusted_size, memory)
            else move_block (allocate l this size p_memory) memory size old_size
        | other ↦ some (other, this, p_memory)
      ]

  -- The callbacks of the allocator interface; the null pointer is 0.
  unfoldable pub wrap_stack_allocate : StackAllocator → ℕ → Option (ℕ × StackAllocator)
  wrap_stack_allocate this size =
      if size == 0
      then some (0, this)
      else let (res, next, memory) = allocate l this size 0 in
        elim res [ success ↦ some (memory, next) | out_of_memory ↦ some (0, next) | _ ↦ none ]

  unfoldable pub wrap_stack_deallocate : StackAllocator → ℕ → Option StackAllocator
  wrap_stack_deallocate this memory = elim (deallocate l this memory) [
    | some (success, next) ↦ some next
    | other ↦ none
  ]

  unfoldable pub wrap_stack_reallocate : StackAllocator → ℕ → ℕ → Option (ℕ × StackAllocator)
  wrap_stack_reallocate this memory size =
      let moved : Option (ℕ × StackAllocator) = elim (reallocate this memory size memory) [
        | some (success, next, p_memory) ↦ some (p_memory, next)
        | some (out_of_memory, next, p_memory) ↦ some (0, next)
        | other ↦ none
      ] in
      if memory == 0 then wrap_stack_allocate this size else moved

  -- `header` is the size of the struct in front of the array, which starts at `memory + header`; the
  -- other arguments are what the memory holds.
  unfoldable pub create : ℕ → ℕ → ℕ → (ℕ → StackBlockInfo) → Bytes → Result × Option StackAllocator
  create header size memory infos bytes =
      let allocator : StackAllocator = record {
        top = 0;
        size = sub64 size header;
        data_ptr = memory + header;
        infos = infos;
        bytes = bytes;
      } in
      if not (allocator_is_aligned l memory)
      then (insufficient_alignment, none)
      else (success, some allocator)

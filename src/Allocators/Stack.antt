-- ===== src/Allocators/Stack.antt =====
-- src/allocators/stack_allocator.c: blocks on top of one another, each with its size and its state
-- in front of it and behind it. These records are the map `infos` from their addresses, apart from
-- the bytes that the callers write. `none` is a failed assertion, or a loop that is not done after
-- the rounds it is given.
pub mod Resize
pub mod Blocks
pub mod Allocate
pub mod Deallocate
pub mod Release
pub mod Runs
pub mod Grow
mod Tests
use cutl.Base.{
  ℕ, zero, suc, ◌+◌, ◌-◌, ◌*◌, ◌^◌, Bool, true, false, not, ◌&&◌, ◌||◌, Option, none, some, ltb,
  leb, ◌==◌, if◌then◌else◌, u64, sub64,
}
use cutl.Errors.{
  Result, success, out_of_memory, insufficient_alignment, mismatched_allocator, corrupted_pointer,
  double_deallocation,
}
use cutl.Allocators.{
  BuildChoice, Bytes, block_free, block_used, store, allocator_round_up, allocator_is_aligned,
  allocator_block_size, allocator_usable_size, allocator_user_offset, allocator_set_guards,
  allocator_check_guards,
}

pub record StackBlockInfo : Type 0 where
  pub size : ℕ
  pub state : ℕ

-- `data_ptr` is the address of the array `data`.
pub record StackAllocator : Type 0 where
  pub top : ℕ
  pub size : ℕ
  pub data_ptr : ℕ
  pub infos : ℕ → StackBlockInfo
  pub bytes : Bytes

pub set_info : (ℕ → StackBlockInfo) → ℕ → StackBlockInfo → ℕ → StackBlockInfo
set_info infos a info b = if b == a then info else infos b

abbrev pub info_of : ℕ → ℕ → StackBlockInfo
info_of size state = record { size = size; state = state }

-- `~(uintptr_t)0`
abbrev pub no_address : ℕ
no_address = 2 ^ 64 - 1

-- `memcpy`, byte by byte.
pub copy_bytes : ℕ → Bytes → ℕ → ℕ → Bytes
copy_bytes zero bytes to from = bytes
copy_bytes (suc n) bytes to from = copy_bytes n (store bytes to (bytes from)) (to + 1) (from + 1)

module _ (l : BuildChoice) where
  -- `STACK_BLOCK_INFO_SIZE`, for a record of 16 bytes.
  pub stack_block_info_size : ℕ
  stack_block_info_size = allocator_round_up l 16

  -- The last argument is what `*p_memory` holds before the call, the last result what it holds after.
  pub allocate : StackAllocator → ℕ → ℕ → Result × StackAllocator × ℕ
  allocate this requested p_memory =
      let size = allocator_block_size l (u64 (requested + 2 * stack_block_info_size)) in
      let start_address = this.data_ptr + this.top in
      let block = start_address + stack_block_info_size in
      let end_address = start_address + size - stack_block_info_size in
      let guarded =
        allocator_set_guards l this.bytes block (sub64 size (2 * stack_block_info_size)) in
      let ended = set_info this.infos end_address (info_of size block_used) in
      let infos = set_info ended start_address (info_of size block_used) in
      if ltb this.size (u64 (this.top + size)) then (out_of_memory, this, p_memory) else (
        success,
        record this { top = this.top + size; infos = infos; bytes = guarded },
        block + allocator_user_offset l,
      )

  pub validate_and_adjust_memory_address : StackAllocator → ℕ → ℕ
  validate_and_adjust_memory_address this memory =
      if ltb memory this.data_ptr || leb (this.data_ptr + this.size) memory
      then no_address
      else sub64 memory (allocator_user_offset l + stack_block_info_size)

  -- The start of the info is `real_address` itself; the second result is the address of its end.
  pub stack_memory_info_blocks : StackAllocator → ℕ → Result × ℕ
  stack_memory_info_blocks this real_address =
      let start = this.infos real_address in
      let end_address = sub64 (real_address + start.size) stack_block_info_size in
      let end = this.infos end_address in
      let intact =
        allocator_check_guards l this.bytes (real_address + stack_block_info_size)
          (sub64 start.size (2 * stack_block_info_size)) in
      if not intact
      then (corrupted_pointer, end_address)
      else if not (start.state == block_used)
      then (
        if start.state == block_free then double_deallocation else corrupted_pointer,
        end_address,
      )
      else if not (end.state == block_used) || not (end.size == start.size)
      then (if end.state == block_free then double_deallocation else corrupted_pointer, end_address)
      else (success, end_address)

  -- The loop that pops: `real_address` is the start of the topmost block, `end_address` its end.
  pub pop_loop : ℕ → StackAllocator → ℕ → ℕ → Option (Result × StackAllocator)
  pop_loop zero this real_address end_address = none
  pop_loop (suc rounds) this real_address end_address =
      let top = sub64 this.top (this.infos end_address).size in
      let popped = record this { top = top } in
      let end_below = real_address - stack_block_info_size in
      let end = this.infos end_below in
      let real_below = sub64 real_address end.size in
      let start = this.infos real_below in
      let rest = pop_loop rounds popped real_below end_below in
      if top == 0
      then (if this.data_ptr == real_address then some (success, popped) else none)
      else if not (end.size == start.size) || not (end.state == start.state)
      then some (corrupted_pointer, popped)
      else if end.state == block_used
      then some (success, popped)
      else if not (end.state == block_free)
      then some (corrupted_pointer, popped)
      else rest

  -- Every block has bytes of its own, so `top + 1` rounds are enough where the sizes are sound.
  pub deallocate : StackAllocator → ℕ → Option (Result × StackAllocator)
  deallocate this memory =
      let real_address = validate_and_adjust_memory_address this memory in
      let start = this.infos real_address in
      let (res, end_address) = stack_memory_info_blocks this real_address in
      let end = this.infos end_address in
      let start_freed = set_info this.infos real_address (record start { state = block_free }) in
      let freed = record this {
        infos = set_info start_freed end_address (record end { state = block_free });
      } in
      let popped = pop_loop (suc this.top) freed real_address end_address in
      if real_address == no_address then some (mismatched_allocator, this) else elim res [
        | success ↦
            if real_address + start.size == this.data_ptr + this.top
            then popped
            else some (success, freed)
        | other ↦ some (other, this)
      ]

pub reset : StackAllocator → StackAllocator
reset this = record this { top = 0 }

pub get_top : StackAllocator → ℕ
get_top this = this.top

pub restore_top : StackAllocator → ℕ → StackAllocator
restore_top this top = if ltb top this.top then record this { top = top } else this

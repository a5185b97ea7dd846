-- ===== src/Allocators/Blocks.antt =====
-- src/allocators/block_allocator.c: blocks of one size, with a bit for each in the counters in front
-- of them. Counters and blocks are the bytes of the array `memory`, whose address is `memory_ptr`;
-- offsets inside it do not wrap. `none` is a failed assertion.
pub mod Interface
pub mod Bits
pub mod State
pub mod Search
pub mod Allocate
pub mod Release
pub mod Cycle
pub mod Sizes
pub mod Create
mod Tests
use cutl.Base.{
  ℕ, zero, suc, ◌+◌, ◌-◌, ◌*◌, ◌/◌, ◌%◌, ◌^◌, Bool, true, false, not, ◌&&◌, ◌||◌, Option, none,
  some, ltb, leb, ◌==◌, if◌then◌else◌, u32,
}
use cutl.Errors.{Result, success, out_of_memory, mismatched_allocator, corrupted_pointer}
use cutl.Allocators.{
  BuildChoice, Bytes, store, allocator_block_size, allocator_usable_size, allocator_user_offset,
  allocator_set_guards, allocator_check_guards,
}

pub record BlockAllocator : Type 0 where
  pub block_size : ℕ
  pub block_count : ℕ
  pub memory_ptr : ℕ
  pub bytes : Bytes

-- `byte & (1 << k)`
abbrev pub test_bit : ℕ → ℕ → Bool
test_bit byte k = byte / 2 ^ k % 2 == 1

-- `~(uintptr_t)0`
abbrev pub no_offset : ℕ
no_offset = 2 ^ 64 - 1

-- `stdc_first_trailing_zero_uc(byte) - 1`: the lowest bit that is clear, from the bit `k` on, with
-- the bits that are left first.
pub first_zero : ℕ → ℕ → ℕ → ℕ
first_zero zero k byte = k
first_zero (suc left) k byte =
    let rest = first_zero left (k + 1) byte in if test_bit byte k then rest else k

pub block_get_state : BlockAllocator → ℕ → Option Bool
block_get_state this block_idx =
    if ltb block_idx this.block_count
    then some (test_bit (this.bytes (this.memory_ptr + block_idx / 8)) (block_idx % 8))
    else none

-- The assertions make sure that the bit changes, so that `|= mask` adds it and `&= ~mask` takes it.
pub block_set_state : BlockAllocator → ℕ → Bool → Option BlockAllocator
block_set_state this block_idx new_state =
    let address = this.memory_ptr + block_idx / 8 in
    let byte = this.bytes address in
    let mask = 2 ^ (block_idx % 8) in
    let taken = test_bit byte (block_idx % 8) in
    let value = if new_state then byte + mask else (byte - mask) in
    if ltb block_idx this.block_count && not (if new_state then taken else not taken)
    then some (record this { bytes = store this.bytes address value })
    else none

-- The loop of `allocate`, with the rounds left first: the `i` at which it stops, and the block.
pub find_free : ℕ → BlockAllocator → ℕ → ℕ × ℕ
find_free zero this i = (i, 0)
find_free (suc rounds) this i =
    let group_state = this.bytes (this.memory_ptr + i) in
    let rest = find_free rounds this (i + 1) in
    if group_state == 255 then rest else (i, i * 8 + first_zero 8 0 group_state)

module _ (l : BuildChoice) where
  pub blocks_per_counter_unit : ℕ
  blocks_per_counter_unit = l.alignment * 8

  pub counter_bytes : BlockAllocator → ℕ
  counter_bytes this =
      (this.block_count + blocks_per_counter_unit - 1) / blocks_per_counter_unit * l.alignment

  pub block_offset : BlockAllocator → ℕ → ℕ
  block_offset this block_idx = counter_bytes this + block_idx * this.block_size

  -- Taking a block that was found, and what `*p_memory` then holds.
  pub take_block : BlockAllocator → ℕ → Option (Result × BlockAllocator × ℕ)
  take_block this block_idx =
      let ptr_block = this.memory_ptr + block_offset this block_idx in
      elim (block_get_state this block_idx) [
        | some false ↦ elim (block_set_state this block_idx true) [
          | some next ↦ some (
            success,
            record next { bytes = allocator_set_guards l next.bytes ptr_block this.block_size },
            ptr_block + allocator_user_offset l,
          )
          | none ↦ none
        ]
        | _ ↦ none
      ]

  pub allocate : BlockAllocator → ℕ → Option (Result × BlockAllocator × ℕ)
  allocate this p_memory =
      let counter_units = u32 (this.block_count + 7) / 8 in
      let (i, block_idx) = find_free counter_units this 0 in
      if i == counter_units || leb this.block_count block_idx
      then some (out_of_memory, this, p_memory)
      else take_block this block_idx

  pub address_to_offset : BlockAllocator → ℕ → ℕ
  address_to_offset this address =
      let blocks_start = this.memory_ptr + counter_bytes this in
      if ltb address blocks_start || leb (blocks_start + this.block_count * this.block_size) address
      then no_offset
      else (address - blocks_start)

  -- The index is below the count, an `unsigned`, or the assertion of `block_get_state` fails.
  pub give_block : BlockAllocator → ℕ → Option (Result × BlockAllocator)
  give_block this block_idx = elim (block_get_state this block_idx) [
    | some true ↦
        if not (
          allocator_check_guards l this.bytes (this.memory_ptr + block_offset this block_idx)
            this.block_size)
        then some (corrupted_pointer, this)
        else elim (block_set_state this block_idx false) [
          | some next ↦ some (success, next)
          | none ↦ none
        ]
    | _ ↦ none
  ]

  pub deallocate : BlockAllocator → ℕ → Option (Result × BlockAllocator)
  deallocate this memory =
      let offset = address_to_offset this memory in
      let inner = offset - allocator_user_offset l in
      if offset == no_offset || ltb offset (allocator_user_offset l)
      then some (mismatched_allocator, this)
      else if not (inner % this.block_size == 0)
      then some (corrupted_pointer, this)
      else give_block this (inner / this.block_size)

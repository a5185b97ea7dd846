-- ===== src/Allocators/Blocks/Tests.antt =====
-- Runs of the block allocator, and the theorems about it at concrete inputs.
use cutl.Base.{
  ℕ, ◌+◌, ◌-◌, ◌*◌, ◌%◌, ◌^◌, ◌≤◌, ◌<◌, ◌≡◌, ◌≢◌, ◌⊎◌, refl, arith, true, false, Option, none, some,
  if◌then◌else◌, ◌==◌,
}
use cutl.Errors.{
  Result, success, out_of_memory, insufficient_alignment, insufficient_buffer, mismatched_allocator,
  corrupted_pointer,
}
use cutl.Allocators.{
  BuildChoice, Bytes, guard_size, guard_total, store, fill, allocator_round_down,
  allocator_round_up, allocator_block_size, allocator_usable_size, allocator_user_offset,
  check_loop, allocator_check_guards, allocator_is_aligned,
}
use cutl.Allocators.Layout.{IsSound}
use cutl.Allocators.Blocks.{
  BlockAllocator, first_zero, block_get_state, block_set_state, find_free, blocks_per_counter_unit,
  counter_bytes, block_offset, take_block, allocate, address_to_offset, give_block, deallocate,
}
use cutl.Allocators.Blocks.Interface.{
  assert_free, reallocate, get_block_size, wrap_allocate, wrap_deallocate, wrap_reallocate,
  place_blocks, create,
}
use cutl.Allocators.Blocks.State.{used, IsPool}
use cutl.Allocators.Blocks.Allocate.{allocate-lowest}
use cutl.Allocators.Blocks.Release.{
  region_end, user_address, guards_intact, deallocate-block, deallocate_refused,
}
use cutl.Allocators.Blocks.Cycle.{deallocate-allocate}
use cutl.Allocators.Blocks.Create.{create-IsPool}

-- A build with guards, for which a request of 16 bytes makes blocks of 48.
abbrev guarded : BuildChoice
guarded = record { alignment = 16; guard_bytes = 16 }

guarded-IsSound : IsSound guarded
guarded-IsSound = omega arith

-- Three blocks at 112, with the given byte of counters and guards everywhere.
abbrev pool : ℕ → BlockAllocator
pool byte = record {
  block_size = 48;
  block_count = 3;
  memory_ptr = 96;
  bytes = λ a. if a == 96 then byte else 0xcc;
}

pool-IsPool : IsPool guarded (pool 1)
unfolding guard_total guard_size allocator_round_down
pool-IsPool = record {
  sound = guarded-IsSound;
  room = omega arith;
  some_size = omega arith;
  small_count = omega arith;
  small_bytes = λ a. ground arith;
}

outcome : Option (Result × BlockAllocator × ℕ) → Result × ℕ
outcome (some (res, next, memory)) = (res, memory)
outcome none = (success, 0)

result_of : Option (Result × BlockAllocator) → Option Result
result_of (some (res, next)) = some res
result_of none = none

pointer_of : Option (ℕ × BlockAllocator) → Option ℕ
pointer_of (some (memory, next)) = some memory
pointer_of none = none

allocate_run : outcome (allocate guarded (pool 1) 0) ≡ (success, 176)
unfolding outcome allocate take_block find_free first_zero block_get_state block_set_state
    block_offset counter_bytes blocks_per_counter_unit allocator_user_offset guard_size
    allocator_round_down
allocate_run = refl

allocate_full : outcome (allocate guarded (pool 7) 5) ≡ (out_of_memory, 5)
unfolding outcome allocate take_block find_free first_zero block_get_state
allocate_full = refl

deallocate_run :
    (result_of (deallocate guarded (pool 1) 128) ≡ some success)
    × (result_of (deallocate guarded (pool 1) 132) ≡ some corrupted_pointer)
    × (result_of (deallocate guarded (pool 1) 90) ≡ some mismatched_allocator)
    × (result_of (deallocate guarded (pool 1) 176) ≡ none)
unfolding result_of deallocate address_to_offset give_block block_get_state block_set_state
    block_offset counter_bytes blocks_per_counter_unit allocator_user_offset guard_size
    allocator_round_down allocator_check_guards check_loop
deallocate_run = (refl, refl, refl, refl)

reallocate_run :
    (reallocate guarded (pool 1) 128 16 7 ≡ (success, 128))
    × (reallocate guarded (pool 1) 128 17 7 ≡ (out_of_memory, 7))
unfolding reallocate address_to_offset block_offset counter_bytes blocks_per_counter_unit
    allocator_user_offset guard_size guard_total allocator_round_down allocator_round_up
    allocator_check_guards check_loop allocator_block_size
reallocate_run = (refl, refl)

get_block_size_run : get_block_size guarded (pool 1) ≡ 16
unfolding get_block_size allocator_usable_size guard_total guard_size allocator_round_down
get_block_size_run = refl

wraps_run :
    (pointer_of (wrap_allocate guarded (pool 1) 16) ≡ some 176)
    × (pointer_of (wrap_allocate guarded (pool 1) 17) ≡ some 0)
    × (pointer_of (wrap_reallocate guarded (pool 1) 128 0) ≡ some 0)
    × (pointer_of (wrap_reallocate guarded (pool 1) 128 9) ≡ some 128)
unfolding pointer_of wrap_allocate wrap_reallocate wrap_deallocate reallocate deallocate give_block
    address_to_offset allocate take_block find_free first_zero block_get_state block_set_state
    block_offset counter_bytes blocks_per_counter_unit allocator_user_offset guard_size guard_total
    allocator_round_down allocator_round_up allocator_check_guards check_loop allocator_block_size
wraps_run = (refl, refl, refl, refl)

shape_of : Option (Result × Option BlockAllocator) → ℕ × ℕ
shape_of (some (res, some a)) = (a.block_size, a.block_count)
shape_of (some (res, none)) = (0, 0)
shape_of none = (1, 0)

create_run : shape_of (create guarded 32 200 64 16 (λ a. 9)) ≡ (48, 3)
unfolding shape_of create place_blocks assert_free fill store block_get_state
    blocks_per_counter_unit guard_size guard_total allocator_round_down allocator_round_up
    allocator_block_size allocator_is_aligned
create_run = refl

abbrev some_free : BlockAllocator
some_free = pool 1

allocate-lowest_example :
    ((idx : ℕ) × (out : BlockAllocator) × (idx < 3)
      × (used some_free idx ≡ false)
      × ((idx ≤ 2) ⊎ (used some_free 2 ≡ true))
      × (allocate guarded some_free 0
          ≡ some (
            success,
            out,
            96 + block_offset guarded some_free idx + allocator_user_offset guarded,
          ))
      × IsPool guarded out
      × (allocator_check_guards guarded out.bytes (96 + block_offset guarded some_free idx) 48
          ≡ true)
      × ((3 ≤ 2) ⊎ (used out 2 ≡ (if 2 == idx then true else used some_free 2)))
      × ((5 < 96 + counter_bytes guarded some_free)
          ⊎ ((96 + block_offset guarded some_free idx ≤ 5)
              × (5 < 96 + block_offset guarded some_free idx + 48))
          ⊎ (out.bytes 5 ≡ 0xcc)))
    ⊎ ((allocate guarded some_free 0 ≡ some (out_of_memory, some_free, 0))
        × ((3 ≤ 2) ⊎ (used some_free 2 ≡ true)))
allocate-lowest_example = allocate-lowest guarded some_free 0 2 pool-IsPool 5

abbrev other_address : ℕ
other_address = 5

pool_fits : region_end guarded some_free < 2 ^ 64
unfolding counter_bytes blocks_per_counter_unit
pool_fits = omega arith

deallocate-block_example :
    ((out : BlockAllocator) × (guards_intact guarded some_free 0 ≡ true)
      × (deallocate guarded some_free (user_address guarded some_free 0) ≡ some (success, out))
      × (used out 2 ≡ used some_free 2)
      × IsPool guarded out
      × (out.block_size ≡ 48)
      × (out.block_count ≡ 3)
      × (out.memory_ptr ≡ 96)
      × ((other_address ≡ 96) ⊎ (out.bytes other_address ≡ 0xcc)))
    ⊎ ((guards_intact guarded some_free 0 ≡ false)
        × (deallocate guarded some_free (user_address guarded some_free 0)
            ≡ some (corrupted_pointer, some_free)))
deallocate-block_example =
    deallocate-block guarded some_free pool-IsPool 0 2 other_address (omega arith) refl pool_fits

deallocate_refused_example :
    (((132 < 96 + counter_bytes guarded some_free + allocator_user_offset guarded)
        ⊎ (region_end guarded some_free ≤ 132))
      × (deallocate guarded some_free 132 ≡ some (mismatched_allocator, some_free)))
    ⊎ ((96 + counter_bytes guarded some_free + allocator_user_offset guarded ≤ 132)
        × (132 < region_end guarded some_free)
        × ((132 - (96 + counter_bytes guarded some_free) - allocator_user_offset guarded) % 48 ≢ 0)
        × (deallocate guarded some_free 132 ≡ some (corrupted_pointer, some_free)))
    ⊎ ((idx : ℕ) × (idx < 3)
        × (132 ≡ user_address guarded some_free idx)
        × ((used some_free idx ≡ true)
            ⊎ ((used some_free idx ≡ false) × (deallocate guarded some_free 132 ≡ none))))
deallocate_refused_example = deallocate_refused guarded some_free pool-IsPool 132 pool_fits

deallocate-allocate_example :
    (memory : ℕ) × (out : BlockAllocator) × (final : BlockAllocator) × (allocate guarded some_free 0
      ≡ some (success, out, memory))
    × (deallocate guarded out memory ≡ some (success, final))
    × (used final 0 ≡ true)
deallocate-allocate_example =
    deallocate-allocate guarded some_free pool-IsPool 0 2 0 (omega arith) (omega arith) refl
      pool_fits

sixteen_block : 0 < allocator_block_size guarded 16
unfolding allocator_block_size allocator_round_up allocator_round_down guard_total guard_size
sixteen_block = omega arith

abbrev nines : Bytes
nines a = 9

create-IsPool_example :
    ((64 % 16 ≢ 0) × (create guarded 32 200 64 16 nines ≡ some (insufficient_alignment, none)))
    ⊎ ((64 % 16 ≡ 0)
        × (200 < 32 + 2 * allocator_block_size guarded 16)
        × (create guarded 32 200 64 16 nines ≡ some (insufficient_buffer, none)))
    ⊎ ((out : BlockAllocator) × (64 % 16 ≡ 0)
        × (32 + 2 * allocator_block_size guarded 16 ≤ 200)
        × (create guarded 32 200 64 16 nines ≡ some (success, some out))
        × IsPool guarded out
        × (1 ≤ out.block_count)
        × (96 ≡ out.memory_ptr)
        × (region_end guarded out ≤ 264)
        × (16 ≤ get_block_size guarded out)
        × ((out.block_count ≤ 1) ⊎ (used out 1 ≡ false)))
create-IsPool_example =
    create-IsPool guarded guarded-IsSound 16 (omega arith) 32 200 64 1 nines (omega arith)
      (omega arith) sixteen_block (λ a. omega arith)

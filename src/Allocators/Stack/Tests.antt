-- ===== src/Allocators/Stack/Tests.antt =====
-- Runs of the stack allocator, and the theorems about it at concrete inputs.
use cutl.Base.{
  ℕ, ◌+◌, ◌-◌, ◌^◌, ◌≤◌, ◌<◌, ◌≡◌, ◌⊎◌, refl, arith, Bool, true, false, [], ◌∷◌, Option, none, some,
  if◌then◌else◌, ◌==◌,
}
use cutl.Errors.{
  Result, success, out_of_memory, insufficient_alignment, mismatched_allocator, double_deallocation,
}
use cutl.Allocators.{
  BuildChoice, Bytes, block_free, block_used, guard_size, guard_total, store, fill,
  allocator_round_down, allocator_round_up, allocator_block_size, allocator_usable_size,
  allocator_user_offset, allocator_set_guards, check_loop, allocator_check_guards,
  allocator_is_aligned,
}
use cutl.Allocators.Layout.{IsSound}
use cutl.Allocators.Stack.{
  StackBlockInfo, StackAllocator, set_info, info_of, copy_bytes, stack_block_info_size, allocate,
  validate_and_adjust_memory_address, stack_memory_info_blocks, pop_loop, deallocate, reset,
  get_top, restore_top,
}
use cutl.Allocators.Stack.Resize.{
  grow_in_place, move_block, reallocate, wrap_stack_allocate, wrap_stack_deallocate,
  wrap_stack_reallocate, create,
}
use cutl.Allocators.Stack.Blocks.{Block, info, freed, Represents}
use cutl.Allocators.Stack.Allocate.{
  size_for, user_address, Guarded, used_block, allocate-Represents,
}
use cutl.Allocators.Stack.Release.{deallocate-Represents, deallocate_twice}
use cutl.Allocators.Stack.Runs.{
  allocates, deallocates, writes, restores, Reach, here, next, IsStack, Reach-create,
}
use cutl.Allocators.Stack.Grow.{adjusted_size, reallocate-top}

-- The build that the sources choose on a 64-bit machine.
abbrev plain : BuildChoice
plain = record { alignment = 16; guard_bytes = 0 }

plain-IsSound : IsSound plain
plain-IsSound = omega arith

abbrev no_infos : ℕ → StackBlockInfo
no_infos a = info_of 0 0

abbrev clean : Bytes
clean a = 0

abbrev empty : StackAllocator
empty = record { top = 0; size = 128; data_ptr = 80; infos = no_infos; bytes = clean }

-- Two blocks of 48 bytes, the lower one with the given state.
abbrev two : Bool → StackAllocator
two used = record empty {
  top = 96;
  infos = λ a.
      if a == 80
      then info (record { size = 48; used = used })
      else if a == 112
      then info (record { size = 48; used = used })
      else info_of 48 block_used;
}

abbrev lower : Bool → Block
lower used = record { size = 48; used = used }

moved_to : Option (Result × StackAllocator × ℕ) → ℕ
moved_to none = 0
moved_to (some (res, this, p)) = p

returned : Option (ℕ × StackAllocator) → ℕ × ℕ
returned none = (999, 999)
returned (some (p, this)) = (p, this.top)

top_or : Option StackAllocator → ℕ
top_or none = 999
top_or (some this) = this.top

top_of : Option (Result × StackAllocator) → ℕ
top_of none = 999
top_of (some (res, this)) = this.top

result_of : Option (Result × StackAllocator) → Result
result_of none = success
result_of (some (res, this)) = res

allocate-empty : (allocate plain empty 10 0).2 ≡ 96
unfolding allocate set_info stack_block_info_size allocator_round_up allocator_block_size
    allocator_user_offset guard_size guard_total allocator_round_down
allocate-empty = refl

-- Close to the end of `size_t` the size of the block wraps round.
allocate_wraps :
    ((allocate plain empty (2 ^ 64 - 20) 0).0 ≡ success)
    × ((allocate plain empty (2 ^ 64 - 20) 0).1.top ≡ 16)
unfolding allocate set_info stack_block_info_size allocator_round_up allocator_block_size
    allocator_user_offset guard_size guard_total allocator_round_down
allocate_wraps = (refl, refl)

two-Represents : (used : Bool) → Represents plain (two used) (used_block 48 ∷ lower used ∷ [])
unfolding stack_block_info_size allocator_round_up allocator_round_down guard_size guard_total
two-Represents used = record {
  top = refl;
  fits = omega arith;
  placed = omega arith;
  small = omega arith;
  room = omega arith;
  blocks = (omega arith, refl, refl, (omega arith, refl, refl, tt));
}

-- Giving the upper block back pops the lower one too if it is free, and leaves it if not.
pops :
    (top_of (deallocate plain (two true) 144) ≡ 48)
    × (top_of (deallocate plain (two false) 144) ≡ 0)
    × (top_of (deallocate plain (two true) 96) ≡ 96)
    × (result_of (deallocate plain (two false) 96) ≡ double_deallocation)
    × (result_of (deallocate plain (two true) 300) ≡ mismatched_allocator)
unfolding top_of result_of deallocate pop_loop validate_and_adjust_memory_address
    stack_memory_info_blocks set_info allocator_user_offset allocator_check_guards check_loop
    stack_block_info_size allocator_round_up allocator_round_down guard_size guard_total
pops = (refl, refl, refl, refl, refl)

intact : (used : Bool) (offset : ℕ) → Guarded plain (two used) offset 48
unfolding allocator_check_guards check_loop guard_size allocator_round_down
intact used offset = refl

-- A block below the top moves to the top; its bytes go with it, and the old block is free.
moves :
    (moved_to (reallocate plain (two true) 96 1 0) ≡ 96)
    × (moved_to (reallocate plain (record (two true) { size = 200 }) 96 20 0) ≡ 192)
    × (returned (wrap_stack_reallocate plain (two true) 144 200) ≡ (144, 288))
    × (returned (wrap_stack_reallocate plain (two true) 0 200) ≡ (0, 96))
    × (top_or (wrap_stack_deallocate plain (two true) 144) ≡ 48)
unfolding moved_to returned top_or wrap_stack_allocate wrap_stack_reallocate wrap_stack_deallocate
    reallocate grow_in_place move_block copy_bytes store allocate deallocate pop_loop
    allocator_block_size allocator_usable_size allocator_set_guards fill
    validate_and_adjust_memory_address stack_memory_info_blocks set_info allocator_user_offset
    allocator_check_guards check_loop stack_block_info_size allocator_round_up allocator_round_down
    guard_size guard_total
moves = (refl, refl, refl, refl, refl)

tops :
    (get_top (restore_top (two true) 48) ≡ 48)
    × (get_top (restore_top (two true) 200) ≡ 96)
    × (get_top (reset (two true)) ≡ 0)
unfolding get_top restore_top reset
tops = (refl, refl, refl)

create_unaligned : create plain 64 192 8 no_infos clean ≡ (insufficient_alignment, none)
unfolding create allocator_is_aligned
create_unaligned = refl

create-empty : create plain 64 192 16 no_infos clean ≡ (success, some empty)
unfolding create allocator_is_aligned
create-empty = refl

allocate-Represents_example :
    ((128 < 96 + size_for plain 0) × (allocate plain (two true) 0 0 ≡ (out_of_memory, two true, 0)))
    ⊎ ((out : StackAllocator) × (allocate plain (two true) 0 0
          ≡ (success, out, user_address plain (two true) 96))
        × Represents plain out (used_block (size_for plain 0) ∷ used_block 48 ∷ lower true ∷ [])
        × Guarded plain out 96 (size_for plain 0)
        × (user_address plain (two true) 96 + 0 + guard_size plain + stack_block_info_size plain
            ≤ 80 + out.top)
        × (out.bytes 100 ≡ 0))
allocate-Represents_example =
    allocate-Represents plain plain-IsSound (two true) (used_block 48 ∷ lower true ∷ []) 0 0 100
      (two-Represents true) (omega arith) (omega arith)

deallocate-Represents_example :
    (out : StackAllocator) × (deallocate plain (two true) (user_address plain (two true) 0)
      ≡ some (success, out))
    × Represents plain out (used_block 48 ∷ freed (lower true) ∷ [])
    × (out.bytes ≡ clean)
deallocate-Represents_example =
    deallocate-Represents plain plain-IsSound (two true) (used_block 48 ∷ []) (lower true) []
      (two-Represents true) refl (intact true 0)

deallocate_twice_example :
    deallocate plain (two false) (user_address plain (two false) 0)
    ≡ some (double_deallocation, two false)
deallocate_twice_example =
    deallocate_twice plain plain-IsSound (two false) (used_block 48 ∷ []) (lower false) []
      (two-Represents false) refl (intact false 0)

-- After an allocation, after a write into it, and after it was given back.
abbrev one : StackAllocator
one = record empty {
  top = 48;
  infos = set_info (set_info no_infos 112 (info_of 48 block_used)) 80 (info_of 48 block_used);
}

abbrev written : StackAllocator
written = record one { bytes = store clean 96 7 }

abbrev gone : StackAllocator
gone = record written {
  top = 0;
  infos = set_info (set_info one.infos 80 (info_of 48 block_free)) 112 (info_of 48 block_free);
}

one_allocated : allocate plain empty 10 0 ≡ (success, one, 96)
unfolding allocate stack_block_info_size allocator_round_up allocator_block_size
    allocator_user_offset guard_size guard_total allocator_round_down allocator_set_guards fill
one_allocated = refl

one-Represents :
    (bytes : Bytes) → Represents plain (record one { bytes = bytes }) (used_block 48 ∷ [])
unfolding set_info stack_block_info_size allocator_round_up allocator_round_down guard_size
    guard_total
one-Represents bytes = record {
  top = refl;
  fits = omega arith;
  placed = omega arith;
  small = omega arith;
  room = omega arith;
  blocks = (omega arith, refl, refl, tt);
}

gone_deallocated : deallocate plain written (user_address plain written 0) ≡ some (success, gone)
unfolding deallocate validate_and_adjust_memory_address stack_memory_info_blocks pop_loop set_info
    stack_block_info_size allocator_round_up allocator_user_offset guard_size guard_total
    allocator_round_down allocator_check_guards check_loop
gone_deallocated = refl

one_intact : Guarded plain written 0 48
unfolding guard_size allocator_round_down allocator_check_guards check_loop
one_intact = refl

one_low : user_address plain one 0 ≤ 96
unfolding stack_block_info_size allocator_round_up allocator_round_down guard_size
one_low = omega arith

one_high : 96 + guard_size plain + stack_block_info_size plain < 128
unfolding stack_block_info_size allocator_round_up allocator_round_down guard_size
one_high = omega arith

gone-Represents : Represents plain gone []
gone-Represents = record {
  top = refl;
  fits = omega arith;
  placed = omega arith;
  small = omega arith;
  room = omega arith;
  blocks = tt;
}

some_steps : Reach plain empty (restore_top gone 0)
some_steps =
    next
      (next
        (next (next here (allocates 10 0 (omega arith) one_allocated))
          (writes [] (used_block 48) [] 96 7 (one-Represents clean) refl one_low one_high))
        (deallocates [] (used_block 48) [] (one-Represents (store clean 96 7)) refl one_intact
          gone_deallocated))
      (restores [] [] gone-Represents)

Reach-create_example : IsStack plain (restore_top gone 0)
Reach-create_example =
    Reach-create plain 64 192 16 no_infos clean plain-IsSound (omega arith) (omega arith)
      (omega arith) (omega arith) create-empty some_steps

large_enough : 48 < adjusted_size plain 200
unfolding allocator_block_size stack_block_info_size allocator_round_up allocator_round_down
    guard_size guard_total
large_enough = omega arith

reallocate-top_example :
    (out : StackAllocator) × (reallocate plain (two true) (user_address plain (two true) 48) 200 0
      ≡ some (success, out, user_address plain (two true) 48))
    × (out.top ≡ 48 + adjusted_size plain 200)
    × (out.size ≡ 128)
reallocate-top_example =
    reallocate-top plain (two true) (used_block 48) (lower true ∷ []) 200 0 plain-IsSound
      (two-Represents true) refl (intact true 48) (omega arith) large_enough

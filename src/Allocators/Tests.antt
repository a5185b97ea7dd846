-- ===== src/Allocators/Tests.antt =====
-- Runs of the helpers that the allocators share, and the theorems about them at concrete inputs.
use cutl.Base.{◌≡◌, refl, arith, true, false}
use cutl.Allocators.{
  BuildChoice, Bytes, store, fill, allocator_round_down, allocator_round_up, guard_size,
  guard_total, allocator_is_aligned, allocator_block_size, allocator_usable_size,
  allocator_user_offset, allocator_block_start, allocator_set_guards, check_loop,
  allocator_check_guards,
}
use cutl.Allocators.Layout.{IsSound, allocator_check_guards-set_guards}

-- An alignment of 16 bytes and 8 guard bytes, which are rounded up to 16.
abbrev guarded : BuildChoice
guarded = record { alignment = 16; guard_bytes = 8 }

abbrev clean : Bytes
clean a = 0

guarded-IsSound : IsSound guarded
guarded-IsSound = omega arith

sizes :
    (allocator_round_up guarded 17 ≡ 32)
    × (allocator_block_size guarded 17 ≡ 64)
    × (allocator_usable_size guarded 64 ≡ 32)
    × (allocator_block_start guarded 116 ≡ 100)
    × (allocator_user_offset guarded ≡ 16)
    × (allocator_is_aligned guarded 40 ≡ false)
unfolding allocator_round_up allocator_round_down allocator_block_size allocator_usable_size
    allocator_block_start allocator_user_offset allocator_is_aligned guard_size guard_total
sizes = (refl, refl, refl, refl, refl, refl)

overwritten :
    allocator_check_guards guarded (store (allocator_set_guards guarded clean 100 64) 115 7) 100 64
    ≡ false
unfolding allocator_check_guards check_loop allocator_set_guards fill store guard_size
    allocator_round_down
overwritten = refl

allocator_check_guards-set_guards_example :
    allocator_check_guards guarded (allocator_set_guards guarded clean 100 64) 100 64 ≡ true
unfolding guard_total guard_size allocator_round_down
allocator_check_guards-set_guards_example =
    allocator_check_guards-set_guards guarded 100 64 clean (omega arith)

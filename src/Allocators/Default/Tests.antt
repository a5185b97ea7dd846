-- ===== src/Allocators/Default/Tests.antt =====
-- Runs of the calls on allocators, and the theorem about groups at a concrete input.
use cutl.Base.{ℕ, suc, zero, ◌⊎◌, ◌≢◌, ◌+◌, ◌%◌, ◌≤◌, ◌≡◌, refl, arith, false, none, some, [], ◌∷◌}
use cutl.Allocators.{BuildChoice, allocator_round_down, allocator_round_up}
use cutl.Allocators.Layout.{IsSound}
use cutl.Allocators.Default.{
  Allocator, Heap, std_allocate, std_reallocate, std_deallocate, std_allocator, Defaults,
  set_global, set_thread, get_default, alloc, dealloc, realloc, alloc_default, realloc_default,
  dealloc_default, group_size, group_pointers, alloc_group,
}
use cutl.Allocators.Default.Groups.{alloc_group-apart}

abbrev plain : BuildChoice
plain = record { alignment = 16; guard_bytes = 0 }

plain-IsSound : IsSound plain
plain-IsSound = omega arith

-- A heap that hands out address after address, its world the next one.
abbrev heap : Heap ℕ
heap = record {
  malloc = λ size next. (next, next + size);
  realloc = λ ptr size next. (next, next + size);
  free = λ ptr next. next;
}

-- An allocator that has no memory.
abbrev empty : Allocator ℕ
empty = record {
  state = 0;
  allocate = λ state size w. some (0, w);
  deallocate = λ state ptr w. none;
  reallocate = λ state ptr size w. some (0, w);
}

abbrev unset : Defaults ℕ
unset = record {
  global_allocator_set = false;
  global_allocator = empty;
  thread_allocator_set = false;
  thread_allocator = empty;
}

defaults_run :
    (alloc_default heap unset 8 64 ≡ some (64, 72))
    × (realloc_default heap unset 0 8 64 ≡ some (64, 72))
    × (realloc_default heap unset 32 8 64 ≡ some (64, 72))
    × (realloc_default heap unset 32 0 64 ≡ some (0, 64))
    × (dealloc_default heap unset 32 64 ≡ some 64)
    × (alloc_default heap (set_global (some empty) unset) 8 64 ≡ some (0, 64))
    × (alloc_default heap
          (set_thread (some (std_allocator heap)) (set_global (some empty) unset))
          8
          64
        ≡ some (64, 72))
    × (alloc_default heap (set_thread none (set_global none unset)) 8 64 ≡ some (64, 72))
unfolding alloc_default realloc_default dealloc_default alloc dealloc realloc get_default set_global
    set_thread std_allocator std_allocate std_reallocate std_deallocate
defaults_run = (refl, refl, refl, refl, refl, refl, refl, refl)

group_run :
    alloc_group plain (std_allocator heap) (5 ∷ 17 ∷ 1 ∷ []) 64
    ≡ some (64, some (64 ∷ 80 ∷ 112 ∷ []), 128)
unfolding alloc_group group_size group_pointers alloc std_allocator std_allocate allocator_round_up
    allocator_round_down
group_run = refl

alloc_group-apart_example :
    (alloc (std_allocator heap) (group_size plain 0 (5 ∷ 17 ∷ 1 ∷ [])) 64 ≡ some (64, 128))
    × (64 ≤ 80)
    × (80 + 17 ≤ 64 + group_size plain 0 (5 ∷ 17 ∷ 1 ∷ []))
    × ((suc (suc zero) ≤ 1) ⊎ (80 + 17 ≤ 112))
    × ((64 % 16 ≢ 0) ⊎ (80 % 16 ≡ 0))
alloc_group-apart_example =
    alloc_group-apart plain plain-IsSound (std_allocator heap) (5 ∷ 17 ∷ 1 ∷ [])
      (64 ∷ 80 ∷ 112 ∷ []) 64 128 64 1 2 17 1 80 112 (omega arith) group_run refl refl refl refl

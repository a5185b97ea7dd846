-- ===== src/Allocators/Default.antt =====
-- src/allocators/allocators.c: the calls on any allocator, the allocator of the C library, and the
-- default allocators of a thread. A `World` is all the memory and what the allocators keep of it;
-- the null pointer is 0, and `none` is a failed assertion.
pub mod Groups
mod Tests
use cutl.Base.{
  ℕ, zero, suc, ◌+◌, Bool, true, false, Option, none, some, List, [], ◌∷◌, ◌==◌, if◌then◌else◌, u64,
}
use cutl.Allocators.{BuildChoice, allocator_round_up}

-- The functions take the state of the allocator first.
pub record Allocator (World : Type 0) : Type 0 where
  pub state : ℕ
  pub allocate : ℕ → ℕ → World → Option (ℕ × World)
  pub deallocate : ℕ → ℕ → World → Option World
  pub reallocate : ℕ → ℕ → ℕ → World → Option (ℕ × World)

-- The functions of the C library.
pub record Heap (World : Type 0) : Type 0 where
  pub malloc : ℕ → World → ℕ × World
  pub realloc : ℕ → ℕ → World → ℕ × World
  pub free : ℕ → World → World

abbrev pub std_allocator_magic : ℕ
std_allocator_magic = 0xb160b00b1354babe

module _ {World : Type 0} (heap : Heap World) where
  pub std_allocate : ℕ → ℕ → World → Option (ℕ × World)
  std_allocate state size w =
      if state == std_allocator_magic then some (heap.malloc size w) else none

  pub std_reallocate : ℕ → ℕ → ℕ → World → Option (ℕ × World)
  std_reallocate state ptr size w =
      if state == std_allocator_magic then some (heap.realloc ptr size w) else none

  pub std_deallocate : ℕ → ℕ → World → Option World
  std_deallocate state ptr w = if state == std_allocator_magic then some (heap.free ptr w) else none

  pub std_allocator : Allocator World
  std_allocator = record {
    state = std_allocator_magic;
    allocate = std_allocate;
    deallocate = std_deallocate;
    reallocate = std_reallocate;
  }

-- The global allocator, and that of one thread, with whether they are set.
pub record Defaults (World : Type 0) : Type 0 where
  pub global_allocator_set : Bool
  pub global_allocator : Allocator World
  pub thread_allocator_set : Bool
  pub thread_allocator : Allocator World

module _ {World : Type 0} where
  pub set_global : Option (Allocator World) → Defaults World → Defaults World
  set_global none d = record d { global_allocator_set = false }
  set_global (some allocator) d = record d {
    global_allocator_set = true;
    global_allocator = allocator;
  }

  pub set_thread : Option (Allocator World) → Defaults World → Defaults World
  set_thread none d = record d { thread_allocator_set = false }
  set_thread (some allocator) d = record d {
    thread_allocator_set = true;
    thread_allocator = allocator;
  }

  pub get_default : Heap World → Defaults World → Allocator World
  get_default heap d =
      if d.thread_allocator_set
      then d.thread_allocator
      else if d.global_allocator_set
      then d.global_allocator
      else std_allocator heap

  pub alloc : Allocator World → ℕ → World → Option (ℕ × World)
  alloc allocator size w =
      if size == 0 then some (0, w) else allocator.allocate allocator.state size w

  pub dealloc : Allocator World → ℕ → World → Option World
  dealloc allocator ptr w = if ptr == 0 then some w else allocator.deallocate allocator.state ptr w

  pub realloc : Allocator World → ℕ → ℕ → World → Option (ℕ × World)
  realloc allocator ptr new_size w =
      let released : Option (ℕ × World) = elim (dealloc allocator ptr w) [
        | some next ↦ some (0, next)
        | none ↦ none
      ] in
      if new_size == 0
      then released
      else if ptr == 0
      then alloc allocator new_size w
      else allocator.reallocate allocator.state ptr new_size w

  pub alloc_default : Heap World → Defaults World → ℕ → World → Option (ℕ × World)
  alloc_default heap d size w = alloc (get_default heap d) size w

  pub realloc_default : Heap World → Defaults World → ℕ → ℕ → World → Option (ℕ × World)
  realloc_default heap d ptr new_size w = realloc (get_default heap d) ptr new_size w

  pub dealloc_default : Heap World → Defaults World → ℕ → World → Option World
  dealloc_default heap d ptr w = dealloc (get_default heap d) ptr w

module _ (l : BuildChoice) where
  -- The two loops of `alloc_group`, on the sizes that are asked for: the sum, from what there is of it,
  -- and the pointers that are handed out, from an offset on.
  pub group_size : ℕ → List ℕ → ℕ
  group_size total_size [] = total_size
  group_size total_size (size ∷ sizes) =
      group_size (u64 (total_size + allocator_round_up l size)) sizes

  pub group_pointers : ℕ → ℕ → List ℕ → List ℕ
  group_pointers memory offset [] = []
  group_pointers memory offset (size ∷ sizes) =
      (memory + offset) ∷ group_pointers memory (u64 (offset + allocator_round_up l size)) sizes

  -- The memory of the group, and the pointers, which are not written when there is no memory.
  pub alloc_group :
      {World : Type 0} → Allocator World → List ℕ → World → Option (ℕ × Option (List ℕ) × World)
  alloc_group allocator sizes w = elim (alloc allocator (group_size 0 sizes) w) [
    | some (memory, next) ↦
        some (memory, if memory == 0 then none else some (group_pointers memory 0 sizes), next)
    | none ↦ none
  ]

-- ===== src/Allocators/Stack/Grow.antt =====
-- Growing the topmost block in place.
use cutl.Base.{
  ℕ, ◌+◌, ◌-◌, ◌*◌, ◌^◌, ◌<◌, ◌≡◌, refl, ◌∙◌, ap, arith, true, List, [], ◌∷◌, some, sub64, u64,
  eq→==, ne→==, lt→leb,
}
use cutl.Errors.{success}
use cutl.Allocators.{BuildChoice, allocator_block_size}
use cutl.Allocators.Layout.{IsSound, block_size_bounds}
use cutl.Allocators.Stack.{StackAllocator, no_address, stack_block_info_size}
use cutl.Allocators.Stack.Resize.{reallocate, grow_in_place}
use cutl.Allocators.Stack.Blocks.{Block, height, Represents, info_size_bounds}
use cutl.Allocators.Stack.Allocate.{user_address, Guarded}
use cutl.Allocators.Stack.Release.{Located-in}
use cutl.Allocators.Stack.Deallocate.{info_blocks_used}

-- The size of the block that `reallocate` makes for a request.
abbrev pub adjusted_size : BuildChoice → ℕ → ℕ
adjusted_size l size = allocator_block_size l size + 2 * stack_block_info_size l

-- For a sound build, a stack that stands for a list of blocks whose topmost is in use and has its
-- guards intact, and a request of less than 2^61 bytes that needs a larger block than that: the call
-- succeeds with the same address, and the top is behind the larger block, whatever the size of the
-- stack is.
pub reallocate-top :
    (l : BuildChoice) (this : StackAllocator) (b : Block) (below : List Block) (size p_memory : ℕ)
    → IsSound l
    → Represents l this (b ∷ below)
    → b.used ≡ true
    → Guarded l this (height below) b.size
    → size < 2 ^ 61
    → b.size < adjusted_size l size
    → (out : StackAllocator) × (reallocate l this (user_address l this (height below)) size p_memory
        ≡ some (success, out, user_address l this (height below)))
      × (out.top ≡ height below + adjusted_size l size)
      × (out.size ≡ this.size)
unfolding reallocate grow_in_place
reallocate-top l this b below size p_memory sound r used intact small more =
    let a = Located-in l sound this [] b below r in
    let i = info_size_bounds l sound in
    let g = block_size_bounds l sound size (omega arith) in
    let large = a.large in
    let room = r.room in
    let fits = r.fits in
    let limit = r.small in
    let top = r.top in
    let start = this.data_ptr + height below in
    let blocks =
      info_blocks_used l sound this b start (start + b.size - stack_block_info_size l) (omega arith)
        (omega arith) (omega arith) a.front refl a.rear used intact in
    let adjusted : u64 (allocator_block_size l size + 2 * stack_block_info_size l)
        ≡ adjusted_size l size =
      omega arith in
    let offset : u64 (sub64 start this.data_ptr + b.size) ≡ this.top = omega arith in
    (
      grow_in_place l this start (adjusted_size l size),
      rw
          (
            a.valid,
            ne→== start no_address (omega arith),
            blocks,
            a.valid,
            a.front,
            adjusted,
            lt→leb (adjusted_size l size) b.size more,
          )
          (rw (offset, eq→== this.top this.top refl) refl),
      ap (λ x. u64 (this.top + sub64 (adjusted_size l size) x.size)) a.front ∙ omega arith,
      refl,
    )

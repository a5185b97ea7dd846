-- ===== src/Allocators/Stack/Release.antt =====
-- What a call of `deallocate` makes of the stack of blocks.
use cutl.Base.{
  ℕ, suc, ◌+◌, ◌-◌, ◌*◌, ◌≤◌, ◌≡◌, ◌≢◌, refl, ◌∙◌, arith, true, false, List, [], ◌∷◌, ◌++◌, some,
  le→ltb, lt→leb, eq→==, ne→==, sub64, ◌==◌, if◌then◌else◌,
}
use cutl.Errors.{success, double_deallocation}
use cutl.Allocators.{BuildChoice, guard_size, guard_total, allocator_user_offset}
use cutl.Allocators.Layout.{IsSound, guard_size-small}
use cutl.Allocators.Stack.{
  StackBlockInfo, StackAllocator, set_info, no_address, stack_block_info_size,
  validate_and_adjust_memory_address, stack_memory_info_blocks, pop_loop, deallocate,
}
use cutl.Allocators.Stack.Blocks.{
  Block, height, info, freed, drop_free, release, height-append, Described, Represents,
  info_size_bounds, Described-set, Described-size, Described-frame, set_info_outside,
}
use cutl.Allocators.Stack.Allocate.{user_address, Guarded}
use cutl.Allocators.Stack.Deallocate.{
  with_top, pop_loop-drop_free, freed_infos, Described-at, info_blocks_used, deallocate_found,
}

height-drop_free-le : (bs : List Block) → height (drop_free bs) ≤ height bs
height-drop_free-le [] = omega arith
height-drop_free-le (b ∷ bs) = ground (arith, height-drop_free-le bs)

Described-drop_free :
    (l : BuildChoice) (infos : ℕ → StackBlockInfo) (start : ℕ) (bs : List Block)
    → Described l infos start bs
    → Described l infos start (drop_free bs)
Described-drop_free l infos start [] d = tt
Described-drop_free l infos start (b ∷ bs) d =
    elim b.used as (λ u. Described l infos start (if u then b ∷ bs else drop_free bs)) [
      | true ↦ d
      | false ↦ Described-drop_free l infos start bs d.3
    ]

module _ (l : BuildChoice) (sound : IsSound l) (this : StackAllocator) where
  -- What the code needs to know of a block that lies in the stack.
  pub record Located (above : List Block) (b : Block) (below : List Block) : Type 0 where
    pub large : 2 * stack_block_info_size l + guard_total l ≤ b.size
    pub inside : height below + b.size ≤ this.top
    pub front : this.infos (this.data_ptr + height below) ≡ info b
    pub rear : this.infos (this.data_ptr + height below + b.size - stack_block_info_size l) ≡ info b
    pub rest : Described l this.infos this.data_ptr below
    pub valid :
        validate_and_adjust_memory_address l this (user_address l this (height below))
        ≡ this.data_ptr + height below

  pub Located-in :
      (above : List Block) (b : Block) (below : List Block)
      → Represents l this (above ++ b ∷ below)
      → Located above b below
  unfolding validate_and_adjust_memory_address allocator_user_offset guard_total
  Located-in above b below r =
      let i = info_size_bounds l sound in
      let g = guard_size-small l sound in
      let large = Described-size l sound this.infos this.data_ptr above b below r.blocks in
      let (front, rear, rest) =
        Described-at l sound this.infos this.data_ptr above b below r.blocks in
      let total = height-append above (b ∷ below) in
      let top = r.top in
      let fits = r.fits in
      let room = r.room in
      let address = user_address l this (height below) in
      let back : sub64 address (guard_size l + stack_block_info_size l)
          ≡ this.data_ptr + height below =
        omega arith in
      record {
        large = large;
        inside = omega arith;
        front = front;
        rear = rear;
        rest = rest;
        valid =
            rw
              (
                le→ltb address this.data_ptr (omega arith),
                lt→leb (this.data_ptr + this.size) address (omega arith),
                back,
              )
              refl;
      }

  abbrev after : Block → List Block → StackAllocator
  after b below = record this { infos = freed_infos l sound this b below }

  deallocate-Located :
      (above : List Block) (b : Block) (below : List Block)
      → Represents l this (above ++ b ∷ below)
      → b.used ≡ true
      → Guarded l this (height below) b.size
      → deallocate l this (user_address l this (height below)) ≡ (
          if (this.data_ptr + height below + b.size) == (this.data_ptr + this.top)
          then pop_loop l
              (suc this.top)
              (after b below)
              (this.data_ptr + height below)
              (this.data_ptr + height below + b.size - stack_block_info_size l)
          else some (success, after b below))
  deallocate-Located above b below r used intact =
      let a = Located-in above b below r in
      let i = info_size_bounds l sound in
      let large = a.large in
      let inside = a.inside in
      let room = r.room in
      let small = r.small in
      let fits = r.fits in
      let start = this.data_ptr + height below in
      deallocate_found l sound this b start (start + b.size - stack_block_info_size l)
        (user_address l this (height below)) a.valid (omega arith) a.front a.rear
        (info_blocks_used l sound this b start (start + b.size - stack_block_info_size l)
          (omega arith) (omega arith) (omega arith) a.front refl a.rear used intact)

  freed-rest :
      (above : List Block) (b : Block) (below : List Block)
      → Located above b below
      → Described l (freed_infos l sound this b below) this.data_ptr below
  freed-rest above b below a =
      let i = info_size_bounds l sound in
      let large = a.large in
      Described-frame l sound this.infos (freed_infos l sound this b below) this.data_ptr below
        (λ j u.
          set_info_outside this.infos (this.data_ptr + height below)
            (this.data_ptr + height below + b.size - stack_block_info_size l) (info (freed b))
            (info (freed b)) j (omega arith) (omega arith))
        a.rest

  freed-rear :
      (b : Block) (below : List Block)
      → (freed_infos l sound this b below
          (this.data_ptr + height below + b.size - stack_block_info_size l)).size
        ≡ b.size
  unfolding set_info
  freed-rear b below =
      let last = this.data_ptr + height below + b.size - stack_block_info_size l in
      rw (eq→== last last refl) refl

  -- For a sound build, a stack that stands for a list of blocks and a block of it that is in use and
  -- whose guards are intact: giving it back succeeds, and the stack then stands for the list in which
  -- the block is free, less the free blocks at its top. No byte of the callers changes.
  pub deallocate-Represents :
      (above : List Block) (b : Block) (below : List Block)
      → Represents l this (above ++ b ∷ below)
      → b.used ≡ true
      → Guarded l this (height below) b.size
      → (out : StackAllocator) × (deallocate l this (user_address l this (height below))
          ≡ some (success, out))
        × Represents l out (release above b below)
        × (out.bytes ≡ this.bytes)
  deallocate-Represents [] b below r used intact =
      let a = Located-in [] b below r in
      let i = info_size_bounds l sound in
      let top = r.top in
      let room = r.room in
      let fits = r.fits in
      let small = r.small in
      let less = height-drop_free-le below in
      let start = this.data_ptr + height below in
      let last = start + b.size - stack_block_info_size l in
      let rest = freed-rest [] b below a in
      let size = freed-rear b below in
      let is_top : start + b.size ≡ this.data_ptr + this.top = omega arith in
      let popped =
        pop_loop-drop_free l sound (suc this.top) (after b below) below start last (omega arith)
          (omega arith) refl (omega arith) (omega arith) rest in
      (
        with_top (after b below) (height (drop_free below)),
        deallocate-Located [] b below r used intact ∙ rw (eq→== _ _ is_top) popped,
        record {
          top = refl;
          fits = omega arith;
          placed = r.placed;
          small = small;
          room = room;
          blocks =
              Described-drop_free l (freed_infos l sound this b below) this.data_ptr below rest;
        },
        refl,
      )
  deallocate-Represents (c ∷ above) b below r used intact =
      let i = info_size_bounds l sound in
      let (large, _, _, _) = r.blocks in
      let top = r.top in
      let total = height-append above (b ∷ below) in
      let total' = height-append above (freed b ∷ below) in
      let start = this.data_ptr + height below in
      let not_top : start + b.size ≢ this.data_ptr + this.top = omega arith in
      (
        after b below,
        deallocate-Located (c ∷ above) b below r used intact ∙ rw (ne→== _ _ not_top) refl,
        record {
          top = omega arith;
          fits = r.fits;
          placed = r.placed;
          small = r.small;
          room = r.room;
          blocks =
              Described-set l sound this.infos this.data_ptr (c ∷ above) b (freed b) below refl
                r.blocks;
        },
        refl,
      )

  -- For a sound build, a stack that stands for a list of blocks and a block of it that is free and
  -- whose guards are intact: giving it back again is refused, and nothing changes.
  pub deallocate_twice :
      (above : List Block) (b : Block) (below : List Block)
      → Represents l this (above ++ b ∷ below)
      → b.used ≡ false
      → Guarded l this (height below) b.size
      → deallocate l this (user_address l this (height below)) ≡ some (double_deallocation, this)
  unfolding deallocate stack_memory_info_blocks
  deallocate_twice above b below r free intact =
      let a = Located-in above b below r in
      let large = a.large in
      let inside = a.inside in
      let room = r.room in
      let fits = r.fits in
      let small = r.small in
      let start = this.data_ptr + height below in
      let inner : sub64 b.size (2 * stack_block_info_size l)
          ≡ b.size - 2 * stack_block_info_size l =
        omega arith in
      rw (a.valid, ne→== start no_address (omega arith), a.front, inner, intact, free) refl

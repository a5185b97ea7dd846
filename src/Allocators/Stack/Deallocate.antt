-- ===== src/Allocators/Stack/Deallocate.antt =====
-- Giving a block back frees it, and pops the free blocks at the top.
use cutl.Base.{
  ℕ, zero, suc, ◌+◌, ◌-◌, ◌*◌, ◌^◌, ◌≤◌, ◌<◌, ◌≡◌, ◌≢◌, inl, inr, refl, sym, ◌∙◌, ap, arith, true,
  false, List, [], ◌∷◌, ◌++◌, some, Bool-cases, eq→==, ne→==, sub64, ◌==◌, if◌then◌else◌,
}
use cutl.Errors.{success}
use cutl.Allocators.{BuildChoice, allocator_check_guards}
use cutl.Allocators.Layout.{IsSound}
use cutl.Allocators.Stack.{
  StackBlockInfo, StackAllocator, set_info, no_address, stack_block_info_size,
  validate_and_adjust_memory_address, stack_memory_info_blocks, pop_loop, deallocate,
}
use cutl.Allocators.Stack.Blocks.{
  Block, height, info, freed, drop_free, Described, info_size_bounds,
}
use cutl.Allocators.Stack.Allocate.{}

abbrev pub with_top : StackAllocator → ℕ → StackAllocator
with_top this top = record this { top = top }

module _ (l : BuildChoice) (sound : IsSound l) where
  module _ (rounds : ℕ) (this : StackAllocator) (real_address end_address top : ℕ) where
    pop_bottom :
        sub64 this.top (this.infos end_address).size ≡ 0
        → this.data_ptr ≡ real_address
        → pop_loop l (suc rounds) this real_address end_address ≡ some (success, with_top this 0)
    unfolding pop_loop
    pop_bottom e here = rw (e, eq→== this.data_ptr real_address here) refl

    pop_used :
        (c : Block)
        → sub64 this.top (this.infos end_address).size ≡ top
        → top ≢ 0
        → this.infos (real_address - stack_block_info_size l) ≡ info c
        → this.infos (sub64 real_address c.size) ≡ info c
        → c.used ≡ true
        → pop_loop l (suc rounds) this real_address end_address ≡ some (success, with_top this top)
    unfolding pop_loop
    pop_used c e some_left rear front used =
        rw (e, ne→== top 0 some_left, rear, front, used, eq→== c.size c.size refl) refl

    pop_free :
        (c : Block)
        → sub64 this.top (this.infos end_address).size ≡ top
        → top ≢ 0
        → this.infos (real_address - stack_block_info_size l) ≡ info c
        → this.infos (sub64 real_address c.size) ≡ info c
        → c.used ≡ false
        → pop_loop l (suc rounds) this real_address end_address
          ≡ pop_loop l rounds
              (with_top this top)
              (sub64 real_address c.size)
              (real_address - stack_block_info_size l)
    unfolding pop_loop
    pop_free c e some_left rear front free =
        rw (e, ne→== top 0 some_left, rear, front, free, eq→== c.size c.size refl) refl

  -- The loop from the topmost block on, which has the size in the info at `end_address`.
  pub pop_loop-drop_free :
      (rounds : ℕ) (this : StackAllocator) (below : List Block) (real_address end_address : ℕ)
      → height below < rounds
      → this.top ≡ height below + (this.infos end_address).size
      → real_address ≡ this.data_ptr + height below
      → this.top < 2 ^ 63
      → real_address < 2 ^ 64
      → Described l this.infos this.data_ptr below
      → pop_loop l rounds this real_address end_address
        ≡ some (success, with_top this (height (drop_free below)))
  pop_loop-drop_free zero this below real_address end_address enough e at_end small room d =
      absurd (omega arith)
  pop_loop-drop_free (suc rounds) this [] real_address end_address enough e at_end small room d =
      pop_bottom rounds this real_address end_address 0 (omega arith) (omega arith)
  pop_loop-drop_free (suc rounds) this (c ∷ below) real_address end_address enough e at_end small
        room (size, front, rear, rest) =
      let i = info_size_bounds l sound in
      let left : sub64 this.top (this.infos end_address).size ≡ height (c ∷ below) = omega arith in
      let ends : real_address - stack_block_info_size l
          ≡ this.data_ptr + height below + c.size - stack_block_info_size l =
        omega arith in
      let starts : sub64 real_address c.size ≡ this.data_ptr + height below = omega arith in
      let rear_info = ap this.infos ends ∙ rear in
      let front_info = ap this.infos starts ∙ front in
      elim (Bool-cases c.used) [
        | inl used ↦
            pop_used rounds this real_address end_address (height (c ∷ below)) c left (omega arith)
              rear_info front_info used
            ∙ ap
                (λ u.
                  some (success, with_top this (height (if u then c ∷ below else drop_free below))))
                (sym used)
        | inr free ↦
            pop_free rounds this real_address end_address (height (c ∷ below)) c left (omega arith)
              rear_info front_info free
            ∙ pop_loop-drop_free rounds (with_top this (height (c ∷ below))) below
                (sub64 real_address c.size) (real_address - stack_block_info_size l) (omega arith)
                (ap (λ x. height below + x.size) (sym rear_info)) starts (omega arith) (omega arith)
                rest
            ∙ ap
                (λ u.
                  some (success, with_top this (height (if u then c ∷ below else drop_free below))))
                (sym free)
      ]

  -- The infos in which a block is free.
  abbrev pub freed_infos : StackAllocator → Block → List Block → ℕ → StackBlockInfo
  freed_infos this b below =
      set_info (set_info this.infos (this.data_ptr + height below) (info (freed b)))
        (this.data_ptr + height below + b.size - stack_block_info_size l) (info (freed b))

  pub Described-at :
      (infos : ℕ → StackBlockInfo) (start : ℕ) (above : List Block) (b : Block) (below : List Block)
      → Described l infos start (above ++ b ∷ below)
      → (infos (start + height below) ≡ info b)
        × (infos (start + height below + b.size - stack_block_info_size l) ≡ info b)
        × Described l infos start below
  Described-at infos start [] b below (size, front, rear, rest) = (front, rear, rest)
  Described-at infos start (a ∷ above) b below (size, front, rear, rest) =
      Described-at infos start above b below rest

  module _ (this : StackAllocator) (b : Block) (real_address end_address : ℕ) where
    pub info_blocks_used :
        b.size < 2 ^ 63
        → real_address + b.size < 2 ^ 64
        → 2 * stack_block_info_size l ≤ b.size
        → this.infos real_address ≡ info b
        → real_address + b.size - stack_block_info_size l ≡ end_address
        → this.infos end_address ≡ info b
        → b.used ≡ true
        → allocator_check_guards l this.bytes
            (real_address + stack_block_info_size l)
            (b.size - 2 * stack_block_info_size l)
          ≡ true
        → stack_memory_info_blocks l this real_address ≡ (success, end_address)
    unfolding stack_memory_info_blocks
    info_blocks_used small room large front at_end rear used intact =
        let i = info_size_bounds l sound in
        let end : sub64 (real_address + b.size) (stack_block_info_size l) ≡ end_address =
          omega arith in
        let inner : sub64 b.size (2 * stack_block_info_size l)
            ≡ b.size - 2 * stack_block_info_size l =
          omega arith in
        rw (front, end, rear, inner, intact, used, eq→== b.size b.size refl) refl

    pub deallocate_found :
        (memory : ℕ)
        → validate_and_adjust_memory_address l this memory ≡ real_address
        → real_address ≢ no_address
        → this.infos real_address ≡ info b
        → this.infos end_address ≡ info b
        → stack_memory_info_blocks l this real_address ≡ (success, end_address)
        → let infos =
            set_info
              (set_info this.infos real_address (info (freed b)))
              end_address
              (info (freed b)) in
          let after : StackAllocator = record this { infos = infos } in
          deallocate l this memory ≡ (
            if (real_address + b.size) == (this.data_ptr + this.top)
            then pop_loop l (suc this.top) after real_address end_address
            else some (success, after))
    unfolding deallocate
    deallocate_found memory valid there front rear blocks =
        rw (valid, ne→== real_address no_address there, blocks, valid, blocks, front, rear) refl

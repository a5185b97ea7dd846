-- ===== src/Allocators/Stack/Allocate.antt =====
-- Allocation puts a block on the stack.
use cutl.Base.{
  ℕ, ◌+◌, ◌-◌, ◌*◌, ◌^◌, ◌≤◌, ◌<◌, ◌≡◌, ◌⊎◌, inl, inr, refl, ◌∙◌, ap, arith, true, List, ◌∷◌,
  lt-or-le, lt→ltb, le→ltb, eq→==, ne→==, u64, sub64,
}
use cutl.Errors.{success, out_of_memory}
use cutl.Allocators.{
  BuildChoice, block_used, guard_size, guard_total, allocator_block_size, allocator_user_offset,
  allocator_set_guards, allocator_check_guards,
}
use cutl.Allocators.Layout.{
  IsSound, guard_size-small, allocator_check_guards-set_guards, set_guards_outside,
}
use cutl.Allocators.Stack.{StackAllocator, set_info, info_of, stack_block_info_size, allocate}
use cutl.Allocators.Stack.Blocks.{
  Block, height, Represents, info_size_bounds, block_bounds, Described-frame, set_info_outside,
}

-- The size of the block for a request.
abbrev pub size_for : BuildChoice → ℕ → ℕ
size_for l requested = allocator_block_size l (requested + 2 * stack_block_info_size l)

-- The address that the caller gets for a block that starts at an offset.
abbrev pub user_address : BuildChoice → StackAllocator → ℕ → ℕ
user_address l this offset = this.data_ptr + offset + stack_block_info_size l + guard_size l

-- The guard bytes around what the caller got are untouched.
abbrev pub Guarded : BuildChoice → StackAllocator → ℕ → ℕ → Type 0
Guarded l this offset size =
    allocator_check_guards l this.bytes (this.data_ptr + offset + stack_block_info_size l)
      (size - 2 * stack_block_info_size l)
    ≡ true

abbrev pub used_block : ℕ → Block
used_block size = record { size = size; used = true }

module _ (l : BuildChoice) (sound : IsSound l) where
  sub_info :
      (size : ℕ)
      → size < 2 ^ 63
      → 2 * stack_block_info_size l ≤ size
      → sub64 size (2 * stack_block_info_size l) ≡ size - 2 * stack_block_info_size l
  sub_info size small h = omega arith

  -- The stack with a block on top, and the guards set.
  abbrev stacked : StackAllocator → ℕ → StackAllocator
  stacked this size = record this {
    top = this.top + size;
    infos =
        set_info
          (set_info this.infos (this.data_ptr + this.top + size - stack_block_info_size l)
            (info_of size block_used))
          (this.data_ptr + this.top) (info_of size block_used);
    bytes =
        allocator_set_guards l this.bytes (this.data_ptr + this.top + stack_block_info_size l)
          (size - 2 * stack_block_info_size l);
  }

  stacked-Represents :
      (this : StackAllocator) (bs : List Block) (size : ℕ)
      → Represents l this bs
      → 2 * stack_block_info_size l + guard_total l ≤ size
      → this.top + size ≤ this.size
      → Represents l (stacked this size) (used_block size ∷ bs)
  unfolding set_info
  stacked-Represents this bs size r large fits =
      let i = info_size_bounds l sound in
      let top = r.top in
      let first = this.data_ptr + this.top in
      let last = this.data_ptr + this.top + size - stack_block_info_size l in
      let new = info_of size block_used in
      let infos = set_info (set_info this.infos last new) first new in
      let from : this.data_ptr + height bs ≡ first = omega arith in
      let upto : this.data_ptr + height bs + size - stack_block_info_size l ≡ last = omega arith in
      let placed : infos first ≡ new = rw (eq→== first first refl) refl in
      let ended : infos last ≡ new =
        rw (ne→== last first (omega arith), eq→== last last refl) refl in
      record {
        top = omega arith;
        fits = fits;
        placed = r.placed;
        small = r.small;
        room = r.room;
        blocks = (
          large,
          ap infos from ∙ placed,
          ap infos upto ∙ ended,
          Described-frame l sound this.infos infos this.data_ptr bs
              (λ a u. set_info_outside this.infos last first new new a (omega arith) (omega arith))
              r.blocks,
        );
      }

  -- For a sound build, a stack that stands for a list of blocks and a request of less than 2^62
  -- bytes: either the block does not fit and nothing changes, or there is a block on top of the
  -- others, the caller's bytes and the guards lie inside it, the guards are set, and the bytes below
  -- it are as they were.
  pub allocate-Represents :
      (this : StackAllocator) (bs : List Block) (requested p_memory j : ℕ)
      → Represents l this bs
      → requested < 2 ^ 62
      → j < this.data_ptr + this.top
      → ((this.size < this.top + size_for l requested)
          × (allocate l this requested p_memory ≡ (out_of_memory, this, p_memory)))
        ⊎ ((out : StackAllocator) × (allocate l this requested p_memory
              ≡ (success, out, user_address l this this.top))
            × Represents l out (used_block (size_for l requested) ∷ bs)
            × Guarded l out this.top (size_for l requested)
            × (user_address l this this.top + requested + guard_size l + stack_block_info_size l
                ≤ this.data_ptr + out.top)
            × (out.bytes j ≡ this.bytes j))
  unfolding allocate allocator_user_offset guard_total
  allocate-Represents this bs requested p_memory j r small below =
      let i = info_size_bounds l sound in
      let size = size_for l requested in
      let b = block_bounds l sound requested small in
      let g = guard_size-small l sound in
      let room = r.room in
      let size_small = r.small in
      let fits = r.fits in
      let exact : u64 (requested + 2 * stack_block_info_size l)
          ≡ requested + 2 * stack_block_info_size l =
        omega arith in
      let whole : u64 (this.top + size) ≡ this.top + size = omega arith in
      let inner = sub_info size (omega arith) (omega arith) in
      elim (lt-or-le this.size (this.top + size)) [
        | inl over ↦ inl (over, rw (exact, whole, lt→ltb _ _ over) refl)
        | inr enough ↦ inr (
          stacked this size,
          rw (exact, whole, inner, le→ltb _ _ enough) refl,
          stacked-Represents this bs size r (omega arith) enough,
          allocator_check_guards-set_guards l (this.data_ptr + this.top + stack_block_info_size l)
              (size - 2 * stack_block_info_size l) this.bytes (omega arith),
          omega arith,
          set_guards_outside l (this.data_ptr + this.top + stack_block_info_size l)
              (size - 2 * stack_block_info_size l) this.bytes j (omega arith) (inl (omega arith)),
        )
      ]

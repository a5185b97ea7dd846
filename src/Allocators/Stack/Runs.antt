-- ===== src/Allocators/Stack/Runs.antt =====
-- Runs of the stack allocator: calls in any order, with the callers writing in between.
use cutl.Base.{
  ℕ, ◌+◌, ◌^◌, ◌≤◌, ◌<◌, ◌≡◌, inl, inr, refl, sym, ◌∙◌, arith, true, List, [], ◌∷◌, ◌++◌, Option,
  none, some, subst, sub64, lt-or-le, lt→ltb, le→ltb,
}
use cutl.Errors.{Result, success}
use cutl.Allocators.{BuildChoice, Bytes, store, guard_size}
use cutl.Allocators.Layout.{IsSound}
use cutl.Allocators.Stack.{
  StackBlockInfo, StackAllocator, stack_block_info_size, allocate, deallocate, reset, restore_top,
}
use cutl.Allocators.Stack.Resize.{create}
use cutl.Allocators.Stack.Blocks.{Block, height, release, height-append, Described, Represents}
use cutl.Allocators.Stack.Allocate.{
  user_address, Guarded, allocate-Represents, size_for, used_block,
}
use cutl.Allocators.Stack.Release.{deallocate-Represents}
use cutl.Allocators.Stack.Deallocate.{}

-- The calls of a sound program: sizes far below the address space, blocks given back only while they
-- are in use, the top restored to one between two blocks, and writes into the memory of a block that
-- is in use. `reallocate` is not among them.
pub data Step (l : BuildChoice) (this : StackAllocator) : StackAllocator → Type 0 where
  allocates :
      (requested p_memory : ℕ) {q : ℕ} {res : Result} {out : StackAllocator}
      → requested < 2 ^ 62
      → allocate l this requested p_memory ≡ (res, out, q)
      → Step l this out
  deallocates :
      (above : List Block) (b : Block) (below : List Block) {res : Result} {out : StackAllocator}
      → Represents l this (above ++ b ∷ below)
      → b.used ≡ true
      → Guarded l this (height below) b.size
      → deallocate l this (user_address l this (height below)) ≡ some (res, out)
      → Step l this out
  writes :
      (above : List Block) (b : Block) (below : List Block) (address value : ℕ)
      → Represents l this (above ++ b ∷ below)
      → b.used ≡ true
      → user_address l this (height below) ≤ address
      → address + guard_size l + stack_block_info_size l < this.data_ptr + height below + b.size
      → Step l this (record this { bytes = store this.bytes address value })
  restores :
      (above below : List Block)
      → Represents l this (above ++ below)
      → Step l this (restore_top this (height below))
  resets : Step l this (reset this)

pub data Reach (l : BuildChoice) (start : StackAllocator) : StackAllocator → Type 0 where
  here : Reach l start start
  next : {this out : StackAllocator} → Reach l start this → Step l this out → Reach l start out

-- The allocator stands for some stack of blocks.
abbrev pub IsStack : BuildChoice → StackAllocator → Type 0
IsStack l this = (bs : List Block) × Represents l this bs

-- The state in a result.
abbrev state : Result × StackAllocator × ℕ → StackAllocator
state (res, this, p) = this

abbrev state_or : StackAllocator → Option (Result × StackAllocator) → StackAllocator
state_or this (some (res, out)) = out
state_or this none = this

Described-below :
    (l : BuildChoice) (infos : ℕ → StackBlockInfo) (start : ℕ) (above below : List Block)
    → Described l infos start (above ++ below)
    → Described l infos start below
Described-below l infos start [] below d = d
Described-below l infos start (b ∷ above) below d = Described-below l infos start above below d.3

module _ (l : BuildChoice) (sound : IsSound l) where
  allocate-IsStack :
      (this : StackAllocator) (requested p_memory : ℕ)
      → requested < 2 ^ 62
      → IsStack l this
      → IsStack l (state (allocate l this requested p_memory))
  allocate-IsStack this requested p_memory small (bs, r) =
      let placed = r.placed in
      elim (allocate-Represents l sound this bs requested p_memory 0 r small (omega arith)) [
        | inl (_, e) ↦ subst (λ t. IsStack l (state t)) (sym e) (bs, r)
        | inr (out, e, r', _, _, _) ↦
            subst (λ t. IsStack l (state t)) (sym e) (used_block (size_for l requested) ∷ bs, r')
      ]

  Step-IsStack : (this out : StackAllocator) → Step l this out → IsStack l this → IsStack l out
  unfolding reset restore_top
  Step-IsStack this out (allocates n p small e) v =
      subst (λ t. IsStack l (state t)) e (allocate-IsStack this n p small v)
  Step-IsStack this out (deallocates above b below r used intact e) v =
      let (after, given, r', _) = deallocate-Represents l sound this above b below r used intact in
      (
        release above b below,
        subst (λ t. Represents l (state_or this t) (release above b below)) (sym given ∙ e) r',
      )
  Step-IsStack this out (writes above b below address value _ used low high) (bs, r) = (
    bs,
    record {
      top = r.top;
      fits = r.fits;
      placed = r.placed;
      small = r.small;
      room = r.room;
      blocks = r.blocks;
    },
  )
  Step-IsStack this out (restores above below r) v =
      let total = height-append above below in
      let top = r.top in
      let fits = r.fits in
      elim (lt-or-le (height below) this.top) [
        | inr le ↦ rw (restore_top, le→ltb (height below) this.top le) (above ++ below, r)
        | inl lt ↦
            rw (restore_top, lt→ltb (height below) this.top lt)
              (
                below,
                record {
                  top = refl;
                  fits = omega arith;
                  placed = r.placed;
                  small = r.small;
                  room = r.room;
                  blocks = Described-below l this.infos this.data_ptr above below r.blocks;
                },
              )
      ]
  Step-IsStack this out resets (bs, r) = (
    [],
    record {
      top = refl;
      fits = omega arith;
      placed = r.placed;
      small = r.small;
      room = r.room;
      blocks = tt;
    },
  )

  Reach-IsStack :
      (start this : StackAllocator) → Reach l start this → IsStack l start → IsStack l this
  Reach-IsStack start this here v = v
  Reach-IsStack start this (next {this = before} r s) v =
      Step-IsStack before this s (Reach-IsStack start before r v)

-- For a sound build and a memory of less than 2^63 bytes with room for the struct, which ends far
-- from the end of the address space: after any sequence of the following that starts at the
-- creation, the infos of the allocator describe a stack of blocks that reaches exactly to its top and
-- fits its size. They are allocations of less than 2^62 bytes, successful or not; giving back the
-- memory of a block that is in use and whose guards are intact; restoring the top to a height between
-- two blocks; a reset; and the caller's writes into the memory of a block that is in use.
pub Reach-create :
    (l : BuildChoice) (header size memory : ℕ) (infos : ℕ → StackBlockInfo) (bytes : Bytes)
    {start this : StackAllocator}
    → IsSound l
    → header ≤ size
    → 0 < header
    → size < 2 ^ 63
    → memory + size + 2 ^ 32 < 2 ^ 64
    → create l header size memory infos bytes ≡ (success, some start)
    → Reach l start this
    → IsStack l this
unfolding create
Reach-create l header size memory infos bytes {start} {this} sound fits some_header small room e r =
    let fresh : StackAllocator = record {
      top = 0;
      size = sub64 size header;
      data_ptr = memory + header;
      infos = infos;
      bytes = bytes;
    } in
    let same : start ≡ fresh = ground arith in
    let first : IsStack l fresh = (
      [],
      record {
        top = refl;
        fits = omega arith;
        placed = omega arith;
        small = omega arith;
        room = omega arith;
        blocks = tt;
      },
    ) in
    Reach-IsStack l sound start this r (subst (IsStack l) (sym same) first)

-- ===== src/Allocators/Blocks/Release.antt =====
-- Deallocation: which block an address belongs to, and what giving it back changes.
use native.Mathlib.Nat.{div-add-mod, mul-mod_left, mul-div_cancel, mul-le-mul_right}
use cutl.Base.{
  ℕ, ◌+◌, ◌-◌, ◌*◌, ◌/◌, ◌%◌, ◌^◌, ◌≤◌, ◌<◌, ◌≡◌, ◌≢◌, ◌⊎◌, inl, inr, refl, ◌∙◌, arith, Bool, true,
  false, some, ◌==◌, lt_of_mul_lt, none, if◌then◌else◌, lt→ltb, le→ltb, lt→leb, le→leb, eq→==,
  ne→==, eq-or-ne, lt-or-le, Bool-cases,
}
use cutl.Errors.{success, mismatched_allocator, corrupted_pointer}
use cutl.Allocators.{BuildChoice, guard_total, allocator_user_offset, allocator_check_guards}
use cutl.Allocators.Layout.{}
use cutl.Allocators.Blocks.{
  BlockAllocator, no_offset, counter_bytes, block_offset, address_to_offset, give_block, deallocate,
}
use cutl.Allocators.Blocks.State.{
  used, IsPool, get_state_used, changed, changed-small, changed_outside, set_state_changed,
  used-changed, block_inside,
}
use cutl.Allocators.Blocks.Allocate.{}

-- The end of the blocks.
abbrev pub region_end : BuildChoice → BlockAllocator → ℕ
region_end l this = this.memory_ptr + counter_bytes l this + this.block_count * this.block_size

abbrev pub user_address : BuildChoice → BlockAllocator → ℕ → ℕ
user_address l this idx = this.memory_ptr + block_offset l this idx + allocator_user_offset l

abbrev pub guards_intact : BuildChoice → BlockAllocator → ℕ → Bool
guards_intact l this idx =
    allocator_check_guards l this.bytes (this.memory_ptr + block_offset l this idx) this.block_size

module _ (l : BuildChoice) (this : BlockAllocator) (pool : IsPool l this) where
  offset_of_user :
      (idx : ℕ)
      → idx < this.block_count
      → address_to_offset l this (user_address l this idx)
        ≡ idx * this.block_size + allocator_user_offset l
  unfolding address_to_offset allocator_user_offset block_offset guard_total
  offset_of_user idx below =
      let b = block_inside l pool.sound this idx below in
      let room = pool.room in
      let some_size = pool.some_size in
      let address : ℕ = user_address l this idx in
      let low : this.memory_ptr + counter_bytes l this ≤ address = omega arith in
      let high : address < region_end l this = omega arith in
      rw
        (
          le→ltb address (this.memory_ptr + counter_bytes l this) low,
          lt→leb (region_end l this) address high,
        )
        (omega arith)

  give_block_used :
      (idx : ℕ)
      → idx < this.block_count
      → used this idx ≡ true
      → give_block l this idx
        ≡ some (
            if guards_intact l this idx
            then (success, changed this idx false)
            else (corrupted_pointer, this))
  unfolding give_block
  give_block_used idx below was = elim (Bool-cases (guards_intact l this idx)) [
    | inl intact ↦
        rw
          (
            give_block,
            get_state_used this idx below,
            was,
            intact,
            set_state_changed this idx false below was,
          )
          refl
    | inr broken ↦ rw (give_block, get_state_used this idx below, was, broken) refl
  ]

  give_block_free :
      (idx : ℕ) → idx < this.block_count → used this idx ≡ false → give_block l this idx ≡ none
  unfolding give_block
  give_block_free idx below was = rw (give_block, get_state_used this idx below, was) refl

  user_room : allocator_user_offset l < this.block_size
  unfolding allocator_user_offset guard_total
  user_room = let room = pool.room in let some_size = pool.some_size in omega arith

  block_end :
      (idx : ℕ)
      → idx < this.block_count
      → idx * this.block_size + this.block_size ≤ this.block_count * this.block_size
  block_end idx below =
      let grown : (idx + 1) * this.block_size ≤ this.block_count * this.block_size =
        mul-le-mul_right this.block_size (omega arith) in
      omega arith

  -- The address of a block's memory leads to that block.
  deallocate-give_block :
      (idx : ℕ)
      → idx < this.block_count
      → region_end l this < 2 ^ 64
      → deallocate l this (user_address l this idx) ≡ give_block l this idx
  unfolding deallocate
  deallocate-give_block idx below fits =
      let b = block_inside l pool.sound this idx below in
      let some_size = pool.some_size in
      let size : ℕ = this.block_size in
      let g : ℕ = allocator_user_offset l in
      let room = user_room in
      let offset : ℕ = idx * size + g in
      let inside : idx * size + size ≤ this.block_count * size = block_end idx below in
      let inner : offset - g ≡ idx * size = omega arith in
      rw
        (
          offset_of_user idx below,
          ne→== offset no_offset (omega arith),
          le→ltb offset g (omega arith),
          inner,
          eq→== (idx * size % size) 0 (mul-mod_left idx size),
          mul-div_cancel idx {n = size} some_size,
        )
        refl

  changed-IsPool : (idx : ℕ) → used this idx ≡ true → IsPool l (changed this idx false)
  changed-IsPool idx was = record {
    sound = pool.sound;
    room = pool.room;
    some_size = pool.some_size;
    small_count = pool.small_count;
    small_bytes = λ a. changed-small this idx false a pool.small_bytes was;
  }

  -- Giving back the memory of a block that is in use, in a pool that ends before the address space
  -- does. With intact guards the call succeeds, that block and no other is free afterwards, the pool
  -- is as well formed and as large as before and in its place, and no byte but the one that holds
  -- the block's bit changes. Without intact guards the pointer is reported as corrupted, and the pool
  -- is the same as before.
  pub deallocate-block :
      (idx j a : ℕ)
      → idx < this.block_count
      → used this idx ≡ true
      → region_end l this < 2 ^ 64
      → ((out : BlockAllocator) × (guards_intact l this idx ≡ true)
          × (deallocate l this (user_address l this idx) ≡ some (success, out))
          × (used out j ≡ (if j == idx then false else used this j))
          × IsPool l out
          × (out.block_size ≡ this.block_size)
          × (out.block_count ≡ this.block_count)
          × (out.memory_ptr ≡ this.memory_ptr)
          × ((a ≡ this.memory_ptr + idx / 8) ⊎ (out.bytes a ≡ this.bytes a)))
        ⊎ ((guards_intact l this idx ≡ false)
            × (deallocate l this (user_address l this idx) ≡ some (corrupted_pointer, this)))
  deallocate-block idx j a below was fits =
      let freed = deallocate-give_block idx below fits ∙ give_block_used idx below was in
      elim (Bool-cases (guards_intact l this idx)) [
        | inl intact ↦ inl (
          changed this idx false,
          intact,
          freed ∙ rw intact refl,
          used-changed this idx false j pool.small_bytes was,
          changed-IsPool idx was,
          refl,
          refl,
          refl,
          elim (eq-or-ne a (this.memory_ptr + idx / 8)) [
            | inl same ↦ inl same
            | inr other ↦ inr (changed_outside this idx false a other)
          ],
        )
        | inr broken ↦ inr (broken, freed ∙ rw broken refl)
      ]

  block_of :
      (memory : ℕ)
      → this.memory_ptr + counter_bytes l this ≤ memory
      → memory < region_end l this
      → allocator_user_offset l ≤ memory - (this.memory_ptr + counter_bytes l this)
      → (memory - (this.memory_ptr + counter_bytes l this) - allocator_user_offset l)
          % this.block_size
        ≡ 0
      → region_end l this < 2 ^ 64
      → (idx : ℕ) × (idx < this.block_count)
        × (memory ≡ user_address l this idx)
        × ((used this idx ≡ true) ⊎ ((used this idx ≡ false) × (deallocate l this memory ≡ none)))
  unfolding block_offset
  block_of memory low high room whole fits =
      let size : ℕ = this.block_size in
      let inner : ℕ = memory - (this.memory_ptr + counter_bytes l this) - allocator_user_offset l in
      let idx : ℕ = inner / size in
      let split : inner ≡ idx * size = omega (arith, div-add-mod inner size) in
      let below : idx < this.block_count = lt_of_mul_lt idx this.block_count size (omega arith) in
      let same : memory ≡ user_address l this idx = omega arith in
      (
        idx,
        below,
        same,
        elim (Bool-cases (used this idx)) [
          | inl set ↦ inl set
          | inr clear ↦ inr (
            clear,
            rw same (deallocate-give_block idx below fits ∙ give_block_free idx below clear),
          )
        ],
      )

  -- In a pool that ends before the address space does, an address is exactly one of these: outside
  -- the blocks or in front of the memory of the first one, which is reported as a mismatched
  -- allocator; inside but not the start of any block's memory, which is reported as a corrupted
  -- pointer; the start of a used block's memory; or the start of a free block's memory, where the
  -- assertion fails. The errors change nothing.
  pub deallocate_refused :
      (memory : ℕ)
      → region_end l this < 2 ^ 64
      → (((memory < this.memory_ptr + counter_bytes l this + allocator_user_offset l)
            ⊎ (region_end l this ≤ memory))
          × (deallocate l this memory ≡ some (mismatched_allocator, this)))
        ⊎ ((this.memory_ptr + counter_bytes l this + allocator_user_offset l ≤ memory)
            × (memory < region_end l this)
            × ((memory - (this.memory_ptr + counter_bytes l this) - allocator_user_offset l)
                  % this.block_size
                ≢ 0)
            × (deallocate l this memory ≡ some (corrupted_pointer, this)))
        ⊎ ((idx : ℕ) × (idx < this.block_count)
            × (memory ≡ user_address l this idx)
            × ((used this idx ≡ true)
                ⊎ ((used this idx ≡ false) × (deallocate l this memory ≡ none))))
  unfolding deallocate address_to_offset
  deallocate_refused memory fits =
      let start : ℕ = this.memory_ptr + counter_bytes l this in
      let g : ℕ = allocator_user_offset l in
      let size : ℕ = this.block_size in
      let inner : ℕ = memory - start - g in
      elim (lt-or-le memory start) [
        | inl lt ↦ inl (inl (omega arith), rw (lt→ltb memory start lt) refl)
        | inr le ↦ elim (lt-or-le memory (region_end l this)) [
          | inr past ↦
              inl
                (inr past, rw (le→ltb memory start le, le→leb (region_end l this) memory past) refl)
          | inl before ↦
              let found : address_to_offset l this memory ≡ memory - start =
                rw (le→ltb memory start le, lt→leb (region_end l this) memory before) refl in
              let real : ((memory - start) == no_offset) ≡ false =
                ne→== (memory - start) no_offset (omega arith) in
              elim (lt-or-le (memory - start) g) [
                | inl lt ↦
                    inl (inl (omega arith), rw (found, real, lt→ltb (memory - start) g lt) refl)
                | inr ge ↦ elim (eq-or-ne (inner % size) 0) [
                  | inr ne ↦ inr (
                      inl (
                        omega arith,
                        before,
                        ne,
                        rw (found, real, le→ltb (memory - start) g ge, ne→== (inner % size) 0 ne)
                            refl,
                      ))
                  | inl e ↦ inr (inr (block_of memory le before ge e fits))
                ]
              ]
        ]
      ]

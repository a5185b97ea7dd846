-- ===== src/Allocators/Blocks/Allocate.antt =====
-- Allocation takes the lowest block that is free.
use cutl.Base.{
  ℕ, zero, suc, ◌+◌, ◌/◌, ◌%◌, ◌^◌, ◌≤◌, ◌<◌, ◌≡◌, ◌⊎◌, inl, inr, refl, ◌∙◌, ap, arith, true, false,
  some, leb, u32, Option, ◌||◌, ◌==◌, if◌then◌else◌, le→leb, lt→leb, eq→==, ne→==, lt-or-le,
}
use cutl.Errors.{Result, success, out_of_memory}
use cutl.Allocators.{
  guard_pattern, store, fill, BuildChoice, Bytes, allocator_user_offset, allocator_set_guards,
  allocator_check_guards,
}
use cutl.Allocators.Layout.{allocator_check_guards-set_guards, set_guards_outside}
use cutl.Allocators.Blocks.{
  BlockAllocator, test_bit, find_free, counter_bytes, block_offset, take_block, allocate,
}
use cutl.Allocators.Blocks.Search.{
  Full, Stopped, find_free_lem, Full-used, first_zero_free, first_zero_first,
}
use cutl.Allocators.Blocks.State.{
  store-small, used, IsPool, get_state_used, changed, set_state_changed, used-changed,
  changed-small, changed_outside, counter_before,
}

pub fill-small :
    (n : ℕ) (bytes : Bytes) (a v j : ℕ)
    → v < 2 ^ 8
    → ((k : ℕ) → bytes k < 2 ^ 8)
    → fill n bytes a v j < 2 ^ 8
unfolding fill
fill-small zero bytes a v j h small = small j
fill-small (suc n) bytes a v j h small =
    fill-small n (store bytes a v) (a + 1) v j h (λ k. store-small bytes a v k h (small k))

-- The allocator with the block `idx` taken.
abbrev pub taken_out : BuildChoice → BlockAllocator → ℕ → BlockAllocator
taken_out l this idx =
    let next = changed this idx true in
    record next {
      bytes =
          allocator_set_guards l next.bytes (this.memory_ptr + block_offset l this idx)
            this.block_size;
    }

module _ (l : BuildChoice) (this : BlockAllocator) (pool : IsPool l this) (idx : ℕ) where
  take_block_taken :
      idx < this.block_count
      → used this idx ≡ false
      → take_block l this idx
        ≡ some (
          success,
          taken_out l this idx,
          this.memory_ptr + block_offset l this idx + allocator_user_offset l,
        )
  unfolding take_block
  take_block_taken below was =
      rw (take_block, get_state_used this idx below, was, set_state_changed this idx true below was)
        refl

  pub taken_out-IsPool : used this idx ≡ false → IsPool l (taken_out l this idx)
  unfolding allocator_set_guards
  taken_out-IsPool was = record {
    sound = pool.sound;
    room = pool.room;
    some_size = pool.some_size;
    small_count = pool.small_count;
    small_bytes = λ a. fill-small _ _ _ guard_pattern a (omega arith) (λ k.
        fill-small _ _ _ guard_pattern k (omega arith)
          (λ b. changed-small this idx true b pool.small_bytes was));
  }

  -- Only the bytes of the block and the counters are written.
  taken_out_outside :
      (a : ℕ)
      → idx < this.block_count
      → this.memory_ptr + counter_bytes l this ≤ a
      → ((this.memory_ptr + block_offset l this idx ≤ a)
          × (a < this.memory_ptr + block_offset l this idx + this.block_size))
        ⊎ ((taken_out l this idx).bytes a ≡ this.bytes a)
  taken_out_outside a below from =
      let block : ℕ = this.memory_ptr + block_offset l this idx in
      let inside = counter_before l pool.sound this idx below in
      let kept : (a < block) ⊎ (block + this.block_size ≤ a)
          → (taken_out l this idx).bytes a ≡ this.bytes a =
        λ h.
          set_guards_outside l block this.block_size (changed this idx true).bytes a pool.room h
          ∙ changed_outside this idx true a (omega arith) in
      elim (lt-or-le a block) [
        | inl lt ↦ inr (kept (inl lt))
        | inr le ↦ elim (lt-or-le a (block + this.block_size)) [
          | inl lt ↦ inl (le, lt)
          | inr ge ↦ inr (kept (inr ge))
        ]
      ]

  pub taken_out-used :
      (j : ℕ)
      → j < this.block_count
      → used this idx ≡ false
      → used (taken_out l this idx) j ≡ (if j == idx then true else used this j)
  unfolding block_offset
  taken_out-used j below was =
      let before = counter_before l pool.sound this j below in
      let same =
        set_guards_outside l (this.memory_ptr + block_offset l this idx) this.block_size
          (changed this idx true).bytes (this.memory_ptr + j / 8) pool.room (inl (omega arith)) in
      ap (λ (byte : ℕ). test_bit byte (j % 8)) same
      ∙ used-changed this idx true j pool.small_bytes was

-- Which block an allocation takes: the lowest free one, or none when all are in use.
abbrev pub Taken :
    BuildChoice → BlockAllocator → ℕ → ℕ → Option (Result × BlockAllocator × ℕ) → Type 0
Taken l this p_memory j result =
    ((idx : ℕ) × (idx < this.block_count)
      × (used this idx ≡ false)
      × ((idx ≤ j) ⊎ (used this j ≡ true))
      × (result
          ≡ some (
            success,
            taken_out l this idx,
            this.memory_ptr + block_offset l this idx + allocator_user_offset l,
          )))
    ⊎ ((result ≡ some (out_of_memory, this, p_memory))
        × ((this.block_count ≤ j) ⊎ (used this j ≡ true)))

module _ (l : BuildChoice) (this : BlockAllocator) (p_memory j : ℕ) (pool : IsPool l this) where
  Stopped-Taken :
      (r : ℕ × ℕ)
      → Stopped this ((this.block_count + 7) / 8) 0 r
      → Taken l this p_memory j (
          if r.0 == (this.block_count + 7) / 8 || leb this.block_count r.1
          then some (out_of_memory, this, p_memory)
          else take_block l this r.1)
  Stopped-Taken r (inl (all, full)) =
      let whole : Full this 0 ((this.block_count + 7) / 8) =
        λ b low high. full b low (omega arith) in
      rw (eq→== r.0 ((this.block_count + 7) / 8) (omega arith)) (
        inr (
          refl,
          elim (lt-or-le j this.block_count) [
            | inl lt ↦ inr (Full-used this ((this.block_count + 7) / 8) j whole (omega arith))
            | inr le ↦ inl le
          ],
        ))
  Stopped-Taken r (inr (low, high, ne, idx, full)) =
      let small = pool.small_bytes in
      let first : (r.1 ≤ j) ⊎ (used this j ≡ true) =
        rw idx (first_zero_first this small r.0 j ne full) in
      let was : used this r.1 ≡ false = rw idx (first_zero_free this small r.0 ne) in
      let more : (r.0 == (this.block_count + 7) / 8) ≡ false =
        ne→== r.0 ((this.block_count + 7) / 8) (omega arith) in
      elim (lt-or-le r.1 this.block_count) [
        | inl lt ↦
            rw (more, lt→leb this.block_count r.1 lt)
              (inl (r.1, lt, was, first, take_block_taken l this pool r.1 lt was))
        | inr le ↦
            rw (more, le→leb this.block_count r.1 le)
              (inr (refl, elim first [ inl before ↦ inl (omega arith) | inr set ↦ inr set ]))
      ]

  pub allocate-Taken : Taken l this p_memory j (allocate l this p_memory)
  unfolding allocate
  allocate-Taken =
      let small = pool.small_count in
      let whole : u32 (this.block_count + 7) ≡ this.block_count + 7 = omega arith in
      rw whole
        (Stopped-Taken (find_free ((this.block_count + 7) / 8) this 0) (find_free_lem _ this 0))

  -- In a pool, an allocation either returns the user address of the lowest block that is free, marks
  -- that block and no other as used, sets its guards, and keeps every byte past the counters that is
  -- outside that block; or it reports that the memory is used up, when every block is in use, and
  -- changes nothing.
  pub allocate-lowest :
      (a : ℕ)
      → ((idx : ℕ) × (out : BlockAllocator) × (idx < this.block_count)
          × (used this idx ≡ false)
          × ((idx ≤ j) ⊎ (used this j ≡ true))
          × (allocate l this p_memory
              ≡ some (
                success,
                out,
                this.memory_ptr + block_offset l this idx + allocator_user_offset l,
              ))
          × IsPool l out
          × (allocator_check_guards l out.bytes
                (this.memory_ptr + block_offset l this idx)
                this.block_size
              ≡ true)
          × ((this.block_count ≤ j) ⊎ (used out j ≡ (if j == idx then true else used this j)))
          × ((a < this.memory_ptr + counter_bytes l this)
              ⊎ ((this.memory_ptr + block_offset l this idx ≤ a)
                  × (a < this.memory_ptr + block_offset l this idx + this.block_size))
              ⊎ (out.bytes a ≡ this.bytes a)))
        ⊎ ((allocate l this p_memory ≡ some (out_of_memory, this, p_memory))
            × ((this.block_count ≤ j) ⊎ (used this j ≡ true)))
  allocate-lowest a = elim allocate-Taken [
    | inl (idx, below, was, first, e) ↦ inl (
      idx,
      taken_out l this idx,
      below,
      was,
      first,
      e,
      taken_out-IsPool l this pool idx was,
      allocator_check_guards-set_guards l (this.memory_ptr + block_offset l this idx)
          this.block_size (changed this idx true).bytes pool.room,
      elim (lt-or-le j this.block_count) [
        | inl lt ↦ inr (taken_out-used l this pool idx j lt was)
        | inr le ↦ inl le
      ],
      elim (lt-or-le a (this.memory_ptr + counter_bytes l this)) [
        | inl lt ↦ inl lt
        | inr le ↦ inr (taken_out_outside l this pool idx a below le)
      ],
    )
    | inr nothing ↦ inr nothing
  ]

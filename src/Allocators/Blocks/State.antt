-- ===== src/Allocators/Blocks/State.antt =====
-- The bits of the counters as the states of the blocks, and where blocks and counters lie.
use native.Mathlib.Nat.{div-add-mod, mod-lt, mul-le-mul_right}
use cutl.Base.{
  ℕ, ◌+◌, ◌-◌, ◌*◌, ◌/◌, ◌%◌, ◌^◌, ◌≤◌, ◌<◌, ◌≡◌, ◌≢◌, inl, inr, refl, ap, arith, Bool, true, false,
  not, some, if◌then◌else◌, ◌==◌, lt→ltb, eq→==, ne→==, eq-or-ne,
}
use cutl.Allocators.{BuildChoice, Bytes, store, guard_total}
use cutl.Allocators.Layout.{IsSound}
use cutl.Allocators.Blocks.{
  BlockAllocator, test_bit, block_get_state, block_set_state, blocks_per_counter_unit,
  counter_bytes, block_offset,
}
use cutl.Allocators.Blocks.Bits.{add_bit, take_bit}

-- Whether the counters say that a block is in use.
abbrev pub used : BlockAllocator → ℕ → Bool
used this j = test_bit (this.bytes (this.memory_ptr + j / 8)) (j % 8)

-- A build and an allocator that `create` could have made, of bytes.
pub record IsPool (l : BuildChoice) (this : BlockAllocator) : Type 0 where
  pub sound : IsSound l
  pub room : guard_total l ≤ this.block_size
  pub some_size : 0 < this.block_size
  pub small_count : this.block_count + 7 < 2 ^ 32
  pub small_bytes : (a : ℕ) → this.bytes a < 2 ^ 8

pub get_state_used :
    (this : BlockAllocator) (idx : ℕ)
    → idx < this.block_count
    → block_get_state this idx ≡ some (used this idx)
unfolding block_get_state
get_state_used this idx below = rw (lt→ltb _ _ below) refl

-- The counter byte that holds the bit of `j`, after the bit of `idx` changed.
bit_after :
    (bytes : Bytes) (ptr idx j value : ℕ) (state : Bool)
    → ((k : ℕ)
        → k < 8
        → test_bit value k ≡ (if k == idx % 8 then state else test_bit (bytes (ptr + idx / 8)) k))
    → test_bit (store bytes (ptr + idx / 8) value (ptr + j / 8)) (j % 8)
      ≡ (if j == idx then state else test_bit (bytes (ptr + j / 8)) (j % 8))
unfolding store
bit_after bytes ptr idx j value state h = elim (eq-or-ne (j / 8) (idx / 8)) [
  | inl e ↦
      rw (eq→== (ptr + j / 8) (ptr + idx / 8) (omega arith), h (j % 8) (omega arith), e)
        (ap (λ (b : Bool). if b then state else test_bit (bytes (ptr + idx / 8)) (j % 8))
          (same_bit e))
  | inr ne ↦ rw (ne→== (ptr + j / 8) (ptr + idx / 8) (omega arith), ne→== j idx (omega arith)) refl
]
  where
    same_bit : j / 8 ≡ idx / 8 → (j % 8 == idx % 8) ≡ (j == idx)
    same_bit e = elim (eq-or-ne j idx) [
      | inl same ↦ rw (eq→== (j % 8) (idx % 8) (omega arith), eq→== j idx same) refl
      | inr other ↦ rw (ne→== (j % 8) (idx % 8) (omega arith), ne→== j idx other) refl
    ]

pub store-small :
    (bytes : Bytes) (a v j : ℕ) → v < 2 ^ 8 → bytes j < 2 ^ 8 → store bytes a v j < 2 ^ 8
unfolding store
store-small bytes a v j h k = ground arith

store_other : (bytes : Bytes) (a v j : ℕ) → j ≢ a → store bytes a v j ≡ bytes j
unfolding store
store_other bytes a v j ne = rw (ne→== j a ne) refl

-- The value that `block_set_state` writes.
abbrev pub new_byte : BlockAllocator → ℕ → Bool → ℕ
new_byte this idx state =
    let byte = this.bytes (this.memory_ptr + idx / 8) in
    if state then byte + 2 ^ (idx % 8) else (byte - 2 ^ (idx % 8))

abbrev pub changed : BlockAllocator → ℕ → Bool → BlockAllocator
changed this idx state = record this {
  bytes = store this.bytes (this.memory_ptr + idx / 8) (new_byte this idx state);
}

pub set_state_changed :
    (this : BlockAllocator) (idx : ℕ) (state : Bool)
    → idx < this.block_count
    → used this idx ≡ not state
    → block_set_state this idx state ≡ some (changed this idx state)
unfolding block_set_state
set_state_changed this idx true below was = rw (lt→ltb _ _ below, was) refl
set_state_changed this idx false below was = rw (lt→ltb _ _ below, was) refl

new_byte_bits :
    (this : BlockAllocator) (idx : ℕ) (state : Bool) (k : ℕ)
    → ((a : ℕ) → this.bytes a < 2 ^ 8)
    → used this idx ≡ not state
    → k < 8
    → (new_byte this idx state < 2 ^ 8)
      × (test_bit (new_byte this idx state) k
          ≡ (if k == idx % 8 then state else test_bit (this.bytes (this.memory_ptr + idx / 8)) k))
new_byte_bits this idx true k small was d = add_bit _ (idx % 8) k (small _) (omega arith) d was
new_byte_bits this idx false k small was d = take_bit _ (idx % 8) k (small _) (omega arith) d was

pub used-changed :
    (this : BlockAllocator) (idx : ℕ) (state : Bool) (j : ℕ)
    → ((a : ℕ) → this.bytes a < 2 ^ 8)
    → used this idx ≡ not state
    → used (changed this idx state) j ≡ (if j == idx then state else used this j)
used-changed this idx state j small was =
    bit_after this.bytes this.memory_ptr idx j (new_byte this idx state) state
      (λ k d. (new_byte_bits this idx state k small was d).1)

pub changed-small :
    (this : BlockAllocator) (idx : ℕ) (state : Bool) (a : ℕ)
    → ((a : ℕ) → this.bytes a < 2 ^ 8)
    → used this idx ≡ not state
    → (changed this idx state).bytes a < 2 ^ 8
changed-small this idx state a small was =
    store-small this.bytes _ _ a (new_byte_bits this idx state 0 small was (omega arith)).0
      (small a)

pub changed_outside :
    (this : BlockAllocator) (idx : ℕ) (state : Bool) (a : ℕ)
    → a ≢ this.memory_ptr + idx / 8
    → (changed this idx state).bytes a ≡ this.bytes a
changed_outside this idx state a ne = store_other this.bytes _ _ a ne

module _ (l : BuildChoice) (sound : IsSound l) where
  -- There is a bit for every block.
  pub counter_bytes_enough : (this : BlockAllocator) → this.block_count ≤ 8 * counter_bytes l this
  unfolding counter_bytes blocks_per_counter_unit
  counter_bytes_enough this =
      let unit = l.alignment * 8 in
      let x = this.block_count + unit - 1 in
      let split = div-add-mod x unit in
      let low = mod-lt x {m = unit} (omega (arith, sound.some_alignment)) in
      let q = x / unit in
      let same : unit * q ≡ 8 * (q * l.alignment) = grind arith in
      omega (arith, sound.some_alignment)

  -- The counter byte of a block is in front of the blocks.
  pub counter_before :
      (this : BlockAllocator) (idx : ℕ) → idx < this.block_count → idx / 8 < counter_bytes l this
  counter_before this idx below = let enough = counter_bytes_enough this in omega arith

  -- A block is inside the region of the blocks.
  pub block_inside :
      (this : BlockAllocator) (idx : ℕ)
      → idx < this.block_count
      → block_offset l this idx + this.block_size
        ≤ counter_bytes l this + this.block_count * this.block_size
  unfolding block_offset
  block_inside this idx below =
      let grown : (idx + 1) * this.block_size ≤ this.block_count * this.block_size =
        mul-le-mul_right this.block_size (omega arith) in
      omega arith

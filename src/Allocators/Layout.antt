-- ===== src/Allocators/Layout.antt =====
-- What rounding does to sizes, and the guards that one call sets and the other checks.
use native.Mathlib.Nat.{div-add-mod, mod-lt, mod-le, mul-mod_right}
use cutl.Base.{
  ℕ, zero, suc, ◌+◌, ◌-◌, ◌*◌, ◌/◌, ◌%◌, ◌^◌, ◌≤◌, ◌<◌, ◌≡◌, ◌≢◌, ◌⊎◌, inl, inr, refl, ◌∙◌, arith,
  true, u64, eq→==, ne→==, eq-or-ne,
}
use cutl.Allocators.{
  BuildChoice, Bytes, guard_pattern, store, fill, allocator_round_down, allocator_round_up,
  guard_size, guard_total, allocator_block_size, allocator_set_guards, check_loop,
  allocator_check_guards,
}

-- An alignment of at least one byte, and choices far below the size of the address space.
pub record IsSound (l : BuildChoice) : Type 0 where
  pub some_alignment : 0 < l.alignment
  pub small_alignment : l.alignment < 2 ^ 30
  pub small_guards : l.guard_bytes < 2 ^ 30

sub_mod-mod : (x a : ℕ) → (x - x % a) % a ≡ 0
sub_mod-mod x a =
    let e : x - x % a ≡ a * (x / a) = omega (arith, div-add-mod x a) in
    rw e (mul-mod_right a (x / a))

module _ (l : BuildChoice) (sound : IsSound l) where
  pub round_down_bounds :
      (x : ℕ) → (allocator_round_down l x ≤ x) × (x < allocator_round_down l x + l.alignment)
  unfolding allocator_round_down
  round_down_bounds x =
      omega (arith, mod-le x l.alignment, mod-lt x {m = l.alignment} sound.some_alignment)

  pub round_down-mod : (x : ℕ) → allocator_round_down l x % l.alignment ≡ 0
  unfolding allocator_round_down
  round_down-mod x = sub_mod-mod x l.alignment

  pub guard_size-small : guard_size l < 2 ^ 31
  unfolding guard_size
  guard_size-small =
      let b = round_down_bounds (l.guard_bytes + (l.alignment - 1)) in
      omega (arith, sound.small_alignment, sound.small_guards)

  -- A size that is far from the end of `size_t` is rounded up to a multiple of the alignment, by less
  -- than one alignment.
  pub round_up_bounds :
      (x : ℕ)
      → x + l.alignment ≤ 2 ^ 64
      → (x ≤ allocator_round_up l x)
        × (allocator_round_up l x < x + l.alignment)
        × (allocator_round_up l x % l.alignment ≡ 0)
  unfolding allocator_round_up
  round_up_bounds x small =
      let whole : u64 (x + (l.alignment - 1)) ≡ x + (l.alignment - 1) =
        omega (arith, sound.some_alignment) in
      let b = round_down_bounds (x + (l.alignment - 1)) in
      rw whole (
        omega (arith, sound.some_alignment),
        omega (arith, sound.some_alignment),
        round_down-mod (x + (l.alignment - 1)),
      )

  -- So is the size of a block, which has the guards on top.
  pub block_size_bounds :
      (x : ℕ)
      → x < 2 ^ 63
      → (allocator_block_size l x ≡ allocator_round_up l x + guard_total l)
        × (x + guard_total l ≤ allocator_block_size l x)
        × (allocator_block_size l x < x + 2 ^ 33)
  unfolding allocator_block_size guard_total
  block_size_bounds x small =
      let b = round_up_bounds x (omega (arith, sound.small_alignment)) in
      let g = guard_size-small in omega (arith, sound.small_alignment)

pub fill_outside :
    (n : ℕ) (bytes : Bytes) (a v j : ℕ) → (j < a) ⊎ (a + n ≤ j) → fill n bytes a v j ≡ bytes j
unfolding fill store
fill_outside zero bytes a v j h = refl
fill_outside (suc n) bytes a v j h =
    let other : j ≢ a = elim h [ inl below ↦ omega arith | inr above ↦ omega arith ] in
    fill_outside n (store bytes a v) (a + 1) v j
      (elim h [ inl below ↦ inl (omega arith) | inr above ↦ inr (omega arith) ])
    ∙ rw (ne→== j a other) refl

pub fill_inside : (n : ℕ) (bytes : Bytes) (a v j : ℕ) → a ≤ j → j < a + n → fill n bytes a v j ≡ v
unfolding fill store
fill_inside zero bytes a v j l u = absurd (omega arith)
fill_inside (suc n) bytes a v j l u = elim (eq-or-ne j a) [
  | inl e ↦ fill_outside n (store bytes a v) (a + 1) v j (inl (omega arith)) ∙ rw (eq→== j a e) refl
  | inr ne ↦ fill_inside n (store bytes a v) (a + 1) v j (omega arith) (omega arith)
]

module _ (l : BuildChoice) (block total : ℕ) where
  check_loop-true :
      (rounds i : ℕ) (bytes : Bytes)
      → ((j : ℕ)
          → i ≤ j
          → j < i + rounds
          → (bytes (block + j) ≡ guard_pattern) × (bytes (block + total - 1 - j) ≡ guard_pattern))
      → check_loop l rounds i bytes block total ≡ true
  unfolding check_loop
  check_loop-true zero i bytes h = refl
  check_loop-true (suc rounds) i bytes h =
      let (front, rear) = h i (omega arith) (omega arith) in
      rw (eq→== _ _ front, eq→== _ _ rear)
        (check_loop-true rounds (i + 1) bytes (λ j a b. h j (omega arith) (omega arith)))

  -- If the block has room for both guards, the check finds the guards that were set.
  pub allocator_check_guards-set_guards :
      (bytes : Bytes)
      → guard_total l ≤ total
      → allocator_check_guards l (allocator_set_guards l bytes block total) block total ≡ true
  unfolding allocator_check_guards allocator_set_guards guard_total
  allocator_check_guards-set_guards bytes room =
      let g : ℕ = guard_size l in
      let front = fill g bytes block guard_pattern in
      check_loop-true g 0 (fill g front (block + total - g) guard_pattern) (λ j a b. (
        fill_outside g front (block + total - g) guard_pattern (block + j) (inl (omega arith))
            ∙ fill_inside g bytes block guard_pattern (block + j) (omega arith) (omega arith),
        fill_inside g front (block + total - g) guard_pattern (block + total - 1 - j) (omega arith)
            (omega arith),
      ))

  -- The guards of a block are inside it.
  pub set_guards_outside :
      (bytes : Bytes) (j : ℕ)
      → guard_total l ≤ total
      → (j < block) ⊎ (block + total ≤ j)
      → allocator_set_guards l bytes block total j ≡ bytes j
  unfolding allocator_set_guards guard_total
  set_guards_outside bytes j room h =
      let g : ℕ = guard_size l in
      let front = fill g bytes block guard_pattern in
      fill_outside g front (block + total - g) guard_pattern j
        (elim h [ inl below ↦ inl (omega arith) | inr above ↦ inr (omega arith) ])
      ∙ fill_outside g bytes block guard_pattern j
          (elim h [ inl below ↦ inl (omega arith) | inr above ↦ inr (omega arith) ])

-- ===== src/Allocators/Blocks/Search.antt =====
-- The search for a free block.
use cutl.Base.{
  ℕ, zero, suc, ◌+◌, ◌*◌, ◌/◌, ◌%◌, ◌^◌, ◌≤◌, ◌<◌, ◌≡◌, ◌≢◌, ◌⊎◌, inl, inr, refl, ◌∙◌, ap, arith,
  true, false, eq→==, ne→==, eq-or-ne, lt-or-le,
}
use cutl.Errors.{}
use cutl.Allocators.{}
use cutl.Allocators.Layout.{}
use cutl.Allocators.Blocks.{BlockAllocator, first_zero, find_free}
use cutl.Allocators.Blocks.Bits.{first_zero_lowest, full_byte}
use cutl.Allocators.Blocks.State.{used}

abbrev pub Full : BlockAllocator → ℕ → ℕ → Type 0
Full this i n = (b : ℕ) → i ≤ b → b < n → this.bytes (this.memory_ptr + b) ≡ 255

-- What the loop returns: all the bytes from `i` on are full, or the first that is not.
abbrev pub Stopped : BlockAllocator → ℕ → ℕ → ℕ × ℕ → Type 0
Stopped this rounds i r =
    let group = this.bytes (this.memory_ptr + r.0) in
    ((r.0 ≡ i + rounds) × Full this i (i + rounds))
    ⊎ ((i ≤ r.0)
        × (r.0 < i + rounds)
        × (group ≢ 255)
        × (r.1 ≡ r.0 * 8 + first_zero 8 0 group)
        × Full this i r.0)

Full-cons :
    (this : BlockAllocator) (i n : ℕ)
    → this.bytes (this.memory_ptr + i) ≡ 255
    → Full this (i + 1) n
    → Full this i n
Full-cons this i n e h b low high = elim (eq-or-ne b i) [
  | inl same ↦ ap (λ (k : ℕ). this.bytes (this.memory_ptr + k)) same ∙ e
  | inr other ↦ h b (omega arith) high
]

Stopped-cons :
    (this : BlockAllocator) (rounds i : ℕ) (r : ℕ × ℕ)
    → this.bytes (this.memory_ptr + i) ≡ 255
    → Stopped this rounds (i + 1) r
    → Stopped this (suc rounds) i r
Stopped-cons this rounds i r e (inl (all, full)) =
    inl (omega arith, Full-cons this i _ e (λ b low high. full b low (omega arith)))
Stopped-cons this rounds i r e (inr (low, high, ne, idx, full)) =
    inr (omega arith, omega arith, ne, idx, Full-cons this i _ e full)

pub find_free_lem :
    (rounds : ℕ) (this : BlockAllocator) (i : ℕ) → Stopped this rounds i (find_free rounds this i)
unfolding find_free
find_free_lem zero this i = inl (omega arith, λ b low high. absurd (omega arith))
find_free_lem (suc rounds) this i =
    let rest = find_free_lem rounds this (i + 1) in
    elim (eq-or-ne (this.bytes (this.memory_ptr + i)) 255) [
      | inl e ↦ rw (eq→== _ _ e) (Stopped-cons this rounds i (find_free rounds this (i + 1)) e rest)
      | inr ne ↦
          rw (ne→== _ _ ne)
            (inr (omega arith, omega arith, ne, refl, λ b low high. absurd (omega arith)))
    ]

pub Full-used : (this : BlockAllocator) (n j : ℕ) → Full this 0 n → j / 8 < n → used this j ≡ true
Full-used this n j full below =
    rw (full (j / 8) (omega arith) below) (full_byte (j % 8) (omega arith))

module _ (this : BlockAllocator) (small_bytes : (a : ℕ) → this.bytes a < 2 ^ 8) where
  -- The bit that the search finds is clear, and the ones before it are set.
  pub first_zero_free :
      (i : ℕ)
      → this.bytes (this.memory_ptr + i) ≢ 255
      → used this (i * 8 + first_zero 8 0 (this.bytes (this.memory_ptr + i))) ≡ false
  first_zero_free i ne =
      let byte = this.bytes (this.memory_ptr + i) in
      let (small, clear, other) = first_zero_lowest byte 0 (small_bytes _) (omega arith) ne in
      let k : ℕ = first_zero 8 0 byte in
      let row : (i * 8 + k) / 8 ≡ i = omega arith in
      let bit : (i * 8 + k) % 8 ≡ k = omega arith in rw (row, bit) clear

  pub first_zero_first :
      (i j : ℕ)
      → this.bytes (this.memory_ptr + i) ≢ 255
      → Full this 0 i
      → (i * 8 + first_zero 8 0 (this.bytes (this.memory_ptr + i)) ≤ j) ⊎ (used this j ≡ true)
  first_zero_first i j ne full =
      let byte = this.bytes (this.memory_ptr + i) in
      let (small, clear, other) = first_zero_lowest byte (j % 8) (small_bytes _) (omega arith) ne in
      elim (lt-or-le (j / 8) i) [
        | inl before ↦ inr (Full-used this i j full before)
        | inr from ↦ elim (eq-or-ne (j / 8) i) [
          | inl same ↦ elim other [ inl le ↦ inl (omega arith) | inr set ↦ inr (rw same set) ]
          | inr past ↦ inl (omega arith)
        ]
      ]

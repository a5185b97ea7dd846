-- ===== src/Allocators.antt =====
-- src/allocators/allocator_internal.h: the sizes and the guard bytes that the allocators share.
-- An address is a number; the memory of an array does not reach the end of the address space, so the
-- addresses inside it do not wrap. Bytes are a function of their addresses.
pub mod Layout
pub mod Stack
pub mod Blocks
pub mod Default
mod Tests
use cutl.Base.{
  ℕ, zero, suc, ◌+◌, ◌-◌, ◌*◌, ◌%◌, Bool, true, false, ◌&&◌, ltb, ◌==◌, if◌then◌else◌, u64, sub64,
}

-- The choices of a build: `CUTL_ALLOCATOR_ALIGNMENT`, a power of two, and
-- `CUTL_ALLOCATOR_GUARD_BYTES`.
pub record BuildChoice : Type 0 where
  pub alignment : ℕ
  pub guard_bytes : ℕ

abbrev pub Bytes : Type 0
Bytes = ℕ → ℕ

abbrev pub guard_pattern : ℕ
guard_pattern = 0xcc

-- The values of `memory_block_state_t`, an enumeration over `uint8_t`.
abbrev pub block_free : ℕ
block_free = 0

abbrev pub block_used : ℕ
block_used = 1

abbrev pub block_merged : ℕ
block_merged = 2

pub store : Bytes → ℕ → ℕ → Bytes
store bytes a v b = if b == a then v else bytes b

-- `memset`
pub fill : ℕ → Bytes → ℕ → ℕ → Bytes
fill zero bytes a v = bytes
fill (suc n) bytes a v = fill n (store bytes a v) (a + 1) v

module _ (l : BuildChoice) where
  -- `x & ~mask`, for the mask of a power of two.
  pub allocator_round_down : ℕ → ℕ
  allocator_round_down size = size - size % l.alignment

  pub allocator_round_up : ℕ → ℕ
  allocator_round_up size = allocator_round_down (u64 (size + (l.alignment - 1)))

  -- `ALLOCATOR_GUARD_BYTES`
  pub guard_size : ℕ
  guard_size = allocator_round_down (l.guard_bytes + (l.alignment - 1))

  pub guard_total : ℕ
  guard_total = 2 * guard_size

  pub allocator_is_aligned : ℕ → Bool
  allocator_is_aligned mem = mem % l.alignment == 0

  pub allocator_block_size : ℕ → ℕ
  allocator_block_size usable = u64 (allocator_round_up usable + guard_total)

  pub allocator_usable_size : ℕ → ℕ
  allocator_usable_size total = sub64 total guard_total

  pub allocator_user_offset : ℕ
  allocator_user_offset = guard_size

  pub allocator_block_start : ℕ → ℕ
  allocator_block_start memory = memory - guard_size

  -- Without guard bytes nothing is written.
  pub allocator_set_guards : Bytes → ℕ → ℕ → Bytes
  allocator_set_guards bytes block total =
      fill guard_size (fill guard_size bytes block guard_pattern) (block + total - guard_size)
        guard_pattern

  -- The loop on `i`, with the rounds left first.
  pub check_loop : ℕ → ℕ → Bytes → ℕ → ℕ → Bool
  check_loop zero i bytes block total = true
  check_loop (suc rounds) i bytes block total =
      let rest = check_loop rounds (i + 1) bytes block total in
      if bytes (block + i) == guard_pattern && bytes (block + total - 1 - i) == guard_pattern
      then rest
      else false

  pub allocator_check_guards : Bytes → ℕ → ℕ → Bool
  allocator_check_guards bytes block total = check_loop guard_size 0 bytes block total

-- ===== src/Allocators/Blocks/Cycle.antt =====
-- An allocation followed by giving the memory back.
use cutl.Base.{
  ℕ, ◌+◌, ◌^◌, ◌<◌, ◌≡◌, inl, inr, refl, sym, ◌∙◌, ap, arith, Bool, true, false, some, ◌==◌,
  if◌then◌else◌, eq→==, ne→==, eq-or-ne, ◌≢◌,
}
use cutl.Errors.{success}
use cutl.Allocators.{BuildChoice}
use cutl.Allocators.Layout.{allocator_check_guards-set_guards}
use cutl.Allocators.Blocks.{BlockAllocator, counter_bytes, block_offset, allocate, deallocate}
use cutl.Allocators.Blocks.State.{used, IsPool, changed}
use cutl.Allocators.Blocks.Allocate.{taken_out, taken_out-used, taken_out-IsPool, allocate-Taken}
use cutl.Allocators.Blocks.Release.{region_end, user_address, guards_intact, deallocate-block}

module _ (l : BuildChoice) (this : BlockAllocator) (pool : IsPool l this) (p_memory idx j : ℕ) where
  true-ne-false : true ≢ false
  true-ne-false e = ground arith

  same_again :
      (k : ℕ)
      → used this k ≡ false
      → (if j == k then false else (if j == k then true else used this j)) ≡ used this j
  same_again k was = elim (eq-or-ne j k) [
    | inl e ↦ rw (eq→== j k e, e) (sym was)
    | inr ne ↦ rw (ne→== j k ne) refl
  ]

  -- In a pool that ends before the address space does and has a free block, an allocation succeeds,
  -- the memory can be given back at once, and then the same blocks are in use as before.
  pub deallocate-allocate :
      idx < this.block_count
      → j < this.block_count
      → used this idx ≡ false
      → region_end l this < 2 ^ 64
      → (memory : ℕ) × (out : BlockAllocator) × (final : BlockAllocator) × (allocate l this p_memory
          ≡ some (success, out, memory))
        × (deallocate l out memory ≡ some (success, final))
        × (used final j ≡ used this j)
  unfolding block_offset counter_bytes
  deallocate-allocate below low free fits = elim (allocate-Taken l this p_memory idx pool) [
    | inl (k, under, was, first, e) ↦
        let out = taken_out l this k in
        let taken = taken_out-used l this pool k k under was ∙ rw (eq→== k k refl) refl in
        let intact : guards_intact l out k ≡ true =
          allocator_check_guards-set_guards l (this.memory_ptr + block_offset l this k)
            this.block_size (changed this k true).bytes pool.room in
        elim (deallocate-block l out (taken_out-IsPool l this pool k was) k j 0 under taken fits) [
          | inl (final, ok, freed, now, still, size, count, place, rest) ↦ (
            user_address l this k,
            out,
            final,
            e,
            freed,
            now
                ∙ ap (λ (u : Bool). if j == k then false else u)
                    (taken_out-used l this pool k j low was)
                ∙ same_again k was,
          )
          | inr (broken, refused) ↦ absurd (true-ne-false (sym intact ∙ broken))
        ]
    | inr (e, all) ↦ absurd (ground (arith, all, free, below))
  ]

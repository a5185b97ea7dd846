-- ===== src/Allocators/Stack/Blocks.antt =====
-- The blocks of the stack as a list, the topmost first, and the infos that describe them.
use cutl.Base.{
  ℕ, ◌+◌, ◌-◌, ◌*◌, ◌^◌, ◌≤◌, ◌<◌, ◌≡◌, ◌≢◌, refl, ◌∙◌, ap, arith, Bool, false, List, [], ◌∷◌, ◌++◌,
  if◌then◌else◌, eq→==, ne→==,
}
use cutl.Allocators.{BuildChoice, block_free, block_used, guard_total, allocator_block_size}
use cutl.Allocators.Layout.{IsSound, round_up_bounds, block_size_bounds}
use cutl.Allocators.Stack.{StackBlockInfo, StackAllocator, set_info, info_of, stack_block_info_size}

pub record Block : Type 0 where
  pub size : ℕ
  pub used : Bool

abbrev pub height : List Block → ℕ
height [] = 0
height (b ∷ bs) = height bs + b.size

abbrev pub info : Block → StackBlockInfo
info b = info_of b.size (if b.used then block_used else block_free)

abbrev pub freed : Block → Block
freed b = record b { used = false }

-- The free blocks at the top are gone.
abbrev pub drop_free : List Block → List Block
drop_free [] = []
drop_free (b ∷ bs) = if b.used then b ∷ bs else drop_free bs

-- The stack after one of its blocks was given back.
abbrev pub release : List Block → Block → List Block → List Block
release [] b below = drop_free below
release (a ∷ above) b below = (a ∷ above) ++ freed b ∷ below

pub height-append : (xs ys : List Block) → height (xs ++ ys) ≡ height xs + height ys
height-append [] ys = omega arith
height-append (x ∷ xs) ys = omega (arith, height-append xs ys)

pub set_info_outside :
    (infos : ℕ → StackBlockInfo) (a b : ℕ) (x y : StackBlockInfo) (j : ℕ)
    → j ≢ a
    → j ≢ b
    → set_info (set_info infos a x) b y j ≡ infos j
unfolding set_info
set_info_outside infos a b x y j h k = rw (ne→== j b k, ne→== j a h) refl

module _ (l : BuildChoice) where
  -- Both infos of every block are in place.
  abbrev pub Described : (ℕ → StackBlockInfo) → ℕ → List Block → Type 0
  Described infos start [] = Unit {0}
  Described infos start (b ∷ bs) =
      (2 * stack_block_info_size l + guard_total l ≤ b.size)
      × (infos (start + height bs) ≡ info b)
      × (infos (start + height bs + b.size - stack_block_info_size l) ≡ info b)
      × Described infos start bs

  -- The allocator stands for a list of blocks.
  pub record Represents (this : StackAllocator) (bs : List Block) : Type 0 where
    pub top : this.top ≡ height bs
    pub fits : this.top ≤ this.size
    pub placed : 0 < this.data_ptr
    pub small : this.size < 2 ^ 63
    pub room : this.data_ptr + this.size + 2 ^ 32 < 2 ^ 64
    pub blocks : Described this.infos this.data_ptr bs

module _ (l : BuildChoice) (sound : IsSound l) where
  pub info_size_bounds : (16 ≤ stack_block_info_size l) × (stack_block_info_size l < 2 ^ 31)
  unfolding stack_block_info_size
  info_size_bounds =
      let b = round_up_bounds l sound 16 (omega (arith, sound.small_alignment)) in
      omega (arith, sound.small_alignment)

  -- The size of the block for a request.
  pub block_bounds :
      (requested : ℕ)
      → requested < 2 ^ 62
      → let size = allocator_block_size l (requested + 2 * stack_block_info_size l) in
        (requested + 2 * stack_block_info_size l + guard_total l ≤ size) × (size < 2 ^ 63)
  block_bounds requested small =
      let i = info_size_bounds in
      let b = block_size_bounds l sound (requested + 2 * stack_block_info_size l) (omega arith) in
      omega arith

  -- Infos above a stack do not matter to it.
  pub Described-frame :
      (infos out : ℕ → StackBlockInfo) (start : ℕ) (bs : List Block)
      → ((a : ℕ) → a < start + height bs → out a ≡ infos a)
      → Described l infos start bs
      → Described l out start bs
  Described-frame infos out start [] h d = tt
  Described-frame infos out start (b ∷ bs) h (size, front, rear, rest) =
      let i = info_size_bounds in
      (
        size,
        h (start + height bs) (omega arith) ∙ front,
        h (start + height bs + b.size - stack_block_info_size l) (omega arith) ∙ rear,
        Described-frame infos out start bs (λ a u. h a (omega arith)) rest,
      )

  pub Described-size :
      (infos : ℕ → StackBlockInfo) (start : ℕ) (above : List Block) (b : Block) (below : List Block)
      → Described l infos start (above ++ b ∷ below)
      → 2 * stack_block_info_size l + guard_total l ≤ b.size
  Described-size infos start [] b below (size, _, _, _) = size
  Described-size infos start (a ∷ above) b below (_, _, _, rest) =
      Described-size infos start above b below rest

  -- The infos after a block in the stack was given another state.
  pub Described-set :
      (infos : ℕ → StackBlockInfo) (start : ℕ) (above : List Block) (b c : Block)
      (below : List Block)
      → c.size ≡ b.size
      → Described l infos start (above ++ b ∷ below)
      → Described l
          (set_info
            (set_info infos (start + height below) (info c))
            (start + height below + b.size - stack_block_info_size l)
            (info c))
          start
          (above ++ c ∷ below)
  unfolding set_info
  Described-set infos start [] b c below e (size, front, rear, rest) =
      let i = info_size_bounds in
      let out =
        set_info (set_info infos (start + height below) (info c))
          (start + height below + b.size - stack_block_info_size l) (info c) in
      let at_end : start + height below + c.size - stack_block_info_size l
          ≡ start + height below + b.size - stack_block_info_size l =
        omega arith in
      (
        omega arith,
        rw
            (
              ne→== (start + height below) (start + height below + b.size - stack_block_info_size l)
                  (omega arith),
              eq→== (start + height below) (start + height below) refl,
            )
            refl,
        rw (eq→== _ _ at_end) refl,
        Described-frame infos out start below
            (λ a u.
              rw
                (
                  ne→== a (start + height below + b.size - stack_block_info_size l) (omega arith),
                  ne→== a (start + height below) (omega arith),
                )
                refl)
            rest,
      )
  Described-set infos start (a ∷ above) b c below e (size, front, rear, rest) =
      let i = info_size_bounds in
      let first = start + height below in
      let last = start + height below + b.size - stack_block_info_size l in
      let inner = Described-size infos start above b below rest in
      let whole = height-append above (b ∷ below) in
      let same : start + height (above ++ c ∷ below) ≡ start + height (above ++ b ∷ below) =
        omega (arith, height-append above (c ∷ below)) in
      let same_end : start + height (above ++ c ∷ below) + a.size - stack_block_info_size l
          ≡ start + height (above ++ b ∷ below) + a.size - stack_block_info_size l =
        ap (λ n. n + a.size - stack_block_info_size l) same in
      (
        size,
        ap (set_info (set_info infos first (info c)) last (info c)) same
            ∙ set_info_outside infos first last (info c) (info c)
                (start + height (above ++ b ∷ below)) (omega arith) (omega arith)
            ∙ front,
        ap (set_info (set_info infos first (info c)) last (info c)) same_end
            ∙ set_info_outside infos first last (info c) (info c)
                (start + height (above ++ b ∷ below) + a.size - stack_block_info_size l)
                (omega arith) (omega arith)
            ∙ rear,
        Described-set infos start above b c below e rest,
      )

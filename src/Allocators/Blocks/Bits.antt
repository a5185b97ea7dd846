-- ===== src/Allocators/Blocks/Bits.antt =====
-- Bits of a byte: what adding and taking one does to the others, and the lowest one that is clear. The
-- proofs are tables over all the bytes.
use cutl.Base.{
  ℕ, zero, suc, ◌+◌, ◌-◌, ◌^◌, ◌<◌, ◌≤◌, ◌≡◌, ◌≢◌, refl, ap, arith, Bool, true, false, not, ◌&&◌,
  ◌==◌, ltb, if◌then◌else◌, inl, inr, inr, inl, ap, lt-or-le, lt→leb, ne→==, leb, ◌||◌, ◌⊎◌,
}
use cutl.Allocators.Blocks.{test_bit, first_zero}

and_true : (a b : Bool) → a && b ≡ true → (a ≡ true) × (b ≡ true)
and_true a b h = ground arith

or_right : (a b : Bool) → a ≡ false → a || b ≡ true → b ≡ true
or_right a b f h = ground arith

not-true : (a : Bool) → a ≡ true → not a ≡ false
not-true a h = ap not h

not-false : (a : Bool) → not a ≡ true → a ≡ false
not-false a h = ground arith

at_or_below : (a b : ℕ) (c : Bool) → leb a b || c ≡ true → (a ≤ b) ⊎ (c ≡ true)
at_or_below a b c h = elim (lt-or-le b a) [
  | inl lt ↦ inr (or_right _ _ (lt→leb a b lt) h)
  | inr le ↦ inl le
]

ltb-lt : (a b : ℕ) → ltb a b ≡ true → a < b
ltb-lt a b h = ground arith

all_below : ℕ → (ℕ → Bool) → Bool
all_below zero p = true
all_below (suc n) p = let rest = all_below n p in if p n then rest else false

same : Bool → Bool → Bool
same true b = b
same false b = not b

all_below-get : (n : ℕ) (p : ℕ → Bool) (i : ℕ) → all_below n p ≡ true → i < n → p i ≡ true
unfolding all_below
all_below-get zero p i h l = absurd (omega arith)
all_below-get (suc n) p i h l = ground (arith, all_below-get n p i)

same-eq : (a b : Bool) → same a b ≡ true → a ≡ b
unfolding same
same-eq a b h = ground arith

all_bits : (ℕ → ℕ → ℕ → Bool) → Bool
all_bits p = all_below 256 (λ byte. all_below 8 (λ k. all_below 8 (p byte k)))

all_bits-get :
    (p : ℕ → ℕ → ℕ → Bool) (byte k j : ℕ)
    → all_bits p ≡ true
    → byte < 256
    → k < 8
    → j < 8
    → p byte k j ≡ true
unfolding all_bits
all_bits-get p byte k j h b c d =
    let bits = all_below-get 256 (λ byte. all_below 8 (λ k. all_below 8 (p byte k))) byte h b in
    let row = all_below-get 8 (λ k. all_below 8 (p byte k)) k bits c in
    all_below-get 8 (p byte k) j row d

added : ℕ → ℕ → ℕ → Bool
added byte k j =
    test_bit byte k
    || (ltb (byte + 2 ^ k) 256
        && same (test_bit (byte + 2 ^ k) j) (if j == k then true else test_bit byte j))

added_table : all_bits added ≡ true
unfolding all_bits all_below added same
added_table = refl

pub add_bit :
    (byte k j : ℕ)
    → byte < 256
    → k < 8
    → j < 8
    → test_bit byte k ≡ false
    → (byte + 2 ^ k < 256)
      × (test_bit (byte + 2 ^ k) j ≡ (if j == k then true else test_bit byte j))
unfolding added
add_bit byte k j b c d clear =
    let (small, value) =
      and_true _ _ (or_right _ _ clear (all_bits-get added byte k j added_table b c d)) in
    (ltb-lt _ _ small, same-eq _ _ value)

taken : ℕ → ℕ → ℕ → Bool
taken byte k j =
    not (test_bit byte k)
    || (ltb (byte - 2 ^ k) 256
        && same (test_bit (byte - 2 ^ k) j) (if j == k then false else test_bit byte j))

taken_table : all_bits taken ≡ true
unfolding all_bits all_below taken same
taken_table = refl

pub take_bit :
    (byte k j : ℕ)
    → byte < 256
    → k < 8
    → j < 8
    → test_bit byte k ≡ true
    → (byte - 2 ^ k < 256)
      × (test_bit (byte - 2 ^ k) j ≡ (if j == k then false else test_bit byte j))
unfolding taken
take_bit byte k j b c d set =
    let (small, value) =
      and_true _ _
        (or_right _ _ (not-true _ set) (all_bits-get taken byte k j taken_table b c d)) in
    (ltb-lt _ _ small, same-eq _ _ value)

lowest : ℕ → ℕ → ℕ → Bool
lowest byte k j =
    (byte == 255)
    || ((ltb (first_zero 8 0 byte) 8 && not (test_bit byte (first_zero 8 0 byte)))
        && (leb (first_zero 8 0 byte) j || test_bit byte j))

lowest_table : all_bits lowest ≡ true
unfolding all_bits all_below lowest first_zero
lowest_table = refl

pub first_zero_lowest :
    (byte j : ℕ)
    → byte < 256
    → j < 8
    → byte ≢ 255
    → (first_zero 8 0 byte < 8)
      × (test_bit byte (first_zero 8 0 byte) ≡ false)
      × ((first_zero 8 0 byte ≤ j) ⊎ (test_bit byte j ≡ true))
unfolding lowest
first_zero_lowest byte j b d ne =
    let fact =
      or_right _ _ (ne→== byte 255 ne)
        (all_bits-get lowest byte 0 j lowest_table b (omega arith) d) in
    let (head, rest) = and_true _ _ fact in
    let (small, clear) = and_true _ _ head in
    (ltb-lt _ _ small, not-false _ clear, at_or_below _ _ _ rest)

full : ℕ → ℕ → ℕ → Bool
full byte k j = not (byte == 255) || test_bit byte j

full_table : all_bits full ≡ true
unfolding all_bits all_below full
full_table = refl

pub full_byte : (j : ℕ) → j < 8 → test_bit 255 j ≡ true
unfolding full
full_byte j d = all_bits-get full 255 0 j full_table (omega arith) (omega arith) d

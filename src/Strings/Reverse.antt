-- ===== src/Strings/Reverse.antt =====
-- The search from the end of a string, and the bytes that it compares.
use cutl.Base.{
  ℕ, zero, suc, ◌+◌, ◌-◌, ◌^◌, ◌≤◌, ◌<◌, ◌≡◌, ◌≢◌, ◌⊎◌, refl, inl, inr, arith, List, get_or,
  lt-or-le, eq-or-ne, lt→ltb, le→ltb, eq→==, ne→==, pos, minus_one, i32_small,
}
use cutl.Strings.{String8, match_reverse, search_reverse, has_substring_reverse}

match_reverse-matches :
    (n : ℕ) (mem : List ℕ) (a b m : ℕ)
    → match_reverse n mem a b ≡ 0
    → m < n
    → get_or mem (a - suc m - 1) 0 ≡ get_or mem (b + m) 0
unfolding match_reverse
match_reverse-matches zero mem a b m e u = absurd (omega arith)
match_reverse-matches (suc n) mem a b m e u =
    elim (eq-or-ne (get_or mem (a - suc n - 1) 0) (get_or mem (b + n) 0)) [
      | inr differ ↦ let stop : suc n ≡ 0 = rw (ne→== _ _ differ) at e in absurd (omega arith)
      | inl same ↦
          let rest : match_reverse n mem a b ≡ 0 = rw (eq→== _ _ same) at e in
          elim (eq-or-ne m n) [
            | inl here ↦ rw here same
            | inr ne ↦ match_reverse-matches n mem a b m rest (omega arith)
          ]
    ]

mirrored-match_reverse :
    (n : ℕ) (mem : List ℕ) (a b : ℕ)
    → ((m : ℕ) → m < n → get_or mem (a - suc m - 1) 0 ≡ get_or mem (b + m) 0)
    → match_reverse n mem a b ≡ 0
unfolding match_reverse
mirrored-match_reverse zero mem a b h = refl
mirrored-match_reverse (suc n) mem a b h =
    rw (eq→== _ _ (h n (omega arith))) (mirrored-match_reverse n mem a b (λ m u. h m (omega arith)))

-- The bytes of `substr` stand in reverse order in front of the byte before the position `place`.
pub record MirroredAt (mem : List ℕ) (string substr : String8) (place : ℕ) : Type 0 where
  pub above : substr.length < place
  pub below : place ≤ string.length
  pub mirrored :
      (m : ℕ)
      → m < substr.length
      → get_or mem (string.data_ptr + place - suc m - 1) 0 ≡ get_or mem (substr.data_ptr + m) 0

-- There is such a place, and none behind it.
pub record LastAt (mem : List ℕ) (string substr : String8) (place : ℕ) : Type 0 where
  pub stands : MirroredAt mem string substr place
  pub last : (q : ℕ) → place < q → ¬ MirroredAt mem string substr q

abbrev pub NotMirrored : List ℕ → String8 → String8 → Type 0
NotMirrored mem string substr = (q : ℕ) → ¬ MirroredAt mem string substr q

module _ (mem : List ℕ) (string substr : String8) where
  reverse_step :
      (place : ℕ)
      → substr.length < place
      → place ≤ string.length
      → (MirroredAt mem string substr place
          × (match_reverse substr.length mem (string.data_ptr + place) substr.data_ptr ≡ 0))
        ⊎ ((¬ MirroredAt mem string substr place)
            × (match_reverse substr.length mem (string.data_ptr + place) substr.data_ptr ≢ 0))
  reverse_step place above below =
      let a : ℕ = string.data_ptr + place in
      elim (eq-or-ne (match_reverse substr.length mem a substr.data_ptr) 0) [
        | inl e ↦ inl (
          record {
            above = above;
            below = below;
            mirrored = λ m u. match_reverse-matches substr.length mem a substr.data_ptr m e u;
          },
          e,
        )
        | inr ne ↦
            inr
              (λ o. ne (mirrored-match_reverse substr.length mem a substr.data_ptr o.mirrored), ne)
      ]

  search_reverse_lem :
      (rounds : ℕ)
      → substr.length + rounds < 2 ^ 31
      → substr.length + rounds ≤ string.length
      → ((q : ℕ) → substr.length + rounds < q → ¬ MirroredAt mem string substr q)
      → ((p : ℕ) × (search_reverse rounds mem string substr ≡ pos p) × LastAt mem string substr p)
        ⊎ ((search_reverse rounds mem string substr ≡ minus_one) × NotMirrored mem string substr)
  unfolding search_reverse
  search_reverse_lem zero small inside none_behind =
      inr (refl, λ q o. none_behind q (omega (arith, o.above)) o)
  search_reverse_lem (suc rounds) small inside none_behind =
      let place : ℕ = substr.length + suc rounds in
      elim (reverse_step place (omega arith) inside) [
        | inl (o, found) ↦ inl (
          place,
          rw (eq→== _ _ found) (i32_small place small),
          record { stands = o; last = none_behind },
        )
        | inr (differs, other) ↦
            let further : (q : ℕ) → substr.length + rounds < q → ¬ MirroredAt mem string substr q =
              λ q u. elim (eq-or-ne q place) [
                | inl here ↦ rw here differs
                | inr ne ↦ none_behind q (omega arith)
              ] in
            rw (ne→== _ _ other) (search_reverse_lem rounds (omega arith) (omega arith) further)
      ]

  -- In a string of less than 2^31 bytes: the search from the end returns the last position that is
  -- above the length of the substring and in front of which, the byte before it left out, the bytes
  -- of the substring stand in reverse order; or it returns -1 and there is no such position.
  pub has_substring_reverse-last :
      string.length < 2 ^ 31
      → ((p : ℕ) × (has_substring_reverse mem string substr ≡ pos p) × LastAt mem string substr p)
        ⊎ ((has_substring_reverse mem string substr ≡ minus_one) × NotMirrored mem string substr)
  unfolding has_substring_reverse
  has_substring_reverse-last small = elim (lt-or-le string.length substr.length) [
    | inl short ↦ inr (
      rw (lt→ltb _ _ short) refl,
      λ q o. let a = o.above in let b = o.below in absurd (omega arith),
    )
    | inr long ↦ rw (le→ltb _ _ long) (
        search_reverse_lem (string.length - substr.length) (omega arith) (omega arith)
          (λ q u o. let b = o.below in absurd (omega arith)))
  ]

-- ===== src/Strings/Search.antt =====
-- The search for a substring, and its occurrences.
use cutl.Base.{
  ℕ, zero, suc, ◌+◌, ◌-◌, ◌^◌, ◌≤◌, ◌<◌, ◌≡◌, ◌≢◌, ◌⊎◌, inl, inr, refl, sym, ◌∙◌, arith, lt-or-le,
  eq-or-ne, List, get_or, lt→ltb, le→ltb, eq→==, ne→==, pos, minus_one, i32_small,
}
use cutl.Strings.{String8, match_loop, search_loop, has_substring}

-- `n` bytes from `a` on are those from `b` on.
abbrev pub Matches : List ℕ → ℕ → ℕ → ℕ → Type 0
Matches mem a b n = (i : ℕ) → i < n → get_or mem (a + i) 0 ≡ get_or mem (b + i) 0

-- The bytes of `substr` stand in `string` at the position `place`, inside it.
pub record OccursAt (mem : List ℕ) (string substr : String8) (place : ℕ) : Type 0 where
  pub inside : place + substr.length ≤ string.length
  pub matches : Matches mem (string.data_ptr + place) substr.data_ptr substr.length

-- The position is that of an occurrence, and there is none before it.
pub record FirstAt (mem : List ℕ) (string substr : String8) (place : ℕ) : Type 0 where
  pub occurs : OccursAt mem string substr place
  pub first : (q : ℕ) → q < place → ¬ OccursAt mem string substr q

abbrev pub Absent : List ℕ → String8 → String8 → Type 0
Absent mem string substr = (q : ℕ) → ¬ OccursAt mem string substr q

module _ (mem : List ℕ) (a b : ℕ) where
  match_loop_full :
      (rounds match : ℕ)
      → Matches mem a b (match + rounds)
      → match_loop rounds mem a b match ≡ match + rounds
  unfolding match_loop
  match_loop_full zero match h = omega arith
  match_loop_full (suc rounds) match h =
      let here = h match (omega arith) in
      rw (eq→== _ _ here)
        (match_loop_full rounds (match + 1) (λ i u. h i (omega arith)) ∙ omega arith)

  match_loop-Matches :
      (rounds match : ℕ)
      → Matches mem a b match
      → match_loop rounds mem a b match ≡ match + rounds
      → Matches mem a b (match + rounds)
  unfolding match_loop
  match_loop-Matches zero match h e i u = h i (omega arith)
  match_loop-Matches (suc rounds) match h e i u =
      elim (eq-or-ne (get_or mem (a + match) 0) (get_or mem (b + match) 0)) [
        | inl same ↦
            let longer : Matches mem a b (match + 1) = λ j v. elim (eq-or-ne j match) [
              | inl here ↦ rw here same
              | inr ne ↦ h j (omega arith)
            ] in
            let rest = rw (eq→== _ _ same) at e in
            match_loop-Matches rounds (match + 1) longer (rest ∙ omega arith) i (omega arith)
        | inr differ ↦
            let stop : match ≡ match + suc rounds = rw (ne→== _ _ differ) at e in
            absurd (omega arith)
      ]

module _ (mem : List ℕ) (string substr : String8) where
  search_step :
      (place : ℕ)
      → place + substr.length ≤ string.length
      → (OccursAt mem string substr place
          × (match_loop substr.length mem (string.data_ptr + place) substr.data_ptr 0
              ≡ substr.length))
        ⊎ ((¬ OccursAt mem string substr place)
            × (match_loop substr.length mem (string.data_ptr + place) substr.data_ptr 0
                ≢ substr.length))
  search_step place b =
      let a : ℕ = string.data_ptr + place in
      let z : 0 + substr.length ≡ substr.length = omega arith in
      elim (eq-or-ne (match_loop substr.length mem a substr.data_ptr 0) substr.length) [
        | inl e ↦ inl (
          record {
            inside = b;
            matches = λ i u.
                match_loop-Matches mem a substr.data_ptr substr.length 0
                  (λ j v. absurd (omega arith)) (e ∙ sym z) i (omega arith);
          },
          e,
        )
        | inr ne ↦ inr (
          λ o. ne (
              match_loop_full mem a substr.data_ptr substr.length 0
                (λ i u. o.matches i (omega arith))
              ∙ z),
          ne,
        )
      ]

  search_loop_lem :
      (rounds place : ℕ)
      → place + rounds < 2 ^ 31
      → place + rounds + substr.length ≡ suc string.length
      → ((q : ℕ) → q < place → ¬ OccursAt mem string substr q)
      → ((p : ℕ) × (search_loop rounds mem string substr place ≡ pos p)
          × FirstAt mem string substr p)
        ⊎ ((search_loop rounds mem string substr place ≡ minus_one) × Absent mem string substr)
  unfolding search_loop
  search_loop_lem zero place small e none_yet =
      inr (refl, λ q o. none_yet q (omega (arith, o.inside)) o)
  search_loop_lem (suc rounds) place small e none_yet = elim (search_step place (omega arith)) [
    | inl (o, found) ↦ inl (
      place,
      rw (eq→== _ _ found) (i32_small place (omega arith)),
      record { occurs = o; first = none_yet },
    )
    | inr (differs, other) ↦
        let further : (q : ℕ) → q < place + 1 → ¬ OccursAt mem string substr q = λ q u.
          elim (eq-or-ne q place) [
            | inl here ↦ rw here differs
            | inr ne ↦ none_yet q (omega arith)
          ] in
        rw (ne→== _ _ other)
          (search_loop_lem rounds (place + 1) (omega arith) (omega arith) further)
  ]

  -- In a string of less than 2^31 - 1 bytes: the search returns the position of the first
  -- occurrence, or -1 and there is no occurrence.
  pub has_substring-first :
      string.length + 1 < 2 ^ 31
      → ((p : ℕ) × (has_substring mem string substr ≡ pos p) × FirstAt mem string substr p)
        ⊎ ((has_substring mem string substr ≡ minus_one) × Absent mem string substr)
  unfolding has_substring
  has_substring-first small = elim (lt-or-le string.length substr.length) [
    | inl short ↦ inr (rw (lt→ltb _ _ short) refl, λ q o. let t = o.inside in absurd (omega arith))
    | inr long ↦ rw (le→ltb _ _ long) (
        search_loop_lem (string.length - substr.length + 1) 0 (omega arith) (omega arith)
          (λ q u. absurd (omega arith)))
  ]

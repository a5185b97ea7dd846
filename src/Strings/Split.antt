-- ===== src/Strings/Split.antt =====
-- Splitting at a delimiter: the loop, and the pieces it puts out.
use mathlib.Core.List.{map}
use cutl.Base.{
  ℕ, zero, suc, ◌+◌, ◌^◌, ◌≤◌, ◌<◌, ◌≡◌, ◌≢◌, inl, inr, refl, sym, ◌∙◌, ap, ap₂, arith, none, some,
  List, [], ◌∷◌, length, set, reverse_onto, length-set, set-reverse_onto, length-reverse_onto,
  lt-or-le, eq-or-ne, lt→ltb, le→ltb, eq→==, ne→==, u64, pos, minus_one,
}
use cutl.Strings.{String8, advance, has_substring, output, split_loop, split_end, split}
use cutl.Strings.Search.{OccursAt, FirstAt, Absent, has_substring-first}
use cutl.Strings.Bytes.{bytes, length-advance, advance_zero}
use cutl.Strings.Pieces.{front, Splits, join, AllAbsent, Splits-join, Splits-AllAbsent, whole, cut}

-- The pieces over the first places of an array, as far as it goes.
abbrev pub overwrite : List String8 → List String8 → List String8
overwrite [] outs = outs
overwrite (p ∷ ps) [] = []
overwrite (p ∷ ps) (x ∷ outs) = p ∷ overwrite ps outs

abbrev write_all : ℕ → List String8 → List String8 → List String8
write_all count [] outs = outs
write_all count (p ∷ ps) outs = write_all (count + 1) ps (set outs count p)

set_beyond : (outs : List String8) (i : ℕ) (p : String8) → length outs ≤ i → set outs i p ≡ outs
set_beyond [] i p h = refl
set_beyond (x ∷ outs) zero p h = absurd (omega arith)
set_beyond (x ∷ outs) (suc i) p h = ap (λ t. x ∷ t) (set_beyond outs i p (omega arith))

write_all_beyond :
    (count : ℕ) (ps outs : List String8) → length outs ≤ count → write_all count ps outs ≡ outs
write_all_beyond count [] outs h = refl
write_all_beyond count (p ∷ ps) outs h =
    rw (set_beyond outs count p h) (write_all_beyond (count + 1) ps outs (omega arith))

write_all_lem :
    (q ps t : List String8)
    → write_all (length q) ps (reverse_onto q t) ≡ reverse_onto q (overwrite ps t)
write_all_lem q [] t = refl
write_all_lem q (p ∷ ps) [] =
    write_all_beyond (length q) (p ∷ ps) (reverse_onto q [])
      (omega (arith, length-reverse_onto q []))
write_all_lem q (p ∷ ps) (x ∷ t) =
    let here : length q ≡ length q + 0 = omega arith in
    let written : set (reverse_onto q (x ∷ t)) (length q) p ≡ reverse_onto q (p ∷ t) =
      ap (λ i. set (reverse_onto q (x ∷ t)) i p) here ∙ set-reverse_onto q (x ∷ t) 0 p in
    let next : length q + 1 ≡ suc (length q) = omega arith in
    ap₂ (λ i outs. write_all i ps outs) next written ∙ write_all_lem (p ∷ q) ps t

output-eq-set :
    (count max_count : ℕ) (p : String8) (outs : List String8)
    → length outs ≡ max_count
    → output count max_count p outs ≡ set outs count p
unfolding output
output-eq-set count max_count p outs h = elim (lt-or-le count max_count) [
  | inl room ↦ rw (lt→ltb _ _ room) refl
  | inr full ↦ rw (le→ltb _ _ full) (sym (set_beyond outs count p (omega arith)))
]

module _ (mem : List ℕ) (delimiter : String8) (max_count : ℕ) where
  module _ (rounds : ℕ) (str : String8) (count : ℕ) (outs : List String8) where
    split_loop_empty :
        str.length ≡ 0
        → split_loop (suc rounds) mem str delimiter max_count count outs ≡ some (str, count, outs)
    unfolding split_loop
    split_loop_empty e = rw (eq→== str.length 0 e) refl

    split_loop_absent :
        has_substring mem str delimiter ≡ minus_one
        → split_loop (suc rounds) mem str delimiter max_count count outs ≡ some (str, count, outs)
    unfolding split_loop
    split_loop_absent e = elim (eq-or-ne str.length 0) [
      | inl empty ↦ rw (eq→== str.length 0 empty) refl
      | inr some_left ↦ rw (ne→== str.length 0 some_left, e) refl
    ]

    split_loop_found :
        (p : ℕ)
        → str.length ≢ 0
        → has_substring mem str delimiter ≡ pos p
        → split_loop (suc rounds) mem str delimiter max_count count outs
          ≡ split_loop rounds mem
              (advance str (u64 (p + delimiter.length)))
              delimiter
              max_count
              (u64 (count + 1))
              (output count max_count (front str p) outs)
    unfolding split_loop
    split_loop_found p ne e = rw (ne→== str.length 0 ne, e) refl

  -- What the loop and the last output leave behind.
  record Done (rounds : ℕ) (str : String8) (count : ℕ) (outs : List String8) : Type 0 where
    pieces : List String8
    splits : Splits mem delimiter str pieces
    returned :
        split_end max_count (split_loop rounds mem str delimiter max_count count outs)
        ≡ some (count + length pieces, write_all count pieces outs)

  Done-last :
      (rounds : ℕ) (str : String8) (count : ℕ) (outs : List String8)
      → split_loop (suc rounds) mem str delimiter max_count count outs ≡ some (str, count, outs)
      → Absent mem str delimiter
      → length outs ≡ max_count
      → count < 2 ^ 63
      → Done (suc rounds) str count outs
  unfolding split_end
  Done-last rounds str count outs e absent size small = record {
    pieces = str ∷ [];
    splits = whole absent;
    returned =
        let stepped : u64 (count + 1) ≡ count + 1 = omega arith in
        rw (e, stepped, output-eq-set count max_count str outs size) refl;
  }

  Done-cut :
      (rounds : ℕ) (str : String8) (count : ℕ) (outs : List String8) (p : ℕ)
      → str.length ≢ 0
      → has_substring mem str delimiter ≡ pos p
      → FirstAt mem str delimiter p
      → p + delimiter.length < 2 ^ 63
      → length outs ≡ max_count
      → count < 2 ^ 63
      → Done rounds (advance str (p + delimiter.length)) (count + 1) (set outs count (front str p))
      → Done (suc rounds) str count outs
  Done-cut rounds str count outs p some_left e f inside size small rest = record {
    pieces = front str p ∷ rest.pieces;
    splits = cut f rest.splits;
    returned =
        let wide : u64 (p + delimiter.length) ≡ p + delimiter.length = omega arith in
        let stepped : u64 (count + 1) ≡ count + 1 = omega arith in
        let written = output-eq-set count max_count (front str p) outs size in
        let total : count + 1 + length rest.pieces ≡ count + suc (length rest.pieces) =
          omega arith in
        ap (split_end max_count) (split_loop_found rounds str count outs p some_left e)
        ∙ rw (wide, stepped, written) rest.returned
        ∙ ap (λ n. some (n, write_all (count + 1) rest.pieces (set outs count (front str p))))
            total;
  }

  Done-split :
      (rounds : ℕ) (str : String8) (count : ℕ) (outs : List String8)
      → 0 < delimiter.length
      → str.length < rounds
      → str.length + 1 < 2 ^ 31
      → length outs ≡ max_count
      → count + str.length < 2 ^ 63
      → Done rounds str count outs
  Done-split zero str count outs some_delimiter enough small size bound = absurd (omega arith)
  Done-split (suc rounds) str count outs some_delimiter enough small size bound =
      elim (eq-or-ne str.length 0) [
        | inl empty ↦
            Done-last rounds str count outs (split_loop_empty rounds str count outs empty)
              (λ q o. let t = o.inside in absurd (omega arith)) size (omega arith)
        | inr some_left ↦ elim (has_substring-first mem str delimiter small) [
          | inr (e, absent) ↦
              Done-last rounds str count outs (split_loop_absent rounds str count outs e) absent
                size (omega arith)
          | inl (p, e, f) ↦
              let behind = f.occurs.inside in
              let left = length-advance str (p + delimiter.length) in
              Done-cut rounds str count outs p some_left e f (omega arith) size (omega arith) (
                Done-split rounds (advance str (p + delimiter.length)) (count + 1)
                  (set outs count (front str p)) some_delimiter (omega arith) (omega arith)
                  (length-set outs count (front str p) ∙ size) (omega arith))
        ]
      ]

-- For a delimiter that is not empty and a string of less than 2^31 - 1 bytes: the function returns
-- the number of pieces and puts the first of them into the array, as many as fit; no piece contains
-- the delimiter, and the pieces with the delimiter between them are the bytes of the string.
pub split-join :
    (mem : List ℕ) (str delimiter : String8) (outs : List String8)
    → 0 < delimiter.length
    → str.length + 1 < 2 ^ 31
    → (pieces : List String8) × (split mem str delimiter (length outs) outs
        ≡ some (length pieces, overwrite pieces outs))
      × (AllAbsent mem delimiter pieces)
      × (join (bytes mem delimiter) (map (bytes mem) pieces) ≡ bytes mem str)
unfolding split
split-join mem str delimiter outs some_delimiter small =
    let done =
      Done-split mem delimiter (length outs) (suc str.length) str 0 outs some_delimiter
        (omega arith) small refl (omega arith) in
    let total : 0 + length done.pieces ≡ length done.pieces = omega arith in
    (
      done.pieces,
      done.returned ∙ ap₂ (λ n o. some (n, o)) total (write_all_lem [] done.pieces outs),
      Splits-AllAbsent mem delimiter str done.pieces some_delimiter done.splits,
      Splits-join mem delimiter str done.pieces done.splits,
    )

-- With an empty delimiter and a string of at least one byte and less than 2^31 - 1, the loop does
-- not end, whatever the number of rounds.
pub split_loop_endless :
    (mem : List ℕ) (str delimiter : String8) (rounds max_count count : ℕ) (outs : List String8)
    → delimiter.length ≡ 0
    → 0 < str.length
    → str.length + 1 < 2 ^ 31
    → split_loop rounds mem str delimiter max_count count outs ≡ none
unfolding split_loop
split_loop_endless mem str delimiter zero max_count count outs e some_left small = refl
split_loop_endless mem str delimiter (suc rounds) max_count count outs e some_left small =
    let at_start : OccursAt mem str delimiter 0 = record {
      inside = omega arith;
      matches = λ i u. absurd (omega arith);
    } in
    elim (has_substring-first mem str delimiter small) [
      | inr (_, absent) ↦ absurd (absent 0 at_start)
      | inl (p, found, f) ↦ elim (eq-or-ne p 0) [
        | inr later ↦ absurd (f.first 0 (omega arith) at_start)
        | inl here ↦
            let still : u64 (p + delimiter.length) ≡ 0 = omega arith in
            let stays : advance str 0 ≡ str = advance_zero str some_left in
            split_loop_found mem delimiter max_count rounds str count outs p (omega arith) found
            ∙ rw (still, stays)
                (split_loop_endless mem str delimiter rounds max_count (u64 (count + 1))
                  (output count max_count (front str p) outs) e some_left small)
      ]
    ]

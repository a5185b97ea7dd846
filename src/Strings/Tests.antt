-- ===== src/Strings/Tests.antt =====
-- Runs of the functions on views, and the theorems about them at concrete inputs.
use mathlib.Core.List.{map}
use cutl.Base.{
  ℕ, ◌-◌, ◌^◌, ◌≡◌, ◌⊎◌, inl, inr, refl, arith, false, none, some, List, [], ◌∷◌, ◌++◌, length,
  get_or, ltb, ◌==◌, if◌then◌else◌, ℤ, pos, minus_one,
}
use cutl.Errors.{success, insufficient_buffer, index_out_of_bounds}
use cutl.Strings.{
  String8, read, write, create_substring, concatenate, compare, compare_n, match_loop, search_loop,
  has_substring, match_reverse, search_reverse, has_substring_reverse, subspan_loop, subspan,
  advance, shrink, reorder, output, split_loop, split_end, split,
}
use cutl.Strings.Search.{FirstAt, Absent, has_substring-first}
use cutl.Strings.Reverse.{LastAt, NotMirrored, has_substring_reverse-last}
use cutl.Strings.Bytes.{bytes}
use cutl.Strings.Pieces.{join, AllAbsent}
use cutl.Strings.Split.{overwrite, split-join, split_loop_endless}
use cutl.Strings.Edit.{concatenate-append, reorder-moves}

-- "a,b," from 1 on, and behind it ",".
abbrev mem : List ℕ
mem = 0 ∷ 97 ∷ 44 ∷ 98 ∷ 44 ∷ 44 ∷ 0 ∷ 0 ∷ 0 ∷ 0 ∷ 0 ∷ 0 ∷ []

abbrev view : ℕ → ℕ → String8
view a n = record { length = n; data_ptr = a }

abbrev text : String8
text = view 1 4

abbrev comma : String8
comma = view 5 1

abbrev empty : String8
empty = view 0 0

-- A comparison of bytes as `memcmp` may do it.
abbrev first_difference : List ℕ → List ℕ → ℤ
first_difference [] ys = pos 0
first_difference (x ∷ xs) [] = pos 0
first_difference (x ∷ xs) (y ∷ ys) =
    let rest = first_difference xs ys in
    if x == y then rest else if ltb x y then minus_one else pos 1

searches :
    (has_substring mem text comma ≡ pos 1)
    × (has_substring mem comma text ≡ minus_one)
    × (has_substring_reverse mem text comma ≡ pos 3)
    × (subspan mem text (view 3 2) ≡ 2)
unfolding has_substring search_loop match_loop has_substring_reverse search_reverse match_reverse
    subspan subspan_loop
searches = (refl, refl, refl, refl)

cuts :
    (create_substring text 1 3 empty ≡ (success, view 2 2))
    × (create_substring text 1 5 empty ≡ (index_out_of_bounds, empty))
    × (create_substring text 3 1 empty ≡ (success, view 4 (2 ^ 64 - 2)))
    × (shrink text 1 ≡ view 1 3)
    × (advance text 1 ≡ view 2 3)
    × (advance text 4 ≡ empty)
unfolding create_substring shrink advance
cuts = (refl, refl, refl, refl, refl, refl)

comparisons :
    (compare first_difference mem text comma ≡ pos 1)
    × (compare first_difference mem comma (view 4 1) ≡ pos 0)
    × (compare_n first_difference mem text comma 1 ≡ pos 1)
unfolding compare compare_n read
comparisons = (refl, refl, refl)

split-text : split mem text comma 2 (empty ∷ empty ∷ []) ≡ some (3, view 1 1 ∷ view 3 1 ∷ [])
unfolding split split_loop split_end output has_substring search_loop match_loop advance
split-text = refl

reorder_out : (reorder mem text 3 0 2).0 ≡ index_out_of_bounds
unfolding reorder write read
reorder_out = refl

concatenate_short : concatenate mem text comma empty false ≡ some (insufficient_buffer, mem)
unfolding concatenate
concatenate_short = refl

has_substring-first_example :
    ((p : ℕ) × (has_substring mem text comma ≡ pos p) × FirstAt mem text comma p)
    ⊎ ((has_substring mem text comma ≡ minus_one) × Absent mem text comma)
has_substring-first_example = has_substring-first mem text comma (omega arith)

split-join_example :
    (pieces : List String8) × (split mem text comma 2 (empty ∷ empty ∷ [])
      ≡ some (length pieces, overwrite pieces (empty ∷ empty ∷ [])))
    × (AllAbsent mem comma pieces)
    × (join (bytes mem comma) (map (bytes mem) pieces) ≡ bytes mem text)
split-join_example = split-join mem text comma (empty ∷ empty ∷ []) (omega arith) (omega arith)

split_loop_endless_example : split_loop 9 mem text empty 0 0 [] ≡ none
split_loop_endless_example =
    split_loop_endless mem text empty 9 0 0 [] refl (omega arith) (omega arith)

concatenate-append_example :
    (out : List ℕ) × (concatenate mem text comma (view 6 5) false ≡ some (success, out))
    × (bytes out (view 6 5) ≡ bytes mem text ++ bytes mem comma)
    × (get_or out 5 0 ≡ get_or mem 5 0)
concatenate-append_example =
    concatenate-append mem text comma (view 6 5) 5 (omega arith) (omega arith) (omega arith)
      (inr (omega arith)) (inr (omega arith)) (inr (omega arith)) (inl (omega arith))

reorder-moves_example :
    (out : List ℕ) × (reorder mem text 0 1 2 ≡ (success, out))
    × (read out 2 2 ≡ read mem 1 2)
    × (get_or out 1 0 ≡ get_or mem 1 0)
reorder-moves_example =
    reorder-moves mem text 0 1 2 1 (omega arith) (omega arith) (omega arith) (omega arith)
      (inl (omega arith))

has_substring_reverse-last_example :
    ((p : ℕ) × (has_substring_reverse mem text comma ≡ pos p) × LastAt mem text comma p)
    ⊎ ((has_substring_reverse mem text comma ≡ minus_one) × NotMirrored mem text comma)
has_substring_reverse-last_example = has_substring_reverse-last mem text comma (omega arith)

-- ===== src/Strings.antt =====
-- src/string/strings.c: views into byte buffers. The memory that the views point into is a list of
-- bytes, a pointer is an index of it, and the null pointer of an empty result is 0. A pointer to a
-- view that is written is an argument for its old value and a result for the new one.
pub mod Search
pub mod Reverse
pub mod Bytes
pub mod Pieces
pub mod Split
pub mod Edit
mod Tests
use cutl.Base.{
  ℕ, zero, suc, ◌+◌, ◌-◌, Bool, true, false, ◌&&◌, ◌||◌, not, Option, none, some, List, [], ◌∷◌,
  ltb, leb, ◌==◌, if◌then◌else◌, get_or, set, u64, sub64, ℤ, pos, negsuc, minus_one, i32,
  size_of_int, is_minus_one,
}
use cutl.Errors.{Result, success, insufficient_buffer, index_out_of_bounds}

pub record String8 : Type 0 where
  pub length : ℕ
  pub data_ptr : ℕ

-- The bytes from an address on, and writing bytes from an address on (`memcpy`, `memmove`).
pub read : List ℕ → ℕ → ℕ → List ℕ
read mem a zero = []
read mem a (suc n) = get_or mem a 0 ∷ read mem (a + 1) n

pub write : List ℕ → ℕ → List ℕ → List ℕ
write mem a [] = mem
write mem a (b ∷ bs) = write (set mem a b) (a + 1) bs

pub create_substring : String8 → ℕ → ℕ → String8 → Result × String8
create_substring str start stop substr =
    if ltb str.length start || ltb str.length stop
    then (index_out_of_bounds, substr)
    else (success, record { length = sub64 stop start; data_ptr = str.data_ptr + start })

-- `if (n > 0) memcpy(to, from, n)`, which is undefined, `none`, for runs of bytes that overlap.
pub copy : List ℕ → ℕ → ℕ → ℕ → Option (List ℕ)
copy mem to from n =
    if n == 0
    then some mem
    else if leb (to + n) from || leb (from + n) to
    then some (write mem to (read mem from n))
    else none

-- `same` is the test `result == str1` of the two pointers.
pub concatenate : List ℕ → String8 → String8 → String8 → Bool → Option (Result × List ℕ)
concatenate mem str1 str2 result same =
    if not (result.length == u64 (str1.length + str2.length))
    then some (insufficient_buffer, mem)
    else elim (if same then some mem else copy mem result.data_ptr str1.data_ptr str1.length) [
      | some first ↦ elim (copy first (result.data_ptr + str1.length) str2.data_ptr str2.length) [
        | some both ↦ some (success, both)
        | none ↦ none
      ]
      | none ↦ none
    ]

-- The value that the C library's `memcmp` returns for two runs of bytes is a parameter.
module _ (memcmp : List ℕ → List ℕ → ℤ) (mem : List ℕ) where
  pub compare : String8 → String8 → ℤ
  compare str1 str2 =
      if ltb str1.length str2.length
      then minus_one
      else if ltb str2.length str1.length
      then pos 1
      else memcmp (read mem str1.data_ptr str1.length) (read mem str2.data_ptr str1.length)

  pub compare_n : String8 → String8 → ℕ → ℤ
  compare_n str1 str2 n =
      let size1 = if ltb str1.length n then str1.length else n in
      let size2 = if ltb str2.length n then str2.length else n in
      if ltb size1 size2
      then minus_one
      else if ltb size2 size1
      then pos 1
      else memcmp (read mem str1.data_ptr size1) (read mem str2.data_ptr size1)

-- The loop on `match` at the address `a`, with the rounds left first.
pub match_loop : ℕ → List ℕ → ℕ → ℕ → ℕ → ℕ
match_loop zero mem a b match = match
match_loop (suc rounds) mem a b match =
    let rest = match_loop rounds mem a b (match + 1) in
    if get_or mem (a + match) 0 == get_or mem (b + match) 0 then rest else match

pub search_loop : ℕ → List ℕ → String8 → String8 → ℕ → ℤ
search_loop zero mem string substr place = minus_one
search_loop (suc rounds) mem string substr place =
    let rest = search_loop rounds mem string substr (place + 1) in
    if match_loop substr.length mem (string.data_ptr + place) substr.data_ptr 0 == substr.length
    then i32 place
    else rest

pub has_substring : List ℕ → String8 → String8 → ℤ
has_substring mem string substr =
    if ltb string.length substr.length
    then minus_one
    else search_loop (string.length - substr.length + 1) mem string substr 0

-- The loop on `match` downwards, with `match` first; `a` is `string->data + pos`.
pub match_reverse : ℕ → List ℕ → ℕ → ℕ → ℕ
match_reverse zero mem a b = 0
match_reverse (suc match) mem a b =
    let rest = match_reverse match mem a b in
    if get_or mem (a - suc match - 1) 0 == get_or mem (b + match) 0 then rest else suc match

pub search_reverse : ℕ → List ℕ → String8 → String8 → ℤ
search_reverse zero mem string substr = minus_one
search_reverse (suc rounds) mem string substr =
    let place = substr.length + suc rounds in
    let rest = search_reverse rounds mem string substr in
    if match_reverse substr.length mem (string.data_ptr + place) substr.data_ptr == 0
    then i32 place
    else rest

pub has_substring_reverse : List ℕ → String8 → String8 → ℤ
has_substring_reverse mem string substr =
    if ltb string.length substr.length
    then minus_one
    else search_reverse (string.length - substr.length) mem string substr

-- `string->length` rounds are enough: the position grows in each.
pub subspan_loop : ℕ → List ℕ → String8 → String8 → ℕ → ℕ → ℕ
subspan_loop zero mem string substr place max_len = max_len
subspan_loop (suc rounds) mem string substr place max_len =
    let match = match_loop substr.length mem (string.data_ptr + place) substr.data_ptr 0 in
    let rest =
      subspan_loop rounds mem string substr (place + 1)
        (if ltb max_len match then match else max_len) in
    if ltb (place + max_len) string.length
    then (if match == substr.length then substr.length else rest)
    else max_len

pub subspan : List ℕ → String8 → String8 → ℕ
subspan mem string substr = subspan_loop string.length mem string substr 0 0

unfoldable pub advance : String8 → ℕ → String8
advance str n =
    if leb str.length n
    then record { length = 0; data_ptr = 0 }
    else record { length = str.length - n; data_ptr = str.data_ptr + n }

unfoldable pub shrink : String8 → ℕ → String8
shrink str n =
    if ltb str.length n
    then record { length = 0; data_ptr = 0 }
    else record { length = str.length - n; data_ptr = str.data_ptr }

pub reorder : List ℕ → String8 → ℕ → ℕ → ℕ → Result × List ℕ
reorder mem str pos1 pos2 len =
    if ltb str.length (u64 (pos1 + len)) || ltb str.length (u64 (pos2 + len))
    then (index_out_of_bounds, mem)
    else (success, write mem (str.data_ptr + pos2) (read mem (str.data_ptr + pos1) len))

-- `if (output_count < max_output_count) output_array[output_count] = piece`
pub output : ℕ → ℕ → String8 → List String8 → List String8
output count max_count piece outs = if ltb count max_count then set outs count piece else outs

-- The loop of `split`; `none` when it is not done after the given number of rounds.
pub split_loop :
    ℕ → List ℕ → String8 → String8 → ℕ → ℕ → List String8 → Option (String8 × ℕ × List String8)
split_loop zero mem str delimiter max_count count outs = none
split_loop (suc rounds) mem str delimiter max_count count outs =
    let found = has_substring mem str delimiter in
    let place = size_of_int found in
    let piece : String8 = record { length = place; data_ptr = str.data_ptr } in
    let rest =
      split_loop rounds mem (advance str (u64 (place + delimiter.length))) delimiter max_count
        (u64 (count + 1)) (output count max_count piece outs) in
    if str.length == 0
    then some (str, count, outs)
    else if is_minus_one found
    then some (str, count, outs)
    else rest

-- The last output behind the loop.
pub split_end : ℕ → Option (String8 × ℕ × List String8) → Option (ℕ × List String8)
split_end max_count none = none
split_end max_count (some (str, count, outs)) =
    some (u64 (count + 1), output count max_count str outs)

-- `str.length + 1` rounds are enough for a delimiter that is not empty: every round shortens the
-- string.
pub split : List ℕ → String8 → String8 → ℕ → List String8 → Option (ℕ × List String8)
split mem str delimiter max_count outs =
    split_end max_count (split_loop (suc str.length) mem str delimiter max_count 0 outs)

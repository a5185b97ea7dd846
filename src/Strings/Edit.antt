-- ===== src/Strings/Edit.antt =====
-- Writing into the memory behind the views: concatenation and moving a part of a view.
use cutl.Base.{
  ℕ, zero, suc, ◌+◌, ◌^◌, ◌≤◌, ◌<◌, ◌≡◌, ◌≢◌, ◌⊎◌, inl, inr, refl, sym, ◌∙◌, ap, ap₂, arith, false,
  List, [], ◌∷◌, ◌++◌, length, set, get_or, get_or-set_self, get_or-set_ne, length-set, le→ltb,
  le→leb, leb, Bool, true, some, ◌||◌, eq→==, ne→==, subst, u64,
}
use cutl.Errors.{success}
use cutl.Strings.{String8, read, write, copy, concatenate, reorder}
use cutl.Strings.Bytes.{bytes, read-append}

-- Two runs of bytes that share none.
abbrev pub Apart : ℕ → ℕ → ℕ → ℕ → Type 0
Apart a m b n = (a + m ≤ b) ⊎ (b + n ≤ a)

pub length-read : (mem : List ℕ) (a n : ℕ) → length (read mem a n) ≡ n
unfolding read
length-read mem a zero = refl
length-read mem a (suc n) = ap suc (length-read mem (a + 1) n)

pub length-write : (mem : List ℕ) (a : ℕ) (bs : List ℕ) → length (write mem a bs) ≡ length mem
unfolding write
length-write mem a [] = refl
length-write mem a (b ∷ bs) = length-write (set mem a b) (a + 1) bs ∙ length-set mem a b

-- A write leaves the bytes outside it as they were.
pub get_or-write_out :
    (mem : List ℕ) (a : ℕ) (bs : List ℕ) (j : ℕ)
    → (j < a) ⊎ (a + length bs ≤ j)
    → get_or (write mem a bs) j 0 ≡ get_or mem j 0
unfolding write
get_or-write_out mem a [] j h = refl
get_or-write_out mem a (b ∷ bs) j h =
    let out : (j < a + 1) ⊎ (a + 1 + length bs ≤ j) = elim h [
      | inl below ↦ inl (omega arith)
      | inr above ↦ inr (omega arith)
    ] in
    let other : a ≢ j = elim h [ inl below ↦ omega arith | inr above ↦ omega arith ] in
    get_or-write_out (set mem a b) (a + 1) bs j out ∙ get_or-set_ne mem a j b 0 other

read_agree :
    (mem out : List ℕ) (a n : ℕ)
    → ((i : ℕ) → a ≤ i → i < a + n → get_or out i 0 ≡ get_or mem i 0)
    → read out a n ≡ read mem a n
unfolding read
read_agree mem out a zero h = refl
read_agree mem out a (suc n) h =
    ap₂ (λ b bs. b ∷ bs) (h a (omega arith) (omega arith))
      (read_agree mem out (a + 1) n (λ i l u. h i (omega arith) (omega arith)))

pub read-write-Apart :
    (mem : List ℕ) (a : ℕ) (bs : List ℕ) (b n : ℕ)
    → Apart a (length bs) b n
    → read (write mem a bs) b n ≡ read mem b n
read-write-Apart mem a bs b n h = read_agree mem (write mem a bs) b n (λ i l u.
    get_or-write_out mem a bs i
      (elim h [ inl before ↦ inr (omega arith) | inr behind ↦ inl (omega arith) ]))

pub read-write_self :
    (mem : List ℕ) (a : ℕ) (bs : List ℕ)
    → a + length bs ≤ length mem
    → read (write mem a bs) a (length bs) ≡ bs
unfolding read write
read-write_self mem a [] h = refl
read-write_self mem a (b ∷ bs) h =
    ap₂ (λ c cs. c ∷ cs)
      (get_or-write_out (set mem a b) (a + 1) bs a (inl (omega arith))
        ∙ get_or-set_self mem a b 0 (omega arith))
      (read-write_self (set mem a b) (a + 1) bs (omega (arith, length-set mem a b)))

-- A run of bytes, and another behind it.
read-two_writes :
    (mem : List ℕ) (a : ℕ) (xs ys : List ℕ)
    → a + (length xs + length ys) ≤ length mem
    → read (write (write mem a xs) (a + length xs) ys) a (length xs + length ys) ≡ xs ++ ys
read-two_writes mem a xs ys room =
    let first = write mem a xs in
    let kept = length-write mem a xs in
    read-append (write first (a + length xs) ys) a (length xs) (length ys)
    ∙ ap₂ ◌++◌
        (read-write-Apart first (a + length xs) ys a (length xs) (inr (omega arith))
          ∙ read-write_self mem a xs (omega arith))
        (read-write_self first (a + length xs) ys (omega arith))

get_or-two_writes :
    (mem : List ℕ) (a : ℕ) (xs ys : List ℕ) (j : ℕ)
    → (j < a) ⊎ (a + (length xs + length ys) ≤ j)
    → get_or (write (write mem a xs) (a + length xs) ys) j 0 ≡ get_or mem j 0
get_or-two_writes mem a xs ys j (inl below) =
    get_or-write_out (write mem a xs) (a + length xs) ys j (inl (omega arith))
    ∙ get_or-write_out mem a xs j (inl below)
get_or-two_writes mem a xs ys j (inr above) =
    get_or-write_out (write mem a xs) (a + length xs) ys j (inr (omega arith))
    ∙ get_or-write_out mem a xs j (inr (omega arith))

or_true : (b : Bool) → b || true ≡ true
or_true b = ground arith

copy-Apart :
    (mem : List ℕ) (to from n : ℕ)
    → Apart to n from n
    → copy mem to from n ≡ some (write mem to (read mem from n))
unfolding copy read write
copy-Apart mem to from zero h = refl
copy-Apart mem to from (suc n) (inl before) =
    rw (ne→== (suc n) 0 (omega arith), le→leb (to + suc n) from before) refl
copy-Apart mem to from (suc n) (inr behind) =
    rw
      (
        ne→== (suc n) 0 (omega arith),
        le→leb (from + suc n) to behind,
        or_true (leb (to + suc n) from),
      )
      refl

concatenate-eq-writes :
    (mem : List ℕ) (str1 str2 result : String8)
    → result.length ≡ u64 (str1.length + str2.length)
    → Apart result.data_ptr str1.length str1.data_ptr str1.length
    → Apart (result.data_ptr + str1.length) str2.length str2.data_ptr str2.length
    → Apart result.data_ptr str1.length str2.data_ptr str2.length
    → concatenate mem str1 str2 result false
      ≡ some (
        success,
        write
            (write mem result.data_ptr (bytes mem str1))
            (result.data_ptr + str1.length)
            (bytes mem str2),
      )
unfolding concatenate
concatenate-eq-writes mem str1 str2 result size first_apart second_apart apart =
    let first = write mem result.data_ptr (bytes mem str1) in
    let second : read first str2.data_ptr str2.length ≡ bytes mem str2 =
      read-write-Apart mem result.data_ptr (bytes mem str1) str2.data_ptr str2.length (
        subst (λ n. Apart result.data_ptr n str2.data_ptr str2.length)
          (sym (length-read mem str1.data_ptr str1.length)) apart) in
    rw
      (
        eq→== _ _ size,
        copy-Apart mem result.data_ptr str1.data_ptr str1.length first_apart,
        copy-Apart first (result.data_ptr + str1.length) str2.data_ptr str2.length second_apart,
        second,
      )
      refl

-- For a result that is another view, of exactly the length of both strings and inside the memory,
-- where neither part of the result shares a byte with the string that is copied there, nor the
-- first part with the second string: the function succeeds, the result then holds the bytes of the
-- two strings one behind the other, and no byte outside the result changes.
pub concatenate-append :
    (mem : List ℕ) (str1 str2 result : String8) (j : ℕ)
    → result.length ≡ str1.length + str2.length
    → result.length < 2 ^ 64
    → result.data_ptr + result.length ≤ length mem
    → Apart result.data_ptr str1.length str1.data_ptr str1.length
    → Apart (result.data_ptr + str1.length) str2.length str2.data_ptr str2.length
    → Apart result.data_ptr str1.length str2.data_ptr str2.length
    → (j < result.data_ptr) ⊎ (result.data_ptr + result.length ≤ j)
    → (out : List ℕ) × (concatenate mem str1 str2 result false ≡ some (success, out))
      × (bytes out result ≡ bytes mem str1 ++ bytes mem str2)
      × (get_or out j 0 ≡ get_or mem j 0)
concatenate-append mem str1 str2 result j size small room first_apart second_apart apart outside =
    let n1 = length-read mem str1.data_ptr str1.length in
    let n2 = length-read mem str2.data_ptr str2.length in
    let total : length (bytes mem str1) + length (bytes mem str2) ≡ result.length = omega arith in
    let exact : result.length ≡ u64 (str1.length + str2.length) = omega arith in
    let out =
      write (write mem result.data_ptr (bytes mem str1)) (result.data_ptr + length (bytes mem str1))
        (bytes mem str2) in
    (
      out,
      concatenate-eq-writes mem str1 str2 result exact first_apart second_apart apart
          ∙ ap
              (λ n. some (
                success,
                write (write mem result.data_ptr (bytes mem str1)) (result.data_ptr + n)
                    (bytes mem str2),
              ))
              (sym n1),
      ap (λ n. read out result.data_ptr n) (sym total)
          ∙ read-two_writes mem result.data_ptr (bytes mem str1) (bytes mem str2) (omega arith),
      get_or-two_writes mem result.data_ptr (bytes mem str1) (bytes mem str2) j
          (elim outside [ inl below ↦ inl below | inr above ↦ inr (omega arith) ]),
    )

-- For two runs of `len` bytes inside the view, which may overlap, and a view inside the memory:
-- the second run then holds what the first held, and no byte outside the second run changes.
pub reorder-moves :
    (mem : List ℕ) (str : String8) (pos1 pos2 len j : ℕ)
    → pos1 + len ≤ str.length
    → pos2 + len ≤ str.length
    → str.length < 2 ^ 64
    → str.data_ptr + str.length ≤ length mem
    → (j < str.data_ptr + pos2) ⊎ (str.data_ptr + pos2 + len ≤ j)
    → (out : List ℕ) × (reorder mem str pos1 pos2 len ≡ (success, out))
      × (read out (str.data_ptr + pos2) len ≡ read mem (str.data_ptr + pos1) len)
      × (get_or out j 0 ≡ get_or mem j 0)
unfolding reorder
reorder-moves mem str pos1 pos2 len j from to small room outside =
    let bs = read mem (str.data_ptr + pos1) len in
    let n = length-read mem (str.data_ptr + pos1) len in
    let fits1 : u64 (pos1 + len) ≡ pos1 + len = omega arith in
    let fits2 : u64 (pos2 + len) ≡ pos2 + len = omega arith in
    (
      write mem (str.data_ptr + pos2) bs,
      rw (fits1, fits2, le→ltb _ _ from, le→ltb _ _ to) refl,
      ap (λ k. read (write mem (str.data_ptr + pos2) bs) (str.data_ptr + pos2) k) (sym n)
          ∙ read-write_self mem (str.data_ptr + pos2) bs (omega arith),
      get_or-write_out mem (str.data_ptr + pos2) bs j
          (elim outside [ inl below ↦ inl below | inr above ↦ inr (omega arith) ]),
    )

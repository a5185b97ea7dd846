-- ===== src/Strings/Pieces.antt =====
-- The pieces of a view between the occurrences of a delimiter, and their bytes.
use mathlib.Core.List.{map}
use cutl.Base.{ℕ, ◌+◌, ◌-◌, ◌<◌, ◌≡◌, refl, sym, ◌∙◌, ap, ap₂, arith, List, [], ◌∷◌, ◌++◌}
use cutl.Strings.{String8, read, advance}
use cutl.Strings.Search.{OccursAt, FirstAt, Absent}
use cutl.Strings.Bytes.{bytes, read-append, read-Matches, bytes-advance}

-- The first `n` bytes of a view.
abbrev pub front : String8 → ℕ → String8
front str n = record { length = n; data_ptr = str.data_ptr }

-- The pieces of a view: it is whole, or what stands before the first delimiter is cut off.
pub data Splits (mem : List ℕ) (delimiter : String8) : String8 → List String8 → Type 0 where
  whole : {str : String8} → Absent mem str delimiter → Splits mem delimiter str (str ∷ [])
  cut :
      {str : String8} {p : ℕ} {pieces : List String8}
      → FirstAt mem str delimiter p
      → Splits mem delimiter (advance str (p + delimiter.length)) pieces
      → Splits mem delimiter str (front str p ∷ pieces)

-- The pieces with the delimiter between them.
abbrev pub join : List ℕ → List (List ℕ) → List ℕ
join d [] = []
join d (p ∷ []) = p
join d (p ∷ q ∷ ps) = p ++ (d ++ join d (q ∷ ps))

-- No piece contains the delimiter.
abbrev pub AllAbsent : List ℕ → String8 → List String8 → Type 0
AllAbsent mem delimiter [] = Unit {0}
AllAbsent mem delimiter (p ∷ ps) = Absent mem p delimiter × AllAbsent mem delimiter ps

module _ (mem : List ℕ) (delimiter : String8) where
  -- A view is what stands before an occurrence, the delimiter, and what stands behind it.
  bytes-cut :
      (str : String8) (p : ℕ)
      → OccursAt mem str delimiter p
      → bytes mem str
        ≡ bytes mem (front str p)
          ++ (bytes mem delimiter ++ bytes mem (advance str (p + delimiter.length)))
  bytes-cut str p o =
      let n : ℕ = delimiter.length in
      let inside = o.inside in
      let parts : str.length ≡ p + (n + (str.length - (p + n))) = omega arith in
      let behind : str.data_ptr + p + n ≡ str.data_ptr + (p + n) = omega arith in
      ap (λ k. read mem str.data_ptr k) parts
      ∙ read-append mem str.data_ptr p (n + (str.length - (p + n)))
      ∙ ap (λ bs. read mem str.data_ptr p ++ bs)
          (read-append mem (str.data_ptr + p) n (str.length - (p + n))
            ∙ ap₂ ◌++◌ (read-Matches mem (str.data_ptr + p) delimiter.data_ptr n o.matches) (
                ap (λ a. read mem a (str.length - (p + n))) behind
                ∙ sym (bytes-advance mem str (p + n) inside)))

  pub Splits-join :
      (str : String8) (pieces : List String8)
      → Splits mem delimiter str pieces
      → join (bytes mem delimiter) (map (bytes mem) pieces) ≡ bytes mem str
  Splits-join str _ (whole absent) = refl
  Splits-join str _ (cut {pieces = []} f rest) = elim rest [ ]
  Splits-join str _ (cut {p = p} {pieces = q ∷ pieces} f rest) =
      ap (λ bs. bytes mem (front str p) ++ (bytes mem delimiter ++ bs))
        (Splits-join (advance str (p + delimiter.length)) (q ∷ pieces) rest)
      ∙ sym (bytes-cut str p f.occurs)

  front-Absent :
      (str : String8) (p : ℕ)
      → 0 < delimiter.length
      → FirstAt mem str delimiter p
      → Absent mem (front str p) delimiter
  front-Absent str p some_delimiter f q o =
      let inside = o.inside in
      let whole_inside = f.occurs.inside in
      f.first q (omega arith) (record { inside = omega arith; matches = o.matches })

  pub Splits-AllAbsent :
      (str : String8) (pieces : List String8)
      → 0 < delimiter.length
      → Splits mem delimiter str pieces
      → AllAbsent mem delimiter pieces
  Splits-AllAbsent str _ some_delimiter (whole absent) = (absent, tt)
  Splits-AllAbsent str _ some_delimiter (cut {p = p} {pieces = pieces} f rest) = (
    front-Absent str p some_delimiter f,
    Splits-AllAbsent (advance str (p + delimiter.length)) pieces some_delimiter rest,
  )

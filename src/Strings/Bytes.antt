-- ===== src/Strings/Bytes.antt =====
-- The bytes of a view, and what the parts of a view read.
use mathlib.Core.List.{}
use cutl.Base.{
  ℕ, zero, suc, ◌+◌, ◌-◌, ◌≤◌, ◌<◌, ◌≡◌, refl, sym, ◌∙◌, ap, ap₂, arith, List, ◌∷◌, ◌++◌, get_or,
  lt-or-le, le→leb, lt→leb, leb, if◌then◌else◌, inl, inr,
}
use cutl.Strings.{String8, read, advance}
use cutl.Strings.Search.{Matches}

abbrev pub bytes : List ℕ → String8 → List ℕ
bytes mem str = read mem str.data_ptr str.length

pub read-append :
    (mem : List ℕ) (a m n : ℕ) → read mem a (m + n) ≡ read mem a m ++ read mem (a + m) n
unfolding read
read-append mem a zero n =
    let e : 0 + n ≡ n = omega arith in
    let z : a + 0 ≡ a = omega arith in ap (λ k. read mem a k) e ∙ ap (λ k. read mem k n) (sym z)
read-append mem a (suc m) n =
    let e : suc m + n ≡ suc (m + n) = omega arith in
    let z : a + 1 + m ≡ a + suc m = omega arith in
    ap (λ k. read mem a k) e
    ∙ ap (λ bs. get_or mem a 0 ∷ bs)
        (read-append mem (a + 1) m n ∙ ap (λ k. read mem (a + 1) m ++ read mem k n) z)

pub read-Matches : (mem : List ℕ) (a b n : ℕ) → Matches mem a b n → read mem a n ≡ read mem b n
unfolding read
read-Matches mem a b zero h = refl
read-Matches mem a b (suc n) h =
    let za : a + 0 ≡ a = omega arith in
    let zb : b + 0 ≡ b = omega arith in
    let first : get_or mem a 0 ≡ get_or mem b 0 =
      ap (λ k. get_or mem k 0) (sym za) ∙ h 0 (omega arith) ∙ ap (λ k. get_or mem k 0) zb in
    let shifted : Matches mem (a + 1) (b + 1) n = λ i u.
      let ea : a + 1 + i ≡ a + suc i = omega arith in
      let eb : b + 1 + i ≡ b + suc i = omega arith in
      ap (λ k. get_or mem k 0) ea ∙ h (suc i) (omega arith) ∙ ap (λ k. get_or mem k 0) (sym eb) in
    ap₂ (λ b bs. b ∷ bs) first (read-Matches mem (a + 1) (b + 1) n shifted)

-- What is left of a view behind its first `n` bytes.
pub bytes-advance :
    (mem : List ℕ) (str : String8) (n : ℕ)
    → n ≤ str.length
    → bytes mem (advance str n) ≡ read mem (str.data_ptr + n) (str.length - n)
unfolding advance read
bytes-advance mem str n h = elim (lt-or-le n str.length) [
  | inl less ↦ rw (lt→leb _ _ less) refl
  | inr all ↦
      let none_left : str.length - n ≡ 0 = omega arith in rw (le→leb _ _ all, none_left) refl
]

pub length-advance : (str : String8) (n : ℕ) → (advance str n).length ≡ str.length - n
unfolding advance
length-advance str n = elim (lt-or-le n str.length) [
  | inl less ↦ rw (lt→leb str.length n less) refl
  | inr all ↦
      let none_left : 0 ≡ str.length - n = omega arith in rw (le→leb str.length n all) none_left
]

pub advance_zero : (str : String8) → 0 < str.length → advance str 0 ≡ str
unfolding advance
advance_zero str h =
    let same_length : str.length - 0 ≡ str.length = omega arith in
    let same_data : str.data_ptr + 0 ≡ str.data_ptr = omega arith in
    let null : String8 = record { length = 0; data_ptr = 0 } in
    let same : (if leb str.length 0 then null else str) ≡ str = rw (lt→leb str.length 0 h) refl in
    ap₂
      (λ n a.
        let view : String8 = record { length = n; data_ptr = a } in
        if leb str.length 0 then null else view)
      same_length same_data
    ∙ same

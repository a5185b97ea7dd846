-- ===== src/Format/Text.antt =====
-- The digits that the loops write, from the last digit to the first.
use native.Mathlib.Nat.{pow-zero, pow-succ', pow-le-pow_right, div-add-mod, mod-lt, mul-le-mul_left}
use cutl.Base.{
  ℕ, zero, suc, ◌+◌, ◌-◌, ◌*◌, ◌/◌, ◌%◌, ◌^◌, ◌≤◌, ◌<◌, ◌≡◌, ◌≢◌, inl, inr, refl, sym, ◌∙◌, ap,
  subst, arith, Bool, false, not, ◌&&◌, Option, none, some, List, [], ◌∷◌, ◌++◌, append_assoc,
  length, length-append, get_or, u32, ◌==◌, if◌then◌else◌, eq→==, ne→==, eq-or-ne, lt-or-le,
}
use cutl.Streams.{Buffer}
use cutl.Strings.{String8}
use cutl.Format.{DigitSpec, SeparatorSpec, extract_next_digit}
use cutl.Format.Digits.{IsPlain, HasDigits, HasDigits-cons, digit_loop-Counts}
use cutl.Format.Write.{write_output_right, write_digits}
use cutl.Format.Output.{Written, WrittenOut, right_step}

-- The number that digits stand for, the last digit first.
abbrev pub number : ℕ → List ℕ → ℕ
number base [] = 0
number base (d ∷ ds) = d + base * number base ds

abbrev pub AllBelow : ℕ → List ℕ → Type 0
AllBelow base [] = Unit {0}
AllBelow base (d ∷ ds) = (d < base) × AllBelow base ds

-- The digits of the value in the base, the last one first, without zeros in front.
pub record IsNumeral (base value : ℕ) (ds : List ℕ) : Type 0 where
  pub below : AllBelow base ds
  pub total : number base ds ≡ value
  pub shortest : HasDigits base value (length ds)

-- The strings of the digits in the order in which they are read.
abbrev pub digit_text : DigitSpec → List ℕ → List ℕ
digit_text spec [] = []
digit_text spec (d ∷ ds) = digit_text spec ds ++ get_or spec.digits d []

-- They, for a value that has no more digits than the rounds.
unfoldable pub numeral : ℕ → ℕ → ℕ → List ℕ
numeral zero base value = []
numeral (suc rounds) base value =
    let rest = numeral rounds base (value / base) in if value == 0 then [] else value % base ∷ rest

numeral_zero : (rounds base value : ℕ) → value ≡ 0 → numeral rounds base value ≡ []
unfolding numeral
numeral_zero zero base value e = refl
numeral_zero (suc rounds) base value e = rw (eq→== value 0 e) refl

numeral_cons :
    (rounds base value : ℕ)
    → value ≢ 0
    → numeral (suc rounds) base value ≡ value % base ∷ numeral rounds base (value / base)
unfolding numeral
numeral_cons rounds base value ne = rw (ne→== value 0 ne) refl

HasDigits-le :
    (base value k m : ℕ) → 0 < base → HasDigits base value k → HasDigits base value m → k ≤ m
HasDigits-le base value k m pos h g = elim (lt-or-le m k) [
  | inr le ↦ le
  | inl lt ↦ elim h.least [
    | inl e ↦ omega arith
    | inr least ↦
        let above = g.below in
        let power : base ^ m ≤ base ^ (k - 1) = pow-le-pow_right pos (omega arith) in
        absurd (omega arith)
  ]
]

pub HasDigits-unique :
    (base value k m : ℕ) → 0 < base → HasDigits base value k → HasDigits base value m → k ≡ m
HasDigits-unique base value k m pos h g =
    omega (arith, HasDigits-le base value k m pos h g, HasDigits-le base value m k pos g h)

and_false : (b : Bool) → b && false ≡ false
and_false b = ground arith

module _ (mem : Buffer) (base n : ℕ) (spec : DigitSpec) (sep : SeparatorSpec) (plain : IsPlain spec)
    (off : sep.separator_distance ≡ 0) where
  -- What the loop writes when the output has room for the digits.
  abbrev pub Prints : ℕ → ℕ → List ℕ → List ℕ → ℕ → Option ((Buffer × String8) × ℕ × ℕ) → Type 0
  Prints rounds value first last written outcome =
      (ds : List ℕ) × (out : Buffer × String8) × (counter : ℕ) × (outcome
        ≡ some (out, counter, written + length ds))
      × (ds ≡ numeral rounds spec.base value)
      × IsNumeral spec.base value ds
      × WrittenOut mem base n out first (digit_text spec ds ++ last)

  Prints-stop :
      (rounds : ℕ) (now : Buffer) (view : String8) (first last : List ℕ) (value written counter : ℕ)
      (rest : Option ((Buffer × String8) × ℕ × ℕ))
      → Written mem base n now view first last
      → value ≡ 0
      → Prints rounds value first last written
          (if value == 0 then some ((now, view), counter, written) else rest)
  Prints-stop rounds now view first last value written counter rest w e =
      let one : spec.base ^ 0 ≡ 1 = pow-zero spec.base in
      let same : written ≡ written + 0 = omega arith in
      rw (eq→== value 0 e) (
        [],
        (now, view),
        counter,
        ap (λ (k : ℕ). some ((now, view), counter, k)) same,
        sym (numeral_zero rounds spec.base value e),
        record {
          below = tt;
          total = omega arith;
          shortest = record { below = omega arith; least = inl refl };
        },
        w,
      )

  -- A digit in front of which the others are written.
  Prints-cons :
      (rounds value : ℕ) (first last : List ℕ) (written digit : ℕ) (str : List ℕ)
      (outcome : Option ((Buffer × String8) × ℕ × ℕ)) {next : ℕ}
      → spec.base * next + digit ≡ value
      → digit < spec.base
      → get_or spec.digits digit [] ≡ str
      → ((k : ℕ) → HasDigits spec.base next k → HasDigits spec.base value (k + 1))
      → numeral (suc rounds) spec.base value ≡ digit ∷ numeral rounds spec.base next
      → Prints rounds next first (str ++ last) (written + 1) outcome
      → Prints (suc rounds) value first last written outcome
  Prints-cons rounds value first last written digit str outcome split low e longer cons
        (ds, out, counter, found, same, shape, w) =
      let count : written + 1 + length ds ≡ written + length (digit ∷ ds) = omega arith in
      let total = shape.total in
      (
        digit ∷ ds,
        out,
        counter,
        found ∙ ap (λ (k : ℕ). some (out, counter, k)) count,
        ap (λ (t : List ℕ). digit ∷ t) same ∙ sym cons,
        record {
          below = (low, shape.below);
          total = ap (λ (t : ℕ). digit + spec.base * t) total ∙ omega arith;
          shortest =
              subst (λ k. HasDigits spec.base value k) (omega arith)
                (longer (length ds) shape.shortest);
        },
        subst (λ t. WrittenOut mem base n out first t)
            (sym (append_assoc (digit_text spec ds) str last)
              ∙ ap (λ t. (digit_text spec ds ++ t) ++ last) (sym e))
            w,
      )

  pub write_digits-Prints :
      (rounds : ℕ) (now : Buffer) (view : String8) (first last : List ℕ) (value counter written : ℕ)
      → Written mem base n now view first last
      → value < 2 ^ rounds
      → counter + rounds < 2 ^ 31
      → written + rounds < 2 ^ 31
      → ((k : ℕ) → HasDigits spec.base value k → k ≤ view.length)
      → Prints rounds value first last written
          (write_digits rounds (now, view) value spec sep counter written)
  unfolding write_digits extract_next_digit
  write_digits-Prints zero now view first last value counter written w bound small few room =
      let one : 2 ^ zero ≡ 1 = pow-zero 2 in
      Prints-stop zero now view first last value written counter none w (omega arith)
  write_digits-Prints (suc rounds) now view first last value counter written w bound small few
        room =
      elim (eq-or-ne value 0) [
        | inl e ↦ Prints-stop (suc rounds) now view first last value written counter _ w e
        | inr ne ↦
            let next : ℕ = value / spec.base in
            let digit : ℕ = value % spec.base in
            let base_bound = plain.base_bound in
            let low = mod-lt value {m = spec.base} (omega arith) in
            let one_byte = plain.one_byte digit low in
            let double : 2 ^ suc rounds ≡ 2 * 2 ^ rounds = pow-succ' 2 rounds in
            let least : next * 2 ≤ next * spec.base = mul-le-mul_left next base_bound in
            let split = div-add-mod value spec.base in
            let order : next * spec.base ≡ spec.base * next = grind arith in
            let str = get_or spec.digits digit [] in
            let more : (k : ℕ) → HasDigits spec.base next k → k + 1 ≤ view.length = λ k h.
              room (k + 1) (HasDigits-cons spec.base value k (omega arith) (omega arith) h) in
            let out = write_output_right (now, view) str in
            let (j, _, _, _, _, some_digits, _) =
              digit_loop-Counts spec plain rounds next (record { bytes = 0; units = 0 })
                (omega arith) (omega arith) (omega arith) in
            let one_left = more j some_digits in
            let step = right_step mem base n now view first last w str one_byte (omega arith) in
            let before = w.size in
            let after = step.size in
            let grown = length-append str last in
            let not_due : (u32 (counter + 1) == sep.separator_distance) ≡ false =
              ne→== _ _ (omega arith) in
            let count : u32 (counter + 1) ≡ counter + 1 = omega arith in
            let done : u32 (written + 1) ≡ written + 1 = omega arith in
            rw (ne→== value 0 ne, not_due, and_false (not (next == 0)), count, done)
              (Prints-cons rounds value first last written digit str
                (write_digits rounds out next spec sep (counter + 1) (written + 1)) split low refl
                (λ k h. HasDigits-cons spec.base value k (omega arith) (omega arith) h)
                (numeral_cons rounds spec.base value ne)
                (write_digits-Prints rounds out.0 out.1 first (str ++ last) next (counter + 1)
                  (written + 1) step (omega arith) (omega arith) (omega arith)
                  (λ k h. let m = more k h in omega arith)))
      ]

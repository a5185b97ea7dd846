-- ===== src/Format/Digits.antt =====
-- How many digits the loop over a value counts.
use native.Mathlib.Nat.{pow-zero, pow-succ', div-add-mod, mod-lt, mul-le-mul_left}
use cutl.Base.{
  ℕ, zero, suc, ◌+◌, ◌-◌, ◌*◌, ◌/◌, ◌%◌, ◌^◌, ◌≤◌, ◌<◌, ◌≡◌, ◌⊎◌, inl, inr, refl, ◌∙◌, ap, arith,
  Option, none, some, [], length, get_or, u32, ◌==◌, if◌then◌else◌, eq→==, ne→==, eq-or-ne,
}
use cutl.Format.{
  DigitSpec, digit_spec_decimal, CharacterRequirements, extract_next_digit, digit_loop,
}

-- Every digit of the base is one byte.
pub record IsPlain (spec : DigitSpec) : Type 0 where
  pub base_bound : 2 ≤ spec.base
  pub one_byte : (d : ℕ) → d < spec.base → length (get_or spec.digits d []) ≡ 1

decimal_digit : (d : ℕ) → d < 10 → length (get_or digit_spec_decimal.digits d []) ≡ 1
decimal_digit zero h = refl
decimal_digit (suc zero) h = refl
decimal_digit (suc (suc zero)) h = refl
decimal_digit (suc (suc (suc zero))) h = refl
decimal_digit (suc (suc (suc (suc zero)))) h = refl
decimal_digit (suc (suc (suc (suc (suc zero))))) h = refl
decimal_digit (suc (suc (suc (suc (suc (suc zero)))))) h = refl
decimal_digit (suc (suc (suc (suc (suc (suc (suc zero))))))) h = refl
decimal_digit (suc (suc (suc (suc (suc (suc (suc (suc zero)))))))) h = refl
decimal_digit (suc (suc (suc (suc (suc (suc (suc (suc (suc zero))))))))) h = refl
decimal_digit (suc (suc (suc (suc (suc (suc (suc (suc (suc (suc d)))))))))) h = absurd (omega arith)

pub digit_spec_decimal-IsPlain : IsPlain digit_spec_decimal
digit_spec_decimal-IsPlain = record { base_bound = omega arith; one_byte = decimal_digit }

-- `k` digits in the base, and no fewer, hold the value.
pub record HasDigits (base value k : ℕ) : Type 0 where
  pub below : value < base ^ k
  pub least : (k ≡ 0) ⊎ (base ^ (k - 1) ≤ value)

pub HasDigits-cons :
    (base value k : ℕ)
    → 0 < base
    → 0 < value
    → HasDigits base (value / base) k
    → HasDigits base value (k + 1)
HasDigits-cons base value k pos some_value h =
    let split = div-add-mod value base in
    let low = mod-lt value {m = base} pos in
    let next : ℕ = value / base in
    let grown : base * (next + 1) ≤ base * base ^ k =
      mul-le-mul_left base (omega (arith, h.below)) in
    let shape : base ^ (k + 1) ≡ base * base ^ k = power k in
    let drop_one : base ^ (k + 1 - 1) ≡ base ^ k = ap (λ t. base ^ t) (omega arith) in
    record {
      below = omega arith;
      least = inr (
          rw drop_one (elim (eq-or-ne k 0) [
            | inl none_left ↦
                let one : base ^ k ≡ 1 = ap (λ t. base ^ t) none_left ∙ pow-zero base in omega arith
            | inr some_left ↦
                let up : base ^ k ≡ base * base ^ (k - 1) =
                  ap (λ t. base ^ t) (omega arith) ∙ power (k - 1) in
                let more : base ^ (k - 1) ≤ next = elim h.least [
                  | inl e ↦ absurd (some_left e)
                  | inr le ↦ le
                ] in
                let times : base * base ^ (k - 1) ≤ base * next = mul-le-mul_left base more in
                omega arith
          ]));
    }
  where
    power : (i : ℕ) → base ^ (i + 1) ≡ base * base ^ i
    power i = let e : i + 1 ≡ suc i = omega arith in ap (λ t. base ^ t) e ∙ pow-succ' base i

-- What the loop returns: a byte and a unit more for each of `k` digits.
abbrev pub Counts :
    DigitSpec → ℕ → ℕ → CharacterRequirements → Option CharacterRequirements → Type 0
Counts spec rounds value reqs outcome =
    (k : ℕ) × (out : CharacterRequirements) × (outcome ≡ some out)
    × (out.bytes ≡ reqs.bytes + k)
    × (out.units ≡ reqs.units + k)
    × HasDigits spec.base value k
    × (k ≤ rounds)

Counts-stop :
    (spec : DigitSpec) (rounds value : ℕ) (reqs : CharacterRequirements)
    (rest : Option CharacterRequirements)
    → value ≡ 0
    → Counts spec rounds value reqs (if value == 0 then some reqs else rest)
Counts-stop spec rounds value reqs rest e =
    let one : spec.base ^ 0 ≡ 1 = pow-zero spec.base in
    rw (eq→== value 0 e) (
      0,
      reqs,
      refl,
      omega arith,
      omega arith,
      record { below = omega arith; least = inl refl },
      omega arith,
    )

-- The loop ends in as many rounds as there are bits.
pub digit_loop-Counts :
    (spec : DigitSpec) (plain : IsPlain spec) (rounds value : ℕ) (reqs : CharacterRequirements)
    → value < 2 ^ rounds
    → reqs.bytes + rounds < 2 ^ 32
    → reqs.units + rounds < 2 ^ 32
    → Counts spec rounds value reqs (digit_loop rounds value spec reqs)
unfolding digit_loop extract_next_digit
digit_loop-Counts spec plain zero value reqs bound small_bytes small_units =
    let one : 2 ^ zero ≡ 1 = pow-zero 2 in Counts-stop spec zero value reqs none (omega arith)
digit_loop-Counts spec plain (suc rounds) value reqs bound small_bytes small_units =
    elim (eq-or-ne value 0) [
      | inl e ↦ Counts-stop spec (suc rounds) value reqs _ e
      | inr ne ↦
          let next : ℕ = value / spec.base in
          let base_bound = plain.base_bound in
          let low = mod-lt value {m = spec.base} (omega arith) in
          let one_byte = plain.one_byte (value % spec.base) low in
          let double : 2 ^ suc rounds ≡ 2 * 2 ^ rounds = pow-succ' 2 rounds in
          let least : next * 2 ≤ next * spec.base = mul-le-mul_left next base_bound in
          let split = div-add-mod value spec.base in
          let order : next * spec.base ≡ spec.base * next = grind arith in
          let counted : CharacterRequirements = record {
            bytes = u32 (reqs.bytes + length (get_or spec.digits (value % spec.base) []));
            units = u32 (reqs.units + 1);
          } in
          let (k, out, e, bytes, units, digits, few) =
            digit_loop-Counts spec plain rounds next counted (omega arith) (omega arith)
              (omega arith) in
          rw (ne→== value 0 ne) (
            k + 1,
            out,
            e,
            omega arith,
            omega arith,
            HasDigits-cons spec.base value k (omega arith) (omega arith) digits,
            omega arith,
          )
    ]

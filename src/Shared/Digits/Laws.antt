-- ===== src/Shared/Digits/Laws.antt =====
-- Reading what was written and writing what was read, in any base above 1.
use cap_rail.Prelude.{
  All, Bool-cases, List, ℕ, [], ap, arith, false, inl, inr, refl, reverse, suc, true, zero, ◌%◌,
  ◌*◌, ◌++◌, ◌+◌, ◌/◌, ◌<◌, ◌==◌, ◌∙◌, ◌∷◌, ◌≡◌, ◌≢◌, ◌≤◌, ◌⊎◌,
}
use cap_rail.Shared.Digits.{
  from_digits, leading_zeros, prepend_digits, push_digits, to_digits, without_zeros, zeros,
}
use mathlib.Core.List.{reverse-append}
use native.Mathlib.Nat.{
  div-add-mod', div-eq_of_lt, mod-eq_of_lt, mod-lt, mul-add-div_right, mul-add-mod_self_right,
  mul-le-mul_left,
}

-- No leading zero.
abbrev pub Trimmed : List ℕ → Type 0
Trimmed [] = Unit
Trimmed (d ∷ digits) = 0 < d

abbrev pub Below : ℕ → List ℕ → Type 0
Below base digits = All (λ d. d < base) digits

-- A positive value falls when it is divided.
smaller_quotient : (base value : ℕ) → 1 < base → 0 < value → value / base < value
smaller_quotient base value b v =
    let twice = mul-le-mul_left (value / base) b in grind (arith, div-add-mod' value base, twice)

add_zero : (n : ℕ) → n + 0 ≡ n
add_zero n = omega arith

positive-test : (n : ℕ) → 0 < n → (n == 0) ≡ false
positive-test n h = ground arith

module _ (base : ℕ) (b : 1 < base) where
  -- What is written reads as the value, in front of what was there.
  pub from_digits-prepend :
      (fuel value : ℕ) (digits : List ℕ)
      → value ≤ fuel
      → from_digits base 0 (prepend_digits base fuel value digits) ≡ from_digits base value digits
  unfolding prepend_digits
  from_digits-prepend zero value digits enough = ground (arith, enough)
  from_digits-prepend (suc fuel) value digits enough = elim (Bool-cases (value == 0)) [
    | inl e ↦ rw (e, prepend_digits) (ground (arith, e))
    | inr e ↦
        rw (e, prepend_digits)
          (from_digits-prepend fuel (value / base) (value % base ∷ digits)
              (ground (arith, smaller_quotient base value b))
            ∙ ap (λ v. from_digits base v digits) (div-add-mod' value base))
  ]

  pub prepend-Below :
      (fuel value : ℕ) (digits : List ℕ)
      → Below base digits
      → Below base (prepend_digits base fuel value digits)
  unfolding prepend_digits
  prepend-Below zero value digits h = h
  prepend-Below (suc fuel) value digits h = elim (Bool-cases (value == 0)) [
    | inl e ↦ rw (e, prepend_digits) h
    | inr e ↦
        rw (e, prepend_digits)
          (prepend-Below fuel (value / base) (value % base ∷ digits)
            (mod-lt value (omega arith), h))
  ]

  zero_quotient : (value : ℕ) → value ≢ 0 → value / base ≡ 0 → 0 < value % base
  zero_quotient value ne e = grind (arith, div-add-mod' value base)

  pub prepend-Trimmed :
      (fuel value : ℕ) (digits : List ℕ)
      → value ≤ fuel
      → (value ≡ 0 → Trimmed digits)
      → Trimmed (prepend_digits base fuel value digits)
  unfolding prepend_digits
  prepend-Trimmed zero value digits enough h = h (omega arith)
  prepend-Trimmed (suc fuel) value digits enough h = elim (Bool-cases (value == 0)) [
    | inl e ↦ rw (e, prepend_digits) (h (ground arith))
    | inr e ↦
        rw (e, prepend_digits)
          (prepend-Trimmed fuel (value / base) (value % base ∷ digits)
            (ground (arith, smaller_quotient base value b)) (zero_quotient value (ground arith)))
  ]

  -- Any fuel from the value on gives the same digits.
  prepend-any :
      (fuel other value : ℕ) (digits : List ℕ)
      → value ≤ fuel
      → value ≤ other
      → prepend_digits base fuel value digits ≡ prepend_digits base other value digits
  unfolding prepend_digits
  prepend-any zero zero value digits enough enough₂ = refl
  prepend-any zero (suc other) value digits enough enough₂ = ground (arith, enough)
  prepend-any (suc fuel) zero value digits enough enough₂ = ground (arith, enough₂)
  prepend-any (suc fuel) (suc other) value digits enough enough₂ = elim (Bool-cases (value == 0)) [
    | inl e ↦ rw (e, prepend_digits) refl
    | inr e ↦
        let smaller = smaller_quotient base value b (ground (arith, e)) in
        rw (e, prepend_digits)
          (prepend-any fuel other (value / base) (value % base ∷ digits) (omega (arith, smaller))
            (omega (arith, smaller)))
  ]

  prepend-positive :
      (value : ℕ) (digits : List ℕ)
      → 0 < value
      → prepend_digits base value value digits
        ≡ prepend_digits base (value / base) (value / base) (value % base ∷ digits)
  unfolding prepend_digits
  prepend-positive value digits h =
      let smaller = smaller_quotient base value b h in
      prepend-any value (suc value) value digits (omega arith) (omega arith)
      ∙ rw (positive-test value h, prepend_digits)
          (prepend-any value (value / base) (value / base) (value % base ∷ digits)
            (omega (arith, smaller)) (omega arith))

  -- One turn of the loop takes the last digit off.
  prepend-step :
      (value d : ℕ) (digits : List ℕ)
      → d < base
      → 0 < value * base + d
      → prepend_digits base (value * base + d) (value * base + d) digits
        ≡ prepend_digits base value value (d ∷ digits)
  prepend-step value d digits h positive =
      let quotient =
        mul-add-div_right {m = base} (omega arith) value d
        ∙ ap (λ q. value + q) (div-eq_of_lt h)
        ∙ add_zero value in
      let remainder = mul-add-mod_self_right value base d ∙ mod-eq_of_lt h in
      prepend-positive (value * base + d) digits positive ∙ rw (quotient, remainder) refl

module _ (base : ℕ) (b : 1 < base) where
  positive-step : (value d : ℕ) → 0 < value ⊎ 0 < d → 0 < value * base + d
  positive-step value d (inl h) = let grown = mul-le-mul_left value b in grind (arith, grown)
  positive-step value d (inr h) = omega arith

  -- Digits behind a positive value are all written back.
  prepend-from_digits :
      (value : ℕ) (digits : List ℕ)
      → Below base digits
      → 0 < value
      → to_digits base (from_digits base value digits) ≡ prepend_digits base value value digits
  unfolding to_digits
  prepend-from_digits value [] h positive = refl
  prepend-from_digits value (d ∷ digits) (h, rest) positive =
      let grows = positive-step value d (inl positive) in
      prepend-from_digits (value * base + d) digits rest grows
      ∙ prepend-step base b value d digits h grows

  -- What is read from digits without a leading zero is written as the same digits.
  pub to-from_digits :
      (digits : List ℕ)
      → Below base digits
      → Trimmed digits
      → to_digits base (from_digits base 0 digits) ≡ digits
  unfolding to_digits prepend_digits
  to-from_digits [] h t = refl
  to-from_digits (d ∷ digits) (h, rest) t =
      let grows = positive-step 0 d (inr t) in
      prepend-from_digits (0 * base + d) digits rest grows ∙ prepend-step base b 0 d digits h grows

pub zero_step : (base d : ℕ) → (d == 0) ≡ true → 0 ≡ 0 * base + d
zero_step base d e = ground (arith, e)

eq_of_test : (d : ℕ) → (d == 0) ≡ true → d ≡ 0
eq_of_test d e = ground (arith, e)

positive_of_test : (d : ℕ) → (d == 0) ≡ false → 0 < d
positive_of_test d e = ground (arith, e)

-- Pushing the last digit first and turning the list round is prepending.
pub reverse-push_digits :
    (base fuel value : ℕ) (digits : List ℕ)
    → reverse (push_digits base fuel value digits) ≡ prepend_digits base fuel value (reverse digits)
unfolding push_digits prepend_digits
reverse-push_digits base zero value digits = refl
reverse-push_digits base (suc fuel) value digits = elim (Bool-cases (value == 0)) [
  | inl e ↦ rw (e, push_digits, prepend_digits) refl
  | inr e ↦
      rw (e, push_digits, prepend_digits)
        (reverse-push_digits base fuel (value / base) (digits ++ value % base ∷ [])
          ∙ ap (λ r. prepend_digits base fuel (value / base) r)
              (reverse-append digits (value % base ∷ [])))
]

-- Every list is its leading zeros and what stands behind them.
pub split_zeros : (digits : List ℕ) → digits ≡ zeros (leading_zeros digits) ++ without_zeros digits
split_zeros [] = refl
split_zeros (d ∷ digits) = elim (Bool-cases (d == 0)) [
  | inl e ↦ rw e (let z = eq_of_test d e in rw z (ap (λ r. 0 ∷ r) (split_zeros digits)))
  | inr e ↦ rw e refl
]

pub without_zeros-Trimmed : (digits : List ℕ) → Trimmed (without_zeros digits)
without_zeros-Trimmed [] = tt
without_zeros-Trimmed (d ∷ digits) = elim (Bool-cases (d == 0)) [
  | inl e ↦ rw e (without_zeros-Trimmed digits)
  | inr e ↦ rw e (positive_of_test d e)
]

pub without_zeros-Below :
    (base : ℕ) (digits : List ℕ) → Below base digits → Below base (without_zeros digits)
without_zeros-Below base [] h = tt
without_zeros-Below base (d ∷ digits) (h, rest) = elim (Bool-cases (d == 0)) [
  | inl e ↦ rw e (without_zeros-Below base digits rest)
  | inr e ↦ rw e (h, rest)
]

-- Leading zeros do not change the value.
pub from_digits-without_zeros :
    (base : ℕ) (digits : List ℕ)
    → from_digits base 0 (without_zeros digits) ≡ from_digits base 0 digits
from_digits-without_zeros base [] = refl
from_digits-without_zeros base (d ∷ digits) = elim (Bool-cases (d == 0)) [
  | inl e ↦ rw e (
      from_digits-without_zeros base digits
      ∙ ap (λ v. from_digits base v digits) (zero_step base d e))
  | inr e ↦ rw e refl
]

pub leading_zeros-append :
    (n : ℕ) (digits : List ℕ) → Trimmed digits → leading_zeros (zeros n ++ digits) ≡ n
leading_zeros-append zero [] t = refl
leading_zeros-append zero (d ∷ digits) t = ground (arith, t)
leading_zeros-append (suc n) digits t = ap suc (leading_zeros-append n digits t)

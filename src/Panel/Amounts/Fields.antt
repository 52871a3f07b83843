-- ===== src/Panel/Amounts/Fields.antt =====
-- apps/web/src/company/fields.ts: amountField; market/money.ts: pricePerShare and pricePerUnitField.
use cap_rail.Panel.Amounts.{
  is_separator, is_space, match_number, read_parts, to_base_units, without_separators,
}
use cap_rail.Panel.Amounts.RoundTrip.{unit_positive}
use cap_rail.Prelude.{
  Bool, Bool-cases, List, Option, ℕ, [], ap, arith, false, has, if◌then◌else◌, inl, inr, leb, ltb,
  none, not, refl, some, sym, true, ◌%◌, ◌*◌, ◌/◌, ◌<◌, ◌==◌, ◌^◌, ◌↔◌, ◌∙◌, ◌∷◌, ◌≡◌, ◌≤◌, ◌⊎◌,
}
use mathlib.Core.Option.{some-injective}
use native.Mathlib.Nat.{div-add-mod', mul-div_cancel, mul-le-mul_left, mul-mod_left}

pub data FieldError : Type 0 where
  required : FieldError
  -- `a number with at most … decimals`, `a whole number` at 0
  not_a_number : (decimals : ℕ) → FieldError
  not_positive : FieldError
  too_large : FieldError
  -- `in steps of … per share`
  in_steps : (step : ℕ) → FieldError

-- `raw.trim() === ''`
abbrev is_blank : List ℕ → Bool
is_blank raw = not (has (λ c. not (is_space c)) raw)

abbrev checked_amount : ℕ → Option ℕ → FieldError ⊎ ℕ
checked_amount decimals none = inl (not_a_number decimals)
checked_amount decimals (some value) =
    if leb value 0
    then inl not_positive
    else if ltb 0xffffffffffffffff value
    then inl too_large
    else inr value

unfoldable amount_field : List ℕ → ℕ → FieldError ⊎ ℕ
amount_field raw decimals =
    if is_blank raw then inl required else checked_amount decimals (to_base_units raw decimals)

abbrev price_per_share : ℕ → ℕ → ℕ
price_per_share price_per_unit token_decimals = price_per_unit * 10 ^ token_decimals

abbrev checked_price : ℕ → ℕ → Option ℕ → FieldError ⊎ ℕ
checked_price token_decimals payment_decimals none = inl (not_a_number payment_decimals)
checked_price token_decimals payment_decimals (some per_share) =
    let step = 10 ^ token_decimals in
    if leb per_share 0
    then inl not_positive
    else if not (per_share % step == 0)
    then inl (in_steps step)
    else inr (per_share / step)

unfoldable price_per_unit_field : List ℕ → ℕ → ℕ → FieldError ⊎ ℕ
price_per_unit_field raw token_decimals payment_decimals =
    if is_blank raw
    then inl required
    else checked_price token_decimals payment_decimals (to_base_units raw payment_decimals)

separator_of_space : (c : ℕ) → is_space c ≡ true → is_separator c ≡ true
separator_of_space c e = ground (arith, e)

-- A text of white space is no number.
blank-none : (raw : List ℕ) → is_blank raw ≡ true → without_separators raw ≡ []
blank-none [] h = refl
blank-none (c ∷ raw) h = elim (Bool-cases (is_space c)) [
  | inl e ↦ rw (separator_of_space c e) (blank-none raw (ground (arith, h, e)))
  | inr e ↦ ground (arith, h, e)
]

blank-unread :
    (raw : List ℕ) (decimals value : ℕ)
    → to_base_units raw decimals ≡ some value
    → is_blank raw ≡ false
unfolding to_base_units
blank-unread raw decimals value h = elim (Bool-cases (is_blank raw)) [
  | inl e ↦
      ground
        (arith, sym (ap (λ text. read_parts decimals (match_number text)) (blank-none raw e)) ∙ h)
  | inr e ↦ e
]

Amount : Option ℕ → ℕ → Type 0
Amount o value = (o ≡ some value) × (0 < value) × (value ≤ 0xffffffffffffffff)

checked_amount_iff :
    (decimals : ℕ) (o : Option ℕ) (value : ℕ)
    → (checked_amount decimals o ≡ inr value) ↔ Amount o value
unfolding Amount
checked_amount_iff decimals none value = ground arith
checked_amount_iff decimals (some v) value = ground arith

-- A text is taken as an amount exactly when it reads as one that is positive and fits a u64.
amount_field_iff :
    (raw : List ℕ) (decimals value : ℕ)
    → (amount_field raw decimals ≡ inr value)
      ↔ ((to_base_units raw decimals ≡ some value) × (0 < value) × (value ≤ 0xffffffffffffffff))
unfolding amount_field Amount
amount_field_iff raw decimals value = elim (Bool-cases (is_blank raw)) [
  | inl e ↦
      rw e ((λ h. ground (arith, h)), (λ h. ground (arith, e, blank-unread raw decimals value h.0)))
  | inr e ↦ rw e (checked_amount_iff decimals (to_base_units raw decimals) value)
]

checked_price_iff :
    (token_decimals payment_decimals : ℕ) (o : Option ℕ) (price : ℕ)
    → (checked_price token_decimals payment_decimals o ≡ inr price)
      ↔ ((o ≡ some (price_per_share price token_decimals)) × (0 < price))
checked_price_iff token_decimals payment_decimals none price = ground arith
checked_price_iff token_decimals payment_decimals (some v) price =
    let step = 10 ^ token_decimals in
    let back = mul-div_cancel price (unit_positive token_decimals) in
    let whole = mul-mod_left price step in
    let split = div-add-mod' v step in
    (
      (λ h. ground (arith, h, split)),
      (λ h.
          let (e, p) = h in
          rw (some-injective v (price * step) e)
            (ground (arith, p, back, whole, mul-le-mul_left price (unit_positive token_decimals)))),
    )

-- A text is taken as a price per unit exactly when it reads as the price of one share at that price, and the
-- price is positive: no price is rounded.
price_per_unit_field_iff :
    (raw : List ℕ) (token_decimals payment_decimals price : ℕ)
    → (price_per_unit_field raw token_decimals payment_decimals ≡ inr price) ↔ (
        (to_base_units raw payment_decimals ≡ some (price_per_share price token_decimals))
        × (0 < price))
unfolding price_per_unit_field
price_per_unit_field_iff raw token_decimals payment_decimals price =
    elim (Bool-cases (is_blank raw)) [
      | inl e ↦ rw e (
        (λ h. ground (arith, h)),
        (λ h. ground (
          arith,
          e,
          blank-unread raw payment_decimals (price_per_share price token_decimals) h.0,
        )),
      )
      | inr e ↦ rw e (
          checked_price_iff token_decimals payment_decimals (to_base_units raw payment_decimals)
            price)
    ]

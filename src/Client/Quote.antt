-- ===== src/Client/Quote.antt =====
-- packages/chain/src/tx/platform.ts and tx/offers.ts: the platform's fee and the quote of an offer.
-- A bigint is ℤ; `feeBps`, a number, is an integer here.
pub mod Laws
pub mod Fills
use cap_rail.Prelude.{Option, ℕ, if◌then◌else◌, inl, inr, ltb, none, some, ◌*◌, ◌-◌, ◌/◌, ◌||◌, ◌⊎◌}
use cap_rail.Prelude.Int.{ℤ, leb_ℤ, negsuc, pos, pos_part}

abbrev pub bps_denominator : ℕ
bps_denominator = 10000

abbrev pub fee_bps_max : ℕ
fee_bps_max = 1000

abbrev pub u64_max : ℕ
u64_max = 0xffffffffffffffff

-- The three RangeErrors.
pub data RangeError : Type 0 where
  fee_out_of_range : ℤ → RangeError
  not_positive : ℤ → ℤ → RangeError
  does_not_fit : ℤ → ℤ → RangeError

unfoldable pub platform_fee : ℤ → ℕ → RangeError ⊎ ℕ
platform_fee (negsuc n) payment = inl (fee_out_of_range (negsuc n))
platform_fee (pos fee_bps) payment =
    if ltb fee_bps_max fee_bps
    then inl (fee_out_of_range (pos fee_bps))
    else inr (payment * fee_bps / bps_denominator)

-- `none` where the terms are accepted.
unfoldable pub validate_offer_terms : ℤ → ℤ → Option RangeError
validate_offer_terms amount price_per_unit =
    if leb_ℤ amount (pos 0) || leb_ℤ price_per_unit (pos 0)
    then some (not_positive amount price_per_unit)
    else if ltb u64_max (pos_part amount * pos_part price_per_unit)
    then some (does_not_fit amount price_per_unit)
    else none

pub record OfferQuoteAmounts : Type 0 where
  pub amount : ℤ
  pub payment : ℕ
  pub fee : ℕ
  pub seller_receives : ℕ

abbrev pub quote_amounts : ℤ → ℕ → ℕ → OfferQuoteAmounts
quote_amounts amount payment fee = record {
  amount = amount;
  payment = payment;
  fee = fee;
  seller_receives = payment - fee;
}

-- What follows the check: both factors are positive there, so the product is one of naturals.
abbrev quote_valid : ℤ → ℤ → ℤ → RangeError ⊎ OfferQuoteAmounts
quote_valid fee_bps price_per_unit amount =
    let payment = pos_part amount * pos_part price_per_unit in
    elim (platform_fee fee_bps payment) [
      | inl error ↦ inl error
      | inr fee ↦ inr (quote_amounts amount payment fee)
    ]

unfoldable pub quote_offer : ℤ → ℤ → ℤ → RangeError ⊎ OfferQuoteAmounts
quote_offer fee_bps price_per_unit amount = elim (validate_offer_terms amount price_per_unit) [
  | some error ↦ inl error
  | none ↦ quote_valid fee_bps price_per_unit amount
]

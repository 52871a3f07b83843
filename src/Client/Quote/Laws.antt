-- ===== src/Client/Quote/Laws.antt =====
use cap_rail.Client.Quote.{
  OfferQuoteAmounts, bps_denominator, fee_bps_max, platform_fee, quote_amounts, quote_offer,
  u64_max, validate_offer_terms,
}
use cap_rail.Prelude.{ℕ, arith, inr, refl, sym, ◌*◌, ◌+◌, ◌/◌, ◌<◌, ◌↔◌, ◌∙◌, ◌≡◌, ◌≤◌}
use cap_rail.Prelude.Int.{ℤ, negsuc, pos, pos_part}
use mathlib.Core.Sum.{inr-injective}
use native.Mathlib.Nat.{mul-le-mul_left}

-- What a quote promises: an exact split of the payment and a fee that is rounded down.
-- The terms that are quoted: a positive amount and price whose product fits a u64, and a fee within
-- its limit.

abbrev pub Quotable : ℕ → ℕ → ℕ → Type 0
Quotable fee_bps price amount =
    (fee_bps ≤ fee_bps_max) × (0 < price) × (0 < amount) × (amount * price ≤ u64_max)

platform_fee_within :
    (fee_bps payment : ℕ)
    → fee_bps ≤ fee_bps_max
    → platform_fee (pos fee_bps) payment ≡ inr (payment * fee_bps / bps_denominator)
unfolding platform_fee
platform_fee_within fee_bps payment h = ground (arith, h)

pub quote_offer_within :
    (fee_bps price amount : ℕ)
    → Quotable fee_bps price amount
    → quote_offer (pos fee_bps) (pos price) (pos amount)
      ≡ inr
          (quote_amounts (pos amount) (amount * price) (amount * price * fee_bps / bps_denominator))
unfolding quote_offer validate_offer_terms platform_fee
quote_offer_within fee_bps price amount (f, p, a, fits) = ground (arith, f, p, a, fits)

-- A quote is given only for terms that are quotable.
quote_offer-Quotable :
    (fee_bps price amount : ℤ) (quote : OfferQuoteAmounts)
    → quote_offer fee_bps price amount ≡ inr quote
    → Quotable (pos_part fee_bps) (pos_part price) (pos_part amount)
      × (fee_bps ≡ pos (pos_part fee_bps))
      × (price ≡ pos (pos_part price))
      × (amount ≡ pos (pos_part amount))
unfolding quote_offer validate_offer_terms platform_fee
quote_offer-Quotable (pos f) (pos p) (pos a) quote h = ground (arith, h)
quote_offer-Quotable (negsuc f) (pos p) (pos a) quote h = ground (arith, h)
quote_offer-Quotable f (negsuc p) (pos a) quote h = ground (arith, h)
quote_offer-Quotable f p (negsuc a) quote h = ground (arith, h)

-- The fee of a payment, where the rate is within its limit.
abbrev pub fee_of : ℕ → ℕ → ℕ
fee_of fee_bps payment = payment * fee_bps / bps_denominator

pub fee_of-floor :
    (fee_bps payment : ℕ)
    → (fee_of fee_bps payment * bps_denominator ≤ payment * fee_bps)
      × (payment * fee_bps < fee_of fee_bps payment * bps_denominator + bps_denominator)
fee_of-floor fee_bps payment = omega arith

fee_of-tenth : (fee_bps payment : ℕ) → fee_bps ≤ fee_bps_max → fee_of fee_bps payment * 10 ≤ payment
fee_of-tenth fee_bps payment h =
    let scaled = mul-le-mul_left payment h in
    let (below, above) = fee_of-floor fee_bps payment in omega (arith, scaled, below)

quote_is :
    (fee_bps price amount : ℕ) (quote : OfferQuoteAmounts)
    → quote_offer (pos fee_bps) (pos price) (pos amount) ≡ inr quote
    → quote ≡ quote_amounts (pos amount) (amount * price) (fee_of fee_bps (amount * price))
quote_is fee_bps price amount quote h =
    let (terms, _, _, _) = quote_offer-Quotable (pos fee_bps) (pos price) (pos amount) quote h in
    inr-injective quote
      (quote_amounts (pos amount) (amount * price) (fee_of fee_bps (amount * price)))
      (sym h ∙ quote_offer_within fee_bps price amount terms)

abbrev pub Split : ℤ → ℤ → ℤ → OfferQuoteAmounts → Type 0
Split fee_bps price amount quote =
    (quote.amount ≡ amount)
    × (quote.payment ≡ pos_part amount * pos_part price)
    × (quote.payment ≤ u64_max)
    × (quote.fee + quote.seller_receives ≡ quote.payment)
    × (quote.fee * 10 ≤ quote.payment)
    × (quote.fee * bps_denominator ≤ quote.payment * pos_part fee_bps)
    × (quote.payment * pos_part fee_bps < quote.fee * bps_denominator + bps_denominator)

quote_splits :
    (fee_bps price amount : ℕ)
    → Quotable fee_bps price amount
    → Split
        (pos fee_bps)
        (pos price)
        (pos amount)
        (quote_amounts (pos amount) (amount * price) (fee_of fee_bps (amount * price)))
quote_splits fee_bps price amount (f, p, a, fits) =
    let payment = amount * price in
    let tenth = fee_of-tenth fee_bps payment f in
    let (below, above) = fee_of-floor fee_bps payment in
    (refl, refl, fits, omega (arith, tenth), tenth, below, above)

-- A quote that is given splits the payment, which is the product of amount and price and fits a u64,
-- exactly into the fee and what the seller receives; the fee is the rate's share of the payment rounded
-- down, and at most a tenth of it.
pub quote_offer-splits :
    (fee_bps price amount : ℤ) (quote : OfferQuoteAmounts)
    → quote_offer fee_bps price amount ≡ inr quote
    → Split fee_bps price amount quote
quote_offer-splits fee_bps price amount quote h =
    let (terms, f, p, a) = quote_offer-Quotable fee_bps price amount quote h in
    rw
      (
        f,
        p,
        a,
        quote_is (pos_part fee_bps) (pos_part price) (pos_part amount) quote
            (rw (sym f, sym p, sym a) h),
      )
      (quote_splits (pos_part fee_bps) (pos_part price) (pos_part amount) terms)

-- Terms that are quotable, all of them natural numbers.
abbrev Quotable_ℤ : ℤ → ℤ → ℤ → Type 0
Quotable_ℤ fee_bps price amount =
    Quotable (pos_part fee_bps) (pos_part price) (pos_part amount)
    × (fee_bps ≡ pos (pos_part fee_bps))
    × (price ≡ pos (pos_part price))
    × (amount ≡ pos (pos_part amount))

-- A quote is given exactly when the amount and the price are positive, their product fits a u64, and
-- the rate is from 0 to 1000 basis points; otherwise an error is thrown.
quote_offer_iff :
    (fee_bps price amount : ℤ)
    → ((quote : OfferQuoteAmounts) × (quote_offer fee_bps price amount ≡ inr quote))
      ↔ Quotable_ℤ fee_bps price amount
quote_offer_iff fee_bps price amount = (
  (λ found. let (quote, h) = found in quote_offer-Quotable fee_bps price amount quote h),
  (λ terms.
      let (inside, f, p, a) = terms in
      (
        quote_amounts (pos (pos_part amount)) (pos_part amount * pos_part price)
            (fee_of (pos_part fee_bps) (pos_part amount * pos_part price)),
        rw (f, p, a)
            (quote_offer_within (pos_part fee_bps) (pos_part price) (pos_part amount) inside),
      )),
)

-- ===== src/Client/Quote/Fills.antt =====
-- The fees of an offer that is filled in parts, beside the fee of the whole.
use cap_rail.Client.Quote.{fee_bps_max, quote_offer, u64_max}
use cap_rail.Client.Quote.Laws.{Quotable, fee_of, fee_of-floor, quote_offer_within}
use cap_rail.Prelude.{
  All, List, ℕ, [], ap, arith, inl, inr, length, map, refl, suc, sym, ◌*◌, ◌+◌, ◌<◌, ◌∷◌, ◌≡◌, ◌≤◌,
}
use cap_rail.Prelude.Int.{pos}

abbrev pub sum : List ℕ → ℕ
sum [] = 0
sum (x ∷ xs) = x + sum xs

abbrev fees : ℕ → List ℕ → List ℕ
fees fee_bps [] = []
fees fee_bps (payment ∷ payments) = fee_of fee_bps payment ∷ fees fee_bps payments

fee_of-add :
    (fee_bps p q : ℕ)
    → (fee_of fee_bps p + fee_of fee_bps q ≤ fee_of fee_bps (p + q))
      × (fee_of fee_bps (p + q) ≤ fee_of fee_bps p + fee_of fee_bps q + 1)
fee_of-add fee_bps p q =
    grind (arith, fee_of-floor fee_bps p, fee_of-floor fee_bps q, fee_of-floor fee_bps (p + q))

fees-bounds :
    (fee_bps : ℕ) (payments : List ℕ)
    → (sum (fees fee_bps payments) ≤ fee_of fee_bps (sum payments))
      × (fee_of fee_bps (sum payments) ≤ sum (fees fee_bps payments) + length payments)
fees-bounds fee_bps [] = omega arith
fees-bounds fee_bps (p ∷ payments) =
    grind (arith, fees-bounds fee_bps payments, fee_of-add fee_bps p (sum payments))

-- The fee that one fill of an offer is charged.
abbrev pub fill_fee : ℕ → ℕ → ℕ → ℕ
fill_fee fee_bps price amount = elim (quote_offer (pos fee_bps) (pos price) (pos amount)) [
  | inl _ ↦ 0
  | inr quote ↦ quote.fee
]

abbrev pub fill_fees : ℕ → ℕ → List ℕ → List ℕ
fill_fees fee_bps price [] = []
fill_fees fee_bps price (amount ∷ amounts) =
    fill_fee fee_bps price amount ∷ fill_fees fee_bps price amounts

fill_fee_within :
    (fee_bps price amount : ℕ)
    → Quotable fee_bps price amount
    → fill_fee fee_bps price amount ≡ fee_of fee_bps (amount * price)
fill_fee_within fee_bps price amount terms =
    rw (quote_offer_within fee_bps price amount terms, fill_fee) refl

abbrev Positive : List ℕ → Type 0
Positive amounts = All (λ amount. 0 < amount) amounts

fills-Quotable :
    (fee_bps price room : ℕ) (amounts : List ℕ)
    → fee_bps ≤ fee_bps_max
    → 0 < price
    → Positive amounts
    → (room + sum amounts) * price ≤ u64_max
    → All (λ amount. Quotable fee_bps price amount) amounts
fills-Quotable fee_bps price room [] f p h fits = tt
fills-Quotable fee_bps price room (a ∷ amounts) f p (h, rest) fits = (
  (f, p, h, grind (arith, fits)),
  fills-Quotable fee_bps price (room + a) amounts f p rest (grind (arith, fits)),
)

fill_fees-fees :
    (fee_bps price : ℕ) (amounts : List ℕ)
    → All (λ amount. Quotable fee_bps price amount) amounts
    → (fill_fees fee_bps price amounts ≡ fees fee_bps (map (λ amount. amount * price) amounts))
fill_fees-fees fee_bps price [] h = refl
fill_fees-fees fee_bps price (a ∷ amounts) (h, rest) =
    rw (fill_fee_within fee_bps price a h, fill_fees-fees fee_bps price amounts rest) refl

sum-map :
    (price : ℕ) (amounts : List ℕ)
    → sum (map (λ amount. amount * price) amounts) ≡ sum amounts * price
sum-map price [] = omega arith
sum-map price (a ∷ amounts) = grind (arith, sum-map price amounts)

length-map :
    (price : ℕ) (amounts : List ℕ)
    → length (map (λ amount. amount * price) amounts) ≡ length amounts
length-map price [] = refl
length-map price (a ∷ amounts) = ap suc (length-map price amounts)

-- Where the whole of an offer can be quoted, each of any positive fills that make it up can be quoted;
-- their fees together are at most the fee of the whole, and short of it by at most one unit for each fill.
pub fill_fees-bounds :
    (fee_bps price : ℕ) (amounts : List ℕ)
    → Positive amounts
    → Quotable fee_bps price (sum amounts)
    → All (λ amount. Quotable fee_bps price amount) amounts
      × (sum (fill_fees fee_bps price amounts) ≤ fill_fee fee_bps price (sum amounts))
      × (fill_fee fee_bps price (sum amounts)
          ≤ sum (fill_fees fee_bps price amounts) + length amounts)
fill_fees-bounds fee_bps price amounts positive (f, p, whole, fits) =
    let each = fills-Quotable fee_bps price 0 amounts f p positive (grind (arith, fits)) in
    let (least, most) = fees-bounds fee_bps (map (λ amount. amount * price) amounts) in
    rw
      (
        fill_fee_within fee_bps price (sum amounts) (f, p, whole, fits),
        fill_fees-fees fee_bps price amounts each,
      )
      (
        each,
        rw (sym (sum-map price amounts)) least,
        rw (sym (sum-map price amounts), sym (length-map price amounts)) most,
      )

-- ===== src/Tests/Primitives.antt =====
-- packages/shared and packages/chain at concrete inputs.
use cap_rail.Client.Plan.{TransactionInstruction, distribute, includes, to_plan}
use cap_rail.Client.Plan.Signers.{signs, to_plan-signers}
use cap_rail.Client.Quote.{
  OfferQuoteAmounts, platform_fee, quote_amounts, quote_offer, validate_offer_terms,
}
use cap_rail.Client.Quote.Laws.{Split, quote_offer-splits}
use cap_rail.Client.Seeds.{company_pda, le_bytes, seeds, u64_le}
use cap_rail.Client.Seeds.Distinct.{seeds-distinct}
use cap_rail.Prelude.{
  List, String, ℕ, [], arith, false, inr, length, refl, some, true, ◌%◌, ◌/◌, ◌<◌, ◌===◌, ◌^◌, ◌||◌,
  ◌∷◌, ◌≡◌, ◌≤◌,
}
use cap_rail.Prelude.Int.{pos, ◌-ℤ◌, ◌<ℤ◌, ◌≤ℤ◌}
use cap_rail.Shared.Base58.{base58_alphabet, decode_base58, encode_base58, read_base58}
use cap_rail.Shared.Base58.RoundTrip.{decode-encode}
use cap_rail.Shared.Curve.{
  curve_d, is_address, is_on_curve, is_wallet_address, le_value, pow, pow_loop, prime, sqrt_m1,
}
use cap_rail.Shared.Curve.Points.{Point, is_wallet_address-Point}
use cap_rail.Shared.Curve.Power.{pow-power}
use cap_rail.Shared.Digits.{push_digits, zeros}
use cap_rail.Shared.Vesting.{linear_share, vested}
use cap_rail.Shared.Vesting.Bounds.{vested-grows}
use cap_rail.Table.{Unique}
use cap_rail.Client.Seeds.Seed

abbrev bytes : List ℕ
bytes = 0 ∷ 0 ∷ 255 ∷ 3 ∷ []

decode-encode_example : decode_base58 (encode_base58 bytes) ≡ some bytes
decode-encode_example =
    decode-encode 0 (0 ∷ 255 ∷ 3 ∷ [])
      (omega arith, (omega arith, (omega arith, (omega arith, tt))))

text_decoded : decode_base58 "1zz" ≡ some (0 ∷ 13 ∷ 35 ∷ [])
unfolding decode_base58 read_base58 push_digits base58_alphabet
text_decoded = refl

-- 40 units at 1000 each, 2.5 %.
abbrev forty : OfferQuoteAmounts
forty = quote_amounts (pos 40) 40000 1000

forty_quoted : quote_offer (pos 250) (pos 1000) (pos 40) ≡ inr forty
unfolding quote_offer validate_offer_terms platform_fee
forty_quoted = refl

quote_offer-splits_example : Split (pos 250) (pos 1000) (pos 40) forty
quote_offer-splits_example = quote_offer-splits (pos 250) (pos 1000) (pos 40) forty forty_quoted

abbrev fills : List ℕ
fills = 30 ∷ 30 ∷ 50 ∷ []

-- One instruction that the payer and another wallet sign, the other one twice.
abbrev instructions : List TransactionInstruction
instructions =
    record {
      program_id = "P";
      keys =
          record { pubkey = "B"; is_signer = true }
          ∷ record { pubkey = "A"; is_signer = true }
          ∷ record { pubkey = "B"; is_signer = true }
          ∷ record { pubkey = "C"; is_signer = false }
          ∷ [];
      data_ = [];
    }
    ∷ []

to_plan-signers_example :
    let plan = to_plan distribute "A" instructions in
    ((rest : List String) × (plan.signers ≡ "A" ∷ rest))
    × Unique (λ a b. b === a) plan.signers
    × ((k : String) → includes plan.signers k ≡ (("A" === k) || signs instructions k))
to_plan-signers_example = to_plan-signers distribute "A" instructions

abbrev company_seeds : List (List ℕ)
company_seeds = Seed.company ∷ (7 ∷ 1 ∷ 0 ∷ 0 ∷ 0 ∷ 0 ∷ 0 ∷ 0 ∷ []) ∷ []

company_seeded : seeds (company_pda (pos 263)) ≡ some company_seeds
unfolding seeds u64_le le_bytes
company_seeded = refl

seeds-distinct_example : company_pda (pos 263) ≡ company_pda (pos 263)
seeds-distinct_example =
    seeds-distinct (company_pda (pos 263)) (company_pda (pos 263)) company_seeds company_seeds tt tt
      company_seeded company_seeded refl

vested-grows_example :
    (v : ℕ) × (w : ℕ) × (vested 100 (pos 0) (pos 10) (pos 30) (pos 10) ≡ some v)
    × (vested 100 (pos 0) (pos 10) (pos 30) (pos 20) ≡ some w)
    × (v ≤ w)
    × (w ≤ 100)
    × (pos 10 <ℤ pos 10 → v ≡ 0)
    × (pos 30 ≤ℤ pos 10 → v ≡ 100)
vested-grows_example =
    vested-grows 100 (pos 0) (pos 10) (pos 30) (pos 10) (pos 20)
      (omega arith, omega arith, omega arith) (omega arith)

-- A third of the way, and the cliff behind the start.
third : vested 100 (pos 0) (pos 10) (pos 30) (pos 10) ≡ some 33
unfolding vested linear_share ◌-ℤ◌
third = refl

nothing_before_the_cliff : vested 100 (pos 0) (pos 10) (pos 30) (pos 9) ≡ some 0
unfolding vested
nothing_before_the_cliff = refl

-- The base point of the curve, a y that no point has, and too few bytes.
abbrev base_point : List ℕ
base_point =
    88 ∷ 102 ∷ 102 ∷ 102 ∷ 102 ∷ 102 ∷ 102 ∷ 102 ∷ 102 ∷ 102 ∷ 102 ∷ 102 ∷ 102 ∷ 102 ∷ 102 ∷ 102
    ∷ 102 ∷ 102 ∷ 102 ∷ 102 ∷ 102 ∷ 102 ∷ 102 ∷ 102 ∷ 102 ∷ 102 ∷ 102 ∷ 102 ∷ 102 ∷ 102 ∷ 102 ∷ 102
    ∷ []

base_point_accepted : is_on_curve base_point ≡ true
unfolding is_on_curve pow pow_loop curve_d sqrt_m1
base_point_accepted = refl

off_curve_refused : is_on_curve (2 ∷ zeros 31) ≡ false
unfolding is_on_curve pow pow_loop curve_d sqrt_m1
off_curve_refused = refl

short_refused : is_on_curve (88 ∷ []) ≡ false
unfolding is_on_curve
short_refused = refl

abbrev base_text : String
base_text = "6x5SYnLroiN7WYq8NQYU9KHcH4YjpBbwpUfVu3EB7ieH"

base_text_accepted : is_wallet_address base_text ≡ true
unfolding is_wallet_address is_on_curve pow pow_loop curve_d sqrt_m1 decode_base58 read_base58
    push_digits base58_alphabet
base_text_accepted = refl

is_wallet_address-Point_example :
    (bytes : List ℕ) × (decode_base58 base_text ≡ some bytes)
    × (length bytes ≡ 32)
    × (le_value bytes % 2 ^ 255 < prime)
    × Point (le_value bytes % 2 ^ 255) (le_value bytes / 2 ^ 255)
    × (is_address base_text ≡ true)
is_wallet_address-Point_example = is_wallet_address-Point base_text base_text_accepted

pow-power_example : pow 3 200 ≡ 3 ^ 200 % prime
pow-power_example = pow-power 3 200

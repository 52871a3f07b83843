-- ===== src/Api/Market.antt =====
-- Who may see an offer: caprail_admits of packages/db/migrations/0004_us2_market_visibility.sql, the copy of
-- it in apps/api/src/index/memory-reader.ts (admits), and marketOffers of index/reader.ts, which asks the former.
pub mod Rules
use cap_rail.Api.Journal.Order.{sort}
use cap_rail.Api.Positions.{newer_offer, to_admission}
use cap_rail.Api.Queries.{asked_for}
use cap_rail.Api.Views.{InvestorView, OfferRecord, TokenView, offer_record}
use cap_rail.Prelude.{
  Bool, List, Option, String, ℕ, [], false, find, has, if◌then◌else◌, keep, map, none, not, some,
  ◌&&◌, ◌++◌, ◌===◌, ◌==◌, ◌||◌, ◌∷◌,
}
use cap_rail.Prelude.Int.{ℤ, ltb_ℤ}
use cap_rail.Shared.Market.{admission, is_approved, is_open}
use cap_rail.Worker.Rows.{CompanyRow, InvestorRow, OfferRow, TokenRow}
use mathlib.Core.Option

-- The registry has the wallet approved with an expiry after `at`.
abbrev pub approves : ℤ → InvestorRow → Bool
approves at row = is_approved row.status && ltb_ℤ at row.expires_at

abbrev pub is_record : String → String → InvestorRow → Bool
is_record mint wallet row = row.mint === mint && row.wallet === wallet

abbrev pub lets_in : List InvestorRow → String → ℤ → TokenRow → Bool
lets_in investors wallet at token =
    not token.require_accreditation
    || has (λ row. is_record token.mint wallet row && approves at row) investors

-- The SQL function.
unfoldable pub caprail_admits : List TokenRow → List InvestorRow → String → Option String → ℤ → Bool
caprail_admits tokens investors mint none at = false
caprail_admits tokens investors mint (some wallet) at =
    has (λ token. token.mint === mint && lets_in investors wallet at token) tokens

abbrev pub admits_to : Option TokenView → Option InvestorView → ℤ → Bool
admits_to none found at = false
admits_to (some token) found at =
    (admission token.policy (Option.map to_admission found) at).admitted

-- The function over arrays; the tokens are those of all companies.
unfoldable pub admits : List TokenView → List InvestorView → String → Option String → ℤ → Bool
admits tokens investors mint none at = false
admits tokens investors mint (some wallet) at =
    admits_to (find (λ (token : TokenView). token.mint === mint) tokens)
      (find (λ (i : InvestorView). i.mint === mint && i.wallet === wallet) investors) at

pub record MarketOffer : Type 0 where
  pub offer : OfferRecord
  pub company_name : String
  pub name : String
  pub symbol : String
  pub decimals : ℕ

abbrev pub market_offer : OfferRow → TokenRow → CompanyRow → MarketOffer
market_offer offer token company = record {
  offer = offer_record offer;
  company_name = company.name;
  name = token.name;
  symbol = token.symbol;
  decimals = token.decimals;
}

-- The inner joins of an offer with its token and its company.
abbrev pub with_names : List TokenRow → List CompanyRow → OfferRow → List MarketOffer
with_names [] companies offer = []
with_names (token ∷ tokens) companies offer =
    let rest = with_names tokens companies offer in
    if token.mint === offer.mint
    then map (market_offer offer token)
        (keep (λ (row : CompanyRow). row.company_id == offer.company_id) companies)
      ++ rest
    else rest

abbrev pub join_offers : List TokenRow → List CompanyRow → List OfferRow → List MarketOffer
join_offers tokens companies [] = []
join_offers tokens companies (offer ∷ offers) =
    with_names tokens companies offer ++ join_offers tokens companies offers

unfoldable pub market_offers :
    (String → String → Bool)
    → List TokenRow
    → List CompanyRow
    → List InvestorRow
    → List OfferRow
    → String
    → Option String
    → ℤ
    → List MarketOffer
market_offers stored_before tokens companies investors offers viewer mint at =
    join_offers tokens companies (
      sort (newer_offer stored_before) (
        keep
          (λ (row : OfferRow).
            is_open row.status
            && not (row.seller === viewer)
            && caprail_admits tokens investors row.mint (some viewer) at
            && asked_for mint (λ m. row.mint === m))
          offers))

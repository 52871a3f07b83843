-- ===== src/Api/Positions.antt =====
-- apps/api/src/index/reader.ts: the positions of a wallet (mergePositions, position) and the cabinet that
-- they are shown in. The map by mint is the list of its values in the order in which its keys came.
pub mod Merged
use cap_rail.Api.Journal.Order.{sort}
use cap_rail.Api.Views.{
  InvestorView, OfferRecord, TokenView, investor_view, offer_record, token_view,
}
use cap_rail.Prelude.{
  Bool, List, Option, String, ℕ, [], if◌then◌else◌, keep, ltb, map, none, some, ◌&&◌, ◌++◌, ◌+◌,
  ◌===◌, ◌==◌, ◌||◌, ◌∷◌,
}
use cap_rail.Prelude.Int.{ℤ}
use cap_rail.Shared.Market.{
  Admission, AdmissionRecord, InvestorStatus, TransferPolicy, admission, is_open,
}
use cap_rail.Worker.Rows.{CompanyRow, HoldingRow, InvestorRow, OfferRow, TokenRow}
use mathlib.Core.Option

pub record PositionInput : Type 0 where
  pub company_id : ℕ
  pub company_name : String
  pub token : TokenView
  pub amount : ℕ
  pub found : Option InvestorView

pub record RegistryEntry : Type 0 where
  pub status : InvestorStatus
  pub expires_at : ℤ
  pub jurisdiction : Option String
  pub investor_type : ℕ

pub record Position : Type 0 where
  pub company_id : ℕ
  pub mint : String
  pub company_name : String
  pub name : String
  pub symbol : String
  pub decimals : ℕ
  pub policy : TransferPolicy
  pub amount : ℕ
  pub vested : ℕ
  pub unvested : ℕ
  registry : Option RegistryEntry
  pub admission : Admission

abbrev registry_entry : InvestorView → RegistryEntry
registry_entry found = record {
  status = found.status;
  expires_at = found.expires_at;
  jurisdiction = found.jurisdiction;
  investor_type = found.investor_type;
}

abbrev pub to_admission : InvestorView → AdmissionRecord
to_admission found = record { status = found.status; expires_at = found.expires_at }

abbrev pub position : ℤ → PositionInput → Position
position now input =
    let token = input.token in
    record {
      company_id = input.company_id;
      mint = token.mint;
      company_name = input.company_name;
      name = token.name;
      symbol = token.symbol;
      decimals = token.decimals;
      policy = token.policy;
      amount = input.amount;
      vested = input.amount;
      unvested = 0;
      registry = Option.map registry_entry input.found;
      admission = admission token.policy (Option.map to_admission input.found) now;
    }

-- `{ ...seen, amount: seen.amount + input.amount, record: seen.record ?? input.record }`
abbrev first_found : Option InvestorView → Option InvestorView → Option InvestorView
first_found none found = found
first_found (some seen) found = some seen

abbrev merged : PositionInput → PositionInput → PositionInput
merged seen input = record seen {
  amount = seen.amount + input.amount;
  found = first_found seen.found input.found;
}

-- `byMint.set`
abbrev pub add_input : PositionInput → List PositionInput → List PositionInput
add_input input [] = input ∷ []
add_input input (seen ∷ others) =
    let rest = add_input input others in
    if seen.token.mint === input.token.mint then merged seen input ∷ others else seen ∷ rest

abbrev pub by_mint : List PositionInput → List PositionInput → List PositionInput
by_mint found [] = found
by_mint found (input ∷ inputs) = by_mint (add_input input found) inputs

module _ (text_before : String → String → Bool) where
  -- The order of the positions: by company, then by mint in the order of texts.
  abbrev pub earlier_input : PositionInput → PositionInput → Bool
  earlier_input a b =
      ltb a.company_id b.company_id
      || (a.company_id == b.company_id && text_before a.token.mint b.token.mint)

  unfoldable pub merge_positions : List PositionInput → ℤ → List Position
  merge_positions inputs now = map (position now) (sort earlier_input (by_mint [] inputs))

-- `order by created_slot desc, offer`, in the database's order of texts.
abbrev pub newer_offer : (String → String → Bool) → OfferRow → OfferRow → Bool
newer_offer text_before a b =
    ltb b.created_slot a.created_slot
    || (b.created_slot == a.created_slot && text_before a.offer b.offer)

-- The inner joins of a row with its token and its company.
abbrev with_company : List CompanyRow → ℕ → (CompanyRow → PositionInput) → List PositionInput
with_company companies id input =
    map input (keep (λ (row : CompanyRow). row.company_id == id) companies)

abbrev with_token : List TokenRow → String → (TokenRow → List PositionInput) → List PositionInput
with_token [] mint inputs = []
with_token (token ∷ tokens) mint inputs =
    let rest = with_token tokens mint inputs in
    if token.mint === mint then inputs token ++ rest else rest

abbrev input_of : TokenRow → CompanyRow → ℕ → Option InvestorView → PositionInput
input_of token company amount found = record {
  company_id = token.company_id;
  company_name = company.name;
  token = token_view token;
  amount = amount;
  found = found;
}

abbrev registry_inputs : List TokenRow → List CompanyRow → List InvestorRow → List PositionInput
registry_inputs tokens companies [] = []
registry_inputs tokens companies (row ∷ rows) =
    with_token tokens row.mint (λ token.
      with_company companies row.company_id
        (λ company. input_of token company 0 (some (investor_view row))))
    ++ registry_inputs tokens companies rows

abbrev held_inputs : List TokenRow → List CompanyRow → List HoldingRow → List PositionInput
held_inputs tokens companies [] = []
held_inputs tokens companies (row ∷ rows) =
    with_token tokens row.mint (λ token.
      with_company companies row.company_id (λ company. input_of token company row.amount none))
    ++ held_inputs tokens companies rows

pub record CabinetRecord : Type 0 where
  pub positions : List Position
  pub offers : List OfferRecord

unfoldable cabinet :
    (String → String → Bool)
    → (String → String → Bool)
    → List TokenRow
    → List CompanyRow
    → List InvestorRow
    → List HoldingRow
    → List OfferRow
    → String
    → ℤ
    → CabinetRecord
cabinet text_before stored_before tokens companies investors holdings offers wallet at =
    let registry = keep (λ (row : InvestorRow). row.wallet === wallet) investors in
    let held = keep (λ (row : HoldingRow). row.wallet === wallet && ltb 0 row.amount) holdings in
    let own = keep (λ (row : OfferRow). row.seller === wallet && is_open row.status) offers in
    let inputs = registry_inputs tokens companies registry ++ held_inputs tokens companies held in
    record {
      positions = merge_positions text_before inputs at;
      offers = map offer_record (sort (newer_offer stored_before) own);
    }

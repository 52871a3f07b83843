-- ===== src/Api/Queries.antt =====
-- apps/api/src/index/reader.ts: the queries of memberships, companies, registries and offers, and the
-- report of an attempt. The tables are the rows that the session sees;
-- stored_before is the database's order of texts.
pub mod Roles
pub mod Reports
use cap_rail.Api.CapTable.{company_tokens, first_of}
use cap_rail.Api.Journal.{JournalRow}
use cap_rail.Api.Journal.Order.{sort}
use cap_rail.Api.Positions.{newer_offer}
use cap_rail.Api.Views.{
  InvestorView, OfferRecord, TokenView, investor_view, offer_record, token_view,
}
use cap_rail.Prelude.{
  Bool, List, Option, String, ℕ, [], false, find, has, if◌then◌else◌, keep, ltb, map, none, not,
  some, true, ◌&&◌, ◌++◌, ◌===◌, ◌==◌, ◌||◌, ◌∷◌,
}
use cap_rail.Prelude.Int.{ℤ, ltb_ℤ}
use cap_rail.Shared.Market.{OfferStatus}
use cap_rail.Worker.Rows.{
  AttemptRow, CompanyRow, InvestorRow, OfferRow, TokenRow, rejected, simulation,
}
use mathlib.Core.Option

pub data Role : Type 0 where
  admin_role compliance_officer_role investor_role : Role

pub record Membership : Type 0 where
  pub company_id : ℕ
  pub role : Role

abbrev when : {A : Type 0} → Bool → A → List A
when test value = if test then value ∷ [] else []

-- The roles of a wallet in one company.
abbrev pub memberships_in : List InvestorRow → String → CompanyRow → List Membership
memberships_in investors wallet row =
    when (row.admin === wallet) (record { company_id = row.company_id; role = admin_role })
    ++ when (row.compliance_officer === wallet)
        (record { company_id = row.company_id; role = compliance_officer_role })
    ++ when (has (λ i. i.company_id == row.company_id && i.wallet === wallet) investors)
        (record { company_id = row.company_id; role = investor_role })

abbrev pub join_memberships : List InvestorRow → String → List CompanyRow → List Membership
join_memberships investors wallet [] = []
join_memberships investors wallet (row ∷ rows) =
    memberships_in investors wallet row ++ join_memberships investors wallet rows

unfoldable pub memberships_of : List CompanyRow → List InvestorRow → String → List Membership
memberships_of companies investors wallet =
    join_memberships investors wallet (sort (λ a b. ltb a.company_id b.company_id) companies)

unfoldable pub roles_of : List CompanyRow → List InvestorRow → ℕ → String → List Role
roles_of companies investors company_id wallet =
    map (λ (m : Membership). m.role)
      (keep (λ (m : Membership). m.company_id == company_id)
        (memberships_of companies investors wallet))

pub record CompanyAnswer : Type 0 where
  pub company_id : ℕ
  pub company : String
  pub name : String
  pub admin : String
  pub compliance_officer : String
  pub roles_set_at : Option ℤ
  pub tokens : List TokenView

pub record AttemptReport : Type 0 where
  pub mint : String
  pub source_owner : String
  pub dest_owner : String
  pub amount : ℕ
  pub reason_code : String
  pub logs : List String

pub record OffersQuery : Type 0 where
  pub mint : Option String
  pub status : Option OfferStatus

abbrev is_status : OfferStatus → OfferStatus → Bool
is_status OfferStatus.open_ OfferStatus.open_ = true
is_status OfferStatus.filled OfferStatus.filled = true
is_status OfferStatus.cancelled OfferStatus.cancelled = true
is_status _ _ = false

abbrev pub asked_for : {A : Type 0} → Option A → (A → Bool) → Bool
asked_for none test = true
asked_for (some a) test = test a

abbrev company_answer : CompanyRow → List TokenRow → CompanyAnswer
company_answer row tokens = record {
  company_id = row.company_id;
  company = row.company;
  name = row.name;
  admin = row.admin;
  compliance_officer = row.compliance_officer;
  roles_set_at = row.roles_set_at;
  tokens = map token_view tokens;
}

module _ (stored_before : String → String → Bool) where
  abbrev pub company : List CompanyRow → List TokenRow → ℕ → Option CompanyAnswer
  company companies tokens company_id =
      Option.map (λ row. company_answer row (company_tokens stored_before row.company_id tokens))
        (find (λ (row : CompanyRow). row.company_id == company_id) companies)

  -- `order by updated_at desc, wallet`
  abbrev newer_record : InvestorRow → InvestorRow → Bool
  newer_record a b =
      ltb_ℤ b.updated_at a.updated_at
      || (not (ltb_ℤ a.updated_at b.updated_at) && stored_before a.wallet b.wallet)

  abbrev investors_of : List InvestorRow → ℕ → List InvestorView
  investors_of investors company_id =
      map investor_view
        (sort newer_record (keep (λ (row : InvestorRow). row.company_id == company_id) investors))

  abbrev company_offers : List OfferRow → ℕ → OffersQuery → List OfferRecord
  company_offers offers company_id query = map offer_record (
      sort (newer_offer stored_before) (
        keep
          (λ (row : OfferRow).
            row.company_id == company_id
            && asked_for query.mint (λ mint. row.mint === mint)
            && asked_for query.status (is_status row.status))
          offers))

-- The row that reportAttempt inserts for a token of a company; `id` is the next of the serial.
abbrev pub reported_row : ℕ → AttemptReport → String → ℤ → TokenRow → CompanyRow → JournalRow
reported_row id report reported_by now token owner = record {
  id = id;
  attempt = record {
    mint = report.mint;
    company_id = token.company_id;
    source_owner = some report.source_owner;
    dest_owner = some report.dest_owner;
    amount = some report.amount;
    outcome = rejected;
    reason_code = some report.reason_code;
    origin = simulation;
    from_treasury = report.source_owner === owner.company;
    policy_version = none;
    tx_signature = none;
    event_index = 0;
    slot = none;
    block_time = now;
    logs = report.logs;
    reported_by = some reported_by;
  };
}

abbrev or_first : {A : Type 0} → Option A → Option A → Option A
or_first none other = other
or_first (some a) other = some a

-- The first row of the join of the token with its company.
abbrev pub owner_of : List CompanyRow → TokenRow → Option (TokenRow × CompanyRow)
owner_of companies token =
    Option.map (λ (owner : CompanyRow). (token, owner))
      (find (λ (row : CompanyRow). row.company_id == token.company_id) companies)

abbrev pub token_with_owner :
    List TokenRow → List CompanyRow → String → Option (TokenRow × CompanyRow)
token_with_owner [] companies mint = none
token_with_owner (token ∷ tokens) companies mint =
    let rest = token_with_owner tokens companies mint in
    if token.mint === mint then or_first (owner_of companies token) rest else rest

unfoldable pub report_attempt :
    List TokenRow → List CompanyRow → ℕ → AttemptReport → String → ℤ → Option JournalRow
report_attempt tokens companies id report reported_by now =
    Option.map
      (λ (found : TokenRow × CompanyRow). reported_row id report reported_by now found.0 found.1)
      (token_with_owner tokens companies report.mint)

-- ===== src/Worker/Store.antt =====
-- apps/worker/src/index-store.ts: the statements behind `IndexWriter`, each on its table. The unique
-- keys are those of packages/db/src/schema.ts. `write` is in Worker/Apply.
pub mod Holdings
pub mod Replay
use Prim.Native.Nat.{max}
use cap_rail.Prelude.{
  Bool, List, Option, String, ℕ, [], false, has, if◌then◌else◌, keep, leb, ltb, map, none, not,
  some, true, ◌&&◌, ◌++◌, ◌===◌, ◌==◌, ◌||◌, ◌∷◌,
}
use cap_rail.Prelude.Int.{ℤ, leb_ℤ}
use cap_rail.Shared.Market.{OfferStaleReason, OfferStatus, cancelled, is_open}
use cap_rail.Table.{insert_absent, select, update_where, upsert}
use cap_rail.Worker.Rows.{
  AttemptRow, CompanyRow, HoldingRow, Index, InvestorRow, InvestorStatusEventRow, OfferRow,
  PolicyVersionRow, TokenRow, TradeRow,
}

pub record TokenRef : Type 0 where
  pub mint : String
  pub company_id : ℕ
  pub treasury : String

pub record Holding : Type 0 where
  pub amount : ℕ
  pub distributed : ℕ
  pub last_slot : ℕ
  pub verified_at : Option ℤ

pub record Roles : Type 0 where
  pub admin : String
  pub compliance_officer : String
  pub set_at : ℤ

pub record OfferRef : Type 0 where
  pub offer : String
  pub mint : String
  pub company_id : ℕ
  pub status : OfferStatus
  pub remaining : ℕ
  pub available : Option ℕ
  pub stale_reason : Option OfferStaleReason

-- `delegation_revoked` is `none` where the change leaves the column alone.
pub record OfferChange : Type 0 where
  pub status : OfferStatus
  pub remaining : ℕ
  pub available : Option ℕ
  pub stale_reason : Option OfferStaleReason
  pub closed_at : Option ℤ
  pub delegation_revoked : Option Bool
  pub slot : ℕ
  pub updated_at : ℤ

unfoldable pub company_id_of : String → Index → Option ℕ
company_id_of company index = elim (select (λ row. row.company === company) index.companies) [
  | none ↦ none
  | some row ↦ some row.company_id
]

unfoldable pub token_of : String → Index → Option TokenRef
token_of mint index = elim (select (λ row. row.mint === mint) index.tokens) [
  | none ↦ none
  | some row ↦
      some (record { mint = row.mint; company_id = row.company_id; treasury = row.treasury })
]

-- `[...new Set(xs)]`: the first of equal texts, in order.
unfoldable pub distinct : List String → List String
distinct [] = []
distinct (x ∷ xs) = x ∷ keep (λ y. not (y === x)) (distinct xs)

unfoldable pub wallets_of : String → Index → List String
unfolding distinct
wallets_of mint index = distinct (
    map (λ (row : InvestorRow). row.wallet) (keep (λ row. row.mint === mint) index.investors)
    ++ map (λ (row : HoldingRow). row.wallet) (keep (λ row. row.mint === mint) index.holdings))

unfoldable pub create_company : CompanyRow → Index → Index
create_company row index = record index {
  companies =
      insert_absent (λ known. known.company_id == row.company_id || known.company === row.company)
        row index.companies;
}

abbrev pub same_version : PolicyVersionRow → PolicyVersionRow → Bool
same_version policy known = known.mint === policy.mint && known.version == policy.version

abbrev pub held_by : String → String → HoldingRow → Bool
held_by mint wallet row = row.mint === mint && row.wallet === wallet

abbrev pub same_holder : HoldingRow → HoldingRow → Bool
same_holder row = held_by row.mint row.wallet

unfoldable pub create_token : TokenRow → PolicyVersionRow → HoldingRow → Index → Index
create_token token policy treasury index = record index {
  tokens = insert_absent (λ known. known.mint === token.mint) token index.tokens;
  policy_versions = insert_absent (same_version policy) policy index.policy_versions;
  holdings = insert_absent (same_holder treasury) treasury index.holdings;
}

abbrev pub with_policy : PolicyVersionRow → ℤ → TokenRow → TokenRow
with_policy policy updated_at token = record token {
  require_accreditation = policy.require_accreditation;
  require_rofr = policy.require_rofr;
  rofr_window_secs = policy.rofr_window_secs;
  policy_version = policy.version;
  updated_at = updated_at;
}

unfoldable pub set_policy : PolicyVersionRow → ℤ → Index → Index
set_policy policy updated_at index = record index {
  policy_versions = insert_absent (same_version policy) policy index.policy_versions;
  tokens =
      update_where (λ token. token.mint === policy.mint && ltb token.policy_version policy.version)
        (with_policy policy updated_at) index.tokens;
}

-- `isNull(rolesSetAt) or rolesSetAt <= at`
abbrev pub not_after : Option ℤ → ℤ → Bool
not_after none at = true
not_after (some earlier) at = leb_ℤ earlier at

abbrev pub with_roles : Roles → CompanyRow → CompanyRow
with_roles roles company = record company {
  admin = roles.admin;
  compliance_officer = roles.compliance_officer;
  roles_set_at = some roles.set_at;
  updated_at = roles.set_at;
}

unfoldable pub set_roles : ℕ → Roles → Index → Index
set_roles company_id roles index = record index {
  companies =
      update_where
        (λ company. company.company_id == company_id && not_after company.roles_set_at roles.set_at)
        (with_roles roles) index.companies;
}

abbrev pub same_investor : InvestorRow → InvestorRow → Bool
same_investor investor known = known.mint === investor.mint && known.wallet === investor.wallet

-- `set: current, setWhere: investors.slot <= investor.slot`
abbrev pub with_current : InvestorRow → InvestorRow → InvestorRow
with_current investor known =
    if leb known.slot investor.slot
    then (record investor {
      mint = known.mint;
      wallet = known.wallet;
      company_id = known.company_id;
    })
    else known

unfoldable pub set_investor_status : InvestorStatusEventRow → InvestorRow → Index → Index
set_investor_status event investor index = record index {
  status_events =
      insert_absent
        (λ known.
          known.tx_signature === event.tx_signature && known.event_index == event.event_index)
        event index.status_events;
  investors = upsert (same_investor investor) investor (with_current investor) index.investors;
}

-- The unique index covers only rows that have a signature.
abbrev same_optional : Option String → Option String → Bool
same_optional (some a) (some b) = a === b
same_optional (some _) none = false
same_optional none _ = false

abbrev pub same_attempt : AttemptRow → AttemptRow → Bool
same_attempt row known =
    same_optional known.tx_signature row.tx_signature && known.event_index == row.event_index

unfoldable pub record_attempt : AttemptRow → Index → Bool × Index
record_attempt row index = (
  not (has (same_attempt row) index.attempts),
  record index { attempts = insert_absent (same_attempt row) row index.attempts },
)

-- What the applier reads of a row.
abbrev pub holding : HoldingRow → Holding
holding row = record {
  amount = row.amount;
  distributed = row.distributed;
  last_slot = row.last_slot;
  verified_at = row.verified_at;
}

abbrev pub read : Option HoldingRow → Option Holding
read none = none
read (some row) = some (holding row)

unfoldable pub holding_of : String → String → Index → Option Holding
holding_of mint wallet index = read (select (held_by mint wallet) index.holdings)

-- Everything but the key and the company.
abbrev pub with_holding : HoldingRow → HoldingRow → HoldingRow
with_holding row known = record row {
  mint = known.mint;
  wallet = known.wallet;
  company_id = known.company_id;
}

unfoldable pub put_holding : HoldingRow → Index → Index
put_holding row index = record index {
  holdings = upsert (same_holder row) row (with_holding row) index.holdings;
}

unfoldable pub offer_of : String → Index → Option OfferRef
offer_of offer index = elim (select (λ row. row.offer === offer) index.offers) [
  | none ↦ none
  | some row ↦ some (record {
    offer = row.offer;
    mint = row.mint;
    company_id = row.company_id;
    status = row.status;
    remaining = row.remaining;
    available = row.available;
    stale_reason = row.stale_reason;
  })
]

-- The primary key, and the unique index on the seeds of the offer's address.
abbrev pub same_offer : OfferRow → OfferRow → Bool
same_offer row known =
    known.offer === row.offer
    || (known.seller === row.seller && known.mint === row.mint && known.offer_id == row.offer_id)

unfoldable pub create_offer : OfferRow → Index → Bool × Index
create_offer row index = (
  not (has (same_offer row) index.offers),
  record index { offers = insert_absent (same_offer row) row index.offers },
)

abbrev pub same_trade : TradeRow → TradeRow → Bool
same_trade row known =
    known.tx_signature === row.tx_signature && known.event_index == row.event_index

unfoldable pub record_trade : TradeRow → Index → Bool × Index
record_trade row index = (
  not (has (same_trade row) index.trades),
  record index { trades = insert_absent (same_trade row) row index.trades },
)

abbrev is_cancelled : OfferStatus → Bool
is_cancelled cancelled = true
is_cancelled _ = false

-- Only an open offer, and a trade only forward.
abbrev pub may_change : String → OfferChange → OfferRow → Bool
may_change offer change row =
    row.offer === offer
    && is_open row.status
    && (is_cancelled change.status || ltb change.remaining row.remaining)

abbrev pub with_change : OfferChange → OfferRow → OfferRow
with_change change row = record row {
  status = change.status;
  remaining = change.remaining;
  available = change.available;
  stale_reason = change.stale_reason;
  closed_at = change.closed_at;
  delegation_revoked = elim change.delegation_revoked [
    | none ↦ row.delegation_revoked
    | some revoked ↦ some revoked
  ];
  updated_at = change.updated_at;
  checked_at = none;
  touched_slot = max row.touched_slot change.slot;
}

unfoldable pub change_offer : String → OfferChange → Index → Index
change_offer offer change index = record index {
  offers = update_where (may_change offer change) (with_change change) index.offers;
}

-- `checked_slot >= slot`, which is not true of a null.
abbrev read_since : Option ℕ → ℕ → Bool
read_since none slot = false
read_since (some checked) slot = leb slot checked

abbrev pub touched : ℕ → OfferRow → OfferRow
touched slot row = record row {
  touched_slot = max row.touched_slot slot;
  checked_at = if read_since row.checked_slot slot then row.checked_at else none;
}

abbrev pub touches : String → List String → OfferRow → Bool
touches mint wallets row =
    row.mint === mint && has (λ wallet. wallet === row.seller) wallets && is_open row.status

unfoldable pub touch_offers : String → List String → ℕ → Index → Index
touch_offers mint wallets slot index = record index {
  offers = update_where (touches mint wallets) (touched slot) index.offers;
}

-- ===== src/Api/Feed.antt =====
-- apps/api/src/index/reader.ts: feed, the query behind a company's live stream. The tables are lists of the
-- rows that the session sees, in the order in which they were written. A key of a policy is the pair that
-- policyKey spells, which has no other spelling as no mint holds a colon.
pub mod Joins
pub mod Keys
pub mod Arrivals
pub mod Growth
pub mod Late
pub mod Numbers
pub mod Order
pub mod Policies
use cap_rail.Api.Journal.{JournalRow}
use cap_rail.Api.Journal.Order.{sort}
use cap_rail.Api.Journal.Pairing.{is_allowed, pair_trades}
use cap_rail.Api.Views.{
  InvestorView, JournalEntry, OfferRecord, investor_view, journal_entry, offer_record,
}
use cap_rail.Prelude.{
  Bool, List, Option, String, ℕ, [], has, if◌then◌else◌, keep, last?, leb, ltb, map, none, not,
  or_else, some, true, ◌&&◌, ◌++◌, ◌===◌, ◌==◌, ◌||◌, ◌∷◌,
}
use cap_rail.Prelude.Int.{ℤ}
use cap_rail.Shared.Market.{TransferPolicy}
use cap_rail.Worker.Rows.{InvestorRow, InvestorStatusEventRow, OfferRow, PolicyVersionRow, TradeRow}
use mathlib.Core.Option

pub record StatusRow : Type 0 where
  pub id : ℕ
  pub event : InvestorStatusEventRow

-- A row of offers with its `revision`.
pub record BookRow : Type 0 where
  pub revision : ℕ
  pub offer : OfferRow

pub record FeedMarks : Type 0 where
  pub attempt_id : ℕ
  pub status_event_id : ℕ
  pub policy_slot : ℕ
  pub policy_keys : List (String × ℕ)
  pub offer_revision : ℕ

pub data FeedEvent : Type 0 where
  attempt_event : JournalEntry → FeedEvent
  status_event : InvestorView → FeedEvent
  policy_event : String → TransferPolicy → ℕ → Option ℤ → FeedEvent
  offer_event : OfferRecord → FeedEvent

pub record FeedBatch : Type 0 where
  pub events : List FeedEvent
  pub marks : FeedMarks

-- The tables that the feed reads.
pub record FeedTables : Type 0 where
  pub attempts : List JournalRow
  pub statuses : List StatusRow
  pub policies : List PolicyVersionRow
  pub offers : List BookRow
  pub investors : List InvestorRow
  pub trades : List TradeRow

abbrev pub policy_key : PolicyVersionRow → String × ℕ
policy_key row = (row.mint, row.version)

abbrev pub same_key : String × ℕ → String × ℕ → Bool
same_key (mint, version) (mint₂, version₂) = mint === mint₂ && version == version₂

-- `keys.includes(key)`
abbrev pub includes : List (String × ℕ) → String × ℕ → Bool
includes keys key = has (same_key key) keys

abbrev pub max_of : {A : Type 0} → (A → ℕ) → List A → ℕ
max_of number [] = 0
max_of number (row ∷ rows) =
    let most = max_of number rows in if ltb most (number row) then number row else most

-- `rows.at(-1)?.number ?? since`
abbrev pub last_or : {A : Type 0} → (A → ℕ) → ℕ → List A → ℕ
last_or number since rows = or_else (Option.map number (last? rows)) since

-- `number > since order by number`
abbrev pub selected : {A : Type 0} → (A → ℕ) → ℕ → List A → List A
selected number since rows =
    sort (λ a b. ltb (number a) (number b)) (keep (λ row. ltb since (number row)) rows)

-- `order by slot, version`
abbrev pub earlier_policy : PolicyVersionRow → PolicyVersionRow → Bool
earlier_policy a b = ltb a.slot b.slot || (a.slot == b.slot && ltb a.version b.version)

-- The rows of one company.
abbrev pub own_attempts : ℕ → FeedTables → List JournalRow
own_attempts company tables = keep (λ row. row.attempt.company_id == company) tables.attempts

abbrev pub own_statuses : ℕ → FeedTables → List StatusRow
own_statuses company tables = keep (λ row. row.event.company_id == company) tables.statuses

abbrev pub own_policies : ℕ → FeedTables → List PolicyVersionRow
own_policies company tables = keep (λ row. row.company_id == company) tables.policies

abbrev pub own_offers : ℕ → FeedTables → List BookRow
own_offers company tables = keep (λ row. row.offer.company_id == company) tables.offers

-- The signatures of the allowed rows that have one, each once.
abbrev add_signature : Bool → Option String → List String → List String
add_signature true (some signature) found =
    if has (λ other. other === signature) found then found else signature ∷ found
add_signature _ _ found = found

abbrev pub signatures_of : List JournalRow → List String
signatures_of [] = []
signatures_of (row ∷ rows) =
    add_signature (is_allowed row.attempt.outcome) row.attempt.tx_signature (signatures_of rows)

abbrev pub trades_of : ℕ → List String → List TradeRow → List TradeRow
trades_of company signatures trades =
    keep (λ trade. trade.company_id == company && has (λ s. s === trade.tx_signature) signatures)
      trades

abbrev pub with_trades : List TradeRow → ℕ → List JournalRow → List JournalEntry
with_trades trades company rows =
    let paired = pair_trades rows (trades_of company (signatures_of rows) trades) in
    map (λ row. journal_entry row (paired row.id)) rows

-- A status event with an entry of the registry, as the inner join selects them.
pub record JoinedStatus : Type 0 where
  pub status : StatusRow
  pub investor : InvestorRow

abbrev pub entries_of : List InvestorRow → InvestorStatusEventRow → List InvestorRow
entries_of investors event =
    keep (λ row. row.mint === event.mint && row.wallet === event.wallet) investors

abbrev pub joined : List InvestorRow → StatusRow → List JoinedStatus
joined investors row =
    map (λ entry. record { status = row; investor = entry }) (entries_of investors row.event)

abbrev pub join_all : List InvestorRow → List StatusRow → List JoinedStatus
join_all investors [] = []
join_all investors (row ∷ rows) = joined investors row ++ join_all investors rows

abbrev pub policy_event_of : PolicyVersionRow → FeedEvent
policy_event_of row =
    policy_event row.mint
      (record {
        require_accreditation = row.require_accreditation;
        require_rofr = row.require_rofr;
        rofr_window_secs = row.rofr_window_secs;
      })
      row.version row.set_at

-- `policiesAt`
abbrev policies_at : ℕ → FeedTables → ℕ → List (String × ℕ)
policies_at company tables slot =
    map policy_key (keep (λ row. row.slot == slot) (own_policies company tables))

-- The answer to `since === null`.
unfoldable pub first_marks : ℕ → FeedTables → FeedMarks
first_marks company tables =
    let policy_slot = max_of (λ row. row.slot) (own_policies company tables) in
    record {
      attempt_id = max_of (λ row. row.id) (own_attempts company tables);
      status_event_id = max_of (λ row. row.id) (own_statuses company tables);
      policy_slot = policy_slot;
      policy_keys = policies_at company tables policy_slot;
      offer_revision = max_of (λ row. row.revision) (own_offers company tables);
    }

-- The policies at or after the mark whose keys were not seen.
unfoldable pub unseen_policies : FeedMarks → List PolicyVersionRow → List PolicyVersionRow
unseen_policies since rows =
    keep (λ row. not (includes since.policy_keys (policy_key row)))
      (sort earlier_policy (keep (λ row. leb since.policy_slot row.slot) rows))

-- The keys seen at the new mark.
unfoldable pub next_keys : FeedMarks → ℕ → List PolicyVersionRow → List (String × ℕ)
next_keys since slot policies =
    (if slot == since.policy_slot then since.policy_keys else [])
    ++ map policy_key (keep (λ row. row.slot == slot) policies)

-- The rows that a poll delivers.
pub record Fresh : Type 0 where
  pub attempts : List JournalRow
  pub statuses : List JoinedStatus
  pub policies : List PolicyVersionRow
  pub offers : List BookRow

unfoldable pub fresh : ℕ → FeedTables → FeedMarks → Fresh
fresh company tables since = record {
  attempts = selected (λ row. row.id) since.attempt_id (own_attempts company tables);
  statuses =
      selected (λ row. row.status.id) since.status_event_id
        (join_all tables.investors (own_statuses company tables));
  policies = unseen_policies since (own_policies company tables);
  offers = selected (λ row. row.revision) since.offer_revision (own_offers company tables);
}

unfoldable pub next_marks : FeedMarks → Fresh → FeedMarks
next_marks since rows =
    let policy_slot = last_or (λ row. row.slot) since.policy_slot rows.policies in
    record {
      attempt_id = last_or (λ row. row.id) since.attempt_id rows.attempts;
      status_event_id = last_or (λ row. row.status.id) since.status_event_id rows.statuses;
      policy_slot = policy_slot;
      policy_keys = next_keys since policy_slot rows.policies;
      offer_revision = last_or (λ row. row.revision) since.offer_revision rows.offers;
    }

unfoldable pub events_of : ℕ → FeedTables → Fresh → List FeedEvent
events_of company tables rows =
    map attempt_event (with_trades tables.trades company rows.attempts)
    ++ map (λ row. status_event (investor_view row.investor)) rows.statuses
    ++ map policy_event_of rows.policies
    ++ map (λ row. offer_event (offer_record row.offer)) rows.offers

unfoldable pub feed : ℕ → FeedTables → Option FeedMarks → FeedBatch
feed company tables none = record { events = []; marks = first_marks company tables }
feed company tables (some since) =
    let rows = fresh company tables since in
    record { events = events_of company tables rows; marks = next_marks since rows }

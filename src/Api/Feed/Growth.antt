-- ===== src/Api/Feed/Growth.antt =====
-- The tables of a feed as they grow between polls, and the events that a stream over them should bring.
use cap_rail.Api.Feed.{
  BookRow, FeedEvent, FeedMarks, FeedTables, Fresh, StatusRow, earlier_policy, entries_of,
  events_of, feed, join_all, max_of, own_attempts, own_policies, own_statuses,
}
use cap_rail.Api.Feed.Numbers.{Rising, Upto}
use cap_rail.Api.Feed.Policies.{Later}
use cap_rail.Api.Journal.{JournalRow}
use cap_rail.Api.Journal.Order.{sort}
use cap_rail.Prelude.{
  All, Bool, List, ℕ, [], has, keep, not, some, ◌++◌, ◌===◌, ◌==◌, ◌∷◌, ◌≡◌, ◌≤◌,
}
use cap_rail.Worker.Rows.{InvestorRow, PolicyVersionRow, TradeRow}

-- What is written between two polls: new rows, the offers that changed with their new revisions, and the
-- registry, the trades and the value of the sequence of revisions as they are then.
pub record Arrivals : Type 0 where
  pub attempts : List JournalRow
  pub statuses : List StatusRow
  pub policies : List PolicyVersionRow
  pub offers : List BookRow
  pub investors : List InvestorRow
  pub trades : List TradeRow
  pub revisions : ℕ

abbrev pub same_offer : BookRow → BookRow → Bool
same_offer a b = a.offer.offer === b.offer.offer

abbrev pub arrive : FeedTables → Arrivals → FeedTables
arrive tables new = record {
  attempts = tables.attempts ++ new.attempts;
  statuses = tables.statuses ++ new.statuses;
  policies = tables.policies ++ new.policies;
  offers = keep (λ row. not (has (same_offer row) new.offers)) tables.offers ++ new.offers;
  investors = new.investors;
  trades = new.trades;
}

-- The company's rows among them, the policies in the feed's order.
abbrev pub arrived : ℕ → Arrivals → Fresh
arrived company new = record {
  attempts = keep (λ row. row.attempt.company_id == company) new.attempts;
  statuses = join_all new.investors (keep (λ row. row.event.company_id == company) new.statuses);
  policies = sort earlier_policy (keep (λ row. row.company_id == company) new.policies);
  offers = keep (λ row. row.offer.company_id == company) new.offers;
}

-- Each status event has its one entry in the registry, which is written with it.
abbrev pub Entered : List InvestorRow → List StatusRow → Type 0
Entered investors rows =
    All (λ row. (entry : InvestorRow) × (entries_of investors row.event ≡ entry ∷ [])) rows

-- The company's rows are written in the order of their ids, status events with their entries, policies not
-- before the latest slot and with keys of their own, and a change of an offer takes the next value of the
-- sequence.
abbrev pub Lands : ℕ → ℕ → FeedTables → Arrivals → Type 0
Lands company revisions tables new =
    Rising (λ row. row.id) (max_of (λ row. row.id) (own_attempts company tables))
      (keep (λ row. row.attempt.company_id == company) new.attempts)
    × Rising (λ row. row.id) (max_of (λ row. row.id) (own_statuses company tables))
        (keep (λ row. row.event.company_id == company) new.statuses)
    × Entered new.investors (keep (λ row. row.event.company_id == company) new.statuses)
    × Later (own_policies company tables) (keep (λ row. row.company_id == company) new.policies)
    × Rising (λ row. row.revision) revisions
        (keep (λ row. row.offer.company_id == company) new.offers)
    × Upto (λ row. row.revision) new.revisions
        (keep (λ row. row.offer.company_id == company) new.offers)
    × (revisions ≤ new.revisions)

abbrev pub LandAll : ℕ → ℕ → FeedTables → List Arrivals → Type 0
LandAll company revisions tables [] = Unit
LandAll company revisions tables (new ∷ later) =
    Lands company revisions tables new × LandAll company new.revisions (arrive tables new) later

-- The polls behind some marks, one after each group of arrivals: the events that they answer.
abbrev pub polled : ℕ → FeedTables → FeedMarks → List Arrivals → List FeedEvent
polled company tables marks [] = []
polled company tables marks (new ∷ later) =
    let grown = arrive tables new in
    let batch = feed company grown (some marks) in
    batch.events ++ polled company grown batch.marks later

-- The events of the arrivals.
abbrev pub announced : ℕ → FeedTables → List Arrivals → List FeedEvent
announced company tables [] = []
announced company tables (new ∷ later) =
    let grown = arrive tables new in
    events_of company grown (arrived company new) ++ announced company grown later

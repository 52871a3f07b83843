-- ===== src/Panel/Feed.antt =====
-- apps/web/src/company/feed.ts: what an event of the live feed does to the panel's cached reads. A read
-- that is not loaded is none; the reads that an event makes stale are listed in the cache as asked for again.
pub mod Entries
pub mod Hook
pub mod Settled
use cap_rail.Api.Feed.{FeedEvent, attempt_event, offer_event, policy_event, status_event}
use cap_rail.Api.Journal.{Cursor}
use cap_rail.Api.Journal.Pairing.{is_allowed}
use cap_rail.Api.Views.{InvestorView, JournalEntry, TokenView}
use cap_rail.Prelude.{
  Bool, List, Option, String, ℕ, [], has, if◌then◌else◌, ltb, map, ◌&&◌, ◌===◌, ◌==◌, ◌∷◌,
}
use cap_rail.Prelude.Int.{ℤ, ltb_ℤ}
use cap_rail.Shared.Market.{TransferPolicy}
use mathlib.Core.Option

-- A loaded page of the journal.
pub record EntryPage : Type 0 where
  pub items : List JournalEntry
  pub next_cursor : Option Cursor

pub record CompanyView : Type 0 where
  pub company_id : ℕ
  pub company : String
  pub name : String
  pub admin : String
  pub compliance_officer : String
  pub roles_set_at : Option ℤ
  pub tokens : List TokenView

-- A read that invalidateQueries names.
pub data StaleRead : Type 0 where
  cap_table_of : String → StaleRead
  offers_read : StaleRead
  all_reads : StaleRead

-- The cached reads of one company.
pub record PanelCache : Type 0 where
  pub journal : Option (List EntryPage)
  pub investors : Option (List InvestorView)
  pub view : Option CompanyView
  pub stale : List StaleRead

abbrev pub has_entry : ℕ → List EntryPage → Bool
has_entry id pages = has (λ page. has (λ item. item.id == id) page.items) pages

abbrev pub add_to_first : JournalEntry → List EntryPage → List EntryPage
add_to_first entry [] = []
add_to_first entry (first ∷ rest) = record first { items = entry ∷ first.items } ∷ rest

unfoldable pub prepend_entry : List EntryPage → JournalEntry → List EntryPage
prepend_entry pages entry = if has_entry entry.id pages then pages else add_to_first entry pages

abbrev pub same_investor : InvestorView → InvestorView → Bool
same_investor a b = a.mint === b.mint && a.wallet === b.wallet

-- The row at the index that findIndex answers is replaced unless it is newer; without such a row the
-- investor goes to the end.
unfoldable pub upsert_investor : List InvestorView → InvestorView → List InvestorView
upsert_investor [] investor = investor ∷ []
upsert_investor (row ∷ rows) investor =
    let rest = upsert_investor rows investor in
    if same_investor row investor
    then (if ltb_ℤ investor.updated_at row.updated_at then row else investor) ∷ rows
    else row ∷ rest

abbrev pub apply_to_token : String → TransferPolicy → ℕ → TokenView → TokenView
apply_to_token mint policy version token =
    if token.mint === mint && ltb token.policy_version version
    then record token { policy = policy; policy_version = version }
    else token

unfoldable pub apply_policy : String → TransferPolicy → ℕ → CompanyView → CompanyView
apply_policy mint policy version view = record view {
  tokens = map (apply_to_token mint policy version) view.tokens;
}

abbrev stale_after : JournalEntry → List StaleRead → List StaleRead
stale_after entry stale =
    if is_allowed entry.outcome then cap_table_of entry.mint ∷ stale else stale

abbrev pub apply_feed_event : FeedEvent → PanelCache → PanelCache
apply_feed_event (attempt_event entry) cache = record cache {
  journal = Option.map (λ pages. prepend_entry pages entry) cache.journal;
  stale = stale_after entry cache.stale;
}
apply_feed_event (status_event investor) cache = record cache {
  investors = Option.map (λ rows. upsert_investor rows investor) cache.investors;
}
apply_feed_event (policy_event mint policy version set_at) cache = record cache {
  view = Option.map (apply_policy mint policy version) cache.view;
}
apply_feed_event (offer_event offer) cache = record cache { stale = offers_read ∷ cache.stale }

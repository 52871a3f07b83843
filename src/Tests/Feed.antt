-- ===== src/Tests/Feed.antt =====
-- The feed, its poller and the panel's cache at concrete inputs.
use cap_rail.Api.Feed.{FeedEvent, FeedMarks, FeedTables, StatusRow, attempt_event, feed}
use cap_rail.Api.Feed.Arrivals.{feed-announced}
use cap_rail.Api.Feed.Growth.{Arrivals, LandAll, announced, polled}
use cap_rail.Api.Feed.Late.{polled-late, with_policy}
use cap_rail.Api.Poller.{
  Call, FeedState, Watch, answered, is_empty, no_watches, poll, run, settle, step, subscribed,
  ticked, unsubscribed,
}
use cap_rail.Api.Poller.Busy.{asks, run-asks}
use cap_rail.Api.Poller.Heard.{heard_by, quiet, reads}
use cap_rail.Api.Poller.Stream.{grown, heard_by-announced, reader_of}
use cap_rail.Api.Poller.Watched.{run-watched}
use cap_rail.Api.Views.{journal_entry}
use cap_rail.Panel.Connection.{Action, on_frame, opened as connection_opened, status}
use cap_rail.Panel.Feed.{EntryPage, PanelCache}
use cap_rail.Panel.Feed.Entries.{entries_with, hear-entries, pages_of}
use cap_rail.Panel.Feed.Hook.{hear, parse_feed_frame}
use cap_rail.Panel.Sse.{CodeUnits, SseFrame}
use cap_rail.Prelude.{List, Option, ℕ, [], arith, false, none, refl, some, true, ◌<◌, ◌∷◌, ◌≡◌, ◌⊎◌}
use cap_rail.Prelude.Int.{pos}
use cap_rail.Shared.Market.{InvestorStatus, TransferPolicy, approved, revoked}
use cap_rail.Tests.Api.{row_at}
use cap_rail.Worker.Rows.{InvestorRow, PolicyVersionRow}

abbrev entry : InvestorStatus → ℕ → InvestorRow
entry status_ slot = record {
  mint = "M";
  wallet = "W";
  company_id = 7;
  status = status_;
  expires_at = pos 100;
  jurisdiction = none;
  investor_type = 0;
  updated_at = pos slot;
  updated_by = "A";
  tx_signature = "S";
  slot = slot;
}

abbrev status_row : ℕ → InvestorStatus → ℕ → StatusRow
status_row number status_ slot = record {
  id = number;
  event = record {
    mint = "M";
    wallet = "W";
    company_id = 7;
    status = status_;
    expires_at = pos 100;
    jurisdiction = none;
    investor_type = 0;
    set_at = pos slot;
    set_by = "A";
    tx_signature = "S";
    event_index = 0;
    slot = slot;
    block_time = none;
  };
}

abbrev opened : FeedTables
opened = record {
  attempts = row_at 1 0 ∷ [];
  statuses = status_row 4 approved 1 ∷ [];
  policies = [];
  offers = [];
  investors = entry approved 1 ∷ [];
  trades = [];
}

abbrev policy_row : ℕ → ℕ → PolicyVersionRow
policy_row version slot = record {
  mint = "M";
  version = version;
  company_id = 7;
  require_accreditation = true;
  require_rofr = false;
  rofr_window_secs = 0;
  set_at = none;
  tx_signature = "S";
  slot = slot;
  block_time = none;
}

abbrev arrivals : List Arrivals
arrivals =
    record {
      attempts = row_at 2 1 ∷ row_at 3 2 ∷ [];
      statuses = status_row 5 revoked 8 ∷ [];
      policies = policy_row 2 9 ∷ [];
      offers = [];
      investors = entry revoked 8 ∷ [];
      trades = [];
      revisions = 4;
    }
    ∷ []

abbrev lands : LandAll 7 0 opened arrivals
lands = (
  (
    (omega arith, (omega arith, tt)),
    (omega arith, tt),
    ((entry revoked 8, refl), tt),
    ((omega arith, tt), (refl, tt)),
    tt,
    tt,
    omega arith,
  ),
  tt,
)

feed-announced_example :
    let first = feed 7 opened none in
    (first.events ≡ []) × (polled 7 opened first.marks arrivals ≡ announced 7 opened arrivals)
feed-announced_example = feed-announced 7 0 opened arrivals tt lands

abbrev marks : FeedMarks
marks = record {
  attempt_id = 1;
  status_event_id = 0;
  policy_slot = 5;
  policy_keys = [];
  offer_revision = 0;
}

polled-late_example :
    polled 7 (with_policy (policy_row 1 3) opened) marks arrivals ≡ polled 7 opened marks arrivals
polled-late_example = polled-late 7 opened marks (policy_row 1 3) arrivals (omega arith)

abbrev one_call : List Call
one_call = subscribed "7" 1 ∷ []

one_made : 0 < (run quiet (reader_of (λ id. 7)) one_call no_watches).1.made
unfolding run step poll
one_made = omega arith

run-watched_example :
    let state = (run quiet (reader_of (λ id. 7)) one_call no_watches).1 in
    let watch = state.heap 0 in
    ((state.watches watch.company_id ≡ some 0)
      × (watch.timer ≡ true)
      × (is_empty watch.listeners ≡ false))
    ⊎ ((watch.timer ≡ false) × (is_empty watch.listeners ≡ true))
run-watched_example = run-watched quiet (reader_of (λ id. 7)) one_call 0 one_made

abbrev polling_watch : Watch
polling_watch = record {
  company_id = "7";
  listeners = 1 ∷ [];
  marks = none;
  timer = true;
  polling = true;
}

abbrev polling_state : FeedState
polling_state = record { made = 1; heap = λ ref. polling_watch; watches = λ id. some 0 }

abbrev ticks : List Call
ticks = ticked 0 ∷ unsubscribed "7" 2 ∷ ticked 0 ∷ []

run-asks_example :
    (asks 0 (run quiet (reader_of (λ id. 7)) ticks polling_state).0 ≡ 0)
    × (((run quiet (reader_of (λ id. 7)) ticks polling_state).1.heap 0).polling ≡ true)
run-asks_example =
    run-asks quiet (reader_of (λ id. 7)) 0 ticks polling_state (omega arith) refl
      (refl, (refl, (refl, tt)))

-- The first poll, another listener, a tick, and the answer to the second poll.
abbrev calls : List Call
calls =
    answered 0 opened
    ∷ subscribed "7" 2
    ∷ ticked 0
    ∷ answered 0 (record {
      attempts = row_at 1 0 ∷ row_at 2 1 ∷ row_at 3 2 ∷ [];
      statuses = status_row 4 approved 1 ∷ status_row 5 revoked 8 ∷ [];
      policies = policy_row 2 9 ∷ [];
      offers = [];
      investors = entry revoked 8 ∷ [];
      trades = [];
    })
    ∷ []

nobody : (run quiet (reader_of (λ id. 7)) [] no_watches).1.watches "7" ≡ none
unfolding run
nobody = refl

reads-grown :
    let source = reader_of (λ id. 7) in
    let state = (run quiet source [] no_watches).1 in
    let joined = (step quiet source (subscribed "7" 1) state).1 in
    reads source state.made calls joined ≡ opened ∷ grown opened arrivals
unfolding run reads step poll settle feed
reads-grown = refl

heard_by-announced_example :
    let source = reader_of (λ id. 7) in
    let state = (run quiet source [] no_watches).1 in
    let joined = (step quiet source (subscribed "7" 1) state).1 in
    heard_by state.made 1 (run quiet source calls joined).0 ≡ announced 7 opened arrivals
heard_by-announced_example =
    heard_by-announced (λ id. 7) [] "7" 1 calls 0 opened arrivals nobody
      (refl, (refl, (refl, (refl, tt)))) reads-grown tt lands

abbrev first_page : EntryPage
first_page = record { items = journal_entry (row_at 1 0) none ∷ []; next_cursor = none }

abbrev loaded : PanelCache
loaded = record { journal = some (first_page ∷ []); investors = none; view = none; stale = [] }

abbrev texts : SseFrame
texts = record { event = []; payload = b'x' ∷ []; id = none }

-- A parser of events for which one text is an attempt.
abbrev parsed : CodeUnits → Option FeedEvent
parsed [] = none
parsed (_ ∷ _) = some (attempt_event (journal_entry (row_at 3 2) none))

abbrev dropped : SseFrame
dropped = record { event = []; payload = []; id = none }

abbrev turns : List Action
turns = status connection_opened ∷ on_frame texts ∷ on_frame texts ∷ on_frame dropped ∷ []

hear-entries_example :
    entries_with 3
      (pages_of (hear parsed turns (record { state = none; cache = loaded })).cache.journal)
    ≡ 1
unfolding parse_feed_frame
hear-entries_example =
    hear-entries parsed 3 turns (record { state = none; cache = loaded }) first_page [] refl
      (omega arith)

abbrev strict : TransferPolicy
strict = record { require_accreditation = true; require_rofr = true; rofr_window_secs = 60 }

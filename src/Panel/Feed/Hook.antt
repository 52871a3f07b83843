-- ===== src/Panel/Feed/Hook.antt =====
-- apps/web/src/company/feed.ts: useCompanyFeed, what the callbacks of the stream do to the state that the panel
-- shows and to its cached reads. JSON.parse and the schema of an event are the parameter `parsed`, which
-- answers none where either refuses the data of a frame.
use cap_rail.Api.Feed.{FeedEvent}
use cap_rail.Panel.Connection.{
  Action, StreamStatus, cancel, connecting, fetch, on_frame, opened, retrying, schedule, status,
}
use cap_rail.Panel.Feed.{PanelCache, all_reads, apply_feed_event}
use cap_rail.Panel.Sse.{CodeUnits, SseFrame, equal_units}
use cap_rail.Prelude.{List, Option, [], if◌then◌else◌, none, some, ◌||◌, ◌∷◌}

-- 'ready' and 'ping'
abbrev ready : CodeUnits
ready = b'r' ∷ b'e' ∷ b'a' ∷ b'd' ∷ b'y' ∷ []

abbrev ping : CodeUnits
ping = b'p' ∷ b'i' ∷ b'n' ∷ b'g' ∷ []

unfoldable pub parse_feed_frame : (CodeUnits → Option FeedEvent) → SseFrame → Option FeedEvent
parse_feed_frame parsed frame =
    if equal_units frame.event ready || equal_units frame.event ping
    then none
    else parsed frame.payload

-- The hook's state, none for 'idle', with the cached reads of its company.
pub record FeedHook : Type 0 where
  pub state : Option StreamStatus
  pub cache : PanelCache

abbrev pub apply_if_some : Option FeedEvent → PanelCache → PanelCache
apply_if_some none cache = cache
apply_if_some (some event) cache = apply_feed_event event cache

-- `invalidateQueries` of all the company's reads, on every open.
abbrev pub refresh : StreamStatus → PanelCache → PanelCache
refresh opened cache = record cache { stale = all_reads ∷ cache.stale }
refresh connecting cache = cache
refresh (retrying attempt message) cache = cache

-- `onStatus` and `onFrame`; what else the stream does calls neither.
unfoldable pub on_action : (CodeUnits → Option FeedEvent) → Action → FeedHook → FeedHook
on_action parsed (status now) hook = record { state = some now; cache = refresh now hook.cache }
on_action parsed (on_frame frame) hook = record hook {
  cache = apply_if_some (parse_feed_frame parsed frame) hook.cache;
}
on_action parsed (fetch bearer) hook = hook
on_action parsed cancel hook = hook
on_action parsed (schedule delay) hook = hook

unfoldable pub hear : (CodeUnits → Option FeedEvent) → List Action → FeedHook → FeedHook
hear parsed [] hook = hook
hear parsed (action ∷ actions) hook = hear parsed actions (on_action parsed action hook)

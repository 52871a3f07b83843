-- ===== src/Api/Poller.antt =====
-- apps/api/src/index/feed.ts: createFeed, which polls a company while somebody listens to it. The map of
-- watches is a function from company ids to references into the watches made so far, since a poll in
-- flight and a timer keep the watch that they were made for. A listener is a number; throws says which
-- listener throws on which event, and source is the source of the options, on the tables that it reads.
pub mod Entries
pub mod Stays
pub mod Busy
pub mod Heard
pub mod Stream
pub mod Watched
use cap_rail.Api.Feed.{FeedBatch, FeedEvent, FeedMarks, FeedTables}
use cap_rail.Prelude.{
  Bool, List, Option, String, ℕ, [], false, has, if◌then◌else◌, keep, none, not, some, suc, true,
  ◌++◌, ◌===◌, ◌==◌, ◌∷◌,
}

pub record Watch : Type 0 where
  pub company_id : String
  pub listeners : List ℕ
  pub marks : Option FeedMarks
  pub timer : Bool
  pub polling : Bool

pub record FeedState : Type 0 where
  pub made : ℕ
  pub heap : ℕ → Watch
  pub watches : String → Option ℕ

-- What a step does outside: it asks the source, calls a listener or reports an error.
pub data Effect : Type 0 where
  asked : ℕ → Option FeedMarks → Effect
  delivered : ℕ → ℕ → FeedEvent → Effect
  reported : String → Effect

-- What happens to the feed: a call of its interface, a tick of the timer of a watch, and the source's
-- answer to the poll of a watch.
pub data Call : Type 0 where
  subscribed unsubscribed : String → ℕ → Call
  ticked : ℕ → Call
  answered : ℕ → FeedTables → Call
  failed : ℕ → Call

abbrev no_watch : Watch
no_watch = record { company_id = ""; listeners = []; marks = none; timer = false; polling = false }

abbrev pub no_watches : FeedState
no_watches = record { made = 0; heap = λ ref. no_watch; watches = λ id. none }

abbrev pub set_watch : ℕ → Watch → FeedState → FeedState
set_watch ref watch state = record state {
  heap = λ other. if other == ref then watch else state.heap other;
}

-- `watches.set`, and `watches.delete` where there is no reference.
abbrev set_entry : String → Option ℕ → FeedState → FeedState
set_entry id entry state = record state {
  watches = λ other. if other === id then entry else state.watches other;
}

-- `listeners.add`
abbrev pub add_listener : ℕ → Watch → Watch
add_listener listener watch = record watch {
  listeners =
      if has (λ other. other == listener) watch.listeners
      then watch.listeners
      else watch.listeners ++ listener ∷ [];
}

abbrev pub delete_listener : ℕ → Watch → Watch
delete_listener listener watch = record watch {
  listeners = keep (λ other. not (other == listener)) watch.listeners;
}

-- poll, as far as its request.
unfoldable pub poll : ℕ → Watch → List Effect × Watch
poll ref watch =
    if watch.polling
    then ([], watch)
    else (asked ref watch.marks ∷ [], record watch { polling = true })

abbrev pub is_empty : List ℕ → Bool
is_empty [] = true
is_empty (_ ∷ _) = false

abbrev new_watch : String → Watch
new_watch id = record {
  company_id = id;
  listeners = [];
  marks = none;
  timer = true;
  polling = false;
}

-- Make a watch with its timer, put it in the map and start its first poll.
abbrev make : String → FeedState → List Effect × FeedState
make id state =
    let (effects, polled) = poll state.made (new_watch id) in
    (
      effects,
      record (set_entry id (some state.made) (set_watch state.made polled state)) {
        made = suc state.made;
      },
    )

abbrev join : ℕ → ℕ → FeedState → FeedState
join ref listener state = set_watch ref (add_listener listener (state.heap ref)) state

abbrev pub subscribe : Option ℕ → String → ℕ → FeedState → List Effect × FeedState
subscribe none id listener state =
    let (effects, made) = make id state in (effects, join state.made listener made)
subscribe (some ref) id listener state = ([], join ref listener state)

abbrev pub leave : Option ℕ → String → ℕ → FeedState → FeedState
leave none id listener state = state
leave (some ref) id listener state =
    let left = delete_listener listener (state.heap ref) in
    if is_empty left.listeners
    then set_entry id none (set_watch ref (record left { timer = false }) state)
    else set_watch ref left state

abbrev pub on_watch : ℕ → List Effect × Watch → FeedState → List Effect × FeedState
on_watch ref (effects, watch) state = (effects, set_watch ref watch state)

module _ (throws : ℕ → FeedEvent → Bool) where
  -- The inner loop, and whether a listener ended it.
  abbrev pub send : ℕ → FeedEvent → List ℕ → List Effect × Bool
  send ref event [] = ([], false)
  send ref event (listener ∷ listeners) =
      let (rest, threw) = send ref event listeners in
      if throws listener event
      then (delivered ref listener event ∷ [], true)
      else (delivered ref listener event ∷ rest, threw)

  abbrev pub send_all : ℕ → List FeedEvent → List ℕ → List Effect × Bool
  send_all ref [] listeners = ([], false)
  send_all ref (event ∷ events) listeners =
      let (calls, threw) = send ref event listeners in
      let (rest, threw_later) = send_all ref events listeners in
      if threw then (calls, true) else (calls ++ rest, threw_later)

  -- poll from the source's answer on.
  unfoldable pub settle : ℕ → FeedBatch → Watch → List Effect × Watch
  settle ref batch watch =
      let (calls, threw) = send_all ref batch.events watch.listeners in
      if threw
      then (calls ++ reported watch.company_id ∷ [], record watch { polling = false })
      else (calls, record watch { marks = some batch.marks; polling = false })

  module _ (source : String → FeedTables → Option FeedMarks → FeedBatch) where
    -- A timer ticks until it is cleared, and an answer comes to a poll that is in flight.
    unfoldable pub step : Call → FeedState → List Effect × FeedState
    step (subscribed id listener) state = subscribe (state.watches id) id listener state
    step (unsubscribed id listener) state = ([], leave (state.watches id) id listener state)
    step (ticked ref) state =
        let watch = state.heap ref in
        if watch.timer then on_watch ref (poll ref watch) state else ([], state)
    step (answered ref tables) state =
        let watch = state.heap ref in
        if watch.polling
        then on_watch ref (settle ref (source watch.company_id tables watch.marks) watch) state
        else ([], state)
    step (failed ref) state =
        let watch = state.heap ref in
        if watch.polling
        then on_watch ref (reported watch.company_id ∷ [], record watch { polling = false }) state
        else ([], state)

    unfoldable pub run : List Call → FeedState → List Effect × FeedState
    run [] state = ([], state)
    run (call ∷ calls) state =
        let (effects, next) = step call state in
        let (later, last) = run calls next in (effects ++ later, last)

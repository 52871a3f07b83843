-- ===== src/Tests/Connections.antt =====
-- The event stream of the panel at concrete connections.
use cap_rail.Panel.Connection.{
  Action, Event, Phase, Response, open_event_stream, retry_default, run, step,
}
use cap_rail.Panel.Connection.Backoff.{Paced, open_event_stream-Paced}
use cap_rail.Panel.Connection.Scripts.{Connection, all_frames, bearers, delivered, turns}
use cap_rail.Panel.Connection.Stopped.{asks, open_event_stream-stopped}
use cap_rail.Panel.Connection.Whole.{open_event_stream-whole}
use cap_rail.Panel.Sse.{CodeUnits, push, read_lines}
use cap_rail.Panel.Sse.SplitEnd.{data_prefix, message_frame}
use cap_rail.Prelude.{List, String, ℕ, [], false, has, none, refl, some, true, ◌++◌, ◌∷◌, ◌≡◌}

abbrev fine : Response
fine = record { ok = true; status = 200; has_body = true }

abbrev refused : Response
refused = record { ok = false; status = 401; has_body = true }

-- `data: a` in two chunks, and a frame that breaks off.
abbrev body : List CodeUnits
body = data_prefix ∷ (b'a' ∷ 10 ∷ 10 ∷ []) ∷ data_prefix ∷ []

abbrev served : List (Connection × String)
served =
    (Connection.refusing refused, "second")
    ∷ (Connection.down "no network", "third")
    ∷ (Connection.serving fine body none, "fourth")
    ∷ []

heard : all_frames served ≡ message_frame (b'a' ∷ []) ∷ []
unfolding push read_lines
heard = refl

open_event_stream-whole_example :
    let (actions, stream) = open_event_stream retry_default (some "first") (turns served) in
    (delivered actions ≡ all_frames served)
    × (bearers actions ≡ "first" ∷ "second" ∷ "third" ∷ "fourth" ∷ [])
    × (stream.phase ≡ Phase.asking)
open_event_stream-whole_example =
    open_event_stream-whole retry_default "first" served
      (refl, (tt, ((refl, (refl, (refl, (refl, tt)))), tt)))

abbrev scheduled : List Action → List ℕ
scheduled [] = []
scheduled (Action.schedule wait ∷ actions) = wait ∷ scheduled actions
scheduled (_ ∷ actions) = scheduled actions

-- 1 s and 2 s for the failures, and 1 s again behind a frame.
waits :
    scheduled (open_event_stream retry_default (some "first") (turns served)).0
    ≡ 1000 ∷ 2000 ∷ 1000 ∷ []
unfolding open_event_stream run step push read_lines
waits = refl

open_event_stream-Paced_example :
    Paced retry_default 0 (open_event_stream retry_default (some "first") (turns served)).0
open_event_stream-Paced_example =
    open_event_stream-Paced retry_default (some "first") (turns served)

open_event_stream-stopped_example :
    (later : List Action) × ((open_event_stream retry_default
        (some "first")
        (turns served ++ Event.stopped ∷ turns served)).0
      ≡ (open_event_stream retry_default (some "first") (turns served)).0 ++ later)
    × (has asks later ≡ false)
open_event_stream-stopped_example =
    open_event_stream-stopped retry_default (some "first") (turns served) (turns served)

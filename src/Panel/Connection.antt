-- ===== src/Panel/Connection.antt =====
-- apps/web/src/api/sse.ts: openEventStream, whose turns are the events between two of its awaits.
-- What it fetches, the tokens, the timer and the text that the decoder gives are the world's.
use cap_rail.Panel.Sse.{CodeUnits, SseFrame, SseParser, flush, push}
use cap_rail.Prelude.{
  Bool, List, Option, String, ℕ, [], false, get_elem?, if◌then◌else◌, length, ltb, map, none,
  or_else, some, suc, true, ◌&&◌, ◌++◌, ◌-◌, ◌∷◌,
}
pub mod Scripts
pub mod Backoff
pub mod Stopped
pub mod Whole

-- Why a connection ended: `api answered ${status}`, 'stream closed' or the text of an error.
pub data Message : Type 0 where
  answered_status : ℕ → Message
  stream_closed : Message
  error_text : String → Message

pub data StreamStatus : Type 0 where
  connecting opened : StreamStatus
  retrying : ℕ → Message → StreamStatus

-- What a turn does outside the stream.
pub data Action : Type 0 where
  status : StreamStatus → Action
  fetch : String → Action  -- with the bearer
  on_frame : SseFrame → Action
  cancel : Action  -- of the reader
  schedule : ℕ → Action

pub record Response : Type 0 where
  pub ok : Bool
  pub status : ℕ
  pub has_body : Bool

-- The await that the stream is at.
pub data Phase : Type 0 where
  asking : Phase
  reading : SseParser → Phase
  waiting : Phase
  ended : Phase

pub record Stream : Type 0 where
  pub attempt : ℕ
  pub aborted : Bool
  pub phase : Phase

-- What ends an await; `failed` is a fetch or a read that throws, and `fired` has the token of that time.
pub data Event : Type 0 where
  answered : Response → Event
  received : CodeUnits → Event
  finished : Event
  failed : String → Event
  fired : Option String → Event
  stopped : Event

abbrev pub retry_default : List ℕ
retry_default = 1000 ∷ 2000 ∷ 5000 ∷ 10000 ∷ []

-- `Math.min`
abbrev min : ℕ → ℕ → ℕ
min a b = if ltb a b then a else b

-- The first index of an empty list is as absent as its last, which is -1.
abbrev pub wait_of : List ℕ → ℕ → ℕ
wait_of retry_ms attempt = or_else (get_elem? retry_ms (min attempt (length retry_ms - 1))) 0

abbrev pub connect : Option String → Stream → List Action × Stream
connect none stream = ([], record stream { phase = ended })
connect (some token) stream =
    if stream.aborted
    then ([], record stream { phase = ended })
    else (status connecting ∷ fetch token ∷ [], record stream { phase = asking })

-- `connect` behind `once`: a stream that is stopped asks no more.
abbrev pub retry : List ℕ → Message → Stream → List Action × Stream
retry retry_ms message stream =
    if stream.aborted
    then ([], record stream { phase = ended })
    else let wait = wait_of retry_ms stream.attempt in
      (
        status (retrying wait message) ∷ schedule wait ∷ [],
        record stream { attempt = suc stream.attempt; phase = waiting },
      )

abbrev pub on_answer : List ℕ → Response → Stream → List Action × Stream
on_answer retry_ms response stream =
    if response.ok && response.has_body
    then (status opened ∷ [], record stream { phase = reading flush })
    else retry retry_ms (answered_status response.status) stream

-- `attempt = 0` at each frame
abbrev after_frames : List SseFrame → ℕ → ℕ
after_frames [] attempt = attempt
after_frames (_ ∷ _) attempt = 0

-- The frames of a chunk, one after the other.
abbrev pub deliver : List SseFrame × SseParser → Stream → List Action × Stream
deliver (frames, parser) stream = (
  map on_frame frames,
  record stream { attempt = after_frames frames stream.attempt; phase = reading parser },
)

-- The `finally` of `read`, and then the end of the connection.
abbrev pub on_end : List ℕ → Message → Stream → List Action × Stream
on_end retry_ms message stream =
    let (actions, next) = retry retry_ms message stream in (cancel ∷ actions, next)

-- An event that the stream does not await changes nothing.
abbrev pub turn : List ℕ → Phase → Event → Stream → List Action × Stream
turn retry_ms phase stopped stream = ([], record stream { aborted = true })
turn retry_ms asking (answered response) stream = on_answer retry_ms response stream
turn retry_ms asking (failed text) stream = retry retry_ms (error_text text) stream
turn retry_ms (reading parser) (received chunk) stream = deliver (push parser chunk) stream
turn retry_ms (reading parser) finished stream = on_end retry_ms stream_closed stream
turn retry_ms (reading parser) (failed text) stream = on_end retry_ms (error_text text) stream
turn retry_ms waiting (fired token) stream = connect token stream
turn retry_ms phase event stream = ([], stream)

unfoldable pub step : List ℕ → Stream → Event → List Action × Stream
step retry_ms stream event = turn retry_ms stream.phase event stream

unfoldable pub run : List ℕ → Stream → List Event → List Action × Stream
run retry_ms stream [] = ([], stream)
run retry_ms stream (event ∷ events) =
    let (actions, next) = step retry_ms stream event in
    let (later, last) = run retry_ms next events in (actions ++ later, last)

-- The first `connect`, and all that happens from then on.
unfoldable pub open_event_stream : List ℕ → Option String → List Event → List Action × Stream
open_event_stream retry_ms token events =
    let (actions, stream) =
      connect token (record { attempt = 0; aborted = false; phase = ended }) in
    let (later, last) = run retry_ms stream events in (actions ++ later, last)

-- ===== src/Panel/Connection/Stopped.antt =====
-- A stream that is stopped.
use cap_rail.Panel.Connection.{
  Action, Event, Message, Phase, Response, Stream, StreamStatus, connect, deliver, on_answer,
  open_event_stream, retry, run, step, turn,
}
use cap_rail.Panel.Sse.{SseFrame, SseParser, push}
use cap_rail.Prelude.{
  Bool, List, Option, String, ℕ, [], ap, arith, false, has, has-append, if_elim, map, none, refl,
  some, sym, true, ◌&&◌, ◌++◌, ◌∙◌, ◌∷◌, ◌≡◌,
}
use mathlib.Core.List.{append_assoc}

-- Events in two parts, the second from where the first leaves the stream.
pub run-append :
    (delays : List ℕ) (stream : Stream) (a b : List Event)
    → run delays stream (a ++ b) ≡ (
        let (actions, next) = run delays stream a in
        let (later, last) = run delays next b in (actions ++ later, last))
unfolding run
run-append delays stream [] b = refl
run-append delays stream (event ∷ a) b =
    let (actions, next) = step delays stream event in
    let (middle, after) = run delays next a in
    let (later, last) = run delays after b in
    rw (run-append delays next a b)
      (ap (λ all. (all, last)) (sym (append_assoc actions middle later)))

-- A fetch, a timer, or a status that it is connecting or retrying.
abbrev pub asks : Action → Bool
asks (Action.status StreamStatus.opened) = false
asks (Action.status _) = true
asks (Action.fetch token) = true
asks (Action.schedule wait) = true
asks (Action.on_frame frame) = false
asks Action.cancel = false

frames-asks : (frames : List SseFrame) → has asks (map Action.on_frame frames) ≡ false
frames-asks [] = refl
frames-asks (frame ∷ frames) = frames-asks frames

abbrev Resting : List Action × Stream → Type 0
Resting (actions, stream) = (has asks actions ≡ false) × (stream.aborted ≡ true)

module _ (stream : Stream) (aborted : stream.aborted ≡ true) where
  retry-Resting : (delays : List ℕ) (message : Message) → Resting (retry delays message stream)
  retry-Resting delays message = rw aborted (refl, refl)

  on_answer-Resting :
      (delays : List ℕ) (response : Response) → Resting (on_answer delays response stream)
  on_answer-Resting delays response =
      if_elim Resting (response.ok && response.has_body) (refl, aborted)
        (retry-Resting delays (Message.answered_status response.status))

  connect-Resting : (token : Option String) → Resting (connect token stream)
  connect-Resting none = (refl, aborted)
  connect-Resting (some token) = rw aborted (refl, refl)

  deliver-Resting : (read : List SseFrame × SseParser) → Resting (deliver read stream)
  deliver-Resting (frames, parser) = (frames-asks frames, aborted)

  turn-Resting :
      (delays : List ℕ) (phase : Phase) (event : Event) → Resting (turn delays phase event stream)
  turn-Resting delays Phase.asking (Event.answered response) = on_answer-Resting delays response
  turn-Resting delays Phase.asking (Event.failed text) =
      retry-Resting delays (Message.error_text text)
  turn-Resting delays (Phase.reading parser) (Event.received chunk) =
      deliver-Resting (push parser chunk)
  turn-Resting delays (Phase.reading parser) Event.finished =
      retry-Resting delays Message.stream_closed
  turn-Resting delays (Phase.reading parser) (Event.failed text) =
      retry-Resting delays (Message.error_text text)
  turn-Resting delays Phase.waiting (Event.fired token) = connect-Resting token
  turn-Resting delays Phase.ended event = ground (arith, aborted)
  turn-Resting delays _ Event.stopped = (refl, refl)
  turn-Resting _ _ _ = (refl, aborted)

run-Resting :
    (delays : List ℕ) (stream : Stream) (events : List Event)
    → stream.aborted ≡ true
    → Resting (run delays stream events)
unfolding run step
run-Resting delays stream [] aborted = (refl, aborted)
run-Resting delays stream (event ∷ events) aborted =
    let (actions, next) = step delays stream event in
    let (quiet, still) = turn-Resting stream aborted delays stream.phase event in
    let (later, last) = run-Resting delays next events still in
    (has-append asks actions (run delays next events).0 ∙ ground (arith, quiet, later), last)

-- Once a stream is stopped, whatever it meets before and after, it fetches nothing, sets no timer and
-- shows neither that it is connecting nor that it is retrying.
pub open_event_stream-stopped :
    (delays : List ℕ) (token : Option String) (before after : List Event)
    → (later : List Action) × ((open_event_stream delays token (before ++ Event.stopped ∷ after)).0
        ≡ (open_event_stream delays token before).0 ++ later)
      × (has asks later ≡ false)
unfolding open_event_stream
open_event_stream-stopped delays token before after =
    let (first, stream) =
      connect token (record { attempt = 0; aborted = false; phase = Phase.ended }) in
    let (actions, next) = run delays stream before in
    let (quiet, still) = run-Resting delays (record next { aborted = true }) after refl in
    (
      (run delays next (Event.stopped ∷ after)).0,
      rw (run-append delays stream before (Event.stopped ∷ after))
          (sym (append_assoc first actions (run delays next (Event.stopped ∷ after)).0)),
      unfold run step in quiet,
    )

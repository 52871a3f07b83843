-- ===== src/Panel/Connection/Backoff.antt =====
-- How long the stream waits before it asks again.
use cap_rail.Panel.Connection.{
  Action, Event, Message, Phase, Response, Stream, StreamStatus, connect, deliver, on_answer,
  on_end, open_event_stream, retry, run, step, turn, wait_of,
}
use cap_rail.Panel.Sse.{SseFrame, SseParser, push}
use cap_rail.Prelude.{
  List, Option, String, ℕ, [], arith, false, if_elim, map, none, refl, some, suc, sym, zero, ◌&&◌,
  ◌++◌, ◌∷◌, ◌≡◌,
}
use mathlib.Core.Path.{subst}

-- The delay at an index; behind the end the last one repeats, and with none given there is no delay.
abbrev pub delay_at : List ℕ → ℕ → ℕ
delay_at [] n = 0
delay_at (delay ∷ []) n = delay
delay_at (delay ∷ next ∷ delays) zero = delay
delay_at (delay ∷ next ∷ delays) (suc n) = delay_at (next ∷ delays) n

pub wait_of-delay_at : (retry_ms : List ℕ) (n : ℕ) → wait_of retry_ms n ≡ delay_at retry_ms n
wait_of-delay_at [] n = ground arith
wait_of-delay_at (delay ∷ []) n = ground arith
wait_of-delay_at (delay ∷ next ∷ delays) zero = ground arith
wait_of-delay_at (delay ∷ next ∷ delays) (suc n) =
    ground (arith, wait_of-delay_at (next ∷ delays) n)

-- Every delay, shown or scheduled, is the one at the number of those scheduled since the last frame,
-- where there were `n` of them before.
abbrev pub Paced : List ℕ → ℕ → List Action → Type 0
Paced delays n [] = Unit
Paced delays n (Action.schedule wait ∷ actions) =
    (wait ≡ delay_at delays n) × Paced delays (suc n) actions
Paced delays n (Action.status (StreamStatus.retrying wait message) ∷ actions) =
    (wait ≡ delay_at delays n) × Paced delays n actions
Paced delays n (Action.on_frame frame ∷ actions) = Paced delays 0 actions
Paced delays n (action ∷ actions) = Paced delays n actions

abbrev since_frame : ℕ → List Action → ℕ
since_frame n [] = n
since_frame n (Action.schedule wait ∷ actions) = since_frame (suc n) actions
since_frame n (Action.on_frame frame ∷ actions) = since_frame 0 actions
since_frame n (action ∷ actions) = since_frame n actions

Paced-append :
    (delays : List ℕ) (n : ℕ) (a b : List Action)
    → Paced delays n a
    → Paced delays (since_frame n a) b
    → Paced delays n (a ++ b)
Paced-append delays n [] b p q = q
Paced-append delays n (Action.schedule wait ∷ a) b (e, p) q =
    (e, Paced-append delays (suc n) a b p q)
Paced-append delays n (Action.status (StreamStatus.retrying wait message) ∷ a) b (e, p) q =
    (e, Paced-append delays n a b p q)
Paced-append delays n (Action.status StreamStatus.connecting ∷ a) b p q =
    Paced-append delays n a b p q
Paced-append delays n (Action.status StreamStatus.opened ∷ a) b p q = Paced-append delays n a b p q
Paced-append delays n (Action.on_frame frame ∷ a) b p q = Paced-append delays 0 a b p q
Paced-append delays n (Action.fetch token ∷ a) b p q = Paced-append delays n a b p q
Paced-append delays n (Action.cancel ∷ a) b p q = Paced-append delays n a b p q

-- A turn is paced and counts what it schedules.
abbrev PacedTurn : List ℕ → ℕ → List Action × Stream → Type 0
PacedTurn delays n (actions, stream) =
    Paced delays n actions × (stream.attempt ≡ since_frame n actions)

frames-Paced :
    (delays : List ℕ) (frames : List SseFrame)
    → Paced delays 0 (map Action.on_frame frames) × (since_frame 0 (map Action.on_frame frames) ≡ 0)
frames-Paced delays [] = (tt, refl)
frames-Paced delays (frame ∷ frames) = frames-Paced delays frames

deliver-PacedTurn :
    (delays : List ℕ) (read : List SseFrame × SseParser) (stream : Stream)
    → PacedTurn delays stream.attempt (deliver read stream)
deliver-PacedTurn delays ([], parser) stream = (tt, refl)
deliver-PacedTurn delays (frame ∷ frames, parser) stream =
    let (paced, none_) = frames-Paced delays frames in (paced, sym none_)

retry-PacedTurn :
    (delays : List ℕ) (message : Message) (stream : Stream)
    → PacedTurn delays stream.attempt (retry delays message stream)
retry-PacedTurn delays message stream =
    let waits : wait_of delays stream.attempt ≡ delay_at delays stream.attempt =
      wait_of-delay_at delays stream.attempt in
    if_elim (PacedTurn delays stream.attempt) stream.aborted (tt, refl) ((waits, (waits, tt)), refl)

on_end-PacedTurn :
    (delays : List ℕ) (message : Message) (stream : Stream)
    → PacedTurn delays stream.attempt (on_end delays message stream)
on_end-PacedTurn delays message stream = retry-PacedTurn delays message stream

connect-PacedTurn :
    (delays : List ℕ) (token : Option String) (stream : Stream)
    → PacedTurn delays stream.attempt (connect token stream)
connect-PacedTurn delays none stream = (tt, refl)
connect-PacedTurn delays (some token) stream =
    if_elim (PacedTurn delays stream.attempt) stream.aborted (tt, refl) (tt, refl)

on_answer-PacedTurn :
    (delays : List ℕ) (response : Response) (stream : Stream)
    → PacedTurn delays stream.attempt (on_answer delays response stream)
on_answer-PacedTurn delays response stream =
    if_elim (PacedTurn delays stream.attempt) (response.ok && response.has_body) (tt, refl)
      (retry-PacedTurn delays (Message.answered_status response.status) stream)

turn-PacedTurn :
    (delays : List ℕ) (phase : Phase) (event : Event) (stream : Stream)
    → PacedTurn delays stream.attempt (turn delays phase event stream)
turn-PacedTurn delays Phase.asking (Event.answered response) stream =
    on_answer-PacedTurn delays response stream
turn-PacedTurn delays Phase.asking (Event.failed text) stream =
    retry-PacedTurn delays (Message.error_text text) stream
turn-PacedTurn delays (Phase.reading parser) (Event.received chunk) stream =
    deliver-PacedTurn delays (push parser chunk) stream
turn-PacedTurn delays (Phase.reading parser) Event.finished stream =
    on_end-PacedTurn delays Message.stream_closed stream
turn-PacedTurn delays (Phase.reading parser) (Event.failed text) stream =
    on_end-PacedTurn delays (Message.error_text text) stream
turn-PacedTurn delays Phase.waiting (Event.fired token) stream =
    connect-PacedTurn delays token stream
turn-PacedTurn delays Phase.ended event stream = ground arith
turn-PacedTurn _ _ _ _ = (tt, refl)

run-Paced :
    (delays : List ℕ) (stream : Stream) (events : List Event)
    → Paced delays stream.attempt (run delays stream events).0
unfolding run step
run-Paced delays stream [] = tt
run-Paced delays stream (event ∷ events) =
    let (actions, next) = step delays stream event in
    let (paced, counted) = turn-PacedTurn delays stream.phase event stream in
    Paced-append delays stream.attempt actions (run delays next events).0 paced (
      subst (λ n. Paced delays n (run delays next events).0) counted (run-Paced delays next events))

-- Whatever the stream meets from its start on, each delay that it shows and schedules is the entry of
-- `retryMs` at the number of delays scheduled since the last frame, where behind the end the last entry
-- repeats and an empty `retryMs` has 0.
pub open_event_stream-Paced :
    (delays : List ℕ) (token : Option String) (events : List Event)
    → Paced delays 0 (open_event_stream delays token events).0
unfolding open_event_stream
open_event_stream-Paced delays token events =
    let start : Stream = record { attempt = 0; aborted = false; phase = Phase.ended } in
    let (actions, stream) = connect token start in
    let (paced, counted) = connect-PacedTurn delays token start in
    Paced-append delays 0 actions (run delays stream events).0 paced (
      subst (λ n. Paced delays n (run delays stream events).0) counted
        (run-Paced delays stream events))

-- ===== src/Panel/Connection/Whole.antt =====
-- What the panel hears over many connections, one after the other.
use cap_rail.Panel.Connection.{Action, Event, Phase, Response, Stream, open_event_stream, run, step}
use cap_rail.Panel.Connection.Scripts.{
  AsItSays, Connection, Uncut, all_frames, bearers, bearers-append, body_frames, delivered,
  delivered-append, ending, events_of, frames-delivered, joined, turns,
}
use cap_rail.Panel.Connection.Stopped.{run-append}
use cap_rail.Panel.Sse.{CodeUnits, SseFrame, SseParser, flush, push, read_lines}
use cap_rail.Panel.Sse.Chunks.{push-append}
use cap_rail.Prelude.{
  All, List, Option, String, ℕ, [], ap, false, map, none, refl, some, suc, sym, true, ◌&&◌, ◌++◌,
  ◌∙◌, ◌∷◌, ◌≡◌,
}
use mathlib.Core.List.{append-nil, append_assoc}
use mathlib.Core.Path.{subst}

-- A stream that is asking, or waiting, after some number of attempts.
abbrev pub at : Phase → ℕ → Stream
at phase attempt = record { attempt = attempt; aborted = false; phase = phase }

-- What is delivered, the requests made, and a stream that ends up in a phase.
abbrev Gives : List SseFrame → List String → Phase → List Action × Stream → Type 0
Gives frames tokens phase (actions, stream) =
    (delivered actions ≡ frames) × (bearers actions ≡ tokens) × ((n : ℕ) × (stream ≡ at phase n))

Gives-then :
    (delays : List ℕ) (stream : Stream) (a b : List Event) {first second : List SseFrame}
    {front back : List String} {p q : Phase}
    → Gives first front p (run delays stream a)
    → ((n : ℕ) → Gives second back q (run delays (at p n) b))
    → Gives (first ++ second) (front ++ back) q (run delays stream (a ++ b))
Gives-then delays stream a b {first} {second} {front} {back} {p} {q} (d, t, (n, e)) then_ =
    let (actions, next) = run delays stream a in
    let (d2, t2, last) = subst (λ s. Gives second back q (run delays s b)) (sym e) (then_ n) in
    let later = (run delays next b).0 in
    rw (run-append delays stream a b) (
      delivered-append actions later ∙ ap (λ x. x ++ delivered later) d ∙ ap (λ x. first ++ x) d2,
      bearers-append actions later ∙ ap (λ x. x ++ bearers later) t ∙ ap (λ x. front ++ x) t2,
      last,
    )

-- The chunks, one after the other.
abbrev feed : SseParser → List CodeUnits → List SseFrame × SseParser
feed parser [] = ([], parser)
feed parser (chunk ∷ chunks) =
    let (frames, next) = push parser chunk in
    let (more, last) = feed next chunks in (frames ++ more, last)

feed-joined :
    (before : CodeUnits) (chunks : List CodeUnits)
    → Uncut before chunks
    → (push flush before).0 ++ (feed (push flush before).1 chunks).0
      ≡ (push flush (before ++ joined chunks)).0
feed-joined before [] uncut =
    append-nil (push flush before).0 ∙ ap (λ text. (push flush text).0) (sym (append-nil before))
feed-joined before (chunk ∷ chunks) (open_, uncut) =
    let (frames, parser) = push flush before in
    let (more, next) = push parser chunk in
    let later = (feed next chunks).0 in
    sym (append_assoc frames more later)
    ∙ ap (λ r. r.0 ++ (feed r.1 chunks).0) (push-append flush before chunk open_)
    ∙ feed-joined (before ++ chunk) chunks uncut
    ∙ ap (λ text. (push flush text).0) (append_assoc before chunk (joined chunks))

feed-whole :
    (chunks : List CodeUnits)
    → Uncut [] chunks
    → (feed flush chunks).0 ≡ (push flush (joined chunks)).0
unfolding push read_lines
feed-whole chunks uncut = feed-joined [] chunks uncut

turn-Gives :
    (delays : List ℕ) (stream : Stream) (event : Event) {frames : List SseFrame}
    {tokens : List String} {phase : Phase}
    → Gives frames tokens phase (step delays stream event)
    → Gives frames tokens phase (run delays stream (event ∷ []))
unfolding run
turn-Gives delays stream event gives = rw (append-nil (step delays stream event).0) gives

received-Gives :
    (delays : List ℕ) (parser : SseParser) (chunks : List CodeUnits) (n : ℕ)
    → let (frames, last) = feed parser chunks in
      Gives frames []
        (Phase.reading last)
        (run delays (at (Phase.reading parser) n) (map Event.received chunks))
received-Gives delays parser [] n = unfold run in (refl, refl, (n, refl))
received-Gives delays parser (chunk ∷ chunks) n =
    let (frames, next) = push parser chunk in
    let (same, none_) = frames-delivered frames in
    let start : Stream = at (Phase.reading parser) n in
    let one : Gives frames [] (Phase.reading next) (step delays start (Event.received chunk)) =
      unfold step in (same, none_, (_, refl)) in
    Gives-then delays start (Event.received chunk ∷ []) (map Event.received chunks)
      (turn-Gives delays start (Event.received chunk) one) (received-Gives delays next chunks)

answered-Gives :
    (delays : List ℕ) (response : Response) (n : ℕ)
    → (response.ok && response.has_body) ≡ true
    → Gives [] [] (Phase.reading flush) (step delays (at Phase.asking n) (Event.answered response))
unfolding step
answered-Gives delays response n h = rw h (refl, refl, (n, refl))

ending-Gives :
    (delays : List ℕ) (parser : SseParser) (end : Option String) (n : ℕ)
    → Gives [] [] Phase.waiting (step delays (at (Phase.reading parser) n) (ending end))
unfolding step
ending-Gives delays parser none n = (refl, refl, (suc n, refl))
ending-Gives delays parser (some text) n = (refl, refl, (suc n, refl))

connection-Gives :
    (delays : List ℕ) (connection : Connection) (n : ℕ)
    → AsItSays connection
    → Gives
        (body_frames connection)
        []
        Phase.waiting
        (run delays (at Phase.asking n) (events_of connection))
connection-Gives delays (Connection.down text) n h = unfold run step in (refl, refl, (suc n, refl))
connection-Gives delays (Connection.refusing response) n h =
    unfold run step in rw h (refl, refl, (suc n, refl))
connection-Gives delays (Connection.serving response chunks end) n (h, uncut) =
    let (frames, last) = feed flush chunks in
    let start : Stream = at Phase.asking n in
    subst
      (λ frames.
        Gives frames [] Phase.waiting
          (run delays start (events_of (Connection.serving response chunks end))))
      (append-nil frames ∙ feed-whole chunks uncut)
      (Gives-then delays start (Event.answered response ∷ [])
        (map Event.received chunks ++ ending end ∷ [])
        (turn-Gives delays start (Event.answered response) (answered-Gives delays response n h))
        (λ m.
          Gives-then delays (at (Phase.reading flush) m) (map Event.received chunks)
            (ending end ∷ []) (received-Gives delays flush chunks m)
            (λ k.
              turn-Gives delays (at (Phase.reading last) k) (ending end)
                (ending-Gives delays last end k))))

fired-Gives :
    (delays : List ℕ) (token : String) (n : ℕ)
    → Gives []
        (token ∷ [])
        Phase.asking
        (step delays (at Phase.waiting n) (Event.fired (some token)))
unfolding step
fired-Gives delays token n = (refl, refl, (n, refl))

turns-Gives :
    (delays : List ℕ) (n : ℕ) (served : List (Connection × String))
    → All (λ turn_. AsItSays turn_.0) served
    → Gives
        (all_frames served)
        (map (λ turn_. turn_.1) served)
        Phase.asking
        (run delays (at Phase.asking n) (turns served))
turns-Gives delays n [] h = unfold run in (refl, refl, (n, refl))
turns-Gives delays n ((connection, token) ∷ served) (first, others) =
    Gives-then delays (at Phase.asking n) (events_of connection)
      (Event.fired (some token) ∷ turns served) (connection-Gives delays connection n first)
      (λ m.
        Gives-then delays (at Phase.waiting m) (Event.fired (some token) ∷ []) (turns served)
          (turn-Gives delays (at Phase.waiting m) (Event.fired (some token))
            (fired-Gives delays token m))
          (λ k. turns-Gives delays k served others))

-- A stream that starts with a token, is not stopped and finds a token whenever a delay has passed, over
-- any connections, each of which fails, is answered without a stream, or brings chunks until it ends or
-- fails, where no chunk of a connection comes behind a carriage return: the panel gets the frames of each
-- body, read as a whole by a new parser, one connection after the other; what is left of a body
-- that breaks off goes into no later frame. The stream asks once more behind every connection, with the
-- token of that time, and is asking at the end.
pub open_event_stream-whole :
    (delays : List ℕ) (token : String) (served : List (Connection × String))
    → All (λ turn_. AsItSays turn_.0) served
    → let (actions, stream) = open_event_stream delays (some token) (turns served) in
      (delivered actions ≡ all_frames served)
      × (bearers actions ≡ token ∷ map (λ turn_. turn_.1) served)
      × (stream.phase ≡ Phase.asking)
unfolding open_event_stream
open_event_stream-whole delays token served h =
    let (heard, asked, (n, last)) = turns-Gives delays 0 served h in
    (heard, ap (λ rest. token ∷ rest) asked, ap (λ s. s.phase) last)

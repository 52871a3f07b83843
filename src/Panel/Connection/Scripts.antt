-- ===== src/Panel/Connection/Scripts.antt =====
-- Connections as the events that they bring, and what of a stream's doings the panel and the API see.
use cap_rail.Panel.Connection.{Action, Event, Response}
use cap_rail.Panel.Sse.{CodeUnits, SseFrame, flush, push}
use cap_rail.Panel.Sse.Chunks.{ends_cr}
use cap_rail.Prelude.{
  List, Option, String, [], ap, false, map, none, refl, some, true, ◌&&◌, ◌++◌, ◌∷◌, ◌≡◌,
}

abbrev pub delivered : List Action → List SseFrame
delivered [] = []
delivered (Action.on_frame frame ∷ actions) = frame ∷ delivered actions
delivered (_ ∷ actions) = delivered actions

-- The bearers of the requests.
abbrev pub bearers : List Action → List String
bearers [] = []
bearers (Action.fetch token ∷ actions) = token ∷ bearers actions
bearers (_ ∷ actions) = bearers actions

-- What comes of a request: the fetch throws, an answer without a stream, or chunks until the body
-- ends, or until a read throws.
pub data Connection : Type 0 where
  down : String → Connection
  refusing : Response → Connection
  serving : Response → List CodeUnits → Option String → Connection

abbrev pub ending : Option String → Event
ending none = Event.finished
ending (some text) = Event.failed text

abbrev pub events_of : Connection → List Event
events_of (Connection.down text) = Event.failed text ∷ []
events_of (Connection.refusing response) = Event.answered response ∷ []
events_of (Connection.serving response chunks end) =
    Event.answered response ∷ map Event.received chunks ++ ending end ∷ []

-- Each connection, and the token that is there when its delay has passed.
abbrev pub turns : List (Connection × String) → List Event
turns [] = []
turns ((connection, token) ∷ more) = events_of connection ++ Event.fired (some token) ∷ turns more

abbrev pub joined : List CodeUnits → CodeUnits
joined [] = []
joined (chunk ∷ chunks) = chunk ++ joined chunks

-- The frames of the whole body, read at once by a new parser.
abbrev pub body_frames : Connection → List SseFrame
body_frames (Connection.serving response chunks end) = (push flush (joined chunks)).0
body_frames _ = []

abbrev pub all_frames : List (Connection × String) → List SseFrame
all_frames [] = []
all_frames ((connection, token) ∷ more) = body_frames connection ++ all_frames more

-- No chunk behind the text `before` follows a carriage return.
abbrev pub Uncut : CodeUnits → List CodeUnits → Type 0
Uncut before [] = Unit
Uncut before (chunk ∷ chunks) = (ends_cr before ≡ false) × Uncut (before ++ chunk) chunks

abbrev pub AsItSays : Connection → Type 0
AsItSays (Connection.down text) = Unit
AsItSays (Connection.refusing response) = (response.ok && response.has_body) ≡ false
AsItSays (Connection.serving response chunks end) =
    ((response.ok && response.has_body) ≡ true) × Uncut [] chunks

pub delivered-append : (a b : List Action) → delivered (a ++ b) ≡ delivered a ++ delivered b
delivered-append [] b = refl
delivered-append (Action.on_frame frame ∷ a) b =
    ap (λ frames. frame ∷ frames) (delivered-append a b)
delivered-append (Action.status s ∷ a) b = delivered-append a b
delivered-append (Action.fetch token ∷ a) b = delivered-append a b
delivered-append (Action.cancel ∷ a) b = delivered-append a b
delivered-append (Action.schedule wait ∷ a) b = delivered-append a b

pub bearers-append : (a b : List Action) → bearers (a ++ b) ≡ bearers a ++ bearers b
bearers-append [] b = refl
bearers-append (Action.fetch token ∷ a) b = ap (λ tokens. token ∷ tokens) (bearers-append a b)
bearers-append (Action.status s ∷ a) b = bearers-append a b
bearers-append (Action.on_frame frame ∷ a) b = bearers-append a b
bearers-append (Action.cancel ∷ a) b = bearers-append a b
bearers-append (Action.schedule wait ∷ a) b = bearers-append a b

pub frames-delivered :
    (frames : List SseFrame)
    → (delivered (map Action.on_frame frames) ≡ frames)
      × (bearers (map Action.on_frame frames) ≡ [])
frames-delivered [] = (refl, refl)
frames-delivered (frame ∷ frames) =
    let (same, none_) = frames-delivered frames in (ap (λ rest. frame ∷ rest) same, none_)

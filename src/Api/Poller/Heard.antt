-- ===== src/Api/Poller/Heard.antt =====
-- What one listener hears of one watch, where no listener throws.
use cap_rail.Api.Feed.{FeedBatch, FeedEvent, FeedMarks, FeedTables}
use cap_rail.Api.Poller.{
  Call, Effect, FeedState, Watch, add_listener, answered, asked, delivered, reported, send,
  send_all, step,
}
use cap_rail.Prelude.{
  Bool, Bool-cases, List, Option, String, ℕ, [], ap, arith, false, has, if◌then◌else◌, inl, inr,
  keep, not, refl, some, sym, ◌&&◌, ◌++◌, ◌+◌, ◌==◌, ◌∙◌, ◌∷◌, ◌≡◌, ◌⊎◌,
}
use mathlib.Core.List.{append_assoc}

-- Listeners that throw on no event.
abbrev pub quiet : ℕ → FeedEvent → Bool
quiet listener event = false

-- The events that a watch gave to a listener.
abbrev heard_of : ℕ → ℕ → Effect → List FeedEvent
heard_of ref listener (asked _ _) = []
heard_of ref listener (delivered by to event) =
    if by == ref && to == listener then event ∷ [] else []
heard_of ref listener (reported _) = []

abbrev pub heard_by : ℕ → ℕ → List Effect → List FeedEvent
heard_by ref listener [] = []
heard_by ref listener (effect ∷ effects) =
    heard_of ref listener effect ++ heard_by ref listener effects

-- The tables that the answers to a watch's polls were read from.
abbrev pub read_by : ℕ → Call → FeedState → List FeedTables
read_by ref (answered by tables) state =
    if by == ref && (state.heap by).polling then tables ∷ [] else []
read_by ref _ state = []

module _ (source : String → FeedTables → Option FeedMarks → FeedBatch) where
  unfoldable pub reads : ℕ → List Call → FeedState → List FeedTables
  reads ref [] state = []
  reads ref (call ∷ calls) state =
      read_by ref call state ++ reads ref calls (step quiet source call state).1

  -- The answers to one poll after another, each behind the marks of the one before.
  abbrev pub replay : String → Option FeedMarks → List FeedTables → List FeedEvent
  replay id marks [] = []
  replay id marks (tables ∷ later) =
      let batch = source id tables marks in batch.events ++ replay id (some batch.marks) later

  abbrev pub marks_after : String → Option FeedMarks → List FeedTables → Option FeedMarks
  marks_after id marks [] = marks
  marks_after id marks (tables ∷ later) = marks_after id (some (source id tables marks).marks) later

  pub replay-append :
      (id : String) (marks : Option FeedMarks) (front back : List FeedTables)
      → replay id marks (front ++ back)
        ≡ replay id marks front ++ replay id (marks_after id marks front) back
  replay-append id marks [] back = refl
  replay-append id marks (tables ∷ front) back =
      let batch = source id tables marks in
      ap (λ events. batch.events ++ events) (replay-append id (some batch.marks) front back)
      ∙ sym (
          append_assoc batch.events (replay id (some batch.marks) front)
            (replay id (marks_after id (some batch.marks) front) back))

-- How often a number stands in a list.
abbrev pub times : ℕ → List ℕ → ℕ
times n [] = 0
times n (m ∷ ms) = (if m == n then 1 else 0) + times n ms

times-append :
    (n m : ℕ) (ms : List ℕ) → times n (ms ++ m ∷ []) ≡ times n ms + (if m == n then 1 else 0)
times-append n m [] = ground arith
times-append n m (k ∷ ms) = ground (arith, times-append n m ms)

has-times : (n : ℕ) (ms : List ℕ) → has (λ other. other == n) ms ≡ false → times n ms ≡ 0
has-times n [] h = refl
has-times n (m ∷ ms) h = ground (arith, has-times n ms)

pub times-add :
    (n m : ℕ) (watch : Watch)
    → times n watch.listeners ≡ 1
    → times n (add_listener m watch).listeners ≡ 1
times-add n m watch h = elim (Bool-cases (has (λ other. other == m) watch.listeners)) [
  | inl e ↦ rw e h
  | inr e ↦
      rw (e, times-append n m watch.listeners)
        (elim (Bool-cases (m == n)) [
          | inl k ↦ ground (arith, k, e, has-times m watch.listeners e)
          | inr k ↦ rw (k, h) refl
        ])
]

pub times-delete :
    (n m : ℕ) (ms : List ℕ)
    → (m == n) ≡ false
    → times n (keep (λ other. not (other == m)) ms) ≡ times n ms
times-delete n m [] h = refl
times-delete n m (k ∷ ms) h = ground (arith, times-delete n m ms h)

pub heard_by-append :
    (ref listener : ℕ) (front back : List Effect)
    → heard_by ref listener (front ++ back)
      ≡ heard_by ref listener front ++ heard_by ref listener back
heard_by-append ref listener [] back = refl
heard_by-append ref listener (effect ∷ front) back =
    ap (λ events. heard_of ref listener effect ++ events) (heard_by-append ref listener front back)
    ∙ sym (
        append_assoc (heard_of ref listener effect) (heard_by ref listener front)
          (heard_by ref listener back))

send-quiet :
    (ref : ℕ) (event : FeedEvent) (listeners : List ℕ) → (send quiet ref event listeners).1 ≡ false
send-quiet ref event [] = refl
send-quiet ref event (other ∷ listeners) = send-quiet ref event listeners

send-other :
    (ref by listener : ℕ) (event : FeedEvent) (listeners : List ℕ)
    → ((by == ref) ≡ false) ⊎ (times listener listeners ≡ 0)
    → heard_by ref listener (send quiet by event listeners).0 ≡ []
send-other ref by listener event [] h = refl
send-other ref by listener event (other ∷ listeners) h =
    ground (arith, h, send-other ref by listener event listeners)

-- Without a throw, every event reaches a listener as often as it stands in the set.
send-heard :
    (ref listener : ℕ) (event : FeedEvent) (listeners : List ℕ)
    → times listener listeners ≡ 1
    → heard_by ref listener (send quiet ref event listeners).0 ≡ event ∷ []
send-heard ref listener event [] h = ground (arith, h)
send-heard ref listener event (other ∷ listeners) h = elim (Bool-cases (other == listener)) [
  | inl e ↦
      let rest : times listener listeners ≡ 0 = ground (arith, e, h) in
      rw (send-other ref ref listener event listeners (inr rest)) (ground (arith, e))
  | inr e ↦
      let rest : times listener listeners ≡ 1 = ground (arith, e, h) in
      rw (send-heard ref listener event listeners rest) (ground (arith, e))
]

pub send_all-heard :
    (ref listener : ℕ) (events : List FeedEvent) (listeners : List ℕ)
    → times listener listeners ≡ 1
    → heard_by ref listener (send_all quiet ref events listeners).0 ≡ events
send_all-heard ref listener [] listeners h = refl
send_all-heard ref listener (event ∷ events) listeners h =
    let calls = (send quiet ref event listeners).0 in
    let rest = (send_all quiet ref events listeners).0 in
    rw (send-quiet ref event listeners) (
      rw
        (
          heard_by-append ref listener calls rest,
          send-heard ref listener event listeners h,
          send_all-heard ref listener events listeners h,
        )
        refl)

pub send_all-other :
    (ref by listener : ℕ) (events : List FeedEvent) (listeners : List ℕ)
    → (by == ref) ≡ false
    → heard_by ref listener (send_all quiet by events listeners).0 ≡ []
send_all-other ref by listener [] listeners h = refl
send_all-other ref by listener (event ∷ events) listeners h =
    let calls = (send quiet by event listeners).0 in
    let rest = (send_all quiet by events listeners).0 in
    rw (send-quiet by event listeners) (
      rw
        (
          heard_by-append ref listener calls rest,
          send-other ref by listener event listeners (inl h),
          send_all-other ref by listener events listeners h,
        )
        refl)

pub send_all-quiet :
    (ref : ℕ) (events : List FeedEvent) (listeners : List ℕ)
    → (send_all quiet ref events listeners).1 ≡ false
send_all-quiet ref [] listeners = refl
send_all-quiet ref (event ∷ events) listeners =
    rw (send-quiet ref event listeners) (send_all-quiet ref events listeners)

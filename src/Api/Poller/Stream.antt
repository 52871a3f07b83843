-- ===== src/Api/Poller/Stream.antt =====
-- A listener that stays hears the answers to all polls of its company's watch, and with the reader of the
-- index as the source the arrivals of the company.
use cap_rail.Api.Feed.{FeedBatch, FeedMarks, FeedTables, feed, first_marks, own_offers}
use cap_rail.Api.Feed.Arrivals.{feed-announced}
use cap_rail.Api.Feed.Growth.{Arrivals, LandAll, announced, arrive, polled}
use cap_rail.Api.Feed.Numbers.{Upto}
use cap_rail.Api.Poller.{
  Call, Effect, FeedState, Watch, answered, failed, no_watches, on_watch, poll, run, set_watch,
  settle, step, subscribe, subscribed, ticked, unsubscribed,
}
use cap_rail.Api.Poller.Entries.{WellFormed}
use cap_rail.Api.Poller.Heard.{
  heard_by, heard_by-append, quiet, read_by, reads, replay, replay-append, send_all-heard,
  send_all-other, send_all-quiet, times,
}
use cap_rail.Api.Poller.Stays.{Hears, Listens, kept_join, kept_leave, stays}
use cap_rail.Api.Poller.Watched.{no_watches-WellFormed, run-WellFormed, step-WellFormed}
use cap_rail.Prelude.{
  All, Bool-cases, List, Option, String, ℕ, [], ap, arith, eq_refl, false, if_elim, inl, inr, none,
  refl, some, sym, true, ◌&&◌, ◌++◌, ◌==◌, ◌∙◌, ◌∷◌, ◌≡◌,
}
use mathlib.Core.List.{append-nil}
use mathlib.Core.Path.{subst}

module _ (source : String → FeedTables → Option FeedMarks → FeedBatch) (id : String)
    (ref listener : ℕ) where
  heard_own :
      (tables : FeedTables) (state : FeedState)
      → (state.heap ref).polling ≡ true
      → WellFormed state
      → Listens id ref listener state
      → Hears source id ref listener (answered ref tables) state
  unfolding step settle
  heard_own tables state p (entered, placed) (found, one) =
      let watch = state.heap ref in
      let batch = source watch.company_id tables watch.marks in
      let (below, named, ticking, heard) = entered id ref found in
      let itself : (ref == ref) ≡ true = ground arith in
      rw (p, send_all-quiet ref batch.events watch.listeners)
        (rw (itself, send_all-heard ref listener batch.events watch.listeners one, named)
          (sym (append-nil (source id tables watch.marks).events), refl, (found, one)))

  heard_other :
      (by : ℕ) (tables : FeedTables) (state : FeedState)
      → (by == ref) ≡ false
      → (state.heap by).polling ≡ true
      → Listens id ref listener state
      → Hears source id ref listener (answered by tables) state
  unfolding step settle
  heard_other by tables state k p (found, one) =
      let watch = state.heap by in
      let batch = source watch.company_id tables watch.marks in
      let apart : (ref == by) ≡ false = ground arith in
      rw
        (
          p,
          send_all-quiet by batch.events watch.listeners,
          k,
          apart,
          send_all-other ref by listener batch.events watch.listeners k,
        )
        (refl, refl, (found, one))

  -- A watch whose marks and listeners are left as they are.
  heard_same :
      (by : ℕ) (watch : Watch) (state : FeedState)
      → watch.marks ≡ (state.heap by).marks
      → watch.listeners ≡ (state.heap by).listeners
      → Listens id ref listener state
      → (((set_watch by watch state).heap ref).marks ≡ (state.heap ref).marks)
        × Listens id ref listener (set_watch by watch state)
  heard_same by watch state m l (found, one) = elim (Bool-cases (ref == by)) [
    | inl k ↦
        let same : by ≡ ref = ground arith in
        rw k (
          m ∙ ap (λ r. (state.heap r).marks) same,
          (found, rw l (subst (λ r. times listener (state.heap r).listeners ≡ 1) (sym same) one)),
        )
    | inr k ↦ rw k (refl, (found, one))
  ]

  -- A step in which the watch gives the listener nothing and keeps its marks.
  abbrev Unheard : FeedState → List Effect × FeedState → Type 0
  Unheard state (effects, next) =
      (heard_by ref listener effects ≡ [])
      × ((next.heap ref).marks ≡ (state.heap ref).marks)
      × Listens id ref listener next

  tick-Unheard :
      (by : ℕ) (state : FeedState)
      → Listens id ref listener state
      → Unheard state (on_watch by (poll by (state.heap by)) state)
  unfolding poll
  tick-Unheard by state l =
      let watch = state.heap by in
      let (marks, still) = heard_same by (record watch { polling = true }) state refl refl l in
      let (marks₂, still₂) = heard_same by watch state refl refl l in
      if_elim (λ (result : List Effect × Watch). Unheard state (on_watch by result state))
        watch.polling (refl, marks₂, still₂) (refl, marks, still)

  answer-Hears :
      (by : ℕ) (tables : FeedTables) (state : FeedState)
      → WellFormed state
      → Listens id ref listener state
      → Hears source id ref listener (answered by tables) state
  unfolding step
  answer-Hears by tables state w l = elim (Bool-cases (state.heap by).polling) [
    | inl e ↦ elim (Bool-cases (by == ref)) [
      | inl k ↦
          let same : ref ≡ by = ground arith in
          let own : (state.heap ref).polling ≡ true =
            subst (λ r. (state.heap r).polling ≡ true) (sym same) e in
          subst (λ b. Hears source id ref listener (answered b tables) state) same
            (heard_own tables state own w l)
      | inr k ↦ heard_other by tables state k e l
    ]
    | inr e ↦
        let idle : ((by == ref) && false) ≡ false = ground arith in rw (e, idle) (refl, refl, l)
  ]

  step-Hears :
      (call : Call) (state : FeedState)
      → stays id listener call ≡ true
      → WellFormed state
      → Listens id ref listener state
      → Hears source id ref listener call state
  unfolding step
  step-Hears (subscribed other who) state s w l =
      kept_join id ref listener (state.watches other) other who state refl w l
  step-Hears (unsubscribed other who) state s w l =
      let (marks, still) =
        kept_leave id ref listener (state.watches other) other who state refl (ground (arith, s)) w
          l in
      (refl, marks, still)
  step-Hears (ticked by) state s w l =
      if_elim (Unheard state) (state.heap by).timer (tick-Unheard by state l) (refl, refl, l)
  step-Hears (answered by tables) state s w l = answer-Hears by tables state w l
  step-Hears (failed by) state s w l =
      let watch = state.heap by in
      let (marks, still) = heard_same by (record watch { polling = false }) state refl refl l in
      if_elim (Unheard state) watch.polling (refl, marks, still) (refl, refl, l)

  heard_by-replay :
      (calls : List Call) (state : FeedState)
      → All (λ call. stays id listener call ≡ true) calls
      → WellFormed state
      → Listens id ref listener state
      → heard_by ref listener (run quiet source calls state).0
        ≡ replay source id (state.heap ref).marks (reads source ref calls state)
  unfolding run reads
  heard_by-replay [] state s w l = refl
  heard_by-replay (call ∷ calls) state (s, rest) w l =
      let (effects, next) = step quiet source call state in
      let marks = (state.heap ref).marks in
      let now = read_by ref call state in
      let later = reads source ref calls next in
      let (heard, moved, still) = step-Hears call state s w l in
      heard_by-append ref listener effects (run quiet source calls next).0
      ∙ rw
          (
            heard,
            heard_by-replay calls next rest (step-WellFormed quiet source call state w) still,
            moved,
          )
          (sym (replay-append source id marks now later))

-- The reader of the index as the source; number is the company number that an id spells.
abbrev pub reader_of : (String → ℕ) → String → FeedTables → Option FeedMarks → FeedBatch
reader_of number id tables marks = feed (number id) tables marks

-- The tables after each group of arrivals.
abbrev pub grown : FeedTables → List Arrivals → List FeedTables
grown tables [] = []
grown tables (new ∷ later) = arrive tables new ∷ grown (arrive tables new) later

replay-polled :
    (number : String → ℕ) (id : String) (tables : FeedTables) (marks : FeedMarks)
    (arrivals : List Arrivals)
    → replay (reader_of number) id (some marks) (grown tables arrivals)
      ≡ polled (number id) tables marks arrivals
replay-polled number id tables marks [] = refl
replay-polled number id tables marks (new ∷ later) =
    let batch = feed (number id) (arrive tables new) (some marks) in
    ap (λ events. batch.events ++ events)
      (replay-polled number id (arrive tables new) batch.marks later)

-- The listener that opens a company's watch.
first-Listens :
    (id : String) (listener : ℕ) (state : FeedState)
    → Listens id state.made listener (subscribe none id listener state).1
unfolding poll
first-Listens id listener state =
    let itself : (state.made == state.made) ≡ true = ground arith in
    let one : (listener == listener) ≡ true = ground arith in
    rw (itself, eq_refl id, one) (refl, refl)

opened-marks :
    (id : String) (listener : ℕ) (state : FeedState)
    → ((subscribe none id listener state).1.heap state.made).marks ≡ none
unfolding poll
opened-marks id listener state =
    let itself : (state.made == state.made) ≡ true = ground arith in rw itself refl

heard_by-opened :
    (number : String → ℕ) (id : String) (ref listener : ℕ) (calls : List Call) (joined : FeedState)
    (revisions : ℕ) (opened : FeedTables) (arrivals : List Arrivals)
    → WellFormed joined
    → Listens id ref listener joined
    → (joined.heap ref).marks ≡ none
    → All (λ call. stays id listener call ≡ true) calls
    → reads (reader_of number) ref calls joined ≡ opened ∷ grown opened arrivals
    → Upto (λ row. row.revision) revisions (own_offers (number id) opened)
    → LandAll (number id) revisions opened arrivals
    → heard_by ref listener (run quiet (reader_of number) calls joined).0
      ≡ announced (number id) opened arrivals
unfolding feed
heard_by-opened number id ref listener calls joined revisions opened arrivals w l m s r u h =
    heard_by-replay (reader_of number) id ref listener calls joined s w l
    ∙ rw (m, r)
        (replay-polled number id opened (first_marks (number id) opened) arrivals
          ∙ (feed-announced (number id) revisions opened arrivals u h).1)

-- Whoever opens the watch of a company that is not watched and stays, whatever else is called, hears
-- exactly the events of the company's arrivals between the tables of the first answered poll and those of
-- the last one, each once and in order: where no listener throws, and the answered polls of the watch read
-- tables that grow as feed-announced asks.
pub heard_by-announced :
    (number : String → ℕ) (before : List Call) (id : String) (listener : ℕ) (calls : List Call)
    (revisions : ℕ) (opened : FeedTables) (arrivals : List Arrivals)
    → let source = reader_of number in
      let state = (run quiet source before no_watches).1 in
      let joined = (step quiet source (subscribed id listener) state).1 in
      state.watches id ≡ none
      → All (λ call. stays id listener call ≡ true) calls
      → reads source state.made calls joined ≡ opened ∷ grown opened arrivals
      → Upto (λ row. row.revision) revisions (own_offers (number id) opened)
      → LandAll (number id) revisions opened arrivals
      → heard_by state.made listener (run quiet source calls joined).0
        ≡ announced (number id) opened arrivals
unfolding feed step
heard_by-announced number before id listener calls revisions opened arrivals e s r u l =
    let source = reader_of number in
    let state = (run quiet source before no_watches).1 in
    let w = run-WellFormed quiet source before no_watches no_watches-WellFormed in
    let joins : (subscribe none id listener state).1
        ≡ (subscribe (state.watches id) id listener state).1 =
      ap (λ entry. (subscribe entry id listener state).1) (sym e) in
    heard_by-opened number id state.made listener calls
      (subscribe (state.watches id) id listener state).1 revisions opened arrivals
      (step-WellFormed quiet source (subscribed id listener) state w)
      (subst (Listens id state.made listener) joins (first-Listens id listener state))
      (subst (λ (j : FeedState). (j.heap state.made).marks ≡ none) joins
        (opened-marks id listener state))
      s r u l

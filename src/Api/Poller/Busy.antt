-- ===== src/Api/Poller/Busy.antt =====
-- While a poll of a watch is in flight, the watch asks the source nothing more.
use cap_rail.Api.Feed.{FeedBatch, FeedEvent, FeedMarks, FeedTables}
use cap_rail.Api.Poller.{
  Call, Effect, FeedState, Watch, add_listener, answered, asked, delete_listener, failed, is_empty,
  leave, poll, reported, run, send, send_all, set_watch, settle, step, subscribe, subscribed,
  ticked, unsubscribed,
}
use cap_rail.Prelude.{
  All, Bool, Bool-cases, List, Option, String, ℕ, [], ap, arith, false, if_elim, if◌then◌else◌, inl,
  inr, none, refl, some, sym, true, ◌++◌, ◌+◌, ◌<◌, ◌==◌, ◌∙◌, ◌∷◌, ◌≡◌, ◌⊎◌,
}
use mathlib.Core.Path.{subst}

-- The requests of one watch.
abbrev asks_of : ℕ → Effect → ℕ
asks_of ref (asked by _) = if by == ref then 1 else 0
asks_of ref _ = 0

abbrev pub asks : ℕ → List Effect → ℕ
asks ref [] = 0
asks ref (effect ∷ effects) = asks_of ref effect + asks ref effects

-- A call that ends the poll of the watch.
abbrev settles : ℕ → Call → Bool
settles ref (answered by _) = by == ref
settles ref (failed by) = by == ref
settles ref _ = false

asks-append :
    (ref : ℕ) (front back : List Effect) → asks ref (front ++ back) ≡ asks ref front + asks ref back
asks-append ref [] back = omega arith
asks-append ref (effect ∷ front) back = ground (arith, asks-append ref front back)

abbrev Busy : ℕ → FeedState → Type 0
Busy ref state = (ref < state.made) × ((state.heap ref).polling ≡ true)

set_watch-Busy :
    (ref by : ℕ) (watch : Watch) (state : FeedState)
    → ((by == ref) ≡ false) ⊎ (watch.polling ≡ (state.heap by).polling)
    → Busy ref state
    → Busy ref (set_watch by watch state)
set_watch-Busy ref by watch state h (below, busy) = elim (Bool-cases (ref == by)) [
  | inl e ↦
      let same : ref ≡ by = ground arith in
      rw e (below, ground (arith, h, sym (ap (λ r. (state.heap r).polling) same) ∙ busy))
  | inr e ↦ rw e (below, busy)
]

leave-Busy :
    (ref : ℕ) (entry : Option ℕ) (id : String) (listener : ℕ) (state : FeedState)
    → Busy ref state
    → Busy ref (leave entry id listener state)
leave-Busy ref none id listener state b = b
leave-Busy ref (some by) id listener state b =
    let left = delete_listener listener (state.heap by) in
    if_elim (Busy ref) (is_empty left.listeners)
      (set_watch-Busy ref by (record left { timer = false }) state (inr refl) b)
      (set_watch-Busy ref by left state (inr refl) b)

subscribe-Busy :
    (ref : ℕ) (entry : Option ℕ) (id : String) (listener : ℕ) (state : FeedState)
    → Busy ref state
    → (asks ref (subscribe entry id listener state).0 ≡ 0)
      × Busy ref (subscribe entry id listener state).1
unfolding poll
subscribe-Busy ref none id listener state (below, busy) =
    let apart : (ref == state.made) ≡ false = ground arith in
    let apart₂ : (state.made == ref) ≡ false = ground arith in
    rw (apart, apart₂) (refl, (omega arith, busy))
subscribe-Busy ref (some by) id listener state b =
    (refl, set_watch-Busy ref by (add_listener listener (state.heap by)) state (inr refl) b)

tick-Busy :
    (ref by : ℕ) (state : FeedState)
    → Busy ref state
    → let (effects, watch) = poll by (state.heap by) in
      (asks ref effects ≡ 0) × Busy ref (set_watch by watch state)
unfolding poll
tick-Busy ref by state b = elim (Bool-cases (by == ref)) [
  | inl e ↦
      let same : ref ≡ by = ground arith in
      let busy : (state.heap by).polling ≡ true =
        subst (λ r. (state.heap r).polling ≡ true) same b.1 in
      rw busy (
        refl,
        set_watch-Busy ref by (record (state.heap by) { polling = true }) state (inr (sym busy)) b,
      )
  | inr e ↦
      if_elim
        (λ (result : List Effect × Watch).
          (asks ref result.0 ≡ 0) × Busy ref (set_watch by result.1 state))
        (state.heap by).polling (refl, set_watch-Busy ref by (state.heap by) state (inl e) b)
        (
          rw e refl,
          set_watch-Busy ref by (record (state.heap by) { polling = true }) state (inl e) b,
        )
]

module _ (throws : ℕ → FeedEvent → Bool) where
  asks-send :
      (ref by : ℕ) (event : FeedEvent) (listeners : List ℕ)
      → asks ref (send throws by event listeners).0 ≡ 0
  asks-send ref by event [] = refl
  asks-send ref by event (listener ∷ listeners) = ground (arith, asks-send ref by event listeners)

  asks-send_all :
      (ref by : ℕ) (events : List FeedEvent) (listeners : List ℕ)
      → asks ref (send_all throws by events listeners).0 ≡ 0
  asks-send_all ref by [] listeners = refl
  asks-send_all ref by (event ∷ events) listeners =
      let (calls, threw) = send throws by event listeners in
      let (rest, later) = send_all throws by events listeners in
      if_elim (λ (result : List Effect × Bool). asks ref result.0 ≡ 0) threw
        (asks-send ref by event listeners)
        (rw
          (
            asks-append ref calls rest,
            asks-send ref by event listeners,
            asks-send_all ref by events listeners,
          )
          refl)

  asks-settle :
      (ref by : ℕ) (batch : FeedBatch) (watch : Watch)
      → asks ref (settle throws by batch watch).0 ≡ 0
  unfolding settle
  asks-settle ref by batch watch =
      let (calls, threw) = send_all throws by batch.events watch.listeners in
      let none_ = asks-send_all ref by batch.events watch.listeners in
      if_elim (λ (result : List Effect × Watch). asks ref result.0 ≡ 0) threw
        (rw (asks-append ref calls (reported watch.company_id ∷ []), none_) refl) none_

  module _ (source : String → FeedTables → Option FeedMarks → FeedBatch) where
    step-Busy :
        (ref : ℕ) (call : Call) (state : FeedState)
        → settles ref call ≡ false
        → Busy ref state
        → (asks ref (step throws source call state).0 ≡ 0)
          × Busy ref (step throws source call state).1
    unfolding step
    step-Busy ref (subscribed id listener) state s b =
        subscribe-Busy ref (state.watches id) id listener state b
    step-Busy ref (unsubscribed id listener) state s b =
        let (below, busy) = leave-Busy ref (state.watches id) id listener state b in
        (refl, (below, busy))
    step-Busy ref (ticked by) state s b =
        if_elim (λ (result : List Effect × FeedState). (asks ref result.0 ≡ 0) × Busy ref result.1)
          (state.heap by).timer (tick-Busy ref by state b) (refl, b)
    step-Busy ref (answered by tables) state s b =
        let watch = state.heap by in
        let batch = source watch.company_id tables watch.marks in
        if_elim (λ (result : List Effect × FeedState). (asks ref result.0 ≡ 0) × Busy ref result.1)
          watch.polling
          (
            asks-settle ref by batch watch,
            set_watch-Busy ref by (settle throws by batch watch).1 state (inl s) b,
          )
          (refl, b)
    step-Busy ref (failed by) state s b =
        let watch = state.heap by in
        if_elim (λ (result : List Effect × FeedState). (asks ref result.0 ≡ 0) × Busy ref result.1)
          watch.polling
          (refl, set_watch-Busy ref by (record watch { polling = false }) state (inl s) b) (refl, b)

-- While a poll of a watch is in flight, its watch asks the source nothing more, whatever is called and
-- however often its timer ticks, until the source answers that poll or fails; and the poll stays in
-- flight.
pub run-asks :
    (throws : ℕ → FeedEvent → Bool) (source : String → FeedTables → Option FeedMarks → FeedBatch)
    (ref : ℕ) (calls : List Call) (state : FeedState)
    → ref < state.made
    → (state.heap ref).polling ≡ true
    → All (λ call. settles ref call ≡ false) calls
    → (asks ref (run throws source calls state).0 ≡ 0)
      × (((run throws source calls state).1.heap ref).polling ≡ true)
unfolding run
run-asks throws source ref [] state h b s = (refl, b)
run-asks throws source ref (call ∷ calls) state h b (s, rest) =
    let (effects, next) = step throws source call state in
    let (none_, (below, busy)) = step-Busy throws source ref call state s (h, b) in
    let (later, still) = run-asks throws source ref calls next below busy rest in
    (rw (asks-append ref effects (run throws source calls next).0, none_, later) refl, still)

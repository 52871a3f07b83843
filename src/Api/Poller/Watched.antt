-- ===== src/Api/Poller/Watched.antt =====
-- The map and the timers of the feed go together: no watch is polled that nobody listens to.
use cap_rail.Api.Feed.{FeedBatch, FeedEvent, FeedMarks, FeedTables}
use cap_rail.Api.Poller.{
  Call, Effect, FeedState, Watch, add_listener, answered, failed, is_empty, leave, no_watches, poll,
  run, send_all, settle, step, subscribe, subscribed, ticked, unsubscribed,
}
use cap_rail.Api.Poller.Entries.{
  SameFace, WellFormed, add_listener-filled, leave-WellFormed, make-WellFormed,
  set_watch-WellFormed,
}
use cap_rail.Prelude.{
  Bool, List, Option, String, ℕ, [], arith, false, if_elim, inl, inr, none, refl, some, sym, true,
  ◌<◌, ◌∙◌, ◌∷◌, ◌≡◌, ◌⊎◌,
}

poll-SameFace : (ref : ℕ) (watch : Watch) → SameFace (poll ref watch).1 watch
unfolding poll
poll-SameFace ref watch =
    if_elim (λ (result : List Effect × Watch). SameFace result.1 watch) watch.polling
      (refl, refl, refl) (refl, refl, refl)

settle-SameFace :
    (throws : ℕ → FeedEvent → Bool) (ref : ℕ) (batch : FeedBatch) (watch : Watch)
    → SameFace (settle throws ref batch watch).1 watch
unfolding settle
settle-SameFace throws ref batch watch =
    if_elim (λ (result : List Effect × Watch). SameFace result.1 watch)
      (send_all throws ref batch.events watch.listeners).1 (refl, refl, refl) (refl, refl, refl)

module _ (throws : ℕ → FeedEvent → Bool)
    (source : String → FeedTables → Option FeedMarks → FeedBatch) where
  subscribe-WellFormed :
      (entry : Option ℕ) (id : String) (listener : ℕ) (state : FeedState)
      → state.watches id ≡ entry
      → WellFormed state
      → WellFormed (subscribe entry id listener state).1
  subscribe-WellFormed none id listener state e w = make-WellFormed id listener state e w
  subscribe-WellFormed (some ref) id listener state e (entered, placed) =
      let (below, named, ticking, heard) = entered id ref e in
      set_watch-WellFormed ref (add_listener listener (state.heap ref)) state
        (refl, refl, add_listener-filled listener (state.heap ref) ∙ sym heard) (entered, placed)

  unsubscribe-WellFormed :
      (entry : Option ℕ) (id : String) (listener : ℕ) (state : FeedState)
      → state.watches id ≡ entry
      → WellFormed state
      → WellFormed (leave entry id listener state)
  unsubscribe-WellFormed none id listener state e w = w
  unsubscribe-WellFormed (some ref) id listener state e w =
      leave-WellFormed id ref listener state e w

  pub step-WellFormed :
      (call : Call) (state : FeedState)
      → WellFormed state
      → WellFormed (step throws source call state).1
  unfolding step
  step-WellFormed (subscribed id listener) state w =
      subscribe-WellFormed (state.watches id) id listener state refl w
  step-WellFormed (unsubscribed id listener) state w =
      unsubscribe-WellFormed (state.watches id) id listener state refl w
  step-WellFormed (ticked ref) state w =
      let watch = state.heap ref in
      if_elim (λ (result : List Effect × FeedState). WellFormed result.1) watch.timer
        (set_watch-WellFormed ref (poll ref watch).1 state (poll-SameFace ref watch) w) w
  step-WellFormed (answered ref tables) state w =
      let watch = state.heap ref in
      let batch = source watch.company_id tables watch.marks in
      if_elim (λ (result : List Effect × FeedState). WellFormed result.1) watch.polling
        (set_watch-WellFormed ref (settle throws ref batch watch).1 state
          (settle-SameFace throws ref batch watch) w)
        w
  step-WellFormed (failed ref) state w =
      let watch = state.heap ref in
      if_elim (λ (result : List Effect × FeedState). WellFormed result.1) watch.polling
        (set_watch-WellFormed ref (record watch { polling = false }) state (refl, refl, refl) w) w

  pub run-WellFormed :
      (calls : List Call) (state : FeedState)
      → WellFormed state
      → WellFormed (run throws source calls state).1
  unfolding run
  run-WellFormed [] state w = w
  run-WellFormed (call ∷ calls) state w =
      run-WellFormed calls (step throws source call state).1 (step-WellFormed call state w)

pub no_watches-WellFormed : WellFormed no_watches
no_watches-WellFormed = (λ id ref e. ground (arith, e), λ ref below. inr (refl, refl))

-- After any calls, a watch that was made either is the one that the map has for its company, with its
-- timer on and a listener, or has its timer off and no listener.
pub run-watched :
    (throws : ℕ → FeedEvent → Bool) (source : String → FeedTables → Option FeedMarks → FeedBatch)
    (calls : List Call) (ref : ℕ)
    → let state = (run throws source calls no_watches).1 in
      let watch = state.heap ref in
      ref < state.made
      → ((state.watches watch.company_id ≡ some ref)
          × (watch.timer ≡ true)
          × (is_empty watch.listeners ≡ false))
        ⊎ ((watch.timer ≡ false) × (is_empty watch.listeners ≡ true))
run-watched throws source calls ref h =
    let (entered, placed) = run-WellFormed throws source calls no_watches no_watches-WellFormed in
    elim (placed ref h) [
      | inl found ↦
          let (below, named, ticking, heard) = entered _ ref found in inl (found, ticking, heard)
      | inr off ↦ inr off
    ]

-- ===== src/Api/Poller/Stays.antt =====
-- A listener that stays in the watch of its company while others come and go.
use cap_rail.Api.Feed.{FeedBatch, FeedMarks, FeedTables}
use cap_rail.Api.Poller.{
  Call, FeedState, delete_listener, is_empty, leave, poll, step, subscribe, unsubscribed,
}
use cap_rail.Api.Poller.Entries.{WellFormed}
use cap_rail.Api.Poller.Heard.{
  heard_by, marks_after, quiet, read_by, replay, times, times-add, times-delete,
}
use cap_rail.Prelude.{
  Bool, Bool-cases, List, Option, String, ℕ, [], ap, arith, eq_of_===, eq_refl, false, if_elim, inl,
  inr, none, not, refl, some, sym, true, ◌&&◌, ◌===◌, ◌==◌, ◌∙◌, ◌∷◌, ◌≡◌,
}
use mathlib.Core.Option.{some-injective}
use mathlib.Core.Path.{subst}

-- The listener stands once in the watch that the map has for the company.
abbrev pub Listens : String → ℕ → ℕ → FeedState → Type 0
Listens id ref listener state =
    (state.watches id ≡ some ref) × (times listener (state.heap ref).listeners ≡ 1)

-- A call that does not take the listener from the company.
abbrev pub stays : String → ℕ → Call → Bool
stays id listener (unsubscribed other who) = not (other === id && who == listener)
stays id listener _ = true

-- What a call does to a watch that is listened to.
abbrev pub Hears :
    (String → FeedTables → Option FeedMarks → FeedBatch)
    → String
    → ℕ
    → ℕ
    → Call
    → FeedState
    → Type 0
Hears source id ref listener call state =
    let marks = (state.heap ref).marks in
    let (effects, next) = step quiet source call state in
    (heard_by ref listener effects ≡ replay source id marks (read_by ref call state))
    × ((next.heap ref).marks ≡ marks_after source id marks (read_by ref call state))
    × Listens id ref listener next

apart_of :
    (state : FeedState) (id other : String) (ref : ℕ)
    → state.watches id ≡ some ref
    → state.watches other ≡ none
    → (id === other) ≡ false
apart_of state id other ref e k = elim (Bool-cases (id === other)) [
  | inl q ↦
      let clash : state.watches other ≡ some ref =
        subst (λ i. state.watches i ≡ some ref) (eq_of_=== id other q) e in
      ground (arith, k, clash)
  | inr q ↦ q
]

apart_names :
    (state : FeedState) (id other : String) (ref by : ℕ)
    → state.watches id ≡ some ref
    → state.watches other ≡ some by
    → (ref == by) ≡ false
    → (id === other) ≡ false
apart_names state id other ref by e k m = elim (Bool-cases (id === other)) [
  | inl q ↦
      let clash : state.watches other ≡ some ref =
        subst (λ i. state.watches i ≡ some ref) (eq_of_=== id other q) e in
      ground (arith, m, some-injective ref by (sym clash ∙ k))
  | inr q ↦ q
]

filled :
    (listener : ℕ) (listeners : List ℕ) → times listener listeners ≡ 1 → is_empty listeners ≡ false
filled listener [] h = ground (arith, h)
filled listener (other ∷ listeners) h = refl

module _ (id : String) (ref listener : ℕ) where
  pub kept_join :
      (entry : Option ℕ) (other : String) (who : ℕ) (state : FeedState)
      → state.watches other ≡ entry
      → WellFormed state
      → Listens id ref listener state
      → (heard_by ref listener (subscribe entry other who state).0 ≡ [])
        × (((subscribe entry other who state).1.heap ref).marks ≡ (state.heap ref).marks)
        × Listens id ref listener (subscribe entry other who state).1
  unfolding poll
  kept_join none other who state e (entered, placed) (found, one) =
      let (below, named, ticking, heard) = entered id ref found in
      let apart : (ref == state.made) ≡ false = ground arith in
      let differs : (id === other) ≡ false = apart_of state id other ref found e in
      rw (apart, differs) (refl, refl, (found, one))
  kept_join (some by) other who state e w (found, one) = elim (Bool-cases (ref == by)) [
    | inl k ↦
        let same : ref ≡ by = ground arith in
        rw k (
          refl,
          ap (λ r. (state.heap r).marks) (sym same),
          (
            found,
            times-add listener who (state.heap by)
                (subst (λ r. times listener (state.heap r).listeners ≡ 1) same one),
          ),
        )
    | inr k ↦ rw k (refl, refl, (found, one))
  ]

  -- Another listener leaves, or this one leaves another company.
  pub kept_leave :
      (entry : Option ℕ) (other : String) (who : ℕ) (state : FeedState)
      → state.watches other ≡ entry
      → (other === id && who == listener) ≡ false
      → WellFormed state
      → Listens id ref listener state
      → (((leave entry other who state).heap ref).marks ≡ (state.heap ref).marks)
        × Listens id ref listener (leave entry other who state)
  kept_leave none other who state e k w l = (refl, l)
  kept_leave (some by) other who state e k (entered, placed) (found, one) =
      let (below, named, ticking, heard) = entered id ref found in
      let (below₂, named₂, ticking₂, heard₂) = entered other by e in
      let left = delete_listener who (state.heap by) in
      elim (Bool-cases (ref == by)) [
        | inl m ↦
            let same : ref ≡ by = ground arith in
            let one_name : other ≡ id =
              sym named₂ ∙ (ap (λ r. (state.heap r).company_id) (sym same) ∙ named) in
            let others : (who == listener) ≡ false =
              ground (
                arith,
                k,
                eq_refl id,
                subst (λ i. (i === id) ≡ true) (sym one_name) (eq_refl id),
              ) in
            let still : times listener left.listeners ≡ 1 =
              times-delete listener who (state.heap by).listeners others
              ∙ subst (λ r. times listener (state.heap r).listeners ≡ 1) same one in
            let marks = ap (λ r. (state.heap r).marks) (sym same) in
            rw (filled listener left.listeners still, m) (marks, (found, still))
        | inr m ↦
            let differs : (id === other) ≡ false =
              ground (arith, m, apart_names state id other ref by found e) in
            if_elim
              (λ (next : FeedState).
                ((next.heap ref).marks ≡ (state.heap ref).marks) × Listens id ref listener next)
              (is_empty left.listeners) (rw (m, differs) (refl, (found, one)))
              (rw m (refl, (found, one)))
      ]

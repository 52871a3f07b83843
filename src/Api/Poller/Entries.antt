-- ===== src/Api/Poller/Entries.antt =====
-- The entries of the feed's map, and the watches that they refer to.
use cap_rail.Api.Poller.{
  FeedState, Watch, add_listener, delete_listener, is_empty, leave, poll, set_watch, subscribe,
}
use cap_rail.Prelude.{
  Bool-cases, List, Option, String, ℕ, [], ap, arith, eq_of_===, eq_refl, false, has, inl, inr,
  none, refl, some, sym, true, ◌++◌, ◌<◌, ◌===◌, ◌==◌, ◌∙◌, ◌∷◌, ◌≡◌, ◌⊎◌,
}
use mathlib.Core.Option.{some-injective}
use mathlib.Core.Path.{subst}

-- A reference of the map is to a watch of that company, with its timer on and a listener.
abbrev Entered : ℕ → String → ℕ → Watch → Type 0
Entered made id ref watch =
    (ref < made)
    × (watch.company_id ≡ id)
    × (watch.timer ≡ true)
    × (is_empty watch.listeners ≡ false)

-- A watch is the one of its company, or its timer is off and it has no listener.
abbrev Placed : (String → Option ℕ) → ℕ → Watch → Type 0
Placed watches ref watch =
    (watches watch.company_id ≡ some ref)
    ⊎ ((watch.timer ≡ false) × (is_empty watch.listeners ≡ true))

abbrev pub WellFormed : FeedState → Type 0
WellFormed state =
    ((id : String) (ref : ℕ)
      → state.watches id ≡ some ref
      → Entered state.made id ref (state.heap ref))
    × ((ref : ℕ) → ref < state.made → Placed state.watches ref (state.heap ref))

abbrev pub SameFace : Watch → Watch → Type 0
SameFace a b =
    (a.company_id ≡ b.company_id)
    × (a.timer ≡ b.timer)
    × (is_empty a.listeners ≡ is_empty b.listeners)

Entered-face :
    (made : ℕ) (id : String) (ref : ℕ) (a b : Watch)
    → SameFace a b
    → Entered made id ref b
    → Entered made id ref a
Entered-face made id ref a b (c, t, l) (h, d, u, m) = (h, c ∙ d, t ∙ u, l ∙ m)

Placed-face :
    (watches : String → Option ℕ) (ref : ℕ) (a b : Watch)
    → SameFace a b
    → Placed watches ref b
    → Placed watches ref a
Placed-face watches ref a b (c, t, l) (inl h) = inl (rw c h)
Placed-face watches ref a b (c, t, l) (inr (u, m)) = inr (t ∙ u, l ∙ m)

pub set_watch-WellFormed :
    (ref : ℕ) (watch : Watch) (state : FeedState)
    → SameFace watch (state.heap ref)
    → WellFormed state
    → WellFormed (set_watch ref watch state)
set_watch-WellFormed ref watch state face (entered, placed) = (
  λ id other h. elim (Bool-cases (other == ref)) [
    | inl e ↦
        let same : ref ≡ other = ground arith in
        let face_ = subst (λ r. SameFace watch (state.heap r)) same face in
        rw e (Entered-face state.made id other watch (state.heap other) face_ (entered id other h))
    | inr e ↦ rw e (entered id other h)
  ],
  λ other h. elim (Bool-cases (other == ref)) [
    | inl e ↦
        let same : ref ≡ other = ground arith in
        let face_ = subst (λ r. SameFace watch (state.heap r)) same face in
        rw e (Placed-face state.watches other watch (state.heap other) face_ (placed other h))
    | inr e ↦ rw e (placed other h)
  ],
)

is_empty-append :
    (listeners : List ℕ) (listener : ℕ) → is_empty (listeners ++ listener ∷ []) ≡ false
is_empty-append [] listener = refl
is_empty-append (other ∷ listeners) listener = refl

filled :
    (listener : ℕ) (listeners : List ℕ)
    → has (λ other. other == listener) listeners ≡ true
    → is_empty listeners ≡ false
filled listener [] h = ground (arith, h)
filled listener (other ∷ listeners) h = refl

pub add_listener-filled :
    (listener : ℕ) (watch : Watch) → is_empty (add_listener listener watch).listeners ≡ false
add_listener-filled listener watch =
    elim (Bool-cases (has (λ other. other == listener) watch.listeners)) [
      | inl e ↦ rw e (filled listener watch.listeners e)
      | inr e ↦ rw e (is_empty-append watch.listeners listener)
    ]

-- A subscription to a company that is not watched.
pub make-WellFormed :
    (id : String) (listener : ℕ) (state : FeedState)
    → state.watches id ≡ none
    → WellFormed state
    → WellFormed (subscribe none id listener state).1
unfolding poll
make-WellFormed id listener state e (entered, placed) = (
  λ other ref h. elim (Bool-cases (other === id)) [
    | inl q ↦ ground (arith, q, h, eq_of_=== other id q)
    | inr q ↦
        let old : state.watches other ≡ some ref = ground (arith, q, h) in
        let (below, named, ticking, heard) = entered other ref old in
        ground (arith, below, named, ticking, heard)
  ],
  λ ref h. elim (Bool-cases (ref == state.made)) [
    | inl q ↦ rw q (inl (ground (arith, eq_refl id)))
    | inr q ↦
        let below : ref < state.made = ground arith in
        rw q (elim (placed ref below) [
          | inl found ↦ elim (Bool-cases ((state.heap ref).company_id === id)) [
            | inl k ↦
                let clash : state.watches id ≡ some ref =
                  subst (λ i. state.watches i ≡ some ref)
                    (eq_of_=== (state.heap ref).company_id id k) found in
                ground (arith, e, clash)
            | inr k ↦ inl (rw k found)
          ]
          | inr off ↦ inr off
        ])
  ],
)

-- A listener that leaves an entry of the map.
pub leave-WellFormed :
    (id : String) (ref listener : ℕ) (state : FeedState)
    → state.watches id ≡ some ref
    → WellFormed state
    → WellFormed (leave (some ref) id listener state)
leave-WellFormed id ref listener state e (entered, placed) =
    let watch = state.heap ref in
    let left = delete_listener listener watch in
    let (below, named, ticking, heard) = entered id ref e in
    elim (Bool-cases (is_empty left.listeners)) [
      | inl q ↦ rw q (
        λ other r h. elim (Bool-cases (other === id)) [
          | inl k ↦ ground (arith, k, h)
          | inr k ↦
              let old : state.watches other ≡ some r = ground (arith, k, h) in
              let (below_, named_, ticking_, heard_) = entered other r old in
              elim (Bool-cases (r == ref)) [
                | inl m ↦
                    let same : r ≡ ref = ground arith in
                    let one : other ≡ id =
                      sym named_ ∙ (ap (λ r. (state.heap r).company_id) same ∙ named) in
                    ground (arith, k, one, eq_refl id)
                | inr m ↦ rw m (below_, named_, ticking_, heard_)
              ]
        ],
        λ r h. elim (Bool-cases (r == ref)) [
          | inl k ↦ rw k (inr (refl, q))
          | inr k ↦ rw k (elim (placed r h) [
            | inl found ↦ elim (Bool-cases ((state.heap r).company_id === id)) [
              | inl m ↦
                  let clash : state.watches id ≡ some r =
                    subst (λ i. state.watches i ≡ some r) (eq_of_=== (state.heap r).company_id id m)
                      found in
                  ground (arith, k, some-injective r ref (sym clash ∙ e))
              | inr m ↦ inl (rw m found)
            ]
            | inr off ↦ inr off
          ])
        ],
      )
      | inr q ↦
          rw q
            (set_watch-WellFormed ref left state (refl, refl, rw (q, heard) refl) (entered, placed))
    ]

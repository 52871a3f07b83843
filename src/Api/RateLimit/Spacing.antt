-- ===== src/Api/RateLimit/Spacing.antt =====
-- How many requests of one client pass in a window of time.
use cap_rail.Api.RateLimit.{
  Answer, Limiter, alive_window, answer_request, count_and_sweep, is_alive, is_full, no_requests,
  passed, prune, rate_limited, request, sweep_every, swept,
}
use cap_rail.Prelude.{
  All, All-append, Bool-cases, List, Option, String, ℕ, [], ap, arith, eq_of_===, false, get_elem?,
  if◌then◌else◌, inl, inr, leb, length, length-append, length-reverse, none, or_else, refl, reverse,
  some, suc, sym, true, zero, ◌++◌, ◌+◌, ◌<◌, ◌===◌, ◌∙◌, ◌∷◌, ◌≡◌, ◌≤◌,
}
use mathlib.Core.List.{append_assoc, reverse-append}
use mathlib.Core.Path.{subst}

-- A request: its key and its instant.
abbrev pub Request : Type 0
Request = String × ℕ

abbrev logged : String → ℕ → Answer → List Request → List Request
logged key at (passed remaining) log = (key, at) ∷ log
logged key at (rate_limited reset) log = log

-- The requests that pass, the latest first, in front of those that passed before.
unfoldable pub passed_requests : ℕ → ℕ → List Request → Limiter → List Request → List Request
passed_requests limit window_ms [] l log = log
passed_requests limit window_ms ((key, at) ∷ requests) l log =
    let (answer, next) = request limit window_ms key at l in
    passed_requests limit window_ms requests next (logged key at answer log)

-- The instants of one key's requests.
abbrev pub times_of : String → List Request → List ℕ
times_of key [] = []
times_of key ((other, at) ∷ log) =
    let rest = times_of key log in if key === other then at ∷ rest else rest

-- The clock does not go back.
abbrev Monotone : ℕ → List Request → Type 0
Monotone now [] = Unit
Monotone now ((key, at) ∷ requests) = (now ≤ at) × Monotone at requests

-- Each instant is at least a window after the one that stands `limit` places behind it.
abbrev pub Spaced : ℕ → ℕ → List ℕ → Type 0
Spaced limit window_ms [] = Unit
Spaced limit window_ms (at ∷ older) =
    ((entry : ℕ) → get_elem? (at ∷ older) limit ≡ some entry → entry + window_ms ≤ at)
    × Spaced limit window_ms older

abbrev Dead : ℕ → ℕ → List ℕ → Type 0
Dead window_ms now times = All (λ entry. entry + window_ms ≤ now) times

-- The window of a key holds the latest of the instants that passed, in their order; all earlier ones are
-- dead.
abbrev Kept : ℕ → ℕ → List ℕ → List ℕ → Type 0
Kept window_ms now window times =
    (old : List ℕ) × (times ≡ reverse window ++ old) × Dead window_ms now old

module _ (limit window_ms : ℕ) where
  Dead-later :
      (now later : ℕ) (times : List ℕ)
      → now ≤ later
      → Dead window_ms now times
      → Dead window_ms later times
  Dead-later now later [] h d = tt
  Dead-later now later (t ∷ times) h (d, rest) =
      (omega (arith, h, d), Dead-later now later times h rest)

  All-reverse :
      (now : ℕ) (times : List ℕ) → Dead window_ms now times → Dead window_ms now (reverse times)
  All-reverse now [] d = tt
  All-reverse now (t ∷ times) (d, rest) =
      subst (λ r. Dead window_ms now r) (sym (reverse-append (t ∷ []) times))
        (All-append (λ entry. entry + window_ms ≤ now) (reverse times) (t ∷ [])
          (All-reverse now times rest) (d, tt))

  -- What is pruned is dead.
  prune-split :
      (at : ℕ) (window : List ℕ)
      → (gone : List ℕ) × (window ≡ gone ++ prune window_ms at window) × Dead window_ms at gone
  unfolding prune
  prune-split at [] = ([], refl, tt)
  prune-split at (entry ∷ window) = elim (Bool-cases (is_alive window_ms at entry)) [
    | inl e ↦ ([], rw (e, prune) refl, tt)
    | inr e ↦
        let (gone, same, dead) = prune-split at window in
        (entry ∷ gone, rw (e, prune) (ap (λ r. entry ∷ r) same), (ground (arith, e), dead))
  ]

  -- The beginning of a window may be pruned.
  Kept-prune :
      (at : ℕ) (window times : List ℕ)
      → Kept window_ms at window times
      → Kept window_ms at (prune window_ms at window) times
  Kept-prune at window times (old, same, dead) =
      let (gone, split, died) = prune-split at window in
      (
        reverse gone ++ old,
        same
            ∙ ap (λ r. r ++ old)
                (ap reverse split ∙ reverse-append gone (prune window_ms at window))
            ∙ append_assoc (reverse (prune window_ms at window)) (reverse gone) old,
        All-append (λ entry. entry + window_ms ≤ at) (reverse gone) old (All-reverse at gone died)
            dead,
      )

  length-prune : (at : ℕ) (window : List ℕ) → length (prune window_ms at window) ≤ length window
  unfolding prune
  length-prune at [] = omega arith
  length-prune at (entry ∷ window) = ground (arith, length-prune at window)

  or_else-swept :
      (at : ℕ) (o : Option (List ℕ))
      → or_else (swept window_ms at o) [] ≡ prune window_ms at (or_else o [])
  unfolding prune
  or_else-swept at none = refl
  or_else-swept at (some window) = nonempty (prune window_ms at window)
    where
      nonempty :
          (alive : List ℕ)
          → or_else (elim alive [ [] ↦ none | entry ∷ rest ↦ some (entry ∷ rest) ]) [] ≡ alive
      nonempty [] = refl
      nonempty (entry ∷ rest) = refl

  -- What holds of one key: its window is kept and not too long, and what passed is spaced.
  abbrev KeyInvariant : ℕ → List ℕ → List ℕ → Type 0
  KeyInvariant now window times =
      Kept window_ms now window times × (length window ≤ limit) × Spaced limit window_ms times

  KeyInvariant-later :
      (now at : ℕ) (window times : List ℕ)
      → now ≤ at
      → KeyInvariant now window times
      → KeyInvariant at window times
  KeyInvariant-later now at window times h ((old, same, dead), short, spaced) =
      ((old, same, Dead-later now at old h dead), short, spaced)

  KeyInvariant-prune :
      (at : ℕ) (window times : List ℕ)
      → KeyInvariant at window times
      → KeyInvariant at (prune window_ms at window) times
  KeyInvariant-prune at window times (kept, short, spaced) =
      (Kept-prune at window times kept, omega (arith, short, length-prune at window), spaced)

  get_behind :
      (at n : ℕ) (front old : List ℕ) (entry : ℕ)
      → length front ≤ n
      → Dead window_ms at old
      → get_elem? (front ++ old) n ≡ some entry
      → entry + window_ms ≤ at
  get_behind at n [] [] entry l d h = ground (arith, h)
  get_behind at zero [] (t ∷ old) entry l (d, rest) h = ground (arith, h, d)
  get_behind at (suc n) [] (t ∷ old) entry l (d, rest) h =
      get_behind at n [] old entry (omega arith) rest h
  get_behind at zero (t ∷ front) old entry l d h = ground (arith, l)
  get_behind at (suc n) (t ∷ front) old entry l d h =
      get_behind at n front old entry (omega (arith, l)) d h

  -- A request that passes.
  KeyInvariant-pass :
      (at : ℕ) (window times : List ℕ)
      → length window < limit
      → KeyInvariant at window times
      → KeyInvariant at (window ++ at ∷ []) (at ∷ times)
  KeyInvariant-pass at window times less ((old, same, dead), short, spaced) = (
    (old, ap (λ r. at ∷ r) same ∙ ap (λ r. r ++ old) (sym (reverse-append window (at ∷ []))), dead),
    omega (arith, less, length-append window (at ∷ [])),
    (
      (λ entry h.
          get_behind at limit (at ∷ reverse window) old entry
            (omega (arith, less, length-reverse window)) dead
            (subst (λ r. get_elem? (at ∷ r) limit ≡ some entry) same h)),
      spaced,
    ),
  )

  -- The window that the limiter has for a key.
  abbrev window_of : String → Limiter → List ℕ
  window_of key l = or_else (l.windows key) []

  abbrev Invariant : ℕ → String → Limiter → List Request → Type 0
  Invariant now key l log = KeyInvariant now (window_of key l) (times_of key log)

  Invariant-sweep :
      (at : ℕ) (key : String) (l : Limiter) (log : List Request)
      → Invariant at key l log
      → Invariant at key (count_and_sweep window_ms at l) log
  unfolding count_and_sweep
  Invariant-sweep at key l log h = elim (Bool-cases (leb sweep_every (suc l.since_sweep))) [
    | inl e ↦ rw e (
        subst (λ w. KeyInvariant at w (times_of key log)) (sym (or_else-swept at (l.windows key)))
          (KeyInvariant-prune at (window_of key l) (times_of key log) h))
    | inr e ↦ rw e h
  ]

  -- Where the limit is positive, a window that is not full has room.
  not_full : (window : List ℕ) → 0 < limit → is_full limit window ≡ false → length window < limit
  not_full [] p h = p
  not_full (entry ∷ window) p h = ground (arith, h)

  Invariant-answer :
      (k key : String) (at : ℕ) (l : Limiter) (log : List Request)
      → 0 < limit
      → Invariant at k l log
      → (let (answer, next) =
            answer_request limit window_ms key at (alive_window window_ms at key l) l in
          Invariant at k next (logged key at answer log))
  Invariant-answer k key at l log p h =
      let window = alive_window window_ms at key l in
      let times = times_of k log in
      let same : (k === key) ≡ true → KeyInvariant at window times = λ q.
        subst (λ j. KeyInvariant at (alive_window window_ms at j l) times) (eq_of_=== k key q)
          (KeyInvariant-prune at (window_of k l) times h) in
      elim (Bool-cases (is_full limit window)) [
        | inl e ↦ elim (Bool-cases (k === key)) [ inl q ↦ rw (e, q) (same q) | inr q ↦ rw (e, q) h ]
        | inr e ↦ elim (Bool-cases (k === key)) [
          | inl q ↦ rw (e, q) (KeyInvariant-pass at window times (not_full window p e) (same q))
          | inr q ↦ rw (e, q) h
        ]
      ]

  Invariant-passed_requests :
      (k : String) (now : ℕ) (requests : List Request) (l : Limiter) (log : List Request)
      → 0 < limit
      → Monotone now requests
      → Invariant now k l log
      → Spaced limit window_ms (times_of k (passed_requests limit window_ms requests l log))
  unfolding passed_requests request
  Invariant-passed_requests k now [] l log p m (kept, short, spaced) = spaced
  Invariant-passed_requests k now ((key, at) ∷ requests) l log p (later, m) h =
      let swept_ = count_and_sweep window_ms at l in
      let (answer, next) = request limit window_ms key at l in
      Invariant-passed_requests k at requests next (logged key at answer log) p m (
        Invariant-answer k key at swept_ log p (
          Invariant-sweep at k l log
            (KeyInvariant-later now at (window_of k l) (times_of k log) later h)))

  -- From the start, and while the clock does not go back, each request of a key that passes comes at least
  -- `windowMs` after the one that passed `limit` requests of that key before it; so no window of that length
  -- holds more than `limit` of them. The limit is positive.
  pub passed_requests-Spaced :
      (key : String) (requests : List Request)
      → 0 < limit
      → Monotone 0 requests
      → Spaced limit window_ms
          (times_of key (passed_requests limit window_ms requests no_requests []))
  passed_requests-Spaced key requests p m =
      Invariant-passed_requests key 0 requests no_requests [] p m (([], refl, tt), omega arith, tt)

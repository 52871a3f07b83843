-- ===== src/Api/RateLimit.antt =====
-- apps/api/src/middleware/rate-limit.ts: rateLimit and clientIp. An instant is milliseconds since the
-- epoch; the map of windows is the function that looks a key up in it.
pub mod Spacing
use cap_rail.Prelude.{
  Bool, List, Option, String, ℕ, [], false, if◌then◌else◌, keep, last?, leb, length, ltb, none, not,
  or_else, some, suc, ◌++◌, ◌+◌, ◌-◌, ◌/◌, ◌===◌, ◌∷◌,
}

abbrev rate_limit : ℕ
rate_limit = 60

abbrev window_length : ℕ
window_length = 60000

abbrev pub sweep_every : ℕ
sweep_every = 512

pub record Limiter : Type 0 where
  pub windows : String → Option (List ℕ)
  pub since_sweep : ℕ

-- `windows` before the first request.
abbrev pub no_requests : Limiter
no_requests = record { windows = λ key. none; since_sweep = 0 }

-- `entry > at - windowMs`
abbrev pub is_alive : ℕ → ℕ → ℕ → Bool
is_alive window_ms at entry = ltb at (entry + window_ms)

-- `prune`: from the first entry that is alive on.
unfoldable pub prune : ℕ → ℕ → List ℕ → List ℕ
prune window_ms at [] = []
prune window_ms at (entry ∷ window) =
    let rest = prune window_ms at window in
    if is_alive window_ms at entry then entry ∷ window else rest

-- What the sweep leaves of one window: nothing where no entry is alive.
abbrev pub swept : ℕ → ℕ → Option (List ℕ) → Option (List ℕ)
swept window_ms at none = none
swept window_ms at (some window) = elim (prune window_ms at window) [
  | [] ↦ none
  | entry ∷ alive ↦ some (entry ∷ alive)
]

abbrev sweep_windows : ℕ → ℕ → (String → Option (List ℕ)) → String → Option (List ℕ)
sweep_windows window_ms at windows key = swept window_ms at (windows key)

-- `if (++sinceSweep >= SWEEP_EVERY)` and its body.
unfoldable pub count_and_sweep : ℕ → ℕ → Limiter → Limiter
count_and_sweep window_ms at l =
    if leb sweep_every (suc l.since_sweep)
    then record { windows = sweep_windows window_ms at l.windows; since_sweep = 0 }
    else record { windows = l.windows; since_sweep = suc l.since_sweep }

-- `windows.set(key, window)`
abbrev set_window : String → List ℕ → Limiter → Limiter
set_window key window l = record {
  windows = λ other. if other === key then some window else l.windows other;
  since_sweep = l.since_sweep;
}

-- `Math.max(1, Math.ceil((oldest + windowMs - at) / 1000))`; the oldest is alive, so the difference is
-- positive.
abbrev reset_seconds : ℕ → ℕ → ℕ → ℕ
reset_seconds window_ms at oldest =
    let seconds = (oldest + window_ms - at + 999) / 1000 in if ltb seconds 1 then 1 else seconds

-- What the middleware answers: the rest of the limit, or the seconds to wait.
pub data Answer : Type 0 where
  passed : (remaining : ℕ) → Answer
  rate_limited : (reset : ℕ) → Answer

-- `window.length >= limit && oldest !== undefined`
abbrev pub is_full : ℕ → List ℕ → Bool
is_full limit [] = false
is_full limit (oldest ∷ window) = leb limit (length (oldest ∷ window))

-- `window[0]`, where there is one.
abbrev oldest_of : List ℕ → ℕ
oldest_of [] = 0
oldest_of (oldest ∷ window) = oldest

abbrev pub alive_window : ℕ → ℕ → String → Limiter → List ℕ
alive_window window_ms at key l = prune window_ms at (or_else (l.windows key) [])

-- What follows the sweep, with the window of the key's live requests.
abbrev pub answer_request : ℕ → ℕ → String → ℕ → List ℕ → Limiter → Answer × Limiter
answer_request limit window_ms key at window l =
    if is_full limit window
    then (rate_limited (reset_seconds window_ms at (oldest_of window)), set_window key window l)
    else (passed (limit - length (window ++ at ∷ [])), set_window key (window ++ at ∷ []) l)

unfoldable pub request : ℕ → ℕ → String → ℕ → Limiter → Answer × Limiter
request limit window_ms key at l =
    let kept = count_and_sweep window_ms at l in
    answer_request limit window_ms key at (alive_window window_ms at key kept) kept

-- `clientIp`: the last address in `x-forwarded-for` that is not empty, else `x-real-ip`, else 'unknown'.
-- The header is given split at its commas, each part trimmed.
abbrev client_ip : Option (List String) → Option String → String
client_ip forwarded real_ip =
    or_else (last? (keep (λ part. not (part === "")) (or_else forwarded [])))
      (or_else real_ip "unknown")

-- ===== src/Worker/Run/Fallback.antt =====
-- A pass that an RPC breaks off and the next one takes up.
use cap_rail.Indexer.Parse.{ProgramTransaction}
use cap_rail.Prelude.{
  All, List, Option, String, ℕ, [], ap, arith, drop, inl, inr, length, length-reverse, none, refl,
  reverse, some, suc, sym, take, true, zero, ◌++◌, ◌+◌, ◌<◌, ◌∙◌, ◌∷◌, ◌≡◌, ◌≤◌, ◌⊎◌,
}
use cap_rail.Result.{ok}
use cap_rail.Table.{Unique}
use cap_rail.Worker.Backfill.{
  BackfillRpc, Outcome, SignatureInfo, backfill, collected, done, page_size, pages, replay_pages,
  threw, unfinished,
}
use cap_rail.Worker.Backfill.Complete.{
  Serves, handle_each, latest_of, newer, older, pages-from, replay-all, same_signature, take-drop,
}
use cap_rail.Worker.Pipeline.{Pipeline, PipelineDeps, handle, knows, recent_capacity}
use cap_rail.Worker.Run.{backfill_pass, or_next, since_of, try_rpcs}
use cap_rail.Worker.Run.Flaky.{Broken, Flaky, backfill-Broken}
use cap_rail.Worker.Run.Repeats.{Remembered, each-Remembered, each-append, each-known}
use mathlib.Core.List.{append-nil}
use mathlib.Core.Path.{subst}

module _ {ℓ} {A : Type ℓ} where
  -- Of two prefixes of a list one begins with the other.
  overlap :
      (j k : ℕ) (xs : List A)
      → ((rest : List A) × (take j xs ≡ take k xs ++ rest))
        ⊎ ((rest : List A) × (take k xs ≡ take j xs ++ rest))
  overlap j zero xs = inl (take j xs, refl)
  overlap zero (suc k) xs = inr (take (suc k) xs, refl)
  overlap (suc j) (suc k) [] = inl ([], refl)
  overlap (suc j) (suc k) (x ∷ xs) = elim (overlap j k xs) [
    | inl (rest, e) ↦ inl (rest, ap (λ ys. x ∷ ys) e)
    | inr (rest, e) ↦ inr (rest, ap (λ ys. x ∷ ys) e)
  ]

  length-take : (n : ℕ) (xs : List A) → length (take n xs) ≤ length xs
  length-take zero xs = omega arith
  length-take (suc n) [] = omega arith
  length-take (suc n) (x ∷ xs) = omega (arith, length-take n xs)

  All-front {κ} : (P : A → Type κ) (xs ys : List A) → All P (xs ++ ys) → All P xs
  All-front P [] ys h = tt
  All-front P (x ∷ xs) ys (p, h) = (p, All-front P xs ys h)

module _ {S : Type 0} (deps : PipelineDeps S)
    (quiet : (tx : ProgramTransaction) (p : Pipeline S) → (handle deps tx p).0 ≡ ok tt)
    (tx_of : String → ProgramTransaction)
    (own : (signature : String) → (tx_of signature).signature ≡ signature)
    (infos : List SignatureInfo) (p : Pipeline S)
    (room : length p.recent + length infos ≤ recent_capacity) where
  abbrev run_each : List SignatureInfo → Pipeline S → Pipeline S
  run_each more q = handle_each (handle deps) tx_of more q

  -- A state that a pass has broken off in.
  abbrev Reached : Pipeline S → Type 0
  Reached q = (n : ℕ) × (q ≡ run_each (take n infos) p)

  Reached-Remembered :
      (n : ℕ) → Remembered deps quiet tx_of own (take n infos) (run_each (take n infos) p)
  Reached-Remembered n =
      each-Remembered deps quiet tx_of own (take n infos) p
        (omega (arith, room, length-take n infos))

  -- The first entries again, and more behind them.
  again :
      (front rest : List SignatureInfo) (q : Pipeline S)
      → Remembered deps quiet tx_of own front q
      → q ≡ run_each front p
      → run_each (front ++ rest) q ≡ run_each (front ++ rest) p
  again front rest q known e =
      each-known deps quiet tx_of own front rest q known
      ∙ ap (run_each rest) e
      ∙ sym (each-append deps quiet tx_of own front rest p)

  again_nothing :
      (front : List SignatureInfo) (q : Pipeline S)
      → Remembered deps quiet tx_of own front q
      → run_each (front ++ []) q ≡ q
  unfolding handle_each
  again_nothing front q known = each-known deps quiet tx_of own front [] q known

  Reached-more : (j : ℕ) (q : Pipeline S) → Reached q → Reached (run_each (take j infos) q)
  Reached-more j q (k, e) =
      let known =
        subst (Remembered deps quiet tx_of own (take k infos)) (sym e) (Reached-Remembered k) in
      elim (overlap j k infos) [
        | inl (rest, longer) ↦ (j, rw longer (again (take k infos) rest q known e))
        | inr (rest, shorter) ↦
            let front : Remembered deps quiet tx_of own (take j infos) q =
              All-front (λ info. knows info.signature q.recent ≡ true) (take j infos) rest
                (subst (λ xs. Remembered deps quiet tx_of own xs q) shorter known) in
            (
              k,
              ap (λ xs. run_each xs q) (sym (append-nil (take j infos)))
                  ∙ again_nothing (take j infos) q front
                  ∙ e,
            )
      ]

  Reached-all : (q : Pipeline S) → Reached q → run_each infos q ≡ run_each infos p
  Reached-all q (k, e) =
      let known =
        subst (Remembered deps quiet tx_of own (take k infos)) (sym e) (Reached-Remembered k) in
      subst (λ xs. run_each xs q ≡ run_each xs p) (take-drop k infos)
        (again (take k infos) (drop k infos) q known e)

  -- However an RPC ends its pass, the next goes on to the same end.
  or_next-same :
      (next : Pipeline S → Pipeline S) (q : Pipeline S) (outcome : Outcome (Pipeline S))
      → Reached q
      → Broken (handle deps) tx_of quiet infos q outcome
      → ((t : Pipeline S) → Reached t → next t ≡ run_each infos p)
      → or_next next outcome ≡ run_each infos p
  unfolding or_next
  or_next-same next q (done latest t) reached h same = h ∙ Reached-all q reached
  or_next-same next q (threw e t) reached (n, h) same =
      same t (subst Reached (sym h) (Reached-more n q reached))
  or_next-same next q (unfinished t) reached h same = absurd h

  module _ (good : BackfillRpc) (fuel : ℕ) (since : Option String)
      (newest_first : List SignatureInfo)
      (served : (signature : String) → good.transaction signature ≡ ok (some (tx_of signature)))
      (paged : pages fuel good since page_size none [] ≡ collected newest_first)
      (oldest_first : reverse newest_first ≡ infos) where
    good-done :
        (q : Pipeline S)
        → backfill fuel good since (handle deps) page_size q
          ≡ done (latest_of none (reverse newest_first)) (run_each (reverse newest_first) q)
    unfolding backfill replay_pages
    good-done q =
        rw paged (replay-all (handle deps) good tx_of (reverse newest_first) none q served quiet)

    try_rpcs-same :
        (flaky rest : List BackfillRpc) (q : Pipeline S)
        → All (Flaky good) flaky
        → Reached q
        → try_rpcs fuel (flaky ++ good ∷ rest) since deps q ≡ run_each infos p
    unfolding try_rpcs or_next
    try_rpcs-same [] rest q h reached =
        ap (or_next (λ t. try_rpcs fuel rest since deps t)) (good-done q)
        ∙ ap (λ xs. run_each xs q) oldest_first
        ∙ Reached-all q reached
    try_rpcs-same (rpc ∷ flaky) rest q (h, others) reached =
        or_next-same _ q (backfill fuel rpc since (handle deps) page_size q) reached
          (subst
            (λ xs.
              Broken (handle deps) tx_of quiet xs q
                (backfill fuel rpc since (handle deps) page_size q))
            oldest_first
            (backfill-Broken (handle deps) tx_of quiet good rpc fuel page_size since newest_first q
              h served paged))
          (λ t reached_. try_rpcs-same flaky rest t others reached_)

-- Where each of some RPCs answers as a good one does or throws, whenever it is asked, and the good one
-- serves one history of distinct signatures and every transaction of it; where no handling throws, the
-- transactions carry the signatures they are asked by, the fuel is for more pages than there are entries
-- newer than the cursor, and these fit with what is remembered into `recent_capacity`: a pass over the
-- RPCs, the good one behind the others, leaves the pipeline as if every entry newer than the cursor had
-- been handled once, oldest first, wherever the others broke off.
pub backfill_pass-once :
    {S : Type 0} (deps : PipelineDeps S) (p : Pipeline S) (good : BackfillRpc)
    (flaky rest : List BackfillRpc) (history : List SignatureInfo) (fuel : ℕ)
    (tx_of : String → ProgramTransaction)
    → Serves good history
    → ((signature : String) → good.transaction signature ≡ ok (some (tx_of signature)))
    → ((signature : String) → (tx_of signature).signature ≡ signature)
    → All (Flaky good) flaky
    → ((tx : ProgramTransaction) (q : Pipeline S) → (handle deps tx q).0 ≡ ok tt)
    → let entries = newer (since_of p.cursor) history in
      Unique same_signature entries
      → length entries < fuel
      → length p.recent + length entries ≤ recent_capacity
      → backfill_pass fuel (flaky ++ good ∷ rest) deps p
        ≡ handle_each (handle deps) tx_of (reverse entries) p
unfolding backfill_pass older handle_each
backfill_pass-once deps p good flaky rest history fuel tx_of serves served own h quiet u enough
      room =
    let since = since_of p.cursor in
    let entries = newer since history in
    let paged =
      pages-from good history since page_size serves (omega arith) u fuel none [] entries enough
        refl refl in
    try_rpcs-same deps quiet tx_of own (reverse entries) p
      (omega (arith, room, length-reverse entries)) good fuel since entries served paged refl flaky
      rest p h (0, refl)

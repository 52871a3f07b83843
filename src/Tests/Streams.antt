-- ===== src/Tests/Streams.antt =====
-- The theorems on the pipeline and the backfill, at streams of a few transactions.
use cap_rail.Indexer.Parse.{ProgramTransaction}
use cap_rail.Prelude.{
  Bool-cases, List, String, ℕ, [], arith, false, if◌then◌else◌, inl, inr, length, none, refl,
  reverse, some, suc, take, ◌++◌, ◌===◌, ◌∷◌, ◌≡◌, ◌≤◌,
}
use cap_rail.Result.{Result, err, not_served, ok}
use cap_rail.Tests.Data.{transaction}
use cap_rail.Worker.Backfill.{
  BackfillRpc, SignatureInfo, backfill, done, next_page, page_size, pages, replay, replay_found,
  replay_one, replay_pages,
}
use cap_rail.Worker.Backfill.Complete.{backfill_complete, handle_each, latest_of, newer, older}
use cap_rail.Worker.Pipeline.{
  Pipeline, PipelineDeps, advance, cursor_at, forget, handle, knows, push, push_all,
  recent_capacity, remember, settle,
}
use cap_rail.Worker.Pipeline.Laws.{push_all-bounds, slot_of}
use cap_rail.Worker.Run.{backfill_pass, or_next, since_of, try_rpcs}
use cap_rail.Worker.Run.Fallback.{backfill_pass-once}
use cap_rail.Worker.Run.Flaky.{Flaky}
use cap_rail.Worker.Run.PassedOver.{failed-passed_over, lists}

-- A handler that counts and refuses the signature "bad".
abbrev counting : PipelineDeps ℕ
counting = record {
  apply = λ tx n. if tx.signature === "bad" then (err (not_served "bad"), n) else (ok tt, suc n);
  save = λ cursor n. (ok tt, n);
}

abbrev start : Pipeline ℕ
start = record { recent = []; cursor = none; inner = 0 }

abbrev bad : ProgramTransaction
bad = record transaction { signature = "bad"; slot = 40 }

push_all-bounds_example :
    (slot_of none ≤ slot_of (push_all counting (bad ∷ transaction ∷ []) start).cursor)
    × (length (push_all counting (bad ∷ transaction ∷ []) start).recent ≤ recent_capacity)
push_all-bounds_example = push_all-bounds counting (bad ∷ transaction ∷ []) start (omega arith)

-- "bad" stands behind the transaction that passed it over, which stands behind "next".
abbrev before_it : List SignatureInfo
before_it = record { signature = "next"; slot = 60 } ∷ []

abbrev behind_it : List SignatureInfo
behind_it = record { signature = "bad"; slot = 40 } ∷ []

abbrev second_info : SignatureInfo
second_info = record { signature = transaction.signature; slot = transaction.slot }

abbrev whole_node : BackfillRpc
whole_node = record {
  signatures = λ before since limit.
      ok (take limit (older before (newer since (before_it ++ second_info ∷ behind_it))));
  transaction = λ signature. ok (some (record transaction { signature = signature }));
}

failed-passed_over_example :
    let passed = push_all counting (bad ∷ transaction ∷ []) start in
    (passed.cursor ≡ some (cursor_at transaction))
    × (knows "bad" passed.recent ≡ false)
    × (backfill 2 whole_node (since_of passed.cursor) (handle counting) page_size passed
        ≡ replay whole_node (handle counting) (reverse before_it) none passed)
    × (lists "bad" before_it ≡ false)
unfolding push handle settle remember forget
failed-passed_over_example =
    failed-passed_over counting bad transaction start (not_served "bad") 2 whole_node before_it
      behind_it second_info refl refl refl refl refl refl (λ before since limit. refl)
      (refl, (refl, (refl, tt))) refl refl (omega arith)

-- A history of two signatures after the cursor "old".
abbrev history : List SignatureInfo
history =
    record { signature = "new"; slot = 9 }
    ∷ record { signature = "mid"; slot = 8 }
    ∷ record { signature = "old"; slot = 7 }
    ∷ []

abbrev served : String → ProgramTransaction
served signature = record transaction { signature = signature }

abbrev node : BackfillRpc
node = record {
  signatures = λ before since limit. ok (take limit (older before (newer since history)));
  transaction = λ signature. ok (some (served signature));
}

abbrev count : ProgramTransaction → ℕ → Result (Unit {0}) × ℕ
count tx n = (ok tt, suc n)

backfill_complete_example :
    backfill 3 node (some "old") count 1 0
    ≡ done
        (latest_of none (reverse (newer (some "old") history)))
        (handle_each count served (reverse (newer (some "old") history)) 0)
unfolding newer
backfill_complete_example =
    backfill_complete count 3 node history (some "old") 1 served 0 (λ before since limit. refl)
      (omega arith) (refl, (refl, tt)) (omega arith) (λ signature. refl) (λ tx n. refl)

abbrev counting_all : PipelineDeps ℕ
counting_all = record { apply = λ tx n. (ok tt, suc n); save = λ cursor n. (ok tt, n) }

counting_all_quiet :
    (tx : ProgramTransaction) (p : Pipeline ℕ) → (handle counting_all tx p).0 ≡ ok tt
unfolding handle settle advance
counting_all_quiet tx p = ground arith

-- A node that serves "mid" and then breaks off at "new".
abbrev breaking_node : BackfillRpc
breaking_node = record {
  signatures = λ before since limit. node.signatures before since limit;
  transaction = λ signature.
      if signature === "new" then err (not_served "new") else ok (some (served signature));
}

breaking_node-Flaky : Flaky node breaking_node
breaking_node-Flaky = (
  (λ before since limit. inl refl),
  (λ signature. elim (Bool-cases (signature === "new")) [
    | inl e ↦ inr (not_served "new", rw e refl)
    | inr e ↦ inl (rw e refl)
  ]),
)

abbrev behind : Pipeline ℕ
behind = record { recent = []; cursor = some (record { signature = "old"; slot = 7 }); inner = 0 }

backfill_pass-once_example :
    backfill_pass 3 (breaking_node ∷ node ∷ []) counting_all behind
    ≡ handle_each (handle counting_all) served (reverse (newer (some "old") history)) behind
unfolding newer
backfill_pass-once_example =
    backfill_pass-once counting_all behind node (breaking_node ∷ []) [] history 3 served
      (λ before since limit. refl) (λ signature. refl) (λ signature. refl) (breaking_node-Flaky, tt)
      counting_all_quiet (refl, (refl, tt)) (omega arith) (omega arith)

-- Each of the two is counted once, though "mid" is served twice.
counted : (backfill_pass 3 (breaking_node ∷ node ∷ []) counting_all behind).inner ≡ 2
unfolding backfill_pass try_rpcs or_next backfill pages next_page replay_pages replay replay_found
    replay_one handle settle advance remember older newer
counted = refl

-- ===== src/Tests/Api.antt =====
-- apps/api at concrete inputs.
use cap_rail.Api.Journal.{JournalQuery, JournalRow}
use cap_rail.Api.Journal.CursorText.Follow.{AllReadable, follow_texts, follow_texts-matching}
use cap_rail.Api.Journal.CursorText.RoundTrip.{Ascii}
use cap_rail.Api.Journal.Pages.{matching}
use cap_rail.Api.Journal.Pairing.{pair_trades}
use cap_rail.Api.Journal.Pairing.Nearest.{pair_trades-split_page}
use cap_rail.Api.Nonces.{
  Call, NonceRow, consume, consume_call, issue_call, no_nonces, run_memory, run_rows,
}
use cap_rail.Api.Nonces.Refinement.{answer_of, run_rows-run_memory}
use cap_rail.Api.RateLimit.{count_and_sweep, no_requests, prune, request}
use cap_rail.Api.RateLimit.Spacing.{
  Request, Spaced, passed_requests, passed_requests-Spaced, times_of,
}
use cap_rail.Prelude.{
  List, ℕ, [], ap, arith, false, map, none, refl, some, true, ◌*◌, ◌+◌, ◌-◌, ◌∷◌, ◌≡◌,
}
use cap_rail.Prelude.Int.{pos}
use cap_rail.Worker.Rows.{AttemptRow, TradeRow, allowed, chain}

abbrev requests : List Request
requests = ("A", 10) ∷ ("B", 11) ∷ ("A", 12) ∷ ("A", 13) ∷ ("A", 72) ∷ []

passed_requests-Spaced_example :
    Spaced 2 60 (times_of "A" (passed_requests 2 60 requests no_requests []))
passed_requests-Spaced_example =
    passed_requests-Spaced 2 60 "A" requests (omega arith)
      (omega arith, (omega arith, (omega arith, (omega arith, (omega arith, tt)))))

-- The third request of A is one too many.
third_refused : times_of "A" (passed_requests 2 60 requests no_requests []) ≡ 72 ∷ 12 ∷ 10 ∷ []
unfolding passed_requests request count_and_sweep prune
third_refused = refl

abbrev calls : List Call
calls =
    issue_call "W" "n1" (pos 9)
    ∷ issue_call "W" "n2" (pos 9)
    ∷ consume_call "W" "n1" (pos 5)
    ∷ consume_call "W" "n2" (pos 5)
    ∷ consume_call "W" "n2" (pos 5)
    ∷ []

run_rows-run_memory_example : run_rows calls [] ≡ run_memory calls no_nonces
run_rows-run_memory_example = run_rows-run_memory calls

abbrev nonce_rows : List NonceRow
nonce_rows = record { wallet = "W"; nonce = "n"; expires_at = pos 9 } ∷ []

consumed : answer_of (consume "W" "n" (pos 5) nonce_rows) ≡ true
unfolding consume
consumed = refl

-- A transfer of 5 units from A to B at an event index of one transaction.
abbrev attempt_at : ℕ → AttemptRow
attempt_at event_index = record {
  mint = "M";
  company_id = 7;
  source_owner = some "A";
  dest_owner = some "B";
  amount = some 5;
  outcome = allowed;
  reason_code = none;
  origin = chain;
  from_treasury = false;
  policy_version = none;
  tx_signature = some "S";
  event_index = event_index;
  slot = none;
  block_time = pos 100;
  logs = [];
  reported_by = none;
}

abbrev pub row_at : ℕ → ℕ → JournalRow
row_at id event_index = record { id = id; attempt = attempt_at event_index }

abbrev pub trade_at : ℕ → ℕ → TradeRow
trade_at event_index price = record {
  tx_signature = "S";
  event_index = event_index;
  offer = "O";
  mint = "M";
  company_id = 7;
  seller = "A";
  buyer = "B";
  offer_id = 1;
  amount = 5;
  price_per_unit = price;
  payment = 5 * price;
  fee = 0;
  payment_mint = "U";
  remaining = 0;
  accepted_at = pos 100;
  slot = 1;
  block_time = pos 100;
}

abbrev first_row : JournalRow
first_row = row_at 1 0

abbrev second_row : JournalRow
second_row = row_at 2 2

pair_trades-split_page_example :
    (pair_trades (second_row ∷ first_row ∷ []) (trade_at 1 3 ∷ trade_at 3 4 ∷ []) 1
      ≡ some (trade_at 1 3))
    × (pair_trades (second_row ∷ first_row ∷ []) (trade_at 1 3 ∷ trade_at 3 4 ∷ []) 2
        ≡ some (trade_at 3 4))
    × (pair_trades (second_row ∷ first_row ∷ []) (trade_at 3 4 ∷ trade_at 1 3 ∷ []) 1
        ≡ some (trade_at 1 3))
    × (pair_trades (second_row ∷ first_row ∷ []) (trade_at 3 4 ∷ trade_at 1 3 ∷ []) 2
        ≡ some (trade_at 3 4))
    × (pair_trades (first_row ∷ []) (trade_at 1 3 ∷ trade_at 3 4 ∷ []) 1 ≡ some (trade_at 3 4))
    × (pair_trades (first_row ∷ []) (trade_at 3 4 ∷ trade_at 1 3 ∷ []) 1 ≡ some (trade_at 1 3))
pair_trades-split_page_example =
    pair_trades-split_page first_row second_row (trade_at 1 3) (trade_at 3 4) refl refl refl refl
      (omega arith) refl

-- Two rows of one instant, one on a page.
abbrev journal_query : JournalQuery
journal_query = record { mint = some "M"; cursor = none; limit = 1; from = none; to = none }

abbrev journal_rows : List JournalRow
journal_rows = first_row ∷ second_row ∷ []

-- A code and what reads it back, in place of base64url.
abbrev shifted : List ℕ → List ℕ
shifted text = map (λ c. c + 1) text

abbrev unshifted : List ℕ → List ℕ
unshifted text = map (λ c. c - 1) text

one_back : (c : ℕ) → c + 1 - 1 ≡ c
one_back c = omega arith

unshifted-shifted : (text : List ℕ) → Ascii text → unshifted (shifted text) ≡ text
unshifted-shifted [] h = refl
unshifted-shifted (c ∷ text) (_, h) =
    rw (unshifted-shifted text h) (ap (λ first. first ∷ text) (one_back c))

readable : AllReadable journal_rows
readable = (((100, refl, omega arith), omega arith), (((100, refl, omega arith), omega arith), tt))

follow_texts-matching_example :
    follow_texts shifted unshifted 3 journal_rows 7 journal_query none
    ≡ matching journal_rows 7 journal_query
follow_texts-matching_example =
    follow_texts-matching shifted unshifted unshifted-shifted journal_rows 7 journal_query 3
      ((refl, tt), (tt, tt)) readable (omega arith) (omega arith)

-- ===== src/Api/Journal/Pairing/Nearest.antt =====
-- Which transfer a trade is paired with, on a whole journal and on one page of it.
use cap_rail.Api.Journal.{JournalRow}
use cap_rail.Api.Journal.Pairing.{best_of, is_better, is_transfer_of, pair_trades}
use cap_rail.Prelude.{
  All, Bool, Bool-cases, List, Option, [], arith, false, if◌then◌else◌, inl, inr, none, some, sym,
  true, ◌&&◌, ◌<◌, ◌==◌, ◌∷◌, ◌≡◌, ◌≤◌,
}
use cap_rail.Worker.Rows.{TradeRow}
use mathlib.Core.Option.{some-injective}
use mathlib.Core.Path.{subst}

-- Where two trades of one transaction have the same mint, seller, buyer and amount, and their transfers `a` and
-- `b` stand each before its own trade, `a` before the first and `b` between the two: the rows of both pair
-- each with its own trade in whichever order the query, which names none, answers the trades, but a page
-- that has `a` alone, because `b` is the last row of the page before, pairs `a` with the trade that is
-- answered last: with the second trade where they are answered in the order of their events.
pub pair_trades-split_page :
    (a b : JournalRow) (first second : TradeRow)
    → is_transfer_of first a ≡ true
    → is_transfer_of second a ≡ true
    → is_transfer_of first b ≡ false
    → is_transfer_of second b ≡ true
    → a.attempt.event_index < b.attempt.event_index
    → (a.id == b.id) ≡ false
    → (pair_trades (b ∷ a ∷ []) (first ∷ second ∷ []) a.id ≡ some first)
      × (pair_trades (b ∷ a ∷ []) (first ∷ second ∷ []) b.id ≡ some second)
      × (pair_trades (b ∷ a ∷ []) (second ∷ first ∷ []) a.id ≡ some first)
      × (pair_trades (b ∷ a ∷ []) (second ∷ first ∷ []) b.id ≡ some second)
      × (pair_trades (a ∷ []) (first ∷ second ∷ []) a.id ≡ some second)
      × (pair_trades (a ∷ []) (second ∷ first ∷ []) a.id ≡ some first)
unfolding pair_trades
pair_trades-split_page a b first second fa sa fb sb before other = (
  rw (fa, sa, fb, sb) (ground (arith, before, other)),
  rw (fa, sa, fb, sb) (ground (arith, before, other)),
  rw (fa, sa, fb, sb) (ground (arith, before, other)),
  rw (fa, sa, fb, sb) (ground (arith, before, other)),
  rw (fa, sa) (ground arith),
  rw (fa, sa) (ground arith),
)

-- No transfer of the trade among the rows stands behind the best one.
abbrev NoneBehind : TradeRow → JournalRow → List JournalRow → Type 0
NoneBehind trade best rows =
    All
      (λ row. is_transfer_of trade row ≡ true → row.attempt.event_index ≤ best.attempt.event_index)
      rows

abbrev Candidate : TradeRow → Option JournalRow → Type 0
Candidate trade none = Unit
Candidate trade (some row) = is_transfer_of trade row ≡ true

abbrev NotBehind : JournalRow → Option JournalRow → Type 0
NotBehind best none = Unit
NotBehind best (some row) = row.attempt.event_index ≤ best.attempt.event_index

both_true : (a b : Bool) → (a && b) ≡ true → a ≡ true
both_true a b h = ground (arith, h)

better_stays :
    (t : Bool) (row : JournalRow) (start : Option JournalRow) (best : JournalRow)
    → (t && is_better row start) ≡ true
    → row.attempt.event_index ≤ best.attempt.event_index
    → NotBehind best start
better_stays t row none best e h = tt
better_stays t row (some other) best e h = ground (arith, e, h)

worse_behind :
    (t : Bool) (row : JournalRow) (start : Option JournalRow) (best : JournalRow)
    → (t && is_better row start) ≡ false
    → t ≡ true
    → NotBehind best start
    → row.attempt.event_index ≤ best.attempt.event_index
worse_behind t row none best e q h = ground (arith, e, q)
worse_behind t row (some other) best e q h = ground (arith, e, q, h)

best_of-NoneBehind :
    (trade : TradeRow) (rows : List JournalRow) (start : Option JournalRow) (best : JournalRow)
    → Candidate trade start
    → best_of trade rows start ≡ some best
    → (is_transfer_of trade best ≡ true) × NotBehind best start × NoneBehind trade best rows
best_of-NoneBehind trade [] none best c h = ground (arith, h)
best_of-NoneBehind trade [] (some row) best c h =
    rw (sym (some-injective row best h)) (c, omega arith, tt)
best_of-NoneBehind trade (row ∷ rows) start best c h =
    elim (Bool-cases (is_transfer_of trade row && is_better row start)) [
      | inl e ↦
          let step =
            subst (λ b. best_of trade rows (if b then some row else start) ≡ some best) e h in
          let (fits, after, rest) =
            best_of-NoneBehind trade rows (some row) best
              (both_true (is_transfer_of trade row) (is_better row start) e) step in
          (
            fits,
            better_stays (is_transfer_of trade row) row start best e after,
            ((λ _. after), rest),
          )
      | inr e ↦
          let step =
            subst (λ b. best_of trade rows (if b then some row else start) ≡ some best) e h in
          let (fits, after, rest) = best_of-NoneBehind trade rows start best c step in
          (
            fits,
            after,
            ((λ t. worse_behind (is_transfer_of trade row) row start best e t after), rest),
          )
    ]

-- A trade is paired with a transfer that has its transaction, mint, seller, buyer and amount and stands before
-- it, and with the nearest such transfer among the rows that are given.
best_of-nearest :
    (trade : TradeRow) (rows : List JournalRow) (best : JournalRow)
    → best_of trade rows none ≡ some best
    → (is_transfer_of trade best ≡ true) × NoneBehind trade best rows
best_of-nearest trade rows best h =
    let (fits, _, last) = best_of-NoneBehind trade rows none best tt h in (fits, last)

-- ===== src/Api/Journal/Pairing.antt =====
-- apps/api/src/index/reader.ts: pairTrades, which finds the transfer of each trade among the rows of a page.
pub mod Nearest
-- The conditions on one attempt but for the comparison with the best one so far. Two texts of which one is
-- null are not equal.
use cap_rail.Api.Journal.{JournalRow}
use cap_rail.Prelude.{
  Bool, List, Option, String, ℕ, [], false, if◌then◌else◌, ltb, none, some, true, ◌&&◌, ◌===◌, ◌==◌,
  ◌∷◌,
}
use cap_rail.Worker.Rows.{AttemptOutcome, TradeRow, allowed}

abbrev same_text : Option String → String → Bool
same_text none text = false
same_text (some found) text = found === text

abbrev same_amount : Option ℕ → ℕ → Bool
same_amount none amount = false
same_amount (some found) amount = found == amount

abbrev pub is_allowed : AttemptOutcome → Bool
is_allowed allowed = true
is_allowed _ = false

abbrev pub is_transfer_of : TradeRow → JournalRow → Bool
is_transfer_of trade row =
    let attempt = row.attempt in
    is_allowed attempt.outcome
    && same_text attempt.tx_signature trade.tx_signature
    && attempt.mint === trade.mint
    && same_text attempt.source_owner trade.seller
    && same_text attempt.dest_owner trade.buyer
    && same_amount attempt.amount trade.amount
    && ltb attempt.event_index trade.event_index

-- `best === undefined || attempt.eventIndex > best.eventIndex`
abbrev pub is_better : JournalRow → Option JournalRow → Bool
is_better row none = true
is_better row (some best) = ltb best.attempt.event_index row.attempt.event_index

-- The inner loop.
abbrev pub best_of : TradeRow → List JournalRow → Option JournalRow → Option JournalRow
best_of trade [] best = best
best_of trade (row ∷ rows) best =
    best_of trade rows (if is_transfer_of trade row && is_better row best then some row else best)

-- `paired.set(id, trade)`: the map is the function that looks an id up in it.
abbrev set_pair : ℕ → TradeRow → (ℕ → Option TradeRow) → ℕ → Option TradeRow
set_pair id trade paired other = if other == id then some trade else paired other

abbrev pub pair_one : Option JournalRow → TradeRow → (ℕ → Option TradeRow) → ℕ → Option TradeRow
pair_one none trade paired = paired
pair_one (some row) trade paired = set_pair row.id trade paired

abbrev pub pair_from : List JournalRow → List TradeRow → (ℕ → Option TradeRow) → ℕ → Option TradeRow
pair_from rows [] paired = paired
pair_from rows (trade ∷ trades) paired =
    pair_from rows trades (pair_one (best_of trade rows none) trade paired)

unfoldable pub pair_trades : List JournalRow → List TradeRow → ℕ → Option TradeRow
pair_trades rows trades = pair_from rows trades (λ id. none)

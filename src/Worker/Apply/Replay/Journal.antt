-- ===== src/Worker/Apply/Replay/Journal.antt =====
-- apps/worker/src/apply.ts: a transfer, an offer or a trade handled again changes nothing.
use cap_rail.Indexer.Events.{OfferAccepted, OfferCreated, TransferAllowed}
use cap_rail.Prelude.{List, String, ℕ, false, has, if◌then◌else◌, refl, some, true, ◌≡◌}
use cap_rail.Result.{ok}
use cap_rail.Table.Laws.{has-insert_absent}
use cap_rail.Worker.Act.{World, modify, pure, ◌>>◌}
use cap_rail.Worker.Act.Keeps.{Keeps, Safe, keeps_rules}
use cap_rail.Worker.Act.Leaves.{Is, Keeps-known, Leaves, Leaves-first, Leaves-rest, Leaves-runs}
use cap_rail.Worker.Apply.Lookup.{Chain, Ctx, Lesson}
use cap_rail.Worker.Apply.Lookup.Reads.{lookup_rules}
use cap_rail.Worker.Apply.Market.{
  apply_offer_accepted, apply_offer_created, offer_row, trade_change, trade_row,
}
use cap_rail.Worker.Apply.Transfer.{
  allowed_attempt, apply_transfer_allowed, move_balances, transfer_lesson,
}
use cap_rail.Worker.Apply.Transfer.Writes.{move_balances-Keeps}
use cap_rail.Worker.Rows.{AttemptRow, HoldingRow, Index, OfferRow, TradeRow}
use cap_rail.Worker.Store.{
  OfferChange, OfferRef, TokenRef, change_offer, create_offer, put_holding, record_attempt,
  record_trade, same_attempt, same_offer, same_trade, touch_offers,
}
use cap_rail.Worker.Store.Replay.{attempt_key, offer_key, trade_key}

-- The row of a key that is taken is not written.

module _ (x : Index) where
  attempt_taken :
      (row : AttemptRow)
      → has (same_attempt row) x.attempts ≡ true
      → Safe (Is x) (λ index. (record_attempt row index).1)
  unfolding record_attempt
  attempt_taken row h = record { run = λ index e. rw (e, h) refl }

  attempt_known :
      (row : AttemptRow)
      → has (same_attempt row) x.attempts ≡ true
      → (index : Index) → index ≡ x
      → (record_attempt row index).0 ≡ false
  unfolding record_attempt
  attempt_known row h index e = rw (e, h) refl

  trade_known :
      (row : TradeRow)
      → has (same_trade row) x.trades ≡ true
      → (index : Index) → index ≡ x
      → (record_trade row index).0 ≡ false
  unfolding record_trade
  trade_known row h index e = rw (e, h) refl

  offer_taken :
      (row : OfferRow)
      → has (same_offer row) x.offers ≡ true
      → Safe (Is x) (λ index. (create_offer row index).1)
  unfolding create_offer
  offer_taken row h = record { run = λ index e. rw (e, h) refl }

  trade_taken :
      (row : TradeRow)
      → has (same_trade row) x.trades ≡ true
      → Safe (Is x) (λ index. (record_trade row index).1)
  unfolding record_trade
  trade_taken row h = record { run = λ index e. rw (e, h) refl }

-- A key of the journal is there for good.
HasAttempt : AttemptRow → Index → Type 0
HasAttempt row index = has (same_attempt row) index.attempts ≡ true

put-HasAttempt :
    (row : AttemptRow) (holding : HoldingRow) → Safe (HasAttempt row) (put_holding holding)
unfolding HasAttempt put_holding
put-HasAttempt row holding = record { run = λ index h. h }

touch-HasAttempt :
    (row : AttemptRow) (mint : String) (wallets : List String) (slot : ℕ)
    → Safe (HasAttempt row) (touch_offers mint wallets slot)
unfolding HasAttempt touch_offers
touch-HasAttempt row mint wallets slot = record { run = λ index h. h }

record-HasAttempt :
    (row : AttemptRow) (signature : String) (index : Index)
    → row.tx_signature ≡ some signature
    → HasAttempt row (record_attempt row index).1
unfolding HasAttempt record_attempt
record-HasAttempt row signature index e =
    has-insert_absent (same_attempt row) row index.attempts (attempt_key row signature e)

-- After a transfer its key is in the journal.
transfer_journaled :
    (c : Chain) (ctx : Ctx) (event : TransferAllowed) (i : ℕ) (t : TokenRef)
    → Leaves (HasAttempt (allowed_attempt t ctx event i)) (apply_transfer_allowed c ctx event i)
unfolding apply_transfer_allowed HasAttempt
transfer_journaled c ctx event i t =
    let row = allowed_attempt t ctx event i in
    Leaves-rest _ _ λ token.
      Leaves-first _ _
        (Leaves-runs _
          λ index. record-HasAttempt (allowed_attempt token ctx event i) ctx.signature index refl)
        λ inserted.
          search (keeps_rules, move_balances-Keeps, put-HasAttempt, touch-HasAttempt) depth 9

-- A transfer that was handled is not handled again.
pub transfer_allowed-replay :
    (c : Chain) (ctx : Ctx) (event : TransferAllowed) (i : ℕ) (w : World) {w' : World}
    {lesson : Lesson}
    → apply_transfer_allowed c ctx event i w ≡ (ok lesson, w')
    → Keeps (Is w'.index) (apply_transfer_allowed c ctx event i)
unfolding apply_transfer_allowed HasAttempt record_attempt
transfer_allowed-replay c ctx event i w {w'} e =
    let taken = λ (t : TokenRef). (transfer_journaled c ctx event i t).at w e in
    let again = λ (t : TokenRef).
      Keeps-known (record_attempt (allowed_attempt t ctx event i))
        (λ inserted.
          (if inserted then move_balances c t ctx event else pure tt)
          >> pure (transfer_lesson event))
        false (attempt_known w'.index (allowed_attempt t ctx event i) (taken t))
        (attempt_taken w'.index (allowed_attempt t ctx event i) (taken t)) (search keeps_rules) in
    search (lookup_rules, again)

HasOffer : OfferRow → Index → Type 0
HasOffer row index = has (same_offer row) index.offers ≡ true

create-HasOffer : (row : OfferRow) (index : Index) → HasOffer row (create_offer row index).1
unfolding HasOffer create_offer
create-HasOffer row index = has-insert_absent (same_offer row) row index.offers (offer_key row)

offer_kept :
    (ctx : Ctx) (event : OfferCreated) (t : TokenRef)
    → Leaves (HasOffer (offer_row t.company_id ctx event)) (apply_offer_created ctx event)
unfolding apply_offer_created HasOffer
offer_kept ctx event t = Leaves-rest _ _ λ token.
    Leaves-first _ _
      (Leaves-runs _ λ index. create-HasOffer (offer_row token.company_id ctx event) index)
      λ inserted. search keeps_rules

pub offer_created-replay :
    (ctx : Ctx) (event : OfferCreated) (w : World) {w' : World}
    → apply_offer_created ctx event w ≡ (ok tt, w')
    → Keeps (Is w'.index) (apply_offer_created ctx event)
unfolding apply_offer_created HasOffer
offer_created-replay ctx event w {w'} e =
    let settled = λ (t : TokenRef).
      offer_taken w'.index (offer_row t.company_id ctx event) ((offer_kept ctx event t).at w e) in
    search (lookup_rules, settled)

HasTrade : TradeRow → Index → Type 0
HasTrade row index = has (same_trade row) index.trades ≡ true

change-HasTrade :
    (row : TradeRow) (offer : String) (change : OfferChange)
    → Safe (HasTrade row) (change_offer offer change)
unfolding HasTrade change_offer
change-HasTrade row offer change = record { run = λ index h. h }

record-HasTrade : (row : TradeRow) (index : Index) → HasTrade row (record_trade row index).1
unfolding HasTrade record_trade
record-HasTrade row index = has-insert_absent (same_trade row) row index.trades (trade_key row)

trade_kept :
    (ctx : Ctx) (event : OfferAccepted) (i : ℕ) (o : OfferRef)
    → Leaves (HasTrade (trade_row o.company_id ctx event i)) (apply_offer_accepted ctx event i)
unfolding apply_offer_accepted HasTrade
trade_kept ctx event i o = Leaves-rest _ _ λ offer.
    Leaves-first _ _
      (Leaves-runs _ λ index. record-HasTrade (trade_row offer.company_id ctx event i) index)
      λ inserted. search (keeps_rules, change-HasTrade)

pub offer_accepted-replay :
    (ctx : Ctx) (event : OfferAccepted) (i : ℕ) (w : World) {w' : World}
    → apply_offer_accepted ctx event i w ≡ (ok tt, w')
    → Keeps (Is w'.index) (apply_offer_accepted ctx event i)
unfolding apply_offer_accepted HasTrade record_trade
offer_accepted-replay ctx event i w {w'} e =
    let taken = λ (o : OfferRef). (trade_kept ctx event i o).at w e in
    let again = λ (o : OfferRef).
      Keeps-known (record_trade (trade_row o.company_id ctx event i))
        (λ inserted.
          if inserted
          then modify (change_offer event.offer (trade_change o ctx event))
          else pure tt)
        false (trade_known w'.index (trade_row o.company_id ctx event i) (taken o))
        (trade_taken w'.index (trade_row o.company_id ctx event i) (taken o))
        (search keeps_rules) in
    search (lookup_rules, again)

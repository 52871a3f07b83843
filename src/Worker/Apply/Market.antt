-- ===== src/Worker/Apply/Market.antt =====
-- apps/worker/src/apply.ts: offers and trades.
use cap_rail.Indexer.Events.{OfferAccepted, OfferCancelled, OfferCreated}
use cap_rail.Prelude.{Option, ℕ, if◌then◌else◌, ltb, none, or_else, some, ◌-◌, ◌==◌}
use cap_rail.Prelude.Int.{ℤ, pos}
use cap_rail.Shared.Market.{OfferStaleReason, balance_short, cancelled, filled, open_}
use cap_rail.Worker.Act.{Act, modify, pure, runs, ◌>>=◌}
use cap_rail.Worker.Apply.Lookup.{Ctx, known_offer_of, known_token_of, unix}
use cap_rail.Worker.Rows.{OfferRow, TradeRow}
use cap_rail.Worker.Store.{Holding, OfferChange, OfferRef, TokenRef}
use cap_rail.Worker.Store

-- `event.rofrUntil === 0 ? null : unix(event.rofrUntil)`
abbrev rofr_instant : ℤ → Option ℤ
rofr_instant (pos ℕ.zero) = none
rofr_instant seconds = some (unix seconds)

abbrev pub offer_row : ℕ → Ctx → OfferCreated → OfferRow
offer_row company_id ctx event = record {
  offer = event.offer;
  mint = event.mint;
  company_id = company_id;
  seller = event.seller;
  offer_id = event.offer_id;
  amount = event.amount;
  remaining = event.amount;
  price_per_unit = event.price_per_unit;
  payment_mint = event.payment_mint;
  rofr_until = rofr_instant event.rofr_until;
  status = open_;
  created_at = unix event.created_at;
  created_signature = ctx.signature;
  created_slot = ctx.slot;
  closed_at = none;
  delegation_revoked = none;
  updated_at = ctx.block_time;
  touched_slot = ctx.slot;
  available = some event.amount;
  stale_reason = none;
  checked_at = none;
  checked_slot = some ctx.slot;
}

unfoldable pub apply_offer_created : Ctx → OfferCreated → Act (Unit {0})
apply_offer_created ctx event = do
  token ← known_token_of event.mint
  _ ← runs (Store.create_offer (offer_row token.company_id ctx event))
  pure tt

pub record Executability : Type 0 where
  pub available : Option ℕ
  pub stale_reason : Option OfferStaleReason

-- What is left of the delivery when some of it is known.
unfoldable pub left_after : ℕ → Option OfferStaleReason → ℕ → ℕ → Executability
left_after available reason amount remaining =
    let left = if ltb amount available then available - amount else 0 in
    let now_available = if ltb left remaining then left else remaining in
    if now_available == remaining
    then record { available = some now_available; stale_reason = none }
    else record {
      available = some now_available;
      stale_reason = some (or_else reason balance_short);
    }

unfoldable pub available_after : OfferRef → OfferAccepted → Executability
unfolding left_after
available_after offer event =
    if event.remaining == 0
    then record { available = none; stale_reason = none }
    else elim offer.available [
      | none ↦ record { available = none; stale_reason = none }
      | some available ↦ left_after available offer.stale_reason event.amount event.remaining
    ]

abbrev pub trade_row : ℕ → Ctx → OfferAccepted → ℕ → TradeRow
trade_row company_id ctx event event_index = record {
  tx_signature = ctx.signature;
  event_index = event_index;
  offer = event.offer;
  mint = event.mint;
  company_id = company_id;
  seller = event.seller;
  buyer = event.buyer;
  offer_id = event.offer_id;
  amount = event.amount;
  price_per_unit = event.price_per_unit;
  payment = event.payment;
  fee = event.fee;
  payment_mint = event.payment_mint;
  remaining = event.remaining;
  accepted_at = unix event.accepted_at;
  slot = ctx.slot;
  block_time = ctx.block_time;
}

abbrev pub trade_change : OfferRef → Ctx → OfferAccepted → OfferChange
trade_change offer ctx event =
    let left = available_after offer event in
    record {
      status = if event.remaining == 0 then filled else open_;
      remaining = event.remaining;
      available = left.available;
      stale_reason = left.stale_reason;
      closed_at = if event.remaining == 0 then some (unix event.accepted_at) else none;
      delegation_revoked = none;
      slot = ctx.slot;
      updated_at = ctx.block_time;
    }

unfoldable pub apply_offer_accepted : Ctx → OfferAccepted → ℕ → Act (Unit {0})
apply_offer_accepted ctx event event_index = do
  offer ← known_offer_of event.offer
  inserted ← runs (Store.record_trade (trade_row offer.company_id ctx event event_index))
  if inserted
      then modify (Store.change_offer event.offer (trade_change offer ctx event))
      else pure tt

abbrev pub cancel_change : Ctx → OfferCancelled → OfferChange
cancel_change ctx event = record {
  status = cancelled;
  remaining = event.remaining;
  available = none;
  stale_reason = none;
  closed_at = some (unix event.cancelled_at);
  delegation_revoked = some event.delegation_revoked;
  slot = ctx.slot;
  updated_at = ctx.block_time;
}

unfoldable pub apply_offer_cancelled : Ctx → OfferCancelled → Act (Unit {0})
apply_offer_cancelled ctx event = do
  _ ← known_offer_of event.offer
  modify (Store.change_offer event.offer (cancel_change ctx event))

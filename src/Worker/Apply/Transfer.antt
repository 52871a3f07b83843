-- ===== src/Worker/Apply/Transfer.antt =====
-- apps/worker/src/apply.ts: `applyTransferAllowed` and the two sides of a transfer.
pub mod Conservation
pub mod Writes
use cap_rail.Indexer.Events.{TransferAllowed}
use cap_rail.Prelude.{Option, ℕ, [], if◌then◌else◌, leb, none, some, ◌+◌, ◌-◌, ◌∷◌}
use cap_rail.Result.{no_balance}
use cap_rail.Worker.Act.{Act, gets, lift, modify, or_fail, pure, reconciled, runs, say, ◌>>=◌, ◌>>◌}
use cap_rail.Worker.Apply.Lookup.{
  Balance, Chain, Ctx, Lesson, covered, known_token_of, remember_owner,
}
use cap_rail.Worker.Rows.{AttemptRow, HoldingRow, allowed, chain}
use cap_rail.Worker.Store.{Holding, OfferChange, OfferRef, TokenRef}
use cap_rail.Worker.Store

-- The source after a transfer that the index can account for by itself.
abbrev pub moved_out : TokenRef → Ctx → TransferAllowed → Holding → HoldingRow
moved_out token ctx event known = record {
  mint = event.mint;
  wallet = event.source_owner;
  company_id = token.company_id;
  amount = known.amount - event.amount;
  distributed = known.distributed;
  last_signature = ctx.signature;
  last_slot = ctx.slot;
  updated_at = ctx.block_time;
  verified_at = none;
}

-- The source as the chain has it.
abbrev read_back : Chain → TokenRef → Ctx → TransferAllowed → ℕ → Balance → HoldingRow
read_back c token ctx event distributed balance = record {
  mint = event.mint;
  wallet = event.source_owner;
  company_id = token.company_id;
  amount = balance.amount;
  distributed = distributed;
  last_signature = ctx.signature;
  last_slot = balance.slot;
  updated_at = ctx.block_time;
  verified_at = some c.now;
}

reconciled_source : Chain → TokenRef → Ctx → TransferAllowed → ℕ → Act (Option HoldingRow)
reconciled_source c token ctx event distributed = do
  read ← lift (c.token_account_balance event.source)
  balance ← or_fail read (no_balance event.source)
  say (reconciled ctx.signature)
  pure (some (read_back c token ctx event distributed balance))

source_from : Chain → TokenRef → Ctx → TransferAllowed → Option Holding → Act (Option HoldingRow)
unfolding reconciled_source
source_from c token ctx event none = reconciled_source c token ctx event 0
source_from c token ctx event (some known) =
    if leb event.amount known.amount
    then pure (some (moved_out token ctx event known))
    else reconciled_source c token ctx event known.distributed

unfoldable pub source_holding : Chain → TokenRef → Ctx → TransferAllowed → Act (Option HoldingRow)
unfolding covered source_from
source_holding c token ctx event = do
  known ← gets (Store.holding_of event.mint event.source_owner)
  if covered known ctx then pure none else source_from c token ctx event known

-- `known?.amount ?? 0n`
abbrev pub amount_of : Option Holding → ℕ
amount_of none = 0
amount_of (some known) = known.amount

abbrev pub distributed_of : Option Holding → ℕ
distributed_of none = 0
distributed_of (some known) = known.distributed

abbrev pub moved_in : TokenRef → Ctx → TransferAllowed → Option Holding → HoldingRow
moved_in token ctx event known = record {
  mint = event.mint;
  wallet = event.destination_owner;
  company_id = token.company_id;
  amount = amount_of known + event.amount;
  distributed = distributed_of known + (if event.from_treasury then event.amount else 0);
  last_signature = ctx.signature;
  last_slot = ctx.slot;
  updated_at = ctx.block_time;
  verified_at = none;
}

unfoldable pub destination_holding : TokenRef → Ctx → TransferAllowed → Act (Option HoldingRow)
unfolding covered
destination_holding token ctx event = do
  known ← gets (Store.holding_of event.mint event.destination_owner)
  if covered known ctx then pure none else pure (some (moved_in token ctx event known))

abbrev pub put_if_some : Option HoldingRow → Act (Unit {0})
put_if_some none = pure tt
put_if_some (some row) = modify (Store.put_holding row)

abbrev pub allowed_attempt : TokenRef → Ctx → TransferAllowed → ℕ → AttemptRow
allowed_attempt token ctx event event_index = record {
  mint = event.mint;
  company_id = token.company_id;
  source_owner = some event.source_owner;
  dest_owner = some event.destination_owner;
  amount = some event.amount;
  outcome = allowed;
  reason_code = none;
  origin = chain;
  from_treasury = event.from_treasury;
  policy_version = some event.policy_version;
  tx_signature = some ctx.signature;
  event_index = event_index;
  slot = some ctx.slot;
  block_time = ctx.block_time;
  logs = ctx.logs;
  reported_by = none;
}

abbrev pub transfer_lesson : TransferAllowed → Lesson
transfer_lesson event memory =
    remember_owner event.destination event.destination_owner
      (remember_owner event.source event.source_owner memory)

-- Both sides in turn, then the offers that either owner may have open.
unfoldable pub move_balances : Chain → TokenRef → Ctx → TransferAllowed → Act (Unit {0})
move_balances c token ctx event = do
  source ← source_holding c token ctx event
  put_if_some source
  destination ← destination_holding token ctx event
  put_if_some destination
  modify
      (Store.touch_offers event.mint (event.source_owner ∷ event.destination_owner ∷ []) ctx.slot)

unfoldable pub apply_transfer_allowed : Chain → Ctx → TransferAllowed → ℕ → Act Lesson
apply_transfer_allowed c ctx event event_index = do
  token ← known_token_of event.mint
  inserted ← runs (Store.record_attempt (allowed_attempt token ctx event event_index))
  if inserted then move_balances c token ctx event else pure tt
  pure (transfer_lesson event)

-- ===== src/Worker/Apply/Handler.antt =====
-- apps/worker/src/apply.ts: refusals, the dispatch over the events, and the handler.
pub mod Atomic
use cap_rail.Indexer.Events.{
  IndexEvent, company_created, investor_status_set, offer_accepted, offer_cancelled, offer_created,
  policy_set, roles_set, token_created, transfer_allowed,
}
use cap_rail.Indexer.Parse.{
  Failure, IndexedEvent, ParsedTransaction, ProgramTransaction, TransferInstruction,
  TransferRejected, parse_transaction,
}
use cap_rail.Prelude.{
  Bool, List, Option, String, ℕ, [], false, if◌then◌else◌, is_none, none, or_else, some, take_last,
  ◌===◌, ◌∷◌,
}
use cap_rail.Prelude.Int.{ℤ}
use cap_rail.Result.{err, no_block_time, not_indexed_yet, not_served, ok}
use cap_rail.Shared.Reasons.{is_rejection_reason}
use cap_rail.Worker.Act.{
  Act, learn, lift, no_instruction, or_fail, program_refused, pure, runs, say, throw, unknown_mint,
  ◌>>=◌, ◌>>◌,
}
use cap_rail.Worker.Apply.Lookup.{
  Chain, Ctx, Lesson, account_owner, journal_log_lines, needs_fetch, token_of, unix,
}
use cap_rail.Worker.Apply.Market.{apply_offer_accepted, apply_offer_cancelled, apply_offer_created}
use cap_rail.Worker.Apply.Mirror.{
  apply_company_created, apply_investor_status_set, apply_policy_set, apply_roles_set,
  apply_token_created,
}
use cap_rail.Worker.Apply.Transfer.{apply_transfer_allowed}
use cap_rail.Worker.Rows.{AttemptRow, chain, rejected}
use cap_rail.Worker.Store.{Holding, OfferChange, OfferRef, TokenRef}
use cap_rail.Worker.Store

abbrev rejected_attempt :
    TokenRef
    → Ctx
    → TransferRejected
    → TransferInstruction
    → Option String
    → Option String
    → AttemptRow
rejected_attempt token ctx rejection transfer source_owner dest_owner = record {
  mint = transfer.mint;
  company_id = token.company_id;
  source_owner = some (or_else source_owner transfer.authority);
  dest_owner = dest_owner;
  amount = some transfer.amount;
  outcome = rejected;
  reason_code = some rejection.reason;
  origin = chain;
  from_treasury = transfer.source === token.treasury;
  policy_version = none;
  tx_signature = some ctx.signature;
  event_index = 0;
  slot = some ctx.slot;
  block_time = ctx.block_time;
  logs = ctx.logs;
  reported_by = none;
}

unfoldable pub journal_refusal :
    Chain → Ctx → TransferRejected → TransferInstruction → Option TokenRef → Act (Unit {0})
journal_refusal c ctx rejection transfer none =
    if is_rejection_reason rejection.reason
    then throw (not_indexed_yet "mint" transfer.mint)
    else say (unknown_mint ctx.signature)
journal_refusal c ctx rejection transfer (some token) = do
  source_owner ← account_owner c transfer.mint transfer.source
  dest_owner ← account_owner c transfer.mint transfer.destination
  _ ←
      runs (
        Store.record_attempt
          (rejected_attempt token ctx rejection transfer source_owner dest_owner))
  pure tt

unfoldable pub apply_refused :
    Chain → Ctx → TransferRejected → Option TransferInstruction → Act (Unit {0})
unfolding journal_refusal
apply_refused c ctx rejection none = say (no_instruction ctx.signature)
apply_refused c ctx rejection (some transfer) = do
  token ← token_of transfer.mint
  journal_refusal c ctx rejection transfer token

unfoldable pub apply_rejection : Chain → Ctx → TransferRejected → Act (Unit {0})
unfolding apply_refused
apply_rejection c ctx rejection = apply_refused c ctx rejection rejection.transfer

-- An event that teaches nothing.
abbrev pub without_lesson : Act (Unit {0}) → Act Lesson
without_lesson m = m >>= λ _. pure (λ memory. memory)

unfoldable pub apply_event : Chain → Ctx → IndexEvent → ℕ → Act Lesson
apply_event c ctx (company_created event) i = apply_company_created ctx event
apply_event c ctx (token_created event) i = apply_token_created ctx event
apply_event c ctx (policy_set event) i = without_lesson (apply_policy_set ctx event)
apply_event c ctx (roles_set event) i = without_lesson (apply_roles_set event)
apply_event c ctx (investor_status_set event) i =
    without_lesson (apply_investor_status_set ctx event i)
apply_event c ctx (transfer_allowed event) i = apply_transfer_allowed c ctx event i
apply_event c ctx (offer_created event) i = without_lesson (apply_offer_created ctx event)
apply_event c ctx (offer_accepted event) i = without_lesson (apply_offer_accepted ctx event i)
apply_event c ctx (offer_cancelled event) i = without_lesson (apply_offer_cancelled ctx event)

-- The events in order; the lessons are kept as one, in the order in which they were taught.
unfoldable pub apply_events : Chain → Ctx → List IndexedEvent → Act Lesson
apply_events c ctx [] = pure (λ memory. memory)
apply_events c ctx (indexed ∷ rest) = do
  lesson ← apply_event c ctx indexed.event indexed.event_index
  later ← apply_events c ctx rest
  pure (λ memory. later (lesson memory))

abbrev pub reject_if_some : Chain → Ctx → Option TransferRejected → Act (Unit {0})
reject_if_some c ctx none = pure tt
reject_if_some c ctx (some rejection) = apply_rejection c ctx rejection

-- The body of the database transaction.
unfoldable pub writes : Chain → Ctx → ParsedTransaction → Act Lesson
unfolding apply_events
writes c ctx parsed = do
  lesson ← apply_events c ctx parsed.events
  reject_if_some c ctx parsed.rejection
  pure lesson

-- `store.write`: the body runs in one transaction of the database.
unfoldable pub write : Chain → Act Lesson → Act Lesson
write c body = c.in_transaction body

unfoldable pub fetched : String → Option ProgramTransaction → Act ProgramTransaction
fetched signature none = throw (not_served signature)
fetched signature (some tx) = pure tx

unfoldable pub complete : Chain → ProgramTransaction → Act ProgramTransaction
unfolding needs_fetch fetched
complete c tx =
    if needs_fetch tx then lift (c.transaction tx.signature) >>= fetched tx.signature else pure tx

abbrev log_failure : ProgramTransaction → Option Failure → Act (Unit {0})
log_failure tx none = pure tt
log_failure tx (some _) = say (program_refused tx.signature)

is_nothing : ParsedTransaction → Bool
is_nothing parsed = elim parsed.events [ [] ↦ is_none parsed.rejection | _ ∷ _ ↦ false ]

abbrev pub context : ProgramTransaction → ℤ → Ctx
context tx block_time = record {
  signature = tx.signature;
  slot = tx.slot;
  block_time = unix block_time;
  logs = take_last journal_log_lines tx.logs;
}

unfoldable pub commit : Chain → ProgramTransaction → ParsedTransaction → Act (Unit {0})
commit c tx parsed = do
  block_time ← or_fail tx.block_time (no_block_time tx.signature)
  lesson ← write c (writes c (context tx block_time) parsed)
  learn lesson

-- What `createApplier` returns.
unfoldable pub handle : Chain → ProgramTransaction → Act (Unit {0})
unfolding is_nothing
handle c raw = do
  tx ← complete c raw
  parsed ← lift (parse_transaction c.coder tx)
  log_failure tx parsed.failure
  if is_nothing parsed then pure tt else commit c tx parsed

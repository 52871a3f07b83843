-- ===== src/Worker/Apply/Offers.antt =====
-- apps/worker/src/apply.ts and stale.ts: which statements a handler runs on the table of offers.
pub mod Sound
pub mod Final
use cap_rail.Indexer.Events.{
  IndexEvent, company_created, investor_status_set, offer_accepted, offer_cancelled, offer_created,
  policy_set, roles_set, token_created, transfer_allowed,
}
use cap_rail.Indexer.Parse.{
  IndexedEvent, ParsedTransaction, ProgramTransaction, TransferInstruction, TransferRejected,
}
use cap_rail.Prelude.{All, List, Option, String, ℕ, [], none, refl, some, ◌∷◌}
use cap_rail.Prelude.Int.{ℤ}
use cap_rail.Worker.Act.Keeps.{
  Keeps, Keeps-bind, Keeps-learn, Keeps-or_fail, Keeps-pure, Safe, keeps_rules,
}
use cap_rail.Worker.Apply.Handler.{
  apply_event, apply_events, apply_refused, apply_rejection, commit, context, journal_refusal,
  reject_if_some, writes,
}
use cap_rail.Worker.Apply.Handler.Atomic.{Transactional, write-Keeps}
use cap_rail.Worker.Apply.Lookup.{Chain, Ctx}
use cap_rail.Worker.Apply.Lookup.Reads.{lookup_rules}
use cap_rail.Worker.Apply.Market.{
  apply_offer_accepted, apply_offer_cancelled, apply_offer_created, cancel_change, offer_row,
  trade_change,
}
use cap_rail.Worker.Apply.Mirror.{
  apply_company_created, apply_investor_status_set, apply_policy_set, apply_roles_set,
  apply_token_created,
}
use cap_rail.Worker.Apply.Transfer.{apply_transfer_allowed}
use cap_rail.Worker.Apply.Transfer.Writes.{move_balances-Keeps}
use cap_rail.Worker.Rows.{
  AttemptRow, CompanyRow, HoldingRow, Index, InvestorRow, InvestorStatusEventRow, OfferRow,
  PolicyVersionRow, TokenRow, TradeRow,
}
use cap_rail.Worker.Store.{
  OfferRef, Roles, TokenRef, change_offer, create_company, create_offer, create_token, put_holding,
  record_attempt, record_trade, set_investor_status, set_policy, set_roles, touch_offers,
}

-- An invariant of the offers alone.
abbrev pub Over : (List OfferRow → Type 0) → Index → Type 0
Over Q index = Q index.offers

-- What an event may do to the offers keeps `Q`.
unfoldable pub Allows : (List OfferRow → Type 0) → Ctx → IndexEvent → Type 0
Allows Q ctx (offer_created event) =
    (company_id : ℕ)
    → Safe (Over Q) (λ index. (create_offer (offer_row company_id ctx event) index).1)
Allows Q ctx (offer_accepted event) =
    (offer : OfferRef) → Safe (Over Q) (change_offer event.offer (trade_change offer ctx event))
Allows Q ctx (offer_cancelled event) =
    Safe (Over Q) (change_offer event.offer (cancel_change ctx event))
Allows Q ctx _ = Unit

-- The other tables.
module _ (Q : List OfferRow → Type 0) where
  create_company-Safe : (row : CompanyRow) → Safe (Over Q) (create_company row)
  unfolding create_company
  create_company-Safe row = record { run = λ index h. h }

  create_token-Safe :
      (token : TokenRow) (policy : PolicyVersionRow) (treasury : HoldingRow)
      → Safe (Over Q) (create_token token policy treasury)
  unfolding create_token
  create_token-Safe token policy treasury = record { run = λ index h. h }

  set_policy-Safe : (policy : PolicyVersionRow) (at : ℤ) → Safe (Over Q) (set_policy policy at)
  unfolding set_policy
  set_policy-Safe policy at = record { run = λ index h. h }

  set_roles-Safe : (id : ℕ) (roles : Roles) → Safe (Over Q) (set_roles id roles)
  unfolding set_roles
  set_roles-Safe id roles = record { run = λ index h. h }

  set_investor_status-Safe :
      (event : InvestorStatusEventRow) (investor : InvestorRow)
      → Safe (Over Q) (set_investor_status event investor)
  unfolding set_investor_status
  set_investor_status-Safe event investor = record { run = λ index h. h }

  record_attempt-Safe : (row : AttemptRow) → Safe (Over Q) (λ index. (record_attempt row index).1)
  unfolding record_attempt
  record_attempt-Safe row = record { run = λ index h. h }

  put_holding-Safe : (row : HoldingRow) → Safe (Over Q) (put_holding row)
  unfolding put_holding
  put_holding-Safe row = record { run = λ index h. h }

  record_trade-Safe : (row : TradeRow) → Safe (Over Q) (λ index. (record_trade row index).1)
  unfolding record_trade
  record_trade-Safe row = record { run = λ index h. h }

  ruleset table_rules = (
    lookup_rules, create_company-Safe, create_token-Safe, set_policy-Safe, set_roles-Safe,
    set_investor_status-Safe, record_attempt-Safe, put_holding-Safe, record_trade-Safe,
    move_balances-Keeps,
  )

  module _ (c : Chain) (ctx : Ctx)
      (touch : (mint : String) (wallets : List String) (slot : ℕ)
        → Safe (Over Q) (touch_offers mint wallets slot)) where
    pub apply_event-Over :
        (event : IndexEvent) (i : ℕ)
        → Allows Q ctx event
        → Keeps (Over Q) (apply_event c ctx event i)
    unfolding apply_event Allows apply_company_created apply_token_created apply_policy_set
        apply_roles_set apply_investor_status_set apply_transfer_allowed apply_offer_created
        apply_offer_accepted apply_offer_cancelled
    apply_event-Over (company_created event) i a = search table_rules
    apply_event-Over (token_created event) i a = search table_rules
    apply_event-Over (policy_set event) i a = search table_rules
    apply_event-Over (roles_set event) i a = search table_rules
    apply_event-Over (investor_status_set event) i a = search table_rules
    apply_event-Over (transfer_allowed event) i a = search (table_rules, touch) depth 9
    apply_event-Over (offer_created event) i a = search (table_rules, a)
    apply_event-Over (offer_accepted event) i a = search (table_rules, a) depth 9
    apply_event-Over (offer_cancelled event) i a = search (table_rules, a)

    pub apply_events-Over :
        (events : List IndexedEvent)
        → All (λ (indexed : IndexedEvent). Allows Q ctx indexed.event) events
        → Keeps (Over Q) (apply_events c ctx events)
    unfolding apply_events
    apply_events-Over [] a = search keeps_rules
    apply_events-Over (indexed ∷ rest) a =
        Keeps-bind _ _ (apply_event-Over indexed.event indexed.event_index a.0)
          λ lesson. Keeps-bind _ _ (apply_events-Over rest a.1) λ later. Keeps-pure _

    journal_refusal-Over :
        (rejection : TransferRejected) (transfer : TransferInstruction) (token : Option TokenRef)
        → Keeps (Over Q) (journal_refusal c ctx rejection transfer token)
    unfolding journal_refusal
    journal_refusal-Over rejection transfer none = search table_rules
    journal_refusal-Over rejection transfer (some token) = search table_rules depth 9

    apply_refused-Over :
        (rejection : TransferRejected) (transfer : Option TransferInstruction)
        → Keeps (Over Q) (apply_refused c ctx rejection transfer)
    unfolding apply_refused
    apply_refused-Over rejection none = search table_rules
    apply_refused-Over rejection (some transfer) = search (table_rules, journal_refusal-Over)

    reject-Over :
        (rejection : Option TransferRejected) → Keeps (Over Q) (reject_if_some c ctx rejection)
    unfolding apply_rejection
    reject-Over none = search table_rules
    reject-Over (some rejection) = search (table_rules, apply_refused-Over)

    writes-Over :
        (parsed : ParsedTransaction)
        → All (λ (indexed : IndexedEvent). Allows Q ctx indexed.event) parsed.events
        → Keeps (Over Q) (writes c ctx parsed)
    unfolding writes
    writes-Over parsed a =
        Keeps-bind _ _ (apply_events-Over parsed.events a)
          λ lesson. Keeps-bind _ _ (reject-Over parsed.rejection) λ _. Keeps-pure _

  -- What every statement of a transaction keeps, its commit keeps.
  pub commit-Over :
      (c : Chain) (tx : ProgramTransaction) (parsed : ParsedTransaction)
      → Transactional c
      → ((mint : String) (wallets : List String) (slot : ℕ)
          → Safe (Over Q) (touch_offers mint wallets slot))
      → ((ctx : Ctx) → All (λ (indexed : IndexedEvent). Allows Q ctx indexed.event) parsed.events)
      → Keeps (Over Q) (commit c tx parsed)
  unfolding commit
  commit-Over c tx parsed transactional touch a = Keeps-bind _ _ (Keeps-or_fail _ _) λ block_time.
      Keeps-bind _ _
        (write-Keeps c transactional _
          (writes-Over c (context tx block_time) touch parsed (a (context tx block_time))))
        λ lesson. Keeps-learn lesson

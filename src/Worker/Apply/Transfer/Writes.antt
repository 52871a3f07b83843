-- ===== src/Worker/Apply/Transfer/Writes.antt =====
-- What the statements of a transfer keep, the transfer keeps.
use cap_rail.Indexer.Events.{TransferAllowed}
use cap_rail.Prelude.{List, Option, String, ℕ, none, some}
use cap_rail.Worker.Act.Keeps.{Keeps, Safe, keeps_rules}
use cap_rail.Worker.Apply.Lookup.{Chain, Ctx}
use cap_rail.Worker.Apply.Transfer.{
  destination_holding, move_balances, put_if_some, reconciled_source, source_from, source_holding,
}
use cap_rail.Worker.Rows.{HoldingRow, Index}
use cap_rail.Worker.Store.{Holding, TokenRef, put_holding, touch_offers}

module _ {P : Index → Type 0} where
  reconciled_source-Keeps :
      (c : Chain) (token : TokenRef) (ctx : Ctx) (event : TransferAllowed) (n : ℕ)
      → Keeps P (reconciled_source c token ctx event n)
  unfolding reconciled_source
  reconciled_source-Keeps c token ctx event n = search keeps_rules

  source_from-Keeps :
      (c : Chain) (token : TokenRef) (ctx : Ctx) (event : TransferAllowed) (known : Option Holding)
      → Keeps P (source_from c token ctx event known)
  unfolding source_from
  source_from-Keeps c token ctx event none = search (keeps_rules, reconciled_source-Keeps)
  source_from-Keeps c token ctx event (some known) = search (keeps_rules, reconciled_source-Keeps)

  source_holding-Keeps :
      (c : Chain) (token : TokenRef) (ctx : Ctx) (event : TransferAllowed)
      → Keeps P (source_holding c token ctx event)
  unfolding source_holding
  source_holding-Keeps c token ctx event = search (keeps_rules, source_from-Keeps)

  destination_holding-Keeps :
      (token : TokenRef) (ctx : Ctx) (event : TransferAllowed)
      → Keeps P (destination_holding token ctx event)
  unfolding destination_holding
  destination_holding-Keeps token ctx event = search keeps_rules

  put_if_some-Keeps :
      ((row : HoldingRow) → Safe P (put_holding row))
      → (row : Option HoldingRow) → Keeps P (put_if_some row)
  put_if_some-Keeps safe none = search keeps_rules
  put_if_some-Keeps safe (some row) = search (keeps_rules, safe)

  pub move_balances-Keeps :
      (c : Chain) (token : TokenRef) (ctx : Ctx) (event : TransferAllowed)
      → ((row : HoldingRow) → Safe P (put_holding row))
      → ((mint : String) (wallets : List String) (slot : ℕ)
          → Safe P (touch_offers mint wallets slot))
      → Keeps P (move_balances c token ctx event)
  unfolding move_balances
  move_balances-Keeps c token ctx event put touch =
      search
        (
          keeps_rules, source_holding-Keeps, destination_holding-Keeps, put_if_some-Keeps, put,
          touch,
        )
        depth 9

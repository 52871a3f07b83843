-- ===== src/Worker/Apply/Transfer/Conservation.antt =====
-- What a transfer does to the holdings when the index can account for it.
use cap_rail.Indexer.Events.{TransferAllowed}
use cap_rail.Prelude.{
  Bool-cases, List, Option, String, ℕ, [], ap, arith, eq_iff, false, find, has, if◌then◌else◌, inl,
  inr, leb, none, refl, some, sym, true, ◌&&◌, ◌++◌, ◌+◌, ◌-◌, ◌===◌, ◌∙◌, ◌∷◌, ◌≡◌, ◌≢◌, ◌≤◌,
}
use cap_rail.Result.{Result, ok}
use cap_rail.Table.{Unique}
use cap_rail.Worker.Act.{World, ◌>>=◌}
use cap_rail.Worker.Apply.Lookup.{Chain, Ctx, Lesson, covered, known_token_of}
use cap_rail.Worker.Apply.Lookup.Reads.{known_token_of-Keeps}
use cap_rail.Worker.Apply.Transfer.{
  allowed_attempt, amount_of, apply_transfer_allowed, destination_holding, distributed_of,
  move_balances, moved_in, moved_out, source_from, source_holding, transfer_lesson,
}
use cap_rail.Worker.Rows.{HoldingRow, Index}
use cap_rail.Worker.Store.{
  Holding, TokenRef, holding, holding_of, put_holding, read, record_attempt, same_attempt,
  same_holder, touch_offers,
}
use cap_rail.Worker.Store.Holdings.{
  Unique-upsert, amount_in, counted, holding_of-put_ne, holding_of-put_self, supply, supply-upsert,
}

amount_of-read : (found : Option HoldingRow) → amount_of (read found) ≡ amount_in found
amount_of-read none = refl
amount_of-read (some row) = refl

-- The supply of a mint after one write, in terms of what the applier reads.
supply-put :
    (m : String) (row : HoldingRow) (index : Index)
    → Unique same_holder index.holdings
    → supply m (put_holding row index).holdings
        + (if row.mint === m then amount_of (holding_of row.mint row.wallet index) else 0)
      ≡ supply m index.holdings + counted m row
unfolding put_holding holding_of
supply-put m row index u = ground (
  arith,
  supply-upsert m row index.holdings u,
  amount_of-read (find (same_holder row) index.holdings),
)

put-Unique :
    (row : HoldingRow) (index : Index)
    → Unique same_holder index.holdings
    → Unique same_holder (put_holding row index).holdings
unfolding put_holding
put-Unique row index u = Unique-upsert row index.holdings u

module _ (token : TokenRef) (ctx : Ctx) (event : TransferAllowed) where
  -- The index after the source, and after the destination.
  abbrev source_put : Holding → Index → Index
  source_put known index = put_holding (moved_out token ctx event known) index

  abbrev both_put : Holding → Index → Index
  both_put known index =
      let index' = source_put known index in
      put_holding (moved_in token ctx event (holding_of event.mint event.destination_owner index'))
        index'

  module _ (known : Holding) (index : Index) (u : Unique same_holder index.holdings) where
    both_put-supply :
        (m : String)
        → holding_of event.mint event.source_owner index ≡ some known
        → event.amount ≤ known.amount
        → supply m (both_put known index).holdings ≡ supply m index.holdings
    both_put-supply m found enough =
        let index' = source_put known index in
        let row = moved_out token ctx event known in
        let row' =
          moved_in token ctx event (holding_of event.mint event.destination_owner index') in
        ground (arith, supply-put m row index u, supply-put m row' index' (put-Unique row index u))

  -- The source's new row does not count as verified, so a transfer to oneself is not covered either.
  destination_open :
      (known : Holding) (index : Index)
      → covered (holding_of event.mint event.destination_owner index) ctx ≡ false
      → covered (holding_of event.mint event.destination_owner (source_put known index)) ctx ≡ false
  unfolding covered
  destination_open known index h =
      elim (Bool-cases (event.source_owner === event.destination_owner)) [
        | inl same ↦
            rw
              (
                ← (eq_iff event.source_owner event.destination_owner).0 same,
                holding_of-put_self (moved_out token ctx event known) index,
              )
              refl
        | inr other ↦
            rw
              (holding_of-put_ne event.mint event.destination_owner
                (moved_out token ctx event known) index (ground (arith)))
              h
      ]

  source_holding-run :
      (c : Chain) (known : Holding) (w : World)
      → holding_of event.mint event.source_owner w.index ≡ some known
      → covered (some known) ctx ≡ false
      → leb event.amount known.amount ≡ true
      → source_holding c token ctx event w ≡ (ok (some (moved_out token ctx event known)), w)
  unfolding source_holding source_from ◌>>=◌
  source_holding-run c known w found open_ enough = rw (found, source_holding) (rw (open_, enough))

  destination_holding-run :
      (w : World)
      → covered (holding_of event.mint event.destination_owner w.index) ctx ≡ false
      → destination_holding token ctx event w ≡ (
        ok (
            some
              (moved_in token ctx event (holding_of event.mint event.destination_owner w.index))),
        w,
      )
  unfolding destination_holding ◌>>=◌
  destination_holding-run w open_ = rw (open_, destination_holding)

  move_balances-run :
      (c : Chain) (known : Holding) (w : World)
      → holding_of event.mint event.source_owner w.index ≡ some known
      → covered (some known) ctx ≡ false
      → leb event.amount known.amount ≡ true
      → covered (holding_of event.mint event.destination_owner w.index) ctx ≡ false
      → move_balances c token ctx event w ≡ (
        ok tt,
        record w {
          index =
              touch_offers event.mint
                (event.source_owner ∷ event.destination_owner ∷ [])
                ctx.slot
                (both_put known w.index);
        },
      )
  unfolding move_balances ◌>>=◌
  move_balances-run c known w found open_ enough open' =
      let index' = source_put known w.index in
      let to =
        destination_holding-run (record w { index = index' })
          (destination_open known w.index open') in
      rw (source_holding-run c known w found open_ enough, move_balances, ◌>>=◌) (rw to refl)

touched_holding :
    (mint wallet m : String) (wallets : List String) (slot : ℕ) (index : Index)
    → holding_of mint wallet (touch_offers m wallets slot index) ≡ holding_of mint wallet index
unfolding holding_of touch_offers
touched_holding mint wallet m wallets slot index = refl

pair_ne : (m a b : String) → a ≢ b → (m === m && a === b) ≡ false
pair_ne m a b ne = ground (arith, eq_iff a b)

module _ (c : Chain) (ctx : Ctx) (event : TransferAllowed) (i : ℕ) (token : TokenRef)
    (known : Holding) (w w' : World) (is_known : known_token_of event.mint w ≡ (ok token, w'))
    (is_new : has (same_attempt (allowed_attempt token ctx event i)) w.index.attempts ≡ false)
    (found : holding_of event.mint event.source_owner w.index ≡ some known)
    (enough : event.amount ≤ known.amount) (source_open : covered (some known) ctx ≡ false)
    (dest_open : covered (holding_of event.mint event.destination_owner w.index) ctx ≡ false) where
  same_index : w'.index ≡ w.index
  same_index =
      ap (λ (r : Result TokenRef × World). r.1.index) (sym is_known)
      ∙ (known_token_of-Keeps {P = λ index. index ≡ w.index} event.mint).at w refl

  abbrev journaled : Index
  journaled = record w.index {
    attempts = w.index.attempts ++ allowed_attempt token ctx event i ∷ [];
  }

  transfer_run : apply_transfer_allowed c ctx event i w ≡ (
    ok (transfer_lesson event),
    record w' {
      index =
          touch_offers event.mint
            (event.source_owner ∷ event.destination_owner ∷ [])
            ctx.slot
            (both_put token ctx event known journaled);
    },
  )
  unfolding apply_transfer_allowed ◌>>=◌ record_attempt holding_of
  transfer_run =
      let w'' : World = record w' { index = journaled } in
      let moved =
        move_balances-run token ctx event c known w'' found source_open (ground arith) dest_open in
      rw (is_known, apply_transfer_allowed, ◌>>=◌) (rw (same_index, is_new) (rw moved refl))

  -- A transfer of a known token whose source has a row of at least its amount, where neither side's row
  -- is verified at its slot or later, journaled for the first time, leaves the sum of the holdings of
  -- every mint as it was, also when both owners are one; where holdings were one for each mint and
  -- wallet, they still are.
  pub transfer_conserves :
      Unique same_holder w.index.holdings
      → let holdings = (apply_transfer_allowed c ctx event i w).1.index.holdings in
        ((m : String) → supply m holdings ≡ supply m w.index.holdings) × Unique same_holder holdings
  unfolding touch_offers holding_of
  transfer_conserves u = rw transfer_run (
    (λ m. both_put-supply token ctx event known journaled u m found enough),
    put-Unique _ _ (put-Unique _ _ u),
  )

  abbrev after : Index
  after = (apply_transfer_allowed c ctx event i w).1.index

  reads_after :
      (m wallet : String)
      → holding_of m wallet after ≡ holding_of m wallet (both_put token ctx event known journaled)
  reads_after m wallet =
      ap (λ (r : Result Lesson × World). holding_of m wallet r.1.index) transfer_run
      ∙ touched_holding m wallet _ _ _ _

  journaled_same : (m wallet : String) → holding_of m wallet journaled ≡ holding_of m wallet w.index
  unfolding holding_of
  journaled_same m wallet = refl

  -- A transfer of a known token between two different owners, where the source has a row of at least
  -- its amount and neither side's row is verified at its slot or later, journaled for the first time,
  -- takes its amount from the source, adds it to the destination, adds to what was distributed to the
  -- destination only if it left the treasury, and leaves every other holding as it was.
  pub transfer_moves :
      event.source_owner ≢ event.destination_owner
      → (holding_of event.mint event.source_owner after
          ≡ some (record {
            amount = known.amount - event.amount;
            distributed = known.distributed;
            last_slot = ctx.slot;
            verified_at = none;
          }))
        × (let old = holding_of event.mint event.destination_owner w.index in
            holding_of event.mint event.destination_owner after
            ≡ some (record {
              amount = amount_of old + event.amount;
              distributed = distributed_of old + (if event.from_treasury then event.amount else 0);
              last_slot = ctx.slot;
              verified_at = none;
            }))
        × ((m wallet : String)
            → (event.mint === m && event.source_owner === wallet) ≡ false
            → (event.mint === m && event.destination_owner === wallet) ≡ false
            → holding_of m wallet after ≡ holding_of m wallet w.index)
  transfer_moves ne =
      let row = moved_out token ctx event known in
      let index' = source_put token ctx event known journaled in
      let row' = moved_in token ctx event (holding_of event.mint event.destination_owner index') in
      let apart = pair_ne event.mint event.source_owner event.destination_owner ne in
      let apart' =
        pair_ne event.mint event.destination_owner event.source_owner (λ e. ne (sym e)) in
      let old =
        holding_of-put_ne event.mint event.destination_owner row journaled apart
        ∙ journaled_same event.mint event.destination_owner in
      (
        reads_after event.mint event.source_owner
            ∙ holding_of-put_ne event.mint event.source_owner row' index' apart'
            ∙ holding_of-put_self row journaled,
        reads_after event.mint event.destination_owner
            ∙ holding_of-put_self row' index'
            ∙ ap (λ found. some (holding (moved_in token ctx event found))) old,
        (λ m wallet ns nd.
            reads_after m wallet
            ∙ holding_of-put_ne m wallet row' index' nd
            ∙ holding_of-put_ne m wallet row journaled ns
            ∙ journaled_same m wallet),
      )

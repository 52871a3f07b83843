-- ===== src/Worker/Apply/Offers/Final.antt =====
-- apps/worker/src/index-store.ts: a filled or cancelled offer is final, under the handlers of
-- apps/worker/src/apply.ts and the sweep of apps/worker/src/stale.ts.
use cap_rail.Indexer.Events.{
  IndexEvent, company_created, investor_status_set, offer_accepted, offer_cancelled, offer_created,
  policy_set, roles_set, token_created, transfer_allowed,
}
use cap_rail.Indexer.Parse.{IndexedEvent, ParsedTransaction, ProgramTransaction}
use cap_rail.Prelude.{
  All, Bool, Bool-cases, List, String, ℕ, [], arith, false, get_elem?, has, inl, inr, some, suc,
  zero, ◌++◌, ◌∷◌, ◌≡◌,
}
use cap_rail.Shared.Market.{is_open}
use cap_rail.Table.{insert_absent, update_where}
use cap_rail.Worker.Act.{World}
use cap_rail.Worker.Act.Keeps.{Safe}
use cap_rail.Worker.Apply.Handler.{commit}
use cap_rail.Worker.Apply.Handler.Atomic.{Transactional}
use cap_rail.Worker.Apply.Lookup.{Chain, Ctx}
use cap_rail.Worker.Apply.Market.{cancel_change, trade_change}
use cap_rail.Worker.Apply.Offers.{Allows, Over, commit-Over}
use cap_rail.Worker.Rows.{Index, OfferRow}
use cap_rail.Worker.Stale.{OpenOffer, Reading, accepts, record_reading, with_reading}
use cap_rail.Worker.Store.{
  OfferChange, change_offer, create_offer, may_change, touch_offers, touched, touches, with_change,
}

-- The row at place `n` of the table.
abbrev Stands : ℕ → OfferRow → List OfferRow → Type 0
Stands n row rows = get_elem? rows n ≡ some row

Stands-append :
    (n : ℕ) (row : OfferRow) (rows new : List OfferRow)
    → Stands n row rows
    → Stands n row (rows ++ new)
Stands-append n row [] new h = ground (arith, h)
Stands-append zero row (x ∷ rows) new h = h
Stands-append (suc n) row (x ∷ rows) new h = Stands-append n row rows new h

Stands-insert_absent :
    (c : OfferRow → Bool) (new : OfferRow) (n : ℕ) (row : OfferRow) (rows : List OfferRow)
    → Stands n row rows
    → Stands n row (insert_absent c new rows)
Stands-insert_absent c new n row rows h = elim (Bool-cases (has c rows)) [
  | inl e ↦ rw e h
  | inr e ↦ rw e (Stands-append n row rows (new ∷ []) h)
]

Stands-update_where :
    (test : OfferRow → Bool) (change : OfferRow → OfferRow) (n : ℕ) (row : OfferRow)
    (rows : List OfferRow)
    → test row ≡ false
    → Stands n row rows
    → Stands n row (update_where test change rows)
Stands-update_where test change n row [] skip h = h
Stands-update_where test change zero row (x ∷ rows) skip h = ground (arith, h, skip)
Stands-update_where test change (suc n) row (x ∷ rows) skip h =
    Stands-update_where test change n row rows skip h

module _ (n : ℕ) (row : OfferRow) (closed : is_open row.status ≡ false) where
  touch-Stands :
      (mint : String) (wallets : List String) (slot : ℕ)
      → Safe (Over (Stands n row)) (touch_offers mint wallets slot)
  unfolding touch_offers
  touch-Stands mint wallets slot = record {
    run = λ index h.
        Stands-update_where (touches mint wallets) (touched slot) n row index.offers
          (ground (arith, closed)) h;
  }

  change-Stands :
      (offer : String) (change : OfferChange)
      → Safe (Over (Stands n row)) (change_offer offer change)
  unfolding change_offer
  change-Stands offer change = record {
    run = λ index h.
        Stands-update_where (may_change offer change) (with_change change) n row index.offers
          (ground (arith, closed)) h;
  }

  event_passes : (ctx : Ctx) (event : IndexEvent) → Allows (Stands n row) ctx event
  unfolding Allows create_offer
  event_passes ctx (offer_created event) =
      λ company_id. record { run = λ index h. Stands-insert_absent _ _ n row index.offers h }
  event_passes ctx (offer_accepted event) =
      λ offer. change-Stands event.offer (trade_change offer ctx event)
  event_passes ctx (offer_cancelled event) = change-Stands event.offer (cancel_change ctx event)
  event_passes ctx (company_created event) = tt
  event_passes ctx (token_created event) = tt
  event_passes ctx (policy_set event) = tt
  event_passes ctx (roles_set event) = tt
  event_passes ctx (investor_status_set event) = tt
  event_passes ctx (transfer_allowed event) = tt

  events_pass :
      (ctx : Ctx) (events : List IndexedEvent)
      → All (λ (indexed : IndexedEvent). Allows (Stands n row) ctx indexed.event) events
  events_pass ctx [] = tt
  events_pass ctx (indexed ∷ rest) = (event_passes ctx indexed.event, events_pass ctx rest)

  -- The row of an offer that is filled or cancelled is the same after any transaction, and at the
  -- same place: against a database that commits a transaction that returns and takes back one that throws.
  pub commit-final :
      (c : Chain) (tx : ProgramTransaction) (parsed : ParsedTransaction) (w : World)
      → Transactional c
      → get_elem? w.index.offers n ≡ some row
      → get_elem? (commit c tx parsed w).1.index.offers n ≡ some row
  commit-final c tx parsed w transactional h =
      (commit-Over (Stands n row) c tx parsed transactional touch-Stands
          (λ ctx. events_pass ctx parsed.events)).at
        w h

  -- A reading of an offer, whichever it is of, leaves the row of an offer that is filled or cancelled
  -- the same and at the same place.
  pub record_reading-final :
      (offer : OpenOffer) (reading : Reading) (index : Index)
      → get_elem? index.offers n ≡ some row
      → get_elem? (record_reading offer reading index).1.offers n ≡ some row
  unfolding record_reading accepts
  record_reading-final offer reading index h =
      Stands-update_where (accepts offer reading) (with_reading reading) n row index.offers
        (ground (arith, closed)) h

-- ===== src/Worker/Apply/Offers/Sound.antt =====
-- packages/db/src/schema.ts, the checks of the table `offers`, under the handlers of
-- apps/worker/src/apply.ts and the sweep of apps/worker/src/stale.ts.
use cap_rail.Indexer.Events.{
  IndexEvent, OfferAccepted, OfferCancelled, OfferCreated, company_created, investor_status_set,
  offer_accepted, offer_cancelled, offer_created, policy_set, roles_set, token_created,
  transfer_allowed,
}
use cap_rail.Indexer.Parse.{IndexedEvent, ParsedTransaction, ProgramTransaction}
use cap_rail.Prelude.{
  All, List, Option, String, ℕ, [], arith, eq_iff, none, refl, some, true, ◌<◌, ◌∷◌, ◌≡◌, ◌≤◌,
}
use cap_rail.Prelude.Int.{ℤ}
use cap_rail.Result.{Result, err, ok}
use cap_rail.Shared.Market.{OfferStaleReason, OfferStatus, filled, open_}
use cap_rail.Table.Laws.{All-insert_absent, All-update_where}
use cap_rail.Worker.Act.{World}
use cap_rail.Worker.Act.Keeps.{Safe}
use cap_rail.Worker.Apply.Handler.{commit}
use cap_rail.Worker.Apply.Handler.Atomic.{Transactional}
use cap_rail.Worker.Apply.Lookup.{Chain, Ctx}
use cap_rail.Worker.Apply.Market.{
  available_after, cancel_change, left_after, offer_row, trade_change,
}
use cap_rail.Worker.Apply.Offers.{Allows, Over, commit-Over}
use cap_rail.Worker.Rows.{Index, OfferRow}
use cap_rail.Worker.Stale.{
  AccountsRead, OpenOffer, SweepDeps, TokenAccountState, accepts, assess, first_account,
  later_accounts, reading_of, record_all, record_reading, sweep, sweep_due, sweep_read,
  with_reading,
}
use cap_rail.Worker.Store.{
  OfferRef, change_offer, create_offer, may_change, touch_offers, touched, touches, with_change,
}

-- `offers_filled_means_zero`
abbrev pub FilledMeansZero : OfferStatus → ℕ → Type 0
FilledMeansZero filled remaining = remaining ≡ 0
FilledMeansZero _ remaining = 0 < remaining

-- The second half of `offers_stale_means_short`: a reason stands exactly where something is short.
abbrev pub StaleMeansShort : Option OfferStaleReason → ℕ → ℕ → Type 0
StaleMeansShort none available remaining = available ≡ remaining
StaleMeansShort (some _) available remaining = available < remaining

-- `offers_executability_only_when_open`, and what may be known of an open offer.
abbrev pub Executable : OfferStatus → ℕ → Option ℕ → Option OfferStaleReason → Type 0
Executable open_ remaining none reason = Unit
Executable open_ remaining (some available) reason = StaleMeansShort reason available remaining
Executable _ remaining available reason = (available ≡ none) × (reason ≡ none)

-- `issued` is the amount that each offer account of the chain was opened with.
abbrev pub SoundOffer : (String → ℕ) → OfferRow → Type 0
SoundOffer issued row =
    (row.amount ≡ issued row.offer)
    × (row.remaining ≤ row.amount)
    × FilledMeansZero row.status row.remaining
    × Executable row.status row.remaining row.available row.stale_reason

abbrev pub SoundOffers : (String → ℕ) → List OfferRow → Type 0
SoundOffers issued rows = All (SoundOffer issued) rows

-- What the program on chain guarantees of its events.
abbrev pub Genuine : (String → ℕ) → IndexEvent → Type 0
Genuine issued (offer_created event) = (event.amount ≡ issued event.offer) × (0 < event.amount)
Genuine issued (offer_cancelled event) =
    (event.remaining ≤ issued event.offer) × (0 < event.remaining)
Genuine issued _ = Unit

module _ (issued : String → ℕ) where
  create-Sound :
      (ctx : Ctx) (event : OfferCreated) (company_id : ℕ)
      → Genuine issued (offer_created event)
      → Safe
          (Over (SoundOffers issued))
          (λ index. (create_offer (offer_row company_id ctx event) index).1)
  unfolding create_offer
  create-Sound ctx event company_id g = record {
    run = λ index h.
        All-insert_absent (SoundOffer issued) _ (offer_row company_id ctx event) index.offers
          (g.0, omega arith, g.1, refl) h;
  }

  touch-Sound :
      (mint : String) (wallets : List String) (slot : ℕ)
      → Safe (Over (SoundOffers issued)) (touch_offers mint wallets slot)
  unfolding touch_offers
  touch-Sound mint wallets slot = record {
    run = λ index h.
        All-update_where (SoundOffer issued) (touches mint wallets) (touched slot) index.offers
          (λ row _ sound. sound) h;
  }

  trade-Sound :
      (ctx : Ctx) (event : OfferAccepted) (offer : OfferRef) (row : OfferRow)
      → may_change event.offer (trade_change offer ctx event) row ≡ true
      → SoundOffer issued row
      → SoundOffer issued (with_change (trade_change offer ctx event) row)
  unfolding available_after left_after
  trade-Sound ctx event offer row may sound = ground (arith, may, sound)

  cancel-Sound :
      (ctx : Ctx) (event : OfferCancelled) (row : OfferRow)
      → Genuine issued (offer_cancelled event)
      → may_change event.offer (cancel_change ctx event) row ≡ true
      → SoundOffer issued row
      → SoundOffer issued (with_change (cancel_change ctx event) row)
  cancel-Sound ctx event row g may sound =
      ground (arith, g, may, sound, eq_iff row.offer event.offer)

  event_allowed :
      (ctx : Ctx) (event : IndexEvent)
      → Genuine issued event
      → Allows (SoundOffers issued) ctx event
  unfolding Allows change_offer
  event_allowed ctx (offer_created event) g = λ company_id. create-Sound ctx event company_id g
  event_allowed ctx (offer_accepted event) g = λ offer. record {
    run = λ index h.
        All-update_where (SoundOffer issued) _ _ index.offers (trade-Sound ctx event offer) h;
  }
  event_allowed ctx (offer_cancelled event) g = record {
    run = λ index h.
        All-update_where (SoundOffer issued) _ _ index.offers (λ row. cancel-Sound ctx event row g)
          h;
  }
  event_allowed ctx (company_created event) g = tt
  event_allowed ctx (token_created event) g = tt
  event_allowed ctx (policy_set event) g = tt
  event_allowed ctx (roles_set event) g = tt
  event_allowed ctx (investor_status_set event) g = tt
  event_allowed ctx (transfer_allowed event) g = tt

  events_allowed :
      (ctx : Ctx) (events : List IndexedEvent)
      → All (λ (indexed : IndexedEvent). Genuine issued indexed.event) events
      → All (λ (indexed : IndexedEvent). Allows (SoundOffers issued) ctx indexed.event) events
  events_allowed ctx [] g = tt
  events_allowed ctx (indexed ∷ rest) g =
      (event_allowed ctx indexed.event g.0, events_allowed ctx rest g.1)

  -- Where every row of the table of offers meets its checks, and the events of a transaction are such
  -- that an offer opens with the amount it was issued for, above 0, and is cancelled with something
  -- left, at most that amount, every row meets its checks after the transaction is handled, whether
  -- its writes are committed or taken back: against a database that commits a transaction that returns
  -- and takes back one that throws.
  pub commit-SoundOffers :
      (c : Chain) (tx : ProgramTransaction) (parsed : ParsedTransaction) (w : World)
      → Transactional c
      → All (λ (indexed : IndexedEvent). Genuine issued indexed.event) parsed.events
      → SoundOffers issued w.index.offers
      → SoundOffers issued (commit c tx parsed w).1.index.offers
  commit-SoundOffers c tx parsed w transactional g sound =
      (commit-Over (SoundOffers issued) c tx parsed transactional touch-Sound
          (λ ctx. events_allowed ctx parsed.events g)).at
        w sound

  reading-Sound :
      (offer : OpenOffer) (started : ℤ) (slot : ℕ) (account : Option TokenAccountState)
      (row : OfferRow)
      → accepts offer (reading_of started slot offer account) row ≡ true
      → SoundOffer issued row
      → SoundOffer issued (with_reading (reading_of started slot offer account) row)
  unfolding accepts with_reading reading_of assess
  reading-Sound offer started slot none row a sound = ground (arith, a, sound)
  reading-Sound offer started slot (some account) row a sound = ground (arith, a, sound)

  record_reading-Sound :
      (offer : OpenOffer) (started : ℤ) (slot : ℕ) (account : Option TokenAccountState)
      (index : Index)
      → SoundOffers issued index.offers
      → SoundOffers issued
          (record_reading offer (reading_of started slot offer account) index).1.offers
  unfolding record_reading
  record_reading-Sound offer started slot account index sound =
      All-update_where (SoundOffer issued) _ _ index.offers
        (reading-Sound offer started slot account) sound

  record_all-Sound :
      (started : ℤ) (slot : ℕ) (offers : List OpenOffer)
      (accounts : List (Option TokenAccountState)) (index : Index)
      → SoundOffers issued index.offers
      → SoundOffers issued (record_all started slot offers accounts index).1.offers
  unfolding record_all
  record_all-Sound started slot [] accounts index sound = sound
  record_all-Sound started slot (offer ∷ offers) accounts index sound =
      record_all-Sound started slot offers (later_accounts accounts) _
        (record_reading-Sound offer started slot (first_account accounts) index sound)

  sweep_read-Sound :
      (deps : SweepDeps) (offers : List OpenOffer) (index : Index) (read : Result AccountsRead)
      → SoundOffers issued index.offers
      → SoundOffers issued (sweep_read deps offers index read).1.offers
  unfolding sweep_read
  sweep_read-Sound deps offers index (err e) sound = sound
  sweep_read-Sound deps offers index (ok read) sound =
      record_all-Sound deps.now read.slot offers read.accounts index sound

  sweep_due-Sound :
      (deps : SweepDeps) (offers : List OpenOffer) (index : Index)
      → ((index : Index)
          → SoundOffers issued index.offers
          → SoundOffers issued (deps.meanwhile index).offers)
      → SoundOffers issued index.offers
      → SoundOffers issued (sweep_due deps offers index).1.offers
  unfolding sweep_due
  sweep_due-Sound deps [] index others sound = sound
  sweep_due-Sound deps (offer ∷ offers) index others sound =
      sweep_read-Sound deps (offer ∷ offers) (deps.meanwhile index) _ (others index sound)

  -- Where every row of the table of offers meets its checks, every row meets them after a sweep,
  -- whatever it reads and whatever else is written while it reads, as long as those writes keep the
  -- checks.
  pub sweep-SoundOffers :
      (deps : SweepDeps) (index : Index)
      → ((index : Index)
          → SoundOffers issued index.offers
          → SoundOffers issued (deps.meanwhile index).offers)
      → SoundOffers issued index.offers
      → SoundOffers issued (sweep deps index).1.offers
  unfolding sweep
  sweep-SoundOffers deps index others sound = sweep_due-Sound deps _ index others sound

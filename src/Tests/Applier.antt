-- ===== src/Tests/Applier.antt =====
-- The theorems on handlers of apps/worker/src/apply.ts, each at a concrete transaction.
use cap_rail.Indexer.Events.{offer_accepted}
use cap_rail.Prelude.{String, arith, eq_iff, false, none, refl, some, ◌&&◌, ◌===◌, ◌≡◌, ◌≢◌}
use cap_rail.Result.{Result, ok}
use cap_rail.Table.{Unique}
use cap_rail.Tests.Data.{accepted, ctx, no_chain, seller_holding, token, transfer, world}
use cap_rail.Worker.Act.{World, ◌>>=◌}
use cap_rail.Worker.Apply.Handler.{apply_event}
use cap_rail.Worker.Apply.Lookup.{Lesson, covered, known_offer_of, known_token_of, token_of}
use cap_rail.Worker.Apply.Market.{apply_offer_accepted}
use cap_rail.Worker.Apply.Replay.Again.{NamesAgree, apply_event-again}
use cap_rail.Worker.Apply.Transfer.{apply_transfer_allowed}
use cap_rail.Worker.Apply.Transfer.Conservation.{transfer_conserves, transfer_moves}
use cap_rail.Worker.Store.{change_offer, holding, holding_of, offer_of, record_trade, same_holder}
use cap_rail.Worker.Store.Holdings.{supply}

known : known_token_of "M" world ≡ (ok token, world)
unfolding known_token_of ◌>>=◌ token_of
known = refl

transfer_conserves_example :
    ((m : String)
      → supply m (apply_transfer_allowed no_chain ctx transfer 0 world).1.index.holdings
        ≡ supply m world.index.holdings)
    × Unique same_holder (apply_transfer_allowed no_chain ctx transfer 0 world).1.index.holdings
unfolding holding_of covered
transfer_conserves_example =
    transfer_conserves no_chain ctx transfer 0 token (holding seller_holding) world world known refl
      refl (omega arith) refl refl (refl, tt)

apart : transfer.source_owner ≢ transfer.destination_owner
apart e = ground (arith, (eq_iff transfer.source_owner transfer.destination_owner).1 e)

transfer_moves_example :
    (holding_of "M" "A" (apply_transfer_allowed no_chain ctx transfer 0 world).1.index
      ≡ some (record { amount = 40; distributed = 5; last_slot = 50; verified_at = none }))
    × (holding_of "M" "B" (apply_transfer_allowed no_chain ctx transfer 0 world).1.index
        ≡ some (record { amount = 60; distributed = 60; last_slot = 50; verified_at = none }))
    × ((m wallet : String)
        → ("M" === m && "A" === wallet) ≡ false
        → ("M" === m && "B" === wallet) ≡ false
        → holding_of m wallet (apply_transfer_allowed no_chain ctx transfer 0 world).1.index
          ≡ holding_of m wallet world.index)
unfolding holding_of covered
transfer_moves_example =
    transfer_moves no_chain ctx transfer 0 token (holding seller_holding) world world known refl
      refl (omega arith) refl refl apart

abbrev handled : Result Lesson × World
handled = apply_event no_chain ctx (offer_accepted accepted) 0 world

abbrev first_lesson : Lesson
first_lesson memory = memory

apply_event-again_example :
    (apply_event no_chain ctx (offer_accepted accepted) 0 handled.1).1.index ≡ handled.1.index
unfolding NamesAgree apply_event apply_offer_accepted known_offer_of offer_of ◌>>=◌ record_trade
    change_offer
apply_event-again_example =
    apply_event-again no_chain ctx (offer_accepted accepted) 0 world handled.1
      {lesson = first_lesson} refl refl tt

-- ===== src/Tests/Market.antt =====
-- The theorems on offers, each at a concrete offer.
use cap_rail.Indexer.Events.{offer_accepted}
use cap_rail.Indexer.Parse.{ParsedTransaction}
use cap_rail.Prelude.{String, ℕ, [], ap, arith, false, get_elem?, none, refl, some, ◌∷◌, ◌≡◌}
use cap_rail.Prelude.Int.{pos}
use cap_rail.Result.{ok}
use cap_rail.Shared.Market.{cancelled}
use cap_rail.Tests.Data.{accepted, ended, index, no_chain, offer, transaction, with_events, world}
use cap_rail.Worker.Act.{World}
use cap_rail.Worker.Apply.Handler.{commit}
use cap_rail.Worker.Apply.Handler.Atomic.{Transactional}
use cap_rail.Worker.Apply.Offers.Final.{commit-final}
use cap_rail.Worker.Apply.Offers.Sound.{SoundOffers, commit-SoundOffers, sweep-SoundOffers}
use cap_rail.Worker.Rows.{Index, OfferRow}
use cap_rail.Worker.Stale.{OpenOffer, SweepDeps, TokenAccountState, stale_ttl_ms, sweep}

abbrev issued : String → ℕ
issued address = 30

abbrev trade : ParsedTransaction
trade = with_events (record { event = offer_accepted accepted; event_index = 0 } ∷ [])

sound_index : SoundOffers issued index.offers
sound_index = ((refl, omega arith, omega arith, omega arith), tt)

whole_or_nothing : Transactional no_chain
whole_or_nothing = record {
  commits = λ body w e. ap (ended w.index) e;
  rolls_back = λ body w e. ap (ended w.index) e;
}

commit-SoundOffers_example :
    SoundOffers issued (commit no_chain transaction trade world).1.index.offers
commit-SoundOffers_example =
    commit-SoundOffers issued no_chain transaction trade world whole_or_nothing (tt, tt) sound_index

abbrev account : TokenAccountState
account = record { amount = 100; delegate = some "O"; delegated_amount = 20; is_frozen = false }

abbrev deps : SweepDeps
deps = record {
  now = pos 90000;
  ttl_ms = stale_ttl_ms;
  ata = λ wallet mint. wallet;
  token_accounts = λ accounts. ok (record { slot = 60; accounts = some account ∷ [] });
  text_before = λ a b. false;
  meanwhile = λ index. index;
}

sweep-SoundOffers_example : SoundOffers issued (sweep deps index).1.offers
sweep-SoundOffers_example = sweep-SoundOffers issued deps index (λ index sound. sound) sound_index

abbrev closed_offer : OfferRow
closed_offer = record offer { status = cancelled; available = none; stale_reason = none }

abbrev closed_index : Index
closed_index = record index { offers = closed_offer ∷ [] }

abbrev closed_world : World
closed_world = record world { index = closed_index }

commit-final_example :
    get_elem? (commit no_chain transaction trade closed_world).1.index.offers 0 ≡ some closed_offer
commit-final_example =
    commit-final 0 closed_offer refl no_chain transaction trade closed_world whole_or_nothing refl

abbrev open_offer : OpenOffer
open_offer = record { offer = "O"; mint = "M"; seller = "A"; remaining = 20 }

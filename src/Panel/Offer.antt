-- ===== src/Panel/Offer.antt =====
-- apps/web/src/market/offer.ts: takeable.
pub mod Sound
-- The texts: one for each stale reason, and 'the seller can deliver less than offered'.
use cap_rail.Prelude.{Option, ℕ, if◌then◌else◌, ltb, none, or_else, some}
use cap_rail.Shared.Market.{OfferStaleReason}

pub data TakeReason : Type 0 where
  stale_text : OfferStaleReason → TakeReason
  can_deliver_less : TakeReason

pub record Takeable : Type 0 where
  pub max : ℕ
  pub reason : Option TakeReason

abbrev short_reason : Option OfferStaleReason → TakeReason
short_reason none = can_deliver_less
short_reason (some reason) = stale_text reason

unfoldable pub takeable : ℕ → Option ℕ → Option OfferStaleReason → Takeable
takeable remaining available_ stale_reason =
    let available = or_else available_ remaining in
    let max = if ltb available remaining then available else remaining in
    record {
      max = max;
      reason = if ltb max remaining then some (short_reason stale_reason) else none;
    }

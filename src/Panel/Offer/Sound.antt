-- ===== src/Panel/Offer/Sound.antt =====
-- What the panel says of the offers that the worker writes.
use cap_rail.Panel.Offer.{Takeable, stale_text, takeable}
use cap_rail.Prelude.{Option, String, ℕ, arith, false, is_none, none, or_else, some, ◌↔◌, ◌≡◌}
use cap_rail.Shared.Market.{OfferStaleReason, open_}
use cap_rail.Worker.Apply.Offers.Sound.{Executable, SoundOffer}
use cap_rail.Worker.Rows.{OfferRow}
use mathlib.Core.Path.{subst}
use mathlib.Core.Option

-- What is said of an open offer: at most what the reading found, a reason exactly where that is short, and the
-- reading's own reason.
abbrev pub Faithful : ℕ → Option ℕ → Option OfferStaleReason → Takeable → Type 0
Faithful remaining available stale_reason t =
    (t.max ≡ or_else available remaining)
    × ((t.reason ≡ none) ↔ (t.max ≡ remaining))
    × (is_none available ≡ false → t.reason ≡ Option.map stale_text stale_reason)

takeable-Faithful :
    (remaining : ℕ) (available : Option ℕ) (reason : Option OfferStaleReason)
    → Executable open_ remaining available reason
    → Faithful remaining available reason (takeable remaining available reason)
unfolding takeable
takeable-Faithful remaining none reason h = ground arith
takeable-Faithful remaining (some available) none h = ground (arith, h)
takeable-Faithful remaining (some available) (some reason) h = ground (arith, h)

-- For an open offer that the worker keeps sound, the panel offers exactly what the worker found available, or
-- all that remains where it has no reading yet; it names a cause exactly where that is less than what
-- remains; and where there is a reading the cause is the worker's stale reason.
pub takeable-SoundOffer :
    (issued : String → ℕ) (row : OfferRow)
    → SoundOffer issued row
    → row.status ≡ open_
    → Faithful row.remaining row.available row.stale_reason
        (takeable row.remaining row.available row.stale_reason)
takeable-SoundOffer issued row (_, _, _, e) o =
    takeable-Faithful row.remaining row.available row.stale_reason
      (subst (λ s. Executable s row.remaining row.available row.stale_reason) o e)

-- ===== src/Worker/Stale/Bounds.antt =====
-- apps/worker/src/stale.ts: how much of an offer its seller can deliver.
use cap_rail.Prelude.{Option, String, ℕ, arith, eq_iff, false, none, some, true, ◌<◌, ◌↔◌, ◌≡◌, ◌≤◌}
use cap_rail.Worker.Stale.{TokenAccountState, assess, assess_account, is_delegate}

-- What is delivered: at most what is left of the offer, and nothing that a transfer by the offer's
-- delegate could not take from the account. A reason is given exactly where less than all of it can
-- be delivered, for an offer that has something left.
assess-bounds :
    (offer : String) (remaining : ℕ) (account : Option TokenAccountState)
    → 0 < remaining
    → let judged = assess offer remaining account in
      (judged.available ≤ remaining)
      × ((judged.stale_reason ≡ none) ↔ (judged.available ≡ remaining))
unfolding assess assess_account
assess-bounds offer remaining none h = ground arith
assess-bounds offer remaining (some account) h = ground arith

is_delegate_iff :
    (offer : String) (delegate : Option String)
    → (is_delegate offer delegate ≡ true) ↔ (delegate ≡ some offer)
is_delegate_iff offer none = ground arith
is_delegate_iff offer (some delegate) = ground (arith, eq_iff delegate offer)

-- An existing account can deliver all that is left of an offer exactly when it is not frozen, has
-- delegated to the offer, and both the delegated amount and the balance cover it; a missing account
-- delivers nothing.
assess-full :
    (offer : String) (remaining : ℕ) (account : TokenAccountState)
    → 0 < remaining
    → (((assess offer remaining (some account)).available ≡ remaining) ↔ (
        (account.is_frozen ≡ false)
        × (account.delegate ≡ some offer)
        × (remaining ≤ account.delegated_amount)
        × (remaining ≤ account.amount)))
      × ((assess offer remaining none).available ≡ 0)
unfolding assess assess_account
assess-full offer remaining account h = ground (arith, is_delegate_iff offer account.delegate)

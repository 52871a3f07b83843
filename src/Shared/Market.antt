-- ===== src/Shared/Market.antt =====
-- packages/shared/src/market.ts and company-api.ts: offer and investor statuses, the transfer
-- policy, and `admission`, the index's copy of the hook's check of the recipient.
use cap_rail.Prelude.{Bool, Option, ℕ, false, if◌then◌else◌, none, some, true}
use cap_rail.Prelude.Int.{ℤ, leb_ℤ}

pub data OfferStatus : Type 0 where
  open_ filled cancelled : OfferStatus

pub data OfferStaleReason : Type 0 where
  account_missing frozen not_delegated delegation_short balance_short : OfferStaleReason

-- The on-chain enum, in its declaration order.
pub data InvestorStatus : Type 0 where
  unset approved revoked : InvestorStatus

pub record TransferPolicy : Type 0 where
  pub require_accreditation : Bool
  pub require_rofr : Bool
  pub rofr_window_secs : ℕ

pub record AdmissionRecord : Type 0 where
  pub status : InvestorStatus
  pub expires_at : ℤ

pub data RefusalReason : Type 0 where
  not_accredited accreditation_expired : RefusalReason

pub record Admission : Type 0 where
  pub admitted : Bool
  pub reason : Option RefusalReason

abbrev pub is_approved : InvestorStatus → Bool
is_approved approved = true
is_approved _ = false

abbrev pub is_open : OfferStatus → Bool
is_open open_ = true
is_open _ = false

unfoldable pub admission_of : AdmissionRecord → ℤ → Admission
admission_of record_ now =
    if is_approved record_.status
    then (if leb_ℤ record_.expires_at now
        then record { admitted = false; reason = some accreditation_expired }
        else record { admitted = true; reason = none })
    else record { admitted = false; reason = some not_accredited }

unfoldable pub admission : TransferPolicy → Option AdmissionRecord → ℤ → Admission
unfolding admission_of
admission policy found now =
    if policy.require_accreditation
    then elim found [
      | none ↦ record { admitted = false; reason = some not_accredited }
      | some record_ ↦ admission_of record_ now
    ]
    else record { admitted = true; reason = none }

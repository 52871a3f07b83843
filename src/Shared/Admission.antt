-- ===== src/Shared/Admission.antt =====
-- packages/shared/src/market.ts: `admission` against the check of the recipient in the hook.
use cap_rail.Prelude.{Option, arith, false, none, some, true, ◌↔◌, ◌≡◌, ◌⊎◌}
use cap_rail.Prelude.Int.{ℤ, ◌<ℤ◌}
use cap_rail.Shared.Market.{AdmissionRecord, TransferPolicy, admission, admission_of, approved}

-- The registry has the wallet approved, and its expiry is still to come.
abbrev pub Admits : Option AdmissionRecord → ℤ → Type 0
Admits none now = ⊥
Admits (some found) now = (found.status ≡ approved) × (now <ℤ found.expires_at)

-- A wallet is admitted exactly when the policy asks for no accreditation or the registry has it
-- approved with an expiry strictly after now; a reason is given exactly when it is not admitted.
pub admission-Admits :
    (policy : TransferPolicy) (found : Option AdmissionRecord) (now : ℤ)
    → let result = admission policy found now in
      ((result.admitted ≡ true) ↔ ((policy.require_accreditation ≡ false) ⊎ Admits found now))
      × ((result.reason ≡ none) ↔ (result.admitted ≡ true))
unfolding admission admission_of
admission-Admits policy none now = ground arith
admission-Admits policy (some found) now = ground arith

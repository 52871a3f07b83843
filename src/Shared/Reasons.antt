-- ===== src/Shared/Reasons.antt =====
-- packages/shared/src/reasons.ts: the rejection reasons of the transfer hook.
use cap_rail.Prelude.{String, Bool, List, [], ◌∷◌, has, ◌===◌}

abbrev rejection_reasons : List String
rejection_reasons = "NotAccredited" ∷ "AccreditationExpired" ∷ "Unvested" ∷ "RofrWindowOpen" ∷ []

pub is_rejection_reason : String → Bool
is_rejection_reason value = has (λ reason. value === reason) rejection_reasons

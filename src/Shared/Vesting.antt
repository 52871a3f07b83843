-- ===== src/Shared/Vesting.antt =====
-- packages/shared/src/vesting.ts: the panel's copy of the on-chain vesting schedule.
pub mod Bounds
use cap_rail.Prelude.{Option, ℕ, if◌then◌else◌, none, some, ◌&&◌, ◌*◌, ◌/◌, ◌||◌}
use cap_rail.Prelude.Int.{ℤ, leb_ℤ, ltb_ℤ, pos_part, ◌-ℤ◌}

-- `total * (now - start) / (end - start)` on instants where both differences are at least 0.
unfoldable pub linear_share : ℕ → ℤ → ℤ → ℤ → ℕ
linear_share total start end now = total * pos_part (now -ℤ start) / pos_part (end -ℤ start)

unfoldable pub vested : ℕ → ℤ → ℤ → ℤ → ℤ → Option ℕ
unfolding linear_share
vested total start cliff end now =
    if ltb_ℤ cliff start || ltb_ℤ end cliff || (leb_ℤ start end && leb_ℤ end start)
    then none
    else if ltb_ℤ now cliff
    then some 0
    else if leb_ℤ end now
    then some total
    else some (linear_share total start end now)

-- ===== src/Shared/Curve.antt =====
-- packages/shared/src/primitives.ts: isOnCurve with its arithmetic modulo 2 ^ 255 - 19, isWalletAddress
-- and isAddress on a string.
pub mod Congruence
pub mod Power
pub mod Points
use cap_rail.Prelude.{
  Bool, List, String, ℕ, [], false, if◌then◌else◌, leb, length, none, not, some, suc, true, zero,
  ◌%◌, ◌&&◌, ◌*◌, ◌+◌, ◌-◌, ◌/◌, ◌==◌, ◌^◌, ◌∷◌,
}
use cap_rail.Prelude.Int.{ℤ, negsuc, pos, sub_ℕ}
use cap_rail.Shared.Base58.{decode_base58}

-- P
abbrev pub prime : ℕ
prime = 2 ^ 255 - 19

-- `r < 0n ? r + P : r` of the remainder of a number below 0.
abbrev pub from_below : ℕ → ℕ
from_below r = if r == 0 then 0 else prime - r

abbrev pub mod_ : ℤ → ℕ
mod_ (pos n) = n % prime
mod_ (negsuc n) = from_below (suc n % prime)

-- `-n`
abbrev pub minus : ℕ → ℤ
minus n = sub_ℕ 0 n

-- The loop of `pow`; the exponent is fuel enough, since each turn halves it.
unfoldable pub pow_loop : ℕ → ℕ → ℕ → ℕ → ℕ
pow_loop zero result b e = result
pow_loop (suc fuel) result b e = elim (e == 0) [
  | true ↦ result
  | false ↦
      pow_loop fuel (if e % 2 == 1 then mod_ (pos (result * b)) else result) (mod_ (pos (b * b)))
        (e / 2)
]

unfoldable pub pow : ℕ → ℕ → ℕ
unfolding pow_loop
pow base exponent = pow_loop exponent 1 (mod_ (pos base)) exponent

-- D
unfoldable pub curve_d : ℕ
curve_d = mod_ (minus (121665 * pow 121666 (prime - 2)))

unfoldable pub sqrt_m1 : ℕ
sqrt_m1 = pow 2 ((prime - 1) / 4)

-- The last byte is the highest.
abbrev pub le_value : List ℕ → ℕ
le_value [] = 0
le_value (byte ∷ bytes) = byte + 256 * le_value bytes

-- `!(x === 0n && signBit === 1n)`
abbrev pub signed : ℕ → ℕ → Bool
signed x sign_bit = not (x == 0 && sign_bit == 1)

-- The root that is tried, the square that it gives, and the other root.
abbrev pub finish : ℕ → ℕ → ℕ → ℕ → Bool
finish u v x sign_bit =
    let vx2 = mod_ (pos (v * x * x)) in
    if vx2 == mod_ (minus u)
    then signed (mod_ (pos (x * sqrt_m1))) sign_bit
    else if vx2 == u
    then signed x sign_bit
    else false

abbrev pub on_curve_at : ℕ → ℕ → Bool
on_curve_at y sign_bit =
    let y2 = mod_ (pos (y * y)) in
    let u = mod_ (sub_ℕ y2 1) in
    let v = mod_ (pos (curve_d * y2 + 1)) in
    let v3 = mod_ (pos (v * v * v)) in
    let v7 = mod_ (pos (v3 * v3 * v)) in
    let x = mod_ (pos (u * v3 * pow (mod_ (pos (u * v7))) ((prime - 5) / 8))) in
    finish u v x sign_bit

unfoldable pub is_on_curve : List ℕ → Bool
is_on_curve bytes =
    if length bytes == 32
    then (let all = le_value bytes in
        let y = all % 2 ^ 255 in if leb prime y then false else on_curve_at y (all / 2 ^ 255))
    else false

-- `bytes !== null && bytes.length === 32 && isOnCurve(bytes)`
unfoldable pub is_wallet_address : String → Bool
is_wallet_address text = elim (decode_base58 text) [
  | none ↦ false
  | some bytes ↦ length bytes == 32 && is_on_curve bytes
]

unfoldable pub is_address : String → Bool
is_address text = elim (decode_base58 text) [ none ↦ false | some bytes ↦ length bytes == 32 ]

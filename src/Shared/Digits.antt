-- ===== src/Shared/Digits.antt =====
-- Positional numerals as the loops of packages/shared/src/primitives.ts write and read them: the most
-- significant digit first, in any base.
pub mod Laws
pub mod RoundTrip
use cap_rail.Prelude.{
  ℕ, zero, suc, ◌+◌, ◌*◌, ◌/◌, ◌%◌, Bool, true, false, List, [], ◌∷◌, ◌++◌, ◌==◌, if◌then◌else◌,
}

-- `for (const d of digits) value = value * base + d`
abbrev pub from_digits : ℕ → ℕ → List ℕ → ℕ
from_digits base value [] = value
from_digits base value (d ∷ digits) = from_digits base (value * base + d) digits

-- `while (value > 0) { digits = [value % base, ...digits]; value /= base }`; the value itself is fuel
-- enough in a base above 1.
unfoldable pub prepend_digits : ℕ → ℕ → ℕ → List ℕ → List ℕ
prepend_digits base zero value digits = digits
prepend_digits base (suc fuel) value digits = elim (value == 0) [
  | true ↦ digits
  | false ↦ prepend_digits base fuel (value / base) (value % base ∷ digits)
]

-- `while (value > 0) { digits.push(value % base); value /= base }`
unfoldable pub push_digits : ℕ → ℕ → ℕ → List ℕ → List ℕ
push_digits base zero value digits = digits
push_digits base (suc fuel) value digits = elim (value == 0) [
  | true ↦ digits
  | false ↦ push_digits base fuel (value / base) (digits ++ value % base ∷ [])
]

unfoldable pub to_digits : ℕ → ℕ → List ℕ
to_digits base value = prepend_digits base value value []

-- `while (digits[n] === 0) n += 1`
abbrev pub leading_zeros : List ℕ → ℕ
leading_zeros [] = 0
leading_zeros (d ∷ digits) = let rest = leading_zeros digits in if d == 0 then suc rest else 0

-- `new Array(n).fill(0)`
abbrev pub zeros : ℕ → List ℕ
zeros zero = []
zeros (suc n) = 0 ∷ zeros n

-- What stands behind the leading zeros.
abbrev pub without_zeros : List ℕ → List ℕ
without_zeros [] = []
without_zeros (d ∷ digits) = let rest = without_zeros digits in if d == 0 then rest else d ∷ digits

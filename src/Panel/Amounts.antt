-- ===== src/Panel/Amounts.antt =====
-- apps/web/src/company/fields.ts and market/money.ts: amounts as people write them. A text is the list
-- of its UTF-16 code units; an amount is not negative.
pub mod Written
pub mod RoundTrip
pub mod Fields
use cap_rail.Prelude.{
  Bool, List, Option, ℕ, [], if◌then◌else◌, keep, leb, length, ltb, map, none, not, some, suc, zero,
  ◌%◌, ◌&&◌, ◌++◌, ◌+◌, ◌-◌, ◌/◌, ◌==◌, ◌^◌, ◌||◌, ◌∷◌,
}
use cap_rail.Shared.Digits.{from_digits, to_digits}
use mathlib.Core.Option

-- `\s`
abbrev pub is_space : ℕ → Bool
is_space c =
    (leb 9 c && leb c 13)
    || c == 32
    || c == 160
    || c == 0x1680
    || (leb 0x2000 c && leb c 0x200a)
    || c == 0x2028
    || c == 0x2029
    || c == 0x202f
    || c == 0x205f
    || c == 0x3000
    || c == 0xfeff

-- `[\s,_']`
abbrev pub is_separator : ℕ → Bool
is_separator c = c == b',' || c == b'_' || c == 39 || is_space c

abbrev pub without_separators : List ℕ → List ℕ
without_separators raw = keep (λ c. not (is_separator c)) raw

abbrev pub is_digit_unit : ℕ → Bool
is_digit_unit c = leb b'0' c && leb c b'9'

-- `\d*`: the digits in front, and what follows.
abbrev pub span_digits : List ℕ → List ℕ × List ℕ
span_digits [] = ([], [])
span_digits (c ∷ text) =
    let (front, rest) = span_digits text in
    if is_digit_unit c then (c ∷ front, rest) else ([], c ∷ text)

-- `\.(\d+)$`: the digits up to the end behind a point.
abbrev pub fraction_of : ℕ → List ℕ × List ℕ → Option (List ℕ)
fraction_of c (first ∷ digits, []) = if c == b'.' then some (first ∷ digits) else none
fraction_of c _ = none

abbrev match_fraction : List ℕ → Option (List ℕ)
match_fraction [] = some []
match_fraction (c ∷ text) = fraction_of c (span_digits text)

abbrev pub number_of : List ℕ × List ℕ → Option (List ℕ × List ℕ)
number_of ([], rest) = none
number_of (first ∷ digits, rest) =
    Option.map (λ fraction. (first ∷ digits, fraction)) (match_fraction rest)

-- `/^(\d+)(?:\.(\d+))?$/`
abbrev pub match_number : List ℕ → Option (List ℕ × List ℕ)
match_number text = number_of (span_digits text)

-- `n` times the digit 0.
abbrev pub zero_units : ℕ → List ℕ
zero_units zero = []
zero_units (suc n) = b'0' ∷ zero_units n

-- `text.padEnd(n, '0')` and `text.padStart(n, '0')`
abbrev pad_end : ℕ → List ℕ → List ℕ
pad_end n text = text ++ zero_units (n - length text)

abbrev pub pad_start : ℕ → List ℕ → List ℕ
pad_start n text = zero_units (n - length text) ++ text

-- `BigInt(text)` of digits.
abbrev pub big_int : List ℕ → ℕ
big_int text = from_digits 10 0 (map (λ c. c - b'0') text)

abbrev pub scaled : ℕ → List ℕ × List ℕ → Option ℕ
scaled decimals (whole, fraction) =
    if ltb decimals (length fraction)
    then none
    else some (big_int (whole ++ pad_end decimals fraction))

abbrev pub read_parts : ℕ → Option (List ℕ × List ℕ) → Option ℕ
read_parts decimals none = none
read_parts decimals (some parts) = scaled decimals parts

unfoldable pub to_base_units : List ℕ → ℕ → Option ℕ
to_base_units raw decimals = read_parts decimals (match_number (without_separators raw))

-- `n.toString()`
abbrev pub to_string : ℕ → List ℕ
to_string n = if n == 0 then b'0' ∷ [] else map (λ d. d + b'0') (to_digits 10 n)

-- `whole.replace(/\B(?=(\d{3})+(?!\d))/g, ',')`: a comma wherever a positive multiple of three digits follows.
abbrev pub grouped : List ℕ → List ℕ
grouped [] = []
grouped (c ∷ text) =
    let rest = grouped text in
    if ltb 0 (length text) && length text % 3 == 0 then c ∷ b',' ∷ rest else c ∷ rest

-- `fraction.replace(/0+$/, '')`
abbrev pub trim_zeros : List ℕ → List ℕ
trim_zeros [] = []
trim_zeros (c ∷ text) = elim (trim_zeros text) [
  | [] ↦ if c == b'0' then [] else c ∷ []
  | d ∷ rest ↦ c ∷ d ∷ rest
]

abbrev pub with_fraction : List ℕ → List ℕ → List ℕ
with_fraction whole [] = whole
with_fraction whole (c ∷ fraction) = whole ++ b'.' ∷ c ∷ fraction

unfoldable pub from_base_units : ℕ → ℕ → List ℕ
from_base_units value decimals =
    let whole = to_string (value / 10 ^ decimals) in
    let fraction = pad_start decimals (to_string (value % 10 ^ decimals)) in
    with_fraction (grouped whole) (trim_zeros fraction)

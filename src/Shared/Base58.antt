-- ===== src/Shared/Base58.antt =====
-- packages/shared/src/primitives.ts: decodeBase58 and encodeBase58, on the loops of Digits.
pub mod Laws
pub mod RoundTrip
use Prim.Native.Char.{Char, code, nul}
use cap_rail.Prelude.{
  List, Option, String, ℕ, [], false, if◌then◌else◌, none, reverse, some, suc, true, zero, ◌%◌, ◌*◌,
  ◌++◌, ◌+◌, ◌/◌, ◌==◌,
}
use cap_rail.Shared.Digits.{from_digits, leading_zeros, push_digits, zeros}
use mathlib.Core.Option

-- BASE58_ALPHABET
unfoldable pub base58_alphabet : String
base58_alphabet = "123456789ABCDEFGHJKLMNPQRSTUVWXYZabcdefghijkmnopqrstuvwxyz"

-- `text.indexOf(char)`: `none` where it answers -1.
abbrev pub index_of : Char → String → Option ℕ
index_of c String.[] = none
index_of c (String.◌∷◌ d text) =
    let rest = index_of c text in if code c == code d then some 0 else Option.map suc rest

-- `text[i]`; every index the code takes is in range.
abbrev pub symbol_at : ℕ → String → Char
symbol_at i String.[] = nul
symbol_at zero (String.◌∷◌ c text) = c
symbol_at (suc i) (String.◌∷◌ c text) = symbol_at i text

-- The loop that reads the digits of a text into a value.
unfoldable pub read_base58 : ℕ → String → Option ℕ
read_base58 value String.[] = some value
read_base58 value (String.◌∷◌ c text) = elim (index_of c base58_alphabet) [
  | none ↦ none
  | some digit ↦ read_base58 (value * 58 + digit) text
]

-- `while (text[leadingZeros] === '1') leadingZeros += 1`
abbrev pub leading_ones : String → ℕ
leading_ones String.[] = 0
leading_ones (String.◌∷◌ c text) =
    let rest = leading_ones text in if code c == b'1' then suc rest else 0

unfoldable pub decode_base58 : String → Option (List ℕ)
decode_base58 String.[] = none
decode_base58 (String.◌∷◌ c rest) =
    let text = String.◌∷◌ c rest in
    Option.map (λ value. zeros (leading_ones text) ++ reverse (push_digits 256 value value []))
      (read_base58 0 text)

-- The loop that puts the digits of a value in front of a text, on fuel.
unfoldable pub write_base58 : ℕ → ℕ → String → String
write_base58 zero value text = text
write_base58 (suc fuel) value text = elim (value == 0) [
  | true ↦ text
  | false ↦
      write_base58 fuel (value / 58) (String.◌∷◌ (symbol_at (value % 58) base58_alphabet) text)
]

-- `'1'.repeat(n) + text`
abbrev pub ones : ℕ → String → String
ones zero text = text
ones (suc n) text = String.◌∷◌ "1" (ones n text)

unfoldable pub encode_base58 : List ℕ → String
encode_base58 bytes =
    let value = from_digits 256 0 bytes in
    ones (leading_zeros bytes) (write_base58 value value String.[])

-- ===== src/Shared/Base58/RoundTrip.antt =====
-- Encoding and decoding in base 58 undo each other.
use cap_rail.Prelude.{
  List, Option-cases, String, ℕ, [], ap, arith, inl, inr, none, refl, reverse, some, sym, ◌++◌, ◌<◌,
  ◌∙◌, ◌∷◌, ◌≡◌, ◌≢◌,
}
use cap_rail.Shared.Base58.{decode_base58, encode_base58, leading_ones, ones, read_base58}
use cap_rail.Shared.Base58.Laws.{
  digits_of, digits_of-text_of, leading_ones-text_of, ones-text_of, read-digits_of, text_of,
  text_of-digits_of, write-text_of,
}
use cap_rail.Shared.Digits.{
  from_digits, leading_zeros, prepend_digits, push_digits, to_digits, zeros,
}
use cap_rail.Shared.Digits.Laws.{Below, reverse-push_digits}
use cap_rail.Shared.Digits.RoundTrip.{change_base, change_base-Below, change_base-back}
use mathlib.Core.Option.{some-injective}
use mathlib.Core.Option

encode-change_base : (bytes : List ℕ) → encode_base58 bytes ≡ text_of (change_base 256 58 bytes)
unfolding encode_base58 to_digits
encode-change_base bytes =
    let value = from_digits 256 0 bytes in
    ap (λ t. ones (leading_zeros bytes) t) (write-text_of value value [])
    ∙ ones-text_of (leading_zeros bytes) (to_digits 58 value)

decoded-text_of :
    (digits : List ℕ)
    → Below 58 digits
    → Option.map
        (λ value. zeros (leading_ones (text_of digits)) ++ reverse (push_digits 256 value value []))
        (read_base58 0 (text_of digits))
      ≡ some (change_base 58 256 digits)
unfolding to_digits
decoded-text_of digits h =
    let value = from_digits 58 0 digits in
    rw
      (
        read-digits_of 0 (text_of digits),
        digits_of-text_of digits h,
        leading_ones-text_of digits h,
        reverse-push_digits 256 value value [],
      )
      refl

decode-change_base :
    (digits : List ℕ)
    → digits ≢ []
    → Below 58 digits
    → decode_base58 (text_of digits) ≡ some (change_base 58 256 digits)
unfolding decode_base58
decode-change_base [] some_ h = ground (arith, some_ refl)
decode-change_base (d ∷ digits) some_ h = decoded-text_of (d ∷ digits) h

nil-not_cons : (byte : ℕ) (bytes : List ℕ) → [] ≢ byte ∷ bytes
nil-not_cons byte bytes h = ground (arith, h)

change_base-nonempty :
    (from to byte : ℕ) (bytes : List ℕ)
    → 1 < from
    → 1 < to
    → Below from (byte ∷ bytes)
    → change_base from to (byte ∷ bytes) ≢ []
unfolding to_digits prepend_digits
change_base-nonempty from to byte bytes f t h empty =
    let back =
      ap (change_base to from) (sym empty) ∙ change_base-back from to (byte ∷ bytes) f t h in
    nil-not_cons byte bytes back

-- Bytes, at least one and each below 256, that are encoded decode to the same bytes, leading zeros
-- included.
pub decode-encode :
    (byte : ℕ) (bytes : List ℕ)
    → Below 256 (byte ∷ bytes)
    → decode_base58 (encode_base58 (byte ∷ bytes)) ≡ some (byte ∷ bytes)
decode-encode byte bytes h =
    let digits = change_base 256 58 (byte ∷ bytes) in
    ap decode_base58 (encode-change_base (byte ∷ bytes))
    ∙ decode-change_base digits
        (change_base-nonempty 256 58 byte bytes (omega arith) (omega arith) h)
        (change_base-Below 256 58 (byte ∷ bytes) (omega arith))
    ∙ ap some (change_base-back 256 58 (byte ∷ bytes) (omega arith) (omega arith) h)

-- A text with a foreign character is refused.
undecoded : (text : String) → digits_of text ≡ none → decode_base58 text ≡ none
unfolding decode_base58
undecoded String.[] h = refl
undecoded (String.◌∷◌ c rest) h =
    let text = String.◌∷◌ c rest in
    let unread = read-digits_of 0 text ∙ ap (Option.map (λ digits. from_digits 58 0 digits)) h in
    ap (Option.map (λ value. zeros (leading_ones text) ++ reverse (push_digits 256 value value [])))
      unread

-- A text that decodes is spelled by digits.
decode-digits :
    (text : String) (bytes : List ℕ)
    → decode_base58 text ≡ some bytes
    → (digits : List ℕ) × (text_of digits ≡ text) × Below 58 digits × (digits ≢ [])
unfolding decode_base58
decode-digits String.[] bytes h = ground (arith, h)
decode-digits (String.◌∷◌ c rest) bytes h =
    let text = String.◌∷◌ c rest in
    elim (Option-cases (digits_of text)) [
      | inl n ↦ ground (arith, undecoded text n, h)
      | inr (digits, q) ↦
          let (same, below) = text_of-digits_of text digits q in
          (digits, same, below, λ empty. ground (arith, ap text_of (sym empty) ∙ same))
    ]

-- A text that decodes to some bytes is the text that those bytes encode to.
encode-decode :
    (text : String) (bytes : List ℕ) → decode_base58 text ≡ some bytes → encode_base58 bytes ≡ text
encode-decode text bytes h =
    let (digits, same, below, full) = decode-digits text bytes h in
    let decoded = ap decode_base58 (sym same) ∙ decode-change_base digits full below in
    let found = some-injective bytes (change_base 58 256 digits) (sym h ∙ decoded) in
    ap encode_base58 found
    ∙ encode-change_base (change_base 58 256 digits)
    ∙ ap text_of (change_base-back 58 256 digits (omega arith) (omega arith) below)
    ∙ same

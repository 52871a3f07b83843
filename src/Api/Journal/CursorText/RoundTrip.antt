-- ===== src/Api/Journal/CursorText/RoundTrip.antt =====
-- A client that gives back the texts of the cursors.
use cap_rail.Api.Journal.{Cursor}
use cap_rail.Api.Journal.CursorText.{among, decode_cursor, encode_cursor, match_cursor, time_text}
use cap_rail.Panel.Amounts.{big_int, is_digit_unit, span_digits, to_string}
use cap_rail.Panel.Amounts.Written.{
  Decimal, chars, length-chars, length-number_digits, number_digits, number_digits-Decimal,
  number_digits-nonempty, number_digits-value, span-chars, to_string-chars, value-chars,
}
use cap_rail.Prelude.{
  All, All-append, List, ℕ, [], ap, arith, false, length, refl, some, sym, true, ◌++◌, ◌<◌, ◌^◌,
  ◌∙◌, ◌∷◌, ◌≡◌, ◌≢◌, ◌≤◌,
}
use cap_rail.Prelude.Int.{pos}
use mathlib.Core.List.{append-nil}

span-to_string :
    (n : ℕ) (c : ℕ) (rest : List ℕ)
    → is_digit_unit c ≡ false
    → span_digits (to_string n ++ c ∷ rest) ≡ (to_string n, c ∷ rest)
span-to_string n c rest h =
    rw (to_string-chars n) (span-chars (number_digits n) (c ∷ rest) (number_digits-Decimal n) h)

span-to_string_end : (n : ℕ) → span_digits (to_string n) ≡ (to_string n, [])
span-to_string_end n = rw (to_string-chars n) (
    ap span_digits (sym (append-nil (chars (number_digits n))))
    ∙ span-chars (number_digits n) [] (number_digits-Decimal n) tt)

big_int-to_string : (n : ℕ) → big_int (to_string n) ≡ n
big_int-to_string n = rw (to_string-chars n, value-chars (number_digits n)) (number_digits-value n)

nonempty_length : (digits : List ℕ) → digits ≢ [] → 1 ≤ length digits
nonempty_length [] h = absurd (h refl)
nonempty_length (d ∷ digits) h = omega arith

to_string-among : (n most : ℕ) → 0 < most → n < 10 ^ most → among 1 most (to_string n) ≡ true
to_string-among n most p h =
    let least : 1 ≤ length (number_digits n) =
      nonempty_length (number_digits n) (number_digits-nonempty n) in
    let most_ : length (number_digits n) ≤ most = length-number_digits n most p h in
    rw (to_string-chars n, length-chars (number_digits n)) (ground (arith, least, most_))

abbrev pub Ascii : List ℕ → Type 0
Ascii text = All (λ c. c < 128) text

chars-Ascii : (digits : List ℕ) → Decimal digits → Ascii (chars digits)
chars-Ascii [] h = tt
chars-Ascii (d ∷ digits) (h, others) = (omega (arith, h), chars-Ascii digits others)

to_string-Ascii : (n : ℕ) → Ascii (to_string n)
to_string-Ascii n = rw (to_string-chars n) (chars-Ascii (number_digits n) (number_digits-Decimal n))

-- A time that has at most 15 digits and lies not before 1970, and an id of at most 19.
abbrev pub Readable : Cursor → Type 0
Readable cursor = ((n : ℕ) × (cursor.block_time ≡ pos n) × (n < 10 ^ 15)) × (cursor.id < 10 ^ 19)

match_written :
    (time id : ℕ)
    → time < 10 ^ 15
    → id < 10 ^ 19
    → match_cursor (span_digits (to_string time ++ b':' ∷ to_string id))
      ≡ some (record { block_time = pos time; id = id })
match_written time id h g =
    rw
      (
        span-to_string time b':' (to_string id) refl,
        span-to_string_end id,
        to_string-among time 15 (omega arith) h,
        to_string-among id 19 (omega arith) g,
        big_int-to_string time,
        big_int-to_string id,
      )
      refl

module _ (to_base64url from_base64url : List ℕ → List ℕ)
    (back : (text : List ℕ) → Ascii text → from_base64url (to_base64url text) ≡ text) where
  pub decode_cursor-encode_cursor :
      (cursor : Cursor)
      → Readable cursor
      → decode_cursor from_base64url (encode_cursor to_base64url cursor) ≡ some cursor
  unfolding decode_cursor encode_cursor
  decode_cursor-encode_cursor cursor ((n, e, less), h) =
      let text = to_string n ++ b':' ∷ to_string cursor.id in
      let ascii : Ascii text =
        All-append (λ c. c < 128) (to_string n) (b':' ∷ to_string cursor.id) (to_string-Ascii n)
          (omega arith, to_string-Ascii cursor.id) in
      ap
        (λ time. match_cursor (
          span_digits
            (from_base64url (to_base64url (time_text time ++ b':' ∷ to_string cursor.id)))))
        e
      ∙ ap (λ t. match_cursor (span_digits t)) (back text ascii)
      ∙ match_written n cursor.id less h
      ∙ ap (λ time. some (record { block_time = time; id = cursor.id })) (sym e)

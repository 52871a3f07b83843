-- ===== src/Api/Journal/CursorText.antt =====
-- apps/api/src/index/reader.ts: encodeCursor and decodeCursor, and the journal as a client reads it, who
-- gets and gives back the text of a cursor. Buffer's base64url is the two parameters.
pub mod Follow
pub mod RoundTrip
use cap_rail.Api.Journal.{Cursor, JournalPage, JournalQuery, JournalRow, journal}
use cap_rail.Panel.Amounts.{big_int, span_digits, to_string}
use cap_rail.Prelude.{
  Bool, List, Option, ℕ, [], if◌then◌else◌, leb, length, none, some, suc, ◌&&◌, ◌++◌, ◌==◌, ◌∷◌,
}
use cap_rail.Prelude.Int.{ℤ, negsuc, pos}
use mathlib.Core.Option

-- `date.getTime()` in a template.
abbrev pub time_text : ℤ → List ℕ
time_text (pos n) = to_string n
time_text (negsuc n) = b'-' ∷ to_string (suc n)

-- `{from,to}` of a quantifier, greedy, where no digit follows.
abbrev pub among : ℕ → ℕ → List ℕ → Bool
among least most text = leb least (length text) && leb (length text) most

-- `/^(\d{1,15}):(\d{1,19})$/`, from the digits in front on, and the two numbers.
abbrev pub cursor_from : List ℕ → List ℕ × List ℕ → Option Cursor
cursor_from time (id, []) =
    if among 1 15 time && among 1 19 id
    then some (record { block_time = pos (big_int time); id = big_int id })
    else none
cursor_from time _ = none

abbrev pub match_cursor : List ℕ × List ℕ → Option Cursor
match_cursor (time, []) = none
match_cursor (time, c ∷ rest) = if c == b':' then cursor_from time (span_digits rest) else none

unfoldable pub encode_cursor : (List ℕ → List ℕ) → Cursor → List ℕ
encode_cursor to_base64url cursor =
    to_base64url (time_text cursor.block_time ++ b':' ∷ to_string cursor.id)

unfoldable pub decode_cursor : (List ℕ → List ℕ) → List ℕ → Option Cursor
decode_cursor from_base64url text = match_cursor (span_digits (from_base64url text))

-- What a client asks for: the query, with a cursor as text in place of the cursor.
-- `query.cursor === undefined ? null : decodeCursor(query.cursor)`: one that is not read is none.
abbrev pub read_cursor : (List ℕ → List ℕ) → Option (List ℕ) → Option Cursor
read_cursor from_base64url none = none
read_cursor from_base64url (some text) = decode_cursor from_base64url text

-- ===== src/Indexer/Text.antt =====
-- The text operations behind the regular expressions of packages/indexer/src/logs.ts.
use Prim.Native.Char.{Char, code}
use cap_rail.Prelude.{
  Bool, Option, String, ℕ, false, if◌then◌else◌, leb, none, not, some, true, ◌&&◌, ◌*◌, ◌+◌, ◌-◌,
  ◌==◌, ◌||◌,
}

-- The rest of a text behind a prefix: `none` where it does not begin so.
unfoldable pub strip : String → String → Option String
strip String.[] text = some text
strip (String.◌∷◌ p prefix) String.[] = none
strip (String.◌∷◌ p prefix) (String.◌∷◌ c text) =
    if code p == code c then strip prefix text else none

-- `\w`
unfoldable pub is_word : Char → Bool
is_word c =
    (leb b'0' (code c) && leb (code c) b'9')
    || (leb b'A' (code c) && leb (code c) b'Z')
    || (leb b'a' (code c) && leb (code c) b'z')
    || code c == b'_'

-- `\d`
unfoldable pub is_digit : Char → Bool
is_digit c = leb b'0' (code c) && leb (code c) b'9'

-- The longest beginning of a text whose characters all pass, and what follows.
unfoldable pub span : (Char → Bool) → String → String × String
span test String.[] = (String.[], String.[])
span test (String.◌∷◌ c text) =
    let (front, rest) = span test text in
    if test c then (String.◌∷◌ c front, rest) else (String.[], String.◌∷◌ c text)

unfoldable pub is_empty : String → Bool
is_empty String.[] = true
is_empty (String.◌∷◌ _ _) = false

-- `.*$`: no line terminator up to the end.
unfoldable pub on_one_line : String → Bool
on_one_line String.[] = true
on_one_line (String.◌∷◌ c text) =
    not (code c == 10 || code c == 13 || code c == 0x2028 || code c == 0x2029) && on_one_line text

-- The value of a run of decimal digits, behind those read so far.
unfoldable pub decimal : ℕ → String → ℕ
decimal acc String.[] = acc
decimal acc (String.◌∷◌ c text) = decimal (acc * 10 + (code c - b'0')) text

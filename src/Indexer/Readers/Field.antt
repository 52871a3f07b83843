-- ===== src/Indexer/Readers/Field.antt =====
-- packages/indexer/src/events.ts: the readers of one field of the decoded data.
use Prim.Native.Char.{Char, IsScalar, char}
use Prim.Native.Nat.{Ordering, compare}
use cap_rail.Prelude.{
  Bool, List, Option, String, ℕ, [], arith, if◌then◌else◌, none, some, ◌%◌, ◌&&◌, ◌===◌, ◌==◌, ◌||◌,
  ◌∷◌, ◌≡◌,
}
use cap_rail.Prelude.Int.{ℤ, ltb_ℤ, negsuc, pos}
use cap_rail.Result.{Result, bad_event, err, ok, or_throw, ◌>>=◌}
use cap_rail.Shared.Market.{InvestorStatus, TransferPolicy, approved, revoked, unset}

-- A value as Anchor's coder hands it over. A BN is `unsigned` where the IDL says u64 and `signed`
-- where it says i64; a `[u8; n]` is `bytes`.
mutual
  pub data Value : Type 0 where
    null : Value
    number : ℕ → Value
    boolean : Bool → Value
    text : String → Value
    key : String → Value
    unsigned : ℕ → Value
    signed : ℤ → Value
    bytes : List ℕ → Value
    struct : Fields → Value

  pub data Fields : Type 0 where
    end : Fields
    field : String → Value → Fields → Fields

-- `data[key]`; `null` where the property is missing, which every reader refuses alike.
unfoldable pub get : Fields → String → Value
get end name = null
get (field name' value rest) name = if name' === name then value else get rest name

-- An object that is no struct has none of the properties that are read.
unfoldable pub fields : Value → String → Result Fields
fields (struct data_) where_ = ok data_
fields (key _) where_ = ok end
fields (unsigned _) where_ = ok end
fields (signed _) where_ = ok end
fields (bytes _) where_ = ok end
fields _ where_ = err (bad_event where_)

unfoldable pub read_pubkey : Value → String → Result String
read_pubkey (key value) name = ok value
read_pubkey _ name = err (bad_event name)

unfoldable pub pubkey : Fields → String → Result String
unfolding get read_pubkey
pubkey data_ name = read_pubkey (get data_ name) name

-- No signed field of the IDL is read as an amount, and the text of another object is no integer.
unfoldable pub read_big : Value → String → Result ℕ
read_big (unsigned n) name = ok n
read_big (signed (pos n)) name = ok n
read_big _ name = err (bad_event name)

unfoldable pub big : Fields → String → Result ℕ
unfolding get read_big
big data_ name = read_big (get data_ name) name

abbrev max_safe_integer : ℕ
max_safe_integer = 9007199254740991

-- Beyond what a JavaScript number holds exactly.
unfoldable pub is_unsafe : ℤ → Bool
is_unsafe value = ltb_ℤ (pos max_safe_integer) value || ltb_ℤ value (negsuc 9007199254740990)

unfoldable pub safe : ℤ → String → Result ℤ
unfolding is_unsafe
safe value name = if is_unsafe value then err (bad_event name) else ok value

unfoldable pub read_unix : Value → String → Result ℤ
unfolding safe
read_unix (unsigned n) name = safe (pos n) name
read_unix (signed value) name = safe value name
read_unix _ name = err (bad_event name)

unfoldable pub unix : Fields → String → Result ℤ
unfolding get read_unix
unix data_ name = read_unix (get data_ name) name

unfoldable pub read_num : Value → String → Result ℕ
read_num (number n) name = ok n
read_num _ name = err (bad_event name)

unfoldable pub num : Fields → String → Result ℕ
unfolding get read_num
num data_ name = read_num (get data_ name) name

unfoldable pub read_bool : Value → String → Result Bool
read_bool (boolean b) name = ok b
read_bool _ name = err (bad_event name)

unfoldable pub bool : Fields → String → Result Bool
unfolding get read_bool
bool data_ name = read_bool (get data_ name) name

unfoldable pub read_str : Value → String → Result String
read_str (text s) name = ok s
read_str _ name = err (bad_event name)

unfoldable pub str : Fields → String → Result String
unfolding get read_str
str data_ name = read_str (get data_ name) name

unfoldable pub policy : Fields → String → Result TransferPolicy
unfolding get fields bool num
policy data_ name = do
  value ← fields (get data_ name) name
  require_accreditation ← bool value "requireAccreditation"
  require_rofr ← bool value "requireRofr"
  rofr_window_secs ← num value "rofrWindowSecs"
  ok (record {
    require_accreditation = require_accreditation;
    require_rofr = require_rofr;
    rofr_window_secs = rofr_window_secs;
  })

-- `STATUS_VARIANTS`
unfoldable pub status_variant : String → Option InvestorStatus
status_variant variant =
    if variant === "none"
    then some unset
    else if variant === "approved"
    then some approved
    else if variant === "revoked"
    then some revoked
    else none

-- `Object.keys(value)[0]`
unfoldable pub first_key : Fields → Option String
first_key end = none
first_key (field name _ _) = some name

unfoldable pub mapped : Option String → Option InvestorStatus
unfolding status_variant
mapped none = none
mapped (some variant) = status_variant variant

unfoldable pub status : Fields → String → Result InvestorStatus
unfolding get fields first_key mapped
status data_ name = do
  value ← fields (get data_ name) name
  or_throw (mapped (first_key value)) (bad_event name)

pub byte-lt : (n : ℕ) → compare (n % 256) 55296 ≡ Ordering.lt
byte-lt n = ground arith

pub byte-IsScalar : (n : ℕ) → IsScalar (n % 256)
byte-IsScalar n = rw (byte-lt n) tt

-- `String.fromCharCode` of a byte.
unfoldable pub from_char_code : ℕ → Char
from_char_code n = char (n % 256) (byte-IsScalar n)

unfoldable pub read_jurisdiction : Value → String → Result (Option String)
unfolding from_char_code
read_jurisdiction (bytes (a ∷ b ∷ [])) name =
    if a == 0 && b == 0
    then ok none
    else ok (some (String.◌∷◌ (from_char_code a) (String.◌∷◌ (from_char_code b) String.[])))
read_jurisdiction _ name = err (bad_event name)

unfoldable pub jurisdiction : Fields → String → Result (Option String)
unfolding get read_jurisdiction
jurisdiction data_ name = read_jurisdiction (get data_ name) name

-- ===== src/Indexer/Readers.antt =====
-- packages/indexer/src/events.ts: `decodeEvent`, with Anchor's coder as a parameter.
pub mod Field
pub mod Records
use Prim.Native.Char.{Char, IsScalar, char}
use Prim.Native.Nat.{Ordering, compare}
use cap_rail.Indexer.Events.{
  IndexEvent, company_created, investor_status_set, offer_accepted, offer_cancelled, offer_created,
  policy_set, roles_set, token_created, transfer_allowed,
}
use cap_rail.Indexer.Readers.Field.{Fields, Value, fields}
use cap_rail.Indexer.Readers.Records.{
  company_created_of, investor_status_set_of, offer_accepted_of, offer_cancelled_of,
  offer_created_of, policy_set_of, readers, roles_set_of, token_created_of, transfer_allowed_of,
}
use cap_rail.Prelude.{
  Bool, List, Option, String, ℕ, [], arith, drop, false, if◌then◌else◌, none, some, true, ◌%◌, ◌&&◌,
  ◌===◌, ◌==◌, ◌||◌, ◌∷◌, ◌≡◌,
}
use cap_rail.Prelude.Int.{ℤ, ltb_ℤ, negsuc, pos}
use cap_rail.Result.{Result, bad_event, err, ok, or_throw, ◌>>=◌}
use cap_rail.Shared.Market.{InvestorStatus, TransferPolicy, approved, revoked, unset}

reader_in :
    List (String × (Fields → Result IndexEvent)) → String → Option (Fields → Result IndexEvent)
reader_in [] name = none
reader_in ((name', read) ∷ rest) name = if name' === name then some read else reader_in rest name

-- Anchor's event coder, its encoder, and `Buffer.from(_, 'base64')`.
pub record Coder : Type 0 where
  pub decode : String → Option (String × Value)
  pub encode : String → Value → List ℕ
  pub from_base64 : String → List ℕ

equal_bytes : List ℕ → List ℕ → Bool
equal_bytes [] [] = true
equal_bytes (a ∷ as_) (b ∷ bs) = a == b && equal_bytes as_ bs
equal_bytes _ _ = false

read_event :
    Value → String → Option (Fields → Result IndexEvent) → Bool → Result (Option IndexEvent)
unfolding fields
read_event data_ name none faithful = ok none
read_event data_ name (some read) false = err (bad_event name)
read_event data_ name (some read) true = do d ← fields data_ name; event ← read d; ok (some event)

-- The payload behind the eight bytes of the discriminator must encode back to itself.
unfoldable pub decode_event : Coder → String → Result (Option IndexEvent)
unfolding read_event reader_in equal_bytes company_created_of token_created_of policy_set_of
    roles_set_of investor_status_set_of transfer_allowed_of offer_created_of offer_accepted_of
    offer_cancelled_of
decode_event coder base64 = elim (coder.decode base64) [
  | none ↦ ok none
  | some (name, data_) ↦
      read_event data_ name (reader_in readers name)
        (equal_bytes (coder.encode name data_) (drop 8 (coder.from_base64 base64)))
]

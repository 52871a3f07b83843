-- ===== src/Worker/Stale.antt =====
-- apps/worker/src/stale.ts, and `offerBook` of apps/worker/src/index-store.ts: the sweep that reads
-- the sellers' token accounts and judges how much of each open offer they can deliver.
pub mod Bounds
use Prim.Native.Nat.{min}
use cap_rail.Prelude.{
  Bool, List, Option, String, ℕ, [], false, has, if◌then◌else◌, is_none, keep, leb, length, ltb,
  map, none, not, some, suc, take, true, zero, ◌&&◌, ◌+◌, ◌-◌, ◌===◌, ◌==◌, ◌||◌, ◌∷◌, ◌≡◌,
}
use cap_rail.Prelude.Int.{ℤ, ltb_ℤ, pos, ◌-ℤ◌}
use cap_rail.Result.{Result, err, ok}
use cap_rail.Shared.Market.{
  OfferStaleReason, account_missing, balance_short, delegation_short, frozen, is_open,
  not_delegated,
}
use cap_rail.Table.{update_where}
use cap_rail.Worker.Rows.{Index, OfferRow}

abbrev pub stale_ttl_ms : ℤ
stale_ttl_ms = pos 30000

abbrev sweep_batch : ℕ
sweep_batch = 100

pub record TokenAccountState : Type 0 where
  pub amount : ℕ
  pub delegate : Option String
  pub delegated_amount : ℕ
  pub is_frozen : Bool

pub record OpenOffer : Type 0 where
  pub offer : String
  pub mint : String
  pub seller : String
  pub remaining : ℕ

pub record Reading : Type 0 where
  pub available : ℕ
  pub stale_reason : Option OfferStaleReason
  pub checked_at : ℤ
  pub checked_slot : ℕ

pub record Assessment : Type 0 where
  pub available : ℕ
  pub stale_reason : Option OfferStaleReason

-- `delegate === offer`
abbrev pub is_delegate : String → Option String → Bool
is_delegate offer none = false
is_delegate offer (some delegate) = delegate === offer

abbrev smaller : ℕ → ℕ → ℕ
smaller a b = if ltb a b then a else b

unfoldable pub assess_account : String → ℕ → TokenAccountState → Assessment
assess_account offer remaining account =
    let available = smaller remaining (smaller account.delegated_amount account.amount) in
    if account.is_frozen
    then record { available = 0; stale_reason = some frozen }
    else if not (is_delegate offer account.delegate)
    then record { available = 0; stale_reason = some not_delegated }
    else if available == remaining
    then record { available = available; stale_reason = none }
    else record {
      available = available;
      stale_reason =
          some (if ltb account.delegated_amount remaining then delegation_short else balance_short);
    }

unfoldable pub assess : String → ℕ → Option TokenAccountState → Assessment
unfolding assess_account
assess offer remaining none = record { available = 0; stale_reason = some account_missing }
assess offer remaining (some account) = assess_account offer remaining account

-- `isNull(checkedAt) or checkedAt < before`
abbrev read_before : Option ℤ → ℤ → Bool
read_before none before = true
read_before (some checked_at) before = ltb_ℤ checked_at before

unfoldable is_due : ℤ → OfferRow → Bool
is_due before row = is_open row.status && read_before row.checked_at before

-- `checked_at ASC NULLS FIRST, offer ASC`, in the database's order of texts.
comes_first : (String → String → Bool) → OfferRow → OfferRow → Bool
comes_first text_before a b = elim a.checked_at [
  | none ↦ elim b.checked_at [ none ↦ text_before a.offer b.offer | some _ ↦ true ]
  | some at ↦ elim b.checked_at [
    | none ↦ false
    | some at' ↦ ltb_ℤ at at' || (not (ltb_ℤ at' at) && text_before a.offer b.offer)
  ]
]

place : (OfferRow → OfferRow → Bool) → OfferRow → List OfferRow → List OfferRow
place first row [] = row ∷ []
place first row (head ∷ rest) =
    if first row head then row ∷ head ∷ rest else head ∷ place first row rest

order_by : (OfferRow → OfferRow → Bool) → List OfferRow → List OfferRow
unfolding place
order_by first [] = []
order_by first (row ∷ rows) = place first row (order_by first rows)

abbrev pub open_offer : OfferRow → OpenOffer
open_offer row = record {
  offer = row.offer;
  mint = row.mint;
  seller = row.seller;
  remaining = row.remaining;
}

unfoldable pub due : (String → String → Bool) → ℤ → ℕ → Index → List OpenOffer
unfolding is_due comes_first order_by
due text_before before limit index =
    map open_offer
      (take limit (order_by (comes_first text_before) (keep (is_due before) index.offers)))

-- `checkedSlot IS NULL OR checkedSlot <= slot`
abbrev read_up_to : Option ℕ → ℕ → Bool
read_up_to none slot = true
read_up_to (some checked) slot = leb checked slot

unfoldable pub accepts : OpenOffer → Reading → OfferRow → Bool
accepts offer reading row =
    row.offer === offer.offer
    && is_open row.status
    && row.remaining == offer.remaining
    && leb row.touched_slot reading.checked_slot
    && read_up_to row.checked_slot reading.checked_slot

unfoldable pub with_reading : Reading → OfferRow → OfferRow
with_reading reading row = record row {
  available = some reading.available;
  stale_reason = reading.stale_reason;
  checked_at = some reading.checked_at;
  checked_slot = some reading.checked_slot;
}

-- `OfferBook.record`: whether a row was written, and the table.
unfoldable pub record_reading : OpenOffer → Reading → Index → Bool × Index
unfolding accepts with_reading
record_reading offer reading index = (
  has (accepts offer reading) index.offers,
  record index {
    offers = update_where (accepts offer reading) (with_reading reading) index.offers;
  },
)

pub record SweepResult : Type 0 where
  pub due : ℕ
  pub written : ℕ
  discarded : ℕ

pub record AccountsRead : Type 0 where
  pub slot : ℕ
  pub accounts : List (Option TokenAccountState)

-- The clock, the batched RPC read, `ata` and the database's order of texts. `meanwhile` is what other
-- transactions do to the index while the read is under way.
pub record SweepDeps : Type 0 where
  pub now : ℤ
  pub ttl_ms : ℤ
  pub ata : String → String → String
  pub token_accounts : List String → Result AccountsRead
  pub text_before : String → String → Bool
  pub meanwhile : Index → Index

unfoldable pub reading_of : ℤ → ℕ → OpenOffer → Option TokenAccountState → Reading
reading_of started slot offer account =
    let judged = assess offer.offer offer.remaining account in
    record {
      available = judged.available;
      stale_reason = judged.stale_reason;
      checked_at = started;
      checked_slot = slot;
    }

-- `read.accounts[i] ?? null` and the rest of the accounts.
abbrev pub first_account : List (Option TokenAccountState) → Option TokenAccountState
first_account [] = none
first_account (account ∷ _) = account

abbrev pub later_accounts : List (Option TokenAccountState) → List (Option TokenAccountState)
later_accounts [] = []
later_accounts (_ ∷ rest) = rest

-- The loop of the pass: how many readings were written.
unfoldable pub record_all :
    ℤ → ℕ → List OpenOffer → List (Option TokenAccountState) → Index → ℕ × Index
unfolding reading_of
record_all started slot [] accounts index = (0, index)
record_all started slot (offer ∷ offers) accounts index =
    let (was_written, index') =
      record_reading offer (reading_of started slot offer (first_account accounts)) index in
    let (written, index'') = record_all started slot offers (later_accounts accounts) index' in
    (if was_written then suc written else written, index'')

unfoldable pub sweep_read :
    SweepDeps → List OpenOffer → Index → Result AccountsRead → Result SweepResult × Index
unfolding record_all
sweep_read deps offers index (err e) = (err e, index)
sweep_read deps offers index (ok read) =
    let (written, index') = record_all deps.now read.slot offers read.accounts index in
    (
      ok (record { due = length offers; written = written; discarded = length offers - written }),
      index',
    )

unfoldable pub sweep_due : SweepDeps → List OpenOffer → Index → Result SweepResult × Index
unfolding sweep_read
sweep_due deps [] index = (ok (record { due = 0; written = 0; discarded = 0 }), index)
sweep_due deps (offer ∷ offers) index =
    sweep_read deps (offer ∷ offers) (deps.meanwhile index)
      (deps.token_accounts (map (λ (o : OpenOffer). deps.ata o.seller o.mint) (offer ∷ offers)))

unfoldable pub sweep : SweepDeps → Index → Result SweepResult × Index
unfolding sweep_due
sweep deps index =
    sweep_due deps (due deps.text_before (deps.now -ℤ deps.ttl_ms) sweep_batch index) index

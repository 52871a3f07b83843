-- ===== src/Indexer/Parse.antt =====
-- packages/indexer/src/parse.ts and index.ts: one transaction in, its events and its refusal out.
pub mod Outcome
use cap_rail.Indexer.Events.{IndexEvent}
use cap_rail.Indexer.Logs.{AnchorError, LogFrame, anchor_error, attribute_logs, event_data}
use cap_rail.Indexer.Readers.{Coder, decode_event}
use cap_rail.Prelude.{
  Bool, List, Option, String, ℕ, [], false, if◌then◌else◌, is_none, none, not, some, true, ◌&&◌,
  ◌*◌, ◌+◌, ◌===◌, ◌==◌, ◌∷◌,
}
use cap_rail.Prelude.Int.{ℤ}
use cap_rail.Result.{Result, ok, ◌>>=◌}

abbrev pub hook_program_id : String
hook_program_id = "6EMZVfUkf2wrtwfnESLghWfdWyzDu71uJTJ7dCKG3YEi"

abbrev token_2022_program_id : String
token_2022_program_id = "TokenzQdBNbLqP5VEhdkAS6EPFLC1PHnBqCXEpPxuEb"

pub record Instruction : Type 0 where
  pub program_id : String
  pub accounts : List String
  pub data_ : String
  pub outer : ℕ

-- `meta.err`, as `failedInstructionIndex` tells its shapes apart.
pub data TransactionError : Type 0 where
  no_error : TransactionError
  instruction_error : ℕ → TransactionError
  other_error : TransactionError

pub record ProgramTransaction : Type 0 where
  pub signature : String
  pub slot : ℕ
  pub block_time : Option ℤ
  pub logs : List String
  pub failed : Bool
  pub error : TransactionError
  pub instructions : Option (List Instruction)

pub record IndexedEvent : Type 0 where
  pub event : IndexEvent
  pub event_index : ℕ

pub record TransferInstruction : Type 0 where
  pub mint : String
  pub source : String
  pub destination : String
  pub authority : String
  pub amount : ℕ
  pub decimals : ℕ

pub record TransferRejected : Type 0 where
  pub reason : String
  pub error_number : ℕ
  pub transfer : Option TransferInstruction

pub record Failure : Type 0 where
  pub program : String
  pub code : String
  pub number : ℕ

pub record ParsedTransaction : Type 0 where
  pub signature : String
  pub slot : ℕ
  pub block_time : Option ℤ
  pub failed : Bool
  pub events : List IndexedEvent
  pub rejection : Option TransferRejected
  pub failure : Option Failure

-- logs.ts, `failedInstructionIndex`.
unfoldable pub failed_instruction_index : TransactionError → Option ℕ
failed_instruction_index (instruction_error index) = some index
failed_instruction_index _ = none

-- `readBigUInt64LE`
unfoldable pub little_endian : List ℕ → ℕ
little_endian [] = 0
little_endian (byte ∷ rest) = byte + 256 * little_endian rest

-- The ten bytes of `TransferChecked`: tag 12, the amount, the decimals.
checked_data : List ℕ → Option (ℕ × ℕ)
unfolding little_endian
checked_data (tag ∷ b0 ∷ b1 ∷ b2 ∷ b3 ∷ b4 ∷ b5 ∷ b6 ∷ b7 ∷ decimals ∷ []) =
    if tag == 12
    then some (little_endian (b0 ∷ b1 ∷ b2 ∷ b3 ∷ b4 ∷ b5 ∷ b6 ∷ b7 ∷ []), decimals)
    else none
checked_data _ = none

checked_accounts : List String → ℕ → ℕ → Option TransferInstruction
checked_accounts (source ∷ mint ∷ destination ∷ authority ∷ _) amount decimals = some (record {
  mint = mint;
  source = source;
  destination = destination;
  authority = authority;
  amount = amount;
  decimals = decimals;
})
checked_accounts _ amount decimals = none

unfoldable transfer_checked : Coder → Instruction → Option TransferInstruction
unfolding checked_data checked_accounts
transfer_checked coder ix =
    if ix.program_id === token_2022_program_id
    then elim (checked_data (coder.from_base64 ix.data_)) [
      | none ↦ none
      | some (amount, decimals) ↦ checked_accounts ix.accounts amount decimals
    ]
    else none

-- `outer !== null && ix.outer !== outer`
abbrev elsewhere : Option ℕ → ℕ → Bool
elsewhere none outer = false
elsewhere (some failing) outer = not (outer == failing)

first_transfer : Coder → Option ℕ → List Instruction → Option TransferInstruction
first_transfer coder failing [] = none
first_transfer coder failing (ix ∷ rest) =
    let later = first_transfer coder failing rest in
    if elsewhere failing ix.outer
    then later
    else elim (transfer_checked coder ix) [ some transfer ↦ some transfer | none ↦ later ]

unfoldable pub refused_transfer : Coder → ProgramTransaction → Option TransferInstruction
unfolding first_transfer failed_instruction_index transfer_checked
refused_transfer coder tx = elim tx.instructions [
  | none ↦ none
  | some instructions ↦ first_transfer coder (failed_instruction_index tx.error) instructions
]

-- `failed ? null : decodeEvent(data)`
unfoldable pub decoded : Coder → Bool → String → Result (Option IndexEvent)
decoded coder true data_ = ok none
decoded coder false data_ = decode_event coder data_

abbrev pub with_event : Option IndexEvent → ℕ → List IndexedEvent → List IndexedEvent
with_event none event_index events = events
with_event (some event) event_index events =
    record { event = event; event_index = event_index } ∷ events

-- The loop of `collectEvents` from the ordinal of the next `Program data:` line.
unfoldable pub collect_from : Coder → Bool → ℕ → List LogFrame → Result (List IndexedEvent)
unfolding decoded
collect_from coder failed event_index [] = ok []
collect_from coder failed event_index (frame ∷ frames) = elim (event_data frame) [
  | none ↦ collect_from coder failed event_index frames
  | some data_ ↦ decoded coder failed data_ >>= λ event.
      collect_from coder failed (event_index + 1) frames >>= λ events.
      ok (with_event event event_index events)
]

unfoldable pub collect_events : Coder → List LogFrame → Bool → Result (List IndexedEvent)
unfolding collect_from
collect_events coder frames failed = collect_from coder failed 0 frames

pub record Errors : Type 0 where
  pub rejection : Option TransferRejected
  pub failure : Option Failure

unfoldable pub note_error : Coder → ProgramTransaction → Errors → LogFrame → AnchorError → Errors
unfolding refused_transfer
note_error coder tx errors frame error =
    if frame.program === hook_program_id && is_none errors.rejection
    then record errors {
      rejection = some (record {
        reason = error.code;
        error_number = error.number;
        transfer = refused_transfer coder tx;
      });
    }
    else if is_none errors.failure
    then record errors {
      failure = some (record { program = frame.program; code = error.code; number = error.number });
    }
    else errors

abbrev pub note_frame : Coder → ProgramTransaction → Errors → LogFrame → Errors
note_frame coder tx errors frame = elim (anchor_error frame) [
  | none ↦ errors
  | some error ↦ note_error coder tx errors frame error
]

unfoldable pub collect_errors_from : Coder → ProgramTransaction → Errors → List LogFrame → Errors
collect_errors_from coder tx errors [] = errors
collect_errors_from coder tx errors (frame ∷ frames) =
    collect_errors_from coder tx (note_frame coder tx errors frame) frames

unfoldable pub collect_errors : Coder → List LogFrame → ProgramTransaction → Errors
unfolding collect_errors_from note_error
collect_errors coder frames tx =
    if tx.failed
    then collect_errors_from coder tx (record { rejection = none; failure = none }) frames
    else record { rejection = none; failure = none }

unfoldable pub parse_transaction : Coder → ProgramTransaction → Result ParsedTransaction
parse_transaction coder tx = do
  let frames = attribute_logs tx.logs
  events ← collect_events coder frames tx.failed
  let errors = collect_errors coder frames tx
  ok (record {
    signature = tx.signature;
    slot = tx.slot;
    block_time = tx.block_time;
    failed = tx.failed;
    events = events;
    rejection = errors.rejection;
    failure = errors.failure;
  })

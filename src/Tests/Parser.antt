-- ===== src/Tests/Parser.antt =====
-- The theorems on the parser and on the shared rules, each at a concrete input.
use cap_rail.Indexer.Events.{IndexEvent, offer_cancelled}
use cap_rail.Indexer.Logs.{anchor_error, attribute_logs, event_data, invoked, left, mark}
use cap_rail.Indexer.Logs.Calls.{Doings, attribute_logs-written_by, log_of, written_by}
use cap_rail.Indexer.Parse.{
  ParsedTransaction, ProgramTransaction, TransferRejected, collect_errors, collect_errors_from,
  collect_events, collect_from, decoded, failed_instruction_index, instruction_error, no_error,
  note_error, parse_transaction, refused_transfer,
}
use cap_rail.Indexer.Parse.Outcome.{
  Ascending, RefusedBy, parse_transaction-Ascending, parse_transaction-RefusedBy,
}
use cap_rail.Indexer.Readers.{Coder, decode_event}
use cap_rail.Indexer.Readers.Field.{
  Fields, big, bool, boolean, end, field, fields, get, key, pubkey, read_big, read_bool,
  read_pubkey, read_unix, safe, signed, struct, unsigned,
}
use cap_rail.Indexer.Readers.Records.{offer_cancelled_of}
use cap_rail.Indexer.Response.{
  InnerGroup, InnerInstruction, TransactionResponse, from_transaction_response,
}
use cap_rail.Indexer.Response.Flat.{from_transaction_response-empty_data, gives_value}
use cap_rail.Prelude.{List, String, [], false, none, refl, some, true, ◌∷◌, ◌≡◌}
use cap_rail.Prelude.Int.{pos}
use cap_rail.Result.{ok}
use cap_rail.Shared.Market.{AdmissionRecord, TransferPolicy, approved}
use cap_rail.Tests.Data.{coder, transaction, with_events}
use cap_rail.Worker.Apply.Lookup.{unix}

abbrev refused_logs : List String
refused_logs =
    "Program 6EMZVfUkf2wrtwfnESLghWfdWyzDu71uJTJ7dCKG3YEi invoke [1]" ∷ "Program data: AAAA"
    ∷ "Program log: Error Code: NotAccredited. Error Number: 6000. Error Message: no."
    ∷ "Program 6EMZVfUkf2wrtwfnESLghWfdWyzDu71uJTJ7dCKG3YEi failed: custom program error: 0x1770"
    ∷ []

abbrev refused : ProgramTransaction
refused = record transaction { logs = refused_logs; failed = true; error = instruction_error 0 }

abbrev refusal : TransferRejected
refusal = record { reason = "NotAccredited"; error_number = 6000; transfer = none }

abbrev parsed_refusal : ParsedTransaction
parsed_refusal = record (with_events []) { failed = true; rejection = some refusal }

parses : parse_transaction coder refused ≡ ok parsed_refusal
unfolding parse_transaction collect_events collect_from collect_errors collect_errors_from
    note_error attribute_logs event_data anchor_error decoded refused_transfer
    failed_instruction_index mark invoked left
parses = refl

-- Every payload is read as the same cancellation.
abbrev payload : Fields
payload = field "offer" (key "O") (
    field "mint" (key "M") (
      field "seller" (key "A") (
        field "offerId" (unsigned 1) (
          field "remaining" (unsigned 20) (
            field "delegationRevoked" (boolean true) (field "cancelledAt" (signed (pos 8)) end))))))

abbrev cancelling : Coder
cancelling = record {
  decode = λ data_. some ("offerCancelled", struct payload);
  encode = λ name value. [];
  from_base64 = λ data_. [];
}

abbrev cancellation : IndexEvent
cancellation = offer_cancelled (record {
  offer = "O";
  mint = "M";
  seller = "A";
  offer_id = 1;
  remaining = 20;
  delegation_revoked = true;
  cancelled_at = pos 8;
})

abbrev two_cancelled : ProgramTransaction
two_cancelled = record transaction {
  logs = "Program data: AAAA" ∷ "Program log: none" ∷ "Program data: BBBB" ∷ [];
}

abbrev parsed_two : ParsedTransaction
parsed_two = with_events (
    record { event = cancellation; event_index = 0 }
    ∷ record { event = cancellation; event_index = 1 }
    ∷ [])

parses_two : parse_transaction cancelling two_cancelled ≡ ok parsed_two
unfolding parse_transaction collect_events collect_from collect_errors attribute_logs event_data
    decoded mark invoked left decode_event offer_cancelled_of pubkey read_pubkey big read_big bool
    read_bool unix read_unix fields safe get
parses_two = refl

parse_transaction-Ascending_example : Ascending 0 parsed_two.events
parse_transaction-Ascending_example =
    parse_transaction-Ascending cancelling two_cancelled parsed_two parses_two

parse_transaction-RefusedBy_example :
    (refused.failed ≡ true) × RefusedBy (attribute_logs refused.logs) refusal
parse_transaction-RefusedBy_example =
    parse_transaction-RefusedBy coder refused parsed_refusal refusal parses refl

abbrev strict : TransferPolicy
strict = record { require_accreditation = true; require_rofr = false; rofr_window_secs = 0 }

abbrev until_nine : AdmissionRecord
until_nine = record { status = approved; expires_at = pos 9 }

-- A transaction of one instruction that calls a program without data.
abbrev bare_call : InnerInstruction
bare_call = record { program_id_index = 1; accounts = 0 ∷ []; base58 = "" }

abbrev bare_group : InnerGroup
bare_group = record { index = 0; instructions = bare_call ∷ [] }

abbrev bare_response : TransactionResponse
bare_response = record {
  account_keys = "A" ∷ "P" ∷ [];
  compiled = record { program_id_index = 1; account_key_indexes = 0 ∷ []; bytes = 7 ∷ [] } ∷ [];
  inner_instructions = some (bare_group ∷ []);
  slot = 5;
  block_time = none;
  log_messages = none;
  error = no_error;
}

from_transaction_response-empty_data_example :
    gives_value (from_transaction_response (λ bytes. "") "S" bare_response) ≡ false
from_transaction_response-empty_data_example =
    from_transaction_response-empty_data (λ bytes. "") "S" bare_response [] bare_group [] []
      bare_call [] refl refl refl

-- The program calls the hook, which refuses.
abbrev calls_hook : Doings
calls_hook =
    Doings.calls "Prog" "Program Prog invoke [1]"
      (Doings.says "Program log: Instruction: Transfer" (
        Doings.calls "Hook" "Program Hook invoke [2]"
          (Doings.says "Program log: Error Code: NotAccredited. Error Number: 6000." Doings.done)
          "Program Hook failed: custom program error: 0x1770" Doings.done))
      "Program Prog failed: custom program error: 0x1770" Doings.done

attribute_logs-written_by_example : attribute_logs (log_of calls_hook) ≡ written_by "" 0 calls_hook
attribute_logs-written_by_example = attribute_logs-written_by calls_hook (
    unfold invoked left in
    (refl, (refl, (λ e. cc), (refl, (refl, (λ e. cc), tt), refl, refl, tt)), refl, refl, tt))

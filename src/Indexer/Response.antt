-- ===== src/Indexer/Response.antt =====
-- packages/indexer/src/transaction.ts: fromTransactionResponse. `account_keys` is the list that web3.js
-- reads off a message and the loaded addresses; Buffer's base64 is the parameter `to_base64`. The result's
-- `accountKeys`, which the index does not read, is left out.
pub mod Flat
use cap_rail.Indexer.Parse.{Instruction, ProgramTransaction, TransactionError, no_error}
use cap_rail.Prelude.{
  Bool, List, Option, String, ℕ, [], false, get_elem?, if◌then◌else◌, or_else, some, suc, true,
  ◌++◌, ◌==◌, ◌∷◌,
}
use cap_rail.Prelude.Int.{ℤ}
use cap_rail.Result.{Result, err, index_out_of_range, not_base58, ok, or_throw, traverse, ◌>>=◌}
use cap_rail.Shared.Base58.{decode_base58}

-- The two encodings of an instruction: compiled with bytes, inner with base58.
pub record CompiledInstruction : Type 0 where
  pub program_id_index : ℕ
  pub account_key_indexes : List ℕ
  pub bytes : List ℕ

pub record InnerInstruction : Type 0 where
  pub program_id_index : ℕ
  pub accounts : List ℕ
  pub base58 : String

pub record InnerGroup : Type 0 where
  pub index : ℕ
  pub instructions : List InnerInstruction

pub record TransactionResponse : Type 0 where
  pub account_keys : List String
  pub compiled : List CompiledInstruction
  pub inner_instructions : Option (List InnerGroup)
  pub slot : ℕ
  pub block_time : Option ℤ
  pub log_messages : Option (List String)
  pub error : TransactionError

-- `at`
abbrev key_at : String → List String → ℕ → Result String
key_at signature keys index = or_throw (get_elem? keys index) (index_out_of_range signature index)

module _ (to_base64 : List ℕ → String) where
  abbrev pub flat_instruction : String → List String → ℕ → ℕ → List ℕ → List ℕ → Result Instruction
  flat_instruction signature keys outer program_id_index accounts bytes =
      key_at signature keys program_id_index >>= λ program_id.
      traverse (key_at signature keys) accounts >>= λ names.
      ok (record {
        program_id = program_id;
        accounts = names;
        data_ = to_base64 bytes;
        outer = outer;
      })

  abbrev pub inner_instruction : String → List String → ℕ → InnerInstruction → Result Instruction
  inner_instruction signature keys outer ix =
      or_throw (decode_base58 ix.base58) (not_base58 signature) >>= λ bytes.
      flat_instruction signature keys outer ix.program_id_index ix.accounts bytes

  -- `inner`: the map is the function that looks an index up in it; a later group replaces an earlier one.
  abbrev pub set_group : ℕ → List Instruction → (ℕ → List Instruction) → ℕ → List Instruction
  set_group index instructions inner other = if other == index then instructions else inner other

  abbrev pub inner_groups :
      String
      → List String
      → List InnerGroup
      → (ℕ → List Instruction)
      → Result (ℕ → List Instruction)
  inner_groups signature keys [] inner = ok inner
  inner_groups signature keys (group ∷ groups) inner =
      traverse (inner_instruction signature keys group.index) group.instructions >>= λ instructions.
      inner_groups signature keys groups (set_group group.index instructions inner)

  -- `message.compiledInstructions.forEach`, from an index on.
  abbrev flat_from :
      String
      → List String
      → (ℕ → List Instruction)
      → ℕ
      → List CompiledInstruction
      → Result (List Instruction)
  flat_from signature keys inner index [] = ok []
  flat_from signature keys inner index (ix ∷ rest) =
      flat_instruction signature keys index ix.program_id_index ix.account_key_indexes ix.bytes
      >>= λ instruction. flat_from signature keys inner (suc index) rest >>= λ instructions.
          ok (instruction ∷ (inner index ++ instructions))

  abbrev is_failure : TransactionError → Bool
  is_failure no_error = false
  is_failure _ = true

  unfoldable pub from_transaction_response :
      String → TransactionResponse → Result ProgramTransaction
  from_transaction_response signature tx =
      inner_groups signature tx.account_keys (or_else tx.inner_instructions []) (λ index. [])
      >>= λ inner. flat_from signature tx.account_keys inner 0 tx.compiled >>= λ instructions.
          ok (record {
            signature = signature;
            slot = tx.slot;
            block_time = tx.block_time;
            logs = or_else tx.log_messages [];
            failed = is_failure tx.error;
            error = tx.error;
            instructions = some instructions;
          })

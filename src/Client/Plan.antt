-- ===== src/Client/Plan.antt =====
-- packages/chain/src/tx/plan.ts: a plan and the signers that it requires. A key is its base58 text,
-- by which `requiredSigners` compares it.
pub mod Signers
-- `TX_STEPS`
use cap_rail.Prelude.{Bool, List, String, ℕ, [], has, if◌then◌else◌, not, ◌++◌, ◌===◌, ◌||◌, ◌∷◌}

pub data TxStep : Type 0 where
  init_platform create_company create_token set_policy set_roles set_investor_status distribute
        transfer create_offer cancel_offer accept_offer :
      TxStep

-- web3.js's AccountMeta and TransactionInstruction, as far as a plan reads them.
pub record AccountMeta : Type 0 where
  pub pubkey : String
  pub is_signer : Bool

pub record TransactionInstruction : Type 0 where
  pub program_id : String
  pub keys : List AccountMeta
  pub data_ : List ℕ

pub record TxPlan : Type 0 where
  pub step : TxStep
  pub instructions : List TransactionInstruction
  fee_payer : String
  pub signers : List String

-- The locals `seen` and `signers`.
pub record Collected : Type 0 where
  pub seen : List String
  pub signers : List String

-- `seen.has(key)`
abbrev pub includes : List String → String → Bool
includes keys key = has (λ k. k === key) keys

-- The body of the inner loop.
abbrev pub visit : AccountMeta → Collected → Collected
visit key c =
    if not key.is_signer || includes c.seen key.pubkey
    then c
    else record { seen = key.pubkey ∷ c.seen; signers = c.signers ++ key.pubkey ∷ [] }

abbrev pub visit_keys : List AccountMeta → Collected → Collected
visit_keys [] c = c
visit_keys (key ∷ keys) c = visit_keys keys (visit key c)

abbrev pub visit_all : List TransactionInstruction → Collected → Collected
visit_all [] c = c
visit_all (instruction ∷ rest) c = visit_all rest (visit_keys instruction.keys c)

unfoldable pub required_signers : List TransactionInstruction → String → List String
required_signers instructions fee_payer =
    (visit_all instructions (record { seen = fee_payer ∷ []; signers = fee_payer ∷ [] })).signers

abbrev pub to_plan : TxStep → String → List TransactionInstruction → TxPlan
to_plan step fee_payer instructions = record {
  step = step;
  instructions = instructions;
  fee_payer = fee_payer;
  signers = required_signers instructions fee_payer;
}

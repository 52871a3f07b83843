-- ===== src/Worker/Rows.antt =====
-- packages/db/src/schema.ts: the rows of the index's tables, and the index itself. Amounts, slots
-- and ids are natural numbers, instants are milliseconds. Columns that the database fills in by
-- itself (`id`, `created_at` of the journal, `revision`) are left out.
use cap_rail.Prelude.{Bool, List, Option, String, ℕ}
use cap_rail.Prelude.Int.{ℤ}
use cap_rail.Shared.Market.{InvestorStatus, OfferStaleReason, OfferStatus}

pub record CompanyRow : Type 0 where
  pub company_id : ℕ
  pub company : String
  pub admin : String
  pub compliance_officer : String
  pub name : String
  pub created_signature : String
  pub created_slot : ℕ
  pub roles_set_at : Option ℤ
  pub updated_at : ℤ

pub record TokenRow : Type 0 where
  pub mint : String
  pub company_id : ℕ
  pub treasury : String
  pub name : String
  pub symbol : String
  pub decimals : ℕ
  pub total_supply : ℕ
  pub require_accreditation : Bool
  pub require_rofr : Bool
  pub rofr_window_secs : ℕ
  pub policy_version : ℕ
  pub created_signature : String
  pub created_slot : ℕ
  pub created_at : Option ℤ
  pub updated_at : ℤ

pub record PolicyVersionRow : Type 0 where
  pub mint : String
  pub version : ℕ
  pub company_id : ℕ
  pub require_accreditation : Bool
  pub require_rofr : Bool
  pub rofr_window_secs : ℕ
  pub set_at : Option ℤ
  pub tx_signature : String
  pub slot : ℕ
  pub block_time : Option ℤ

pub record InvestorRow : Type 0 where
  pub mint : String
  pub wallet : String
  pub company_id : ℕ
  pub status : InvestorStatus
  pub expires_at : ℤ
  pub jurisdiction : Option String
  pub investor_type : ℕ
  pub updated_at : ℤ
  pub updated_by : String
  pub tx_signature : String
  pub slot : ℕ

pub record InvestorStatusEventRow : Type 0 where
  pub mint : String
  pub wallet : String
  pub company_id : ℕ
  pub status : InvestorStatus
  pub expires_at : ℤ
  pub jurisdiction : Option String
  pub investor_type : ℕ
  pub set_at : ℤ
  pub set_by : String
  pub tx_signature : String
  pub event_index : ℕ
  pub slot : ℕ
  pub block_time : Option ℤ

pub data AttemptOutcome : Type 0 where
  allowed rejected : AttemptOutcome

pub data AttemptOrigin : Type 0 where
  chain simulation : AttemptOrigin

pub record AttemptRow : Type 0 where
  pub mint : String
  pub company_id : ℕ
  pub source_owner : Option String
  pub dest_owner : Option String
  pub amount : Option ℕ
  pub outcome : AttemptOutcome
  pub reason_code : Option String
  pub origin : AttemptOrigin
  pub from_treasury : Bool
  pub policy_version : Option ℕ
  pub tx_signature : Option String
  pub event_index : ℕ
  pub slot : Option ℕ
  pub block_time : ℤ
  pub logs : List String
  pub reported_by : Option String

pub record HoldingRow : Type 0 where
  pub mint : String
  pub wallet : String
  pub company_id : ℕ
  pub amount : ℕ
  pub distributed : ℕ
  pub last_signature : String
  pub last_slot : ℕ
  pub updated_at : ℤ
  pub verified_at : Option ℤ

pub record OfferRow : Type 0 where
  pub offer : String
  pub mint : String
  pub company_id : ℕ
  pub seller : String
  pub offer_id : ℕ
  pub amount : ℕ
  pub remaining : ℕ
  pub price_per_unit : ℕ
  pub payment_mint : String
  pub rofr_until : Option ℤ
  pub status : OfferStatus
  pub created_at : ℤ
  pub created_signature : String
  pub created_slot : ℕ
  pub closed_at : Option ℤ
  pub delegation_revoked : Option Bool
  pub updated_at : ℤ
  pub touched_slot : ℕ
  pub available : Option ℕ
  pub stale_reason : Option OfferStaleReason
  pub checked_at : Option ℤ
  pub checked_slot : Option ℕ

pub record TradeRow : Type 0 where
  pub tx_signature : String
  pub event_index : ℕ
  pub offer : String
  pub mint : String
  pub company_id : ℕ
  pub seller : String
  pub buyer : String
  pub offer_id : ℕ
  pub amount : ℕ
  pub price_per_unit : ℕ
  pub payment : ℕ
  pub fee : ℕ
  pub payment_mint : String
  pub remaining : ℕ
  pub accepted_at : ℤ
  pub slot : ℕ
  pub block_time : ℤ

-- The tables that the worker writes for a chain transaction.
pub record Index : Type 0 where
  pub companies : List CompanyRow
  pub tokens : List TokenRow
  pub policy_versions : List PolicyVersionRow
  pub investors : List InvestorRow
  pub status_events : List InvestorStatusEventRow
  pub attempts : List AttemptRow
  pub holdings : List HoldingRow
  pub offers : List OfferRow
  pub trades : List TradeRow

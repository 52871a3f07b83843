-- ===== src/Indexer/Events.antt =====
-- packages/indexer/src/events.ts: the nine events that the index reads.
use cap_rail.Prelude.{Bool, Option, String, ℕ}
use cap_rail.Prelude.Int.{ℤ}
use cap_rail.Shared.Market.{InvestorStatus, TransferPolicy}

pub record CompanyCreated : Type 0 where
  pub company : String
  pub company_id : ℕ
  pub admin : String
  pub compliance_officer : String
  pub name : String

pub record TokenCreated : Type 0 where
  pub company : String
  pub mint : String
  pub treasury : String
  pub name : String
  pub symbol : String
  pub decimals : ℕ
  pub total_supply : ℕ
  pub policy : TransferPolicy
  pub policy_version : ℕ

-- Instants of events are in seconds.
pub record PolicySet : Type 0 where
  pub company : String
  pub mint : String
  pub policy : TransferPolicy
  pub policy_version : ℕ
  pub set_at : ℤ

pub record RolesSet : Type 0 where
  pub company : String
  pub admin : String
  pub compliance_officer : String
  pub set_at : ℤ

pub record InvestorStatusSet : Type 0 where
  pub company : String
  pub mint : String
  pub wallet : String
  pub status : InvestorStatus
  pub expires_at : ℤ
  pub jurisdiction : Option String
  pub investor_type : ℕ
  pub updated_at : ℤ
  pub updated_by : String

pub record TransferAllowed : Type 0 where
  pub company : String
  pub mint : String
  pub source : String
  pub destination : String
  pub source_owner : String
  pub destination_owner : String
  pub amount : ℕ
  pub from_treasury : Bool
  pub policy_version : ℕ

pub record OfferCreated : Type 0 where
  pub offer : String
  pub company : String
  pub mint : String
  pub seller : String
  pub offer_id : ℕ
  pub amount : ℕ
  pub price_per_unit : ℕ
  pub payment_mint : String
  pub rofr_until : ℤ
  pub created_at : ℤ

pub record OfferAccepted : Type 0 where
  pub offer : String
  pub company : String
  pub mint : String
  pub seller : String
  pub buyer : String
  pub offer_id : ℕ
  pub amount : ℕ
  pub price_per_unit : ℕ
  pub payment : ℕ
  pub fee : ℕ
  pub payment_mint : String
  pub remaining : ℕ
  pub accepted_at : ℤ

pub record OfferCancelled : Type 0 where
  pub offer : String
  pub mint : String
  pub seller : String
  pub offer_id : ℕ
  pub remaining : ℕ
  pub delegation_revoked : Bool
  pub cancelled_at : ℤ

pub data IndexEvent : Type 0 where
  company_created : CompanyCreated → IndexEvent
  token_created : TokenCreated → IndexEvent
  policy_set : PolicySet → IndexEvent
  roles_set : RolesSet → IndexEvent
  investor_status_set : InvestorStatusSet → IndexEvent
  transfer_allowed : TransferAllowed → IndexEvent
  offer_created : OfferCreated → IndexEvent
  offer_accepted : OfferAccepted → IndexEvent
  offer_cancelled : OfferCancelled → IndexEvent

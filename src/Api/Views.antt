-- ===== src/Api/Views.antt =====
-- apps/api/src/index/reader.ts: what the reader's answers say of a row (tokenView, investorView,
-- journalTrade, journalEntry, offerRecord). An instant stays a number of milliseconds where the source
-- spells it as ISO text, and an amount, an id or a slot stays a number where it spells digits.
use cap_rail.Api.Journal.{JournalRow}
use cap_rail.Prelude.{Bool, List, Option, String, ℕ}
use cap_rail.Prelude.Int.{ℤ, pos, ◌-ℤ◌}
use cap_rail.Shared.Market.{InvestorStatus, OfferStaleReason, OfferStatus, TransferPolicy}
use cap_rail.Worker.Rows.{AttemptOrigin, AttemptOutcome, InvestorRow, OfferRow, TokenRow, TradeRow}
use mathlib.Core.Option

pub record TokenView : Type 0 where
  pub mint : String
  pub treasury : String
  pub name : String
  pub symbol : String
  pub decimals : ℕ
  pub total_supply : ℕ
  pub policy : TransferPolicy
  pub policy_version : ℕ
  pub created_at : Option ℤ

pub record InvestorView : Type 0 where
  pub mint : String
  pub wallet : String
  pub status : InvestorStatus
  pub expires_at : ℤ
  pub jurisdiction : Option String
  pub investor_type : ℕ
  pub updated_at : ℤ
  pub updated_by : String

pub record JournalTrade : Type 0 where
  pub offer : String
  pub offer_id : ℕ
  pub price_per_unit : ℕ
  pub payment_mint : String
  pub payment : ℕ
  pub fee : ℕ
  pub seller_receives : ℤ

pub record JournalEntry : Type 0 where
  pub id : ℕ
  pub mint : String
  pub source_owner : Option String
  pub dest_owner : Option String
  pub amount : Option ℕ
  pub outcome : AttemptOutcome
  pub reason_code : Option String
  pub origin : AttemptOrigin
  pub from_treasury : Bool
  pub policy_version : Option ℕ
  pub tx_signature : Option String
  pub slot : Option ℕ
  pub block_time : ℤ
  pub logs : List String
  pub trade : Option JournalTrade

pub record OfferRecord : Type 0 where
  pub offer : String
  pub mint : String
  pub company_id : ℕ
  pub seller : String
  pub offer_id : ℕ
  pub amount : ℕ
  pub remaining : ℕ
  pub price_per_unit : ℕ
  pub payment_mint : String
  pub rofr_until : Option ℤ
  pub status : OfferStatus
  pub created_at : ℤ
  pub closed_at : Option ℤ
  pub available : Option ℕ
  pub stale_reason : Option OfferStaleReason
  pub checked_at : Option ℤ

abbrev pub token_view : TokenRow → TokenView
token_view row = record {
  mint = row.mint;
  treasury = row.treasury;
  name = row.name;
  symbol = row.symbol;
  decimals = row.decimals;
  total_supply = row.total_supply;
  policy = record {
    require_accreditation = row.require_accreditation;
    require_rofr = row.require_rofr;
    rofr_window_secs = row.rofr_window_secs;
  };
  policy_version = row.policy_version;
  created_at = row.created_at;
}

abbrev pub investor_view : InvestorRow → InvestorView
investor_view row = record {
  mint = row.mint;
  wallet = row.wallet;
  status = row.status;
  expires_at = row.expires_at;
  jurisdiction = row.jurisdiction;
  investor_type = row.investor_type;
  updated_at = row.updated_at;
  updated_by = row.updated_by;
}

abbrev journal_trade : TradeRow → JournalTrade
journal_trade row = record {
  offer = row.offer;
  offer_id = row.offer_id;
  price_per_unit = row.price_per_unit;
  payment_mint = row.payment_mint;
  payment = row.payment;
  fee = row.fee;
  seller_receives = pos row.payment -ℤ pos row.fee;
}

abbrev pub journal_entry : JournalRow → Option TradeRow → JournalEntry
journal_entry row trade =
    let attempt = row.attempt in
    record {
      id = row.id;
      mint = attempt.mint;
      source_owner = attempt.source_owner;
      dest_owner = attempt.dest_owner;
      amount = attempt.amount;
      outcome = attempt.outcome;
      reason_code = attempt.reason_code;
      origin = attempt.origin;
      from_treasury = attempt.from_treasury;
      policy_version = attempt.policy_version;
      tx_signature = attempt.tx_signature;
      slot = attempt.slot;
      block_time = attempt.block_time;
      logs = attempt.logs;
      trade = Option.map journal_trade trade;
    }

abbrev pub offer_record : OfferRow → OfferRecord
offer_record row = record {
  offer = row.offer;
  mint = row.mint;
  company_id = row.company_id;
  seller = row.seller;
  offer_id = row.offer_id;
  amount = row.amount;
  remaining = row.remaining;
  price_per_unit = row.price_per_unit;
  payment_mint = row.payment_mint;
  rofr_until = row.rofr_until;
  status = row.status;
  created_at = row.created_at;
  closed_at = row.closed_at;
  available = row.available;
  stale_reason = row.stale_reason;
  checked_at = row.checked_at;
}

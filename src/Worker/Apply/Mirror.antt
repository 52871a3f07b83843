-- ===== src/Worker/Apply/Mirror.antt =====
-- apps/worker/src/apply.ts: companies, tokens, policies, roles and the registry.
use cap_rail.Indexer.Events.{CompanyCreated, InvestorStatusSet, PolicySet, RolesSet, TokenCreated}
use cap_rail.Prelude.{ℕ, none, some}
use cap_rail.Worker.Act.{Act, modify, pure, ◌>>=◌, ◌>>◌}
use cap_rail.Worker.Apply.Lookup.{
  Ctx, Lesson, company_id_of, known_token_of, remember_company, remember_owner, remember_token,
  unix,
}
use cap_rail.Worker.Rows.{
  CompanyRow, HoldingRow, InvestorRow, InvestorStatusEventRow, PolicyVersionRow, TokenRow,
}
use cap_rail.Worker.Store.{Holding, OfferChange, OfferRef, TokenRef}
use cap_rail.Worker.Store

abbrev pub company_row : Ctx → CompanyCreated → CompanyRow
company_row ctx event = record {
  company_id = event.company_id;
  company = event.company;
  admin = event.admin;
  compliance_officer = event.compliance_officer;
  name = event.name;
  created_signature = ctx.signature;
  created_slot = ctx.slot;
  roles_set_at = none;
  updated_at = ctx.block_time;
}

unfoldable pub apply_company_created : Ctx → CompanyCreated → Act Lesson
apply_company_created ctx event = do
  modify (Store.create_company (company_row ctx event))
  pure (remember_company event.company event.company_id)

abbrev pub token_row : ℕ → Ctx → TokenCreated → TokenRow
token_row company_id ctx event = record {
  mint = event.mint;
  company_id = company_id;
  treasury = event.treasury;
  name = event.name;
  symbol = event.symbol;
  decimals = event.decimals;
  total_supply = event.total_supply;
  require_accreditation = event.policy.require_accreditation;
  require_rofr = event.policy.require_rofr;
  rofr_window_secs = event.policy.rofr_window_secs;
  policy_version = event.policy_version;
  created_signature = ctx.signature;
  created_slot = ctx.slot;
  created_at = some ctx.block_time;
  updated_at = ctx.block_time;
}

abbrev pub first_policy : ℕ → Ctx → TokenCreated → PolicyVersionRow
first_policy company_id ctx event = record {
  mint = event.mint;
  version = event.policy_version;
  company_id = company_id;
  require_accreditation = event.policy.require_accreditation;
  require_rofr = event.policy.require_rofr;
  rofr_window_secs = event.policy.rofr_window_secs;
  set_at = none;
  tx_signature = ctx.signature;
  slot = ctx.slot;
  block_time = some ctx.block_time;
}

abbrev pub treasury_holding : ℕ → Ctx → TokenCreated → HoldingRow
treasury_holding company_id ctx event = record {
  mint = event.mint;
  wallet = event.company;
  company_id = company_id;
  amount = event.total_supply;
  distributed = 0;
  last_signature = ctx.signature;
  last_slot = ctx.slot;
  updated_at = ctx.block_time;
  verified_at = none;
}

abbrev token_lesson : ℕ → TokenCreated → Lesson
token_lesson company_id event memory = remember_owner event.treasury event.company (
    remember_token event.mint
      (record { mint = event.mint; company_id = company_id; treasury = event.treasury }) memory)

unfoldable pub apply_token_created : Ctx → TokenCreated → Act Lesson
apply_token_created ctx event = do
  company_id ← company_id_of event.company
  modify (
      Store.create_token (token_row company_id ctx event) (first_policy company_id ctx event)
        (treasury_holding company_id ctx event))
  pure (token_lesson company_id event)

abbrev pub policy_row : ℕ → Ctx → PolicySet → PolicyVersionRow
policy_row company_id ctx event = record {
  mint = event.mint;
  version = event.policy_version;
  company_id = company_id;
  require_accreditation = event.policy.require_accreditation;
  require_rofr = event.policy.require_rofr;
  rofr_window_secs = event.policy.rofr_window_secs;
  set_at = some (unix event.set_at);
  tx_signature = ctx.signature;
  slot = ctx.slot;
  block_time = some ctx.block_time;
}

unfoldable pub apply_policy_set : Ctx → PolicySet → Act (Unit {0})
apply_policy_set ctx event = do
  token ← known_token_of event.mint
  modify (Store.set_policy (policy_row token.company_id ctx event) (unix event.set_at))

unfoldable pub apply_roles_set : RolesSet → Act (Unit {0})
apply_roles_set event = do
  company_id ← company_id_of event.company
  modify (
      Store.set_roles company_id (record {
        admin = event.admin;
        compliance_officer = event.compliance_officer;
        set_at = unix event.set_at;
      }))

abbrev pub status_event : ℕ → Ctx → InvestorStatusSet → ℕ → InvestorStatusEventRow
status_event company_id ctx event event_index = record {
  mint = event.mint;
  wallet = event.wallet;
  company_id = company_id;
  status = event.status;
  expires_at = unix event.expires_at;
  jurisdiction = event.jurisdiction;
  investor_type = event.investor_type;
  set_at = unix event.updated_at;
  set_by = event.updated_by;
  tx_signature = ctx.signature;
  event_index = event_index;
  slot = ctx.slot;
  block_time = some ctx.block_time;
}

abbrev pub investor_row : ℕ → Ctx → InvestorStatusSet → InvestorRow
investor_row company_id ctx event = record {
  mint = event.mint;
  wallet = event.wallet;
  company_id = company_id;
  status = event.status;
  expires_at = unix event.expires_at;
  jurisdiction = event.jurisdiction;
  investor_type = event.investor_type;
  updated_at = unix event.updated_at;
  updated_by = event.updated_by;
  tx_signature = ctx.signature;
  slot = ctx.slot;
}

unfoldable pub apply_investor_status_set : Ctx → InvestorStatusSet → ℕ → Act (Unit {0})
apply_investor_status_set ctx event event_index = do
  token ← known_token_of event.mint
  modify (
      Store.set_investor_status (status_event token.company_id ctx event event_index)
        (investor_row token.company_id ctx event))

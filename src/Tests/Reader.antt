-- ===== src/Tests/Reader.antt =====
-- The reads of apps/api/src/index/reader.ts at concrete inputs.
use cap_rail.Api.CapTable.{CapTable, cap_table, percent_of, table_of}
use cap_rail.Api.CapTable.Shares.{cap_table-shares, held, held_by, percents, same_holding}
use cap_rail.Api.Journal.{JournalRow}
use cap_rail.Api.Market.{admits, caprail_admits}
use cap_rail.Api.Market.Rules.{caprail_admits-admits}
use cap_rail.Api.Positions.{PositionInput, merge_positions}
use cap_rail.Api.Positions.Merged.{merge_positions-sums, position_amount, positions_with}
use cap_rail.Api.Queries.{AttemptReport, report_attempt, reported_row}
use cap_rail.Api.Views.{investor_view, token_view}
use cap_rail.Prelude.{
  Bool, List, String, ℕ, [], arith, false, map, none, refl, some, true, ◌+◌, ◌∷◌, ◌≡◌, ◌≤◌,
}
use cap_rail.Prelude.Int.{pos}
use cap_rail.Shared.Market.{approved}
use cap_rail.Table.{Unique}
use cap_rail.Worker.Rows.{CompanyRow, HoldingRow, InvestorRow, TokenRow}

abbrev company_row : CompanyRow
company_row = record {
  company_id = 7;
  company = "P";
  admin = "A";
  compliance_officer = "B";
  name = "N";
  created_signature = "S";
  created_slot = 1;
  roles_set_at = none;
  updated_at = pos 0;
}

abbrev token_row : TokenRow
token_row = record {
  mint = "M";
  company_id = 7;
  treasury = "T";
  name = "N";
  symbol = "S";
  decimals = 0;
  total_supply = 10;
  require_accreditation = true;
  require_rofr = false;
  rofr_window_secs = 0;
  policy_version = 1;
  created_signature = "S";
  created_slot = 1;
  created_at = none;
  updated_at = pos 0;
}

abbrev holding_row : String → ℕ → HoldingRow
holding_row wallet amount = record {
  mint = "M";
  wallet = wallet;
  company_id = 7;
  amount = amount;
  distributed = 0;
  last_signature = "S";
  last_slot = 1;
  updated_at = pos 0;
  verified_at = none;
}

abbrev holdings : List HoldingRow
holdings = holding_row "W" 3 ∷ holding_row "P" 5 ∷ holding_row "V" 2 ∷ holding_row "U" 0 ∷ []

abbrev in_any_order : String → String → Bool
in_any_order a b = false

abbrev shown : CapTable
shown = record {
  mint = "M";
  at = pos 0;
  total_supply = 10;
  treasury = 5;
  holders =
      record { wallet = "W"; amount = 3; pct = 3000; vested = 3; unvested = 0; distributions = [] }
      ∷ record {
        wallet = "V";
        amount = 2;
        pct = 2000;
        vested = 2;
        unvested = 0;
        distributions = [];
      }
      ∷ [];
}

table_shown :
    cap_table in_any_order (company_row ∷ []) (token_row ∷ []) holdings 7 none (pos 0) ≡ some shown
unfolding cap_table table_of percent_of
table_shown = refl

apart : Unique same_holding holdings
apart = (refl, (refl, (refl, (refl, tt))))

cap_table-shares_example :
    (shown.treasury + held_by shown.holders ≡ held "M" holdings) × (percents shown.holders ≤ 10000)
cap_table-shares_example =
    cap_table-shares in_any_order (company_row ∷ []) (token_row ∷ []) holdings 7 none (pos 0) shown
      table_shown apart (omega arith)

abbrev held_input : String → ℕ → PositionInput
held_input mint amount = record {
  company_id = 7;
  company_name = "N";
  token = record {
    mint = mint;
    treasury = "T";
    name = "N";
    symbol = "S";
    decimals = 0;
    total_supply = 10;
    policy = record { require_accreditation = false; require_rofr = false; rofr_window_secs = 0 };
    policy_version = 1;
    created_at = none;
  };
  amount = amount;
  found = none;
}

abbrev inputs : List PositionInput
inputs = held_input "M" 0 ∷ held_input "K" 4 ∷ held_input "M" 3 ∷ []

merge_positions-sums_example :
    (position_amount "M" (merge_positions in_any_order inputs (pos 0)) ≡ 3)
    × (positions_with "M" (merge_positions in_any_order inputs (pos 0)) ≡ 1)
merge_positions-sums_example = merge_positions-sums in_any_order inputs (pos 0) "M"

abbrev report : AttemptReport
report = record {
  mint = "M";
  source_owner = "P";
  dest_owner = "V";
  amount = 5;
  reason_code = "NotAccredited";
  logs = [];
}

abbrev reported : JournalRow
reported = reported_row 9 report "W" (pos 50) token_row company_row

taken : report_attempt (token_row ∷ []) (company_row ∷ []) 9 report "W" (pos 50) ≡ some reported
unfolding report_attempt
taken = refl

abbrev investor_row : InvestorRow
investor_row = record {
  mint = "M";
  wallet = "W";
  company_id = 7;
  status = approved;
  expires_at = pos 90;
  jurisdiction = none;
  investor_type = 0;
  updated_at = pos 0;
  updated_by = "B";
  tx_signature = "S";
  slot = 1;
}

caprail_admits-admits_example :
    let views = map token_view (token_row ∷ []) in
    let registry = map investor_view (investor_row ∷ []) in
    (caprail_admits (token_row ∷ []) (investor_row ∷ []) "M" (some "W") (pos 50)
      ≡ admits views registry "M" (some "W") (pos 50))
    × (caprail_admits (token_row ∷ []) (investor_row ∷ []) "M" none (pos 50) ≡ false)
    × (admits views registry "M" none (pos 50) ≡ false)
caprail_admits-admits_example =
    caprail_admits-admits (token_row ∷ []) (investor_row ∷ []) "M" (some "W") (pos 50) (refl, tt)
      (refl, tt)

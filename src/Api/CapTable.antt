-- ===== src/Api/CapTable.antt =====
-- apps/api/src/index/reader.ts: capTable with percentOf and holder. A percentage is the number of its
-- hundredths, which the source divides by 100 at the very end; text_before is the database's order of texts.
pub mod Shares
use cap_rail.Api.Journal.Order.{sort}
use cap_rail.Prelude.{
  Bool, List, Option, String, ℕ, [], false, find, if◌then◌else◌, keep, ltb, map, none, not, or_else,
  some, ◌&&◌, ◌*◌, ◌/◌, ◌===◌, ◌==◌, ◌||◌, ◌∷◌,
}
use cap_rail.Prelude.Int.{ℤ}
use cap_rail.Worker.Rows.{CompanyRow, HoldingRow, TokenRow}
use mathlib.Core.Option

pub record Holder : Type 0 where
  pub wallet : String
  pub amount : ℕ
  pub pct : ℕ
  pub vested : ℕ
  pub unvested : ℕ
  pub distributions : List ℕ

pub record CapTable : Type 0 where
  pub mint : String
  pub at : ℤ
  pub total_supply : ℕ
  pub treasury : ℕ
  pub holders : List Holder

unfoldable pub percent_of : ℕ → ℕ → ℕ
percent_of amount total_supply =
    let shares = amount * 10000 / total_supply in if total_supply == 0 then 0 else shares

abbrev pub holder : HoldingRow → ℕ → Holder
holder row total_supply = record {
  wallet = row.wallet;
  amount = row.amount;
  pct = percent_of row.amount total_supply;
  vested = row.amount;
  unvested = 0;
  distributions = if ltb 0 row.distributed then row.distributed ∷ [] else [];
}

abbrev pub first_of : {A : Type 0} → List A → Option A
first_of [] = none
first_of (x ∷ _) = some x

-- `row.wallet === treasuryOwner`
abbrev pub is_owner : Option String → HoldingRow → Bool
is_owner none row = false
is_owner (some owner) row = row.wallet === owner

module _ (text_before : String → String → Bool) where
  -- `order by created_slot, mint`
  abbrev earlier_token : TokenRow → TokenRow → Bool
  earlier_token a b =
      ltb a.created_slot b.created_slot
      || (a.created_slot == b.created_slot && text_before a.mint b.mint)

  abbrev pub company_tokens : ℕ → List TokenRow → List TokenRow
  company_tokens company tokens =
      sort earlier_token (keep (λ token. token.company_id == company) tokens)

  abbrev pub token_of_query : Option String → List TokenRow → Option TokenRow
  token_of_query none tokens = first_of tokens
  token_of_query (some mint) tokens = find (λ token. token.mint === mint) tokens

  -- `order by amount desc, wallet asc`
  abbrev pub larger_holding : HoldingRow → HoldingRow → Bool
  larger_holding a b =
      ltb b.amount a.amount || (b.amount == a.amount && text_before a.wallet b.wallet)

  abbrev holdings_of : String → List HoldingRow → List HoldingRow
  holdings_of mint holdings =
      sort larger_holding (keep (λ row. row.mint === mint && ltb 0 row.amount) holdings)

  unfoldable pub table_of : TokenRow → Option String → List HoldingRow → ℤ → CapTable
  table_of token owner holdings at =
      let rows = holdings_of token.mint holdings in
      record {
        mint = token.mint;
        at = at;
        total_supply = token.total_supply;
        treasury =
            or_else (Option.map (λ (row : HoldingRow). row.amount) (find (is_owner owner) rows)) 0;
        holders =
            map (λ row. holder row token.total_supply)
              (keep (λ row. not (is_owner owner row)) rows);
      }

  unfoldable pub cap_table :
      List CompanyRow → List TokenRow → List HoldingRow → ℕ → Option String → ℤ → Option CapTable
  cap_table companies tokens holdings company mint at =
      let found = find (λ (row : CompanyRow). row.company_id == company) companies in
      let owner = Option.map (λ (row : CompanyRow). row.company) found in
      Option.map (λ token. table_of token owner holdings at)
        (token_of_query mint (company_tokens company tokens))

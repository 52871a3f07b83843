-- ===== src/Worker/Store/Replay.antt =====
-- Each statement of the index, run again on what it left, changes nothing. The second row may differ
-- in what is not its key.
use cap_rail.Prelude.{
  String, ℕ, ap, arith, eq_refl, false, if◌then◌else◌, ltb, refl, some, true, ◌&&◌, ◌===◌, ◌==◌,
  ◌||◌, ◌≡◌,
}
use cap_rail.Prelude.Int.{ℤ}
use cap_rail.Table.Laws.{has-insert_absent, insert_absent-again, update_where-again, upsert-again}
use cap_rail.Worker.Rows.{
  AttemptRow, CompanyRow, HoldingRow, Index, InvestorRow, InvestorStatusEventRow, OfferRow,
  PolicyVersionRow, TokenRow, TradeRow,
}
use cap_rail.Worker.Store.{
  OfferChange, Roles, change_offer, create_company, create_token, is_open, may_change, not_after,
  same_attempt, same_holder, same_investor, same_offer, same_trade, same_version,
  set_investor_status, set_policy, set_roles, with_change, with_current, with_policy, with_roles,
}
use mathlib.Core.Path.{ap₂}

company_key :
    (row : CompanyRow)
    → ((row.company_id == row.company_id) || (row.company === row.company)) ≡ true
company_key row = ground arith

pub create_company-again :
    (row : CompanyRow) (index : Index)
    → create_company row (create_company row index) ≡ create_company row index
unfolding create_company
create_company-again row index =
    ap (λ rows. record index { companies = rows })
      (insert_absent-again _ row row index.companies (company_key row))

version_key : (row : PolicyVersionRow) → same_version row row ≡ true
version_key row = ground (arith, eq_refl row.mint)

holder_key : (row : HoldingRow) → same_holder row row ≡ true
holder_key row = ground (arith, eq_refl row.mint, eq_refl row.wallet)

-- Rows under the same keys.
pub create_token-again :
    (token token' : TokenRow) (policy policy' : PolicyVersionRow) (treasury treasury' : HoldingRow)
    (index : Index)
    → token'.mint ≡ token.mint
    → policy'.mint ≡ policy.mint
    → policy'.version ≡ policy.version
    → treasury'.mint ≡ treasury.mint
    → treasury'.wallet ≡ treasury.wallet
    → create_token token' policy' treasury' (create_token token policy treasury index)
      ≡ create_token token policy treasury index
unfolding create_token
create_token-again token token' policy policy' treasury treasury' index et ep ev em ew =
    rw
      (
        et,
        ep,
        ev,
        em,
        ew,
        has-insert_absent (λ known. known.mint === token.mint) token index.tokens
            (eq_refl token.mint),
        has-insert_absent (same_version policy) policy index.policy_versions (version_key policy),
        has-insert_absent (same_holder treasury) treasury index.holdings (holder_key treasury),
      )
      refl

policy_settled :
    (policy policy' : PolicyVersionRow) (at at' : ℤ) (token : TokenRow)
    → policy'.version ≡ policy.version
    → (if (with_policy policy at token).mint === policy'.mint
          && ltb (with_policy policy at token).policy_version policy'.version
        then with_policy policy' at' (with_policy policy at token)
        else with_policy policy at token)
      ≡ with_policy policy at token
policy_settled policy policy' at at' token ev = ground arith

pub set_policy-again :
    (policy policy' : PolicyVersionRow) (at at' : ℤ) (index : Index)
    → policy'.mint ≡ policy.mint
    → policy'.version ≡ policy.version
    → set_policy policy' at' (set_policy policy at index) ≡ set_policy policy at index
unfolding set_policy
set_policy-again policy policy' at at' index em ev =
    ap₂ (λ versions tokens. record index { policy_versions = versions; tokens = tokens })
      (rw
        (
          em,
          ev,
          has-insert_absent (same_version policy) policy index.policy_versions (version_key policy),
        )
        refl)
      (update_where-again _ (λ x. x.mint === policy'.mint && ltb x.policy_version policy'.version) _
        (with_policy policy' at') index.tokens
        (λ token _. policy_settled policy policy' at at' token ev) (λ token no_. rw (em, ev) no_))

roles_settled :
    (company_id : ℕ) (roles : Roles) (company : CompanyRow)
    → (company.company_id == company_id && not_after company.roles_set_at roles.set_at) ≡ true
    → (if company.company_id == company_id && not_after (some roles.set_at) roles.set_at
        then with_roles roles (with_roles roles company)
        else with_roles roles company)
      ≡ with_roles roles company
roles_settled company_id roles company k = ground arith

pub set_roles-again :
    (company_id : ℕ) (roles : Roles) (index : Index)
    → set_roles company_id roles (set_roles company_id roles index)
      ≡ set_roles company_id roles index
unfolding set_roles
set_roles-again company_id roles index =
    ap (λ rows. record index { companies = rows })
      (update_where-again _ _ _ _ index.companies
        (λ company k. roles_settled company_id roles company k) (λ company no_. no_))

status_key :
    (event : InvestorStatusEventRow)
    → (event.tx_signature === event.tx_signature && event.event_index == event.event_index) ≡ true
status_key event = ground (arith, eq_refl event.tx_signature)

investor_key : (row : InvestorRow) → same_investor row row ≡ true
investor_key row = ground (arith, eq_refl row.mint, eq_refl row.wallet)

current_keeps_key :
    (row known : InvestorRow) → same_investor row (with_current row known) ≡ same_investor row known
current_keeps_key row known = ground arith

current_twice :
    (row : InvestorRow) (company_id : ℕ) (known : InvestorRow)
    → with_current (record row { company_id = company_id }) (with_current row known)
      ≡ with_current row known
current_twice row company_id known = ground arith

current_self :
    (row : InvestorRow) (company_id : ℕ)
    → with_current (record row { company_id = company_id }) row ≡ row
current_self row company_id = ground arith

-- The rows of one event, but for the company that they are filed under.
pub set_investor_status-again :
    (event event' : InvestorStatusEventRow) (row : InvestorRow) (company_id : ℕ) (index : Index)
    → event'.tx_signature ≡ event.tx_signature
    → event'.event_index ≡ event.event_index
    → let row' : InvestorRow = record row { company_id = company_id } in
      set_investor_status event' row' (set_investor_status event row index)
      ≡ set_investor_status event row index
unfolding set_investor_status
set_investor_status-again event event' row company_id index es ei =
    let row' : InvestorRow = record row { company_id = company_id } in
    ap₂ (λ events investors. record index { status_events = events; investors = investors })
      (rw (es, ei, has-insert_absent _ event index.status_events (status_key event)) refl)
      (upsert-again (same_investor row) row row' (with_current row) (with_current row')
        index.investors (investor_key row) (current_keeps_key row)
        (λ known. current_twice row company_id known) (current_self row company_id))

cancel_settled :
    (offer : String) (change : OfferChange) (row : OfferRow)
    → is_open change.status ≡ false
    → (if may_change offer change (with_change change row)
        then with_change change (with_change change row)
        else with_change change row)
      ≡ with_change change row
cancel_settled offer change row closed = ground arith

-- A change that closes the offer.
pub change_offer-again :
    (offer : String) (change : OfferChange) (index : Index)
    → is_open change.status ≡ false
    → change_offer offer change (change_offer offer change index) ≡ change_offer offer change index
unfolding change_offer
change_offer-again offer change index closed =
    ap (λ rows. record index { offers = rows })
      (update_where-again (may_change offer change) (may_change offer change) (with_change change)
        (with_change change) index.offers (λ row _. cancel_settled offer change row closed)
        (λ row no_. no_))

pub attempt_key :
    (row : AttemptRow) (signature : String)
    → row.tx_signature ≡ some signature
    → same_attempt row row ≡ true
attempt_key row signature e = rw e (ground (arith, eq_refl signature))

pub offer_key : (row : OfferRow) → same_offer row row ≡ true
offer_key row = ground (arith, eq_refl row.offer)

pub trade_key : (row : TradeRow) → same_trade row row ≡ true
trade_key row = ground (arith, eq_refl row.tx_signature)

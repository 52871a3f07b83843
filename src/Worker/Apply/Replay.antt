-- ===== src/Worker/Apply/Replay.antt =====
-- apps/worker/src/apply.ts: an event that has been applied changes nothing when it comes again.
pub mod Again
pub mod Journal
use cap_rail.Indexer.Events.{
  CompanyCreated, IndexEvent, InvestorStatusSet, OfferAccepted, OfferCancelled, OfferCreated,
  PolicySet, RolesSet, TokenCreated, TransferAllowed, company_created, investor_status_set,
  offer_accepted, offer_cancelled, offer_created, policy_set, roles_set, token_created,
  transfer_allowed,
}
use cap_rail.Prelude.{
  Bool, Bool-cases, List, Option, String, ℕ, ap, arith, false, has, if◌then◌else◌, inl, inr, none,
  refl, some, sym, true, ◌∙◌, ◌≡◌,
}
use cap_rail.Result.{Result, err, ok}
use cap_rail.Table.{insert_absent}
use cap_rail.Table.Laws.{has-insert_absent}
use cap_rail.Worker.Act.{
  Act, World, >>=-eq-ok, >>=-modify, bind_ok, continue, modify, pure, runs, ◌>>=◌, ◌>>◌,
}
use cap_rail.Worker.Act.Keeps.{Keeps, Safe, keeps_rules}
use cap_rail.Worker.Act.Leaves.{Is, Safe-fixed}
use cap_rail.Worker.Apply.Handler.{apply_event, without_lesson}
use cap_rail.Worker.Apply.Lookup.{
  Chain, Ctx, Lesson, company_id_of, known_offer_of, known_token_of, unix,
}
use cap_rail.Worker.Apply.Lookup.Reads.{lookup_rules}
use cap_rail.Worker.Apply.Market.{
  apply_offer_accepted, apply_offer_cancelled, apply_offer_created, cancel_change, offer_row,
  trade_change, trade_row,
}
use cap_rail.Worker.Apply.Mirror.{
  apply_company_created, apply_investor_status_set, apply_policy_set, apply_token_created,
  company_row, first_policy, investor_row, policy_row, status_event, token_row, treasury_holding,
}
use cap_rail.Worker.Apply.Transfer.{allowed_attempt, apply_transfer_allowed, move_balances}
use cap_rail.Worker.Rows.{AttemptRow, HoldingRow, Index, OfferRow, TradeRow}
use cap_rail.Worker.Store.{
  OfferRef, TokenRef, change_offer, create_company, create_offer, create_token, put_holding,
  record_attempt, record_trade, same_attempt, same_offer, same_trade, set_investor_status,
  set_policy, set_roles, touch_offers,
}
use cap_rail.Worker.Store.Replay.{
  attempt_key, change_offer-again, create_company-again, create_token-again, offer_key,
  set_investor_status-again, set_policy-again, set_roles-again, trade_key,
}

pub policy_set-replay :
    (ctx : Ctx) (event : PolicySet) (w : World) {w' : World}
    → apply_policy_set ctx event w ≡ (ok tt, w')
    → Keeps (Is w'.index) (apply_policy_set ctx event)
unfolding apply_policy_set
policy_set-replay ctx event w {w'} e =
    let (token, x, e') = >>=-modify (known_token_of event.mint) _ w e in
    let again = λ (t : TokenRef).
      set_policy-again (policy_row token.company_id ctx event) (policy_row t.company_id ctx event)
        (unix event.set_at) (unix event.set_at) x refl refl in
    let settled = λ (t : TokenRef).
      Safe-fixed w'.index (set_policy (policy_row t.company_id ctx event) (unix event.set_at))
        (rw e' (again t)) in
    search (lookup_rules, settled)

pub investor_status_set-replay :
    (ctx : Ctx) (event : InvestorStatusSet) (i : ℕ) (w : World) {w' : World}
    → apply_investor_status_set ctx event i w ≡ (ok tt, w')
    → Keeps (Is w'.index) (apply_investor_status_set ctx event i)
unfolding apply_investor_status_set
investor_status_set-replay ctx event i w {w'} e =
    let (token, x, e') = >>=-modify (known_token_of event.mint) _ w e in
    let again = λ (t : TokenRef).
      set_investor_status-again (status_event token.company_id ctx event i)
        (status_event t.company_id ctx event i) (investor_row token.company_id ctx event)
        t.company_id x refl refl in
    let settled = λ (t : TokenRef).
      Safe-fixed w'.index
        (set_investor_status (status_event t.company_id ctx event i)
          (investor_row t.company_id ctx event))
        (rw e' (again t)) in
    search (lookup_rules, settled)

pub offer_cancelled-replay :
    (ctx : Ctx) (event : OfferCancelled) (w : World) {w' : World}
    → apply_offer_cancelled ctx event w ≡ (ok tt, w')
    → Keeps (Is w'.index) (apply_offer_cancelled ctx event)
unfolding apply_offer_cancelled
offer_cancelled-replay ctx event w {w'} e =
    let (_, x, e') = >>=-modify (known_offer_of event.offer) _ w e in
    let settled =
      Safe-fixed w'.index (change_offer event.offer (cancel_change ctx event))
        (rw e' (change_offer-again event.offer (cancel_change ctx event) x refl)) in
    search (lookup_rules, settled)

written :
    (ctx : Ctx) (event : CompanyCreated) (w : World) {w' : World} {lesson : Lesson}
    → apply_company_created ctx event w ≡ (ok lesson, w')
    → w'.index ≡ create_company (company_row ctx event) w.index
unfolding apply_company_created ◌>>=◌
written ctx event w e = ap (λ (r : Result Lesson × World). r.1.index) (sym e)

pub company_created-replay :
    (ctx : Ctx) (event : CompanyCreated) (w : World) {w' : World} {lesson : Lesson}
    → apply_company_created ctx event w ≡ (ok lesson, w')
    → Keeps (Is w'.index) (apply_company_created ctx event)
unfolding apply_company_created
company_created-replay ctx event w {w'} e =
    let e' = written ctx event w e in
    let settled =
      Safe-fixed w'.index (create_company (company_row ctx event))
        (rw e' (create_company-again (company_row ctx event) w.index)) in
    search (lookup_rules, settled)

token_written :
    (ctx : Ctx) (event : TokenCreated) (w : World) {w' : World} {lesson : Lesson}
    → apply_token_created ctx event w ≡ (ok lesson, w')
    → (id : ℕ) × (x : Index) × (w'.index
        ≡ create_token
            (token_row id ctx event)
            (first_policy id ctx event)
            (treasury_holding id ctx event)
            x)
unfolding apply_token_created ◌>>=◌
token_written ctx event w e =
    let (id, w₁, _, e') = >>=-eq-ok _ (company_id_of event.company) w e in
    (id, w₁.index, ap (λ (r : Result Lesson × World). r.1.index) (sym e'))

pub token_created-replay :
    (ctx : Ctx) (event : TokenCreated) (w : World) {w' : World} {lesson : Lesson}
    → apply_token_created ctx event w ≡ (ok lesson, w')
    → Keeps (Is w'.index) (apply_token_created ctx event)
unfolding apply_token_created
token_created-replay ctx event w {w'} e =
    let (id, x, e') = token_written ctx event w e in
    let again = λ (n : ℕ).
      create_token-again (token_row id ctx event) (token_row n ctx event)
        (first_policy id ctx event) (first_policy n ctx event) (treasury_holding id ctx event)
        (treasury_holding n ctx event) x refl refl refl refl refl in
    let settled = λ (n : ℕ).
      Safe-fixed w'.index
        (create_token (token_row n ctx event) (first_policy n ctx event)
          (treasury_holding n ctx event))
        (rw e' (again n)) in
    search (lookup_rules, settled)

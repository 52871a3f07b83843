-- ===== src/Worker/Apply/Replay/Again.antt =====
-- apps/worker/src/apply.ts: an event that is handled twice.
use cap_rail.Indexer.Events.{
  IndexEvent, RolesSet, company_created, investor_status_set, offer_accepted, offer_cancelled,
  offer_created, policy_set, roles_set, token_created, transfer_allowed,
}
use cap_rail.Prelude.{ℕ, ap, arith, refl, sym, ◌∙◌, ◌≡◌}
use cap_rail.Result.{Result, ok}
use cap_rail.Worker.Act.{Act, World, >>=-eq-ok, bind_ok, modify, pure, ◌>>=◌}
use cap_rail.Worker.Act.Keeps.{Keeps}
use cap_rail.Worker.Act.Leaves.{Is}
use cap_rail.Worker.Apply.Handler.{apply_event, without_lesson}
use cap_rail.Worker.Apply.Lookup.{Chain, Ctx, Lesson, company_id_of, unix}
use cap_rail.Worker.Apply.Lookup.Reads.{company_id_of-Keeps}
use cap_rail.Worker.Apply.Market.{apply_offer_accepted, apply_offer_cancelled, apply_offer_created}
use cap_rail.Worker.Apply.Mirror.{apply_investor_status_set, apply_policy_set, apply_roles_set}
use cap_rail.Worker.Apply.Replay.{
  company_created-replay, investor_status_set-replay, offer_cancelled-replay, policy_set-replay,
  token_created-replay,
}
use cap_rail.Worker.Apply.Replay.Journal.{
  offer_accepted-replay, offer_created-replay, transfer_allowed-replay,
}
use cap_rail.Worker.Rows.{Index}
use cap_rail.Worker.Store.{Roles, set_roles}
use cap_rail.Worker.Store.Replay.{set_roles-again}

-- The two lookups of the company agree; no other event depends on them.
unfoldable pub NamesAgree : IndexEvent → World → World → Type 0
NamesAgree (roles_set event) first second =
    (company_id_of event.company second).0 ≡ (company_id_of event.company first).0
NamesAgree _ first second = Unit

-- What a handler that reads and then writes leaves, given what it read.
then_modify :
    {A : Type 0} (m : Act A) (change : A → Index → Index) (v : World) (a : A)
    → (m v).0 ≡ ok a
    → Keeps (Is v.index) m
    → ((m >>= λ a. modify (change a)) v).1.index ≡ change a v.index
unfolding modify
then_modify m change v a h k =
    let back = ap (λ r. (r, (m v).1)) h in
    ap (λ (r : Result (Unit {0}) × World). r.1.index) (bind_ok m (λ a. modify (change a)) back)
    ∙ ap (change a) (k.at v refl)

roles_set-replay :
    (event : RolesSet) (w v : World) {w' : World}
    → apply_roles_set event w ≡ (ok tt, w')
    → v.index ≡ w'.index
    → (company_id_of event.company v).0 ≡ (company_id_of event.company w).0
    → (apply_roles_set event v).1.index ≡ w'.index
unfolding apply_roles_set modify
roles_set-replay event w v {w'} e same names =
    let roles : Roles = record {
      admin = event.admin;
      compliance_officer = event.compliance_officer;
      set_at = unix event.set_at;
    } in
    let (id, w₁, found, e') =
      >>=-eq-ok (λ id. modify (set_roles id roles)) (company_id_of event.company) w e in
    let id_found = names ∙ ap (λ (r : Result ℕ × World). r.0) found in
    let written = ap (λ (r : Result (Unit {0}) × World). r.1.index) (sym e') in
    let left =
      then_modify (company_id_of event.company) (λ id. set_roles id roles) v id id_found
        (company_id_of-Keeps event.company) in
    left
    ∙ ap (set_roles id roles) (same ∙ written)
    ∙ set_roles-again id roles w₁.index
    ∙ sym written

-- What teaches nothing leaves what the handler leaves.
without_lesson-run :
    (m : Act (Unit {0})) (w : World) {w' : World} {lesson : Lesson}
    → without_lesson m w ≡ (ok lesson, w')
    → m w ≡ (ok tt, w')
unfolding ◌>>=◌ pure
without_lesson-run m w e =
    let (_, w₁, e₁, e₂) = >>=-eq-ok (λ _. pure (λ memory. memory)) m w e in
    e₁ ∙ ap (λ (r : Result Lesson × World). (ok tt, r.1)) e₂

without_lesson-again :
    (m : Act (Unit {0})) (v : World) {x : Index}
    → (m v).1.index ≡ x
    → (without_lesson m v).1.index ≡ x
unfolding ◌>>=◌ pure
without_lesson-again m v e = ground (arith, e)

-- An event that returned leaves nothing to write: handled again at the same place, from an index
-- that is as it left it and with any memory and log, it leaves the index as it is. Only the company
-- of a change of roles has to be looked up to the same row, since a row of the same signature is
-- found by its key and a change of roles by its company alone.
pub apply_event-again :
    (c : Chain) (ctx : Ctx) (event : IndexEvent) (i : ℕ) (w v : World) {w' : World}
    {lesson : Lesson}
    → apply_event c ctx event i w ≡ (ok lesson, w')
    → v.index ≡ w'.index
    → NamesAgree event w v
    → (apply_event c ctx event i v).1.index ≡ w'.index
unfolding apply_event NamesAgree
apply_event-again c ctx (company_created event) i w v e same names =
    (company_created-replay ctx event w e).at v same
apply_event-again c ctx (token_created event) i w v e same names =
    (token_created-replay ctx event w e).at v same
apply_event-again c ctx (policy_set event) i w v e same names =
    let e' = without_lesson-run (apply_policy_set ctx event) w e in
    without_lesson-again (apply_policy_set ctx event) v
      ((policy_set-replay ctx event w e').at v same)
apply_event-again c ctx (roles_set event) i w v e same names =
    let e' = without_lesson-run (apply_roles_set event) w e in
    without_lesson-again (apply_roles_set event) v (roles_set-replay event w v e' same names)
apply_event-again c ctx (investor_status_set event) i w v e same names =
    let e' = without_lesson-run (apply_investor_status_set ctx event i) w e in
    without_lesson-again (apply_investor_status_set ctx event i) v
      ((investor_status_set-replay ctx event i w e').at v same)
apply_event-again c ctx (transfer_allowed event) i w v e same names =
    (transfer_allowed-replay c ctx event i w e).at v same
apply_event-again c ctx (offer_created event) i w v e same names =
    let e' = without_lesson-run (apply_offer_created ctx event) w e in
    without_lesson-again (apply_offer_created ctx event) v
      ((offer_created-replay ctx event w e').at v same)
apply_event-again c ctx (offer_accepted event) i w v e same names =
    let e' = without_lesson-run (apply_offer_accepted ctx event i) w e in
    without_lesson-again (apply_offer_accepted ctx event i) v
      ((offer_accepted-replay ctx event i w e').at v same)
apply_event-again c ctx (offer_cancelled event) i w v e same names =
    let e' = without_lesson-run (apply_offer_cancelled ctx event) w e in
    without_lesson-again (apply_offer_cancelled ctx event) v
      ((offer_cancelled-replay ctx event w e').at v same)

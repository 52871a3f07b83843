-- ===== src/Api/Feed/Arrivals.antt =====
-- A company's feed over tables that grow: every poll delivers what arrived since the poll before.
use cap_rail.Api.Feed.{
  BookRow, FeedMarks, FeedTables, StatusRow, earlier_policy, events_of, feed, first_marks, fresh,
  last_or, max_of, next_marks, own_attempts, own_offers, own_policies, own_statuses,
}
use cap_rail.Api.Feed.Growth.{
  Arrivals, LandAll, Lands, announced, arrive, arrived, polled, same_offer,
}
use cap_rail.Api.Feed.Joins.{last_joined, selected_joined}
use cap_rail.Api.Feed.Keys.{keys_at}
use cap_rail.Api.Feed.Numbers.{
  Rising-lower, Upto, keep-Upto, keep_comm, last_behind, last_or-Upto, last_or_bounds, max_of-Upto,
  max_of-append, max_within, selected-Rising, selected_behind,
}
use cap_rail.Api.Feed.Order.{keep-append}
use cap_rail.Api.Feed.Policies.{SameKeys, last_slot-Later, next_keys-Later, unseen_policies-Later}
use cap_rail.Api.Journal.{JournalRow}
use cap_rail.Api.Journal.Order.{sort}
use cap_rail.Prelude.{
  List, ℕ, [], ap, arith, has, keep, none, not, refl, ◌++◌, ◌==◌, ◌∙◌, ◌∷◌, ◌≡◌, ◌≤◌,
}
use cap_rail.Worker.Rows.{PolicyVersionRow}

-- The marks say what the tables hold.
abbrev CaughtUp : ℕ → ℕ → FeedTables → FeedMarks → Type 0
CaughtUp company revisions tables marks =
    (marks.attempt_id ≡ max_of (λ row. row.id) (own_attempts company tables))
    × (marks.status_event_id ≡ max_of (λ row. row.id) (own_statuses company tables))
    × (marks.policy_slot ≡ max_of (λ row. row.slot) (own_policies company tables))
    × SameKeys marks.policy_keys (keys_at marks.policy_slot (own_policies company tables))
    × Upto (λ row. row.revision) marks.offer_revision (own_offers company tables)
    × (marks.offer_revision ≤ revisions)

first_marks-CaughtUp :
    (company revisions : ℕ) (tables : FeedTables)
    → Upto (λ row. row.revision) revisions (own_offers company tables)
    → CaughtUp company revisions tables (first_marks company tables)
unfolding first_marks
first_marks-CaughtUp company revisions tables u = (
  refl,
  refl,
  refl,
  λ key. refl,
  max_of-Upto (λ row. row.revision) (own_offers company tables),
  max_within (λ row. row.revision) revisions (own_offers company tables) u,
)

-- A poll behind marks that say what the tables held delivers the arrivals.
fresh-arrived :
    (company revisions : ℕ) (tables : FeedTables) (new : Arrivals) (marks : FeedMarks)
    → CaughtUp company revisions tables marks
    → Lands company revisions tables new
    → fresh company (arrive tables new) marks ≡ arrived company new
unfolding fresh
fresh-arrived company revisions tables new marks (ea, es, ep, sk, uo, lo)
      (ra, rs, en, lp, ro, to, le) =
    let attempts_ =
      selected_behind (λ (row : JournalRow). row.id) marks.attempt_id (own_attempts company tables)
        (keep (λ row. row.attempt.company_id == company) new.attempts) ea ra in
    let statuses_ =
      selected_joined new.investors marks.status_event_id (own_statuses company tables)
        (keep (λ row. row.event.company_id == company) new.statuses) es rs en in
    let policies_ =
      unseen_policies-Later (own_policies company tables)
        (keep (λ row. row.company_id == company) new.policies) marks ep sk lp in
    let changed = λ (row : BookRow). not (has (same_offer row) new.offers) in
    let own = λ (row : BookRow). row.offer.company_id == company in
    let offers_ =
      selected-Rising (λ (row : BookRow). row.revision) marks.offer_revision
        (keep changed (keep own tables.offers)) (keep own new.offers)
        (keep-Upto (λ row. row.revision) marks.offer_revision changed (keep own tables.offers) uo)
        (Rising-lower (λ row. row.revision) marks.offer_revision revisions (keep own new.offers) lo
          ro) in
    rw
      (
        keep-append (λ (row : JournalRow). row.attempt.company_id == company) tables.attempts
            new.attempts,
        keep-append (λ (row : StatusRow). row.event.company_id == company) tables.statuses
            new.statuses,
        keep-append (λ (row : PolicyVersionRow). row.company_id == company) tables.policies
            new.policies,
        keep-append own (keep changed tables.offers) new.offers,
        keep_comm own changed tables.offers,
        attempts_,
        statuses_,
        policies_,
        offers_,
      )
      refl

-- Behind those marks the tables' own marks come next.
next_marks-CaughtUp :
    (company revisions : ℕ) (tables : FeedTables) (new : Arrivals) (marks : FeedMarks)
    → CaughtUp company revisions tables marks
    → Lands company revisions tables new
    → CaughtUp company new.revisions (arrive tables new) (next_marks marks (arrived company new))
unfolding next_marks
next_marks-CaughtUp company revisions tables new marks (ea, es, ep, sk, uo, lo)
      (ra, rs, en, lp, ro, to, le) =
    let policies = own_policies company tables in
    let own_new = keep (λ (row : PolicyVersionRow). row.company_id == company) new.policies in
    let changed = λ (row : BookRow). not (has (same_offer row) new.offers) in
    let own = λ (row : BookRow). row.offer.company_id == company in
    let slot_next : last_or (λ (row : PolicyVersionRow). row.slot) marks.policy_slot
          (sort earlier_policy own_new)
        ≡ max_of (λ row. row.slot) (policies ++ own_new) =
      rw ep (last_slot-Later policies own_new lp) in
    let forward : marks.policy_slot
        ≤ last_or (λ (row : PolicyVersionRow). row.slot) marks.policy_slot
            (sort earlier_policy own_new) =
      rw (slot_next, ep)
        (ground (arith, max_of-append (λ (row : PolicyVersionRow). row.slot) policies own_new)) in
    let low =
      Rising-lower (λ (row : BookRow). row.revision) marks.offer_revision revisions
        (keep own new.offers) lo ro in
    rw
      (
        keep-append (λ (row : JournalRow). row.attempt.company_id == company) tables.attempts
            new.attempts,
        keep-append (λ (row : StatusRow). row.event.company_id == company) tables.statuses
            new.statuses,
        keep-append (λ (row : PolicyVersionRow). row.company_id == company) tables.policies
            new.policies,
        keep-append own (keep changed tables.offers) new.offers,
        keep_comm own changed tables.offers,
      )
      (
        last_behind (λ (row : JournalRow). row.id) marks.attempt_id (own_attempts company tables)
            (keep (λ row. row.attempt.company_id == company) new.attempts) ea ra,
        last_joined new.investors marks.status_event_id
              (keep (λ row. row.event.company_id == company) new.statuses) en
            ∙ last_behind (λ (row : StatusRow). row.id) marks.status_event_id
                (own_statuses company tables)
                (keep (λ row. row.event.company_id == company) new.statuses) es rs,
        slot_next,
        next_keys-Later policies own_new marks
            (last_or (λ (row : PolicyVersionRow). row.slot) marks.policy_slot
              (sort earlier_policy own_new))
            ep forward sk,
        last_or-Upto (λ row. row.revision) marks.offer_revision
            (keep changed (keep own tables.offers)) (keep own new.offers)
            (keep-Upto (λ row. row.revision) marks.offer_revision changed (keep own tables.offers)
              uo)
            low,
        last_or_bounds (λ row. row.revision) marks.offer_revision new.revisions
            (keep own new.offers) low to (omega arith),
      )

polled-announced :
    (company revisions : ℕ) (tables : FeedTables) (marks : FeedMarks) (arrivals : List Arrivals)
    → CaughtUp company revisions tables marks
    → LandAll company revisions tables arrivals
    → polled company tables marks arrivals ≡ announced company tables arrivals
unfolding feed
polled-announced company revisions tables marks [] c l = refl
polled-announced company revisions tables marks (new ∷ later) c (first, rest) =
    let e = fresh-arrived company revisions tables new marks c first in
    rw e (
      ap (λ events. events_of company (arrive tables new) (arrived company new) ++ events)
        (polled-announced company new.revisions (arrive tables new)
          (next_marks marks (arrived company new)) later
          (next_marks-CaughtUp company revisions tables new marks c first) rest))

-- A stream that is opened on some tables and polled after each of any groups of arrivals answers no event
-- at first, and then exactly the events of the arrivals, each once and in order: where the ids of a
-- company's attempts and status events rise, the registry has one entry for each status event that arrives
-- when it is polled, its policies come with keys of their own and not before the latest slot, and a changed
-- offer takes a revision above all that the sequence gave before.
pub feed-announced :
    (company revisions : ℕ) (tables : FeedTables) (arrivals : List Arrivals)
    → Upto (λ row. row.revision) revisions (own_offers company tables)
    → LandAll company revisions tables arrivals
    → let opened = feed company tables none in
      (opened.events ≡ [])
      × (polled company tables opened.marks arrivals ≡ announced company tables arrivals)
unfolding feed
feed-announced company revisions tables arrivals u l = (
  refl,
  polled-announced company revisions tables (first_marks company tables) arrivals
      (first_marks-CaughtUp company revisions tables u) l,
)

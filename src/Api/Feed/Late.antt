-- ===== src/Api/Feed/Late.antt =====
-- A policy that is written late, with a slot before the mark of a feed.
use cap_rail.Api.Feed.{
  FeedMarks, FeedTables, earlier_policy, events_of, feed, fresh, includes, last_or, next_marks,
  own_policies, policy_key, unseen_policies,
}
use cap_rail.Api.Feed.Growth.{Arrivals, arrive, polled}
use cap_rail.Api.Journal.Order.{keep-All, sort, sort-All}
use cap_rail.Prelude.{
  All, Bool-cases, List, ℕ, [], ap, arith, false, inl, inr, keep, leb, leb→le, not, refl, ◌++◌, ◌<◌,
  ◌==◌, ◌∷◌, ◌≡◌, ◌≤◌,
}
use cap_rail.Worker.Rows.{PolicyVersionRow}

-- The tables with one more row of a policy.
abbrev pub with_policy : PolicyVersionRow → FeedTables → FeedTables
with_policy row tables = record tables { policies = row ∷ tables.policies }

kept_after :
    (slot : ℕ) (rows : List PolicyVersionRow)
    → All (λ row. slot ≤ row.slot) (keep (λ row. leb slot row.slot) rows)
kept_after slot [] = tt
kept_after slot (row ∷ rows) = elim (Bool-cases (leb slot row.slot)) [
  | inl e ↦ rw e (leb→le slot row.slot e, kept_after slot rows)
  | inr e ↦ rw e (kept_after slot rows)
]

last_after :
    (slot n : ℕ) (rows : List PolicyVersionRow)
    → slot ≤ n
    → All (λ row. slot ≤ row.slot) rows
    → slot ≤ last_or (λ row. row.slot) n rows
last_after slot n [] h a = h
last_after slot n (row ∷ []) h (b, a) = b
last_after slot n (row ∷ next ∷ rows) h (b, a) = last_after slot n (next ∷ rows) h a

-- The mark of the policies does not go back.
next_marks-slot :
    (company : ℕ) (tables : FeedTables) (since : FeedMarks)
    → since.policy_slot ≤ (next_marks since (fresh company tables since)).policy_slot
unfolding next_marks fresh unseen_policies
next_marks-slot company tables since =
    let rows = keep (λ row. leb since.policy_slot row.slot) (own_policies company tables) in
    let unseen = λ (row : PolicyVersionRow). not (includes since.policy_keys (policy_key row)) in
    last_after since.policy_slot since.policy_slot (keep unseen (sort earlier_policy rows))
      (omega arith)
      (keep-All earlier_policy (λ row. since.policy_slot ≤ row.slot) unseen
        (sort earlier_policy rows)
        (sort-All earlier_policy (λ row. since.policy_slot ≤ row.slot) rows
          (kept_after since.policy_slot (own_policies company tables))))

fresh-with_policy :
    (company : ℕ) (tables : FeedTables) (since : FeedMarks) (late : PolicyVersionRow)
    → late.slot < since.policy_slot
    → fresh company (with_policy late tables) since ≡ fresh company tables since
unfolding fresh unseen_policies
fresh-with_policy company tables since late h =
    let behind : leb since.policy_slot late.slot ≡ false = ground arith in
    elim (Bool-cases (late.company_id == company)) [
      | inl e ↦ rw (e, behind) refl
      | inr e ↦ rw e refl
    ]

-- A policy that is written with a slot before the mark of a stream changes nothing of what the stream
-- brings, in this poll or in any later one: it is not announced at all.
pub polled-late :
    (company : ℕ) (tables : FeedTables) (marks : FeedMarks) (late : PolicyVersionRow)
    (arrivals : List Arrivals)
    → late.slot < marks.policy_slot
    → polled company (with_policy late tables) marks arrivals ≡ polled company tables marks arrivals
unfolding feed events_of
polled-late company tables marks late [] h = refl
polled-late company tables marks late (new ∷ later) h =
    let grown = arrive tables new in
    let rows = fresh company grown marks in
    rw (fresh-with_policy company grown marks late h) (
      ap (λ events. events_of company grown rows ++ events)
        (polled-late company grown (next_marks marks rows) late later
          (omega (arith, h, next_marks-slot company grown marks))))

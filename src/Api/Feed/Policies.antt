-- ===== src/Api/Feed/Policies.antt =====
-- The policies of a feed: what a poll selects behind the mark and the keys seen at it.
use cap_rail.Api.Feed.{
  FeedMarks, earlier_policy, includes, last_or, max_of, next_keys, policy_key, unseen_policies,
}
use cap_rail.Api.Feed.Keys.{
  earlier_asym, earlier_chain, includes-append, includes-keep, includes-sort, keys_at, keys_at-seen,
}
use cap_rail.Api.Feed.Numbers.{Climbing, Upto, last_or-Climbing, max_of-Upto, max_of-append}
use cap_rail.Api.Feed.Order.{Sorted, keep-append, keep-sort, keep_whole, sort-Sorted}
use cap_rail.Api.Journal.Order.{insert, sort, sort-All}
use cap_rail.Prelude.{
  All, Bool-cases, List, String, ℕ, [], arith, false, if◌then◌else◌, inl, inr, keep, leb, map, not,
  refl, true, ◌++◌, ◌<◌, ◌==◌, ◌∙◌, ◌∷◌, ◌≡◌, ◌≤◌,
}
use cap_rail.Worker.Rows.{PolicyVersionRow}
use mathlib.Core.List.{map-append}

-- The rows that arrived are at or after the mark, and have keys of their own.
abbrev pub Later : List PolicyVersionRow → List PolicyVersionRow → Type 0
Later old new =
    All (λ row. max_of (λ r. r.slot) old ≤ row.slot) new
    × All (λ row. includes (map policy_key old) (policy_key row) ≡ false) new

abbrev pub SameKeys : List (String × ℕ) → List (String × ℕ) → Type 0
SameKeys keys keys₂ = (key : String × ℕ) → includes keys key ≡ includes keys₂ key

unseen_rows :
    (old new : List PolicyVersionRow) (since : FeedMarks)
    → SameKeys since.policy_keys (keys_at since.policy_slot old)
    → All (λ row. includes (map policy_key old) (policy_key row) ≡ false) new
    → All (λ row. not (includes since.policy_keys (policy_key row)) ≡ true) new
unseen_rows old [] since s a = tt
unseen_rows old (row ∷ new) since s (e, a) = (
  rw (s (policy_key row), includes-keep (λ r. r.slot == since.policy_slot) old (policy_key row) e)
      refl,
  unseen_rows old new since s a,
)

at_or_after :
    (m : ℕ) (rows : List PolicyVersionRow)
    → All (λ row. m ≤ row.slot) rows
    → All (λ row. leb m row.slot ≡ true) rows
at_or_after m [] a = tt
at_or_after m (row ∷ rows) (b, a) = (ground arith, at_or_after m rows a)

pub unseen_policies-Later :
    (old new : List PolicyVersionRow) (since : FeedMarks)
    → since.policy_slot ≡ max_of (λ row. row.slot) old
    → SameKeys since.policy_keys (keys_at since.policy_slot old)
    → Later old new
    → unseen_policies since (old ++ new) ≡ sort earlier_policy new
unfolding unseen_policies
unseen_policies-Later old new since e s (after, own) =
    let fresh = λ (row : PolicyVersionRow). not (includes since.policy_keys (policy_key row)) in
    let bound : Upto (λ (row : PolicyVersionRow). row.slot) since.policy_slot old =
      rw e (max_of-Upto (λ row. row.slot) old) in
    keep-sort earlier_policy earlier_chain earlier_asym fresh
      (keep (λ row. leb since.policy_slot row.slot) (old ++ new))
    ∙ rw
        (
          keep-append (λ row. leb since.policy_slot row.slot) old new,
          keep_whole (λ row. leb since.policy_slot row.slot) new
              (at_or_after since.policy_slot new (rw e after)),
          keep-append fresh (keep (λ row. leb since.policy_slot row.slot) old) new,
          keys_at-seen since.policy_slot old since.policy_keys (λ key k. rw (s key) k) bound,
          keep_whole fresh new (unseen_rows old new since s own),
        )
        refl

not_earlier :
    (x : PolicyVersionRow) (ys : List PolicyVersionRow)
    → All (λ y. earlier_policy y x ≡ false) ys
    → All (λ y. x.slot ≤ y.slot) ys
not_earlier x [] h = tt
not_earlier x (y ∷ ys) (e, h) = (ground arith, not_earlier x ys h)

slot_climbs :
    (n : ℕ) (rows : List PolicyVersionRow)
    → All (λ row. n ≤ row.slot) rows
    → Sorted earlier_policy rows
    → Climbing (λ row. row.slot) n rows
slot_climbs n [] a s = tt
slot_climbs n (row ∷ rows) (b, a) (c, s) = (b, slot_climbs row.slot rows (not_earlier row rows c) s)

max_of-insert :
    (row : PolicyVersionRow) (rows : List PolicyVersionRow)
    → max_of (λ r. r.slot) (insert earlier_policy row rows) ≡ max_of (λ r. r.slot) (row ∷ rows)
max_of-insert row [] = refl
max_of-insert row (next ∷ rows) = ground (arith, max_of-insert row rows)

max_of-sort :
    (rows : List PolicyVersionRow)
    → max_of (λ r. r.slot) (sort earlier_policy rows) ≡ max_of (λ r. r.slot) rows
max_of-sort [] = refl
max_of-sort (row ∷ rows) =
    max_of-insert row (sort earlier_policy rows) ∙ ground (arith, max_of-sort rows)

pub last_slot-Later :
    (old new : List PolicyVersionRow)
    → Later old new
    → last_or (λ row. row.slot) (max_of (λ row. row.slot) old) (sort earlier_policy new)
      ≡ max_of (λ row. row.slot) (old ++ new)
last_slot-Later old new (after, own) =
    let slot = λ (row : PolicyVersionRow). row.slot in
    last_or-Climbing slot old (sort earlier_policy new) (
      slot_climbs (max_of slot old) (sort earlier_policy new)
        (sort-All earlier_policy (λ row. max_of slot old ≤ row.slot) new after)
        (sort-Sorted earlier_policy earlier_chain earlier_asym new))
    ∙ rw
        (
          max_of-append slot old (sort earlier_policy new),
          max_of-append slot old new,
          max_of-sort new,
        )
        refl

none_at :
    (n slot : ℕ) (rows : List PolicyVersionRow)
    → Upto (λ row. row.slot) n rows
    → n < slot
    → keep (λ row. row.slot == slot) rows ≡ []
none_at n slot [] u h = refl
none_at n slot (row ∷ rows) (b, u) h =
    let e : (row.slot == slot) ≡ false = ground arith in rw e (none_at n slot rows u h)

-- The keys of the next mark are those of the rows at it.
pub next_keys-Later :
    (old new : List PolicyVersionRow) (since : FeedMarks) (slot : ℕ)
    → since.policy_slot ≡ max_of (λ row. row.slot) old
    → since.policy_slot ≤ slot
    → SameKeys since.policy_keys (keys_at since.policy_slot old)
    → SameKeys (next_keys since slot (sort earlier_policy new)) (keys_at slot (old ++ new))
unfolding next_keys
next_keys-Later old new since slot e le s key =
    let here = λ (row : PolicyVersionRow). row.slot == slot in
    let bound : Upto (λ (row : PolicyVersionRow). row.slot) since.policy_slot old =
      rw e (max_of-Upto (λ row. row.slot) old) in
    let front : includes (if slot == since.policy_slot then since.policy_keys else []) key
        ≡ includes (keys_at slot old) key =
      elim (Bool-cases (slot == since.policy_slot)) [
        | inl q ↦ let same : slot ≡ since.policy_slot = ground arith in rw (q, same) (s key)
        | inr q ↦ rw (q, none_at since.policy_slot slot old bound (ground arith)) refl
      ] in
    rw
      (
        includes-append (if slot == since.policy_slot then since.policy_keys else [])
            (map policy_key (keep here (sort earlier_policy new))) key,
        keep-append here old new,
        map-append policy_key (keep here old) (keep here new),
        includes-append (map policy_key (keep here old)) (map policy_key (keep here new)) key,
        keep-sort earlier_policy earlier_chain earlier_asym here new,
        includes-sort (keep here new) key,
        front,
      )
      refl

-- ===== src/Api/Feed/Keys.antt =====
-- The keys of policies that a feed has seen.
use cap_rail.Api.Feed.{earlier_policy, includes, policy_key, same_key}
use cap_rail.Api.Feed.Numbers.{Upto}
use cap_rail.Api.Journal.Order.{insert, sort}
use cap_rail.Prelude.{
  Bool, Bool-cases, List, String, ℕ, [], arith, eq_refl, false, inl, inr, keep, leb, map, not, refl,
  true, ◌++◌, ◌==◌, ◌||◌, ◌∙◌, ◌∷◌, ◌≡◌,
}
use cap_rail.Worker.Rows.{PolicyVersionRow}

abbrev pub keys_at : ℕ → List PolicyVersionRow → List (String × ℕ)
keys_at slot rows = map policy_key (keep (λ row. row.slot == slot) rows)

pub earlier_chain :
    (a b c : PolicyVersionRow)
    → earlier_policy b a ≡ false
    → earlier_policy c b ≡ false
    → earlier_policy c a ≡ false
earlier_chain a b c h k = ground arith

pub earlier_asym : (a b : PolicyVersionRow) → earlier_policy a b ≡ true → earlier_policy b a ≡ false
earlier_asym a b h = ground arith

pub includes-append :
    (xs ys : List (String × ℕ)) (key : String × ℕ)
    → includes (xs ++ ys) key ≡ (includes xs key || includes ys key)
includes-append [] ys key = refl
includes-append (x ∷ xs) ys key = ground (arith, includes-append xs ys key)

same_key_refl : (key : String × ℕ) → same_key key key ≡ true
same_key_refl (mint, version) = ground (arith, eq_refl mint)

includes-insert :
    (row : PolicyVersionRow) (rows : List PolicyVersionRow) (key : String × ℕ)
    → includes (map policy_key (insert earlier_policy row rows)) key
      ≡ includes (map policy_key (row ∷ rows)) key
includes-insert row [] key = refl
includes-insert row (next ∷ rows) key = ground (arith, includes-insert row rows key)

pub includes-sort :
    (rows : List PolicyVersionRow) (key : String × ℕ)
    → includes (map policy_key (sort earlier_policy rows)) key ≡ includes (map policy_key rows) key
includes-sort [] key = refl
includes-sort (row ∷ rows) key =
    includes-insert row (sort earlier_policy rows) key ∙ (ground (arith, includes-sort rows key))

pub includes-keep :
    (p : PolicyVersionRow → Bool) (rows : List PolicyVersionRow) (key : String × ℕ)
    → includes (map policy_key rows) key ≡ false
    → includes (map policy_key (keep p rows)) key ≡ false
includes-keep p [] key h = refl
includes-keep p (row ∷ rows) key h = ground (arith, includes-keep p rows key)

-- Behind the mark every row has a key that was seen at it.
pub keys_at-seen :
    (slot : ℕ) (rows : List PolicyVersionRow) (keys : List (String × ℕ))
    → ((key : String × ℕ) → includes (keys_at slot rows) key ≡ true → includes keys key ≡ true)
    → Upto (λ row. row.slot) slot rows
    → keep (λ row. not (includes keys (policy_key row))) (keep (λ row. leb slot row.slot) rows) ≡ []
keys_at-seen slot [] keys h u = refl
keys_at-seen slot (row ∷ rows) keys h (b, u) =
    let at : (row.slot == slot) ≡ leb slot row.slot = ground arith in
    elim (Bool-cases (leb slot row.slot)) [
      | inl e ↦
          let seen : includes keys (policy_key row) ≡ true =
            h (policy_key row) (rw (at, e) (ground (arith, same_key_refl (policy_key row)))) in
          rw (e, seen)
            (keys_at-seen slot rows keys (λ key k. h key (rw (at, e) (ground (arith, k)))) u)
      | inr e ↦ rw e (keys_at-seen slot rows keys (λ key k. h key (rw (at, e) k)) u)
    ]

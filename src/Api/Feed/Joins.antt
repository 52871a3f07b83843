-- ===== src/Api/Feed/Joins.antt =====
-- Status events joined with the registry: the numbers stay those of the events.
use cap_rail.Api.Feed.{
  JoinedStatus, StatusRow, entries_of, join_all, joined, last_or, max_of, selected,
}
use cap_rail.Api.Feed.Growth.{Entered}
use cap_rail.Api.Feed.Numbers.{Rising, Upto, max_of-Upto, selected-Rising}
use cap_rail.Prelude.{All-append, List, ℕ, [], ap, map, refl, sym, ◌++◌, ◌∙◌, ◌∷◌, ◌≡◌, ◌≤◌}
use cap_rail.Worker.Rows.{InvestorRow}
use mathlib.Core.List.{append_assoc}

abbrev joined_id : JoinedStatus → ℕ
joined_id row = row.status.id

join_all-append :
    (investors : List InvestorRow) (a b : List StatusRow)
    → join_all investors (a ++ b) ≡ join_all investors a ++ join_all investors b
join_all-append investors [] b = refl
join_all-append investors (row ∷ a) b =
    ap (λ rows. joined investors row ++ rows) (join_all-append investors a b)
    ∙ sym (append_assoc (joined investors row) (join_all investors a) (join_all investors b))

entries-Upto :
    (n : ℕ) (row : StatusRow) (entries : List InvestorRow)
    → row.id ≤ n
    → Upto joined_id n
        (map (λ (entry : InvestorRow). record { status = row; investor = entry }) entries)
entries-Upto n row [] h = tt
entries-Upto n row (entry ∷ entries) h = (h, entries-Upto n row entries h)

-- Whatever the registry holds.
join_all-Upto :
    (investors : List InvestorRow) (n : ℕ) (rows : List StatusRow)
    → Upto (λ row. row.id) n rows
    → Upto joined_id n (join_all investors rows)
join_all-Upto investors n [] u = tt
join_all-Upto investors n (row ∷ rows) (b, u) =
    All-append (λ row. joined_id row ≤ n) (joined investors row) (join_all investors rows)
      (entries-Upto n row (entries_of investors row.event) b) (join_all-Upto investors n rows u)

join_all-Rising :
    (investors : List InvestorRow) (n : ℕ) (rows : List StatusRow)
    → Entered investors rows
    → Rising (λ row. row.id) n rows
    → Rising joined_id n (join_all investors rows)
join_all-Rising investors n [] en r = tt
join_all-Rising investors n (row ∷ rows) ((entry, e), en) (b, r) =
    rw e (b, join_all-Rising investors row.id rows en r)

pub selected_joined :
    (investors : List InvestorRow) (since : ℕ) (old new : List StatusRow)
    → since ≡ max_of (λ row. row.id) old
    → Rising (λ row. row.id) (max_of (λ row. row.id) old) new
    → Entered investors new
    → selected joined_id since (join_all investors (old ++ new)) ≡ join_all investors new
selected_joined investors since old new e r en = rw (join_all-append investors old new) (
    selected-Rising joined_id since (join_all investors old) (join_all investors new)
      (join_all-Upto investors since old (rw e (max_of-Upto (λ (row : StatusRow). row.id) old)))
      (join_all-Rising investors since new en (rw e r)))

pub last_joined :
    (investors : List InvestorRow) (since : ℕ) (new : List StatusRow)
    → Entered investors new
    → last_or joined_id since (join_all investors new) ≡ last_or (λ row. row.id) since new
last_joined investors since [] en = refl
last_joined investors since (row ∷ []) ((entry, e), en) = rw e refl
last_joined investors since (row ∷ next ∷ rows) ((entry, e), ((entry', e'), en)) =
    let rest = last_joined investors since (next ∷ rows) ((entry', e'), en) in
    rw e (rw e' (rw e' at rest))

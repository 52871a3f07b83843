-- ===== src/Api/Journal/Pages.antt =====
-- Following the cursors of the journal's pages.
use cap_rail.Api.Journal.{
  Cursor, JournalPage, JournalQuery, JournalRow, cursor_of, journal, journal_conditions, matches,
  newer, newer_row, page_of,
}
use cap_rail.Api.Journal.Cuts.{
  All-middle, keep-satisfied, keep-true, keep_both, length-take, split_at, take-take, take_all,
}
use cap_rail.Api.Journal.Order.{
  Apart, Distinct_, Ordered, keep-Distinct_, keep-sort, sort, sort-Ordered,
}
use cap_rail.Prelude.{
  All, Bool-cases, List, Option, ℕ, [], ap, arith, false, inl, inr, keep, last?, length,
  length-append, ltb, none, refl, some, suc, sym, take, true, zero, ◌++◌, ◌<◌, ◌==◌, ◌∙◌, ◌∷◌, ◌≡◌,
  ◌⊎◌,
}
use mathlib.Core.List.{append-nil, append_assoc}
use mathlib.Core.Path.{subst}

-- The rows that a client sees who follows the cursors, page after page.
abbrev pub with_cursor : Option Cursor → JournalQuery → JournalQuery
with_cursor cursor query = record {
  mint = query.mint;
  cursor = cursor;
  limit = query.limit;
  from = query.from;
  to = query.to;
}

abbrev next_rows : Option Cursor → (Cursor → List JournalRow) → List JournalRow
next_rows none more = []
next_rows (some cursor) more = more cursor

-- The rows of a page, and those of the next one where there is one.
abbrev pub followed : JournalPage → (Cursor → List JournalRow) → List JournalRow
followed page more = page.items ++ next_rows page.next_cursor more

unfoldable pub follow : ℕ → List JournalRow → ℕ → JournalQuery → List JournalRow
follow zero rows company_id query = []
follow (suc fuel) rows company_id query =
    followed (journal rows company_id query)
      (λ cursor. follow fuel rows company_id (with_cursor (some cursor) query))

abbrev NewerThan : Cursor → Cursor → Type 0
NewerThan a b = newer a b ≡ true

newer_trans : (a b c : Cursor) → newer a b ≡ true → newer b c ≡ true → newer a c ≡ true
newer_trans a b c h g = ground (arith, h, g)

newer_irrefl : (a b : Cursor) → newer a b ≡ true → newer b a ≡ false
newer_irrefl a b h = ground (arith, h)

-- What is older than an element of an ordered list stands behind it.
keep-behind :
    (front : List JournalRow) (x : JournalRow) (back : List JournalRow)
    → Ordered newer_row (front ++ x ∷ back)
    → keep (newer_row x) (front ++ x ∷ back) ≡ back
keep-behind [] x back (before, o) = elim (Bool-cases (newer_row x x)) [
  | inl e ↦ ground (arith, e, newer_irrefl (cursor_of x) (cursor_of x) e)
  | inr e ↦ rw e (keep-satisfied (newer_row x) back before)
]
keep-behind (f ∷ front) x back (before, o) =
    rw
      (newer_irrefl (cursor_of f) (cursor_of x)
        (All-middle (λ y. newer_row f y ≡ true) front x back before))
      (keep-behind front x back o)

short_page :
    (limit : ℕ) (rows : List JournalRow)
    → ltb limit (length rows) ≡ false
    → page_of limit rows ≡ record { items = rows; next_cursor = none }
unfolding page_of
short_page limit rows h =
    rw (take-take limit rows, length-take limit rows, h, take_all limit rows h) refl

cut_page :
    (limit : ℕ) (rows init : List JournalRow) (x : JournalRow)
    → ltb limit (length rows) ≡ true
    → take limit rows ≡ init ++ x ∷ []
    → last? (take limit rows) ≡ some x
    → page_of limit rows ≡ record { items = init ++ x ∷ []; next_cursor = some (cursor_of x) }
unfolding page_of
cut_page limit rows init x h front last =
    rw (take-take limit rows, length-take limit rows, h, last, front) refl

-- No two rows have the same id, the serial key of the table.
abbrev pub DistinctIds : List JournalRow → Type 0
DistinctIds [] = Unit
DistinctIds (row ∷ rows) = All (λ other. (row.id == other.id) ≡ false) rows × DistinctIds rows

one_newer :
    (a b : JournalRow) → (a.id == b.id) ≡ false → (newer_row a b ≡ true) ⊎ (newer_row b a ≡ true)
one_newer a b h = elim (Bool-cases (newer_row a b)) [
  | inl e ↦ inl e
  | inr e ↦ inr (ground (arith, h, e))
]

ids-Apart :
    (row : JournalRow) (rows : List JournalRow)
    → All (λ other. (row.id == other.id) ≡ false) rows
    → Apart newer_row row rows
ids-Apart row [] h = tt
ids-Apart row (other ∷ rows) (e, h) = (one_newer row other e, ids-Apart row rows h)

DistinctIds-Distinct_ : (rows : List JournalRow) → DistinctIds rows → Distinct_ newer_row rows
DistinctIds-Distinct_ [] h = tt
DistinctIds-Distinct_ (row ∷ rows) (a, h) = (ids-Apart row rows a, DistinctIds-Distinct_ rows h)

module _ (rows : List JournalRow) (company_id : ℕ) (query : JournalQuery) where
  -- The rows that the query asks for, newest first.
  abbrev pub matching : List JournalRow
  matching = sort newer_row (keep (matches company_id query) rows)

  abbrev selected : Option Cursor → List JournalRow
  selected cursor =
      sort newer_row (keep (journal_conditions company_id (with_cursor cursor query)) rows)

  module _ (distinct : DistinctIds rows) where
    row_trans :
        (a b c : JournalRow) → newer_row a b ≡ true → newer_row b c ≡ true → newer_row a c ≡ true
    row_trans a b c = newer_trans (cursor_of a) (cursor_of b) (cursor_of c)

    kept_distinct : Distinct_ newer_row (keep (matches company_id query) rows)
    kept_distinct =
        keep-Distinct_ newer_row row_trans (matches company_id query) rows
          (DistinctIds-Distinct_ rows distinct)

    matching-Ordered : Ordered newer_row matching
    matching-Ordered =
        sort-Ordered newer_row row_trans (keep (matches company_id query) rows) kept_distinct

    selected-none : selected none ≡ matching
    selected-none = ap (sort newer_row) (keep-true (matches company_id query) rows)

    selected-some :
        (front : List JournalRow) (x : JournalRow) (back : List JournalRow)
        → matching ≡ front ++ x ∷ back
        → selected (some (cursor_of x)) ≡ back
    selected-some front x back split =
        ap (sort newer_row) (keep_both (matches company_id query) (newer_row x) rows)
        ∙ sym (
            keep-sort newer_row row_trans (newer_row x) (keep (matches company_id query) rows)
              kept_distinct)
        ∙ ap (keep (newer_row x)) split
        ∙ keep-behind front x back (subst (Ordered newer_row) split matching-Ordered)

    follow_rest :
        (fuel : ℕ) (cursor : Option Cursor) (front back : List JournalRow)
        → 0 < query.limit
        → matching ≡ front ++ back
        → selected cursor ≡ back
        → length back < fuel
        → follow fuel rows company_id (with_cursor cursor query) ≡ back
    unfolding follow journal
    follow_rest zero cursor front back p split sel enough = ground (arith, enough)
    follow_rest (suc fuel) cursor front back p split sel enough =
        elim (Bool-cases (ltb query.limit (length back))) [
          | inl e ↦
              let (init, x, rest, taken, last, whole) = split_at query.limit back p e in
              let page =
                ap (page_of query.limit) sel ∙ cut_page query.limit back init x e taken last in
              let split₂ =
                split ∙ ap (λ r. front ++ r) whole ∙ sym (append_assoc front init (x ∷ rest)) in
              let shorter : length rest < fuel =
                omega (arith, enough, ap length whole, length-append init (x ∷ rest)) in
              let more : Cursor → List JournalRow =
                λ c. follow fuel rows company_id (with_cursor (some c) query) in
              ap (λ j. followed j more) page
              ∙ ap (λ r. (init ++ x ∷ []) ++ r)
                  (follow_rest fuel (some (cursor_of x)) ((front ++ init) ++ x ∷ []) rest p
                    (split₂ ∙ sym (append_assoc (front ++ init) (x ∷ []) rest))
                    (selected-some (front ++ init) x rest split₂) shorter)
              ∙ append_assoc init (x ∷ []) rest
              ∙ sym whole
          | inr e ↦
              let page = ap (page_of query.limit) sel ∙ short_page query.limit back e in
              let more : Cursor → List JournalRow =
                λ c. follow fuel rows company_id (with_cursor (some c) query) in
              ap (λ j. followed j more) page ∙ append-nil back
        ]

    -- Where no two rows share an id and the limit is positive, a client that follows the cursors sees the rows
    -- that its query asks for, newest first, each once; one page more than there are such rows is enough.
    pub follow-matching :
        (fuel : ℕ)
        → 0 < query.limit
        → length matching < fuel
        → follow fuel rows company_id (with_cursor none query) ≡ matching
    follow-matching fuel p enough = follow_rest fuel none [] matching p refl selected-none enough

-- ===== src/Api/Journal/CursorText/Follow.antt =====
-- Following the journal's pages by the texts of their cursors.
use cap_rail.Api.Journal.{
  Cursor, JournalPage, JournalQuery, JournalRow, cursor_of, journal, journal_conditions, newer_row,
  next_of, page_of,
}
use cap_rail.Api.Journal.CursorText.{encode_cursor, read_cursor}
use cap_rail.Api.Journal.CursorText.RoundTrip.{Ascii, Readable, decode_cursor-encode_cursor}
use cap_rail.Api.Journal.Order.{keep-All, sort, sort-All}
use cap_rail.Api.Journal.Pages.{
  DistinctIds, follow, follow-matching, followed, matching, with_cursor,
}
use cap_rail.Prelude.{
  All, Bool, List, Option, Option-cases, ℕ, [], ap, false, inl, inr, keep, last?, length, ltb, none,
  refl, some, suc, take, true, zero, ◌++◌, ◌<◌, ◌∙◌, ◌∷◌, ◌≡◌,
}
use mathlib.Core.Path.{subst}

-- What is given meets a predicate.
abbrev Given {ℓ κ} : {A : Type ℓ} → (A → Type κ) → Option A → Type κ
Given P none = Unit
Given P (some a) = P a

last-Given {ℓ κ} : {A : Type ℓ} (P : A → Type κ) (xs : List A) → All P xs → Given P (last? xs)
last-Given P [] h = tt
last-Given P (x ∷ []) (h, _) = h
last-Given P (x ∷ y ∷ xs) (_, h) = last-Given P (y ∷ xs) h

take-All {ℓ κ} : {A : Type ℓ} (P : A → Type κ) (n : ℕ) (xs : List A) → All P xs → All P (take n xs)
take-All P zero xs h = tt
take-All P (suc n) [] h = tt
take-All P (suc n) (x ∷ xs) (p, h) = (p, take-All P n xs h)

next_of-Given :
    (more : Bool) (last : Option JournalRow)
    → Given (λ row. Readable (cursor_of row)) last
    → Given Readable (next_of more last)
next_of-Given true (some row) h = h
next_of-Given true none h = tt
next_of-Given false last h = tt

abbrev pub AllReadable : List JournalRow → Type 0
AllReadable rows = All (λ row. Readable (cursor_of row)) rows

journal-Given :
    (rows : List JournalRow) (company_id : ℕ) (query : JournalQuery)
    → AllReadable rows
    → Given Readable (journal rows company_id query).next_cursor
unfolding journal page_of
journal-Given rows company_id query h =
    let P : JournalRow → Type 0 = λ row. Readable (cursor_of row) in
    let kept = keep (journal_conditions company_id query) rows in
    let sorted : All P (sort newer_row kept) =
      sort-All newer_row P kept
        (keep-All newer_row P (journal_conditions company_id query) rows h) in
    let selected = take (suc query.limit) (sort newer_row kept) in
    next_of-Given (ltb query.limit (length selected)) (last? (take query.limit selected)) (
      last-Given P (take query.limit selected) (
        take-All P query.limit selected
          (take-All P (suc query.limit) (sort newer_row kept) sorted)))

module _ (to_base64url from_base64url : List ℕ → List ℕ) where
  -- The rows that a client sees who gives back the text of each page's cursor.
  unfoldable pub follow_texts :
      ℕ → List JournalRow → ℕ → JournalQuery → Option (List ℕ) → List JournalRow
  follow_texts zero rows company_id query text = []
  follow_texts (suc fuel) rows company_id query text =
      followed (journal rows company_id (with_cursor (read_cursor from_base64url text) query))
        (λ cursor.
          follow_texts fuel rows company_id query (some (encode_cursor to_base64url cursor)))

  module _ (back : (text : List ℕ) → Ascii text → from_base64url (to_base64url text) ≡ text) where
    followed-same :
        (page : JournalPage) (a b : Cursor → List JournalRow)
        → Given Readable page.next_cursor
        → ((cursor : Cursor) → Readable cursor → a cursor ≡ b cursor)
        → followed page a ≡ followed page b
    followed-same page a b given same = elim (Option-cases page.next_cursor) [
      | inl e ↦ rw e refl
      | inr (cursor, e) ↦
          rw e (ap (λ more. page.items ++ more) (same cursor (subst (Given Readable) e given)))
    ]

    follow_texts-follow :
        (fuel : ℕ) (rows : List JournalRow) (company_id : ℕ) (query : JournalQuery)
        (text : Option (List ℕ)) (cursor : Option Cursor)
        → AllReadable rows
        → read_cursor from_base64url text ≡ cursor
        → follow_texts fuel rows company_id query text
          ≡ follow fuel rows company_id (with_cursor cursor query)
    unfolding follow_texts follow
    follow_texts-follow zero rows company_id query text cursor h e = refl
    follow_texts-follow (suc fuel) rows company_id query text cursor h e = rw e (
        followed-same (journal rows company_id (with_cursor cursor query)) _ _
          (journal-Given rows company_id (with_cursor cursor query) h)
          (λ next readable.
            follow_texts-follow fuel rows company_id query (some (encode_cursor to_base64url next))
              (some next) h
              (decode_cursor-encode_cursor to_base64url from_base64url back next readable)))

    -- Where base64url gives ASCII back, no two rows share an id, the limit is positive and every row's time
    -- lies from 1970 to before 10 ^ 15 ms and its id below 10 ^ 19: a client that follows the texts of the
    -- cursors sees the rows that its query asks for, newest first, each once; one page more than there are
    -- such rows is enough.
    pub follow_texts-matching :
        (rows : List JournalRow) (company_id : ℕ) (query : JournalQuery) (fuel : ℕ)
        → DistinctIds rows
        → AllReadable rows
        → 0 < query.limit
        → length (matching rows company_id query) < fuel
        → follow_texts fuel rows company_id query none ≡ matching rows company_id query
    follow_texts-matching rows company_id query fuel distinct readable p enough =
        follow_texts-follow fuel rows company_id query none none readable refl
        ∙ follow-matching rows company_id query distinct fuel p enough

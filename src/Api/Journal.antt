-- ===== src/Api/Journal.antt =====
-- apps/api/src/index/reader.ts: the pages of the journal (journalConditions, journal) and the pairing of
-- trades with the transfers of a page (pairTrades). What the database selects is computed on the list of
-- the rows that the session sees; a cursor is the pair that encodeCursor spells.
pub mod CursorText
pub mod Cuts
pub mod Order
pub mod Pages
pub mod Pairing
use cap_rail.Api.Journal.Order.{sort}
use cap_rail.Prelude.{
  Bool, List, Option, String, ℕ, keep, last?, length, ltb, none, not, some, suc, take, true, ◌&&◌,
  ◌===◌, ◌==◌, ◌||◌,
}
use cap_rail.Prelude.Int.{ℤ, leb_ℤ, ltb_ℤ}
use cap_rail.Worker.Rows.{AttemptRow}

-- A row of transfer_attempts with its serial id.
pub record JournalRow : Type 0 where
  pub id : ℕ
  pub attempt : AttemptRow

pub record Cursor : Type 0 where
  pub block_time : ℤ
  pub id : ℕ

pub record JournalQuery : Type 0 where
  pub mint : Option String
  pub cursor : Option Cursor
  pub limit : ℕ
  pub from : Option ℤ
  pub to : Option ℤ

pub record JournalPage : Type 0 where
  pub items : List JournalRow
  pub next_cursor : Option Cursor

abbrev pub cursor_of : JournalRow → Cursor
cursor_of row = record { block_time = row.attempt.block_time; id = row.id }

-- `(block_time, id) < (…, …)`, read from its right side.
abbrev pub newer : Cursor → Cursor → Bool
newer a b =
    ltb_ℤ b.block_time a.block_time || (not (ltb_ℤ a.block_time b.block_time) && ltb b.id a.id)

-- `order by block_time desc, id desc`
abbrev pub newer_row : JournalRow → JournalRow → Bool
newer_row a b = newer (cursor_of a) (cursor_of b)

-- A condition that is pushed only where the query has its value.
abbrev when_given {ℓ} : {A : Type ℓ} → Option A → (A → Bool) → Bool
when_given none test = true
when_given (some a) test = test a

-- The conditions of a query without its cursor.
abbrev pub matches : ℕ → JournalQuery → JournalRow → Bool
matches company_id query row =
    row.attempt.company_id == company_id
    && when_given query.mint (λ mint. row.attempt.mint === mint)
    && when_given query.from (λ from. leb_ℤ from row.attempt.block_time)
    && when_given query.to (λ to. leb_ℤ row.attempt.block_time to)

abbrev pub journal_conditions : ℕ → JournalQuery → JournalRow → Bool
journal_conditions company_id query row =
    matches company_id query row && when_given query.cursor (λ cursor. newer cursor (cursor_of row))

-- `rows.length > query.limit && last !== undefined`
abbrev pub next_of : Bool → Option JournalRow → Option Cursor
next_of true (some last) = some (cursor_of last)
next_of _ _ = none

unfoldable pub page_of : ℕ → List JournalRow → JournalPage
page_of limit selected =
    let rows = take (suc limit) selected in
    let page = take limit rows in
    record { items = page; next_cursor = next_of (ltb limit (length rows)) (last? page) }

unfoldable pub journal : List JournalRow → ℕ → JournalQuery → JournalPage
journal rows company_id query =
    page_of query.limit (sort newer_row (keep (journal_conditions company_id query) rows))

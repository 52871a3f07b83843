-- ===== src/Api/CapTable/Shares.antt =====
-- The treasury and the holders of a cap table make up what is held, and their percentages a hundred.
use cap_rail.Api.CapTable.{
  CapTable, Holder, cap_table, company_tokens, holder, is_owner, larger_holding, percent_of,
  table_of, token_of_query,
}
use cap_rail.Api.Journal.Order.{insert, sort}
use cap_rail.Prelude.{
  Bool, Bool-cases, List, Option, Option-cases, String, ℕ, ===_comm, [], ap, arith, eq_of_===,
  false, find, has, if◌then◌else◌, inl, inr, keep, length, ltb, map, none, not, or_else, refl, some,
  suc, sym, zero, ◌&&◌, ◌*◌, ◌+◌, ◌===◌, ◌==◌, ◌∙◌, ◌∷◌, ◌≡◌, ◌≤◌,
}
use cap_rail.Prelude.Int.{ℤ}
use cap_rail.Table.{Unique}
use cap_rail.Worker.Rows.{CompanyRow, HoldingRow, TokenRow}
use mathlib.Core.Option.{some-injective}
use mathlib.Core.Path.{subst}
use native.Mathlib.Nat.{div-mul-le_self, le_of_mul-le-mul_right}
use mathlib.Core.Option

-- All that is held of a mint.
abbrev pub held : String → List HoldingRow → ℕ
held mint [] = 0
held mint (row ∷ rows) = (if row.mint === mint then row.amount else 0) + held mint rows

abbrev total : List HoldingRow → ℕ
total [] = 0
total (row ∷ rows) = row.amount + total rows

abbrev pub held_by : List Holder → ℕ
held_by [] = 0
held_by (holder ∷ holders) = holder.amount + held_by holders

abbrev pub percents : List Holder → ℕ
percents [] = 0
percents (holder ∷ holders) = holder.pct + percents holders

-- How many rows of the mint a wallet has.
abbrev rows_of_wallet : String → String → List HoldingRow → ℕ
rows_of_wallet mint wallet rows =
    length (keep (λ row. row.mint === mint && row.wallet === wallet) rows)

total-insert :
    (before : HoldingRow → HoldingRow → Bool) (row : HoldingRow) (rows : List HoldingRow)
    → total (insert before row rows) ≡ row.amount + total rows
total-insert before row [] = refl
total-insert before row (next ∷ rows) = ground (arith, total-insert before row rows)

total-sort :
    (before : HoldingRow → HoldingRow → Bool) (rows : List HoldingRow)
    → total (sort before rows) ≡ total rows
total-sort before [] = refl
total-sort before (row ∷ rows) =
    total-insert before row (sort before rows) ∙ ap (λ n. row.amount + n) (total-sort before rows)

total-keep :
    (mint : String) (rows : List HoldingRow)
    → total (keep (λ row. row.mint === mint && ltb 0 row.amount) rows) ≡ held mint rows
total-keep mint [] = refl
total-keep mint (row ∷ rows) = ground (arith, total-keep mint rows)

abbrev owned : Option String → List HoldingRow → List HoldingRow
owned owner rows = keep (is_owner owner) rows

length-insert :
    (before : HoldingRow → HoldingRow → Bool) (p : HoldingRow → Bool) (row : HoldingRow)
    (rows : List HoldingRow)
    → length (keep p (insert before row rows)) ≡ length (keep p (row ∷ rows))
length-insert before p row [] = refl
length-insert before p row (next ∷ rows) = ground (arith, length-insert before p row rows)

length-sort :
    (before : HoldingRow → HoldingRow → Bool) (p : HoldingRow → Bool) (rows : List HoldingRow)
    → length (keep p (sort before rows)) ≡ length (keep p rows)
length-sort before p [] = refl
length-sort before p (row ∷ rows) =
    length-insert before p row (sort before rows) ∙ ground (arith, length-sort before p rows)

length-owned :
    (mint : String) (wallet : String) (rows : List HoldingRow)
    → length (owned (some wallet) (keep (λ row. row.mint === mint && ltb 0 row.amount) rows))
      ≤ rows_of_wallet mint wallet rows
length-owned mint wallet [] = omega arith
length-owned mint wallet (row ∷ rows) = ground (arith, length-owned mint wallet rows)

abbrev others : Option String → ℕ → List HoldingRow → List Holder
others owner supply rows =
    map (λ row. holder row supply) (keep (λ row. not (is_owner owner row)) rows)

abbrev treasury_of : Option String → List HoldingRow → ℕ
treasury_of owner rows =
    or_else (Option.map (λ (row : HoldingRow). row.amount) (find (is_owner owner) rows)) 0

all_others :
    (owner : Option String) (supply : ℕ) (rows : List HoldingRow)
    → length (owned owner rows) ≡ 0
    → held_by (others owner supply rows) ≡ total rows
all_others owner supply [] h = refl
all_others owner supply (row ∷ rows) h = elim (Bool-cases (is_owner owner row)) [
  | inl e ↦ ground (arith, e, h)
  | inr e ↦ ground (arith, e, h, all_others owner supply rows)
]

-- With at most one row of the treasury, its amount and the others' make up the total.
splits :
    (owner : Option String) (supply : ℕ) (rows : List HoldingRow)
    → length (owned owner rows) ≤ 1
    → treasury_of owner rows + held_by (others owner supply rows) ≡ total rows
splits owner supply [] h = refl
splits owner supply (row ∷ rows) h = elim (Bool-cases (is_owner owner row)) [
  | inl e ↦ ground (arith, e, h, all_others owner supply rows)
  | inr e ↦ ground (arith, e, h, splits owner supply rows)
]

percent_of-bound : (amount supply : ℕ) → percent_of amount supply * supply ≤ amount * 10000
unfolding percent_of
percent_of-bound amount supply = elim (Bool-cases (supply == 0)) [
  | inl e ↦ rw e (omega arith)
  | inr e ↦ rw e (div-mul-le_self (amount * 10000) supply)
]

percents-zero :
    (owner : Option String) (rows : List HoldingRow) → percents (others owner 0 rows) ≡ 0
unfolding percent_of
percents-zero owner [] = refl
percents-zero owner (row ∷ rows) = elim (Bool-cases (is_owner owner row)) [
  | inl e ↦ ground (arith, e, percents-zero owner rows)
  | inr e ↦ ground (arith, e, percents-zero owner rows)
]

percents-bound :
    (owner : Option String) (supply : ℕ) (rows : List HoldingRow)
    → percents (others owner supply rows) * supply ≤ held_by (others owner supply rows) * 10000
percents-bound owner supply [] = omega arith
percents-bound owner supply (row ∷ rows) = elim (Bool-cases (is_owner owner row)) [
  | inl e ↦ ground (arith, e, percents-bound owner supply rows)
  | inr e ↦
      rw e (grind (arith, percents-bound owner supply rows, percent_of-bound row.amount supply))
]

percents-hundred :
    (owner : Option String) (supply : ℕ) (rows : List HoldingRow)
    → held_by (others owner supply rows) ≤ supply
    → percents (others owner supply rows) ≤ 10000
percents-hundred owner zero rows h = rw (percents-zero owner rows) (omega arith)
percents-hundred owner (suc n) rows h =
    let bound = percents-bound owner (suc n) rows in
    let top : percents (others owner (suc n) rows) * suc n ≤ 10000 * suc n =
      omega (arith, bound, h) in
    le_of_mul-le-mul_right top (omega arith)

-- Two rows of one wallet and one mint.
abbrev pub same_holding : HoldingRow → HoldingRow → Bool
same_holding a b = a.mint === b.mint && a.wallet === b.wallet

no_row :
    (row : HoldingRow) (rows : List HoldingRow)
    → has (same_holding row) rows ≡ false
    → rows_of_wallet row.mint row.wallet rows ≡ 0
no_row row [] h = refl
no_row row (next ∷ rows) h =
    ground (arith, h, ===_comm row.mint next.mint, ===_comm row.wallet next.wallet, no_row row rows)

one_row :
    (mint wallet : String) (rows : List HoldingRow)
    → Unique same_holding rows
    → rows_of_wallet mint wallet rows ≤ 1
one_row mint wallet [] u = omega arith
one_row mint wallet (row ∷ rows) (apart, u) =
    elim (Bool-cases (row.mint === mint && row.wallet === wallet)) [
      | inl e ↦
          let mints : row.mint ≡ mint = eq_of_=== row.mint mint (ground (arith, e)) in
          let wallets : row.wallet ≡ wallet = eq_of_=== row.wallet wallet (ground (arith, e)) in
          let rest : rows_of_wallet mint wallet rows ≡ 0 =
            subst (λ m. rows_of_wallet m wallet rows ≡ 0) mints
              (subst (λ w. rows_of_wallet row.mint w rows ≡ 0) wallets (no_row row rows apart)) in
          ground (arith, e, rest)
      | inr e ↦ ground (arith, e, one_row mint wallet rows u)
    ]

nobody : (rows : List HoldingRow) → length (owned none rows) ≡ 0
nobody [] = refl
nobody (row ∷ rows) = nobody rows

few_owned :
    (before : HoldingRow → HoldingRow → Bool) (mint : String) (owner : Option String)
    (rows : List HoldingRow)
    → Unique same_holding rows
    → length (owned owner (sort before (keep (λ row. row.mint === mint && ltb 0 row.amount) rows)))
      ≤ 1
few_owned before mint none rows u =
    omega (arith, nobody (sort before (keep (λ row. row.mint === mint && ltb 0 row.amount) rows)))
few_owned before mint (some owner) rows u =
    let kept = keep (λ (row : HoldingRow). row.mint === mint && ltb 0 row.amount) rows in
    omega (
      arith,
      length-sort before (is_owner (some owner)) kept,
      length-owned mint owner rows,
      one_row mint owner rows u,
    )

-- What a cap table says of the holdings that it is made from.
abbrev Shares : List HoldingRow → CapTable → Type 0
Shares holdings table =
    held table.mint holdings ≤ table.total_supply
    → (table.treasury + held_by table.holders ≡ held table.mint holdings)
      × (percents table.holders ≤ 10000)

table_of-Shares :
    (text_before : String → String → Bool) (token : TokenRow) (owner : Option String)
    (holdings : List HoldingRow) (at : ℤ)
    → Unique same_holding holdings
    → Shares holdings (table_of text_before token owner holdings at)
unfolding table_of
table_of-Shares text_before token owner holdings at u h =
    let before = larger_holding text_before in
    let kept = keep (λ (row : HoldingRow). row.mint === token.mint && ltb 0 row.amount) holdings in
    let rows = sort before kept in
    let all_ : total rows ≡ held token.mint holdings =
      total-sort before kept ∙ total-keep token.mint holdings in
    let parts =
      splits owner token.total_supply rows (few_owned before token.mint owner holdings u) in
    (parts ∙ all_, percents-hundred owner token.total_supply rows (omega (arith, parts, all_, h)))

-- Where no wallet has two rows of one mint and no more is held than was issued, the treasury and the
-- holders of a cap table make up all that is held of its mint, and the percentages of the holders come to
-- at most a hundred.
pub cap_table-shares :
    (text_before : String → String → Bool) (companies : List CompanyRow) (tokens : List TokenRow)
    (holdings : List HoldingRow) (company : ℕ) (mint : Option String) (at : ℤ) (table : CapTable)
    → cap_table text_before companies tokens holdings company mint at ≡ some table
    → Unique same_holding holdings
    → held table.mint holdings ≤ table.total_supply
    → (table.treasury + held_by table.holders ≡ held table.mint holdings)
      × (percents table.holders ≤ 10000)
unfolding cap_table
cap_table-shares text_before companies tokens holdings company mint at table e u h =
    let found = find (λ (row : CompanyRow). row.company_id == company) companies in
    let owner = Option.map (λ (row : CompanyRow). row.company) found in
    elim (Option-cases
      (token_of_query text_before mint (company_tokens text_before company tokens))) [
        | inl q ↦ ground (arith, q, e)
        | inr (token, q) ↦
            let same : table_of text_before token owner holdings at ≡ table =
              some-injective _ _
                (ap (Option.map (λ t. table_of text_before t owner holdings at)) (sym q) ∙ e) in
            subst (Shares holdings) same (table_of-Shares text_before token owner holdings at u) h
      ]

-- ===== src/Worker/Store/Holdings.antt =====
-- The holdings under `putHolding`: what each wallet has, and the sum over a mint.
use cap_rail.Prelude.{
  Bool-cases, List, Option, String, ℕ, [], ap, arith, eq_iff, eq_refl, false, find, has,
  if◌then◌else◌, inl, inr, none, refl, some, sym, true, ◌&&◌, ◌++◌, ◌+◌, ◌===◌, ◌||◌, ◌∷◌, ◌≡◌,
}
use cap_rail.Table.{Unique, update_where, upsert}
use cap_rail.Worker.Rows.{HoldingRow, Index}
use cap_rail.Worker.Store.{
  held_by, holding, holding_of, put_holding, read, same_holder, with_holding,
}
use mathlib.Core.Path.{subst₂}

abbrev pub amount_in : Option HoldingRow → ℕ
amount_in none = 0
amount_in (some row) = row.amount

-- What a row counts for in the sum over a mint.
abbrev pub counted : String → HoldingRow → ℕ
counted mint row = if row.mint === mint then row.amount else 0

-- The sum of the amounts of a mint.
pub supply : String → List HoldingRow → ℕ
supply mint [] = 0
supply mint (row ∷ rows) = counted mint row + supply mint rows

held_by-eq :
    (mint wallet : String) (row : HoldingRow)
    → held_by mint wallet row ≡ true
    → (row.mint ≡ mint) × (row.wallet ≡ wallet)
held_by-eq mint wallet row h = ground (arith, eq_iff row.mint mint, eq_iff row.wallet wallet)

held_by_self : (row : HoldingRow) → same_holder row row ≡ true
held_by_self row = simp eq_refl

absent_in_tail :
    (mint wallet : String) (row : HoldingRow) (rows : List HoldingRow)
    → held_by mint wallet row ≡ true
    → has (same_holder row) rows ≡ false
    → has (held_by mint wallet) rows ≡ false
absent_in_tail mint wallet row rows k h =
    let e = held_by-eq mint wallet row k in subst₂ (λ m w. has (held_by m w) rows ≡ false) e.0 e.1 h

module _ (mint wallet : String) (row : HoldingRow) where
  update-absent :
      (rows : List HoldingRow)
      → has (held_by mint wallet) rows ≡ false
      → update_where (held_by mint wallet) (with_holding row) rows ≡ rows
  update-absent [] h = refl
  update-absent (x ∷ rows) h = ground (arith, update-absent rows)

  supply-update :
      (m : String) (rows : List HoldingRow)
      → Unique same_holder rows
      → has (held_by mint wallet) rows ≡ true
      → supply m (update_where (held_by mint wallet) (with_holding row) rows)
          + (if mint === m then amount_in (find (held_by mint wallet) rows) else 0)
        ≡ supply m rows + (if mint === m then row.amount else 0)
  unfolding supply
  supply-update m [] u h = cc
  supply-update m (x ∷ rows) u h = elim (Bool-cases (held_by mint wallet x)) [
    | inl k ↦
        let rest = update-absent rows (absent_in_tail mint wallet x rows k u.0) in
        let same = ap (λ t. t === m) (held_by-eq mint wallet x k).0 in
        rw (k, rest, same) (ground arith)
    | inr k ↦ let ih = supply-update m rows u.1 (rw k at h) in rw k (omega (arith, ih))
  ]

  find-absent :
      (rows : List HoldingRow)
      → has (held_by mint wallet) rows ≡ false
      → find (held_by mint wallet) rows ≡ none
  find-absent [] h = refl
  find-absent (x ∷ rows) h = ground (arith, find-absent rows)

supply-append :
    (m : String) (rows : List HoldingRow) (row : HoldingRow)
    → supply m (rows ++ row ∷ []) ≡ supply m rows + counted m row
unfolding supply
supply-append m [] row = omega arith
supply-append m (x ∷ rows) row = omega (arith, supply-append m rows row)

-- Writing a holding replaces what its wallet had by the new amount.
pub supply-upsert :
    (m : String) (row : HoldingRow) (rows : List HoldingRow)
    → Unique same_holder rows
    → supply m (upsert (same_holder row) row (with_holding row) rows)
        + (if row.mint === m then amount_in (find (same_holder row) rows) else 0)
      ≡ supply m rows + counted m row
supply-upsert m row rows u = elim (Bool-cases (has (same_holder row) rows)) [
  | inl e ↦ rw e (supply-update row.mint row.wallet row m rows u e)
  | inr e ↦ rw (e, find-absent row.mint row.wallet row rows e, supply-append) (ground arith)
]

-- Keys do not change under an update, so what a key finds is found as before or is the new row.
has-update :
    (m w mint wallet : String) (row : HoldingRow) (rows : List HoldingRow)
    → has (held_by m w) (update_where (held_by mint wallet) (with_holding row) rows)
      ≡ has (held_by m w) rows
has-update m w mint wallet row [] = refl
has-update m w mint wallet row (x ∷ rows) = ground (arith, has-update m w mint wallet row rows)

Unique-update :
    (mint wallet : String) (row : HoldingRow) (rows : List HoldingRow)
    → Unique same_holder rows
    → Unique same_holder (update_where (held_by mint wallet) (with_holding row) rows)
Unique-update mint wallet row [] u = tt
Unique-update mint wallet row (x ∷ rows) u = (
  ground (arith, has-update x.mint x.wallet mint wallet row rows),
  Unique-update mint wallet row rows u.1,
)

has-append_one :
    (m w : String) (rows : List HoldingRow) (row : HoldingRow)
    → has (held_by m w) (rows ++ row ∷ []) ≡ (has (held_by m w) rows || held_by m w row)
has-append_one m w [] row = ground arith
has-append_one m w (x ∷ rows) row = ground (arith, has-append_one m w rows row)

pub Unique-append :
    (rows : List HoldingRow) (row : HoldingRow)
    → Unique same_holder rows
    → has (same_holder row) rows ≡ false
    → Unique same_holder (rows ++ row ∷ [])
Unique-append [] row u h = (refl, tt)
Unique-append (x ∷ rows) row u h = (
  ground (
    arith,
    has-append_one x.mint x.wallet rows row,
    eq_iff row.mint x.mint,
    eq_iff row.wallet x.wallet,
    eq_iff x.mint row.mint,
    eq_iff x.wallet row.wallet,
  ),
  Unique-append rows row u.1 (ground arith),
)

pub Unique-upsert :
    (row : HoldingRow) (rows : List HoldingRow)
    → Unique same_holder rows
    → Unique same_holder (upsert (same_holder row) row (with_holding row) rows)
Unique-upsert row rows u = elim (Bool-cases (has (same_holder row) rows)) [
  | inl e ↦ rw e (Unique-update row.mint row.wallet row rows u)
  | inr e ↦ rw e (Unique-append rows row u e)
]

read-update_self :
    (mint wallet : String) (row : HoldingRow) (rows : List HoldingRow)
    → has (held_by mint wallet) rows ≡ true
    → read (find (held_by mint wallet) (update_where (held_by mint wallet) (with_holding row) rows))
      ≡ some (holding row)
read-update_self mint wallet row [] h = cc
read-update_self mint wallet row (x ∷ rows) h =
    ground (arith, read-update_self mint wallet row rows)

not_both :
    (m w mint wallet : String) (x : HoldingRow)
    → (mint === m && wallet === w) ≡ false
    → held_by mint wallet x ≡ true
    → held_by m w x ≡ false
not_both m w mint wallet x ne k =
    let e = held_by-eq mint wallet x k in
    subst₂ (λ a b. (a === m && b === w) ≡ false) (sym e.0) (sym e.1) ne

read-update_ne :
    (m w mint wallet : String) (row : HoldingRow) (rows : List HoldingRow)
    → (mint === m && wallet === w) ≡ false
    → find (held_by m w) (update_where (held_by mint wallet) (with_holding row) rows)
      ≡ find (held_by m w) rows
read-update_ne m w mint wallet row [] ne = refl
read-update_ne m w mint wallet row (x ∷ rows) ne =
    ground (arith, not_both m w mint wallet x ne, read-update_ne m w mint wallet row rows ne)

find-append :
    (m w : String) (rows : List HoldingRow) (row : HoldingRow)
    → find (held_by m w) (rows ++ row ∷ []) ≡ (
        if has (held_by m w) rows
        then find (held_by m w) rows
        else if held_by m w row
        then some row
        else none)
find-append m w [] row = refl
find-append m w (x ∷ rows) row = ground (arith, find-append m w rows row)

-- After `putHolding` its key reads as the new row.
pub holding_of-put_self :
    (row : HoldingRow) (index : Index)
    → holding_of row.mint row.wallet (put_holding row index) ≡ some (holding row)
unfolding holding_of put_holding
holding_of-put_self row index = elim (Bool-cases (has (same_holder row) index.holdings)) [
  | inl e ↦ ground (arith, read-update_self row.mint row.wallet row index.holdings e)
  | inr e ↦ ground (arith, find-append row.mint row.wallet index.holdings row, held_by_self row)
]

-- Every other key reads as before.
pub holding_of-put_ne :
    (m w : String) (row : HoldingRow) (index : Index)
    → held_by m w row ≡ false
    → holding_of m w (put_holding row index) ≡ holding_of m w index
unfolding holding_of put_holding
holding_of-put_ne m w row index ne = elim (Bool-cases (has (same_holder row) index.holdings)) [
  | inl e ↦ ground (arith, read-update_ne m w row.mint row.wallet row index.holdings ne)
  | inr e ↦ ground (arith, find-append m w index.holdings row, find-absent m w row index.holdings)
]

-- ===== src/Api/Queries/Reports.antt =====
-- A reported attempt beside the trades of the journal.
use cap_rail.Api.Journal.{JournalRow}
use cap_rail.Api.Journal.Pairing.{
  best_of, is_better, is_transfer_of, pair_from, pair_one, pair_trades,
}
use cap_rail.Api.Queries.{AttemptReport, owner_of, report_attempt, reported_row, token_with_owner}
use cap_rail.Prelude.{
  Bool, Bool-cases, List, Option, Option-cases, String, ℕ, [], ap, arith, false, find, has,
  if◌then◌else◌, inl, inr, none, refl, some, sym, true, ◌&&◌, ◌++◌, ◌===◌, ◌==◌, ◌∙◌, ◌∷◌, ◌≡◌,
}
use cap_rail.Prelude.Int.{ℤ}
use cap_rail.Worker.Rows.{CompanyRow, TokenRow, TradeRow}
use mathlib.Core.Option.{some-injective}
use mathlib.Core.Path.{subst}
use mathlib.Core.Option

best_of-append :
    (trade : TradeRow) (rows : List JournalRow) (row : JournalRow) (best : Option JournalRow)
    → is_transfer_of trade row ≡ false
    → best_of trade (rows ++ row ∷ []) best ≡ best_of trade rows best
best_of-append trade [] row best h = ground (arith, h)
best_of-append trade (next ∷ rows) row best h =
    best_of-append trade rows row
      (if is_transfer_of trade next && is_better next best then some next else best) h

pair_from-append :
    (rows : List JournalRow) (row : JournalRow) (trades : List TradeRow)
    (paired : ℕ → Option TradeRow)
    → ((trade : TradeRow) → is_transfer_of trade row ≡ false)
    → pair_from (rows ++ row ∷ []) trades paired ≡ pair_from rows trades paired
pair_from-append rows row [] paired h = refl
pair_from-append rows row (trade ∷ trades) paired h =
    rw (best_of-append trade rows row none (h trade))
      (pair_from-append rows row trades (pair_one (best_of trade rows none) trade paired) h)

-- A token of that mint in that company.
abbrev pub is_token_of : String → ℕ → TokenRow → Bool
is_token_of mint company_id token = token.mint === mint && token.company_id == company_id

with_owner-token :
    (token : TokenRow) (owner : Option CompanyRow) (found : TokenRow × CompanyRow)
    → Option.map (λ (o : CompanyRow). (token, o)) owner ≡ some found
    → token ≡ found.0
with_owner-token token none found e = ground (arith, e)
with_owner-token token (some owner) found e =
    ap (λ (p : TokenRow × CompanyRow). p.0) (some-injective _ _ e)

token_with_owner-token :
    (tokens : List TokenRow) (companies : List CompanyRow) (mint : String)
    (found : TokenRow × CompanyRow)
    → token_with_owner tokens companies mint ≡ some found
    → has (is_token_of mint found.0.company_id) tokens ≡ true
token_with_owner-token [] companies mint found e = ground (arith, e)
token_with_owner-token (token ∷ tokens) companies mint found e =
    elim (Bool-cases (token.mint === mint)) [
      | inl k ↦ elim (Option-cases (owner_of companies token)) [
        | inl q ↦
            let later : token_with_owner tokens companies mint ≡ some found =
              ground (arith, k, q, e) in
            ground (arith, token_with_owner-token tokens companies mint found later)
        | inr (first, q) ↦
            let owner = find (λ (row : CompanyRow). row.company_id == token.company_id) companies in
            let same : first ≡ found = some-injective first found (ground (arith, k, q, e)) in
            let named : token ≡ found.0 = with_owner-token token owner found (q ∙ ap some same) in
            let here : (token.company_id == found.0.company_id) ≡ true =
              ground (arith, ap (λ (t : TokenRow). t.company_id) named) in
            ground (arith, k, here)
      ]
      | inr k ↦
          let later : token_with_owner tokens companies mint ≡ some found = ground (arith, k, e) in
          ground (arith, token_with_owner-token tokens companies mint found later)
    ]

-- A report that is taken is of a token that the session sees, in the company of that token, and it takes
-- part in no trade: the trades of a page are paired with the same attempts with it and without it.
pub report_attempt-unpaired :
    (tokens : List TokenRow) (companies : List CompanyRow) (id : ℕ) (report : AttemptReport)
    (reported_by : String) (now : ℤ) (row : JournalRow) (rows : List JournalRow)
    (trades : List TradeRow)
    → report_attempt tokens companies id report reported_by now ≡ some row
    → (has (is_token_of row.attempt.mint row.attempt.company_id) tokens ≡ true)
      × (pair_trades (rows ++ row ∷ []) trades ≡ pair_trades rows trades)
unfolding report_attempt pair_trades
report_attempt-unpaired tokens companies id report reported_by now row rows trades e =
    elim (Option-cases (token_with_owner tokens companies report.mint)) [
      | inl q ↦ ground (arith, q, e)
      | inr (found, q) ↦
          let same : reported_row id report reported_by now found.0 found.1 ≡ row =
            some-injective _ _ (
              ap
                (Option.map
                  (λ (f : TokenRow × CompanyRow). reported_row id report reported_by now f.0 f.1))
                (sym q)
              ∙ e) in
          subst
            (λ (r : JournalRow).
              (has (is_token_of r.attempt.mint r.attempt.company_id) tokens ≡ true)
              × (pair_from (rows ++ r ∷ []) trades (λ i. none) ≡ pair_from rows trades (λ i. none)))
            same
            (
              token_with_owner-token tokens companies report.mint found q,
              pair_from-append rows (reported_row id report reported_by now found.0 found.1) trades
                  (λ i. none) (λ trade. refl),
            )
    ]

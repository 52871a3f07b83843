-- ===== src/Api/Nonces/Refinement.antt =====
-- The table and the map of nonces answer every sequence of calls alike.
use cap_rail.Api.Nonces.{
  Call, NonceMap, NonceRow, consume, consume_call, consume_memory, delete_where, issue, issue_call,
  issue_memory, no_nonces, of_wallet, run_memory, run_rows, to_consume,
}
use cap_rail.Api.Nonces.Views.{
  Agree, OneEach, OneEach-append, OneEach-delete_where, OneEach-update_where, count-keep, has-view,
  view, view-append, view-delete_where, view-update_where,
}
use cap_rail.Prelude.{
  Bool, Bool-cases, List, String, [], arith, eq_of_===, eq_refl, false, has, inl, inr, none, refl,
  sym, true, ◌===◌, ◌∷◌, ◌≡◌,
}
use cap_rail.Prelude.Int.{ℤ}
use mathlib.Core.Path.{subst}

-- The table stands for the map: they say the same of every wallet.
abbrev Refines : List NonceRow → NonceMap → Type 0
Refines rows nonces = OneEach rows × Agree rows nonces

issue-Refines :
    (wallet nonce : String) (at : ℤ) (rows : List NonceRow) (nonces : NonceMap)
    → Refines rows nonces
    → Refines (issue wallet nonce at rows) (issue_memory wallet nonce at nonces)
unfolding issue
issue-Refines wallet nonce at rows nonces (u, agree) =
    elim (Bool-cases (has (of_wallet wallet) rows)) [
      | inl e ↦ rw e (
        OneEach-update_where wallet nonce at rows u,
        λ k. elim (Bool-cases (wallet === k)) [
          | inl q ↦ ground (
            arith,
            q,
            view-update_where wallet nonce at rows k,
            agree k,
            subst (λ w. has (of_wallet w) rows ≡ true) (eq_of_=== wallet k q) e,
            has-view rows k,
          )
          | inr q ↦ ground (arith, q, view-update_where wallet nonce at rows k, agree k)
        ],
      )
      | inr e ↦
          let absent : view rows wallet ≡ none = ground (arith, e, has-view rows wallet) in
          rw e (
            OneEach-append wallet nonce at rows u absent,
            λ k. ground (arith, view-append wallet nonce at rows k absent, agree k),
          )
    ]

consume-Refines :
    (wallet nonce : String) (now : ℤ) (rows : List NonceRow) (nonces : NonceMap)
    → Refines rows nonces
    → (let (answer, left) = consume wallet nonce now rows in
        let (answer₂, left₂) = consume_memory wallet nonce now nonces in
        (answer ≡ answer₂) × Refines left left₂)
unfolding consume consume_memory
consume-Refines wallet nonce now rows nonces (u, agree) = (
  ground (arith, count-keep wallet nonce now now rows u, agree wallet),
  (
    OneEach-delete_where wallet nonce now now rows u,
    λ k. elim (Bool-cases (wallet === k)) [
      | inl q ↦ rw (sym (eq_of_=== wallet k q)) (
          ground (
            arith,
            eq_refl wallet,
            view-delete_where wallet nonce now now rows wallet u,
            agree wallet,
          ))
      | inr q ↦ ground (arith, q, view-delete_where wallet nonce now now rows k u, agree k)
    ],
  ),
)

run-Refines :
    (calls : List Call) (rows : List NonceRow) (nonces : NonceMap)
    → Refines rows nonces
    → run_rows calls rows ≡ run_memory calls nonces
unfolding run_rows run_memory
run-Refines [] rows nonces h = refl
run-Refines ((issue_call wallet nonce at) ∷ calls) rows nonces h =
    run-Refines calls (issue wallet nonce at rows) (issue_memory wallet nonce at nonces)
      (issue-Refines wallet nonce at rows nonces h)
run-Refines ((consume_call wallet nonce now) ∷ calls) rows nonces h =
    let (same, kept) = consume-Refines wallet nonce now rows nonces h in
    let (answer, left) = consume wallet nonce now rows in
    let (answer₂, left₂) = consume_memory wallet nonce now nonces in
    rw (same, run-Refines calls left left₂ kept) refl

-- The table of nonces and the map of nonces, both empty at first, answer every sequence of calls alike.
pub run_rows-run_memory : (calls : List Call) → run_rows calls [] ≡ run_memory calls no_nonces
run_rows-run_memory calls = run-Refines calls [] no_nonces (tt, λ wallet. refl)

abbrev pub answer_of : Bool × List NonceRow → Bool
answer_of (answer, rows) = answer

abbrev rows_of : Bool × List NonceRow → List NonceRow
rows_of (answer, rows) = rows

-- Where a wallet has at most one row and a call has consumed its nonce, the next call for that wallet is
-- refused, whatever nonce it names and whenever it comes.
consume-once :
    (wallet nonce other : String) (now later : ℤ) (rows : List NonceRow)
    → OneEach rows
    → answer_of (consume wallet nonce now rows) ≡ true
    → answer_of (consume wallet other later (rows_of (consume wallet nonce now rows))) ≡ false
unfolding consume
consume-once wallet nonce other now later rows u h =
    let left = delete_where (to_consume wallet nonce now) rows in
    let gone : view left wallet ≡ none = ground (
      arith,
      h,
      count-keep wallet nonce now now rows u,
      view-delete_where wallet nonce now now rows wallet u,
      eq_refl wallet,
    ) in
    rw
      (
        count-keep wallet other later later left (OneEach-delete_where wallet nonce now now rows u),
        gone,
      )
      refl

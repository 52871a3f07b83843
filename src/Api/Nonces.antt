-- ===== src/Api/Nonces.antt =====
-- apps/api/src/auth/nonce-store.ts: the nonces of a login, in the table auth_nonces and in a map.
pub mod Views
pub mod Refinement
use cap_rail.Prelude.{
  Bool, List, Option, String, [], false, if◌then◌else◌, keep, length, none, not, some, true, ◌&&◌,
  ◌===◌, ◌==◌, ◌||◌, ◌∷◌,
}
use cap_rail.Prelude.Int.{ℤ, leb_ℤ, ltb_ℤ}
use cap_rail.Table.{upsert}

pub record NonceRow : Type 0 where
  pub wallet : String
  pub nonce : String
  pub expires_at : ℤ

-- `delete … where … returning`: what is left, and what was deleted.
abbrev pub delete_where {ℓ} : {A : Type ℓ} → (A → Bool) → List A → List A
delete_where test rows = keep (λ row. not (test row)) rows

abbrev pub of_wallet : String → NonceRow → Bool
of_wallet wallet row = row.wallet === wallet

-- The condition of the delete: the wallet, the nonce, and an expiry after now.
abbrev is_live : String → ℤ → NonceRow → Bool
is_live nonce now row = (row.nonce === nonce) && ltb_ℤ now row.expires_at

abbrev pub to_consume : String → String → ℤ → NonceRow → Bool
to_consume wallet nonce now row = of_wallet wallet row && is_live nonce now row

-- `drizzleNonceStore`
unfoldable pub issue : String → String → ℤ → List NonceRow → List NonceRow
issue wallet nonce expires_at rows =
    upsert (of_wallet wallet) (record { wallet = wallet; nonce = nonce; expires_at = expires_at })
      (λ row. record { wallet = row.wallet; nonce = nonce; expires_at = expires_at }) rows

unfoldable pub consume : String → String → ℤ → List NonceRow → Bool × List NonceRow
consume wallet nonce now rows = (
  length (keep (to_consume wallet nonce now) rows) == 1,
  delete_where (to_consume wallet nonce now) rows,
)

-- `memoryNonceStore`: its Map is the function that looks a wallet up in it.
pub record Nonce : Type 0 where
  pub nonce : String
  pub expires_at : ℤ

abbrev pub NonceMap : Type 0
NonceMap = String → Option Nonce

abbrev pub no_nonces : NonceMap
no_nonces wallet = none

abbrev pub issue_memory : String → String → ℤ → NonceMap → NonceMap
issue_memory wallet nonce expires_at rows other =
    if wallet === other
    then some (record { nonce = nonce; expires_at = expires_at })
    else rows other

-- `row.nonce !== nonce || row.expiresAt <= now`
abbrev pub is_refused : String → ℤ → Nonce → Bool
is_refused nonce now row = not (row.nonce === nonce) || leb_ℤ row.expires_at now

abbrev delete_key : String → NonceMap → NonceMap
delete_key wallet rows other = if wallet === other then none else rows other

unfoldable pub consume_memory : String → String → ℤ → NonceMap → Bool × NonceMap
consume_memory wallet nonce now rows = elim (rows wallet) [
  | none ↦ (false, rows)
  | some row ↦ if is_refused nonce now row then (false, rows) else (true, delete_key wallet rows)
]

-- The calls that a store answers.
pub data Call : Type 0 where
  issue_call : (wallet nonce : String) (expires_at : ℤ) → Call
  consume_call : (wallet nonce : String) (now : ℤ) → Call

-- What `consume` answers to each call, in order.
unfoldable pub run_rows : List Call → List NonceRow → List Bool
run_rows [] rows = []
run_rows ((issue_call wallet nonce expires_at) ∷ calls) rows =
    run_rows calls (issue wallet nonce expires_at rows)
run_rows ((consume_call wallet nonce now) ∷ calls) rows =
    let (answer, left) = consume wallet nonce now rows in answer ∷ run_rows calls left

unfoldable pub run_memory : List Call → NonceMap → List Bool
run_memory [] rows = []
run_memory ((issue_call wallet nonce expires_at) ∷ calls) rows =
    run_memory calls (issue_memory wallet nonce expires_at rows)
run_memory ((consume_call wallet nonce now) ∷ calls) rows =
    let (answer, left) = consume_memory wallet nonce now rows in answer ∷ run_memory calls left

-- ===== src/Api/Nonces/Views.antt =====
-- What the table of nonces says of a wallet, before and after each statement.
use cap_rail.Api.Nonces.{
  Nonce, NonceMap, NonceRow, delete_where, is_refused, issue_memory, of_wallet, to_consume,
}
use cap_rail.Prelude.{
  Bool, Bool-cases, List, Option, String, ℕ, ===_comm, [], arith, eq_of_===, eq_refl, has,
  if◌then◌else◌, inl, inr, is_none, keep, length, none, not, refl, some, sym, ◌&&◌, ◌++◌, ◌===◌,
  ◌∷◌, ◌≡◌,
}
use cap_rail.Prelude.Int.{ℤ}
use cap_rail.Table.{update_where}
use mathlib.Core.Path.{subst}

abbrev nonce_of : NonceRow → Nonce
nonce_of row = record { nonce = row.nonce; expires_at = row.expires_at }

-- What the table says of a wallet.
abbrev pub view : List NonceRow → NonceMap
view [] wallet = none
view (row ∷ rows) wallet =
    let rest = view rows wallet in if of_wallet wallet row then some (nonce_of row) else rest

-- A wallet has at most one row: the table's primary key.
abbrev pub OneEach : List NonceRow → Type 0
OneEach [] = Unit
OneEach (row ∷ rows) = (view rows row.wallet ≡ none) × OneEach rows

abbrev pub Agree : List NonceRow → NonceMap → Type 0
Agree rows nonces = (wallet : String) → view rows wallet ≡ nonces wallet

pub has-view :
    (rows : List NonceRow) (wallet : String)
    → has (of_wallet wallet) rows ≡ not (is_none (view rows wallet))
has-view [] wallet = refl
has-view (row ∷ rows) wallet = ground (arith, has-view rows wallet)

module _ (wallet nonce : String) (at : ℤ) where
  abbrev new_row : NonceRow
  new_row = record { wallet = wallet; nonce = nonce; expires_at = at }

  abbrev renew : NonceRow → NonceRow
  renew row = record { wallet = row.wallet; nonce = nonce; expires_at = at }

  pub view-append :
      (rows : List NonceRow) (k : String)
      → view rows wallet ≡ none
      → view (rows ++ new_row ∷ []) k ≡ issue_memory wallet nonce at (view rows) k
  view-append [] k n = ground arith
  view-append (row ∷ rows) k n = elim (Bool-cases (row.wallet === k)) [
    | inl e ↦
        rw (sym (eq_of_=== row.wallet k e))
          (ground (arith, n, eq_refl row.wallet, ===_comm row.wallet wallet))
    | inr e ↦ rw e (view-append rows k (ground (arith, n)))
  ]

  -- What the table says of a wallet once the rows of this one are renewed.
  abbrev renewed : Bool → Option Nonce → Option Nonce
  renewed mine none = none
  renewed mine (some old) =
      if mine then some (record { nonce = nonce; expires_at = at }) else some old

  pub view-update_where :
      (rows : List NonceRow) (k : String)
      → view (update_where (of_wallet wallet) renew rows) k ≡ renewed (wallet === k) (view rows k)
  view-update_where [] k = refl
  view-update_where (row ∷ rows) k = elim (Bool-cases (row.wallet === k)) [
    | inl e ↦
        rw (sym (eq_of_=== row.wallet k e))
          (ground (arith, eq_refl row.wallet, ===_comm row.wallet wallet))
    | inr e ↦ ground (arith, e, view-update_where rows k)
  ]

  pub OneEach-append :
      (rows : List NonceRow)
      → OneEach rows
      → view rows wallet ≡ none
      → OneEach (rows ++ new_row ∷ [])
  OneEach-append [] u n = (refl, tt)
  OneEach-append (row ∷ rows) (new, u) n = (
    ground (
      arith,
      n,
      new,
      view-append rows row.wallet (ground (arith, n)),
      ===_comm row.wallet wallet,
    ),
    OneEach-append rows u (ground (arith, n)),
  )

  pub OneEach-update_where :
      (rows : List NonceRow) → OneEach rows → OneEach (update_where (of_wallet wallet) renew rows)
  OneEach-update_where [] u = tt
  OneEach-update_where (row ∷ rows) (new, u) =
      (ground (arith, new, view-update_where rows row.wallet), OneEach-update_where rows u)

  module _ (now : ℤ) where
    abbrev counted : Option Nonce → ℕ
    counted none = 0
    counted (some row) = if is_refused nonce now row then 0 else 1

    pub count-keep :
        (rows : List NonceRow)
        → OneEach rows
        → length (keep (to_consume wallet nonce now) rows) ≡ counted (view rows wallet)
    count-keep [] u = refl
    count-keep (row ∷ rows) (new, u) =
        let same = eq_of_=== row.wallet wallet in
        elim (Bool-cases (row.wallet === wallet)) [
          | inl e ↦
              ground (arith, e, count-keep rows u, subst (λ w. view rows w ≡ none) (same e) new)
          | inr e ↦ ground (arith, e, count-keep rows u)
        ]

    abbrev left_of : Bool → Option Nonce → Option Nonce
    left_of mine none = none
    left_of mine (some row) = if mine && not (is_refused nonce now row) then none else some row

    pub view-delete_where :
        (rows : List NonceRow) (k : String)
        → OneEach rows
        → view (delete_where (to_consume wallet nonce now) rows) k
          ≡ left_of (wallet === k) (view rows k)
    view-delete_where [] k u = refl
    view-delete_where (row ∷ rows) k (new, u) = elim (Bool-cases (row.wallet === k)) [
      | inl e ↦ rw (sym (eq_of_=== row.wallet k e)) (
          ground (
            arith,
            eq_refl row.wallet,
            ===_comm row.wallet wallet,
            new,
            view-delete_where rows row.wallet u,
          ))
      | inr e ↦ ground (arith, e, view-delete_where rows k u)
    ]

    pub OneEach-delete_where :
        (rows : List NonceRow)
        → OneEach rows
        → OneEach (delete_where (to_consume wallet nonce now) rows)
    OneEach-delete_where [] u = tt
    OneEach-delete_where (row ∷ rows) (new, u) =
        ground (arith, new, view-delete_where rows row.wallet u, OneEach-delete_where rows u)

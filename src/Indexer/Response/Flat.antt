-- ===== src/Indexer/Response/Flat.antt =====
-- The flat list of a transaction's instructions.
use cap_rail.Indexer.Parse.{Instruction}
use cap_rail.Indexer.Response.{
  InnerGroup, InnerInstruction, TransactionResponse, flat_instruction, from_transaction_response,
  inner_groups, inner_instruction, set_group,
}
use cap_rail.Prelude.{
  Bool, List, String, ℕ, [], arith, false, or_else, refl, some, sym, true, ◌++◌, ◌∙◌, ◌∷◌, ◌≡◌, ◌≢◌,
}
use cap_rail.Result.{Result, err, not_base58, ok, traverse, ◌>>=◌}
use cap_rail.Shared.Base58.{decode_base58, encode_base58}
use cap_rail.Shared.Base58.RoundTrip.{decode-encode}
use cap_rail.Shared.Digits.Laws.{Below}
use mathlib.Core.Path.{subst}

-- A computation that gives no value, whatever its error.
abbrev Fails {ℓ} : {A : Type ℓ} → Result A → Type ℓ
Fails m = (a : _) → m ≢ ok a

abbrev pub gives_value {ℓ} : {A : Type ℓ} → Result A → Bool
gives_value (ok a) = true
gives_value (err e) = false

no_value {ℓ} : {A : Type ℓ} (m : Result A) → Fails m → gives_value m ≡ false
no_value (ok a) h = ground (arith, h a refl)
no_value (err e) h = refl

bind-Fails {ℓ κ} :
    {A : Type ℓ} {B : Type κ} (m : Result A) (f : A → Result B) → Fails m → Fails (m >>= f)
bind-Fails (ok a) f h b = λ e. ground (arith, h a refl)
bind-Fails (err e) f h b = λ q. ground (arith, q)

bind-Fails_after {ℓ κ} :
    {A : Type ℓ} {B : Type κ} (m : Result A) (f : A → Result B)
    → ((a : A) → Fails (f a))
    → Fails (m >>= f)
bind-Fails_after (ok a) f h b = h a b
bind-Fails_after (err e) f h b = λ q. ground (arith, q)

traverse-Fails {ℓ κ} :
    {A : Type ℓ} {B : Type κ} (f : A → Result B) (before : List A) (x : A) (after : List A)
    → Fails (f x)
    → Fails (traverse f (before ++ x ∷ after))
traverse-Fails f [] x after h = bind-Fails (f x) (λ y. traverse f after >>= λ ys. ok (y ∷ ys)) h
traverse-Fails f (y ∷ before) x after h =
    bind-Fails_after (f y) (λ z. traverse f (before ++ x ∷ after) >>= λ zs. ok (z ∷ zs))
      (λ z.
        bind-Fails (traverse f (before ++ x ∷ after)) (λ zs. ok (z ∷ zs))
          (traverse-Fails f before x after h))

module _ (to_base64 : List ℕ → String) (signature : String) (keys : List String) where
  -- An inner instruction whose data is the base58 text of some bytes, at least one and each below 256, arrives as
  -- those bytes would in a compiled instruction: with the same program, accounts, data and outer index, or
  -- the same error.
  inner_instruction-encode :
      (outer program : ℕ) (accounts : List ℕ) (byte : ℕ) (bytes : List ℕ)
      → Below 256 (byte ∷ bytes)
      → inner_instruction to_base64 signature keys outer (record {
        program_id_index = program;
        accounts = accounts;
        base58 = encode_base58 (byte ∷ bytes);
      })
        ≡ flat_instruction to_base64 signature keys outer program accounts (byte ∷ bytes)
  inner_instruction-encode outer program accounts byte bytes h =
      rw (decode-encode byte bytes h) refl

  empty_data :
      (outer : ℕ) (ix : InnerInstruction)
      → ix.base58 ≡ ""
      → inner_instruction to_base64 signature keys outer ix ≡ err (not_base58 signature)
  unfolding decode_base58
  empty_data outer ix e = rw e refl

  empty-Fails :
      (outer : ℕ) (ix : InnerInstruction)
      → ix.base58 ≡ ""
      → Fails (inner_instruction to_base64 signature keys outer ix)
  empty-Fails outer ix e a = λ q. ground (arith, sym (empty_data outer ix e) ∙ q)

  inner_groups-Fails :
      (front : List InnerGroup) (group : InnerGroup) (back : List InnerGroup)
      (inner : ℕ → List Instruction)
      → Fails (traverse (inner_instruction to_base64 signature keys group.index) group.instructions)
      → Fails (inner_groups to_base64 signature keys (front ++ group ∷ back) inner)
  inner_groups-Fails [] group back inner h =
      bind-Fails
        (traverse (inner_instruction to_base64 signature keys group.index) group.instructions)
        (λ is.
          inner_groups to_base64 signature keys back (set_group to_base64 group.index is inner))
        h
  inner_groups-Fails (other ∷ front) group back inner h =
      bind-Fails_after
        (traverse (inner_instruction to_base64 signature keys other.index) other.instructions)
        (λ is.
          inner_groups to_base64 signature keys (front ++ group ∷ back)
            (set_group to_base64 other.index is inner))
        (λ is. inner_groups-Fails front group back (set_group to_base64 other.index is inner) h)

-- A transaction in which some inner instruction has no data, which base58 writes as the empty text, gives an
-- error, whatever else it holds: it has no flat form.
pub from_transaction_response-empty_data :
    (to_base64 : List ℕ → String) (signature : String) (tx : TransactionResponse)
    (front : List InnerGroup) (group : InnerGroup) (back : List InnerGroup)
    (before : List InnerInstruction) (ix : InnerInstruction) (after : List InnerInstruction)
    → tx.inner_instructions ≡ some (front ++ group ∷ back)
    → group.instructions ≡ before ++ ix ∷ after
    → ix.base58 ≡ ""
    → gives_value (from_transaction_response to_base64 signature tx) ≡ false
unfolding from_transaction_response
from_transaction_response-empty_data to_base64 signature tx front group back before ix after groups
      instructions empty =
    let f = inner_instruction to_base64 signature tx.account_keys group.index in
    let fails =
      subst (λ is. Fails (traverse f is)) (sym instructions)
        (traverse-Fails f before ix after
          (empty-Fails to_base64 signature tx.account_keys group.index ix empty)) in
    no_value (from_transaction_response to_base64 signature tx) (
      bind-Fails
        (inner_groups to_base64 signature tx.account_keys (or_else tx.inner_instructions [])
          (λ index. []))
        _
        (subst
          (λ o.
            Fails (inner_groups to_base64 signature tx.account_keys (or_else o []) (λ index. [])))
          (sym groups)
          (inner_groups-Fails to_base64 signature tx.account_keys front group back (λ index. [])
            fails)))

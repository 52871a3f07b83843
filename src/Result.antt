-- ===== src/Result.antt =====
-- What an `async` function of the worker settles to: a value, or the error that it throws.
use cap_rail.Prelude.{ℕ, String, Option, none, some, List, [], ◌∷◌}

pub data Error : Type 0 where
  -- `NotIndexedYet(what, key)`
  not_indexed_yet : String → String → Error
  -- a reader of packages/indexer/src/events.ts: what has not the shape it expects
  bad_event : String → Error
  -- `transaction … is not served yet`, `transaction … has no block time`
  not_served : String → Error
  no_block_time : String → Error
  -- `token account … has no balance`
  no_balance : String → Error
  -- `account index … out of range`, `inner instruction data is not base58`
  index_out_of_range : String → ℕ → Error
  not_base58 : String → Error
  -- an RPC call that failed
  rpc_failed : Error

pub data Result {ℓ} (A : Type ℓ) : Type ℓ where
  ok : A → Result A
  err : Error → Result A

infixl 5 ◌>>=◌ ◌>>◌
abbrev pub ◌>>=◌ {ℓ κ} : {A : Type ℓ} {B : Type κ} → Result A → (A → Result B) → Result B
ok a >>= f = f a
err e >>= f = err e

abbrev pub ◌>>◌ {ℓ κ} : {A : Type ℓ} {B : Type κ} → Result A → Result B → Result B
m >> k = m >>= λ _. k

-- The value, or the error where there is none.
abbrev pub or_throw {ℓ} : {A : Type ℓ} → Option A → Error → Result A
or_throw none e = err e
or_throw (some a) e = ok a

-- `xs.map(f)` where `f` may throw.
abbrev pub traverse {ℓ κ} : {A : Type ℓ} {B : Type κ} → (A → Result B) → List A → Result (List B)
traverse f [] = ok []
traverse f (x ∷ xs) = f x >>= λ y. traverse f xs >>= λ ys. ok (y ∷ ys)

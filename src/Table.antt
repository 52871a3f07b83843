-- ===== src/Table.antt =====
-- Tables as lists of rows, and the statements of apps/worker/src/index-store.ts over them:
-- insert … on conflict do nothing, update … where, insert … on conflict do update.
pub mod Laws
use cap_rail.Prelude.{◌≡◌, Bool, false, Option, List, [], ◌∷◌, ◌++◌, has, find, if◌then◌else◌}

module _ {ℓ} {A : Type ℓ} where
  -- `conflicts` marks the rows that share a unique key with the new one.
  abbrev pub insert_absent : (A → Bool) → A → List A → List A
  insert_absent conflicts row rows = if has conflicts rows then rows else rows ++ row ∷ []

  abbrev pub update_where : (A → Bool) → (A → A) → List A → List A
  update_where test change [] = []
  update_where test change (row ∷ rows) =
      (if test row then change row else row) ∷ update_where test change rows

  abbrev pub upsert : (A → Bool) → A → (A → A) → List A → List A
  upsert conflicts row change rows =
      if has conflicts rows then update_where conflicts change rows else rows ++ row ∷ []

  -- The first row that meets the test, if any: `select … where … limit 1`.
  abbrev pub select : (A → Bool) → List A → Option A
  select = find

  -- No two rows share a key.
  abbrev pub Unique : (A → A → Bool) → List A → Type 0
  Unique same [] = Unit
  Unique same (row ∷ rows) = (has (same row) rows ≡ false) × Unique same rows

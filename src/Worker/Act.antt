-- ===== src/Worker/Act.antt =====
-- The effects of a handler of apps/worker/src/apply.ts: the index inside its database transaction,
-- the applier's memory, the log, and an error that ends it.
pub mod Keeps
pub mod Leaves
use cap_rail.Prelude.{List, Option, String, ℕ, [], inl, inr, none, some, ◌++◌, ◌∷◌, ◌⊎◌}
use cap_rail.Result.{Error, Result, err, ok}
use cap_rail.Worker.Rows.{Index}
use cap_rail.Worker.Store.{TokenRef}
use mathlib.Core.Path.{ap, refl, sym, ◌≡◌}
use native.Mathlib.Omega.{arith}

-- The three maps of `createApplier`, newest entry first.
pub record Memory : Type 0 where
  pub company_ids : List (String × ℕ)
  pub tokens : List (String × TokenRef)
  pub owners : List (String × String)

-- The messages of the log, with the signature of the transaction.
pub data LogEntry : Type 0 where
  reconciled : String → LogEntry
  no_instruction : String → LogEntry
  unknown_mint : String → LogEntry
  program_refused : String → LogEntry

pub record World : Type 0 where
  pub index : Index
  pub memory : Memory
  pub log : List LogEntry

abbrev pub Act : Type 0 → Type 0
Act A = World → Result A × World

module _ {A : Type 0} where
  unfoldable pub pure : A → Act A
  pure a w = (ok a, w)

  unfoldable pub throw : Error → Act A
  throw e w = (err e, w)

  unfoldable pub lift : Result A → Act A
  lift r w = (r, w)

  -- A read of the index.
  unfoldable pub gets : (Index → A) → Act A
  gets f w = (ok (f w.index), w)

  unfoldable pub remembers : (Memory → A) → Act A
  remembers f w = (ok (f w.memory), w)

  -- A statement that answers.
  unfoldable pub runs : (Index → A × Index) → Act A
  runs f w = let (a, index) = f w.index in (ok a, record w { index = index })

  unfoldable pub or_fail : Option A → Error → Act A
  or_fail none e w = (err e, w)
  or_fail (some a) e w = (ok a, w)

unfoldable pub modify : (Index → Index) → Act (Unit {0})
modify f w = (ok tt, record w { index = f w.index })

unfoldable pub learn : (Memory → Memory) → Act (Unit {0})
learn f w = (ok tt, record w { memory = f w.memory })

unfoldable pub say : LogEntry → Act (Unit {0})
say entry w = (ok tt, record w { log = w.log ++ entry ∷ [] })

-- What follows a step, by how it ended.
abbrev pub continue : {A B : Type 0} → Result A × World → (A → Act B) → Result B × World
continue (ok a, w) f = f a w
continue (err e, w) f = (err e, w)

infixl 5 ◌>>=◌ ◌>>◌
unfoldable pub ◌>>=◌ : {A B : Type 0} → Act A → (A → Act B) → Act B
unfolding pure throw lift gets remembers runs or_fail modify learn say
◌>>=◌ m f w = continue (m w) f

abbrev pub ◌>>◌ : {A B : Type 0} → Act A → Act B → Act B
m >> k = m >>= λ _. k

-- A step that returns hands its value and its state on; one that throws ends the block.
module _ {A B : Type 0} (m : Act A) (f : A → Act B) {w w' : World} where
  pub bind_ok : {a : A} → m w ≡ (ok a, w') → (m >>= f) w ≡ f a w'
  unfolding ◌>>=◌
  bind_ok e = ap (λ r. continue r f) e

  bind_err : {e : Error} → m w ≡ (err e, w') → (m >>= f) w ≡ (err e, w')
  unfolding ◌>>=◌
  bind_err p = ap (λ r. continue r f) p

-- A block that returns has had a first step that returned.
module _ {A B : Type 0} (f : A → Act B) {w' : World} {b : B} where
  continue-eq-ok :
      (r : Result A × World)
      → continue r f ≡ (ok b, w')
      → (a : A) × (w₁ : World) × (r ≡ (ok a, w₁)) × (f a w₁ ≡ (ok b, w'))
  continue-eq-ok (ok a, w₁) e = (a, w₁, refl, e)
  continue-eq-ok (err x, w₁) e = ground arith

  pub >>=-eq-ok :
      (m : Act A) (w : World)
      → (m >>= f) w ≡ (ok b, w')
      → (a : A) × (w₁ : World) × (m w ≡ (ok a, w₁)) × (f a w₁ ≡ (ok b, w'))
  unfolding ◌>>=◌
  >>=-eq-ok m w e = continue-eq-ok (m w) e

-- A block that throws has thrown in its first step or after it.
module _ {A B : Type 0} (f : A → Act B) {w' : World} {x : Error} where
  continue-eq-err :
      (r : Result A × World)
      → continue r f ≡ (err x, w')
      → (r ≡ (err x, w')) ⊎ ((a : A) × (w₁ : World) × (r ≡ (ok a, w₁)) × (f a w₁ ≡ (err x, w')))
  continue-eq-err (ok a, w₁) e = inr (a, w₁, refl, e)
  continue-eq-err (err y, w₁) e = inl (ground (arith, e))

  pub >>=-eq-err :
      (m : Act A) (w : World)
      → (m >>= f) w ≡ (err x, w')
      → (m w ≡ (err x, w')) ⊎ ((a : A) × (w₁ : World) × (m w ≡ (ok a, w₁)) × (f a w₁ ≡ (err x, w')))
  unfolding ◌>>=◌
  >>=-eq-err m w e = continue-eq-err (m w) e

-- What a statement at the end of a block leaves.
pub >>=-modify :
    {A : Type 0} (m : Act A) (change : A → Index → Index) (w : World) {w' : World}
    → (m >>= λ a. modify (change a)) w ≡ (ok tt, w')
    → (a : A) × (x : Index) × (w'.index ≡ change a x)
unfolding modify
>>=-modify m change w e =
    let (a, w₁, _, e') = >>=-eq-ok (λ a. modify (change a)) m w e in
    (a, w₁.index, ap (λ (r : Result (Unit {0}) × World). r.1.index) (sym e'))

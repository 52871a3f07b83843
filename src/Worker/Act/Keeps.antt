-- ===== src/Worker/Act/Keeps.antt =====
-- Invariants of the index under handlers, one rule for each way to build a handler.
use cap_rail.Prelude.{Bool, Option, false, if◌then◌else◌, none, refl, some, true, ◌≡◌}
use cap_rail.Result.{Error, Result, err, ok}
use cap_rail.Worker.Act.{
  Act, LogEntry, Memory, World, continue, gets, learn, lift, modify, or_fail, pure, remembers, runs,
  say, throw, ◌>>=◌,
}
use cap_rail.Worker.Rows.{Index}

-- `m` keeps `P` of the index, whether it returns or throws.
pub record Keeps {A : Type 0} (P : Index → Type 0) (m : Act A) : Type 0 where
  pub at : (w : World) → P w.index → P (m w).1.index

-- A statement keeps `P`.
pub record Safe (P : Index → Type 0) (f : Index → Index) : Type 0 where
  pub run : (index : Index) → P index → P (f index)

module _ {A : Type 0} {P : Index → Type 0} where
  pub Keeps-pure : (value : A) → Keeps P (pure value)
  unfolding pure
  Keeps-pure value = record { at = λ w before. before }

  pub Keeps-throw : (e : Error) → Keeps P (throw {A = A} e)
  unfolding throw
  Keeps-throw e = record { at = λ w h. h }

  pub Keeps-lift : (answer : Result A) → Keeps P (lift answer)
  unfolding lift
  Keeps-lift answer = record { at = λ w before. before }

  pub Keeps-gets : (f : Index → A) → Keeps P (gets f)
  unfolding gets
  Keeps-gets f = record { at = λ w h. h }

  pub Keeps-remembers : (f : Memory → A) → Keeps P (remembers f)
  unfolding remembers
  Keeps-remembers f = record { at = λ w h. h }

  pub Keeps-or_fail : (o : Option A) (e : Error) → Keeps P (or_fail o e)
  unfolding or_fail
  Keeps-or_fail none e = record { at = λ w h. h }
  Keeps-or_fail (some a) e = record { at = λ w h. h }

  pub Keeps-runs : (f : Index → A × Index) → Safe P (λ index. (f index).1) → Keeps P (runs f)
  unfolding runs
  Keeps-runs f s = record { at = λ w h. s.run w.index h }

  -- Each branch under its condition.
  pub Keeps-if :
      (test : Bool) (yes_branch no_branch : Act A)
      → (test ≡ true → Keeps P yes_branch)
      → (test ≡ false → Keeps P no_branch)
      → Keeps P (if test then yes_branch else no_branch)
  Keeps-if test yes_branch no_branch on_true on_false =
      elim test as (λ b. test ≡ b → Keeps P (if b then yes_branch else no_branch)) [
        | true ↦ on_true
        | false ↦ on_false
      ]
        refl

module _ {P : Index → Type 0} where
  pub Keeps-modify : (f : Index → Index) → Safe P f → Keeps P (modify f)
  unfolding modify
  Keeps-modify f s = record { at = λ w h. s.run w.index h }

  pub Keeps-learn : (f : Memory → Memory) → Keeps P (learn f)
  unfolding learn
  Keeps-learn f = record { at = λ w h. h }

  pub Keeps-say : (entry : LogEntry) → Keeps P (say entry)
  unfolding say
  Keeps-say entry = record { at = λ w h. h }

module _ {A B : Type 0} {P : Index → Type 0} where
  continue-Keeps :
      (r : Result A) (f : A → Act B) (w : World)
      → ((a : A) → Keeps P (f a))
      → P w.index
      → P (continue (r, w) f).1.index
  continue-Keeps (ok a) f w kf h = (kf a).at w h
  continue-Keeps (err e) f w kf h = h

  pub Keeps-bind :
      (first : Act A) (next : A → Act B)
      → Keeps P first
      → ((value : A) → Keeps P (next value))
      → Keeps P (first >>= next)
  unfolding ◌>>=◌
  Keeps-bind first next first_keeps next_keeps = record {
    at = λ w before.
        let (r, w') = first w in continue-Keeps r next w' next_keeps (first_keeps.at w before);
  }

pub ruleset keeps_rules = (
  Keeps-pure, Keeps-throw, Keeps-lift, Keeps-gets, Keeps-remembers, Keeps-or_fail, Keeps-runs,
  Keeps-if, Keeps-modify, Keeps-learn, Keeps-say, Keeps-bind,
)

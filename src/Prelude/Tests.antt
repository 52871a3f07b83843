-- ===== src/Prelude/Tests.antt =====
-- Boolean tests on native numbers, texts and options, the conditional, and case lemmas.
use Prim.Native.Nat.{Ordering, ℕ, compare, ◌<◌, ◌≤◌}
use Prim.Native.String.{String}
use mathlib.Core.Bool.{Bool, false, true}
use mathlib.Core.Logic.{inl, inr, ◌↔◌, ◌⊎◌}
use mathlib.Core.Option.{Option, none, some}
use mathlib.Core.Path.{refl, ◌≡◌}
use native.Mathlib.Omega.{arith}
use text.Mathlib.Text.{◌==◌ as text_eq}
use text.Mathlib.TextEquality.{eq_iff}

abbrev pub ltb : ℕ → ℕ → Bool
ltb a b = elim (compare a b) [ Ordering.lt ↦ true | _ ↦ false ]

abbrev pub leb : ℕ → ℕ → Bool
leb a b = elim (compare a b) [ Ordering.gt ↦ false | _ ↦ true ]

infix 50 ◌==◌ ◌===◌
abbrev pub ◌==◌ : ℕ → ℕ → Bool
a == b = elim (compare a b) [ Ordering.eq ↦ true | _ ↦ false ]

-- `===` on strings.
abbrev pub ◌===◌ : String → String → Bool
s === t = text_eq s t

infix 1 if◌then◌else◌
abbrev pub if◌then◌else◌ {ℓ} : {A : Type ℓ} → Bool → A → A → A
if true then x else y = x
if false then x else y = y

-- `o === null` on an optional value.
abbrev pub is_none {ℓ} : {A : Type ℓ} → Option A → Bool
is_none none = true
is_none (some _) = false

-- `o ?? d`
abbrev pub or_else {ℓ} : {A : Type ℓ} → Option A → A → A
or_else none d = d
or_else (some a) d = a

pub Bool-cases : (b : Bool) → (b ≡ true) ⊎ (b ≡ false)
Bool-cases true = inl refl
Bool-cases false = inr refl

pub Option-cases {ℓ} : {A : Type ℓ} (o : Option A) → (o ≡ none) ⊎ ((a : A) × (o ≡ some a))
Option-cases none = inl refl
Option-cases (some a) = inr (a, refl)

pub ltb→lt : (a b : ℕ) → ltb a b ≡ true → a < b
ltb→lt a b h = ground arith

pub leb→le : (a b : ℕ) → leb a b ≡ true → a ≤ b
leb→le a b h = ground arith

pub ==_iff : (a b : ℕ) → ((a == b) ≡ true) ↔ (a ≡ b)
==_iff a b = ground arith

pub eq_of_=== : (a b : String) → (a === b) ≡ true → a ≡ b
eq_of_=== a b h = ground (arith, h, eq_iff a b)

pub ===_comm : (a b : String) → (a === b) ≡ (b === a)
===_comm a b = ground (arith, eq_iff a b, eq_iff b a)

-- What holds on both sides of a conditional holds of it.
pub if_elim {ℓ κ} :
    {A : Type ℓ} (P : A → Type κ) (b : Bool) {x y : A} → P x → P y → P (if b then x else y)
if_elim P true p q = p
if_elim P false p q = q

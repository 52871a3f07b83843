-- ===== src/Shared/Base58/Laws.antt =====
-- Texts in base 58 and the digits they stand for.
use cap_rail.Prelude.{
  Bool, Bool-cases, List, Option, Option-cases, String, ℕ, [], ap, arith, false, if◌then◌else◌, inl,
  inr, none, not, refl, some, suc, sym, true, zero, ◌%◌, ◌&&◌, ◌*◌, ◌++◌, ◌+◌, ◌/◌, ◌<◌, ◌==◌, ◌∙◌,
  ◌∷◌, ◌≡◌, ◌⊎◌,
}
use cap_rail.Shared.Base58.{
  Char, base58_alphabet, code, index_of, leading_ones, ones, read_base58, symbol_at, write_base58,
}
use cap_rail.Shared.Digits.{from_digits, leading_zeros, prepend_digits, zeros}
use cap_rail.Shared.Digits.Laws.{Below}
use native.Mathlib.Nat.{eq-or-lt_of_le, le_of_suc-le-suc}
use text.Mathlib.TextEquality.{Char-path}
use mathlib.Core.Option

-- The text of a list of digits.
abbrev pub text_of : List ℕ → String
text_of [] = String.[]
text_of (d ∷ digits) = String.◌∷◌ (symbol_at d base58_alphabet) (text_of digits)

abbrev with_digit : Option ℕ → Option (List ℕ) → Option (List ℕ)
with_digit (some d) (some digits) = some (d ∷ digits)
with_digit _ _ = none

-- The digits of a text, if each of its characters is in the alphabet.
abbrev pub digits_of : String → Option (List ℕ)
digits_of String.[] = some []
digits_of (String.◌∷◌ c text) = with_digit (index_of c base58_alphabet) (digits_of text)

read_through :
    (o : Option (List ℕ)) (value d : ℕ)
    → Option.map (λ digits. from_digits 58 (value * 58 + d) digits) o
      ≡ Option.map (λ digits. from_digits 58 value digits) (with_digit (some d) o)
read_through none value d = refl
read_through (some digits) value d = refl

with_digit-cases :
    (o : Option ℕ) (rest : Option (List ℕ)) (digits : List ℕ)
    → with_digit o rest ≡ some digits
    → (d : ℕ) × (ds : List ℕ) × (o ≡ some d) × (rest ≡ some ds) × (digits ≡ d ∷ ds)
with_digit-cases none rest digits h = ground (arith, h)
with_digit-cases (some d) none digits h = ground (arith, h)
with_digit-cases (some d) (some ds) digits h = (d, ds, refl, refl, ground (arith, h))

==→≡ : (a b : ℕ) → (a == b) ≡ true → a ≡ b
==→≡ a b h = ground (arith, h)

is_at : ℕ → Option ℕ → Bool
is_at d none = false
is_at d (some i) = i == d

is_at→≡ : (d : ℕ) (o : Option ℕ) → is_at d o ≡ true → o ≡ some d
unfolding is_at
is_at→≡ d none h = ground arith
is_at→≡ d (some i) h = ap some (==→≡ i d h)

-- A test that every number below n passes.
all_pass : (ℕ → Bool) → ℕ → Bool
all_pass test zero = true
all_pass test (suc n) = test n && all_pass test n

passes_below : (test : ℕ → Bool) (n d : ℕ) → all_pass test n ≡ true → d < n → test d ≡ true
unfolding all_pass
passes_below test zero d h l = ground (arith, l)
passes_below test (suc n) d h l = elim (eq-or-lt_of_le (le_of_suc-le-suc l)) [
  | inl e ↦ rw e (ground (arith, h))
  | inr less ↦ passes_below test n d (ground (arith, h)) less
]

found_cases :
    (b : Bool) (o : Option ℕ) (i : ℕ)
    → (if b then some 0 else Option.map suc o) ≡ some i
    → ((b ≡ true) × (i ≡ 0)) ⊎ ((j : ℕ) × (o ≡ some j) × (i ≡ suc j))
found_cases true o i h = inl (refl, ground (arith, h))
found_cases false none i h = ground (arith, h)
found_cases false (some j) i h = inr (j, refl, ground (arith, h))

-- A character that is found stands at the index found.
symbol_at-index_of :
    (c : Char) (text : String) (i : ℕ) → index_of c text ≡ some i → symbol_at i text ≡ c
symbol_at-index_of c String.[] i h = ground (arith, h)
symbol_at-index_of c (String.◌∷◌ d text) i h =
    elim (found_cases (code c == code d) (index_of c text) i h) [
      | inl (e, z) ↦ rw z (sym (Char-path c d (==→≡ (code c) (code d) e)))
      | inr (j, q, z) ↦ rw z (symbol_at-index_of c text j q)
    ]

symbols : String → ℕ
symbols String.[] = 0
symbols (String.◌∷◌ c text) = suc (symbols text)

index_of-bound : (c : Char) (text : String) (i : ℕ) → index_of c text ≡ some i → i < symbols text
unfolding symbols
index_of-bound c String.[] i h = ground (arith, h)
index_of-bound c (String.◌∷◌ d text) i h =
    elim (found_cases (code c == code d) (index_of c text) i h) [
      | inl (e, z) ↦ omega (arith, z)
      | inr (j, q, z) ↦ omega (arith, z, index_of-bound c text j q)
    ]

agree : Bool → Bool → Bool
agree true b = b
agree false b = not b

agree→≡ : (a b : Bool) → agree a b ≡ true → a ≡ b
unfolding agree
agree→≡ true b h = sym h
agree→≡ false true h = ground (arith, h)
agree→≡ false false h = refl

index_of-symbol_at :
    (d : ℕ) → d < 58 → index_of (symbol_at d base58_alphabet) base58_alphabet ≡ some d
unfolding all_pass is_at base58_alphabet
index_of-symbol_at d h = is_at→≡ d (index_of (symbol_at d base58_alphabet) base58_alphabet) (
    passes_below (λ e. is_at e (index_of (symbol_at e base58_alphabet) base58_alphabet)) 58 d refl
      h)

is_one-symbol_at : (d : ℕ) → d < 58 → (code (symbol_at d base58_alphabet) == b'1') ≡ (d == 0)
unfolding all_pass agree base58_alphabet
is_one-symbol_at d h =
    agree→≡ (code (symbol_at d base58_alphabet) == b'1') (d == 0)
      (passes_below (λ e. agree (code (symbol_at e base58_alphabet) == b'1') (e == 0)) 58 d refl h)

-- The loops on texts are the loops on digits.
pub read-digits_of :
    (value : ℕ) (text : String)
    → read_base58 value text ≡ Option.map (λ digits. from_digits 58 value digits) (digits_of text)
unfolding read_base58
read-digits_of value String.[] = refl
read-digits_of value (String.◌∷◌ c text) = elim (Option-cases (index_of c base58_alphabet)) [
  | inl n ↦ rw (n, read_base58, digits_of) refl
  | inr (d, q) ↦
      rw (q, read_base58, digits_of)
        (read-digits_of (value * 58 + d) text ∙ read_through (digits_of text) value d)
]

pub write-text_of :
    (fuel value : ℕ) (digits : List ℕ)
    → write_base58 fuel value (text_of digits) ≡ text_of (prepend_digits 58 fuel value digits)
unfolding write_base58 prepend_digits
write-text_of zero value digits = refl
write-text_of (suc fuel) value digits = elim (Bool-cases (value == 0)) [
  | inl e ↦ rw (e, write_base58, prepend_digits) refl
  | inr e ↦
      rw (e, write_base58, prepend_digits) (write-text_of fuel (value / 58) (value % 58 ∷ digits))
]

pub digits_of-text_of :
    (digits : List ℕ) → Below 58 digits → digits_of (text_of digits) ≡ some digits
digits_of-text_of [] h = refl
digits_of-text_of (d ∷ digits) (h, rest) =
    rw (index_of-symbol_at d h, digits_of, digits_of-text_of digits rest) refl

nil_of_some : (digits : List ℕ) → digits_of String.[] ≡ some digits → digits ≡ []
nil_of_some digits h = ground (arith, h)

pub text_of-digits_of :
    (text : String) (digits : List ℕ)
    → digits_of text ≡ some digits
    → (text_of digits ≡ text) × Below 58 digits
unfolding symbols base58_alphabet
text_of-digits_of String.[] digits h = rw (nil_of_some digits h) (refl, tt)
text_of-digits_of (String.◌∷◌ c text) digits h =
    let (d, ds, found, others, e) =
      with_digit-cases (index_of c base58_alphabet) (digits_of text) digits h in
    let (same, below) = text_of-digits_of text ds others in
    rw (e, symbol_at-index_of c base58_alphabet d found, same)
      (refl, (index_of-bound c base58_alphabet d found, below))

pub leading_ones-text_of :
    (digits : List ℕ) → Below 58 digits → leading_ones (text_of digits) ≡ leading_zeros digits
leading_ones-text_of [] h = refl
leading_ones-text_of (d ∷ digits) (h, rest) =
    rw (is_one-symbol_at d h, leading_ones-text_of digits rest) refl

pub ones-text_of : (n : ℕ) (digits : List ℕ) → ones n (text_of digits) ≡ text_of (zeros n ++ digits)
unfolding base58_alphabet
ones-text_of zero digits = refl
ones-text_of (suc n) digits = ap (λ t. String.◌∷◌ "1" t) (ones-text_of n digits)

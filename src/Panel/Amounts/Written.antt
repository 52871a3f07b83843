-- ===== src/Panel/Amounts/Written.antt =====
-- Texts of digits, as Panel/Amounts reads and writes them, and the digits they stand for.
use cap_rail.Panel.Amounts.{
  fraction_of, grouped, is_digit_unit, is_separator, match_number, number_of, pad_start,
  span_digits, to_string, trim_zeros, with_fraction, without_separators, zero_units,
}
use cap_rail.Prelude.{
  All, Bool, Bool-cases, List, ℕ, [], ap, arith, false, if◌then◌else◌, inl, inr, keep, length,
  length-append, ltb, map, not, refl, some, suc, sym, true, zero, ◌%◌, ◌&&◌, ◌*◌, ◌++◌, ◌+◌, ◌-◌,
  ◌/◌, ◌<◌, ◌==◌, ◌^◌, ◌∙◌, ◌∷◌, ◌≡◌, ◌≢◌, ◌≤◌,
}
use cap_rail.Shared.Digits.{from_digits, prepend_digits, to_digits, zeros}
use cap_rail.Shared.Digits.RoundTrip.{
  from-to_digits, from_digits-zeros, to_digits-Below, zeros-Below,
}
use mathlib.Core.List.{append-nil}
use mathlib.Core.Path.{subst}
use native.Mathlib.Nat.{pow-suc}
use mathlib.Core.Option

abbrev pub chars : List ℕ → List ℕ
chars digits = map (λ d. d + b'0') digits

abbrev pub Decimal : List ℕ → Type 0
Decimal digits = All (λ d. d < 10) digits

keeps_digit : (d : ℕ) → d < 10 → not (is_separator (d + b'0')) ≡ true
keeps_digit d h = ground (arith, h)

is_digit-digit : (d : ℕ) → d < 10 → is_digit_unit (d + b'0') ≡ true
is_digit-digit d h = ground (arith, h)

keep-append :
    (test : ℕ → Bool) (xs ys : List ℕ) → keep test (xs ++ ys) ≡ keep test xs ++ keep test ys
keep-append test [] ys = refl
keep-append test (x ∷ xs) ys = ground (arith, keep-append test xs ys)

without-chars :
    (digits : List ℕ) → Decimal digits → without_separators (chars digits) ≡ chars digits
without-chars [] h = refl
without-chars (d ∷ digits) (h, rest) = rw (keeps_digit d h, without-chars digits rest) refl

without-grouped :
    (digits : List ℕ) → Decimal digits → without_separators (grouped (chars digits)) ≡ chars digits
without-grouped [] h = refl
without-grouped (d ∷ digits) (h, rest) =
    elim (Bool-cases (ltb 0 (length (chars digits)) && length (chars digits) % 3 == 0)) [
      | inl e ↦ rw (e, keeps_digit d h, without-grouped digits rest) refl
      | inr e ↦ rw (e, keeps_digit d h, without-grouped digits rest) refl
    ]

-- The digits in front of a text that goes on with no digit.
abbrev pub NoDigit : List ℕ → Type 0
NoDigit [] = Unit
NoDigit (c ∷ text) = is_digit_unit c ≡ false

pub span-chars :
    (digits rest : List ℕ)
    → Decimal digits
    → NoDigit rest
    → span_digits (chars digits ++ rest) ≡ (chars digits, rest)
span-chars [] [] h n = refl
span-chars [] (c ∷ rest) h n = rw n refl
span-chars (d ∷ digits) rest (h, others) n =
    rw (is_digit-digit d h, span-chars digits rest others n) refl

sub_back : (d : ℕ) → d + b'0' - b'0' ≡ d
sub_back d = omega arith

pub value-chars : (digits : List ℕ) → map (λ c. c - b'0') (chars digits) ≡ digits
value-chars [] = refl
value-chars (d ∷ digits) = rw (value-chars digits) (ap (λ x. x ∷ digits) (sub_back d))

pub match-fraction :
    (whole fraction : List ℕ)
    → Decimal whole
    → whole ≢ []
    → Decimal fraction
    → match_number (with_fraction (chars whole) (chars fraction))
      ≡ some (chars whole, chars fraction)
match-fraction [] fraction h n g = ground (arith, n refl)
match-fraction (d ∷ digits) [] h n g =
    ap (λ text. match_number text) (sym (append-nil (chars (d ∷ digits))))
    ∙ ap number_of (span-chars (d ∷ digits) [] h tt)
match-fraction (d ∷ digits) (f ∷ fraction) h n g =
    ap number_of (span-chars (d ∷ digits) (b'.' ∷ chars (f ∷ fraction)) h refl)
    ∙ ap (λ o. Option.map (λ part. (chars (d ∷ digits), part)) o)
        (ap (fraction_of b'.') (
          ap span_digits (sym (append-nil (chars (f ∷ fraction))))
          ∙ span-chars (f ∷ fraction) [] g tt))

pub without-with_fraction :
    (whole fraction : List ℕ)
    → Decimal whole
    → Decimal fraction
    → without_separators (with_fraction (grouped (chars whole)) (chars fraction))
      ≡ with_fraction (chars whole) (chars fraction)
without-with_fraction whole [] h g = without-grouped whole h
without-with_fraction whole (f ∷ fraction) h g =
    keep-append (λ c. not (is_separator c)) (grouped (chars whole)) (b'.' ∷ chars (f ∷ fraction))
    ∙ rw (without-grouped whole h, without-chars (f ∷ fraction) g) refl

-- The digits of a fraction without its last zeros.
abbrev Shortened : List ℕ → Type 0
Shortened digits =
    (kept : List ℕ) × (k : ℕ) × (trim_zeros (chars digits) ≡ chars kept)
    × Decimal kept
    × (digits ≡ kept ++ zeros k)

zero_unit : (d : ℕ) → (d + b'0' == b'0') ≡ true → d ≡ 0
zero_unit d e = ground (arith, e)

trim_more : (d : ℕ) (digits : List ℕ) → d < 10 → Shortened digits → Shortened (d ∷ digits)
trim_more d digits h ([], k, same, below, split) = elim (Bool-cases (d + b'0' == b'0')) [
  | inl e ↦ ([], suc k, rw (same, e) refl, tt, rw (zero_unit d e) (ap (λ r. 0 ∷ r) split))
  | inr e ↦ (d ∷ [], k, rw (same, e) refl, (h, tt), ap (λ r. d ∷ r) split)
]
trim_more d digits h (e ∷ kept, k, same, below, split) =
    (d ∷ e ∷ kept, k, rw same refl, (h, below), ap (λ r. d ∷ r) split)

pub trim_digits : (digits : List ℕ) → Decimal digits → Shortened digits
trim_digits [] h = ([], 0, refl, tt, refl)
trim_digits (d ∷ digits) (h, rest) = trim_more d digits h (trim_digits digits rest)

pub zero-chars : (n : ℕ) → zero_units n ≡ chars (zeros n)
zero-chars zero = refl
zero-chars (suc n) = ap (λ r. b'0' ∷ r) (zero-chars n)

pub chars-append : (xs ys : List ℕ) → chars (xs ++ ys) ≡ chars xs ++ chars ys
chars-append [] ys = refl
chars-append (x ∷ xs) ys = ap (λ r. (x + b'0') ∷ r) (chars-append xs ys)

pub length-chars : (digits : List ℕ) → length (chars digits) ≡ length digits
length-chars [] = refl
length-chars (d ∷ digits) = ap suc (length-chars digits)

pub length-zeros : (n : ℕ) → length (zeros n) ≡ n
length-zeros zero = refl
length-zeros (suc n) = ap suc (length-zeros n)

pub from_digits-append :
    (value : ℕ) (xs ys : List ℕ)
    → from_digits 10 value (xs ++ ys) ≡ from_digits 10 (from_digits 10 value xs) ys
from_digits-append value [] ys = refl
from_digits-append value (x ∷ xs) ys = from_digits-append (value * 10 + x) xs ys

shift_step :
    (value y n r : ℕ) → (value * 10 + y) * 10 ^ n + r ≡ value * 10 ^ suc n + ((0 + y) * 10 ^ n + r)
shift_step value y n r = rw (pow-suc 10 n) (grind arith)

pub from_digits-shift :
    (value : ℕ) (ys : List ℕ)
    → from_digits 10 value ys ≡ value * 10 ^ length ys + from_digits 10 0 ys
from_digits-shift value [] = omega arith
from_digits-shift value (y ∷ ys) =
    from_digits-shift (value * 10 + y) ys
    ∙ shift_step value y (length ys) (from_digits 10 0 ys)
    ∙ ap (λ x. value * 10 ^ suc (length ys) + x) (sym (from_digits-shift (0 + y) ys))

-- The digits of a number, one at least.
abbrev pub number_digits : ℕ → List ℕ
number_digits n = if n == 0 then 0 ∷ [] else to_digits 10 n

pub to_string-chars : (n : ℕ) → to_string n ≡ chars (number_digits n)
to_string-chars n = elim (Bool-cases (n == 0)) [ inl e ↦ rw e refl | inr e ↦ rw e refl ]

pub number_digits-Decimal : (n : ℕ) → Decimal (number_digits n)
number_digits-Decimal n = elim (Bool-cases (n == 0)) [
  | inl e ↦ rw e (omega arith, tt)
  | inr e ↦ rw e (to_digits-Below 10 n (omega arith))
]

pub number_digits-value : (n : ℕ) → from_digits 10 0 (number_digits n) ≡ n
number_digits-value n = elim (Bool-cases (n == 0)) [
  | inl e ↦ rw e (ground (arith, e))
  | inr e ↦ rw e (from-to_digits 10 n (omega arith))
]

pub number_digits-nonempty : (n : ℕ) → number_digits n ≢ []
number_digits-nonempty n empty = elim (Bool-cases (n == 0)) [
  | inl e ↦ ground (arith, subst (λ b. (if b then 0 ∷ [] else to_digits 10 n) ≡ []) e empty)
  | inr e ↦ ground (arith, e, sym (number_digits-value n) ∙ ap (from_digits 10 0) empty)
]

tenth : (value bound : ℕ) → value < 10 * bound → value / 10 < bound
tenth value bound h = omega (arith, h)

zero_test : (value : ℕ) → value < 1 → (value == 0) ≡ true
zero_test value h = ground (arith, h)

length-prepend :
    (fuel value bound : ℕ) (digits : List ℕ)
    → value < 10 ^ bound
    → length (prepend_digits 10 fuel value digits) ≤ bound + length digits
unfolding prepend_digits
length-prepend zero value bound digits h = omega arith
length-prepend (suc fuel) value zero digits h = rw (zero_test value h, prepend_digits) (omega arith)
length-prepend (suc fuel) value (suc bound) digits h = elim (Bool-cases (value == 0)) [
  | inl e ↦ rw (e, prepend_digits) (omega arith)
  | inr e ↦
      rw (e, prepend_digits)
        (omega (
          arith,
          length-prepend fuel (value / 10) bound (value % 10 ∷ digits)
              (tenth value (10 ^ bound) (grind (arith, h))),
        ))
]

pub length-number_digits :
    (n bound : ℕ) → 0 < bound → n < 10 ^ bound → length (number_digits n) ≤ bound
unfolding to_digits
length-number_digits n bound p h = elim (Bool-cases (n == 0)) [
  | inl e ↦ rw e (omega (arith, p))
  | inr e ↦ rw e (omega (arith, length-prepend n n bound [] h))
]

-- The digits of the fraction that is shown, before its zeros are cut.
abbrev pub fraction_digits : ℕ → ℕ → List ℕ
fraction_digits decimals r = zeros (decimals - length (number_digits r)) ++ number_digits r

-- Where the token has decimals, the fraction has as many digits.
pub length-fraction_digits :
    (decimals r : ℕ)
    → 0 < decimals
    → r < 10 ^ decimals
    → length (fraction_digits decimals r) ≡ decimals
length-fraction_digits decimals r p h = omega (
  arith,
  length-number_digits r decimals p h,
  length-zeros (decimals - length (number_digits r)),
  length-append (zeros (decimals - length (number_digits r))) (number_digits r),
)

pub fraction_digits-value : (decimals r : ℕ) → from_digits 10 0 (fraction_digits decimals r) ≡ r
fraction_digits-value decimals r =
    from_digits-zeros 10 (decimals - length (number_digits r)) (number_digits r)
    ∙ number_digits-value r

pub fraction_digits-Decimal : (decimals r : ℕ) → Decimal (fraction_digits decimals r)
fraction_digits-Decimal decimals r =
    zeros-Below 10 (decimals - length (number_digits r)) (number_digits r) (omega arith)
      (number_digits-Decimal r)

pub pad_start-chars :
    (decimals r : ℕ) → pad_start decimals (to_string r) ≡ chars (fraction_digits decimals r)
pad_start-chars decimals r =
    rw
      (
        to_string-chars r,
        length-chars (number_digits r),
        zero-chars (decimals - length (number_digits r)),
      )
      (sym (chars-append (zeros (decimals - length (number_digits r))) (number_digits r)))

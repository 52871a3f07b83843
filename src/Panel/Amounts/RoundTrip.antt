-- ===== src/Panel/Amounts/RoundTrip.antt =====
-- What the panel shows of an amount reads as the same amount.
use cap_rail.Panel.Amounts.{
  big_int, from_base_units, grouped, match_number, read_parts, scaled, to_base_units, trim_zeros,
  with_fraction,
}
use cap_rail.Panel.Amounts.Written.{
  Decimal, chars, chars-append, fraction_digits, fraction_digits-Decimal, fraction_digits-value,
  from_digits-append, from_digits-shift, length-chars, length-fraction_digits, length-zeros,
  match-fraction, number_digits, number_digits-Decimal, number_digits-nonempty, number_digits-value,
  pad_start-chars, to_string-chars, trim_digits, value-chars, without-with_fraction, zero-chars,
}
use cap_rail.Prelude.{
  List, ℕ, [], ap, arith, false, length, length-append, ltb, refl, some, suc, sym, zero, ◌%◌, ◌++◌,
  ◌+◌, ◌-◌, ◌/◌, ◌<◌, ◌^◌, ◌∙◌, ◌≡◌, ◌≢◌, ◌≤◌,
}
use cap_rail.Shared.Digits.{from_digits, zeros}
use mathlib.Core.List.{append-nil}
use native.Mathlib.Nat.{div-add-mod', div-one, mod-lt, mod-one, pow-suc}

-- What is shown, in digits: the whole part in groups and the fraction without its last zeros.
shown :
    (value decimals : ℕ) (kept : List ℕ)
    → trim_zeros (chars (fraction_digits decimals (value % 10 ^ decimals))) ≡ chars kept
    → from_base_units value decimals
      ≡ with_fraction (grouped (chars (number_digits (value / 10 ^ decimals)))) (chars kept)
unfolding from_base_units
shown value decimals kept h =
    rw
      (pad_start-chars decimals (value % 10 ^ decimals), to_string-chars (value / 10 ^ decimals), h)
      refl

-- What is read from digits of a whole part and of a fraction, filled up with zeros.
within : (n m : ℕ) → m ≤ n → ltb n m ≡ false
within n m h = ground (arith, h)

scaled-chars :
    (decimals : ℕ) (whole kept : List ℕ)
    → length kept ≤ decimals
    → scaled decimals (chars whole, chars kept)
      ≡ some (from_digits 10 0 (whole ++ (kept ++ zeros (decimals - length kept))))
scaled-chars decimals whole kept h =
    let rest = zeros (decimals - length kept) in
    let same =
      ap (λ t. chars whole ++ (chars kept ++ t)) (zero-chars (decimals - length kept))
      ∙ ap (λ t. chars whole ++ t) (sym (chars-append kept rest))
      ∙ sym (chars-append whole (kept ++ rest)) in
    rw (length-chars kept, within decimals (length kept) h)
      (ap (λ t. some (big_int t)) same
        ∙ ap (λ ds. some (from_digits 10 0 ds)) (value-chars (whole ++ (kept ++ rest))))

read_shown :
    (decimals : ℕ) (whole kept : List ℕ)
    → Decimal whole
    → whole ≢ []
    → Decimal kept
    → length kept ≤ decimals
    → to_base_units (with_fraction (grouped (chars whole)) (chars kept)) decimals
      ≡ some (from_digits 10 0 (whole ++ (kept ++ zeros (decimals - length kept))))
unfolding to_base_units
read_shown decimals whole kept h n g l =
    ap (λ text. read_parts decimals (match_number text)) (without-with_fraction whole kept h g)
    ∙ ap (read_parts decimals) (match-fraction whole kept h n g)
    ∙ scaled-chars decimals whole kept l

pub unit_positive : (n : ℕ) → 0 < 10 ^ n
unit_positive zero = omega arith
unit_positive (suc n) = rw (pow-suc 10 n) (omega (arith, unit_positive n))

rest_of : (a k n : ℕ) → a + k ≡ n → k ≡ n - a
rest_of a k n h = omega (arith, h)

-- Where the fraction is filled up again, the value is the whole one.
filled_value :
    (value decimals : ℕ) (kept : List ℕ)
    → fraction_digits (suc decimals) (value % 10 ^ suc decimals)
      ≡ kept ++ zeros (suc decimals - length kept)
    → from_digits 10 0
        (number_digits (value / 10 ^ suc decimals) ++ (kept ++ zeros (suc decimals - length kept)))
      ≡ value
filled_value value decimals kept same =
    let unit = 10 ^ suc decimals in
    let fraction = fraction_digits (suc decimals) (value % unit) in
    ap (λ f. from_digits 10 0 (number_digits (value / unit) ++ f)) (sym same)
    ∙ from_digits-append 0 (number_digits (value / unit)) fraction
    ∙ from_digits-shift (from_digits 10 0 (number_digits (value / unit))) fraction
    ∙ rw
        (
          number_digits-value (value / unit),
          fraction_digits-value (suc decimals) (value % unit),
          length-fraction_digits (suc decimals) (value % unit) (omega arith)
              (mod-lt value (unit_positive (suc decimals))),
        )
        (div-add-mod' value unit)

-- An amount that is shown with the token's decimals is read back as the same amount.
pub to_base_units-from_base_units :
    (value decimals : ℕ) → to_base_units (from_base_units value decimals) decimals ≡ some value
to_base_units-from_base_units value zero =
    let whole = number_digits (value / 10 ^ 0) in
    ap (λ text. to_base_units text 0) (shown value 0 [] (rw (mod-one value) refl))
    ∙ read_shown 0 whole [] (number_digits-Decimal (value / 10 ^ 0))
        (number_digits-nonempty (value / 10 ^ 0)) tt (omega arith)
    ∙ ap some (
        ap (from_digits 10 0) (append-nil whole)
        ∙ number_digits-value (value / 10 ^ 0)
        ∙ div-one value)
to_base_units-from_base_units value (suc decimals) =
    let unit = 10 ^ suc decimals in
    let fraction = fraction_digits (suc decimals) (value % unit) in
    let (kept, k, same, below, split) =
      trim_digits fraction (fraction_digits-Decimal (suc decimals) (value % unit)) in
    let count : length kept + k ≡ suc decimals = omega (
      arith,
      length-append kept (zeros k),
      length-zeros k,
      ap length split,
      length-fraction_digits (suc decimals) (value % unit) (omega arith)
          (mod-lt value (unit_positive (suc decimals))),
    ) in
    let filled = split ∙ ap (λ n. kept ++ zeros n) (rest_of (length kept) k (suc decimals) count) in
    ap (λ text. to_base_units text (suc decimals)) (shown value (suc decimals) kept same)
    ∙ read_shown (suc decimals) (number_digits (value / unit)) kept
        (number_digits-Decimal (value / unit)) (number_digits-nonempty (value / unit)) below
        (omega (arith, count))
    ∙ ap some (filled_value value decimals kept filled)

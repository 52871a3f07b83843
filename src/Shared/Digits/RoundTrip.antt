-- ===== src/Shared/Digits/RoundTrip.antt =====
-- A change of base that keeps the leading zeros is undone by the change back.
use cap_rail.Prelude.{List, ℕ, [], ap, arith, refl, suc, sym, zero, ◌++◌, ◌<◌, ◌∙◌, ◌≡◌}
use cap_rail.Shared.Digits.{from_digits, leading_zeros, to_digits, without_zeros, zeros}
use cap_rail.Shared.Digits.Laws.{
  Below, Trimmed, from_digits-prepend, from_digits-without_zeros, leading_zeros-append,
  prepend-Below, prepend-Trimmed, split_zeros, to-from_digits, without_zeros-Below,
  without_zeros-Trimmed, zero_step,
}

abbrev pub change_base : ℕ → ℕ → List ℕ → List ℕ
change_base from to digits =
    zeros (leading_zeros digits) ++ to_digits to (from_digits from 0 digits)

to_digits-Trimmed : (base value : ℕ) → 1 < base → Trimmed (to_digits base value)
unfolding to_digits
to_digits-Trimmed base value b = prepend-Trimmed base b value value [] (omega arith) (λ _. tt)

pub to_digits-Below : (base value : ℕ) → 1 < base → Below base (to_digits base value)
unfolding to_digits
to_digits-Below base value b = prepend-Below base b value value [] tt

pub from-to_digits : (base value : ℕ) → 1 < base → from_digits base 0 (to_digits base value) ≡ value
unfolding to_digits
from-to_digits base value b = from_digits-prepend base b value value [] (omega arith)

pub from_digits-zeros :
    (base n : ℕ) (digits : List ℕ)
    → from_digits base 0 (zeros n ++ digits) ≡ from_digits base 0 digits
from_digits-zeros base zero digits = refl
from_digits-zeros base (suc n) digits =
    ap (λ v. from_digits base v (zeros n ++ digits)) (sym (zero_step base 0 refl))
    ∙ from_digits-zeros base n digits

pub zeros-Below :
    (base n : ℕ) (digits : List ℕ) → 1 < base → Below base digits → Below base (zeros n ++ digits)
zeros-Below base zero digits b h = h
zeros-Below base (suc n) digits b h = (omega arith, zeros-Below base n digits b h)

pub change_base-Below :
    (from to : ℕ) (digits : List ℕ) → 1 < to → Below to (change_base from to digits)
change_base-Below from to digits b =
    zeros-Below to (leading_zeros digits) (to_digits to (from_digits from 0 digits)) b
      (to_digits-Below to (from_digits from 0 digits) b)

pub change_base-back :
    (from to : ℕ) (digits : List ℕ)
    → 1 < from
    → 1 < to
    → Below from digits
    → change_base to from (change_base from to digits) ≡ digits
change_base-back from to digits f t h =
    let value = from_digits from 0 digits in
    let count =
      leading_zeros-append (leading_zeros digits) (to_digits to value)
        (to_digits-Trimmed to value t) in
    let same =
      from_digits-zeros to (leading_zeros digits) (to_digits to value)
      ∙ from-to_digits to value t in
    let back =
      ap (λ v. to_digits from v) (sym (from_digits-without_zeros from digits))
      ∙ to-from_digits from f (without_zeros digits) (without_zeros-Below from digits h)
          (without_zeros-Trimmed digits) in
    rw (count, same, back) (sym (split_zeros digits))

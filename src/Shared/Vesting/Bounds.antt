-- ===== src/Shared/Vesting/Bounds.antt =====
-- What is vested grows from nothing to the total.
use cap_rail.Prelude.{Bool-cases, ℕ, arith, if◌then◌else◌, inl, inr, some, ◌*◌, ◌/◌, ◌<◌, ◌≡◌, ◌≤◌}
use cap_rail.Prelude.Int.{ℤ, leb_ℤ, ltb_ℤ, ◌-ℤ◌, ◌<ℤ◌, ◌≤ℤ◌}
use cap_rail.Shared.Vesting.{linear_share, vested}
use mathlib.Core.Path.{subst}
use native.Mathlib.Nat.{
  div-le_of_le-mul, div-mul-le_self, le-div_iff_mul-le, le_trans, mul-le-mul_left,
}

share_mono : (total a b d : ℕ) → 0 < d → a ≤ b → total * a / d ≤ total * b / d
share_mono total a b d p h =
    let (to, from) = le-div_iff_mul-le {k = d} {x = total * a / d} {y = total * b} p in
    from (le_trans (div-mul-le_self (total * a) d) (mul-le-mul_left total h))

share_bound : (total a d : ℕ) → a ≤ d → total * a / d ≤ total
share_bound total a d h = div-le_of_le-mul d (le_trans (mul-le-mul_left total h) (omega arith))

abbrev pub Schedule : ℤ → ℤ → ℤ → Type 0
Schedule start cliff end = (start ≤ℤ cliff) × (cliff ≤ℤ end) × (start <ℤ end)

linear_share-bound :
    (total : ℕ) (start end now : ℤ)
    → start <ℤ end
    → now ≤ℤ end
    → linear_share total start end now ≤ total
unfolding linear_share ◌-ℤ◌
linear_share-bound total start end now s h = share_bound total _ _ (ground (arith, s, h))

linear_share_mono :
    (total : ℕ) (start end now later : ℤ)
    → start <ℤ end
    → start ≤ℤ now
    → now ≤ℤ later
    → linear_share total start end now ≤ linear_share total start end later
unfolding linear_share ◌-ℤ◌
linear_share_mono total start end now later s h g =
    share_mono total _ _ _ (ground (arith, s)) (ground (arith, h, g))

-- What a schedule that is in order has vested.
abbrev amount : ℕ → ℤ → ℤ → ℤ → ℤ → ℕ
amount total start cliff end now =
    if ltb_ℤ now cliff then 0 else if leb_ℤ end now then total else linear_share total start end now

vested-amount :
    (total : ℕ) (start cliff end now : ℤ)
    → Schedule start cliff end
    → vested total start cliff end now ≡ some (amount total start cliff end now)
unfolding vested
vested-amount total start cliff end now (a, b, c) = ground (arith, a, b, c)

amount-bound :
    (total : ℕ) (start cliff end now : ℤ)
    → Schedule start cliff end
    → amount total start cliff end now ≤ total
amount-bound total start cliff end now (a, b, c) = elim (Bool-cases (ltb_ℤ now cliff)) [
  | inl e ↦ rw e (omega arith)
  | inr e ↦ elim (Bool-cases (leb_ℤ end now)) [
    | inl q ↦ rw (e, q) (omega arith)
    | inr q ↦ rw (e, q) (linear_share-bound total start end now c (ground (arith, q)))
  ]
]

amount_mono :
    (total : ℕ) (start cliff end now later : ℤ)
    → Schedule start cliff end
    → now ≤ℤ later
    → amount total start cliff end now ≤ amount total start cliff end later
amount_mono total start cliff end now later (a, b, c) h = elim (Bool-cases (ltb_ℤ now cliff)) [
  | inl e ↦ rw e (omega arith)
  | inr e ↦ elim (Bool-cases (leb_ℤ end later)) [
    | inl q ↦
        let whole : total ≡ amount total start cliff end later = ground (arith, e, q, h) in
        subst (λ n. amount total start cliff end now ≤ n) whole
          (amount-bound total start cliff end now (a, b, c))
    | inr q ↦
        let grows : linear_share total start end now ≤ linear_share total start end later =
          linear_share_mono total start end now later c (ground (arith, a, e)) h in
        ground (arith, e, q, h, grows)
  ]
]

-- For a schedule whose cliff lies between its start and its later end, an amount is given at every
-- instant; it never sinks as time goes on, is 0 before the cliff, the whole from the end on, and at no time
-- above the total.
pub vested-grows :
    (total : ℕ) (start cliff end now later : ℤ)
    → Schedule start cliff end
    → now ≤ℤ later
    → (v : ℕ) × (w : ℕ) × (vested total start cliff end now ≡ some v)
      × (vested total start cliff end later ≡ some w)
      × (v ≤ w)
      × (w ≤ total)
      × (now <ℤ cliff → v ≡ 0)
      × (end ≤ℤ now → v ≡ total)
vested-grows total start cliff end now later s h =
    let (a, b, c) = s in
    (
      amount total start cliff end now,
      amount total start cliff end later,
      vested-amount total start cliff end now s,
      vested-amount total start cliff end later s,
      amount_mono total start cliff end now later s h,
      amount-bound total start cliff end later s,
      (λ before. ground (arith, before)),
      (λ behind. ground (arith, a, b, c, behind)),
    )

-- ===== src/Shared/Curve/Points.antt =====
-- What isOnCurve accepts are points of the curve.
use cap_rail.Prelude.{
  Bool-cases, List, Option-cases, String, ℕ, ==_iff, ap, arith, inl, inr, leb, length, refl, some,
  suc, sym, true, zero, ◌%◌, ◌*◌, ◌+◌, ◌-◌, ◌/◌, ◌<◌, ◌==◌, ◌^◌, ◌∙◌, ◌≡◌,
}
use cap_rail.Prelude.Int.{sub_ℕ}
use cap_rail.Shared.Base58.{decode_base58}
use cap_rail.Shared.Curve.{
  curve_d, finish, is_address, is_on_curve, is_wallet_address, le_value, minus, mod_, on_curve_at,
  pow, pow_loop, prime, signed, sqrt_m1,
}
use cap_rail.Shared.Curve.Congruence.{Cong, Cong-add, Cong-mul}
use native.Mathlib.Nat.{mod-lt, mod-mod}

-- `121666 (y² - x²) = 121666 - 121665 x² y²`, the curve of RFC 8032 without a fraction or a difference.
abbrev pub OnCurve : ℕ → ℕ → Type 0
OnCurve x y = Cong prime (121666 * (y * y) + 121665 * (x * x * (y * y))) (121666 * (1 + x * x))

-- `curve_d` is -121665 / 121666, and `sqrt_m1` a square root of -1.
curve_d-fraction : Cong prime (121666 * curve_d + 121665) 0
unfolding curve_d pow pow_loop
curve_d-fraction = refl

sqrt_m1-root : Cong prime (sqrt_m1 * sqrt_m1 + 1) 0
unfolding sqrt_m1 pow pow_loop
sqrt_m1-root = refl

one_less : (y : ℕ) → Cong prime (mod_ (sub_ℕ y 1) + 1) y
one_less zero = refl
one_less (suc n) = ground arith

minus-sum : (u : ℕ) → Cong prime (mod_ (minus u) + u) 0
minus-sum zero = refl
minus-sum (suc n) = ground arith

reduced : (n : ℕ) → Cong prime (n % prime) n
reduced n = mod-mod n prime

-- One place for a product that is arranged differently.
same : {a b : ℕ} → a ≡ b → Cong prime a b
same e = ap (λ n. n % prime) e

product : (v x : ℕ) → v * x * x ≡ v * (x * x)
product v x = omega arith

gathered :
    (d X Y : ℕ)
    → 121666 * ((d * Y + 1) * X + 1) + 121665 * (X * Y)
      ≡ (121666 * d + 121665) * (X * Y) + 121666 * (1 + X)
gathered d X Y = omega arith

nothing : (a b : ℕ) → 0 * a + b ≡ b
nothing a b = omega arith

-- A root of `u / v`, with `u = y² - 1` and `v = d y² + 1`.
module _ (y u v x : ℕ) (less : Cong prime (u + 1) (y * y))
    (more : Cong prime v (curve_d * (y * y) + 1)) (root : Cong prime (v * x * x) u) where
  square-Cong : Cong prime (y * y) ((curve_d * (y * y) + 1) * (x * x) + 1)
  square-Cong =
      sym less
      ∙ Cong-add prime u ((curve_d * (y * y) + 1) * (x * x)) 1 1
          (sym root
            ∙ same (product v x)
            ∙ Cong-mul prime v (curve_d * (y * y) + 1) (x * x) (x * x) more refl)
          refl

  root-OnCurve : OnCurve x y
  root-OnCurve =
      Cong-add prime (121666 * (y * y)) (121666 * ((curve_d * (y * y) + 1) * (x * x) + 1))
        (121665 * (x * x * (y * y))) (121665 * (x * x * (y * y)))
        (Cong-mul prime 121666 121666 (y * y) ((curve_d * (y * y) + 1) * (x * x) + 1) refl
          square-Cong)
        refl
      ∙ same (gathered curve_d (x * x) (y * y))
      ∙ Cong-add prime ((121666 * curve_d + 121665) * (x * x * (y * y))) (0 * (x * x * (y * y)))
          (121666 * (1 + x * x)) (121666 * (1 + x * x))
          (Cong-mul prime (121666 * curve_d + 121665) 0 (x * x * (y * y)) (x * x * (y * y))
            curve_d-fraction refl)
          refl
      ∙ same (nothing (x * x * (y * y)) (121666 * (1 + x * x)))

regrouped : (v x s : ℕ) → v * (x * s) * (x * s) ≡ v * x * x * (s * s)
regrouped v x s = omega arith

distributed : (u n s : ℕ) → u + n * (s + 1) ≡ n + u + n * s
distributed u n s = omega arith

added_nothing : (u n : ℕ) → u + n * 0 ≡ u
added_nothing u n = omega arith

zero_more : (n : ℕ) → n ≡ 0 + n
zero_more n = omega arith

-- The root of `-u / v` times the root of -1.
other_root :
    (u v x : ℕ)
    → Cong prime (v * x * x) (mod_ (minus u))
    → let x' = x * sqrt_m1 % prime in Cong prime (v * x' * x') u
other_root u v x h =
    let s = sqrt_m1 in
    let n = mod_ (minus u) in
    let first : Cong prime (v * (x * s % prime)) (v * (x * s)) =
      Cong-mul prime v v (x * s % prime) (x * s) refl (reduced (x * s)) in
    Cong-mul prime (v * (x * s % prime)) (v * (x * s)) (x * s % prime) (x * s) first
      (reduced (x * s))
    ∙ same (regrouped v x s)
    ∙ Cong-mul prime (v * x * x) n (s * s) (s * s) h refl
    ∙ same (zero_more (n * (s * s)))
    ∙ sym (Cong-add prime (n + u) 0 (n * (s * s)) (n * (s * s)) (minus-sum u) refl)
    ∙ same (sym (distributed u n (s * s)))
    ∙ Cong-add prime u u (n * (s * s + 1)) (n * 0) refl
        (Cong-mul prime n n (s * s + 1) 0 refl sqrt_m1-root)
    ∙ same (added_nothing u n)

equal-Cong : (a b : ℕ) → (a % prime == b) ≡ true → Cong prime a b
equal-Cong a b e = sym (mod-mod a prime) ∙ ap (λ n. n % prime) ((==_iff (a % prime) b).0 e)

-- A point with this y and, where its x is 0, no sign.
abbrev pub Point : ℕ → ℕ → Type 0
Point y sign_bit = (x : ℕ) × (x < prime) × OnCurve x y × ((x ≡ 0) → (sign_bit ≡ 1) → ⊥)

signed-proper : (x sign_bit : ℕ) → signed x sign_bit ≡ true → (x ≡ 0) → (sign_bit ≡ 1) → ⊥
signed-proper x sign_bit h e g = ground (arith, h, e, g)

finish-Point :
    (y u v x sign_bit : ℕ)
    → Cong prime (u + 1) (y * y)
    → Cong prime v (curve_d * (y * y) + 1)
    → x < prime
    → finish u v x sign_bit ≡ true
    → Point y sign_bit
finish-Point y u v x sign_bit less more below h =
    elim (Bool-cases (v * x * x % prime == mod_ (minus u))) [
      | inl e ↦
          let x' = x * sqrt_m1 % prime in
          let root : Cong prime (v * x' * x') u =
            other_root u v x (equal-Cong (v * x * x) (mod_ (minus u)) e) in
          (
            x',
            mod-lt (x * sqrt_m1) (omega arith),
            root-OnCurve y u v x' less more root,
            signed-proper x' sign_bit (rw e at h),
          )
      | inr e ↦ elim (Bool-cases (v * x * x % prime == u)) [
        | inl q ↦
            let root : Cong prime (v * x * x) u = equal-Cong (v * x * x) u q in
            (
              x,
              below,
              root-OnCurve y u v x less more root,
              signed-proper x sign_bit (rw (e, q) at h),
            )
        | inr q ↦ absurd (ground (arith, rw (e, q) at h))
      ]
    ]

on_curve_at-Point : (y sign_bit : ℕ) → on_curve_at y sign_bit ≡ true → Point y sign_bit
on_curve_at-Point y sign_bit h =
    let y2 = y * y % prime in
    let u = mod_ (sub_ℕ y2 1) in
    let v = (curve_d * y2 + 1) % prime in
    let v3 = v * v * v % prime in
    let root = pow (u * (v3 * v3 * v % prime) % prime) ((prime - 5) / 8) in
    let more : Cong prime v (curve_d * (y * y) + 1) =
      reduced (curve_d * y2 + 1)
      ∙ Cong-add prime (curve_d * y2) (curve_d * (y * y)) 1 1
          (Cong-mul prime curve_d curve_d y2 (y * y) refl (reduced (y * y))) refl in
    finish-Point y u v (u * v3 * root % prime) sign_bit (one_less y2 ∙ reduced (y * y)) more
      (mod-lt (u * v3 * root) (omega arith)) h

-- Only 32 bytes are accepted, whose low 255 bits are, without a remainder to take, the y of a point of
-- the curve of RFC 8032; the bit above them is not set for the points with x = 0.
pub is_on_curve-Point :
    (bytes : List ℕ)
    → is_on_curve bytes ≡ true
    → let all = le_value bytes in
      (length bytes ≡ 32) × (all % 2 ^ 255 < prime) × Point (all % 2 ^ 255) (all / 2 ^ 255)
unfolding is_on_curve
is_on_curve-Point bytes h = elim (Bool-cases (length bytes == 32)) [
  | inr e ↦ absurd (ground (arith, rw e at h))
  | inl e ↦
      let y = le_value bytes % 2 ^ 255 in
      elim (Bool-cases (leb prime y)) [
        | inl q ↦ absurd (ground (arith, rw (e, q) at h))
        | inr q ↦ (
          (==_iff (length bytes) 32).0 e,
          ground (arith, q),
          on_curve_at-Point y (le_value bytes / 2 ^ 255) (rw (e, q) at h),
        )
      ]
]

-- A text that is taken for a wallet is base58 of 32 bytes that are a point of the curve of RFC 8032: their
-- low 255 bits are its y, without a remainder to take, and the bit above them is not set where x is 0. Each
-- wallet is an address.
pub is_wallet_address-Point :
    (text : String)
    → is_wallet_address text ≡ true
    → (bytes : List ℕ) × (decode_base58 text ≡ some bytes)
      × (length bytes ≡ 32)
      × (le_value bytes % 2 ^ 255 < prime)
      × Point (le_value bytes % 2 ^ 255) (le_value bytes / 2 ^ 255)
      × (is_address text ≡ true)
unfolding is_wallet_address is_address
is_wallet_address-Point text h = elim (Option-cases (decode_base58 text)) [
  | inl e ↦ absurd (ground (arith, rw (e, is_wallet_address) at h))
  | inr (bytes, e) ↦ elim (Bool-cases (length bytes == 32)) [
    | inr q ↦ absurd (ground (arith, rw (e, q, is_wallet_address) at h))
    | inl q ↦
        let (size, below, point) = is_on_curve-Point bytes (rw (e, q, is_wallet_address) at h) in
        (bytes, e, size, below, point, rw (e, is_address) q)
  ]
]

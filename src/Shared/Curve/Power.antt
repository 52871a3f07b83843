-- ===== src/Shared/Curve/Power.antt =====
-- `pow` squares and multiplies.
use cap_rail.Prelude.{
  Bool-cases, ℕ, ap, arith, if_elim, if◌then◌else◌, inl, inr, refl, suc, sym, zero, ◌%◌, ◌*◌, ◌+◌,
  ◌/◌, ◌==◌, ◌^◌, ◌∙◌, ◌≡◌, ◌≤◌,
}
use cap_rail.Shared.Curve.{pow, pow_loop, prime}
use cap_rail.Shared.Curve.Congruence.{Cong, Cong-mul, Cong-pow}
use native.Mathlib.Nat.{mod-mod, pow-suc, pow-zero}

twice : (n b : ℕ) → n * (b * b) ≡ n * b * b
twice n b = omega arith

even_next : (k : ℕ) → suc (suc (k + k)) ≡ suc k + suc k
even_next k = omega arith

pow_double : (b k : ℕ) → (b * b) ^ k ≡ b ^ (k + k)
pow_double b zero = pow-zero (b * b) ∙ sym (pow-zero b)
pow_double b (suc k) =
    pow-suc (b * b) k
    ∙ ap (λ n. n * (b * b)) (pow_double b k)
    ∙ twice (b ^ (k + k)) b
    ∙ sym (pow-suc b (suc (k + k)) ∙ ap (λ n. n * b) (pow-suc b (k + k)))
    ∙ ap (λ n. b ^ n) (even_next k)

halved : (result b k : ℕ) → result * b * b ^ k ≡ result * b ^ suc k
halved result b k = rw (pow-suc b k) (omega arith)

square-Cong : (b k : ℕ) → Cong prime ((b * b % prime) ^ k) (b ^ (k + k))
square-Cong b k =
    Cong-pow prime (b * b % prime) (b * b) k (mod-mod (b * b) prime)
    ∙ ap (λ n. n % prime) (pow_double b k)

-- One turn takes the last binary digit off the exponent.
turn-Cong :
    (result b e : ℕ)
    → Cong prime
        ((if e % 2 == 1 then result * b % prime else result) * (b * b % prime) ^ (e / 2))
        (result * b ^ e)
turn-Cong result b e = elim (Bool-cases (e % 2 == 1)) [
  | inl odd ↦
      let whole : suc (e / 2 + e / 2) ≡ e = ground (arith, odd) in
      rw odd (
        Cong-mul prime (result * b % prime) (result * b) ((b * b % prime) ^ (e / 2))
          (b ^ (e / 2 + e / 2)) (mod-mod (result * b) prime) (square-Cong b (e / 2))
        ∙ ap (λ n. n % prime) (halved result b (e / 2 + e / 2))
        ∙ ap (λ n. result * b ^ n % prime) whole)
  | inr even ↦
      let whole : e / 2 + e / 2 ≡ e = ground (arith, even) in
      rw even (
        Cong-mul prime result result ((b * b % prime) ^ (e / 2)) (b ^ (e / 2 + e / 2)) refl
          (square-Cong b (e / 2))
        ∙ ap (λ n. result * b ^ n % prime) whole)
]

settled : (result b e : ℕ) → e ≡ 0 → result % prime ≡ result → result ≡ result * b ^ e % prime
settled result b e h small = sym small ∙ ap (λ n. n % prime) (rw (h, pow-zero b) (omega arith))

one_times : (n : ℕ) → 1 * n ≡ n
one_times n = omega arith

pow_loop-power :
    (fuel result b e : ℕ)
    → e ≤ fuel
    → result % prime ≡ result
    → pow_loop fuel result b e ≡ result * b ^ e % prime
unfolding pow_loop
pow_loop-power zero result b e h small = settled result b e (omega (arith, h)) small
pow_loop-power (suc fuel) result b e h small = elim (Bool-cases (e == 0)) [
  | inl none_ ↦ rw (none_, pow_loop) (settled result b e (ground (arith, none_)) small)
  | inr more ↦
      let half : e / 2 ≤ fuel = ground (arith, more, h) in
      rw (more, pow_loop)
        (pow_loop-power fuel (if e % 2 == 1 then result * b % prime else result) (b * b % prime)
            (e / 2) half
            (if_elim (λ r. r % prime ≡ r) (e % 2 == 1) (mod-mod (result * b) prime) small)
          ∙ turn-Cong result b e)
]

-- The loop of `pow` gives the power of the base modulo 2 ^ 255 - 19, for every natural base and exponent.
pub pow-power : (base exponent : ℕ) → pow base exponent ≡ base ^ exponent % prime
unfolding pow
pow-power base exponent =
    pow_loop-power exponent 1 (base % prime) exponent (omega arith) refl
    ∙ ap (λ n. n % prime) (one_times ((base % prime) ^ exponent))
    ∙ Cong-pow prime (base % prime) base exponent (mod-mod base prime)

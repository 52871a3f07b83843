-- ===== src/Shared/Curve/Congruence.antt =====
-- Numbers that leave one remainder.
use cap_rail.Prelude.{ℕ, ap, arith, refl, suc, sym, zero, ◌%◌, ◌*◌, ◌+◌, ◌/◌, ◌^◌, ◌∙◌, ◌≡◌}
use native.Mathlib.Nat.{add-mod, add-mul-mod_self_left, mod-add-div, pow-suc, pow-zero}

module _ (m : ℕ) where
  abbrev pub Cong : ℕ → ℕ → Type 0
  Cong a b = a % m ≡ b % m

  mul_left : (a b : ℕ) → Cong (a % m * b) (a * b)
  mul_left a b =
      let whole : a * b ≡ a % m * b + m * (a / m * b) =
        ap (λ n. n * b) (sym (mod-add-div a m)) ∙ omega arith in
      sym (ap (λ n. n % m) whole ∙ add-mul-mod_self_left (a % m * b) m (a / m * b))

  pub Cong-mul : (a b c d : ℕ) → Cong a b → Cong c d → Cong (a * c) (b * d)
  Cong-mul a b c d h g =
      sym (mul_left a c)
      ∙ ap (λ n. n * c % m) h
      ∙ mul_left b c
      ∙ ap (λ n. n % m) (omega arith)
      ∙ sym (mul_left c b)
      ∙ ap (λ n. n * b % m) g
      ∙ mul_left d b
      ∙ ap (λ n. n % m) (omega arith)

  pub Cong-add : (a b c d : ℕ) → Cong a b → Cong c d → Cong (a + c) (b + d)
  Cong-add a b c d h g =
      add-mod a c m
      ∙ ap (λ n. (n + c % m) % m) h
      ∙ ap (λ n. (b % m + n) % m) g
      ∙ sym (add-mod b d m)

  pub Cong-pow : (a b k : ℕ) → Cong a b → Cong (a ^ k) (b ^ k)
  Cong-pow a b zero h = rw (pow-zero a, pow-zero b) refl
  Cong-pow a b (suc k) h =
      rw (pow-suc a k, pow-suc b k) (Cong-mul (a ^ k) (b ^ k) a b (Cong-pow a b k h) h)

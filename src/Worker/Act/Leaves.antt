-- ===== src/Worker/Act/Leaves.antt =====
-- What a handler of apps/worker/src/apply.ts leaves of the index when it returns.
use cap_rail.Prelude.{ap, ◌∙◌, ◌≡◌}
use cap_rail.Result.{Result, ok}
use cap_rail.Worker.Act.{Act, World, >>=-eq-ok, runs, ◌>>=◌}
use cap_rail.Worker.Act.Keeps.{Keeps, Safe}
use cap_rail.Worker.Rows.{Index}
use mathlib.Core.Path.{subst}

-- What holds of the index alone and of nothing else.
abbrev pub Is : Index → Index → Type 0
Is x index = index ≡ x

pub Safe-fixed : (x : Index) (f : Index → Index) → f x ≡ x → Safe (Is x) f
Safe-fixed x f e = record { run = λ index h. ap f h ∙ e }

-- A step that returns leaves `P` of the index.
pub record Leaves {A : Type 0} (P : Index → Type 0) (m : Act A) : Type 0 where
  pub at : (w : World) {w' : World} {a : A} → m w ≡ (ok a, w') → P w'.index

module _ {A B : Type 0} {P : Index → Type 0} where
  pub Leaves-first :
      (m : Act A) (f : A → Act B) → Leaves P m → ((a : A) → Keeps P (f a)) → Leaves P (m >>= f)
  Leaves-first m f l k = record {
    at = λ w e.
        let (a, w₁, e₁, e₂) = >>=-eq-ok f m w e in
        subst (λ (r : Result B × World). P r.1.index) e₂ ((k a).at w₁ (l.at w e₁));
  }

  pub Leaves-rest : (m : Act A) (f : A → Act B) → ((a : A) → Leaves P (f a)) → Leaves P (m >>= f)
  Leaves-rest m f l = record {
    at = λ w e. let (a, w₁, _, e₂) = >>=-eq-ok f m w e in (l a).at w₁ e₂;
  }

module _ {A : Type 0} {P : Index → Type 0} where
  pub Leaves-runs : (f : Index → A × Index) → ((index : Index) → P (f index).1) → Leaves P (runs f)
  unfolding runs
  Leaves-runs f h = record {
    at = λ w e. subst (λ (r : Result A × World). P r.1.index) e (h w.index);
  }

-- A statement whose answer is known wherever `P` holds.
module _ {A B : Type 0} {P : Index → Type 0} where
  pub Keeps-known :
      (f : Index → A × Index) (g : A → Act B) (a : A)
      → ((index : Index) → P index → (f index).0 ≡ a)
      → Safe P (λ index. (f index).1)
      → Keeps P (g a)
      → Keeps P (runs f >>= g)
  unfolding ◌>>=◌
  Keeps-known f g a known s k = record {
    at = λ w h. rw (known w.index h) (k.at (record w { index = (f w.index).1 }) (s.run w.index h));
  }

-- ===== src/Api/Feed/Order.antt =====
-- Sorting by an order in which two elements may have the same place, and what a filter keeps.
use cap_rail.Api.Journal.Order.{insert, insert-All, sort}
use cap_rail.Prelude.{
  All, Bool, Bool-cases, List, [], arith, false, if◌then◌else◌, inl, inr, keep, refl, true, ◌++◌,
  ◌∙◌, ◌∷◌, ◌≡◌,
}

module _ {A : Type 0} (newer : A → A → Bool) where
  abbrev pub Sorted : List A → Type 0
  Sorted [] = Unit
  Sorted (x ∷ xs) = All (λ y. newer y x ≡ false) xs × Sorted xs

  module _ (chain : (a b c : A) → newer b a ≡ false → newer c b ≡ false → newer c a ≡ false)
      (asym : (a b : A) → newer a b ≡ true → newer b a ≡ false) where
    after-All :
        (x y : A) (ys : List A)
        → newer y x ≡ false
        → All (λ z. newer z y ≡ false) ys
        → All (λ z. newer z x ≡ false) ys
    after-All x y [] h a = tt
    after-All x y (z ∷ ys) h (b, a) = (chain x y z h b, after-All x y ys h a)

    insert-Sorted : (x : A) (ys : List A) → Sorted ys → Sorted (insert newer x ys)
    insert-Sorted x [] s = (tt, tt)
    insert-Sorted x (y ∷ ys) (a, s) = elim (Bool-cases (newer y x)) [
      | inl e ↦
          rw e (insert-All newer (λ z. newer z y ≡ false) x ys (asym y x e) a, insert-Sorted x ys s)
      | inr e ↦ rw e ((e, after-All x y ys e a), (a, s))
    ]

    pub sort-Sorted : (xs : List A) → Sorted (sort newer xs)
    sort-Sorted [] = tt
    sort-Sorted (x ∷ xs) = insert-Sorted x (sort newer xs) (sort-Sorted xs)

    -- What comes first of a sorted list comes first of what is kept of it.
    insert_front :
        (p : A → Bool) (x : A) (ys : List A)
        → All (λ z. newer z x ≡ false) ys
        → insert newer x (keep p ys) ≡ x ∷ keep p ys
    insert_front p x [] a = refl
    insert_front p x (z ∷ ys) (b, a) = elim (Bool-cases (p z)) [
      | inl q ↦ rw (q, b) refl
      | inr q ↦ rw q (insert_front p x ys a)
    ]

    keep-insert :
        (p : A → Bool) (x : A) (ys : List A)
        → Sorted ys
        → keep p (insert newer x ys) ≡ (if p x then insert newer x (keep p ys) else keep p ys)
    keep-insert p x [] s = refl
    keep-insert p x (y ∷ ys) (a, s) = elim (Bool-cases (newer y x)) [
      | inl e ↦ ground (arith, e, keep-insert p x ys s)
      | inr e ↦ ground (arith, e, insert_front p x (y ∷ ys) (e, after-All x y ys e a))
    ]

    pub keep-sort : (p : A → Bool) (xs : List A) → keep p (sort newer xs) ≡ sort newer (keep p xs)
    keep-sort p [] = refl
    keep-sort p (x ∷ xs) =
        keep-insert p x (sort newer xs) (sort-Sorted xs) ∙ (elim (Bool-cases (p x)) [
          | inl e ↦ rw (e, keep-sort p xs) refl
          | inr e ↦ rw (e, keep-sort p xs) refl
        ])

pub keep-append {ℓ} :
    {A : Type ℓ} (p : A → Bool) (xs ys : List A) → keep p (xs ++ ys) ≡ keep p xs ++ keep p ys
keep-append p [] ys = refl
keep-append p (x ∷ xs) ys = ground (arith, keep-append p xs ys)

pub keep_none {ℓ} :
    {A : Type ℓ} (p : A → Bool) (xs : List A) → All (λ x. p x ≡ false) xs → keep p xs ≡ []
keep_none p [] h = refl
keep_none p (x ∷ xs) (e, h) = rw (e, keep_none p xs h) refl

pub keep_whole {ℓ} :
    {A : Type ℓ} (p : A → Bool) (xs : List A) → All (λ x. p x ≡ true) xs → keep p xs ≡ xs
keep_whole p [] h = refl
keep_whole p (x ∷ xs) (e, h) = rw (e, keep_whole p xs h) refl

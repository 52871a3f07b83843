-- ===== src/Api/Journal/Order.antt =====
-- Sorting by a strict order, and what a filter does to a sorted list.
use cap_rail.Prelude.{
  All, Bool, Bool-cases, List, [], arith, false, if◌then◌else◌, inl, inr, keep, refl, true, ◌∙◌,
  ◌∷◌, ◌≡◌, ◌⊎◌,
}

module _ {A : Type 0} (newer : A → A → Bool) where
  abbrev pub insert : A → List A → List A
  insert x [] = x ∷ []
  insert x (y ∷ ys) = let rest = insert x ys in if newer y x then y ∷ rest else x ∷ y ∷ ys

  abbrev pub sort : List A → List A
  sort [] = []
  sort (x ∷ xs) = insert x (sort xs)

  abbrev pub Ordered : List A → Type 0
  Ordered [] = Unit
  Ordered (x ∷ xs) = All (λ y. newer x y ≡ true) xs × Ordered xs

  abbrev pub Apart : A → List A → Type 0
  Apart x ys = All (λ y. (newer x y ≡ true) ⊎ (newer y x ≡ true)) ys

  -- Any two elements are apart: no two have the same place in the order.
  abbrev pub Distinct_ : List A → Type 0
  Distinct_ [] = Unit
  Distinct_ (x ∷ xs) = Apart x xs × Distinct_ xs

  pub insert-All {κ} : (P : A → Type κ) (x : A) (ys : List A) → P x → All P ys → All P (insert x ys)
  insert-All P x [] p h = (p, tt)
  insert-All P x (y ∷ ys) p (q, h) = elim (Bool-cases (newer y x)) [
    | inl e ↦ rw e (q, insert-All P x ys p h)
    | inr e ↦ rw e (p, (q, h))
  ]

  pub keep-All {κ} : (P : A → Type κ) (p : A → Bool) (xs : List A) → All P xs → All P (keep p xs)
  keep-All P p [] h = tt
  keep-All P p (x ∷ xs) (q, h) = elim (Bool-cases (p x)) [
    | inl e ↦ rw e (q, keep-All P p xs h)
    | inr e ↦ rw e (keep-All P p xs h)
  ]

  pub sort-All {κ} : (P : A → Type κ) (xs : List A) → All P xs → All P (sort xs)
  sort-All P [] h = tt
  sort-All P (x ∷ xs) (p, h) = insert-All P x (sort xs) p (sort-All P xs h)

  module _ (trans : (a b c : A) → newer a b ≡ true → newer b c ≡ true → newer a c ≡ true) where
    below-All :
        (x y : A) (ys : List A)
        → newer x y ≡ true
        → All (λ z. newer y z ≡ true) ys
        → All (λ z. newer x z ≡ true) ys
    below-All x y [] h a = tt
    below-All x y (z ∷ ys) h (b, a) = (trans x y z h b, below-All x y ys h a)

    insert-Ordered : (x : A) (ys : List A) → Apart x ys → Ordered ys → Ordered (insert x ys)
    insert-Ordered x [] a o = (tt, tt)
    insert-Ordered x (y ∷ ys) (apart, a) (before, o) = elim (Bool-cases (newer y x)) [
      | inl e ↦ rw e (insert-All (λ z. newer y z ≡ true) x ys e before, insert-Ordered x ys a o)
      | inr e ↦
          let first : newer x y ≡ true = ground (arith, e, apart) in
          rw e ((first, below-All x y ys first before), (before, o))
    ]

    pub sort-Ordered : (xs : List A) → Distinct_ xs → Ordered (sort xs)
    sort-Ordered [] d = tt
    sort-Ordered (x ∷ xs) (apart, d) =
        insert-Ordered x (sort xs)
          (sort-All (λ y. (newer x y ≡ true) ⊎ (newer y x ≡ true)) xs apart) (sort-Ordered xs d)

    -- An element that comes before the first of an ordered list comes first in what is kept of it.
    insert_front :
        (p : A → Bool) (x y : A) (ys : List A)
        → newer y x ≡ false
        → All (λ z. newer y z ≡ true) ys
        → insert x (keep p ys) ≡ x ∷ keep p ys
    insert_front p x y [] e a = refl
    insert_front p x y (z ∷ ys) e (b, a) = elim (Bool-cases (p z)) [
      | inl q ↦ elim (Bool-cases (newer z x)) [
        | inl n ↦ ground (arith, e, trans y z x b n)
        | inr n ↦ rw (q, n) refl
      ]
      | inr q ↦ rw q (insert_front p x y ys e a)
    ]

    keep-insert :
        (p : A → Bool) (x : A) (ys : List A)
        → Ordered ys
        → keep p (insert x ys) ≡ (if p x then insert x (keep p ys) else keep p ys)
    keep-insert p x [] o = refl
    keep-insert p x (y ∷ ys) (before, o) = elim (Bool-cases (newer y x)) [
      | inl e ↦ ground (arith, e, keep-insert p x ys o)
      | inr e ↦ ground (arith, e, insert_front p x y ys e before)
    ]

    pub keep-Distinct_ : (p : A → Bool) (xs : List A) → Distinct_ xs → Distinct_ (keep p xs)
    keep-Distinct_ p [] d = tt
    keep-Distinct_ p (x ∷ xs) (a, d) = elim (Bool-cases (p x)) [
      | inl e ↦
          rw e
            (keep-All (λ y. (newer x y ≡ true) ⊎ (newer y x ≡ true)) p xs a, keep-Distinct_ p xs d)
      | inr e ↦ rw e (keep-Distinct_ p xs d)
    ]

    pub keep-sort :
        (p : A → Bool) (xs : List A) → Distinct_ xs → keep p (sort xs) ≡ sort (keep p xs)
    keep-sort p [] d = refl
    keep-sort p (x ∷ xs) (a, d) =
        keep-insert p x (sort xs) (sort-Ordered xs d) ∙ (elim (Bool-cases (p x)) [
          | inl e ↦ rw (e, keep-sort p xs d) refl
          | inr e ↦ rw (e, keep-sort p xs d) refl
        ])

-- ===== src/Api/Journal/Cuts.antt =====
-- Taking the first of a list, and what is kept of it.
use cap_rail.Prelude.{
  All, Bool, List, ℕ, [], ap, arith, false, keep, last?, length, ltb, refl, some, suc, take, true,
  zero, ◌&&◌, ◌++◌, ◌<◌, ◌∷◌, ◌≡◌,
}

module _ {A : Type 0} where
  pub take-take : (n : ℕ) (xs : List A) → take n (take (suc n) xs) ≡ take n xs
  take-take zero xs = refl
  take-take (suc n) [] = refl
  take-take (suc n) (x ∷ xs) = ap (λ r. x ∷ r) (take-take n xs)

  pub length-take : (n : ℕ) (xs : List A) → ltb n (length (take (suc n) xs)) ≡ ltb n (length xs)
  length-take n [] = refl
  length-take zero (x ∷ xs) = ground arith
  length-take (suc n) (x ∷ xs) = ground (arith, length-take n xs)

  pub take_all : (n : ℕ) (xs : List A) → ltb n (length xs) ≡ false → take n xs ≡ xs
  take_all zero [] h = refl
  take_all (suc n) [] h = refl
  take_all zero (x ∷ xs) h = ground (arith, h)
  take_all (suc n) (x ∷ xs) h = ap (λ r. x ∷ r) (take_all n xs (ground (arith, h)))

  -- What a page takes of a longer list: up to its last element.
  abbrev Cut : ℕ → List A → Type 0
  Cut n xs =
      (init : List A) × (x : A) × (back : List A) × (take n xs ≡ init ++ x ∷ [])
      × (last? (take n xs) ≡ some x)
      × (xs ≡ init ++ x ∷ back)

  pub split_at : (n : ℕ) (xs : List A) → 0 < n → ltb n (length xs) ≡ true → Cut n xs
  split_at zero xs p h = ground (arith, p)
  split_at (suc n) [] p h = ground (arith, h)
  split_at (suc zero) (x ∷ xs) p h = ([], x, xs, refl, refl, refl)
  split_at (suc (suc n)) (x ∷ []) p h = ground (arith, h)
  split_at (suc (suc n)) (x ∷ y ∷ xs) p h =
      let (init, z, back, front, last, whole) =
        split_at (suc n) (y ∷ xs) (omega arith) (ground (arith, h)) in
      (x ∷ init, z, back, ap (λ r. x ∷ r) front, last, ap (λ r. x ∷ r) whole)

  pub keep_both : (p q : A → Bool) (xs : List A) → keep (λ x. p x && q x) xs ≡ keep q (keep p xs)
  keep_both p q [] = refl
  keep_both p q (x ∷ xs) = ground (arith, keep_both p q xs)

  pub keep-true : (p : A → Bool) (xs : List A) → keep (λ x. p x && true) xs ≡ keep p xs
  keep-true p [] = refl
  keep-true p (x ∷ xs) = ground (arith, keep-true p xs)

  pub keep-satisfied : (p : A → Bool) (xs : List A) → All (λ x. p x ≡ true) xs → keep p xs ≡ xs
  keep-satisfied p [] h = refl
  keep-satisfied p (x ∷ xs) (e, h) = rw (e, keep-satisfied p xs h) refl

  pub All-middle {κ} :
      (P : A → Type κ) (front : List A) (x : A) (back : List A) → All P (front ++ x ∷ back) → P x
  All-middle P [] x back (p, h) = p
  All-middle P (y ∷ front) x back (p, h) = All-middle P front x back h

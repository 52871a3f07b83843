-- ===== src/Table/Laws.antt =====
-- Laws of the statements: what each does to a predicate of every row, to the rows that are found,
-- and to the uniqueness of keys.
use cap_rail.Prelude.{
  All, All-append, Bool, Bool-cases, List, [], arith, false, has, if◌then◌else◌, inl, inr, refl,
  true, ◌++◌, ◌||◌, ◌∷◌, ◌≡◌,
}
use cap_rail.Table.{insert_absent, update_where, upsert}

module _ {ℓ} {A : Type ℓ} where
  pub All-insert_absent :
      (P : A → Type 0) (c : A → Bool) (row : A) (rows : List A)
      → P row
      → All P rows
      → All P (insert_absent c row rows)
  All-insert_absent P c row rows p h = elim (Bool-cases (has c rows)) [
    | inl e ↦ rw e h
    | inr e ↦ rw e (All-append P rows (row ∷ []) h (p, tt))
  ]

  pub All-update_where :
      (P : A → Type 0) (test : A → Bool) (change : A → A) (rows : List A)
      → ((row : A) → test row ≡ true → P row → P (change row))
      → All P rows
      → All P (update_where test change rows)
  All-update_where P test change [] keep h = tt
  All-update_where P test change (row ∷ rows) keep h = (
    elim (Bool-cases (test row)) [ inl e ↦ rw e (keep row e h.0) | inr e ↦ rw e h.0 ],
    All-update_where P test change rows keep h.1,
  )

  All-upsert :
      (P : A → Type 0) (c : A → Bool) (row : A) (change : A → A) (rows : List A)
      → P row
      → ((known : A) → c known ≡ true → P known → P (change known))
      → All P rows
      → All P (upsert c row change rows)
  All-upsert P c row change rows p keep h = elim (Bool-cases (has c rows)) [
    | inl e ↦ rw e (All-update_where P c change rows keep h)
    | inr e ↦ rw e (All-append P rows (row ∷ []) h (p, tt))
  ]

  pub has-append : (c : A → Bool) (xs ys : List A) → has c (xs ++ ys) ≡ (has c xs || has c ys)
  has-append c [] ys = refl
  has-append c (x ∷ xs) ys = ground (arith, has-append c xs ys)

  -- After an insertion some row has the key, the new one if no other.
  pub has-insert_absent :
      (c : A → Bool) (row : A) (rows : List A)
      → c row ≡ true
      → has c (insert_absent c row rows) ≡ true
  has-insert_absent c row rows e = ground (arith, has-append c rows (row ∷ []))

  insert_absent-twice :
      (c : A → Bool) (row : A) (rows : List A)
      → c row ≡ true
      → insert_absent c row (insert_absent c row rows) ≡ insert_absent c row rows
  insert_absent-twice c row rows e = rw (has-insert_absent c row rows e)

module _ {ℓ} {A : Type ℓ} where
  -- A key that is taken makes an insertion do nothing, whatever the row.
  insert_absent-taken :
      (c : A → Bool) (row : A) (rows : List A) → has c rows ≡ true → insert_absent c row rows ≡ rows
  insert_absent-taken c row rows e = rw e

  pub insert_absent-again :
      (c : A → Bool) (row row' : A) (rows : List A)
      → c row ≡ true
      → insert_absent c row' (insert_absent c row rows) ≡ insert_absent c row rows
  insert_absent-again c row row' rows e =
      insert_absent-taken c row' _ (has-insert_absent c row rows e)

  -- A second update that finds every row settled changes nothing.
  pub update_where-again :
      (test test' : A → Bool) (change change' : A → A) (rows : List A)
      → ((row : A)
          → test row ≡ true
          → (if test' (change row) then change' (change row) else change row) ≡ change row)
      → ((row : A) → test row ≡ false → test' row ≡ false)
      → update_where test' change' (update_where test change rows) ≡ update_where test change rows
  update_where-again test test' change change' [] settled other = refl
  update_where-again test test' change change' (row ∷ rows) settled other =
      elim (Bool-cases (test row)) [
        | inl e ↦
            rw (e, update_where-again test test' change change' rows settled other, settled row e)
              refl
        | inr e ↦
            rw (e, update_where-again test test' change change' rows settled other, other row e)
              refl
      ]

  update_where-none :
      (test : A → Bool) (change : A → A) (rows : List A)
      → has test rows ≡ false
      → update_where test change rows ≡ rows
  update_where-none test change [] h = refl
  update_where-none test change (row ∷ rows) h = ground (arith, update_where-none test change rows)

  has-update_where :
      (c test : A → Bool) (change : A → A) (rows : List A)
      → ((row : A) → c (change row) ≡ c row)
      → has c (update_where test change rows) ≡ has c rows
  has-update_where c test change [] same = refl
  has-update_where c test change (row ∷ rows) same =
      ground (arith, same row, has-update_where c test change rows same)

  settled_if :
      (c : A → Bool) (change change' : A → A) (known : A)
      → c known ≡ true
      → ((known : A) → c (change known) ≡ c known)
      → ((known : A) → change' (change known) ≡ change known)
      → (if c (change known) then change' (change known) else change known) ≡ change known
  settled_if c change change' known k keeps settled = rw (keeps known, k) (settled known)

  update_where-last :
      (c : A → Bool) (row : A) (change : A → A) (rows : List A)
      → has c rows ≡ false
      → c row ≡ true
      → change row ≡ row
      → update_where c change (rows ++ row ∷ []) ≡ rows ++ row ∷ []
  update_where-last c row change [] h k new = rw (k, new) refl
  update_where-last c row change (x ∷ rows) h k new =
      ground (arith, update_where-last c row change rows)

  -- An upsert that is settled by the first: the row or the rows with its key.
  pub upsert-again :
      (c : A → Bool) (row row' : A) (change change' : A → A) (rows : List A)
      → c row ≡ true
      → ((known : A) → c (change known) ≡ c known)
      → ((known : A) → change' (change known) ≡ change known)
      → change' row ≡ row
      → upsert c row' change' (upsert c row change rows) ≡ upsert c row change rows
  upsert-again c row row' change change' rows is_key keeps settled new =
      elim (Bool-cases (has c rows)) [
        | inl e ↦
            rw (e, has-update_where c c change rows keeps, e)
              (update_where-again c c change change' rows
                (λ known k. settled_if c change change' known k keeps settled) (λ known k. k))
        | inr e ↦
            rw (e, has-append c rows (row ∷ []), e, is_key)
              (update_where-last c row change' rows e is_key new)
      ]

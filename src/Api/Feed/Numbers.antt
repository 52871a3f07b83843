-- ===== src/Api/Feed/Numbers.antt =====
-- Rows whose numbers rise, and what a query behind a mark selects of them.
use cap_rail.Api.Feed.{last_or, max_of, selected}
use cap_rail.Api.Feed.Order.{keep-append, keep_none, keep_whole}
use cap_rail.Api.Journal.Order.{sort}
use cap_rail.Prelude.{
  All, All-append, Bool, Bool-cases, List, ℕ, [], arith, false, if◌then◌else◌, inl, inr, keep, ltb,
  refl, sym, true, ◌++◌, ◌<◌, ◌∙◌, ◌∷◌, ◌≡◌, ◌≤◌,
}

abbrev max_with : ℕ → ℕ → ℕ
max_with a b = if ltb a b then b else a

module _ {A : Type 0} (number : A → ℕ) where
  abbrev pub Upto : ℕ → List A → Type 0
  Upto n rows = All (λ row. number row ≤ n) rows

  -- The numbers rise, from above n.
  abbrev pub Rising : ℕ → List A → Type 0
  Rising n [] = Unit
  Rising n (row ∷ rows) = (n < number row) × Rising (number row) rows

  Upto-weaken : (m n : ℕ) (rows : List A) → m ≤ n → Upto m rows → Upto n rows
  Upto-weaken m n [] h u = tt
  Upto-weaken m n (row ∷ rows) h (b, u) = (omega arith, Upto-weaken m n rows h u)

  pub max_of-Upto : (rows : List A) → Upto (max_of number rows) rows
  max_of-Upto [] = tt
  max_of-Upto (row ∷ rows) = (
    ground arith,
    Upto-weaken (max_of number rows) (max_of number (row ∷ rows)) rows (ground arith)
        (max_of-Upto rows),
  )

  Upto-passed : (n : ℕ) (rows : List A) → Upto n rows → All (λ row. ltb n (number row) ≡ false) rows
  Upto-passed n [] u = tt
  Upto-passed n (row ∷ rows) (b, u) = (ground arith, Upto-passed n rows u)

  Rising-All : (m n : ℕ) (rows : List A) → m ≤ n → Rising n rows → All (λ row. m < number row) rows
  Rising-All m n [] h r = tt
  Rising-All m n (row ∷ rows) h (b, r) =
      (omega arith, Rising-All m (number row) rows (omega arith) r)

  All-ltb :
      (m : ℕ) (rows : List A)
      → All (λ row. m < number row) rows
      → All (λ row. ltb m (number row) ≡ true) rows
  All-ltb m [] a = tt
  All-ltb m (row ∷ rows) (b, a) = (ground arith, All-ltb m rows a)

  sort-Rising :
      (n : ℕ) (rows : List A) → Rising n rows → sort (λ a b. ltb (number a) (number b)) rows ≡ rows
  sort-Rising n [] r = refl
  sort-Rising n (row ∷ []) r = refl
  sort-Rising n (row ∷ next ∷ rows) (b, (c, r)) =
      rw (sort-Rising (number row) (next ∷ rows) (c, r)) (ground arith)

  -- Behind rows up to the mark, the query selects exactly the rows that rise above it.
  pub selected-Rising :
      (since : ℕ) (old new : List A)
      → Upto since old
      → Rising since new
      → selected number since (old ++ new) ≡ new
  selected-Rising since old new u r =
      let past = keep_none (λ row. ltb since (number row)) old (Upto-passed since old u) in
      let ahead =
        keep_whole (λ row. ltb since (number row)) new
          (All-ltb since new (Rising-All since since new (omega arith) r)) in
      rw (keep-append (λ row. ltb since (number row)) old new, past, ahead)
        (sort-Rising since new r)

  last_or_cons :
      (n : ℕ) (row : A) (rows : List A)
      → last_or number n (row ∷ rows) ≡ last_or number (number row) rows
  last_or_cons n row [] = refl
  last_or_cons n row (next ∷ rows) =
      last_or_cons n next rows ∙ sym (last_or_cons (number row) next rows)

  -- The numbers do not fall, from n on.
  abbrev pub Climbing : ℕ → List A → Type 0
  Climbing n [] = Unit
  Climbing n (row ∷ rows) = (n ≤ number row) × Climbing (number row) rows

  Rising-Climbing : (n : ℕ) (rows : List A) → Rising n rows → Climbing n rows
  Rising-Climbing n [] r = tt
  Rising-Climbing n (row ∷ rows) (b, r) = (omega arith, Rising-Climbing (number row) rows r)

  last_or_within :
      (n : ℕ) (rows : List A)
      → Climbing n rows
      → (n ≤ last_or number n rows)
        × (max_of number rows ≤ last_or number n rows)
        × (last_or number n rows ≤ max_with n (max_of number rows))
  last_or_within n [] r = (omega arith, omega arith, ground arith)
  last_or_within n (row ∷ rows) (b, r) =
      ground (arith, last_or_cons n row rows, last_or_within (number row) rows r)

  pub max_of-append :
      (xs ys : List A) → max_of number (xs ++ ys) ≡ max_with (max_of number xs) (max_of number ys)
  max_of-append [] ys = ground arith
  max_of-append (x ∷ xs) ys = ground (arith, max_of-append xs ys)

  -- Their last number is the greatest of all.
  pub last_or-Climbing :
      (old new : List A)
      → Climbing (max_of number old) new
      → last_or number (max_of number old) new ≡ max_of number (old ++ new)
  last_or-Climbing old new r =
      ground (arith, max_of-append old new, last_or_within (max_of number old) new r)

  last_or-Rising :
      (old new : List A)
      → Rising (max_of number old) new
      → last_or number (max_of number old) new ≡ max_of number (old ++ new)
  last_or-Rising old new r = last_or-Climbing old new (Rising-Climbing (max_of number old) new r)

  pub last_or_bounds :
      (n top : ℕ) (rows : List A)
      → Rising n rows
      → Upto top rows
      → n ≤ top
      → last_or number n rows ≤ top
  last_or_bounds n top [] r u h = h
  last_or_bounds n top (row ∷ rows) (b, r) (c, u) h =
      rw (last_or_cons n row rows) (last_or_bounds (number row) top rows r u c)

pub max_within :
    {A : Type 0} (number : A → ℕ) (n : ℕ) (rows : List A)
    → Upto number n rows
    → max_of number rows ≤ n
max_within number n [] u = omega arith
max_within number n (row ∷ rows) (b, u) = ground (arith, max_within number n rows u)

pub keep_comm :
    {A : Type 0} (p q : A → Bool) (rows : List A) → keep p (keep q rows) ≡ keep q (keep p rows)
keep_comm p q [] = refl
keep_comm p q (row ∷ rows) = elim (Bool-cases (p row)) [
  | inl e ↦ ground (arith, e, keep_comm p q rows)
  | inr e ↦ ground (arith, e, keep_comm p q rows)
]

pub keep-Upto :
    {A : Type 0} (number : A → ℕ) (n : ℕ) (p : A → Bool) (rows : List A)
    → Upto number n rows
    → Upto number n (keep p rows)
keep-Upto number n p [] u = tt
keep-Upto number n p (row ∷ rows) (b, u) = ground (arith, keep-Upto number n p rows u)

pub Rising-lower :
    {A : Type 0} (number : A → ℕ) (m n : ℕ) (rows : List A)
    → m ≤ n
    → Rising number n rows
    → Rising number m rows
Rising-lower number m n [] h r = tt
Rising-lower number m n (row ∷ rows) h (b, r) = (omega arith, r)

pub selected_behind :
    {A : Type 0} (number : A → ℕ) (since : ℕ) (old new : List A)
    → since ≡ max_of number old
    → Rising number (max_of number old) new
    → selected number since (old ++ new) ≡ new
selected_behind number since old new e r =
    selected-Rising number since old new (rw e (max_of-Upto number old)) (rw e r)

pub last_behind :
    {A : Type 0} (number : A → ℕ) (since : ℕ) (old new : List A)
    → since ≡ max_of number old
    → Rising number (max_of number old) new
    → last_or number since new ≡ max_of number (old ++ new)
last_behind number since old new e r = rw e (last_or-Rising number old new r)

pub last_or-Upto :
    {A : Type 0} (number : A → ℕ) (since : ℕ) (old new : List A)
    → Upto number since old
    → Rising number since new
    → Upto number (last_or number since new) (old ++ new)
last_or-Upto number since old new u r =
    let last = last_or number since new in
    let (low, most, top) = last_or_within number since new (Rising-Climbing number since new r) in
    All-append (λ row. number row ≤ last) old new (Upto-weaken number since last old low u)
      (Upto-weaken number (max_of number new) last new most (max_of-Upto number new))

-- ===== src/Api/Market/Rules.antt =====
-- The SQL rule and its copy over arrays say the same.
use cap_rail.Api.Market.{admits, admits_to, approves, caprail_admits, is_record, lets_in}
use cap_rail.Api.Views.{investor_view, token_view}
use cap_rail.Prelude.{
  Bool, Bool-cases, List, Option, Option-cases, String, ===_comm, [], ap, arith, eq_of_===, false,
  find, has, inl, inr, map, none, not, refl, some, true, ◌&&◌, ◌===◌, ◌||◌, ◌∙◌, ◌∷◌, ◌≡◌,
}
use cap_rail.Prelude.Int.{ℤ}
use cap_rail.Shared.Market.{admission, admission_of}
use cap_rail.Table.{Unique}
use cap_rail.Worker.Rows.{InvestorRow, TokenRow}
use mathlib.Core.Option.{some-injective}
use mathlib.Core.Path.{subst}
use mathlib.Core.Option

-- Two tokens of one mint, and two entries of one wallet in the registry of one mint.
abbrev pub same_token : TokenRow → TokenRow → Bool
same_token a b = a.mint === b.mint

abbrev pub same_record : InvestorRow → InvestorRow → Bool
same_record a b = a.mint === b.mint && a.wallet === b.wallet

-- At most one element meets the test.
abbrev Single : {A : Type 0} → (A → Bool) → List A → Type 0
Single test [] = Unit
Single test (x ∷ xs) = (test x ≡ true → has test xs ≡ false) × Single test xs

abbrev meets : {A : Type 0} → (A → Bool) → Option A → Bool
meets test none = false
meets test (some a) = test a

has_none :
    {A : Type 0} (p q : A → Bool) (xs : List A)
    → has p xs ≡ false
    → has (λ x. p x && q x) xs ≡ false
has_none p q [] h = refl
has_none p q (x ∷ xs) h = ground (arith, h, has_none p q xs)

has-find :
    {A : Type 0} (p q : A → Bool) (xs : List A)
    → Single p xs
    → has (λ x. p x && q x) xs ≡ meets q (find p xs)
has-find p q [] s = refl
has-find p q (x ∷ xs) (alone, s) = elim (Bool-cases (p x)) [
  | inl e ↦ rw e (ground (arith, has_none p q xs (alone e)))
  | inr e ↦ rw e (has-find p q xs s)
]

find-map :
    {A B : Type 0} (f : A → B) (p : B → Bool) (xs : List A)
    → find p (map f xs) ≡ Option.map f (find (λ x. p (f x)) xs)
find-map f p [] = refl
find-map f p (x ∷ xs) = elim (Bool-cases (p (f x))) [
  | inl e ↦ rw e refl
  | inr e ↦ rw e (find-map f p xs)
]

find-test : {A : Type 0} (p : A → Bool) (xs : List A) (x : A) → find p xs ≡ some x → p x ≡ true
find-test p [] x e = ground (arith, e)
find-test p (y ∷ ys) x e = elim (Bool-cases (p y)) [
  | inl k ↦
      let same : y ≡ x = some-injective y x (ground (arith, k, e)) in subst (λ z. p z ≡ true) same k
  | inr k ↦ find-test p ys x (ground (arith, k, e))
]

none_such :
    (token : TokenRow) (tokens : List TokenRow)
    → has (same_token token) tokens ≡ false
    → has (λ (t : TokenRow). t.mint === token.mint) tokens ≡ false
none_such token [] h = refl
none_such token (next ∷ tokens) h =
    ground (arith, h, ===_comm token.mint next.mint, none_such token tokens)

no_record :
    (row : InvestorRow) (rows : List InvestorRow)
    → has (same_record row) rows ≡ false
    → has (is_record row.mint row.wallet) rows ≡ false
no_record row [] h = refl
no_record row (next ∷ rows) h =
    ground
      (arith, h, ===_comm row.mint next.mint, ===_comm row.wallet next.wallet, no_record row rows)

one_of_mint :
    (mint : String) (tokens : List TokenRow)
    → Unique same_token tokens
    → Single (λ (t : TokenRow). t.mint === mint) tokens
one_of_mint mint [] u = tt
one_of_mint mint (token ∷ tokens) (apart, u) = (
  λ e.
      subst (λ m. has (λ (t : TokenRow). t.mint === m) tokens ≡ false) (eq_of_=== token.mint mint e)
        (none_such token tokens apart),
  one_of_mint mint tokens u,
)

one_of_wallet :
    (mint wallet : String) (rows : List InvestorRow)
    → Unique same_record rows
    → Single (is_record mint wallet) rows
one_of_wallet mint wallet [] u = tt
one_of_wallet mint wallet (row ∷ rows) (apart, u) = (
  λ e.
      subst (λ m. has (is_record m wallet) rows ≡ false)
        (eq_of_=== row.mint mint (ground (arith, e)))
        (subst (λ w. has (is_record row.mint w) rows ≡ false)
          (eq_of_=== row.wallet wallet (ground (arith, e))) (no_record row rows apart)),
  one_of_wallet mint wallet rows u,
)

-- The rule for one token and what the registry has of the wallet.
admission-approves :
    (token : TokenRow) (found : Option InvestorRow) (at : ℤ)
    → (not token.require_accreditation || meets (approves at) found)
      ≡ admits_to (some (token_view token)) (Option.map investor_view found) at
unfolding admission admission_of
admission-approves token none at = ground arith
admission-approves token (some row) at = ground arith

rules_agree :
    (tokens : List TokenRow) (investors : List InvestorRow) (mint : String) (wallet : Option String)
    (at : ℤ)
    → Unique same_token tokens
    → Unique same_record investors
    → caprail_admits tokens investors mint wallet at
      ≡ admits (map token_view tokens) (map investor_view investors) mint wallet at
unfolding caprail_admits admits
rules_agree tokens investors mint none at u v = refl
rules_agree tokens investors mint (some wallet) at u v =
    let of_mint = λ (token : TokenRow). token.mint === mint in
    has-find of_mint (lets_in investors wallet at) tokens (one_of_mint mint tokens u)
    ∙ rw
        (
          find-map token_view (λ token. token.mint === mint) tokens,
          find-map investor_view (λ i. i.mint === mint && i.wallet === wallet) investors,
        )
        (elim (Option-cases (find of_mint tokens)) [
          | inl e ↦ rw e refl
          | inr (token, e) ↦
              let named : token.mint ≡ mint =
                eq_of_=== token.mint mint (find-test of_mint tokens token e) in
              rw e (
                ap (λ b. not token.require_accreditation || b)
                  (has-find (is_record token.mint wallet) (approves at) investors
                    (one_of_wallet token.mint wallet investors v))
                ∙ rw named (admission-approves token (find (is_record mint wallet) investors) at))
        ])

-- With one token of a mint and one entry for each wallet of its registry, the SQL rule and the rule over
-- arrays admit the same wallets at every instant, and neither admits a session without a wallet.
pub caprail_admits-admits :
    (tokens : List TokenRow) (investors : List InvestorRow) (mint : String) (wallet : Option String)
    (at : ℤ)
    → Unique same_token tokens
    → Unique same_record investors
    → let views = map token_view tokens in
      let registry = map investor_view investors in
      (caprail_admits tokens investors mint wallet at ≡ admits views registry mint wallet at)
      × (caprail_admits tokens investors mint none at ≡ false)
      × (admits views registry mint none at ≡ false)
unfolding caprail_admits admits
caprail_admits-admits tokens investors mint wallet at u v =
    (rules_agree tokens investors mint wallet at u v, refl, refl)

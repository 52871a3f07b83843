-- ===== src/Api/Queries/Roles.antt =====
-- The roles of a wallet are those that the index names it in.
use cap_rail.Api.Journal.Order.{insert, sort}
use cap_rail.Api.Queries.{
  Membership, Role, admin_role, compliance_officer_role, investor_role, join_memberships,
  memberships_in, memberships_of, roles_of,
}
use cap_rail.Prelude.{
  Bool, Bool-cases, List, String, ℕ, [], ap, arith, false, has, has-append, inl, inr, keep, ltb,
  map, refl, true, ◌&&◌, ◌===◌, ◌==◌, ◌||◌, ◌∙◌, ◌∷◌, ◌≡◌,
}
use cap_rail.Worker.Rows.{CompanyRow, InvestorRow}

abbrev pub is_role : Role → Role → Bool
is_role admin_role admin_role = true
is_role compliance_officer_role compliance_officer_role = true
is_role investor_role investor_role = true
is_role _ _ = false

-- What names a wallet in a role: the company's keys, or an entry of its registry.
abbrev grants : Role → List InvestorRow → String → CompanyRow → Bool
grants admin_role investors wallet row = row.admin === wallet
grants compliance_officer_role investors wallet row = row.compliance_officer === wallet
grants investor_role investors wallet row =
    has (λ i. i.company_id == row.company_id && i.wallet === wallet) investors

has-insert :
    {A : Type 0} (before : A → A → Bool) (p : A → Bool) (x : A) (xs : List A)
    → has p (insert before x xs) ≡ has p (x ∷ xs)
has-insert before p x [] = refl
has-insert before p x (y ∷ ys) = ground (arith, has-insert before p x ys)

has-sort :
    {A : Type 0} (before : A → A → Bool) (p : A → Bool) (xs : List A)
    → has p (sort before xs) ≡ has p xs
has-sort before p [] = refl
has-sort before p (x ∷ xs) =
    has-insert before p x (sort before xs) ∙ ap (λ b. p x || b) (has-sort before p xs)

-- A membership in the company with the role.
abbrev holds : ℕ → Role → Membership → Bool
holds company_id role m = m.company_id == company_id && is_role role m.role

has-roles :
    (company_id : ℕ) (role : Role) (ms : List Membership)
    → has (is_role role) (
        map (λ (m : Membership). m.role) (keep (λ (m : Membership). m.company_id == company_id) ms))
      ≡ has (holds company_id role) ms
has-roles company_id role [] = refl
has-roles company_id role (m ∷ ms) = elim (Bool-cases (m.company_id == company_id)) [
  | inl e ↦ ground (arith, e, has-roles company_id role ms)
  | inr e ↦ ground (arith, e, has-roles company_id role ms)
]

memberships_in-holds :
    (investors : List InvestorRow) (wallet : String) (company_id : ℕ) (role : Role)
    (row : CompanyRow)
    → has (holds company_id role) (memberships_in investors wallet row)
      ≡ (row.company_id == company_id && grants role investors wallet row)
memberships_in-holds investors wallet company_id admin_role row = ground arith
memberships_in-holds investors wallet company_id compliance_officer_role row = ground arith
memberships_in-holds investors wallet company_id investor_role row = ground arith

join_memberships-holds :
    (investors : List InvestorRow) (wallet : String) (company_id : ℕ) (role : Role)
    (rows : List CompanyRow)
    → has (holds company_id role) (join_memberships investors wallet rows)
      ≡ has (λ row. row.company_id == company_id && grants role investors wallet row) rows
join_memberships-holds investors wallet company_id role [] = refl
join_memberships-holds investors wallet company_id role (row ∷ rows) =
    has-append (holds company_id role) (memberships_in investors wallet row)
      (join_memberships investors wallet rows)
    ∙ rw
        (
          memberships_in-holds investors wallet company_id role row,
          join_memberships-holds investors wallet company_id role rows,
        )
        refl

-- A wallet has a role in a company exactly when a row of that company that the session sees names it: as
-- the admin, as the compliance officer, or by an entry of the company's registry.
pub roles_of-grants :
    (companies : List CompanyRow) (investors : List InvestorRow) (company_id : ℕ) (wallet : String)
    (role : Role)
    → has (is_role role) (roles_of companies investors company_id wallet)
      ≡ has (λ row. row.company_id == company_id && grants role investors wallet row) companies
unfolding roles_of memberships_of
roles_of-grants companies investors company_id wallet role =
    let rows = sort (λ (a b : CompanyRow). ltb a.company_id b.company_id) companies in
    has-roles company_id role (join_memberships investors wallet rows)
    ∙ (join_memberships-holds investors wallet company_id role rows
        ∙ has-sort (λ a b. ltb a.company_id b.company_id)
            (λ row. row.company_id == company_id && grants role investors wallet row) companies)

-- ===== src/Worker/Apply/Lookup/Reads.antt =====
-- The lookups of Worker/Apply/Lookup write nothing to the index, so they keep whatever holds of it.
use cap_rail.Prelude.{Option, String, none, some}
use cap_rail.Worker.Act.Keeps.{Keeps, keeps_rules}
use cap_rail.Worker.Apply.Lookup.{
  Chain, account_owner, company_id_of, found_company, found_token, known_offer_of, known_token_of,
  learned_owner, looked_up_company, looked_up_owner, looked_up_token, owner_on_chain, token_of,
}
use cap_rail.Worker.Rows.{Index}

module _ {P : Index → Type 0} where
  found_company-Keeps :
      (company : String) (found : Option _) → Keeps P (found_company company found)
  unfolding found_company
  found_company-Keeps company none = search keeps_rules
  found_company-Keeps company (some id) = search keeps_rules

  looked_up_company-Keeps :
      (company : String) (found : Option _) → Keeps P (looked_up_company company found)
  unfolding looked_up_company
  looked_up_company-Keeps company none = search (keeps_rules, found_company-Keeps)
  looked_up_company-Keeps company (some id) = search keeps_rules

  pub company_id_of-Keeps : (company : String) → Keeps P (company_id_of company)
  unfolding company_id_of
  company_id_of-Keeps company = search (keeps_rules, looked_up_company-Keeps)

  found_token-Keeps : (mint : String) (found : Option _) → Keeps P (found_token mint found)
  unfolding found_token
  found_token-Keeps mint none = search keeps_rules
  found_token-Keeps mint (some token) = search keeps_rules

  looked_up_token-Keeps : (mint : String) (found : Option _) → Keeps P (looked_up_token mint found)
  unfolding looked_up_token
  looked_up_token-Keeps mint none = search (keeps_rules, found_token-Keeps)
  looked_up_token-Keeps mint (some token) = search keeps_rules

  pub token_of-Keeps : (mint : String) → Keeps P (token_of mint)
  unfolding token_of
  token_of-Keeps mint = search (keeps_rules, looked_up_token-Keeps)

  pub known_token_of-Keeps : (mint : String) → Keeps P (known_token_of mint)
  unfolding known_token_of
  known_token_of-Keeps mint = search (keeps_rules, token_of-Keeps)

  pub known_offer_of-Keeps : (offer : String) → Keeps P (known_offer_of offer)
  unfolding known_offer_of
  known_offer_of-Keeps offer = search keeps_rules

  learned_owner-Keeps :
      (account : String) (found : Option String) → Keeps P (learned_owner account found)
  unfolding learned_owner
  learned_owner-Keeps account none = search keeps_rules
  learned_owner-Keeps account (some owner) = search keeps_rules

  owner_on_chain-Keeps :
      (c : Chain) (account : String) (found : Option String)
      → Keeps P (owner_on_chain c account found)
  unfolding owner_on_chain
  owner_on_chain-Keeps c account none = search (keeps_rules, learned_owner-Keeps)
  owner_on_chain-Keeps c account (some owner) = search (keeps_rules, learned_owner-Keeps)

  looked_up_owner-Keeps :
      (c : Chain) (mint account : String) (found : Option String)
      → Keeps P (looked_up_owner c mint account found)
  unfolding looked_up_owner
  looked_up_owner-Keeps c mint account none = search (keeps_rules, owner_on_chain-Keeps)
  looked_up_owner-Keeps c mint account (some owner) = search keeps_rules

  pub account_owner-Keeps :
      (c : Chain) (mint account : String) → Keeps P (account_owner c mint account)
  unfolding account_owner
  account_owner-Keeps c mint account = search (keeps_rules, looked_up_owner-Keeps)

pub ruleset lookup_rules = (
  keeps_rules, company_id_of-Keeps, token_of-Keeps, known_token_of-Keeps, known_offer_of-Keeps,
  account_owner-Keeps,
)

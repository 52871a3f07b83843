-- ===== src/Indexer/Readers/Records.antt =====
-- packages/indexer/src/events.ts: `READERS`, one reader for each event.
use cap_rail.Indexer.Events.{
  IndexEvent, company_created, investor_status_set, offer_accepted, offer_cancelled, offer_created,
  policy_set, roles_set, token_created, transfer_allowed,
}
use cap_rail.Indexer.Readers.Field.{
  Fields, big, bool, jurisdiction, num, policy, pubkey, status, str, unix,
}
use cap_rail.Prelude.{List, String, [], ◌∷◌}
use cap_rail.Result.{Result, ok, ◌>>=◌}

unfoldable pub company_created_of : Fields → Result IndexEvent
unfolding pubkey big str
company_created_of d = do
  company ← pubkey d "company"
  company_id ← big d "companyId"
  admin ← pubkey d "admin"
  compliance_officer ← pubkey d "complianceOfficer"
  name ← str d "name"
  ok (
      company_created (record {
        company = company;
        company_id = company_id;
        admin = admin;
        compliance_officer = compliance_officer;
        name = name;
      }))

unfoldable pub token_created_of : Fields → Result IndexEvent
unfolding pubkey big str num policy
token_created_of d = do
  company ← pubkey d "company"
  mint ← pubkey d "mint"
  treasury ← pubkey d "treasury"
  name ← str d "name"
  symbol ← str d "symbol"
  decimals ← num d "decimals"
  total_supply ← big d "totalSupply"
  transfer_policy ← policy d "policy"
  policy_version ← num d "policyVersion"
  ok (
      token_created (record {
        company = company;
        mint = mint;
        treasury = treasury;
        name = name;
        symbol = symbol;
        decimals = decimals;
        total_supply = total_supply;
        policy = transfer_policy;
        policy_version = policy_version;
      }))

unfoldable pub policy_set_of : Fields → Result IndexEvent
unfolding pubkey num policy unix
policy_set_of d = do
  company ← pubkey d "company"
  mint ← pubkey d "mint"
  transfer_policy ← policy d "policy"
  policy_version ← num d "policyVersion"
  set_at ← unix d "setAt"
  ok (
      policy_set (record {
        company = company;
        mint = mint;
        policy = transfer_policy;
        policy_version = policy_version;
        set_at = set_at;
      }))

unfoldable pub roles_set_of : Fields → Result IndexEvent
unfolding pubkey unix
roles_set_of d = do
  company ← pubkey d "company"
  admin ← pubkey d "admin"
  compliance_officer ← pubkey d "complianceOfficer"
  set_at ← unix d "setAt"
  ok (
      roles_set (record {
        company = company;
        admin = admin;
        compliance_officer = compliance_officer;
        set_at = set_at;
      }))

unfoldable pub investor_status_set_of : Fields → Result IndexEvent
unfolding pubkey num status unix jurisdiction
investor_status_set_of d = do
  company ← pubkey d "company"
  mint ← pubkey d "mint"
  wallet ← pubkey d "wallet"
  investor_status ← status d "status"
  expires_at ← unix d "expiresAt"
  code ← jurisdiction d "jurisdiction"
  investor_type ← num d "investorType"
  updated_at ← unix d "updatedAt"
  updated_by ← pubkey d "updatedBy"
  ok (
      investor_status_set (record {
        company = company;
        mint = mint;
        wallet = wallet;
        status = investor_status;
        expires_at = expires_at;
        jurisdiction = code;
        investor_type = investor_type;
        updated_at = updated_at;
        updated_by = updated_by;
      }))

unfoldable pub transfer_allowed_of : Fields → Result IndexEvent
unfolding pubkey big bool num
transfer_allowed_of d = do
  company ← pubkey d "company"
  mint ← pubkey d "mint"
  source ← pubkey d "source"
  destination ← pubkey d "destination"
  source_owner ← pubkey d "sourceOwner"
  destination_owner ← pubkey d "destinationOwner"
  amount ← big d "amount"
  from_treasury ← bool d "fromTreasury"
  policy_version ← num d "policyVersion"
  ok (
      transfer_allowed (record {
        company = company;
        mint = mint;
        source = source;
        destination = destination;
        source_owner = source_owner;
        destination_owner = destination_owner;
        amount = amount;
        from_treasury = from_treasury;
        policy_version = policy_version;
      }))

unfoldable pub offer_created_of : Fields → Result IndexEvent
unfolding pubkey big unix
offer_created_of d = do
  offer ← pubkey d "offer"
  company ← pubkey d "company"
  mint ← pubkey d "mint"
  seller ← pubkey d "seller"
  offer_id ← big d "offerId"
  amount ← big d "amount"
  price_per_unit ← big d "pricePerUnit"
  payment_mint ← pubkey d "paymentMint"
  rofr_until ← unix d "rofrUntil"
  created_at ← unix d "createdAt"
  ok (
      offer_created (record {
        offer = offer;
        company = company;
        mint = mint;
        seller = seller;
        offer_id = offer_id;
        amount = amount;
        price_per_unit = price_per_unit;
        payment_mint = payment_mint;
        rofr_until = rofr_until;
        created_at = created_at;
      }))

unfoldable pub offer_accepted_of : Fields → Result IndexEvent
unfolding pubkey big unix
offer_accepted_of d = do
  offer ← pubkey d "offer"
  company ← pubkey d "company"
  mint ← pubkey d "mint"
  seller ← pubkey d "seller"
  buyer ← pubkey d "buyer"
  offer_id ← big d "offerId"
  amount ← big d "amount"
  price_per_unit ← big d "pricePerUnit"
  payment ← big d "payment"
  fee ← big d "fee"
  payment_mint ← pubkey d "paymentMint"
  remaining ← big d "remaining"
  accepted_at ← unix d "acceptedAt"
  ok (
      offer_accepted (record {
        offer = offer;
        company = company;
        mint = mint;
        seller = seller;
        buyer = buyer;
        offer_id = offer_id;
        amount = amount;
        price_per_unit = price_per_unit;
        payment = payment;
        fee = fee;
        payment_mint = payment_mint;
        remaining = remaining;
        accepted_at = accepted_at;
      }))

unfoldable pub offer_cancelled_of : Fields → Result IndexEvent
unfolding pubkey big bool unix
offer_cancelled_of d = do
  offer ← pubkey d "offer"
  mint ← pubkey d "mint"
  seller ← pubkey d "seller"
  offer_id ← big d "offerId"
  remaining ← big d "remaining"
  delegation_revoked ← bool d "delegationRevoked"
  cancelled_at ← unix d "cancelledAt"
  ok (
      offer_cancelled (record {
        offer = offer;
        mint = mint;
        seller = seller;
        offer_id = offer_id;
        remaining = remaining;
        delegation_revoked = delegation_revoked;
        cancelled_at = cancelled_at;
      }))

-- `READERS`, under the IDL's camelCase names.
abbrev pub readers : List (String × (Fields → Result IndexEvent))
readers =
    ("companyCreated", company_created_of)
    ∷ ("tokenCreated", token_created_of)
    ∷ ("policySet", policy_set_of)
    ∷ ("rolesSet", roles_set_of)
    ∷ ("investorStatusSet", investor_status_set_of)
    ∷ ("transferAllowed", transfer_allowed_of)
    ∷ ("offerCreated", offer_created_of)
    ∷ ("offerAccepted", offer_accepted_of)
    ∷ ("offerCancelled", offer_cancelled_of)
    ∷ []

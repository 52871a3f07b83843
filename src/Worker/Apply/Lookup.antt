-- ===== src/Worker/Apply/Lookup.antt =====
-- apps/worker/src/apply.ts: what the handlers look up, in memory, in the index, on the chain.
pub mod Reads
use cap_rail.Indexer.Parse.{ProgramTransaction}
use cap_rail.Indexer.Readers.{Coder}
use cap_rail.Prelude.{
  Bool, List, Option, String, ℕ, [], false, if◌then◌else◌, is_none, leb, none, not, some, ◌&&◌, ◌*◌,
  ◌+◌, ◌===◌, ◌||◌, ◌∷◌,
}
use cap_rail.Prelude.Int.{ℤ, negsuc, pos}
use cap_rail.Result.{Result, not_indexed_yet}
use cap_rail.Worker.Act.{
  Act, Memory, gets, learn, lift, or_fail, pure, remembers, throw, ◌>>=◌, ◌>>◌,
}
use cap_rail.Worker.Store.{Holding, OfferChange, OfferRef, TokenRef}
use cap_rail.Worker.Store

pub record Balance : Type 0 where
  pub amount : ℕ
  pub slot : ℕ

-- What a handler gives back to be remembered once its writes are committed.
abbrev pub Lesson : Type 0
Lesson = Memory → Memory

-- What the applier is given: the RPC, the program's coder, the derivation of token accounts, the clock, and
-- the database's transactions, which run a body.
pub record Chain : Type 0 where
  pub coder : Coder
  pub transaction : String → Result (Option ProgramTransaction)
  pub token_account_owner : String → Result (Option String)
  pub token_account_balance : String → Result (Option Balance)
  pub ata : String → String → String
  pub now : ℤ
  pub in_transaction : Act Lesson → Act Lesson

abbrev pub journal_log_lines : ℕ
journal_log_lines = 20

-- An instant in seconds as one in milliseconds.
unfoldable pub unix : ℤ → ℤ
unix (pos seconds) = pos (seconds * 1000)
unix (negsuc seconds) = negsuc (seconds * 1000 + 999)

pub record Ctx : Type 0 where
  pub signature : String
  pub slot : ℕ
  pub block_time : ℤ
  pub logs : List String

unfoldable pub covered : Option Holding → Ctx → Bool
covered none ctx = false
covered (some known) ctx = not (is_none known.verified_at) && leb ctx.slot known.last_slot

unfoldable pub needs_fetch : ProgramTransaction → Bool
needs_fetch tx = is_none tx.block_time || (tx.failed && is_none tx.instructions)

-- `map.get(key)`
abbrev recall : {V : Type 0} → String → List (String × V) → Option V
recall name [] = none
recall name ((name', value) ∷ rest) = if name' === name then some value else recall name rest

abbrev pub remember_company : String → ℕ → Memory → Memory
remember_company company company_id memory = record memory {
  company_ids = (company, company_id) ∷ memory.company_ids;
}

abbrev pub remember_token : String → TokenRef → Memory → Memory
remember_token mint token memory = record memory { tokens = (mint, token) ∷ memory.tokens }

abbrev pub remember_owner : String → String → Memory → Memory
remember_owner account owner memory = record memory { owners = (account, owner) ∷ memory.owners }

-- `companyIds.get(company)`, else the index, whose answer is remembered at once.
found_company : String → Option ℕ → Act ℕ
found_company company none = throw (not_indexed_yet "company" company)
found_company company (some company_id) = do
  learn (remember_company company company_id)
  pure company_id

looked_up_company : String → Option ℕ → Act ℕ
unfolding found_company
looked_up_company company (some cached) = pure cached
looked_up_company company none = do
  found ← gets (Store.company_id_of company)
  found_company company found

unfoldable pub company_id_of : String → Act ℕ
unfolding looked_up_company
company_id_of company = do
  cached ← remembers (λ memory. recall company memory.company_ids)
  looked_up_company company cached

found_token : String → Option TokenRef → Act (Option TokenRef)
found_token mint none = pure none
found_token mint (some token) = do learn (remember_token mint token); pure (some token)

looked_up_token : String → Option TokenRef → Act (Option TokenRef)
unfolding found_token
looked_up_token mint (some cached) = pure (some cached)
looked_up_token mint none = do found ← gets (Store.token_of mint); found_token mint found

unfoldable pub token_of : String → Act (Option TokenRef)
unfolding looked_up_token
token_of mint = do
  cached ← remembers (λ memory. recall mint memory.tokens)
  looked_up_token mint cached

unfoldable pub known_token_of : String → Act TokenRef
unfolding token_of
known_token_of mint = do found ← token_of mint; or_fail found (not_indexed_yet "mint" mint)

unfoldable pub known_offer_of : String → Act OfferRef
known_offer_of offer = do
  found ← gets (Store.offer_of offer)
  or_fail found (not_indexed_yet "offer" offer)

-- The first wallet of a list whose associated token account this is.
owner_among : (String → String) → String → List String → Option String
owner_among ata_of account [] = none
owner_among ata_of account (wallet ∷ wallets) =
    if ata_of wallet === account then some wallet else owner_among ata_of account wallets

learned_owner : String → Option String → Act (Option String)
learned_owner account none = pure none
learned_owner account (some owner) = do learn (remember_owner account owner); pure (some owner)

owner_on_chain : Chain → String → Option String → Act (Option String)
unfolding learned_owner
owner_on_chain c account (some wallet) = learned_owner account (some wallet)
owner_on_chain c account none = do
  owner ← lift (c.token_account_owner account)
  learned_owner account owner

looked_up_owner : Chain → String → String → Option String → Act (Option String)
unfolding owner_among owner_on_chain
looked_up_owner c mint account (some cached) = pure (some cached)
looked_up_owner c mint account none = do
  wallets ← gets (Store.wallets_of mint)
  owner_on_chain c account (owner_among (λ wallet. c.ata wallet mint) account wallets)

unfoldable pub account_owner : Chain → String → String → Act (Option String)
unfolding looked_up_owner
account_owner c mint account = do
  cached ← remembers (λ memory. recall account memory.owners)
  looked_up_owner c mint account cached

-- ===== src/Lib.antt =====
-- CapRail keeps an index of what two Solana programs do: companies, share tokens with a transfer
-- policy, a registry of investors, a journal of allowed and refused transfers, holdings, and a
-- secondary market of offers and trades. The worker fills the index from the chain: a subscription
-- and a backfill deliver transactions, a pipeline handles them one at a time, a parser turns logs
-- into events, and the applier writes rows in one database transaction. A sweep reads the sellers'
-- token accounts and judges how much of each open offer can be delivered.
--
-- Files and the code they model:
--   Indexer/Text, Logs: packages/indexer/src/logs.ts (attributeLogs, eventData, anchorError,
--     failedInstructionIndex), its regular expressions as functions on characters
--   Indexer/Events, Readers (Field, Records): packages/indexer/src/events.ts (the event types, READERS, decodeEvent);
--     Anchor's coder is the parameter Coder
--   Indexer/Parse: packages/indexer/src/parse.ts (parseTransaction) and the types of index.ts; each
--     file beside a modelled one (Parse/Outcome, Shared/Admission, Pipeline/Laws) has its theorems
--   Indexer/Response: packages/indexer/src/transaction.ts (fromTransactionResponse)
--   Shared/Market, Vesting, Reasons: packages/shared/src/market.ts, vesting.ts, reasons.ts
--   Table: insert, update and upsert on tables as lists of rows
--   Worker/Rows: the columns of packages/db/src/schema.ts that the worker writes
--   Worker/Store: apps/worker/src/index-store.ts, one function per operation of IndexWriter
--   Worker/Act: handlers as functions of the index, the applier's memory and the log, which return
--     or throw; Act/Keeps and Act/Leaves have the rules for invariants of the index
--   Worker/Apply: apps/worker/src/apply.ts (Lookup: companyIdOf, tokenOf, accountOwner; Mirror: the
--     events of companies, tokens, policies, roles and investors; Transfer; Market; Handler: the
--     refusals, the dispatch and the handler); the RPC calls, the clock, ata, the coder and the
--     transactions of the database are the record Chain
--   Worker/Stale: apps/worker/src/stale.ts and offerBook of index-store.ts
--   Worker/Pipeline: apps/worker/src/pipeline.ts; Worker/Backfill: apps/worker/src/backfill.ts;
--     Worker/Run: backfillPass of apps/worker/src/run.ts, which runs the two over its RPCs (Flaky and Repeats
--     have the lemmas of Fallback; PassedOver is a transaction that throws, and the pass after it)
--   Shared/Digits, Shared/Base58, Shared/Curve: encodeBase58 and decodeBase58, and isOnCurve with the tests of
--     wallets and addresses, of packages/shared/src/primitives.ts (Curve/Congruence and Power: its arithmetic)
--   Client/Quote: platformFee of packages/chain/src/tx/platform.ts, validateOfferTerms and quoteOffer of
--     tx/offers.ts; Client/Plan: tx/plan.ts; Client/Seeds: pda.ts, its search for an address a parameter
--   Api/RateLimit: apps/api/src/middleware/rate-limit.ts; Api/Nonces: apps/api/src/auth/nonce-store.ts
--   Api/Journal: the journal's pages, the texts of their cursors and pairTrades of
--     apps/api/src/index/reader.ts
--   Api/Views, Api/Feed: the records of rows and the feed of apps/api/src/index/reader.ts; Feed/Growth: tables
--     that grow between polls (Joins, Keys, Late, Numbers, Order, Policies and Arrivals have the proofs)
--   Api/CapTable, Positions, Queries: the cap table, the cabinet, and the queries of memberships, companies,
--     registries and offers with the report of an attempt, of apps/api/src/index/reader.ts
--   Api/Market: marketOffers of the same file, caprail_admits of packages/db/migrations and admits of
--     apps/api/src/index/memory-reader.ts
--   Api/Poller: createFeed of apps/api/src/index/feed.ts as a state machine (Entries, Stays, Heard, Stream,
--     Busy and Watched have the proofs; Stream joins it with the reader)
--   Panel/Feed: apps/web/src/company/feed.ts, the panel's cached reads under the events of the feed,
--     and its hook (Feed/Hook), with JSON and the schema of an event as a parameter
--   Panel/Sse: createSseParser of apps/web/src/api/sse.ts; Panel/Connection: its openEventStream, which
--     gives each connection a new parser; Panel/Amounts: apps/web/src/company/fields.ts
--     and market/money.ts; Panel/Offer: market/offer.ts, beside the offers that the worker keeps sound
--   Tests: the theorems at concrete inputs
--
-- Numbers: u64 amounts and slots are natural numbers, i64 instants are integers; a Date is a number
-- of milliseconds, and the limits of Date are not modelled. The loop of the backfill runs on fuel,
-- one unit for a page; a unit more than there are signatures newer than the cursor is enough. The
-- loops that write a number in a base run on the number itself as fuel, that of the curve test's
-- powers on the exponent, and the loop of the event stream on the length of its buffer, of which each
-- turn takes something off. The panel's amounts are natural numbers; a text is a string where its
-- characters only are compared, and the list of its code units in Panel and in the texts of cursors.
-- The clock of the rate limiter counts milliseconds from the epoch.
--
-- Not modelled: row level security, triggers, foreign keys and the revision sequence of the database
-- (the growth of the tables of a feed states what serial ids and that sequence give); a failed check
-- of the schema as an error (the checks of the table of offers are the predicate SoundOffers
-- instead); timers and connections but those of the panel's event stream; the subscription, so what
-- it delivers while a backfill pass is under way; of the reader, its double over arrays in
-- memory-reader.ts; the rest of the API, of the web panel and of the chain client (routes, sessions,
-- screens, builders of instructions), and the programs. The order of texts in the database is a
-- parameter of the sweep and of the reads, and so is what other transactions write while the sweep
-- reads.
pub mod Prelude
pub mod Table
pub mod Result
pub mod Shared
pub mod Indexer
pub mod Worker
pub mod Client
pub mod Api
pub mod Panel
pub mod Tests

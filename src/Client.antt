-- ===== src/Client.antt =====
-- packages/chain: what the builders of transactions compute before anything is signed.
pub mod Quote
pub mod Plan
pub mod Seeds

-- ===== src/Worker/Apply.antt =====
-- apps/worker/src/apply.ts: one transaction of the chain applied to the index. The three RPC calls,
-- the clock, `ata` and Anchor's coder are the parameter `Chain` of Worker/Apply/Lookup.
pub mod Offers
pub mod Lookup
pub mod Mirror
pub mod Transfer
pub mod Market
pub mod Handler
pub mod Replay

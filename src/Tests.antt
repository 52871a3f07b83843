-- ===== src/Tests.antt =====
-- Tests: each theorem that has hypotheses, at a concrete input that meets them.
pub mod Data
pub mod Applier
pub mod Market
pub mod Streams
pub mod Parser
pub mod Primitives
pub mod Api
pub mod Panel
pub mod Feed
pub mod Reader
pub mod Connections

-- ===== src/Indexer.antt =====
-- packages/indexer: a transaction's logs and instructions in, typed records out.
pub mod Text
pub mod Logs
pub mod Events
pub mod Readers
pub mod Parse
pub mod Response

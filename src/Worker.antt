-- ===== src/Worker.antt =====
-- apps/worker: follows the chain and fills the index.
pub mod Rows
pub mod Store
pub mod Act
pub mod Apply
pub mod Stale
pub mod Pipeline
pub mod Backfill
pub mod Run

-- ===== src/Panel.antt =====
-- apps/web: the state behind the panel's screens.
pub mod Feed
pub mod Sse
pub mod Amounts
pub mod Offer
pub mod Connection

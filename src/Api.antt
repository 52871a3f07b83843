-- ===== src/Api.antt =====
-- apps/api: the limits and the nonces of the API, the reads of the index, and the feed of a company.
pub mod RateLimit
pub mod Nonces
pub mod Journal
pub mod Views
pub mod Feed
pub mod Poller
pub mod CapTable
pub mod Positions
pub mod Queries
pub mod Market

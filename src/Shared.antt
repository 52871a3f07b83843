-- ===== src/Shared.antt =====
-- packages/shared: the words that the index, the API and the panel share.
pub mod Base58
pub mod Curve
pub mod Digits
pub mod Market
pub mod Admission
pub mod Vesting
pub mod Reasons

-- ===== src/Common.antt =====
-- crates/common: errors, results, amounts, finality, backoff, addresses and
-- the configuration.
pub mod Error
pub mod Result
pub mod Money
pub mod Finality
pub mod Retry
pub mod Address
pub mod Config

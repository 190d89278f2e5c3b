-- ===== src/Models.antt =====
-- crates/database/src/models.rs: the state machines of deposits and withdrawals, the types of
-- ledger accounts, and assets.
pub mod Deposit
pub mod Withdrawal
pub mod AccountType
pub mod Asset
pub mod Machines

-- ===== src/Ledger.antt =====
-- crates/ledger: postings, the ledger tables with their triggers, and the domain operations.
pub mod Posting
pub mod Tables
pub mod Service
pub mod Accounts
pub mod Operations

-- ===== src/Withdrawals.antt =====
-- crates/withdrawals with crates/database/src/repo/withdrawals.rs. The code: the statements on the
-- rows (Nonce, Rows, Requests), the service (Service), the transactions of the pipeline (Transactions)
-- and its passes (Pipeline) over tables and a network (Chain, World). The other modules are proofs.
pub mod Nonce
pub mod Rows
pub mod Requests
pub mod Service
pub mod Chain
pub mod Transactions
pub mod World
pub mod Pipeline
pub mod Advance
pub mod Update
pub mod Progress
pub mod Creation
pub mod Steps
pub mod Passes
pub mod History
pub mod Single
pub mod Durable
pub mod Handover
pub mod Outcome
pub mod Settlement
pub mod Resend
pub mod Replay

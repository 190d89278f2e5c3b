-- ===== src/Tests.antt =====
-- Concrete inputs: each theorem of the results with hypotheses is applied to one.
mod Ledger
mod Deposits
mod Payments
mod Passes
mod Histories
mod Config
mod Consumer
mod Common
mod Models
mod Rpc
mod Withdrawals
mod Moves

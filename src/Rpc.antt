-- ===== src/Rpc.antt =====
-- crates/rpc: the health of endpoints.
pub mod Health

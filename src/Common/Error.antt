-- ===== src/Common/Error.antt =====
-- crates/common/src/error.rs. A message made for people is left out of an error; what the code
-- branches on or returns as a machine-readable code is kept.
use chain_rail.Base.{Bool, true, false, ◌≡◌, Text, codes, arith}

pub data Error : Type 0 where
  amount_overflow invalid_amount amount_exceeds_representable_range : Error
  validation unsupported_chain unsupported_asset invalid_address : Error
  not_found conflict insufficient_balance invalid_state_transition : Error
  unbalanced_ledger_transaction : Error
  policy_denied : Text → Error
  idempotency_key_conflict : Error
  database cache event_bus rpc no_healthy_rpc_endpoint signer config : Error
  timeout unavailable rate_limited internal : Error

-- `Error::code`
pub code : Error → Text
code Error.amount_overflow = codes "amount_overflow"
code Error.invalid_amount = codes "invalid_amount"
code Error.amount_exceeds_representable_range = codes "amount_out_of_range"
code Error.validation = codes "validation_error"
code Error.unsupported_chain = codes "unsupported_chain"
code Error.unsupported_asset = codes "unsupported_asset"
code Error.invalid_address = codes "invalid_address"
code Error.not_found = codes "not_found"
code Error.conflict = codes "conflict"
code Error.insufficient_balance = codes "insufficient_balance"
code Error.invalid_state_transition = codes "invalid_state_transition"
code Error.unbalanced_ledger_transaction = codes "unbalanced_ledger_transaction"
code (Error.policy_denied c) = codes "policy_denied"
code Error.idempotency_key_conflict = codes "idempotency_key_conflict"
code Error.database = codes "database_error"
code Error.cache = codes "cache_error"
code Error.event_bus = codes "event_bus_error"
code Error.rpc = codes "rpc_error"
code Error.no_healthy_rpc_endpoint = codes "no_healthy_rpc_endpoint"
code Error.signer = codes "signer_error"
code Error.config = codes "config_error"
code Error.timeout = codes "timeout"
code Error.unavailable = codes "service_unavailable"
code Error.rate_limited = codes "rate_limited"
code Error.internal = codes "internal_error"

-- `Error::is_retryable`
unfoldable pub is_retryable : Error → Bool
is_retryable Error.database = true
is_retryable Error.cache = true
is_retryable Error.event_bus = true
is_retryable Error.rpc = true
is_retryable Error.no_healthy_rpc_endpoint = true
is_retryable Error.timeout = true
is_retryable Error.unavailable = true
is_retryable Error.rate_limited = true
is_retryable _ = false

-- `Error::is_client_error`
unfoldable pub is_client_error : Error → Bool
is_client_error Error.invalid_amount = true
is_client_error Error.amount_exceeds_representable_range = true
is_client_error Error.validation = true
is_client_error Error.unsupported_chain = true
is_client_error Error.unsupported_asset = true
is_client_error Error.invalid_address = true
is_client_error Error.not_found = true
is_client_error Error.conflict = true
is_client_error Error.insufficient_balance = true
is_client_error Error.invalid_state_transition = true
is_client_error (Error.policy_denied c) = true
is_client_error Error.idempotency_key_conflict = true
is_client_error Error.rate_limited = true
is_client_error _ = false

-- The only error that a client may retry unchanged and that is the client's own fault is the rate
-- limit: an error that is both retryable and a client error is `rate_limited`.
pub retryable_client_error :
    (e : Error) → is_retryable e ≡ true → is_client_error e ≡ true → e ≡ Error.rate_limited
unfolding is_retryable is_client_error
retryable_client_error e r c = ground arith

-- ===== src/Rpc/Health.antt =====
-- crates/rpc/src/health.rs: the circuit breaker of an endpoint and its latency average. Instants and
-- durations are nanoseconds, as numbers without a bound; the u32 and u64 counters wrap around. The
-- floating-point score and failure rate are left out.
pub mod Breaker
use chain_rail.Base.{
  ℕ, ◌+◌, ◌-◌, ◌*◌, ◌/◌, ◌%◌, ◌^◌, min, Bool, true, false, ◌&&◌, ◌||◌, Option, none, some, leb,
  if◌then◌else◌, Text, codes,
}

pub data BreakerState : Type 0 where
  closed : BreakerState
  opened : ℕ → BreakerState
  half_open : BreakerState

pub label : BreakerState → Text
label BreakerState.closed = codes "closed"
label (BreakerState.opened until) = codes "open"
label BreakerState.half_open = codes "half_open"

pub record HealthConfig : Type 0 where
  pub failure_threshold : ℕ
  pub reset_timeout : ℕ
  pub latency_alpha_pct : ℕ
  pub success_threshold : ℕ

abbrev pub default_config : HealthConfig
default_config = record {
  failure_threshold = 5;
  reset_timeout = 10000000000;
  latency_alpha_pct = 20;
  success_threshold = 2;
}

pub record EndpointHealth : Type 0 where
  pub cfg : HealthConfig
  pub state : BreakerState
  pub consecutive_failures : ℕ
  pub consecutive_successes : ℕ
  pub total_requests : ℕ
  pub total_failures : ℕ
  pub ewma_latency_us : Option ℕ
  pub last_success : Option ℕ
  pub last_failure : Option ℕ

abbrev pub new : HealthConfig → EndpointHealth
new cfg = record {
  cfg = cfg;
  state = BreakerState.closed;
  consecutive_failures = 0;
  consecutive_successes = 0;
  total_requests = 0;
  total_failures = 0;
  ewma_latency_us = none;
  last_success = none;
  last_failure = none;
}

-- A u32 or u64 counter, one up.
abbrev pub up_u32 : ℕ → ℕ
up_u32 n = (n + 1) % 2 ^ 32

abbrev pub up_u64 : ℕ → ℕ
up_u64 n = (n + 1) % 2 ^ 64

abbrev pub is_half_open : BreakerState → Bool
is_half_open BreakerState.half_open = true
is_half_open _ = false

-- The half of `allows_request` for an open breaker.
abbrev pub probe : ℕ → ℕ → EndpointHealth → Bool × EndpointHealth
probe until now h =
    if leb until now
    then (true, record h { state = BreakerState.half_open; consecutive_successes = 0 })
    else (false, h)

-- `allows_request`
abbrev pub allows_in : BreakerState → ℕ → EndpointHealth → Bool × EndpointHealth
allows_in BreakerState.closed now h = (true, h)
allows_in BreakerState.half_open now h = (true, h)
allows_in (BreakerState.opened until) now h = probe until now h

pub allows_request : ℕ → EndpointHealth → Bool × EndpointHealth
allows_request now h = allows_in h.state now h

-- The latency average in microseconds.
abbrev pub blend : ℕ → ℕ → Option ℕ → ℕ
blend alpha sample none = sample
blend alpha sample (some prev) =
    min ((sample * min alpha 100 + prev * (100 - min alpha 100)) / 100) (2 ^ 64 - 1)

-- `latency.as_micros()`, cut off at u64::MAX
abbrev pub sample_us : ℕ → ℕ
sample_us latency = min (latency / 1000) (2 ^ 64 - 1)

pub record_success : ℕ → ℕ → EndpointHealth → EndpointHealth
record_success latency now h =
    let successes = up_u32 h.consecutive_successes in
    record h {
      total_requests = up_u64 h.total_requests;
      consecutive_failures = 0;
      consecutive_successes = successes;
      last_success = some now;
      ewma_latency_us = some (blend h.cfg.latency_alpha_pct (sample_us latency) h.ewma_latency_us);
      state =
          if is_half_open h.state && leb h.cfg.success_threshold successes
          then BreakerState.closed
          else h.state;
    }

unfoldable pub record_failure : ℕ → EndpointHealth → EndpointHealth
record_failure now h =
    let failures = up_u32 h.consecutive_failures in
    record h {
      total_requests = up_u64 h.total_requests;
      total_failures = up_u64 h.total_failures;
      consecutive_failures = failures;
      consecutive_successes = 0;
      last_failure = some now;
      state =
          if is_half_open h.state || leb h.cfg.failure_threshold failures
          then BreakerState.opened (now + h.cfg.reset_timeout)
          else h.state;
    }

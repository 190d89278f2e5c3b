-- ===== src/Tests/Rpc.antt =====
-- An endpoint whose breaker opens at the third failure.
use chain_rail.Base.{◌≡◌, refl, ◌≤◌, ◌<◌, min, max, false, [], ◌∷◌, some, arith, ◌^◌}
use chain_rail.Rpc.Health.{
  BreakerState, HealthConfig, EndpointHealth, new, default_config, allows_request, record_failure,
  blend,
}
use chain_rail.Rpc.Health.Breaker.{
  Event, run, failures, opened_blocks, opens_at_threshold, blend_bounds,
}

abbrev config : HealthConfig
config = record default_config { failure_threshold = 3; reset_timeout = 10 }

abbrev twice : EndpointHealth
twice = run (failures (1 ∷ 2 ∷ [])) (new config)

third_opens : (record_failure 3 twice).state ≡ BreakerState.opened 13
unfolding record_failure
third_opens = refl

opened_blocks_example :
    (allows_request 12
      (run (Event.asked 4 ∷ Event.succeeded 1 5 ∷ Event.failed 6 ∷ []) (record_failure 3 twice))).0
    ≡ false
unfolding record_failure
opened_blocks_example =
    opened_blocks twice 3 12 (Event.asked 4 ∷ Event.succeeded 1 5 ∷ Event.failed 6 ∷ []) third_opens
      ((omega arith, omega arith), ((omega arith, omega arith), ((omega arith, omega arith), tt)))
      (omega arith)

opens_at_threshold_example :
    (twice.state ≡ BreakerState.closed) × ((record_failure 3 twice).state ≡ BreakerState.opened 13)
opens_at_threshold_example =
    opens_at_threshold (new config) (1 ∷ 2 ∷ []) 3 refl refl refl (omega arith)

blend_bounds_example :
    (min 800 20 ≤ blend 20 800 (some 20))
    × (blend 20 800 (some 20) ≤ max 800 20)
    × (blend 20 800 (some 20) < 2 ^ 64)
blend_bounds_example = blend_bounds 20 800 20 (omega arith) (omega arith)

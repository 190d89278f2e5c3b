-- ===== src/Events/Consumer.antt =====
-- `ConsumerRunner::process` of crates/events/src/consumer.rs, with `was_processed` and
-- `record_dead_letter` of crates/database/src/repo/outbox.rs. A handler reads and writes tables of a
-- type `S`. What the connection pool answers a statement outside a transaction (`pool`) and the
-- floating-point product of the jitter (`scale`) are parameters. The text of an error is left out.
pub mod Delivery
use chain_rail.Base.{
  ℕ, zero, suc, ◌+◌, ◌-◌, ◌^◌, Bool, true, false, ◌&&◌, List, [], ◌∷◌, Option, none, some, Text,
  text_eq, ltb, leb, ◌==◌, if◌then◌else◌, ℤ, pos, ◌-ℤ◌, any,
}
use chain_rail.Common.Error.{Error}
use chain_rail.Common.Result.{Result, ok, err}
use chain_rail.Common.Config.{KafkaConfig}
use chain_rail.Common.Retry.{Backoff, delay_with_jitter}
use chain_rail.Events.{EventEnvelope, is_supported_version, topic, event_type}

pub data HandlerOutcome : Type 0 where
  done : HandlerOutcome
  rejected : HandlerOutcome

-- `EventHandler`, and the pairs of a consumer and an event in `processed_events`.
pub record EventHandler (S : Type 0) : Type 0 where
  pub name : Text
  pub handle : EventEnvelope → S → Result HandlerOutcome × S
  pub processed : S → List (Text × ℕ)

pub record DeadLetter : Type 0 where
  pub source_topic : Text
  pub consumer : Option Text
  pub event_id : Option ℕ
  pub event_type : Option Text
  pub payload : Text
  pub attempts : ℤ
  pub correlation_id : Option Text

-- The tables of the handler, the dead letters, the last first, how often the handler and the pool were
-- called, and how long the runner slept, in milliseconds.
pub record Desk (S : Type 0) : Type 0 where
  pub store : S
  pub dead_letters : List DeadLetter
  pub handled : ℕ
  pub calls : ℕ
  pub slept : ℕ

-- `attempt as i32`
abbrev pub as_i32 : ℕ → ℤ
as_i32 n = if ltb n (2 ^ 31) then pos n else pos n -ℤ pos (2 ^ 32)

-- `was_processed`
abbrev pub was_processed : Text → ℕ → List (Text × ℕ) → Bool
was_processed consumer event rows =
    any (λ (row : Text × ℕ). text_eq row.0 consumer && row.1 == event) rows

-- `Backoff::new`, which takes the jitter from the default.
abbrev pub backoff_of : KafkaConfig → Backoff
backoff_of cfg = record {
  base = cfg.retry_backoff_base_ms;
  max = cfg.retry_backoff_max_ms;
  max_attempts = cfg.max_delivery_attempts;
  jitter_pct = 50;
}

-- The loop runs once at least, and stops at the configured number of attempts.
abbrev pub budget : KafkaConfig → ℕ
budget cfg = suc (cfg.max_delivery_attempts - 1)

module _ {S : Type 0} (pool : ℕ → Result (Unit {0})) (scale : ℕ → ℕ → ℕ) (cfg : KafkaConfig)
    (handler : EventHandler S) where
  abbrev pub letter : EventEnvelope → Text → ℕ → DeadLetter
  letter e raw attempts = record {
    source_topic = topic e.payload;
    consumer = some handler.name;
    event_id = some e.event_id;
    event_type = some e.event_type;
    payload = raw;
    attempts = as_i32 attempts;
    correlation_id = some e.correlation_id;
  }

  -- `record_dead_letter`, where the pool answers so.
  abbrev pub write_letter : Result (Unit {0}) → DeadLetter → Desk S → Result (Unit {0}) × Desk S
  write_letter (err x) l d = (err x, record d { calls = d.calls + 1 })
  write_letter (ok u) l d =
      (ok tt, record d { dead_letters = l ∷ d.dead_letters; calls = d.calls + 1 })

  -- `dead_letter`
  unfoldable pub dead_letter : EventEnvelope → Text → ℕ → Desk S → Result (Unit {0}) × Desk S
  dead_letter e raw attempts d = write_letter (pool d.calls) (letter e raw attempts) d

  abbrev pub slept : ℕ → Desk S → Desk S
  slept attempt d = record d {
    slept = d.slept + delay_with_jitter (backoff_of cfg) attempt (scale attempt);
  }

  -- The `match` on the outcome of an attempt; `again` goes on with the loop.
  unfoldable pub conclude_attempt :
      EventEnvelope
      → Text
      → ℕ
      → (Desk S → Option (Result (Unit {0}) × Desk S))
      → Result HandlerOutcome
      → Desk S
      → Option (Result (Unit {0}) × Desk S)
  conclude_attempt e raw attempt again (ok HandlerOutcome.done) d = some (ok tt, d)
  conclude_attempt e raw attempt again (ok HandlerOutcome.rejected) d =
      some (dead_letter e raw attempt d)
  conclude_attempt e raw attempt again (err x) d =
      if leb cfg.max_delivery_attempts attempt
      then some (dead_letter e raw attempt d)
      else again (slept attempt d)

  -- An attempt: the handler runs on the tables.
  abbrev pub attempted : EventEnvelope → Desk S → Desk S
  attempted e d = record d { store = (handler.handle e d.store).1; handled = d.handled + 1 }

  -- The loop, after `attempt` attempts.
  unfoldable pub deliver :
      ℕ → EventEnvelope → Text → ℕ → Desk S → Option (Result (Unit {0}) × Desk S)
  deliver zero e raw attempt d = none
  deliver (suc fuel) e raw attempt d =
      conclude_attempt e raw (attempt + 1) (deliver fuel e raw (attempt + 1))
        (handler.handle e d.store).0 (attempted e d)

  -- The look at `processed_events`, where the pool answers so.
  unfoldable pub deliver_new :
      EventEnvelope → Text → Result (Unit {0}) → Desk S → Option (Result (Unit {0}) × Desk S)
  deliver_new e raw (err x) d = some (err x, d)
  deliver_new e raw (ok u) d =
      if was_processed handler.name e.event_id (handler.processed d.store)
      then some (ok tt, d)
      else deliver (budget cfg) e raw 0 d

  -- `process`
  unfoldable pub process : EventEnvelope → Text → Desk S → Option (Result (Unit {0}) × Desk S)
  process e raw d =
      if is_supported_version e
      then deliver_new e raw (pool d.calls) (record d { calls = d.calls + 1 })
      else some (dead_letter e raw 0 d)

-- ===== src/Tests/Consumer.antt =====
-- An event that a handler refuses twice and then takes.
use chain_rail.Base.{ℕ, zero, suc, ◌+◌, ◌*◌, ◌≤◌, ◌≡◌, refl, true, [], some, codes, pos}
use chain_rail.Common.Error.{Error}
use chain_rail.Common.Result.{Result, ok, err}
use chain_rail.Common.Config.{KafkaConfig}
use chain_rail.Common.Retry.{delay_with_jitter, with_jitter}
use chain_rail.Events.{EventEnvelope, EventPayload}
use chain_rail.Events.Consumer.{
  HandlerOutcome, EventHandler, Desk, process, deliver_new, deliver, conclude_attempt,
}
use chain_rail.Events.Consumer.Delivery.{Settled, process_terminates, process-Settled}

abbrev pub kafka : KafkaConfig
kafka = record {
  brokers = codes "k";
  consumer_group = codes "chainrail";
  topic_prefix = [];
  request_timeout_ms = 5000;
  max_delivery_attempts = 5;
  retry_backoff_base_ms = 500;
  retry_backoff_max_ms = 30000;
  use_outbox = true;
  outbox_poll_interval_ms = 1000;
  outbox_batch_size = pos 200;
}

abbrev pub event : EventEnvelope
event = record {
  event_id = 9;
  event_type = codes "deposit.confirmed";
  version = 1;
  correlation_id = codes "c";
  payload = EventPayload.deposit_confirmed (record {
    deposit_id = 3;
    chain = codes "c";
    user_id = 7;
    asset = codes "T";
    amount_raw = pos 100;
    confirmations = 12;
    tx_hash = codes "0xh";
    block_number = 20;
  });
}

-- The table of the handler is how often it will still refuse.
abbrev answer : ℕ → Result HandlerOutcome × ℕ
answer zero = (ok HandlerOutcome.done, zero)
answer (suc n) = (err Error.internal, n)

abbrev handler : EventHandler ℕ
handler = record { name = codes "h"; handle = λ e n. answer n; processed = λ n. [] }

abbrev pub pool : ℕ → Result (Unit {0})
pool n = ok tt

abbrev pub scale : ℕ → ℕ → ℕ
scale attempt span = 0

abbrev desk : Desk ℕ
desk = record { store = 2; dead_letters = []; handled = 0; calls = 0; slept = 0 }

abbrev later : Desk ℕ
later = record { store = 0; dead_letters = []; handled = 3; calls = 1; slept = 1125 }

processes : process pool scale kafka handler event [] desk ≡ some (ok tt, later)
unfolding process deliver_new deliver conclude_attempt delay_with_jitter with_jitter
processes = refl

process_terminates_example :
    (r : Result (Unit {0})) × (after : Desk ℕ) × (process pool scale kafka handler event [] desk
      ≡ some (r, after))
    × (after.handled ≤ 0 + 5)
    × (after.slept ≤ 0 + 4 * 30000)
process_terminates_example = process_terminates pool scale kafka handler event [] desk

process-Settled_example : Settled pool scale kafka handler event [] desk later (ok tt)
process-Settled_example =
    process-Settled pool scale kafka handler event [] desk later (ok tt) processes

-- ===== src/Events/Outbox.antt =====
-- crates/database/src/repo/outbox.rs: the rows of `outbox` and the statement that adds one.
use chain_rail.Base.{ℕ, Bool, List, ◌∷◌, Text, ◌==◌, if◌then◌else◌, any}
use chain_rail.Events.{EventEnvelope, topic, partition_key}

pub record OutboxRow : Type 0 where
  pub event_id : ℕ
  pub topic : Text
  pub partition_key : Text
  pub payload : EventEnvelope
  pub correlation_id : Text
  pub attempts : ℕ

abbrev pub has_event : ℕ → List OutboxRow → Bool
has_event i rows = any (λ (r : OutboxRow). r.event_id == i) rows

-- The row of an envelope; the text of a UUID is a parameter.
abbrev pub row_of : (ℕ → Text) → EventEnvelope → OutboxRow
row_of uuid_text e = record {
  event_id = e.event_id;
  topic = topic e.payload;
  partition_key = partition_key uuid_text e.payload;
  payload = e;
  correlation_id = e.correlation_id;
  attempts = 0;
}

-- `enqueue`: ON CONFLICT (event_id) DO NOTHING
abbrev pub insert_event : (ℕ → Text) → EventEnvelope → List OutboxRow → List OutboxRow
insert_event uuid_text e rows =
    if has_event e.event_id rows then rows else row_of uuid_text e ∷ rows

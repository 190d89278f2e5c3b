-- ===== src/Events.antt =====
-- crates/common/src/event.rs: the payloads, their routing and the envelope. Timestamps are left out,
-- and of a failure the text that is made for people.
-- The text of a UUID and the UUID of a name (v5) are parameters.
pub mod Outbox
pub mod Consumer
use chain_rail.Base.{
  ℕ, Bool, true, false, List, [], ◌∷◌, ◌++◌, Option, none, some, Text, codes, ◌==◌, ℤ,
}
use chain_rail.Common.Money.{Amount}

pub record BlockObserved : Type 0 where
  pub chain : Text
  pub block_number : ℕ
  pub block_hash : Text
  pub parent_hash : Text
  pub tx_count : ℕ

pub record DepositObserved : Type 0 where
  pub chain : Text
  pub tx_hash : Text
  pub log_index : ℤ
  pub block_number : ℕ
  pub block_hash : Text
  pub asset : Text
  pub user_id : ℕ
  pub deposit_id : ℕ
  pub amount_raw : Amount

pub record DepositConfirmed : Type 0 where
  pub chain : Text
  pub deposit_id : ℕ
  pub user_id : ℕ
  pub tx_hash : Text
  pub block_number : ℕ
  pub confirmations : ℕ
  pub asset : Text
  pub amount_raw : Amount

pub record DepositCredited : Type 0 where
  pub chain : Text
  pub deposit_id : ℕ
  pub user_id : ℕ
  pub asset : Text
  pub amount_raw : Amount
  pub ledger_transaction_id : ℕ

pub record DepositReorged : Type 0 where
  pub chain : Text
  pub deposit_id : ℕ
  pub user_id : ℕ
  pub tx_hash : Text
  pub orphaned_block_number : ℕ
  pub orphaned_block_hash : Text
  pub reversal_ledger_transaction_id : Option ℕ

pub record WithdrawalRequested : Type 0 where
  pub withdrawal_id : ℕ
  pub user_id : ℕ
  pub chain : Text
  pub asset : Text
  pub amount_raw : Amount
  pub destination : Text

pub record WithdrawalBroadcast : Type 0 where
  pub withdrawal_id : ℕ
  pub user_id : ℕ
  pub chain : Text
  pub tx_hash : Text
  pub nonce : ℕ

pub record WithdrawalCompleted : Type 0 where
  pub withdrawal_id : ℕ
  pub user_id : ℕ
  pub chain : Text
  pub tx_hash : Text
  pub asset : Text
  pub amount_raw : Amount
  pub fee_raw : Amount
  pub ledger_transaction_id : ℕ

pub record WithdrawalFailed : Type 0 where
  pub withdrawal_id : ℕ
  pub user_id : ℕ
  pub chain : Text
  pub reason_code : Text

pub data EventPayload : Type 0 where
  block_observed : BlockObserved → EventPayload
  deposit_observed : DepositObserved → EventPayload
  deposit_confirmed : DepositConfirmed → EventPayload
  deposit_credited : DepositCredited → EventPayload
  deposit_reorged : DepositReorged → EventPayload
  withdrawal_requested : WithdrawalRequested → EventPayload
  withdrawal_broadcast : WithdrawalBroadcast → EventPayload
  withdrawal_completed : WithdrawalCompleted → EventPayload
  withdrawal_failed : WithdrawalFailed → EventPayload

-- `EventPayload::event_type`
abbrev pub event_type : EventPayload → Text
event_type (EventPayload.block_observed e) = codes "chain.block_observed"
event_type (EventPayload.deposit_observed e) = codes "deposit.observed"
event_type (EventPayload.deposit_confirmed e) = codes "deposit.confirmed"
event_type (EventPayload.deposit_credited e) = codes "deposit.credited"
event_type (EventPayload.deposit_reorged e) = codes "deposit.reorged"
event_type (EventPayload.withdrawal_requested e) = codes "withdrawal.requested"
event_type (EventPayload.withdrawal_broadcast e) = codes "withdrawal.broadcast"
event_type (EventPayload.withdrawal_completed e) = codes "withdrawal.completed"
event_type (EventPayload.withdrawal_failed e) = codes "withdrawal.failed"

-- `EventPayload::topic`
abbrev pub topic : EventPayload → Text
topic (EventPayload.block_observed e) = codes "chain.blocks"
topic (EventPayload.deposit_observed e) = codes "deposits.observed"
topic (EventPayload.deposit_confirmed e) = codes "deposits.confirmed"
topic (EventPayload.deposit_credited e) = codes "deposits.credited"
topic (EventPayload.deposit_reorged e) = codes "deposits.credited"
topic (EventPayload.withdrawal_requested e) = codes "withdrawals.requested"
topic (EventPayload.withdrawal_broadcast e) = codes "withdrawals.broadcast"
topic (EventPayload.withdrawal_completed e) = codes "withdrawals.completed"
topic (EventPayload.withdrawal_failed e) = codes "withdrawals.completed"

-- `topics::ALL`
abbrev pub all_topics : List Text
all_topics =
    codes "chain.blocks"
    ∷ codes "deposits.observed"
    ∷ codes "deposits.confirmed"
    ∷ codes "deposits.credited"
    ∷ codes "withdrawals.requested"
    ∷ codes "withdrawals.broadcast"
    ∷ codes "withdrawals.completed"
    ∷ codes "system.dead-letter"
    ∷ []

-- EVENT_VERSION
abbrev pub event_version : ℕ
event_version = 1

pub record EventEnvelope : Type 0 where
  pub event_id : ℕ
  pub event_type : Text
  pub version : ℕ
  pub correlation_id : Text
  pub payload : EventPayload

-- `EventEnvelope::new`, with the identifier that `Uuid::now_v7` draws.
abbrev pub new : ℕ → EventPayload → Text → EventEnvelope
new now_v7 payload correlation = record {
  event_id = now_v7;
  event_type = event_type payload;
  version = event_version;
  correlation_id = correlation;
  payload = payload;
}

-- `EventEnvelope::is_supported_version`
abbrev pub is_supported_version : EventEnvelope → Bool
is_supported_version e = e.version == event_version

module _ (uuid_v5 : Text → ℕ) where
  -- `EventEnvelope::with_deterministic_id`
  abbrev pub with_deterministic_id : Text → EventEnvelope → EventEnvelope
  with_deterministic_id natural_key e = record e {
    event_id = uuid_v5 (codes "chainrail:" ++ e.event_type ++ codes ":" ++ natural_key);
  }

  -- `new` followed by `with_deterministic_id`, which replaces the identifier that `new` drew.
  abbrev pub named : EventPayload → Text → Text → EventEnvelope
  named payload correlation natural_key =
      with_deterministic_id natural_key (new 0 payload correlation)

module _ (uuid_text : ℕ → Text) where
  -- `EventPayload::partition_key`
  abbrev pub partition_key : EventPayload → Text
  partition_key (EventPayload.block_observed e) = e.chain
  partition_key (EventPayload.deposit_observed e) = uuid_text e.user_id
  partition_key (EventPayload.deposit_confirmed e) = uuid_text e.user_id
  partition_key (EventPayload.deposit_credited e) = uuid_text e.user_id
  partition_key (EventPayload.deposit_reorged e) = uuid_text e.user_id
  partition_key (EventPayload.withdrawal_requested e) = uuid_text e.user_id
  partition_key (EventPayload.withdrawal_broadcast e) = uuid_text e.user_id
  partition_key (EventPayload.withdrawal_completed e) = uuid_text e.user_id
  partition_key (EventPayload.withdrawal_failed e) = uuid_text e.user_id

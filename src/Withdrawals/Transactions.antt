-- ===== src/Withdrawals/Transactions.antt =====
-- The database transactions of crates/withdrawals/src/pipeline.rs. An argument `w` is the version of
-- the row that the caller has read before; `locked` is the one read under the lock. A transaction
-- that is rolled back and answers leaves the tables as they were.
use chain_rail.Base.{
  ℕ, Bool, true, false, ◌&&◌, ◌||◌, not, [], ◌++◌, Option, none, some, Text, codes, if◌then◌else◌,
  starts_with, contains_text,
}
use chain_rail.Common.Error.{Error}
use chain_rail.Common.Result.{Result, ok, err, M, ◌>>=◌, ◌>>◌, pure, throw, lift, gets}
use chain_rail.Common.Money.{Amount}
use chain_rail.Models.Asset.{Asset, find_symbol}
use chain_rail.Models.Withdrawal.{WithdrawalStatus, same_status, is_terminal, funds_may_have_left}
use chain_rail.Ledger.Service.{id}
use chain_rail.Ledger.Operations.{
  record_broadcast, settle_withdrawal, reverse_broadcast, record_network_fee,
}
use chain_rail.Events.{EventEnvelope, EventPayload, named}
use chain_rail.Withdrawals.Nonce.{allocate_nonce}
use chain_rail.Withdrawals.Rows.{
  Withdrawal, Store, SignedTxFacts, is_some, or_else, in_ledger, in_nonces, enqueue,
  lock_withdrawal, get_asset_by_id, transition, record_signed_transaction, mark_broadcast,
  update_confirmations, mark_completed, mark_failed,
}
use chain_rail.Withdrawals.Service.{release_if}
use chain_rail.Withdrawals.Chain.{
  WithdrawalIntent, UnsignedTransaction, SignedTransaction, ChainAdapter, Signer,
}

-- `tx.rollback()` before an answer.
abbrev pub rolled_back : {A : Type 0} → Store → A → M Store A
rolled_back before a s = ok (a, before)

-- `native_symbol`
unfoldable pub native_symbol : Text → Text
native_symbol chain =
    if starts_with chain (codes "bsc") || contains_text chain (codes "binance")
    then codes "BNB"
    else if starts_with chain (codes "polygon")
    then codes "POL"
    else codes "ETH"

-- `may_resign`
pub may_resign : WithdrawalStatus → Bool → Bool
may_resign status has_recorded_nonce =
    same_status status WithdrawalStatus.signing && has_recorded_nonce

abbrev pub intent_of : Withdrawal → Asset → ℕ → Text → WithdrawalIntent
intent_of w asset nonce hot_wallet = record {
  destination = w.destination_address;
  amount = w.amount_raw;
  contract = asset.contract_address;
  nonce = nonce;
  from = hot_wallet;
}

-- `unwrap_or(0)`
abbrev pub or_zero : Result ℕ → ℕ
or_zero (ok n) = n
or_zero (err e) = 0

abbrev pub facts_of : SignedTransaction → ℕ → UnsignedTransaction → SignedTxFacts
facts_of signed nonce unsigned = record {
  tx_hash = signed.tx_hash;
  nonce = nonce;
  gas_limit = unsigned.gas_limit;
  max_fee_per_gas = unsigned.max_fee_per_gas;
  max_priority_fee_per_gas = unsigned.max_priority_fee_per_gas;
}

-- Phase 1 of `sign_and_broadcast` on a row that was moved to `signing`; `t` is the number of the
-- call.
unfoldable pub sign_moved :
    ChainAdapter → Signer → ℕ → Text → Withdrawal → M Store (Option (SignedTransaction × ℕ))
sign_moved adapter signer t hot_wallet w = do
  asset ← get_asset_by_id w.asset_id
  nonce ← in_nonces (allocate_nonce w.chain hot_wallet (or_zero (adapter.nonce_hint t hot_wallet)))
  unsigned ← lift (adapter.build_withdrawal t (intent_of w asset nonce hot_wallet))
  signed ← lift (signer.sign t unsigned)
  record_signed_transaction w.id (facts_of signed nonce unsigned)
  pure (some (signed, nonce))

-- The same behind the compare-and-set.
unfoldable pub sign_if_moved :
    ChainAdapter
    → Signer
    → ℕ
    → Text
    → Withdrawal
    → Store
    → Bool
    → M Store (Option (SignedTransaction × ℕ))
sign_if_moved adapter signer t hot_wallet w before false = rolled_back before none
sign_if_moved adapter signer t hot_wallet w before true = sign_moved adapter signer t hot_wallet w

unfoldable pub sign_approved :
    ChainAdapter
    → Signer
    → ℕ
    → Text
    → Withdrawal
    → Store
    → Bool
    → M Store (Option (SignedTransaction × ℕ))
sign_approved adapter signer t hot_wallet w before false = rolled_back before none
sign_approved adapter signer t hot_wallet w before true =
    transition w.id WithdrawalStatus.approved WithdrawalStatus.signing
    >>= sign_if_moved adapter signer t hot_wallet w before

-- Phase 1: `none` where another worker took the withdrawal.
unfoldable pub sign_transaction :
    ChainAdapter → Signer → ℕ → Text → ℕ → M Store (Option (SignedTransaction × ℕ))
sign_transaction adapter signer t hot_wallet i before =
    (lock_withdrawal i >>= λ w.
    sign_approved adapter signer t hot_wallet w before
      (same_status w.status WithdrawalStatus.approved))
      before

module _ (uuid_text : ℕ → Text) (uuid_v5 : Text → ℕ) where
  abbrev pub event_of : Withdrawal → EventPayload → Text → EventEnvelope
  event_of w payload key = named uuid_v5 payload (or_else (codes "unknown") w.correlation_id) key

  abbrev pub broadcast_event : Withdrawal → Text → ℕ → EventEnvelope
  broadcast_event w tx_hash nonce =
      event_of w
        (EventPayload.withdrawal_broadcast (record {
          withdrawal_id = w.id;
          user_id = w.user_id;
          chain = w.chain;
          tx_hash = tx_hash;
          nonce = nonce;
        }))
        (codes "broadcast:" ++ uuid_text w.id)

  -- `mark_broadcast` of the pipeline, on the locked row.
  unfoldable pub broadcast_signing : Withdrawal → Text → ℕ → Store → Bool → M Store (Unit {0})
  broadcast_signing w tx_hash nonce before false = rolled_back before tt
  broadcast_signing w tx_hash nonce before true = do
    marked ← mark_broadcast w.id
    posted ← in_ledger (record_broadcast uuid_text w.id w.asset_id w.amount_raw w.correlation_id)
    enqueue uuid_text (broadcast_event w tx_hash nonce)

  unfoldable pub broadcast_transaction : ℕ → Text → ℕ → M Store (Unit {0})
  broadcast_transaction i tx_hash nonce before =
      (lock_withdrawal i >>= λ w.
      broadcast_signing w tx_hash nonce before (same_status w.status WithdrawalStatus.signing))
        before

  -- The fee, where the native asset of the chain is known.
  unfoldable pub charge_fee : Withdrawal → Amount → Option Asset → M Store (Unit {0})
  charge_fee w fee none = pure tt
  charge_fee w fee (some native) =
      in_ledger (record_network_fee uuid_text w.id native.id fee w.correlation_id) >>= λ charged.
      pure tt

  unfoldable pub charge_native_fee : Withdrawal → Amount → M Store (Unit {0})
  charge_native_fee w fee =
      gets (λ (s : Store). find_symbol w.chain (native_symbol w.chain) s.assets)
      >>= charge_fee w fee

  abbrev pub completed_event : Withdrawal → Asset → Amount → ℕ → EventEnvelope
  completed_event w asset fee settle =
      event_of w
        (EventPayload.withdrawal_completed (record {
          withdrawal_id = w.id;
          user_id = w.user_id;
          chain = w.chain;
          tx_hash = or_else [] w.tx_hash;
          asset = asset.symbol;
          amount_raw = w.amount_raw;
          fee_raw = fee;
          ledger_transaction_id = settle;
        }))
        (codes "completed:" ++ uuid_text w.id)

  -- What follows `mark_completed`.
  unfoldable pub announce_completed : Store → Withdrawal → Amount → ℕ → Bool → M Store (Unit {0})
  announce_completed before w fee settle false = rolled_back before tt
  announce_completed before w fee settle true = do
    asset ← get_asset_by_id w.asset_id
    enqueue uuid_text (completed_event w asset fee settle)

  -- `settle_success` behind its tests of the status.
  unfoldable pub settle_in_flight : Store → Withdrawal → ℕ → ℕ → Amount → M Store (Unit {0})
  settle_in_flight before w block_number confirmations fee = do
    update_confirmations w.id block_number confirmations
    settle ←
        in_ledger
          (settle_withdrawal uuid_text w.id w.user_id w.asset_id w.amount_raw w.correlation_id)
    charge_native_fee w fee
    completed ← mark_completed w.id (id settle) fee
    announce_completed before w fee (id settle) completed

  unfoldable pub settle_as :
      WithdrawalStatus → Store → Withdrawal → ℕ → ℕ → Amount → M Store (Unit {0})
  settle_as status before w block_number confirmations fee =
      if same_status status WithdrawalStatus.completed
      then rolled_back before tt
      else if not (funds_may_have_left status)
      then throw Error.invalid_state_transition
      else settle_in_flight before w block_number confirmations fee

  -- `settle_success`
  unfoldable pub settle_success : Withdrawal → ℕ → ℕ → Amount → M Store (Unit {0})
  settle_success w block_number confirmations fee before =
      (lock_withdrawal w.id >>= λ locked.
      settle_as locked.status before w block_number confirmations fee)
        before

  -- `enqueue_failure`
  abbrev pub failed_event : Withdrawal → Text → EventEnvelope
  failed_event w code =
      event_of w
        (EventPayload.withdrawal_failed (record {
          withdrawal_id = w.id;
          user_id = w.user_id;
          chain = w.chain;
          reason_code = code;
        }))
        (codes "failed:" ++ uuid_text w.id ++ codes ":" ++ code)

  unfoldable pub enqueue_failure : Withdrawal → Text → M Store (Unit {0})
  enqueue_failure w code = enqueue uuid_text (failed_event w code)

  unfoldable pub revert_in_flight : WithdrawalStatus → Withdrawal → Amount → M Store (Unit {0})
  revert_in_flight status w fee = do
    reversed ← in_ledger (reverse_broadcast uuid_text w.id w.asset_id w.amount_raw w.correlation_id)
    release_if uuid_text true w
    charge_native_fee w fee
    failed ← mark_failed w.id status (codes "onchain_revert")
    enqueue_failure w (codes "onchain_revert")

  -- `settle_failure`
  unfoldable pub settle_failure : Withdrawal → Amount → M Store (Unit {0})
  settle_failure w fee before =
      (lock_withdrawal w.id >>= λ locked.
      if is_terminal locked.status
      then rolled_back before tt
      else revert_in_flight locked.status w fee)
        before

  -- `fail_and_release` behind its test of the status; `held` is whether the locked row has a
  -- reservation.
  unfoldable pub fail_locked : WithdrawalStatus → Bool → Withdrawal → Text → M Store Bool
  fail_locked status held w code = do
    release_if uuid_text held w
    done ← mark_failed w.id status code
    enqueue_failure w code
    pure done

  -- `fail_and_release`
  unfoldable pub fail_and_release : Withdrawal → Text → M Store Bool
  fail_and_release w code before =
      (lock_withdrawal w.id >>= λ locked.
      if is_terminal locked.status || funds_may_have_left locked.status
      then rolled_back before false
      else fail_locked locked.status (is_some locked.reserve_ledger_transaction_id) w code)
        before

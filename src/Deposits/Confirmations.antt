-- ===== src/Deposits/Confirmations.antt =====
-- The body of the loop of `ConfirmationEngine::run_once` (crates/deposits/src/confirmations.rs), for one
-- of the pending deposits that it has claimed.
use chain_rail.Base.{
  ℕ, Bool, true, false, ◌&&◌, ◌||◌, not, Option, none, some, Text, text_eq, codes, ◌++◌, ℤ,
  pos_part, if◌then◌else◌,
}
use chain_rail.Common.Result.{M, ◌>>=◌, pure}
use chain_rail.Common.Money.{Amount}
use chain_rail.Common.Finality.{FinalityPolicy, confirmations_for, is_confirmed}
use chain_rail.Models.Deposit.{DepositStatus, same_deposit_status}
use chain_rail.Events.{EventEnvelope, EventPayload, named}
use chain_rail.Deposits.{Store, update_confirmations, enqueue}

-- A row of `claim_pending_deposits`.
pub record PendingDeposit : Type 0 where
  pub deposit_id : ℕ
  pub user_id : ℕ
  pub asset_symbol : Text
  pub chain : Text
  pub tx_hash : Text
  pub block_number : ℤ
  pub block_hash : Text
  pub amount_raw : Amount
  pub status : DepositStatus

-- status IN ('observed', 'confirming', 'confirmed')
abbrev pub is_pending : DepositStatus → Bool
is_pending status =
    same_deposit_status status DepositStatus.observed
    || same_deposit_status status DepositStatus.confirming
    || same_deposit_status status DepositStatus.confirmed

-- Whether the canonical block at the height, where there is one, is the block of the deposit.
abbrev pub still_canonical : Option Text → PendingDeposit → Bool
still_canonical none d = false
still_canonical (some hash) d = text_eq hash d.block_hash

module _ (uuid_text : ℕ → Text) (uuid_v5 : Text → ℕ) (chain correlation : Text) where
  abbrev pub confirmed_event : PendingDeposit → ℕ → ℕ → EventEnvelope
  confirmed_event d block_height confirmations =
      named uuid_v5
        (EventPayload.deposit_confirmed (record {
          chain = chain;
          deposit_id = d.deposit_id;
          user_id = d.user_id;
          tx_hash = d.tx_hash;
          block_number = block_height;
          confirmations = confirmations;
          asset = d.asset_symbol;
          amount_raw = d.amount_raw;
        }))
        correlation (chain ++ codes ":" ++ uuid_text d.deposit_id)

  -- The event goes out where the compare-and-set was won.
  unfoldable pub announce_confirmed : PendingDeposit → ℕ → ℕ → Bool → M Store (Unit {0})
  announce_confirmed d block_height confirmations false = pure tt
  announce_confirmed d block_height confirmations true =
      enqueue uuid_text (confirmed_event d block_height confirmations)

  -- What follows the test for the canonical block.
  unfoldable pub record_progress : Bool → PendingDeposit → ℕ → ℕ → M Store (Unit {0})
  record_progress confirmed d block_height confirmations =
      if confirmed && not (same_deposit_status d.status DepositStatus.confirmed)
      then update_confirmations d.deposit_id confirmations d.status DepositStatus.confirmed
        >>= announce_confirmed d block_height confirmations
      else if not confirmed && same_deposit_status d.status DepositStatus.observed
      then update_confirmations d.deposit_id confirmations DepositStatus.observed
          DepositStatus.confirming
        >>= (λ won. pure tt)
      else if not confirmed
      then update_confirmations d.deposit_id confirmations DepositStatus.confirming
          DepositStatus.confirming
        >>= (λ won. pure tt)
      else pure tt

  -- `canonical` is the hash that `get_canonical_block_at` answers.
  unfoldable pub examine : FinalityPolicy → ℕ → Option Text → PendingDeposit → M Store (Unit {0})
  examine policy head canonical d =
      let height = pos_part d.block_number in
      if still_canonical canonical d
      then record_progress (is_confirmed policy head height) d height
          (confirmations_for head height)
      else pure tt

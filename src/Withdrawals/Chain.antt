-- ===== src/Withdrawals/Chain.antt =====
-- What the pipeline uses of a chain and of a signer: the types of crates/chains-evm/src/adapter.rs,
-- the trait `ChainAdapter` and the trait of a signer as records of functions. Each answer depends on
-- the number of the call, since a node and its chain change between calls.
use chain_rail.Base.{ℕ, Bool, Option, Text}
use chain_rail.Common.Money.{Amount}
use chain_rail.Common.Result.{Result}

pub data TxStatus : Type 0 where
  unknown : TxStatus
  pending : TxStatus
  mined : ℕ → ℕ → Bool → Amount → TxStatus

pub record WithdrawalIntent : Type 0 where
  pub destination : Text
  pub amount : Amount
  pub contract : Option Text
  pub nonce : ℕ
  pub from : Text

-- `UnsignedTransaction::Evm`, of which the pipeline reads the fees.
pub record UnsignedTransaction : Type 0 where
  pub intent : WithdrawalIntent
  pub gas_limit : ℕ
  pub max_fee_per_gas : Amount
  pub max_priority_fee_per_gas : Amount

-- `SignedTransaction`, without its sender, which the pipeline does not read.
pub record SignedTransaction : Type 0 where
  pub tx_hash : Text
  pub raw : Text

pub record ChainAdapter : Type 0 where
  pub head : ℕ → Result ℕ
  pub nonce_hint : ℕ → Text → Result ℕ
  pub build_withdrawal : ℕ → WithdrawalIntent → Result UnsignedTransaction
  pub broadcast : ℕ → SignedTransaction → Result (Unit {0})
  pub transaction_status : ℕ → Text → ℕ → Result TxStatus

pub record Signer : Type 0 where
  pub sign : ℕ → UnsignedTransaction → Result SignedTransaction

-- ===== src/Withdrawals/Pipeline.antt =====
-- crates/withdrawals/src/pipeline.rs: the passes of the pipeline, between and around the
-- transactions of Withdrawals/Transactions. One worker runs at a time, and no row is locked by
-- another. The loop `run` around `run_once` is left out.
use chain_rail.Base.{
  ℕ, ◌+◌, Bool, true, false, ◌&&◌, not, List, [], ◌∷◌, ◌++◌, Option, none, some, Text, codes,
  text_eq, leb, ltb, if◌then◌else◌, filter, take, pos_part, ℤ, pos, to_ascii_lowercase,
}
use chain_rail.Common.Error.{Error, code}
use chain_rail.Common.Result.{Result, ok, err, ok_or, and_then}
use chain_rail.Common.Money.{Amount}
use chain_rail.Common.Finality.{required_confirmations}
use chain_rail.Common.Config.{AppConfig, ChainConfig}
use chain_rail.Models.Asset.{find_asset}
use chain_rail.Models.Withdrawal.{WithdrawalStatus, same_status}
use chain_rail.Withdrawals.Rows.{
  Withdrawal, Store, is_some, or_else, find_withdrawal, update_confirmations,
}
use chain_rail.Withdrawals.Service.{chain_config}
use chain_rail.Withdrawals.Chain.{TxStatus, SignedTransaction, ChainAdapter, Signer}
use chain_rail.Withdrawals.Transactions.{
  intent_of, sign_transaction, broadcast_transaction, settle_success, settle_failure,
  fail_and_release,
}
use chain_rail.Withdrawals.World.{
  P, ◌>>=◌, ◌>>◌, pure, lift, attempt, transact, reads, next_call, hand_over,
}

pub record PipelinePass : Type 0 where
  pub signed : ℕ
  pub broadcast : ℕ
  pub completed : ℕ
  pub failed : ℕ
  pub recovered : ℕ
  pub still_pending : ℕ

-- `PipelinePass::default`
abbrev pub no_work : PipelinePass
no_work = record {
  signed = 0;
  broadcast = 0;
  completed = 0;
  failed = 0;
  recovered = 0;
  still_pending = 0;
}

-- `did_work`
pub did_work : PipelinePass → Bool
did_work p = ltb 0 (p.signed + p.broadcast + p.completed + p.failed + p.recovered)

-- ORDER BY created_at ASC
abbrev pub insert_by_age : Withdrawal → List Withdrawal → List Withdrawal
insert_by_age w [] = w ∷ []
insert_by_age w (v ∷ vs) =
    let rest = insert_by_age w vs in if leb w.created_at v.created_at then w ∷ v ∷ vs else v ∷ rest

abbrev pub sort_by_age : List Withdrawal → List Withdrawal
sort_by_age [] = []
sort_by_age (w ∷ ws) = insert_by_age w (sort_by_age ws)

-- `batch_size`
abbrev pub batch_size : ℕ
batch_size = 25

-- `claim_by_status`
abbrev pub claim_by_status : Text → WithdrawalStatus → Store → List Withdrawal
claim_by_status chain status s = take batch_size (
    sort_by_age (
      filter (λ (w : Withdrawal). text_eq w.chain chain && same_status w.status status)
        s.withdrawals))

abbrev pub ids : List Withdrawal → List ℕ
ids [] = []
ids (w ∷ ws) = w.id ∷ ids ws

-- `u64::try_from(nonce).unwrap_or(0)`
abbrev pub to_u64 : ℤ → ℕ
to_u64 n = pos_part n

abbrev pub hot_wallet_of : ChainConfig → Result Text
hot_wallet_of c =
    and_then (ok_or c.hot_wallet_address Error.config) (λ w. ok (to_ascii_lowercase w))

-- What an adapter is looked up by.
abbrev pub adapter_of : List (Text × ChainAdapter) → Text → Result ChainAdapter
adapter_of [] chain = err Error.unsupported_chain
adapter_of ((c, a) ∷ later) chain = if text_eq c chain then ok a else adapter_of later chain

-- `if let Err(e) = ... else recovered += 1`
abbrev pub count_recovered : ℕ → Result (Unit {0}) → ℕ
count_recovered n (ok u) = n + 1
count_recovered n (err e) = n

module _ (uuid_text : ℕ → Text) (uuid_v5 : Text → ℕ) (cfg : AppConfig) (signer : Signer) where
  -- Phases 2 and 3 of `sign_and_broadcast`, behind the COMMIT of phase 1.
  unfoldable pub send_signed : ChainAdapter → ℕ → ℕ → Option (SignedTransaction × ℕ) → P Bool
  send_signed adapter t i none = pure false
  send_signed adapter t i (some (signed, nonce)) = do
    hand_over signed (adapter.broadcast t signed)
    transact (broadcast_transaction uuid_text uuid_v5 i signed.tx_hash nonce)
    pure true

  unfoldable pub sign_and_broadcast : ChainAdapter → Text → ℕ → P Bool
  sign_and_broadcast adapter hot_wallet i = do
    t ← next_call
    signed ← transact (sign_transaction adapter signer t hot_wallet i)
    send_signed adapter t i signed

  -- `fail_before_broadcast` on the row that was read without a lock.
  unfoldable pub fail_unless_signed : Withdrawal → Error → P Bool
  fail_unless_signed w e =
      if same_status w.status WithdrawalStatus.signing && is_some w.tx_hash
      then pure false
      else transact (fail_and_release uuid_text uuid_v5 w (code e))

  unfoldable pub fail_before_broadcast : ℕ → Error → P Bool
  fail_before_broadcast i e =
      reads (λ s. ok_or (find_withdrawal i s.withdrawals) Error.not_found) >>= λ w.
      fail_unless_signed w e

  -- One round of the loop of `process_approved`.
  unfoldable pub count_signed : ℕ → PipelinePass → Result Bool → P PipelinePass
  count_signed i pass (ok true) =
      pure (record pass { signed = pass.signed + 1; broadcast = pass.broadcast + 1 })
  count_signed i pass (ok false) = pure pass
  count_signed i pass (err e) = fail_before_broadcast i e >>= λ failed.
      pure (if failed then record pass { failed = pass.failed + 1 } else pass)

  unfoldable pub process_ids : ChainAdapter → Text → List ℕ → PipelinePass → P PipelinePass
  process_ids adapter hot_wallet [] pass = pure pass
  process_ids adapter hot_wallet (i ∷ is) pass = do
    outcome ← attempt (sign_and_broadcast adapter hot_wallet i)
    pass' ← count_signed i pass outcome
    process_ids adapter hot_wallet is pass'

  -- `process_approved`
  unfoldable pub process_approved : ChainAdapter → Text → P PipelinePass
  process_approved adapter chain = do
    c ← lift (chain_config cfg chain)
    hot_wallet ← lift (hot_wallet_of c)
    claimed ← reads (λ s. ok (claim_by_status chain WithdrawalStatus.approved s))
    process_ids adapter hot_wallet (ids claimed) no_work

  -- `rebroadcast`
  unfoldable pub rebroadcast : ChainAdapter → Withdrawal → P (Unit {0})
  rebroadcast adapter w = do
    asset ← reads (λ s. ok_or (find_asset w.asset_id s.assets) Error.not_found)
    c ← lift (chain_config cfg w.chain)
    hot_wallet ← lift (hot_wallet_of c)
    nonce ← lift (ok_or w.nonce Error.internal)
    t ← next_call
    unsigned ← lift (adapter.build_withdrawal t (intent_of w asset (to_u64 nonce) hot_wallet))
    signed ← lift (signer.sign t unsigned)
    hand_over signed (adapter.broadcast t signed)
    transact (broadcast_transaction uuid_text uuid_v5 w.id signed.tx_hash (to_u64 nonce))

  -- The `match` of `recover_signing` on the status of the transaction.
  unfoldable pub recover_as : ChainAdapter → Withdrawal → Text → ℕ → TxStatus → P ℕ
  recover_as adapter w tx_hash n TxStatus.unknown =
      attempt (rebroadcast adapter w) >>= λ outcome. pure (count_recovered n outcome)
  recover_as adapter w tx_hash n TxStatus.pending =
      transact
        (broadcast_transaction uuid_text uuid_v5 w.id tx_hash (to_u64 (or_else (pos 0) w.nonce)))
      >> pure (n + 1)
  recover_as adapter w tx_hash n (TxStatus.mined b c success fee) =
      transact
        (broadcast_transaction uuid_text uuid_v5 w.id tx_hash (to_u64 (or_else (pos 0) w.nonce)))
      >> pure (n + 1)

  -- One round of the loop of `recover_signing`.
  unfoldable pub recover_one : ChainAdapter → ℕ → ℕ → Withdrawal → Option Text → P ℕ
  recover_one adapter head n w none =
      transact (fail_and_release uuid_text uuid_v5 w (codes "signing_incomplete")) >>= λ done.
      pure (n + 1)
  recover_one adapter head n w (some tx_hash) = do
    t ← next_call
    status ← lift (adapter.transaction_status t tx_hash head)
    recover_as adapter w tx_hash n status

  unfoldable pub recover_all : ChainAdapter → ℕ → ℕ → List Withdrawal → P ℕ
  recover_all adapter head n [] = pure n
  recover_all adapter head n (w ∷ ws) = do
    n' ← recover_one adapter head n w w.tx_hash
    recover_all adapter head n' ws

  -- What follows the claim in `recover_signing`.
  unfoldable pub recover_claimed : ChainAdapter → List Withdrawal → P ℕ
  recover_claimed adapter [] = pure 0
  recover_claimed adapter (w ∷ ws) = do
    t ← next_call
    head ← lift (adapter.head t)
    recover_all adapter head 0 (w ∷ ws)

  -- `recover_signing`
  unfoldable pub recover_signing : ChainAdapter → Text → P ℕ
  recover_signing adapter chain =
      reads (λ s. ok (claim_by_status chain WithdrawalStatus.signing s)) >>= recover_claimed adapter

  -- The arm of `process_in_flight` for a mined transaction.
  unfoldable pub settle_mined :
      ℕ → PipelinePass → Withdrawal → ℕ → ℕ → Bool → Amount → P PipelinePass
  settle_mined required pass w block_number confirmations success fee =
      if not success
      then transact (settle_failure uuid_text uuid_v5 w fee)
        >> pure (record pass { failed = pass.failed + 1 })
      else if leb required confirmations
      then transact (settle_success uuid_text uuid_v5 w block_number confirmations fee)
        >> pure (record pass { completed = pass.completed + 1 })
      else transact (update_confirmations w.id block_number confirmations)
        >> pure (record pass { still_pending = pass.still_pending + 1 })

  unfoldable pub watch_as : ℕ → PipelinePass → Withdrawal → TxStatus → P PipelinePass
  watch_as required pass w (TxStatus.mined b c success fee) =
      settle_mined required pass w b c success fee
  watch_as required pass w TxStatus.pending =
      pure (record pass { still_pending = pass.still_pending + 1 })
  watch_as required pass w TxStatus.unknown =
      pure (record pass { still_pending = pass.still_pending + 1 })

  -- One round of the loop of `process_in_flight`.
  unfoldable pub watch_one :
      ChainAdapter → ℕ → ℕ → PipelinePass → Withdrawal → Option Text → P PipelinePass
  watch_one adapter required head pass w none = pure pass
  watch_one adapter required head pass w (some tx_hash) = do
    t ← next_call
    status ← lift (adapter.transaction_status t tx_hash head)
    watch_as required pass w status

  unfoldable pub watch_all : ChainAdapter → ℕ → ℕ → PipelinePass → List Withdrawal → P PipelinePass
  watch_all adapter required head pass [] = pure pass
  watch_all adapter required head pass (w ∷ ws) = do
    pass' ← watch_one adapter required head pass w w.tx_hash
    watch_all adapter required head pass' ws

  -- `process_in_flight`
  unfoldable pub process_in_flight : ChainAdapter → Text → P PipelinePass
  process_in_flight adapter chain = do
    c ← lift (chain_config cfg chain)
    t ← next_call
    head ← lift (adapter.head t)
    sent ← reads (λ s. ok (claim_by_status chain WithdrawalStatus.broadcast s))
    seen ← reads (λ s. ok (claim_by_status chain WithdrawalStatus.confirming s))
    watch_all adapter (or_else 1 (required_confirmations c.finality)) head no_work (sent ++ seen)

  -- The body of the loop of `run_once` over the chains.
  unfoldable pub pass_chain : List (Text × ChainAdapter) → PipelinePass → Text → P PipelinePass
  pass_chain adapters total chain = do
    adapter ← lift (adapter_of adapters chain)
    recovered ← recover_signing adapter chain
    pass ← process_approved adapter chain
    confirm ← process_in_flight adapter chain
    pure (record {
      signed = total.signed + pass.signed;
      broadcast = total.broadcast + pass.broadcast;
      completed = total.completed + confirm.completed;
      failed = total.failed + pass.failed + confirm.failed;
      recovered = total.recovered + recovered;
      still_pending = total.still_pending + confirm.still_pending;
    })

  unfoldable pub pass_chains :
      List (Text × ChainAdapter) → PipelinePass → List ChainConfig → P PipelinePass
  pass_chains adapters total [] = pure total
  pass_chains adapters total (c ∷ cs) = do
    total' ← pass_chain adapters total c.id
    pass_chains adapters total' cs

  -- `run_once`
  unfoldable pub run_once : List (Text × ChainAdapter) → P PipelinePass
  run_once adapters = pass_chains adapters no_work cfg.chains

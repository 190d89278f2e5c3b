-- ===== src/Withdrawals/Passes.antt =====
-- The passes of the pipeline (crates/withdrawals/src/pipeline.rs), whatever nodes and signer answer
-- and wherever a pass stops with an error.
use chain_rail.Base.{
  ℕ, Bool, true, false, not, leb, List, [], ◌∷◌, ◌++◌, Option, none, some, Text, codes,
}
use chain_rail.Common.Error.{Error, code}
use chain_rail.Common.Result.{Result, ok, err, ok_or}
use chain_rail.Common.Money.{Amount}
use chain_rail.Common.Config.{AppConfig, ChainConfig}
use chain_rail.Withdrawals.Rows.{Withdrawal, or_else}
use chain_rail.Common.Finality.{required_confirmations}
use chain_rail.Models.Asset.{find_asset}
use chain_rail.Models.Withdrawal.{WithdrawalStatus}
use chain_rail.Withdrawals.Service.{chain_config}
use chain_rail.Withdrawals.Chain.{TxStatus, SignedTransaction, ChainAdapter, Signer}
use chain_rail.Withdrawals.Transactions.{intent_of}
use chain_rail.Withdrawals.Pipeline.{
  PipelinePass, send_signed, sign_and_broadcast, fail_unless_signed, fail_before_broadcast,
  count_signed, process_ids, process_approved, rebroadcast, recover_as, recover_one, recover_all,
  recover_claimed, recover_signing, settle_mined, watch_as, watch_one, watch_all, process_in_flight,
  pass_chain, pass_chains, run_once, to_u64, ids, no_work, hot_wallet_of, claim_by_status,
  adapter_of, count_recovered,
}
use chain_rail.Withdrawals.Progress.{
  Advances-Progresses, sign_transaction-Progresses, broadcast_transaction-Progresses,
  settle_success-Progresses, settle_failure-Progresses, fail_and_release-Progresses,
  update_confirmations-Advances,
}
use chain_rail.Withdrawals.Steps.{
  Steps, Steps->>=, transact-Steps, Steps-pure, Steps-lift, Steps-reads, Steps-next_call,
  Steps-hand_over, Steps-attempt, Steps-if,
}

module _ (uuid_text : ℕ → Text) (uuid_v5 : Text → ℕ) (cfg : AppConfig) (signer : Signer)
    (adapter : ChainAdapter) where
  send_signed-Steps :
      (t i : ℕ) (o : Option (SignedTransaction × ℕ))
      → Steps (send_signed uuid_text uuid_v5 cfg signer adapter t i o)
  unfolding send_signed
  send_signed-Steps t i none = Steps-pure false
  send_signed-Steps t i (some (signed, nonce)) =
      Steps->>= (Steps-hand_over signed (adapter.broadcast t signed)) (λ _.
        Steps->>=
          (transact-Steps
            (broadcast_transaction-Progresses uuid_text uuid_v5 i signed.tx_hash nonce))
          (λ _. Steps-pure true))

  sign_and_broadcast-Steps :
      (hot_wallet : Text) (i : ℕ)
      → Steps (sign_and_broadcast uuid_text uuid_v5 cfg signer adapter hot_wallet i)
  unfolding sign_and_broadcast
  sign_and_broadcast-Steps hot_wallet i = Steps->>= Steps-next_call (λ t.
      Steps->>= (transact-Steps (sign_transaction-Progresses adapter signer t hot_wallet i))
        (λ o. send_signed-Steps t i o))

  fail_unless_signed-Steps :
      (w : Withdrawal) (e : Error) → Steps (fail_unless_signed uuid_text uuid_v5 cfg signer w e)
  unfolding fail_unless_signed
  fail_unless_signed-Steps w e =
      Steps-if _ (Steps-pure false)
        (transact-Steps (fail_and_release-Progresses uuid_text uuid_v5 w (code e)))

  fail_before_broadcast-Steps :
      (i : ℕ) (e : Error) → Steps (fail_before_broadcast uuid_text uuid_v5 cfg signer i e)
  unfolding fail_before_broadcast
  fail_before_broadcast-Steps i e = Steps->>= (Steps-reads _) (λ w. fail_unless_signed-Steps w e)

  count_signed-Steps :
      (i : ℕ) (pass : PipelinePass) (r : Result Bool)
      → Steps (count_signed uuid_text uuid_v5 cfg signer i pass r)
  unfolding count_signed
  count_signed-Steps i pass (ok true) = Steps-pure _
  count_signed-Steps i pass (ok false) = Steps-pure pass
  count_signed-Steps i pass (err e) =
      Steps->>= (fail_before_broadcast-Steps i e) (λ _. Steps-pure _)

  process_ids-Steps :
      (hot_wallet : Text) (is : List ℕ) (pass : PipelinePass)
      → Steps (process_ids uuid_text uuid_v5 cfg signer adapter hot_wallet is pass)
  unfolding process_ids
  process_ids-Steps hot_wallet [] pass = Steps-pure pass
  process_ids-Steps hot_wallet (i ∷ is) pass =
      Steps->>= (Steps-attempt (sign_and_broadcast-Steps hot_wallet i)) (λ outcome.
        Steps->>= (count_signed-Steps i pass outcome)
          (λ pass'. process_ids-Steps hot_wallet is pass'))

  rebroadcast-Steps : (w : Withdrawal) → Steps (rebroadcast uuid_text uuid_v5 cfg signer adapter w)
  unfolding rebroadcast
  rebroadcast-Steps w =
      Steps->>= (Steps-reads (λ s. ok_or (find_asset w.asset_id s.assets) Error.not_found))
        (λ asset. Steps->>= (Steps-lift (chain_config cfg w.chain)) (λ c.
          Steps->>= (Steps-lift (hot_wallet_of c)) (λ hot_wallet.
            Steps->>= (Steps-lift (ok_or w.nonce Error.internal)) (λ nonce.
              Steps->>= Steps-next_call (λ t.
                Steps->>=
                  (Steps-lift
                    (adapter.build_withdrawal t (intent_of w asset (to_u64 nonce) hot_wallet)))
                  (λ unsigned. Steps->>= (Steps-lift (signer.sign t unsigned)) (λ signed.
                    Steps->>= (Steps-hand_over signed (adapter.broadcast t signed)) (λ _.
                      transact-Steps (
                        broadcast_transaction-Progresses uuid_text uuid_v5 w.id signed.tx_hash
                          (to_u64 nonce))))))))))

  recover_as-Steps :
      (w : Withdrawal) (tx_hash : Text) (n : ℕ) (status : TxStatus)
      → Steps (recover_as uuid_text uuid_v5 cfg signer adapter w tx_hash n status)
  unfolding recover_as
  recover_as-Steps w tx_hash n TxStatus.unknown =
      Steps->>= (Steps-attempt (rebroadcast-Steps w))
        (λ outcome. Steps-pure (count_recovered n outcome))
  recover_as-Steps w tx_hash n TxStatus.pending =
      Steps->>= (transact-Steps (broadcast_transaction-Progresses uuid_text uuid_v5 w.id tx_hash _))
        (λ _. Steps-pure _)
  recover_as-Steps w tx_hash n (TxStatus.mined b c success fee) =
      Steps->>= (transact-Steps (broadcast_transaction-Progresses uuid_text uuid_v5 w.id tx_hash _))
        (λ _. Steps-pure _)

  recover_one-Steps :
      (head n : ℕ) (w : Withdrawal) (o : Option Text)
      → Steps (recover_one uuid_text uuid_v5 cfg signer adapter head n w o)
  unfolding recover_one
  recover_one-Steps head n w none =
      Steps->>=
        (transact-Steps
          (fail_and_release-Progresses uuid_text uuid_v5 w (codes "signing_incomplete")))
        (λ _. Steps-pure _)
  recover_one-Steps head n w (some tx_hash) = Steps->>= Steps-next_call (λ t.
      Steps->>= (Steps-lift (adapter.transaction_status t tx_hash head))
        (λ status. recover_as-Steps w tx_hash n status))

  recover_all-Steps :
      (head n : ℕ) (ws : List Withdrawal)
      → Steps (recover_all uuid_text uuid_v5 cfg signer adapter head n ws)
  unfolding recover_all
  recover_all-Steps head n [] = Steps-pure n
  recover_all-Steps head n (w ∷ ws) =
      Steps->>= (recover_one-Steps head n w w.tx_hash) (λ n'. recover_all-Steps head n' ws)

  recover_claimed-Steps :
      (ws : List Withdrawal) → Steps (recover_claimed uuid_text uuid_v5 cfg signer adapter ws)
  unfolding recover_claimed
  recover_claimed-Steps [] = Steps-pure 0
  recover_claimed-Steps (w ∷ ws) =
      Steps->>= Steps-next_call
        (λ t. Steps->>= (Steps-lift (adapter.head t)) (λ head. recover_all-Steps head 0 (w ∷ ws)))

  settle_mined-Steps :
      (required : ℕ) (pass : PipelinePass) (w : Withdrawal) (b c : ℕ) (success : Bool)
      (fee : Amount)
      → Steps (settle_mined uuid_text uuid_v5 cfg signer required pass w b c success fee)
  unfolding settle_mined
  settle_mined-Steps required pass w b c success fee =
      Steps-if (not success)
        (Steps->>= (transact-Steps (settle_failure-Progresses uuid_text uuid_v5 w fee))
          (λ _. Steps-pure _))
        (Steps-if (leb required c)
          (Steps->>= (transact-Steps (settle_success-Progresses uuid_text uuid_v5 w b c fee))
            (λ _. Steps-pure _))
          (Steps->>=
            (transact-Steps
              (Advances-Progresses _ (λ before. update_confirmations-Advances w.id b c)))
            (λ _. Steps-pure _)))

  watch_as-Steps :
      (required : ℕ) (pass : PipelinePass) (w : Withdrawal) (status : TxStatus)
      → Steps (watch_as uuid_text uuid_v5 cfg signer required pass w status)
  unfolding watch_as
  watch_as-Steps required pass w (TxStatus.mined b c success fee) =
      settle_mined-Steps required pass w b c success fee
  watch_as-Steps required pass w TxStatus.pending = Steps-pure _
  watch_as-Steps required pass w TxStatus.unknown = Steps-pure _

  watch_one-Steps :
      (required head : ℕ) (pass : PipelinePass) (w : Withdrawal) (o : Option Text)
      → Steps (watch_one uuid_text uuid_v5 cfg signer adapter required head pass w o)
  unfolding watch_one
  watch_one-Steps required head pass w none = Steps-pure pass
  watch_one-Steps required head pass w (some tx_hash) = Steps->>= Steps-next_call (λ t.
      Steps->>= (Steps-lift (adapter.transaction_status t tx_hash head))
        (λ status. watch_as-Steps required pass w status))

  watch_all-Steps :
      (required head : ℕ) (pass : PipelinePass) (ws : List Withdrawal)
      → Steps (watch_all uuid_text uuid_v5 cfg signer adapter required head pass ws)
  unfolding watch_all
  watch_all-Steps required head pass [] = Steps-pure pass
  watch_all-Steps required head pass (w ∷ ws) =
      Steps->>= (watch_one-Steps required head pass w w.tx_hash)
        (λ pass'. watch_all-Steps required head pass' ws)

  recover_signing-Steps :
      (chain : Text) → Steps (recover_signing uuid_text uuid_v5 cfg signer adapter chain)
  unfolding recover_signing
  recover_signing-Steps chain =
      Steps->>= (Steps-reads (λ s. ok (claim_by_status chain WithdrawalStatus.signing s)))
        (λ claimed. recover_claimed-Steps claimed)

  process_approved-Steps :
      (chain : Text) → Steps (process_approved uuid_text uuid_v5 cfg signer adapter chain)
  unfolding process_approved
  process_approved-Steps chain = Steps->>= (Steps-lift (chain_config cfg chain)) (λ c.
      Steps->>= (Steps-lift (hot_wallet_of c)) (λ hot_wallet.
        Steps->>= (Steps-reads (λ s. ok (claim_by_status chain WithdrawalStatus.approved s)))
          (λ claimed. process_ids-Steps hot_wallet (ids claimed) no_work)))

  process_in_flight-Steps :
      (chain : Text) → Steps (process_in_flight uuid_text uuid_v5 cfg signer adapter chain)
  unfolding process_in_flight
  process_in_flight-Steps chain = Steps->>= (Steps-lift (chain_config cfg chain)) (λ c.
      Steps->>= Steps-next_call (λ t. Steps->>= (Steps-lift (adapter.head t)) (λ head.
        Steps->>= (Steps-reads (λ s. ok (claim_by_status chain WithdrawalStatus.broadcast s)))
          (λ sent.
            Steps->>= (Steps-reads (λ s. ok (claim_by_status chain WithdrawalStatus.confirming s)))
              (λ seen.
                watch_all-Steps (or_else 1 (required_confirmations c.finality)) head no_work
                  (sent ++ seen))))))

module _ (uuid_text : ℕ → Text) (uuid_v5 : Text → ℕ) (cfg : AppConfig) (signer : Signer)
    (adapters : List (Text × ChainAdapter)) where
  pass_chain-Steps :
      (total : PipelinePass) (chain : Text)
      → Steps (pass_chain uuid_text uuid_v5 cfg signer adapters total chain)
  unfolding pass_chain
  pass_chain-Steps total chain = Steps->>= (Steps-lift (adapter_of adapters chain)) (λ adapter.
      Steps->>= (recover_signing-Steps uuid_text uuid_v5 cfg signer adapter chain) (λ recovered.
        Steps->>= (process_approved-Steps uuid_text uuid_v5 cfg signer adapter chain) (λ pass.
          Steps->>= (process_in_flight-Steps uuid_text uuid_v5 cfg signer adapter chain)
            (λ confirm. Steps-pure _))))

  pass_chains-Steps :
      (total : PipelinePass) (cs : List ChainConfig)
      → Steps (pass_chains uuid_text uuid_v5 cfg signer adapters total cs)
  unfolding pass_chains
  pass_chains-Steps total [] = Steps-pure total
  pass_chains-Steps total (c ∷ cs) =
      Steps->>= (pass_chain-Steps total c.id) (λ total'. pass_chains-Steps total' cs)

  pub run_once-Steps : Steps (run_once uuid_text uuid_v5 cfg signer adapters)
  unfolding run_once
  run_once-Steps = pass_chains-Steps no_work cfg.chains

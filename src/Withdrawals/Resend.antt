-- ===== src/Withdrawals/Resend.antt =====
-- `rebroadcast` of crates/withdrawals/src/pipeline.rs, on a transaction that is built anew.
use chain_rail.Base.{ℕ, ◌+◌, ◌≡◌, ◌≢◌, ◌∙◌, refl, sym, ap, ◌∷◌, some, Text, ℤ, inl, inr}
use chain_rail.Common.Error.{Error}
use chain_rail.Common.Result.{ok, ok_or}
use chain_rail.Common.Config.{AppConfig, ChainConfig}
use chain_rail.Models.Asset.{Asset, find_asset}
use chain_rail.Models.Withdrawal.{WithdrawalStatus}
use chain_rail.Withdrawals.Rows.{Withdrawal, find_withdrawal}
use chain_rail.Withdrawals.Service.{run, chain_config}
use chain_rail.Withdrawals.Chain.{SignedTransaction, UnsignedTransaction, ChainAdapter, Signer}
use chain_rail.Withdrawals.Transactions.{broadcast_transaction, intent_of}
use chain_rail.Withdrawals.World.{World}
use chain_rail.Withdrawals.Pipeline.{rebroadcast, hot_wallet_of, to_u64}
use chain_rail.Withdrawals.Durable.{broadcast_transaction-row, run-cases}

-- What the parts of `rebroadcast` answer for a withdrawal: `tx` is the transaction that it sends.
pub record Answers (cfg : AppConfig) (signer : Signer) (adapter : ChainAdapter) (w : Withdrawal)
    (world : World) (tx : SignedTransaction) : Type 0 where
  pub asset : Asset
  pub chain : ChainConfig
  pub hot_wallet : Text
  pub nonce : ℤ
  pub unsigned : UnsignedTransaction
  pub has_asset : ok_or (find_asset w.asset_id world.store.assets) Error.not_found ≡ ok asset
  pub has_chain : chain_config cfg w.chain ≡ ok chain
  pub has_wallet : hot_wallet_of chain ≡ ok hot_wallet
  pub has_nonce : ok_or w.nonce Error.internal ≡ ok nonce
  pub builds :
      adapter.build_withdrawal world.calls (intent_of w asset (to_u64 nonce) hot_wallet)
      ≡ ok unsigned
  pub signs : signer.sign world.calls unsigned ≡ ok tx
  pub takes : adapter.broadcast world.calls tx ≡ ok tt

module _ (uuid_text : ℕ → Text) (uuid_v5 : Text → ℕ) (cfg : AppConfig) (signer : Signer)
    (adapter : ChainAdapter) (w : Withdrawal) (world : World) (tx : SignedTransaction)
    (answers : Answers cfg signer adapter w world tx) where
  rebroadcast-run : (rebroadcast uuid_text uuid_v5 cfg signer adapter w world).1 ≡ record world {
    store =
        (run
          (broadcast_transaction uuid_text uuid_v5 w.id tx.tx_hash (to_u64 answers.nonce))
          world.store).1;
    sent = tx ∷ world.sent;
    calls = world.calls + 1;
  }
  unfolding rebroadcast
  rebroadcast-run =
      rw
        (
          rebroadcast, answers.has_asset, answers.has_chain, answers.has_wallet, answers.has_nonce,
          answers.builds, answers.signs, answers.takes,
        )
        refl

  hash_kept :
      (v : Withdrawal)
      → find_withdrawal w.id world.store.withdrawals ≡ some v
      → (v' : Withdrawal) × (find_withdrawal w.id
            (run
              (broadcast_transaction uuid_text uuid_v5 w.id tx.tx_hash (to_u64 answers.nonce))
              world.store).1.withdrawals
          ≡ some v')
        × (v'.tx_hash ≡ v.tx_hash)
  hash_kept v e =
      elim (run-cases
        (broadcast_transaction uuid_text uuid_v5 w.id tx.tx_hash (to_u64 answers.nonce))
        world.store) [
          | inr (x, q) ↦ rw q (v, e, refl)
          | inl (u, s', g, q) ↦
              elim (broadcast_transaction-row uuid_text uuid_v5 w.id tx.tx_hash
                (to_u64 answers.nonce) v world.store s' e g) [
                  | inl (t, row) ↦
                      rw q (record v { status = WithdrawalStatus.broadcast }, row, refl)
                  | inr (t, same) ↦ rw (q, same) (v, e, refl)
                ]
        ]

-- A re-broadcast does not record what it sends: where all parts answer, the transaction that was built
-- and signed anew goes out, and the withdrawal keeps the hash that it had. So if the new hash is
-- another, the hash of the transaction that is out is not on record.
pub rebroadcast_unrecorded :
    (uuid_text : ℕ → Text) (uuid_v5 : Text → ℕ) (cfg : AppConfig) (signer : Signer)
    (adapter : ChainAdapter) (w v : Withdrawal) (world : World) (tx : SignedTransaction)
    (tx_hash : Text)
    → Answers cfg signer adapter w world tx
    → find_withdrawal w.id world.store.withdrawals ≡ some v
    → v.tx_hash ≡ some tx_hash
    → tx.tx_hash ≢ tx_hash
    → let after = (rebroadcast uuid_text uuid_v5 cfg signer adapter w world).1 in
      (after.sent ≡ tx ∷ world.sent)
      × ((v' : Withdrawal) × (find_withdrawal w.id after.store.withdrawals ≡ some v')
          × (v'.tx_hash ≡ some tx_hash)
          × (v'.tx_hash ≢ some tx.tx_hash))
rebroadcast_unrecorded uuid_text uuid_v5 cfg signer adapter w v world tx tx_hash answers e p apart =
    let (v', row, same) = hash_kept uuid_text uuid_v5 cfg signer adapter w world tx answers v e in
    let ran = rebroadcast-run uuid_text uuid_v5 cfg signer adapter w world tx answers in
    (
      ap (λ (z : World). z.sent) ran,
      (
        v',
        ap (λ (z : World). find_withdrawal w.id z.store.withdrawals) ran ∙ row,
        same ∙ p,
        λ k.
            let one : some tx.tx_hash ≡ some tx_hash = sym k ∙ same ∙ p in
            let two : tx.tx_hash ≡ tx_hash = cc in apart two,
      ),
    )

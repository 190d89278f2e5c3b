-- ===== src/Tests/Histories.antt =====
-- A history: withdrawal 3, which is approved and reserved, is paid by a pass of the pipeline, and another
-- is requested, held by nothing, and paid by the next pass.
use chain_rail.Base.{
  ℕ, ◌+◌, ◌≡◌, refl, sym, true, List, [], ◌∷◌, none, some, codes, pos, length, ◌==◌, Bool-cases,
  inl, inr, ==_iff, ◌∙◌,
}
use chain_rail.Common.Result.{ok}
use chain_rail.Models.Withdrawal.{WithdrawalStatus}
use chain_rail.Ledger.Tables.{Ledger, commit}
use chain_rail.Ledger.Tables.Balances.{signed_total}
use chain_rail.Ledger.Service.Soundness.{IsSound}
use chain_rail.Ledger.Operations.Calls.{Call, transact_all, no_rows, transact_all-IsSound}
use chain_rail.Withdrawals.Rows.{Withdrawal, find_withdrawal, is_consistent}
use chain_rail.Withdrawals.Chain.{TxStatus, ChainAdapter}
use chain_rail.Withdrawals.World.{World}
use chain_rail.Withdrawals.Advance.{AreConsistent, IsUnique, Successor}
use chain_rail.Withdrawals.History.{Act, act_all, act_all-kept}
use chain_rail.Tests.Config.{app_config, digest}
use chain_rail.Tests.Payments.{text_of, withdrawal, asset}
use chain_rail.Tests.Passes.{engine, request, signer}

-- A node on which each transaction is mined at once, under twelve blocks.
abbrev prompt_node : ChainAdapter
prompt_node = record {
  head = λ n. ok 30;
  nonce_hint = λ n a. ok 4;
  build_withdrawal = λ n intent. ok (record {
    intent = intent;
    gas_limit = 120000;
    max_fee_per_gas = pos (n + 2);
    max_priority_fee_per_gas = pos 1;
  });
  broadcast = λ n tx. ok tt;
  transaction_status = λ n h head. ok (TxStatus.mined 20 12 true (pos 3));
}

abbrev approved : Withdrawal
approved = record (withdrawal WithdrawalStatus.approved) { tx_hash = none; nonce = none }

-- User 7 has deposited 500 units, of which 100 are reserved.
abbrev funded : Ledger
funded =
    transact_all text_of
      (Call.deposit_credited 1 7 5 (pos 500) none ∷ Call.reserved 3 7 5 (pos 100) none ∷ [])
      (no_rows (λ n. n + 10))

abbrev begun : World
begun = record {
  store = record {
    ledger = funded;
    withdrawals = approved ∷ [];
    assets = asset ∷ [];
    addresses = [];
    nonces = [];
    outbox = [];
  };
  sent = [];
  calls = 0;
}

abbrev acts : List Act
acts =
    Act.pipeline_pass ((codes "c", prompt_node) ∷ []) signer
    ∷ Act.request 1000 5 (record request {
      destination = codes "0x000000000000000000000000000000000000dead";
      idempotency_key = codes "key-0002";
    })
    ∷ Act.cancellation 3
    ∷ Act.pipeline_pass ((codes "c", prompt_node) ∷ []) signer
    ∷ []

only_row :
    (i : ℕ) (w : Withdrawal) → find_withdrawal i (approved ∷ []) ≡ some w → (3 ≡ i) × (approved ≡ w)
only_row i w h = elim (Bool-cases (3 == i)) [
  | inl p ↦ let same : approved ≡ w = cc (rw p at h) in ((==_iff 3 i).0 p, same)
  | inr p ↦ absurd (cc (rw p at h))
]

approved-IsConsistent : is_consistent approved ≡ true
unfolding is_consistent
approved-IsConsistent = refl

begun-AreConsistent : AreConsistent (approved ∷ [])
begun-AreConsistent i w h = rw (← (only_row i w h).1) approved-IsConsistent

begun-IsUnique : IsUnique (approved ∷ [])
begun-IsUnique i j v w g h user key = sym (only_row i v g).0 ∙ (only_row j w h).0

abbrev ended : World
ended = act_all digest text_of length app_config engine acts begun

act_all-kept_example :
    IsSound ended.store.ledger
    × (commit ended.store.ledger ≡ ok tt)
    × ((y : ℕ) → signed_total y ended.store.ledger.accounts ≡ signed_total y funded.accounts)
    × AreConsistent ended.store.withdrawals
    × IsUnique ended.store.withdrawals
    × ((i : ℕ) (v : Withdrawal)
        → find_withdrawal i (approved ∷ []) ≡ some v
        → Successor v (find_withdrawal i ended.store.withdrawals))
act_all-kept_example =
    act_all-kept digest text_of length app_config engine acts begun
      (transact_all-IsSound text_of (λ n. n + 10)
        (Call.deposit_credited 1 7 5 (pos 500) none ∷ Call.reserved 3 7 5 (pos 100) none ∷ [])).0
      begun-AreConsistent begun-IsUnique

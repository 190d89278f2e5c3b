-- ===== src/Tests/Passes.antt =====
-- Passes of the pipeline and a repeated request, over withdrawal 3.
use chain_rail.Base.{◌+◌, ◌≡◌, ◌≢◌, refl, true, [], ◌∷◌, none, some, codes, pos, arith}
use chain_rail.Common.Error.{Error}
use chain_rail.Common.Result.{ok, err}
use chain_rail.Common.Money.Parse.{keep, trim, trim_start, trim_end, is_whitespace}
use chain_rail.Common.Address.{parse, parse_evm, parse_body, checksum_body, checksum_from}
use chain_rail.Common.Config.{AssetConfig}
use chain_rail.Models.Withdrawal.{WithdrawalStatus}
use chain_rail.Risk.{RiskEngine}
use chain_rail.Withdrawals.Rows.{Withdrawal, find_withdrawal}
use chain_rail.Withdrawals.Service.{WithdrawalRequest, fingerprint, check_request, create}
use chain_rail.Withdrawals.Chain.{
  TxStatus, UnsignedTransaction, SignedTransaction, ChainAdapter, Signer,
}
use chain_rail.Withdrawals.World.{World}
use chain_rail.Withdrawals.Pipeline.{sign_and_broadcast, rebroadcast}
use chain_rail.Withdrawals.Handover.{Recorded, sign_and_broadcast-Recorded}
use chain_rail.Withdrawals.Resend.{Answers, rebroadcast_unrecorded}
use chain_rail.Withdrawals.Replay.{create_known_key}
use chain_rail.Tests.Payments.{text_of, hash_of, withdrawal, asset, store}
use chain_rail.Tests.Config.{app_config, one_chain, digest, address}

-- A node that builds what it is asked, with a hash that names the call, and a signer.
abbrev adapter : ChainAdapter
adapter = record {
  head = λ n. ok 30;
  nonce_hint = λ n a. ok 4;
  build_withdrawal = λ n intent. ok (record {
    intent = intent;
    gas_limit = 120000;
    max_fee_per_gas = pos (n + 2);
    max_priority_fee_per_gas = pos 1;
  });
  broadcast = λ n tx. ok tt;
  transaction_status = λ n h head. ok TxStatus.unknown;
}

abbrev pub signer : Signer
signer = record { sign = λ n u. ok (record { tx_hash = codes "0xnew"; raw = [] }) }

abbrev world : WithdrawalStatus → World
world status = record { store = store status; sent = []; calls = 8 }

sign_and_broadcast-Recorded_example :
    Recorded adapter signer
      (codes "0xw")
      3
      (world WithdrawalStatus.approved)
      (sign_and_broadcast text_of hash_of app_config signer adapter
        (codes "0xw")
        3
        (world WithdrawalStatus.approved)).1
sign_and_broadcast-Recorded_example =
    sign_and_broadcast-Recorded text_of hash_of app_config signer adapter (codes "0xw") 3
      (world WithdrawalStatus.approved)

abbrev resent : SignedTransaction
resent = record { tx_hash = codes "0xnew"; raw = [] }

abbrev unsigned : UnsignedTransaction
unsigned = record {
  intent = record {
    destination = codes "0xd";
    amount = pos 100;
    contract = some (codes "0xt");
    nonce = 4;
    from = codes "0x5aaeb6053f3e94c9b9a09f33669435e7ef1beaed";
  };
  gas_limit = 120000;
  max_fee_per_gas = pos 10;
  max_priority_fee_per_gas = pos 1;
}

all_answer :
    Answers app_config signer adapter
      (withdrawal WithdrawalStatus.broadcast)
      (world WithdrawalStatus.broadcast)
      resent
all_answer = record {
  asset = asset;
  chain = one_chain;
  hot_wallet = codes "0x5aaeb6053f3e94c9b9a09f33669435e7ef1beaed";
  nonce = pos 4;
  unsigned = unsigned;
  has_asset = refl;
  has_chain = refl;
  has_wallet = refl;
  has_nonce = refl;
  builds = refl;
  signs = refl;
  takes = refl;
}

rebroadcast_unrecorded_example :
    let after =
      (rebroadcast text_of hash_of app_config signer adapter
        (withdrawal WithdrawalStatus.broadcast)
        (world WithdrawalStatus.broadcast)).1 in
    (after.sent ≡ resent ∷ [])
    × ((v' : Withdrawal) × (find_withdrawal 3 after.store.withdrawals ≡ some v')
        × (v'.tx_hash ≡ some (codes "0xh"))
        × (v'.tx_hash ≢ some (codes "0xnew")))
rebroadcast_unrecorded_example =
    rebroadcast_unrecorded text_of hash_of app_config signer adapter
      (withdrawal WithdrawalStatus.broadcast) (withdrawal WithdrawalStatus.broadcast)
      (world WithdrawalStatus.broadcast) resent (codes "0xh") all_answer refl refl
      (λ e. absurd (cc e))

abbrev pub engine : RiskEngine
engine = record { cfg = app_config.risk; allowed_chains = []; denylist = [] }

abbrev pub request : WithdrawalRequest
request = record {
  user_id = 7;
  chain = codes "c";
  asset_symbol = codes "T";
  amount = pos 100;
  destination = address;
  idempotency_key = codes "key-0001";
  correlation_id = none;
}

abbrev token : AssetConfig
token = record {
  symbol = codes "T";
  decimals = 6;
  contract_address = none;
  deposits_enabled = true;
  withdrawals_enabled = true;
}

accepted : check_request digest text_of hash_of app_config request ≡ ok (one_chain, token, address)
unfolding check_request parse parse_evm parse_body keep trim trim_start trim_end is_whitespace
    checksum_body checksum_from
accepted = refl

create_known_key_example :
    create digest text_of hash_of app_config engine 1000 5 request
      (store WithdrawalStatus.broadcast)
    ≡ (err Error.idempotency_key_conflict, store WithdrawalStatus.broadcast)
unfolding fingerprint
create_known_key_example =
    create_known_key digest text_of hash_of app_config engine 1000 5 request one_chain token address
      asset (withdrawal WithdrawalStatus.broadcast) (store WithdrawalStatus.broadcast) accepted refl
      (omega arith) refl

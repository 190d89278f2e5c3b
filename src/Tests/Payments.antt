-- ===== src/Tests/Payments.antt =====
-- Withdrawal 3 of user 7, of 100 units of asset 5, at each stage.
use chain_rail.Common.Money.Parse.{is_whitespace}
use chain_rail.Common.Money.Parse.{trim_end}
use chain_rail.Common.Money.Parse.{trim_start}
use chain_rail.Common.Money.Parse.{trim}
use chain_rail.Ledger.Posting.{insert_by_key}
use chain_rail.Ledger.Posting.{sort_by_key}
use chain_rail.Ledger.Posting.{ordered_entries}
use chain_rail.Common.Money.{checked_add}
use chain_rail.Ledger.Posting.{check_net}
use chain_rail.Ledger.Posting.{net_from}
use chain_rail.Ledger.Posting.{net}
use chain_rail.Ledger.Posting.{validate}
use chain_rail.Ledger.Tables.{apply_to}
use chain_rail.Ledger.Tables.{insert_entry}
use chain_rail.Ledger.Service.{insert_entries}
use chain_rail.Ledger.Service.{finish_posting}
use chain_rail.Ledger.Service.{insert_transaction}
use chain_rail.Ledger.Service.{post_transaction}
use chain_rail.Ledger.Accounts.{or_insert}
use chain_rail.Ledger.Accounts.{resolve}
use chain_rail.Ledger.Accounts.{system_account}
use chain_rail.Ledger.Accounts.{user_account}
use chain_rail.Ledger.Operations.{release_reservation}
use chain_rail.Withdrawals.Transactions.{enqueue_failure}
use chain_rail.Ledger.Operations.{settle_withdrawal}
use chain_rail.Withdrawals.Rows.{mark_completed}
use chain_rail.Withdrawals.Rows.{enqueue}
use chain_rail.Withdrawals.Rows.{check_row}
use chain_rail.Withdrawals.Rows.{update_confirmations}
use chain_rail.Withdrawals.Rows.{write_found}
use chain_rail.Withdrawals.Rows.{get_asset_by_id}
use chain_rail.Withdrawals.Transactions.{charge_fee}
use chain_rail.Withdrawals.Settlement.{settle_success_once}
use chain_rail.Withdrawals.Rows.{update_where}
use chain_rail.Withdrawals.Transactions.{charge_native_fee}
use chain_rail.Common.Money.{Amount}
use chain_rail.Withdrawals.Rows.{mark_failed}
use chain_rail.Withdrawals.Transactions.{announce_completed}
use chain_rail.Withdrawals.Settlement.{confirmed_row}
use chain_rail.Withdrawals.Rows.{lock_withdrawal}
use chain_rail.Withdrawals.Transactions.{settle_in_flight}
use chain_rail.Withdrawals.Outcome.{IsReleased, fail_and_release_signed}
use chain_rail.Withdrawals.Settlement.{completed_row}
use chain_rail.Withdrawals.Service.{release_if}
use chain_rail.Withdrawals.Transactions.{fail_locked}
use chain_rail.Withdrawals.Transactions.{settle_as}
use chain_rail.Withdrawals.Rows.{find_withdrawal}
use chain_rail.Base.{
  ℕ, ◌+◌, ◌≡◌, refl, true, false, [], ◌∷◌, none, some, Text, codes, pos, ◌+ℤ◌, ◌-ℤ◌, ◌*ℤ◌,
}
use chain_rail.Common.Result.{Result, ok, err}
use chain_rail.Models.AccountType.{AccountType}
use chain_rail.Models.Asset.{Asset}
use chain_rail.Withdrawals.Transactions.{native_symbol}
use chain_rail.Models.Withdrawal.{WithdrawalStatus}
use chain_rail.Ledger.Tables.{LedgerAccount}
use chain_rail.Ledger.Accounts.{account_of}
use chain_rail.Withdrawals.Rows.{Withdrawal, Store}
use chain_rail.Withdrawals.Transactions.{settle_success, fail_and_release}

abbrev pub text_of : ℕ → Text
text_of i = i ∷ []

abbrev pub hash_of : Text → ℕ
hash_of s = 9

abbrev clearing : LedgerAccount
clearing = record (account_of 1 AccountType.withdrawal_clearing none 5) { balance = pos 100 }

abbrev reserved : LedgerAccount
reserved = record (account_of 2 AccountType.user_reserved (some 7) 5) { balance = pos 100 }

abbrev available : LedgerAccount
available = account_of 4 AccountType.user_available (some 7) 5

abbrev pub withdrawal : WithdrawalStatus → Withdrawal
withdrawal status = record {
  id = 3;
  user_id = 7;
  asset_id = 5;
  chain = codes "c";
  destination_address = codes "0xd";
  amount_raw = pos 100;
  status = status;
  idempotency_key = codes "key-0001";
  request_fingerprint = codes "f";
  tx_hash = some (codes "0xh");
  nonce = some (pos 4);
  gas_limit = none;
  max_fee_per_gas = none;
  max_priority_fee_per_gas = none;
  fee_paid_raw = none;
  block_number = none;
  confirmations = pos 0;
  broadcast_attempts = 1;
  reserve_ledger_transaction_id = some 6;
  settle_ledger_transaction_id = none;
  failure_code = none;
  correlation_id = none;
  has_completed_at = false;
  created_at = 1000;
}

abbrev pub asset : Asset
asset = record {
  id = 5;
  symbol = codes "T";
  chain = codes "c";
  contract_address = some (codes "0xt");
  decimals = 6;
}

abbrev pub store : WithdrawalStatus → Store
store status = record {
  ledger = record {
    accounts = clearing ∷ reserved ∷ available ∷ [];
    transactions = [];
    entries = [];
    supply = λ n. n + 10;
    drawn = 0;
  };
  withdrawals = withdrawal status ∷ [];
  assets = asset ∷ [];
  addresses = [];
  nonces = [];
  outbox = [];
}

-- The tables that an answer leaves, and others where there is none.
abbrev left : {A : Type 0} → Store → Result (A × Store) → Store
left s (ok (a, s')) = s'
left s (err e) = s

abbrev settled : Store
settled = left (store WithdrawalStatus.broadcast) (
    settle_success text_of hash_of (withdrawal WithdrawalStatus.broadcast) 20 12 (pos 3)
      (store WithdrawalStatus.broadcast))

settles :
    settle_success text_of hash_of
      (withdrawal WithdrawalStatus.broadcast)
      20
      12
      (pos 3)
      (store WithdrawalStatus.broadcast)
    ≡ ok (tt, settled)
unfolding native_symbol settle_success settle_as settle_in_flight announce_completed
    charge_native_fee charge_fee lock_withdrawal get_asset_by_id update_confirmations mark_completed
    update_where write_found check_row enqueue settle_withdrawal user_account system_account resolve
    or_insert post_transaction insert_transaction finish_posting insert_entries insert_entry
    apply_to validate net net_from check_net checked_add ordered_entries sort_by_key insert_by_key
    ◌+ℤ◌ ◌*ℤ◌ ◌-ℤ◌ trim trim_start trim_end is_whitespace
settles = refl

settle_success_once_example :
    ((t : ℕ) × (find_withdrawal 3 settled.withdrawals
        ≡ some (
            completed_row t (pos 3) (confirmed_row 20 12 (withdrawal WithdrawalStatus.broadcast)))))
    × ((w' : Withdrawal) (b' c' : ℕ) (fee' : Amount)
        → w'.id ≡ 3
        → settle_success text_of hash_of w' b' c' fee' settled ≡ ok (tt, settled))
settle_success_once_example =
    settle_success_once text_of hash_of (withdrawal WithdrawalStatus.broadcast)
      (withdrawal WithdrawalStatus.broadcast) 20 12 (pos 3) (store WithdrawalStatus.broadcast)
      settled refl refl settles

abbrev failed : Store
failed = left (store WithdrawalStatus.signing) (
    fail_and_release text_of hash_of
      (record (withdrawal WithdrawalStatus.approved) { tx_hash = none }) (codes "rpc_error")
      (store WithdrawalStatus.signing))

-- The caller has read the row before it was signed.
fails :
    fail_and_release text_of hash_of
      (record (withdrawal WithdrawalStatus.approved) { tx_hash = none })
      (codes "rpc_error")
      (store WithdrawalStatus.signing)
    ≡ ok (true, failed)
unfolding fail_and_release fail_locked release_if lock_withdrawal mark_failed update_where
    write_found check_row enqueue enqueue_failure release_reservation user_account resolve or_insert
    post_transaction insert_transaction finish_posting insert_entries insert_entry apply_to validate
    net net_from check_net checked_add ordered_entries sort_by_key insert_by_key ◌+ℤ◌ ◌*ℤ◌ ◌-ℤ◌ trim
    trim_start trim_end is_whitespace
fails = refl

fail_and_release_signed_example :
    (true ≡ true)
    × ((v' : Withdrawal) × (find_withdrawal 3 failed.withdrawals ≡ some v')
        × (v'.status ≡ WithdrawalStatus.failed)
        × (v'.tx_hash ≡ some (codes "0xh")))
    × IsReleased text_of
        (record (withdrawal WithdrawalStatus.approved) { tx_hash = none })
        (store WithdrawalStatus.signing).ledger
        failed.ledger
fail_and_release_signed_example =
    fail_and_release_signed text_of hash_of
      (record (withdrawal WithdrawalStatus.approved) { tx_hash = none })
      (withdrawal WithdrawalStatus.signing) (codes "rpc_error") (codes "0xh") 6
      (store WithdrawalStatus.signing) failed true refl refl refl refl fails

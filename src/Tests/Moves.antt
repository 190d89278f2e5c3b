-- ===== src/Tests/Moves.antt =====
-- A user (7) with 60 reserved of asset 5: a credit, a settlement and a release.
use chain_rail.Base.{
  ℕ, ◌+◌, ◌≡◌, refl, false, List, [], ◌∷◌, none, some, Text, codes, pos, negsuc, ◌+ℤ◌, ◌-ℤ◌, ◌*ℤ◌,
  ℤ,
}
use chain_rail.Common.Result.{ok}
use chain_rail.Common.Money.{Direction, checked_add}
use chain_rail.Common.Money.Parse.{trim, trim_start, trim_end, is_whitespace}
use chain_rail.Models.AccountType.{AccountType}
use chain_rail.Ledger.Posting.{
  TransactionKind, ReferenceType, validate, net, net_from, check_net, ordered_entries, sort_by_key,
  insert_by_key,
}
use chain_rail.Ledger.Tables.{
  Ledger, LedgerAccount, LedgerTransaction, LedgerEntry, insert_entry, apply_to,
}
use chain_rail.Ledger.Accounts.{account_of, user_account, system_account, resolve, or_insert}
use chain_rail.Ledger.Service.{
  PostResult, transaction_of, post_transaction, insert_transaction, finish_posting, insert_entries,
}
use chain_rail.Ledger.Operations.{credit_deposit, settle_withdrawal, release_reservation, draft}
use chain_rail.Ledger.Operations.Moves.{IsMoved, credit_deposit-IsMoved, settle_withdrawal-IsMoved}

abbrev text_of : ℕ → Text
text_of i = i ∷ []

-- The balances of custody, of the user's spendable and reserved funds, and of clearing.
abbrev rows : ℤ → ℤ → ℤ → ℤ → List LedgerAccount
rows custody available reserved clearing =
    (record (account_of 1 AccountType.exchange_custody none 5) { balance = custody })
    ∷ (record (account_of 2 AccountType.user_available (some 7) 5) { balance = available })
    ∷ (record (account_of 3 AccountType.user_reserved (some 7) 5) { balance = reserved })
    ∷ (record (account_of 4 AccountType.withdrawal_clearing none 5) { balance = clearing })
    ∷ []

abbrev tables : List LedgerAccount → List LedgerTransaction → List LedgerEntry → ℕ → Ledger
tables accts ts es n = record {
  accounts = accts;
  transactions = ts;
  entries = es;
  supply = λ i. i + 10;
  drawn = n;
}

abbrev before : Ledger
before = tables (rows (pos 60) (pos 0) (pos 60) (pos 0)) [] [] 0

abbrev entry : ℕ → Direction → ℤ → LedgerEntry
entry i d b = record {
  ledger_transaction_id = 10;
  row = record { account_id = i; asset_id = 5; amount = pos 60; direction = d };
  balance_after = b;
}

abbrev credited : LedgerTransaction
credited = transaction_of 10 (
    draft text_of TransactionKind.deposit_credit ReferenceType.deposit 8 (codes "deposit_credit:")
      none (codes "deposit credited after confirmation"))

abbrev settled : LedgerTransaction
settled = transaction_of 10 (
    draft text_of TransactionKind.withdrawal_settle ReferenceType.withdrawal 8
      (codes "withdrawal_settle:") none (codes "withdrawal confirmed on chain"))

abbrev released : LedgerTransaction
released = transaction_of 10 (
    draft text_of TransactionKind.withdrawal_release ReferenceType.withdrawal 8
      (codes "withdrawal_release:") none (codes "withdrawal cancelled or failed before broadcast"))

abbrev after_credit : Ledger
after_credit =
    tables (rows (pos 120) (pos 60) (pos 60) (pos 0)) (credited ∷ [])
      (entry 2 Direction.credit (pos 60) ∷ entry 1 Direction.debit (pos 120) ∷ []) 1

abbrev after_settle : Ledger
after_settle =
    tables (rows (pos 60) (pos 0) (pos 0) (negsuc 59)) (settled ∷ [])
      (entry 4 Direction.credit (negsuc 59) ∷ entry 3 Direction.debit (pos 0) ∷ []) 1

abbrev after_release : Ledger
after_release =
    tables (rows (pos 60) (pos 60) (pos 0) (pos 0)) (released ∷ [])
      (entry 3 Direction.debit (pos 0) ∷ entry 2 Direction.credit (pos 60) ∷ []) 1

credits :
    credit_deposit text_of 8 7 5 (pos 60) none before
    ≡ ok (PostResult.posted credited, after_credit)
unfolding credit_deposit user_account system_account resolve or_insert post_transaction
    insert_transaction finish_posting insert_entries insert_entry apply_to validate net net_from
    check_net checked_add ordered_entries sort_by_key insert_by_key ◌+ℤ◌ ◌*ℤ◌ ◌-ℤ◌ trim trim_start
    trim_end is_whitespace
credits = refl

settles :
    settle_withdrawal text_of 8 7 5 (pos 60) none before
    ≡ ok (PostResult.posted settled, after_settle)
unfolding settle_withdrawal user_account system_account resolve or_insert post_transaction
    insert_transaction finish_posting insert_entries insert_entry apply_to validate net net_from
    check_net checked_add ordered_entries sort_by_key insert_by_key ◌+ℤ◌ ◌*ℤ◌ ◌-ℤ◌ trim trim_start
    trim_end is_whitespace
settles = refl

releases :
    release_reservation text_of 8 7 5 (pos 60) none before
    ≡ ok (PostResult.posted released, after_release)
unfolding release_reservation user_account system_account resolve or_insert post_transaction
    insert_transaction finish_posting insert_entries insert_entry apply_to validate net net_from
    check_net checked_add ordered_entries sort_by_key insert_by_key ◌+ℤ◌ ◌*ℤ◌ ◌-ℤ◌ trim trim_start
    trim_end is_whitespace
releases = refl

credit_deposit-IsMoved_example :
    IsMoved
      (system_account AccountType.exchange_custody 5)
      (user_account AccountType.user_available 7 5)
      false
      (pos 60)
      before
      after_credit
credit_deposit-IsMoved_example =
    credit_deposit-IsMoved text_of 8 7 5 (pos 60) none (PostResult.posted credited) before
      after_credit credits refl

settle_withdrawal-IsMoved_example :
    IsMoved
      (user_account AccountType.user_reserved 7 5)
      (system_account AccountType.withdrawal_clearing 5)
      false
      (pos 60)
      before
      after_settle
settle_withdrawal-IsMoved_example =
    settle_withdrawal-IsMoved text_of 8 7 5 (pos 60) none (PostResult.posted settled) before
      after_settle settles refl

-- ===== src/Ledger/Operations.antt =====
-- crates/ledger/src/operations.rs: every money movement, as a posting between resolved accounts.
-- The text of a UUID, which stands in the idempotency keys, is a parameter.
pub mod Sound
pub mod Calls
pub mod Moves
use chain_rail.Base.{
  ℕ, Bool, true, false, List, [], ◌∷◌, ◌++◌, Option, none, some, Text, codes, if◌then◌else◌, ℤ, pos,
  leb_ℤ, ltb_ℤ,
}
use chain_rail.Common.Error.{Error}
use chain_rail.Common.Result.{Result, ok, err, M, ◌>>=◌, ◌>>◌, pure, throw, lift, guard}
use chain_rail.Common.Money.{Amount, is_positive, is_zero, checked_sub}
use chain_rail.Models.AccountType.{AccountType}
use chain_rail.Ledger.Posting.{
  TransactionKind, ReferenceType, Posting, new, with_correlation, with_description, debit, credit,
}
use chain_rail.Ledger.Tables.{Ledger, LedgerAccount}
use chain_rail.Ledger.Accounts.{user_account, system_account, lock_user_account, balance_or_zero}
use chain_rail.Ledger.Service.{PostResult, post_transaction}

-- `require_positive`
abbrev pub require_positive : Amount → M Ledger (Unit {0})
require_positive amount = guard (is_positive amount) Error.invalid_amount

-- `from_available` in `reverse_deposit_credit`
abbrev pub part_available : Amount → Amount → Amount
part_available current amount =
    if leb_ℤ amount current then amount else if ltb_ℤ current (pos 0) then pos 0 else current

-- The debit of the spendable balance, where there is one.
abbrev pub debit_available : ℕ → ℕ → Amount → Posting → Posting
debit_available available asset amount p =
    if is_positive amount then debit available asset amount p else p

-- The debit of the receivable, where there is a shortfall.
pub debit_deficit : ℕ → ℕ → Amount → Posting → M Ledger Posting
debit_deficit user asset shortfall p =
    if is_positive shortfall
    then (do
      deficit ← user_account AccountType.user_deficit user asset
      pure (debit deficit asset shortfall p))
    else pure p

module _ (uuid_text : ℕ → Text) where
  -- The posting of each operation, before its entries.
  abbrev pub draft : TransactionKind → ReferenceType → ℕ → Text → Option Text → Text → Posting
  draft kind reference i prefix correlation description =
      with_description description
        (with_correlation correlation (new kind reference (some i) (prefix ++ uuid_text i)))

  unfoldable pub credit_deposit : ℕ → ℕ → ℕ → Amount → Option Text → M Ledger PostResult
  credit_deposit deposit_id user asset amount correlation = do
    require_positive amount
    custody ← system_account AccountType.exchange_custody asset
    available ← user_account AccountType.user_available user asset
    post_transaction (
        credit available asset amount (
          debit custody asset amount (
            draft TransactionKind.deposit_credit ReferenceType.deposit deposit_id
              (codes "deposit_credit:") correlation (codes "deposit credited after confirmation"))))

  pub reverse_deposit_credit : ℕ → ℕ → ℕ → Amount → Option Text → M Ledger PostResult
  reverse_deposit_credit deposit_id user asset amount correlation = do
    require_positive amount
    custody ← system_account AccountType.exchange_custody asset
    available ← user_account AccountType.user_available user asset
    locked ← lock_user_account AccountType.user_available user asset
    shortfall ← lift (checked_sub amount (part_available (balance_or_zero locked) amount))
    posting ← debit_deficit user asset shortfall (
        debit_available available asset (part_available (balance_or_zero locked) amount) (
          credit custody asset amount (
            draft TransactionKind.deposit_reversal ReferenceType.reorg deposit_id
              (codes "deposit_reversal:") correlation
              (codes "credited deposit invalidated by chain reorganisation"))))
    post_transaction posting

  pub reserve_withdrawal : ℕ → ℕ → ℕ → Amount → Option Text → M Ledger PostResult
  reserve_withdrawal withdrawal_id user asset amount correlation = do
    require_positive amount
    available ← user_account AccountType.user_available user asset
    reserved ← user_account AccountType.user_reserved user asset
    locked ← lock_user_account AccountType.user_available user asset
    guard (leb_ℤ amount (balance_or_zero locked)) Error.insufficient_balance
    post_transaction (
        credit reserved asset amount (
          debit available asset amount (
            draft TransactionKind.withdrawal_reserve ReferenceType.withdrawal withdrawal_id
              (codes "withdrawal_reserve:") correlation (codes "funds reserved for withdrawal"))))

  unfoldable pub release_reservation : ℕ → ℕ → ℕ → Amount → Option Text → M Ledger PostResult
  release_reservation withdrawal_id user asset amount correlation = do
    require_positive amount
    available ← user_account AccountType.user_available user asset
    reserved ← user_account AccountType.user_reserved user asset
    post_transaction (
        credit available asset amount (
          debit reserved asset amount (
            draft TransactionKind.withdrawal_release ReferenceType.withdrawal withdrawal_id
              (codes "withdrawal_release:") correlation
              (codes "withdrawal cancelled or failed before broadcast"))))

  pub record_broadcast : ℕ → ℕ → Amount → Option Text → M Ledger PostResult
  record_broadcast withdrawal_id asset amount correlation = do
    require_positive amount
    custody ← system_account AccountType.exchange_custody asset
    clearing ← system_account AccountType.withdrawal_clearing asset
    post_transaction (
        credit custody asset amount (
          debit clearing asset amount (
            draft TransactionKind.withdrawal_broadcast ReferenceType.withdrawal withdrawal_id
              (codes "withdrawal_broadcast:") correlation
              (codes "withdrawal transaction broadcast"))))

  unfoldable pub settle_withdrawal : ℕ → ℕ → ℕ → Amount → Option Text → M Ledger PostResult
  settle_withdrawal withdrawal_id user asset amount correlation = do
    require_positive amount
    reserved ← user_account AccountType.user_reserved user asset
    clearing ← system_account AccountType.withdrawal_clearing asset
    post_transaction (
        credit clearing asset amount (
          debit reserved asset amount (
            draft TransactionKind.withdrawal_settle ReferenceType.withdrawal withdrawal_id
              (codes "withdrawal_settle:") correlation (codes "withdrawal confirmed on chain"))))

  pub reverse_broadcast : ℕ → ℕ → Amount → Option Text → M Ledger PostResult
  reverse_broadcast withdrawal_id asset amount correlation = do
    require_positive amount
    custody ← system_account AccountType.exchange_custody asset
    clearing ← system_account AccountType.withdrawal_clearing asset
    post_transaction (
        credit clearing asset amount (
          debit custody asset amount (
            draft TransactionKind.withdrawal_broadcast_reversal ReferenceType.withdrawal
              withdrawal_id (codes "withdrawal_broadcast_reversal:") correlation
              (codes "broadcast transaction failed on chain; value returned to custody"))))

  -- The part of `record_network_fee` behind the test for a zero fee.
  pub charge_network_fee : ℕ → ℕ → Amount → Option Text → M Ledger PostResult
  charge_network_fee withdrawal_id native_asset fee correlation = do
    require_positive fee
    custody ← system_account AccountType.exchange_custody native_asset
    fee_account ← system_account AccountType.network_fee native_asset
    post_transaction (
        credit custody native_asset fee (
          debit fee_account native_asset fee (
            draft TransactionKind.network_fee ReferenceType.withdrawal withdrawal_id
              (codes "network_fee:") correlation (codes "gas paid for withdrawal"))))

  pub record_network_fee : ℕ → ℕ → Amount → Option Text → M Ledger (Option PostResult)
  record_network_fee withdrawal_id native_asset fee correlation =
      if is_zero fee then pure none else (do
        posted ← charge_network_fee withdrawal_id native_asset fee correlation
        pure (some posted))

  pub fund_custody : ℕ → Amount → Text → Option Text → M Ledger PostResult
  fund_custody asset amount reference correlation = do
    require_positive amount
    custody ← system_account AccountType.exchange_custody asset
    treasury ← system_account AccountType.treasury asset
    post_transaction (
        credit treasury asset amount (
          debit custody asset amount (
            with_description (codes "hot wallet funded from exchange treasury") (
              with_correlation correlation (
                new TransactionKind.adjustment ReferenceType.manual none
                  (codes "custody_funding:" ++ reference))))))

-- ===== src/Ledger/Accounts.antt =====
-- crates/ledger/src/accounts.rs: accounts are resolved, and created on first use. The rows of
-- `users` and `assets` that an account refers to are taken to be there.
pub mod Quiet
use chain_rail.Base.{
  ℕ, ◌+◌, Bool, true, false, ◌&&◌, List, [], ◌∷◌, Option, none, some, ◌==◌, if◌then◌else◌, ℤ, pos,
  any,
}
use chain_rail.Common.Error.{Error}
use chain_rail.Common.Result.{Result, ok, err, M, ◌>>=◌, pure, throw, gets, lift, ok_or}
use chain_rail.Common.Money.{Amount, fits_i128}
use chain_rail.Models.AccountType.{
  AccountType, is_user_scoped, same_type, normal_balance, allows_negative,
}
use chain_rail.Ledger.Tables.{Ledger, LedgerAccount, find_account}

abbrev pub same_owner : Option ℕ → Option ℕ → Bool
same_owner none none = true
same_owner none (some v) = false
same_owner (some u) none = false
same_owner (some u) (some v) = u == v

-- The columns of the unique indexes on `ledger_accounts`.
abbrev pub is_for : AccountType → Option ℕ → ℕ → LedgerAccount → Bool
is_for kind owner asset a =
    same_type a.account_type kind && same_owner a.owner_user_id owner && a.asset_id == asset

abbrev pub find_row : AccountType → Option ℕ → ℕ → List LedgerAccount → Option LedgerAccount
find_row kind owner asset [] = none
find_row kind owner asset (a ∷ later) =
    if is_for kind owner asset a then some a else find_row kind owner asset later

abbrev pub id_of : Option LedgerAccount → Option ℕ
id_of none = none
id_of (some a) = some a.id

-- SELECT id FROM ledger_accounts WHERE ...
abbrev pub select_id : AccountType → Option ℕ → ℕ → M Ledger (Option ℕ)
select_id kind owner asset = gets (λ l. id_of (find_row kind owner asset l.accounts))

abbrev pub has_account : ℕ → List LedgerAccount → Bool
has_account i accts = any (λ (a : LedgerAccount). a.id == i) accts

-- A new row: the balance is 0 by default.
abbrev pub account_of : ℕ → AccountType → Option ℕ → ℕ → LedgerAccount
account_of i kind owner asset = record {
  id = i;
  account_type = kind;
  owner_user_id = owner;
  asset_id = asset;
  normal_balance = normal_balance kind;
  balance = pos 0;
  allow_negative = allows_negative kind;
}

-- INSERT ... ON CONFLICT DO NOTHING RETURNING id
unfoldable pub insert_account : AccountType → Option ℕ → ℕ → M Ledger (Option ℕ)
insert_account kind owner asset l = elim (find_row kind owner asset l.accounts) [
  | some a ↦ ok (none, l)
  | none ↦
      let i = l.supply l.drawn in
      if has_account i l.accounts
      then err Error.conflict
      else ok (
        some i,
        record l { accounts = account_of i kind owner asset ∷ l.accounts; drawn = l.drawn + 1 },
      )
]

-- What follows the insert: the identifier, or another look.
unfoldable pub or_select : AccountType → Option ℕ → ℕ → Option ℕ → M Ledger ℕ
or_select kind owner asset (some i) = pure i
or_select kind owner asset none = do
  winner ← select_id kind owner asset
  lift (ok_or winner Error.internal)

-- What follows the first look.
unfoldable pub or_insert : AccountType → Option ℕ → ℕ → Option ℕ → M Ledger ℕ
or_insert kind owner asset (some i) = pure i
or_insert kind owner asset none = do
  created ← insert_account kind owner asset
  or_select kind owner asset created

-- The part that `user_account` and `system_account` share.
unfoldable pub resolve : AccountType → Option ℕ → ℕ → M Ledger ℕ
resolve kind owner asset = do
  existing ← select_id kind owner asset
  or_insert kind owner asset existing

-- `user_account`
unfoldable pub user_account : AccountType → ℕ → ℕ → M Ledger ℕ
user_account kind user asset =
    if is_user_scoped kind then resolve kind (some user) asset else throw Error.internal

-- `system_account`
unfoldable pub system_account : AccountType → ℕ → M Ledger ℕ
system_account kind asset =
    if is_user_scoped kind then throw Error.internal else resolve kind none asset

pub get_account : ℕ → M Ledger LedgerAccount
get_account i l = lift (ok_or (find_account i l.accounts) Error.not_found) l

-- A row is decoded with its balance, which must be an `i128`.
abbrev pub decode : Option LedgerAccount → Result (Option LedgerAccount)
decode none = ok none
decode (some a) = if fits_i128 a.balance then ok (some a) else err Error.database

abbrev pub balance_or_zero : Option LedgerAccount → Amount
balance_or_zero none = pos 0
balance_or_zero (some a) = a.balance

-- `lock_user_account`
pub lock_user_account : AccountType → ℕ → ℕ → M Ledger (Option LedgerAccount)
lock_user_account kind user asset l = lift (decode (find_row kind (some user) asset l.accounts)) l

abbrev pub balance_of : Option LedgerAccount → Result Amount
balance_of none = ok (pos 0)
balance_of (some a) = if fits_i128 a.balance then ok a.balance else err Error.database

-- `user_balance`
pub user_balance : AccountType → ℕ → ℕ → M Ledger Amount
user_balance kind user asset l = lift (balance_of (find_row kind (some user) asset l.accounts)) l

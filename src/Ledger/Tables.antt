-- ===== src/Ledger/Tables.antt =====
-- The ledger tables of migrations/0003_ledger.sql with their constraints and triggers, as
-- crates/ledger and crates/database/src/models.rs use them. `gen_random_uuid` is a supply of
-- numbers of which nothing is assumed: the primary keys are tested on every insert. Timestamps and
-- the identifiers of entries are left out.
pub mod Balances
pub mod Growth
use chain_rail.Base.{
  ℕ, ◌+◌, ◌^◌, ◌≡◌, Bool, true, false, ◌&&◌, not, List, [], ◌∷◌, Option, none, some, Text, text_eq,
  ltb, ◌==◌, if◌then◌else◌, ℤ, pos, size, ◌+ℤ◌, ◌-ℤ◌, -ℤ◌, ◌*ℤ◌, ltb_ℤ, length, filter, find, any,
}
use chain_rail.Common.Error.{Error}
use chain_rail.Common.Result.{Result, ok, err, M}
use chain_rail.Common.Money.{Amount, Direction, sign, is_positive, is_zero, same_direction}
use chain_rail.Models.AccountType.{AccountType}
use chain_rail.Ledger.Posting.{TransactionKind, ReferenceType, EntryRequest}

-- A row of `ledger_accounts`.
pub record LedgerAccount : Type 0 where
  pub id : ℕ
  pub account_type : AccountType
  pub owner_user_id : Option ℕ
  pub asset_id : ℕ
  pub normal_balance : Direction
  pub balance : ℤ
  pub allow_negative : Bool

-- A row of `ledger_transactions`.
pub record LedgerTransaction : Type 0 where
  pub id : ℕ
  pub kind : TransactionKind
  pub reference_type : ReferenceType
  pub reference_id : Option ℕ
  pub idempotency_key : Text
  pub correlation_id : Option Text
  pub description : Option Text

-- A row of `ledger_entries`; the newest stands first.
pub record LedgerEntry : Type 0 where
  pub ledger_transaction_id : ℕ
  pub row : EntryRequest
  pub balance_after : ℤ

pub record Ledger : Type 0 where
  pub accounts : List LedgerAccount
  pub transactions : List LedgerTransaction
  pub entries : List LedgerEntry
  pub supply : ℕ → ℕ
  pub drawn : ℕ

-- `gen_random_uuid()`
abbrev pub draw : M Ledger ℕ
draw l = ok (l.supply l.drawn, record l { drawn = l.drawn + 1 })

abbrev pub find_account : ℕ → List LedgerAccount → Option LedgerAccount
find_account i [] = none
find_account i (a ∷ later) = if a.id == i then some a else find_account i later

abbrev pub set_balance : ℕ → ℤ → List LedgerAccount → List LedgerAccount
set_balance i b [] = []
set_balance i b (a ∷ later) =
    let rest = set_balance i b later in
    if a.id == i then record a { balance = b } ∷ later else a ∷ rest

-- NUMERIC(78, 0)
abbrev pub fits_numeric : ℤ → Bool
fits_numeric b = ltb (size b) (10 ^ 78)

-- `delta` of the trigger `ledger_apply_entry`, added: an entry in the account's normal direction
-- increases the balance.
abbrev pub moved_balance : LedgerAccount → EntryRequest → ℤ
moved_balance a e =
    if same_direction e.direction a.normal_balance
    then a.balance +ℤ e.amount
    else a.balance -ℤ e.amount

-- Whether CHECK ledger_accounts_non_negative refuses a balance.
abbrev pub is_overdrawn : LedgerAccount → ℤ → Bool
is_overdrawn a b = ltb_ℤ b (pos 0) && not a.allow_negative

-- The row that the trigger `ledger_apply_entry` writes for an account that it found.
unfoldable pub apply_to : ℕ → EntryRequest → Option LedgerAccount → M Ledger (Unit {0})
apply_to t e none l = err Error.validation
apply_to t e (some a) l =
    let b = moved_balance a e in
    if not (a.asset_id == e.asset_id)
    then err Error.validation
    else if not (fits_numeric b)
    then err Error.database
    else if is_overdrawn a b
    then err Error.insufficient_balance
    else if not (is_positive e.amount)
    then err Error.validation
    else ok (
      tt,
      record l {
        accounts = set_balance e.account_id b l.accounts;
        entries = (record { ledger_transaction_id = t; row = e; balance_after = b }) ∷ l.entries;
      },
    )

-- An INSERT into `ledger_entries`, with its trigger and the constraints that it can break, mapped to
-- errors by crates/database/src/error.rs.
unfoldable pub insert_entry : ℕ → EntryRequest → M Ledger (Unit {0})
unfolding apply_to
insert_entry t e l = apply_to t e (find_account e.account_id l.accounts) l

-- The sum of the entries that a test picks, debits positive.
abbrev pub contribution : EntryRequest → ℤ
contribution e = sign e.direction *ℤ e.amount

unfoldable pub sum_rows : (EntryRequest → Bool) → List EntryRequest → ℤ
sum_rows p [] = pos 0
sum_rows p (e ∷ es) = (if p e then contribution e else pos 0) +ℤ sum_rows p es

-- The requests behind the stored entries.
abbrev pub rows : List LedgerEntry → List EntryRequest
rows [] = []
rows (e ∷ es) = e.row ∷ rows es

abbrev pub of_transaction : ℕ → List LedgerEntry → List EntryRequest
of_transaction t [] = []
of_transaction t (e ∷ es) =
    let rest = of_transaction t es in if e.ledger_transaction_id == t then e.row ∷ rest else rest

abbrev pub everything : EntryRequest → Bool
everything e = true

-- The deferred trigger `ledger_assert_balanced` for one transaction.
unfoldable pub assert_balanced : ℕ → Ledger → Result (Unit {0})
unfolding sum_rows
assert_balanced t l =
    let rows = of_transaction t l.entries in
    if ltb (length rows) 2
    then err Error.unbalanced_ledger_transaction
    else if not (is_zero (sum_rows everything rows))
    then err Error.unbalanced_ledger_transaction
    else ok tt

unfoldable pub assert_all : List LedgerEntry → Ledger → Result (Unit {0})
assert_all [] l = ok tt
assert_all (e ∷ es) l = elim (assert_balanced e.ledger_transaction_id l) [
  | ok u ↦ assert_all es l
  | err x ↦ err x
]

-- What COMMIT answers when the entries of the whole table are asserted.
unfoldable pub commit : Ledger → Result (Unit {0})
unfolding assert_all
commit l = assert_all l.entries l

-- ===== src/Tests/Deposits.antt =====
-- A store with one deposit, of user 7 in asset 5.
use mathlib.Core.List.{Memᴰ}
use chain_rail.Base.{
  true, ℕ, ◌+◌, ◌≡◌, refl, List, [], ◌∷◌, none, some, Text, codes, pos, ◌+ℤ◌, ◌-ℤ◌, ◌*ℤ◌, arith,
}
use chain_rail.Common.Result.{ok}
use chain_rail.Common.Money.{Direction, checked_add}
use chain_rail.Common.Money.Parse.{trim, trim_start, trim_end, is_whitespace}
use chain_rail.Models.AccountType.{AccountType}
use chain_rail.Models.Deposit.{DepositStatus}
use chain_rail.Models.Asset.{Asset}
use chain_rail.Ledger.Posting.{
  TransactionKind, ReferenceType, Posting, validate, net, net_from, check_net, ordered_entries,
  sort_by_key, insert_by_key, debit, credit,
}
use chain_rail.Ledger.Tables.{LedgerAccount, insert_entry, apply_to}
use chain_rail.Ledger.Accounts.{account_of, user_account, system_account, resolve, or_insert}
use chain_rail.Ledger.Service.{
  transaction_of, post_transaction, insert_transaction, finish_posting, insert_entries,
}
use chain_rail.Ledger.Operations.{credit_deposit, draft}
use chain_rail.Events.Outbox.{row_of}
use chain_rail.Deposits.{
  Deposit, Store, find_deposit, lock_deposit, get_asset_by_id, mark_credited, enqueue,
}
use chain_rail.Deposits.Credit as Credit
use chain_rail.Events.Consumer.{HandlerOutcome}
use chain_rail.Deposits.Credit.{CreditOutcome, Envelope, handle, credited_event}
use chain_rail.Deposits.Credit.Once.{IsCredited, credit_once, claimed}
use chain_rail.Deposits.Credit.Consumed.{envelope_of, credit_handler, process_swallows}
use chain_rail.Events.Consumer.{Desk, process}
use chain_rail.Tests.Consumer.{kafka, event, pool, scale}
use chain_rail.Deposits.{is_claimed, mark_credited}
use chain_rail.Base.{◌⊎◌}
use chain_rail.Deposits.Lifecycle.{Step, step_all, is_dead, step-credited, dead_stays_dead}
use chain_rail.Deposits.Ancestor.{IsForkPoint, find_common_ancestor_highest}

abbrev text_of : ℕ → Text
text_of i = i ∷ []

abbrev hash_of : Text → ℕ
hash_of s = 9

abbrev custody : LedgerAccount
custody = account_of 1 AccountType.exchange_custody none 5

abbrev available : LedgerAccount
available = account_of 2 AccountType.user_available (some 7) 5

abbrev deposit : DepositStatus → Deposit
deposit status = record {
  id = 3;
  user_id = 7;
  blockchain_transaction_id = 4;
  asset_id = 5;
  amount_raw = pos 100;
  confirmations = 12;
  status = status;
  ledger_transaction_id = none;
  reversal_ledger_transaction_id = none;
  failure_reason = none;
}

abbrev asset : Asset
asset = record {
  id = 5;
  symbol = codes "E";
  chain = codes "c";
  contract_address = none;
  decimals = 18;
}

abbrev store : DepositStatus → Store
store status = record {
  ledger = record {
    accounts = custody ∷ available ∷ [];
    transactions = [];
    entries = [];
    supply = λ n. n + 10;
    drawn = 0;
  };
  deposits = deposit status ∷ [];
  assets = asset ∷ [];
  processed = [];
  outbox = [];
}

abbrev posting : Posting
posting = credit 2 5 (pos 100) (
    debit 1 5 (pos 100) (
      draft text_of TransactionKind.deposit_credit ReferenceType.deposit 3 (codes "deposit_credit:")
        (some (codes "x")) (codes "deposit credited after confirmation")))

abbrev credited : Store
credited = record {
  ledger = record {
    accounts =
        (record custody { balance = pos 100 }) ∷ (record available { balance = pos 100 }) ∷ [];
    transactions = transaction_of 10 posting ∷ [];
    entries =
        (record {
          ledger_transaction_id = 10;
          row = record {
            account_id = 2;
            asset_id = 5;
            amount = pos 100;
            direction = Direction.credit;
          };
          balance_after = pos 100;
        })
        ∷ (record {
          ledger_transaction_id = 10;
          row = record {
            account_id = 1;
            asset_id = 5;
            amount = pos 100;
            direction = Direction.debit;
          };
          balance_after = pos 100;
        })
        ∷ [];
    supply = λ n. n + 10;
    drawn = 1;
  };
  deposits = (record (deposit DepositStatus.credited) { ledger_transaction_id = some 10 }) ∷ [];
  assets = asset ∷ [];
  processed = [];
  outbox =
      row_of text_of
        (credited_event text_of hash_of (deposit DepositStatus.confirmed) asset 10 (codes "x"))
      ∷ [];
}

credits :
    Credit.credit text_of hash_of 3 (codes "x") (store DepositStatus.confirmed)
    ≡ ok (CreditOutcome.credited, credited)
unfolding Credit.credit Credit.credit_as Credit.credit_confirmed Credit.announce lock_deposit
    get_asset_by_id mark_credited enqueue credit_deposit user_account system_account resolve
    or_insert post_transaction insert_transaction finish_posting insert_entries insert_entry
    apply_to validate net net_from check_net checked_add ordered_entries sort_by_key insert_by_key
    ◌+ℤ◌ ◌*ℤ◌ ◌-ℤ◌ trim trim_start trim_end is_whitespace
credits = refl

-- Later tables, in which the event has been claimed.
abbrev credited_later : Store
credited_later = record credited { processed = (codes "deposit_credit", 8) ∷ [] }

credit_once_example :
    ((d : Deposit) × (find_deposit 3 (store DepositStatus.confirmed).deposits ≡ some d)
      × (d.status ≡ DepositStatus.confirmed)
      × IsCredited text_of hash_of 3 (codes "x") d (store DepositStatus.confirmed) credited)
    × (Credit.credit text_of hash_of 3 (codes "y") credited
        ≡ ok (CreditOutcome.already_credited, credited))
    × (Credit.credit text_of hash_of 3 (codes "y") credited_later
        ≡ ok (CreditOutcome.already_credited, credited_later))
credit_once_example =
    credit_once text_of hash_of 3 (codes "x") (codes "y") (store DepositStatus.confirmed) credited
      credited_later (record (deposit DepositStatus.credited) { ledger_transaction_id = some 10 })
      credits refl refl

abbrev envelope : Envelope
envelope = record { event_id = 8; correlation_id = codes "x"; payload = some 3 }

abbrev desk : Desk Store
desk = record {
  store = store DepositStatus.confirming;
  dead_letters = [];
  handled = 0;
  calls = 0;
  slept = 0;
}

process_swallows_example :
    ((after : Desk Store) × (process pool scale kafka (credit_handler text_of hash_of) event [] desk
        ≡ some (ok tt, after))
      × (after.dead_letters ≡ [])
      × (after.store ≡ claimed (envelope_of event) (store DepositStatus.confirming)))
    × ((later : Store)
        → is_claimed (codes "deposit_credit") 9 later.processed ≡ true
        → handle text_of hash_of (envelope_of event) later ≡ (ok HandlerOutcome.done, later))
process_swallows_example =
    process_swallows text_of hash_of pool scale kafka event [] desk 3
      (deposit DepositStatus.confirming) (omega arith) refl refl refl refl refl refl

abbrev stored : List (ℕ × Text)
stored = (12, codes "c") ∷ (11, codes "b") ∷ (10, codes "a") ∷ []

abbrev chain : List (ℕ × Text)
chain = (12, codes "z") ∷ (11, codes "b") ∷ (10, codes "a") ∷ []

find_common_ancestor_highest_example : IsForkPoint 10 stored chain
find_common_ancestor_highest_example =
    find_common_ancestor_highest stored chain 10 (codes "a")
      ((omega arith, (omega arith, tt)), ((omega arith, tt), (tt, tt)))
      (Memᴰ.tail (Memᴰ.tail (Memᴰ.head refl))) refl

abbrev crediting : Step
crediting = Step.credited 3 10

step-credited_example :
    (DepositStatus.confirmed ≡ DepositStatus.confirmed)
    ⊎ (DepositStatus.confirmed ≡ DepositStatus.credited)
unfolding mark_credited
step-credited_example =
    step-credited text_of hash_of (codes "c") crediting (store DepositStatus.confirmed) 3
      (deposit DepositStatus.confirmed)
      (record (deposit DepositStatus.credited) { ledger_transaction_id = some 10 }) refl refl refl

abbrev steps : List Step
steps = Step.reorged 3 none (codes "fork") ∷ Step.credited 3 10 ∷ []

dead_stays_dead_example :
    (d' : Deposit) × (find_deposit 3
        (step_all text_of hash_of (codes "c") steps (store DepositStatus.failed)).deposits
      ≡ some d')
    × (is_dead d'.status ≡ true)
dead_stays_dead_example =
    dead_stays_dead text_of hash_of (codes "c") steps (store DepositStatus.failed) 3
      (deposit DepositStatus.failed) refl refl

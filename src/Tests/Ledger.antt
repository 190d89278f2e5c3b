-- ===== src/Tests/Ledger.antt =====
-- Postings between two accounts: custody (1) and the spendable balance of a user (2), in asset 5.
use chain_rail.Base.{
  ℕ, ◌+◌, ◌≡◌, refl, false, List, [], ◌∷◌, none, some, Text, codes, ℤ, pos, ◌+ℤ◌, ◌-ℤ◌, ◌*ℤ◌, -ℤ◌,
  arith, ◌==◌, Bool-cases, inl, inr, ◌≤◌,
}
use chain_rail.Common.Result.{ok}
use chain_rail.Common.Money.{Direction, checked_add}
use chain_rail.Common.Money.Parse.{trim, trim_start, trim_end, is_whitespace}
use chain_rail.Common.Money.Balance.{total}
use chain_rail.Models.AccountType.{AccountType}
use chain_rail.Ledger.Posting.{
  TransactionKind, ReferenceType, EntryRequest, Posting, new, debit, credit, is_bad_key, validate,
  net, net_from, check_net, ordered_entries, sort_by_key, insert_by_key,
}
use chain_rail.Ledger.Posting.Validate.{legs, AllPositive, validate_sound, validate_complete}
use chain_rail.Ledger.Posting.Order.{IsLockOrdered, sum_by, ordered_entries-IsLockOrdered}
use chain_rail.Ledger.Tables.{
  Ledger, LedgerAccount, LedgerTransaction, insert_entry, apply_to, sum_rows,
}
use chain_rail.Ledger.Tables.Balances.{signed_total}
use chain_rail.Ledger.Accounts.{account_of}
use chain_rail.Ledger.Service.{
  PostResult, transaction_of, post_transaction, insert_transaction, finish_posting, insert_entries,
}
use chain_rail.Ledger.Service.Soundness.{IsSound, post_transaction-IsSound}
use chain_rail.Ledger.Service.Idempotency.{post_transaction_idempotent, post_transaction_conserves}
use chain_rail.Ledger.Operations.Calls.{Call, transact_all, no_rows, transact_all-IsSound}

abbrev key : Text
key = codes "k"

abbrev posting : Posting
posting =
    credit 2 5 (pos 100)
      (debit 1 5 (pos 100) (new TransactionKind.deposit_credit ReferenceType.deposit (some 3) key))

abbrev custody : LedgerAccount
custody = account_of 1 AccountType.exchange_custody none 5

abbrev available : LedgerAccount
available = account_of 2 AccountType.user_available (some 7) 5

abbrev before : Ledger
before = record {
  accounts = custody ∷ available ∷ [];
  transactions = [];
  entries = [];
  supply = λ n. n + 10;
  drawn = 0;
}

abbrev row : LedgerTransaction
row = transaction_of 10 posting

abbrev debited : EntryRequest
debited = record { account_id = 1; asset_id = 5; amount = pos 100; direction = Direction.debit }

abbrev credited : EntryRequest
credited = record { account_id = 2; asset_id = 5; amount = pos 100; direction = Direction.credit }

abbrev after : Ledger
after = record {
  accounts = (record custody { balance = pos 100 }) ∷ (record available { balance = pos 100 }) ∷ [];
  transactions = row ∷ [];
  entries =
      (record { ledger_transaction_id = 10; row = credited; balance_after = pos 100 })
      ∷ (record { ledger_transaction_id = 10; row = debited; balance_after = pos 100 })
      ∷ [];
  supply = λ n. n + 10;
  drawn = 1;
}

accepted : validate posting ≡ ok tt
unfolding validate net net_from check_net checked_add ◌+ℤ◌ ◌*ℤ◌ trim trim_start trim_end
    is_whitespace
accepted = refl

posts : post_transaction posting before ≡ ok (PostResult.posted row, after)
unfolding post_transaction insert_transaction finish_posting insert_entries insert_entry apply_to
    validate net net_from check_net checked_add ordered_entries sort_by_key insert_by_key ◌+ℤ◌ ◌*ℤ◌
    ◌-ℤ◌ trim trim_start trim_end is_whitespace
posts = refl

before-IsSound : IsSound before
unfolding sum_rows -ℤ◌
before-IsSound = record {
  reconciled = λ j. elim (Bool-cases (1 == j)) [
    | inl p ↦ rw p refl
    | inr p ↦ rw p (elim (Bool-cases (2 == j)) [ inl q ↦ rw q refl | inr q ↦ rw q refl ])
  ];
  non_negative = (refl, (refl, tt));
  known = λ s h. refl;
  balanced = λ s h. absurd (cc h);
}

post_transaction-IsSound_example : IsSound after
post_transaction-IsSound_example =
    post_transaction-IsSound posting (PostResult.posted row) before after before-IsSound posts

post_transaction_idempotent_example :
    post_transaction posting after ≡ ok (PostResult.already_posted row, after)
post_transaction_idempotent_example =
    post_transaction_idempotent posting posting (PostResult.posted row) before after posts accepted
      refl

post_transaction_conserves_example : signed_total 5 after.accounts ≡ signed_total 5 before.accounts
post_transaction_conserves_example =
    post_transaction_conserves posting (PostResult.posted row) before after 5 5 (refl, (refl, tt))
      posts

-- Funding, a deposit, a withdrawal that is reserved, sent, paid for and settled, and a deposit that
-- is reversed.
abbrev calls : List Call
calls =
    Call.custody_funded 5 (pos 1000) (codes "r") none
    ∷ Call.deposit_credited 1 7 5 (pos 100) none
    ∷ Call.reserved 2 7 5 (pos 60) none
    ∷ Call.broadcast 2 5 (pos 60) none
    ∷ Call.fee_charged 2 5 (pos 3) none
    ∷ Call.settled 2 7 5 (pos 60) none
    ∷ Call.deposit_reversed 1 7 5 (pos 100) none
    ∷ []

transact_all-IsSound_example :
    IsSound (transact_all (λ i. i ∷ []) calls (no_rows (λ n. n)))
    × ((y : ℕ)
        → signed_total y (transact_all (λ i. i ∷ []) calls (no_rows (λ n. n))).accounts ≡ pos 0)
transact_all-IsSound_example = transact_all-IsSound (λ i. i ∷ []) (λ n. n) calls

validate_sound_example :
    (is_bad_key key ≡ false)
    × (2 ≤ 2)
    × AllPositive posting.entries
    × (total Direction.debit (legs posting.entries) ≡ total Direction.credit (legs posting.entries))
validate_sound_example = validate_sound posting accepted

validate_complete_example : validate posting ≡ ok tt
unfolding trim trim_start trim_end is_whitespace
validate_complete_example =
    validate_complete posting refl (omega arith) (refl, (refl, tt)) refl (omega arith)

ordered_entries-IsLockOrdered_example :
    IsLockOrdered (ordered_entries posting)
    × ((f : EntryRequest → ℤ) → sum_by f (ordered_entries posting) ≡ sum_by f posting.entries)
ordered_entries-IsLockOrdered_example = ordered_entries-IsLockOrdered posting

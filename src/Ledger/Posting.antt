-- ===== src/Ledger/Posting.antt =====
-- crates/ledger/src/posting.rs: the construction and validation of a posting. Identifiers are the
-- numbers that a UUID stands for, whose order is the order of `Uuid`.
pub mod Validate
pub mod Order
use chain_rail.Base.{
  ℕ, ◌+◌, Bool, true, false, ◌||◌, ◌&&◌, not, List, [], ◌∷◌, ◌++◌, map, Option, none, some, Text,
  codes, ltb, leb, ◌==◌, if◌then◌else◌, ℤ, pos, length, filter, all,
}
use chain_rail.Common.Error.{Error}
use chain_rail.Common.Result.{Result, ok, err, and_then}
use chain_rail.Common.Money.{
  Amount, Direction, is_positive, is_zero, add_signed, checked_sum, same_direction,
}
use chain_rail.Common.Money.Parse.{trim}

pub data TransactionKind : Type 0 where
  deposit_credit deposit_reversal withdrawal_reserve withdrawal_release : TransactionKind
  withdrawal_broadcast withdrawal_settle withdrawal_broadcast_reversal : TransactionKind
  network_fee adjustment : TransactionKind

pub data ReferenceType : Type 0 where
  deposit withdrawal manual reorg : ReferenceType

pub record EntryRequest : Type 0 where
  pub account_id : ℕ
  pub asset_id : ℕ
  pub amount : Amount
  pub direction : Direction

pub record Posting : Type 0 where
  pub kind : TransactionKind
  pub reference_type : ReferenceType
  pub reference_id : Option ℕ
  pub idempotency_key : Text
  pub correlation_id : Option Text
  pub description : Option Text
  pub entries : List EntryRequest

-- `Posting::new`
abbrev pub new : TransactionKind → ReferenceType → Option ℕ → Text → Posting
new kind reference_type reference_id key = record {
  kind = kind;
  reference_type = reference_type;
  reference_id = reference_id;
  idempotency_key = key;
  correlation_id = none;
  description = none;
  entries = [];
}

abbrev pub with_correlation : Option Text → Posting → Posting
with_correlation c p = record p { correlation_id = c }

abbrev pub with_description : Text → Posting → Posting
with_description d p = record p { description = some d }

-- `Posting::debit` and `Posting::credit` push an entry behind those there.
abbrev pub debit : ℕ → ℕ → Amount → Posting → Posting
debit account asset amount p = record p {
  entries =
      p.entries
      ++ (record {
        account_id = account;
        asset_id = asset;
        amount = amount;
        direction = Direction.debit;
      })
        ∷ [];
}

abbrev pub credit : ℕ → ℕ → Amount → Posting → Posting
credit account asset amount p = record p {
  entries =
      p.entries
      ++ (record {
        account_id = account;
        asset_id = asset;
        amount = amount;
        direction = Direction.credit;
      })
        ∷ [];
}

unfoldable pub net_from : ℤ → List EntryRequest → Result ℤ
net_from net [] = ok net
net_from net (e ∷ es) = and_then (add_signed net e.direction e.amount) (λ net'. net_from net' es)

-- `Posting::net`
unfoldable pub net : Posting → Result ℤ
net p = net_from (pos 0) p.entries

-- `str::len` counts bytes of UTF-8.
abbrev utf8_len : ℕ → ℕ
utf8_len c = if ltb c 0x80 then 1 else if ltb c 0x800 then 2 else if ltb c 0x10000 then 3 else 4

abbrev pub byte_len : Text → ℕ
byte_len [] = 0
byte_len (c ∷ s) = utf8_len c + byte_len s

abbrev is_empty : Text → Bool
is_empty [] = true
is_empty (c ∷ s) = false

-- Whether an idempotency key is refused.
abbrev pub is_bad_key : Text → Bool
is_bad_key k = is_empty (trim k) || ltb 200 (byte_len k)

unfoldable pub check_net : ℤ → Result (Unit {0})
check_net n = if is_zero n then ok tt else err Error.unbalanced_ledger_transaction

-- `Posting::validate`
unfoldable pub validate : Posting → Result (Unit {0})
validate p =
    if is_bad_key p.idempotency_key
    then err Error.validation
    else if ltb (length p.entries) 2
    then err Error.unbalanced_ledger_transaction
    else if not (all (λ (e : EntryRequest). is_positive e.amount) p.entries)
    then err Error.invalid_amount
    else and_then (net p) check_net

-- The order of "credit" and "debit" as texts.
abbrev direction_leb : Direction → Direction → Bool
direction_leb Direction.debit Direction.credit = false
direction_leb _ _ = true

-- The order of the sort key `(account_id, direction.as_str())`.
abbrev pub key_leb : EntryRequest → EntryRequest → Bool
key_leb x y =
    ltb x.account_id y.account_id
    || x.account_id == y.account_id && direction_leb x.direction y.direction

-- `sort_by_key` is stable: an entry goes in front of those that are not smaller.
unfoldable pub insert_by_key : EntryRequest → List EntryRequest → List EntryRequest
insert_by_key x [] = x ∷ []
insert_by_key x (y ∷ ys) =
    let rest = insert_by_key x ys in if key_leb x y then x ∷ y ∷ ys else y ∷ rest

unfoldable pub sort_by_key : List EntryRequest → List EntryRequest
sort_by_key [] = []
sort_by_key (x ∷ xs) = insert_by_key x (sort_by_key xs)

-- `Posting::ordered_entries`
unfoldable pub ordered_entries : Posting → List EntryRequest
ordered_entries p = sort_by_key p.entries

side : Direction → Posting → Result Amount
side d p = checked_sum (
    map (λ (e : EntryRequest). e.amount)
      (filter (λ (e : EntryRequest). same_direction e.direction d) p.entries))

pub total_debits : Posting → Result Amount
unfolding side
total_debits = side Direction.debit

pub total_credits : Posting → Result Amount
unfolding side
total_credits = side Direction.credit

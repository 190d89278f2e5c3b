-- ===== src/Withdrawals/Rows.antt =====
-- The tables of the withdrawal path, and the statements of crates/database/src/repo/withdrawals.rs
-- with the constraints and the trigger of migrations/0005_withdrawals.sql. Texts that are made for
-- people are left out, and of the timestamps all but the one of creation, in seconds.
use chain_rail.Base.{
  ℕ, ◌+◌, Bool, true, false, ◌&&◌, ◌||◌, not, List, [], ◌∷◌, Option, none, some, Text, text_eq,
  ◌==◌, if◌then◌else◌, ℤ, leb, length, is_lowercase,
}
use chain_rail.Common.Error.{Error}
use chain_rail.Common.Result.{Result, ok, err, M, ◌>>=◌, pure, lift, ok_or}
use chain_rail.Common.Money.{Amount, is_positive}
use chain_rail.Models.Withdrawal.{
  WithdrawalStatus, same_status, transition_to, guard_transition, as_str, funds_may_have_left,
}
use chain_rail.Models.Asset.{Asset, find_asset}
use chain_rail.Ledger.Tables.{Ledger}
use chain_rail.Events.{EventEnvelope}
use chain_rail.Events.Outbox.{OutboxRow, insert_event}
use chain_rail.Withdrawals.Nonce.{NonceRow, as_i64}

-- A row of `withdrawals`; of `completed_at` whether it is set.
pub record Withdrawal : Type 0 where
  pub id : ℕ
  pub user_id : ℕ
  pub asset_id : ℕ
  pub chain : Text
  pub destination_address : Text
  pub amount_raw : Amount
  pub status : WithdrawalStatus
  pub idempotency_key : Text
  pub request_fingerprint : Text
  pub tx_hash : Option Text
  pub nonce : Option ℤ
  pub gas_limit : Option ℤ
  pub max_fee_per_gas : Option Amount
  pub max_priority_fee_per_gas : Option Amount
  pub fee_paid_raw : Option Amount
  pub block_number : Option ℤ
  pub confirmations : ℤ
  pub broadcast_attempts : ℕ
  pub reserve_ledger_transaction_id : Option ℕ
  pub settle_ledger_transaction_id : Option ℕ
  pub failure_code : Option Text
  pub correlation_id : Option Text
  pub has_completed_at : Bool
  pub created_at : ℕ

-- A row of `deposit_addresses`.
pub record DepositAddress : Type 0 where
  pub chain : Text
  pub address : Text
  pub user_id : ℕ

pub record Store : Type 0 where
  pub ledger : Ledger
  pub withdrawals : List Withdrawal
  pub assets : List Asset
  pub addresses : List DepositAddress
  pub nonces : List NonceRow
  pub outbox : List OutboxRow

abbrev pub is_some {ℓ} : {A : Type ℓ} → Option A → Bool
is_some none = false
is_some (some a) = true

abbrev pub or_else {ℓ} : {A : Type ℓ} → A → Option A → A
or_else a none = a
or_else a (some b) = b

-- A computation on the ledger's tables, in the same transaction.
abbrev pub in_ledger : {A : Type 0} → M Ledger A → M Store A
in_ledger m s = elim (m s.ledger) [ ok (a, l') ↦ ok (a, record s { ledger = l' }) | err e ↦ err e ]

-- The same on the nonces.
abbrev pub in_nonces : {A : Type 0} → M (List NonceRow) A → M Store A
in_nonces m s = elim (m s.nonces) [ ok (a, n') ↦ ok (a, record s { nonces = n' }) | err e ↦ err e ]

-- `outbox::enqueue`
unfoldable pub enqueue : (ℕ → Text) → EventEnvelope → M Store (Unit {0})
enqueue uuid_text e s = ok (tt, record s { outbox = insert_event uuid_text e s.outbox })

abbrev pub find_withdrawal : ℕ → List Withdrawal → Option Withdrawal
find_withdrawal i [] = none
find_withdrawal i (w ∷ ws) = if w.id == i then some w else find_withdrawal i ws

-- `get_withdrawal` and `lock_withdrawal`
unfoldable pub lock_withdrawal : ℕ → M Store Withdrawal
lock_withdrawal i s = lift (ok_or (find_withdrawal i s.withdrawals) Error.not_found) s

-- `get_asset_by_id` of crates/database/src/repo/reference.rs
unfoldable pub get_asset_by_id : ℕ → M Store Asset
get_asset_by_id i s = lift (ok_or (find_asset i s.assets) Error.not_found) s

-- `owner_of_address` of crates/database/src/repo/reference.rs
abbrev pub owner_in : Text → Text → List DepositAddress → Option ℕ
owner_in chain address [] = none
owner_in chain address (a ∷ later) =
    if text_eq a.chain chain && text_eq a.address address
    then some a.user_id
    else owner_in chain address later

abbrev pub set_row : ℕ → Withdrawal → List Withdrawal → List Withdrawal
set_row i new [] = []
set_row i new (w ∷ ws) = let rest = set_row i new ws in if w.id == i then new ∷ ws else w ∷ rest

-- Each CHECK constraint of the table, and all of them: that of `status` holds by its type, and that of
-- the length of the key counts characters. `lower` is that of ASCII.
abbrev pub has_hash : Withdrawal → Bool
has_hash w = not (funds_may_have_left w.status) || is_some w.tx_hash

abbrev pub has_settlement : Withdrawal → Bool
has_settlement w =
    if same_status w.status WithdrawalStatus.completed
    then is_some w.settle_ledger_transaction_id && w.has_completed_at
    else not (is_some w.settle_ledger_transaction_id && w.has_completed_at)

abbrev pub has_code : Withdrawal → Bool
has_code w = not (same_status w.status WithdrawalStatus.failed) || is_some w.failure_code

abbrev pub has_lowercase_hash : Option Text → Bool
has_lowercase_hash none = true
has_lowercase_hash (some h) = is_lowercase h

abbrev pub has_key_length : Text → Bool
has_key_length key = leb 8 (length key) && leb (length key) 128

unfoldable pub is_consistent : Withdrawal → Bool
is_consistent w =
    is_positive w.amount_raw
    && is_lowercase w.destination_address
    && has_lowercase_hash w.tx_hash
    && has_hash w
    && has_settlement w
    && has_code w
    && has_key_length w.idempotency_key

-- What the trigger and the CHECK constraints make of the new version of a row.
unfoldable pub check_row : Withdrawal → Withdrawal → Result Withdrawal
unfolding is_consistent guard_transition as_str
check_row old new =
    if not (guard_transition (as_str old.status) (as_str new.status))
    then err Error.invalid_state_transition
    else if not (is_consistent new)
    then err Error.validation
    else ok new

-- An UPDATE of the row that was found: whether it met the test, and the rows.
unfoldable pub write_found :
    ℕ → (Withdrawal → Bool) → (Withdrawal → Withdrawal) → Option Withdrawal → M Store Bool
unfolding check_row
write_found i p f none s = ok (false, s)
write_found i p f (some w) s =
    if p w
    then elim (check_row w (f w)) [
      | ok new ↦ ok (true, record s { withdrawals = set_row i new s.withdrawals })
      | err e ↦ err e
    ]
    else ok (false, s)

-- UPDATE withdrawals SET ... WHERE id = $1 AND a test
unfoldable pub update_where : ℕ → (Withdrawal → Bool) → (Withdrawal → Withdrawal) → M Store Bool
unfolding write_found
update_where i p f s = write_found i p f (find_withdrawal i s.withdrawals) s

abbrev pub in_status : WithdrawalStatus → Withdrawal → Bool
in_status status w = same_status w.status status

-- status IN ('broadcast', 'confirming')
abbrev pub in_flight : Withdrawal → Bool
in_flight w = in_status WithdrawalStatus.broadcast w || in_status WithdrawalStatus.confirming w

-- `transition`
unfoldable pub transition : ℕ → WithdrawalStatus → WithdrawalStatus → M Store Bool
transition i from next = lift (transition_to from next) >>= λ to.
    update_where i (in_status from) (λ w. record w { status = next })

-- `attach_reservation`
unfoldable pub attach_reservation : ℕ → ℕ → M Store (Unit {0})
attach_reservation i t =
    update_where i (λ _. true) (λ w. record w { reserve_ledger_transaction_id = some t }) >>= λ _.
    pure tt

pub record SignedTxFacts : Type 0 where
  pub tx_hash : Text
  pub nonce : ℕ
  pub gas_limit : ℕ
  pub max_fee_per_gas : Amount
  pub max_priority_fee_per_gas : Amount

-- The row with a signed transaction.
abbrev pub signed_row : SignedTxFacts → Withdrawal → Withdrawal
signed_row facts w = record w {
  tx_hash = some facts.tx_hash;
  nonce = some (as_i64 facts.nonce);
  gas_limit = some (as_i64 facts.gas_limit);
  max_fee_per_gas = some facts.max_fee_per_gas;
  max_priority_fee_per_gas = some facts.max_priority_fee_per_gas;
  broadcast_attempts = w.broadcast_attempts + 1;
}

-- `record_signed_transaction`
unfoldable pub record_signed_transaction : ℕ → SignedTxFacts → M Store (Unit {0})
record_signed_transaction i facts = update_where i (λ _. true) (signed_row facts) >>= λ _. pure tt

-- `mark_broadcast`
unfoldable pub mark_broadcast : ℕ → M Store Bool
mark_broadcast i =
    update_where i (in_status WithdrawalStatus.signing)
      (λ w. record w { status = WithdrawalStatus.broadcast })

-- CASE WHEN status = 'broadcast' THEN 'confirming' ELSE status END
abbrev pub confirming_from : WithdrawalStatus → WithdrawalStatus
confirming_from WithdrawalStatus.broadcast = WithdrawalStatus.confirming
confirming_from s = s

-- `update_confirmations`
unfoldable pub update_confirmations : ℕ → ℕ → ℕ → M Store (Unit {0})
update_confirmations i block_number confirmations =
    update_where i in_flight (λ w. record w {
      block_number = some (as_i64 block_number);
      confirmations = as_i64 confirmations;
      status = confirming_from w.status;
    })
    >>= λ _. pure tt

-- `mark_completed`
unfoldable pub mark_completed : ℕ → ℕ → Amount → M Store Bool
mark_completed i settle fee = update_where i in_flight (λ w. record w {
  status = WithdrawalStatus.completed;
  settle_ledger_transaction_id = some settle;
  fee_paid_raw = some fee;
  has_completed_at = true;
})

-- `mark_failed`
unfoldable pub mark_failed : ℕ → WithdrawalStatus → Text → M Store Bool
mark_failed i from code =
    update_where i (in_status from)
      (λ w. record w { status = WithdrawalStatus.failed; failure_code = some code })

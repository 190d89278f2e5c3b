-- ===== src/Withdrawals/Requests.antt =====
-- What the service reads and inserts for a request: `create_withdrawal` and
-- `sum_recent_withdrawals` of crates/database/src/repo/withdrawals.rs. The conflict on the key and
-- the look at the row it conflicts with see the same rows.
use chain_rail.Base.{
  ℕ, ◌+◌, ◌-◌, ◌*◌, ◌^◌, Bool, false, ◌&&◌, ◌||◌, not, List, [], ◌∷◌, Option, none, some, Text,
  text_eq, leb, ◌==◌, if◌then◌else◌, ℤ, pos, ◌+ℤ◌, length, filter, any, min, is_lowercase,
}
use chain_rail.Common.Error.{Error}
use chain_rail.Common.Result.{Result, ok, err, M, ◌>>=◌}
use chain_rail.Common.Money.{Amount, is_positive, fits_i128}
use chain_rail.Common.Address.{Address, storage_key}
use chain_rail.Models.Withdrawal.{WithdrawalStatus, same_status}
use chain_rail.Ledger.Tables.{draw}
use chain_rail.Withdrawals.Rows.{Withdrawal, Store, in_ledger, is_some, has_key_length}

pub record NewWithdrawal : Type 0 where
  pub user_id : ℕ
  pub asset_id : ℕ
  pub chain : Text
  pub destination : Address
  pub amount_raw : Amount
  pub idempotency_key : Text
  pub request_fingerprint : Text
  pub correlation_id : Option Text

pub data CreateOutcome : Type 0 where
  created : Withdrawal → CreateOutcome
  existing : Withdrawal → CreateOutcome

-- WHERE user_id = $1 AND idempotency_key = $2
abbrev pub find_key : ℕ → Text → List Withdrawal → Option Withdrawal
find_key user key [] = none
find_key user key (w ∷ ws) =
    if w.user_id == user && text_eq w.idempotency_key key then some w else find_key user key ws

-- The row of a request, with its identifier and the time.
abbrev pub row_of : ℕ → ℕ → NewWithdrawal → Withdrawal
row_of i now new = record {
  id = i;
  user_id = new.user_id;
  asset_id = new.asset_id;
  chain = new.chain;
  destination_address = storage_key new.destination;
  amount_raw = new.amount_raw;
  status = WithdrawalStatus.requested;
  idempotency_key = new.idempotency_key;
  request_fingerprint = new.request_fingerprint;
  tx_hash = none;
  nonce = none;
  gas_limit = none;
  max_fee_per_gas = none;
  max_priority_fee_per_gas = none;
  fee_paid_raw = none;
  block_number = none;
  confirmations = pos 0;
  broadcast_attempts = 0;
  reserve_ledger_transaction_id = none;
  settle_ledger_transaction_id = none;
  failure_code = none;
  correlation_id = new.correlation_id;
  has_completed_at = false;
  created_at = now;
}

-- The CHECK constraints that depend on what is requested.
abbrev pub meets_constraints : NewWithdrawal → Bool
meets_constraints new =
    is_positive new.amount_raw
    && is_lowercase (storage_key new.destination)
    && has_key_length new.idempotency_key

abbrev pub has_row : ℕ → List Withdrawal → Bool
has_row i ws = any (λ (w : Withdrawal). w.id == i) ws

-- The INSERT where the key is new: the primary key is drawn, and both keys are tested.
unfoldable pub add_row : ℕ → NewWithdrawal → ℕ → M Store CreateOutcome
add_row now new i s =
    if has_row i s.withdrawals || is_some (find_key new.user_id new.idempotency_key s.withdrawals)
    then err Error.conflict
    else ok (
      CreateOutcome.created (row_of i now new),
      record s { withdrawals = row_of i now new ∷ s.withdrawals },
    )

-- What follows the INSERT that met a row with the same key.
unfoldable pub compare_body : NewWithdrawal → Withdrawal → M Store CreateOutcome
compare_body new w s =
    if text_eq w.request_fingerprint new.request_fingerprint
    then ok (CreateOutcome.existing w, s)
    else err Error.idempotency_key_conflict

unfoldable pub insert_or_compare : ℕ → NewWithdrawal → Option Withdrawal → M Store CreateOutcome
insert_or_compare now new none = in_ledger draw >>= add_row now new
insert_or_compare now new (some w) = compare_body new w

-- `create_withdrawal`
unfoldable pub create_withdrawal : ℕ → NewWithdrawal → M Store CreateOutcome
create_withdrawal now new s =
    if meets_constraints new
    then insert_or_compare now new (find_key new.user_id new.idempotency_key s.withdrawals) s
    else err Error.validation

-- created_at >= since AND status NOT IN ('failed', 'cancelled')
abbrev pub counts : ℕ → ℕ → ℕ → Withdrawal → Bool
counts user asset now w =
    w.user_id == user
    && w.asset_id == asset
    && leb now (w.created_at + 24 * 3600)
    && not (
        same_status w.status WithdrawalStatus.failed
        || same_status w.status WithdrawalStatus.cancelled)

pub total : List Withdrawal → ℤ
total [] = pos 0
total (w ∷ ws) = w.amount_raw +ℤ total ws

-- `sum_recent_withdrawals`, for the day that ends now: the sum must be an `i128`.
unfoldable pub sum_recent_withdrawals : ℕ → ℕ → ℕ → M Store (Amount × ℕ)
sum_recent_withdrawals user asset now s =
    let recent = filter (counts user asset now) s.withdrawals in
    if fits_i128 (total recent) then ok ((total recent, length recent), s) else err Error.database

-- `checked_sub(amount).unwrap_or(ZERO)`
abbrev pub sub_or_zero : Result Amount → Amount
sub_or_zero (ok a) = a
sub_or_zero (err e) = pos 0

-- `saturating_sub(1)` of an i64, and its conversion to u32, which -1 does not fit.
abbrev pub others_count : ℕ → ℕ
others_count n = if n == 0 then 2 ^ 32 - 1 else min (n - 1) (2 ^ 32 - 1)

-- ===== src/Deposits.antt =====
-- crates/deposits, with crates/database/src/repo/deposits.rs: the tables that the deposit path works
-- on, and the statements on `deposits`. Timestamps are left out.
pub mod Rows
pub mod Credit
pub mod Ancestor
pub mod Confirmations
pub mod Lifecycle
use chain_rail.Base.{
  ℕ, ◌+◌, Bool, true, false, ◌&&◌, ◌||◌, not, List, [], ◌∷◌, Option, none, some, Text, text_eq,
  ◌==◌, if◌then◌else◌, ℤ, pos, any, map,
}
use chain_rail.Common.Error.{Error}
use chain_rail.Common.Result.{Result, ok, err, M, lift, ok_or}
use chain_rail.Common.Money.{Amount, is_positive}
use chain_rail.Models.Deposit.{DepositStatus, same_deposit_status}
use chain_rail.Models.Asset.{Asset, find_asset}
use chain_rail.Ledger.Tables.{Ledger}
use chain_rail.Events.{EventEnvelope}
use chain_rail.Events.Outbox.{OutboxRow, insert_event}

-- A row of `deposits`.
pub record Deposit : Type 0 where
  pub id : ℕ
  pub user_id : ℕ
  pub blockchain_transaction_id : ℕ
  pub asset_id : ℕ
  pub amount_raw : Amount
  pub confirmations : ℕ
  pub status : DepositStatus
  pub ledger_transaction_id : Option ℕ
  pub reversal_ledger_transaction_id : Option ℕ
  pub failure_reason : Option Text

pub record Store : Type 0 where
  pub ledger : Ledger
  pub deposits : List Deposit
  pub assets : List Asset
  pub processed : List (Text × ℕ)
  pub outbox : List OutboxRow

-- A computation on the ledger's tables, in the same transaction.
abbrev pub in_ledger : {A : Type 0} → M Ledger A → M Store A
in_ledger m s = elim (m s.ledger) [ ok (a, l') ↦ ok (a, record s { ledger = l' }) | err e ↦ err e ]

abbrev pub find_deposit : ℕ → List Deposit → Option Deposit
find_deposit i [] = none
find_deposit i (d ∷ ds) = if d.id == i then some d else find_deposit i ds

-- `get_deposit` and `lock_deposit`
unfoldable pub lock_deposit : ℕ → M Store Deposit
lock_deposit i s = lift (ok_or (find_deposit i s.deposits) Error.not_found) s

-- `get_asset_by_id`
unfoldable pub get_asset_by_id : ℕ → M Store Asset
get_asset_by_id i s = lift (ok_or (find_asset i s.assets) Error.not_found) s

-- UPDATE deposits SET ... WHERE id = $1 AND a test: the rows, and whether the row was there.
abbrev pub update_where : ℕ → (Deposit → Bool) → (Deposit → Deposit) → List Deposit → List Deposit
update_where i p f [] = []
update_where i p f (d ∷ ds) =
    let rest = update_where i p f ds in
    if d.id == i then (if p d then f d else d) ∷ ds else d ∷ rest

abbrev pub matches_where : ℕ → (Deposit → Bool) → List Deposit → Bool
matches_where i p [] = false
matches_where i p (d ∷ ds) = if d.id == i then p d else matches_where i p ds

abbrev pub compare_and_set : ℕ → (Deposit → Bool) → (Deposit → Deposit) → M Store Bool
compare_and_set i p f s =
    ok (matches_where i p s.deposits, record s { deposits = update_where i p f s.deposits })

abbrev pub has_status : DepositStatus → Deposit → Bool
has_status status d = same_deposit_status d.status status

-- `update_confirmations`
unfoldable pub update_confirmations : ℕ → ℕ → DepositStatus → DepositStatus → M Store Bool
update_confirmations i confirmations expected next =
    compare_and_set i (has_status expected)
      (λ d. record d { confirmations = confirmations; status = next })

-- `mark_credited`
unfoldable pub mark_credited : ℕ → ℕ → M Store Bool
mark_credited i ledger_transaction_id = compare_and_set i (has_status DepositStatus.confirmed) (λ d.
    record d {
      status = DepositStatus.credited;
      ledger_transaction_id = some ledger_transaction_id;
    })

-- `mark_reorged`
unfoldable pub mark_reorged : ℕ → Option ℕ → Text → M Store Bool
mark_reorged i reversal reason =
    compare_and_set i (λ d. not (has_status DepositStatus.reorged d))
      (λ d. record d {
        status = DepositStatus.reorged;
        reversal_ledger_transaction_id = reversal;
        failure_reason = some reason;
      })

-- `outbox::enqueue`
unfoldable pub enqueue : (ℕ → Text) → EventEnvelope → M Store (Unit {0})
enqueue uuid_text e s = ok (tt, record s { outbox = insert_event uuid_text e s.outbox })

abbrev pub is_claimed : Text → ℕ → List (Text × ℕ) → Bool
is_claimed consumer event [] = false
is_claimed consumer event ((c, e) ∷ rows) =
    text_eq c consumer && e == event || is_claimed consumer event rows

-- `outbox::claim_event`
unfoldable pub claim_event : Text → ℕ → M Store Bool
claim_event consumer event s =
    if is_claimed consumer event s.processed
    then ok (false, s)
    else ok (true, record s { processed = (consumer, event) ∷ s.processed })

-- ===== src/Withdrawals/Service.antt =====
-- crates/withdrawals/src/service.rs. The hash function, the text of a UUID and the UUID of a name
-- (v5) are parameters; the clock, in seconds, and a drawn UUID for the correlation are arguments.
use chain_rail.Base.{
  ℕ, ◌+◌, ◌/◌, ◌%◌, Bool, true, false, ◌||◌, not, List, [], ◌∷◌, ◌++◌, Option, none, some, Text,
  codes, ltb, ◌==◌, if◌then◌else◌, byte_len, to_ascii_lowercase,
}
use chain_rail.Common.Error.{Error}
use chain_rail.Common.Result.{Result, ok, err, M, ◌>>=◌, ◌>>◌, pure, gets, guard, and_then, ok_or}
use chain_rail.Common.Money.{Amount, is_positive, checked_sub}
use chain_rail.Common.Money.Parse.{display}
use chain_rail.Common.Address.{Address, parse, storage_key}
use chain_rail.Common.Config.{AppConfig, ChainConfig, AssetConfig, chain, asset, is_evm}
use chain_rail.Models.AccountType.{AccountType}
use chain_rail.Models.Asset.{Asset, find_symbol}
use chain_rail.Models.Withdrawal.{WithdrawalStatus, same_status, is_terminal, funds_may_have_left}
use chain_rail.Risk.{RiskEngine, RiskInput, Decision, evaluate}
use chain_rail.Ledger.Accounts.{user_balance}
use chain_rail.Ledger.Service.{id}
use chain_rail.Ledger.Tables.{commit}
use chain_rail.Ledger.Operations.{reserve_withdrawal, release_reservation}
use chain_rail.Events.{EventEnvelope, EventPayload, named}
use chain_rail.Withdrawals.Rows.{
  Withdrawal, Store, is_some, or_else, in_ledger, enqueue, find_withdrawal, lock_withdrawal,
  owner_in, transition, attach_reservation, mark_failed,
}
use chain_rail.Withdrawals.Requests.{
  CreateOutcome, create_withdrawal, sum_recent_withdrawals, sub_or_zero, others_count,
}

pub record WithdrawalRequest : Type 0 where
  pub user_id : ℕ
  pub chain : Text
  pub asset_symbol : Text
  pub amount : Amount
  pub destination : Text
  pub idempotency_key : Text
  pub correlation_id : Option Text

pub data CreateResult : Type 0 where
  approved pending_approval idempotent : Withdrawal → CreateResult

-- What the transaction of a request comes to; the commit that follows differs.
pub data Verdict : Type 0 where
  replay : Withdrawal → Verdict
  denied : Text → Verdict
  accepted : Bool → ℕ → Verdict

-- `chain_config`
abbrev pub chain_config : AppConfig → Text → Result ChainConfig
chain_config cfg c = ok_or (chain cfg c) Error.unsupported_chain

-- `hex::encode`
abbrev pub hex_digit : ℕ → ℕ
hex_digit n = if ltb n 10 then n + b'0' else n + 87

abbrev pub hex_encode : List ℕ → Text
hex_encode [] = []
hex_encode (b ∷ bs) = hex_digit (b / 16) ∷ hex_digit (b % 16) ∷ hex_encode bs

-- COMMIT of what a transaction answers, and its roll-back on an error.
abbrev pub committed : {A : Type 0} → Store → Result (A × Store) → Result A × Store
committed s (err e) = (err e, s)
committed s (ok (a, s')) = elim (commit s'.ledger) [ ok u ↦ (ok a, s') | err e ↦ (err e, s) ]

abbrev pub run : {A : Type 0} → M Store A → Store → Result A × Store
run m s = committed s (m s)

-- The tests of an input before any work of the database.
abbrev pub is_key_length : Text → Bool
is_key_length key = not (ltb (byte_len key) 8 || ltb 128 (byte_len key))

abbrev pub hot_wallet_lower : Option Text → Option Text
hot_wallet_lower none = none
hot_wallet_lower (some w) = some (to_ascii_lowercase w)

abbrev pub is_foreign : ℕ → Option ℕ → Bool
is_foreign user none = false
is_foreign user (some owner) = not (owner == user)

-- The transaction of `approve`.
unfoldable pub approve_transaction : ℕ → M Store Bool
approve_transaction i = do
  w ← lock_withdrawal i
  guard (same_status w.status WithdrawalStatus.validated) Error.invalid_state_transition
  transition i WithdrawalStatus.validated WithdrawalStatus.approved

-- The row that is read after a commit.
abbrev pub reread : {A : Type 0} → ℕ → Result A × Store → Result Withdrawal × Store
reread i (err e, s) = (err e, s)
reread i (ok a, s) = (ok_or (find_withdrawal i s.withdrawals) Error.not_found, s)

-- `WithdrawalService::approve`
unfoldable pub approve : ℕ → Store → Result Withdrawal × Store
approve i s = reread i (run (approve_transaction i) s)

module _ (uuid_text : ℕ → Text) where
  -- The release in `cancel` and `fail_and_release`, where there is a reservation; the first argument
  -- is whether there is.
  unfoldable pub release_if : Bool → Withdrawal → M Store (Unit {0})
  release_if false w = pure tt
  release_if true w =
      in_ledger
        (release_reservation uuid_text w.id w.user_id w.asset_id w.amount_raw w.correlation_id)
      >>= λ released. pure tt

  -- The transaction of `cancel`.
  unfoldable pub cancel_transaction : ℕ → M Store Bool
  cancel_transaction i = do
    w ← lock_withdrawal i
    guard (not (funds_may_have_left w.status)) Error.conflict
    guard (not (is_terminal w.status)) Error.conflict
    release_if (is_some w.reserve_ledger_transaction_id) w
    transition w.id w.status WithdrawalStatus.cancelled

  -- `WithdrawalService::cancel`
  unfoldable pub cancel : ℕ → Store → Result Withdrawal × Store
  cancel i s = reread i (run (cancel_transaction i) s)

module _ (keccak256 : Text → List ℕ) (uuid_text : ℕ → Text) (uuid_v5 : Text → ℕ) where
  -- `WithdrawalRequest::fingerprint`
  unfoldable pub fingerprint : WithdrawalRequest → Text → Text
  fingerprint req destination = hex_encode (
      keccak256 (
        uuid_text req.user_id
        ++ codes "|"
        ++ req.chain
        ++ codes "|"
        ++ req.asset_symbol
        ++ codes "|"
        ++ display req.amount
        ++ codes "|"
        ++ destination))

  -- What the tests of the input come to: the chain, the asset and the destination.
  abbrev pub Checked : Type 0
  Checked = ChainConfig × AssetConfig × Address

  unfoldable pub check_request : AppConfig → WithdrawalRequest → Result Checked
  check_request cfg req = and_then (chain_config cfg req.chain) (λ c.
      and_then (if is_evm c.kind then ok c else err Error.unsupported_chain) (λ c.
        and_then (ok_or (asset c req.asset_symbol) Error.unsupported_asset) (λ a.
          and_then (parse keccak256 c.kind req.destination) (λ d.
            if not (is_positive req.amount)
            then err Error.invalid_amount
            else if not (is_key_length req.idempotency_key)
            then err Error.validation
            else ok (c, a, d)))))

  abbrev pub risk_input :
      WithdrawalRequest
      → ChainConfig
      → AssetConfig
      → Address
      → Amount
      → Amount × ℕ
      → Option ℕ
      → RiskInput
  risk_input req c a d available (daily_total, daily_count) owner = record {
    chain = req.chain;
    asset_symbol = req.asset_symbol;
    amount = req.amount;
    destination_lower = storage_key d;
    hot_wallet_lower = hot_wallet_lower c.hot_wallet_address;
    available_balance = available;
    daily_total = sub_or_zero (checked_sub daily_total req.amount);
    daily_count = others_count daily_count;
    is_foreign_deposit_address = is_foreign req.user_id owner;
    withdrawals_enabled_for_asset = a.withdrawals_enabled;
  }

  abbrev pub requested_event : WithdrawalRequest → Address → ℕ → Text → EventEnvelope
  requested_event req d i correlation =
      named uuid_v5
        (EventPayload.withdrawal_requested (record {
          withdrawal_id = i;
          user_id = req.user_id;
          chain = req.chain;
          asset = req.asset_symbol;
          amount_raw = req.amount;
          destination = d;
        }))
        correlation (uuid_text i)

  -- Step 5 where the request is not held.
  unfoldable pub approve_unless : Bool → ℕ → M Store (Unit {0})
  approve_unless true i = pure tt
  approve_unless false i =
      transition i WithdrawalStatus.validated WithdrawalStatus.approved >>= λ moved. pure tt

  -- Steps 3 to 5, for a request that is not denied.
  unfoldable pub accept : WithdrawalRequest → Asset → Address → Text → Bool → ℕ → M Store Verdict
  accept req asset d correlation held i = do
    moved ← transition i WithdrawalStatus.requested WithdrawalStatus.validated
    reservation ←
        in_ledger
          (reserve_withdrawal uuid_text i req.user_id asset.id req.amount (some correlation))
    attach_reservation i (id reservation)
    approve_unless held i
    enqueue uuid_text (requested_event req d i correlation)
    pure (Verdict.accepted held i)

  -- What follows the decision.
  unfoldable pub decide :
      WithdrawalRequest → Asset → Address → Text → ℕ → Decision → M Store Verdict
  decide req asset d correlation i (Decision.deny code) =
      mark_failed i WithdrawalStatus.requested code >>= λ done. pure (Verdict.denied code)
  decide req asset d correlation i Decision.allow = accept req asset d correlation false i
  decide req asset d correlation i (Decision.manual_approval code) =
      accept req asset d correlation true i

  -- Step 2, for a row that was inserted.
  unfoldable pub judge :
      RiskEngine → ℕ → WithdrawalRequest → Asset → Checked → Text → CreateOutcome → M Store Verdict
  judge engine now req asset checked correlation (CreateOutcome.existing w) =
      pure (Verdict.replay w)
  judge engine now req asset (c, a, d) correlation (CreateOutcome.created w) = do
    available ← in_ledger (user_balance AccountType.user_available req.user_id asset.id)
    daily ← sum_recent_withdrawals req.user_id asset.id now
    owner ← gets (λ (s : Store). owner_in req.chain (storage_key d) s.addresses)
    decide req asset d correlation w.id
        (evaluate engine (risk_input req c a d available daily owner))

  -- The transaction of a request.
  unfoldable pub request_transaction :
      RiskEngine → ℕ → WithdrawalRequest → Asset → Checked → Text → M Store Verdict
  request_transaction engine now req asset (c, a, d) correlation =
      create_withdrawal now (record {
        user_id = req.user_id;
        asset_id = asset.id;
        chain = req.chain;
        destination = d;
        amount_raw = req.amount;
        idempotency_key = req.idempotency_key;
        request_fingerprint = fingerprint req (storage_key d);
        correlation_id = some correlation;
      })
      >>= judge engine now req asset (c, a, d) correlation

  -- The answer, read after the commit.
  abbrev pub read_back : Bool → ℕ → Store → Result CreateResult × Store
  read_back held i s = elim (find_withdrawal i s.withdrawals) [
    | none ↦ (err Error.not_found, s)
    | some w ↦ (ok (if held then CreateResult.pending_approval w else CreateResult.approved w), s)
  ]

  -- What follows the commit.
  abbrev pub conclude : Result Verdict × Store → Result CreateResult × Store
  conclude (err e, s') = (err e, s')
  conclude (ok (Verdict.replay w), s') = (ok (CreateResult.idempotent w), s')
  conclude (ok (Verdict.denied code), s') = (err (Error.policy_denied code), s')
  conclude (ok (Verdict.accepted held i), s') = read_back held i s'

  -- What follows the transaction: a replay is rolled back, all else is committed.
  abbrev pub answer : Store → Result (Verdict × Store) → Result CreateResult × Store
  answer s (err e) = (err e, s)
  answer s (ok (Verdict.replay w, s')) = (ok (CreateResult.idempotent w), s)
  answer s (ok (Verdict.denied code, s')) = conclude (committed s (ok (Verdict.denied code, s')))
  answer s (ok (Verdict.accepted held i, s')) =
      conclude (committed s (ok (Verdict.accepted held i, s')))

  -- From the asset of the request on; `drawn` is the UUID for a correlation that is not given.
  unfoldable pub create_checked :
      RiskEngine → ℕ → ℕ → WithdrawalRequest → Result Checked → Store → Result CreateResult × Store
  create_checked engine now drawn req (err e) s = (err e, s)
  create_checked engine now drawn req (ok checked) s =
      elim (find_symbol req.chain req.asset_symbol s.assets) [
        | none ↦ (err Error.unsupported_asset, s)
        | some asset ↦ answer s (
            request_transaction engine now req asset checked
              (or_else (codes "wd-" ++ uuid_text drawn) req.correlation_id) s)
      ]

  -- `WithdrawalService::create`
  unfoldable pub create :
      AppConfig → RiskEngine → ℕ → ℕ → WithdrawalRequest → Store → Result CreateResult × Store
  create cfg engine now drawn req s = create_checked engine now drawn req (check_request cfg req) s

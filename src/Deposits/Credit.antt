-- ===== src/Deposits/Credit.antt =====
-- crates/deposits/src/credit.rs: crediting a confirmed deposit, and the handler of the event that
-- asks for it. The text of a UUID and the UUID of a name (v5) are parameters.
pub mod Once
pub mod Consumed
use chain_rail.Base.{
  ℕ, Bool, true, false, not, List, [], ◌∷◌, ◌++◌, Option, none, some, Text, codes, if◌then◌else◌,
}
use chain_rail.Common.Error.{Error}
use chain_rail.Common.Result.{Result, ok, err, M, ◌>>=◌, ◌>>◌, pure, throw, lift}
use chain_rail.Models.Deposit.{DepositStatus}
use chain_rail.Models.Asset.{Asset}
use chain_rail.Ledger.Service.{PostResult, id}
use chain_rail.Ledger.Operations.{credit_deposit}
use chain_rail.Events.{EventEnvelope, EventPayload, named}
use chain_rail.Events.Consumer.{HandlerOutcome}
use chain_rail.Deposits.{
  Deposit, Store, in_ledger, lock_deposit, get_asset_by_id, mark_credited, enqueue, claim_event,
}

pub data CreditOutcome : Type 0 where
  credited already_credited : CreditOutcome
  no_longer_valid : DepositStatus → CreditOutcome

-- What the handler reads of an envelope: `payload` is the deposit where it is `DepositConfirmed`.
pub record Envelope : Type 0 where
  pub event_id : ℕ
  pub correlation_id : Text
  pub payload : Option ℕ

module _ (uuid_text : ℕ → Text) (uuid_v5 : Text → ℕ) where
  -- The event, with its deterministic identifier.
  abbrev pub credited_event : Deposit → Asset → ℕ → Text → EventEnvelope
  credited_event d a posted correlation =
      named uuid_v5
        (EventPayload.deposit_credited (record {
          chain = a.chain;
          deposit_id = d.id;
          user_id = d.user_id;
          asset = a.symbol;
          amount_raw = d.amount_raw;
          ledger_transaction_id = posted;
        }))
        correlation (codes "credited:" ++ uuid_text d.id)

  -- What follows the compare-and-set: where it was lost, everything is rolled back to `before`.
  unfoldable pub announce : Store → Deposit → ℕ → Text → Bool → M Store CreditOutcome
  announce before d posted correlation false = λ _. ok (CreditOutcome.already_credited, before)
  announce before d posted correlation true = do
    asset ← get_asset_by_id d.asset_id
    enqueue uuid_text (credited_event d asset posted correlation)
    pure CreditOutcome.credited

  -- The arm for a confirmed deposit.
  unfoldable pub credit_confirmed : Store → Deposit → Text → M Store CreditOutcome
  credit_confirmed before d correlation = do
    posted ←
        in_ledger
          (credit_deposit uuid_text d.id d.user_id d.asset_id d.amount_raw (some correlation))
    won ← mark_credited d.id (id posted)
    announce before d (id posted) correlation won

  unfoldable pub credit_as : DepositStatus → Store → Deposit → Text → M Store CreditOutcome
  credit_as DepositStatus.credited before d correlation = pure CreditOutcome.already_credited
  credit_as DepositStatus.reorged before d correlation =
      pure (CreditOutcome.no_longer_valid DepositStatus.reorged)
  credit_as DepositStatus.failed before d correlation =
      pure (CreditOutcome.no_longer_valid DepositStatus.failed)
  credit_as DepositStatus.confirmed before d correlation = credit_confirmed before d correlation
  credit_as DepositStatus.observed before d correlation = throw Error.conflict
  credit_as DepositStatus.confirming before d correlation = throw Error.conflict

  -- `DepositCreditHandler::credit`
  unfoldable pub credit : ℕ → Text → M Store CreditOutcome
  credit deposit_id correlation before =
      (lock_deposit deposit_id >>= λ d. credit_as d.status before d correlation) before

  -- What `handle` makes of the answer of `credit`.
  abbrev pub conclude : Store → Result (CreditOutcome × Store) → Result HandlerOutcome × Store
  conclude before (ok (outcome, after)) = (ok HandlerOutcome.done, after)
  conclude before (err Error.not_found) = (ok HandlerOutcome.rejected, before)
  conclude before (err e) = (err e, before)

  -- The claim has been committed when `credit` begins, in a transaction of its own.
  pub handle_claimed : ℕ → Text → Result (Bool × Store) → Store → Result HandlerOutcome × Store
  handle_claimed deposit_id correlation (err e) s = (err e, s)
  handle_claimed deposit_id correlation (ok (false, s')) s = (ok HandlerOutcome.done, s')
  handle_claimed deposit_id correlation (ok (true, s')) s =
      conclude s' (credit deposit_id correlation s')

  -- `DepositCreditHandler::handle`
  pub handle : Envelope → Store → Result HandlerOutcome × Store
  handle envelope s = elim envelope.payload [
    | none ↦ (ok HandlerOutcome.rejected, s)
    | some deposit_id ↦
        handle_claimed deposit_id envelope.correlation_id
          (claim_event (codes "deposit_credit") envelope.event_id s) s
  ]

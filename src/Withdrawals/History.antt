-- ===== src/Withdrawals/History.antt =====
-- Any history of requests, operators' acts and passes of the pipeline, over the tables of the
-- withdrawal path: crates/withdrawals.
use chain_rail.Base.{
  ℕ, ◌++◌, Bool, codes, ◌≡◌, refl, List, [], ◌∷◌, some, Text, Option-cases, inl, inr,
}
use chain_rail.Common.Result.{Result, ok, err}
use chain_rail.Common.Config.{AppConfig}
use chain_rail.Models.Asset.{find_symbol}
use chain_rail.Risk.{RiskEngine}
use chain_rail.Ledger.Tables.{commit}
use chain_rail.Ledger.Tables.Balances.{signed_total}
use chain_rail.Ledger.Service.Soundness.{IsSound, commit-IsSound}
use chain_rail.Withdrawals.Rows.{Withdrawal, Store, or_else, find_withdrawal}
use chain_rail.Withdrawals.Service.{
  WithdrawalRequest, Verdict, Checked, create, create_checked, check_request, answer, read_back,
  conclude, committed, approve, approve_transaction, cancel, cancel_transaction, reread,
  request_transaction,
}
use chain_rail.Withdrawals.Chain.{ChainAdapter, Signer}
use chain_rail.Withdrawals.World.{World}
use chain_rail.Withdrawals.Pipeline.{run_once}
use chain_rail.Withdrawals.Advance.{
  AreConsistent, IsUnique, Successor, IsAdvanced, IsAdvanced-refl, IsAdvanced-trans,
}
use chain_rail.Withdrawals.Progress.{
  Advances-Progresses, approve_transaction-Advances, cancel_transaction-Advances,
}
use chain_rail.Withdrawals.Creation.{request_transaction-Advances}
use chain_rail.Withdrawals.Steps.{committed-IsAdvanced}
use chain_rail.Withdrawals.Passes.{run_once-Steps}

reread-IsAdvanced :
    {A : Type 0} (i : ℕ) (s : Store) (r : Result A × Store)
    → IsAdvanced s r.1
    → IsAdvanced s (reread i r).1
reread-IsAdvanced i s (ok a, s') h = h
reread-IsAdvanced i s (err e, s') h = h

approve-IsAdvanced : (i : ℕ) (s : Store) → IsAdvanced s (approve i s).1
unfolding approve
approve-IsAdvanced i s = reread-IsAdvanced i s _ (
    committed-IsAdvanced (approve_transaction i) s
      (Advances-Progresses _ (λ before. approve_transaction-Advances i)))

cancel-IsAdvanced :
    (uuid_text : ℕ → Text) (i : ℕ) (s : Store) → IsAdvanced s (cancel uuid_text i s).1
unfolding cancel
cancel-IsAdvanced uuid_text i s = reread-IsAdvanced i s _ (
    committed-IsAdvanced (cancel_transaction uuid_text i) s
      (Advances-Progresses _ (λ before. cancel_transaction-Advances uuid_text i)))

module _ (keccak256 : Text → List ℕ) (uuid_text : ℕ → Text) (uuid_v5 : Text → ℕ) where
  read_back-store :
      (held : Bool) (i : ℕ) (s : Store) → (read_back keccak256 uuid_text uuid_v5 held i s).1 ≡ s
  read_back-store held i s = elim (Option-cases (find_withdrawal i s.withdrawals)) [
    | inl n ↦ rw (read_back, n) refl
    | inr (w, e) ↦ rw (read_back, e) refl
  ]

  conclude-IsAdvanced :
      (s : Store) (r : Result Verdict × Store)
      → IsAdvanced s r.1
      → IsAdvanced s (conclude keccak256 uuid_text uuid_v5 r).1
  conclude-IsAdvanced s (err e, s') h = h
  conclude-IsAdvanced s (ok (Verdict.replay w), s') h = h
  conclude-IsAdvanced s (ok (Verdict.denied c), s') h = h
  conclude-IsAdvanced s (ok (Verdict.accepted held i), s') h = rw (read_back-store held i s') h

  answer-IsAdvanced :
      (s : Store) (r : Result (Verdict × Store))
      → IsAdvanced s (committed s r).1
      → IsAdvanced s (answer keccak256 uuid_text uuid_v5 s r).1
  answer-IsAdvanced s (err e) h = h
  answer-IsAdvanced s (ok (Verdict.replay w, s')) h = IsAdvanced-refl s
  answer-IsAdvanced s (ok (Verdict.denied c, s')) h =
      conclude-IsAdvanced s (committed s (ok (Verdict.denied c, s'))) h
  answer-IsAdvanced s (ok (Verdict.accepted held i, s')) h =
      conclude-IsAdvanced s (committed s (ok (Verdict.accepted held i, s'))) h

  create_checked-IsAdvanced :
      (engine : RiskEngine) (now drawn : ℕ) (req : WithdrawalRequest)
      (r : Result (Checked keccak256 uuid_text uuid_v5)) (s : Store)
      → IsAdvanced s (create_checked keccak256 uuid_text uuid_v5 engine now drawn req r s).1
  unfolding create_checked
  create_checked-IsAdvanced engine now drawn req (err e) s = IsAdvanced-refl s
  create_checked-IsAdvanced engine now drawn req (ok checked) s =
      elim (Option-cases (find_symbol req.chain req.asset_symbol s.assets)) [
        | inl n ↦ rw (create_checked, n) (IsAdvanced-refl s)
        | inr (asset, e) ↦
            let m =
              request_transaction keccak256 uuid_text uuid_v5 engine now req asset checked
                (or_else (codes "wd-" ++ uuid_text drawn) req.correlation_id) in
            rw (create_checked, e)
              (answer-IsAdvanced s (m s) (
                committed-IsAdvanced m s (
                  Advances-Progresses m (λ before.
                    request_transaction-Advances keccak256 uuid_text uuid_v5 engine now req asset
                      checked _))))
      ]

  create-IsAdvanced :
      (cfg : AppConfig) (engine : RiskEngine) (now drawn : ℕ) (req : WithdrawalRequest) (s : Store)
      → IsAdvanced s (create keccak256 uuid_text uuid_v5 cfg engine now drawn req s).1
  unfolding create
  create-IsAdvanced cfg engine now drawn req s =
      create_checked-IsAdvanced engine now drawn req
        (check_request keccak256 uuid_text uuid_v5 cfg req) s

-- A request at a time with a drawn UUID, an operator's approval or cancellation, or a pass of the
-- pipeline with the nodes and the signer of that pass.
pub data Act : Type 0 where
  request : ℕ → ℕ → WithdrawalRequest → Act
  approval : ℕ → Act
  cancellation : ℕ → Act
  pipeline_pass : List (Text × ChainAdapter) → Signer → Act

module _ (keccak256 : Text → List ℕ) (uuid_text : ℕ → Text) (uuid_v5 : Text → ℕ) (cfg : AppConfig)
    (engine : RiskEngine) where
  abbrev pub act : Act → World → World
  act (Act.request now drawn req) w = record w {
    store = (create keccak256 uuid_text uuid_v5 cfg engine now drawn req w.store).1;
  }
  act (Act.approval i) w = record w { store = (approve i w.store).1 }
  act (Act.cancellation i) w = record w { store = (cancel uuid_text i w.store).1 }
  act (Act.pipeline_pass adapters signer) w = (run_once uuid_text uuid_v5 cfg signer adapters w).1

  abbrev pub act_all : List Act → World → World
  act_all [] w = w
  act_all (a ∷ as_) w = act_all as_ (act a w)

  act-IsAdvanced : (a : Act) (w : World) → IsAdvanced w.store (act a w).store
  act-IsAdvanced (Act.request now drawn req) w =
      create-IsAdvanced keccak256 uuid_text uuid_v5 cfg engine now drawn req w.store
  act-IsAdvanced (Act.approval i) w = approve-IsAdvanced i w.store
  act-IsAdvanced (Act.cancellation i) w = cancel-IsAdvanced uuid_text i w.store
  act-IsAdvanced (Act.pipeline_pass adapters signer) w =
      (run_once-Steps uuid_text uuid_v5 cfg signer adapters).advances w

  act_all-IsAdvanced : (acts : List Act) (w : World) → IsAdvanced w.store (act_all acts w).store
  act_all-IsAdvanced [] w = IsAdvanced-refl w.store
  act_all-IsAdvanced (a ∷ acts) w =
      IsAdvanced-trans w.store (act a w).store (act_all acts (act a w)).store (act-IsAdvanced a w)
        (act_all-IsAdvanced acts (act a w))

-- Whatever is requested, approved and cancelled, and whatever nodes and signer answer in the passes of
-- the pipeline between, where the ledger was sound, the withdrawals met the CHECK constraints of their
-- table and no user had a key in two of them: the ledger stays sound, so that its deferred trigger
-- accepts, the signed balances of each asset keep their sum, the CHECK constraints are met, no user has
-- a key in two rows, and no withdrawal is lost: each keeps its user, asset, chain, destination, amount
-- and key, and its status follows the state machine.
pub act_all-kept :
    (keccak256 : Text → List ℕ) (uuid_text : ℕ → Text) (uuid_v5 : Text → ℕ) (cfg : AppConfig)
    (engine : RiskEngine) (acts : List Act) (w : World)
    → IsSound w.store.ledger
    → AreConsistent w.store.withdrawals
    → IsUnique w.store.withdrawals
    → let after = (act_all keccak256 uuid_text uuid_v5 cfg engine acts w).store in
      IsSound after.ledger
      × (commit after.ledger ≡ ok tt)
      × ((y : ℕ) → signed_total y after.ledger.accounts ≡ signed_total y w.store.ledger.accounts)
      × AreConsistent after.withdrawals
      × IsUnique after.withdrawals
      × ((i : ℕ) (v : Withdrawal)
          → find_withdrawal i w.store.withdrawals ≡ some v
          → Successor v (find_withdrawal i after.withdrawals))
act_all-kept keccak256 uuid_text uuid_v5 cfg engine acts w sound consistent unique =
    let kept = act_all-IsAdvanced keccak256 uuid_text uuid_v5 cfg engine acts w in
    let after = (act_all keccak256 uuid_text uuid_v5 cfg engine acts w).store in
    (
      kept.ledger.sound sound,
      commit-IsSound after.ledger (kept.ledger.sound sound),
      kept.ledger.totals,
      kept.consistent consistent,
      kept.unique unique,
      kept.rows,
    )

-- ===== src/Withdrawals/Replay.antt =====
-- A key that was used before, in `create` of crates/withdrawals/src/service.rs.
use chain_rail.Base.{to_ascii_lowercase-lower}
use chain_rail.Base.{
  ℕ, ◌≡◌, ◌≤◌, refl, ap, true, false, not, List, [], ◌∷◌, ◌++◌, some, Text, codes, text_eq,
  if◌then◌else◌, length, byte_len, Bool-cases, inl, inr, arith,
}
use chain_rail.Common.Error.{Error}
use chain_rail.Common.Result.{Result, ok, err, >>=-ok, >>=-err, and_then, ok_or}
use chain_rail.Common.Money.{is_positive}
use chain_rail.Common.Config.{AppConfig, ChainConfig, AssetConfig, asset, is_evm}
use chain_rail.Common.Address.{Address, storage_key, parse}
use chain_rail.Models.Asset.{Asset, find_symbol}
use chain_rail.Risk.{RiskEngine}
use chain_rail.Withdrawals.Rows.{Withdrawal, Store, or_else}
use chain_rail.Withdrawals.Requests.{
  NewWithdrawal, CreateOutcome, create_withdrawal, insert_or_compare, compare_body, find_key,
  meets_constraints,
}
use chain_rail.Withdrawals.Service.{
  WithdrawalRequest, CreateResult, Checked, check_request, create, create_checked,
  request_transaction, judge, fingerprint, answer, is_key_length, chain_config,
}

-- A text has no more characters than bytes.
length-le-byte_len : (s : Text) → length s ≤ byte_len s
length-le-byte_len [] = omega arith
length-le-byte_len (c ∷ s) = ground (arith, length-le-byte_len s)

and_then-ok :
    {A B : Type 0} (r : Result A) (f : A → Result B) {b : B}
    → and_then r f ≡ ok b
    → (a : A) × (r ≡ ok a) × (f a ≡ ok b)
and_then-ok (ok a) f h = (a, refl, h)
and_then-ok (err e) f h = cc

module _ (keccak256 : Text → List ℕ) (uuid_text : ℕ → Text) (uuid_v5 : Text → ℕ) where
  -- The row that `create` asks for.
  abbrev pub wanted : WithdrawalRequest → Asset → Address → Text → NewWithdrawal
  wanted req asset d correlation = record {
    user_id = req.user_id;
    asset_id = asset.id;
    chain = req.chain;
    destination = d;
    amount_raw = req.amount;
    idempotency_key = req.idempotency_key;
    request_fingerprint = fingerprint keccak256 uuid_text uuid_v5 req (storage_key d);
    correlation_id = some correlation;
  }

  create_withdrawal-same :
      (now : ℕ) (new : NewWithdrawal) (w : Withdrawal) (s : Store)
      → meets_constraints new ≡ true
      → find_key new.user_id new.idempotency_key s.withdrawals ≡ some w
      → text_eq w.request_fingerprint new.request_fingerprint ≡ true
      → create_withdrawal now new s ≡ ok (CreateOutcome.existing w, s)
  unfolding create_withdrawal insert_or_compare compare_body
  create_withdrawal-same now new w s c e q = rw (create_withdrawal, c, e, q) refl

  create_withdrawal-other :
      (now : ℕ) (new : NewWithdrawal) (w : Withdrawal) (s : Store)
      → meets_constraints new ≡ true
      → find_key new.user_id new.idempotency_key s.withdrawals ≡ some w
      → text_eq w.request_fingerprint new.request_fingerprint ≡ false
      → create_withdrawal now new s ≡ err Error.idempotency_key_conflict
  unfolding create_withdrawal insert_or_compare compare_body
  create_withdrawal-other now new w s c e q = rw (create_withdrawal, c, e, q) refl

  -- The last tests of `check_request`.
  abbrev last_tests :
      WithdrawalRequest
      → ChainConfig
      → AssetConfig
      → Address
      → Result (Checked keccak256 uuid_text uuid_v5)
  last_tests req c a d =
      if not (is_positive req.amount)
      then err Error.invalid_amount
      else if not (is_key_length req.idempotency_key)
      then err Error.validation
      else ok (c, a, d)

  last_tests-ok :
      (req : WithdrawalRequest) (c : ChainConfig) (a : AssetConfig) (d : Address)
      (x : Checked keccak256 uuid_text uuid_v5)
      → last_tests req c a d ≡ ok x
      → (is_positive req.amount ≡ true) × (is_key_length req.idempotency_key ≡ true)
  last_tests-ok req c a d x h = elim (Bool-cases (is_positive req.amount)) [
    | inr p ↦ absurd (cc (rw p at h))
    | inl p ↦ elim (Bool-cases (is_key_length req.idempotency_key)) [
      | inr q ↦ absurd (cc (rw (p, q) at h))
      | inl q ↦ (p, q)
    ]
  ]

  -- What an accepted input has passed, of the tests that the table repeats.
  check_request-ok :
      (cfg : AppConfig) (req : WithdrawalRequest) (x : Checked keccak256 uuid_text uuid_v5)
      → check_request keccak256 uuid_text uuid_v5 cfg req ≡ ok x
      → (is_positive req.amount ≡ true) × (is_key_length req.idempotency_key ≡ true)
  unfolding check_request
  check_request-ok cfg req x h =
      let parsed = λ (c : ChainConfig) (a : AssetConfig).
        and_then (parse keccak256 c.kind req.destination) (λ d. last_tests req c a d) in
      let with_asset = λ (c : ChainConfig).
        and_then (ok_or (asset c req.asset_symbol) Error.unsupported_asset) (λ a. parsed c a) in
      let with_kind = λ (c : ChainConfig).
        and_then (if is_evm c.kind then ok c else err Error.unsupported_chain)
          (λ c. with_asset c) in
      let (c, p1, h1) = and_then-ok (chain_config cfg req.chain) with_kind h in
      let (c', p2, h2) =
        and_then-ok (if is_evm c.kind then ok c else err Error.unsupported_chain) with_asset h1 in
      let (a, p3, h3) =
        and_then-ok (ok_or (asset c' req.asset_symbol) Error.unsupported_asset) (parsed c') h2 in
      let (d, p4, h4) =
        and_then-ok (parse keccak256 c'.kind req.destination) (last_tests req c' a) h3 in
      last_tests-ok req c' a d x h4

  meets_constraints-wanted :
      (req : WithdrawalRequest) (asset : Asset) (d : Address) (correlation : Text)
      → is_positive req.amount ≡ true
      → is_key_length req.idempotency_key ≡ true
      → 8 ≤ length req.idempotency_key
      → meets_constraints (wanted req asset d correlation) ≡ true
  meets_constraints-wanted req asset d correlation p q r =
      let short = length-le-byte_len req.idempotency_key in
      let lower = to_ascii_lowercase-lower d in ground arith

-- A key that the user has used before moves nothing: where the input is accepted, its asset is known
-- and its key has eight characters or more, the request answers the stored withdrawal if its
-- fingerprint is that of the request, and the conflict of keys otherwise, and leaves every table as
-- it was.
pub create_known_key :
    (keccak256 : Text → List ℕ) (uuid_text : ℕ → Text) (uuid_v5 : Text → ℕ) (cfg : AppConfig)
    (engine : RiskEngine) (now drawn : ℕ) (req : WithdrawalRequest) (c : ChainConfig)
    (a : AssetConfig) (d : Address) (asset : Asset) (w : Withdrawal) (s : Store)
    → check_request keccak256 uuid_text uuid_v5 cfg req ≡ ok (c, a, d)
    → find_symbol req.chain req.asset_symbol s.assets ≡ some asset
    → 8 ≤ length req.idempotency_key
    → find_key req.user_id req.idempotency_key s.withdrawals ≡ some w
    → create keccak256 uuid_text uuid_v5 cfg engine now drawn req s ≡ (
      if text_eq w.request_fingerprint (fingerprint keccak256 uuid_text uuid_v5 req (storage_key d))
          then ok (CreateResult.idempotent w)
          else err Error.idempotency_key_conflict,
      s,
    )
unfolding create create_checked request_transaction judge
create_known_key keccak256 uuid_text uuid_v5 cfg engine now drawn req c a d asset w s checked known
      long used =
    let (positive, fits) = check_request-ok keccak256 uuid_text uuid_v5 cfg req (c, a, d) checked in
    let correlation = or_else (codes "wd-" ++ uuid_text drawn) req.correlation_id in
    let new = wanted keccak256 uuid_text uuid_v5 req asset d correlation in
    let fine =
      meets_constraints-wanted keccak256 uuid_text uuid_v5 req asset d correlation positive fits
        long in
    let judged = judge keccak256 uuid_text uuid_v5 engine now req asset (c, a, d) correlation in
    elim (Bool-cases (text_eq w.request_fingerprint new.request_fingerprint)) [
      | inl q ↦
          rw (create, checked, create_checked, known, q)
            (ap (answer keccak256 uuid_text uuid_v5 s) (
              >>=-ok (create_withdrawal now new) judged s (CreateOutcome.existing w) s
                (create_withdrawal-same keccak256 uuid_text uuid_v5 now new w s fine used q)))
      | inr q ↦
          rw (create, checked, create_checked, known, q)
            (ap (answer keccak256 uuid_text uuid_v5 s) (
              >>=-err (create_withdrawal now new) judged s Error.idempotency_key_conflict
                (create_withdrawal-other keccak256 uuid_text uuid_v5 now new w s fine used q)))
    ]

-- ===== src/Deposits/Lifecycle.antt =====
-- How the statements on `deposits` (crates/database/src/repo/deposits.rs) move a deposit from status to
-- status, as the confirmation engine, the credit and the reorg engine of crates/deposits run them.
use chain_rail.Base.{
  ℕ, ◌≡◌, ◌⊎◌, refl, ap, ◌∙◌, Bool, true, false, ◌&&◌, ◌||◌, not, List, [], ◌∷◌, Option, some, Text,
  ◌==◌, if◌then◌else◌, arith, Bool-cases, inl, inr,
}
use chain_rail.Common.Result.{Result, ok, err, M, ◌>>=◌, >>=-eq-ok, pure, Result-cases}
use chain_rail.Common.Finality.{FinalityPolicy}
use chain_rail.Models.Deposit.{DepositStatus, same_deposit_status}
use chain_rail.Deposits.{
  Deposit, Store, find_deposit, update_where, compare_and_set, has_status, update_confirmations,
  mark_credited, mark_reorged,
}
use chain_rail.Deposits.Rows.{enqueue-deposits}
use chain_rail.Deposits.Confirmations.{
  PendingDeposit, is_pending, still_canonical, announce_confirmed, confirmed_event, record_progress,
  examine,
}

-- Where a status may go: a pending deposit to `confirming` or `confirmed`, a confirmed one to
-- `credited`, and any to `reorged`.
abbrev pub may_become : DepositStatus → DepositStatus → Bool
may_become from next =
    same_deposit_status from next
    || same_deposit_status next DepositStatus.reorged
    || is_pending from
      && (same_deposit_status next DepositStatus.confirming
          || same_deposit_status next DepositStatus.confirmed)
    || same_deposit_status from DepositStatus.confirmed
      && same_deposit_status next DepositStatus.credited

-- No deposit is lost, and each goes where it may.
abbrev pub Moved : List Deposit → List Deposit → Type 0
Moved ds ds' =
    (i : ℕ) (d : Deposit)
    → find_deposit i ds ≡ some d
    → (d' : Deposit) × (find_deposit i ds' ≡ some d') × (may_become d.status d'.status ≡ true)

stays : (a : DepositStatus) → may_become a a ≡ true
stays a = ground arith

Moved-refl : (ds : List Deposit) → Moved ds ds
Moved-refl ds i d e = (d, e, stays d.status)

update_where-Moved :
    (i : ℕ) (p : Deposit → Bool) (f : Deposit → Deposit) (ds : List Deposit)
    → ((d : Deposit) → (f d).id ≡ d.id)
    → ((d : Deposit) → p d ≡ true → may_become d.status (f d).status ≡ true)
    → Moved ds (update_where i p f ds)
update_where-Moved i p f [] same may j d e = absurd (cc e)
update_where-Moved i p f (c ∷ ds) same may j d e = elim (Bool-cases (c.id == i)) [
  | inl q ↦ elim (Bool-cases (p c)) [
    | inr n ↦ rw (q, n) (d, e, stays d.status)
    | inl y ↦ elim (Bool-cases (c.id == j)) [
      | inl r ↦
          let one : c ≡ d = cc (rw r at e) in
          let r' : ((f c).id == j) ≡ true = ap (λ k. k == j) (same c) ∙ r in
          rw (q, y, r') (f c, refl, rw (← one) (may c y))
      | inr r ↦
          let r' : ((f c).id == j) ≡ false = ap (λ k. k == j) (same c) ∙ r in
          rw (q, y, r') (d, rw r at e, stays d.status)
    ]
  ]
  | inr q ↦ elim (Bool-cases (c.id == j)) [
    | inl r ↦ let one : c ≡ d = cc (rw r at e) in rw (q, r) (c, refl, rw (← one) (stays c.status))
    | inr r ↦ rw (q, r) (update_where-Moved i p f ds same may j d (rw r at e))
  ]
]

-- A computation that moves deposits where they may go.
abbrev Moves : {A : Type 0} → M Store A → Type 0
Moves {A} m = (s : Store) (a : A) (s' : Store) → m s ≡ ok (a, s') → Moved s.deposits s'.deposits

compare_and_set-Moves :
    (i : ℕ) (p : Deposit → Bool) (f : Deposit → Deposit)
    → ((d : Deposit) → (f d).id ≡ d.id)
    → ((d : Deposit) → p d ≡ true → may_become d.status (f d).status ≡ true)
    → Moves (compare_and_set i p f)
compare_and_set-Moves i p f same may s a s' h =
    let one : record s { deposits = update_where i p f s.deposits } ≡ s' = cc in
    rw (← one) (update_where-Moved i p f s.deposits same may)

update_confirmations-Moves :
    (i n : ℕ) (from next : DepositStatus)
    → may_become from next ≡ true
    → Moves (update_confirmations i n from next)
unfolding update_confirmations
update_confirmations-Moves i n from next h =
    compare_and_set-Moves i (has_status from) (λ d. record d { confirmations = n; status = next })
      (λ d. refl) (λ d q. let one : d.status ≡ from = ground arith in rw one h)

pure-Moves : {A : Type 0} (a : A) → Moves (pure a)
pure-Moves a s b s' h = let one : s ≡ s' = cc in rw (← one) (Moved-refl s.deposits)

-- What follows and leaves the deposits alone.
followed-Moves :
    {A B : Type 0} (m : M Store A) (f : A → M Store B)
    → Moves m
    → ((a : A) (s : Store) (b : B) (s' : Store) → f a s ≡ ok (b, s') → s'.deposits ≡ s.deposits)
    → Moves (m >>= f)
followed-Moves m f moves spares s b s' h =
    let (a, s1, g, k) = >>=-eq-ok m f s h in rw (spares a s1 b s' k) (moves s a s1 g)

pure-deposits :
    (won : Bool) (s : Store) (b : Unit {0}) (s' : Store)
    → pure tt s ≡ ok (b, s')
    → s'.deposits ≡ s.deposits
pure-deposits won s b s' h = let one : s ≡ s' = cc in rw (← one) refl

module _ (uuid_text : ℕ → Text) (uuid_v5 : Text → ℕ) (chain correlation : Text) where
  announce_confirmed-deposits :
      (d : PendingDeposit) (height n : ℕ) (won : Bool) (s : Store) (b : Unit {0}) (s' : Store)
      → announce_confirmed uuid_text uuid_v5 chain correlation d height n won s ≡ ok (b, s')
      → s'.deposits ≡ s.deposits
  unfolding announce_confirmed
  announce_confirmed-deposits d height n false s b s' h = pure-deposits false s b s' h
  announce_confirmed-deposits d height n true s b s' h =
      enqueue-deposits uuid_text (confirmed_event uuid_text uuid_v5 chain correlation d height n) s
        s' h

  record_progress-Moves :
      (confirmed : Bool) (d : PendingDeposit) (height n : ℕ)
      → is_pending d.status ≡ true
      → Moves (record_progress uuid_text uuid_v5 chain correlation confirmed d height n)
  unfolding record_progress
  record_progress-Moves true d height n h =
      elim (Bool-cases (same_deposit_status d.status DepositStatus.confirmed)) [
        | inl q ↦ rw q (pure-Moves tt)
        | inr q ↦ rw q (
            followed-Moves (update_confirmations d.deposit_id n d.status DepositStatus.confirmed)
              (announce_confirmed uuid_text uuid_v5 chain correlation d height n)
              (update_confirmations-Moves d.deposit_id n d.status DepositStatus.confirmed
                (ground arith))
              (λ won. announce_confirmed-deposits d height n won))
      ]
  record_progress-Moves false d height n h =
      elim (Bool-cases (same_deposit_status d.status DepositStatus.observed)) [
        | inl q ↦ rw q (
            followed-Moves
              (update_confirmations d.deposit_id n DepositStatus.observed DepositStatus.confirming)
              (λ won. pure tt)
              (update_confirmations-Moves d.deposit_id n DepositStatus.observed
                DepositStatus.confirming refl)
              pure-deposits)
        | inr q ↦ rw q (
            followed-Moves
              (update_confirmations d.deposit_id n DepositStatus.confirming
                DepositStatus.confirming)
              (λ won. pure tt)
              (update_confirmations-Moves d.deposit_id n DepositStatus.confirming
                DepositStatus.confirming refl)
              pure-deposits)
      ]

  examine-Moves :
      (policy : FinalityPolicy) (head : ℕ) (canonical : Option Text) (d : PendingDeposit)
      → is_pending d.status ≡ true
      → Moves (examine uuid_text uuid_v5 chain correlation policy head canonical d)
  unfolding examine
  examine-Moves policy head canonical d h = elim (Bool-cases (still_canonical canonical d)) [
    | inr q ↦ rw q (pure-Moves tt)
    | inl q ↦ rw q (record_progress-Moves _ d _ _ h)
  ]

-- A step of the life of the deposits: a look of the confirmation engine at a pending row, the
-- crediting, and the reversal by the reorg engine.
pub data Step : Type 0 where
  examined : Text → FinalityPolicy → ℕ → Option Text → PendingDeposit → Step
  credited : ℕ → ℕ → Step
  reorged : ℕ → Option ℕ → Text → Step

-- A statement that fails leaves the tables.
abbrev pub after : {A : Type 0} → Store → Result (A × Store) → Store
after s (ok (a, s')) = s'
after s (err e) = s

after-Moved :
    {A : Type 0} (m : M Store A) (s : Store) → Moves m → Moved s.deposits (after s (m s)).deposits
after-Moved m s moves = elim (Result-cases (m s)) [
  | inl ((a, s'), e) ↦ rw e (moves s a s' e)
  | inr (x, e) ↦ rw e (Moved-refl s.deposits)
]

module _ (uuid_text : ℕ → Text) (uuid_v5 : Text → ℕ) (chain : Text) where
  -- The engine claims rows by `is_pending`.
  abbrev pub step : Step → Store → Store
  step (Step.examined correlation policy head canonical d) s =
      if is_pending d.status
      then after s (examine uuid_text uuid_v5 chain correlation policy head canonical d s)
      else s
  step (Step.credited i t) s = after s (mark_credited i t s)
  step (Step.reorged i reversal reason) s = after s (mark_reorged i reversal reason s)

  abbrev pub step_all : List Step → Store → Store
  step_all [] s = s
  step_all (t ∷ ts) s = step_all ts (step t s)

  step-Moved : (t : Step) (s : Store) → Moved s.deposits (step t s).deposits
  unfolding mark_credited mark_reorged
  step-Moved (Step.examined correlation policy head canonical d) s =
      elim (Bool-cases (is_pending d.status)) [
        | inr p ↦ rw p (Moved-refl s.deposits)
        | inl p ↦ rw p (
            after-Moved (examine uuid_text uuid_v5 chain correlation policy head canonical d) s
              (examine-Moves uuid_text uuid_v5 chain correlation policy head canonical d p))
      ]
  step-Moved (Step.credited i t) s = after-Moved (mark_credited i t) s (
      compare_and_set-Moves i (has_status DepositStatus.confirmed)
        (λ d. record d { status = DepositStatus.credited; ledger_transaction_id = some t })
        (λ d. refl) (λ d q. ground arith))
  step-Moved (Step.reorged i reversal reason) s = after-Moved (mark_reorged i reversal reason) s (
      compare_and_set-Moves i (λ d. not (has_status DepositStatus.reorged d))
        (λ d. record d {
          status = DepositStatus.reorged;
          reversal_ledger_transaction_id = reversal;
          failure_reason = some reason;
        })
        (λ d. refl) (λ d q. ground arith))

  -- A test on statuses that is kept wherever a status may go holds of a deposit for good.
  step_all-kept :
      (test : DepositStatus → Bool)
      → ((a b : DepositStatus) → may_become a b ≡ true → test a ≡ true → test b ≡ true)
      → (ts : List Step) (s : Store) (i : ℕ) (d : Deposit) → find_deposit i s.deposits ≡ some d
      → test d.status ≡ true
      → (d' : Deposit) × (find_deposit i (step_all ts s).deposits ≡ some d')
        × (test d'.status ≡ true)
  step_all-kept test keeps [] s i d e h = (d, e, h)
  step_all-kept test keeps (t ∷ ts) s i d e h =
      let (d', e', may) = step-Moved t s i d e in
      step_all-kept test keeps ts (step t s) i d' e' (keeps d.status d'.status may h)

-- Reorged, or failed.
abbrev pub is_dead : DepositStatus → Bool
is_dead a =
    same_deposit_status a DepositStatus.reorged || same_deposit_status a DepositStatus.failed

dead_lem : (a b : DepositStatus) → may_become a b ≡ true → is_dead a ≡ true → is_dead b ≡ true
dead_lem a b h k = ground arith

confirmed_lem :
    (a b : DepositStatus)
    → may_become a b ≡ true
    → b ≡ DepositStatus.credited
    → (a ≡ DepositStatus.confirmed) ⊎ (a ≡ DepositStatus.credited)
confirmed_lem a b h k = ground arith

-- A deposit that is credited after a step was confirmed or credited before it, whether the step is a
-- look of the confirmation engine at a pending row, the statement that credits or the one that reorgs.
pub step-credited :
    (uuid_text : ℕ → Text) (uuid_v5 : Text → ℕ) (chain : Text) (t : Step) (s : Store) (i : ℕ)
    (d d' : Deposit)
    → find_deposit i s.deposits ≡ some d
    → find_deposit i (step uuid_text uuid_v5 chain t s).deposits ≡ some d'
    → d'.status ≡ DepositStatus.credited
    → (d.status ≡ DepositStatus.confirmed) ⊎ (d.status ≡ DepositStatus.credited)
step-credited uuid_text uuid_v5 chain t s i d d' e g k =
    let (v, e', may) = step-Moved uuid_text uuid_v5 chain t s i d e in
    let one : v ≡ d' = cc in
    confirmed_lem d.status v.status may (ap (λ (z : Deposit). z.status) one ∙ k)

-- A deposit that was reorged away or failed is reorged or failed after any sequence of such steps, so
-- that none credits it.
pub dead_stays_dead :
    (uuid_text : ℕ → Text) (uuid_v5 : Text → ℕ) (chain : Text) (ts : List Step) (s : Store) (i : ℕ)
    (d : Deposit)
    → find_deposit i s.deposits ≡ some d
    → is_dead d.status ≡ true
    → (d' : Deposit) × (find_deposit i (step_all uuid_text uuid_v5 chain ts s).deposits ≡ some d')
      × (is_dead d'.status ≡ true)
dead_stays_dead uuid_text uuid_v5 chain ts s i d e h =
    step_all-kept uuid_text uuid_v5 chain is_dead dead_lem ts s i d e h

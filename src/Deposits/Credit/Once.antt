-- ===== src/Deposits/Credit/Once.antt =====
-- A deposit is credited once (crates/deposits/src/credit.rs), and what an error leaves behind.
use chain_rail.Deposits.Rows.{in_ledger-ok}
use chain_rail.Deposits.Rows.{mark_credited-ledger}
use chain_rail.Deposits.Rows.{enqueue-ledger}
use chain_rail.Ledger.Service.{PostResult}
use chain_rail.Base.{ap}
use chain_rail.Base.{
  ℕ, ◌≡◌, ◌∙◌, subst, refl, sym, Bool, true, false, ◌∷◌, some, Text, codes, Option-cases, inl, inr,
}
use chain_rail.Common.Error.{Error}
use chain_rail.Common.Result.{Result, ok, err, ◌>>=◌, ◌>>◌, >>=-ok, >>=-eq-ok, pure}
use chain_rail.Models.Deposit.{DepositStatus}
use chain_rail.Ledger.Service.{id}
use chain_rail.Ledger.Operations.{credit_deposit}
use chain_rail.Deposits.{
  Deposit, Store, in_ledger, find_deposit, lock_deposit, get_asset_by_id, mark_credited, enqueue,
  is_claimed,
}
use chain_rail.Deposits.Rows.{
  lock_deposit_lem, lock_deposit-none, claim_event-new, claim_event-again, in_ledger-deposits,
  get_asset_by_id-same, enqueue-deposits, mark_credited-won, find_deposit-id,
}
use chain_rail.Events.Consumer.{HandlerOutcome}
use chain_rail.Deposits.Credit.{
  CreditOutcome, Envelope, announce, credited_event, credit_confirmed, credit_as, credit, handle,
  handle_claimed, conclude,
}

module _ (uuid_text : ℕ → Text) (uuid_v5 : Text → ℕ) (i : ℕ) (correlation : Text) (s : Store)
    (d : Deposit) where
  -- A deposit that is credited already is left alone, with everything else.
  pub credit_again :
      find_deposit i s.deposits ≡ some d
      → d.status ≡ DepositStatus.credited
      → credit uuid_text uuid_v5 i correlation s ≡ ok (CreditOutcome.already_credited, s)
  unfolding credit credit_as
  credit_again f k =
      >>=-ok (lock_deposit i) (λ x. credit_as uuid_text uuid_v5 x.status s x correlation) s d s
        (lock_deposit_lem i s d f)
      ∙ rw k refl

locked :
    (i : ℕ) (s m : Store) (d : Deposit)
    → lock_deposit i s ≡ ok (d, m)
    → (find_deposit i s.deposits ≡ some d) × (m ≡ s)
locked i s m d h = elim (Option-cases (find_deposit i s.deposits)) [
  | inl n ↦ absurd (cc (sym h ∙ lock_deposit-none i s n))
  | inr (d', f) ↦
      let pair : ◌≡◌ {A = Result (Deposit × Store)} (ok (d, m)) (ok (d', s)) =
        sym h ∙ lock_deposit_lem i s d' f in
      let both : (d ≡ d') × (m ≡ s) = (cc, cc) in (rw both.0 f, both.1)
]

module _ (uuid_text : ℕ → Text) (uuid_v5 : Text → ℕ) where
  announce-true :
      (before s s' : Store) (d : Deposit) (t : ℕ) (correlation : Text) (o : CreditOutcome)
      → announce uuid_text uuid_v5 before d t correlation true s ≡ ok (o, s')
      → (s'.deposits ≡ s.deposits) × (s'.ledger ≡ s.ledger)
  unfolding announce
  announce-true before s s' d t correlation o h =
      let (a, m, g, k) =
        >>=-eq-ok (get_asset_by_id d.asset_id)
          (λ a.
            enqueue uuid_text (credited_event uuid_text uuid_v5 d a t correlation)
            >> pure CreditOutcome.credited)
          s h in
      let (u, n, g', k') =
        >>=-eq-ok (enqueue uuid_text (credited_event uuid_text uuid_v5 d a t correlation))
          (λ _. pure CreditOutcome.credited) m k in
      let same : n ≡ s' = cc in
      let event = credited_event uuid_text uuid_v5 d a t correlation in
      let read = get_asset_by_id-same d.asset_id a s m g in
      (
        ap (λ (z : Store). z.deposits) (sym same)
            ∙ enqueue-deposits uuid_text event m n g'
            ∙ ap (λ (z : Store). z.deposits) read,
        ap (λ (z : Store). z.ledger) (sym same)
            ∙ enqueue-ledger uuid_text event m n g'
            ∙ ap (λ (z : Store). z.ledger) read,
      )

  -- The ledger is that after the posting of the deposit, and the deposit is credited, linked to that
  -- posting, and otherwise as it was.
  abbrev pub IsCredited : ℕ → Text → Deposit → Store → Store → Type 0
  IsCredited i correlation d s s' =
      (p : PostResult) × (credit_deposit uuid_text d.id d.user_id d.asset_id d.amount_raw
          (some correlation) s.ledger
        ≡ ok (p, s'.ledger))
      × (find_deposit i s'.deposits
          ≡ some
              (record d { status = DepositStatus.credited; ledger_transaction_id = some (id p) }))

  credit_confirmed-IsCredited :
      (i : ℕ) (d : Deposit) (s s' : Store) (correlation : Text) (o : CreditOutcome)
      → find_deposit i s.deposits ≡ some d
      → d.status ≡ DepositStatus.confirmed
      → credit_confirmed uuid_text uuid_v5 s d correlation s ≡ ok (o, s')
      → IsCredited i correlation d s s'
  unfolding credit_confirmed
  credit_confirmed-IsCredited i d s s' correlation o f k h =
      let m1 =
        in_ledger
          (credit_deposit uuid_text d.id d.user_id d.asset_id d.amount_raw (some correlation)) in
      let (p, s1, g, k1) =
        >>=-eq-ok m1
          (λ p. mark_credited d.id (id p) >>= announce uuid_text uuid_v5 s d (id p) correlation) s
          h in
      let (w, s2, g2, k2) =
        >>=-eq-ok (mark_credited d.id (id p)) (announce uuid_text uuid_v5 s d (id p) correlation) s1
          k1 in
      let same_id = find_deposit-id i s.deposits d f in
      let own : find_deposit d.id s.deposits ≡ some d =
        subst (λ j. find_deposit j s.deposits ≡ some d) (sym same_id) f in
      let (s3, won, row) =
        mark_credited-won d.id (id p) d s1
          (rw
            (in_ledger-deposits
              (credit_deposit uuid_text d.id d.user_id d.asset_id d.amount_raw (some correlation)) p
              s s1 g)
            own)
          k in
      let pair : ◌≡◌ {A = Result (Bool × Store)} (ok (w, s2)) (ok (true, s3)) = sym g2 ∙ won in
      let both : (w ≡ true) × (s2 ≡ s3) = (cc, cc) in
      let kept = announce-true s s3 s' d (id p) correlation o (rw (both.0, both.1) at k2) in
      let post =
        credit_deposit uuid_text d.id d.user_id d.asset_id d.amount_raw (some correlation) in
      let same_ledger =
        kept.1
        ∙ ap (λ (z : Store). z.ledger) (sym both.1)
        ∙ mark_credited-ledger d.id (id p) w s1 s2 g2 in
      (
        p,
        in_ledger-ok post p s s1 g ∙ ap (λ l. ok (p, l)) (sym same_ledger),
        subst
            (λ j.
              find_deposit j s'.deposits
              ≡ some (record d {
                status = DepositStatus.credited;
                ledger_transaction_id = some (id p);
              }))
            same_id (rw kept.0 row),
      )

  credit_as-confirmed :
      (status : DepositStatus) (d : Deposit) (s s' : Store) (correlation : Text)
      → credit_as uuid_text uuid_v5 status s d correlation s ≡ ok (CreditOutcome.credited, s')
      → (status ≡ DepositStatus.confirmed)
        × (credit_confirmed uuid_text uuid_v5 s d correlation s ≡ ok (CreditOutcome.credited, s'))
  unfolding credit_as
  credit_as-confirmed DepositStatus.confirmed d s s' c h = (refl, h)
  credit_as-confirmed DepositStatus.credited d s s' c h = absurd (cc h)
  credit_as-confirmed DepositStatus.reorged d s s' c h = absurd (cc h)
  credit_as-confirmed DepositStatus.failed d s s' c h = absurd (cc h)
  credit_as-confirmed DepositStatus.observed d s s' c h = absurd (cc h)
  credit_as-confirmed DepositStatus.confirming d s s' c h = absurd (cc h)

  credit_opened :
      (i : ℕ) (correlation : Text) (s s' : Store)
      → credit uuid_text uuid_v5 i correlation s ≡ ok (CreditOutcome.credited, s')
      → (d : Deposit) × (find_deposit i s.deposits ≡ some d)
        × (d.status ≡ DepositStatus.confirmed)
        × IsCredited i correlation d s s'
  unfolding credit
  credit_opened i correlation s s' h =
      let (d, m, g, k) =
        >>=-eq-ok (lock_deposit i) (λ x. credit_as uuid_text uuid_v5 x.status s x correlation) s
          h in
      let (f, same) = locked i s m d g in
      let (q, r) = credit_as-confirmed d.status d s s' correlation (rw same at k) in
      (d, f, q, credit_confirmed-IsCredited i d s s' correlation CreditOutcome.credited f q r)

-- A credit that answers `Credited` found the deposit confirmed, leaves the ledger as the posting of that
-- deposit leaves it, and leaves the deposit credited and linked to that posting. The next credit of
-- it, and any in later tables where the deposit is still credited, answers `AlreadyCredited` and
-- changes no table.
pub credit_once :
    (uuid_text : ℕ → Text) (uuid_v5 : Text → ℕ) (i : ℕ) (c c' : Text) (s s' later : Store)
    (v : Deposit)
    → credit uuid_text uuid_v5 i c s ≡ ok (CreditOutcome.credited, s')
    → find_deposit i later.deposits ≡ some v
    → v.status ≡ DepositStatus.credited
    → ((d : Deposit) × (find_deposit i s.deposits ≡ some d)
        × (d.status ≡ DepositStatus.confirmed)
        × IsCredited uuid_text uuid_v5 i c d s s')
      × (credit uuid_text uuid_v5 i c' s' ≡ ok (CreditOutcome.already_credited, s'))
      × (credit uuid_text uuid_v5 i c' later ≡ ok (CreditOutcome.already_credited, later))
credit_once uuid_text uuid_v5 i c c' s s' later v h e still =
    let (d, f, q, (p, posted, row)) = credit_opened uuid_text uuid_v5 i c s s' h in
    (
      (d, f, q, (p, posted, row)),
      credit_again uuid_text uuid_v5 i c' s'
          (record d { status = DepositStatus.credited; ledger_transaction_id = some (id p) }) row
          refl,
      credit_again uuid_text uuid_v5 i c' later v e still,
    )

-- The claim of the event, as the handler's name and the event's identifier.
abbrev pub claim_of : Envelope → Text × ℕ
claim_of e = (codes "deposit_credit", e.event_id)

abbrev pub claimed : Envelope → Store → Store
claimed e s = record s { processed = claim_of e ∷ s.processed }

module _ (uuid_text : ℕ → Text) (uuid_v5 : Text → ℕ) (e : Envelope) (i : ℕ)
    (named : e.payload ≡ some i) where
  handle_replay :
      (s : Store)
      → is_claimed (codes "deposit_credit") e.event_id s.processed ≡ true
      → handle uuid_text uuid_v5 e s ≡ (ok HandlerOutcome.done, s)
  unfolding handle handle_claimed
  handle_replay s h =
      rw (handle, named, claim_event-again (codes "deposit_credit") e.event_id s h) refl

  conclude_conflict :
      (s : Store) (r : Result (CreditOutcome × Store))
      → r ≡ err Error.conflict
      → conclude uuid_text uuid_v5 s r ≡ (err Error.conflict, s)
  conclude_conflict s r h = rw h refl

  handle_first :
      (s : Store) (d : Deposit)
      → is_claimed (codes "deposit_credit") e.event_id s.processed ≡ false
      → find_deposit i s.deposits ≡ some d
      → d.status ≡ DepositStatus.confirming
      → handle uuid_text uuid_v5 e s ≡ (err Error.conflict, claimed e s)
  unfolding handle handle_claimed credit credit_as
  handle_first s d n f k =
      rw (handle, named, claim_event-new (codes "deposit_credit") e.event_id s n)
        (conclude_conflict (claimed e s) _ (
          >>=-ok (lock_deposit i)
            (λ x. credit_as uuid_text uuid_v5 x.status (claimed e s) x e.correlation_id)
            (claimed e s) d (claimed e s) (lock_deposit_lem i (claimed e s) d f)
          ∙ rw k refl))

-- The handler keeps its claim of an event when crediting fails: for a deposit that is still
-- confirming it answers a conflict and writes the claim, and with the claim written it answers
-- `Done` in every later state of the tables and credits nothing, whatever the deposit has become.
pub handle_forgets :
    (uuid_text : ℕ → Text) (uuid_v5 : Text → ℕ) (e : Envelope) (i : ℕ) (s later : Store)
    (d : Deposit)
    → e.payload ≡ some i
    → is_claimed (codes "deposit_credit") e.event_id s.processed ≡ false
    → find_deposit i s.deposits ≡ some d
    → d.status ≡ DepositStatus.confirming
    → is_claimed (codes "deposit_credit") e.event_id later.processed ≡ true
    → (handle uuid_text uuid_v5 e s ≡ (err Error.conflict, claimed e s))
      × (handle uuid_text uuid_v5 e later ≡ (ok HandlerOutcome.done, later))
handle_forgets uuid_text uuid_v5 e i s later d named n f k same = (
  handle_first uuid_text uuid_v5 e i named s d n f k,
  handle_replay uuid_text uuid_v5 e i named later same,
)

-- ===== src/Deposits/Rows.antt =====
-- What the statements of crates/database/src/repo/deposits.rs read and write.
use chain_rail.Common.Result.{Result-cases}
use chain_rail.Base.{
  ℕ, ◌≡◌, refl, Bool, true, false, List, [], ◌∷◌, none, some, Text, ◌==◌, Bool-cases, inl, inr,
  ==_iff,
}
use chain_rail.Common.Error.{Error}
use chain_rail.Common.Result.{Result, ok, err, M, lift, ok_or}
use chain_rail.Models.Deposit.{DepositStatus}
use chain_rail.Models.Asset.{Asset, find_asset}
use chain_rail.Ledger.Tables.{Ledger}
use chain_rail.Events.{EventEnvelope}
use chain_rail.Events.Outbox.{insert_event}
use chain_rail.Deposits.{
  Deposit, Store, in_ledger, find_deposit, lock_deposit, get_asset_by_id, update_where,
  matches_where, has_status, mark_credited, enqueue, is_claimed, claim_event,
}

pub lock_deposit_lem :
    (i : ℕ) (s : Store) (d : Deposit)
    → find_deposit i s.deposits ≡ some d
    → lock_deposit i s ≡ ok (d, s)
unfolding lock_deposit
lock_deposit_lem i s d f = rw f refl

pub claim_event-new :
    (c : Text) (e : ℕ) (s : Store)
    → is_claimed c e s.processed ≡ false
    → claim_event c e s ≡ ok (true, record s { processed = (c, e) ∷ s.processed })
unfolding claim_event
claim_event-new c e s n = rw n refl

pub claim_event-again :
    (c : Text) (e : ℕ) (s : Store)
    → is_claimed c e s.processed ≡ true
    → claim_event c e s ≡ ok (false, s)
unfolding claim_event
claim_event-again c e s n = rw n refl

pub update_where-found :
    (i : ℕ) (p : Deposit → Bool) (f : Deposit → Deposit) (ds : List Deposit) (d : Deposit)
    → find_deposit i ds ≡ some d
    → p d ≡ true
    → (f d).id ≡ d.id
    → (find_deposit i (update_where i p f ds) ≡ some (f d)) × (matches_where i p ds ≡ true)
update_where-found i p f [] d h q e = absurd (cc h)
update_where-found i p f (c ∷ ds) d h q e = elim (Bool-cases (c.id == i)) [
  | inl r ↦
      let same : c ≡ d = cc (rw r at h) in
      let r' : (d.id == i) ≡ true = rw same at r in rw (same, r', q, e, r') (refl, refl)
  | inr r ↦ rw (r, r) (update_where-found i p f ds d (rw r at h) q e)
]

pub find_deposit-id :
    (i : ℕ) (ds : List Deposit) (d : Deposit) → find_deposit i ds ≡ some d → d.id ≡ i
find_deposit-id i [] d h = absurd (cc h)
find_deposit-id i (c ∷ ds) d h = elim (Bool-cases (c.id == i)) [
  | inl r ↦ let same : c ≡ d = cc (rw r at h) in rw (← same) ((==_iff c.id i).0 r)
  | inr r ↦ find_deposit-id i ds d (rw r at h)
]

-- The deposits under computations that do not write them.
pub in_ledger-deposits :
    {A : Type 0} (m : M Ledger A) (a : A) (s s' : Store)
    → in_ledger m s ≡ ok (a, s')
    → s'.deposits ≡ s.deposits
in_ledger-deposits {A} m a s s' h = go (m s.ledger) h
  where
    go :
        (o : Result (A × Ledger))
        → ◌≡◌ {A = Result (A × Store)}
            (elim o [ ok (a, l') ↦ ok (a, record s { ledger = l' }) | err e ↦ err e ])
            (ok (a, s'))
        → s'.deposits ≡ s.deposits
    go (ok (b, l')) k = let same : record s { ledger = l' } ≡ s' = cc in rw (← same) refl
    go (err e) k = absurd (cc k)

-- A computation on the ledger, where it answers.
pub in_ledger-ok :
    {A : Type 0} (m : M Ledger A) (a : A) (s s' : Store)
    → in_ledger m s ≡ ok (a, s')
    → m s.ledger ≡ ok (a, s'.ledger)
in_ledger-ok {A} m a s s' h = elim (Result-cases (m s.ledger)) [
  | inl ((b, l), e) ↦
      let pair : ◌≡◌ {A = Result (A × Store)} (ok (b, record s { ledger = l })) (ok (a, s')) =
        rw (in_ledger, e) at h in
      let both : (b ≡ a) × (record s { ledger = l } ≡ s') = (cc, cc) in rw (← both.0, ← both.1) e
  | inr (x, e) ↦ absurd (cc (rw (in_ledger, e) at h))
]

pub mark_credited-ledger :
    (i t : ℕ) (b : Bool) (s s' : Store) → mark_credited i t s ≡ ok (b, s') → s'.ledger ≡ s.ledger
unfolding mark_credited
mark_credited-ledger i t b s s' h =
    let pair : ◌≡◌ {A = Result (Bool × Store)} (mark_credited i t s) (ok (b, s')) = h in
    let same : record s {
      deposits =
          update_where i (has_status DepositStatus.confirmed)
            (λ d. record d { status = DepositStatus.credited; ledger_transaction_id = some t })
            s.deposits;
    }
        ≡ s' =
      cc in
    rw (← same) refl

pub enqueue-ledger :
    (uuid_text : ℕ → Text) (e : EventEnvelope) (s s' : Store)
    → enqueue uuid_text e s ≡ ok (tt, s')
    → s'.ledger ≡ s.ledger
unfolding enqueue
enqueue-ledger uuid_text e s s' h =
    let same : record s { outbox = insert_event uuid_text e s.outbox } ≡ s' = cc in rw (← same) refl

pub get_asset_by_id-same :
    (i : ℕ) (a : Asset) (s s' : Store) → get_asset_by_id i s ≡ ok (a, s') → s' ≡ s
unfolding get_asset_by_id
get_asset_by_id-same i a s s' h = go (ok_or (find_asset i s.assets) Error.not_found) h
  where
    go : (o : Result Asset) → lift o s ≡ ok (a, s') → s' ≡ s
    go (ok b) k = cc
    go (err e) k = absurd (cc k)

pub enqueue-deposits :
    (uuid_text : ℕ → Text) (e : EventEnvelope) (s s' : Store)
    → enqueue uuid_text e s ≡ ok (tt, s')
    → s'.deposits ≡ s.deposits
unfolding enqueue
enqueue-deposits uuid_text e s s' h =
    let same : record s { outbox = insert_event uuid_text e s.outbox } ≡ s' = cc in rw (← same) refl

pub mark_credited-won :
    (i t : ℕ) (d : Deposit) (s : Store)
    → find_deposit i s.deposits ≡ some d
    → d.status ≡ DepositStatus.confirmed
    → (s' : Store) × (mark_credited i t s ≡ ok (true, s'))
      × (find_deposit i s'.deposits
          ≡ some (record d { status = DepositStatus.credited; ledger_transaction_id = some t }))
unfolding mark_credited
mark_credited-won i t d s f k =
    let u =
      update_where-found i (has_status DepositStatus.confirmed)
        (λ d. record d { status = DepositStatus.credited; ledger_transaction_id = some t })
        s.deposits d f (rw k refl) refl in
    (
      record s {
        deposits =
            update_where i (has_status DepositStatus.confirmed)
              (λ d. record d { status = DepositStatus.credited; ledger_transaction_id = some t })
              s.deposits;
      },
      rw u.1 refl,
      u.0,
    )

pub lock_deposit-none :
    (i : ℕ) (s : Store) → find_deposit i s.deposits ≡ none → lock_deposit i s ≡ err Error.not_found
unfolding lock_deposit
lock_deposit-none i s f = rw f refl

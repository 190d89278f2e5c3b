-- ===== src/Withdrawals/Advance.antt =====
-- What every transaction of the withdrawal path leaves of the tables before it: crates/withdrawals
-- with crates/database/src/repo/withdrawals.rs.
use chain_rail.Base.{ℕ, ◌≡◌, ◌∙◌, refl, Bool, true, false, List, Option, some, Text, inl, inr}
use chain_rail.Common.Error.{Error}
use chain_rail.Common.Result.{
  Result, ok, err, M, ◌>>=◌, >>=-eq-ok, pure, throw, lift, gets, guard, Result-cases,
}
use chain_rail.Models.Withdrawal.{WithdrawalStatus}
use chain_rail.Models.Machines.{Life, here, next}
use chain_rail.Ledger.Tables.{Ledger}
use chain_rail.Ledger.Operations.Sound.{IsKept, IsKept-trans, Keeps}
use chain_rail.Events.{EventEnvelope}
use chain_rail.Events.Outbox.{insert_event}
use chain_rail.Withdrawals.Nonce.{NonceRow}
use chain_rail.Withdrawals.Rows.{
  Withdrawal, Store, in_ledger, in_nonces, enqueue, find_withdrawal, lock_withdrawal,
  get_asset_by_id, is_consistent,
}

pub Life-trans : {s t u : WithdrawalStatus} → Life s t → Life t u → Life s u
Life-trans l here = l
Life-trans l (next m h) = next (Life-trans l m) h

-- What a withdrawal is about never changes, and its status follows the state machine.
pub record Follows (w w' : Withdrawal) : Type 0 where
  pub same_id : w'.id ≡ w.id
  pub same_user : w'.user_id ≡ w.user_id
  pub same_asset : w'.asset_id ≡ w.asset_id
  pub same_chain : w'.chain ≡ w.chain
  pub same_destination : w'.destination_address ≡ w.destination_address
  pub same_amount : w'.amount_raw ≡ w.amount_raw
  pub same_key : w'.idempotency_key ≡ w.idempotency_key
  pub life : Life w.status w'.status

pub Follows-refl : (w : Withdrawal) → Follows w w
Follows-refl w = record {
  same_id = refl;
  same_user = refl;
  same_asset = refl;
  same_chain = refl;
  same_destination = refl;
  same_amount = refl;
  same_key = refl;
  life = here;
}

pub Follows-trans : (u v w : Withdrawal) → Follows u v → Follows v w → Follows u w
Follows-trans u v w g h = record {
  same_id = h.same_id ∙ g.same_id;
  same_user = h.same_user ∙ g.same_user;
  same_asset = h.same_asset ∙ g.same_asset;
  same_chain = h.same_chain ∙ g.same_chain;
  same_destination = h.same_destination ∙ g.same_destination;
  same_amount = h.same_amount ∙ g.same_amount;
  same_key = h.same_key ∙ g.same_key;
  life = Life-trans g.life h.life;
}

-- The rows meet the CHECK constraints of the table.
abbrev pub AreConsistent : List Withdrawal → Type 0
AreConsistent ws = (i : ℕ) (w : Withdrawal) → find_withdrawal i ws ≡ some w → is_consistent w ≡ true

-- `withdrawals_idempotency_key`: a user has a key in one row only.
abbrev pub IsUnique : List Withdrawal → Type 0
IsUnique ws =
    (i j : ℕ) (v w : Withdrawal)
    → find_withdrawal i ws ≡ some v
    → find_withdrawal j ws ≡ some w
    → v.user_id ≡ w.user_id
    → v.idempotency_key ≡ w.idempotency_key
    → i ≡ j

abbrev pub Successor : Withdrawal → Option Withdrawal → Type 0
Successor w o = (w' : Withdrawal) × (o ≡ some w') × Follows w w'

-- The ledger is kept sound, no withdrawal is lost, and each follows from what it was.
pub record IsAdvanced (s s' : Store) : Type 0 where
  pub ledger : IsKept s.ledger s'.ledger
  pub rows :
      (i : ℕ) (w : Withdrawal)
      → find_withdrawal i s.withdrawals ≡ some w
      → Successor w (find_withdrawal i s'.withdrawals)
  pub consistent : AreConsistent s.withdrawals → AreConsistent s'.withdrawals
  pub unique : IsUnique s.withdrawals → IsUnique s'.withdrawals

pub IsKept-refl : (l : Ledger) → IsKept l l
IsKept-refl l = record { sound = λ s. s; totals = λ y. refl }

pub IsAdvanced-refl : (s : Store) → IsAdvanced s s
IsAdvanced-refl s = record {
  ledger = IsKept-refl s.ledger;
  rows = λ i w e. (w, e, Follows-refl w);
  consistent = λ c. c;
  unique = λ u. u;
}

pub IsAdvanced-trans : (r s t : Store) → IsAdvanced r s → IsAdvanced s t → IsAdvanced r t
IsAdvanced-trans r s t g h = record {
  ledger = IsKept-trans r.ledger s.ledger t.ledger g.ledger h.ledger;
  rows = λ i w e.
      let (w', e', f) = g.rows i w e in
      let (w'', e'', f') = h.rows i w' e' in (w'', e'', Follows-trans w w' w'' f f');
  consistent = λ c. h.consistent (g.consistent c);
  unique = λ u. h.unique (g.unique u);
}

-- A computation that, from any tables that follow from `before`, answers with such tables.
abbrev pub Advances : {A : Type 0} → Store → M Store A → Type 0
Advances {A} before m =
    (s : Store) (a : A) (s' : Store) → IsAdvanced before s → m s ≡ ok (a, s') → IsAdvanced before s'

pub Advances->>= :
    {A B : Type 0} {before : Store} {m : M Store A} {f : A → M Store B}
    → Advances before m
    → ((a : A) → Advances before (f a))
    → Advances before (m >>= f)
Advances->>= {A} {B} {before} {m} {f} g h s b s'' v k =
    let (a, s', p, q) = >>=-eq-ok m f s k in h a s' b s'' (g s a s' v p) q

Advances-const : {A : Type 0} (before : Store) (r : Result A) → Advances before (lift r)
Advances-const before (ok a) s b s' v h = let same : s ≡ s' = cc in rw (← same) v
Advances-const before (err e) s b s' v h = absurd (cc h)

pub Advances-lift : {A : Type 0} {before : Store} (r : Result A) → Advances before (lift r)
Advances-lift {A} {before} r = Advances-const before r

pub Advances-pure : {A : Type 0} {before : Store} (a : A) → Advances before (pure a)
Advances-pure a s b s' v h = let same : s ≡ s' = cc in rw (← same) v

pub Advances-throw : {A : Type 0} {before : Store} (e : Error) → Advances before (throw {A = A} e)
Advances-throw e s b s' v h = absurd (cc h)

pub Advances-gets : {A : Type 0} {before : Store} (f : Store → A) → Advances before (gets f)
Advances-gets f s b s' v h = let same : s ≡ s' = cc in rw (← same) v

pub Advances-guard : {before : Store} (b : Bool) (e : Error) → Advances before (guard b e)
Advances-guard true e = Advances-pure tt
Advances-guard false e = Advances-throw e

pub lock_withdrawal-Advances : {before : Store} (i : ℕ) → Advances before (lock_withdrawal i)
unfolding lock_withdrawal
lock_withdrawal-Advances i s = Advances-lift _ s

pub get_asset_by_id-Advances : {before : Store} (i : ℕ) → Advances before (get_asset_by_id i)
unfolding get_asset_by_id
get_asset_by_id-Advances i s = Advances-lift _ s

-- A step that writes the ledger and other tables than `withdrawals`.
beside :
    (before s s' : Store)
    → IsAdvanced before s
    → IsKept s.ledger s'.ledger
    → s'.withdrawals ≡ s.withdrawals
    → IsAdvanced before s'
beside before s s' v k e = IsAdvanced-trans before s s' v (record {
  ledger = k;
  rows = λ i w f. (w, rw e f, Follows-refl w);
  consistent = λ c. rw e c;
  unique = λ u. rw e u;
})

pub in_ledger-Advances :
    {A : Type 0} {before : Store} (m : M Ledger A) → Keeps m → Advances before (in_ledger m)
in_ledger-Advances {A} {before} m k s a s' v h = elim (Result-cases (m s.ledger)) [
  | inl ((b, l), e) ↦
      let same : record s { ledger = l } ≡ s' = cc (rw (in_ledger, e) at h) in
      rw (← same) (beside before s (record s { ledger = l }) v (k s.ledger b l e) refl)
  | inr (x, e) ↦ absurd (cc (rw (in_ledger, e) at h))
]

pub in_nonces-Advances :
    {A : Type 0} {before : Store} (m : M (List NonceRow) A) → Advances before (in_nonces m)
in_nonces-Advances {A} {before} m s a s' v h = elim (Result-cases (m s.nonces)) [
  | inl ((b, l), e) ↦
      let same : record s { nonces = l } ≡ s' = cc (rw (in_nonces, e) at h) in
      rw (← same) (beside before s (record s { nonces = l }) v (IsKept-refl s.ledger) refl)
  | inr (x, e) ↦ absurd (cc (rw (in_nonces, e) at h))
]

pub enqueue-Advances :
    {before : Store} (uuid_text : ℕ → Text) (e : EventEnvelope)
    → Advances before (enqueue uuid_text e)
unfolding enqueue
enqueue-Advances {before} uuid_text e s a s' v h =
    let out = insert_event uuid_text e s.outbox in
    let same : record s { outbox = out } ≡ s' = cc in
    rw (← same) (beside before s (record s { outbox = out }) v (IsKept-refl s.ledger) refl)

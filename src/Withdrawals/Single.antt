-- ===== src/Withdrawals/Single.antt =====
-- One withdrawal under the transactions of crates/withdrawals.
use chain_rail.Base.{
  ℕ, ◌≡◌, ◌∙◌, refl, sym, ap, subst, Bool, true, List, some, Text, ==-refl, if◌then◌else◌,
  Option-cases, inl, inr, arith,
}
use chain_rail.Common.Error.{Error}
use chain_rail.Common.Result.{Result, ok, err, M, ◌>>=◌, >>=-eq-ok, pure, lift, ok_or, Result-cases}
use chain_rail.Models.Asset.{find_asset}
use chain_rail.Models.Withdrawal.{WithdrawalStatus, same_status}
use chain_rail.Ledger.Tables.{Ledger}
use chain_rail.Events.{EventEnvelope}
use chain_rail.Events.Outbox.{insert_event}
use chain_rail.Withdrawals.Nonce.{NonceRow}
use chain_rail.Withdrawals.Rows.{
  Withdrawal, Store, in_ledger, in_nonces, enqueue, find_withdrawal, lock_withdrawal,
  get_asset_by_id, update_where,
}
use chain_rail.Withdrawals.Update.{
  update_where-cases, find_withdrawal-set_row, find_withdrawal-id, replaced,
}

pub same_status-eq : (a b : WithdrawalStatus) → same_status a b ≡ true → a ≡ b
same_status-eq a b h = ground arith

-- A computation that leaves `withdrawals` alone.
abbrev pub Spares : {A : Type 0} → M Store A → Type 0
Spares {A} m = (s : Store) (a : A) (s' : Store) → m s ≡ ok (a, s') → s'.withdrawals ≡ s.withdrawals

pub Spares->>= :
    {A B : Type 0} {m : M Store A} {f : A → M Store B}
    → Spares m
    → ((a : A) → Spares (f a))
    → Spares (m >>= f)
Spares->>= {A} {B} {m} {f} g h s b s'' k =
    let (a, s', p, q) = >>=-eq-ok m f s k in h a s' b s'' q ∙ g s a s' p

pub Spares-pure : {A : Type 0} (a : A) → Spares (pure a)
Spares-pure a s b s' h = let same : s ≡ s' = cc in rw (← same) refl

pub Spares-lift : {A : Type 0} (r : Result A) → Spares (lift r)
Spares-lift (ok a) s b s' h = let same : s ≡ s' = cc in rw (← same) refl
Spares-lift (err e) s b s' h = absurd (cc h)

pub in_ledger-Spares : {A : Type 0} (m : M Ledger A) → Spares (in_ledger m)
in_ledger-Spares m s a s' h = elim (Result-cases (m s.ledger)) [
  | inl ((b, l), e) ↦
      let same : record s { ledger = l } ≡ s' = cc (rw (in_ledger, e) at h) in rw (← same) refl
  | inr (x, e) ↦ absurd (cc (rw (in_ledger, e) at h))
]

-- A computation on the ledger, where it answers.
pub in_ledger-ok :
    {A : Type 0} (m : M Ledger A) (s s' : Store) (a : A)
    → in_ledger m s ≡ ok (a, s')
    → m s.ledger ≡ ok (a, s'.ledger)
in_ledger-ok {A} m s s' a h = elim (Result-cases (m s.ledger)) [
  | inl ((b, l), e) ↦
      let pair : ◌≡◌ {A = Result (A × Store)} (ok (b, record s { ledger = l })) (ok (a, s')) =
        rw (in_ledger, e) at h in
      let both : (b ≡ a) × (record s { ledger = l } ≡ s') = (cc, cc) in rw (← both.0, ← both.1) e
  | inr (x, e) ↦ absurd (cc (rw (in_ledger, e) at h))
]

pub in_nonces-Spares : {A : Type 0} (m : M (List NonceRow) A) → Spares (in_nonces m)
in_nonces-Spares m s a s' h = elim (Result-cases (m s.nonces)) [
  | inl ((b, l), e) ↦
      let same : record s { nonces = l } ≡ s' = cc (rw (in_nonces, e) at h) in rw (← same) refl
  | inr (x, e) ↦ absurd (cc (rw (in_nonces, e) at h))
]

pub enqueue-Spares : (uuid_text : ℕ → Text) (e : EventEnvelope) → Spares (enqueue uuid_text e)
unfolding enqueue
enqueue-Spares uuid_text e s a s' h =
    let same : record s { outbox = insert_event uuid_text e s.outbox } ≡ s' = cc in rw (← same) refl

pub enqueue-ledger :
    (uuid_text : ℕ → Text) (e : EventEnvelope) (s s' : Store)
    → enqueue uuid_text e s ≡ ok (tt, s')
    → s'.ledger ≡ s.ledger
unfolding enqueue
enqueue-ledger uuid_text e s s' h =
    let same : record s { outbox = insert_event uuid_text e s.outbox } ≡ s' = cc in rw (← same) refl

pub get_asset_by_id-Spares : (i : ℕ) → Spares (get_asset_by_id i)
unfolding get_asset_by_id
get_asset_by_id-Spares i s a s' h =
    Spares-lift (ok_or (find_asset i s.assets) Error.not_found) s a s' h

pub lock_withdrawal-ok :
    (i : ℕ) (s s' : Store) (w : Withdrawal)
    → lock_withdrawal i s ≡ ok (w, s')
    → (find_withdrawal i s.withdrawals ≡ some w) × (s' ≡ s)
unfolding lock_withdrawal
lock_withdrawal-ok i s s' w h = elim (Option-cases (find_withdrawal i s.withdrawals)) [
  | inl n ↦ absurd (cc (rw (lock_withdrawal, n) at h))
  | inr (v, e) ↦
      let pair : ◌≡◌ {A = Result (Withdrawal × Store)} (ok (v, s)) (ok (w, s')) =
        rw (lock_withdrawal, e) at h in
      let both : (v ≡ w) × (s' ≡ s) = (cc, cc) in (rw e (ap some both.0), both.1)
]

pub lock_withdrawal_lem :
    (i : ℕ) (s : Store) (w : Withdrawal)
    → find_withdrawal i s.withdrawals ≡ some w
    → lock_withdrawal i s ≡ ok (w, s)
unfolding lock_withdrawal
lock_withdrawal_lem i s w h = rw h refl

-- An UPDATE of a row that is there and passes the test, where the update answers.
pub update_where-hit :
    (i : ℕ) (p : Withdrawal → Bool) (f : Withdrawal → Withdrawal) (s s' : Store) (b : Bool)
    (w : Withdrawal)
    → update_where i p f s ≡ ok (b, s')
    → find_withdrawal i s.withdrawals ≡ some w
    → p w ≡ true
    → (f w).id ≡ w.id
    → (b ≡ true) × (s' ≡ replaced i (f w) s) × (find_withdrawal i s'.withdrawals ≡ some (f w))
update_where-hit i p f s s' b w h e q same = elim (update_where-cases i p f s s' b h) [
  | inr (n, t, missed) ↦ let no = missed w e in absurd (cc)
  | inl (v, g, r, t, new, moves, fine) ↦
      let one : v ≡ w = cc in
      let there : s' ≡ replaced i (f w) s = rw (← one) new in
      let own : (f w).id ≡ i = same ∙ find_withdrawal-id i s.withdrawals w e in
      (
        t,
        there,
        ap (λ (z : Store). find_withdrawal i z.withdrawals) there
            ∙ find_withdrawal-set_row i i (f w) w s.withdrawals e own
            ∙ subst (λ b. (if b then some (f w) else find_withdrawal i s.withdrawals) ≡ some (f w))
                (sym (==-refl i)) refl,
      )
]

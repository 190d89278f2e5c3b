-- ===== src/Withdrawals/Outcome.antt =====
-- How a withdrawal ends: `settle_success` and `fail_and_release` of
-- crates/withdrawals/src/pipeline.rs.
use chain_rail.Withdrawals.Single.{in_ledger-ok}
use chain_rail.Ledger.Service.{PostResult}
use chain_rail.Ledger.Tables.{Ledger}
use chain_rail.Withdrawals.Rows.{in_ledger}
use chain_rail.Withdrawals.Single.{enqueue-ledger}
use chain_rail.Base.{
  ℕ, ◌≡◌, ◌∙◌, refl, sym, ap, Bool, true, false, ◌||◌, Option, none, some, Text, if◌then◌else◌,
}
use chain_rail.Common.Result.{Result, ok, ◌>>=◌, >>=-eq-ok, pure}
use chain_rail.Common.Money.{Amount}
use chain_rail.Models.Asset.{Asset, find_symbol}
use chain_rail.Models.Withdrawal.{WithdrawalStatus, same_status, is_terminal, funds_may_have_left}
use chain_rail.Ledger.Operations.{release_reservation, record_network_fee}
use chain_rail.Withdrawals.Rows.{
  Withdrawal, Store, is_some, in_status, enqueue, find_withdrawal, lock_withdrawal, update_where,
  mark_failed,
}
use chain_rail.Withdrawals.Service.{release_if}
use chain_rail.Withdrawals.Transactions.{
  rolled_back, native_symbol, charge_fee, charge_native_fee, completed_event, announce_completed,
  enqueue_failure, failed_event, fail_locked, fail_and_release,
}
use chain_rail.Withdrawals.Single.{
  Spares, Spares->>=, Spares-pure, in_ledger-Spares, enqueue-Spares, get_asset_by_id-Spares,
  lock_withdrawal-ok, update_where-hit,
}

module _ (uuid_text : ℕ → Text) where
  release_if-Spares : (b : Bool) (w : Withdrawal) → Spares (release_if uuid_text b w)
  unfolding release_if
  release_if-Spares false w = Spares-pure tt
  release_if-Spares true w =
      Spares->>=
        (in_ledger-Spares
          (release_reservation uuid_text w.id w.user_id w.asset_id w.amount_raw w.correlation_id))
        (λ _. Spares-pure tt)

  -- The reservation of `w` is released from the first ledger to the second.
  abbrev pub IsReleased : Withdrawal → Ledger → Ledger → Type 0
  IsReleased w l l' =
      (p : PostResult) × (release_reservation uuid_text w.id w.user_id w.asset_id w.amount_raw
          w.correlation_id l
        ≡ ok (p, l'))

  release_if-IsReleased :
      (w : Withdrawal) (s s' : Store)
      → release_if uuid_text true w s ≡ ok (tt, s')
      → IsReleased w s.ledger s'.ledger
  unfolding release_if
  release_if-IsReleased w s s' h =
      let m =
        release_reservation uuid_text w.id w.user_id w.asset_id w.amount_raw w.correlation_id in
      let (p, s1, g, k) = >>=-eq-ok (in_ledger m) (λ _. pure tt) s h in
      let same : s1 ≡ s' = cc in (p, rw (← same) (in_ledger-ok m s s1 p g))

module _ (uuid_text : ℕ → Text) (uuid_v5 : Text → ℕ) (w : Withdrawal) where
  charge_fee-Spares :
      (fee : Amount) (o : Option Asset) → Spares (charge_fee uuid_text uuid_v5 w fee o)
  unfolding charge_fee
  charge_fee-Spares fee none = Spares-pure tt
  charge_fee-Spares fee (some native) =
      Spares->>=
        (in_ledger-Spares (record_network_fee uuid_text w.id native.id fee w.correlation_id))
        (λ _. Spares-pure tt)

  pub charge_native_fee-Spares : (fee : Amount) → Spares (charge_native_fee uuid_text uuid_v5 w fee)
  unfolding charge_native_fee
  charge_native_fee-Spares fee s a s' h =
      charge_fee-Spares fee (find_symbol w.chain (native_symbol w.chain) s.assets) s a s' h

  pub announce_completed-Spares :
      (before : Store) (fee : Amount) (settle : ℕ)
      → Spares (announce_completed uuid_text uuid_v5 before w fee settle true)
  unfolding announce_completed
  announce_completed-Spares before fee settle =
      Spares->>= (get_asset_by_id-Spares w.asset_id)
        (λ asset. enqueue-Spares uuid_text (completed_event uuid_text uuid_v5 w asset fee settle))

  -- The row of a withdrawal that failed.
  abbrev pub failed_row : Text → Withdrawal → Withdrawal
  failed_row code v = record v { status = WithdrawalStatus.failed; failure_code = some code }

  fail_locked-row :
      (v : Withdrawal) (held : Bool) (code : Text) (s s' : Store) (b : Bool)
      → find_withdrawal w.id s.withdrawals ≡ some v
      → same_status v.status v.status ≡ true
      → fail_locked uuid_text uuid_v5 v.status held w code s ≡ ok (b, s')
      → (b ≡ true)
        × (find_withdrawal w.id s'.withdrawals ≡ some (failed_row code v))
        × ((s1 : Store) × (release_if uuid_text held w s ≡ ok (tt, s1)) × (s'.ledger ≡ s1.ledger))
  unfolding fail_locked enqueue_failure mark_failed
  fail_locked-row v held code s s' b e q h =
      let last = λ (done : Bool).
        enqueue uuid_text (failed_event uuid_text uuid_v5 w code) >>= λ _. pure done in
      let (u, s1, g1, h1) =
        >>=-eq-ok (release_if uuid_text held w)
          (λ _. update_where w.id (in_status v.status) (failed_row code) >>= last) s h in
      let (done, s2, g2, h2) =
        >>=-eq-ok (update_where w.id (in_status v.status) (failed_row code)) last s1 h1 in
      let (u', s3, g3, h3) =
        >>=-eq-ok (enqueue uuid_text (failed_event uuid_text uuid_v5 w code)) (λ _. pure done) s2
          h2 in
      let pair : ◌≡◌ {A = Result (Bool × Store)} (ok (done, s3)) (ok (b, s')) = h3 in
      let both : (done ≡ b) × (s3 ≡ s') = (cc, cc) in
      let (t, there, row) =
        update_where-hit w.id (in_status v.status) (failed_row code) s1 s2 done v g2
          (ap (find_withdrawal w.id) (release_if-Spares uuid_text held w s u s1 g1) ∙ e) q refl in
      (
        sym both.0 ∙ t,
        ap (λ (z : Store). find_withdrawal w.id z.withdrawals) (sym both.1)
            ∙ ap (find_withdrawal w.id)
                (enqueue-Spares uuid_text (failed_event uuid_text uuid_v5 w code) s2 u' s3 g3)
            ∙ row,
        (
          s1,
          g1,
          ap (λ (z : Store). z.ledger) (sym both.1)
              ∙ enqueue-ledger uuid_text (failed_event uuid_text uuid_v5 w code) s2 s3 g3
              ∙ ap (λ (z : Store). z.ledger) there,
        ),
      )

same_status_refl : (a : WithdrawalStatus) → same_status a a ≡ true
same_status_refl WithdrawalStatus.requested = refl
same_status_refl _ = refl

-- `fail_and_release` decides by the status of the locked row alone. Where that row is in `signing` with
-- a reservation and with a transaction hash on record, so that its transaction may be on its way to
-- the network, every answer of `fail_and_release` is true, leaves the withdrawal failed with the hash
-- still on record, and has released the reservation in the ledger, with nothing else done there; the
-- version `w` that the caller has read is not compared with the locked one.
pub fail_and_release_signed :
    (uuid_text : ℕ → Text) (uuid_v5 : Text → ℕ) (w v : Withdrawal) (code tx_hash : Text) (r : ℕ)
    (s s' : Store) (b : Bool)
    → find_withdrawal w.id s.withdrawals ≡ some v
    → v.status ≡ WithdrawalStatus.signing
    → v.tx_hash ≡ some tx_hash
    → v.reserve_ledger_transaction_id ≡ some r
    → fail_and_release uuid_text uuid_v5 w code s ≡ ok (b, s')
    → (b ≡ true)
      × ((v' : Withdrawal) × (find_withdrawal w.id s'.withdrawals ≡ some v')
          × (v'.status ≡ WithdrawalStatus.failed)
          × (v'.tx_hash ≡ some tx_hash))
      × IsReleased uuid_text w s.ledger s'.ledger
unfolding fail_and_release
fail_and_release_signed uuid_text uuid_v5 w v code tx_hash r s s' b e q p reserved h =
    let next = λ (locked : Withdrawal).
      if is_terminal locked.status || funds_may_have_left locked.status
      then rolled_back s false
      else fail_locked uuid_text uuid_v5 locked.status
          (is_some locked.reserve_ledger_transaction_id) w code in
    let (locked, m, g, k) = >>=-eq-ok (lock_withdrawal w.id) next s h in
    let (found, same) = lock_withdrawal-ok w.id s m locked g in
    let one : locked ≡ v = cc in
    let open_status : is_terminal v.status || funds_may_have_left v.status ≡ false = rw q refl in
    let k' : fail_locked uuid_text uuid_v5 v.status true w code s ≡ ok (b, s') =
      rw (open_status, reserved) at (rw (one, same) at k) in
    let (t, row, (s1, g1, kept)) =
      fail_locked-row uuid_text uuid_v5 w v true code s s' b e (same_status_refl v.status) k' in
    let (post, released) = release_if-IsReleased uuid_text w s s1 g1 in
    (
      t,
      (failed_row uuid_text uuid_v5 w code v, row, refl, p),
      (post, released ∙ ap (λ l. ok (post, l)) (sym kept)),
    )

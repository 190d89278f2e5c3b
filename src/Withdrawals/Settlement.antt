-- ===== src/Withdrawals/Settlement.antt =====
-- `settle_success` of crates/withdrawals/src/pipeline.rs.
use chain_rail.Base.{ℕ, ◌≡◌, ◌∙◌, refl, sym, ap, subst, Bool, true, ◌||◌, some, Text, arith}
use chain_rail.Common.Result.{ok, ◌>>=◌, >>=-eq-ok, >>=-ok, pure}
use chain_rail.Common.Money.{Amount}
use chain_rail.Models.Withdrawal.{WithdrawalStatus, same_status}
use chain_rail.Ledger.Service.{PostResult, id}
use chain_rail.Ledger.Operations.{settle_withdrawal}
use chain_rail.Withdrawals.Nonce.{as_i64}
use chain_rail.Withdrawals.Rows.{
  Withdrawal, Store, in_ledger, in_flight, find_withdrawal, lock_withdrawal, update_where,
  update_confirmations, mark_completed, confirming_from,
}
use chain_rail.Withdrawals.Transactions.{
  charge_native_fee, announce_completed, settle_in_flight, settle_as, settle_success,
}
use chain_rail.Withdrawals.Single.{
  in_ledger-Spares, lock_withdrawal-ok, lock_withdrawal_lem, update_where-hit,
}
use chain_rail.Withdrawals.Outcome.{charge_native_fee-Spares, announce_completed-Spares}

-- The row of a withdrawal after `update_confirmations`, and after `mark_completed`.
abbrev pub confirmed_row : ℕ → ℕ → Withdrawal → Withdrawal
confirmed_row b c v = record v {
  block_number = some (as_i64 b);
  confirmations = as_i64 c;
  status = confirming_from v.status;
}

abbrev pub completed_row : ℕ → Amount → Withdrawal → Withdrawal
completed_row settle fee v = record v {
  status = WithdrawalStatus.completed;
  settle_ledger_transaction_id = some settle;
  fee_paid_raw = some fee;
  has_completed_at = true;
}

stays_in_flight :
    (t : WithdrawalStatus)
    → same_status t WithdrawalStatus.broadcast || same_status t WithdrawalStatus.confirming ≡ true
    → same_status (confirming_from t) WithdrawalStatus.broadcast
        || same_status (confirming_from t) WithdrawalStatus.confirming
      ≡ true
stays_in_flight t h = ground arith

module _ (uuid_text : ℕ → Text) (uuid_v5 : Text → ℕ) (w : Withdrawal) (b c : ℕ) (fee : Amount) where
  settle_in_flight-row :
      (v : Withdrawal) (before s s' : Store)
      → find_withdrawal w.id s.withdrawals ≡ some v
      → in_flight v ≡ true
      → settle_in_flight uuid_text uuid_v5 before w b c fee s ≡ ok (tt, s')
      → (t : ℕ) × (find_withdrawal w.id s'.withdrawals
          ≡ some (completed_row t fee (confirmed_row b c v)))
  unfolding settle_in_flight update_confirmations mark_completed
  settle_in_flight-row v before s s' e q h =
      let announced = λ (settle : ℕ) (done : Bool).
        announce_completed uuid_text uuid_v5 before w fee settle done in
      let marked = λ (p : PostResult).
        update_where w.id in_flight (completed_row (id p) fee) >>= announced (id p) in
      let charged =
        λ (p : PostResult). charge_native_fee uuid_text uuid_v5 w fee >>= λ _. marked p in
      let settled =
        in_ledger
          (settle_withdrawal uuid_text w.id w.user_id w.asset_id w.amount_raw w.correlation_id) in
      let (u, s1, g1, h1) =
        >>=-eq-ok (update_where w.id in_flight (confirmed_row b c) >>= λ _. pure tt)
          (λ _. settled >>= charged) s h in
      let (done1, s0, g0, h0) =
        >>=-eq-ok (update_where w.id in_flight (confirmed_row b c)) (λ _. pure tt) s g1 in
      let same : s0 ≡ s1 = cc in
      let (t1, there1, row1) =
        update_where-hit w.id in_flight (confirmed_row b c) s s0 done1 v g0 e q refl in
      let (p, s2, g2, h2) = >>=-eq-ok settled charged s1 h1 in
      let (u3, s3, g3, h3) =
        >>=-eq-ok (charge_native_fee uuid_text uuid_v5 w fee) (λ _. marked p) s2 h2 in
      let (done, s4, g4, h4) =
        >>=-eq-ok (update_where w.id in_flight (completed_row (id p) fee)) (announced (id p)) s3
          h3 in
      let there3 : find_withdrawal w.id s3.withdrawals ≡ some (confirmed_row b c v) =
        ap (find_withdrawal w.id) (
          charge_native_fee-Spares uuid_text uuid_v5 w fee s2 u3 s3 g3
          ∙ in_ledger-Spares
              (settle_withdrawal uuid_text w.id w.user_id w.asset_id w.amount_raw w.correlation_id)
              s1 p s2 g2)
        ∙ ap (λ (z : Store). find_withdrawal w.id z.withdrawals) (sym same)
        ∙ row1 in
      let (t4, there4, row4) =
        update_where-hit w.id in_flight (completed_row (id p) fee) s3 s4 done (confirmed_row b c v)
          g4 there3 (stays_in_flight v.status q) refl in
      (
        id p,
        ap (find_withdrawal w.id) (
              announce_completed-Spares uuid_text uuid_v5 w before fee (id p) s4 tt s'
                (rw t4 at h4))
            ∙ row4,
      )

  settle_again :
      (v : Withdrawal) (s : Store)
      → find_withdrawal w.id s.withdrawals ≡ some v
      → v.status ≡ WithdrawalStatus.completed
      → settle_success uuid_text uuid_v5 w b c fee s ≡ ok (tt, s)
  unfolding settle_success settle_as
  settle_again v s e q =
      >>=-ok (lock_withdrawal w.id)
        (λ locked. settle_as uuid_text uuid_v5 locked.status s w b c fee) s v s
        (lock_withdrawal_lem w.id s v e)
      ∙ rw q refl

settle_as-in_flight :
    (uuid_text : ℕ → Text) (uuid_v5 : Text → ℕ) (status : WithdrawalStatus) (before : Store)
    (w : Withdrawal) (b c : ℕ) (fee : Amount)
    → same_status status WithdrawalStatus.broadcast
        || same_status status WithdrawalStatus.confirming
      ≡ true
    → settle_as uuid_text uuid_v5 status before w b c fee
      ≡ settle_in_flight uuid_text uuid_v5 before w b c fee
unfolding settle_as
settle_as-in_flight uuid_text uuid_v5 WithdrawalStatus.broadcast before w b c fee h = refl
settle_as-in_flight uuid_text uuid_v5 WithdrawalStatus.confirming before w b c fee h = refl
settle_as-in_flight uuid_text uuid_v5 _ before w b c fee h = absurd (cc)

-- A withdrawal is settled once: where its row is in `broadcast` or `confirming` and `settle_success`
-- answers, the row is completed with a settlement of the ledger, the fee and the confirmations, and
-- otherwise as it was; and every settlement of it after that, whatever it is given, answers and
-- changes no table.
pub settle_success_once :
    (uuid_text : ℕ → Text) (uuid_v5 : Text → ℕ) (w v : Withdrawal) (b c : ℕ) (fee : Amount)
    (s s' : Store)
    → find_withdrawal w.id s.withdrawals ≡ some v
    → in_flight v ≡ true
    → settle_success uuid_text uuid_v5 w b c fee s ≡ ok (tt, s')
    → ((t : ℕ) × (find_withdrawal w.id s'.withdrawals
          ≡ some (completed_row t fee (confirmed_row b c v))))
      × ((w' : Withdrawal) (b' c' : ℕ) (fee' : Amount)
          → w'.id ≡ w.id
          → settle_success uuid_text uuid_v5 w' b' c' fee' s' ≡ ok (tt, s'))
unfolding settle_success
settle_success_once uuid_text uuid_v5 w v b c fee s s' e q h =
    let (locked, m, g, k) =
      >>=-eq-ok (lock_withdrawal w.id)
        (λ locked. settle_as uuid_text uuid_v5 locked.status s w b c fee) s h in
    let (found, same) = lock_withdrawal-ok w.id s m locked g in
    let one : locked ≡ v = cc in
    let k' : settle_in_flight uuid_text uuid_v5 s w b c fee s ≡ ok (tt, s') =
      rw (settle_as-in_flight uuid_text uuid_v5 v.status s w b c fee q) at (rw (one, same) at k) in
    let (t, row) = settle_in_flight-row uuid_text uuid_v5 w b c fee v s s s' e q k' in
    (
      (t, row),
      λ w' b' c' fee' i.
          settle_again uuid_text uuid_v5 w' b' c' fee' (completed_row t fee (confirmed_row b c v))
            s'
            (subst
              (λ j.
                find_withdrawal j s'.withdrawals ≡ some (completed_row t fee (confirmed_row b c v)))
              (sym i) row)
            refl,
    )

-- ===== src/Withdrawals/Progress.antt =====
-- Every transaction of crates/withdrawals lets withdrawals only move along their state machine, and
-- keeps the ledger sound.
use chain_rail.Base.{
  ℕ, ◌≡◌, refl, Bool, true, false, ◌||◌, not, Option, none, some, Text, codes, if◌then◌else◌,
  Bool-cases, inl, inr,
}
use chain_rail.Common.Error.{Error}
use chain_rail.Common.Result.{ok, M}
use chain_rail.Common.Money.{Amount}
use chain_rail.Models.Asset.{Asset}
use chain_rail.Models.Withdrawal.{
  WithdrawalStatus, same_status, is_terminal, funds_may_have_left, transition_to,
}
use chain_rail.Ledger.Service.{id}
use chain_rail.Ledger.Operations.Sound.{
  release_reservation-Keeps, record_broadcast-Keeps, settle_withdrawal-Keeps,
  reverse_broadcast-Keeps, record_network_fee-Keeps,
}
use chain_rail.Withdrawals.Nonce.{allocate_nonce}
use chain_rail.Withdrawals.Rows.{
  Withdrawal, Store, SignedTxFacts, is_some, transition, attach_reservation,
  record_signed_transaction, mark_broadcast, update_confirmations, mark_completed, mark_failed,
}
use chain_rail.Withdrawals.Service.{approve_transaction, release_if, cancel_transaction}
use chain_rail.Withdrawals.Chain.{ChainAdapter, Signer}
use chain_rail.Withdrawals.Transactions.{
  rolled_back, sign_moved, sign_if_moved, sign_approved, sign_transaction, broadcast_signing,
  broadcast_transaction, charge_fee, charge_native_fee, announce_completed, settle_in_flight,
  settle_as, settle_success, enqueue_failure, revert_in_flight, settle_failure, fail_locked,
  fail_and_release, or_zero, intent_of, facts_of,
}
use chain_rail.Withdrawals.Advance.{
  IsAdvanced, IsAdvanced-refl, Advances, Advances->>=, Advances-lift, Advances-pure, Advances-throw,
  Advances-gets, Advances-guard, lock_withdrawal-Advances, get_asset_by_id-Advances,
  in_ledger-Advances, in_nonces-Advances, enqueue-Advances,
}
use chain_rail.Withdrawals.Update.{update_where-Advances}

pub rolled_back-Advances :
    {A : Type 0} (before : Store) (a : A) → Advances before (rolled_back before a)
rolled_back-Advances before a s b s' v h =
    let same : before ≡ s' = cc in rw (← same) (IsAdvanced-refl before)

-- Either branch of a test.
pub Advances-if :
    {A : Type 0} {before : Store} (b : Bool) (m n : M Store A)
    → Advances before m
    → Advances before n
    → Advances before (λ s. (if b then m else n) s)
Advances-if true m n g h = g
Advances-if false m n g h = h

module _ {before : Store} where
  pub transition-Advances :
      (i : ℕ) (from next : WithdrawalStatus) → Advances before (transition i from next)
  unfolding transition
  transition-Advances i from next =
      Advances->>= (Advances-lift (transition_to from next))
        (λ _. update_where-Advances i _ _ (λ w. (refl, refl, refl, refl, refl, refl, refl)))

  pub attach_reservation-Advances : (i t : ℕ) → Advances before (attach_reservation i t)
  unfolding attach_reservation
  attach_reservation-Advances i t =
      Advances->>= (update_where-Advances i _ _ (λ w. (refl, refl, refl, refl, refl, refl, refl)))
        (λ _. Advances-pure tt)

  pub record_signed_transaction-Advances :
      (i : ℕ) (facts : SignedTxFacts) → Advances before (record_signed_transaction i facts)
  unfolding record_signed_transaction
  record_signed_transaction-Advances i facts =
      Advances->>= (update_where-Advances i _ _ (λ w. (refl, refl, refl, refl, refl, refl, refl)))
        (λ _. Advances-pure tt)

  pub mark_broadcast-Advances : (i : ℕ) → Advances before (mark_broadcast i)
  unfolding mark_broadcast
  mark_broadcast-Advances i =
      update_where-Advances i _ _ (λ w. (refl, refl, refl, refl, refl, refl, refl))

  pub update_confirmations-Advances : (i b c : ℕ) → Advances before (update_confirmations i b c)
  unfolding update_confirmations
  update_confirmations-Advances i b c =
      Advances->>= (update_where-Advances i _ _ (λ w. (refl, refl, refl, refl, refl, refl, refl)))
        (λ _. Advances-pure tt)

  pub mark_completed-Advances :
      (i settle : ℕ) (fee : Amount) → Advances before (mark_completed i settle fee)
  unfolding mark_completed
  mark_completed-Advances i settle fee =
      update_where-Advances i _ _ (λ w. (refl, refl, refl, refl, refl, refl, refl))

  pub mark_failed-Advances :
      (i : ℕ) (from : WithdrawalStatus) (code : Text) → Advances before (mark_failed i from code)
  unfolding mark_failed
  mark_failed-Advances i from code =
      update_where-Advances i _ _ (λ w. (refl, refl, refl, refl, refl, refl, refl))

  pub approve_transaction-Advances : (i : ℕ) → Advances before (approve_transaction i)
  unfolding approve_transaction
  approve_transaction-Advances i =
      Advances->>= (lock_withdrawal-Advances i)
        (λ w. Advances->>= (Advances-guard _ _) (λ _. transition-Advances i _ _))

module _ {before : Store} (uuid_text : ℕ → Text) where
  pub release_if-Advances : (b : Bool) (w : Withdrawal) → Advances before (release_if uuid_text b w)
  unfolding release_if
  release_if-Advances false w = Advances-pure tt
  release_if-Advances true w =
      Advances->>=
        (in_ledger-Advances _ (
          release_reservation-Keeps uuid_text w.id w.user_id w.asset_id w.amount_raw
            w.correlation_id))
        (λ _. Advances-pure tt)

  pub cancel_transaction-Advances : (i : ℕ) → Advances before (cancel_transaction uuid_text i)
  unfolding cancel_transaction
  cancel_transaction-Advances i = Advances->>= (lock_withdrawal-Advances i) (λ w.
      Advances->>= (Advances-guard (not (funds_may_have_left w.status)) Error.conflict) (λ _.
        Advances->>= (Advances-guard (not (is_terminal w.status)) Error.conflict) (λ _.
          Advances->>= (release_if-Advances (is_some w.reserve_ledger_transaction_id) w)
            (λ _. transition-Advances w.id w.status WithdrawalStatus.cancelled))))

module _ {before : Store} (uuid_text : ℕ → Text) (uuid_v5 : Text → ℕ) where
  charge_fee-Advances :
      (w : Withdrawal) (fee : Amount) (o : Option Asset)
      → Advances before (charge_fee uuid_text uuid_v5 w fee o)
  unfolding charge_fee
  charge_fee-Advances w fee none = Advances-pure tt
  charge_fee-Advances w fee (some native) =
      Advances->>=
        (in_ledger-Advances _
          (record_network_fee-Keeps uuid_text w.id 0 native.id fee w.correlation_id))
        (λ _. Advances-pure tt)

  charge_native_fee-Advances :
      (w : Withdrawal) (fee : Amount) → Advances before (charge_native_fee uuid_text uuid_v5 w fee)
  unfolding charge_native_fee
  charge_native_fee-Advances w fee =
      Advances->>= (Advances-gets _) (λ native. charge_fee-Advances w fee native)

  broadcast_signing-Advances :
      (w : Withdrawal) (tx_hash : Text) (nonce : ℕ) (b : Bool)
      → Advances before (broadcast_signing uuid_text uuid_v5 w tx_hash nonce before b)
  unfolding broadcast_signing
  broadcast_signing-Advances w tx_hash nonce false = rolled_back-Advances before tt
  broadcast_signing-Advances w tx_hash nonce true =
      Advances->>= (mark_broadcast-Advances w.id) (λ _.
        Advances->>=
          (in_ledger-Advances _
            (record_broadcast-Keeps uuid_text w.id 0 w.asset_id w.amount_raw w.correlation_id))
          (λ _. enqueue-Advances uuid_text _))

  announce_completed-Advances :
      (w : Withdrawal) (fee : Amount) (settle : ℕ) (b : Bool)
      → Advances before (announce_completed uuid_text uuid_v5 before w fee settle b)
  unfolding announce_completed
  announce_completed-Advances w fee settle false = rolled_back-Advances before tt
  announce_completed-Advances w fee settle true =
      Advances->>= (get_asset_by_id-Advances w.asset_id) (λ asset. enqueue-Advances uuid_text _)

  settle_in_flight-Advances :
      (w : Withdrawal) (b c : ℕ) (fee : Amount)
      → Advances before (settle_in_flight uuid_text uuid_v5 before w b c fee)
  unfolding settle_in_flight
  settle_in_flight-Advances w b c fee = Advances->>= (update_confirmations-Advances w.id b c) (λ _.
      Advances->>=
        (in_ledger-Advances _ (
          settle_withdrawal-Keeps uuid_text w.id w.user_id w.asset_id w.amount_raw
            w.correlation_id))
        (λ settle. Advances->>= (charge_native_fee-Advances w fee) (λ _.
          Advances->>= (mark_completed-Advances w.id (id settle) fee)
            (λ done. announce_completed-Advances w fee (id settle) done))))

  settle_as-Advances :
      (status : WithdrawalStatus) (w : Withdrawal) (b c : ℕ) (fee : Amount)
      → Advances before (settle_as uuid_text uuid_v5 status before w b c fee)
  unfolding settle_as
  settle_as-Advances status w b c fee =
      elim (Bool-cases (same_status status WithdrawalStatus.completed)) [
        | inl p ↦ rw p (rolled_back-Advances before tt)
        | inr p ↦ elim (Bool-cases (funds_may_have_left status)) [
          | inl q ↦ rw (p, q) (settle_in_flight-Advances w b c fee)
          | inr q ↦ rw (p, q) (Advances-throw Error.invalid_state_transition)
        ]
      ]

  revert_in_flight-Advances :
      (status : WithdrawalStatus) (w : Withdrawal) (fee : Amount)
      → Advances before (revert_in_flight uuid_text uuid_v5 status w fee)
  unfolding revert_in_flight enqueue_failure
  revert_in_flight-Advances status w fee =
      Advances->>=
        (in_ledger-Advances _
          (reverse_broadcast-Keeps uuid_text w.id 0 w.asset_id w.amount_raw w.correlation_id))
        (λ _. Advances->>= (release_if-Advances uuid_text true w) (λ _.
          Advances->>= (charge_native_fee-Advances w fee) (λ _.
            Advances->>= (mark_failed-Advances w.id status (codes "onchain_revert"))
              (λ _. enqueue-Advances uuid_text _))))

  fail_locked-Advances :
      (status : WithdrawalStatus) (held : Bool) (w : Withdrawal) (code : Text)
      → Advances before (fail_locked uuid_text uuid_v5 status held w code)
  unfolding fail_locked enqueue_failure
  fail_locked-Advances status held w code =
      Advances->>= (release_if-Advances uuid_text held w) (λ _.
        Advances->>= (mark_failed-Advances w.id status code)
          (λ done. Advances->>= (enqueue-Advances uuid_text _) (λ _. Advances-pure done)))

-- A transaction, whole: what it leaves of the tables that it began with.
abbrev pub Progresses : {A : Type 0} → M Store A → Type 0
Progresses {A} m = (s : Store) (a : A) (s' : Store) → m s ≡ ok (a, s') → IsAdvanced s s'

pub Advances-Progresses :
    {A : Type 0} (m : M Store A) → ((before : Store) → Advances before m) → Progresses m
Advances-Progresses m h s a s' e = h s s a s' (IsAdvanced-refl s) e

module _ (uuid_text : ℕ → Text) (uuid_v5 : Text → ℕ) where
  pub broadcast_transaction-Progresses :
      (i : ℕ) (tx_hash : Text) (nonce : ℕ)
      → Progresses (broadcast_transaction uuid_text uuid_v5 i tx_hash nonce)
  unfolding broadcast_transaction
  broadcast_transaction-Progresses i tx_hash nonce s a s' h =
      Advances->>= (lock_withdrawal-Advances i)
        (λ w.
          broadcast_signing-Advances uuid_text uuid_v5 w tx_hash nonce
            (same_status w.status WithdrawalStatus.signing))
        s a s' (IsAdvanced-refl s) h

  pub settle_success-Progresses :
      (w : Withdrawal) (b c : ℕ) (fee : Amount)
      → Progresses (settle_success uuid_text uuid_v5 w b c fee)
  unfolding settle_success
  settle_success-Progresses w b c fee s a s' h =
      Advances->>= (lock_withdrawal-Advances w.id)
        (λ locked. settle_as-Advances uuid_text uuid_v5 locked.status w b c fee) s a s'
        (IsAdvanced-refl s) h

  pub settle_failure-Progresses :
      (w : Withdrawal) (fee : Amount) → Progresses (settle_failure uuid_text uuid_v5 w fee)
  unfolding settle_failure
  settle_failure-Progresses w fee s a s' h =
      Advances->>= (lock_withdrawal-Advances w.id)
        (λ locked.
          Advances-if (is_terminal locked.status) (rolled_back s tt)
            (revert_in_flight uuid_text uuid_v5 locked.status w fee) (rolled_back-Advances s tt)
            (revert_in_flight-Advances uuid_text uuid_v5 locked.status w fee))
        s a s' (IsAdvanced-refl s) h

  pub fail_and_release-Progresses :
      (w : Withdrawal) (code : Text) → Progresses (fail_and_release uuid_text uuid_v5 w code)
  unfolding fail_and_release
  fail_and_release-Progresses w code s a s' h =
      Advances->>= (lock_withdrawal-Advances w.id)
        (λ locked.
          Advances-if (is_terminal locked.status || funds_may_have_left locked.status)
            (rolled_back s false)
            (fail_locked uuid_text uuid_v5 locked.status
              (is_some locked.reserve_ledger_transaction_id) w code)
            (rolled_back-Advances s false)
            (fail_locked-Advances uuid_text uuid_v5 locked.status
              (is_some locked.reserve_ledger_transaction_id) w code))
        s a s' (IsAdvanced-refl s) h

module _ (adapter : ChainAdapter) (signer : Signer) (t : ℕ) (hot_wallet : Text) where
  sign_moved-Advances :
      {before : Store} (w : Withdrawal) → Advances before (sign_moved adapter signer t hot_wallet w)
  unfolding sign_moved
  sign_moved-Advances w = Advances->>= (get_asset_by_id-Advances w.asset_id) (λ asset.
      Advances->>=
        (in_nonces-Advances
          (allocate_nonce w.chain hot_wallet (or_zero (adapter.nonce_hint t hot_wallet))))
        (λ nonce.
          Advances->>=
            (Advances-lift (adapter.build_withdrawal t (intent_of w asset nonce hot_wallet)))
            (λ unsigned. Advances->>= (Advances-lift (signer.sign t unsigned)) (λ signed.
              Advances->>=
                (record_signed_transaction-Advances w.id (facts_of signed nonce unsigned))
                (λ _. Advances-pure (some (signed, nonce)))))))

  sign_if_moved-Advances :
      {before : Store} (w : Withdrawal) (b : Bool)
      → Advances before (sign_if_moved adapter signer t hot_wallet w before b)
  unfolding sign_if_moved
  sign_if_moved-Advances {before} w false = rolled_back-Advances before none
  sign_if_moved-Advances w true = sign_moved-Advances w

  sign_approved-Advances :
      {before : Store} (w : Withdrawal) (b : Bool)
      → Advances before (sign_approved adapter signer t hot_wallet w before b)
  unfolding sign_approved
  sign_approved-Advances {before} w false = rolled_back-Advances before none
  sign_approved-Advances w true =
      Advances->>= (transition-Advances w.id WithdrawalStatus.approved WithdrawalStatus.signing)
        (λ moved. sign_if_moved-Advances w moved)

  pub sign_transaction-Progresses :
      (i : ℕ) → Progresses (sign_transaction adapter signer t hot_wallet i)
  unfolding sign_transaction
  sign_transaction-Progresses i s a s' h =
      Advances->>= (lock_withdrawal-Advances i)
        (λ w. sign_approved-Advances w (same_status w.status WithdrawalStatus.approved)) s a s'
        (IsAdvanced-refl s) h

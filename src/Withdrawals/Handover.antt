-- ===== src/Withdrawals/Handover.antt =====
-- Handing a signed transaction to the network, first and again (crates/withdrawals/src/pipeline.rs).
use chain_rail.Base.{
  ℕ, ◌+◌, ◌≡◌, ◌⊎◌, ◌∙◌, refl, sym, ap, subst, Bool, true, false, ◌∷◌, Option, none, some, Text,
  inl, inr,
}
use chain_rail.Common.Result.{ok, >>=-eq-ok, lift, Result-cases}
use chain_rail.Common.Config.{AppConfig}
use chain_rail.Models.Withdrawal.{WithdrawalStatus, same_status, transition_to}
use chain_rail.Withdrawals.Nonce.{as_i64}
use chain_rail.Withdrawals.Rows.{
  Withdrawal, Store, find_withdrawal, lock_withdrawal, in_status, transition, update_where,
}
use chain_rail.Withdrawals.Chain.{SignedTransaction, ChainAdapter, Signer}
use chain_rail.Withdrawals.Transactions.{
  sign_if_moved, sign_approved, sign_transaction, broadcast_transaction,
}
use chain_rail.Withdrawals.World.{World}
use chain_rail.Withdrawals.Pipeline.{send_signed, sign_and_broadcast}
use chain_rail.Withdrawals.Update.{find_withdrawal-id}
use chain_rail.Withdrawals.Single.{Spares-lift, lock_withdrawal-ok, update_where-hit}
use chain_rail.Withdrawals.Durable.{
  Issued, OnRecord, broadcast_transaction-OnRecord, run-cases, sign_moved-OnRecord,
}

module _ (adapter : ChainAdapter) (signer : Signer) (t : ℕ) (hot_wallet : Text) where
  sign_if_moved-OnRecord :
      (w v : Withdrawal) (before s s' : Store) (b : Bool) (signed : SignedTransaction) (nonce : ℕ)
      → find_withdrawal w.id s.withdrawals ≡ some v
      → v.status ≡ WithdrawalStatus.signing
      → sign_if_moved adapter signer t hot_wallet w before b s ≡ ok (some (signed, nonce), s')
      → Issued adapter signer t hot_wallet w signed nonce
        × OnRecord w.id signed.tx_hash (as_i64 nonce) s'
  unfolding sign_if_moved
  sign_if_moved-OnRecord w v before s s' false signed nonce e q h = absurd (cc)
  sign_if_moved-OnRecord w v before s s' true signed nonce e q h =
      sign_moved-OnRecord adapter signer t hot_wallet w v s s' signed nonce e q h

  sign_approved-OnRecord :
      (w : Withdrawal) (before s s' : Store) (b : Bool) (signed : SignedTransaction) (nonce : ℕ)
      → find_withdrawal w.id s.withdrawals ≡ some w
      → same_status w.status WithdrawalStatus.approved ≡ b
      → sign_approved adapter signer t hot_wallet w before b s ≡ ok (some (signed, nonce), s')
      → Issued adapter signer t hot_wallet w signed nonce
        × OnRecord w.id signed.tx_hash (as_i64 nonce) s'
  unfolding sign_approved transition
  sign_approved-OnRecord w before s s' false signed nonce e q h = absurd (cc)
  sign_approved-OnRecord w before s s' true signed nonce e q h =
      let (b, s1, g, k) =
        >>=-eq-ok (transition w.id WithdrawalStatus.approved WithdrawalStatus.signing)
          (sign_if_moved adapter signer t hot_wallet w before) s h in
      let (u, s0, g0, k0) =
        >>=-eq-ok (lift (transition_to WithdrawalStatus.approved WithdrawalStatus.signing))
          (λ to.
            update_where w.id (in_status WithdrawalStatus.approved)
              (λ w. record w { status = WithdrawalStatus.signing }))
          s g in
      let (t', there, row) =
        update_where-hit w.id (in_status WithdrawalStatus.approved)
          (λ w. record w { status = WithdrawalStatus.signing }) s0 s1 b w k0
          (ap (find_withdrawal w.id) (
              Spares-lift (transition_to WithdrawalStatus.approved WithdrawalStatus.signing) s u s0
                g0)
            ∙ e)
          q refl in
      sign_if_moved-OnRecord w (record w { status = WithdrawalStatus.signing }) before s1 s' b
        signed nonce row refl k

  -- The stored withdrawal is what is signed, and hash and nonce of the transaction are on record.
  abbrev pub Handed : ℕ → Store → Store → SignedTransaction → ℕ → Type 0
  Handed i before after tx nonce =
      (w : Withdrawal) × (find_withdrawal i before.withdrawals ≡ some w)
      × Issued adapter signer t hot_wallet w tx nonce
      × OnRecord i tx.tx_hash (as_i64 nonce) after

  sign_transaction-Handed :
      (i : ℕ) (s s' : Store) (signed : SignedTransaction) (nonce : ℕ)
      → sign_transaction adapter signer t hot_wallet i s ≡ ok (some (signed, nonce), s')
      → Handed i s s' signed nonce
  unfolding sign_transaction
  sign_transaction-Handed i s s' signed nonce h =
      let next = λ (w : Withdrawal).
        sign_approved adapter signer t hot_wallet w s
          (same_status w.status WithdrawalStatus.approved) in
      let (w, m, g, k) = >>=-eq-ok (lock_withdrawal i) next s h in
      let (found, same) = lock_withdrawal-ok i s m w g in
      let own = find_withdrawal-id i s.withdrawals w found in
      let (issued, there) =
        sign_approved-OnRecord w s s s' (same_status w.status WithdrawalStatus.approved) signed
          nonce (subst (λ j. find_withdrawal j s.withdrawals ≡ some w) (sym own) found) refl
          (rw same at k) in
      (w, found, issued, subst (λ j. OnRecord j signed.tx_hash (as_i64 nonce) s') own there)

-- Nothing was handed over, or one transaction was, which is on record.
abbrev pub Recorded : ChainAdapter → Signer → Text → ℕ → World → World → Type 0
Recorded adapter signer hot_wallet i before after =
    (after.sent ≡ before.sent)
    ⊎ ((tx : SignedTransaction) × (nonce : ℕ) × (after.sent ≡ tx ∷ before.sent)
        × Handed adapter signer before.calls hot_wallet i before.store after.store tx nonce)

module _ (uuid_text : ℕ → Text) (uuid_v5 : Text → ℕ) (cfg : AppConfig) (signer : Signer)
    (adapter : ChainAdapter) (hot_wallet : Text) (i : ℕ) (before : World) where
  send_signed-Recorded :
      (o : Option (SignedTransaction × ℕ)) (s : Store)
      → ((signed : SignedTransaction) (nonce : ℕ)
          → o ≡ some (signed, nonce)
          → Handed adapter signer before.calls hot_wallet i before.store s signed nonce)
      → Recorded adapter signer hot_wallet i before
          (send_signed uuid_text uuid_v5 cfg signer adapter before.calls i o
            (record before { store = s; calls = before.calls + 1 })).1
  unfolding send_signed
  send_signed-Recorded none s h = inl refl
  send_signed-Recorded (some (signed, nonce)) s h =
      let (w, found, issued, there) = h signed nonce refl in
      elim (Result-cases (adapter.broadcast before.calls signed)) [
        | inr (e, p) ↦ rw p (inr (signed, nonce, refl, (w, found, issued, there)))
        | inl (u, p) ↦
            elim (run-cases (broadcast_transaction uuid_text uuid_v5 i signed.tx_hash nonce) s) [
              | inr (e, q) ↦ rw (p, q) (inr (signed, nonce, refl, (w, found, issued, there)))
              | inl (v, s', g, q) ↦
                  let kept =
                    broadcast_transaction-OnRecord uuid_text uuid_v5 i signed.tx_hash nonce
                      signed.tx_hash (as_i64 nonce) s s' there g in
                  rw (p, q) (inr (signed, nonce, refl, (w, found, issued, kept)))
            ]
      ]

-- A signed transaction is on record before it is out: whatever the node, the signer and the database
-- answer, `sign_and_broadcast` either hands nothing to the network, or one transaction, which the
-- signer signed of what the node built for the stored withdrawal with some nonce; and then the
-- withdrawal is stored with the hash of that transaction and with that nonce, in status `signing` or
-- `broadcast`, even where the broadcast or what follows it fails.
pub sign_and_broadcast-Recorded :
    (uuid_text : ℕ → Text) (uuid_v5 : Text → ℕ) (cfg : AppConfig) (signer : Signer)
    (adapter : ChainAdapter) (hot_wallet : Text) (i : ℕ) (w : World)
    → Recorded adapter signer hot_wallet i w
        (sign_and_broadcast uuid_text uuid_v5 cfg signer adapter hot_wallet i w).1
unfolding sign_and_broadcast
sign_and_broadcast-Recorded uuid_text uuid_v5 cfg signer adapter hot_wallet i w =
    elim (run-cases (sign_transaction adapter signer w.calls hot_wallet i) w.store) [
      | inr (e, q) ↦ rw q (inl refl)
      | inl (o, s', g, q) ↦ rw q (
          send_signed-Recorded uuid_text uuid_v5 cfg signer adapter hot_wallet i w o s'
            (λ signed nonce e.
              sign_transaction-Handed adapter signer w.calls hot_wallet i w.store s' signed nonce
                (rw e at g)))
    ]

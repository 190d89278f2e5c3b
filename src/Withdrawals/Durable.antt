-- ===== src/Withdrawals/Durable.antt =====
-- What is on record when a signed transaction is handed to the network
-- (crates/withdrawals/src/pipeline.rs).
use chain_rail.Base.{
  ℕ, ◌≡◌, ◌⊎◌, ◌∙◌, refl, sym, ap, subst, Bool, true, false, Option, some, Text, ℤ, inl, inr,
}
use chain_rail.Common.Error.{Error}
use chain_rail.Common.Result.{Result, ok, err, M, ◌>>=◌, ◌>>◌, >>=-eq-ok, pure, lift, Result-cases}
use chain_rail.Models.Asset.{Asset}
use chain_rail.Models.Withdrawal.{WithdrawalStatus, same_status}
use chain_rail.Ledger.Tables.{commit}
use chain_rail.Ledger.Operations.{record_broadcast}
use chain_rail.Withdrawals.Nonce.{allocate_nonce, as_i64}
use chain_rail.Withdrawals.Rows.{
  Withdrawal, Store, in_ledger, in_nonces, enqueue, find_withdrawal, lock_withdrawal,
  get_asset_by_id, in_status, record_signed_transaction, mark_broadcast, update_where, signed_row,
}
use chain_rail.Withdrawals.Service.{run, committed}
use chain_rail.Withdrawals.Chain.{SignedTransaction, UnsignedTransaction, ChainAdapter, Signer}
use chain_rail.Withdrawals.Transactions.{
  sign_moved, broadcast_signing, broadcast_transaction, broadcast_event, intent_of, facts_of,
  or_zero,
}
use chain_rail.Withdrawals.Update.{find_withdrawal-id}
use chain_rail.Withdrawals.Single.{
  Spares->>=, in_ledger-Spares, in_nonces-Spares, enqueue-Spares, get_asset_by_id-Spares,
  lock_withdrawal-ok, update_where-hit, Spares-lift,
}

-- The row of a withdrawal with a hash and a nonce on record.
abbrev pub OnRecord : ℕ → Text → ℤ → Store → Type 0
OnRecord i tx_hash nonce s =
    (w : Withdrawal) × (find_withdrawal i s.withdrawals ≡ some w)
    × (w.tx_hash ≡ some tx_hash)
    × (w.nonce ≡ some nonce)
    × ((w.status ≡ WithdrawalStatus.signing) ⊎ (w.status ≡ WithdrawalStatus.broadcast))

module _ (uuid_text : ℕ → Text) (uuid_v5 : Text → ℕ) (i : ℕ) (tx_hash : Text) (nonce : ℕ) where
  broadcast_signing-row :
      (w : Withdrawal) (s s' : Store) (b : Bool)
      → find_withdrawal i s.withdrawals ≡ some w
      → same_status w.status WithdrawalStatus.signing ≡ b
      → broadcast_signing uuid_text uuid_v5 w tx_hash nonce s b s ≡ ok (tt, s')
      → (b ≡ true)
          × (find_withdrawal i s'.withdrawals
              ≡ some (record w { status = WithdrawalStatus.broadcast }))
        ⊎ (b ≡ false) × (s' ≡ s)
  unfolding broadcast_signing
  broadcast_signing-row w s s' false e q h = let same : s ≡ s' = cc in inr (refl, sym same)
  broadcast_signing-row w s s' true e q h =
      let rest = λ (m : Bool).
        in_ledger (record_broadcast uuid_text w.id w.asset_id w.amount_raw w.correlation_id)
        >>= λ p. enqueue uuid_text (broadcast_event uuid_text uuid_v5 w tx_hash nonce) in
      let (m, s1, g, k) = >>=-eq-ok (mark_broadcast w.id) rest s h in
      let same_id = find_withdrawal-id i s.withdrawals w e in
      let (t, there, row) =
        update_where-hit w.id (in_status WithdrawalStatus.signing)
          (λ w. record w { status = WithdrawalStatus.broadcast }) s s1 m w
          (unfold mark_broadcast in g)
          (subst (λ j. find_withdrawal j s.withdrawals ≡ some w) (sym same_id) e) q refl in
      let spared =
        Spares->>=
          (in_ledger-Spares
            (record_broadcast uuid_text w.id w.asset_id w.amount_raw w.correlation_id))
          (λ p. enqueue-Spares uuid_text (broadcast_event uuid_text uuid_v5 w tx_hash nonce)) s1 tt
          s' k in
      inl (
        refl,
        subst
            (λ j.
              find_withdrawal j s'.withdrawals
              ≡ some (record w { status = WithdrawalStatus.broadcast }))
            same_id (ap (find_withdrawal w.id) spared ∙ row),
      )

  pub broadcast_transaction-row :
      (w : Withdrawal) (s s' : Store)
      → find_withdrawal i s.withdrawals ≡ some w
      → broadcast_transaction uuid_text uuid_v5 i tx_hash nonce s ≡ ok (tt, s')
      → (same_status w.status WithdrawalStatus.signing ≡ true)
          × (find_withdrawal i s'.withdrawals
              ≡ some (record w { status = WithdrawalStatus.broadcast }))
        ⊎ (same_status w.status WithdrawalStatus.signing ≡ false) × (s' ≡ s)
  unfolding broadcast_transaction
  broadcast_transaction-row w s s' e h =
      let (v, m, g, k) =
        >>=-eq-ok (lock_withdrawal i)
          (λ w.
            broadcast_signing uuid_text uuid_v5 w tx_hash nonce s
              (same_status w.status WithdrawalStatus.signing))
          s h in
      let (found, same) = lock_withdrawal-ok i s m v g in
      let one : v ≡ w = cc in
      broadcast_signing-row w s s' (same_status w.status WithdrawalStatus.signing) e refl
        (rw (one, same) at k)

  -- A recorded broadcast leaves hash and nonce as they were.
  pub broadcast_transaction-OnRecord :
      (h : Text) (n : ℤ) (s s' : Store)
      → OnRecord i h n s
      → broadcast_transaction uuid_text uuid_v5 i tx_hash nonce s ≡ ok (tt, s')
      → OnRecord i h n s'
  broadcast_transaction-OnRecord h n s s' (w, e, p, q, r) k =
      elim (broadcast_transaction-row w s s' e k) [
        | inl (t, row) ↦ (record w { status = WithdrawalStatus.broadcast }, row, p, q, inr refl)
        | inr (t, same) ↦ rw same (w, e, p, q, r)
      ]

-- A transaction with its COMMIT either took place or left the tables.
pub run-cases :
    {A : Type 0} (m : M Store A) (s : Store)
    → ((a : A) × (s' : Store) × (m s ≡ ok (a, s')) × (run m s ≡ (ok a, s')))
      ⊎ ((e : Error) × (run m s ≡ (err e, s)))
run-cases m s = elim (Result-cases (m s)) [
  | inr (e, p) ↦ inr (e, rw (committed, p) refl)
  | inl ((a, s'), p) ↦ elim (Result-cases (commit s'.ledger)) [
    | inl (u, q) ↦ inl (a, s', p, rw (committed, p, q) refl)
    | inr (e, q) ↦ inr (e, rw (committed, p, q) refl)
  ]
]

lift-ok : {A : Type 0} (r : Result A) (s s' : Store) (a : A) → lift r s ≡ ok (a, s') → r ≡ ok a
lift-ok (ok b) s s' a h = let same : b ≡ a = cc in ap ok same
lift-ok (err e) s s' a h = absurd (cc h)

module _ (adapter : ChainAdapter) (signer : Signer) (t : ℕ) (hot_wallet : Text) where
  -- The steps of `sign_moved` from the last on.
  abbrev recorded :
      Withdrawal
      → ℕ
      → UnsignedTransaction
      → SignedTransaction
      → M Store (Option (SignedTransaction × ℕ))
  recorded w nonce unsigned signed =
      record_signed_transaction w.id (facts_of signed nonce unsigned) >> pure (some (signed, nonce))

  abbrev signed_as : Withdrawal → ℕ → UnsignedTransaction → M Store (Option (SignedTransaction × ℕ))
  signed_as w nonce unsigned = lift (signer.sign t unsigned) >>= recorded w nonce unsigned

  abbrev built : Withdrawal → Asset → ℕ → M Store (Option (SignedTransaction × ℕ))
  built w asset nonce =
      lift (adapter.build_withdrawal t (intent_of w asset nonce hot_wallet)) >>= signed_as w nonce

  abbrev numbered : Withdrawal → Asset → M Store (Option (SignedTransaction × ℕ))
  numbered w asset =
      in_nonces (allocate_nonce w.chain hot_wallet (or_zero (adapter.nonce_hint t hot_wallet)))
      >>= built w asset

  recorded-OnRecord :
      (w v : Withdrawal) (s s' : Store) (n nonce : ℕ) (unsigned : UnsignedTransaction)
      (x signed : SignedTransaction)
      → find_withdrawal w.id s.withdrawals ≡ some v
      → v.status ≡ WithdrawalStatus.signing
      → recorded w n unsigned x s ≡ ok (some (signed, nonce), s')
      → (x ≡ signed) × (n ≡ nonce) × OnRecord w.id signed.tx_hash (as_i64 nonce) s'
  unfolding record_signed_transaction
  recorded-OnRecord w v s s' n nonce unsigned x signed e q h =
      let (u, s1, g, k) =
        >>=-eq-ok (record_signed_transaction w.id (facts_of x n unsigned)) (λ _. pure (some (x, n)))
          s h in
      let (b, s2, g', k') =
        >>=-eq-ok (update_where w.id (λ _. true) (signed_row (facts_of x n unsigned)))
          (λ _. pure tt) s g in
      let (t', there, row) =
        update_where-hit w.id (λ _. true) (signed_row (facts_of x n unsigned)) s s2 b v g' e refl
          refl in
      let pair : ◌≡◌ {A = Result (Option (SignedTransaction × ℕ) × Store)} (ok (some (x, n), s1))
          (ok (some (signed, nonce), s')) =
        k in
      let all_same : (x ≡ signed) × (n ≡ nonce) × (s1 ≡ s') × (s2 ≡ s1) = (cc, cc, cc, cc) in
      let last : s2 ≡ s' = all_same.3 ∙ all_same.2 in
      (
        all_same.0,
        all_same.1,
        (
          signed_row (facts_of x n unsigned) v,
          ap (λ (z : Store). find_withdrawal w.id z.withdrawals) (sym last) ∙ row,
          ap (λ (z : SignedTransaction). some z.tx_hash) all_same.0,
          ap (λ (z : ℕ). some (as_i64 z)) all_same.1,
          inl q,
        ),
      )

  -- The node built the transfer of a withdrawal with a nonce, and the signer signed it.
  abbrev pub Issued : Withdrawal → SignedTransaction → ℕ → Type 0
  Issued w signed nonce =
      (asset : Asset) × (unsigned : UnsignedTransaction) × (adapter.build_withdrawal t
          (intent_of w asset nonce hot_wallet)
        ≡ ok unsigned)
      × (signer.sign t unsigned ≡ ok signed)

  pub sign_moved-OnRecord :
      (w v : Withdrawal) (s s' : Store) (signed : SignedTransaction) (nonce : ℕ)
      → find_withdrawal w.id s.withdrawals ≡ some v
      → v.status ≡ WithdrawalStatus.signing
      → sign_moved adapter signer t hot_wallet w s ≡ ok (some (signed, nonce), s')
      → Issued w signed nonce × OnRecord w.id signed.tx_hash (as_i64 nonce) s'
  unfolding sign_moved
  sign_moved-OnRecord w v s s' signed nonce e q h =
      let (asset, s1, g1, h1) = >>=-eq-ok (get_asset_by_id w.asset_id) (numbered w) s h in
      let (n, s2, g2, h2) =
        >>=-eq-ok
          (in_nonces
            (allocate_nonce w.chain hot_wallet (or_zero (adapter.nonce_hint t hot_wallet))))
          (built w asset) s1 h1 in
      let (unsigned, s3, g3, h3) =
        >>=-eq-ok (lift (adapter.build_withdrawal t (intent_of w asset n hot_wallet)))
          (signed_as w n) s2 h2 in
      let (x, s4, g4, h4) =
        >>=-eq-ok (lift (signer.sign t unsigned)) (recorded w n unsigned) s3 h3 in
      let spared =
        Spares-lift (signer.sign t unsigned) s3 x s4 g4
        ∙ Spares-lift (adapter.build_withdrawal t (intent_of w asset n hot_wallet)) s2 unsigned s3
            g3
        ∙ in_nonces-Spares
            (allocate_nonce w.chain hot_wallet (or_zero (adapter.nonce_hint t hot_wallet))) s1 n s2
            g2
        ∙ get_asset_by_id-Spares w.asset_id s asset s1 g1 in
      let (same, same_nonce, there) =
        recorded-OnRecord w v s4 s' n nonce unsigned x signed (ap (find_withdrawal w.id) spared ∙ e)
          q h4 in
      let builds : adapter.build_withdrawal t (intent_of w asset nonce hot_wallet) ≡ ok unsigned =
        subst (λ m. adapter.build_withdrawal t (intent_of w asset m hot_wallet) ≡ ok unsigned)
          same_nonce
          (lift-ok (adapter.build_withdrawal t (intent_of w asset n hot_wallet)) s2 s3 unsigned
            g3) in
      let signs : signer.sign t unsigned ≡ ok signed =
        lift-ok (signer.sign t unsigned) s3 s4 x g4 ∙ ap ok same in
      ((asset, unsigned, builds, signs), there)

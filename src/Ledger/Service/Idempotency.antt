-- ===== src/Ledger/Service/Idempotency.antt =====
-- What an idempotency key promises: crates/ledger/src/service.rs.
use chain_rail.Base.{
  ℕ, ◌≡◌, ◌∙◌, refl, Bool, true, none, some, text_eq_refl, ◌+ℤ◌, ℤ, pos, All, List, [], ◌∷◌,
  if◌then◌else◌, ◌==◌, +ℤ_zero, zero_+ℤ, Bool-cases, inl, inr, false,
}
use chain_rail.Common.Error.{Error}
use chain_rail.Common.Result.{Result, ok, err, ◌>>=◌, >>=-ok, >>=-err, lift, pure}
use chain_rail.Ledger.Posting.{EntryRequest, Posting, validate}
use chain_rail.Ledger.Tables.{Ledger, LedgerTransaction, sum_rows, everything}
use chain_rail.Ledger.Tables.Balances.{signed_total}
use chain_rail.Ledger.Tables.Growth.{in_asset}
use chain_rail.Ledger.Service.{
  PostResult, transaction, find_by_key, insert_transaction, finish_posting, get_transaction_by_key,
  post_transaction,
}
use chain_rail.Ledger.Service.Invariant.{
  Outcome, post_transaction-Outcome, get_transaction_by_key_lem, inserted_none,
}
use chain_rail.Ledger.Service.Soundness.{sum_rows-ordered, entries_zero}

finish_posting_lem :
    (p : Posting) (l : Ledger) (t : LedgerTransaction)
    → find_by_key p.idempotency_key l.transactions ≡ some t
    → finish_posting p none l ≡ ok (PostResult.already_posted t, l)
unfolding finish_posting
finish_posting_lem p l t f =
    >>=-ok (get_transaction_by_key p.idempotency_key) (λ x. pure (PostResult.already_posted x)) l t
      l (get_transaction_by_key_lem p.idempotency_key t l f)

lift_ok : (r : Result (Unit {0})) (l : Ledger) → r ≡ ok tt → lift r l ≡ ok (tt, l)
lift_ok r l h = rw h refl

-- A posting whose key is taken answers the transaction that is there, and changes nothing.
pub post_transaction_replay :
    (p : Posting) (l : Ledger) (t : LedgerTransaction)
    → validate p ≡ ok tt
    → find_by_key p.idempotency_key l.transactions ≡ some t
    → post_transaction p l ≡ ok (PostResult.already_posted t, l)
unfolding post_transaction
post_transaction_replay p l t v f =
    >>=-ok (lift (validate p)) (λ _. insert_transaction p >>= finish_posting p) l tt l
      (lift_ok (validate p) l v)
    ∙ >>=-ok (insert_transaction p) (finish_posting p) l none l (inserted_none p l t f)
    ∙ finish_posting_lem p l t f

found_after :
    (p : Posting) (r : PostResult) (l l' : Ledger)
    → post_transaction p l ≡ ok (r, l')
    → find_by_key p.idempotency_key l'.transactions ≡ some (transaction r)
found_after p r l l' h = elim (post_transaction-Outcome p r l l' h) [
  | Outcome.was_there t f same q ↦ rw (same, q) f
  | Outcome.was_new d q ↦ rw (d.grown.same_transactions, q, text_eq_refl p.idempotency_key) refl
]

-- Posting is idempotent: once a posting is answered, any valid posting with the same key answers
-- the same transaction as already posted and changes no table.
pub post_transaction_idempotent :
    (p q : Posting) (r : PostResult) (l l' : Ledger)
    → post_transaction p l ≡ ok (r, l')
    → validate q ≡ ok tt
    → q.idempotency_key ≡ p.idempotency_key
    → post_transaction q l' ≡ ok (PostResult.already_posted (transaction r), l')
post_transaction_idempotent p q r l l' h v k =
    post_transaction_replay q l' (transaction r) v (rw k (found_after p r l l' h))

-- A posting that `validate` refuses is refused with the same error.
pub post_transaction_refused :
    (p : Posting) (l : Ledger) (e : Error) → validate p ≡ err e → post_transaction p l ≡ err e
unfolding post_transaction
post_transaction_refused p l e v =
    >>=-err (lift (validate p)) (λ _. insert_transaction p >>= finish_posting p) l e
      (lift_err (validate p) l e v)
  where
    lift_err : (r : Result (Unit {0})) (l : Ledger) (e : Error) → r ≡ err e → lift r l ≡ err e
    lift_err r l e h = rw h refl

abbrev pub OfAsset : ℕ → EntryRequest → Type 0
OfAsset x e = e.asset_id ≡ x

sum_rows-OfAsset :
    (x y : ℕ) (es : List EntryRequest)
    → All (OfAsset x) es
    → sum_rows (in_asset y) es ≡ (if x == y then sum_rows everything es else pos 0)
unfolding sum_rows
sum_rows-OfAsset x y [] a = elim (Bool-cases (x == y)) [ inl p ↦ rw p refl | inr p ↦ rw p refl ]
sum_rows-OfAsset x y (e ∷ es) a = elim (Bool-cases (x == y)) [
  | inl p ↦ rw (a.0, p, sum_rows-OfAsset x y es a.1, p) refl
  | inr p ↦ rw (a.0, p, sum_rows-OfAsset x y es a.1, p) (zero_+ℤ (pos 0))
]

-- A posting whose entries are all in one asset leaves the sum of the signed balances of every
-- asset as it was.
pub post_transaction_conserves :
    (p : Posting) (r : PostResult) (l l' : Ledger) (x y : ℕ)
    → All (OfAsset x) p.entries
    → post_transaction p l ≡ ok (r, l')
    → signed_total y l'.accounts ≡ signed_total y l.accounts
post_transaction_conserves p r l l' x y a h = elim (post_transaction-Outcome p r l l' h) [
  | Outcome.was_there t f same q ↦ rw same refl
  | Outcome.was_new d q ↦
      d.grown.assets_moved y
      ∙ rw
          (
            sum_rows-ordered (in_asset y) p,
            sum_rows-OfAsset x y p.entries a,
            ← sum_rows-ordered everything p,
            entries_zero p d.accepted,
          )
          (unmoved (signed_total y l.accounts) (x == y))
]
  where
    unmoved : (s : ℤ) (b : Bool) → s +ℤ (if b then pos 0 else pos 0) ≡ s
    unmoved s true = +ℤ_zero s
    unmoved s false = +ℤ_zero s

-- ===== src/Ledger/Service/Invariant.antt =====
-- The invariant of the ledger's tables under `post_transaction` (crates/ledger/src/service.rs).
use chain_rail.Base.{
  Text, ℕ, ◌+◌, ◌≡◌, ◌∙◌, refl, sym, true, false, List, [], ◌∷◌, none, some, Bool-cases,
  Option-cases, inl, inr,
}
use chain_rail.Common.Error.{Error}
use chain_rail.Common.Result.{Result, ok, err, ◌>>=◌, >>=-eq-ok, lift, pure}
use chain_rail.Ledger.Posting.{EntryRequest, Posting, validate, ordered_entries}
use chain_rail.Ledger.Tables.{Ledger, LedgerTransaction, insert_entry}
use chain_rail.Ledger.Tables.Growth.{IsGrown, IsGrown-refl, IsGrown-trans, insert_entry-IsGrown}
use chain_rail.Ledger.Service.{
  PostResult, find_by_key, has_id, transaction_of, insert_transaction, get_transaction_by_key,
  insert_entries, finish_posting, post_transaction,
}

pub insert_entries-IsGrown :
    (t : ℕ) (es : List EntryRequest) (l l' : Ledger)
    → insert_entries t es l ≡ ok (tt, l')
    → IsGrown t es l l'
unfolding insert_entries
insert_entries-IsGrown t [] l l' h = let same : l ≡ l' = cc in rw (← same) (IsGrown-refl t l)
insert_entries-IsGrown t (e ∷ es) l l' h =
    let (u, m, g, k) = >>=-eq-ok (insert_entry t e) (λ _. insert_entries t es) l h in
    IsGrown-trans t e es l m l' (insert_entry-IsGrown t e l m g)
      (insert_entries-IsGrown t es m l' k)

-- What a posting that answers has done: nothing, where its key was there; otherwise its row and
-- its entries.
pub record IsPosted (p : Posting) (l l' : Ledger) (t : ℕ) : Type 0 where
  pub fresh_key : find_by_key p.idempotency_key l.transactions ≡ none
  pub fresh_id : has_id t l.transactions ≡ false
  pub accepted : validate p ≡ ok tt
  pub grown :
      IsGrown t
        (ordered_entries p)
        (record l { transactions = transaction_of t p ∷ l.transactions; drawn = l.drawn + 1 })
        l'

finish_posting-some :
    (p : Posting) (t : LedgerTransaction) (r : PostResult) (m l' : Ledger)
    → finish_posting p (some t) m ≡ ok (r, l')
    → IsGrown t.id (ordered_entries p) m l' × (r ≡ PostResult.posted t)
unfolding finish_posting
finish_posting-some p t r m l' h =
    let (u, m', g, k) =
      >>=-eq-ok (insert_entries t.id (ordered_entries p)) (λ _. pure (PostResult.posted t)) m h in
    let same : m' ≡ l' = cc in
    (insert_entries-IsGrown t.id (ordered_entries p) m l' (rw g (rw same refl)), cc)

pub get_transaction_by_key_lem :
    (k : Text) (t : LedgerTransaction) (m : Ledger)
    → find_by_key k m.transactions ≡ some t
    → get_transaction_by_key k m ≡ ok (t, m)
unfolding get_transaction_by_key
get_transaction_by_key_lem k t m f = rw f refl

finish_posting-none :
    (p : Posting) (t : LedgerTransaction) (r : PostResult) (m l' : Ledger)
    → find_by_key p.idempotency_key m.transactions ≡ some t
    → finish_posting p none m ≡ ok (r, l')
    → (l' ≡ m) × (r ≡ PostResult.already_posted t)
unfolding finish_posting
finish_posting-none p t r m l' f h =
    let (t', m', g, k) =
      >>=-eq-ok (get_transaction_by_key p.idempotency_key) (λ x. pure (PostResult.already_posted x))
        m h in
    let found = get_transaction_by_key_lem p.idempotency_key t m f in
    let pair : ◌≡◌ {A = Result (LedgerTransaction × Ledger)} (ok (t', m')) (ok (t, m)) =
      sym g ∙ found in
    (cc, cc)

-- What the insert of the row answers.
module _ (p : Posting) (l : Ledger) where
  inserted_new :
      find_by_key p.idempotency_key l.transactions ≡ none
      → has_id (l.supply l.drawn) l.transactions ≡ false
      → insert_transaction p l
        ≡ ok (
          some (transaction_of (l.supply l.drawn) p),
          record l {
            transactions = transaction_of (l.supply l.drawn) p ∷ l.transactions;
            drawn = l.drawn + 1;
          },
        )
  unfolding insert_transaction
  inserted_new f q = rw (insert_transaction, f, q) refl

  inserted_clash :
      find_by_key p.idempotency_key l.transactions ≡ none
      → has_id (l.supply l.drawn) l.transactions ≡ true
      → insert_transaction p l ≡ err Error.conflict
  unfolding insert_transaction
  inserted_clash f q = rw (insert_transaction, f, q) refl

  pub inserted_none :
      (t : LedgerTransaction)
      → find_by_key p.idempotency_key l.transactions ≡ some t
      → insert_transaction p l ≡ ok (none, l)
  unfolding insert_transaction
  inserted_none t f = rw (insert_transaction, f) refl

-- The answers of a posting.
pub data Outcome (p : Posting) (l l' : Ledger) (r : PostResult) : Type 0 where
  was_there :
      (t : LedgerTransaction)
      → find_by_key p.idempotency_key l.transactions ≡ some t
      → l' ≡ l
      → r ≡ PostResult.already_posted t
      → Outcome p l l' r
  was_new :
      IsPosted p l l' (l.supply l.drawn)
      → r ≡ PostResult.posted (transaction_of (l.supply l.drawn) p)
      → Outcome p l l' r

insert_then_finish :
    (p : Posting) (r : PostResult) (l l' : Ledger)
    → validate p ≡ ok tt
    → (insert_transaction p >>= finish_posting p) l ≡ ok (r, l')
    → Outcome p l l' r
insert_then_finish p r l l' v h =
    let (o, m, g, k) = >>=-eq-ok (insert_transaction p) (finish_posting p) l h in
    elim (Option-cases (find_by_key p.idempotency_key l.transactions)) [
      | inl f ↦ elim (Bool-cases (has_id (l.supply l.drawn) l.transactions)) [
        | inl q ↦ absurd (cc (sym g ∙ inserted_clash p l f q))
        | inr q ↦
            let same = sym g ∙ inserted_new p l f q in
            let t = transaction_of (l.supply l.drawn) p in
            let opened : (o ≡ some t)
                × (m ≡ record l { transactions = t ∷ l.transactions; drawn = l.drawn + 1 }) =
              (cc, cc) in
            let done = finish_posting-some p t r _ l' (rw (opened.0, opened.1) at k) in
            Outcome.was_new (record { fresh_key = f; fresh_id = q; accepted = v; grown = done.0 })
              done.1
      ]
      | inr (t, f) ↦
          let same = sym g ∙ inserted_none p l t f in
          let opened : (o ≡ none) × (m ≡ l) = (cc, cc) in
          let done = finish_posting-none p t r l l' f (rw (opened.0, opened.1) at k) in
          Outcome.was_there t f done.0 done.1
    ]

lift_lem : (r : Result (Unit {0})) (l m : Ledger) → lift r l ≡ ok (tt, m) → (r ≡ ok tt) × (m ≡ l)
lift_lem (ok tt) l m h = (refl, cc)
lift_lem (err e) l m h = cc

pub post_transaction-Outcome :
    (p : Posting) (r : PostResult) (l l' : Ledger)
    → post_transaction p l ≡ ok (r, l')
    → Outcome p l l' r
unfolding post_transaction
post_transaction-Outcome p r l l' h =
    let (u, m, g, k) =
      >>=-eq-ok (lift (validate p)) (λ _. insert_transaction p >>= finish_posting p) l h in
    let (v, same) = lift_lem (validate p) l m g in insert_then_finish p r l l' v (rw same at k)

-- ===== src/Ledger/Service.antt =====
-- `post_transaction` of crates/ledger/src/service.rs.
pub mod Invariant
pub mod Idempotency
pub mod Soundness
use chain_rail.Base.{
  ℕ, ◌+◌, ◌≡◌, Bool, true, false, not, List, [], ◌∷◌, Option, none, some, Text, text_eq, ◌==◌,
  if◌then◌else◌, any,
}
use chain_rail.Common.Error.{Error}
use chain_rail.Common.Result.{
  Result, ok, err, M, ◌>>=◌, ◌>>◌, lift, pure, ok_or, gets, throw, modify,
}
use chain_rail.Ledger.Posting.{Posting, EntryRequest, validate, ordered_entries}
use chain_rail.Ledger.Tables.{Ledger, LedgerTransaction, draw, insert_entry}

pub data PostResult : Type 0 where
  posted : LedgerTransaction → PostResult
  already_posted : LedgerTransaction → PostResult

abbrev pub transaction : PostResult → LedgerTransaction
transaction (PostResult.posted t) = t
transaction (PostResult.already_posted t) = t

abbrev pub was_posted : PostResult → Bool
was_posted (PostResult.posted t) = true
was_posted (PostResult.already_posted t) = false

abbrev pub id : PostResult → ℕ
id r = (transaction r).id

abbrev pub find_by_key : Text → List LedgerTransaction → Option LedgerTransaction
find_by_key k [] = none
find_by_key k (t ∷ ts) = if text_eq t.idempotency_key k then some t else find_by_key k ts

abbrev pub has_id : ℕ → List LedgerTransaction → Bool
has_id i ts = any (λ (t : LedgerTransaction). t.id == i) ts

-- The row of a posting.
abbrev pub transaction_of : ℕ → Posting → LedgerTransaction
transaction_of i p = record {
  id = i;
  kind = p.kind;
  reference_type = p.reference_type;
  reference_id = p.reference_id;
  idempotency_key = p.idempotency_key;
  correlation_id = p.correlation_id;
  description = p.description;
}

-- INSERT ... ON CONFLICT (idempotency_key) DO NOTHING RETURNING: no row where the key is there; an
-- error where the drawn identifier is.
unfoldable pub insert_transaction : Posting → M Ledger (Option LedgerTransaction)
insert_transaction p l = elim (find_by_key p.idempotency_key l.transactions) [
  | some t ↦ ok (none, l)
  | none ↦
      let i = l.supply l.drawn in
      let t = transaction_of i p in
      if has_id i l.transactions
      then err Error.conflict
      else ok (some t, record l { transactions = t ∷ l.transactions; drawn = l.drawn + 1 })
]

pub get_transaction_by_key : Text → M Ledger LedgerTransaction
get_transaction_by_key k l = lift (ok_or (find_by_key k l.transactions) Error.not_found) l

unfoldable pub insert_entries : ℕ → List EntryRequest → M Ledger (Unit {0})
insert_entries t [] = pure tt
insert_entries t (e ∷ es) = insert_entry t e >> insert_entries t es

-- What follows the insert of the transaction's row.
unfoldable pub finish_posting : Posting → Option LedgerTransaction → M Ledger PostResult
finish_posting p none = do
  existing ← get_transaction_by_key p.idempotency_key
  pure (PostResult.already_posted existing)
finish_posting p (some t) = do insert_entries t.id (ordered_entries p); pure (PostResult.posted t)

-- `post_transaction`
unfoldable pub post_transaction : Posting → M Ledger PostResult
post_transaction p = do
  lift (validate p)
  inserted ← insert_transaction p
  finish_posting p inserted

-- ===== src/Ledger/Service/Soundness.antt =====
-- What holds of the ledger's tables after every `post_transaction` (crates/ledger/src/service.rs).
use chain_rail.Base.{
  ℕ, ◌+◌, ◌≤◌, ◌≡◌, ◌∙◌, refl, sym, Bool, true, false, List, [], ◌∷◌, ◌==◌, ==_iff, ==-refl, ltb,
  if◌then◌else◌, pos, All, arith, int_laws, length, Bool-cases, inl, inr, zero_+ℤ,
}
use chain_rail.Common.Result.{ok}
use chain_rail.Common.Money.{Direction}
use chain_rail.Common.Money.Balance.{net_of, net_of-total, total}
use chain_rail.Ledger.Posting.{EntryRequest, Posting, validate, ordered_entries}
use chain_rail.Ledger.Posting.Validate.{legs, validate_sound, AllPositive}
use chain_rail.Ledger.Posting.Order.{sum_by, ordered_entries-IsLockOrdered, length-ordered_entries}
use chain_rail.Ledger.Tables.{
  Ledger, LedgerEntry, contribution, sum_rows, rows, of_transaction, everything, assert_balanced,
  assert_all, commit,
}
use chain_rail.Ledger.Tables.Balances.{signed_of, NonNegative}
use chain_rail.Ledger.Tables.Growth.{on_account}
use chain_rail.Ledger.Service.{PostResult, has_id, post_transaction}
use chain_rail.Ledger.Service.Invariant.{IsPosted, Outcome, post_transaction-Outcome}

-- The invariant: each cached balance is the sum of the entries of its account, no balance is
-- negative that may not be, entries belong to transactions, and each transaction has two entries
-- and a zero sum.
pub record IsSound (l : Ledger) : Type 0 where
  pub reconciled : (j : ℕ) → signed_of j l.accounts ≡ sum_rows (on_account j) (rows l.entries)
  pub non_negative : All NonNegative l.accounts
  pub known : (s : ℕ) → has_id s l.transactions ≡ false → of_transaction s l.entries ≡ []
  pub balanced :
      (s : ℕ)
      → has_id s l.transactions ≡ true
      → (sum_rows everything (of_transaction s l.entries) ≡ pos 0)
        × (2 ≤ length (of_transaction s l.entries))

pub sum_rows-sum_by :
    (p : EntryRequest → Bool) (es : List EntryRequest)
    → sum_rows p es ≡ sum_by (λ e. if p e then contribution e else pos 0) es
unfolding sum_rows
sum_rows-sum_by p [] = refl
sum_rows-sum_by p (e ∷ es) = rw (sum_rows-sum_by p es) refl

-- Sorting the entries keeps every sum.
pub sum_rows-ordered :
    (p : EntryRequest → Bool) (q : Posting) → sum_rows p (ordered_entries q) ≡ sum_rows p q.entries
sum_rows-ordered p q =
    sum_rows-sum_by p (ordered_entries q)
    ∙ (ordered_entries-IsLockOrdered q).1 (λ e. if p e then contribution e else pos 0)
    ∙ sym (sum_rows-sum_by p q.entries)

sum_rows-everything : (es : List EntryRequest) → sum_rows everything es ≡ net_of (legs es)
unfolding sum_rows
sum_rows-everything [] = refl
sum_rows-everything (e ∷ es) = rw (sum_rows-everything es) refl

net_of_zero :
    (es : List EntryRequest)
    → AllPositive es
    → total Direction.debit (legs es) ≡ total Direction.credit (legs es)
    → net_of (legs es) ≡ pos 0
net_of_zero es a b = grind (int_laws, net_of-total (legs es) a)

pub entries_zero :
    (p : Posting) → validate p ≡ ok tt → sum_rows everything (ordered_entries p) ≡ pos 0
entries_zero p v =
    let s = validate_sound p v in
    sum_rows-ordered everything p ∙ sum_rows-everything p.entries ∙ net_of_zero p.entries s.2 s.3

abbrev OwnSound : ℕ → Ledger → Type 0
OwnSound s l =
    (sum_rows everything (of_transaction s l.entries) ≡ pos 0)
    × (2 ≤ length (of_transaction s l.entries))

IsPosted-own :
    (p : Posting) (l l' : Ledger) (t : ℕ)
    → IsPosted p l l' t
    → of_transaction t l.entries ≡ []
    → OwnSound t l'
unfolding sum_rows
IsPosted-own p l l' t d n =
    let g = d.grown in
    let v = validate_sound p d.accepted in
    let two : 2 ≤ length p.entries = v.1 in
    let long = g.own_length in
    let same = length-ordered_entries p in
    let long' : length (of_transaction t l'.entries) ≡ 0 + length (ordered_entries p) =
      rw n at long in
    (g.own everything ∙ rw (n, entries_zero p d.accepted) (zero_+ℤ (pos 0)), omega arith)

IsPosted-IsSound :
    (p : Posting) (l l' : Ledger) (t : ℕ) → IsPosted p l l' t → IsSound l → IsSound l'
IsPosted-IsSound p l l' t d s =
    let g = d.grown in
    let own = IsPosted-own p l l' t d (s.known t d.fresh_id) in
    record {
      reconciled = λ j. g.accounts_moved j ∙ rw (s.reconciled j) (sym (g.written (on_account j)));
      non_negative = g.non_negative s.non_negative;
      known = λ i h.
          let h' = rw g.same_transactions at h in
          elim (Bool-cases (t == i)) [
            | inl q ↦ absurd (cc (rw q at h'))
            | inr q ↦ g.others i q ∙ s.known i (rw q at h')
          ];
      balanced = λ i h.
          let h' = rw g.same_transactions at h in
          elim (Bool-cases (t == i)) [
            | inl q ↦ rw (← (==_iff t i).0 q) own
            | inr q ↦ rw (g.others i q) (s.balanced i (rw q at h'))
          ];
    }

-- `post_transaction` keeps the ledger sound: after every posting that is answered, each cached
-- balance is the sum of the entries of its account, no account is negative that may not be, and
-- each transaction has two entries or more that sum to zero.
pub post_transaction-IsSound :
    (p : Posting) (r : PostResult) (l l' : Ledger)
    → IsSound l
    → post_transaction p l ≡ ok (r, l')
    → IsSound l'
post_transaction-IsSound p r l l' s h = elim (post_transaction-Outcome p r l l' h) [
  | Outcome.was_there t f same q ↦ rw same s
  | Outcome.was_new d q ↦ IsPosted-IsSound p l l' (l.supply l.drawn) d s
]

abbrev IsOwned : Ledger → LedgerEntry → Type 0
IsOwned l e = has_id e.ledger_transaction_id l.transactions ≡ true

assert_balanced_lem : (t : ℕ) (l : Ledger) → OwnSound t l → assert_balanced t l ≡ ok tt
unfolding assert_balanced
assert_balanced_lem t l (z, n) =
    let long : ltb (length (of_transaction t l.entries)) 2 ≡ false = ground arith in
    rw (long, z) refl

assert_all_lem :
    (es : List LedgerEntry) (l : Ledger) → IsSound l → All (IsOwned l) es → assert_all es l ≡ ok tt
unfolding assert_all
assert_all_lem [] l s a = refl
assert_all_lem (e ∷ es) l s a =
    rw
      (
        assert_all,
        assert_balanced_lem e.ledger_transaction_id l (s.balanced e.ledger_transaction_id a.0),
      )
      (assert_all_lem es l s a.1)

owned :
    (l : Ledger) (es : List LedgerEntry)
    → ((s : ℕ) → has_id s l.transactions ≡ false → of_transaction s es ≡ [])
    → All (IsOwned l) es
owned l [] k = tt
owned l (e ∷ es) k = elim (Bool-cases (has_id e.ledger_transaction_id l.transactions)) [
  | inl q ↦ (q, owned l es (λ s n. tail_nil s (k s n)))
  | inr q ↦
      let h = k e.ledger_transaction_id q in absurd (cc (rw (==-refl e.ledger_transaction_id) at h))
]
  where
    tail_nil : (s : ℕ) → of_transaction s (e ∷ es) ≡ [] → of_transaction s es ≡ []
    tail_nil s h = elim (Bool-cases (e.ledger_transaction_id == s)) [
      | inl q ↦ absurd (cc (rw q at h))
      | inr q ↦ rw q at h
    ]

-- A sound ledger commits: the deferred trigger finds no transaction to refuse.
pub commit-IsSound : (l : Ledger) → IsSound l → commit l ≡ ok tt
unfolding commit
commit-IsSound l s = assert_all_lem l.entries l s (owned l l.entries s.known)

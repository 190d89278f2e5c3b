-- ===== src/Ledger/Operations/Calls.antt =====
-- Calls of the operations of crates/ledger/src/operations.rs, each in a transaction of its own, in
-- any sequence.
use chain_rail.Base.{ℕ, ◌≡◌, ◌∙◌, refl, List, [], ◌∷◌, Option, some, Text, pos}
use chain_rail.Common.Result.{Result, ok, err, M, ◌>>=◌, pure}
use chain_rail.Common.Money.{Amount}
use chain_rail.Ledger.Tables.{Ledger, commit, sum_rows}
use chain_rail.Ledger.Tables.Balances.{signed_total}
use chain_rail.Ledger.Accounts.Quiet.{Quietly-pure}
use chain_rail.Ledger.Service.{PostResult}
use chain_rail.Ledger.Service.Soundness.{IsSound, commit-IsSound}
use chain_rail.Ledger.Operations.{
  credit_deposit, reverse_deposit_credit, reserve_withdrawal, release_reservation, record_broadcast,
  settle_withdrawal, reverse_broadcast, record_network_fee, fund_custody,
}
use chain_rail.Ledger.Operations.Sound.{
  Keeps, Keeps->>=, Quietly-Keeps, credit_deposit-Keeps, reverse_deposit_credit-Keeps,
  reserve_withdrawal-Keeps, release_reservation-Keeps, record_broadcast-Keeps,
  settle_withdrawal-Keeps, reverse_broadcast-Keeps, record_network_fee-Keeps, fund_custody-Keeps,
}

-- A call of one of the operations, with its arguments.
pub data Call : Type 0 where
  deposit_credited deposit_reversed : ℕ → ℕ → ℕ → Amount → Option Text → Call
  reserved released settled : ℕ → ℕ → ℕ → Amount → Option Text → Call
  broadcast broadcast_reversed fee_charged : ℕ → ℕ → Amount → Option Text → Call
  custody_funded : ℕ → Amount → Text → Option Text → Call

abbrev pub posted_some : M Ledger PostResult → M Ledger (Option PostResult)
posted_some m = m >>= λ r. pure (some r)

module _ (uuid_text : ℕ → Text) where
  abbrev pub perform : Call → M Ledger (Option PostResult)
  perform (Call.deposit_credited i u x a c) = posted_some (credit_deposit uuid_text i u x a c)
  perform (Call.deposit_reversed i u x a c) =
      posted_some (reverse_deposit_credit uuid_text i u x a c)
  perform (Call.reserved i u x a c) = posted_some (reserve_withdrawal uuid_text i u x a c)
  perform (Call.released i u x a c) = posted_some (release_reservation uuid_text i u x a c)
  perform (Call.settled i u x a c) = posted_some (settle_withdrawal uuid_text i u x a c)
  perform (Call.broadcast i x a c) = posted_some (record_broadcast uuid_text i x a c)
  perform (Call.broadcast_reversed i x a c) = posted_some (reverse_broadcast uuid_text i x a c)
  perform (Call.fee_charged i x a c) = record_network_fee uuid_text i x a c
  perform (Call.custody_funded x a k c) = posted_some (fund_custody uuid_text x a k c)

  -- A call in a transaction of its own: COMMIT where it answers and the deferred trigger agrees, and
  -- the state of before otherwise.
  abbrev pub transact : Call → Ledger → Ledger
  transact k l = elim (perform k l) [
    | ok (r, l') ↦ elim (commit l') [ ok u ↦ l' | err e ↦ l ]
    | err e ↦ l
  ]

  abbrev pub transact_all : List Call → Ledger → Ledger
  transact_all [] l = l
  transact_all (k ∷ ks) l = transact_all ks (transact k l)

  posted_some-Keeps : (m : M Ledger PostResult) → Keeps m → Keeps (posted_some m)
  posted_some-Keeps m h = Keeps->>= h (λ r. Quietly-Keeps (pure (some r)) (Quietly-pure (some r)))

  perform-Keeps : (k : Call) → Keeps (perform k)
  perform-Keeps (Call.deposit_credited i u x a c) =
      posted_some-Keeps _ (credit_deposit-Keeps uuid_text i u x a c)
  perform-Keeps (Call.deposit_reversed i u x a c) =
      posted_some-Keeps _ (reverse_deposit_credit-Keeps uuid_text i u x a c)
  perform-Keeps (Call.reserved i u x a c) =
      posted_some-Keeps _ (reserve_withdrawal-Keeps uuid_text i u x a c)
  perform-Keeps (Call.released i u x a c) =
      posted_some-Keeps _ (release_reservation-Keeps uuid_text i u x a c)
  perform-Keeps (Call.settled i u x a c) =
      posted_some-Keeps _ (settle_withdrawal-Keeps uuid_text i u x a c)
  perform-Keeps (Call.broadcast i x a c) =
      posted_some-Keeps _ (record_broadcast-Keeps uuid_text i 0 x a c)
  perform-Keeps (Call.broadcast_reversed i x a c) =
      posted_some-Keeps _ (reverse_broadcast-Keeps uuid_text i 0 x a c)
  perform-Keeps (Call.fee_charged i x a c) = record_network_fee-Keeps uuid_text i 0 x a c
  perform-Keeps (Call.custody_funded x a k c) =
      posted_some-Keeps _ (fund_custody-Keeps uuid_text 0 0 x a c k)

  -- Every operation that answers keeps the ledger sound and the sum of the signed balances of each
  -- asset, and what it leaves commits.
  pub perform-IsSound :
      (k : Call) (l : Ledger) (r : Option PostResult) (l' : Ledger)
      → IsSound l
      → perform k l ≡ ok (r, l')
      → IsSound l'
        × ((y : ℕ) → signed_total y l'.accounts ≡ signed_total y l.accounts)
        × (commit l' ≡ ok tt)
  perform-IsSound k l r l' s h =
      let kept = perform-Keeps k l r l' h in
      (kept.sound s, kept.totals, commit-IsSound l' (kept.sound s))

  perform_kept :
      (k : Call) (l : Ledger)
      → IsSound l
      → IsSound (transact k l)
        × ((y : ℕ) → signed_total y (transact k l).accounts ≡ signed_total y l.accounts)
  perform_kept k l s = go (perform k l) refl
    where
      go :
          (o : Result (Option PostResult × Ledger))
          → perform k l ≡ o
          → IsSound (transact k l)
            × ((y : ℕ) → signed_total y (transact k l).accounts ≡ signed_total y l.accounts)
      go (ok (r, l')) e =
          let (kept, total, commits) = perform-IsSound k l r l' s e in
          rw (transact, e, commits) (kept, total)
      go (err x) e = rw (transact, e) (s, λ y. refl)

  transact_all_kept :
      (ks : List Call) (l : Ledger)
      → IsSound l
      → IsSound (transact_all ks l)
        × ((y : ℕ) → signed_total y (transact_all ks l).accounts ≡ signed_total y l.accounts)
  transact_all_kept [] l s = (s, λ y. refl)
  transact_all_kept (k ∷ ks) l s =
      let (s', t') = perform_kept k l s in
      let (s'', t'') = transact_all_kept ks (transact k l) s' in (s'', λ y. t'' y ∙ t' y)

-- The tables before the first call, with the identifiers that will be drawn.
abbrev pub no_rows : (ℕ → ℕ) → Ledger
no_rows supply = record {
  accounts = [];
  transactions = [];
  entries = [];
  supply = supply;
  drawn = 0;
}

pub IsSound-no_rows : (supply : ℕ → ℕ) → IsSound (no_rows supply)
unfolding sum_rows
IsSound-no_rows supply = record {
  reconciled = λ j. refl;
  non_negative = tt;
  known = λ s h. refl;
  balanced = λ s h. absurd (cc h);
}

-- From empty tables, whatever operations are called in whatever order and whatever identifiers are
-- drawn, the ledger is sound, and in each asset the signed balances sum to zero: what custody,
-- clearing, fees and receivables hold is what users and the treasury are owed.
pub transact_all-IsSound :
    (uuid_text : ℕ → Text) (supply : ℕ → ℕ) (ks : List Call)
    → IsSound (transact_all uuid_text ks (no_rows supply))
      × ((y : ℕ) → signed_total y (transact_all uuid_text ks (no_rows supply)).accounts ≡ pos 0)
transact_all-IsSound uuid_text supply ks =
    transact_all_kept uuid_text ks (no_rows supply) (IsSound-no_rows supply)

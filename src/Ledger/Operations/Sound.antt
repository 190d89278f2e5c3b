-- ===== src/Ledger/Operations/Sound.antt =====
-- Every operation of crates/ledger/src/operations.rs keeps the ledger sound, in any sequence.
use chain_rail.Base.{
  ℕ, ◌≡◌, ◌∙◌, refl, Bool, true, false, List, [], ◌∷◌, ◌++◌, Option, none, some, Text, codes,
  if◌then◌else◌, All, Bool-cases, inl, inr,
}
use chain_rail.Common.Error.{Error}
use chain_rail.Common.Result.{Result, ok, M, ◌>>=◌, >>=-eq-ok, pure, guard}
use chain_rail.Common.Money.{Amount, is_positive, is_zero, checked_sub}
use chain_rail.Models.AccountType.{AccountType}
use chain_rail.Ledger.Posting.{TransactionKind, ReferenceType, EntryRequest, Posting, debit, credit}
use chain_rail.Ledger.Tables.{Ledger}
use chain_rail.Ledger.Tables.Balances.{signed_total}
use chain_rail.Ledger.Accounts.{user_account, balance_or_zero}
use chain_rail.Ledger.Accounts.Quiet.{
  IsQuiet, IsQuiet-refl, Quietly, Quietly-lift, Quietly-pure, Quietly-throw, user_account-Quietly,
  system_account-Quietly, lock_user_account-Quietly,
}
use chain_rail.Ledger.Service.{post_transaction}
use chain_rail.Ledger.Service.Soundness.{IsSound, post_transaction-IsSound}
use chain_rail.Ledger.Service.Idempotency.{OfAsset, post_transaction_conserves}
use chain_rail.Ledger.Operations.{
  require_positive, part_available, debit_available, debit_deficit, draft, credit_deposit,
  reverse_deposit_credit, reserve_withdrawal, release_reservation, record_broadcast,
  settle_withdrawal, reverse_broadcast, charge_network_fee, record_network_fee, fund_custody,
}

-- Soundness is kept, and so is the sum of the signed balances of each asset.
pub record IsKept (l l' : Ledger) : Type 0 where
  pub sound : IsSound l → IsSound l'
  pub totals : (y : ℕ) → signed_total y l'.accounts ≡ signed_total y l.accounts

pub IsKept-trans : (l m n : Ledger) → IsKept l m → IsKept m n → IsKept l n
IsKept-trans l m n g h = record {
  sound = λ s. h.sound (g.sound s);
  totals = λ y. h.totals y ∙ g.totals y;
}

IsQuiet-IsKept : (l l' : Ledger) → IsQuiet l l' → IsKept l l'
IsQuiet-IsKept l l' q = record {
  sound = λ s. record {
    reconciled = λ j. q.same_accounts j ∙ rw q.same_entries (s.reconciled j);
    non_negative = q.non_negative s.non_negative;
    known = λ i. rw (q.same_entries, q.same_transactions) (s.known i);
    balanced = λ i. rw (q.same_entries, q.same_transactions) (s.balanced i);
  };
  totals = q.same_assets;
}

abbrev pub Keeps : {A : Type 0} → M Ledger A → Type 0
Keeps {A} m = (l : Ledger) (a : A) (l' : Ledger) → m l ≡ ok (a, l') → IsKept l l'

pub Quietly-Keeps : {A : Type 0} (m : M Ledger A) → Quietly m → Keeps m
Quietly-Keeps m q l a l' h = IsQuiet-IsKept l l' (q l a l' h)

pub Keeps->>= :
    {A B : Type 0} {m : M Ledger A} {f : A → M Ledger B}
    → Keeps m
    → ((a : A) → Keeps (f a))
    → Keeps (m >>= f)
Keeps->>= {A} {B} {m} {f} g h l b l'' k =
    let (a, l', p, q) = >>=-eq-ok m f l k in IsKept-trans l l' l'' (g l a l' p) (h a l' b l'' q)

guard-Quietly : (b : Bool) (e : Error) → Quietly (guard b e)
guard-Quietly true e = Quietly-pure tt
guard-Quietly false e = Quietly-throw e

pub post_transaction-Keeps :
    (x : ℕ) (p : Posting) → All (OfAsset x) p.entries → Keeps (post_transaction p)
post_transaction-Keeps x p a l r l' h = record {
  sound = λ s. post_transaction-IsSound p r l l' s h;
  totals = λ y. post_transaction_conserves p r l l' x y a h;
}

-- The operations that post two legs: a guard, two accounts, and a posting.
pub two_legs-Keeps :
    (b : Bool) (e : Error) (x : ℕ) (m n : M Ledger ℕ) (f : ℕ → ℕ → Posting)
    → Quietly m
    → Quietly n
    → ((i j : ℕ) → All (OfAsset x) (f i j).entries)
    → Keeps (guard b e >>= λ _. m >>= λ i. n >>= λ j. post_transaction (f i j))
two_legs-Keeps b e x m n f g h a = Keeps->>= (Quietly-Keeps (guard b e) (guard-Quietly b e)) (λ _.
    Keeps->>= (Quietly-Keeps m g)
      (λ i. Keeps->>= (Quietly-Keeps n h) (λ j. post_transaction-Keeps x (f i j) (a i j))))

module _ (uuid_text : ℕ → Text) (i user asset : ℕ) (amount : Amount)
    (correlation : Option Text) where
  pub credit_deposit-Keeps : Keeps (credit_deposit uuid_text i user asset amount correlation)
  unfolding credit_deposit
  credit_deposit-Keeps =
      two_legs-Keeps (is_positive amount) Error.invalid_amount asset _ _ _
        (system_account-Quietly AccountType.exchange_custody asset)
        (user_account-Quietly AccountType.user_available user asset) (λ _. λ _. (refl, (refl, tt)))

  pub release_reservation-Keeps :
      Keeps (release_reservation uuid_text i user asset amount correlation)
  unfolding release_reservation
  release_reservation-Keeps =
      two_legs-Keeps (is_positive amount) Error.invalid_amount asset _ _ _
        (user_account-Quietly AccountType.user_available user asset)
        (user_account-Quietly AccountType.user_reserved user asset) (λ _. λ _. (refl, (refl, tt)))

  pub record_broadcast-Keeps : Keeps (record_broadcast uuid_text i asset amount correlation)
  unfolding record_broadcast
  record_broadcast-Keeps =
      two_legs-Keeps (is_positive amount) Error.invalid_amount asset _ _ _
        (system_account-Quietly AccountType.exchange_custody asset)
        (system_account-Quietly AccountType.withdrawal_clearing asset)
        (λ _. λ _. (refl, (refl, tt)))

  pub settle_withdrawal-Keeps : Keeps (settle_withdrawal uuid_text i user asset amount correlation)
  unfolding settle_withdrawal
  settle_withdrawal-Keeps =
      two_legs-Keeps (is_positive amount) Error.invalid_amount asset _ _ _
        (user_account-Quietly AccountType.user_reserved user asset)
        (system_account-Quietly AccountType.withdrawal_clearing asset)
        (λ _. λ _. (refl, (refl, tt)))

  pub reverse_broadcast-Keeps : Keeps (reverse_broadcast uuid_text i asset amount correlation)
  unfolding reverse_broadcast
  reverse_broadcast-Keeps =
      two_legs-Keeps (is_positive amount) Error.invalid_amount asset _ _ _
        (system_account-Quietly AccountType.exchange_custody asset)
        (system_account-Quietly AccountType.withdrawal_clearing asset)
        (λ _. λ _. (refl, (refl, tt)))

  pub charge_network_fee-Keeps : Keeps (charge_network_fee uuid_text i asset amount correlation)
  unfolding charge_network_fee
  charge_network_fee-Keeps =
      two_legs-Keeps (is_positive amount) Error.invalid_amount asset _ _ _
        (system_account-Quietly AccountType.exchange_custody asset)
        (system_account-Quietly AccountType.network_fee asset) (λ _. λ _. (refl, (refl, tt)))

  pub record_network_fee-Keeps : Keeps (record_network_fee uuid_text i asset amount correlation)
  unfolding record_network_fee
  record_network_fee-Keeps = elim (Bool-cases (is_zero amount)) [
    | inl p ↦ rw p (Quietly-Keeps (pure none) (Quietly-pure none))
    | inr p ↦ rw p (
        Keeps->>= charge_network_fee-Keeps
          (λ r. Quietly-Keeps (pure (some r)) (Quietly-pure (some r))))
  ]

  pub fund_custody-Keeps :
      (reference : Text) → Keeps (fund_custody uuid_text asset amount reference correlation)
  unfolding fund_custody
  fund_custody-Keeps reference =
      two_legs-Keeps (is_positive amount) Error.invalid_amount asset _ _ _
        (system_account-Quietly AccountType.exchange_custody asset)
        (system_account-Quietly AccountType.treasury asset) (λ _. λ _. (refl, (refl, tt)))

  pub reserve_withdrawal-Keeps :
      Keeps (reserve_withdrawal uuid_text i user asset amount correlation)
  unfolding reserve_withdrawal
  reserve_withdrawal-Keeps =
      Keeps->>= (Quietly-Keeps (require_positive amount) (guard-Quietly _ _)) (λ _.
        Keeps->>= (Quietly-Keeps _ (user_account-Quietly AccountType.user_available user asset))
          (λ _.
            Keeps->>= (Quietly-Keeps _ (user_account-Quietly AccountType.user_reserved user asset))
              (λ _.
                Keeps->>=
                  (Quietly-Keeps _
                    (lock_user_account-Quietly AccountType.user_available user asset))
                  (λ _.
                    Keeps->>= (Quietly-Keeps _ (guard-Quietly _ _))
                      (λ _. post_transaction-Keeps asset _ (refl, (refl, tt)))))))

All-push :
    (x : ℕ) (es : List EntryRequest) (e : EntryRequest)
    → All (OfAsset x) es
    → e.asset_id ≡ x
    → All (OfAsset x) (es ++ e ∷ [])
All-push x [] e a h = (h, tt)
All-push x (d ∷ es) e a h = (a.0, All-push x es e a.1 h)

debit_available-OfAsset :
    (i x : ℕ) (b : Amount) (p : Posting)
    → All (OfAsset x) p.entries
    → All (OfAsset x) (debit_available i x b p).entries
debit_available-OfAsset i x b p a = elim (Bool-cases (is_positive b)) [
  | inl q ↦ rw q (All-push x p.entries _ a refl)
  | inr q ↦ rw q a
]

debit_deficit_lem :
    (user x : ℕ) (s : Amount) (p p' : Posting) (l m : Ledger) (b : Bool)
    → All (OfAsset x) p.entries
    → ◌≡◌ {A = Result (Posting × Ledger)}
        ((if b
            then (user_account AccountType.user_deficit user x >>= λ d. pure (debit d x s p))
            else pure p)
          l)
        (ok (p', m))
    → IsQuiet l m × All (OfAsset x) p'.entries
debit_deficit_lem user x s p p' l m true a h =
    let (d, m', g, k) =
      >>=-eq-ok (user_account AccountType.user_deficit user x) (λ d. pure (debit d x s p)) l h in
    let same : (debit d x s p ≡ p') × (m' ≡ m) = (cc, cc) in
    (
      rw (← same.1) (user_account-Quietly AccountType.user_deficit user x l d m' g),
      rw (← same.0) (All-push x p.entries _ a refl),
    )
debit_deficit_lem user x s p p' l m false a h =
    let same : (p ≡ p') × (l ≡ m) = (cc, cc) in (rw (← same.1) (IsQuiet-refl l), rw (← same.0) a)

pub post_after_deficit-Keeps :
    (user x : ℕ) (s : Amount) (p : Posting)
    → All (OfAsset x) p.entries
    → Keeps (debit_deficit user x s p >>= post_transaction)
unfolding debit_deficit
post_after_deficit-Keeps user x s p a l r l' h =
    let (p', m, g, k) = >>=-eq-ok (debit_deficit user x s p) post_transaction l h in
    let (q, a') = debit_deficit_lem user x s p p' l m (is_positive s) a g in
    IsKept-trans l m l' (IsQuiet-IsKept l m q) (post_transaction-Keeps x p' a' m r l' k)

pub reverse_deposit_credit-Keeps :
    (uuid_text : ℕ → Text) (i user asset : ℕ) (amount : Amount) (correlation : Option Text)
    → Keeps (reverse_deposit_credit uuid_text i user asset amount correlation)
unfolding reverse_deposit_credit
reverse_deposit_credit-Keeps uuid_text i user asset amount correlation =
    Keeps->>= (Quietly-Keeps (require_positive amount) (guard-Quietly _ _)) (λ _.
      Keeps->>= (Quietly-Keeps _ (system_account-Quietly AccountType.exchange_custody asset))
        (λ custody.
          Keeps->>= (Quietly-Keeps _ (user_account-Quietly AccountType.user_available user asset))
            (λ available.
              Keeps->>=
                (Quietly-Keeps _ (lock_user_account-Quietly AccountType.user_available user asset))
                (λ locked.
                  Keeps->>=
                    (Quietly-Keeps _ (
                      Quietly-lift
                        (checked_sub amount (part_available (balance_or_zero locked) amount))))
                    (λ shortfall. post_after_deficit-Keeps user asset shortfall _ (
                      debit_available-OfAsset available asset
                        (part_available (balance_or_zero locked) amount)
                        (credit custody asset amount (
                          draft uuid_text TransactionKind.deposit_reversal ReferenceType.reorg i
                            (codes "deposit_reversal:") correlation
                            (codes "credited deposit invalidated by chain reorganisation")))
                        (refl, tt)))))))

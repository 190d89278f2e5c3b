-- ===== src/Ledger/Operations/Moves.antt =====
-- What a posted operation of crates/ledger/src/operations.rs moves, and between which accounts.
use chain_rail.Base.{
  ℕ, ◌≡◌, ◌∙◌, refl, Bool, true, false, [], ◌∷◌, Option, Text, ◌==◌, if◌then◌else◌, ℤ, pos, ◌+ℤ◌,
  -ℤ◌, +ℤ_zero,
}
use chain_rail.Common.Error.{Error}
use chain_rail.Common.Result.{ok, M, ◌>>=◌, >>=-eq-ok, guard}
use chain_rail.Common.Money.{Amount, Direction, is_positive}
use chain_rail.Common.Money.Balance.{one_times, minus_one_times}
use chain_rail.Models.AccountType.{AccountType}
use chain_rail.Ledger.Posting.{EntryRequest, Posting, debit, credit}
use chain_rail.Ledger.Tables.{Ledger, sum_rows}
use chain_rail.Ledger.Tables.Balances.{signed_of}
use chain_rail.Ledger.Tables.Growth.{on_account}
use chain_rail.Ledger.Accounts.{user_account, system_account}
use chain_rail.Ledger.Accounts.Quiet.{Quietly, user_account-Quietly, system_account-Quietly}
use chain_rail.Ledger.Service.{PostResult, was_posted, post_transaction}
use chain_rail.Ledger.Service.Invariant.{Outcome, post_transaction-Outcome}
use chain_rail.Ledger.Service.Soundness.{sum_rows-ordered}
use chain_rail.Ledger.Operations.{credit_deposit, settle_withdrawal, release_reservation}

-- The amount, at one account.
abbrev pub at : ℕ → ℕ → ℤ → ℤ
at i k amount = if i == k then amount else pos 0

-- Two accounts are resolved one after the other, and the amount is debited to `to` and credited to
-- `from`; no other account moves.
pub record IsMoved (first second : M Ledger ℕ) (swapped : Bool) (amount : Amount) (l l' : Ledger)
    : Type 0 where
  pub i : ℕ
  pub j : ℕ
  pub l1 : Ledger
  pub l2 : Ledger
  pub first_resolved : first l ≡ ok (i, l1)
  pub second_resolved : second l1 ≡ ok (j, l2)
  pub moved :
      (k : ℕ)
      → signed_of k l'.accounts
        ≡ signed_of k l.accounts
          +ℤ (at (if swapped then j else i) k amount
              +ℤ at (if swapped then i else j) k (-ℤ◌ amount))

post_transaction-moves :
    (p : Posting) (r : PostResult) (l l' : Ledger)
    → post_transaction p l ≡ ok (r, l')
    → was_posted r ≡ true
    → (k : ℕ)
    → signed_of k l'.accounts ≡ signed_of k l.accounts +ℤ sum_rows (on_account k) p.entries
post_transaction-moves p r l l' h w k = elim (post_transaction-Outcome p r l l' h) [
  | Outcome.was_there t f same q ↦ absurd (cc (rw q at w))
  | Outcome.was_new d q ↦ d.grown.accounts_moved k ∙ rw (sum_rows-ordered (on_account k) p) refl
]

two_rows :
    (i j x k : ℕ) (amount : Amount) (d : EntryRequest) (c : EntryRequest)
    → d ≡ record { account_id = i; asset_id = x; amount = amount; direction = Direction.debit }
    → c ≡ record { account_id = j; asset_id = x; amount = amount; direction = Direction.credit }
    → sum_rows (on_account k) (d ∷ c ∷ []) ≡ at i k amount +ℤ at j k (-ℤ◌ amount)
unfolding sum_rows
two_rows i j x k amount d c e f =
    rw (e, f, one_times amount, minus_one_times amount, +ℤ_zero (at j k (-ℤ◌ amount))) refl

legs_sum :
    (i j x k : ℕ) (amount : Amount) (draft : Posting)
    → draft.entries ≡ []
    → sum_rows (on_account k) (credit j x amount (debit i x amount draft)).entries
      ≡ at i k amount +ℤ at j k (-ℤ◌ amount)
legs_sum i j x k amount draft empty = rw empty (two_rows i j x k amount _ _ refl refl)

same_of : (y : ℕ) (l m : Ledger) → l ≡ m → signed_of y l.accounts ≡ signed_of y m.accounts
same_of y l m h = rw h refl

plus_same : (a b c d e : ℤ) → a ≡ b +ℤ c → b ≡ d → c ≡ e → a ≡ d +ℤ e
plus_same a b c d e h f g = rw (h, f, g) refl

-- The operations that post two legs.
two_legs-IsMoved :
    (b : Bool) (e : Error) (x : ℕ) (m n : M Ledger ℕ) (swapped : Bool) (amount : Amount)
    (draft : Posting) (r : PostResult) (l l' : Ledger)
    → draft.entries ≡ []
    → Quietly m
    → Quietly n
    → (guard b e >>= λ _. m >>= λ i. n >>= λ j. post_transaction (
          credit
            (if swapped then i else j)
            x
            amount
            (debit (if swapped then j else i) x amount draft)))
        l
      ≡ ok (r, l')
    → was_posted r ≡ true
    → IsMoved m n swapped amount l l'
two_legs-IsMoved b e x m n swapped amount draft r l l' empty g h k w =
    let post = λ (i j : ℕ).
      credit (if swapped then i else j) x amount
        (debit (if swapped then j else i) x amount draft) in
    let (u, l0, g0, k0) =
      >>=-eq-ok (guard b e) (λ _. m >>= λ i. n >>= λ j. post_transaction (post i j)) l k in
    let same = guarded b e l l0 g0 in
    let (i, l1, g1, k1) = >>=-eq-ok m (λ i. n >>= λ j. post_transaction (post i j)) l0 k0 in
    let (j, l2, g2, k2) = >>=-eq-ok n (λ j. post_transaction (post i j)) l1 k1 in
    let q1 = g l0 i l1 g1 in
    let q2 = h l1 j l2 g2 in
    record {
      i = i;
      j = j;
      l1 = l1;
      l2 = l2;
      first_resolved = rw (← same) g1;
      second_resolved = g2;
      moved = λ y.
          plus_same _ _ _ _ _ (post_transaction-moves (post i j) r l2 l' k2 w y)
            (q2.same_accounts y ∙ q1.same_accounts y ∙ same_of y l0 l same)
            (legs_sum (if swapped then j else i) (if swapped then i else j) x y amount draft empty);
    }
  where
    guarded : (b : Bool) (e : Error) (l l0 : Ledger) → guard b e l ≡ ok (tt, l0) → l0 ≡ l
    guarded true e l l0 h = cc
    guarded false e l l0 h = absurd (cc h)

-- A credit that is posted debits the custody account of the asset and credits the user's spendable
-- account with exactly the amount; no other account moves.
pub credit_deposit-IsMoved :
    (uuid_text : ℕ → Text) (i user asset : ℕ) (amount : Amount) (correlation : Option Text)
    (r : PostResult) (l l' : Ledger)
    → credit_deposit uuid_text i user asset amount correlation l ≡ ok (r, l')
    → was_posted r ≡ true
    → IsMoved
        (system_account AccountType.exchange_custody asset)
        (user_account AccountType.user_available user asset)
        false
        amount
        l
        l'
unfolding credit_deposit
credit_deposit-IsMoved uuid_text i user asset amount correlation r l l' h w =
    two_legs-IsMoved (is_positive amount) Error.invalid_amount asset _ _ false amount _ r l l' refl
      (system_account-Quietly AccountType.exchange_custody asset)
      (user_account-Quietly AccountType.user_available user asset) h w

-- A settlement that is posted debits what is reserved for the user and credits the clearing account
-- with exactly the amount; no other account moves.
pub settle_withdrawal-IsMoved :
    (uuid_text : ℕ → Text) (i user asset : ℕ) (amount : Amount) (correlation : Option Text)
    (r : PostResult) (l l' : Ledger)
    → settle_withdrawal uuid_text i user asset amount correlation l ≡ ok (r, l')
    → was_posted r ≡ true
    → IsMoved
        (user_account AccountType.user_reserved user asset)
        (system_account AccountType.withdrawal_clearing asset)
        false
        amount
        l
        l'
unfolding settle_withdrawal
settle_withdrawal-IsMoved uuid_text i user asset amount correlation r l l' h w =
    two_legs-IsMoved (is_positive amount) Error.invalid_amount asset _ _ false amount _ r l l' refl
      (user_account-Quietly AccountType.user_reserved user asset)
      (system_account-Quietly AccountType.withdrawal_clearing asset) h w

-- A release that is posted debits what is reserved for the user and credits the user's spendable
-- account with exactly the amount; no other account moves.
pub release_reservation-IsMoved :
    (uuid_text : ℕ → Text) (i user asset : ℕ) (amount : Amount) (correlation : Option Text)
    (r : PostResult) (l l' : Ledger)
    → release_reservation uuid_text i user asset amount correlation l ≡ ok (r, l')
    → was_posted r ≡ true
    → IsMoved
        (user_account AccountType.user_available user asset)
        (user_account AccountType.user_reserved user asset)
        true
        amount
        l
        l'
unfolding release_reservation
release_reservation-IsMoved uuid_text i user asset amount correlation r l l' h w =
    two_legs-IsMoved (is_positive amount) Error.invalid_amount asset _ _ true amount _ r l l' refl
      (user_account-Quietly AccountType.user_available user asset)
      (user_account-Quietly AccountType.user_reserved user asset) h w

-- ===== src/Ledger/Accounts/Quiet.antt =====
-- Resolving an account (crates/ledger/src/accounts.rs) moves no balance.
use chain_rail.Base.{
  ℕ, ◌+◌, ◌≡◌, ◌∙◌, refl, sym, true, false, List, [], ◌∷◌, Option, none, some, ◌==◌, pos, -ℤ◌, All,
  arith, int_laws, Bool-cases, Option-cases, inl, inr, zero_+ℤ, ==_iff,
}
use chain_rail.Common.Error.{Error}
use chain_rail.Common.Result.{Result, ok, err, M, ◌>>=◌, >>=-eq-ok, gets, pure, throw, lift, ok_or}
use chain_rail.Models.AccountType.{AccountType, is_user_scoped}
use chain_rail.Ledger.Tables.{Ledger, LedgerAccount}
use chain_rail.Ledger.Tables.Balances.{signed, signed_of, signed_total, NonNegative}
use chain_rail.Ledger.Accounts.{
  find_row, select_id, insert_account, or_select, or_insert, resolve, user_account, system_account,
  lock_user_account, user_balance, balance_of, account_of, has_account, decode,
}

-- No balance, entry or transaction is other than before.
pub record IsQuiet (l l' : Ledger) : Type 0 where
  pub same_accounts : (j : ℕ) → signed_of j l'.accounts ≡ signed_of j l.accounts
  pub same_assets : (y : ℕ) → signed_total y l'.accounts ≡ signed_total y l.accounts
  pub non_negative : All NonNegative l.accounts → All NonNegative l'.accounts
  pub same_entries : l'.entries ≡ l.entries
  pub same_transactions : l'.transactions ≡ l.transactions

pub IsQuiet-refl : (l : Ledger) → IsQuiet l l
IsQuiet-refl l = record {
  same_accounts = λ j. refl;
  same_assets = λ y. refl;
  non_negative = λ n. n;
  same_entries = refl;
  same_transactions = refl;
}

pub IsQuiet-trans : (l m n : Ledger) → IsQuiet l m → IsQuiet m n → IsQuiet l n
IsQuiet-trans l m n g h = record {
  same_accounts = λ j. h.same_accounts j ∙ g.same_accounts j;
  same_assets = λ y. h.same_assets y ∙ g.same_assets y;
  non_negative = λ a. h.non_negative (g.non_negative a);
  same_entries = h.same_entries ∙ g.same_entries;
  same_transactions = h.same_transactions ∙ g.same_transactions;
}

-- A computation that is quiet whenever it answers.
abbrev pub Quietly : {A : Type 0} → M Ledger A → Type 0
Quietly {A} m = (l : Ledger) (a : A) (l' : Ledger) → m l ≡ ok (a, l') → IsQuiet l l'

pub Quietly->>= :
    {A B : Type 0} (m : M Ledger A) (f : A → M Ledger B)
    → Quietly m
    → ((a : A) → Quietly (f a))
    → Quietly (m >>= f)
Quietly->>= m f g h l b l'' k =
    let (a, l', p, q) = >>=-eq-ok m f l k in IsQuiet-trans l l' l'' (g l a l' p) (h a l' b l'' q)

Quietly-const : {A : Type 0} (r : Result A) → Quietly (lift r)
Quietly-const (ok a) l b l' h = let same : l ≡ l' = cc in rw (← same) (IsQuiet-refl l)
Quietly-const (err e) l b l' h = absurd (cc h)

pub Quietly-lift : {A : Type 0} (r : Result A) → Quietly (lift r)
Quietly-lift r = Quietly-const r

pub Quietly-gets : {A : Type 0} (f : Ledger → A) → Quietly (gets f)
Quietly-gets f l b l' h = let same : l ≡ l' = cc in rw (← same) (IsQuiet-refl l)

pub Quietly-pure : {A : Type 0} (a : A) → Quietly (pure a)
Quietly-pure a l b l' h = let same : l ≡ l' = cc in rw (← same) (IsQuiet-refl l)

pub Quietly-throw : {A : Type 0} (e : Error) → Quietly (throw {A = A} e)
Quietly-throw e l b l' h = absurd (cc h)

neg_zero : -ℤ◌ (pos 0) ≡ pos 0
neg_zero = grind int_laws

signed_new :
    (i : ℕ) (kind : AccountType) (owner : Option ℕ) (asset : ℕ)
    → signed (account_of i kind owner asset) ≡ pos 0
signed_new i kind owner asset = grind (arith, neg_zero)

signed_of-absent :
    (i : ℕ) (accts : List LedgerAccount) → has_account i accts ≡ false → signed_of i accts ≡ pos 0
signed_of-absent i [] h = refl
signed_of-absent i (a ∷ accts) h = elim (Bool-cases (a.id == i)) [
  | inl p ↦ absurd (cc (rw p at h))
  | inr p ↦ rw p (signed_of-absent i accts (rw p at h))
]

-- The insert of an account, from the two tests that it makes.
module _ (kind : AccountType) (owner : Option ℕ) (asset : ℕ) (l : Ledger) where
  abbrev pub created : Ledger
  created = record l {
    accounts = account_of (l.supply l.drawn) kind owner asset ∷ l.accounts;
    drawn = l.drawn + 1;
  }

  insert_account_new :
      find_row kind owner asset l.accounts ≡ none
      → has_account (l.supply l.drawn) l.accounts ≡ false
      → insert_account kind owner asset l ≡ ok (some (l.supply l.drawn), created)
  unfolding insert_account
  insert_account_new f q = rw (insert_account, f, q) refl

  insert_account_clash :
      find_row kind owner asset l.accounts ≡ none
      → has_account (l.supply l.drawn) l.accounts ≡ true
      → insert_account kind owner asset l ≡ err Error.conflict
  unfolding insert_account
  insert_account_clash f q = rw (insert_account, f, q) refl

  insert_account_there :
      (a : LedgerAccount)
      → find_row kind owner asset l.accounts ≡ some a
      → insert_account kind owner asset l ≡ ok (none, l)
  unfolding insert_account
  insert_account_there a f = rw (insert_account, f) refl

  signed_of-created :
      (j : ℕ)
      → has_account (l.supply l.drawn) l.accounts ≡ false
      → signed_of j created.accounts ≡ signed_of j l.accounts
  signed_of-created j q = elim (Bool-cases (l.supply l.drawn == j)) [
    | inl p ↦
        let same : l.supply l.drawn ≡ j = (==_iff _ _).0 p in
        rw (p, ← same, signed_of-absent (l.supply l.drawn) l.accounts q)
          (signed_new (l.supply l.drawn) kind owner asset)
    | inr p ↦ rw p refl
  ]

  signed_total-created : (y : ℕ) → signed_total y created.accounts ≡ signed_total y l.accounts
  signed_total-created y = elim (Bool-cases (asset == y)) [
    | inl p ↦ rw (p, signed_new (l.supply l.drawn) kind owner asset) (zero_+ℤ _)
    | inr p ↦ rw p (zero_+ℤ _)
  ]

  IsQuiet-created : has_account (l.supply l.drawn) l.accounts ≡ false → IsQuiet l created
  IsQuiet-created q = record {
    same_accounts = λ j. signed_of-created j q;
    same_assets = signed_total-created;
    non_negative = λ n. (refl, n);
    same_entries = refl;
    same_transactions = refl;
  }

insert_account-Quietly :
    (kind : AccountType) (owner : Option ℕ) (asset : ℕ) → Quietly (insert_account kind owner asset)
insert_account-Quietly kind owner asset l o l' h =
    elim (Option-cases (find_row kind owner asset l.accounts)) [
      | inl f ↦ elim (Bool-cases (has_account (l.supply l.drawn) l.accounts)) [
        | inl q ↦ absurd (cc (sym h ∙ insert_account_clash kind owner asset l f q))
        | inr q ↦
            let pair = sym h ∙ insert_account_new kind owner asset l f q in
            let same : l' ≡ created kind owner asset l = cc in
            rw same (IsQuiet-created kind owner asset l q)
      ]
      | inr (a, f) ↦
          let pair = sym h ∙ insert_account_there kind owner asset l a f in
          let same : l' ≡ l = cc in rw same (IsQuiet-refl l)
    ]

or_select-Quietly :
    (kind : AccountType) (owner : Option ℕ) (asset : ℕ) (o : Option ℕ)
    → Quietly (or_select kind owner asset o)
unfolding or_select
or_select-Quietly kind owner asset (some i) = Quietly-pure i
or_select-Quietly kind owner asset none =
    Quietly->>= (select_id kind owner asset) (λ w. lift (ok_or w Error.internal)) (Quietly-gets _)
      (λ w. Quietly-lift (ok_or w Error.internal))

or_insert-Quietly :
    (kind : AccountType) (owner : Option ℕ) (asset : ℕ) (o : Option ℕ)
    → Quietly (or_insert kind owner asset o)
unfolding or_insert
or_insert-Quietly kind owner asset (some i) = Quietly-pure i
or_insert-Quietly kind owner asset none =
    Quietly->>= (insert_account kind owner asset) (or_select kind owner asset)
      (insert_account-Quietly kind owner asset) (or_select-Quietly kind owner asset)

resolve-Quietly :
    (kind : AccountType) (owner : Option ℕ) (asset : ℕ) → Quietly (resolve kind owner asset)
unfolding resolve
resolve-Quietly kind owner asset =
    Quietly->>= (select_id kind owner asset) (or_insert kind owner asset) (Quietly-gets _)
      (or_insert-Quietly kind owner asset)

pub user_account-Quietly :
    (kind : AccountType) (user asset : ℕ) → Quietly (user_account kind user asset)
unfolding user_account
user_account-Quietly kind user asset = elim (Bool-cases (is_user_scoped kind)) [
  | inl p ↦ rw p (resolve-Quietly kind (some user) asset)
  | inr p ↦ rw p (Quietly-throw Error.internal)
]

pub system_account-Quietly : (kind : AccountType) (asset : ℕ) → Quietly (system_account kind asset)
unfolding system_account
system_account-Quietly kind asset = elim (Bool-cases (is_user_scoped kind)) [
  | inl p ↦ rw p (Quietly-throw Error.internal)
  | inr p ↦ rw p (resolve-Quietly kind none asset)
]

pub lock_user_account-Quietly :
    (kind : AccountType) (user asset : ℕ) → Quietly (lock_user_account kind user asset)
unfolding lock_user_account
lock_user_account-Quietly kind user asset l o l' h =
    Quietly-lift (decode (find_row kind (some user) asset l.accounts)) l o l' h

pub user_balance-Quietly :
    (kind : AccountType) (user asset : ℕ) → Quietly (user_balance kind user asset)
unfolding user_balance
user_balance-Quietly kind user asset l o l' h =
    Quietly-lift (balance_of (find_row kind (some user) asset l.accounts)) l o l' h

-- ===== src/Ledger/Tables/Balances.antt =====
-- What one insert into `ledger_entries` does to the balances.
use chain_rail.Base.{
  ℕ, ◌≡◌, ◌∙◌, refl, sym, ap, true, false, List, [], ◌∷◌, some, ◌==◌, if◌then◌else◌, ℤ, pos, ◌+ℤ◌,
  -ℤ◌, All, arith, int_laws, Bool-cases, Option-cases, inl, inr, ==_iff, +ℤ_assoc, +ℤ_zero,
  pos_part, neg_part,
}
use chain_rail.Common.Result.{ok}
use chain_rail.Common.Money.{Direction, is_positive}
use chain_rail.Common.Money.Balance.{one_times, minus_one_times}
use chain_rail.Ledger.Posting.{EntryRequest}
use chain_rail.Ledger.Tables.{
  Ledger, LedgerAccount, find_account, set_balance, moved_balance, is_overdrawn, apply_to,
  insert_entry, contribution,
}

-- The balance of an account with debits positive.
abbrev pub signed : LedgerAccount → ℤ
signed a = elim a.normal_balance [ Direction.debit ↦ a.balance | Direction.credit ↦ -ℤ◌ a.balance ]

-- The same for the account of an identifier, 0 where there is none.
abbrev pub signed_of : ℕ → List LedgerAccount → ℤ
signed_of i [] = pos 0
signed_of i (a ∷ later) = if a.id == i then signed a else signed_of i later

-- The sum over the accounts of an asset.
abbrev pub signed_total : ℕ → List LedgerAccount → ℤ
signed_total y [] = pos 0
signed_total y (a ∷ later) = (if a.asset_id == y then signed a else pos 0) +ℤ signed_total y later

-- CHECK ledger_accounts_non_negative holds of a row.
abbrev pub NonNegative : LedgerAccount → Type 0
NonNegative a = is_overdrawn a a.balance ≡ false

-- What a successful insert has tested and written, at the account that it found.
pub record IsApplied (t : ℕ) (e : EntryRequest) (l l' : Ledger) (a : LedgerAccount) : Type 0 where
  pub found : find_account e.account_id l.accounts ≡ some a
  pub same_asset : (a.asset_id == e.asset_id) ≡ true
  pub covered : is_overdrawn a (moved_balance a e) ≡ false
  pub positive : is_positive e.amount ≡ true
  pub result : l' ≡ record l {
    accounts = set_balance e.account_id (moved_balance a e) l.accounts;
    entries =
        (record { ledger_transaction_id = t; row = e; balance_after = moved_balance a e })
        ∷ l.entries;
  }

apply_to-IsApplied :
    (t : ℕ) (e : EntryRequest) (l l' : Ledger) (a : LedgerAccount)
    → find_account e.account_id l.accounts ≡ some a
    → apply_to t e (some a) l ≡ ok (tt, l')
    → IsApplied t e l l' a
unfolding apply_to
apply_to-IsApplied t e l l' a f h =
    let n : is_overdrawn a (moved_balance a e) ≡ false = ground arith in
    record {
      found = f;
      same_asset = ground arith;
      covered = n;
      positive = ground arith;
      result = ground arith;
    }

pub insert_entry-IsApplied :
    (t : ℕ) (e : EntryRequest) (l l' : Ledger)
    → insert_entry t e l ≡ ok (tt, l')
    → (a : LedgerAccount) × IsApplied t e l l' a
unfolding insert_entry
insert_entry-IsApplied t e l l' h = elim (Option-cases (find_account e.account_id l.accounts)) [
  | inl q ↦ absurd (cc (rw q at h))
  | inr (a, q) ↦ (a, apply_to-IsApplied t e l l' a q (rw q at h))
]

-- An entry moves the signed balance of its account by its contribution, whichever side is normal.
signed_moved :
    (a : LedgerAccount) (e : EntryRequest)
    → signed (record a { balance = moved_balance a e }) ≡ signed a +ℤ contribution e
signed_moved a e = grind (int_laws, one_times e.amount, minus_one_times e.amount)

signed_of-set_balance :
    (i j : ℕ) (b : ℤ) (accts : List LedgerAccount) (a : LedgerAccount)
    → find_account i accts ≡ some a
    → signed_of j (set_balance i b accts)
      ≡ (if i == j then signed (record a { balance = b }) else signed_of j accts)
signed_of-set_balance i j b [] a h = cc
signed_of-set_balance i j b (c ∷ accts) a h = elim (Bool-cases (c.id == i)) [
  | inl p ↦ let same : c ≡ a = cc (rw p at h) in rw p (ground (arith, same, p))
  | inr p ↦ rw p (ground (arith, p, signed_of-set_balance i j b accts a (rw p at h)))
]

pub signed_of-found :
    (i : ℕ) (accts : List LedgerAccount) (a : LedgerAccount)
    → find_account i accts ≡ some a
    → signed_of i accts ≡ signed a
signed_of-found i [] a h = cc
signed_of-found i (c ∷ accts) a h = elim (Bool-cases (c.id == i)) [
  | inl p ↦ let same : c ≡ a = cc (rw p at h) in rw (p, same)
  | inr p ↦ rw p (signed_of-found i accts a (rw p at h))
]

-- What an account adds to the total of an asset.
abbrev part_of : ℕ → LedgerAccount → ℤ
part_of y a = if a.asset_id == y then signed a else pos 0

swap_parts : (p q r : ℤ) → p +ℤ q +ℤ r ≡ r +ℤ q +ℤ p
swap_parts p q r = omega int_laws

move_part : (p q q' r r' : ℤ) → q' +ℤ r ≡ q +ℤ r' → p +ℤ q' +ℤ r ≡ p +ℤ q +ℤ r'
move_part p q q' r r' h = rw (+ℤ_assoc p q' r, +ℤ_assoc p q r', h)

signed_total-set_balance :
    (i y : ℕ) (b : ℤ) (accts : List LedgerAccount) (a : LedgerAccount)
    → find_account i accts ≡ some a
    → signed_total y (set_balance i b accts) +ℤ part_of y a
      ≡ signed_total y accts +ℤ part_of y (record a { balance = b })
signed_total-set_balance i y b [] a h = cc
signed_total-set_balance i y b (c ∷ accts) a h = elim (Bool-cases (c.id == i)) [
  | inl p ↦
      let same : c ≡ a = cc (rw p at h) in
      rw (p, same)
        (swap_parts (part_of y (record a { balance = b })) (signed_total y accts) (part_of y a))
  | inr p ↦ rw p (
      move_part (part_of y c) (signed_total y accts) (signed_total y (set_balance i b accts))
        (part_of y a) (part_of y (record a { balance = b }))
        (signed_total-set_balance i y b accts a (rw p at h)))
]

pub NonNegative-set_balance :
    (i : ℕ) (b : ℤ) (accts : List LedgerAccount) (a : LedgerAccount)
    → find_account i accts ≡ some a
    → is_overdrawn a b ≡ false
    → All NonNegative accts
    → All NonNegative (set_balance i b accts)
NonNegative-set_balance i b [] a h o n = n
NonNegative-set_balance i b (c ∷ accts) a h o n = elim (Bool-cases (c.id == i)) [
  | inl p ↦ let same : c ≡ a = cc (rw p at h) in rw (p, same) (o, n.1)
  | inr p ↦ rw p (n.0, NonNegative-set_balance i b accts a (rw p at h) o n.1)
]

-- An account without its balance: an insert leaves these alone.
abbrev pub shape : LedgerAccount → LedgerAccount
shape a = record a { balance = pos 0 }

abbrev pub shapes : List LedgerAccount → List LedgerAccount
shapes [] = []
shapes (a ∷ later) = shape a ∷ shapes later

pub shapes-set_balance :
    (i : ℕ) (b : ℤ) (accts : List LedgerAccount) → shapes (set_balance i b accts) ≡ shapes accts
shapes-set_balance i b [] = refl
shapes-set_balance i b (c ∷ accts) = elim (Bool-cases (c.id == i)) [
  | inl p ↦ rw p
  | inr p ↦ rw p (rw (shapes-set_balance i b accts))
]

cancel_part : (x p t c : ℤ) → x +ℤ p ≡ t +ℤ (p +ℤ c) → x ≡ t +ℤ c
cancel_part x p t c h = omega (int_laws, ap pos_part h, ap neg_part h)

cancel_same : (x p t : ℤ) → x +ℤ p ≡ t +ℤ p → x ≡ t +ℤ pos 0
cancel_same x p t h = omega (int_laws, ap pos_part h, ap neg_part h)

-- The balances that a successful insert leaves, of one account and of one asset.
module _ (e : EntryRequest) (l : Ledger) (a : LedgerAccount)
    (found : find_account e.account_id l.accounts ≡ some a) where
  abbrev after : List LedgerAccount
  after = set_balance e.account_id (moved_balance a e) l.accounts

  pub signed_of-after :
      (j : ℕ)
      → signed_of j after
        ≡ signed_of j l.accounts +ℤ (if e.account_id == j then contribution e else pos 0)
  signed_of-after j = elim (Bool-cases (e.account_id == j)) [
    | inl p ↦
        let same : e.account_id ≡ j = (==_iff _ _).0 p in
        rw (signed_of-set_balance e.account_id j (moved_balance a e) l.accounts a found, p)
          (signed_moved a e ∙ rw (← same, signed_of-found e.account_id l.accounts a found))
    | inr p ↦
        rw (signed_of-set_balance e.account_id j (moved_balance a e) l.accounts a found, p)
          (sym (+ℤ_zero _))
  ]

  pub signed_total-after :
      (y : ℕ)
      → (a.asset_id == e.asset_id) ≡ true
      → signed_total y after
        ≡ signed_total y l.accounts +ℤ (if e.asset_id == y then contribution e else pos 0)
  signed_total-after y h =
      let same : a.asset_id ≡ e.asset_id = (==_iff _ _).0 h in
      let whole = signed_total-set_balance e.account_id y (moved_balance a e) l.accounts a found in
      elim (Bool-cases (a.asset_id == y)) [
        | inl p ↦
            rw (← same, p)
              (cancel_part (signed_total y after) (signed a) (signed_total y l.accounts)
                (contribution e) (rw (← signed_moved a e) (rw p at whole)))
        | inr p ↦
            rw (← same, p)
              (cancel_same (signed_total y after) (pos 0) (signed_total y l.accounts)
                (rw p at whole))
      ]

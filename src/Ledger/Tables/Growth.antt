-- ===== src/Ledger/Tables/Growth.antt =====
-- What a run of inserts into `ledger_entries` by one transaction does to the tables.
use chain_rail.Base.{
  ℕ, ◌+◌, ◌≡◌, ◌∙◌, refl, sym, Bool, false, List, [], ◌∷◌, ◌==◌, if◌then◌else◌, ℤ, pos, ◌+ℤ◌, All,
  arith, length, ==-refl, +ℤ_assoc, +ℤ_comm, +ℤ_zero,
}
use chain_rail.Common.Result.{ok}
use chain_rail.Ledger.Posting.{EntryRequest}
use chain_rail.Ledger.Tables.{Ledger, insert_entry, contribution, sum_rows, rows, of_transaction}
use chain_rail.Ledger.Tables.Balances.{
  signed_of, signed_total, NonNegative, insert_entry-IsApplied, signed_of-after, signed_total-after,
  NonNegative-set_balance, shapes, shapes-set_balance,
}

-- Tests of an entry.
abbrev pub on_account : ℕ → EntryRequest → Bool
on_account j e = e.account_id == j

abbrev pub in_asset : ℕ → EntryRequest → Bool
in_asset y e = e.asset_id == y

-- What the inserts of `es` under transaction `t` change, and what they leave.
pub record IsGrown (t : ℕ) (es : List EntryRequest) (l l' : Ledger) : Type 0 where
  pub accounts_moved :
      (j : ℕ) → signed_of j l'.accounts ≡ signed_of j l.accounts +ℤ sum_rows (on_account j) es
  pub assets_moved :
      (y : ℕ) → signed_total y l'.accounts ≡ signed_total y l.accounts +ℤ sum_rows (in_asset y) es
  pub non_negative : All NonNegative l.accounts → All NonNegative l'.accounts
  pub same_shapes : shapes l'.accounts ≡ shapes l.accounts
  pub written :
      (p : EntryRequest → Bool)
      → sum_rows p (rows l'.entries) ≡ sum_rows p (rows l.entries) +ℤ sum_rows p es
  pub own :
      (p : EntryRequest → Bool)
      → sum_rows p (of_transaction t l'.entries)
        ≡ sum_rows p (of_transaction t l.entries) +ℤ sum_rows p es
  pub own_length :
      length (of_transaction t l'.entries) ≡ length (of_transaction t l.entries) + length es
  pub others : (s : ℕ) → (t == s) ≡ false → of_transaction s l'.entries ≡ of_transaction s l.entries
  pub same_transactions : l'.transactions ≡ l.transactions

pub IsGrown-refl : (t : ℕ) (l : Ledger) → IsGrown t [] l l
unfolding sum_rows
IsGrown-refl t l = record {
  accounts_moved = λ j. sym (+ℤ_zero _);
  assets_moved = λ y. sym (+ℤ_zero _);
  non_negative = λ n. n;
  same_shapes = refl;
  written = λ p. sym (+ℤ_zero _);
  own = λ p. sym (+ℤ_zero _);
  own_length = omega arith;
  others = λ s h. refl;
  same_transactions = refl;
}

add_one : (a b : ℤ) → a +ℤ b ≡ a +ℤ (b +ℤ pos 0)
add_one a b = rw (+ℤ_zero b)

in_front : (a b : ℤ) → a +ℤ b ≡ b +ℤ (a +ℤ pos 0)
in_front a b = rw (+ℤ_zero a) (+ℤ_comm a b)

pub insert_entry-IsGrown :
    (t : ℕ) (e : EntryRequest) (l l' : Ledger)
    → insert_entry t e l ≡ ok (tt, l')
    → IsGrown t (e ∷ []) l l'
unfolding sum_rows
insert_entry-IsGrown t e l l' h =
    let (a, i) = insert_entry-IsApplied t e l l' h in
    rw i.result (record {
      accounts_moved = λ j. signed_of-after e l a i.found j ∙ add_one (signed_of j l.accounts) _;
      assets_moved = λ y.
          signed_total-after e l a i.found y i.same_asset ∙ add_one (signed_total y l.accounts) _;
      non_negative = NonNegative-set_balance e.account_id _ l.accounts a i.found i.covered;
      same_shapes = shapes-set_balance e.account_id _ l.accounts;
      written = λ p. in_front _ (sum_rows p (rows l.entries));
      own = λ p. rw (==-refl t) (in_front _ (sum_rows p (of_transaction t l.entries)));
      own_length = rw (==-refl t) (omega arith);
      others = λ s n. rw n;
      same_transactions = refl;
    })

sum_rows-two :
    (p : EntryRequest → Bool) (e : EntryRequest) (es : List EntryRequest) (a b c : ℤ)
    → b ≡ a +ℤ sum_rows p (e ∷ [])
    → c ≡ b +ℤ sum_rows p es
    → c ≡ a +ℤ sum_rows p (e ∷ es)
unfolding sum_rows
sum_rows-two p e es a b c g h =
    rw (h, g, +ℤ_zero (if p e then contribution e else pos 0)) (+ℤ_assoc a _ _)

pub IsGrown-trans :
    (t : ℕ) (e : EntryRequest) (es : List EntryRequest) (l l' l'' : Ledger)
    → IsGrown t (e ∷ []) l l'
    → IsGrown t es l' l''
    → IsGrown t (e ∷ es) l l''
IsGrown-trans t e es l l' l'' g h = record {
  accounts_moved =
      λ j. sum_rows-two (on_account j) e es _ _ _ (g.accounts_moved j) (h.accounts_moved j);
  assets_moved = λ y. sum_rows-two (in_asset y) e es _ _ _ (g.assets_moved y) (h.assets_moved y);
  non_negative = λ n. h.non_negative (g.non_negative n);
  same_shapes = h.same_shapes ∙ g.same_shapes;
  written = λ p. sum_rows-two p e es _ _ _ (g.written p) (h.written p);
  own = λ p. sum_rows-two p e es _ _ _ (g.own p) (h.own p);
  own_length = omega (arith, h.own_length, g.own_length);
  others = λ s n. h.others s n ∙ g.others s n;
  same_transactions = h.same_transactions ∙ g.same_transactions;
}

-- ===== src/Ledger/Posting/Order.antt =====
-- `Posting::ordered_entries`: the order in which account rows are locked.
use chain_rail.Base.{
  ℕ, ◌+◌, ◌≤◌, ◌≡◌, refl, true, false, List, [], ◌∷◌, ℤ, pos, ◌+ℤ◌, arith, length, Bool-cases, inl,
  inr, +ℤ_assoc, +ℤ_comm, All,
}
use chain_rail.Ledger.Posting.{
  EntryRequest, Posting, ordered_entries, sort_by_key, insert_by_key, key_leb,
}

-- No entry's account stands before that of the entry in front of it.
abbrev pub IsLockOrdered : List EntryRequest → Type 0
IsLockOrdered [] = Unit
IsLockOrdered (x ∷ xs) =
    All (λ (y : EntryRequest). x.account_id ≤ y.account_id) xs × IsLockOrdered xs

All-insert_by_key :
    (i : ℕ) (x : EntryRequest) (ys : List EntryRequest)
    → i ≤ x.account_id
    → All (λ (y : EntryRequest). i ≤ y.account_id) ys
    → All (λ (y : EntryRequest). i ≤ y.account_id) (insert_by_key x ys)
unfolding insert_by_key
All-insert_by_key i x [] h a = (h, tt)
All-insert_by_key i x (y ∷ ys) h a = elim (Bool-cases (key_leb x y)) [
  | inl p ↦ rw p (h, a)
  | inr p ↦ rw p (a.0, All-insert_by_key i x ys h a.1)
]

All-weaken :
    (i j : ℕ) (ys : List EntryRequest)
    → i ≤ j
    → All (λ (y : EntryRequest). j ≤ y.account_id) ys
    → All (λ (y : EntryRequest). i ≤ y.account_id) ys
All-weaken i j [] h a = tt
All-weaken i j (y ∷ ys) h a = let b = a.0 in (omega arith, All-weaken i j ys h a.1)

key_leb-le : (x y : EntryRequest) → key_leb x y ≡ true → x.account_id ≤ y.account_id
key_leb-le x y h = ground arith

key_leb-ge : (x y : EntryRequest) → key_leb x y ≡ false → y.account_id ≤ x.account_id
key_leb-ge x y h = ground arith

insert_by_key-IsLockOrdered :
    (x : EntryRequest) (ys : List EntryRequest)
    → IsLockOrdered ys
    → IsLockOrdered (insert_by_key x ys)
unfolding insert_by_key
insert_by_key-IsLockOrdered x [] s = (tt, tt)
insert_by_key-IsLockOrdered x (y ∷ ys) s = elim (Bool-cases (key_leb x y)) [
  | inl p ↦
      let le = key_leb-le x y p in rw p ((le, All-weaken x.account_id y.account_id ys le s.0), s)
  | inr p ↦ rw p (
    All-insert_by_key y.account_id x ys (key_leb-ge x y p) s.0,
    insert_by_key-IsLockOrdered x ys s.1,
  )
]

sort_by_key-IsLockOrdered : (es : List EntryRequest) → IsLockOrdered (sort_by_key es)
unfolding sort_by_key
sort_by_key-IsLockOrdered [] = tt
sort_by_key-IsLockOrdered (e ∷ es) =
    insert_by_key-IsLockOrdered e (sort_by_key es) (sort_by_key-IsLockOrdered es)

-- A measure of entries that is added up over a list.
module _ (f : EntryRequest → ℤ) where
  abbrev pub sum_by : List EntryRequest → ℤ
  sum_by [] = pos 0
  sum_by (e ∷ es) = f e +ℤ sum_by es

  insert_sum :
      (x : EntryRequest) (ys : List EntryRequest) → sum_by (insert_by_key x ys) ≡ f x +ℤ sum_by ys
  unfolding insert_by_key
  insert_sum x [] = refl
  insert_sum x (y ∷ ys) = elim (Bool-cases (key_leb x y)) [
    | inl p ↦ rw p refl
    | inr p ↦ rw (p, insert_sum x ys) (swap (f y) (f x) (sum_by ys))
  ]
    where
      swap : (a b c : ℤ) → a +ℤ (b +ℤ c) ≡ b +ℤ (a +ℤ c)
      swap a b c = rw (← +ℤ_assoc a b c, +ℤ_comm a b) (+ℤ_assoc b a c)

  sort_sum : (es : List EntryRequest) → sum_by (sort_by_key es) ≡ sum_by es
  unfolding sort_by_key
  sort_sum [] = refl
  sort_sum (e ∷ es) = rw (insert_sum e (sort_by_key es), sort_sum es) refl

-- The entries of a posting are inserted in the order of their accounts, so that two postings lock
-- the rows they share in the same order; and sorting keeps whatever is summed over the entries.
pub ordered_entries-IsLockOrdered :
    (p : Posting)
    → IsLockOrdered (ordered_entries p)
      × ((f : EntryRequest → ℤ) → sum_by f (ordered_entries p) ≡ sum_by f p.entries)
unfolding ordered_entries
ordered_entries-IsLockOrdered p = (sort_by_key-IsLockOrdered p.entries, λ f. sort_sum f p.entries)

insert_length :
    (x : EntryRequest) (ys : List EntryRequest) → length (insert_by_key x ys) ≡ length ys + 1
unfolding insert_by_key
insert_length x [] = refl
insert_length x (y ∷ ys) = elim (Bool-cases (key_leb x y)) [
  | inl p ↦ rw p (omega arith)
  | inr p ↦ rw p (omega (arith, insert_length x ys))
]

sort_length : (es : List EntryRequest) → length (sort_by_key es) ≡ length es
unfolding sort_by_key
sort_length [] = refl
sort_length (e ∷ es) = omega (arith, insert_length e (sort_by_key es), sort_length es)

pub length-ordered_entries : (p : Posting) → length (ordered_entries p) ≡ length p.entries
unfolding ordered_entries
length-ordered_entries p = sort_length p.entries

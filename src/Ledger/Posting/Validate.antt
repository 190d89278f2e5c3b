-- ===== src/Ledger/Posting/Validate.antt =====
-- `Posting::validate` against the sums of debits and credits.
use chain_rail.Base.{
  ◌+◌, ◌^◌, ◌≤◌, ◌<◌, ◌≡◌, refl, ◌∙◌, ap, true, false, List, [], ◌∷◌, ℤ, pos, ◌+ℤ◌, ◌*ℤ◌, All, all,
  length, arith, inl, inr, +ℤ_assoc, +ℤ_zero, zero_+ℤ, size, size-+ℤ, ltb, int_laws,
}
use chain_rail.Common.Result.{Result, ok, err, and_then, Result-cases}
use chain_rail.Common.Money.{Amount, Direction, sign, is_positive, add_signed}
use chain_rail.Common.Money.Balance.{
  net_of, net_of-total, total, total-cons, add_signed_value, add_signed_small, size-signed,
}
use chain_rail.Ledger.Posting.{
  EntryRequest, Posting, net, net_from, validate, check_net, is_bad_key,
}

-- The entries as pairs of a direction and an amount.
abbrev pub legs : List EntryRequest → List (Direction × Amount)
legs [] = []
legs (e ∷ es) = (e.direction, e.amount) ∷ legs es

net_from_value :
    (es : List EntryRequest) (n : ℤ) {r : ℤ} → net_from n es ≡ ok r → r ≡ n +ℤ net_of (legs es)
unfolding net_from
net_from_value [] n {r} h = grind int_laws
net_from_value (e ∷ es) n {r} h = elim (Result-cases (add_signed n e.direction e.amount)) [
  | inl (n', q) ↦
      net_from_value es n' (rw q at h)
      ∙ (rw (add_signed_value n e.direction e.amount q) (+ℤ_assoc n _ _))
  | inr (x, q) ↦ absurd (cc (rw q at h))
]

pub net_value : (p : Posting) {r : ℤ} → net p ≡ ok r → r ≡ net_of (legs p.entries)
unfolding net
net_value p h = net_from_value p.entries (pos 0) h ∙ zero_+ℤ _

-- Positive amounts that sum below 2^127 have a net, in any order.
net_from_small :
    (es : List EntryRequest) (n : ℤ)
    → All (λ (e : Direction × Amount). is_positive e.1 ≡ true) (legs es)
    → size n + total Direction.debit (legs es) + total Direction.credit (legs es) < 2 ^ 127
    → net_from n es ≡ ok (n +ℤ net_of (legs es))
unfolding net_from
net_from_small [] n h lim = rw (+ℤ_zero n)
net_from_small (e ∷ es) n h lim =
    let split = total-cons e.direction e.amount (legs es) h.0 in
    let step = add_signed_small n e.direction e.amount (omega arith) in
    let grown = size-+ℤ n (sign e.direction *ℤ e.amount) in
    let same = size-signed e.direction e.amount in
    let rest = net_from_small es (n +ℤ sign e.direction *ℤ e.amount) h.1 (omega arith) in
    rw step (rest ∙ ap ok (+ℤ_assoc n _ _))

abbrev pub AllPositive : List EntryRequest → Type 0
AllPositive es = All (λ (e : Direction × Amount). is_positive e.1 ≡ true) (legs es)

all-AllPositive :
    (es : List EntryRequest)
    → all (λ (e : EntryRequest). is_positive e.amount) es ≡ true
    → AllPositive es
all-AllPositive [] h = tt
all-AllPositive (e ∷ es) h = ground (arith, all-AllPositive es)

AllPositive-all :
    (es : List EntryRequest)
    → AllPositive es
    → all (λ (e : EntryRequest). is_positive e.amount) es ≡ true
AllPositive-all [] h = refl
AllPositive-all (e ∷ es) h = rw h.0 (AllPositive-all es h.1)

-- What `validate` has tested when it accepts.
record IsChecked (p : Posting) : Type 0 where
  good_key : is_bad_key p.idempotency_key ≡ false
  two_entries : 2 ≤ length p.entries
  all_positive : all (λ (e : EntryRequest). is_positive e.amount) p.entries ≡ true
  zero_net : net p ≡ ok (pos 0)

check_net_zero : (n : ℤ) → check_net n ≡ ok tt → n ≡ pos 0
unfolding check_net
check_net_zero n h = ground arith

net_checked : (r : Result ℤ) → and_then r check_net ≡ ok tt → r ≡ ok (pos 0)
net_checked (ok n) h = ap ok (check_net_zero n h)
net_checked (err e) h = cc

validate-IsChecked : (p : Posting) → validate p ≡ ok tt → IsChecked p
unfolding validate
validate-IsChecked p h =
    let k : is_bad_key p.idempotency_key ≡ false = ground arith in
    let l : ltb (length p.entries) 2 ≡ false = ground arith in
    let a : all (λ (e : EntryRequest). is_positive e.amount) p.entries ≡ true = ground arith in
    record {
      good_key = k;
      two_entries = ground arith;
      all_positive = a;
      zero_net = net_checked (net p) (rw (k, l, a) at h);
    }

-- A posting that `validate` accepts has a usable key, two entries at least, only positive amounts,
-- and debits that sum to what the credits sum to.
pub validate_sound :
    (p : Posting)
    → validate p ≡ ok tt
    → (is_bad_key p.idempotency_key ≡ false)
      × (2 ≤ length p.entries)
      × AllPositive p.entries
      × (total Direction.debit (legs p.entries) ≡ total Direction.credit (legs p.entries))
validate_sound p h =
    let c = validate-IsChecked p h in
    let positive = all-AllPositive p.entries c.all_positive in
    (
      c.good_key,
      c.two_entries,
      positive,
      ground (arith, net_of-total (legs p.entries) positive, net_value p c.zero_net),
    )

net_zero :
    (p : Posting)
    → AllPositive p.entries
    → total Direction.debit (legs p.entries) ≡ total Direction.credit (legs p.entries)
    → total Direction.debit (legs p.entries) < 2 ^ 126
    → net p ≡ ok (pos 0)
unfolding net
net_zero p a b lim =
    net_from_small p.entries (pos 0) a (omega arith)
    ∙ ap ok (grind (int_laws, net_of-total (legs p.entries) a, zero_+ℤ (net_of (legs p.entries))))

-- Every posting with a usable key, two entries at least, positive amounts and equal sums below
-- 2^126 is accepted, whatever the order of its entries.
pub validate_complete :
    (p : Posting)
    → is_bad_key p.idempotency_key ≡ false
    → 2 ≤ length p.entries
    → AllPositive p.entries
    → total Direction.debit (legs p.entries) ≡ total Direction.credit (legs p.entries)
    → total Direction.debit (legs p.entries) < 2 ^ 126
    → validate p ≡ ok tt
unfolding validate check_net
validate_complete p k l a b lim =
    let long : ltb (length p.entries) 2 ≡ false = ground arith in
    rw (k, long, AllPositive-all p.entries a, net_zero p a b lim) refl

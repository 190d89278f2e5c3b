-- ===== src/Common/Money/Balance.antt =====
-- `entries_balance` (crates/common/src/money.rs) against the sums of debits and of credits.
use chain_rail.Base.{
  size-neg, size, size-+ℤ, ◌==◌, ap, ◌∙◌, +ℤ_assoc, zero_+ℤ, +ℤ_zero, -ℤ◌, if◌then◌else◌, ℕ, ◌^◌,
  ◌+◌, ◌<◌, ◌≡◌, refl, Bool, true, List, [], ◌∷◌, ℤ, pos, negsuc, pos_part, neg_part, ◌+ℤ◌, ◌*ℤ◌,
  All, Bool-cases, inl, inr, arith, int_laws,
}
use chain_rail.Common.Result.{ok, Result-cases}
use chain_rail.Common.Money.{
  same_direction, Amount, Direction, sign, fits_i128, is_positive, is_zero, add_signed,
  entries_balance, balance_from, checked_add,
}

-- The exact sum of the signed entries, debits positive.
abbrev pub net_of : List (Direction × Amount) → ℤ
net_of [] = pos 0
net_of ((d, a) ∷ es) = sign d *ℤ a +ℤ net_of es

-- The sums of the amounts on each side, as numbers.
abbrev pub total : Direction → List (Direction × Amount) → ℕ
total d [] = 0
total Direction.debit ((Direction.debit, a) ∷ es) = pos_part a + total Direction.debit es
total Direction.debit ((Direction.credit, a) ∷ es) = total Direction.debit es
total Direction.credit ((Direction.debit, a) ∷ es) = total Direction.credit es
total Direction.credit ((Direction.credit, a) ∷ es) = pos_part a + total Direction.credit es

pub add_signed_value :
    (net : ℤ) (d : Direction) (a : Amount) {r : ℤ}
    → add_signed net d a ≡ ok r
    → r ≡ net +ℤ sign d *ℤ a
unfolding checked_add
add_signed_value net d a h = ground arith

pub add_signed_fits :
    (net : ℤ) (d : Direction) (a : Amount)
    → fits_i128 (sign d *ℤ a) ≡ true
    → fits_i128 (net +ℤ sign d *ℤ a) ≡ true
    → add_signed net d a ≡ ok (net +ℤ sign d *ℤ a)
unfolding checked_add
add_signed_fits net d a f g = ground arith

pub one_times : (a : ℤ) → pos 1 *ℤ a ≡ a
unfolding ◌*ℤ◌
one_times a = ground arith

pub minus_one_times : (a : ℤ) → negsuc 0 *ℤ a ≡ -ℤ◌ a
unfolding ◌*ℤ◌ -ℤ◌
minus_one_times a = ground arith

-- The signed contribution of an entry, through its parts.
pub signed_parts :
    (d : Direction) (a : ℤ)
    → pos_part (sign d *ℤ a) + (if same_direction d Direction.debit then neg_part a else pos_part a)
      ≡ neg_part (sign d *ℤ a)
        + (if same_direction d Direction.debit then pos_part a else neg_part a)
signed_parts Direction.debit a = rw (one_times a) (omega arith)
signed_parts Direction.credit a = rw (minus_one_times a) (omega int_laws)

pub net_of-total :
    (es : List (Direction × Amount))
    → All (λ (e : Direction × Amount). is_positive e.1 ≡ true) es
    → pos_part (net_of es) + total Direction.credit es
      ≡ neg_part (net_of es) + total Direction.debit es
net_of-total [] h = refl
net_of-total ((Direction.debit, a) ∷ es) h =
    grind (int_laws, net_of-total es h.1, signed_parts Direction.debit a)
net_of-total ((Direction.credit, a) ∷ es) h =
    grind (int_laws, net_of-total es h.1, signed_parts Direction.credit a)

regroup :
    (net' net : ℤ) (d : Direction) (a : Amount) (es : List (Direction × Amount))
    → net' ≡ net +ℤ sign d *ℤ a
    → is_zero (net' +ℤ net_of es) ≡ is_zero (net +ℤ net_of ((d, a) ∷ es))
regroup net' net d a es e = rw (e, +ℤ_assoc net (sign d *ℤ a) (net_of es))

balance_from_lem :
    (es : List (Direction × Amount)) (net : ℤ) {b : Bool}
    → balance_from net es ≡ ok b
    → All (λ (e : Direction × Amount). is_positive e.1 ≡ true) es × (b ≡ is_zero (net +ℤ net_of es))
unfolding balance_from
balance_from_lem [] net {b} h = (tt, grind int_laws)
balance_from_lem ((d, a) ∷ es) net {b} h = elim (Bool-cases (is_positive a)) [
  | inl p ↦ elim (Result-cases (add_signed net d a)) [
    | inl (net', e) ↦
        let ih = balance_from_lem es net' (rw (p, e) at h) in
        ((p, ih.0), ih.1 ∙ regroup net' net d a es (add_signed_value net d a e))
    | inr (x, e) ↦ absurd (cc (rw (p, e) at h))
  ]
  | inr p ↦ absurd (cc (rw p at h))
]

-- If `entries_balance` answers, every amount was positive, and the answer is true exactly when the
-- debits sum to what the credits sum to.
pub entries_balance_sound :
    (es : List (Direction × Amount)) {b : Bool}
    → entries_balance es ≡ ok b
    → All (λ (e : Direction × Amount). is_positive e.1 ≡ true) es
      × (b ≡ (total Direction.debit es == total Direction.credit es))
unfolding entries_balance
entries_balance_sound es h =
    let r = balance_from_lem es (pos 0) h in
    (r.0, r.1 ∙ ground (arith, net_of-total es r.0, zero_+ℤ (net_of es)))

fits_small : (x : ℤ) → size x < 2 ^ 127 → fits_i128 x ≡ true
fits_small x h = ground arith

pub size-signed : (d : Direction) (a : ℤ) → size (sign d *ℤ a) ≡ size a
size-signed Direction.debit a = rw (one_times a)
size-signed Direction.credit a = rw (minus_one_times a) (size-neg a)

-- Below the bound a step neither overflows nor grows the net by more than the amount.
pub add_signed_small :
    (net : ℤ) (d : Direction) (a : Amount)
    → size net + size a < 2 ^ 127
    → add_signed net d a ≡ ok (net +ℤ sign d *ℤ a)
add_signed_small net d a h =
    let b = size-+ℤ net (sign d *ℤ a) in
    let c = size-signed d a in
    add_signed_fits net d a (fits_small (sign d *ℤ a) (omega arith))
      (fits_small (net +ℤ sign d *ℤ a) (omega arith))

pub total-cons :
    (d : Direction) (a : Amount) (es : List (Direction × Amount))
    → is_positive a ≡ true
    → total Direction.debit ((d, a) ∷ es) + total Direction.credit ((d, a) ∷ es)
      ≡ size a + total Direction.debit es + total Direction.credit es
total-cons Direction.debit a es h = ground arith
total-cons Direction.credit a es h = ground arith

balance_from-total :
    (es : List (Direction × Amount)) (net : ℤ)
    → All (λ (e : Direction × Amount). is_positive e.1 ≡ true) es
    → size net + total Direction.debit es + total Direction.credit es < 2 ^ 127
    → balance_from net es ≡ ok (is_zero (net +ℤ net_of es))
unfolding balance_from
balance_from-total [] net h lim = rw (+ℤ_zero net)
balance_from-total ((d, a) ∷ es) net h lim =
    let split = total-cons d a es h.0 in
    let step = add_signed_small net d a (omega arith) in
    let grown = size-+ℤ net (sign d *ℤ a) in
    let same = size-signed d a in
    let rest = balance_from-total es (net +ℤ sign d *ℤ a) h.1 (omega arith) in
    rw (h.0, step) (rest ∙ ap ok (regroup _ net d a es refl))

-- Where every amount is positive and all together stay below 2^127, no order of the entries can
-- overflow: `entries_balance` answers, and truly whether debits equal credits.
pub entries_balance-total :
    (es : List (Direction × Amount))
    → All (λ (e : Direction × Amount). is_positive e.1 ≡ true) es
    → total Direction.debit es + total Direction.credit es < 2 ^ 127
    → entries_balance es ≡ ok (total Direction.debit es == total Direction.credit es)
unfolding entries_balance
entries_balance-total es h lim =
    balance_from-total es (pos 0) h (omega arith)
    ∙ ap ok (ground (arith, net_of-total es h, zero_+ℤ (net_of es)))

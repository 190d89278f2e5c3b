-- ===== src/Withdrawals/Nonce/Increasing.antt =====
-- No nonce is given out twice: crates/database/src/repo/withdrawals.rs.
use chain_rail.Base.{
  ℕ, ◌^◌, ◌<◌, ◌≡◌, subst, List, [], ◌∷◌, Text, text_eq_refl, if◌then◌else◌, ℤ, pos, negsuc,
  pos_part, ◌+ℤ◌, ◌≤ℤ◌, Bool-cases, inl, inr, arith, int_laws,
}
use chain_rail.Common.Result.{ok, err, Result-cases}
use chain_rail.Withdrawals.Nonce.{
  NonceRow, is_key, as_i64, fits_i64, greatest, next_of, upsert, may_insert, allocate_nonce,
}

-- An allocation that is asked for: chain, address and the nonce that the chain reports.
abbrev pub Request : Type 0
Request = Text × Text × ℕ

-- The rows after allocations, of which a refused one leaves them.
abbrev pub allocate_all : List Request → List NonceRow → List NonceRow
allocate_all [] rows = rows
allocate_all ((c, a, h) ∷ rs) rows = elim (allocate_nonce c a h rows) [
  | ok (n, rows') ↦ allocate_all rs rows'
  | err e ↦ allocate_all rs rows
]

-- The row of a key is there, with a next nonce of at least `k`.
abbrev pub AtLeast : ℤ → Text → Text → List NonceRow → Type 0
AtLeast k c a [] = ⊥
AtLeast k c a (r ∷ rows) = if is_key c a r then k ≤ℤ r.next_nonce else AtLeast k c a rows

greatest_left : (a b k : ℤ) → k ≤ℤ a → k ≤ℤ greatest a b +ℤ pos 1
greatest_left a b k h = grind int_laws

AtLeast-upsert :
    (k : ℤ) (c a c' a' : Text) (z : ℤ) (rows : List NonceRow)
    → AtLeast k c a rows
    → AtLeast k c a (upsert c' a' z rows)
AtLeast-upsert k c a c' a' z [] h = absurd h
AtLeast-upsert k c a c' a' z (r ∷ rows) h = elim (Bool-cases (is_key c a r)) [
  | inl p ↦ elim (Bool-cases (is_key c' a' r)) [
    | inl q ↦ rw (q, p) (greatest_left r.next_nonce z k (rw p at h))
    | inr q ↦ rw (q, p) (rw p at h)
  ]
  | inr p ↦ elim (Bool-cases (is_key c' a' r)) [
    | inl q ↦ rw (q, p) (rw p at h)
    | inr q ↦ rw (q, p) (AtLeast-upsert k c a c' a' z rows (rw p at h))
  ]
]

le_refl : (a : ℤ) → a ≤ℤ a
le_refl a = omega arith

-- The statement leaves the row of its key with the nonce that it returns.
AtLeast-next_of :
    (c a : Text) (z : ℤ) (rows : List NonceRow)
    → AtLeast (next_of c a z rows) c a (upsert c a z rows)
AtLeast-next_of c a z [] = rw (text_eq_refl c, text_eq_refl a) (le_refl (z +ℤ pos 1))
AtLeast-next_of c a z (r ∷ rows) = elim (Bool-cases (is_key c a r)) [
  | inl p ↦ rw (p, p) (le_refl (greatest r.next_nonce z +ℤ pos 1))
  | inr p ↦ rw (p, p) (AtLeast-next_of c a z rows)
]

above : (k a b : ℤ) → k ≤ℤ a → k +ℤ pos 1 ≤ℤ greatest a b +ℤ pos 1
above k a b h = grind int_laws

next_of-above :
    (k : ℤ) (c a : Text) (z : ℤ) (rows : List NonceRow)
    → AtLeast k c a rows
    → k +ℤ pos 1 ≤ℤ next_of c a z rows
next_of-above k c a z [] h = absurd h
next_of-above k c a z (r ∷ rows) h = elim (Bool-cases (is_key c a r)) [
  | inl p ↦ rw p (above k r.next_nonce z (rw p at h))
  | inr p ↦ rw p (next_of-above k c a z rows (rw p at h))
]

over_hint : (a z : ℤ) → z +ℤ pos 1 ≤ℤ greatest a z +ℤ pos 1
over_hint a z = grind int_laws

next_of-hint : (c a : Text) (z : ℤ) (rows : List NonceRow) → z +ℤ pos 1 ≤ℤ next_of c a z rows
next_of-hint c a z [] = le_refl (z +ℤ pos 1)
next_of-hint c a z (r ∷ rows) = elim (Bool-cases (is_key c a r)) [
  | inl p ↦ rw p (over_hint r.next_nonce z)
  | inr p ↦ rw p (next_of-hint c a z rows)
]

-- What an allocation that answers has done.
allocated :
    (c a : Text) (h n : ℕ) (rows rows' : List NonceRow)
    → allocate_nonce c a h rows ≡ ok (n, rows')
    → (n ≡ pos_part (next_of c a (as_i64 h) rows +ℤ negsuc 0))
      × (rows' ≡ upsert c a (as_i64 h) rows)
unfolding allocate_nonce
allocated c a h n rows rows' e = elim (Bool-cases (fits_i64 (next_of c a (as_i64 h) rows))) [
  | inr p ↦ absurd (cc (rw p at e))
  | inl p ↦ elim (Bool-cases (may_insert a (as_i64 h))) [
    | inl m ↦ let q = rw (p, m) at e in (cc, cc)
    | inr m ↦ absurd (cc (rw (p, m) at e))
  ]
]

AtLeast-allocate_all :
    (k : ℤ) (c a : Text) (rs : List Request) (rows : List NonceRow)
    → AtLeast k c a rows
    → AtLeast k c a (allocate_all rs rows)
AtLeast-allocate_all k c a [] rows h = h
AtLeast-allocate_all k c a ((c', a', z) ∷ rs) rows h =
    elim (Result-cases (allocate_nonce c' a' z rows)) [
      | inl ((n, rows'), e) ↦
          rw (allocate_all, e)
            (AtLeast-allocate_all k c a rs rows' (
              rw (allocated c' a' z n rows rows' e).1
                (AtLeast-upsert k c a c' a' (as_i64 z) rows h)))
      | inr (x, e) ↦ rw (allocate_all, e) (AtLeast-allocate_all k c a rs rows h)
    ]

order_lem :
    (v v' : ℤ) (h : ℕ)
    → pos h +ℤ pos 1 ≤ℤ v
    → v +ℤ pos 1 ≤ℤ v'
    → pos_part (v +ℤ negsuc 0) < pos_part (v' +ℤ negsuc 0)
unfolding ◌+ℤ◌
order_lem v v' h p q = ground arith

-- No nonce of an address on a chain is given out twice: after an allocation, and after any other
-- allocations for any addresses, the next allocation for the same address gives a greater nonce,
-- whatever nonce the chain reports then; where the first reported nonce is below 2^63.
pub allocate_nonce_increasing :
    (c a : Text) (h h' n n' : ℕ) (rs : List Request) (rows rows1 rows2 : List NonceRow)
    → allocate_nonce c a h rows ≡ ok (n, rows1)
    → allocate_nonce c a h' (allocate_all rs rows1) ≡ ok (n', rows2)
    → h < 2 ^ 63
    → n < n'
allocate_nonce_increasing c a h h' n n' rs rows rows1 rows2 e e' lim =
    let first = allocated c a h n rows rows1 e in
    let second = allocated c a h' n' (allocate_all rs rows1) rows2 e' in
    let small : as_i64 h ≡ pos h = ground arith in
    let v = next_of c a (as_i64 h) rows in
    let there : AtLeast v c a (allocate_all rs rows1) =
      AtLeast-allocate_all v c a rs rows1 (rw first.1 (AtLeast-next_of c a (as_i64 h) rows)) in
    let low = next_of-hint c a (as_i64 h) rows in
    rw (first.0, second.0)
      (order_lem v (next_of c a (as_i64 h') (allocate_all rs rows1)) h
        (subst (λ y. y +ℤ pos 1 ≤ℤ next_of c a (as_i64 h) rows) small low)
        (next_of-above v c a (as_i64 h') (allocate_all rs rows1) there))

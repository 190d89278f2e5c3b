-- ===== src/Withdrawals/Update.antt =====
-- An UPDATE of a withdrawal, under the trigger and the constraints of the table.
use chain_rail.Base.{
  ℕ, ◌≡◌, ◌⊎◌, ◌∙◌, refl, sym, subst, Bool, true, false, List, [], ◌∷◌, some, ◌==◌, if◌then◌else◌,
  Bool-cases, Option-cases, inl, inr, ==_iff, ==-refl,
}
use chain_rail.Common.Result.{Result, ok, Result-cases}
use chain_rail.Models.Withdrawal.{WithdrawalStatus, guard_transition, as_str}
use chain_rail.Models.Withdrawal
use chain_rail.Models.Machines.{here, next, can_transition_to-guard_transition}
use chain_rail.Withdrawals.Rows.{
  Withdrawal, Store, find_withdrawal, set_row, is_consistent, check_row, write_found, update_where,
}
use chain_rail.Withdrawals.Advance.{
  Follows, Follows-refl, IsAdvanced, IsAdvanced-trans, IsKept-refl, Advances,
}

-- What an accepted new version of a row has passed.
pub check_row-ok :
    (old new w : Withdrawal)
    → check_row old new ≡ ok w
    → (w ≡ new)
      × (Withdrawal.can_transition_to old.status new.status ≡ true)
      × (is_consistent new ≡ true)
unfolding check_row
check_row-ok old new w h =
    elim (Bool-cases (guard_transition (as_str old.status) (as_str new.status))) [
      | inr p ↦ absurd (cc (rw p at h))
      | inl p ↦ elim (Bool-cases (is_consistent new)) [
        | inr q ↦ absurd (cc (rw (p, q) at h))
        | inl q ↦
            let same : ◌≡◌ {A = Result Withdrawal} (ok new) (ok w) = rw (p, q) at h in
            (cc, can_transition_to-guard_transition old.status new.status ∙ p, q)
      ]
    ]

pub find_withdrawal-id :
    (i : ℕ) (ws : List Withdrawal) (w : Withdrawal) → find_withdrawal i ws ≡ some w → w.id ≡ i
find_withdrawal-id i [] w h = absurd (cc h)
find_withdrawal-id i (v ∷ vs) w h = elim (Bool-cases (v.id == i)) [
  | inl r ↦ let same : v ≡ w = cc (rw r at h) in rw (← same) ((==_iff v.id i).0 r)
  | inr r ↦ find_withdrawal-id i vs w (rw r at h)
]

-- Two tests of identifiers, in either order.
if_same :
    {A : Type 0} (a b i j : ℕ) (x y z : A)
    → a ≡ i
    → b ≡ i
    → (if a == j then x else y) ≡ (if i == j then x else (if b == j then z else y))
if_same a b i j x y z p q = rw (p, q) (again (i == j))
  where
    again : (t : Bool) → (if t then x else y) ≡ (if t then x else (if t then z else y))
    again true = refl
    again false = refl

if_other :
    {A : Type 0} (b i j : ℕ) (x y z : A)
    → (b == i) ≡ false
    → (if b == j then z else (if i == j then x else y))
      ≡ (if i == j then x else (if b == j then z else y))
if_other b i j x y z h = elim (Bool-cases (b == j)) [
  | inr p ↦ rw p refl
  | inl p ↦ elim (Bool-cases (i == j)) [
    | inr q ↦ rw (p, q) refl
    | inl q ↦
        let same : b ≡ i = (==_iff b j).0 p ∙ sym ((==_iff i j).0 q) in
        let t : (b == i) ≡ true = rw same (==-refl i) in absurd (cc)
  ]
]

-- The rows after one of them is replaced.
pub find_withdrawal-set_row :
    (i j : ℕ) (new w : Withdrawal) (ws : List Withdrawal)
    → find_withdrawal i ws ≡ some w
    → new.id ≡ i
    → find_withdrawal j (set_row i new ws) ≡ (if i == j then some new else find_withdrawal j ws)
find_withdrawal-set_row i j new w [] h e = absurd (cc h)
find_withdrawal-set_row i j new w (v ∷ vs) h e = elim (Bool-cases (v.id == i)) [
  | inl r ↦
      rw r
        (if_same new.id v.id i j (some new) (find_withdrawal j vs) (some v) e ((==_iff v.id i).0 r))
  | inr r ↦
      rw (r, find_withdrawal-set_row i j new w vs (rw r at h) e)
        (if_other v.id i j (some new) (find_withdrawal j vs) (some v) r)
]

-- The columns that say what a withdrawal is about.
abbrev pub SameTerms : Withdrawal → Withdrawal → Type 0
SameTerms w w' =
    (w'.id ≡ w.id)
    × (w'.user_id ≡ w.user_id)
    × (w'.asset_id ≡ w.asset_id)
    × (w'.chain ≡ w.chain)
    × (w'.destination_address ≡ w.destination_address)
    × (w'.amount_raw ≡ w.amount_raw)
    × (w'.idempotency_key ≡ w.idempotency_key)

abbrev pub replaced : ℕ → Withdrawal → Store → Store
replaced i new s = record s { withdrawals = set_row i new s.withdrawals }

-- An UPDATE that answers true wrote an accepted version of the row; one that answers false found no row
-- that passes its test, and wrote nothing.
pub update_where-cases :
    (i : ℕ) (p : Withdrawal → Bool) (f : Withdrawal → Withdrawal) (s s' : Store) (b : Bool)
    → update_where i p f s ≡ ok (b, s')
    → ((w : Withdrawal) × (find_withdrawal i s.withdrawals ≡ some w)
        × (p w ≡ true)
        × (b ≡ true)
        × (s' ≡ replaced i (f w) s)
        × (Withdrawal.can_transition_to w.status (f w).status ≡ true)
        × (is_consistent (f w) ≡ true))
      ⊎ ((b ≡ false)
          × (s' ≡ s)
          × ((w : Withdrawal) → find_withdrawal i s.withdrawals ≡ some w → p w ≡ false))
unfolding update_where write_found
update_where-cases i p f s s' b h = elim (Option-cases (find_withdrawal i s.withdrawals)) [
  | inl n ↦
      let pair : ◌≡◌ {A = Result (Bool × Store)} (ok (false, s)) (ok (b, s')) =
        rw (update_where, n) at h in
      inr (cc, cc, λ w e. cc)
  | inr (w, e) ↦ elim (Bool-cases (p w)) [
    | inr q ↦
        let pair : ◌≡◌ {A = Result (Bool × Store)} (ok (false, s)) (ok (b, s')) =
          rw (update_where, e, write_found, q) at h in
        inr (cc, cc, λ v g. let one : w ≡ v = cc in rw (← one) q)
    | inl q ↦ elim (Result-cases (check_row w (f w))) [
      | inr (x, c) ↦ absurd (cc (rw (update_where, e, write_found, q, c) at h))
      | inl (new, c) ↦
          let pair : ◌≡◌ {A = Result (Bool × Store)} (ok (true, replaced i new s)) (ok (b, s')) =
            rw (update_where, e, write_found, q, c) at h in
          let (same, moves, fine) = check_row-ok w (f w) new c in
          inl (w, e, q, cc, rw (← same) cc, moves, fine)
    ]
  ]
]

-- A row of the rows after a replacement was there before with the same user and key.
earlier_row :
    (i j : ℕ) (w new v : Withdrawal) (ws : List Withdrawal)
    → find_withdrawal i ws ≡ some w
    → Follows w new
    → find_withdrawal j (set_row i new ws) ≡ some v
    → (v' : Withdrawal) × (find_withdrawal j ws ≡ some v')
      × (v'.user_id ≡ v.user_id)
      × (v'.idempotency_key ≡ v.idempotency_key)
earlier_row i j w new v ws e f g =
    let own : new.id ≡ i = f.same_id ∙ find_withdrawal-id i ws w e in
    let look = sym (find_withdrawal-set_row i j new w ws e own) ∙ g in
    elim (Bool-cases (i == j)) [
      | inl q ↦
          let same : i ≡ j = (==_iff i j).0 q in
          let found : some new ≡ some v =
            subst (λ b. (if b then some new else find_withdrawal j ws) ≡ some v) q look in
          let one : new ≡ v = cc in
          (
            w,
            subst (λ k. find_withdrawal k ws ≡ some w) same e,
            rw (← one) (sym f.same_user),
            rw (← one) (sym f.same_key),
          )
      | inr q ↦ (
        v,
        subst (λ b. (if b then some new else find_withdrawal j ws) ≡ some v) q look,
        refl,
        refl,
      )
    ]

-- A replaced row in the place of one that it follows.
replaced-IsAdvanced :
    (i : ℕ) (w new : Withdrawal) (s : Store)
    → find_withdrawal i s.withdrawals ≡ some w
    → Follows w new
    → is_consistent new ≡ true
    → IsAdvanced s (replaced i new s)
replaced-IsAdvanced i w new s e f c =
    let own : new.id ≡ i = f.same_id ∙ find_withdrawal-id i s.withdrawals w e in
    let look = λ (j : ℕ). find_withdrawal-set_row i j new w s.withdrawals e own in
    record {
      ledger = IsKept-refl s.ledger;
      rows = λ j v g. elim (Bool-cases (i == j)) [
        | inl q ↦
            let same : i ≡ j = (==_iff i j).0 q in
            let there : find_withdrawal i s.withdrawals ≡ some v = rw same g in
            let one : w ≡ v = cc in (new, look j ∙ rw q refl, rw (← one) f)
        | inr q ↦ (v, look j ∙ rw q g, Follows-refl v)
      ];
      consistent = λ all j v g. elim (Bool-cases (i == j)) [
        | inl q ↦
            let found : some new ≡ some v =
              subst (λ b. (if b then some new else find_withdrawal j s.withdrawals) ≡ some v) q
                (sym (look j) ∙ g) in
            let one : new ≡ v = cc in rw (← one) c
        | inr q ↦ all j v (
            subst (λ b. (if b then some new else find_withdrawal j s.withdrawals) ≡ some v) q
              (sym (look j) ∙ g))
      ];
      unique = λ u j k v x g h user key.
          let (v', there, user_v, key_v) = earlier_row i j w new v s.withdrawals e f g in
          let (x', there', user_x, key_x) = earlier_row i k w new x s.withdrawals e f h in
          u j k v' x' there there' (user_v ∙ user ∙ sym user_x) (key_v ∙ key ∙ sym key_x);
    }

pub update_where-Advances :
    {before : Store} (i : ℕ) (p : Withdrawal → Bool) (f : Withdrawal → Withdrawal)
    → ((w : Withdrawal) → SameTerms w (f w))
    → Advances before (update_where i p f)
update_where-Advances {before} i p f terms s b s' v h = elim (update_where-cases i p f s s' b h) [
  | inr (n, same, missed) ↦ rw same v
  | inl (w, e, q, t, same, moves, fine) ↦
      let (i', user, asset, chain, destination, amount, key) = terms w in
      let follows : Follows w (f w) = record {
        same_id = i';
        same_user = user;
        same_asset = asset;
        same_chain = chain;
        same_destination = destination;
        same_amount = amount;
        same_key = key;
        life = next here moves;
      } in
      rw same (
        IsAdvanced-trans before s (replaced i (f w) s) v
          (replaced-IsAdvanced i w (f w) s e follows fine))
]

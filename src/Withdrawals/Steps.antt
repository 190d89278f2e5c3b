-- ===== src/Withdrawals/Steps.antt =====
-- Steps of the pipeline that leave the tables advanced, put together.
use chain_rail.Base.{Bool, true, false, if◌then◌else◌, inl, inr}
use chain_rail.Common.Result.{Result, ok, err, M, Result-cases}
use chain_rail.Ledger.Tables.{commit}
use chain_rail.Withdrawals.Rows.{Store}
use chain_rail.Withdrawals.Service.{run, committed}
use chain_rail.Withdrawals.Chain.{SignedTransaction}
use chain_rail.Withdrawals.World.{
  World, P, resume, ◌>>=◌, pure, lift, attempt, transact, reads, next_call, hand_over,
}
use chain_rail.Withdrawals.Advance.{IsAdvanced, IsAdvanced-refl, IsAdvanced-trans}
use chain_rail.Withdrawals.Progress.{Progresses}

-- Steps that leave the tables advanced, on every path.
pub record Steps {A : Type 0} (m : P A) : Type 0 where
  pub advances : (w : World) → IsAdvanced w.store (m w).1.store

resume-IsAdvanced :
    {A B : Type 0} (s : Store) (r : Result A × World) (f : A → P B)
    → IsAdvanced s r.1.store
    → ((a : A) → Steps (f a))
    → IsAdvanced s (resume r f).1.store
resume-IsAdvanced s (ok a, w) f g h =
    IsAdvanced-trans s w.store (f a w).1.store g ((h a).advances w)
resume-IsAdvanced s (err e, w) f g h = g

pub Steps->>= :
    {A B : Type 0} {m : P A} {f : A → P B} → Steps m → ((a : A) → Steps (f a)) → Steps (m >>= f)
Steps->>= {A} {B} {m} {f} g h = record {
  advances = λ w. resume-IsAdvanced w.store (m w) f (g.advances w) h;
}

pub committed-IsAdvanced :
    {A : Type 0} (m : M Store A) (s : Store) → Progresses m → IsAdvanced s (run m s).1
committed-IsAdvanced m s h = elim (Result-cases (m s)) [
  | inr (e, p) ↦ rw (committed, p) (IsAdvanced-refl s)
  | inl ((a, s'), p) ↦ elim (Result-cases (commit s'.ledger)) [
    | inl (u, q) ↦ rw (committed, p, q) (h s a s' p)
    | inr (e, q) ↦ rw (committed, p, q) (IsAdvanced-refl s)
  ]
]

pub transact-Steps : {A : Type 0} {m : M Store A} → Progresses m → Steps (transact m)
transact-Steps {A} {m} h = record { advances = λ w. committed-IsAdvanced m w.store h }

pub Steps-pure : {A : Type 0} (a : A) → Steps (pure a)
Steps-pure a = record { advances = λ w. IsAdvanced-refl w.store }

pub Steps-lift : {A : Type 0} (r : Result A) → Steps (lift r)
Steps-lift r = record { advances = λ w. IsAdvanced-refl w.store }

pub Steps-reads : {A : Type 0} (f : Store → Result A) → Steps (reads f)
Steps-reads f = record { advances = λ w. IsAdvanced-refl w.store }

pub Steps-next_call : Steps next_call
Steps-next_call = record { advances = λ w. IsAdvanced-refl w.store }

pub Steps-hand_over : (tx : SignedTransaction) (r : Result (Unit {0})) → Steps (hand_over tx r)
Steps-hand_over tx r = record { advances = λ w. IsAdvanced-refl w.store }

pub Steps-attempt : {A : Type 0} {m : P A} → Steps m → Steps (attempt m)
Steps-attempt h = record { advances = λ w. h.advances w }

pub Steps-if : {A : Type 0} (b : Bool) {m n : P A} → Steps m → Steps n → Steps (if b then m else n)
Steps-if true g h = g
Steps-if false g h = h

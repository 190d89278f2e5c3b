-- ===== src/Withdrawals/World.antt =====
-- The steps of the pipeline between transactions: what was committed stays when a later step fails.
use chain_rail.Base.{ℕ, ◌+◌, List, ◌∷◌}
use chain_rail.Common.Result.{Result, ok, err, M}
use chain_rail.Withdrawals.Rows.{Store}
use chain_rail.Withdrawals.Service.{run}
use chain_rail.Withdrawals.Chain.{SignedTransaction}

-- The tables, the transactions that were handed to the network, the last first, and the number of
-- the next call of the node or the signer.
pub record World : Type 0 where
  pub store : Store
  pub sent : List SignedTransaction
  pub calls : ℕ

abbrev pub P : Type 0 → Type 0
P A = World → Result A × World

abbrev pub resume : {A B : Type 0} → Result A × World → (A → P B) → Result B × World
resume (ok a, w) f = f a w
resume (err e, w) f = (err e, w)

infixl 5 ◌>>=◌ ◌>>◌
abbrev pub ◌>>=◌ : {A B : Type 0} → P A → (A → P B) → P B
◌>>=◌ m f w = resume (m w) f

abbrev pub ◌>>◌ : {B : Type 0} → P (Unit {0}) → P B → P B
m >> k = m >>= λ _. k

abbrev pub pure : {A : Type 0} → A → P A
pure a w = (ok a, w)

abbrev pub lift : {A : Type 0} → Result A → P A
lift r w = (r, w)

-- An answer as a value, for a `match` on it.
abbrev pub attempt : {A : Type 0} → P A → P (Result A)
attempt m w = (ok (m w).0, (m w).1)

-- A transaction of the database, with its COMMIT.
abbrev pub in_store : {A : Type 0} → World → Result A × Store → Result A × World
in_store w (r, s) = (r, record w { store = s })

abbrev pub transact : {A : Type 0} → M Store A → P A
transact m w = in_store w (run m w.store)

-- A read outside a transaction.
abbrev pub reads : {A : Type 0} → (Store → Result A) → P A
reads f w = (f w.store, w)

-- The number of a call.
abbrev pub next_call : P ℕ
next_call w = (ok w.calls, record w { calls = w.calls + 1 })

-- What is handed to the network is out, whatever the node answers.
abbrev pub hand_over : SignedTransaction → Result (Unit {0}) → P (Unit {0})
hand_over tx r w = (r, record w { sent = tx ∷ w.sent })

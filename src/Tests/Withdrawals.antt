-- ===== src/Tests/Withdrawals.antt =====
-- Two allocations for one address with one for another between them.
use chain_rail.Base.{◌<◌, ◌≡◌, refl, List, [], ◌∷◌, codes, pos, ◌+ℤ◌, arith}
use chain_rail.Common.Result.{ok}
use chain_rail.Withdrawals.Nonce.{NonceRow, allocate_nonce, upsert}
use chain_rail.Withdrawals.Nonce.Increasing.{allocate_all, allocate_nonce_increasing}

abbrev rows : List NonceRow
rows = (record { chain = codes "c"; address = codes "a"; next_nonce = pos 7 }) ∷ []

abbrev later : List NonceRow
later =
    (record { chain = codes "c"; address = codes "a"; next_nonce = pos 8 })
    ∷ (record { chain = codes "c"; address = codes "b"; next_nonce = pos 1 })
    ∷ []

-- The chain reports 5, and later 2: the stored nonce wins.
first :
    allocate_nonce (codes "c") (codes "a") 5 rows
    ≡ ok (7, upsert (codes "c") (codes "a") (pos 5) rows)
unfolding allocate_nonce ◌+ℤ◌
first = refl

second :
    allocate_nonce
      (codes "c")
      (codes "a")
      2
      (allocate_all ((codes "c", codes "b", 0) ∷ []) (upsert (codes "c") (codes "a") (pos 5) rows))
    ≡ ok (8, upsert (codes "c") (codes "a") (pos 2) later)
unfolding allocate_nonce ◌+ℤ◌
second = refl

allocate_nonce_increasing_example : 7 < 8
allocate_nonce_increasing_example =
    allocate_nonce_increasing (codes "c") (codes "a") 5 2 7 8 ((codes "c", codes "b", 0) ∷ []) rows
      (upsert (codes "c") (codes "a") (pos 5) rows) (upsert (codes "c") (codes "a") (pos 2) later)
      first second (omega arith)

-- ===== src/Withdrawals/Creation.antt =====
-- The transaction of a request (crates/withdrawals/src/service.rs) loses no withdrawal and keeps the
-- ledger sound.
use chain_rail.Base.{arith}
use chain_rail.Base.{arith}
use chain_rail.Base.{arith}
use chain_rail.Base.{arith}
use chain_rail.Base.{arith}
use chain_rail.Base.{arith}
use chain_rail.Base.{arith}
use chain_rail.Base.{arith}
use chain_rail.Base.{arith}
use chain_rail.Base.{arith}
use chain_rail.Base.{arith}
use chain_rail.Base.{arith}
use chain_rail.Base.{arith}
use chain_rail.Base.{arith}
use chain_rail.Base.{arith}
use chain_rail.Base.{arith}
use chain_rail.Base.{arith}
use chain_rail.Base.{arith}
use chain_rail.Base.{arith}
use chain_rail.Base.{arith}
use chain_rail.Base.{arith}
use chain_rail.Base.{arith}
use chain_rail.Base.{arith}
use chain_rail.Base.{arith}
use chain_rail.Base.{arith}
use chain_rail.Base.{arith}
use chain_rail.Base.{arith}
use chain_rail.Base.{arith}
use chain_rail.Base.{arith}
use chain_rail.Base.{arith}
use chain_rail.Base.{arith}
use chain_rail.Base.{arith}
use chain_rail.Base.{arith}
use chain_rail.Base.{arith}
use chain_rail.Base.{arith}
use chain_rail.Base.{arith}
use chain_rail.Base.{arith}
use chain_rail.Base.{arith}
use chain_rail.Base.{arith}
use chain_rail.Base.{arith}
use chain_rail.Base.{arith}
use chain_rail.Base.{arith}
use chain_rail.Base.{arith}
use chain_rail.Base.{arith}
use chain_rail.Base.{arith}
use chain_rail.Base.{arith}
use chain_rail.Base.{arith}
use chain_rail.Base.{arith}
use chain_rail.Base.{arith}
use chain_rail.Base.{arith}
use chain_rail.Base.{arith}
use chain_rail.Base.{arith}
use chain_rail.Base.{arith}
use chain_rail.Base.{arith}
use chain_rail.Base.{arith}
use chain_rail.Base.{arith}
use chain_rail.Base.{arith}
use chain_rail.Base.{arith}
use chain_rail.Base.{arith}
use chain_rail.Base.{arith}
use chain_rail.Base.{
  ℕ, ◌+◌, ◌≡◌, refl, Bool, true, false, List, [], ◌∷◌, Option, none, some, Text, ◌==◌, text_eq,
  filter, length, Bool-cases, Option-cases, inl, inr, ==_iff, ==-refl, text_eq_refl, sym, ap, ◌∙◌,
  ◌&&◌,
}
use chain_rail.Common.Error.{Error}
use chain_rail.Common.Result.{Result, ok}
use chain_rail.Common.Money.{Amount, fits_i128}
use chain_rail.Common.Address.{Address, storage_key}
use chain_rail.Models.AccountType.{AccountType}
use chain_rail.Models.Asset.{Asset}
use chain_rail.Models.Withdrawal.{WithdrawalStatus}
use chain_rail.Risk.{RiskEngine, Decision, evaluate}
use chain_rail.Ledger.Tables.{draw}
use chain_rail.Ledger.Accounts.Quiet.{Quietly, user_balance-Quietly}
use chain_rail.Ledger.Service.{id}
use chain_rail.Ledger.Operations.Sound.{Quietly-Keeps, reserve_withdrawal-Keeps}
use chain_rail.Withdrawals.Rows.{Withdrawal, Store, find_withdrawal, is_consistent, owner_in}
use chain_rail.Withdrawals.Requests.{
  NewWithdrawal, CreateOutcome, row_of, has_row, add_row, compare_body, insert_or_compare,
  create_withdrawal, meets_constraints, find_key, sum_recent_withdrawals, counts, total,
}
use chain_rail.Withdrawals.Service.{
  WithdrawalRequest, Verdict, Checked, accept, approve_unless, decide, judge, request_transaction,
  risk_input,
}
use chain_rail.Withdrawals.Advance.{
  Follows-refl, IsAdvanced, IsAdvanced-trans, IsKept-refl, Advances, Advances->>=, Advances-pure,
  Advances-throw, Advances-gets, in_ledger-Advances, enqueue-Advances,
}
use chain_rail.Withdrawals.Progress.{
  transition-Advances, attach_reservation-Advances, mark_failed-Advances,
}

draw-Quietly : Quietly draw
draw-Quietly l i l' h =
    let same : record l { drawn = l.drawn + 1 } ≡ l' = cc in
    rw (← same) (record {
      same_accounts = λ j. refl;
      same_assets = λ y. refl;
      non_negative = λ n. n;
      same_entries = refl;
      same_transactions = refl;
    })

absent_row : (i : ℕ) (ws : List Withdrawal) → has_row i ws ≡ false → find_withdrawal i ws ≡ none
absent_row i [] h = refl
absent_row i (w ∷ ws) h = elim (Bool-cases (w.id == i)) [
  | inl p ↦ absurd (cc (rw p at h))
  | inr p ↦ rw p (absent_row i ws (rw p at h))
]

-- A row that has a key is found under it.
taken_key :
    (user : ℕ) (key : Text) (i : ℕ) (w : Withdrawal) (ws : List Withdrawal)
    → find_key user key ws ≡ none
    → find_withdrawal i ws ≡ some w
    → w.user_id ≡ user
    → w.idempotency_key ≡ key
    → ⊥
taken_key user key i w [] n e p q = cc
taken_key user key i w (v ∷ vs) n e p q =
    elim (Bool-cases (v.user_id == user && text_eq v.idempotency_key key)) [
      | inl t ↦ absurd (cc (rw t at n))
      | inr t ↦ elim (Bool-cases (v.id == i)) [
        | inr r ↦ taken_key user key i w vs (rw t at n) (rw r at e) p q
        | inl r ↦
            let same : v ≡ w = cc (rw r at e) in
            let met : v.user_id == user && text_eq v.idempotency_key key ≡ true =
              rw (same, p, q, ==-refl user) (text_eq_refl key) in
            absurd (cc)
      ]
    ]

row_of-is_consistent :
    (i now : ℕ) (new : NewWithdrawal)
    → meets_constraints new ≡ true
    → is_consistent (row_of i now new) ≡ true
unfolding is_consistent
row_of-is_consistent i now new h = ground arith

-- The tables with a new row.
added-IsAdvanced :
    (i now : ℕ) (new : NewWithdrawal) (s : Store)
    → meets_constraints new ≡ true
    → has_row i s.withdrawals ≡ false
    → find_key new.user_id new.idempotency_key s.withdrawals ≡ none
    → IsAdvanced s (record s { withdrawals = row_of i now new ∷ s.withdrawals })
added-IsAdvanced i now new s m n free = record {
  ledger = IsKept-refl s.ledger;
  rows = λ j w e. elim (Bool-cases (i == j)) [
    | inr p ↦ (w, rw p e, Follows-refl w)
    | inl p ↦
        let same : i ≡ j = (==_iff i j).0 p in
        let gone = absent_row i s.withdrawals n in
        let there : find_withdrawal i s.withdrawals ≡ some w = rw same e in absurd (cc)
  ];
  consistent = λ all j w e. elim (Bool-cases (i == j)) [
    | inr p ↦ all j w (rw p at e)
    | inl p ↦
        let same : row_of i now new ≡ w = cc (rw p at e) in
        rw (← same) (row_of-is_consistent i now new m)
  ];
  unique = λ u j k v w e f user key. elim (Bool-cases (i == j)) [
    | inl p ↦ elim (Bool-cases (i == k)) [
      | inl q ↦ sym ((==_iff i j).0 p) ∙ (==_iff i k).0 q
      | inr q ↦
          let same : row_of i now new ≡ v = cc (rw p at e) in
          absurd (
            taken_key new.user_id new.idempotency_key k w s.withdrawals free (rw q at f)
              (sym user ∙ ap (λ (z : Withdrawal). z.user_id) (sym same))
              (sym key ∙ ap (λ (z : Withdrawal). z.idempotency_key) (sym same)))
    ]
    | inr p ↦ elim (Bool-cases (i == k)) [
      | inr q ↦ u j k v w (rw p at e) (rw q at f) user key
      | inl q ↦
          let same : row_of i now new ≡ w = cc (rw q at f) in
          absurd (
            taken_key new.user_id new.idempotency_key j v s.withdrawals free (rw p at e)
              (user ∙ ap (λ (z : Withdrawal). z.user_id) (sym same))
              (key ∙ ap (λ (z : Withdrawal). z.idempotency_key) (sym same)))
    ]
  ];
}

module _ {before : Store} where
  add_row-Advances :
      (now : ℕ) (new : NewWithdrawal) (i : ℕ)
      → meets_constraints new ≡ true
      → Advances before (add_row now new i)
  unfolding add_row
  add_row-Advances now new i m s a s' v h = elim (Bool-cases (has_row i s.withdrawals)) [
    | inl p ↦ absurd (cc (rw (add_row, p) at h))
    | inr p ↦ elim (Option-cases (find_key new.user_id new.idempotency_key s.withdrawals)) [
      | inr (w, q) ↦ absurd (cc (rw (add_row, p, q) at h))
      | inl q ↦
          let next = record s { withdrawals = row_of i now new ∷ s.withdrawals } in
          let pair : ◌≡◌ {A = Result (CreateOutcome × Store)}
              (ok (CreateOutcome.created (row_of i now new), next)) (ok (a, s')) =
            rw (add_row, p, q) at h in
          let same : next ≡ s' = cc in
          rw (← same) (IsAdvanced-trans before s next v (added-IsAdvanced i now new s m p q))
    ]
  ]

  compare_body-Advances :
      (new : NewWithdrawal) (w : Withdrawal) → Advances before (compare_body new w)
  unfolding compare_body
  compare_body-Advances new w s a s' v h =
      elim (Bool-cases (text_eq w.request_fingerprint new.request_fingerprint)) [
        | inl p ↦ Advances-pure (CreateOutcome.existing w) s a s' v (rw (compare_body, p) at h)
        | inr p ↦
            Advances-throw {A = CreateOutcome} Error.idempotency_key_conflict s a s' v
              (rw (compare_body, p) at h)
      ]

  insert_or_compare-Advances :
      (now : ℕ) (new : NewWithdrawal) (o : Option Withdrawal)
      → meets_constraints new ≡ true
      → Advances before (insert_or_compare now new o)
  unfolding insert_or_compare
  insert_or_compare-Advances now new none m =
      Advances->>= (in_ledger-Advances draw (Quietly-Keeps draw draw-Quietly))
        (λ i. add_row-Advances now new i m)
  insert_or_compare-Advances now new (some w) m = compare_body-Advances new w

  create_withdrawal-Advances :
      (now : ℕ) (new : NewWithdrawal) → Advances before (create_withdrawal now new)
  unfolding create_withdrawal
  create_withdrawal-Advances now new s a s' v h = elim (Bool-cases (meets_constraints new)) [
    | inl p ↦
        insert_or_compare-Advances now new (find_key new.user_id new.idempotency_key s.withdrawals)
          p s a s' v (rw (create_withdrawal, p) at h)
    | inr p ↦
        Advances-throw {A = CreateOutcome} Error.validation s a s' v
          (rw (create_withdrawal, p) at h)
  ]

  sum_recent_withdrawals-Advances :
      (user asset now : ℕ) → Advances before (sum_recent_withdrawals user asset now)
  unfolding sum_recent_withdrawals
  sum_recent_withdrawals-Advances user asset now s a s' v h =
      let recent = filter (counts user asset now) s.withdrawals in
      elim (Bool-cases (fits_i128 (total recent))) [
        | inl p ↦
            Advances-pure (total recent, length recent) s a s' v
              (rw (sum_recent_withdrawals, p) at h)
        | inr p ↦
            Advances-throw {A = Amount × ℕ} Error.database s a s' v
              (rw (sum_recent_withdrawals, p) at h)
      ]

module _ {before : Store} (keccak256 : Text → List ℕ) (uuid_text : ℕ → Text)
    (uuid_v5 : Text → ℕ) where
  approve_unless-Advances :
      (held : Bool) (i : ℕ) → Advances before (approve_unless keccak256 uuid_text uuid_v5 held i)
  unfolding approve_unless
  approve_unless-Advances true i = Advances-pure tt
  approve_unless-Advances false i =
      Advances->>= (transition-Advances i WithdrawalStatus.validated WithdrawalStatus.approved)
        (λ _. Advances-pure tt)

  accept-Advances :
      (req : WithdrawalRequest) (asset : Asset) (d : Address) (c : Text) (held : Bool) (i : ℕ)
      → Advances before (accept keccak256 uuid_text uuid_v5 req asset d c held i)
  unfolding accept
  accept-Advances req asset d c held i =
      Advances->>= (transition-Advances i WithdrawalStatus.requested WithdrawalStatus.validated)
        (λ _.
          Advances->>=
            (in_ledger-Advances _
              (reserve_withdrawal-Keeps uuid_text i req.user_id asset.id req.amount (some c)))
            (λ r. Advances->>= (attach_reservation-Advances i (id r)) (λ _.
              Advances->>= (approve_unless-Advances held i) (λ _.
                Advances->>= (enqueue-Advances uuid_text _)
                  (λ _. Advances-pure (Verdict.accepted held i))))))

  decide-Advances :
      (req : WithdrawalRequest) (asset : Asset) (d : Address) (c : Text) (i : ℕ) (x : Decision)
      → Advances before (decide keccak256 uuid_text uuid_v5 req asset d c i x)
  unfolding decide
  decide-Advances req asset d c i (Decision.deny code) =
      Advances->>= (mark_failed-Advances i WithdrawalStatus.requested code)
        (λ _. Advances-pure (Verdict.denied code))
  decide-Advances req asset d c i Decision.allow = accept-Advances req asset d c false i
  decide-Advances req asset d c i (Decision.manual_approval code) =
      accept-Advances req asset d c true i

  judge-Advances :
      (engine : RiskEngine) (now : ℕ) (req : WithdrawalRequest) (asset : Asset)
      (checked : Checked keccak256 uuid_text uuid_v5) (c : Text) (o : CreateOutcome)
      → Advances before (judge keccak256 uuid_text uuid_v5 engine now req asset checked c o)
  unfolding judge
  judge-Advances engine now req asset checked c (CreateOutcome.existing w) =
      Advances-pure (Verdict.replay w)
  judge-Advances engine now req asset (chain, a, d) c (CreateOutcome.created w) =
      Advances->>=
        (in_ledger-Advances _
          (Quietly-Keeps _ (user_balance-Quietly AccountType.user_available req.user_id asset.id)))
        (λ available.
          Advances->>= (sum_recent_withdrawals-Advances req.user_id asset.id now) (λ daily.
            Advances->>=
              (Advances-gets (λ (s : Store). owner_in req.chain (storage_key d) s.addresses))
              (λ owner. decide-Advances req asset d c w.id (
                evaluate engine
                  (risk_input keccak256 uuid_text uuid_v5 req chain a d available daily owner)))))

  pub request_transaction-Advances :
      (engine : RiskEngine) (now : ℕ) (req : WithdrawalRequest) (asset : Asset)
      (checked : Checked keccak256 uuid_text uuid_v5) (c : Text)
      → Advances before
          (request_transaction keccak256 uuid_text uuid_v5 engine now req asset checked c)
  unfolding request_transaction
  request_transaction-Advances engine now req asset (chain, a, d) c =
      Advances->>= (create_withdrawal-Advances now _)
        (λ o. judge-Advances engine now req asset (chain, a, d) c o)

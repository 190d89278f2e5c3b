-- ===== src/Risk/Order.antt =====
-- The policy engine against a list of rules: the first broken rule decides.
use chain_rail.Base.{
  ℕ, ◌<◌, ◌≡◌, ◌≢◌, ◌⊎◌, inl, inr, refl, Bool, true, false, ◌&&◌, not, List, [], ◌∷◌, Option, none,
  some, Text, codes, text_eq, ℤ, pos, ltb_ℤ, leb, ◌+ℤ◌, ◌≤ℤ◌, ◌<ℤ◌, if◌then◌else◌, arith, All,
  text_eq_refl,
}
use chain_rail.Common.Money.{Amount, is_positive, checked_add, fits_i128}
use chain_rail.Risk.{
  RiskEngine, RiskInput, Decision, limit, contains, evaluate, destination, bounds, velocity,
  solvency, daily_cap, breaks, is_empty, is_denied,
}

-- A rule that is broken, and the code of its denial.
abbrev pub Rule : Type 0
Rule = Bool × Text

-- Whether the total of the day, with the request, goes over a cap.
abbrev pub over_cap : RiskInput → Amount → Bool
over_cap i cap = fits_i128 (i.daily_total +ℤ i.amount) && ltb_ℤ cap (i.daily_total +ℤ i.amount)

abbrev pub overflows : RiskInput → Amount → Bool
overflows i cap = not (fits_i128 (i.daily_total +ℤ i.amount))

module _ (e : RiskEngine) (i : RiskInput) where
  abbrev solvency_rules : List Rule
  solvency_rules = (ltb_ℤ i.available_balance i.amount, codes "insufficient_balance") ∷ []

  abbrev velocity_rules : List Rule
  velocity_rules =
      (
        breaks e.cfg.max_withdrawals_per_user_per_day (λ cap. leb cap i.daily_count),
        codes "daily_count_exceeded",
      )
      ∷ (
        breaks (limit e.cfg.max_per_user_per_day i.chain i.asset_symbol) (over_cap i),
        codes "daily_limit_exceeded",
      )
      ∷ (
        breaks (limit e.cfg.max_per_user_per_day i.chain i.asset_symbol) (overflows i),
        codes "amount_overflow",
      )
      ∷ solvency_rules

  abbrev bounds_rules : List Rule
  bounds_rules =
      (
        breaks (limit e.cfg.min_per_request i.chain i.asset_symbol) (λ min. ltb_ℤ i.amount min),
        codes "below_minimum",
      )
      ∷ (
        breaks (limit e.cfg.max_per_request i.chain i.asset_symbol) (λ max. ltb_ℤ max i.amount),
        codes "above_maximum",
      )
      ∷ velocity_rules

  abbrev destination_rules : List Rule
  destination_rules =
      (contains e.denylist i.destination_lower, codes "destination_denylisted")
      ∷ (
        breaks i.hot_wallet_lower (λ hot. text_eq hot i.destination_lower),
        codes "destination_is_hot_wallet",
      )
      ∷ (i.is_foreign_deposit_address, codes "destination_is_internal")
      ∷ bounds_rules

  -- Every rule, in the order in which it is meant to be reported.
  abbrev pub rules : List Rule
  rules =
      (e.cfg.maintenance_mode, codes "maintenance_mode")
      ∷ (not (is_positive i.amount), codes "invalid_amount")
      ∷ (not i.withdrawals_enabled_for_asset, codes "asset_withdrawals_disabled")
      ∷ (
        not (is_empty e.allowed_chains) && not (contains e.allowed_chains i.chain),
        codes "chain_not_allowed",
      )
      ∷ destination_rules

abbrev pub first_broken : List Rule → Option Text
first_broken [] = none
first_broken ((b, c) ∷ rs) = let rest = first_broken rs in if b then some c else rest

abbrev pub over_threshold : RiskEngine → RiskInput → Bool
over_threshold e i =
    breaks (limit e.cfg.manual_approval_threshold i.chain i.asset_symbol) (λ t. ltb_ℤ t i.amount)

-- A broken rule denies; else a large amount is held, and all others pass.
abbrev pub conclude : RiskEngine → RiskInput → Option Text → Decision
conclude e i (some c) = Decision.deny c
conclude e i none =
    if over_threshold e i
    then Decision.manual_approval (codes "manual_approval_required")
    else Decision.allow

module _ (e : RiskEngine) (i : RiskInput) where
  solvency_lem : solvency e i ≡ conclude e i (first_broken (solvency_rules e i))
  unfolding solvency
  solvency_lem = ground arith

  velocity_lem : velocity e i ≡ conclude e i (first_broken (velocity_rules e i))
  unfolding velocity daily_cap checked_add
  velocity_lem = ground (arith, solvency_lem)

  bounds_lem : bounds e i ≡ conclude e i (first_broken (bounds_rules e i))
  unfolding bounds
  bounds_lem = ground (arith, velocity_lem)

  destination_lem : destination e i ≡ conclude e i (first_broken (destination_rules e i))
  unfolding destination
  destination_lem = ground (arith, bounds_lem)

  -- `evaluate` gives the code of the first broken rule, in the order of the list; where no rule is
  -- broken it holds an amount above the threshold for an operator and allows any other.
  pub evaluate-first_broken : evaluate e i ≡ conclude e i (first_broken (rules e i))
  unfolding evaluate
  evaluate-first_broken = ground (arith, destination_lem)

none_broken : (rs : List Rule) → first_broken rs ≡ none → All (λ (r : Rule). r.0 ≡ false) rs
none_broken [] h = tt
none_broken ((b, c) ∷ rs) h = ground (arith, none_broken rs)

first_broken-none : (rs : List Rule) → All (λ (r : Rule). r.0 ≡ false) rs → first_broken rs ≡ none
first_broken-none [] h = refl
first_broken-none ((b, c) ∷ rs) h = rw h.0 (first_broken-none rs h.1)

conclude-denied :
    (e : RiskEngine) (i : RiskInput) (o : Option Text)
    → is_denied (conclude e i o) ≡ false
    → o ≡ none
conclude-denied e i (some c) h = cc
conclude-denied e i none h = refl

conclude-not_denied : (e : RiskEngine) (i : RiskInput) → is_denied (conclude e i none) ≡ false
conclude-not_denied e i = ground arith

-- What a request satisfies that the engine lets through, at once or after an operator's approval.
pub record IsPermitted (e : RiskEngine) (i : RiskInput) : Type 0 where
  pub running : e.cfg.maintenance_mode ≡ false
  pub positive : pos 0 <ℤ i.amount
  pub covered : i.amount ≤ℤ i.available_balance
  pub chain_allowed : (e.allowed_chains ≡ []) ⊎ (contains e.allowed_chains i.chain ≡ true)
  pub enabled : i.withdrawals_enabled_for_asset ≡ true
  pub not_internal : i.is_foreign_deposit_address ≡ false
  pub not_denylisted : contains e.denylist i.destination_lower ≡ false
  pub not_hot_wallet : i.hot_wallet_lower ≢ some i.destination_lower
  pub at_least_minimum :
      (min : Amount)
      → limit e.cfg.min_per_request i.chain i.asset_symbol ≡ some min
      → min ≤ℤ i.amount
  pub at_most_maximum :
      (max : Amount)
      → limit e.cfg.max_per_request i.chain i.asset_symbol ≡ some max
      → i.amount ≤ℤ max
  pub within_daily_cap :
      (cap : Amount)
      → limit e.cfg.max_per_user_per_day i.chain i.asset_symbol ≡ some cap
      → (i.daily_total +ℤ i.amount ≤ℤ cap) × (fits_i128 (i.daily_total +ℤ i.amount) ≡ true)
  pub within_daily_count :
      (cap : ℕ) → e.cfg.max_withdrawals_per_user_per_day ≡ some cap → i.daily_count < cap

hot_wallet_lem : (o : Option Text) (d : Text) → breaks o (λ hot. text_eq hot d) ≡ false → o ≢ some d
hot_wallet_lem none d h e = cc
hot_wallet_lem (some hot) d h e = cc (text_eq_refl d)

unbroken :
    {A : Type 0} (o : Option A) (test : A → Bool) (v : A)
    → breaks o test ≡ false
    → o ≡ some v
    → test v ≡ false
unbroken none test v h e = cc
unbroken (some w) test v h e = ground arith

not_above : (a b : ℤ) → ltb_ℤ a b ≡ false → b ≤ℤ a
not_above a b h = ground arith

below_count : (a b : ℕ) → leb b a ≡ false → a < b
below_count a b h = ground arith

under_cap :
    (i : RiskInput) (cap : Amount)
    → over_cap i cap ≡ false
    → overflows i cap ≡ false
    → (i.daily_total +ℤ i.amount ≤ℤ cap) × (fits_i128 (i.daily_total +ℤ i.amount) ≡ true)
under_cap i cap h f = (ground arith, ground arith)

allowed_lem :
    (chains : List Text) (chain : Text)
    → not (is_empty chains) && not (contains chains chain) ≡ false
    → (chains ≡ []) ⊎ (contains chains chain ≡ true)
allowed_lem [] chain h = inl refl
allowed_lem (c ∷ cs) chain h = inr (ground arith)

not_denied-rules :
    (e : RiskEngine) (i : RiskInput)
    → is_denied (evaluate e i) ≡ false
    → All (λ (r : Rule). r.0 ≡ false) (rules e i)
not_denied-rules e i h =
    none_broken (rules e i) (conclude-denied e i _ (rw (evaluate-first_broken e i) at h))

-- A request that is not denied comes while the maintenance switch is off, on an allowed chain where a
-- list of them is configured, for an asset whose withdrawals are enabled. Its amount is positive and
-- covered by the balance, and keeps to the minimum and the maximum of a request, the count and the
-- total of the day where they are configured, the last with a sum that is an i128. It goes neither to
-- a denylisted address, nor to the hot wallet, nor to another user's deposit address.
pub not_denied-IsPermitted :
    (e : RiskEngine) (i : RiskInput) → is_denied (evaluate e i) ≡ false → IsPermitted e i
not_denied-IsPermitted e i h =
    let r = not_denied-rules e i h in
    let d = r.1.1.1.1 in
    let b = d.1.1.1 in
    let v = b.1.1 in
    record {
      running = r.0;
      positive = ground (arith, r.1.0);
      covered = not_above i.available_balance i.amount v.1.1.1.0;
      chain_allowed = allowed_lem e.allowed_chains i.chain r.1.1.1.0;
      enabled = ground (arith, r.1.1.0);
      not_internal = d.1.1.0;
      not_denylisted = d.0;
      not_hot_wallet = hot_wallet_lem i.hot_wallet_lower i.destination_lower d.1.0;
      at_least_minimum = λ min q. not_above i.amount min (unbroken _ _ min b.0 q);
      at_most_maximum = λ max q. not_above max i.amount (unbroken _ _ max b.1.0 q);
      within_daily_cap = λ cap q.
          under_cap i cap (unbroken _ (over_cap i) cap v.1.0 q)
            (unbroken _ (overflows i) cap v.1.1.0 q);
      within_daily_count = λ cap q. below_count i.daily_count cap (unbroken _ _ cap v.0 q);
    }

-- ===== src/Risk.antt =====
-- crates/risk/src/lib.rs: the policy engine. The messages of a decision are left out, its code is
-- kept. The sets and maps of the configuration are lists; looking up a map goes by equal keys.
pub mod Order
use chain_rail.Base.{
  ℕ, ◌+◌, ◌≡◌, Bool, true, false, ◌&&◌, ◌||◌, not, List, [], ◌∷◌, ◌++◌, Option, none, some, Text,
  codes, text_eq, ℤ, ltb_ℤ, leb, if◌then◌else◌, map, any, to_ascii_lowercase,
}
use chain_rail.Common.Error.{Error}
use chain_rail.Common.Result.{Result, ok, err}
use chain_rail.Common.Money.{Amount, is_positive, checked_add}
use chain_rail.Common.Money.Parse.{trim}

pub record RiskConfig : Type 0 where
  pub maintenance_mode : Bool
  pub manual_approval_threshold : List (Text × Amount)
  pub max_per_request : List (Text × Amount)
  pub min_per_request : List (Text × Amount)
  pub max_per_user_per_day : List (Text × Amount)
  pub max_withdrawals_per_user_per_day : Option ℕ
  pub allowed_chains : List Text
  pub destination_denylist : List Text

pub record RiskInput : Type 0 where
  pub chain : Text
  pub asset_symbol : Text
  pub amount : Amount
  pub destination_lower : Text
  pub hot_wallet_lower : Option Text
  pub available_balance : Amount
  pub daily_total : Amount
  pub daily_count : ℕ
  pub is_foreign_deposit_address : Bool
  pub withdrawals_enabled_for_asset : Bool

pub data Decision : Type 0 where
  allow : Decision
  manual_approval : Text → Decision
  deny : Text → Decision

abbrev pub is_allowed : Decision → Bool
is_allowed Decision.allow = true
is_allowed _ = false

abbrev pub is_denied : Decision → Bool
is_denied (Decision.deny c) = true
is_denied _ = false

abbrev pub requires_manual_approval : Decision → Bool
requires_manual_approval (Decision.manual_approval c) = true
requires_manual_approval _ = false

abbrev pub code : Decision → Text
code Decision.allow = codes "allow"
code (Decision.manual_approval c) = c
code (Decision.deny c) = c

-- `Decision::as_error`
abbrev pub as_error : Decision → Option Error
as_error (Decision.deny c) = some (Error.policy_denied c)
as_error _ = none

pub record RiskEngine : Type 0 where
  pub cfg : RiskConfig
  pub allowed_chains : List Text
  pub denylist : List Text

-- `RiskEngine::new`
unfoldable pub new : RiskConfig → RiskEngine
new cfg = record {
  cfg = cfg;
  allowed_chains = cfg.allowed_chains;
  denylist = map (λ d. to_ascii_lowercase (trim d)) cfg.destination_denylist;
}

abbrev pub contains : List Text → Text → Bool
contains xs t = any (text_eq t) xs

abbrev pub get : List (Text × Amount) → Text → Option Amount
get [] k = none
get ((j, v) ∷ m) k = if text_eq k j then some v else get m k

-- `RiskEngine::limit`: the limit of `chain:SYMBOL`, or else that of `SYMBOL`.
unfoldable pub limit : List (Text × Amount) → Text → Text → Option Amount
limit m chain symbol = elim (get m (chain ++ codes ":" ++ symbol)) [
  | some v ↦ some v
  | none ↦ get m symbol
]

abbrev is_empty : List Text → Bool
is_empty [] = true
is_empty (x ∷ xs) = false

-- Whether a bound is there and the test fails it.
abbrev breaks : {A : Type 0} → Option A → (A → Bool) → Bool
breaks none test = false
breaks (some b) test = test b

-- The checks from the balance on: 6 and 7.
solvency : RiskEngine → RiskInput → Decision
solvency e i =
    if ltb_ℤ i.available_balance i.amount
    then Decision.deny (codes "insufficient_balance")
    else if breaks (limit e.cfg.manual_approval_threshold i.chain i.asset_symbol)
        (λ t. ltb_ℤ t i.amount)
    then Decision.manual_approval (codes "manual_approval_required")
    else Decision.allow

-- The `match` on the projected total of the day; `none` is its fall-through.
daily_cap : Amount → RiskInput → Option Text
daily_cap cap i = elim (checked_add i.daily_total i.amount) [
  | ok projected ↦ if ltb_ℤ cap projected then some (codes "daily_limit_exceeded") else none
  | err x ↦ some (codes "amount_overflow")
]

-- The checks of velocity: 5.
velocity : RiskEngine → RiskInput → Decision
velocity e i =
    if breaks e.cfg.max_withdrawals_per_user_per_day (λ cap. leb cap i.daily_count)
    then Decision.deny (codes "daily_count_exceeded")
    else elim (limit e.cfg.max_per_user_per_day i.chain i.asset_symbol) [
      | none ↦ solvency e i
      | some cap ↦ elim (daily_cap cap i) [ some c ↦ Decision.deny c | none ↦ solvency e i ]
    ]

-- The bounds of one request: 4.
bounds : RiskEngine → RiskInput → Decision
bounds e i =
    if breaks (limit e.cfg.min_per_request i.chain i.asset_symbol) (λ min. ltb_ℤ i.amount min)
    then Decision.deny (codes "below_minimum")
    else if breaks (limit e.cfg.max_per_request i.chain i.asset_symbol) (λ max. ltb_ℤ max i.amount)
    then Decision.deny (codes "above_maximum")
    else velocity e i

-- The destination: 3.
destination : RiskEngine → RiskInput → Decision
destination e i =
    if contains e.denylist i.destination_lower
    then Decision.deny (codes "destination_denylisted")
    else if breaks i.hot_wallet_lower (λ hot. text_eq hot i.destination_lower)
    then Decision.deny (codes "destination_is_hot_wallet")
    else if i.is_foreign_deposit_address
    then Decision.deny (codes "destination_is_internal")
    else bounds e i

-- `RiskEngine::evaluate`: the kill switch and the structure of the request, 1 and 2, then the rest.
pub evaluate : RiskEngine → RiskInput → Decision
evaluate e i =
    if e.cfg.maintenance_mode
    then Decision.deny (codes "maintenance_mode")
    else if not (is_positive i.amount)
    then Decision.deny (codes "invalid_amount")
    else if not i.withdrawals_enabled_for_asset
    then Decision.deny (codes "asset_withdrawals_disabled")
    else if not (is_empty e.allowed_chains) && not (contains e.allowed_chains i.chain)
    then Decision.deny (codes "chain_not_allowed")
    else destination e i

-- ===== src/Common/Finality.antt =====
-- `FinalityPolicy` of crates/common/src/chain.rs. Heights are `u64`.
use chain_rail.Base.{
  ℕ, ◌+◌, ◌-◌, ◌^◌, ◌≤◌, ◌<◌, ◌≡◌, ◌↔◌, ◌⊎◌, Bool, true, false, Option, none, some, Text, min, max,
  leb, arith,
}

pub data FinalityPolicy : Type 0 where
  confirmations : ℕ → FinalityPolicy
  tag : Text → FinalityPolicy

unfoldable pub required_confirmations : FinalityPolicy → Option ℕ
required_confirmations (FinalityPolicy.confirmations blocks) = some blocks
required_confirmations (FinalityPolicy.tag t) = none

-- `saturating_add` on `u64`
abbrev pub u64_saturating_add : ℕ → ℕ → ℕ
u64_saturating_add a b = min (a + b) (2 ^ 64 - 1)

-- `head.saturating_sub(included_at).saturating_add(1)`
unfoldable pub confirmations_for : ℕ → ℕ → ℕ
confirmations_for head included_at = u64_saturating_add (head - included_at) 1

unfoldable pub is_confirmed : FinalityPolicy → ℕ → ℕ → Bool
unfolding confirmations_for
is_confirmed (FinalityPolicy.confirmations blocks) head included_at =
    leb (max blocks 1) (confirmations_for head included_at)
is_confirmed (FinalityPolicy.tag t) head included_at = false

-- A confirmation count policy of `n` blocks confirms a transaction exactly when the head has reached
-- the including block plus n - 1, the including block counting as one, and a policy of 0 or 1
-- confirms at once; for heads below 2^64 - 1 and n below 2^64.
pub is_confirmed_iff :
    (blocks head included_at : ℕ)
    → head + 1 < 2 ^ 64
    → blocks < 2 ^ 64
    → (is_confirmed (FinalityPolicy.confirmations blocks) head included_at ≡ true)
      ↔ ((blocks ≤ 1) ⊎ (included_at + blocks ≤ head + 1))
unfolding is_confirmed
is_confirmed_iff blocks head included_at h b = (λ e. grind arith, λ e. grind arith)

-- A deposit once confirmed stays so while the head rises.
pub is_confirmed_mono :
    (p : FinalityPolicy) (head head' included_at : ℕ)
    → head ≤ head'
    → is_confirmed p head included_at ≡ true
    → is_confirmed p head' included_at ≡ true
unfolding is_confirmed
is_confirmed_mono (FinalityPolicy.confirmations blocks) head head' i h e = grind arith
is_confirmed_mono (FinalityPolicy.tag t) head head' i h e = e

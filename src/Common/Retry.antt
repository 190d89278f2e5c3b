-- ===== src/Common/Retry.antt =====
-- The backoff schedule (crates/common/src/retry.rs). Durations are in milliseconds. The product of
-- the jitter window and the random unit is computed in `f64`, which is a parameter here:
-- `scale span` stands for `((span as f64) * jitter_unit.clamp(0.0, 1.0)) as u64`.
use native.Mathlib.Numerals.{unary_clauses}
use chain_rail.Base.{
  ℕ, zero, suc, ◌+◌, ◌-◌, ◌*◌, ◌/◌, ◌^◌, ◌≤◌, ◌≡◌, ◌∙◌, sym, ap, Bool, false, min, ltb, ◌==◌,
  if◌then◌else◌, arith, Bool-cases, inl, inr,
}

pub record Backoff : Type 0 where
  pub base : ℕ
  pub max : ℕ
  pub max_attempts : ℕ
  pub jitter_pct : ℕ

abbrev pub u64_max : ℕ
u64_max = 2 ^ 64 - 1

-- The exponential part: the base doubled at most 31 times, under the ceiling. A `u128` product of
-- a `u64` base saturates only above the ceiling.
abbrev pub scaled : Backoff → ℕ → ℕ
scaled b attempt = min (min (b.base * 2 ^ min (attempt - 1) 31) (2 ^ 128 - 1)) b.max

-- The jitter window centred on the exponential value `s`, applied and kept under the ceiling.
unfoldable pub with_jitter : Backoff → ℕ → (ℕ → ℕ) → ℕ
with_jitter b s scale =
    let span = min (s * min b.jitter_pct 100) u64_max / 100 in
    if b.jitter_pct == 0 then s else min (s - span / 2 + scale span) b.max

-- `delay_with_jitter`
unfoldable pub delay_with_jitter : Backoff → ℕ → (ℕ → ℕ) → ℕ
delay_with_jitter b attempt scale =
    if attempt == 0 then 0 else with_jitter b (scaled b attempt) scale

pub should_retry : Backoff → ℕ → Bool
should_retry b attempt = ltb attempt b.max_attempts

sum_delays : Backoff → (ℕ → ℕ) → ℕ → ℕ
sum_delays b scale zero = 0
sum_delays b scale (suc n) = sum_delays b scale n + delay_with_jitter b (suc n) scale

-- `worst_case_total`: every attempt waits with a jitter unit of 1.
pub worst_case_total : Backoff → (ℕ → ℕ) → ℕ
unfolding sum_delays
worst_case_total b full = sum_delays b full b.max_attempts

percentage-le : (s p : ℕ) → p ≤ 100 → min (s * p) u64_max / 100 ≤ s
percentage-le s p h = let most : s * p ≤ s * 100 = grind arith in omega arith

-- The random unit scales a span that a 64-bit float represents down, or leaves it.
abbrev pub IsScaling : (ℕ → ℕ) → Type 0
IsScaling scale = (n : ℕ) → n ≤ 2 ^ 53 → scale n ≤ n

with_jitter_window :
    (b : Backoff) (s : ℕ) (scale : ℕ → ℕ)
    → IsScaling scale
    → s ≤ b.max
    → b.max ≤ 2 ^ 53
    → (s ≤ 2 * with_jitter b s scale) × (with_jitter b s scale ≤ s + s / 2 + 1)
unfolding with_jitter
with_jitter_window b s scale bound h small =
    let span = min (s * min b.jitter_pct 100) u64_max / 100 in
    let narrow = percentage-le s (min b.jitter_pct 100) (omega arith) in
    let inside = bound span (omega arith) in
    elim (Bool-cases (b.jitter_pct == 0)) [
      | inl p ↦ rw p (omega arith, omega arith)
      | inr p ↦ rw p (omega arith, omega arith)
    ]

with_jitter-le-max :
    (b : Backoff) (s : ℕ) (scale : ℕ → ℕ) → s ≤ b.max → with_jitter b s scale ≤ b.max
unfolding with_jitter
with_jitter-le-max b s scale h = elim (Bool-cases (b.jitter_pct == 0)) [
  | inl p ↦ rw p h
  | inr p ↦ rw p (omega arith)
]

scaled-le-max : (b : Backoff) (attempt : ℕ) → scaled b attempt ≤ b.max
scaled-le-max b attempt = omega arith

-- A delay never exceeds the ceiling, whatever the attempt, the base and the jitter.
pub delay-le-max :
    (b : Backoff) (attempt : ℕ) (scale : ℕ → ℕ) → delay_with_jitter b attempt scale ≤ b.max
unfolding delay_with_jitter
delay-le-max b attempt scale = elim (Bool-cases (attempt == 0)) [
  | inl p ↦ rw p (omega arith)
  | inr p ↦ rw p (with_jitter-le-max b (scaled b attempt) scale (scaled-le-max b attempt))
]

-- The whole schedule is bounded by the ceiling for each attempt.
pub worst_case_total_bound :
    (b : Backoff) (full : ℕ → ℕ) → worst_case_total b full ≤ b.max_attempts * b.max
unfolding worst_case_total
worst_case_total_bound b full = go b.max_attempts
  where
    go : (n : ℕ) → sum_delays b full n ≤ n * b.max
    go zero = omega arith
    go (suc n) = omega (arith, go n, delay-le-max b (suc n) full)

-- The exponential value, step by step: the base under the ceiling, doubled under the ceiling.
abbrev pub exponential : Backoff → ℕ → ℕ
exponential b zero = min b.base b.max
exponential b (suc n) = min (2 * exponential b n) b.max

double_lem : (x m : ℕ) → min (2 * min x m) m ≡ min (2 * x) m
double_lem x m = omega arith

power_suc : (x n : ℕ) → x * 2 ^ suc n ≡ 2 * (x * 2 ^ n)
power_suc x n = let two : 2 ^ suc n ≡ 2 * 2 ^ n = simp unary_clauses (omega arith) in grind arith

capped-exponential : (b : Backoff) (n : ℕ) → min (b.base * 2 ^ n) b.max ≡ exponential b n
capped-exponential b zero = ap (λ x. min x b.max) (omega arith)
capped-exponential b (suc n) =
    let ih = capped-exponential b n in
    let step = power_suc b.base n in
    let twice = double_lem (b.base * 2 ^ n) b.max in rw step (rw (← ih) (sym twice))

under_cap : (x m : ℕ) → m ≤ 2 ^ 53 → min (min x (2 ^ 128 - 1)) m ≡ min x m
under_cap x m small = omega arith

scaled-exponential :
    (b : Backoff) (n : ℕ) → b.max ≤ 2 ^ 53 → scaled b (suc n) ≡ exponential b (min n 31)
scaled-exponential b n small =
    let pred : suc n - 1 ≡ n = omega arith in
    rw pred (under_cap (b.base * 2 ^ min n 31) b.max small ∙ capped-exponential b (min n 31))

-- For attempt n + 1 and a ceiling of at most 2^53 milliseconds, where the random unit scales no span of
-- at most 2^53 up, the delay lies in the window around the exponential value s, which is the base
-- doubled n times, at most 31 times, under the ceiling at each step: from s / 2 up to s + s / 2 + 1.
pub delay_window :
    (b : Backoff) (n : ℕ) (scale : ℕ → ℕ)
    → IsScaling scale
    → b.max ≤ 2 ^ 53
    → let s = exponential b (min n 31) in
      let d = delay_with_jitter b (suc n) scale in (s ≤ 2 * d) × (d ≤ s + s / 2 + 1)
unfolding delay_with_jitter
delay_window b n scale bound small =
    let later : (suc n == 0) ≡ false = ground arith in
    rw (later, ← scaled-exponential b n small)
      (with_jitter_window b (scaled b (suc n)) scale bound (scaled-le-max b (suc n)) small)

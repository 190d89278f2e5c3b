-- ===== src/Rpc/Health/Breaker.antt =====
-- The circuit breaker of crates/rpc/src/health.rs as a state machine, and the bounds of its average.
use chain_rail.Base.{
  ℕ, suc, ◌+◌, ◌-◌, ◌*◌, ◌%◌, ◌^◌, ◌≤◌, ◌<◌, ◌≡◌, ◌∙◌, refl, sym, subst, min, max, Bool, true,
  false, ◌||◌, ◌&&◌, List, [], ◌∷◌, some, leb, if◌then◌else◌, arith, All, length, Bool-cases, inl,
  inr,
}
use native.Mathlib.Nat.{mul-add, mul-le-mul_right}
use chain_rail.Rpc.Health.{
  BreakerState, EndpointHealth, allows_request, allows_in, record_success, record_failure, blend,
  is_half_open,
}

-- What happens to an endpoint: a request is asked for, or one ends, with the clock's reading.
pub data Event : Type 0 where
  asked : ℕ → Event
  succeeded : ℕ → ℕ → Event
  failed : ℕ → Event

abbrev pub time : Event → ℕ
time (Event.asked now) = now
time (Event.succeeded latency now) = now
time (Event.failed now) = now

abbrev pub apply : Event → EndpointHealth → EndpointHealth
apply (Event.asked now) h = (allows_request now h).1
apply (Event.succeeded latency now) h = record_success latency now h
apply (Event.failed now) h = record_failure now h

abbrev pub run : List Event → EndpointHealth → EndpointHealth
run [] h = h
run (e ∷ es) h = run es (apply e h)

-- A breaker that is open until some later time than `t`, or exactly then.
abbrev pub OpenUntil : ℕ → BreakerState → Type 0
OpenUntil t (BreakerState.opened until) = t ≤ until
OpenUntil t _ = ⊥

allows_in_early :
    (t now : ℕ) (h : EndpointHealth) (s : BreakerState)
    → OpenUntil t s
    → now < t
    → allows_in s now h ≡ (false, h)
allows_in_early t now h (BreakerState.opened until) o lt =
    let early : leb until now ≡ false = ground arith in rw early refl
allows_in_early t now h BreakerState.closed o lt = absurd o
allows_in_early t now h BreakerState.half_open o lt = absurd o

allows_request_early :
    (t now : ℕ) (h : EndpointHealth)
    → OpenUntil t h.state
    → now < t
    → allows_request now h ≡ (false, h)
unfolding allows_request
allows_request_early t now h o lt = allows_in_early t now h h.state o lt

kept_by_success :
    (t : ℕ) (s : BreakerState) (c : Bool)
    → OpenUntil t s
    → OpenUntil t (if is_half_open s && c then BreakerState.closed else s)
kept_by_success t (BreakerState.opened until) c o = o
kept_by_success t BreakerState.closed c o = absurd o
kept_by_success t BreakerState.half_open c o = absurd o

kept_by_failure :
    (t u : ℕ) (s : BreakerState) (c : Bool)
    → OpenUntil t s
    → t ≤ u
    → OpenUntil t (if is_half_open s || c then BreakerState.opened u else s)
kept_by_failure t u (BreakerState.opened until) true o le = le
kept_by_failure t u (BreakerState.opened until) false o le = o
kept_by_failure t u BreakerState.closed c o le = absurd o
kept_by_failure t u BreakerState.half_open c o le = absurd o

same_cfg : (e : Event) (h : EndpointHealth) → (apply e h).cfg ≡ h.cfg
unfolding allows_request record_success record_failure
same_cfg (Event.asked now) h = go h.state
  where
    go : (s : BreakerState) → (allows_in s now h).1.cfg ≡ h.cfg
    go BreakerState.closed = refl
    go BreakerState.half_open = refl
    go (BreakerState.opened until) = elim (Bool-cases (leb until now)) [
      | inl p ↦ rw p refl
      | inr p ↦ rw p refl
    ]
same_cfg (Event.succeeded latency now) h = refl
same_cfg (Event.failed now) h = refl

kept_open :
    (t : ℕ) (e : Event) (h : EndpointHealth)
    → OpenUntil t h.state
    → time e < t
    → t ≤ time e + h.cfg.reset_timeout
    → OpenUntil t (apply e h).state
unfolding record_success record_failure
kept_open t (Event.asked now) h o lt le =
    subst (λ (p : Bool × EndpointHealth). OpenUntil t p.1.state)
      (sym (allows_request_early t now h o lt)) o
kept_open t (Event.succeeded latency now) h o lt le = kept_by_success t h.state _ o
kept_open t (Event.failed now) h o lt le =
    kept_by_failure t (now + h.cfg.reset_timeout) h.state _ o le

-- The events of a window that starts at `from` and ends before `to`.
abbrev pub Within : ℕ → ℕ → Event → Type 0
Within from to e = (from ≤ time e) × (time e < to)

blocked :
    (es : List Event) (h : EndpointHealth) (from now : ℕ)
    → OpenUntil (from + h.cfg.reset_timeout) h.state
    → All (Within from (from + h.cfg.reset_timeout)) es
    → now < from + h.cfg.reset_timeout
    → (allows_request now (run es h)).0 ≡ false
blocked [] h from now o a lt =
    rw (allows_request_early (from + h.cfg.reset_timeout) now h o lt) refl
blocked (e ∷ es) h from now o a lt =
    let first = a.0 in
    let early = first.0 in
    let c = same_cfg e h in
    let o' = kept_open (from + h.cfg.reset_timeout) e h o first.1 (omega arith) in
    blocked es (apply e h) from now (rw c o') (rw c a.1) (rw c lt)

-- When a failure opens the breaker, every request in the reset timeout after it is refused,
-- whatever requests are asked for, succeed late or fail late in that time.
pub opened_blocks :
    (h : EndpointHealth) (from now : ℕ) (es : List Event)
    → (record_failure from h).state ≡ BreakerState.opened (from + h.cfg.reset_timeout)
    → All (Within from (from + h.cfg.reset_timeout)) es
    → now < from + h.cfg.reset_timeout
    → (allows_request now (run es (record_failure from h))).0 ≡ false
opened_blocks h from now es o a lt =
    let c = same_cfg (Event.failed from) h in
    blocked es (record_failure from h) from now (rw (c, o) (below (from + h.cfg.reset_timeout)))
      (rw c a) (rw c lt)
  where
    below : (n : ℕ) → n ≤ n
    below n = omega arith

abbrev pub failures : List ℕ → List Event
failures [] = []
failures (t ∷ ts) = Event.failed t ∷ failures ts

-- A closed breaker that has counted `c` failures in a row.
abbrev pub Counted : ℕ → EndpointHealth → Type 0
Counted c h = (h.state ≡ BreakerState.closed) × (h.consecutive_failures ≡ c)

counts_failure :
    (c now : ℕ) (h : EndpointHealth)
    → Counted c h
    → c + 1 < h.cfg.failure_threshold
    → h.cfg.failure_threshold < 2 ^ 32
    → Counted (c + 1) (record_failure now h)
unfolding record_failure
counts_failure c now h k lt lim =
    let n : (c + 1) % 2 ^ 32 ≡ c + 1 = omega arith in
    let small : leb h.cfg.failure_threshold (c + 1) ≡ false = ground arith in
    rw (k.0, k.1, n, small) (refl, refl)

opens_at :
    (c now : ℕ) (h : EndpointHealth)
    → Counted c h
    → c + 1 ≡ h.cfg.failure_threshold
    → h.cfg.failure_threshold < 2 ^ 32
    → (record_failure now h).state ≡ BreakerState.opened (now + h.cfg.reset_timeout)
unfolding record_failure
opens_at c now h k e lim =
    let n : (c + 1) % 2 ^ 32 ≡ c + 1 = omega arith in
    let full : leb h.cfg.failure_threshold (c + 1) ≡ true = ground arith in
    rw (k.0, k.1, n, full) refl

counts_failures :
    (ts : List ℕ) (c : ℕ) (h : EndpointHealth)
    → Counted c h
    → c + length ts < h.cfg.failure_threshold
    → h.cfg.failure_threshold < 2 ^ 32
    → Counted (c + length ts) (run (failures ts) h) × ((run (failures ts) h).cfg ≡ h.cfg)
counts_failures [] c h k lt lim = let z : c + 0 ≡ c = omega arith in (rw z k, refl)
counts_failures (t ∷ ts) c h k lt lim =
    let f = same_cfg (Event.failed t) h in
    let one = counts_failure c t h k (omega arith) lim in
    let (rest, g) =
      counts_failures ts (c + 1) (record_failure t h) one (rw f (omega arith)) (rw f lim) in
    let z : c + suc (length ts) ≡ c + 1 + length ts = omega arith in (rw z rest, g ∙ f)

zero_add : (n : ℕ) → 0 + n ≡ n
zero_add n = omega arith

-- A closed breaker without failures on its count stays closed through fewer failures in a row than
-- the threshold, and the failure that reaches the threshold opens it for the reset timeout.
pub opens_at_threshold :
    (h : EndpointHealth) (ts : List ℕ) (now : ℕ)
    → h.state ≡ BreakerState.closed
    → h.consecutive_failures ≡ 0
    → suc (length ts) ≡ h.cfg.failure_threshold
    → h.cfg.failure_threshold < 2 ^ 32
    → ((run (failures ts) h).state ≡ BreakerState.closed)
      × ((record_failure now (run (failures ts) h)).state
          ≡ BreakerState.opened (now + h.cfg.reset_timeout))
opens_at_threshold h ts now s z e lim =
    let (k, g) = counts_failures ts 0 h (s, z) (omega arith) lim in
    let k' : Counted (length ts) (run (failures ts) h) = rw zero_add at k in
    (
      k.0,
      opens_at (length ts) now (run (failures ts) h) k' (rw g (omega arith)) (rw g lim) ∙ rw g refl,
    )

mix_bounds :
    (a s p : ℕ)
    → a ≤ 100
    → (min s p * 100 ≤ s * a + p * (100 - a)) × (s * a + p * (100 - a) ≤ max s p * 100)
mix_bounds a s p h =
    let one : min s p * a ≤ s * a = mul-le-mul_right a (omega arith) in
    let two : min s p * (100 - a) ≤ p * (100 - a) = mul-le-mul_right (100 - a) (omega arith) in
    let three : s * a ≤ max s p * a = mul-le-mul_right a (omega arith) in
    let four : p * (100 - a) ≤ max s p * (100 - a) = mul-le-mul_right (100 - a) (omega arith) in
    let low = split (min s p) a h in let high = split (max s p) a h in (omega arith, omega arith)
  where
    split : (m a : ℕ) → a ≤ 100 → m * a + m * (100 - a) ≡ m * 100
    split m a h =
        let whole : a + (100 - a) ≡ 100 = omega arith in sym (mul-add m a (100 - a)) ∙ rw whole refl

-- The latency average stays between the sample and the average of before, for every smoothing
-- factor, and within a u64.
pub blend_bounds :
    (alpha sample prev : ℕ)
    → sample < 2 ^ 64
    → prev < 2 ^ 64
    → (min sample prev ≤ blend alpha sample (some prev))
      × (blend alpha sample (some prev) ≤ max sample prev)
      × (blend alpha sample (some prev) < 2 ^ 64)
blend_bounds alpha s p hs hp =
    let b = mix_bounds (min alpha 100) s p (omega arith) in
    let lo = b.0 in let hi = b.1 in (omega arith, omega arith, omega arith)

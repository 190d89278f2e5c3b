-- ===== src/Events/Consumer/Delivery.antt =====
-- The loop of `process` in crates/events/src/consumer.rs ends, and an event is handled or
-- dead-lettered.
use chain_rail.Base.{
  ℕ, zero, suc, ◌+◌, ◌-◌, ◌*◌, ◌≤◌, ◌≡◌, ◌⊎◌, refl, sym, ap, true, ◌∷◌, Option, some, Text, leb,
  arith, Bool-cases, inl, inr,
}
use chain_rail.Common.Result.{Result, ok, err, Result-cases}
use chain_rail.Common.Config.{KafkaConfig}
use chain_rail.Common.Retry.{delay-le-max}
use chain_rail.Events.{EventEnvelope, is_supported_version}
use chain_rail.Events.Consumer.{
  HandlerOutcome, EventHandler, Desk, was_processed, backoff_of, budget, letter, dead_letter, slept,
  conclude_attempt, attempted, deliver, deliver_new, process,
}

module _ {S : Type 0} (pool : ℕ → Result (Unit {0})) (scale : ℕ → ℕ → ℕ) (cfg : KafkaConfig)
    (handler : EventHandler S) (e : EventEnvelope) (raw : Text) where
  -- What an answer of `process` says of the desk before and after.
  abbrev pub Settled : Desk S → Desk S → Result (Unit {0}) → Type 0
  Settled before after (ok u) =
      ((was_processed handler.name e.event_id (handler.processed before.store) ≡ true)
        × (after.store ≡ before.store)
        × (after.dead_letters ≡ before.dead_letters))
      ⊎ ((s : S) × (handler.handle e s ≡ (ok HandlerOutcome.done, after.store))
          × (after.dead_letters ≡ before.dead_letters))
      ⊎ ((attempts : ℕ) × (after.dead_letters
            ≡ letter pool scale cfg handler e raw attempts ∷ before.dead_letters))
  Settled before after (err x) = after.dead_letters ≡ before.dead_letters

  -- The loop comes to an answer from `d`, with `k` more attempts at most after the next.
  abbrev pub Ended : ℕ → Desk S → Desk S → Option (Result (Unit {0}) × Desk S) → Type 0
  Ended k before d x =
      (r : Result (Unit {0})) × (after : Desk S) × (x ≡ some (r, after))
      × Settled before after r
      × (after.handled ≤ d.handled + suc k)
      × (after.slept ≤ d.slept + k * cfg.retry_backoff_max_ms)

  dead_letter-Ended :
      (n k : ℕ) (before from d : Desk S)
      → d.dead_letters ≡ before.dead_letters
      → d.handled ≤ from.handled + suc k
      → d.slept ≤ from.slept + k * cfg.retry_backoff_max_ms
      → Ended k before from (some (dead_letter pool scale cfg handler e raw n d))
  unfolding dead_letter
  dead_letter-Ended n k before from d same often long = elim (Result-cases (pool d.calls)) [
    | inr (x, p) ↦ rw p (err x, record d { calls = d.calls + 1 }, refl, same, often, long)
    | inl (u, p) ↦ rw p (
      ok tt,
      record d {
        dead_letters = letter pool scale cfg handler e raw n ∷ d.dead_letters;
        calls = d.calls + 1;
      },
      refl,
      inr (inr (n, ap (λ ls. letter pool scale cfg handler e raw n ∷ ls) same)),
      often,
      long,
    )
  ]

  -- A later start with one attempt less.
  later-Ended :
      (k attempt : ℕ) (before d : Desk S) (x : Option (Result (Unit {0}) × Desk S))
      → Ended k before
          (slept pool scale cfg handler attempt (attempted pool scale cfg handler e d))
          x
      → Ended (suc k) before d x
  later-Ended k attempt before d x (r, after, p, settled, often, long) =
      let short = delay-le-max (backoff_of cfg) attempt (scale attempt) in
      (r, after, p, settled, (omega arith), (omega arith))

  concluded :
      (k attempt : ℕ) (before d : Desk S) (o : Result HandlerOutcome)
      → (handler.handle e d.store).0 ≡ o
      → cfg.max_delivery_attempts ≤ suc k + attempt
      → d.dead_letters ≡ before.dead_letters
      → Ended k before d (
          conclude_attempt pool scale cfg handler e raw
            (attempt + 1)
            (deliver pool scale cfg handler k e raw (attempt + 1))
            o
            (attempted pool scale cfg handler e d))
  unfolding conclude_attempt deliver
  concluded k attempt before d (ok HandlerOutcome.done) p enough same = (
    ok tt,
    attempted pool scale cfg handler e d,
    refl,
    inr (inl (d.store, ap (λ o. (o, (handler.handle e d.store).1)) p, same)),
    (omega arith),
    (omega arith),
  )
  concluded k attempt before d (ok HandlerOutcome.rejected) p enough same =
      dead_letter-Ended (attempt + 1) k before d (attempted pool scale cfg handler e d) same
        (omega arith) (omega arith)
  concluded zero attempt before d (err x) p enough same =
      let all : leb cfg.max_delivery_attempts (attempt + 1) ≡ true = ground arith in
      rw all (
        dead_letter-Ended (attempt + 1) zero before d (attempted pool scale cfg handler e d) same
          (omega arith) (omega arith))
  concluded (suc k) attempt before d (err x) p enough same =
      elim (Bool-cases (leb cfg.max_delivery_attempts (attempt + 1))) [
        | inl q ↦ rw q (
            dead_letter-Ended (attempt + 1) (suc k) before d (attempted pool scale cfg handler e d)
              same (omega arith) (omega arith))
        | inr q ↦
            let d' =
              slept pool scale cfg handler (attempt + 1) (attempted pool scale cfg handler e d) in
            rw q (
              later-Ended k (attempt + 1) before d _ (
                concluded k (attempt + 1) before d' (handler.handle e d'.store).0 refl (omega arith)
                  same))
      ]

  deliver-Ended :
      (k attempt : ℕ) (before d : Desk S)
      → cfg.max_delivery_attempts ≤ suc k + attempt
      → d.dead_letters ≡ before.dead_letters
      → Ended k before d (deliver pool scale cfg handler (suc k) e raw attempt d)
  unfolding deliver
  deliver-Ended k attempt before d enough same =
      concluded k attempt before d (handler.handle e d.store).0 refl enough same

  deliver_new-Ended :
      (d : Desk S) (a : Result (Unit {0}))
      → Ended
          (cfg.max_delivery_attempts - 1)
          d
          d
          (deliver_new pool scale cfg handler e raw a (record d { calls = d.calls + 1 }))
  unfolding deliver_new
  deliver_new-Ended d (err x) =
      (err x, record d { calls = d.calls + 1 }, refl, refl, (omega arith), (omega arith))
  deliver_new-Ended d (ok u) =
      elim (Bool-cases (was_processed handler.name e.event_id (handler.processed d.store))) [
        | inl p ↦ rw p (
          ok tt,
          record d { calls = d.calls + 1 },
          refl,
          inl (p, refl, refl),
          (omega arith),
          (omega arith),
        )
        | inr p ↦ rw p (
            deliver-Ended (cfg.max_delivery_attempts - 1) 0 d (record d { calls = d.calls + 1 })
              (omega arith) refl)
      ]

  process-Ended :
      (d : Desk S)
      → Ended (cfg.max_delivery_attempts - 1) d d (process pool scale cfg handler e raw d)
  unfolding process
  process-Ended d = elim (Bool-cases (is_supported_version e)) [
    | inl p ↦ rw p (deliver_new-Ended d (pool d.calls))
    | inr p ↦
        rw p (
          dead_letter-Ended 0 (cfg.max_delivery_attempts - 1) d d d refl (omega arith)
            (omega arith))
  ]

-- Whatever the handler, the connection pool and the jitter answer, `process` comes to an answer: the
-- handler has been called max_delivery_attempts times at most, or once where that is 0, and the runner
-- has slept at most the longest delay before each attempt but the first.
pub process_terminates :
    {S : Type 0} (pool : ℕ → Result (Unit {0})) (scale : ℕ → ℕ → ℕ) (cfg : KafkaConfig)
    (handler : EventHandler S) (e : EventEnvelope) (raw : Text) (d : Desk S)
    → (r : Result (Unit {0})) × (after : Desk S) × (process pool scale cfg handler e raw d
        ≡ some (r, after))
      × (after.handled ≤ d.handled + budget cfg)
      × (after.slept ≤ d.slept + (cfg.max_delivery_attempts - 1) * cfg.retry_backoff_max_ms)
process_terminates pool scale cfg handler e raw d =
    let (r, after, p, settled, often, long) = process-Ended pool scale cfg handler e raw d in
    (r, after, p, often, long)

-- An event is accounted for before its offset is committed: where `process` answers ok, the event had
-- been processed and nothing was touched, or the last call of the handler answered `Done`, with what
-- it wrote, and no dead letter, or exactly one dead letter was added, of this handler and event; and
-- where it answers an error no dead letter was added.
pub process-Settled :
    {S : Type 0} (pool : ℕ → Result (Unit {0})) (scale : ℕ → ℕ → ℕ) (cfg : KafkaConfig)
    (handler : EventHandler S) (e : EventEnvelope) (raw : Text) (d after : Desk S)
    (r : Result (Unit {0}))
    → process pool scale cfg handler e raw d ≡ some (r, after)
    → Settled pool scale cfg handler e raw d after r
process-Settled pool scale cfg handler e raw d after r h =
    let (r', after', p, settled, often, long) = process-Ended pool scale cfg handler e raw d in
    let both : (r' ≡ r) × (after' ≡ after) = (cc, cc) in rw (sym both.0, sym both.1) settled

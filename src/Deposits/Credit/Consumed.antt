-- ===== src/Deposits/Credit/Consumed.antt =====
-- `DepositCreditHandler` of crates/deposits/src/credit.rs under `ConsumerRunner::process` of
-- crates/events/src/consumer.rs.
use chain_rail.Base.{
  ℕ, suc, ◌+◌, ◌-◌, ◌≤◌, ◌≡◌, refl, true, false, ◌&&◌, ◌||◌, List, [], ◌∷◌, Option, none, some,
  Text, text_eq, codes, leb, ◌==◌, arith, ap, ◌∙◌,
}
use chain_rail.Common.Error.{Error}
use chain_rail.Common.Result.{Result, ok, err}
use chain_rail.Common.Config.{KafkaConfig}
use chain_rail.Models.Deposit.{DepositStatus}
use chain_rail.Events.{EventEnvelope, EventPayload, is_supported_version}
use chain_rail.Events.Consumer.{
  HandlerOutcome, EventHandler, Desk, was_processed, slept, conclude_attempt, deliver, deliver_new,
  process,
}
use chain_rail.Deposits.{Deposit, Store, find_deposit, is_claimed}
use chain_rail.Deposits.Credit.{Envelope, handle}
use chain_rail.Deposits.Credit.Once.{claimed, handle_forgets}

-- The deposit of a `DepositConfirmed`.
abbrev pub deposit_of : EventPayload → Option ℕ
deposit_of (EventPayload.deposit_confirmed p) = some p.deposit_id
deposit_of p = none

abbrev pub envelope_of : EventEnvelope → Envelope
envelope_of e = record {
  event_id = e.event_id;
  correlation_id = e.correlation_id;
  payload = deposit_of e.payload;
}

was_processed-claimed :
    (consumer : Text) (event : ℕ) (rows : List (Text × ℕ))
    → was_processed consumer event rows ≡ is_claimed consumer event rows
was_processed-claimed consumer event [] = refl
was_processed-claimed consumer event ((c, e) ∷ rows) =
    ap (λ b. text_eq c consumer && e == event || b) (was_processed-claimed consumer event rows)

module _ (uuid_text : ℕ → Text) (uuid_v5 : Text → ℕ) where
  -- `impl EventHandler for DepositCreditHandler`
  abbrev pub credit_handler : EventHandler Store
  credit_handler = record {
    name = codes "deposit_credit";
    handle = λ e s. handle uuid_text uuid_v5 (envelope_of e) s;
    processed = λ s. s.processed;
  }

module _ (uuid_text : ℕ → Text) (uuid_v5 : Text → ℕ) (pool : ℕ → Result (Unit {0}))
    (scale : ℕ → ℕ → ℕ) (cfg : KafkaConfig) (e : EventEnvelope) (raw : Text) where
  after_conflict : Desk Store → Desk Store
  after_conflict d =
      let h = credit_handler uuid_text uuid_v5 in
      let first =
        slept pool scale cfg h 1
          (record d { store = claimed (envelope_of e) d.store; handled = d.handled + 1 }) in
      record first { handled = first.handled + 1 }

  deliver_conflict :
      (k : ℕ) (d : Desk Store)
      → let h = handle uuid_text uuid_v5 (envelope_of e) in
        2 ≤ cfg.max_delivery_attempts
        → h d.store ≡ (err Error.conflict, claimed (envelope_of e) d.store)
        → h (claimed (envelope_of e) d.store)
          ≡ (ok HandlerOutcome.done, claimed (envelope_of e) d.store)
        → deliver pool scale cfg (credit_handler uuid_text uuid_v5) (suc (suc k)) e raw 0 d
          ≡ some (ok tt, after_conflict d)
  unfolding deliver conclude_attempt after_conflict
  deliver_conflict k d more first again =
      let go_on : leb cfg.max_delivery_attempts 1 ≡ false = ground arith in
      rw (first, go_on, again) refl

-- The retry of the runner swallows a conflict of the credit handler: for an event that is not yet
-- claimed, of a deposit that is still confirming, where the version is supported, the pool answers
-- and two attempts or more are configured, `process` answers ok and adds no dead letter, and the
-- tables differ from before by the claim of the event alone: the deposit is not credited. With that
-- claim the handler answers `Done` in every later state of the tables and changes nothing, whatever
-- the deposit has become.
pub process_swallows :
    (uuid_text : ℕ → Text) (uuid_v5 : Text → ℕ) (pool : ℕ → Result (Unit {0})) (scale : ℕ → ℕ → ℕ)
    (cfg : KafkaConfig) (e : EventEnvelope) (raw : Text) (desk : Desk Store) (i : ℕ) (d : Deposit)
    → 2 ≤ cfg.max_delivery_attempts
    → is_supported_version e ≡ true
    → deposit_of e.payload ≡ some i
    → pool desk.calls ≡ ok tt
    → is_claimed (codes "deposit_credit") e.event_id desk.store.processed ≡ false
    → find_deposit i desk.store.deposits ≡ some d
    → d.status ≡ DepositStatus.confirming
    → ((after : Desk Store) × (process pool scale cfg (credit_handler uuid_text uuid_v5) e raw desk
          ≡ some (ok tt, after))
        × (after.dead_letters ≡ desk.dead_letters)
        × (after.store ≡ claimed (envelope_of e) desk.store))
      × ((later : Store)
          → is_claimed (codes "deposit_credit") e.event_id later.processed ≡ true
          → handle uuid_text uuid_v5 (envelope_of e) later ≡ (ok HandlerOutcome.done, later))
unfolding process deliver_new after_conflict
process_swallows uuid_text uuid_v5 pool scale cfg e raw desk i d more known named up new f k =
    let both =
      λ (later : Store) (h : is_claimed (codes "deposit_credit") e.event_id later.processed ≡ true).
        handle_forgets uuid_text uuid_v5 (envelope_of e) i desk.store later d named new f k h in
    let own : (e.event_id == e.event_id) ≡ true = ground arith in
    let (first, again) = both (claimed (envelope_of e) desk.store) (rw own refl) in
    let open_ = record desk { calls = desk.calls + 1 } in
    let fresh =
      was_processed-claimed (codes "deposit_credit") e.event_id desk.store.processed ∙ new in
    let two : cfg.max_delivery_attempts - 1 ≡ suc (cfg.max_delivery_attempts - 2) = omega arith in
    (
      (
        after_conflict uuid_text uuid_v5 pool scale cfg e raw open_,
        rw (known, up, deliver_new, fresh, two)
            (deliver_conflict uuid_text uuid_v5 pool scale cfg e raw (cfg.max_delivery_attempts - 2)
              open_ more first again),
        refl,
        refl,
      ),
      λ later h. (both later h).1,
    )

-- ===== src/Lib.antt =====
-- A verification library for ChainRail, a service that credits deposits and pays withdrawals over a
-- double-entry ledger.
--
-- The parts and the files that model them:
-- - crates/common: amounts and their checked arithmetic (Common/Money, crates/common/src/money.rs),
--   the parsers of chain quantities (Common/Money/Parse), errors with their codes (Common/Error,
--   crates/common/src/error.rs), the retry schedule (Common/Retry, crates/common/src/retry.rs), the
--   finality policy (Common/Finality) and the parsing of addresses, hashes and chain identifiers
--   (Common/Address), both of crates/common/src/chain.rs, and the records and rules of the
--   configuration (Common/Config, crates/common/src/config.rs). The events with their topics and
--   names are in Events (crates/common/src/event.rs). Common/Result has the two kinds of fallible
--   computation: a result, and a computation in a database transaction, whose error drops the new
--   state as a rollback does.
-- - crates/events: `process` of the consumer (Events/Consumer, crates/events/src/consumer.rs),
--   which runs a handler over the handler's own tables and writes dead letters. Its loop runs on
--   fuel: the configured number of attempts, or 1 where that is 0, after which the loop stops.
-- - crates/database: the status machines of crates/database/src/models.rs with the trigger of
--   migrations/0005_withdrawals.sql (Models), and the statements on `deposits` with the tables of
--   the deposit path (Deposits).
-- - crates/risk/src/lib.rs: the policy engine (Risk).
-- - crates/ledger: `Posting` (Ledger/Posting), the tables with the triggers and constraints of
--   migrations/0003_ledger.sql (Ledger/Tables), `post_transaction` (Ledger/Service), the resolution
--   of accounts (Ledger/Accounts) and the nine money movements of crates/ledger/src/operations.rs
--   (Ledger/Operations). An operation resolves accounts, builds a posting and calls
--   `post_transaction`, which inserts the entries one by one; the trigger moves a balance with
--   each.
-- - crates/deposits: `DepositCreditHandler` (Deposits/Credit, crates/deposits/src/credit.rs), which
--   calls the ledger's `credit_deposit` and runs under the consumer (Deposits/Credit/Consumed), and
--   `find_common_ancestor` (Deposits/Ancestor, crates/deposits/src/reorg.rs). The look of the
--   confirmation engine at one claimed deposit is in Deposits/Confirmations
--   (crates/deposits/src/confirmations.rs), and Deposits/Lifecycle runs it with the statements that
--   credit and reorg.
-- - crates/database/src/repo/withdrawals.rs: the allocation of nonces (Withdrawals/Nonce), the
--   table with its constraints and its trigger and every compare-and-set statement
--   (Withdrawals/Rows), and idempotent creation (Withdrawals/Requests).
--   crates/database/src/repo/outbox.rs: `enqueue` (Events/Outbox).
-- - crates/withdrawals: `create`, `approve` and `cancel` (Withdrawals/Service,
--   crates/withdrawals/src/service.rs), which check a request, ask the policy engine, reserve in
--   the ledger and write the event in one transaction; and the pipeline of
--   crates/withdrawals/src/pipeline.rs: its transactions (Withdrawals/Transactions) and the passes
--   that run them (Withdrawals/Pipeline). A pass runs over a world (Withdrawals/World): the tables,
--   the transactions that were handed to the network, and the number of the next call of a node.
--   What a transaction committed stays when a later step fails. The trait of a chain adapter and
--   that of a signer are records of functions (Withdrawals/Chain), each answer of which depends on
--   the number of the call.
-- - crates/rpc: the circuit breaker of an endpoint (Rpc/Health, crates/rpc/src/health.rs).
-- Tests has concrete inputs.
--
-- Conventions: an identifier is a number, of which `gen_random_uuid` draws from a supply that is
-- not assumed to be without repetitions; a text is the list of its code points; an i128 is an
-- integer with the range tests of the code written out; u32 and u64 counters wrap around. The text
-- of a UUID (`uuid_text`), the name-based UUID (`uuid_v5`) and the floating-point product of the
-- jitter (`scale`) come from other packages and are parameters. All other loops are structural
-- recursion on a list or a number, so that no fuel is needed. `lower` of the database is that of
-- ASCII. Keccak-256 (`keccak256`), the clock and the UUID that a request draws are arguments as
-- well.
--
-- Sessions run one at a time: row locks, deadlocks and lost races are outside, save that the code's
-- branches for a lost race are there, and that a theorem may start from a row that was read before
-- it changed. Not modelled: the foreign keys and timestamps of the tables, save the time of a
-- withdrawal, the CHECK constraints of `deposits`, the append-only trigger (no operation updates or
-- deletes an entry), texts that only people read, the floating-point score of an endpoint, the
-- timer loop `run` of the pipeline, the batches of the confirmation engine, the watcher, the Kafka
-- loop, the outbox relay and the event bus, the EVM adapter behind its trait, the signer, the RPC
-- gateway, the HTTP interface, the loading of the configuration, logging and metrics.
pub mod Base
pub mod Common
pub mod Models
pub mod Risk
pub mod Ledger
pub mod Rpc
pub mod Events
pub mod Deposits
pub mod Withdrawals
pub mod Tests

-- ===== src/Lib.antt =====
-- TransitGuard, a fictional transit fare platform: the domain model (crates/domain), the fare
-- engine (crates/fare-engine), the credential use cases (crates/application), the protocol between
-- readers and backend (crates/device-protocol), the reader's queue and batches, and the codec of the
-- backend's columns (crates/persistence). A reader presents a fare credential; the fare engine evaluates the
-- presentation under a validated fare policy, online or from cached data offline; the decision is
-- recorded in a fare transaction, the charge is taken from a transit account's stored value, and
-- every change is described by a domain event. The use cases load a credential in a transaction, call
-- the domain, save the credential under the version that was loaded and append the event. A reader
-- puts its decisions into a local queue, reserves runs of it for batches, submits a batch as a request
-- under its fingerprint, and records what the acknowledgement or a failure says of each transaction.
--
-- Files and code:
--   Base                    library names, and Tests (Boolean tests), Result (Rust's `Result`, `?`
--                           as bind), Int (integers, `i64` ranges, `checked_*` and wrap-around),
--                           Machine (an object under a sequence of `&mut self` calls), Sequence
--                           (lists and their order), Text (`trim`, UTF-8, `match` on a text)
--   Domain/Identifier       crates/domain/src/identifier.rs: the newtypes, `validate` and `from_str`; the
--                           uuid crate is a parameter
--   Domain/Money            crates/domain/src/money.rs: `Money` and its checked operations
--   Domain/Transaction      crates/domain/src/transaction.rs: `FareDecision`, `FareTransaction`
--   Domain/Account          crates/domain/src/account.rs: `StoredValueBalance`, `TransitAccount`
--   Domain/Credential       crates/domain/src/credential.rs: `FareCredential`
--   Domain/Equipment        crates/domain/src/equipment.rs: `ReaderEquipment`
--   Domain/Event            crates/domain/src/event.rs: `DomainEventPayload`, `DomainEvent::new`
--   FareEngine/Policy       crates/fare-engine/src/policy.rs: `FarePolicy::validate`
--   FareEngine/Transfer     crates/fare-engine/src/transfer.rs: `apply_transfer`
--   FareEngine/Cap          crates/fare-engine/src/cap.rs: `apply_fare_caps`
--   FareEngine/Product      crates/fare-engine/src/product.rs: `apply_transit_product`
--   FareEngine/Evaluation   crates/fare-engine/src/evaluation.rs: `evaluate_fare`
--   FareEngine/Offline      crates/fare-engine/src/offline.rs: `evaluate_fare_offline`
--   Application/Ports       crates/application/src: versioning.rs, error.rs, and the traits of
--                           ports.rs, clock.rs, unit_of_work.rs as a record of functions
--   Application/Effect      `?` and crates/application/src/use_cases/support.rs: `rollback_with`
--   Application/Events      the construction of an event, which the use cases share
--   Application/StatusChange  activate_, suspend_ and revoke_fare_credential.rs of
--                           crates/application/src/use_cases
--   Application/Issue       crates/application/src/use_cases/issue_fare_credential.rs
--   Application/Replace     crates/application/src/use_cases/replace_fare_credential.rs
--   Application/Triples     what the ports promise (`Transactional`, and `Conforming` in Store), and
--                           rules to compose it
--   Protocol/Version        crates/device-protocol/src/version.rs
--   Protocol/Presentation   crates/device-protocol/src/presentation.rs
--   Protocol/Synchronization  crates/device-protocol/src/synchronization.rs: the values; below it
--                           Category, Entries (the checks of a batch) and Request
--   Protocol/Acknowledgement  the same file: acknowledgements and `validate_against_request`
--   Protocol/Encoding       the `update_*` functions of fingerprint.rs, `to_hex` and `from_str`
--   Protocol/Fingerprint    crates/device-protocol/src/fingerprint.rs: `calculate`
--   Protocol/PayloadFingerprint  crates/device-protocol/src/payload_fingerprint.rs
--   Persistence/Codec       crates/persistence/src/codec.rs, and of error.rs what it reports
--   Persistence/ReaderStore the tables of the reader's database, and the statements on them
--   Persistence/ReaderQueue crates/persistence/src/reader_queue.rs: insertion, loading, decoding
--   Persistence/ReaderQueueState  crates/persistence/src/reader_queue_state.rs
--   Persistence/ReaderSync  crates/persistence/src/reader_sync.rs: creating and loading a batch
--   Persistence/ReaderSyncState  crates/persistence/src/reader_sync_state.rs
-- A component's file has its definitions; the modules below it have its theorems. Examples has
-- concrete inputs.
--
-- How the code is rendered. A struct is a record, an enum a data type, `Result` is `Result`, and a
-- method that takes `&mut self` returns the result together with the object after the call, also
-- when it fails. A `match self.status` is a function by clauses named after the method with `_on`.
-- Constructors that check their argument (`new`, `approved`, `zone_range`) are functions, and the
-- record of a newtype can also be built without them; what they guarantee is then a hypothesis of a
-- theorem (IsEventTime, IsMoney, IsRepresentable), never of a definition.
--
-- The ports of the use cases are trait objects whose implementations are in other crates. They are
-- functions on an abstract world, each of which may fail, and the record `Transactional` states what
-- the documentation of `ApplicationTransaction` promises: a failed call and a rollback make nothing
-- durable, and a commit that succeeds makes the operations of its transaction durable together. The
-- theorems hold for all ports that keep it. Those on success assume `Conforming`, an adapter over a
-- store of versioned aggregates: it enforces each save condition on what the open transaction sees,
-- keeps changes provisional until the commit, generates unused identifiers, and refuses nothing else,
-- while no other transaction runs. Application/Examples has ports of both kinds, in memory. The calls are `async` in
-- the code; a use case awaits each before the next, so their order is the order of the functions.
--
-- The reader's database is a SQLite file. A table is the list of its rows in the order of insertion,
-- a statement is the function on rows that its text describes, an ORDER BY is an insertion sort, and a
-- UNIQUE constraint is a test. The engine itself, an `Engine`, is a parameter: it decides of each
-- connection, statement and commit whether it fails, also for another constraint, so an error path is
-- one of its states. A transaction that is not committed leaves the tables as they were. The crates that the
-- code calls are parameters as well: uuid (parsing and printing of identifiers), serde_json (values and
-- their canonical text) and sha2 (the hash of a byte sequence); what a theorem needs of them is its
-- hypothesis. The fingerprints are studied on the bytes that are hashed.
--
-- Bounds. `i64` amounts and times are integers, with the range written out: `checked_*` operations
-- and `i64::try_from` test the range, and the unchecked operations (the cap sums, the elapsed time of
-- a transfer, the age of a snapshot) wrap as a release build does. Unsigned numbers are
-- natural numbers; the code only compares them, takes `abs_diff`, and multiplies in `i128`, whose
-- range a product of an `i64` and a `u16` cannot leave. The unsigned numbers of the protocol are cast to big-endian bytes of their width, and those of a row are
-- i64 columns that `try_from` refuses out of range. No definition recurses on fuel.
--
-- Not modelled: derived serialization, display and error texts; the generation of identifiers; the
-- stand-alone repository traits; the reader's storage and application of acknowledgements, the request
-- built from a stored batch and the health summary (the other reader_*.rs files of
-- crates/persistence/src); the repositories of the backend
-- database, the HTTP service, the simulator and telemetry (crates/telemetry, apps), which are adapters
-- around these parts.
pub mod Base
pub mod Domain
pub mod FareEngine
pub mod Protocol
pub mod Persistence
pub mod Application

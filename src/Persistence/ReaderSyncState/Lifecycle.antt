-- ===== src/Persistence/ReaderSyncState/Lifecycle.antt =====
-- What the transitions of a batch do to the two tables: no batch and no transaction is lost, reordered
-- or given another identity, and a batch keeps the time at which it was first submitted.
use transit_guard.Base.{Bool, ◌≡◌, subst, inl, inr, String, List, [], ◌∷◌, ◌&&◌, not, true}
use transit_guard.Base.Tests.{Bool-cases, ◌==◌ as nat_eq}
use transit_guard.Base.Result.{Result, ok, err, >>=-eq-ok, Result-cases, ok-injective}
use transit_guard.Base.Int.{ℤ}
use text.Mathlib.Text.{◌==◌}
use transit_guard.Domain.Identifier.{UuidCrate, ReaderId, SynchronizationBatchId}
use transit_guard.Persistence.ReaderStore.{
  Engine, ReaderStore, StoredSynchronizationBatch, update_where, count_where,
}
use transit_guard.Persistence.ReaderStore.Pointwise.{
  Pointwise, Pointwise-refl, Pointwise-trans, update_where-Pointwise,
}
use transit_guard.Persistence.ReaderQueueState.Lifecycle.{Evolves, Evolves-refl, Evolves-trans}
use transit_guard.Persistence.ReaderQueueState.{restart_failure_category}
use transit_guard.Persistence.ReaderSyncState.{
  ReaderSynchronizationStateError, refuse_if, run_statement, names_batch, names_entry, starts,
  started_at, in_batch, attempted_at, submitted, failed_at, batch_in_flight_before, check_failure,
  report_failure, recover_batches, validate_operation_time, mark_synchronization_batch_in_flight,
  record_synchronization_retryable_failure, recover_interrupted_synchronization_batches,
}
use transit_guard.Persistence.ReaderSyncState.Evolution.{
  BatchEvolves, BatchEvolves-refl, BatchEvolves-trans, last_of_and, starts-BatchEvolves,
  fails-BatchEvolves, in_batch-Evolves,
}

module _ (crate : UuidCrate) where
  -- Both tables evolve.
  pub record StoreEvolves (old new : ReaderStore) : Type 0 where
    pub batches : Pointwise BatchEvolves old.synchronization_batches new.synchronization_batches
    pub transactions : Pointwise Evolves old.offline_transactions new.offline_transactions

  unchanged : (store : ReaderStore) → StoreEvolves store store
  unchanged store = record {
    batches = Pointwise-refl BatchEvolves BatchEvolves-refl store.synchronization_batches;
    transactions = Pointwise-refl Evolves Evolves-refl store.offline_transactions;
  }

  submitted-StoreEvolves :
      (engine : Engine) (store : ReaderStore) (reader_id : ReaderId)
      (batch_id : SynchronizationBatchId) (at : ℤ)
      → StoreEvolves store (record store {
        synchronization_batches =
            update_where
              (starts crate reader_id batch_id at)
              (started_at crate at)
              store.synchronization_batches;
        offline_transactions =
            update_where
              (in_batch crate store reader_id batch_id at)
              (attempted_at crate at)
              store.offline_transactions;
      })
  submitted-StoreEvolves engine store reader_id batch_id at = record {
    batches =
        update_where-Pointwise BatchEvolves BatchEvolves-refl (starts crate reader_id batch_id at)
          (started_at crate at) (starts-BatchEvolves crate reader_id batch_id at)
          store.synchronization_batches;
    transactions =
        update_where-Pointwise Evolves Evolves-refl (in_batch crate store reader_id batch_id at)
          (attempted_at crate at) (in_batch-Evolves crate store reader_id batch_id at)
          store.offline_transactions;
  }

  batches-StoreEvolves :
      (store : ReaderStore) (where_clause : StoredSynchronizationBatch → Bool) (at retry_at : ℤ)
      (category : String)
      → ((row : StoredSynchronizationBatch)
          → where_clause row ≡ true
          → batch_in_flight_before crate at row ≡ true)
      → StoreEvolves store (record store {
        synchronization_batches =
            update_where where_clause
              (failed_at crate at retry_at category)
              store.synchronization_batches;
      })
  batches-StoreEvolves store where_clause at retry_at category in_flight = record {
    batches =
        update_where-Pointwise BatchEvolves BatchEvolves-refl where_clause
          (failed_at crate at retry_at category)
          (λ row selected.
            fails-BatchEvolves crate at retry_at category row (in_flight row selected))
          store.synchronization_batches;
    transactions = Pointwise-refl Evolves Evolves-refl store.offline_transactions;
  }

  submitted-effect :
      (engine : Engine) (store : ReaderStore) (reader_id : ReaderId)
      (batch_id : SynchronizationBatchId) (at : ℤ) (store' : ReaderStore)
      → submitted crate engine store reader_id batch_id at ≡ ok store'
      → StoreEvolves store store'
  unfolding submitted
  submitted-effect engine store reader_id batch_id at store' h =
      let (_, _, h1) = >>=-eq-ok (validate_operation_time at) _ h in
      let (_, _, h2) = >>=-eq-ok (run_statement engine "begin batch submission") _ h1 in
      let (_, _, h3) = >>=-eq-ok (run_statement engine "mark batch in flight") _ h2 in
      let (_, _, h4) =
        >>=-eq-ok
          (refuse_if
            (not (
              nat_eq
                (count_where (starts crate reader_id batch_id at) store.synchronization_batches) 1))
            (ReaderSynchronizationStateError.invalid_transition batch_id "mark_in_flight"))
          _ h3 in
      let (_, _, h5) = >>=-eq-ok (run_statement engine "count batch entries") _ h4 in
      let expected =
        count_where (names_entry crate reader_id batch_id) store.synchronization_entries in
      let (_, _, h6) =
        >>=-eq-ok
          (refuse_if (nat_eq expected 0)
            (ReaderSynchronizationStateError.invalid_stored_value "batch_entry_count"))
          _ h5 in
      let (_, _, h7) = >>=-eq-ok (run_statement engine "increment batch entry attempts") _ h6 in
      let updated =
        count_where (in_batch crate store reader_id batch_id at) store.offline_transactions in
      let (_, _, h8) =
        >>=-eq-ok
          (refuse_if (not (nat_eq updated expected))
            (ReaderSynchronizationStateError.batch_entry_conflict batch_id expected updated))
          _ h7 in
      let (_, _, h9) = >>=-eq-ok (run_statement engine "commit batch submission") _ h8 in
      subst (StoreEvolves store) (ok-injective h9)
        (submitted-StoreEvolves engine store reader_id batch_id at)

  mark-StoreEvolves :
      (engine : Engine) (store : ReaderStore) (reader_id : ReaderId)
      (batch_id : SynchronizationBatchId) (at : ℤ)
      → StoreEvolves store
          (mark_synchronization_batch_in_flight crate engine store reader_id batch_id at).1
  unfolding mark_synchronization_batch_in_flight
  mark-StoreEvolves engine store reader_id batch_id at =
      elim (Result-cases (submitted crate engine store reader_id batch_id at)) [
        | inl (store', done) ↦
            rw (done, mark_synchronization_batch_in_flight)
              (submitted-effect engine store reader_id batch_id at store' done)
        | inr (_, failed) ↦ rw (failed, mark_synchronization_batch_in_flight) (unchanged store)
      ]

  report-StoreEvolves :
      (engine : Engine) (store : ReaderStore) (reader_id : ReaderId)
      (batch_id : SynchronizationBatchId) (at retry_at : ℤ)
      (checked : Result String ReaderSynchronizationStateError)
      → StoreEvolves store
          (report_failure crate engine store reader_id batch_id at retry_at checked).1
  unfolding report_failure
  report-StoreEvolves engine store reader_id batch_id at retry_at (err failure) = unchanged store
  report-StoreEvolves engine store reader_id batch_id at retry_at (ok category) =
      let fails = λ (row : StoredSynchronizationBatch).
        names_batch crate reader_id batch_id row && batch_in_flight_before crate at row in
      let changed =
        batches-StoreEvolves store fails at retry_at category
          (λ row selected. last_of_and _ _ selected) in
      elim (Bool-cases (engine "record retryable batch failure")) [
        | inr down ↦ rw down (unchanged store)
        | inl up ↦
            rw up (elim (Bool-cases (nat_eq (count_where fails store.synchronization_batches) 1)) [
              | inl one ↦ rw one changed
              | inr other ↦ rw other changed
            ])
      ]

  recover-StoreEvolves :
      (engine : Engine) (store : ReaderStore) (reader_id : ReaderId) (at : ℤ)
      (checked : Result (Unit {0}) ReaderSynchronizationStateError)
      → StoreEvolves store (recover_batches crate engine store reader_id at checked).1
  unfolding recover_batches
  recover-StoreEvolves engine store reader_id at (err failure) = unchanged store
  recover-StoreEvolves engine store reader_id at (ok done) =
      elim (Bool-cases (engine "recover interrupted batches")) [
        | inr down ↦ rw down (unchanged store)
        | inl up ↦ rw up (
            batches-StoreEvolves store
              (λ row.
                row.reader_id == crate.to_string reader_id && batch_in_flight_before crate at row)
              at at restart_failure_category (λ row selected. last_of_and _ _ selected))
      ]

  -- The calls that a reader makes on its batches.
  pub data BatchOp : Type 0 where
    submit : ReaderId → SynchronizationBatchId → ℤ → BatchOp
    fail : ReaderId → SynchronizationBatchId → String → ℤ → ℤ → BatchOp
    recover : ReaderId → ℤ → BatchOp

  -- The database after a call, whatever its result.
  unfoldable pub batch_step : Engine → BatchOp → ReaderStore → ReaderStore
  batch_step engine (submit reader batch at) store =
      (mark_synchronization_batch_in_flight crate engine store reader batch at).1
  batch_step engine (fail reader batch category at retry_at) store =
      (record_synchronization_retryable_failure crate engine store reader batch category at
        retry_at).1
  batch_step engine (recover reader at) store =
      (recover_interrupted_synchronization_batches crate engine store reader at).1

  batch_step-StoreEvolves :
      (engine : Engine) (op : BatchOp) (store : ReaderStore)
      → StoreEvolves store (batch_step engine op store)
  unfolding batch_step record_synchronization_retryable_failure
      recover_interrupted_synchronization_batches
  batch_step-StoreEvolves engine (submit reader batch at) store =
      mark-StoreEvolves engine store reader batch at
  batch_step-StoreEvolves engine (fail reader batch category at retry_at) store =
      report-StoreEvolves engine store reader batch at retry_at
        (check_failure crate category at retry_at)
  batch_step-StoreEvolves engine (recover reader at) store =
      recover-StoreEvolves engine store reader at (validate_operation_time at)

  -- The database after a sequence of calls. Each may meet another state of the engine.
  unfoldable pub run_batches : List (Engine × BatchOp) → ReaderStore → ReaderStore
  unfolding batch_step
  run_batches [] store = store
  run_batches ((engine, op) ∷ ops) store = run_batches ops (batch_step engine op store)

  -- Under any sequence of submissions, failure reports and recoveries both tables keep their rows in
  -- their order, and each row its identity; attempts and update times never go back; a batch that has a
  -- submission time keeps it; and a batch or transaction in a final state stays as it is.
  pub run_batches-StoreEvolves :
      (ops : List (Engine × BatchOp)) (store : ReaderStore)
      → StoreEvolves store (run_batches ops store)
  unfolding run_batches
  run_batches-StoreEvolves [] store = unchanged store
  run_batches-StoreEvolves ((engine, op) ∷ ops) store =
      let first = batch_step-StoreEvolves engine op store in
      let rest = run_batches-StoreEvolves ops (batch_step engine op store) in
      record {
        batches =
            Pointwise-trans BatchEvolves BatchEvolves-refl BatchEvolves-trans _ _ _ first.batches
              rest.batches;
        transactions =
            Pointwise-trans Evolves Evolves-refl Evolves-trans _ _ _ first.transactions
              rest.transactions;
      }

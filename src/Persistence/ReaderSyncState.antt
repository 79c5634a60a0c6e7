-- ===== src/Persistence/ReaderSyncState.antt =====
-- crates/persistence/src/reader_sync_state.rs: the transitions of a batch and the reading of those that
-- are ready.
pub mod Evolution
pub mod Lifecycle
use transit_guard.Base.{
  ℕ, suc, ◌+◌, ◌^◌, String, Bool, true, false, ◌&&◌, ◌||◌, not, Option, none, some, List, [], ◌∷◌,
}
use transit_guard.Base.Tests.{ltb, if◌then◌else◌, ◌==◌}
use transit_guard.Base.Result.{Result, ok, err, ◌>>=◌, ◌>>◌, map_err}
use transit_guard.Base.Int.{ℤ, pos, ltb_ℤ, leb_ℤ, eqb_ℤ, ◌+ℤ◌}
use transit_guard.Base.Sequence.{take}
use transit_guard.Base.Text.{trim, is_empty}
use Prim.Native.Nat.{Ordering}
use Prim.Native.String.{compare}
use text.Mathlib.Text.{◌==◌ as text_eq}
use transit_guard.Domain.Identifier.{UuidCrate, ReaderId, SynchronizationBatchId, from_str}
use transit_guard.Persistence.ReaderStore.{
  Engine, ReaderStore, StoredOfflineTransaction, StoredSynchronizationBatch,
  StoredSynchronizationEntry, update_where, count_where, select_where, exists_where, retry_due,
}
use transit_guard.Persistence.ReaderQueueState.{restart_failure_category}
use transit_guard.Persistence.ReaderSync.{
  SynchronizationBatch, ReaderSynchronizationError, load_synchronization_batch,
}

pub data ReaderSynchronizationStateError : Type 0 where
  negative_operation_time : ℤ → ReaderSynchronizationStateError
  empty_failure_category : ReaderSynchronizationStateError
  retry_before_update : ℤ → ℤ → ReaderSynchronizationStateError
  zero_read_limit : ReaderSynchronizationStateError
  read_limit_too_large : ℕ → ReaderSynchronizationStateError
  invalid_transition : SynchronizationBatchId → String → ReaderSynchronizationStateError
  batch_entry_conflict : SynchronizationBatchId → ℕ → ℕ → ReaderSynchronizationStateError
  invalid_stored_value : String → ReaderSynchronizationStateError
  synchronization : ReaderSynchronizationError → ReaderSynchronizationStateError
  database : String → ReaderSynchronizationStateError

abbrev Checked : Type 0 → Type 0
Checked A = Result A ReaderSynchronizationStateError

abbrev refuse_if :
    Bool → ReaderSynchronizationStateError → Result (Unit {0}) ReaderSynchronizationStateError
refuse_if refused failure = if refused then err failure else ok tt

abbrev run_statement : Engine → String → Result (Unit {0}) ReaderSynchronizationStateError
run_statement engine operation =
    refuse_if (not (engine operation)) (ReaderSynchronizationStateError.database operation)

unfoldable pub validate_operation_time : ℤ → Result (Unit {0}) ReaderSynchronizationStateError
validate_operation_time unix_milliseconds =
    if ltb_ℤ unix_milliseconds (pos 0)
    then err (ReaderSynchronizationStateError.negative_operation_time unix_milliseconds)
    else ok tt

unfoldable pub validate_failure_category : String → Result String ReaderSynchronizationStateError
unfolding trim
validate_failure_category failure_category =
    if is_empty (trim failure_category)
    then err ReaderSynchronizationStateError.empty_failure_category
    else ok (trim failure_category)

-- SQLite compares texts by their bytes.
abbrev text_leb : String → String → Bool
text_leb a b = elim (compare a b) [ Ordering.gt ↦ false | _ ↦ true ]

-- `COALESCE`.
abbrev coalesce : Option ℤ → ℤ → Option ℤ
coalesce none value = some value
coalesce (some old) value = some old

-- The part of the WHERE clauses about the state and the retry time of a batch.
abbrev pub is_due : StoredSynchronizationBatch → ℤ → Bool
is_due row now =
    text_eq row.batch_state "prepared"
    || (text_eq row.batch_state "retryable_failure"
        && retry_due row.next_retry_at_unix_milliseconds now)

module _ (crate : UuidCrate) where
  -- `batch_id = ? AND reader_id = ?`.
  abbrev names_batch : ReaderId → SynchronizationBatchId → StoredSynchronizationBatch → Bool
  names_batch reader_id batch_id row =
      text_eq row.batch_id (crate.to_string batch_id)
      && text_eq row.reader_id (crate.to_string reader_id)

  abbrev names_entry : ReaderId → SynchronizationBatchId → StoredSynchronizationEntry → Bool
  names_entry reader_id batch_id row =
      text_eq row.batch_id (crate.to_string batch_id)
      && text_eq row.reader_id (crate.to_string reader_id)

  -- The first UPDATE of a submission.
  abbrev starts : ReaderId → SynchronizationBatchId → ℤ → StoredSynchronizationBatch → Bool
  starts reader_id batch_id at row =
      names_batch reader_id batch_id row
      && leb_ℤ row.updated_at_unix_milliseconds at
      && is_due row at

  abbrev started_at : ℤ → StoredSynchronizationBatch → StoredSynchronizationBatch
  started_at at row = record row {
    batch_state = "in_flight";
    attempt_count = row.attempt_count +ℤ pos 1;
    submitted_at_unix_milliseconds = coalesce row.submitted_at_unix_milliseconds at;
    next_retry_at_unix_milliseconds = none;
    last_failure_category = none;
    updated_at_unix_milliseconds = at;
  }

  -- Its second UPDATE, of the transactions in the batch.
  abbrev in_batch :
      ReaderStore → ReaderId → SynchronizationBatchId → ℤ → StoredOfflineTransaction → Bool
  in_batch store reader_id batch_id at row =
      text_eq row.reader_id (crate.to_string reader_id)
      && text_eq row.queue_state "in_flight"
      && leb_ℤ row.updated_at_unix_milliseconds at
      && exists_where
          (λ (entry : StoredSynchronizationEntry).
            names_entry reader_id batch_id entry
            && text_eq entry.fare_transaction_id row.fare_transaction_id)
          store.synchronization_entries

  abbrev attempted_at : ℤ → StoredOfflineTransaction → StoredOfflineTransaction
  attempted_at at row = record row {
    attempt_count = row.attempt_count +ℤ pos 1;
    updated_at_unix_milliseconds = at;
  }

  -- The transaction of a submission, on success with the store that it commits.
  submitted :
      Engine
      → ReaderStore
      → ReaderId
      → SynchronizationBatchId
      → ℤ
      → Result ReaderStore ReaderSynchronizationStateError
  submitted engine store reader_id batch_id at = do
    validate_operation_time at
    run_statement engine "begin batch submission"
    run_statement engine "mark batch in flight"
    refuse_if (not (count_where (starts reader_id batch_id at) store.synchronization_batches == 1))
        (ReaderSynchronizationStateError.invalid_transition batch_id "mark_in_flight")
    run_statement engine "count batch entries"
    let expected = count_where (names_entry reader_id batch_id) store.synchronization_entries
    refuse_if (expected == 0)
        (ReaderSynchronizationStateError.invalid_stored_value "batch_entry_count")
    run_statement engine "increment batch entry attempts"
    let updated = count_where (in_batch store reader_id batch_id at) store.offline_transactions
    refuse_if (not (updated == expected))
        (ReaderSynchronizationStateError.batch_entry_conflict batch_id expected updated)
    run_statement engine "commit batch submission"
    ok (record store {
      synchronization_batches =
          update_where (starts reader_id batch_id at) (started_at at) store.synchronization_batches;
      offline_transactions =
          update_where (in_batch store reader_id batch_id at) (attempted_at at)
            store.offline_transactions;
    })

  -- A call that changed the database reads the batch back.
  abbrev read_back :
      Engine
      → ReaderId
      → SynchronizationBatchId
      → ReaderStore
      → Result SynchronizationBatch ReaderSynchronizationStateError × ReaderStore
  read_back engine reader_id batch_id store = (
    map_err ReaderSynchronizationStateError.synchronization
        (load_synchronization_batch crate engine store reader_id batch_id),
    store,
  )

  unfoldable pub mark_synchronization_batch_in_flight :
      Engine
      → ReaderStore
      → ReaderId
      → SynchronizationBatchId
      → ℤ
      → Result SynchronizationBatch ReaderSynchronizationStateError × ReaderStore
  unfolding submitted validate_operation_time update_where count_where exists_where
      load_synchronization_batch
  mark_synchronization_batch_in_flight engine store reader_id batch_id at =
      elim (submitted engine store reader_id batch_id at) [
        | ok store' ↦ read_back engine reader_id batch_id store'
        | err failure ↦ (err failure, store)
      ]

  abbrev batch_in_flight_before : ℤ → StoredSynchronizationBatch → Bool
  batch_in_flight_before at row =
      text_eq row.batch_state "in_flight" && leb_ℤ row.updated_at_unix_milliseconds at

  abbrev failed_at : ℤ → ℤ → String → StoredSynchronizationBatch → StoredSynchronizationBatch
  failed_at at retry_at category row = record row {
    batch_state = "retryable_failure";
    next_retry_at_unix_milliseconds = some retry_at;
    last_failure_category = some category;
    updated_at_unix_milliseconds = at;
  }

  -- The checks of a failure report; the category is trimmed.
  check_failure : String → ℤ → ℤ → Result String ReaderSynchronizationStateError
  check_failure failure_category updated_at retry_at = do
    validate_operation_time updated_at
    validate_operation_time retry_at
    refuse_if (ltb_ℤ retry_at updated_at)
        (ReaderSynchronizationStateError.retry_before_update retry_at updated_at)
    validate_failure_category failure_category

  -- The statement is not in a transaction: the check of `rows_affected` comes after its effect.
  report_failure :
      Engine
      → ReaderStore
      → ReaderId
      → SynchronizationBatchId
      → ℤ
      → ℤ
      → Result String ReaderSynchronizationStateError
      → Result SynchronizationBatch ReaderSynchronizationStateError × ReaderStore
  report_failure engine store reader_id batch_id updated_at retry_at (err failure) =
      (err failure, store)
  report_failure engine store reader_id batch_id updated_at retry_at (ok category) =
      let fails = λ (row : StoredSynchronizationBatch).
        names_batch reader_id batch_id row && batch_in_flight_before updated_at row in
      let store' = record store {
        synchronization_batches =
            update_where fails (failed_at updated_at retry_at category)
              store.synchronization_batches;
      } in
      if not (engine "record retryable batch failure")
      then (err (ReaderSynchronizationStateError.database "record retryable batch failure"), store)
      else if not (count_where fails store.synchronization_batches == 1)
      then (
        err (
            ReaderSynchronizationStateError.invalid_transition batch_id "record_retryable_failure"),
        store',
      )
      else read_back engine reader_id batch_id store'

  unfoldable pub record_synchronization_retryable_failure :
      Engine
      → ReaderStore
      → ReaderId
      → SynchronizationBatchId
      → String
      → ℤ
      → ℤ
      → Result SynchronizationBatch ReaderSynchronizationStateError × ReaderStore
  unfolding report_failure check_failure validate_operation_time validate_failure_category
      update_where count_where load_synchronization_batch
  record_synchronization_retryable_failure engine store reader_id batch_id category updated_at
        retry_at =
      report_failure engine store reader_id batch_id updated_at retry_at
        (check_failure category updated_at retry_at)

  -- The UPDATE of a recovery, past the check of the time.
  recover_batches :
      Engine
      → ReaderStore
      → ReaderId
      → ℤ
      → Result (Unit {0}) ReaderSynchronizationStateError
      → Result ℕ ReaderSynchronizationStateError × ReaderStore
  recover_batches engine store reader_id at (err failure) = (err failure, store)
  recover_batches engine store reader_id at (ok done) =
      let interrupted = λ (row : StoredSynchronizationBatch).
        text_eq row.reader_id (crate.to_string reader_id) && batch_in_flight_before at row in
      if not (engine "recover interrupted batches")
      then (err (ReaderSynchronizationStateError.database "recover interrupted batches"), store)
      else (
        ok (count_where interrupted store.synchronization_batches),
        record store {
          synchronization_batches =
              update_where interrupted (failed_at at at restart_failure_category)
                store.synchronization_batches;
        },
      )

  unfoldable pub recover_interrupted_synchronization_batches :
      Engine → ReaderStore → ReaderId → ℤ → Result ℕ ReaderSynchronizationStateError × ReaderStore
  unfolding recover_batches validate_operation_time update_where count_where
  recover_interrupted_synchronization_batches engine store reader_id recovered_at =
      recover_batches engine store reader_id recovered_at (validate_operation_time recovered_at)

  -- `ORDER BY first_local_sequence_number, created_at_unix_milliseconds, batch_id`.
  abbrev comes_first : StoredSynchronizationBatch → StoredSynchronizationBatch → Bool
  comes_first a b =
      ltb_ℤ a.first_local_sequence_number b.first_local_sequence_number
      || (eqb_ℤ a.first_local_sequence_number b.first_local_sequence_number
          && (ltb_ℤ a.created_at_unix_milliseconds b.created_at_unix_milliseconds
              || (eqb_ℤ a.created_at_unix_milliseconds b.created_at_unix_milliseconds
                  && text_leb a.batch_id b.batch_id)))

  insert_batch :
      StoredSynchronizationBatch → List StoredSynchronizationBatch → List StoredSynchronizationBatch
  insert_batch row [] = row ∷ []
  insert_batch row (other ∷ rows) =
      if comes_first row other then row ∷ other ∷ rows else other ∷ insert_batch row rows

  order_batches : List StoredSynchronizationBatch → List StoredSynchronizationBatch
  order_batches [] = []
  order_batches (row ∷ rows) = insert_batch row (order_batches rows)

  -- The loop over the identities.
  load_each :
      Engine
      → ReaderStore
      → ReaderId
      → List StoredSynchronizationBatch
      → Result (List SynchronizationBatch) ReaderSynchronizationStateError
  load_each engine store reader_id [] = ok []
  load_each engine store reader_id (row ∷ rows) =
      let load_rest = load_each engine store reader_id rows in
      map_err (λ _. ReaderSynchronizationStateError.invalid_stored_value "batch_id")
        (from_str crate "synchronization batch identifier" row.batch_id)
      >>= λ batch_id.
          map_err ReaderSynchronizationStateError.synchronization
            (load_synchronization_batch crate engine store reader_id batch_id)
          >>= λ batch. load_rest >>= λ batches. ok (batch ∷ batches)

  unfoldable pub load_ready_synchronization_batches :
      Engine
      → ReaderStore
      → ReaderId
      → ℤ
      → ℕ
      → Result (List SynchronizationBatch) ReaderSynchronizationStateError
  unfolding validate_operation_time load_each order_batches insert_batch select_where
      load_synchronization_batch from_str
  load_ready_synchronization_batches engine store reader_id now limit = do
    validate_operation_time now
    refuse_if (limit == 0) ReaderSynchronizationStateError.zero_read_limit
    refuse_if (not (ltb limit (2 ^ 63)))
        (ReaderSynchronizationStateError.read_limit_too_large limit)
    run_statement engine "load ready batch identities"
    load_each engine store reader_id (
        take limit (
          order_batches (
            select_where
              (λ (row : StoredSynchronizationBatch).
                text_eq row.reader_id (crate.to_string reader_id) && is_due row now)
              store.synchronization_batches)))

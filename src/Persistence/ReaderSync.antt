-- ===== src/Persistence/ReaderSync.antt =====
-- crates/persistence/src/reader_sync.rs: the batches in which a reader submits its queue, their creation
-- and their decoding.
use transit_guard.Base.{
  ℕ, suc, ◌^◌, String, Bool, ◌&&◌, ◌||◌, not, Option, none, List, [], ◌∷◌, ◌++◌,
}
use transit_guard.Base.Tests.{ltb, if◌then◌else◌, ◌==◌}
use transit_guard.Base.Result.{Result, ok, err, ◌>>=◌, ◌>>◌, map_err, ok_or}
use transit_guard.Base.Int.{ℤ, pos, negsuc, ltb_ℤ, leb_ℤ, eqb_ℤ, checked_i64}
use transit_guard.Base.Sequence.{first, last, take}
use transit_guard.Base.Text.{match_text}
use text.Mathlib.Text.{◌==◌ as text_eq}
use transit_guard.Domain.Identifier.{
  UuidCrate, FareTransactionId, ReaderId, SynchronizationBatchId, from_str,
}
use transit_guard.Domain.Transaction.{LocalSequenceNumber, new_sequence_number}
use transit_guard.Protocol.Version.{DeviceProtocolVersion, new_version}
use transit_guard.Persistence.ReaderStore.{
  Engine, ReaderStore, StoredOfflineTransaction, StoredSynchronizationBatch,
  StoredSynchronizationEntry, update_where, count_where, select_where, order_by, is_reserved,
}
use transit_guard.Persistence.ReaderQueue.{u64_try_from, u32_try_from, is_negative_time}
use transit_guard.Persistence.ReaderQueueState.{is_eligible}

pub data SynchronizationBatchState : Type 0 where
  prepared in_flight retryable_failure : SynchronizationBatchState
  acknowledged permanent_failure manual_review : SynchronizationBatchState

unfoldable pub batch_state_as_str : SynchronizationBatchState → String
batch_state_as_str SynchronizationBatchState.prepared = "prepared"
batch_state_as_str SynchronizationBatchState.in_flight = "in_flight"
batch_state_as_str SynchronizationBatchState.retryable_failure = "retryable_failure"
batch_state_as_str SynchronizationBatchState.acknowledged = "acknowledged"
batch_state_as_str SynchronizationBatchState.permanent_failure = "permanent_failure"
batch_state_as_str SynchronizationBatchState.manual_review = "manual_review"

pub data ReaderSynchronizationError : Type 0 where
  negative_operation_time : ℤ → ReaderSynchronizationError
  zero_batch_limit : ReaderSynchronizationError
  batch_limit_too_large : ℕ → ReaderSynchronizationError
  no_eligible_transactions : ReaderId → ReaderSynchronizationError
  batch_not_found : SynchronizationBatchId → ReaderId → ReaderSynchronizationError
  queue_state_conflict : FareTransactionId → ReaderSynchronizationError
  invalid_stored_value : String → ReaderSynchronizationError
  database : String → ReaderSynchronizationError

abbrev pub batch_state_arms : List (String × SynchronizationBatchState)
batch_state_arms =
    ("prepared", SynchronizationBatchState.prepared)
    ∷ ("in_flight", SynchronizationBatchState.in_flight)
    ∷ ("retryable_failure", SynchronizationBatchState.retryable_failure)
    ∷ ("acknowledged", SynchronizationBatchState.acknowledged)
    ∷ ("permanent_failure", SynchronizationBatchState.permanent_failure)
    ∷ ("manual_review", SynchronizationBatchState.manual_review)
    ∷ []

unfoldable pub parse_batch_state :
    String → Result SynchronizationBatchState ReaderSynchronizationError
unfolding match_text
parse_batch_state value =
    match_text value batch_state_arms
      (ReaderSynchronizationError.invalid_stored_value "batch_state")

pub record SynchronizationBatchEntry : Type 0 where
  pub transaction_id : FareTransactionId
  pub local_sequence_number : LocalSequenceNumber

pub record SynchronizationBatch : Type 0 where
  pub batch_id : SynchronizationBatchId
  pub reader_id : ReaderId
  pub protocol_version : DeviceProtocolVersion
  pub first_local_sequence_number : LocalSequenceNumber
  pub last_local_sequence_number : LocalSequenceNumber
  pub state : SynchronizationBatchState
  pub attempt_count : ℕ
  pub submitted_at_unix_milliseconds : Option ℤ
  pub next_retry_at_unix_milliseconds : Option ℤ
  pub last_failure_category : Option String
  pub created_at_unix_milliseconds : ℤ
  pub updated_at_unix_milliseconds : ℤ
  pub entries : List SynchronizationBatchEntry

abbrev invalid : {A E : Type 0} → String → Result A E → Result A ReaderSynchronizationError
invalid field result = map_err (λ _. ReaderSynchronizationError.invalid_stored_value field) result

abbrev refuse_if : Bool → ReaderSynchronizationError → Result (Unit {0}) ReaderSynchronizationError
refuse_if refused failure = if refused then err failure else ok tt

unfoldable pub validate_operation_time : ℤ → Result (Unit {0}) ReaderSynchronizationError
validate_operation_time unix_milliseconds =
    if ltb_ℤ unix_milliseconds (pos 0)
    then err (ReaderSynchronizationError.negative_operation_time unix_milliseconds)
    else ok tt

unfoldable pub decode_sequence : ℤ → String → Result LocalSequenceNumber ReaderSynchronizationError
unfolding new_sequence_number
decode_sequence stored field = do
  value ← invalid field (u64_try_from stored)
  invalid field (new_sequence_number value)

unfoldable pub sequence_to_i64 : LocalSequenceNumber → Result ℤ ReaderSynchronizationError
sequence_to_i64 sequence =
    ok_or (checked_i64 (pos sequence.value))
      (ReaderSynchronizationError.invalid_stored_value "local_sequence_number")

-- `u16::try_from` of an `i64`.
abbrev u16_try_from : ℤ → Result ℕ (Unit {0})
u16_try_from (pos value) = if ltb value (2 ^ 16) then ok value else err tt
u16_try_from (negsuc value) = err tt

module _ (crate : UuidCrate) where
  unfoldable pub decode_candidate :
      String → ℤ → Result SynchronizationBatchEntry ReaderSynchronizationError
  unfolding from_str decode_sequence
  decode_candidate fare_transaction_id local_sequence_number = do
    transaction_id ←
        invalid "fare_transaction_id"
          (from_str crate "fare transaction identifier" fare_transaction_id)
    sequence ← decode_sequence local_sequence_number "local_sequence_number"
    ok (record { transaction_id = transaction_id; local_sequence_number = sequence })

  -- The loop over the stored entries, with the position that it expects.
  decode_entries :
      ℕ
      → List StoredSynchronizationEntry
      → Result (List SynchronizationBatchEntry) ReaderSynchronizationError
  decode_entries expected_position [] = ok []
  decode_entries expected_position (stored ∷ rest) =
      let decode_rest = decode_entries (suc expected_position) rest in
      invalid "entry_position" (u64_try_from stored.entry_position) >>= λ actual_position.
      refuse_if (not (actual_position == expected_position))
        (ReaderSynchronizationError.invalid_stored_value "entry_position")
      >> (decode_candidate stored.fare_transaction_id stored.local_sequence_number >>= λ entry.
          decode_rest >>= λ entries. ok (entry ∷ entries))

  unfoldable pub decode_stored_batch :
      StoredSynchronizationBatch
      → List StoredSynchronizationEntry
      → Result SynchronizationBatch ReaderSynchronizationError
  unfolding from_str new_version decode_sequence parse_batch_state decode_entries
  decode_stored_batch stored stored_entries = do
    batch_id ←
        invalid "batch_id" (from_str crate "synchronization batch identifier" stored.batch_id)
    reader_id ← invalid "reader_id" (from_str crate "reader identifier" stored.reader_id)
    protocol_value ← invalid "protocol_version" (u16_try_from stored.protocol_version)
    protocol_version ← invalid "protocol_version" (new_version protocol_value)
    first_sequence ←
        decode_sequence stored.first_local_sequence_number "first_local_sequence_number"
    last_sequence ← decode_sequence stored.last_local_sequence_number "last_local_sequence_number"
    refuse_if (ltb last_sequence.value first_sequence.value)
        (ReaderSynchronizationError.invalid_stored_value "last_local_sequence_number")
    state ← parse_batch_state stored.batch_state
    attempt_count ← invalid "attempt_count" (u32_try_from stored.attempt_count)
    refuse_if (is_negative_time stored.submitted_at_unix_milliseconds)
        (ReaderSynchronizationError.invalid_stored_value "submitted_at_unix_milliseconds")
    refuse_if (is_negative_time stored.next_retry_at_unix_milliseconds)
        (ReaderSynchronizationError.invalid_stored_value "next_retry_at_unix_milliseconds")
    refuse_if (ltb_ℤ stored.created_at_unix_milliseconds (pos 0))
        (ReaderSynchronizationError.invalid_stored_value "created_at_unix_milliseconds")
    refuse_if (ltb_ℤ stored.updated_at_unix_milliseconds stored.created_at_unix_milliseconds)
        (ReaderSynchronizationError.invalid_stored_value "updated_at_unix_milliseconds")
    entries ← decode_entries 0 stored_entries
    first_entry ←
        ok_or (first entries) (ReaderSynchronizationError.invalid_stored_value "batch_entries")
    last_entry ←
        ok_or (last entries) (ReaderSynchronizationError.invalid_stored_value "batch_entries")
    refuse_if
        (not (first_entry.local_sequence_number.value == first_sequence.value)
          || not (last_entry.local_sequence_number.value == last_sequence.value))
        (ReaderSynchronizationError.invalid_stored_value "batch_sequence_range")
    ok (record {
      batch_id = batch_id;
      reader_id = reader_id;
      protocol_version = protocol_version;
      first_local_sequence_number = first_sequence;
      last_local_sequence_number = last_sequence;
      state = state;
      attempt_count = attempt_count;
      submitted_at_unix_milliseconds = stored.submitted_at_unix_milliseconds;
      next_retry_at_unix_milliseconds = stored.next_retry_at_unix_milliseconds;
      last_failure_category = stored.last_failure_category;
      created_at_unix_milliseconds = stored.created_at_unix_milliseconds;
      updated_at_unix_milliseconds = stored.updated_at_unix_milliseconds;
      entries = entries;
    })

  abbrev run_statement : Engine → String → Result (Unit {0}) ReaderSynchronizationError
  run_statement engine operation =
      refuse_if (not (engine operation)) (ReaderSynchronizationError.database operation)

  unfoldable pub load_synchronization_batch :
      Engine
      → ReaderStore
      → ReaderId
      → SynchronizationBatchId
      → Result SynchronizationBatch ReaderSynchronizationError
  unfolding select_where order_by decode_stored_batch
  load_synchronization_batch engine store reader_id batch_id = do
    run_statement engine "load synchronization batch"
    stored ←
        ok_or
          (first (
            select_where
              (λ (row : StoredSynchronizationBatch).
                text_eq row.batch_id (crate.to_string batch_id)
                && text_eq row.reader_id (crate.to_string reader_id))
              store.synchronization_batches))
          (ReaderSynchronizationError.batch_not_found batch_id reader_id)
    run_statement engine "load synchronization entries"
    decode_stored_batch stored (
        order_by (λ (row : StoredSynchronizationEntry). row.entry_position)
          (select_where
            (λ (row : StoredSynchronizationEntry).
              text_eq row.batch_id (crate.to_string batch_id)
              && text_eq row.reader_id (crate.to_string reader_id))
            store.synchronization_entries))

  -- The SELECT of the candidates, without its LIMIT.
  unfoldable pub candidates : ReaderStore → ReaderId → ℤ → List StoredOfflineTransaction
  unfolding select_where order_by is_reserved
  candidates store reader_id now =
      order_by (λ (row : StoredOfflineTransaction). row.local_sequence_number)
        (select_where
          (λ (row : StoredOfflineTransaction).
            text_eq row.reader_id (crate.to_string reader_id)
            && is_eligible row now
            && not (is_reserved store row))
          store.offline_transactions)

  decode_candidates :
      List StoredOfflineTransaction
      → Result (List SynchronizationBatchEntry) ReaderSynchronizationError
  decode_candidates [] = ok []
  decode_candidates (row ∷ rows) =
      let decode_rest = decode_candidates rows in
      decode_candidate row.fare_transaction_id row.local_sequence_number >>= λ entry.
      decode_rest >>= λ entries. ok (entry ∷ entries)

  -- The UPDATE that reserves a candidate.
  abbrev reserves : ReaderId → SynchronizationBatchEntry → ℤ → ℤ → StoredOfflineTransaction → Bool
  reserves reader_id entry sequence now row =
      text_eq row.fare_transaction_id (crate.to_string entry.transaction_id)
      && text_eq row.reader_id (crate.to_string reader_id)
      && eqb_ℤ row.local_sequence_number sequence
      && leb_ℤ row.updated_at_unix_milliseconds now
      && is_eligible row now

  abbrev reserved_at : ℤ → StoredOfflineTransaction → StoredOfflineTransaction
  reserved_at now row = record row {
    queue_state = "in_flight";
    next_retry_at_unix_milliseconds = none;
    last_failure_category = none;
    updated_at_unix_milliseconds = now;
  }

  -- One round of the loop over the entries.
  reserve_entry :
      Engine
      → ReaderId
      → SynchronizationBatchId
      → ℤ
      → ℕ
      → SynchronizationBatchEntry
      → ReaderStore
      → Result ReaderStore ReaderSynchronizationError
  reserve_entry engine reader_id batch_id now position entry store = do
    entry_position ←
        ok_or (checked_i64 (pos position))
          (ReaderSynchronizationError.invalid_stored_value "entry_position")
    sequence ← sequence_to_i64 entry.local_sequence_number
    run_statement engine "reserve batch transaction"
    refuse_if
        (not (count_where (reserves reader_id entry sequence now) store.offline_transactions == 1))
        (ReaderSynchronizationError.queue_state_conflict entry.transaction_id)
    run_statement engine "insert synchronization entry"
    ok (record store {
      offline_transactions =
          update_where (reserves reader_id entry sequence now) (reserved_at now)
            store.offline_transactions;
      synchronization_entries =
          store.synchronization_entries
          ++ (record {
            batch_id = crate.to_string batch_id;
            reader_id = crate.to_string reader_id;
            fare_transaction_id = crate.to_string entry.transaction_id;
            local_sequence_number = sequence;
            entry_position = entry_position;
          }
              ∷ []);
    })

  reserve_entries :
      Engine
      → ReaderId
      → SynchronizationBatchId
      → ℤ
      → ℕ
      → List SynchronizationBatchEntry
      → ReaderStore
      → Result ReaderStore ReaderSynchronizationError
  reserve_entries engine reader_id batch_id now position [] store = ok store
  reserve_entries engine reader_id batch_id now position (entry ∷ entries) store =
      reserve_entry engine reader_id batch_id now position entry store >>= λ store'.
      reserve_entries engine reader_id batch_id now (suc position) entries store'

  -- What is asked before the database.
  check_limit : ℤ → ℕ → Result (Unit {0}) ReaderSynchronizationError
  check_limit created_at limit = do
    validate_operation_time created_at
    refuse_if (limit == 0) ReaderSynchronizationError.zero_batch_limit
    refuse_if (not (ltb limit (2 ^ 63))) (ReaderSynchronizationError.batch_limit_too_large limit)

  abbrev nonempty :
      ReaderId
      → List StoredOfflineTransaction
      → Result (List StoredOfflineTransaction) ReaderSynchronizationError
  nonempty reader_id [] = err (ReaderSynchronizationError.no_eligible_transactions reader_id)
  nonempty reader_id (row ∷ rows) = ok (row ∷ rows)

  -- The values that the INSERT binds.
  abbrev prepared_row :
      SynchronizationBatchId
      → ReaderId
      → DeviceProtocolVersion
      → ℤ
      → ℤ
      → ℤ
      → StoredSynchronizationBatch
  prepared_row batch_id reader_id protocol_version first_sequence last_sequence created_at =
      record {
        batch_id = crate.to_string batch_id;
        reader_id = crate.to_string reader_id;
        protocol_version = pos protocol_version.value;
        first_local_sequence_number = first_sequence;
        last_local_sequence_number = last_sequence;
        batch_state = batch_state_as_str SynchronizationBatchState.prepared;
        attempt_count = pos 0;
        submitted_at_unix_milliseconds = none;
        next_retry_at_unix_milliseconds = none;
        last_failure_category = none;
        created_at_unix_milliseconds = created_at;
        updated_at_unix_milliseconds = created_at;
      }

  -- The transaction between `begin` and `commit`. The generated identity is an argument.
  created_batch :
      Engine
      → ReaderStore
      → ReaderId
      → DeviceProtocolVersion
      → ℤ
      → ℕ
      → SynchronizationBatchId
      → Result (SynchronizationBatch × ReaderStore) ReaderSynchronizationError
  created_batch engine store reader_id protocol_version created_at limit batch_id = do
    check_limit created_at limit
    run_statement engine "begin batch creation"
    run_statement engine "select batch candidates"
    rows ← nonempty reader_id (take limit (candidates store reader_id created_at))
    entries ← decode_candidates rows
    first_entry ←
        ok_or (first entries) (ReaderSynchronizationError.invalid_stored_value "batch_entries")
    last_entry ←
        ok_or (last entries) (ReaderSynchronizationError.invalid_stored_value "batch_entries")
    first_sequence ← sequence_to_i64 first_entry.local_sequence_number
    last_sequence ← sequence_to_i64 last_entry.local_sequence_number
    run_statement engine "insert synchronization batch"
    store' ← reserve_entries engine reader_id batch_id created_at 0 entries (record store {
      synchronization_batches =
          store.synchronization_batches
          ++ (prepared_row batch_id reader_id protocol_version first_sequence last_sequence
                created_at
              ∷ []);
    })
    run_statement engine "commit batch creation"
    ok (
      record {
        batch_id = batch_id;
        reader_id = reader_id;
        protocol_version = protocol_version;
        first_local_sequence_number = first_entry.local_sequence_number;
        last_local_sequence_number = last_entry.local_sequence_number;
        state = SynchronizationBatchState.prepared;
        attempt_count = 0;
        submitted_at_unix_milliseconds = none;
        next_retry_at_unix_milliseconds = none;
        last_failure_category = none;
        created_at_unix_milliseconds = created_at;
        updated_at_unix_milliseconds = created_at;
        entries = entries;
      },
      store',
    )

  unfoldable pub create_synchronization_batch :
      Engine
      → ReaderStore
      → ReaderId
      → DeviceProtocolVersion
      → ℤ
      → ℕ
      → SynchronizationBatchId
      → Result SynchronizationBatch ReaderSynchronizationError × ReaderStore
  unfolding created_batch check_limit validate_operation_time candidates decode_candidates
      decode_candidate sequence_to_i64 reserve_entries reserve_entry update_where count_where
      batch_state_as_str
  create_synchronization_batch engine store reader_id protocol_version created_at limit batch_id =
      elim (created_batch engine store reader_id protocol_version created_at limit batch_id) [
        | ok (batch, store') ↦ (ok batch, store')
        | err failure ↦ (err failure, store)
      ]

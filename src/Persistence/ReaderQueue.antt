-- ===== src/Persistence/ReaderQueue.antt =====
-- crates/persistence/src/reader_queue.rs: the durable queue of offline transactions, its insertion and
-- its decoding. `serde_json` is not part of the repository: what the code asks of it is a parameter.
pub mod Decoding
pub mod Insertion
pub mod Fifo
use transit_guard.Base.{
  ℕ, ◌+◌, ◌-◌, ◌^◌, String, Bool, true, false, ◌&&◌, ◌||◌, not, Option, none, some, List, [], ◌∷◌,
  ◌++◌,
}
use transit_guard.Base.Tests.{ltb, if◌then◌else◌}
use transit_guard.Base.Result.{Result, ok, err, ◌>>=◌, ◌>>◌, map_err, ok_or}
use transit_guard.Base.Int.{ℤ, pos, negsuc, ltb_ℤ, checked_i64, eqb_ℤ, ◌+ℤ◌, ◌-ℤ◌}
use transit_guard.Base.Text.{match_text}
use text.Mathlib.Text.{◌==◌}
use transit_guard.Domain.Identifier.{
  UuidCrate, FareTransactionId, FareCredentialId, ReaderId, from_str,
}
use transit_guard.Domain.Transaction.{
  EventTime, FarePolicyVersion, FareDecision, LocalSequenceNumber, new_sequence_number,
  from_unix_milliseconds, new_policy_version,
}
use transit_guard.Persistence.ReaderStore.{
  Engine, ReaderStore, ReaderStateRow, StoredOfflineTransaction, exists_where, select_where,
  order_by,
}

pub data OfflineQueueState : Type 0 where
  pending in_flight acknowledged : OfflineQueueState
  retryable_failure permanent_failure manual_review : OfflineQueueState

unfoldable pub queue_state_as_str : OfflineQueueState → String
queue_state_as_str OfflineQueueState.pending = "pending"
queue_state_as_str OfflineQueueState.in_flight = "in_flight"
queue_state_as_str OfflineQueueState.acknowledged = "acknowledged"
queue_state_as_str OfflineQueueState.retryable_failure = "retryable_failure"
queue_state_as_str OfflineQueueState.permanent_failure = "permanent_failure"
queue_state_as_str OfflineQueueState.manual_review = "manual_review"

-- The error of a failed statement keeps the name of the operation.
pub data ReaderQueueError : Type 0 where
  negative_persistence_time : ℤ → ReaderQueueError
  sequence_unavailable : ReaderId → ReaderQueueError
  write_conflict : ReaderQueueError
  serialization : String → ReaderQueueError
  invalid_stored_value : String → ReaderQueueError
  database : String → ReaderQueueError

abbrev queue_state_arms : List (String × OfflineQueueState)
queue_state_arms =
    ("pending", OfflineQueueState.pending)
    ∷ ("in_flight", OfflineQueueState.in_flight)
    ∷ ("acknowledged", OfflineQueueState.acknowledged)
    ∷ ("retryable_failure", OfflineQueueState.retryable_failure)
    ∷ ("permanent_failure", OfflineQueueState.permanent_failure)
    ∷ ("manual_review", OfflineQueueState.manual_review)
    ∷ []

unfoldable pub parse_queue_state : String → Result OfflineQueueState ReaderQueueError
unfolding match_text
parse_queue_state value =
    match_text value queue_state_arms (ReaderQueueError.invalid_stored_value "queue_state")

-- What the queue asks of `serde_json`. The code keeps no more of an error than that it is one.
pub record QueueJson : Type 1 where
  pub Value : Type 0
  pub decision_to_string : FareDecision → Result String (Unit {0})
  pub decision_from_str : String → Result FareDecision (Unit {0})
  pub value_to_string : Value → Result String (Unit {0})
  pub value_from_str : String → Result Value (Unit {0})

module _ (json : QueueJson) where
  pub record OfflineTransactionDraft : Type 0 where
    pub transaction_id : FareTransactionId
    pub fare_credential_id : FareCredentialId
    pub event_time : EventTime
    pub fare_policy_version : FarePolicyVersion
    pub provisional_decision : FareDecision
    pub transaction_envelope : json.Value
    pub created_at_unix_milliseconds : ℤ

  unfoldable pub new_draft :
      FareTransactionId
      → FareCredentialId
      → EventTime
      → FarePolicyVersion
      → FareDecision
      → json.Value
      → ℤ
      → Result OfflineTransactionDraft ReaderQueueError
  new_draft id credential event_time policy_version decision envelope created_at =
      if ltb_ℤ created_at (pos 0)
      then err (ReaderQueueError.negative_persistence_time created_at)
      else ok (record {
        transaction_id = id;
        fare_credential_id = credential;
        event_time = event_time;
        fare_policy_version = policy_version;
        provisional_decision = decision;
        transaction_envelope = envelope;
        created_at_unix_milliseconds = created_at;
      })

  pub record QueuedOfflineTransaction : Type 0 where
    pub transaction_id : FareTransactionId
    pub reader_id : ReaderId
    pub local_sequence_number : LocalSequenceNumber
    pub fare_credential_id : FareCredentialId
    pub event_time : EventTime
    pub fare_policy_version : FarePolicyVersion
    pub provisional_decision : FareDecision
    pub transaction_envelope : json.Value
    pub queue_state : OfflineQueueState
    pub attempt_count : ℕ
    pub next_retry_at_unix_milliseconds : Option ℤ
    pub last_failure_category : Option String
    pub created_at_unix_milliseconds : ℤ
    pub updated_at_unix_milliseconds : ℤ

-- `u64::try_from` and `u32::try_from` of an `i64`.
abbrev pub u64_try_from : ℤ → Result ℕ (Unit {0})
u64_try_from (pos value) = ok value
u64_try_from (negsuc value) = err tt

abbrev pub u32_try_from : ℤ → Result ℕ (Unit {0})
u32_try_from (pos value) = if ltb value (2 ^ 32) then ok value else err tt
u32_try_from (negsuc value) = err tt

abbrev stored_value : {A E : Type 0} → String → Result A E → Result A ReaderQueueError
stored_value field result = map_err (λ _. ReaderQueueError.invalid_stored_value field) result

abbrev refuse_if : Bool → String → Result (Unit {0}) ReaderQueueError
refuse_if refused field =
    if refused then err (ReaderQueueError.invalid_stored_value field) else ok tt

abbrev pub is_negative_time : Option ℤ → Bool
is_negative_time none = false
is_negative_time (some value) = ltb_ℤ value (pos 0)

module _ (json : QueueJson) (crate : UuidCrate) where
  unfoldable pub decode_stored_transaction :
      StoredOfflineTransaction → Result (QueuedOfflineTransaction json) ReaderQueueError
  unfolding parse_queue_state from_str new_sequence_number from_unix_milliseconds new_policy_version
  decode_stored_transaction stored = do
    transaction_id ←
        stored_value "fare_transaction_id"
          (from_str crate "fare transaction identifier" stored.fare_transaction_id)
    reader_id ← stored_value "reader_id" (from_str crate "reader identifier" stored.reader_id)
    sequence_value ←
        stored_value "local_sequence_number" (u64_try_from stored.local_sequence_number)
    local_sequence_number ←
        stored_value "local_sequence_number" (new_sequence_number sequence_value)
    fare_credential_id ←
        stored_value "fare_credential_id"
          (from_str crate "fare credential identifier" stored.fare_credential_id)
    event_time ←
        stored_value "event_time_unix_milliseconds"
          (from_unix_milliseconds stored.event_time_unix_milliseconds)
    policy_value ← stored_value "fare_policy_version" (u64_try_from stored.fare_policy_version)
    fare_policy_version ← stored_value "fare_policy_version" (new_policy_version policy_value)
    provisional_decision ←
        map_err (λ _. ReaderQueueError.serialization "provisional_decision")
          (json.decision_from_str stored.provisional_decision_json)
    transaction_envelope ←
        map_err (λ _. ReaderQueueError.serialization "transaction_envelope")
          (json.value_from_str stored.transaction_envelope_json)
    queue_state ← parse_queue_state stored.queue_state
    attempt_count ← stored_value "attempt_count" (u32_try_from stored.attempt_count)
    refuse_if (is_negative_time stored.next_retry_at_unix_milliseconds)
        "next_retry_at_unix_milliseconds"
    refuse_if (ltb_ℤ stored.created_at_unix_milliseconds (pos 0)) "created_at_unix_milliseconds"
    refuse_if (ltb_ℤ stored.updated_at_unix_milliseconds stored.created_at_unix_milliseconds)
        "updated_at_unix_milliseconds"
    ok (record {
      transaction_id = transaction_id;
      reader_id = reader_id;
      local_sequence_number = local_sequence_number;
      fare_credential_id = fare_credential_id;
      event_time = event_time;
      fare_policy_version = fare_policy_version;
      provisional_decision = provisional_decision;
      transaction_envelope = transaction_envelope;
      queue_state = queue_state;
      attempt_count = attempt_count;
      next_retry_at_unix_milliseconds = stored.next_retry_at_unix_milliseconds;
      last_failure_category = stored.last_failure_category;
      created_at_unix_milliseconds = stored.created_at_unix_milliseconds;
      updated_at_unix_milliseconds = stored.updated_at_unix_milliseconds;
    })

  -- `collect` into a `Result`: the first error ends it.
  unfoldable pub decode_all :
      List StoredOfflineTransaction → Result (List (QueuedOfflineTransaction json)) ReaderQueueError
  unfolding decode_stored_transaction
  decode_all [] = ok []
  decode_all (stored ∷ rest) =
      let decode_rest = decode_all rest in
      decode_stored_transaction stored >>= λ transaction.
      decode_rest >>= λ transactions. ok (transaction ∷ transactions)

  unfoldable pub load_offline_queue :
      Engine
      → ReaderStore
      → ReaderId
      → Result (List (QueuedOfflineTransaction json)) ReaderQueueError
  unfolding select_where order_by decode_all
  load_offline_queue engine store reader_id =
      if not (engine "load offline queue")
      then err (ReaderQueueError.database "load offline queue")
      else decode_all (
          order_by (λ (row : StoredOfflineTransaction). row.local_sequence_number)
            (select_where
              (λ (row : StoredOfflineTransaction). row.reader_id == crate.to_string reader_id)
              store.offline_transactions))

  -- The greatest value of a column, which ends the sequence: 2 ^ 63 - 1.
  abbrev last_sequence : ℤ
  last_sequence = pos 9223372036854775807

  abbrev assign_when : Bool → ℤ → ReaderStateRow → ReaderStore → Option (ℤ × ReaderStore)
  assign_when bound created_at row store =
      if bound
      then some (
        (row.next_local_sequence +ℤ pos 1) -ℤ pos 1,
        record store {
          reader_state = some (record row {
            next_local_sequence = row.next_local_sequence +ℤ pos 1;
            updated_at_unix_milliseconds = created_at;
          });
        },
      )
      else none

  -- `UPDATE reader_state … RETURNING next_local_sequence - 1`.
  assign_sequence : Option ReaderStateRow → String → ℤ → ReaderStore → Option (ℤ × ReaderStore)
  assign_sequence none reader created_at store = none
  assign_sequence (some row) reader created_at store =
      assign_when (row.reader_id == reader && ltb_ℤ row.next_local_sequence last_sequence)
        created_at row store

  abbrev run_statement : Engine → String → Result (Unit {0}) ReaderQueueError
  run_statement engine operation =
      if not (engine operation) then err (ReaderQueueError.database operation) else ok tt

  -- The primary key and the UNIQUE constraint of `offline_transactions`.
  unfoldable pub conflicts : ReaderStore → StoredOfflineTransaction → Bool
  unfolding exists_where
  conflicts store row =
      exists_where
        (λ (other : StoredOfflineTransaction).
          other.fare_transaction_id == row.fare_transaction_id
          || (other.reader_id == row.reader_id
              && eqb_ℤ other.local_sequence_number row.local_sequence_number))
        store.offline_transactions

  -- The values that the INSERT binds.
  abbrev pub pending_row :
      OfflineTransactionDraft json → ReaderId → ℤ → ℤ → String → String → StoredOfflineTransaction
  pending_row draft reader_id assigned_sequence policy_version decision_json envelope_json =
      record {
        fare_transaction_id = crate.to_string draft.transaction_id;
        reader_id = crate.to_string reader_id;
        local_sequence_number = assigned_sequence;
        fare_credential_id = crate.to_string draft.fare_credential_id;
        event_time_unix_milliseconds = draft.event_time.unix_milliseconds;
        fare_policy_version = policy_version;
        provisional_decision_json = decision_json;
        transaction_envelope_json = envelope_json;
        queue_state = queue_state_as_str OfflineQueueState.pending;
        attempt_count = pos 0;
        next_retry_at_unix_milliseconds = none;
        last_failure_category = none;
        created_at_unix_milliseconds = draft.created_at_unix_milliseconds;
        updated_at_unix_milliseconds = draft.created_at_unix_milliseconds;
      }

  -- The value that is returned.
  abbrev pub pending_transaction :
      OfflineTransactionDraft json → ReaderId → LocalSequenceNumber → QueuedOfflineTransaction json
  pending_transaction draft reader_id local_sequence_number = record {
    transaction_id = draft.transaction_id;
    reader_id = reader_id;
    local_sequence_number = local_sequence_number;
    fare_credential_id = draft.fare_credential_id;
    event_time = draft.event_time;
    fare_policy_version = draft.fare_policy_version;
    provisional_decision = draft.provisional_decision;
    transaction_envelope = draft.transaction_envelope;
    queue_state = OfflineQueueState.pending;
    attempt_count = 0;
    next_retry_at_unix_milliseconds = none;
    last_failure_category = none;
    created_at_unix_milliseconds = draft.created_at_unix_milliseconds;
    updated_at_unix_milliseconds = draft.created_at_unix_milliseconds;
  }

  -- The transaction between `begin` and `commit`, on success with the store that it commits.
  pub enqueued :
      Engine
      → ReaderStore
      → ReaderId
      → OfflineTransactionDraft json
      → Result (QueuedOfflineTransaction json × ReaderStore) ReaderQueueError
  enqueued engine store reader_id draft = do
    decision_json ←
        map_err (λ _. ReaderQueueError.serialization "provisional_decision")
          (json.decision_to_string draft.provisional_decision)
    envelope_json ←
        map_err (λ _. ReaderQueueError.serialization "transaction_envelope")
          (json.value_to_string draft.transaction_envelope)
    run_statement engine "begin queue insertion"
    run_statement engine "assign local sequence"
    assigned ←
        ok_or
          (assign_sequence store.reader_state (crate.to_string reader_id)
            draft.created_at_unix_milliseconds store)
          (ReaderQueueError.sequence_unavailable reader_id)
    sequence_value ← stored_value "local_sequence_number" (u64_try_from assigned.0)
    local_sequence_number ←
        stored_value "local_sequence_number" (new_sequence_number sequence_value)
    policy_version ←
        ok_or (checked_i64 (pos draft.fare_policy_version.value))
          (ReaderQueueError.invalid_stored_value "fare_policy_version")
    let row = pending_row draft reader_id assigned.0 policy_version decision_json envelope_json
    (if conflicts assigned.1 row then err ReaderQueueError.write_conflict else ok tt)
    run_statement engine "insert offline transaction"
    run_statement engine "commit queue insertion"
    ok (
      pending_transaction draft reader_id local_sequence_number,
      record assigned.1 { offline_transactions = assigned.1.offline_transactions ++ (row ∷ []) },
    )

  -- What a call leaves: a transaction that is not committed is rolled back.
  unfoldable pub enqueue_offline_transaction :
      Engine
      → ReaderStore
      → ReaderId
      → OfflineTransactionDraft json
      → Result (QueuedOfflineTransaction json) ReaderQueueError × ReaderStore
  unfolding enqueued assign_sequence conflicts queue_state_as_str
  enqueue_offline_transaction engine store reader_id draft =
      elim (enqueued engine store reader_id draft) [
        | ok (queued, store') ↦ (ok queued, store')
        | err failure ↦ (err failure, store)
      ]

-- ===== src/Persistence/ReaderQueueState.antt =====
-- crates/persistence/src/reader_queue_state.rs: the transitions of a queued transaction and the reading
-- of those that are ready.
pub mod Lifecycle
pub mod Ready
use transit_guard.Base.{
  ℕ, suc, ◌+◌, ◌-◌, String, Bool, true, false, ◌&&◌, ◌||◌, not, Option, none, some, List, [], ◌∷◌,
}
use transit_guard.Base.Tests.{ltb, if◌then◌else◌, ◌==◌}
use transit_guard.Base.Result.{Result, ok, err, ◌>>=◌, ◌>>◌, map_err}
use transit_guard.Base.Int.{ℤ, pos, ltb_ℤ, leb_ℤ, ◌+ℤ◌}
use transit_guard.Base.Text.{trim, is_empty}
use transit_guard.Base.Sequence.{take}
use text.Mathlib.Text.{◌==◌ as text_eq}
use transit_guard.Domain.Identifier.{UuidCrate, FareTransactionId, ReaderId}
use transit_guard.Persistence.ReaderStore.{
  Engine, ReaderStore, StoredOfflineTransaction, update_where, count_where, select_where, retry_due,
  is_reserved,
}
use transit_guard.Persistence.ReaderQueue.{
  OfflineQueueState, QueueJson, QueuedOfflineTransaction, ReaderQueueError, load_offline_queue,
}

pub data ReaderQueueStateError : Type 0 where
  negative_operation_time : ℤ → ReaderQueueStateError
  empty_failure_category : ReaderQueueStateError
  retry_before_update : ℤ → ℤ → ReaderQueueStateError
  zero_read_limit : ReaderQueueStateError
  invalid_transition : FareTransactionId → String → ReaderQueueStateError
  queue : ReaderQueueError → ReaderQueueStateError
  database : String → ReaderQueueStateError

abbrev pub restart_failure_category : String
restart_failure_category = "reader_restart"

unfoldable pub validate_operation_time : ℤ → Result (Unit {0}) ReaderQueueStateError
validate_operation_time unix_milliseconds =
    if ltb_ℤ unix_milliseconds (pos 0)
    then err (ReaderQueueStateError.negative_operation_time unix_milliseconds)
    else ok tt

unfoldable pub validate_failure_category : String → Result String ReaderQueueStateError
unfolding trim
validate_failure_category failure_category =
    if is_empty (trim failure_category)
    then err ReaderQueueStateError.empty_failure_category
    else ok (trim failure_category)

unfoldable pub require_changed_row :
    ℕ → FareTransactionId → String → Result (Unit {0}) ReaderQueueStateError
require_changed_row rows_affected transaction_id transition =
    if rows_affected == 1
    then ok tt
    else err (ReaderQueueStateError.invalid_transition transaction_id transition)

-- An `UPDATE offline_transactions`: a WHERE clause and the new row.
pub record Update : Type 0 where
  pub operation : String
  pub where_clause : StoredOfflineTransaction → Bool
  pub assign : StoredOfflineTransaction → StoredOfflineTransaction

-- What a call leaves: its result, and the database after it.
abbrev pub Outcome : Type 0 → Type 0
Outcome A = Result A ReaderQueueStateError × ReaderStore

-- The checks before the statement, the statement, and the check of `rows_affected` after it.
unfoldable pub execute :
    {A : Type 0}
    → Engine
    → ReaderStore
    → Result Update ReaderQueueStateError
    → (ℕ → Result A ReaderQueueStateError)
    → Outcome A
unfolding update_where count_where
execute engine store (err failure) answer = (err failure, store)
execute engine store (ok update) answer =
    if not (engine update.operation)
    then (err (ReaderQueueStateError.database update.operation), store)
    else (
      answer (count_where update.where_clause store.offline_transactions),
      record store {
        offline_transactions =
            update_where update.where_clause update.assign store.offline_transactions;
      },
    )

-- The part of the WHERE clauses about the state and the retry time.
abbrev pub is_eligible : StoredOfflineTransaction → ℤ → Bool
is_eligible row now =
    text_eq row.queue_state "pending"
    || (text_eq row.queue_state "retryable_failure"
        && retry_due row.next_retry_at_unix_milliseconds now)

module _ (crate : UuidCrate) where
  -- `fare_transaction_id = ? AND reader_id = ?`.
  abbrev names : ReaderId → FareTransactionId → StoredOfflineTransaction → Bool
  names reader_id transaction_id row =
      text_eq row.fare_transaction_id (crate.to_string transaction_id)
      && text_eq row.reader_id (crate.to_string reader_id)

  in_flight_update : ReaderId → FareTransactionId → ℤ → Result Update ReaderQueueStateError
  in_flight_update reader_id transaction_id attempted_at = do
    validate_operation_time attempted_at
    ok (record {
      operation = "mark transaction in flight";
      where_clause = λ row.
          names reader_id transaction_id row
          && leb_ℤ row.updated_at_unix_milliseconds attempted_at
          && is_eligible row attempted_at;
      assign = λ row. record row {
        queue_state = "in_flight";
        attempt_count = row.attempt_count +ℤ pos 1;
        next_retry_at_unix_milliseconds = none;
        last_failure_category = none;
        updated_at_unix_milliseconds = attempted_at;
      };
    })

  unfoldable pub mark_offline_transaction_in_flight :
      Engine → ReaderStore → ReaderId → FareTransactionId → ℤ → Outcome (Unit {0})
  unfolding execute in_flight_update validate_operation_time require_changed_row
  mark_offline_transaction_in_flight engine store reader_id transaction_id attempted_at =
      execute engine store (in_flight_update reader_id transaction_id attempted_at)
        (λ rows_affected. require_changed_row rows_affected transaction_id "mark_in_flight")

  -- `queue_state = 'in_flight' AND updated_at_unix_milliseconds <= ?`.
  abbrev in_flight_before : ℤ → StoredOfflineTransaction → Bool
  in_flight_before updated_at row =
      text_eq row.queue_state "in_flight" && leb_ℤ row.updated_at_unix_milliseconds updated_at

  abbrev retry_order : ℤ → ℤ → Result (Unit {0}) ReaderQueueStateError
  retry_order updated_at retry_at =
      if ltb_ℤ retry_at updated_at
      then err (ReaderQueueStateError.retry_before_update retry_at updated_at)
      else ok tt

  retryable_update :
      ReaderId → FareTransactionId → String → ℤ → ℤ → Result Update ReaderQueueStateError
  retryable_update reader_id transaction_id failure_category updated_at retry_at = do
    validate_operation_time updated_at
    validate_operation_time retry_at
    retry_order updated_at retry_at
    category ← validate_failure_category failure_category
    ok (record {
      operation = "record retryable failure";
      where_clause = λ row. names reader_id transaction_id row && in_flight_before updated_at row;
      assign = λ row. record row {
        queue_state = "retryable_failure";
        next_retry_at_unix_milliseconds = some retry_at;
        last_failure_category = some category;
        updated_at_unix_milliseconds = updated_at;
      };
    })

  unfoldable pub record_retryable_queue_failure :
      Engine → ReaderStore → ReaderId → FareTransactionId → String → ℤ → ℤ → Outcome (Unit {0})
  unfolding execute retryable_update validate_operation_time validate_failure_category
      require_changed_row
  record_retryable_queue_failure engine store reader_id transaction_id category updated_at
        retry_at =
      execute engine store (retryable_update reader_id transaction_id category updated_at retry_at)
        (λ rows_affected.
          require_changed_row rows_affected transaction_id "record_retryable_failure")

  -- The `match target_state`.
  final_state_text : OfflineQueueState → FareTransactionId → Result String ReaderQueueStateError
  final_state_text OfflineQueueState.permanent_failure transaction_id = ok "permanent_failure"
  final_state_text OfflineQueueState.manual_review transaction_id = ok "manual_review"
  final_state_text _ transaction_id =
      err (ReaderQueueStateError.invalid_transition transaction_id "unsupported_final_state")

  final_update :
      ReaderId
      → FareTransactionId
      → String
      → ℤ
      → OfflineQueueState
      → Result (String × Update) ReaderQueueStateError
  final_update reader_id transaction_id failure_category updated_at target_state = do
    validate_operation_time updated_at
    category ← validate_failure_category failure_category
    target_state_text ← final_state_text target_state transaction_id
    ok (
      target_state_text,
      record {
        operation = "record final queue failure";
        where_clause = λ row. names reader_id transaction_id row && in_flight_before updated_at row;
        assign = λ row. record row {
          queue_state = target_state_text;
          next_retry_at_unix_milliseconds = none;
          last_failure_category = some category;
          updated_at_unix_milliseconds = updated_at;
        };
      },
    )

  finish_final :
      Engine
      → ReaderStore
      → FareTransactionId
      → Result (String × Update) ReaderQueueStateError
      → Outcome (Unit {0})
  finish_final engine store transaction_id (err failure) = (err failure, store)
  finish_final engine store transaction_id (ok (target_state_text, update)) =
      execute engine store (ok update)
        (λ rows_affected. require_changed_row rows_affected transaction_id target_state_text)

  unfoldable pub record_final_failure :
      Engine
      → ReaderStore
      → ReaderId
      → FareTransactionId
      → String
      → ℤ
      → OfflineQueueState
      → Outcome (Unit {0})
  unfolding execute finish_final final_update final_state_text validate_operation_time
      validate_failure_category require_changed_row
  record_final_failure engine store reader_id transaction_id category updated_at target_state =
      finish_final engine store transaction_id
        (final_update reader_id transaction_id category updated_at target_state)

  unfoldable pub record_permanent_queue_failure :
      Engine → ReaderStore → ReaderId → FareTransactionId → String → ℤ → Outcome (Unit {0})
  unfolding record_final_failure
  record_permanent_queue_failure engine store reader_id transaction_id category updated_at =
      record_final_failure engine store reader_id transaction_id category updated_at
        OfflineQueueState.permanent_failure

  unfoldable pub record_manual_review_required :
      Engine → ReaderStore → ReaderId → FareTransactionId → String → ℤ → Outcome (Unit {0})
  unfolding record_final_failure
  record_manual_review_required engine store reader_id transaction_id category updated_at =
      record_final_failure engine store reader_id transaction_id category updated_at
        OfflineQueueState.manual_review

  recovery_update : ReaderStore → ReaderId → ℤ → Result Update ReaderQueueStateError
  recovery_update store reader_id recovered_at = do
    validate_operation_time recovered_at
    ok (record {
      operation = "recover interrupted queue";
      where_clause = λ row.
          text_eq row.reader_id (crate.to_string reader_id)
          && in_flight_before recovered_at row
          && not (is_reserved store row);
      assign = λ row. record row {
        queue_state = "retryable_failure";
        next_retry_at_unix_milliseconds = some recovered_at;
        last_failure_category = some restart_failure_category;
        updated_at_unix_milliseconds = recovered_at;
      };
    })

  unfoldable pub recover_interrupted_offline_queue : Engine → ReaderStore → ReaderId → ℤ → Outcome ℕ
  unfolding execute recovery_update validate_operation_time is_reserved
  recover_interrupted_offline_queue engine store reader_id recovered_at =
      execute engine store (recovery_update store reader_id recovered_at)
        (λ rows_affected. ok rows_affected)

-- The `match` of `is_ready`, on the fields that it reads.
ready_in : OfflineQueueState → Option ℤ → ℤ → Bool
ready_in OfflineQueueState.pending next_retry_at now = true
ready_in OfflineQueueState.retryable_failure next_retry_at now = retry_due next_retry_at now
ready_in _ next_retry_at now = false

module _ (json : QueueJson) where
  unfoldable pub is_ready : QueuedOfflineTransaction json → ℤ → Bool
  unfolding ready_in
  is_ready transaction now =
      ready_in transaction.queue_state transaction.next_retry_at_unix_milliseconds now

  unfoldable pub load_ready_offline_transactions :
      UuidCrate
      → Engine
      → ReaderStore
      → ReaderId
      → ℤ
      → ℕ
      → Result (List (QueuedOfflineTransaction json)) ReaderQueueStateError
  unfolding validate_operation_time load_offline_queue select_where is_ready
  load_ready_offline_transactions crate engine store reader_id now limit = do
    validate_operation_time now
    (if limit == 0 then err ReaderQueueStateError.zero_read_limit else ok tt)
    loaded ←
        map_err ReaderQueueStateError.queue (load_offline_queue json crate engine store reader_id)
    ok (
        take limit (
          select_where (λ (transaction : QueuedOfflineTransaction json). is_ready transaction now)
            loaded))

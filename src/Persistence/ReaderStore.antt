-- ===== src/Persistence/ReaderStore.antt =====
-- crates/persistence/reader_migrations and the row types of crates/persistence/src/reader_queue.rs and
-- reader_sync.rs: the SQLite database of one reader. A row holds the columns as the code reads and
-- writes them: identifiers and states as texts, numbers as `i64`.
pub mod Pointwise
pub mod Select
use transit_guard.Base.{
  ℕ, suc, ◌+◌, String, Bool, true, false, ◌&&◌, ◌||◌, Option, none, some, List, [], ◌∷◌,
}
use transit_guard.Base.Tests.{if◌then◌else◌}
use transit_guard.Base.Int.{ℤ, leb_ℤ}
use text.Mathlib.Text.{◌==◌}

-- The columns of `reader_state` that the queue uses.
pub record ReaderStateRow : Type 0 where
  pub reader_id : String
  pub next_local_sequence : ℤ
  pub last_acknowledged_sequence : ℤ
  pub updated_at_unix_milliseconds : ℤ

pub record StoredOfflineTransaction : Type 0 where
  pub fare_transaction_id : String
  pub reader_id : String
  pub local_sequence_number : ℤ
  pub fare_credential_id : String
  pub event_time_unix_milliseconds : ℤ
  pub fare_policy_version : ℤ
  pub provisional_decision_json : String
  pub transaction_envelope_json : String
  pub queue_state : String
  pub attempt_count : ℤ
  pub next_retry_at_unix_milliseconds : Option ℤ
  pub last_failure_category : Option String
  pub created_at_unix_milliseconds : ℤ
  pub updated_at_unix_milliseconds : ℤ

pub record StoredSynchronizationBatch : Type 0 where
  pub batch_id : String
  pub reader_id : String
  pub protocol_version : ℤ
  pub first_local_sequence_number : ℤ
  pub last_local_sequence_number : ℤ
  pub batch_state : String
  pub attempt_count : ℤ
  pub submitted_at_unix_milliseconds : Option ℤ
  pub next_retry_at_unix_milliseconds : Option ℤ
  pub last_failure_category : Option String
  pub created_at_unix_milliseconds : ℤ
  pub updated_at_unix_milliseconds : ℤ

-- A row of `synchronization_entries`, with the columns by which statements select it.
pub record StoredSynchronizationEntry : Type 0 where
  pub batch_id : String
  pub reader_id : String
  pub fare_transaction_id : String
  pub local_sequence_number : ℤ
  pub entry_position : ℤ

-- `reader_state` has one row, once the reader is bound.
pub record ReaderStore : Type 0 where
  pub reader_state : Option ReaderStateRow
  pub offline_transactions : List StoredOfflineTransaction
  pub synchronization_batches : List StoredSynchronizationBatch
  pub synchronization_entries : List StoredSynchronizationEntry

-- Whether the database carries out the operation of a name. If not, be it for a failure or for a
-- constraint other than a UNIQUE one, the statement changes nothing and is reported under the name.
abbrev pub Engine : Type 0
Engine = String → Bool

module _ {ℓ} {Row : Type ℓ} where
  -- `UPDATE … SET … WHERE …`, and its `rows_affected`.
  unfoldable pub update_where : (Row → Bool) → (Row → Row) → List Row → List Row
  update_where where_clause assign [] = []
  update_where where_clause assign (row ∷ rows) =
      (if where_clause row then assign row else row) ∷ update_where where_clause assign rows

  unfoldable pub count_where : (Row → Bool) → List Row → ℕ
  count_where where_clause [] = 0
  count_where where_clause (row ∷ rows) =
      (if where_clause row then 1 else 0) + count_where where_clause rows

  -- `EXISTS`.
  unfoldable pub exists_where : (Row → Bool) → List Row → Bool
  exists_where where_clause [] = false
  exists_where where_clause (row ∷ rows) = where_clause row || exists_where where_clause rows

  -- `SELECT … WHERE …`.
  unfoldable pub select_where : (Row → Bool) → List Row → List Row
  select_where where_clause [] = []
  select_where where_clause (row ∷ rows) =
      let rest = select_where where_clause rows in if where_clause row then row ∷ rest else rest

  -- `ORDER BY` a column of numbers.
  unfoldable pub insert_by : (Row → ℤ) → Row → List Row → List Row
  insert_by column row [] = row ∷ []
  insert_by column row (other ∷ rows) =
      if leb_ℤ (column row) (column other)
      then row ∷ other ∷ rows
      else other ∷ insert_by column row rows

  unfoldable pub order_by : (Row → ℤ) → List Row → List Row
  unfolding insert_by
  order_by column [] = []
  order_by column (row ∷ rows) = insert_by column row (order_by column rows)

-- `next_retry_at_unix_milliseconds IS NULL OR next_retry_at_unix_milliseconds <= ?`.
abbrev pub retry_due : Option ℤ → ℤ → Bool
retry_due none now = true
retry_due (some retry_at) now = leb_ℤ retry_at now

-- The states of a batch that still holds its transactions.
abbrev pub holds_entries : String → Bool
holds_entries batch_state =
    batch_state == "prepared" || batch_state == "in_flight" || batch_state == "retryable_failure"

-- The subquery of `NOT EXISTS`: an entry for the transaction in a batch that holds it.
unfoldable pub is_reserved : ReaderStore → StoredOfflineTransaction → Bool
unfolding exists_where
is_reserved store row =
    exists_where
      (λ (entry : StoredSynchronizationEntry).
        entry.fare_transaction_id == row.fare_transaction_id
        && entry.reader_id == row.reader_id
        && exists_where
            (λ (batch : StoredSynchronizationBatch).
              batch.batch_id == entry.batch_id
              && batch.reader_id == entry.reader_id
              && holds_entries batch.batch_state)
            store.synchronization_batches)
      store.synchronization_entries

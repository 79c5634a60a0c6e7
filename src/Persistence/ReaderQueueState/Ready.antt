-- ===== src/Persistence/ReaderQueueState/Ready.antt =====
-- The two notions of a ready transaction: the code's, on a decoded row, and that of the statements.
use transit_guard.Base.{◌≡◌}
use transit_guard.Base.Result.{ok}
use transit_guard.Base.Int.{ℤ}
use transit_guard.Domain.Identifier.{UuidCrate}
use transit_guard.Persistence.ReaderStore.{StoredOfflineTransaction}
use transit_guard.Persistence.ReaderQueue.{
  OfflineQueueState, QueueJson, QueuedOfflineTransaction, queue_state_as_str,
  decode_stored_transaction,
}
use transit_guard.Persistence.ReaderQueue.Decoding.{decode-ok_iff}
use transit_guard.Persistence.ReaderQueueState.{is_eligible, ready_in, is_ready}

ready_in-eligible :
    (state : OfflineQueueState) (row : StoredOfflineTransaction) (now : ℤ)
    → row.queue_state ≡ queue_state_as_str state
    → ready_in state row.next_retry_at_unix_milliseconds now ≡ is_eligible row now
unfolding ready_in queue_state_as_str
ready_in-eligible OfflineQueueState.pending row now h = rw h
ready_in-eligible OfflineQueueState.in_flight row now h = rw h
ready_in-eligible OfflineQueueState.acknowledged row now h = rw h
ready_in-eligible OfflineQueueState.retryable_failure row now h = rw h
ready_in-eligible OfflineQueueState.permanent_failure row now h = rw h
ready_in-eligible OfflineQueueState.manual_review row now h = rw h

module _ (json : QueueJson) (crate : UuidCrate) where
  -- A transaction that is decoded from a row is ready at a time, as the code tests it, exactly if the
  -- state and the retry time of the row meet the WHERE clause of the statements that start an attempt.
  pub is_ready-eligible :
      (row : StoredOfflineTransaction) (q : QueuedOfflineTransaction json) (now : ℤ)
      → decode_stored_transaction json crate row ≡ ok q
      → is_ready json q now ≡ is_eligible row now
  unfolding is_ready
  is_ready-eligible row q now decoded =
      let holds = (decode-ok_iff json crate row q).0 decoded in
      rw (← holds.retry) (ready_in-eligible q.queue_state row now holds.state)

-- ===== src/Persistence/Examples.antt =====
-- A reader with one queued transaction, and a batch that holds it.
use transit_guard.Base.{◌≡◌, ◌↔◌, refl, sym, String, true, some, none, List, [], ◌∷◌, arith}
use transit_guard.Base.Result.{ok}
use transit_guard.Base.Int.{pos, ◌+ℤ◌, ◌-ℤ◌}
use transit_guard.Domain.Identifier.{from_str, validate_uuid}
use transit_guard.Domain.Money.{Currency, from_minor_units}
use transit_guard.Domain.Transaction.{FareDecision, FareApprovalReason}
use transit_guard.Protocol.Examples.{crate, strokes, count_strokes}
use transit_guard.Persistence.ReaderStore.{
  Engine, ReaderStore, StoredOfflineTransaction, StoredSynchronizationBatch,
}
use transit_guard.Persistence.ReaderStore.Pointwise.{Pointwise}
use transit_guard.Persistence.ReaderQueue.{
  OfflineQueueState, QueueJson, QueuedOfflineTransaction, OfflineTransactionDraft,
  decode_stored_transaction, enqueue_offline_transaction, load_offline_queue,
}
use transit_guard.Persistence.ReaderQueue.Decoding.{Holds, decode-ok_iff}
use transit_guard.Persistence.ReaderQueue.Insertion.{IsSequenced}
use transit_guard.Persistence.ReaderQueue.Fifo.{enqueue-load}
use transit_guard.Persistence.ReaderQueueState.{is_ready, is_eligible}
use transit_guard.Persistence.ReaderQueueState.Ready.{is_ready-eligible}
use transit_guard.Persistence.ReaderQueueState.Lifecycle.{
  QueueOp, Evolves, run_queue, run_queue-Evolves,
}
use transit_guard.Persistence.ReaderSyncState.Lifecycle.{
  BatchOp, StoreEvolves, run_batches, run_batches-StoreEvolves,
}

abbrev decision : FareDecision
decision =
    FareDecision.approved (from_minor_units (pos 300) Currency.usd)
      FareApprovalReason.offline_provisional

-- A `serde_json` that knows one decision.
abbrev json : QueueJson
json = record {
  Value = String;
  decision_to_string = λ d. ok "approved";
  decision_from_str = λ text. ok decision;
  value_to_string = λ value. ok value;
  value_from_str = λ text. ok text;
}

abbrev working : Engine
working = λ operation. true

abbrev queued_row : StoredOfflineTransaction
queued_row = record {
  fare_transaction_id = "11";
  reader_id = "1111";
  local_sequence_number = pos 2;
  fare_credential_id = "111";
  event_time_unix_milliseconds = pos 900;
  fare_policy_version = pos 1;
  provisional_decision_json = "approved";
  transaction_envelope_json = "{}";
  queue_state = "in_flight";
  attempt_count = pos 1;
  next_retry_at_unix_milliseconds = none;
  last_failure_category = none;
  created_at_unix_milliseconds = pos 900;
  updated_at_unix_milliseconds = pos 950;
}

abbrev queued : QueuedOfflineTransaction json
queued = record {
  transaction_id = 2;
  reader_id = 4;
  local_sequence_number = record { value = 2 };
  fare_credential_id = 3;
  event_time = record { unix_milliseconds = pos 900 };
  fare_policy_version = record { value = 1 };
  provisional_decision = decision;
  transaction_envelope = "{}";
  queue_state = OfflineQueueState.in_flight;
  attempt_count = 1;
  next_retry_at_unix_milliseconds = none;
  last_failure_category = none;
  created_at_unix_milliseconds = pos 900;
  updated_at_unix_milliseconds = pos 950;
}

abbrev batch_row : StoredSynchronizationBatch
batch_row = record {
  batch_id = "11111";
  reader_id = "1111";
  protocol_version = pos 1;
  first_local_sequence_number = pos 2;
  last_local_sequence_number = pos 2;
  batch_state = "prepared";
  attempt_count = pos 0;
  submitted_at_unix_milliseconds = none;
  next_retry_at_unix_milliseconds = none;
  last_failure_category = none;
  created_at_unix_milliseconds = pos 950;
  updated_at_unix_milliseconds = pos 950;
}

abbrev store : ReaderStore
store = record {
  reader_state = some (record {
    reader_id = "1111";
    next_local_sequence = pos 3;
    last_acknowledged_sequence = pos 1;
    updated_at_unix_milliseconds = pos 900;
  });
  offline_transactions = queued_row ∷ [];
  synchronization_batches = batch_row ∷ [];
  synchronization_entries =
      record {
        batch_id = "11111";
        reader_id = "1111";
        fare_transaction_id = "11";
        local_sequence_number = pos 2;
        entry_position = pos 0;
      }
      ∷ [];
}

decode-ok_iff_example :
    (decode_stored_transaction json crate queued_row ≡ ok queued)
    ↔ Holds json crate queued_row queued
decode-ok_iff_example = decode-ok_iff json crate queued_row queued

is_ready-eligible_example : is_ready json queued (pos 2000) ≡ is_eligible queued_row (pos 2000)
unfolding decode_stored_transaction strokes count_strokes validate_uuid
is_ready-eligible_example = is_ready-eligible json crate queued_row queued (pos 2000) refl

abbrev calls : List (Engine × QueueOp crate)
calls =
    (working, QueueOp.retry 4 2 "network_timeout" (pos 1000) (pos 1500))
    ∷ (working, QueueOp.attempt 4 2 (pos 1600))
    ∷ (working, QueueOp.reject 4 2 "backend_validation_failure" (pos 1700))
    ∷ []

run_queue-Evolves_example :
    Pointwise Evolves store.offline_transactions (run_queue crate calls store).offline_transactions
run_queue-Evolves_example = run_queue-Evolves crate calls store

abbrev batch_calls : List (Engine × BatchOp crate)
batch_calls =
    (working, BatchOp.submit 4 5 (pos 1000))
    ∷ (working, BatchOp.fail 4 5 "network_timeout" (pos 1100) (pos 1200))
    ∷ (working, BatchOp.submit 4 5 (pos 1300))
    ∷ []

run_batches-StoreEvolves_example : StoreEvolves crate store (run_batches crate batch_calls store)
run_batches-StoreEvolves_example = run_batches-StoreEvolves crate batch_calls store

abbrev draft : OfflineTransactionDraft json
draft = record {
  transaction_id = 6;
  fare_credential_id = 3;
  event_time = record { unix_milliseconds = pos 1800 };
  fare_policy_version = record { value = 1 };
  provisional_decision = decision;
  transaction_envelope = "{}";
  created_at_unix_milliseconds = pos 1800;
}

abbrev added : QueuedOfflineTransaction json
added = record {
  transaction_id = 6;
  reader_id = 4;
  local_sequence_number = record { value = 3 };
  fare_credential_id = 3;
  event_time = record { unix_milliseconds = pos 1800 };
  fare_policy_version = record { value = 1 };
  provisional_decision = decision;
  transaction_envelope = "{}";
  queue_state = OfflineQueueState.pending;
  attempt_count = 0;
  next_retry_at_unix_milliseconds = none;
  last_failure_category = none;
  created_at_unix_milliseconds = pos 1800;
  updated_at_unix_milliseconds = pos 1800;
}

abbrev store_after : ReaderStore
store_after = (enqueue_offline_transaction json crate working store 4 draft).1

enqueue-load_example :
    (load_offline_queue json crate working store_after 4 ≡ ok (queued ∷ added ∷ []))
    × IsSequenced json crate store_after
unfolding enqueue_offline_transaction load_offline_queue strokes count_strokes from_str
    validate_uuid ◌-ℤ◌ ◌+ℤ◌
enqueue-load_example =
    enqueue-load json crate working store 4 draft added store_after (queued ∷ [])
      (record { event = (omega arith, omega arith); policy = omega arith; created = omega arith })
      (record {
        reader = refl;
        transaction = refl;
        credential = refl;
        decision = λ text h. refl;
        envelope = λ text h. sym h;
      })
      (omega arith, ((λ _. omega arith), tt)) refl refl

-- ===== src/Protocol/Synchronization/Request/Validity.antt =====
-- Which definitions become a request, and what a request then promises of its range.
use transit_guard.Base.{◌+◌, ◌≤◌, ◌≡◌, ◌↔◌, map, List, arith}
use transit_guard.Base.Result.{ok}
use transit_guard.Base.Int.{pos, ◌≤ℤ◌}
use transit_guard.Base.Sequence.{length}
use transit_guard.Domain.Identifier.{FareTransactionId}
use transit_guard.Domain.Transaction.{LocalSequenceNumber}
use transit_guard.Protocol.Synchronization.{max_synchronization_batch_entries}
use transit_guard.Protocol.Synchronization.Entries.Order.{
  IsOrderedBatch, validate_entries-ok_iff, IsOrderedBatch-span, length-sequences,
}
use transit_guard.Protocol.Synchronization.Request.{
  SynchronizationRequestEntry, SynchronizationBatchRequestDefinition, SynchronizationBatchRequest,
  validate_request_entries, new_request,
}

-- The representation of a request that serialization writes and deserialization reads.
abbrev pub definition_of : SynchronizationBatchRequest → SynchronizationBatchRequestDefinition
definition_of request = record {
  protocol_version = request.protocol_version;
  environment_id = request.environment_id;
  reader_id = request.reader_id;
  reader_software_version = request.reader_software_version;
  batch_id = request.batch_id;
  first_local_sequence_number = request.first_local_sequence_number;
  last_local_sequence_number = request.last_local_sequence_number;
  submitted_at_unix_milliseconds = request.submitted_at_unix_milliseconds;
  entries = request.entries;
}

abbrev pub ids : List SynchronizationRequestEntry → List FareTransactionId
ids = map (λ (entry : SynchronizationRequestEntry). entry.transaction_id)

abbrev pub sequences : List SynchronizationRequestEntry → List LocalSequenceNumber
sequences = map (λ (entry : SynchronizationRequestEntry). entry.local_sequence_number)

-- A submission time that is not negative, and entries in order under the declared range.
pub record IsRequest (d : SynchronizationBatchRequestDefinition) : Type 0 where
  pub submitted : pos 0 ≤ℤ d.submitted_at_unix_milliseconds
  pub ordered :
      IsOrderedBatch d.first_local_sequence_number d.last_local_sequence_number
        (ids d.entries)
        (sequences d.entries)

validate_request_entries-ok_iff :
    (first last : LocalSequenceNumber) (entries : List SynchronizationRequestEntry)
    → (validate_request_entries first last entries ≡ ok tt)
      ↔ IsOrderedBatch first last (ids entries) (sequences entries)
unfolding validate_request_entries
validate_request_entries-ok_iff =
    validate_entries-ok_iff (λ (entry : SynchronizationRequestEntry). entry.transaction_id)
      (λ (entry : SynchronizationRequestEntry). entry.local_sequence_number)

-- A definition makes a request exactly if its submission time is not negative and its entries are
-- at least one and at most 256, start and end at the declared sequence numbers, increase strictly
-- and name distinct transactions; the request then has the values of the definition.
pub new_request-ok_iff :
    (d : SynchronizationBatchRequestDefinition) (request : SynchronizationBatchRequest)
    → (new_request d ≡ ok request) ↔ (IsRequest d × (definition_of request ≡ d))
unfolding new_request
new_request-ok_iff d request =
    let entries_iff =
      validate_request_entries-ok_iff d.first_local_sequence_number d.last_local_sequence_number
        d.entries in
    (λ h. ground (arith, entries_iff), λ h. ground (arith, entries_iff))

-- A request that is made from a definition has at most 256 entries, and its declared range has room
-- for a number of its own for each of them.
pub new_request_span :
    (d : SynchronizationBatchRequestDefinition) (request : SynchronizationBatchRequest)
    → new_request d ≡ ok request
    → (request.first_local_sequence_number.value + length request.entries
        ≤ request.last_local_sequence_number.value + 1)
      × (length request.entries ≤ max_synchronization_batch_entries)
new_request_span d request made =
    let (valid, same) = (new_request-ok_iff d request).0 made in
    ground (
      arith,
      valid.ordered,
      valid.ordered.bounded,
      IsOrderedBatch-span (sequences d.entries) valid.ordered,
      length-sequences (λ (entry : SynchronizationRequestEntry). entry.local_sequence_number)
          d.entries,
      same,
    )

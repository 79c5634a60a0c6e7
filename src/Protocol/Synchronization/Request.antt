-- ===== src/Protocol/Synchronization/Request.antt =====
-- crates/device-protocol/src/synchronization.rs: the entries and the request that a reader submits.
-- A deserialized request passes through `new_request` too.
pub mod Validity
use transit_guard.Base.{List}
use transit_guard.Base.Result.{Result, ok, ◌>>=◌, ◌>>◌}
use transit_guard.Base.Int.{ℤ}
use transit_guard.Domain.Identifier.{FareTransactionId, ReaderId, SynchronizationBatchId}
use transit_guard.Domain.Transaction.{LocalSequenceNumber}
use transit_guard.Protocol.Version.{DeviceProtocolVersion}
use transit_guard.Protocol.Synchronization.{
  SynchronizationProtocolError, ProtocolEnvironmentId, ReaderSoftwareVersion,
  CanonicalTransactionEnvelope, validate_timestamp,
}
use transit_guard.Protocol.Synchronization.Entries.{validate_entries}

pub record SynchronizationRequestEntry : Type 0 where
  pub transaction_id : FareTransactionId
  pub local_sequence_number : LocalSequenceNumber
  pub transaction_envelope : CanonicalTransactionEnvelope

pub record SynchronizationBatchRequestDefinition : Type 0 where
  pub protocol_version : DeviceProtocolVersion
  pub environment_id : ProtocolEnvironmentId
  pub reader_id : ReaderId
  pub reader_software_version : ReaderSoftwareVersion
  pub batch_id : SynchronizationBatchId
  pub first_local_sequence_number : LocalSequenceNumber
  pub last_local_sequence_number : LocalSequenceNumber
  pub submitted_at_unix_milliseconds : ℤ
  pub entries : List SynchronizationRequestEntry

pub record SynchronizationBatchRequest : Type 0 where
  pub protocol_version : DeviceProtocolVersion
  pub environment_id : ProtocolEnvironmentId
  pub reader_id : ReaderId
  pub reader_software_version : ReaderSoftwareVersion
  pub batch_id : SynchronizationBatchId
  pub first_local_sequence_number : LocalSequenceNumber
  pub last_local_sequence_number : LocalSequenceNumber
  pub submitted_at_unix_milliseconds : ℤ
  pub entries : List SynchronizationRequestEntry

unfoldable pub validate_request_entries :
    LocalSequenceNumber
    → LocalSequenceNumber
    → List SynchronizationRequestEntry
    → Result (Unit {0}) SynchronizationProtocolError
unfolding validate_entries
validate_request_entries =
    validate_entries (λ (entry : SynchronizationRequestEntry). entry.transaction_id)
      (λ (entry : SynchronizationRequestEntry). entry.local_sequence_number)

unfoldable pub new_request :
    SynchronizationBatchRequestDefinition
    → Result SynchronizationBatchRequest SynchronizationProtocolError
unfolding validate_timestamp validate_request_entries
new_request definition = do
  validate_timestamp "submitted_at_unix_milliseconds" definition.submitted_at_unix_milliseconds
  validate_request_entries definition.first_local_sequence_number
      definition.last_local_sequence_number definition.entries
  ok (record {
    protocol_version = definition.protocol_version;
    environment_id = definition.environment_id;
    reader_id = definition.reader_id;
    reader_software_version = definition.reader_software_version;
    batch_id = definition.batch_id;
    first_local_sequence_number = definition.first_local_sequence_number;
    last_local_sequence_number = definition.last_local_sequence_number;
    submitted_at_unix_milliseconds = definition.submitted_at_unix_milliseconds;
    entries = definition.entries;
  })

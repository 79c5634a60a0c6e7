-- ===== src/Protocol/Presentation.antt =====
-- crates/device-protocol/src/presentation.rs: the message with which a reader presents a credential.
use transit_guard.Base.{ℕ}
use transit_guard.Base.Tests.{◌==◌, if◌then◌else◌}
use transit_guard.Base.Result.{Result, ok, err}
use transit_guard.Domain.Identifier.{FareTransactionId, ReaderId, FareCredentialId}
use transit_guard.Domain.Transaction.{LocalSequenceNumber, EventTime, FareProcessingMode}
use transit_guard.Protocol.Version.{DeviceProtocolVersion}

pub data PresentationValueError : Type 0 where
  zero_zone_id : PresentationValueError

-- The number is a `u16`.
pub record ProtocolZoneId : Type 0 where
  pub value : ℕ

unfoldable pub new_zone : ℕ → Result ProtocolZoneId PresentationValueError
new_zone value =
    if value == 0 then err PresentationValueError.zero_zone_id else ok (record { value = value })

pub data CredentialMedium : Type 0 where
  card mobile : CredentialMedium

pub record CredentialPresentationDefinition : Type 0 where
  pub protocol_version : DeviceProtocolVersion
  pub transaction_id : FareTransactionId
  pub reader_id : ReaderId
  pub local_sequence_number : LocalSequenceNumber
  pub credential_id : FareCredentialId
  pub credential_medium : CredentialMedium
  pub event_time : EventTime
  pub origin_zone : ProtocolZoneId
  pub destination_zone : ProtocolZoneId
  pub processing_mode : FareProcessingMode

pub record CredentialPresentation : Type 0 where
  pub protocol_version : DeviceProtocolVersion
  pub transaction_id : FareTransactionId
  pub reader_id : ReaderId
  pub local_sequence_number : LocalSequenceNumber
  pub credential_id : FareCredentialId
  pub credential_medium : CredentialMedium
  pub event_time : EventTime
  pub origin_zone : ProtocolZoneId
  pub destination_zone : ProtocolZoneId
  pub processing_mode : FareProcessingMode

unfoldable pub from_definition : CredentialPresentationDefinition → CredentialPresentation
from_definition definition = record {
  protocol_version = definition.protocol_version;
  transaction_id = definition.transaction_id;
  reader_id = definition.reader_id;
  local_sequence_number = definition.local_sequence_number;
  credential_id = definition.credential_id;
  credential_medium = definition.credential_medium;
  event_time = definition.event_time;
  origin_zone = definition.origin_zone;
  destination_zone = definition.destination_zone;
  processing_mode = definition.processing_mode;
}

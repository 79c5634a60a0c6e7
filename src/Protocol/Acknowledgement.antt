-- ===== src/Protocol/Acknowledgement.antt =====
-- crates/device-protocol/src/synchronization.rs: the backend's acknowledgement of a batch, its own
-- validation, and its comparison with the request that it answers.
pub mod Match
pub mod Validity
use transit_guard.Base.{
  ℕ, suc, String, Bool, true, false, ◌&&◌, not, Option, some, none, List, [], ◌∷◌,
}
use transit_guard.Base.Tests.{◌==◌, if◌then◌else◌}
use transit_guard.Base.Result.{Result, ok, err, ◌>>=◌, ◌>>◌}
use transit_guard.Base.Int.{ℤ}
use transit_guard.Base.Sequence.{length}
use text.Mathlib.Text.{◌==◌ as str_eq}
use transit_guard.Domain.Identifier.{FareTransactionId, ReaderId, SynchronizationBatchId}
use transit_guard.Domain.Transaction.{LocalSequenceNumber}
use transit_guard.Protocol.Version.{DeviceProtocolVersion}
use transit_guard.Protocol.Synchronization.{
  SynchronizationEntryOutcome, SynchronizationProtocolError, ProtocolEnvironmentId,
  validate_timestamp,
}
use transit_guard.Protocol.Synchronization.Category.{SynchronizationFailureCategory}
use transit_guard.Protocol.Synchronization.Entries.{validate_entries}
use transit_guard.Protocol.Synchronization.Request.{
  SynchronizationRequestEntry, SynchronizationBatchRequest,
}

abbrev is_some {ℓ} : {A : Type ℓ} → Option A → Bool
is_some none = false
is_some (some a) = true

abbrev is_none {ℓ} : {A : Type ℓ} → Option A → Bool
is_none none = true
is_none (some a) = false

-- The first check of `validate_outcome_metadata`.
abbrev validate_retry_time : Option ℤ → Result (Unit {0}) SynchronizationProtocolError
validate_retry_time none = ok tt
validate_retry_time (some retry_at) = validate_timestamp "next_retry_at_unix_milliseconds" retry_at

-- Its `match outcome`.
abbrev valid_metadata :
    SynchronizationEntryOutcome → Option SynchronizationFailureCategory → Option ℤ → Bool
valid_metadata SynchronizationEntryOutcome.acknowledged category retry_at =
    is_none category && is_none retry_at
valid_metadata SynchronizationEntryOutcome.retryable_failure category retry_at =
    is_some category && is_some retry_at
valid_metadata SynchronizationEntryOutcome.permanent_failure category retry_at =
    is_some category && is_none retry_at
valid_metadata SynchronizationEntryOutcome.manual_review category retry_at =
    is_some category && is_none retry_at

unfoldable pub validate_outcome_metadata :
    SynchronizationEntryOutcome
    → Option SynchronizationFailureCategory
    → Option ℤ
    → Result (Unit {0}) SynchronizationProtocolError
unfolding validate_timestamp
validate_outcome_metadata outcome failure_category next_retry_at =
    validate_retry_time next_retry_at
    >> (if not (valid_metadata outcome failure_category next_retry_at)
        then err (SynchronizationProtocolError.invalid_outcome_metadata outcome)
        else ok tt)

pub record SynchronizationAcknowledgementEntry : Type 0 where
  pub transaction_id : FareTransactionId
  pub local_sequence_number : LocalSequenceNumber
  pub outcome : SynchronizationEntryOutcome
  pub failure_category : Option SynchronizationFailureCategory
  pub next_retry_at_unix_milliseconds : Option ℤ

unfoldable pub new_acknowledgement_entry :
    FareTransactionId
    → LocalSequenceNumber
    → SynchronizationEntryOutcome
    → Option SynchronizationFailureCategory
    → Option ℤ
    → Result SynchronizationAcknowledgementEntry SynchronizationProtocolError
unfolding validate_outcome_metadata
new_acknowledgement_entry id sequence outcome failure_category next_retry_at = do
  validate_outcome_metadata outcome failure_category next_retry_at
  ok (record {
    transaction_id = id;
    local_sequence_number = sequence;
    outcome = outcome;
    failure_category = failure_category;
    next_retry_at_unix_milliseconds = next_retry_at;
  })

pub record SynchronizationBatchAcknowledgementDefinition : Type 0 where
  pub protocol_version : DeviceProtocolVersion
  pub environment_id : ProtocolEnvironmentId
  pub reader_id : ReaderId
  pub batch_id : SynchronizationBatchId
  pub first_local_sequence_number : LocalSequenceNumber
  pub last_local_sequence_number : LocalSequenceNumber
  pub received_at_unix_milliseconds : ℤ
  pub replayed : Bool
  pub entries : List SynchronizationAcknowledgementEntry

pub record SynchronizationBatchAcknowledgement : Type 0 where
  pub protocol_version : DeviceProtocolVersion
  pub environment_id : ProtocolEnvironmentId
  pub reader_id : ReaderId
  pub batch_id : SynchronizationBatchId
  pub first_local_sequence_number : LocalSequenceNumber
  pub last_local_sequence_number : LocalSequenceNumber
  pub received_at_unix_milliseconds : ℤ
  pub replayed : Bool
  pub entries : List SynchronizationAcknowledgementEntry

unfoldable pub validate_acknowledgement_entries :
    LocalSequenceNumber
    → LocalSequenceNumber
    → List SynchronizationAcknowledgementEntry
    → Result (Unit {0}) SynchronizationProtocolError
unfolding validate_entries
validate_acknowledgement_entries =
    validate_entries (λ (entry : SynchronizationAcknowledgementEntry). entry.transaction_id)
      (λ (entry : SynchronizationAcknowledgementEntry). entry.local_sequence_number)

unfoldable pub new_acknowledgement :
    SynchronizationBatchAcknowledgementDefinition
    → Result SynchronizationBatchAcknowledgement SynchronizationProtocolError
unfolding validate_timestamp validate_acknowledgement_entries
new_acknowledgement definition = do
  validate_timestamp "received_at_unix_milliseconds" definition.received_at_unix_milliseconds
  validate_acknowledgement_entries definition.first_local_sequence_number
      definition.last_local_sequence_number definition.entries
  ok (record {
    protocol_version = definition.protocol_version;
    environment_id = definition.environment_id;
    reader_id = definition.reader_id;
    batch_id = definition.batch_id;
    first_local_sequence_number = definition.first_local_sequence_number;
    last_local_sequence_number = definition.last_local_sequence_number;
    received_at_unix_milliseconds = definition.received_at_unix_milliseconds;
    replayed = definition.replayed;
    entries = definition.entries;
  })

unfoldable pub with_replayed :
    Bool → SynchronizationBatchAcknowledgement → SynchronizationBatchAcknowledgement
with_replayed replayed acknowledgement = record acknowledgement { replayed = replayed }

-- One early return of `validate_against_request`.
abbrev same_identity : String → Bool → Result (Unit {0}) SynchronizationProtocolError
same_identity field equal =
    if not equal
    then err (SynchronizationProtocolError.acknowledgement_identity_mismatch field)
    else ok tt

-- Its loop over the two zipped sequences of entries, with the position.
entries_match :
    ℕ
    → List SynchronizationAcknowledgementEntry
    → List SynchronizationRequestEntry
    → Result (Unit {0}) SynchronizationProtocolError
entries_match position [] submitted = ok tt
entries_match position (a ∷ rest) [] = ok tt
entries_match position (acknowledgement ∷ rest) (submitted ∷ rest') =
    let continue = entries_match (suc position) rest rest' in
    if not (acknowledgement.transaction_id == submitted.transaction_id)
    then err (SynchronizationProtocolError.acknowledgement_transaction_mismatch position)
    else if not
        (acknowledgement.local_sequence_number.value == submitted.local_sequence_number.value)
    then err (
        SynchronizationProtocolError.acknowledgement_sequence_mismatch position
          submitted.local_sequence_number.value acknowledgement.local_sequence_number.value)
    else continue

-- The check of the two counts.
abbrev same_count : ℕ → ℕ → Result (Unit {0}) SynchronizationProtocolError
same_count actual expected =
    if not (actual == expected)
    then err (SynchronizationProtocolError.acknowledgement_entry_count_mismatch expected actual)
    else ok tt

unfoldable pub validate_against_request :
    SynchronizationBatchAcknowledgement
    → SynchronizationBatchRequest
    → Result (Unit {0}) SynchronizationProtocolError
unfolding entries_match
validate_against_request self request = do
  same_identity "protocol_version" (self.protocol_version.value == request.protocol_version.value)
  same_identity "environment_id" (str_eq self.environment_id.text request.environment_id.text)
  same_identity "reader_id" (self.reader_id == request.reader_id)
  same_identity "batch_id" (self.batch_id == request.batch_id)
  same_identity "first_local_sequence_number"
      (self.first_local_sequence_number.value == request.first_local_sequence_number.value)
  same_identity "last_local_sequence_number"
      (self.last_local_sequence_number.value == request.last_local_sequence_number.value)
  same_count (length self.entries) (length request.entries)
  entries_match 0 self.entries request.entries

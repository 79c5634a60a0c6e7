-- ===== src/Protocol/Acknowledgement/Validity.antt =====
-- Which definitions become an acknowledgement: the metadata of each outcome, and the order of the
-- entries.
use transit_guard.Base.{◌≡◌, ◌↔◌, refl, sym, ap, Option, some, none, map, List, arith}
use transit_guard.Base.Result.{ok}
use transit_guard.Base.Int.{ℤ, pos, ◌≤ℤ◌}
use transit_guard.Domain.Identifier.{FareTransactionId}
use transit_guard.Domain.Transaction.{LocalSequenceNumber}
use transit_guard.Protocol.Synchronization.{SynchronizationEntryOutcome}
use transit_guard.Protocol.Synchronization.Category.{SynchronizationFailureCategory}
use transit_guard.Protocol.Synchronization.Entries.Order.{IsOrderedBatch, validate_entries-ok_iff}
use transit_guard.Protocol.Acknowledgement.{
  SynchronizationAcknowledgementEntry, SynchronizationBatchAcknowledgementDefinition,
  SynchronizationBatchAcknowledgement, validate_outcome_metadata, new_acknowledgement_entry,
  validate_acknowledgement_entries, new_acknowledgement,
}

-- The metadata that an outcome has: an acknowledged entry has none, a retryable failure has a
-- category and a time that is not negative, and the two final failures have a category alone.
pub data Metadata
    : SynchronizationEntryOutcome → Option SynchronizationFailureCategory → Option ℤ → Type 0 where
  accepted : Metadata SynchronizationEntryOutcome.acknowledged none none
  retry :
      (category : SynchronizationFailureCategory) (retry_at : ℤ)
      → pos 0 ≤ℤ retry_at
      → Metadata SynchronizationEntryOutcome.retryable_failure (some category) (some retry_at)
  rejected :
      (category : SynchronizationFailureCategory)
      → Metadata SynchronizationEntryOutcome.permanent_failure (some category) none
  review :
      (category : SynchronizationFailureCategory)
      → Metadata SynchronizationEntryOutcome.manual_review (some category) none

Metadata-sound :
    (outcome : SynchronizationEntryOutcome) (category : Option SynchronizationFailureCategory)
    (retry_at : Option ℤ)
    → validate_outcome_metadata outcome category retry_at ≡ ok tt
    → Metadata outcome category retry_at
unfolding validate_outcome_metadata
Metadata-sound SynchronizationEntryOutcome.acknowledged none none h = Metadata.accepted
Metadata-sound SynchronizationEntryOutcome.retryable_failure (some c) (some t) h =
    Metadata.retry c t (ground arith)
Metadata-sound SynchronizationEntryOutcome.permanent_failure (some c) none h = Metadata.rejected c
Metadata-sound SynchronizationEntryOutcome.manual_review (some c) none h = Metadata.review c
Metadata-sound SynchronizationEntryOutcome.acknowledged (some c) t h = absurd (ground arith)
Metadata-sound SynchronizationEntryOutcome.acknowledged none (some t) h = absurd (ground arith)
Metadata-sound SynchronizationEntryOutcome.retryable_failure none t h = absurd (ground arith)
Metadata-sound SynchronizationEntryOutcome.retryable_failure (some c) none h = absurd (ground arith)
Metadata-sound SynchronizationEntryOutcome.permanent_failure none t h = absurd (ground arith)
Metadata-sound SynchronizationEntryOutcome.permanent_failure (some c) (some t) h =
    absurd (ground arith)
Metadata-sound SynchronizationEntryOutcome.manual_review none t h = absurd (ground arith)
Metadata-sound SynchronizationEntryOutcome.manual_review (some c) (some t) h = absurd (ground arith)

Metadata-complete :
    {outcome : SynchronizationEntryOutcome} {category : Option SynchronizationFailureCategory}
    {retry_at : Option ℤ}
    → Metadata outcome category retry_at
    → validate_outcome_metadata outcome category retry_at ≡ ok tt
unfolding validate_outcome_metadata
Metadata-complete Metadata.accepted = refl
Metadata-complete (Metadata.retry c t h) = ground arith
Metadata-complete (Metadata.rejected c) = refl
Metadata-complete (Metadata.review c) = refl

-- An acknowledgement entry is made exactly of an outcome with its metadata, and keeps its values:
-- none for an acknowledged one, a category and a retry time that is not negative for a retryable
-- failure, a category alone for a permanent failure or a manual review.
pub new_acknowledgement_entry-ok_iff :
    (id : FareTransactionId) (sequence : LocalSequenceNumber)
    (outcome : SynchronizationEntryOutcome) (category : Option SynchronizationFailureCategory)
    (retry_at : Option ℤ) (entry : SynchronizationAcknowledgementEntry)
    → (new_acknowledgement_entry id sequence outcome category retry_at ≡ ok entry) ↔ (
        Metadata outcome category retry_at
        × (entry ≡ record {
          transaction_id = id;
          local_sequence_number = sequence;
          outcome = outcome;
          failure_category = category;
          next_retry_at_unix_milliseconds = retry_at;
        }))
unfolding new_acknowledgement_entry
new_acknowledgement_entry-ok_iff id sequence outcome category retry_at entry = (
  λ h. ground (arith, Metadata-sound outcome category retry_at),
  λ (valid, e). rw (Metadata-complete valid) (ap ok (sym e)),
)

-- The representation of an acknowledgement that serialization writes and deserialization reads.
abbrev pub definition_of :
    SynchronizationBatchAcknowledgement → SynchronizationBatchAcknowledgementDefinition
definition_of a = record {
  protocol_version = a.protocol_version;
  environment_id = a.environment_id;
  reader_id = a.reader_id;
  batch_id = a.batch_id;
  first_local_sequence_number = a.first_local_sequence_number;
  last_local_sequence_number = a.last_local_sequence_number;
  received_at_unix_milliseconds = a.received_at_unix_milliseconds;
  replayed = a.replayed;
  entries = a.entries;
}

-- A receipt time that is not negative, and entries in order under the declared range.
pub record IsAcknowledgement (d : SynchronizationBatchAcknowledgementDefinition) : Type 0 where
  pub received : pos 0 ≤ℤ d.received_at_unix_milliseconds
  pub ordered :
      IsOrderedBatch d.first_local_sequence_number d.last_local_sequence_number
        (map (λ (e : SynchronizationAcknowledgementEntry). e.transaction_id) d.entries)
        (map (λ (e : SynchronizationAcknowledgementEntry). e.local_sequence_number) d.entries)

validate_acknowledgement_entries-ok_iff :
    (first last : LocalSequenceNumber) (entries : List SynchronizationAcknowledgementEntry)
    → (validate_acknowledgement_entries first last entries ≡ ok tt)
      ↔ IsOrderedBatch first last
          (map (λ (e : SynchronizationAcknowledgementEntry). e.transaction_id) entries)
          (map (λ (e : SynchronizationAcknowledgementEntry). e.local_sequence_number) entries)
unfolding validate_acknowledgement_entries
validate_acknowledgement_entries-ok_iff =
    validate_entries-ok_iff (λ (e : SynchronizationAcknowledgementEntry). e.transaction_id)
      (λ (e : SynchronizationAcknowledgementEntry). e.local_sequence_number)

-- A definition makes an acknowledgement exactly if its receipt time is not negative and its entries
-- are at least one and at most 256, start and end at the declared sequence numbers, increase
-- strictly and name distinct transactions; the acknowledgement then has the values of the
-- definition.
pub new_acknowledgement-ok_iff :
    (d : SynchronizationBatchAcknowledgementDefinition) (a : SynchronizationBatchAcknowledgement)
    → (new_acknowledgement d ≡ ok a) ↔ (IsAcknowledgement d × (definition_of a ≡ d))
unfolding new_acknowledgement
new_acknowledgement-ok_iff d a =
    let entries_iff =
      validate_acknowledgement_entries-ok_iff d.first_local_sequence_number
        d.last_local_sequence_number d.entries in
    (λ h. ground (arith, entries_iff), λ h. ground (arith, entries_iff))

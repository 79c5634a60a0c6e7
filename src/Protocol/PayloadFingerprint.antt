-- ===== src/Protocol/PayloadFingerprint.antt =====
-- crates/device-protocol/src/payload_fingerprint.rs: the fingerprints of a transaction envelope and
-- of an acknowledgement. The `replayed` marker is not part of the latter.
pub mod Injective
use transit_guard.Base.{ℕ, String, Option, some, none, List, [], ◌∷◌, ◌++◌}
use transit_guard.Base.Int.{ℤ}
use transit_guard.Base.Sequence.{length}
use transit_guard.Base.Text.{as_bytes}
use transit_guard.Domain.Identifier.{UuidCrate}
use transit_guard.Protocol.Synchronization.{
  SynchronizationEntryOutcome, CanonicalTransactionEnvelope,
}
use transit_guard.Protocol.Synchronization.Category.{
  SynchronizationFailureCategory, category_as_str,
}
use transit_guard.Protocol.Acknowledgement.{
  SynchronizationAcknowledgementEntry, SynchronizationBatchAcknowledgement,
}
use transit_guard.Protocol.Encoding.{
  feed, update_bytes, update_text, update_u16, update_u64, update_i64,
}

abbrev pub transaction_envelope_domain : String
transaction_envelope_domain = "transitguard.reader-synchronization.transaction-envelope.v1"

abbrev pub acknowledgement_domain : String
acknowledgement_domain = "transitguard.reader-synchronization.acknowledgement.v1"

-- What `for_transaction_envelope` feeds to the hasher.
unfoldable pub envelope_message : CanonicalTransactionEnvelope → List ℕ
unfolding update_bytes update_text as_bytes
envelope_message envelope =
    update_bytes (as_bytes transaction_envelope_domain) ++ update_text envelope.text

unfoldable pub encode_outcome : SynchronizationEntryOutcome → ℕ
encode_outcome SynchronizationEntryOutcome.acknowledged = 1
encode_outcome SynchronizationEntryOutcome.retryable_failure = 2
encode_outcome SynchronizationEntryOutcome.permanent_failure = 3
encode_outcome SynchronizationEntryOutcome.manual_review = 4

-- The two `match` expressions of the loop: a byte that says whether the value is there, and the value.
encode_category : Option SynchronizationFailureCategory → List ℕ
encode_category (some category) = (1 ∷ []) ++ update_text (category_as_str category)
encode_category none = 0 ∷ []

encode_retry_time : Option ℤ → List ℕ
encode_retry_time (some retry_at) = (1 ∷ []) ++ update_i64 retry_at
encode_retry_time none = 0 ∷ []

-- The loop over the entries.
results_message : UuidCrate → List SynchronizationAcknowledgementEntry → List ℕ
results_message crate [] = []
results_message crate (entry ∷ entries) =
    feed
      (update_text (crate.to_string entry.transaction_id)
        ∷ update_u64 entry.local_sequence_number.value
        ∷ (encode_outcome entry.outcome ∷ [])
        ∷ encode_category entry.failure_category
        ∷ encode_retry_time entry.next_retry_at_unix_milliseconds
        ∷ [])
      (results_message crate entries)

-- What `for_acknowledgement` feeds to the hasher.
unfoldable pub acknowledgement_message : UuidCrate → SynchronizationBatchAcknowledgement → List ℕ
unfolding update_bytes update_text update_u16 update_u64 update_i64 as_bytes encode_outcome
    encode_category encode_retry_time results_message category_as_str
acknowledgement_message crate acknowledgement =
    feed
      (update_bytes (as_bytes acknowledgement_domain)
        ∷ update_u16 acknowledgement.protocol_version.value
        ∷ update_text acknowledgement.environment_id.text
        ∷ update_text (crate.to_string acknowledgement.reader_id)
        ∷ update_text (crate.to_string acknowledgement.batch_id)
        ∷ update_u64 acknowledgement.first_local_sequence_number.value
        ∷ update_u64 acknowledgement.last_local_sequence_number.value
        ∷ update_i64 acknowledgement.received_at_unix_milliseconds
        ∷ update_u64 (length acknowledgement.entries)
        ∷ [])
      (results_message crate acknowledgement.entries)

-- `for_transaction_envelope` and `for_acknowledgement`, over the hash function.
unfoldable pub for_transaction_envelope : (List ℕ → List ℕ) → CanonicalTransactionEnvelope → List ℕ
unfolding envelope_message
for_transaction_envelope sha256 envelope = sha256 (envelope_message envelope)

unfoldable pub for_acknowledgement :
    (List ℕ → List ℕ) → UuidCrate → SynchronizationBatchAcknowledgement → List ℕ
unfolding acknowledgement_message
for_acknowledgement sha256 crate acknowledgement =
    sha256 (acknowledgement_message crate acknowledgement)

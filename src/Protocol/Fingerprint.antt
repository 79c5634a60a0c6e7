-- ===== src/Protocol/Fingerprint.antt =====
-- crates/device-protocol/src/fingerprint.rs: the fingerprint by which the backend recognises a
-- request that is submitted again.
pub mod Injective
use transit_guard.Base.{ℕ, String, List, [], ◌∷◌, ◌++◌}
use transit_guard.Base.Sequence.{length}
use transit_guard.Base.Text.{as_bytes}
use transit_guard.Domain.Identifier.{UuidCrate}
use transit_guard.Protocol.Synchronization.Request.{
  SynchronizationRequestEntry, SynchronizationBatchRequest,
}
use transit_guard.Protocol.Encoding.{
  feed, update_bytes, update_text, update_u16, update_u64, update_i64,
}

abbrev pub fingerprint_domain : String
fingerprint_domain = "transitguard.reader-synchronization.request.v1"

-- The loop over the entries.
entries_message : UuidCrate → List SynchronizationRequestEntry → List ℕ
entries_message crate [] = []
entries_message crate (entry ∷ entries) =
    feed
      (update_text (crate.to_string entry.transaction_id)
        ∷ update_u64 entry.local_sequence_number.value
        ∷ update_text entry.transaction_envelope.text
        ∷ [])
      (entries_message crate entries)

-- What `calculate` feeds to the hasher.
unfoldable pub request_message : UuidCrate → SynchronizationBatchRequest → List ℕ
unfolding update_bytes update_text update_u16 update_u64 update_i64 as_bytes entries_message
request_message crate request =
    feed
      (update_bytes (as_bytes fingerprint_domain)
        ∷ update_u16 request.protocol_version.value
        ∷ update_text request.environment_id.text
        ∷ update_text (crate.to_string request.reader_id)
        ∷ update_text request.reader_software_version.text
        ∷ update_text (crate.to_string request.batch_id)
        ∷ update_u64 request.first_local_sequence_number.value
        ∷ update_u64 request.last_local_sequence_number.value
        ∷ update_i64 request.submitted_at_unix_milliseconds
        ∷ update_u64 (length request.entries)
        ∷ [])
      (entries_message crate request.entries)

-- `calculate`, over the hash function.
unfoldable pub calculate : (List ℕ → List ℕ) → UuidCrate → SynchronizationBatchRequest → List ℕ
unfolding request_message
calculate sha256 crate request = sha256 (request_message crate request)

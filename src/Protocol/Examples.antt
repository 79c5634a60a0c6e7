-- ===== src/Protocol/Examples.antt =====
-- A reader's batch of two transactions, and the backend's acknowledgement of it.
use transit_guard.Base.{
  ℕ, zero, suc, ◌+◌, ◌≤◌, ◌≡◌, ◌↔◌, refl, String, true, false, some, none, map, List, [], ◌∷◌,
  arith,
}
use transit_guard.Base.Result.{ok}
use transit_guard.Base.Int.{pos}
use transit_guard.Base.Sequence.{length}
use transit_guard.Base.Text.{as_bytes}
use transit_guard.Domain.Identifier.{UuidCrate}
use transit_guard.Protocol.Synchronization.{SynchronizationEntryOutcome, JsonCrate}
use transit_guard.Protocol.Synchronization.Category.{SynchronizationFailureCategory}
use transit_guard.Protocol.Synchronization.Values.{WritesCanonically}
use transit_guard.Protocol.Synchronization.Request.{SynchronizationBatchRequest, new_request}
use transit_guard.Protocol.Synchronization.Request.Validity.{
  IsRequest, new_request-ok_iff, new_request_span,
}
use transit_guard.Protocol.Synchronization.Request.Validity
use transit_guard.Protocol.Acknowledgement.{
  SynchronizationAcknowledgementEntry, SynchronizationBatchAcknowledgement,
  new_acknowledgement_entry, new_acknowledgement, validate_against_request, with_replayed,
}
use transit_guard.Protocol.Acknowledgement.Validity as Received
use transit_guard.Protocol.Acknowledgement.Validity.{
  Metadata, IsAcknowledgement, new_acknowledgement_entry-ok_iff, new_acknowledgement-ok_iff,
}
use transit_guard.Protocol.Acknowledgement.Match.{Answers, validate_against_request-ok_iff}
use transit_guard.Protocol.Encoding.{to_hex, parse_hex}
use transit_guard.Protocol.Encoding.Hex.{
  IsFingerprint, to_ascii_lowercase, parse_hex-to_hex, to_hex-parse_hex,
}
use transit_guard.Protocol.Fingerprint.Injective
use transit_guard.Protocol.Fingerprint.{request_message}
use transit_guard.Protocol.Fingerprint.Injective.{request_message_iff}
use transit_guard.Protocol.PayloadFingerprint.Injective as Payload
use transit_guard.Protocol.PayloadFingerprint.{acknowledgement_message}
use transit_guard.Protocol.PayloadFingerprint.Injective.{acknowledgement_message_iff}

-- Identifiers printed as so many strokes.
unfoldable pub strokes : ℕ → String
strokes zero = ""
strokes (suc n) = String.◌∷◌ "1" (strokes n)

unfoldable pub count_strokes : String → ℕ
count_strokes String.[] = 0
count_strokes (String.◌∷◌ c s) = suc (count_strokes s)

abbrev pub crate : UuidCrate
unfolding strokes count_strokes
crate = record {
  is_nil = λ id. false;
  is_rfc4122 = λ id. true;
  is_sort_rand = λ id. true;
  parse_str = λ text. ok (count_strokes text);
  to_string = strokes;
}

abbrev request : SynchronizationBatchRequest
request = record {
  protocol_version = record { value = 1 };
  environment_id = record { text = "test" };
  reader_id = 4;
  reader_software_version = record { text = "1.0" };
  batch_id = 5;
  first_local_sequence_number = record { value = 7 };
  last_local_sequence_number = record { value = 9 };
  submitted_at_unix_milliseconds = pos 1000;
  entries =
      record {
        transaction_id = 2;
        local_sequence_number = record { value = 7 };
        transaction_envelope = record { text = "{}" };
      }
      ∷ record {
        transaction_id = 3;
        local_sequence_number = record { value = 9 };
        transaction_envelope = record { text = "{}" };
      }
      ∷ [];
}

new_request-ok_iff_example : (new_request (Validity.definition_of request) ≡ ok request) ↔ (
    IsRequest (Validity.definition_of request)
    × (Validity.definition_of request ≡ Validity.definition_of request))
new_request-ok_iff_example = new_request-ok_iff (Validity.definition_of request) request

request_made : new_request (Validity.definition_of request) ≡ ok request
unfolding new_request
request_made = refl

new_request_span_example : (7 + length request.entries ≤ 9 + 1) × (length request.entries ≤ 256)
new_request_span_example = new_request_span (Validity.definition_of request) request request_made

abbrev results : List SynchronizationAcknowledgementEntry
results =
    record {
      transaction_id = 2;
      local_sequence_number = record { value = 7 };
      outcome = SynchronizationEntryOutcome.acknowledged;
      failure_category = none;
      next_retry_at_unix_milliseconds = none;
    }
    ∷ record {
      transaction_id = 3;
      local_sequence_number = record { value = 9 };
      outcome = SynchronizationEntryOutcome.retryable_failure;
      failure_category = some SynchronizationFailureCategory.backend_temporarily_unavailable;
      next_retry_at_unix_milliseconds = some (pos 2000);
    }
    ∷ []

abbrev acknowledgement : SynchronizationBatchAcknowledgement
acknowledgement = record {
  protocol_version = record { value = 1 };
  environment_id = record { text = "test" };
  reader_id = 4;
  batch_id = 5;
  first_local_sequence_number = record { value = 7 };
  last_local_sequence_number = record { value = 9 };
  received_at_unix_milliseconds = pos 1500;
  replayed = false;
  entries = results;
}

new_acknowledgement-ok_iff_example :
    (new_acknowledgement (Received.definition_of acknowledgement) ≡ ok acknowledgement) ↔ (
      IsAcknowledgement (Received.definition_of acknowledgement)
      × (Received.definition_of acknowledgement ≡ Received.definition_of acknowledgement))
new_acknowledgement-ok_iff_example =
    new_acknowledgement-ok_iff (Received.definition_of acknowledgement) acknowledgement

abbrev retried : SynchronizationAcknowledgementEntry
retried = record {
  transaction_id = 3;
  local_sequence_number = record { value = 9 };
  outcome = SynchronizationEntryOutcome.retryable_failure;
  failure_category = some SynchronizationFailureCategory.network_timeout;
  next_retry_at_unix_milliseconds = some (pos 2000);
}

new_acknowledgement_entry-ok_iff_example :
    (new_acknowledgement_entry 3
        (record { value = 9 })
        SynchronizationEntryOutcome.retryable_failure
        (some SynchronizationFailureCategory.network_timeout)
        (some (pos 2000))
      ≡ ok retried)
    ↔ (Metadata SynchronizationEntryOutcome.retryable_failure
          (some SynchronizationFailureCategory.network_timeout)
          (some (pos 2000))
        × (retried ≡ retried))
new_acknowledgement_entry-ok_iff_example =
    new_acknowledgement_entry-ok_iff 3 (record { value = 9 })
      SynchronizationEntryOutcome.retryable_failure
      (some SynchronizationFailureCategory.network_timeout) (some (pos 2000)) retried

validate_against_request-ok_iff_example :
    (validate_against_request acknowledgement request ≡ ok tt) ↔ Answers acknowledgement request
validate_against_request-ok_iff_example = validate_against_request-ok_iff acknowledgement request

-- A `serde_json` that knows texts alone, each of which is an object.
abbrev verbatim : JsonCrate
verbatim = record {
  Value = String;
  from_str = λ text. ok text;
  is_object = λ value. true;
  to_string = λ value. ok value;
}

verbatim-WritesCanonically : WritesCanonically verbatim
verbatim-WritesCanonically = record { rereads = λ value text h. (text, refl, refl, refl) }

-- 32 bytes, and their text.
abbrev sample : List ℕ
sample =
    0 ∷ 31 ∷ 255 ∷ 163 ∷ 0 ∷ 31 ∷ 255 ∷ 163 ∷ 0 ∷ 31 ∷ 255 ∷ 163 ∷ 0 ∷ 31 ∷ 255 ∷ 163 ∷ 0 ∷ 31 ∷ 255
    ∷ 163 ∷ 0 ∷ 31 ∷ 255 ∷ 163 ∷ 0 ∷ 31 ∷ 255 ∷ 163 ∷ 0 ∷ 31 ∷ 255 ∷ 163 ∷ []

parse_hex-to_hex_example : parse_hex (to_hex sample) ≡ ok sample
parse_hex-to_hex_example = parse_hex-to_hex sample (omega arith)

to_hex-parse_hex_example :
    IsFingerprint sample × (to_hex sample ≡ map to_ascii_lowercase (to_hex sample))
unfolding parse_hex to_hex
to_hex-parse_hex_example = to_hex-parse_hex (to_hex sample) sample refl

request-FitsWords : Injective.FitsWords crate request
unfolding as_bytes strokes count_strokes
request-FitsWords = record {
  version = omega arith;
  environment = omega arith;
  reader = (omega arith, refl);
  batch = (omega arith, refl);
  software = omega arith;
  first_sequence = omega arith;
  last_sequence = omega arith;
  submitted = omega arith;
  count = omega arith;
  each = (
    (omega arith, refl),
    omega arith,
    omega arith,
    ((omega arith, refl), omega arith, omega arith, tt),
  );
}

-- The same batch from another reader.
abbrev other_request : SynchronizationBatchRequest
other_request = record request { reader_id = 6 }

other_request-FitsWords : Injective.FitsWords crate other_request
unfolding as_bytes strokes count_strokes
other_request-FitsWords = record {
  version = omega arith;
  environment = omega arith;
  reader = (omega arith, refl);
  batch = (omega arith, refl);
  software = omega arith;
  first_sequence = omega arith;
  last_sequence = omega arith;
  submitted = omega arith;
  count = omega arith;
  each = (
    (omega arith, refl),
    omega arith,
    omega arith,
    ((omega arith, refl), omega arith, omega arith, tt),
  );
}

request_message_iff_example :
    (request_message crate request ≡ request_message crate other_request)
    ↔ (request ≡ other_request)
request_message_iff_example =
    request_message_iff crate request other_request request-FitsWords other_request-FitsWords

acknowledgement-FitsWords : Payload.FitsWords crate acknowledgement
unfolding as_bytes strokes count_strokes
acknowledgement-FitsWords = record {
  version = omega arith;
  environment = omega arith;
  reader = (omega arith, refl);
  batch = (omega arith, refl);
  first_sequence = omega arith;
  last_sequence = omega arith;
  received = omega arith;
  count = omega arith;
  each =
      ((omega arith, refl), omega arith, tt, ((omega arith, refl), omega arith, omega arith, tt));
}

replayed-FitsWords : Payload.FitsWords crate (with_replayed true acknowledgement)
unfolding as_bytes strokes count_strokes with_replayed
replayed-FitsWords = record {
  version = omega arith;
  environment = omega arith;
  reader = (omega arith, refl);
  batch = (omega arith, refl);
  first_sequence = omega arith;
  last_sequence = omega arith;
  received = omega arith;
  count = omega arith;
  each =
      ((omega arith, refl), omega arith, tt, ((omega arith, refl), omega arith, omega arith, tt));
}

acknowledgement_message_iff_example :
    (acknowledgement_message crate acknowledgement
      ≡ acknowledgement_message crate (with_replayed true acknowledgement))
    ↔ (with_replayed false acknowledgement
        ≡ with_replayed false (with_replayed true acknowledgement))
unfolding with_replayed
acknowledgement_message_iff_example =
    acknowledgement_message_iff crate acknowledgement (with_replayed true acknowledgement)
      acknowledgement-FitsWords replayed-FitsWords

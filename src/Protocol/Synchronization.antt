-- ===== src/Protocol/Synchronization.antt =====
-- crates/device-protocol/src/synchronization.rs: the values of a synchronization request, their
-- validation, and the request. `serde_json` is not part of the repository: what the code asks of
-- it is a parameter.
pub mod Category
pub mod Entries
pub mod Request
pub mod Values
use transit_guard.Base.{ℕ, ◌*◌, String, Bool, not}
use transit_guard.Base.Tests.{ltb, if◌then◌else◌}
use transit_guard.Base.Result.{Result, ok, err, ◌>>=◌, ◌>>◌, map_err}
use transit_guard.Base.Int.{ℤ, pos, ltb_ℤ}
use transit_guard.Base.Text.{trim, is_empty, any_char, is_control, as_bytes}
use transit_guard.Base.Sequence.{length}
use transit_guard.Domain.Identifier.{FareTransactionId}

abbrev pub max_synchronization_batch_entries : ℕ
max_synchronization_batch_entries = 256

abbrev pub max_transaction_envelope_bytes : ℕ
max_transaction_envelope_bytes = 64 * 1024

abbrev pub max_environment_id_bytes : ℕ
max_environment_id_bytes = 128

abbrev pub max_software_version_bytes : ℕ
max_software_version_bytes = 128

pub data SynchronizationEntryOutcome : Type 0 where
  acknowledged retryable_failure permanent_failure manual_review : SynchronizationEntryOutcome

pub data SynchronizationProtocolError : Type 0 where
  empty_text : String → SynchronizationProtocolError
  text_too_long : String → ℕ → ℕ → SynchronizationProtocolError
  control_character : String → SynchronizationProtocolError
  invalid_transaction_envelope_json : SynchronizationProtocolError
  transaction_envelope_not_object : SynchronizationProtocolError
  transaction_envelope_too_large : ℕ → ℕ → SynchronizationProtocolError
  negative_timestamp : String → ℤ → SynchronizationProtocolError
  empty_batch : SynchronizationProtocolError
  too_many_entries : ℕ → ℕ → SynchronizationProtocolError
  invalid_sequence_range : ℕ → ℕ → SynchronizationProtocolError
  first_sequence_mismatch : ℕ → ℕ → SynchronizationProtocolError
  last_sequence_mismatch : ℕ → ℕ → SynchronizationProtocolError
  entry_sequence_not_increasing : ℕ → ℕ → SynchronizationProtocolError
  duplicate_transaction : FareTransactionId → SynchronizationProtocolError
  invalid_outcome_metadata : SynchronizationEntryOutcome → SynchronizationProtocolError
  acknowledgement_identity_mismatch : String → SynchronizationProtocolError
  acknowledgement_entry_count_mismatch : ℕ → ℕ → SynchronizationProtocolError
  acknowledgement_transaction_mismatch : ℕ → SynchronizationProtocolError
  acknowledgement_sequence_mismatch : ℕ → ℕ → ℕ → SynchronizationProtocolError

-- `str::len`.
abbrev pub byte_len : String → ℕ
byte_len text = length (as_bytes text)

unfoldable pub validate_text : String → String → ℕ → Result String SynchronizationProtocolError
unfolding trim any_char is_control as_bytes
validate_text field value max_bytes =
    let normalized = trim value in
    if is_empty normalized
    then err (SynchronizationProtocolError.empty_text field)
    else if ltb max_bytes (byte_len normalized)
    then err (SynchronizationProtocolError.text_too_long field max_bytes (byte_len normalized))
    else if any_char is_control normalized
    then err (SynchronizationProtocolError.control_character field)
    else ok normalized

unfoldable pub validate_timestamp : String → ℤ → Result (Unit {0}) SynchronizationProtocolError
validate_timestamp field unix_milliseconds =
    if ltb_ℤ unix_milliseconds (pos 0)
    then err (SynchronizationProtocolError.negative_timestamp field unix_milliseconds)
    else ok tt

pub record ProtocolEnvironmentId : Type 0 where
  pub text : String

unfoldable pub new_environment_id :
    String → Result ProtocolEnvironmentId SynchronizationProtocolError
new_environment_id value = do
  text ← validate_text "environment_id" value max_environment_id_bytes
  ok (record { text = text })

pub record ReaderSoftwareVersion : Type 0 where
  pub text : String

unfoldable pub new_software_version :
    String → Result ReaderSoftwareVersion SynchronizationProtocolError
new_software_version value = do
  text ← validate_text "reader_software_version" value max_software_version_bytes
  ok (record { text = text })

pub record CanonicalTransactionEnvelope : Type 0 where
  pub text : String

-- `serde_json`: `from_str::<Value>`, `Value::is_object` and `to_string`. The code looks at no error.
pub record JsonCrate : Type 1 where
  pub Value : Type 0
  pub from_str : String → Result Value (Unit {0})
  pub is_object : Value → Bool
  pub to_string : Value → Result String (Unit {0})

-- The two early returns of `from_json` past the first.
abbrev check_object : Bool → Result (Unit {0}) SynchronizationProtocolError
check_object object =
    if not object then err SynchronizationProtocolError.transaction_envelope_not_object else ok tt

abbrev check_size : ℕ → Result (Unit {0}) SynchronizationProtocolError
check_size bytes =
    if ltb max_transaction_envelope_bytes bytes
    then err (
        SynchronizationProtocolError.transaction_envelope_too_large max_transaction_envelope_bytes
          bytes)
    else ok tt

unfoldable pub from_json :
    JsonCrate → String → Result CanonicalTransactionEnvelope SynchronizationProtocolError
unfolding as_bytes
from_json json value =
    if ltb max_transaction_envelope_bytes (byte_len value)
    then err (
        SynchronizationProtocolError.transaction_envelope_too_large max_transaction_envelope_bytes
          (byte_len value))
    else do
      parsed ←
          map_err (λ _. SynchronizationProtocolError.invalid_transaction_envelope_json)
            (json.from_str value)
      check_object (json.is_object parsed)
      canonical ←
          map_err (λ _. SynchronizationProtocolError.invalid_transaction_envelope_json)
            (json.to_string parsed)
      check_size (byte_len canonical)
      ok (record { text = canonical })

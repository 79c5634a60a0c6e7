-- ===== src/Protocol/Synchronization/Values.antt =====
-- What the values of synchronization.rs promise: their text is in a normal form, so that reading back
-- what was written gives the same value.
use transit_guard.Base.{ℕ, ◌≤◌, ◌≡◌, ◌↔◌, inl, inr, String, true, false, arith}
use transit_guard.Base.Result.{ok, Result-cases}
use transit_guard.Base.Text.{trim, is_empty, any_char, is_control, trim_idem}
use transit_guard.Protocol.Synchronization.{
  ProtocolEnvironmentId, ReaderSoftwareVersion, CanonicalTransactionEnvelope, JsonCrate, byte_len,
  validate_text, new_environment_id, new_software_version, from_json, max_environment_id_bytes,
  max_software_version_bytes, max_transaction_envelope_bytes,
}

-- A text in normal form: no space around it, not empty, of bounded size, with no control character.
pub record IsNormal (max_bytes : ℕ) (text : String) : Type 0 where
  pub trimmed : trim text ≡ text
  pub nonempty : is_empty text ≡ false
  pub bounded : byte_len text ≤ max_bytes
  pub printable : any_char is_control text ≡ false

pub validate_text-ok_iff :
    (field value text : String) (max_bytes : ℕ)
    → (validate_text field value max_bytes ≡ ok text)
      ↔ ((trim value ≡ text) × IsNormal max_bytes text)
unfolding validate_text
validate_text-ok_iff field value text max_bytes =
    (λ h. ground (arith, trim_idem value), λ h. ground arith)

-- Both identities: a value is the trimmed text in normal form, and its text makes it again.
pub new_environment_id-ok :
    (value : String) (id : ProtocolEnvironmentId)
    → new_environment_id value ≡ ok id
    → (trim value ≡ id.text)
      × IsNormal max_environment_id_bytes id.text
      × (new_environment_id id.text ≡ ok id)
unfolding new_environment_id
new_environment_id-ok value id h = ground (
  arith,
  validate_text-ok_iff "environment_id" value id.text max_environment_id_bytes,
  validate_text-ok_iff "environment_id" id.text id.text max_environment_id_bytes,
)

pub new_software_version-ok :
    (value : String) (version : ReaderSoftwareVersion)
    → new_software_version value ≡ ok version
    → (trim value ≡ version.text)
      × IsNormal max_software_version_bytes version.text
      × (new_software_version version.text ≡ ok version)
unfolding new_software_version
new_software_version-ok value version h = ground (
  arith,
  validate_text-ok_iff "reader_software_version" value version.text max_software_version_bytes,
  validate_text-ok_iff "reader_software_version" version.text version.text
      max_software_version_bytes,
)

module _ (json : JsonCrate) where
  -- What `serde_json` writes of a value it reads as a value that it writes alike, and that is an
  -- object if the first is.
  pub record WritesCanonically : Type 0 where
    pub rereads :
        (value : json.Value) (text : String)
        → json.to_string value ≡ ok text
        → (again : json.Value) × (json.from_str text ≡ ok again)
          × (json.is_object again ≡ json.is_object value)
          × (json.to_string again ≡ ok text)

  -- The value that an envelope is made of.
  from_json-parsed :
      (value : String) (envelope : CanonicalTransactionEnvelope)
      → from_json json value ≡ ok envelope
      → (parsed : json.Value) × (json.is_object parsed ≡ true)
        × (json.to_string parsed ≡ ok envelope.text)
        × (byte_len envelope.text ≤ max_transaction_envelope_bytes)
  unfolding from_json
  from_json-parsed value envelope h = elim (Result-cases (json.from_str value)) [
    | inr (_, refused) ↦ absurd (ground arith)
    | inl (parsed, read) ↦ elim (Result-cases (json.to_string parsed)) [
      | inr (_, refused) ↦ absurd (ground arith)
      | inl (canonical, written) ↦ (parsed, ground arith, ground arith, ground arith)
    ]
  ]

  -- An envelope is bounded, and its text makes it again.
  pub from_json-ok :
      WritesCanonically
      → (value : String) (envelope : CanonicalTransactionEnvelope)
      → from_json json value ≡ ok envelope
      → (byte_len envelope.text ≤ max_transaction_envelope_bytes)
        × (from_json json envelope.text ≡ ok envelope)
  unfolding from_json
  from_json-ok writes value envelope h =
      let (parsed, object, written, bounded) = from_json-parsed value envelope h in
      let (again, read, object', rewritten) = writes.rereads parsed envelope.text written in
      (bounded, ground arith)

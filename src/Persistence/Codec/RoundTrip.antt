-- ===== src/Persistence/Codec/RoundTrip.antt =====
-- What the codec writes it reads, and it reads nothing else.
use transit_guard.Base.{◌<◌, ◌≡◌, ◌↔◌, refl, String, arith}
use transit_guard.Base.Result.{Result, ok}
use transit_guard.Base.Int.{ℤ, pos, ◌≤ℤ◌}
use transit_guard.Base.Text.{match_text-written}
use transit_guard.Domain.Money.{Currency}
use transit_guard.Domain.Account.{TransitAccountStatus, EligibilityClassification}
use transit_guard.Domain.Credential.{FareCredentialKind, FareCredentialStatus, RevocationReason}
use transit_guard.Domain.Equipment.{
  ReaderEquipmentStatus, ReaderDisablementReason, ReaderRevocationReason,
}
use transit_guard.Domain.Event.{AggregateVersion, DomainEventTime, DomainAggregateId}
use transit_guard.Domain.Identifier.{UuidCrate}
use transit_guard.Domain.Identifier.Parsing.{IsIdentifier}
use transit_guard.Persistence.Codec.{
  PersistenceError, encode_aggregate_version, decode_aggregate_version, encode_event_time,
  decode_event_time, encode_aggregate_id, decode_aggregate_id, invalid, encode_currency,
  currency_arms, decode_currency, encode_account_status, account_status_arms, decode_account_status,
  encode_eligibility, eligibility_arms, decode_eligibility, encode_credential_kind,
  credential_kind_arms, decode_credential_kind, encode_credential_status, credential_status_arms,
  decode_credential_status, encode_credential_revocation_reason, credential_revocation_reason_arms,
  decode_credential_revocation_reason, encode_reader_status, reader_status_arms,
  decode_reader_status, encode_reader_disablement_reason, reader_disablement_reason_arms,
  decode_reader_disablement_reason, encode_reader_revocation_reason, reader_revocation_reason_arms,
  decode_reader_revocation_reason,
}

-- A text is decoded into a value exactly if it is the value's encoding.
abbrev pub IsCodec : {A : Type 0} → (A → String) → (String → Result A PersistenceError) → Type 0
IsCodec {A} encode decode =
    (text : String) (value : A) → (decode text ≡ ok value) ↔ (text ≡ encode value)

decode-encode_currency : (value : Currency) → decode_currency (encode_currency value) ≡ ok value
unfolding encode_currency decode_currency
decode-encode_currency Currency.usd = refl
decode-encode_currency Currency.cad = refl
decode-encode_currency Currency.eur = refl
decode-encode_currency Currency.gbp = refl

currency-IsCodec : IsCodec encode_currency decode_currency
unfolding encode_currency decode_currency
currency-IsCodec text value = (
  λ h.
      match_text-written encode_currency text currency_arms
        (invalid "transit_accounts.stored_value_currency") value h
        (refl, (refl, (refl, (refl, tt)))),
  λ same. rw same (decode-encode_currency value),
)

decode-encode_account_status :
    (value : TransitAccountStatus) → decode_account_status (encode_account_status value) ≡ ok value
unfolding encode_account_status decode_account_status
decode-encode_account_status TransitAccountStatus.active = refl
decode-encode_account_status TransitAccountStatus.suspended = refl
decode-encode_account_status TransitAccountStatus.closed = refl

account_status-IsCodec : IsCodec encode_account_status decode_account_status
unfolding encode_account_status decode_account_status
account_status-IsCodec text value = (
  λ h.
      match_text-written encode_account_status text account_status_arms
        (invalid "transit_accounts.status") value h (refl, (refl, (refl, tt))),
  λ same. rw same (decode-encode_account_status value),
)

decode-encode_eligibility :
    (value : EligibilityClassification) → decode_eligibility (encode_eligibility value) ≡ ok value
unfolding encode_eligibility decode_eligibility
decode-encode_eligibility EligibilityClassification.standard = refl
decode-encode_eligibility EligibilityClassification.youth = refl
decode-encode_eligibility EligibilityClassification.senior = refl
decode-encode_eligibility EligibilityClassification.reduced_fare = refl
decode-encode_eligibility EligibilityClassification.employee_test_account = refl

eligibility-IsCodec : IsCodec encode_eligibility decode_eligibility
unfolding encode_eligibility decode_eligibility
eligibility-IsCodec text value = (
  λ h.
      match_text-written encode_eligibility text eligibility_arms
        (invalid "transit_accounts.eligibility") value h (refl, (refl, (refl, (refl, (refl, tt))))),
  λ same. rw same (decode-encode_eligibility value),
)

decode-encode_credential_kind :
    (value : FareCredentialKind) → decode_credential_kind (encode_credential_kind value) ≡ ok value
unfolding encode_credential_kind decode_credential_kind
decode-encode_credential_kind FareCredentialKind.card = refl
decode-encode_credential_kind FareCredentialKind.mobile = refl
decode-encode_credential_kind FareCredentialKind.development_test_token = refl

credential_kind-IsCodec : IsCodec encode_credential_kind decode_credential_kind
unfolding encode_credential_kind decode_credential_kind
credential_kind-IsCodec text value = (
  λ h.
      match_text-written encode_credential_kind text credential_kind_arms
        (invalid "fare_credentials.kind") value h (refl, (refl, (refl, tt))),
  λ same. rw same (decode-encode_credential_kind value),
)

decode-encode_credential_status :
    (value : FareCredentialStatus)
    → decode_credential_status (encode_credential_status value) ≡ ok value
unfolding encode_credential_status decode_credential_status
decode-encode_credential_status FareCredentialStatus.pending = refl
decode-encode_credential_status FareCredentialStatus.active = refl
decode-encode_credential_status FareCredentialStatus.suspended = refl
decode-encode_credential_status FareCredentialStatus.revoked = refl
decode-encode_credential_status FareCredentialStatus.expired = refl
decode-encode_credential_status FareCredentialStatus.replaced = refl

credential_status-IsCodec : IsCodec encode_credential_status decode_credential_status
unfolding encode_credential_status decode_credential_status
credential_status-IsCodec text value = (
  λ h.
      match_text-written encode_credential_status text credential_status_arms
        (invalid "fare_credentials.status") value h
        (refl, (refl, (refl, (refl, (refl, (refl, tt)))))),
  λ same. rw same (decode-encode_credential_status value),
)

decode-encode_credential_revocation_reason :
    (value : RevocationReason)
    → decode_credential_revocation_reason (encode_credential_revocation_reason value) ≡ ok value
unfolding encode_credential_revocation_reason decode_credential_revocation_reason
decode-encode_credential_revocation_reason RevocationReason.reported_lost = refl
decode-encode_credential_revocation_reason RevocationReason.reported_stolen = refl
decode-encode_credential_revocation_reason RevocationReason.replaced = refl
decode-encode_credential_revocation_reason RevocationReason.account_suspended = refl
decode-encode_credential_revocation_reason RevocationReason.administrative_action = refl
decode-encode_credential_revocation_reason RevocationReason.security_incident = refl
decode-encode_credential_revocation_reason RevocationReason.test_cleanup = refl

credential_revocation_reason-IsCodec :
    IsCodec encode_credential_revocation_reason decode_credential_revocation_reason
unfolding encode_credential_revocation_reason decode_credential_revocation_reason
credential_revocation_reason-IsCodec text value = (
  λ h.
      match_text-written encode_credential_revocation_reason text credential_revocation_reason_arms
        (invalid "fare_credentials.revocation_reason") value h
        (refl, (refl, (refl, (refl, (refl, (refl, (refl, tt))))))),
  λ same. rw same (decode-encode_credential_revocation_reason value),
)

decode-encode_reader_status :
    (value : ReaderEquipmentStatus) → decode_reader_status (encode_reader_status value) ≡ ok value
unfolding encode_reader_status decode_reader_status
decode-encode_reader_status ReaderEquipmentStatus.pending_registration = refl
decode-encode_reader_status ReaderEquipmentStatus.active = refl
decode-encode_reader_status ReaderEquipmentStatus.offline = refl
decode-encode_reader_status ReaderEquipmentStatus.disabled = refl
decode-encode_reader_status ReaderEquipmentStatus.revoked = refl
decode-encode_reader_status ReaderEquipmentStatus.decommissioned = refl

reader_status-IsCodec : IsCodec encode_reader_status decode_reader_status
unfolding encode_reader_status decode_reader_status
reader_status-IsCodec text value = (
  λ h.
      match_text-written encode_reader_status text reader_status_arms
        (invalid "reader_equipment.status") value h
        (refl, (refl, (refl, (refl, (refl, (refl, tt)))))),
  λ same. rw same (decode-encode_reader_status value),
)

decode-encode_reader_disablement_reason :
    (value : ReaderDisablementReason)
    → decode_reader_disablement_reason (encode_reader_disablement_reason value) ≡ ok value
unfolding encode_reader_disablement_reason decode_reader_disablement_reason
decode-encode_reader_disablement_reason ReaderDisablementReason.suspected_compromise = refl
decode-encode_reader_disablement_reason ReaderDisablementReason.lost_equipment = refl
decode-encode_reader_disablement_reason ReaderDisablementReason.invalid_configuration = refl
decode-encode_reader_disablement_reason ReaderDisablementReason.administrative_action = refl
decode-encode_reader_disablement_reason ReaderDisablementReason.test_cleanup = refl

reader_disablement_reason-IsCodec :
    IsCodec encode_reader_disablement_reason decode_reader_disablement_reason
unfolding encode_reader_disablement_reason decode_reader_disablement_reason
reader_disablement_reason-IsCodec text value = (
  λ h.
      match_text-written encode_reader_disablement_reason text reader_disablement_reason_arms
        (invalid "reader_equipment.disablement_reason") value h
        (refl, (refl, (refl, (refl, (refl, tt))))),
  λ same. rw same (decode-encode_reader_disablement_reason value),
)

decode-encode_reader_revocation_reason :
    (value : ReaderRevocationReason)
    → decode_reader_revocation_reason (encode_reader_revocation_reason value) ≡ ok value
unfolding encode_reader_revocation_reason decode_reader_revocation_reason
decode-encode_reader_revocation_reason ReaderRevocationReason.suspected_compromise = refl
decode-encode_reader_revocation_reason ReaderRevocationReason.credential_exposure = refl
decode-encode_reader_revocation_reason ReaderRevocationReason.administrative_action = refl
decode-encode_reader_revocation_reason ReaderRevocationReason.security_incident = refl
decode-encode_reader_revocation_reason ReaderRevocationReason.test_cleanup = refl

reader_revocation_reason-IsCodec :
    IsCodec encode_reader_revocation_reason decode_reader_revocation_reason
unfolding encode_reader_revocation_reason decode_reader_revocation_reason
reader_revocation_reason-IsCodec text value = (
  λ h.
      match_text-written encode_reader_revocation_reason text reader_revocation_reason_arms
        (invalid "reader_equipment.revocation_reason") value h
        (refl, (refl, (refl, (refl, (refl, tt))))),
  λ same. rw same (decode-encode_reader_revocation_reason value),
)

-- For each of the nine enumerations that a column stores, a text is decoded into a value exactly if
-- it is the encoding of the value: a value is read back as written, and every other text is
-- refused.
pub enumeration_codecs :
    IsCodec encode_currency decode_currency
    × IsCodec encode_account_status decode_account_status
    × IsCodec encode_eligibility decode_eligibility
    × IsCodec encode_credential_kind decode_credential_kind
    × IsCodec encode_credential_status decode_credential_status
    × IsCodec encode_credential_revocation_reason decode_credential_revocation_reason
    × IsCodec encode_reader_status decode_reader_status
    × IsCodec encode_reader_disablement_reason decode_reader_disablement_reason
    × IsCodec encode_reader_revocation_reason decode_reader_revocation_reason
enumeration_codecs = (
  currency-IsCodec, account_status-IsCodec, eligibility-IsCodec, credential_kind-IsCodec,
  credential_status-IsCodec, credential_revocation_reason-IsCodec, reader_status-IsCodec,
  reader_disablement_reason-IsCodec, reader_revocation_reason-IsCodec,
)

decode-encode_aggregate_id :
    (crate : UuidCrate) (id : DomainAggregateId)
    → IsIdentifier crate (encode_aggregate_id id).1
    → decode_aggregate_id crate (encode_aggregate_id id).0 (encode_aggregate_id id).1 ≡ ok id
unfolding decode_aggregate_id encode_aggregate_id
decode-encode_aggregate_id crate (DomainAggregateId.transit_account id) valid = ground arith
decode-encode_aggregate_id crate (DomainAggregateId.fare_credential id) valid = ground arith
decode-encode_aggregate_id crate (DomainAggregateId.reader_equipment id) valid = ground arith
decode-encode_aggregate_id crate (DomainAggregateId.fare_transaction id) valid = ground arith

-- A version that fits the column is read back, a time always, and the identity of an aggregate if it is
-- an identifier.
pub decode-encode :
    (crate : UuidCrate) (version : AggregateVersion) (time : DomainEventTime)
    (id : DomainAggregateId)
    → 0 < version.value
    → pos 0 ≤ℤ time.unix_milliseconds
    → IsIdentifier crate (encode_aggregate_id id).1
    → ((stored : ℤ)
        → (encode_aggregate_version version ≡ ok stored)
        → decode_aggregate_version stored ≡ ok version)
      × (decode_event_time (encode_event_time time) ≡ ok time)
      × (decode_aggregate_id crate (encode_aggregate_id id).0 (encode_aggregate_id id).1 ≡ ok id)
unfolding encode_aggregate_version decode_aggregate_version encode_event_time decode_event_time
decode-encode crate version time id positive later valid =
    (λ stored h. ground arith, ground arith, decode-encode_aggregate_id crate id valid)

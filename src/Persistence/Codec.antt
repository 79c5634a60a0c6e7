-- ===== src/Persistence/Codec.antt =====
-- crates/persistence/src/codec.rs: the columns of PostgreSQL that hold a value of an enumeration, a
-- version, a time or an aggregate's identity.
pub mod RoundTrip
use transit_guard.Base.{ℕ, String, List, [], ◌∷◌}
use transit_guard.Base.Tests.{ltb, if◌then◌else◌}
use transit_guard.Base.Result.{Result, ok, err, ◌>>=◌, map_err, ok_or}
use transit_guard.Base.Int.{ℤ, pos, negsuc, checked_i64}
use transit_guard.Base.Text.{match_text}
use transit_guard.Domain.Money.{Currency}
use transit_guard.Domain.Account.{TransitAccountStatus, EligibilityClassification}
use transit_guard.Domain.Credential.{FareCredentialKind, FareCredentialStatus, RevocationReason}
use transit_guard.Domain.Equipment.{
  ReaderEquipmentStatus, ReaderDisablementReason, ReaderRevocationReason,
}
use transit_guard.Domain.Event.{
  AggregateVersion, new_aggregate_version, DomainEventTime, new_event_time, DomainAggregateId,
}
use transit_guard.Domain.Identifier.{Uuid, UuidCrate, validate_uuid}

-- The errors of error.rs that the codec reports.
pub data PersistenceError : Type 0 where
  invalid_stored_value : String → PersistenceError
  numeric_value_out_of_range : String → PersistenceError

unfoldable pub invalid : String → PersistenceError
invalid field = PersistenceError.invalid_stored_value field

unfoldable pub numeric_out_of_range : String → PersistenceError
numeric_out_of_range field = PersistenceError.numeric_value_out_of_range field

unfoldable pub encode_currency : Currency → String
encode_currency Currency.usd = "USD"
encode_currency Currency.cad = "CAD"
encode_currency Currency.eur = "EUR"
encode_currency Currency.gbp = "GBP"

-- The arms of `decode_currency`.
abbrev pub currency_arms : List (String × Currency)
currency_arms =
    ("USD", Currency.usd)
    ∷ ("CAD", Currency.cad)
    ∷ ("EUR", Currency.eur)
    ∷ ("GBP", Currency.gbp)
    ∷ []

unfoldable pub decode_currency : String → Result Currency PersistenceError
unfolding match_text invalid
decode_currency value =
    match_text value currency_arms (invalid "transit_accounts.stored_value_currency")

unfoldable pub encode_account_status : TransitAccountStatus → String
encode_account_status TransitAccountStatus.active = "active"
encode_account_status TransitAccountStatus.suspended = "suspended"
encode_account_status TransitAccountStatus.closed = "closed"

-- The arms of `decode_account_status`.
abbrev pub account_status_arms : List (String × TransitAccountStatus)
account_status_arms =
    ("active", TransitAccountStatus.active)
    ∷ ("suspended", TransitAccountStatus.suspended)
    ∷ ("closed", TransitAccountStatus.closed)
    ∷ []

unfoldable pub decode_account_status : String → Result TransitAccountStatus PersistenceError
unfolding match_text invalid
decode_account_status value =
    match_text value account_status_arms (invalid "transit_accounts.status")

unfoldable pub encode_eligibility : EligibilityClassification → String
encode_eligibility EligibilityClassification.standard = "standard"
encode_eligibility EligibilityClassification.youth = "youth"
encode_eligibility EligibilityClassification.senior = "senior"
encode_eligibility EligibilityClassification.reduced_fare = "reduced_fare"
encode_eligibility EligibilityClassification.employee_test_account = "employee_test_account"

-- The arms of `decode_eligibility`.
abbrev pub eligibility_arms : List (String × EligibilityClassification)
eligibility_arms =
    ("standard", EligibilityClassification.standard)
    ∷ ("youth", EligibilityClassification.youth)
    ∷ ("senior", EligibilityClassification.senior)
    ∷ ("reduced_fare", EligibilityClassification.reduced_fare)
    ∷ ("employee_test_account", EligibilityClassification.employee_test_account)
    ∷ []

unfoldable pub decode_eligibility : String → Result EligibilityClassification PersistenceError
unfolding match_text invalid
decode_eligibility value =
    match_text value eligibility_arms (invalid "transit_accounts.eligibility")

unfoldable pub encode_credential_kind : FareCredentialKind → String
encode_credential_kind FareCredentialKind.card = "card"
encode_credential_kind FareCredentialKind.mobile = "mobile"
encode_credential_kind FareCredentialKind.development_test_token = "development_test_token"

-- The arms of `decode_credential_kind`.
abbrev pub credential_kind_arms : List (String × FareCredentialKind)
credential_kind_arms =
    ("card", FareCredentialKind.card)
    ∷ ("mobile", FareCredentialKind.mobile)
    ∷ ("development_test_token", FareCredentialKind.development_test_token)
    ∷ []

unfoldable pub decode_credential_kind : String → Result FareCredentialKind PersistenceError
unfolding match_text invalid
decode_credential_kind value =
    match_text value credential_kind_arms (invalid "fare_credentials.kind")

unfoldable pub encode_credential_status : FareCredentialStatus → String
encode_credential_status FareCredentialStatus.pending = "pending"
encode_credential_status FareCredentialStatus.active = "active"
encode_credential_status FareCredentialStatus.suspended = "suspended"
encode_credential_status FareCredentialStatus.revoked = "revoked"
encode_credential_status FareCredentialStatus.expired = "expired"
encode_credential_status FareCredentialStatus.replaced = "replaced"

-- The arms of `decode_credential_status`.
abbrev pub credential_status_arms : List (String × FareCredentialStatus)
credential_status_arms =
    ("pending", FareCredentialStatus.pending)
    ∷ ("active", FareCredentialStatus.active)
    ∷ ("suspended", FareCredentialStatus.suspended)
    ∷ ("revoked", FareCredentialStatus.revoked)
    ∷ ("expired", FareCredentialStatus.expired)
    ∷ ("replaced", FareCredentialStatus.replaced)
    ∷ []

unfoldable pub decode_credential_status : String → Result FareCredentialStatus PersistenceError
unfolding match_text invalid
decode_credential_status value =
    match_text value credential_status_arms (invalid "fare_credentials.status")

unfoldable pub encode_credential_revocation_reason : RevocationReason → String
encode_credential_revocation_reason RevocationReason.reported_lost = "reported_lost"
encode_credential_revocation_reason RevocationReason.reported_stolen = "reported_stolen"
encode_credential_revocation_reason RevocationReason.replaced = "replaced"
encode_credential_revocation_reason RevocationReason.account_suspended = "account_suspended"
encode_credential_revocation_reason RevocationReason.administrative_action = "administrative_action"
encode_credential_revocation_reason RevocationReason.security_incident = "security_incident"
encode_credential_revocation_reason RevocationReason.test_cleanup = "test_cleanup"

-- The arms of `decode_credential_revocation_reason`.
abbrev pub credential_revocation_reason_arms : List (String × RevocationReason)
credential_revocation_reason_arms =
    ("reported_lost", RevocationReason.reported_lost)
    ∷ ("reported_stolen", RevocationReason.reported_stolen)
    ∷ ("replaced", RevocationReason.replaced)
    ∷ ("account_suspended", RevocationReason.account_suspended)
    ∷ ("administrative_action", RevocationReason.administrative_action)
    ∷ ("security_incident", RevocationReason.security_incident)
    ∷ ("test_cleanup", RevocationReason.test_cleanup)
    ∷ []

unfoldable pub decode_credential_revocation_reason :
    String → Result RevocationReason PersistenceError
unfolding match_text invalid
decode_credential_revocation_reason value =
    match_text value credential_revocation_reason_arms
      (invalid "fare_credentials.revocation_reason")

unfoldable pub encode_reader_status : ReaderEquipmentStatus → String
encode_reader_status ReaderEquipmentStatus.pending_registration = "pending_registration"
encode_reader_status ReaderEquipmentStatus.active = "active"
encode_reader_status ReaderEquipmentStatus.offline = "offline"
encode_reader_status ReaderEquipmentStatus.disabled = "disabled"
encode_reader_status ReaderEquipmentStatus.revoked = "revoked"
encode_reader_status ReaderEquipmentStatus.decommissioned = "decommissioned"

-- The arms of `decode_reader_status`.
abbrev pub reader_status_arms : List (String × ReaderEquipmentStatus)
reader_status_arms =
    ("pending_registration", ReaderEquipmentStatus.pending_registration)
    ∷ ("active", ReaderEquipmentStatus.active)
    ∷ ("offline", ReaderEquipmentStatus.offline)
    ∷ ("disabled", ReaderEquipmentStatus.disabled)
    ∷ ("revoked", ReaderEquipmentStatus.revoked)
    ∷ ("decommissioned", ReaderEquipmentStatus.decommissioned)
    ∷ []

unfoldable pub decode_reader_status : String → Result ReaderEquipmentStatus PersistenceError
unfolding match_text invalid
decode_reader_status value = match_text value reader_status_arms (invalid "reader_equipment.status")

unfoldable pub encode_reader_disablement_reason : ReaderDisablementReason → String
encode_reader_disablement_reason ReaderDisablementReason.suspected_compromise =
    "suspected_compromise"
encode_reader_disablement_reason ReaderDisablementReason.lost_equipment = "lost_equipment"
encode_reader_disablement_reason ReaderDisablementReason.invalid_configuration =
    "invalid_configuration"
encode_reader_disablement_reason ReaderDisablementReason.administrative_action =
    "administrative_action"
encode_reader_disablement_reason ReaderDisablementReason.test_cleanup = "test_cleanup"

-- The arms of `decode_reader_disablement_reason`.
abbrev pub reader_disablement_reason_arms : List (String × ReaderDisablementReason)
reader_disablement_reason_arms =
    ("suspected_compromise", ReaderDisablementReason.suspected_compromise)
    ∷ ("lost_equipment", ReaderDisablementReason.lost_equipment)
    ∷ ("invalid_configuration", ReaderDisablementReason.invalid_configuration)
    ∷ ("administrative_action", ReaderDisablementReason.administrative_action)
    ∷ ("test_cleanup", ReaderDisablementReason.test_cleanup)
    ∷ []

unfoldable pub decode_reader_disablement_reason :
    String → Result ReaderDisablementReason PersistenceError
unfolding match_text invalid
decode_reader_disablement_reason value =
    match_text value reader_disablement_reason_arms (invalid "reader_equipment.disablement_reason")

unfoldable pub encode_reader_revocation_reason : ReaderRevocationReason → String
encode_reader_revocation_reason ReaderRevocationReason.suspected_compromise = "suspected_compromise"
encode_reader_revocation_reason ReaderRevocationReason.credential_exposure = "credential_exposure"
encode_reader_revocation_reason ReaderRevocationReason.administrative_action =
    "administrative_action"
encode_reader_revocation_reason ReaderRevocationReason.security_incident = "security_incident"
encode_reader_revocation_reason ReaderRevocationReason.test_cleanup = "test_cleanup"

-- The arms of `decode_reader_revocation_reason`.
abbrev pub reader_revocation_reason_arms : List (String × ReaderRevocationReason)
reader_revocation_reason_arms =
    ("suspected_compromise", ReaderRevocationReason.suspected_compromise)
    ∷ ("credential_exposure", ReaderRevocationReason.credential_exposure)
    ∷ ("administrative_action", ReaderRevocationReason.administrative_action)
    ∷ ("security_incident", ReaderRevocationReason.security_incident)
    ∷ ("test_cleanup", ReaderRevocationReason.test_cleanup)
    ∷ []

unfoldable pub decode_reader_revocation_reason :
    String → Result ReaderRevocationReason PersistenceError
unfolding match_text invalid
decode_reader_revocation_reason value =
    match_text value reader_revocation_reason_arms (invalid "reader_equipment.revocation_reason")

-- `u64::try_from` of an `i64`.
abbrev pub u64_try_from : ℤ → Result ℕ (Unit {0})
u64_try_from (pos value) = ok value
u64_try_from (negsuc value) = err tt

unfoldable pub encode_aggregate_version : AggregateVersion → Result ℤ PersistenceError
unfolding numeric_out_of_range
encode_aggregate_version version =
    ok_or (checked_i64 (pos version.value)) (numeric_out_of_range "aggregate_version")

unfoldable pub decode_aggregate_version : ℤ → Result AggregateVersion PersistenceError
unfolding numeric_out_of_range invalid new_aggregate_version
decode_aggregate_version stored = do
  value ← map_err (λ _. numeric_out_of_range "aggregate_version") (u64_try_from stored)
  map_err (λ _. invalid "aggregate_version") (new_aggregate_version value)

unfoldable pub encode_event_time : DomainEventTime → ℤ
encode_event_time value = value.unix_milliseconds

unfoldable pub decode_event_time : ℤ → Result DomainEventTime PersistenceError
unfolding invalid new_event_time
decode_event_time value =
    map_err (λ _. invalid "domain_events.occurred_at_unix_ms") (new_event_time value)

unfoldable pub encode_aggregate_id : DomainAggregateId → String × Uuid
encode_aggregate_id (DomainAggregateId.transit_account id) = ("transit_account", id)
encode_aggregate_id (DomainAggregateId.fare_credential id) = ("fare_credential", id)
encode_aggregate_id (DomainAggregateId.reader_equipment id) = ("reader_equipment", id)
encode_aggregate_id (DomainAggregateId.fare_transaction id) = ("fare_transaction", id)

-- An arm of `decode_aggregate_id`: `try_from` of the identifier's type.
decode_identity :
    UuidCrate
    → String
    → (Uuid → DomainAggregateId)
    → Uuid
    → Result DomainAggregateId PersistenceError
decode_identity crate kind make identifier = do
  id ← map_err (λ _. invalid "domain_events.aggregate_id") (validate_uuid crate kind identifier)
  ok (make id)

unfoldable pub decode_aggregate_id :
    UuidCrate → String → Uuid → Result DomainAggregateId PersistenceError
unfolding decode_identity match_text invalid validate_uuid
decode_aggregate_id crate kind identifier = do
  decode ←
      match_text kind
        ((
          "transit_account",
          decode_identity crate "transit account identifier" DomainAggregateId.transit_account,
        )
          ∷ (
            "fare_credential",
            decode_identity crate "fare credential identifier" DomainAggregateId.fare_credential,
          )
          ∷ (
            "reader_equipment",
            decode_identity crate "reader identifier" DomainAggregateId.reader_equipment,
          )
          ∷ (
            "fare_transaction",
            decode_identity crate "fare transaction identifier" DomainAggregateId.fare_transaction,
          )
          ∷ [])
        (invalid "domain_events.aggregate_kind")
  decode identifier

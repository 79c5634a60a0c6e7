-- ===== src/Domain/Event.antt =====
-- crates/domain/src/event.rs: versioned domain events and the checks on their payloads.
pub mod Payloads
use transit_guard.Base.{ℕ, ◌≡◌, Bool, true, false, Option, some, none, ite, ℕ_discrete, String}
use transit_guard.Base.Tests.{if◌then◌else◌, ◌==◌}
use transit_guard.Base.Result.{Result, ok, err, ◌>>=◌, ◌>>◌}
use transit_guard.Base.Int.{ℤ, pos, ltb_ℤ}
use transit_guard.Domain.Identifier.{
  TransitAccountId, RiderId, FareCredentialId, ReaderId, EquipmentKeyId, FareTransactionId,
  DomainEventId,
}
use transit_guard.Domain.Money.{Currency, Currency-discrete}
use transit_guard.Domain.Account.{TransitAccountStatus, StoredValueBalance}
use transit_guard.Domain.Credential.{
  FareCredentialKind, FareCredentialStatus, FareCredentialStatus-discrete,
}
use transit_guard.Domain.Equipment.{ReaderEquipmentStatus, ReaderEquipmentStatus-discrete}
use transit_guard.Domain.Transaction.{FareDecision}

pub data DomainEventValueError : Type 0 where
  zero_aggregate_version : DomainEventValueError
  negative_domain_event_time : ℤ → DomainEventValueError

-- `AggregateVersion(u64)`.
pub record AggregateVersion : Type 0 where
  pub value : ℕ

unfoldable pub new_aggregate_version : ℕ → Result AggregateVersion DomainEventValueError
new_aggregate_version value =
    if value == 0
    then err DomainEventValueError.zero_aggregate_version
    else ok (record { value = value })

pub record DomainEventTime : Type 0 where
  pub unix_milliseconds : ℤ

unfoldable pub new_event_time : ℤ → Result DomainEventTime DomainEventValueError
new_event_time unix_milliseconds =
    if ltb_ℤ unix_milliseconds (pos 0)
    then err (DomainEventValueError.negative_domain_event_time unix_milliseconds)
    else ok (record { unix_milliseconds = unix_milliseconds })

pub data DomainAggregateId : Type 0 where
  transit_account : TransitAccountId → DomainAggregateId
  fare_credential : FareCredentialId → DomainAggregateId
  reader_equipment : ReaderId → DomainAggregateId
  fare_transaction : FareTransactionId → DomainAggregateId

pub data StoredValueChangeReason : Type 0 where
  simulated_funds_credit fare_debit : StoredValueChangeReason
  administrative_adjustment reconciliation_adjustment : StoredValueChangeReason

pub data DomainEventPayload : Type 0 where
  transit_account_created : TransitAccountId → RiderId → StoredValueBalance → DomainEventPayload
  transit_account_status_changed :
      TransitAccountId → TransitAccountStatus → TransitAccountStatus → DomainEventPayload
  stored_value_changed :
      TransitAccountId
      → StoredValueBalance
      → StoredValueBalance
      → StoredValueChangeReason
      → DomainEventPayload
  fare_credential_issued :
      FareCredentialId → TransitAccountId → FareCredentialKind → DomainEventPayload
  fare_credential_status_changed :
      FareCredentialId → FareCredentialStatus → FareCredentialStatus → DomainEventPayload
  reader_equipment_registered : ReaderId → EquipmentKeyId → DomainEventPayload
  reader_equipment_status_changed :
      ReaderId → ReaderEquipmentStatus → ReaderEquipmentStatus → DomainEventPayload
  equipment_key_rotated : ReaderId → EquipmentKeyId → EquipmentKeyId → DomainEventPayload
  fare_transaction_decided : FareTransactionId → FareDecision → DomainEventPayload
  fare_transaction_reconciled : FareTransactionId → DomainEventPayload

unfoldable pub event_name : DomainEventPayload → String
event_name (DomainEventPayload.transit_account_created _ _ _) = "transit_account.created"
event_name (DomainEventPayload.transit_account_status_changed _ _ _) =
    "transit_account.status_changed"
event_name (DomainEventPayload.stored_value_changed _ _ _ _) =
    "transit_account.stored_value_changed"
event_name (DomainEventPayload.fare_credential_issued _ _ _) = "fare_credential.issued"
event_name (DomainEventPayload.fare_credential_status_changed _ _ _) =
    "fare_credential.status_changed"
event_name (DomainEventPayload.reader_equipment_registered _ _) = "reader_equipment.registered"
event_name (DomainEventPayload.reader_equipment_status_changed _ _ _) =
    "reader_equipment.status_changed"
event_name (DomainEventPayload.equipment_key_rotated _ _ _) = "reader_equipment.key_rotated"
event_name (DomainEventPayload.fare_transaction_decided _ _) = "fare_transaction.decided"
event_name (DomainEventPayload.fare_transaction_reconciled _) = "fare_transaction.reconciled"

-- `DomainEventPayload::aggregate_id`.
unfoldable pub aggregate_of : DomainEventPayload → DomainAggregateId
aggregate_of (DomainEventPayload.transit_account_created account _ _) =
    DomainAggregateId.transit_account account
aggregate_of (DomainEventPayload.transit_account_status_changed account _ _) =
    DomainAggregateId.transit_account account
aggregate_of (DomainEventPayload.stored_value_changed account _ _ _) =
    DomainAggregateId.transit_account account
aggregate_of (DomainEventPayload.fare_credential_issued credential _ _) =
    DomainAggregateId.fare_credential credential
aggregate_of (DomainEventPayload.fare_credential_status_changed credential _ _) =
    DomainAggregateId.fare_credential credential
aggregate_of (DomainEventPayload.reader_equipment_registered reader _) =
    DomainAggregateId.reader_equipment reader
aggregate_of (DomainEventPayload.reader_equipment_status_changed reader _ _) =
    DomainAggregateId.reader_equipment reader
aggregate_of (DomainEventPayload.equipment_key_rotated reader _ _) =
    DomainAggregateId.reader_equipment reader
aggregate_of (DomainEventPayload.fare_transaction_decided transaction _) =
    DomainAggregateId.fare_transaction transaction
aggregate_of (DomainEventPayload.fare_transaction_reconciled transaction) =
    DomainAggregateId.fare_transaction transaction

pub data DomainEventError : Type 0 where
  no_status_change : String → DomainEventError
  no_stored_value_change : DomainEventError
  stored_value_currency_changed : Currency → Currency → DomainEventError
  no_equipment_key_change : DomainEventError

pub record DomainEvent : Type 0 where
  pub id : DomainEventId
  pub aggregate_id : DomainAggregateId
  pub aggregate_version : AggregateVersion
  pub occurred_at : DomainEventTime
  pub payload : DomainEventPayload

-- The derived equalities that the guards use.
unfoldable pub TransitAccountStatus-discrete : Discrete TransitAccountStatus
TransitAccountStatus-discrete = hlevel

unfoldable pub StoredValueBalance-discrete : Discrete StoredValueBalance
StoredValueBalance-discrete = hlevel ℕ_discrete

unfoldable pub validate_payload : DomainEventPayload → Result (Unit {0}) DomainEventError
validate_payload (DomainEventPayload.transit_account_status_changed account previous current) =
    ite (TransitAccountStatus-discrete previous current)
      (err (
        DomainEventError.no_status_change (
          event_name (DomainEventPayload.transit_account_status_changed account previous current))))
      (ok tt)
validate_payload (DomainEventPayload.fare_credential_status_changed credential previous current) =
    ite (FareCredentialStatus-discrete previous current)
      (err (
        DomainEventError.no_status_change (
          event_name
            (DomainEventPayload.fare_credential_status_changed credential previous current))))
      (ok tt)
validate_payload (DomainEventPayload.reader_equipment_status_changed reader previous current) =
    ite (ReaderEquipmentStatus-discrete previous current)
      (err (
        DomainEventError.no_status_change (
          event_name (DomainEventPayload.reader_equipment_status_changed reader previous current))))
      (ok tt)
validate_payload (DomainEventPayload.stored_value_changed account previous current reason) =
    ite (Currency-discrete previous.amount.currency current.amount.currency)
      (ite (StoredValueBalance-discrete previous current)
        (err DomainEventError.no_stored_value_change) (ok tt))
      (err (
        DomainEventError.stored_value_currency_changed previous.amount.currency
          current.amount.currency))
validate_payload (DomainEventPayload.equipment_key_rotated reader previous current) =
    ite (ℕ_discrete previous current) (err DomainEventError.no_equipment_key_change) (ok tt)
validate_payload _ = ok tt

-- `DomainEvent::new`.
unfoldable pub new_event :
    DomainEventId
    → AggregateVersion
    → DomainEventTime
    → DomainEventPayload
    → Result DomainEvent DomainEventError
new_event id aggregate_version occurred_at payload = do
  validate_payload payload
  ok (record {
    id = id;
    aggregate_id = aggregate_of payload;
    aggregate_version = aggregate_version;
    occurred_at = occurred_at;
    payload = payload;
  })

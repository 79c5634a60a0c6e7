-- ===== src/Domain/Event/Payloads.antt =====
-- Which payloads `DomainEvent::new` (crates/domain/src/event.rs) accepts.
use transit_guard.Base.{◌≡◌, ◌≢◌, refl, ◌↔◌, arith}
use transit_guard.Base.Result.{ok}
use transit_guard.Domain.Identifier.{DomainEventId}
use transit_guard.Domain.Event.{
  DomainEventPayload, DomainEvent, DomainEventTime, AggregateVersion, aggregate_of, new_event,
  validate_payload,
}

-- The payload records a change that happened.
abbrev pub IsChange : DomainEventPayload → Type 0
IsChange (DomainEventPayload.transit_account_status_changed _ previous current) = previous ≢ current
IsChange (DomainEventPayload.fare_credential_status_changed _ previous current) = previous ≢ current
IsChange (DomainEventPayload.reader_equipment_status_changed _ previous current) =
    previous ≢ current
IsChange (DomainEventPayload.stored_value_changed _ previous current _) =
    (previous.amount.currency ≡ current.amount.currency) × (previous ≢ current)
IsChange (DomainEventPayload.equipment_key_rotated _ previous current) = previous ≢ current
IsChange _ = Unit {0}

validate_payload_iff : (p : DomainEventPayload) → (validate_payload p ≡ ok tt) ↔ IsChange p
unfolding validate_payload
validate_payload_iff (DomainEventPayload.transit_account_status_changed a previous current) =
    (λ h. ground arith, λ h. ground arith)
validate_payload_iff (DomainEventPayload.fare_credential_status_changed c previous current) =
    (λ h. ground arith, λ h. ground arith)
validate_payload_iff (DomainEventPayload.reader_equipment_status_changed r previous current) =
    (λ h. ground arith, λ h. ground arith)
validate_payload_iff (DomainEventPayload.stored_value_changed a previous current reason) =
    (λ h. ground arith, λ h. ground arith)
validate_payload_iff (DomainEventPayload.equipment_key_rotated r previous current) =
    (λ h. ground arith, λ h. ground arith)
validate_payload_iff _ = (λ h. tt, λ h. refl)

-- An event is created exactly from a payload that records a real change: of a status, of a key, or
-- of a balance within one currency; payloads of other kinds are always accepted. The event then
-- carries what it was given, under the aggregate of its payload.
pub new_event_iff :
    (id : DomainEventId) (version : AggregateVersion) (time : DomainEventTime)
    (payload : DomainEventPayload) (e : DomainEvent)
    → (new_event id version time payload ≡ ok e) ↔ (
        IsChange payload
        × (e ≡ record {
          id = id;
          aggregate_id = aggregate_of payload;
          aggregate_version = version;
          occurred_at = time;
          payload = payload;
        }))
unfolding new_event
new_event_iff id version time payload e =
    let v = validate_payload_iff payload in (λ h. ground (arith, v), λ h. ground (arith, v))

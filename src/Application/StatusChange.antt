-- ===== src/Application/StatusChange.antt =====
-- crates/application/src/use_cases: activate_fare_credential.rs, suspend_fare_credential.rs and
-- revoke_fare_credential.rs. The three `execute` methods have the same steps and differ in the
-- status, the domain call and the texts, which are functions of the change here.
pub mod Post
pub mod Run
pub mod Success
use transit_guard.Base.{String, Bool, true, false, Option, some, none, ite}
use transit_guard.Base.Result.{Result, ok, err, map_err}
use transit_guard.Domain.Identifier.{FareCredentialId, UuidCrate}
use transit_guard.Domain.Credential.{
  FareCredential, FareCredentialStatus, FareCredentialStatus-discrete, RevocationReason,
  CredentialCall, activate, suspend, revoke,
}
use transit_guard.Domain.Event.{
  DomainEventPayload, DomainEvent, DomainEventTime, AggregateVersion, new_event,
}
use transit_guard.Application.Ports.{
  Ports, ApplicationError, VersionedAggregate, SaveCondition, next_version,
}
use transit_guard.Application.Events.{record_event}
use transit_guard.Application.Effect.{
  App, ◌>>=◌, ◌>>◌, return, query, lift, draw, or_rollback, require, pure_result,
}

-- Which of the three services runs.
pub data StatusChange : Type 0 where
  activate_change suspend_change : StatusChange
  revoke_change : RevocationReason → StatusChange

abbrev pub target : StatusChange → FareCredentialStatus
target StatusChange.activate_change = FareCredentialStatus.active
target StatusChange.suspend_change = FareCredentialStatus.suspended
target (StatusChange.revoke_change _) = FareCredentialStatus.revoked

abbrev pub mutate : StatusChange → FareCredential → CredentialCall
mutate StatusChange.activate_change c = activate c
mutate StatusChange.suspend_change c = suspend c
mutate (StatusChange.revoke_change reason) c = revoke reason c

abbrev operation_name : StatusChange → String
operation_name StatusChange.activate_change = "activate fare credential"
operation_name StatusChange.suspend_change = "suspend fare credential"
operation_name (StatusChange.revoke_change _) = "revoke fare credential"

abbrev invalid_event : StatusChange → String
invalid_event StatusChange.activate_change = "credential activation event is invalid"
invalid_event StatusChange.suspend_change = "credential suspension event is invalid"
invalid_event (StatusChange.revoke_change _) = "credential revocation event is invalid"

-- `ActivatedFareCredential`, `SuspendedFareCredential` and `RevokedFareCredential`; only the last
-- has a reason.
pub record ChangedFareCredential : Type 0 where
  pub credential_id : FareCredentialId
  pub previous_status : FareCredentialStatus
  pub current_status : FareCredentialStatus
  pub reason : Option RevocationReason
  pub changed : Bool

-- `match credential.revocation_reason() { Some(reason) => reason, None => command.reason }`.
abbrev recorded_reason : RevocationReason → Option RevocationReason → RevocationReason
recorded_reason command_reason (some reason) = reason
recorded_reason command_reason none = command_reason

abbrev pub reported_reason : StatusChange → FareCredential → Option RevocationReason
reported_reason (StatusChange.revoke_change reason) c =
    some (recorded_reason reason c.revocation_reason)
reported_reason _ c = none

abbrev pub change_payload :
    StatusChange → FareCredentialId → FareCredentialStatus → DomainEventPayload
change_payload change id previous_status =
    DomainEventPayload.fare_credential_status_changed id previous_status (target change)

module _ {ℓ} {W : Type ℓ} (ports : Ports W) (change : StatusChange) (id : FareCredentialId) where
  -- The branch for a credential that has the status.
  unfoldable pub unchanged : VersionedAggregate FareCredential → App W ChangedFareCredential
  unchanged loaded = do
    query ports.commit
    return (record {
      credential_id = id;
      previous_status = loaded.aggregate.status;
      current_status = target change;
      reason = reported_reason change loaded.aggregate;
      changed = false;
    })

  -- The branch for any other status.
  unfoldable pub update : VersionedAggregate FareCredential → App W ChangedFareCredential
  update loaded = do
    next ←
        require ports
          (ApplicationError.conflict (operation_name change) "aggregate version is exhausted")
          (next_version loaded)
    or_rollback ports
        (pure_result (map_err ApplicationError.fare_credential (mutate change loaded.aggregate).0))
    occurred_at ← or_rollback ports (lift ApplicationError.clock ports.now)
    event ←
        record_event ports (operation_name change) (invalid_event change) next occurred_at
          (change_payload change id loaded.aggregate.status)
    or_rollback ports (
        query (
          ports.save_fare_credential (mutate change loaded.aggregate).1
            (SaveCondition.if_version loaded.version)))
    or_rollback ports (query (ports.append_domain_event event))
    query ports.commit
    return (record {
      credential_id = id;
      previous_status = loaded.aggregate.status;
      current_status = (mutate change loaded.aggregate).1.status;
      reason = reported_reason change (mutate change loaded.aggregate).1;
      changed = true;
    })

  unfoldable pub change_loaded : VersionedAggregate FareCredential → App W ChangedFareCredential
  change_loaded loaded =
      ite (FareCredentialStatus-discrete loaded.aggregate.status (target change)) (unchanged loaded)
        (update loaded)

  -- The steps that `execute` of `ActivateFareCredentialService`, `SuspendFareCredentialService` and
  -- `RevokeFareCredentialService` share.
  unfoldable pub change_status : App W ChangedFareCredential
  change_status = do
    query ports.begin
    o ← or_rollback ports (query (ports.find_fare_credential id))
    loaded ←
        require ports (ApplicationError.not_found "fare credential" (ports.uuid.to_string id)) o
    change_loaded loaded

-- The three `execute` methods.
abbrev pub activate_credential {ℓ} :
    {W : Type ℓ} → Ports W → FareCredentialId → App W ChangedFareCredential
activate_credential ports id = change_status ports StatusChange.activate_change id

abbrev pub suspend_credential {ℓ} :
    {W : Type ℓ} → Ports W → FareCredentialId → App W ChangedFareCredential
suspend_credential ports id = change_status ports StatusChange.suspend_change id

abbrev pub revoke_credential {ℓ} :
    {W : Type ℓ} → Ports W → FareCredentialId → RevocationReason → App W ChangedFareCredential
revoke_credential ports id reason = change_status ports (StatusChange.revoke_change reason) id

-- ===== src/Application/Replace.antt =====
-- crates/application/src/use_cases/replace_fare_credential.rs.
pub mod Post
pub mod Run
pub mod Success
use transit_guard.Base.{String, Bool, true, false, Option, ite}
use transit_guard.Base.Tests.{◌==◌}
use transit_guard.Base.Result.{map_err}
use transit_guard.Domain.Identifier.{FareCredentialId, UuidCrate}
use transit_guard.Domain.Credential.{
  FareCredential, FareCredentialKind, FareCredentialStatus, FareCredentialStatus-discrete,
  CredentialCall, new_pending, replace_with,
}
use transit_guard.Domain.Event.{
  DomainEventPayload, DomainEvent, AggregateVersion, new_aggregate_version,
}
use transit_guard.Application.Ports.{
  Ports, ApplicationError, VersionedAggregate, SaveCondition, next_version,
}
use transit_guard.Application.Events.{record_event}
use transit_guard.Application.Effect.{
  App, ◌>>=◌, ◌>>◌, return, query, lift, draw, or_rollback, require, ensure, pure_result,
}

pub record ReplaceFareCredentialCommand : Type 0 where
  pub credential_id : FareCredentialId
  pub replacement_kind : FareCredentialKind

pub record ReplacedFareCredential : Type 0 where
  pub original_credential_id : FareCredentialId
  pub replacement_credential_id : FareCredentialId
  pub previous_status : FareCredentialStatus
  pub current_status : FareCredentialStatus
  pub replacement_status : FareCredentialStatus
  pub changed : Bool

abbrev replace_conflict : String → ApplicationError
replace_conflict reason = ApplicationError.conflict "replace fare credential" reason

module _ {ℓ} {W : Type ℓ} (ports : Ports W) (command : ReplaceFareCredentialCommand)
    (loaded : VersionedAggregate FareCredential) where
  -- `if previous_status == FareCredentialStatus::Replaced { … }`.
  unfoldable pub already_replaced : App W ReplacedFareCredential
  already_replaced = do
    replacement_credential_id ←
        require ports (replace_conflict "replaced credential has no successor")
          loaded.aggregate.replacement_id
    o ← or_rollback ports (query (ports.find_fare_credential replacement_credential_id))
    recorded_replacement ←
        require ports (replace_conflict "recorded replacement credential is missing") o
    ensure ports (replace_conflict "recorded replacement belongs to another account")
        (recorded_replacement.aggregate.transit_account_id == loaded.aggregate.transit_account_id)
    query ports.commit
    return (record {
      original_credential_id = command.credential_id;
      replacement_credential_id = replacement_credential_id;
      previous_status = loaded.aggregate.status;
      current_status = FareCredentialStatus.replaced;
      replacement_status = recorded_replacement.aggregate.status;
      changed = false;
    })

  -- The rest of `execute`.
  unfoldable pub supersede : App W ReplacedFareCredential
  supersede = do
    next_original_version ←
        require ports (replace_conflict "aggregate version is exhausted") (next_version loaded)
    replacement_version ← or_rollback ports (
        pure_result (
          map_err (λ _. replace_conflict "replacement aggregate version is invalid")
            (new_aggregate_version 1)))
    replacement_credential_id ← draw ports.generate_credential_id
    let replacement =
        new_pending replacement_credential_id loaded.aggregate.transit_account_id
          command.replacement_kind
    let original = replace_with replacement_credential_id loaded.aggregate
    or_rollback ports (pure_result (map_err ApplicationError.fare_credential original.0))
    occurred_at ← or_rollback ports (lift ApplicationError.clock ports.now)
    original_event ←
        record_event ports "replace fare credential" "original credential event is invalid"
          next_original_version occurred_at
          (DomainEventPayload.fare_credential_status_changed command.credential_id
            loaded.aggregate.status FareCredentialStatus.replaced)
    replacement_event ←
        record_event ports "replace fare credential" "replacement issuance event is invalid"
          replacement_version occurred_at
          (DomainEventPayload.fare_credential_issued replacement_credential_id
            loaded.aggregate.transit_account_id command.replacement_kind)
    or_rollback ports
        (query (ports.save_fare_credential original.1 (SaveCondition.if_version loaded.version)))
    or_rollback ports (query (ports.save_fare_credential replacement SaveCondition.must_not_exist))
    or_rollback ports (query (ports.append_domain_event original_event))
    or_rollback ports (query (ports.append_domain_event replacement_event))
    query ports.commit
    return (record {
      original_credential_id = command.credential_id;
      replacement_credential_id = replacement_credential_id;
      previous_status = loaded.aggregate.status;
      current_status = original.1.status;
      replacement_status = replacement.status;
      changed = true;
    })

-- `ReplaceFareCredentialService::execute`.
unfoldable pub replace {ℓ} :
    {W : Type ℓ} → Ports W → ReplaceFareCredentialCommand → App W ReplacedFareCredential
replace ports command = do
  query ports.begin
  o ← or_rollback ports (query (ports.find_fare_credential command.credential_id))
  loaded ←
      require ports
        (ApplicationError.not_found "fare credential" (ports.uuid.to_string command.credential_id))
        o
  ite (FareCredentialStatus-discrete loaded.aggregate.status FareCredentialStatus.replaced)
      (already_replaced ports command loaded) (supersede ports command loaded)

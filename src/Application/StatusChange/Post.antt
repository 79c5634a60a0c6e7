-- ===== src/Application/StatusChange/Post.antt =====
-- What the activation, suspension and revocation services do to the world
-- (crates/application/src/use_cases).
use transit_guard.Base.{◌≡◌, ap, ◌∙◌, ◌+◌, ◌⊎◌, true, false, some, List, [], ◌∷◌, arith}
use transit_guard.Base.Result.{ok}
use transit_guard.Domain.Identifier.{FareCredentialId}
use transit_guard.Domain.Credential.{FareCredential, activate, suspend, revoke}
use transit_guard.Domain.Event.{
  DomainEvent, DomainEventTime, AggregateVersion, DomainAggregateId, aggregate_of,
}
use transit_guard.Application.Ports.{
  VersionedAggregate, SaveCondition, next_version, next_version_lem,
}
use transit_guard.Application.Events.{Records}
use transit_guard.Application.Triples.{Operation}
use transit_guard.Application.StatusChange.{
  StatusChange, ChangedFareCredential, target, mutate, reported_reason, change_payload,
}

-- The credential that a change leaves has the target status.
pub mutate-target :
    (change : StatusChange) (c : FareCredential)
    → (mutate change c).0 ≡ ok tt
    → (mutate change c).1.status ≡ target change
unfolding activate suspend revoke
mutate-target StatusChange.activate_change c h = ground arith
mutate-target StatusChange.suspend_change c h = ground arith
mutate-target (StatusChange.revoke_change reason) c h = ground arith

-- A change of a credential that has the target status changes nothing.
pub mutate_same :
    (change : StatusChange) (c : FareCredential)
    → c.status ≡ target change
    → (mutate change c).1 ≡ c
unfolding activate suspend revoke
mutate_same StatusChange.activate_change c h = ground arith
mutate_same StatusChange.suspend_change c h = ground arith
mutate_same (StatusChange.revoke_change reason) c h = ground arith

-- The event of a change: the next version of the credential, from its status to the target.
pub record IsEventOf (change : StatusChange) (id : FareCredentialId)
    (loaded : VersionedAggregate FareCredential) (event : DomainEvent) : Type 0 where
  pub aggregate : event.aggregate_id ≡ DomainAggregateId.fare_credential id
  pub version : event.aggregate_version.value ≡ loaded.version.value + 1
  pub payload : event.payload ≡ change_payload change id loaded.aggregate.status

pub Records-IsEventOf :
    (change : StatusChange) (id : FareCredentialId) (loaded : VersionedAggregate FareCredential)
    (next : AggregateVersion) (time : DomainEventTime) {event : DomainEvent}
    → next_version loaded ≡ some next
    → Records next time (change_payload change id loaded.aggregate.status) event
    → IsEventOf change id loaded event
unfolding aggregate_of
Records-IsEventOf change id loaded next time versioned made = record {
  aggregate = made.aggregate;
  version = ap (λ v. v.value) made.version_given ∙ next_version_lem loaded versioned;
  payload = made.payload_given;
}

-- The loaded credential had the status, and nothing was written.
abbrev pub IsUnchanged :
    StatusChange
    → FareCredentialId
    → VersionedAggregate FareCredential
    → ChangedFareCredential
    → List Operation
    → Type 0
IsUnchanged change id loaded out transaction =
    (out.changed ≡ false)
    × (loaded.aggregate.status ≡ target change)
    × (transaction ≡ Operation.found_credential id (some loaded) ∷ [])

-- The domain allowed the change, and the transaction saved the changed credential under the loaded
-- version and appended the event of the change, in this order and nothing else.
abbrev pub IsChanged :
    StatusChange
    → FareCredentialId
    → VersionedAggregate FareCredential
    → ChangedFareCredential
    → List Operation
    → Type 0
IsChanged change id loaded out transaction =
    (out.changed ≡ true)
    × ((mutate change loaded.aggregate).0 ≡ ok tt)
    × ((event : DomainEvent) × IsEventOf change id loaded event
        × (transaction
            ≡ Operation.appended_event event
              ∷ Operation.saved_credential (mutate change loaded.aggregate).1
                  (SaveCondition.if_version loaded.version)
              ∷ Operation.found_credential id (some loaded)
              ∷ []))

-- What a successful run reports and leaves.
abbrev pub StatusChangePost :
    StatusChange → FareCredentialId → ChangedFareCredential → List Operation → Type 0
StatusChangePost change id out transaction =
    (loaded : VersionedAggregate FareCredential) × (out.credential_id ≡ id)
    × (out.previous_status ≡ loaded.aggregate.status)
    × (out.current_status ≡ target change)
    × (out.reason ≡ reported_reason change (mutate change loaded.aggregate).1)
    × (IsUnchanged change id loaded out transaction ⊎ IsChanged change id loaded out transaction)

-- ===== src/Application/Ports.antt =====
-- crates/application/src: versioning.rs, error.rs, and the traits of ports.rs, clock.rs and
-- unit_of_work.rs as a record of functions on the state of the world that they act on.
use transit_guard.Base.{String, ◌+◌, ◌≡◌, ◌^◌, Option, some, none, arith}
use transit_guard.Base.Tests.{if◌then◌else◌, ltb}
use transit_guard.Base.Result.{Result, ok, err}
use transit_guard.Domain.Identifier.{UuidCrate, TransitAccountId, FareCredentialId, DomainEventId}
use transit_guard.Domain.Account.{TransitAccount}
use transit_guard.Domain.Credential.{FareCredential, FareCredentialError}
use transit_guard.Domain.Event.{
  AggregateVersion, DomainEvent, DomainEventTime, new_aggregate_version,
}

pub data SaveCondition : Type 0 where
  must_not_exist : SaveCondition
  if_version : AggregateVersion → SaveCondition

pub record VersionedAggregate {ℓ} (T : Type ℓ) : Type ℓ where
  pub aggregate : T
  pub version : AggregateVersion

-- `Result::ok`.
abbrev success {ℓ κ} : {T : Type ℓ} {E : Type κ} → Result T E → Option T
success (ok value) = some value
success (err _) = none

-- `checked_add` of a `u64`, then `AggregateVersion::new`.
unfoldable pub next_version {ℓ} : {T : Type ℓ} → VersionedAggregate T → Option AggregateVersion
next_version self =
    if ltb (self.version.value + 1) (2 ^ 64)
    then success (new_aggregate_version (self.version.value + 1))
    else none

pub next_version_lem {ℓ} :
    {T : Type ℓ} (self : VersionedAggregate T) {next : AggregateVersion}
    → next_version self ≡ some next
    → next.value ≡ self.version.value + 1
unfolding next_version new_aggregate_version
next_version_lem self h = ground arith

-- The sources of the errors are not kept.
pub record RepositoryError : Type 0 where
  pub entity : String
  pub operation : String

pub record ClockError : Type 0 where
  pub operation : String

pub data ApplicationError : Type 0 where
  not_found : String → String → ApplicationError
  conflict : String → String → ApplicationError
  fare_credential : FareCredentialError → ApplicationError
  repository : RepositoryError → ApplicationError
  clock : ClockError → ApplicationError

-- What one call of a port does to the world, and what it returns.
abbrev pub Port {ℓ κ μ} : Type ℓ → Type κ → Type μ → Type (ℓ ⊔ κ ⊔ μ)
Port W T E = W → Result T E × W

-- The ports of the use cases. A transaction that `begin` opened is part of the world.
pub record Ports {ℓ} (W : Type ℓ) : Type ℓ where
  pub uuid : UuidCrate
  pub begin : Port W (Unit {0}) RepositoryError
  pub find_transit_account :
      TransitAccountId → Port W (Option (VersionedAggregate TransitAccount)) RepositoryError
  pub find_fare_credential :
      FareCredentialId → Port W (Option (VersionedAggregate FareCredential)) RepositoryError
  pub save_fare_credential : FareCredential → SaveCondition → Port W (Unit {0}) RepositoryError
  pub append_domain_event : DomainEvent → Port W (Unit {0}) RepositoryError
  pub commit : Port W (Unit {0}) RepositoryError
  pub rollback : Port W (Unit {0}) RepositoryError
  pub now : Port W DomainEventTime ClockError
  pub generate_credential_id : W → FareCredentialId × W
  pub generate_event_id : W → DomainEventId × W

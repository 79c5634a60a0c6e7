-- ===== src/Application/Triples/Store.antt =====
-- What an adapter keeps (crates/application/src/versioning.rs, ports.rs and unit_of_work.rs): the
-- stored aggregates with their versions, under the save conditions.
use transit_guard.Base.{◌≡◌, ◌≢◌, refl, Option, some, none, List, ◌∷◌, arith}
use transit_guard.Base.Tests.{if◌then◌else◌, ◌==◌}
use transit_guard.Base.Result.{ok, err}
use transit_guard.Domain.Identifier.{TransitAccountId, FareCredentialId}
use transit_guard.Domain.Account.{TransitAccount}
use transit_guard.Domain.Credential.{FareCredential}
use transit_guard.Domain.Event.{
  AggregateVersion, DomainEvent, DomainEventTime, new_aggregate_version,
}
use transit_guard.Application.Ports.{
  Ports, RepositoryError, VersionedAggregate, SaveCondition, next_version,
}

-- The aggregates and the events, the last one first.
pub record Store : Type 0 where
  pub accounts : TransitAccountId → Option (VersionedAggregate TransitAccount)
  pub credentials : FareCredentialId → Option (VersionedAggregate FareCredential)
  pub events : List DomainEvent

abbrev pub put : FareCredential → AggregateVersion → Store → Store
put c version store = record store {
  credentials = λ id.
      if id == c.id
      then some (record { aggregate = c; version = version })
      else store.credentials id;
}

abbrev pub log : DomainEvent → Store → Store
log event store = record store { events = event ∷ store.events }

-- An identifier other than that of the credential is looked up as before.
pub put-other :
    (c : FareCredential) (version : AggregateVersion) (store : Store) (id : FareCredentialId)
    → id ≢ c.id
    → (put c version store).credentials id ≡ store.credentials id
put-other c version store id other = ground arith

abbrev pub first_version : AggregateVersion
first_version = record { value = 1 }

pub new_aggregate_version-first : new_aggregate_version 1 ≡ ok first_version
unfolding new_aggregate_version
new_aggregate_version-first = refl

-- The version under which a save is stored, if its condition admits it: the first one of an
-- aggregate that does not exist, and the next one of an aggregate that has the given version.
abbrev pub saved_version :
    SaveCondition → Option (VersionedAggregate FareCredential) → Option AggregateVersion
saved_version SaveCondition.must_not_exist none = some first_version
saved_version SaveCondition.must_not_exist (some stored) = none
saved_version (SaveCondition.if_version version) none = none
saved_version (SaveCondition.if_version version) (some stored) =
    if version.value == stored.version.value then next_version stored else none

-- A save of what was loaded under its own version is stored under the next one.
pub saved_version-loaded :
    (loaded : VersionedAggregate FareCredential) (next : AggregateVersion)
    → next_version loaded ≡ some next
    → saved_version (SaveCondition.if_version loaded.version) (some loaded) ≡ some next
saved_version-loaded loaded next h = ground arith

-- An adapter that enforces the save conditions, keeps changes provisional until a commit, generates
-- identifiers that are not in use, and refuses nothing else, while no other transaction runs.
-- `durable` is what a new transaction starts from, and `view` what the open one sees, its own
-- changes included.
pub record Conforming {ℓ} {W : Type ℓ} (ports : Ports W) : Type ℓ where
  pub durable : W → Store
  pub view : W → Store
  pub begins :
      (w : W)
      → ((ports.begin w).0 ≡ ok tt)
        × (durable (ports.begin w).1 ≡ durable w)
        × (view (ports.begin w).1 ≡ durable w)
  pub finds_account :
      (id : TransitAccountId) (w : W)
      → ((ports.find_transit_account id w).0 ≡ ok ((view w).accounts id))
        × (durable (ports.find_transit_account id w).1 ≡ durable w)
        × (view (ports.find_transit_account id w).1 ≡ view w)
  pub finds_credential :
      (id : FareCredentialId) (w : W)
      → ((ports.find_fare_credential id w).0 ≡ ok ((view w).credentials id))
        × (durable (ports.find_fare_credential id w).1 ≡ durable w)
        × (view (ports.find_fare_credential id w).1 ≡ view w)
  pub saves :
      (c : FareCredential) (condition : SaveCondition) (version : AggregateVersion) (w : W)
      → saved_version condition ((view w).credentials c.id) ≡ some version
      → ((ports.save_fare_credential c condition w).0 ≡ ok tt)
        × (durable (ports.save_fare_credential c condition w).1 ≡ durable w)
        × (view (ports.save_fare_credential c condition w).1 ≡ put c version (view w))
  pub enforces :
      (c : FareCredential) (condition : SaveCondition) (w : W)
      → saved_version condition ((view w).credentials c.id) ≡ none
      → (e : RepositoryError) × ((ports.save_fare_credential c condition w).0 ≡ err e)
        × (durable (ports.save_fare_credential c condition w).1 ≡ durable w)
  pub appends :
      (event : DomainEvent) (w : W)
      → ((ports.append_domain_event event w).0 ≡ ok tt)
        × (durable (ports.append_domain_event event w).1 ≡ durable w)
        × (view (ports.append_domain_event event w).1 ≡ log event (view w))
  pub commits : (w : W) → ((ports.commit w).0 ≡ ok tt) × (durable (ports.commit w).1 ≡ view w)
  pub rolls_back : (w : W) → durable (ports.rollback w).1 ≡ durable w
  pub tells_time :
      (w : W)
      → (time : DomainEventTime) × ((ports.now w).0 ≡ ok time)
        × (durable (ports.now w).1 ≡ durable w)
        × (view (ports.now w).1 ≡ view w)
  pub generates :
      (w : W)
      → ((durable w).credentials (ports.generate_credential_id w).0 ≡ none)
        × ((view w).credentials (ports.generate_credential_id w).0 ≡ none)
        × (durable (ports.generate_credential_id w).1 ≡ durable w)
        × (view (ports.generate_credential_id w).1 ≡ view w)
  pub generates_event :
      (w : W)
      → (durable (ports.generate_event_id w).1 ≡ durable w)
        × (view (ports.generate_event_id w).1 ≡ view w)

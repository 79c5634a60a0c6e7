-- ===== src/Application/Replace/Post.antt =====
-- What `ReplaceFareCredentialService::execute` does to the world
-- (crates/application/src/use_cases/replace_fare_credential.rs).
use transit_guard.Base.{◌≡◌, ◌+◌, ◌⊎◌, true, false, some, List, [], ◌∷◌, arith}
use transit_guard.Base.Tests.{◌==◌}
use transit_guard.Base.Result.{ok}
use transit_guard.Domain.Identifier.{FareCredentialId}
use transit_guard.Domain.Credential.{
  FareCredential, FareCredentialStatus, new_pending, replace_with,
}
use transit_guard.Domain.Event.{
  AggregateVersion, DomainEventPayload, DomainEvent, DomainAggregateId, new_aggregate_version,
}
use transit_guard.Application.Ports.{VersionedAggregate, SaveCondition}
use transit_guard.Application.Triples.{Operation}
use transit_guard.Application.Replace.{ReplaceFareCredentialCommand, ReplacedFareCredential}

-- A repeated replacement: the recorded successor of the same account is reported, and nothing is
-- written.
pub record IsRepeated (loaded : VersionedAggregate FareCredential)
    (command : ReplaceFareCredentialCommand) (out : ReplacedFareCredential)
    (transaction : List Operation) : Type 0 where
  pub unchanged : out.changed ≡ false
  pub was_replaced : loaded.aggregate.status ≡ FareCredentialStatus.replaced
  pub successor : loaded.aggregate.replacement_id ≡ some out.replacement_credential_id
  pub recorded : VersionedAggregate FareCredential
  pub same_account : recorded.aggregate.transit_account_id ≡ loaded.aggregate.transit_account_id
  pub reported : out.replacement_status ≡ recorded.aggregate.status
  pub transaction_is :
      transaction
      ≡ Operation.found_credential out.replacement_credential_id (some recorded)
        ∷ Operation.found_credential command.credential_id (some loaded)
        ∷ []

-- A replacement: the original under its loaded version and the new pending credential of the same
-- account are saved, and the event of each is appended.
pub record IsSuperseded (loaded : VersionedAggregate FareCredential)
    (command : ReplaceFareCredentialCommand) (out : ReplacedFareCredential)
    (transaction : List Operation) : Type 0 where
  pub changed : out.changed ≡ true
  pub allowed : (replace_with out.replacement_credential_id loaded.aggregate).0 ≡ ok tt
  pub reported : out.replacement_status ≡ FareCredentialStatus.pending
  pub original_event : DomainEvent
  pub original_aggregate :
      original_event.aggregate_id ≡ DomainAggregateId.fare_credential command.credential_id
  pub original_version : original_event.aggregate_version.value ≡ loaded.version.value + 1
  pub original_payload :
      original_event.payload
      ≡ DomainEventPayload.fare_credential_status_changed command.credential_id
          loaded.aggregate.status FareCredentialStatus.replaced
  pub replacement_event : DomainEvent
  pub replacement_aggregate :
      replacement_event.aggregate_id
      ≡ DomainAggregateId.fare_credential out.replacement_credential_id
  pub replacement_version : replacement_event.aggregate_version.value ≡ 1
  pub replacement_payload :
      replacement_event.payload
      ≡ DomainEventPayload.fare_credential_issued out.replacement_credential_id
          loaded.aggregate.transit_account_id command.replacement_kind
  pub transaction_is :
      transaction
      ≡ Operation.appended_event replacement_event
        ∷ Operation.appended_event original_event
        ∷ Operation.saved_credential
            (new_pending out.replacement_credential_id loaded.aggregate.transit_account_id
              command.replacement_kind)
            SaveCondition.must_not_exist
        ∷ Operation.saved_credential
            (replace_with out.replacement_credential_id loaded.aggregate).1
            (SaveCondition.if_version loaded.version)
        ∷ Operation.found_credential command.credential_id (some loaded)
        ∷ []

-- What a successful run reports and leaves.
abbrev pub ReplacePost :
    ReplaceFareCredentialCommand → ReplacedFareCredential → List Operation → Type 0
ReplacePost command out transaction =
    (loaded : VersionedAggregate FareCredential) × (out.original_credential_id
      ≡ command.credential_id)
    × (out.previous_status ≡ loaded.aggregate.status)
    × (out.current_status ≡ FareCredentialStatus.replaced)
    × (IsRepeated loaded command out transaction ⊎ IsSuperseded loaded command out transaction)

-- What `replace_with` leaves is replaced.
pub replaced_status :
    (id : FareCredentialId) (c : FareCredential)
    → (replace_with id c).0 ≡ ok tt
    → (replace_with id c).1.status ≡ FareCredentialStatus.replaced
unfolding replace_with
replaced_status id c h = ground arith

pub first_version :
    (version : AggregateVersion) → new_aggregate_version 1 ≡ ok version → version.value ≡ 1
unfolding new_aggregate_version
first_version version h = ground arith

pub eq_of_test : (a b : FareCredentialId) → (a == b) ≡ true → a ≡ b
eq_of_test a b h = ground arith

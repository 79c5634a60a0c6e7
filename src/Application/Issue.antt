-- ===== src/Application/Issue.antt =====
-- crates/application/src/use_cases/issue_fare_credential.rs.
pub mod Success
use transit_guard.Base.{String, arith, ◌≡◌, refl, ap, ◌∙◌, some, true, List, [], ◌∷◌}
use transit_guard.Base.Result.{ok, err, map_err, map_err-eq-ok}
use transit_guard.Domain.Identifier.{FareCredentialId, TransitAccountId}
use transit_guard.Domain.Account.{TransitAccount, TransitAccountStatus, is_active}
use transit_guard.Domain.Credential.{FareCredentialKind, FareCredentialStatus, new_pending}
use transit_guard.Domain.Event.{
  AggregateVersion, DomainEventPayload, DomainEvent, DomainAggregateId, aggregate_of,
  new_aggregate_version,
}
use transit_guard.Application.Ports.{Ports, ApplicationError, VersionedAggregate, SaveCondition}
use transit_guard.Application.Effect.{
  App, ◌>>=◌, ◌>>◌, return, query, lift, draw, or_rollback, require, ensure, pure_result,
}
use transit_guard.Application.Events.{record_event, record_event_triple}
use transit_guard.Application.Triples.{
  Operation, Triple, Transactional, bind_triple, return_triple, fact_triple, triple_cases,
}
use transit_guard.Application.Triples.Steps.{
  Durable, or_rollback_triple, require_triple, guard_triple, begin_triple, commit_triple,
  find_account_triple, save_credential_triple, append_triple, early_now_triple,
  credential_id_triple, check_triple,
}

pub record IssueFareCredentialCommand : Type 0 where
  pub transit_account_id : TransitAccountId
  pub kind : FareCredentialKind

pub record IssuedFareCredential : Type 0 where
  pub credential_id : FareCredentialId
  pub transit_account_id : TransitAccountId
  pub kind : FareCredentialKind
  pub status : FareCredentialStatus

abbrev operation_name : String
operation_name = "issue fare credential"

-- `IssueFareCredentialService::execute`.
unfoldable pub issue {ℓ} :
    {W : Type ℓ} → Ports W → IssueFareCredentialCommand → App W IssuedFareCredential
issue ports command = do
  occurred_at ← lift ApplicationError.clock ports.now
  query ports.begin
  o ← or_rollback ports (query (ports.find_transit_account command.transit_account_id))
  account ←
      require ports
        (ApplicationError.not_found "transit account"
          (ports.uuid.to_string command.transit_account_id))
        o
  ensure ports (ApplicationError.conflict operation_name "transit account is not active")
      (is_active account.aggregate)
  credential_id ← draw ports.generate_credential_id
  let credential = new_pending credential_id command.transit_account_id command.kind
  aggregate_version ← or_rollback ports (
      pure_result (
        map_err
          (λ _. ApplicationError.conflict operation_name "initial aggregate version is invalid")
          (new_aggregate_version 1)))
  event ←
      record_event ports operation_name "credential issuance event is invalid" aggregate_version
        occurred_at
        (DomainEventPayload.fare_credential_issued credential_id command.transit_account_id
          command.kind)
  or_rollback ports (query (ports.save_fare_credential credential SaveCondition.must_not_exist))
  or_rollback ports (query (ports.append_domain_event event))
  query ports.commit
  return (record {
    credential_id = credential_id;
    transit_account_id = command.transit_account_id;
    kind = command.kind;
    status = credential.status;
  })

-- What an issuance reports and leaves.
pub record IsIssued (command : IssueFareCredentialCommand) (out : IssuedFareCredential)
    (transaction : List Operation) : Type 0 where
  pub account : VersionedAggregate TransitAccount
  pub active : account.aggregate.status ≡ TransitAccountStatus.active
  pub event : DomainEvent
  pub aggregate : event.aggregate_id ≡ DomainAggregateId.fare_credential out.credential_id
  pub version : event.aggregate_version.value ≡ 1
  pub payload :
      event.payload
      ≡ DomainEventPayload.fare_credential_issued out.credential_id command.transit_account_id
          command.kind
  pub transaction_is :
      transaction
      ≡ Operation.appended_event event
        ∷ Operation.saved_credential
            (new_pending out.credential_id command.transit_account_id command.kind)
            SaveCondition.must_not_exist
        ∷ Operation.found_account command.transit_account_id (some account)
        ∷ []
  pub reported :
      (out.transit_account_id ≡ command.transit_account_id)
      × (out.kind ≡ command.kind)
      × (out.status ≡ FareCredentialStatus.pending)

active_status : (a : TransitAccount) → is_active a ≡ true → a.status ≡ TransitAccountStatus.active
active_status a h = ground arith

initial_version :
    (version : AggregateVersion) → new_aggregate_version 1 ≡ ok version → version.value ≡ 1
unfolding new_aggregate_version
initial_version version h = ground arith

module _ {ℓ} {W : Type ℓ} {ports : Ports W} (laws : Transactional ports)
    (command : IssueFareCredentialCommand) where
  issue_triple :
      (log : List (List Operation))
      → Triple
          (Durable laws log)
          (issue ports command)
          (λ out w.
            (transaction : List Operation) × (laws.committed w ≡ transaction ∷ log)
            × IsIssued command out transaction)
          (Durable laws log)
  unfolding issue aggregate_of new_pending
  issue_triple log = bind_triple (early_now_triple laws log) (λ time.
      bind_triple (begin_triple laws log) (λ begun.
        bind_triple (or_rollback_triple laws log (find_account_triple laws log _)) (λ o.
          bind_triple (require_triple laws log _ o) (λ account. fact_triple (λ present.
            bind_triple (guard_triple laws log _ _) (λ guarded. fact_triple (λ active.
              bind_triple (credential_id_triple laws log) (λ id.
                bind_triple (check_triple laws log _) (λ version. fact_triple (λ initial.
                  bind_triple (record_event_triple laws log _ _ version time _) (λ event.
                    fact_triple (λ made.
                      bind_triple
                        (or_rollback_triple laws log (save_credential_triple laws log _ _))
                        (λ saved.
                          bind_triple (or_rollback_triple laws log (append_triple laws log event))
                            (λ appended. bind_triple (commit_triple laws log) (λ committed.
                              return_triple _ (λ w d. (
                                _,
                                d,
                                record {
                                  account = account;
                                  active = active_status account.aggregate active;
                                  event = event;
                                  aggregate = made.aggregate;
                                  version =
                                      ap (λ v. v.value) made.version_given
                                      ∙ initial_version version (map_err-eq-ok _ _ initial);
                                  payload = made.payload_given;
                                  transaction_is = rw present refl;
                                  reported = (refl, refl, refl);
                                },
                              )))))))))))))))))

  -- With ports that keep the promises of a transaction, the issuance of a credential either fails,
  -- and then no transaction took effect, or succeeds, and then exactly one did. That one found the
  -- account active, saved a new pending credential of the account and the kind under the condition
  -- that it does not exist, and appended its issuance event with version 1; the result names the
  -- credential, its account, its kind and its pending status.
  pub issue_atomic :
      (w : W)
      → ((x : ApplicationError)
          → (issue ports command w).0 ≡ err x
          → laws.committed (issue ports command w).1 ≡ laws.committed w)
        × ((out : IssuedFareCredential)
            → (issue ports command w).0 ≡ ok out
            → (transaction : List Operation) × (laws.committed (issue ports command w).1
                ≡ transaction ∷ laws.committed w)
              × IsIssued command out transaction)
  issue_atomic w = triple_cases (issue_triple (laws.committed w)) w refl

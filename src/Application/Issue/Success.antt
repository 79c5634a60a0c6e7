-- ===== src/Application/Issue/Success.antt =====
-- When an issuance succeeds, and what it leaves
-- (crates/application/src/use_cases/issue_fare_credential.rs).
use transit_guard.Base.{◌≡◌, refl, ap, true, some, none, arith}
use transit_guard.Base.Result.{ok, map_err}
use transit_guard.Domain.Account.{TransitAccount, TransitAccountStatus, is_active}
use transit_guard.Domain.Credential.{FareCredentialStatus, new_pending}
use transit_guard.Domain.Event.{DomainEvent, DomainEventTime, DomainEventPayload}
use transit_guard.Application.Ports.{Ports, VersionedAggregate, SaveCondition}
use transit_guard.Application.Events.{Records}
use transit_guard.Application.Triples.{bind_triple, fact_triple, return_triple}
use transit_guard.Application.Triples.Store.{
  Store, Conforming, put, log, saved_version, first_version, new_aggregate_version-first,
}
use transit_guard.Application.Triples.Sure.{
  Sure, begin_sure, commit_sure, early_now_sure, find_account_sure, generate_sure, save_sure,
  append_sure, ensure_sure, pure_sure, or_rollback_sure, require_sure, record_event_sure, sure-ok,
}
use transit_guard.Application.Issue.{IssueFareCredentialCommand, IssuedFareCredential, issue}

active_test : (a : TransitAccount) → a.status ≡ TransitAccountStatus.active → is_active a ≡ true
active_test a h = ground arith

-- The store that an issuance leaves: the one before with a new pending credential of the account
-- and the kind, under an identifier that was not in use and the first version, and with the event
-- of its issuance.
pub record Issues (command : IssueFareCredentialCommand) (before : Store)
    (out : IssuedFareCredential) (after : Store) : Type 0 where
  pub unused : before.credentials out.credential_id ≡ none
  pub event : DomainEvent
  pub time : DomainEventTime
  pub recorded :
      Records first_version time
        (DomainEventPayload.fare_credential_issued out.credential_id command.transit_account_id
          command.kind)
        event
  pub stored :
      after
      ≡ log event (
          put
            (new_pending out.credential_id command.transit_account_id command.kind)
            first_version
            before)
  pub reported :
      (out.transit_account_id ≡ command.transit_account_id)
      × (out.kind ≡ command.kind)
      × (out.status ≡ FareCredentialStatus.pending)

module _ {ℓ} {W : Type ℓ} {ports : Ports W} (laws : Conforming ports)
    (command : IssueFareCredentialCommand) (account : VersionedAggregate TransitAccount)
    (before : Store) (found : before.accounts command.transit_account_id ≡ some account)
    (active : account.aggregate.status ≡ TransitAccountStatus.active) where
  issue_sure :
      Sure
        (λ w. laws.durable w ≡ before)
        (issue ports command)
        (λ out w. Issues command before out (laws.durable w))
  unfolding issue new_pending
  issue_sure = bind_triple (early_now_sure laws) (λ time.
      bind_triple (begin_sure laws before) (λ begun.
        bind_triple (find_account_sure laws command.transit_account_id found) (λ o.
          fact_triple (λ present. bind_triple (require_sure ports _ o present) (λ a.
            fact_triple (λ same.
              bind_triple (ensure_sure ports _ _ (rw same (active_test account.aggregate active)))
                (λ guarded. bind_triple (generate_sure laws) (λ id. fact_triple (λ fresh.
                  bind_triple
                    (or_rollback_sure ports (
                      pure_sure (λ v. v ≡ first_version) _
                        (ap (map_err _) new_aggregate_version-first) refl))
                    (λ version. fact_triple (λ first.
                      bind_triple (record_event_sure laws _ _ version time _ tt) (λ event.
                        fact_triple (λ made.
                          bind_triple
                            (save_sure laws _ SaveCondition.must_not_exist first_version
                              (ap (saved_version SaveCondition.must_not_exist) fresh.1))
                            (λ saved. bind_triple (append_sure laws event) (λ appended.
                              bind_triple (commit_sure laws) (λ committed. return_triple _ (λ w d.
                                record {
                                  unused = fresh.0;
                                  event = event;
                                  time = time;
                                  recorded = rw (← first) made;
                                  stored = d;
                                  reported = (refl, refl, refl);
                                })))))))))))))))))

-- With an adapter that enforces the save conditions, generates unused identifiers and refuses
-- nothing else, an issuance for a durably stored active account succeeds. The durable store then has
-- a new pending credential of the account and the kind, under an identifier that was not in use and
-- version 1, and one more event, that of the issuance, and nothing else changed.
pub issue_succeeds {ℓ} :
    {W : Type ℓ} {ports : Ports W} (laws : Conforming ports) (command : IssueFareCredentialCommand)
    (account : VersionedAggregate TransitAccount) (w : W)
    → (laws.durable w).accounts command.transit_account_id ≡ some account
    → account.aggregate.status ≡ TransitAccountStatus.active
    → (out : IssuedFareCredential) × ((issue ports command w).0 ≡ ok out)
      × Issues command (laws.durable w) out (laws.durable (issue ports command w).1)
issue_succeeds {ports = ports} laws command account w found active =
    sure-ok (λ out w'. Issues command (laws.durable w) out (laws.durable w')) (issue ports command)
      (issue_sure laws command account (laws.durable w) found active) w refl

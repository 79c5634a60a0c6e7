-- ===== src/Application/Replace/Run.antt =====
-- The runs of `ReplaceFareCredentialService::execute`
-- (crates/application/src/use_cases/replace_fare_credential.rs).
use transit_guard.Base.{◌≡◌, refl, ap, ◌∙◌, inl, inr, true, false, Option, some, List, [], ◌∷◌}
use transit_guard.Base.Result.{ok, err, map_err-eq-ok}
use transit_guard.Domain.Identifier.{FareCredentialId}
use transit_guard.Domain.Credential.{
  FareCredential, FareCredentialStatus, FareCredentialStatus-discrete, new_pending, replace_with,
}
use transit_guard.Domain.Event.{
  AggregateVersion, DomainEventTime, DomainEventPayload, DomainEvent, aggregate_of,
  new_aggregate_version,
}
use transit_guard.Application.Ports.{
  Ports, ApplicationError, VersionedAggregate, SaveCondition, next_version, next_version_lem,
}
use transit_guard.Application.Events.{record_event_triple, Records}
use transit_guard.Application.Triples.{
  Operation, Triple, Transactional, bind_triple, return_triple, fact_triple, ite_triple,
  triple_cases,
}
use transit_guard.Application.Triples.Steps.{
  Durable, Open, or_rollback_triple, require_triple, guard_triple, begin_triple, commit_triple,
  find_credential_triple, save_credential_triple, append_triple, now_triple, credential_id_triple,
  check_triple,
}
use transit_guard.Application.Replace.{
  ReplaceFareCredentialCommand, ReplacedFareCredential, already_replaced, supersede, replace,
}
use transit_guard.Application.Replace.Post.{
  IsRepeated, ReplacePost, replaced_status, first_version, eq_of_test,
}

module _ {ℓ} {W : Type ℓ} {ports : Ports W} (laws : Transactional ports)
    (log : List (List Operation)) (command : ReplaceFareCredentialCommand)
    (loaded : VersionedAggregate FareCredential) where
  abbrev Done : ReplacedFareCredential → W → Type 0
  Done out w =
      (transaction : List Operation) × (laws.committed w ≡ transaction ∷ log)
      × ReplacePost command out transaction

  abbrev Reading : W → Type 0
  Reading = Open laws log (Operation.found_credential command.credential_id (some loaded) ∷ [])

  repeated :
      (id : FareCredentialId) (recorded : VersionedAggregate FareCredential)
      {o : Option (VersionedAggregate FareCredential)}
      → loaded.aggregate.status ≡ FareCredentialStatus.replaced
      → loaded.aggregate.replacement_id ≡ some id
      → recorded.aggregate.transit_account_id ≡ loaded.aggregate.transit_account_id
      → o ≡ some recorded
      → IsRepeated loaded command
          (record {
            original_credential_id = command.credential_id;
            replacement_credential_id = id;
            previous_status = loaded.aggregate.status;
            current_status = FareCredentialStatus.replaced;
            replacement_status = recorded.aggregate.status;
            changed = false;
          })
          (Operation.found_credential id o
            ∷ Operation.found_credential command.credential_id (some loaded)
            ∷ [])
  repeated id recorded was successor same present = record {
    unchanged = refl;
    was_replaced = was;
    successor = successor;
    recorded = recorded;
    same_account = same;
    reported = refl;
    transaction_is = rw present refl;
  }

  superseded :
      (next first : AggregateVersion) (id : FareCredentialId) (time : DomainEventTime)
      (original replacement : DomainEvent)
      → next_version loaded ≡ some next
      → new_aggregate_version 1 ≡ ok first
      → (replace_with id loaded.aggregate).0 ≡ ok tt
      → Records next time
          (DomainEventPayload.fare_credential_status_changed command.credential_id
            loaded.aggregate.status FareCredentialStatus.replaced)
          original
      → Records first time
          (DomainEventPayload.fare_credential_issued id loaded.aggregate.transit_account_id
            command.replacement_kind)
          replacement
      → ReplacePost command
          (record {
            original_credential_id = command.credential_id;
            replacement_credential_id = id;
            previous_status = loaded.aggregate.status;
            current_status = (replace_with id loaded.aggregate).1.status;
            replacement_status = FareCredentialStatus.pending;
            changed = true;
          })
          (Operation.appended_event replacement
            ∷ Operation.appended_event original
            ∷ Operation.saved_credential
                (new_pending id loaded.aggregate.transit_account_id command.replacement_kind)
                SaveCondition.must_not_exist
            ∷ Operation.saved_credential
                (replace_with id loaded.aggregate).1
                (SaveCondition.if_version loaded.version)
            ∷ Operation.found_credential command.credential_id (some loaded)
            ∷ [])
  unfolding aggregate_of
  superseded next first id time original replacement versioned initial allowed made issued = (
    loaded,
    refl,
    refl,
    replaced_status id loaded.aggregate allowed,
    inr (record {
      changed = refl;
      allowed = allowed;
      reported = refl;
      original_event = original;
      original_aggregate = made.aggregate;
      original_version = ap (λ v. v.value) made.version_given ∙ next_version_lem loaded versioned;
      original_payload = made.payload_given;
      replacement_event = replacement;
      replacement_aggregate = issued.aggregate;
      replacement_version = ap (λ v. v.value) issued.version_given ∙ first_version first initial;
      replacement_payload = issued.payload_given;
      transaction_is = refl;
    }),
  )

  already_triple :
      loaded.aggregate.status ≡ FareCredentialStatus.replaced
      → Triple Reading (already_replaced ports command loaded) Done (Durable laws log)
  unfolding already_replaced
  already_triple was = bind_triple (require_triple laws log _ _) (λ id. fact_triple (λ successor.
      bind_triple (or_rollback_triple laws log (find_credential_triple laws log id)) (λ o.
        bind_triple (require_triple laws log _ o) (λ recorded. fact_triple (λ present.
          bind_triple (guard_triple laws log _ _) (λ guarded. fact_triple (λ same.
            bind_triple (commit_triple laws log) (λ committed. return_triple _ (λ w d. (
              _,
              d,
              (
                loaded,
                refl,
                refl,
                refl,
                inl (repeated id recorded was successor (eq_of_test _ _ same) present),
              ),
            ))))))))))

  supersede_triple : Triple Reading (supersede ports command loaded) Done (Durable laws log)
  unfolding supersede new_pending aggregate_of
  supersede_triple = bind_triple (require_triple laws log _ _) (λ next. fact_triple (λ versioned.
      bind_triple (check_triple laws log _) (λ first. fact_triple (λ initial.
        bind_triple (credential_id_triple laws log) (λ id.
          bind_triple (check_triple laws log _) (λ done. fact_triple (λ allowed.
            bind_triple (or_rollback_triple laws log (now_triple laws log)) (λ time.
              bind_triple (record_event_triple laws log _ _ next time _) (λ original.
                fact_triple (λ made.
                  bind_triple (record_event_triple laws log _ _ first time _) (λ replacement.
                    fact_triple (λ issued.
                      bind_triple
                        (or_rollback_triple laws log (save_credential_triple laws log _ _))
                        (λ saved.
                          bind_triple
                            (or_rollback_triple laws log (save_credential_triple laws log _ _))
                            (λ created.
                              bind_triple
                                (or_rollback_triple laws log (append_triple laws log original))
                                (λ appended.
                                  bind_triple
                                    (or_rollback_triple laws log
                                      (append_triple laws log replacement))
                                    (λ completed. bind_triple (commit_triple laws log) (λ committed.
                                      return_triple _ (λ w d. (
                                        _,
                                        d,
                                        superseded next first id time original replacement versioned
                                            (map_err-eq-ok _ _ initial) (map_err-eq-ok _ _ allowed)
                                            made issued,
                                      )))))))))))))))))))

module _ {ℓ} {W : Type ℓ} {ports : Ports W} (laws : Transactional ports)
    (command : ReplaceFareCredentialCommand) where
  replace_triple :
      (log : List (List Operation))
      → Triple
          (Durable laws log)
          (replace ports command)
          (λ out w.
            (transaction : List Operation) × (laws.committed w ≡ transaction ∷ log)
            × ReplacePost command out transaction)
          (Durable laws log)
  unfolding replace
  replace_triple log = bind_triple (begin_triple laws log) (λ begun.
      bind_triple (or_rollback_triple laws log (find_credential_triple laws log _)) (λ o.
        bind_triple (require_triple laws log _ o) (λ loaded. fact_triple (λ present. rw present (
          ite_triple
            (FareCredentialStatus-discrete loaded.aggregate.status FareCredentialStatus.replaced)
            (already_triple laws log command loaded)
            (λ other. supersede_triple laws log command loaded))))))

  -- With ports that keep the promises of a transaction, the replacement of a credential either
  -- fails, and then no transaction took effect, or succeeds, and then exactly one did. For a replaced
  -- credential that one only read it and its recorded successor, which is of the same account and is
  -- reported. For any other the domain allowed the replacement, and it saved the replaced original
  -- under the version that it read and a new pending credential of the same account under the
  -- condition that it does not exist, and appended the status event of the first with the next
  -- version and the issuance event of the second with version 1.
  pub replace_atomic :
      (w : W)
      → ((x : ApplicationError)
          → (replace ports command w).0 ≡ err x
          → laws.committed (replace ports command w).1 ≡ laws.committed w)
        × ((out : ReplacedFareCredential)
            → (replace ports command w).0 ≡ ok out
            → (transaction : List Operation) × (laws.committed (replace ports command w).1
                ≡ transaction ∷ laws.committed w)
              × ReplacePost command out transaction)
  replace_atomic w = triple_cases (replace_triple (laws.committed w)) w refl

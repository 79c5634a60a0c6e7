-- ===== src/Application/StatusChange/Success.antt =====
-- When the activation, suspension and revocation services succeed, and what they leave
-- (crates/application/src/use_cases).
use transit_guard.Base.{◌≡◌, ◌≢◌, refl, ap, ◌∙◌, sym, true, false, some, arith}
use transit_guard.Base.Result.{ok, map_err}
use transit_guard.Domain.Identifier.{FareCredentialId}
use transit_guard.Domain.Credential.{
  FareCredential, FareCredentialStatus-discrete, activate, suspend, revoke,
}
use transit_guard.Domain.Event.{AggregateVersion, DomainEvent}
use transit_guard.Application.Ports.{
  Ports, ApplicationError, VersionedAggregate, SaveCondition, next_version,
}
use transit_guard.Application.Triples.{ite_triple, bind_triple, fact_triple, return_triple}
use transit_guard.Application.Triples.Store.{
  Store, Conforming, put, log, saved_version, saved_version-loaded,
}
use transit_guard.Application.Triples.Sure.{
  Sure, At, begin_sure, commit_sure, now_sure, find_credential_sure, save_sure, append_sure,
  check_sure, or_rollback_sure, require_sure, record_event_sure, sure-ok,
}
use transit_guard.Application.StatusChange.{
  StatusChange, ChangedFareCredential, target, mutate, reported_reason, change_status,
  change_loaded, unchanged, update,
}
use transit_guard.Application.StatusChange.Post.{IsEventOf, Records-IsEventOf, mutate-target}

-- The credential that a change leaves has the identifier of the one before.
mutate-id : (change : StatusChange) (c : FareCredential) → (mutate change c).1.id ≡ c.id
unfolding activate suspend revoke
mutate-id StatusChange.activate_change c = ground arith
mutate-id StatusChange.suspend_change c = ground arith
mutate-id (StatusChange.revoke_change reason) c = ground arith

-- What a change of a stored credential reports, and the store that it leaves: the same one if the
-- credential had the status, and else the one with the changed credential under the next version
-- and with the event of the change.
pub data Applied (change : StatusChange) (id : FareCredentialId)
    (loaded : VersionedAggregate FareCredential) (next : AggregateVersion) (before : Store)
    : ChangedFareCredential → Store → Type 0 where
  kept :
      loaded.aggregate.status ≡ target change
      → Applied change id loaded next before
          (record {
            credential_id = id;
            previous_status = loaded.aggregate.status;
            current_status = target change;
            reason = reported_reason change loaded.aggregate;
            changed = false;
          })
          before
  made :
      (event : DomainEvent)
      → loaded.aggregate.status ≢ target change
      → IsEventOf change id loaded event
      → Applied change id loaded next before
          (record {
            credential_id = id;
            previous_status = loaded.aggregate.status;
            current_status = target change;
            reason = reported_reason change (mutate change loaded.aggregate).1;
            changed = true;
          })
          (log event (put (mutate change loaded.aggregate).1 next before))

module _ {ℓ} {W : Type ℓ} {ports : Ports W} (laws : Conforming ports) (change : StatusChange)
    (id : FareCredentialId) (loaded : VersionedAggregate FareCredential) (next : AggregateVersion)
    (before : Store) (stored : before.credentials id ≡ some loaded)
    (keyed : loaded.aggregate.id ≡ id) (versioned : next_version loaded ≡ some next)
    (allowed : (mutate change loaded.aggregate).0 ≡ ok tt) where
  abbrev Applies : ChangedFareCredential → W → Type 0
  Applies out w = Applied change id loaded next before out (laws.durable w)

  unchanged_sure :
      loaded.aggregate.status ≡ target change
      → Sure (At laws before before) (unchanged ports change id loaded) Applies
  unfolding unchanged
  unchanged_sure same =
      bind_triple (commit_sure laws) (λ done. return_triple _ (λ w d. rw d (Applied.kept same)))

  admitted :
      saved_version
        (SaveCondition.if_version loaded.version)
        (before.credentials (mutate change loaded.aggregate).1.id)
      ≡ some next
  admitted =
      ap (λ key. saved_version (SaveCondition.if_version loaded.version) (before.credentials key))
        (mutate-id change loaded.aggregate ∙ keyed)
      ∙ ap (saved_version (SaveCondition.if_version loaded.version)) stored
      ∙ saved_version-loaded loaded next versioned

  update_sure :
      loaded.aggregate.status ≢ target change
      → Sure (At laws before before) (update ports change id loaded) Applies
  unfolding update
  update_sure other = bind_triple (require_sure ports _ _ versioned) (λ version.
      fact_triple (λ same.
        bind_triple
          (or_rollback_sure ports
            (check_sure _ (ap (map_err ApplicationError.fare_credential) allowed)))
          (λ done. bind_triple (or_rollback_sure ports (now_sure laws)) (λ time.
            bind_triple (record_event_sure laws _ _ version time _ other) (λ event.
              fact_triple (λ recorded. bind_triple (save_sure laws _ _ next admitted) (λ saved.
                bind_triple (append_sure laws event) (λ appended.
                  bind_triple (commit_sure laws) (λ committed. return_triple _ (λ w d.
                    rw (d, mutate-target change loaded.aggregate allowed)
                      (Applied.made event other (
                        Records-IsEventOf change id loaded version time
                          (versioned ∙ ap some (sym same)) recorded))))))))))))

  change_sure : Sure (λ w. laws.durable w ≡ before) (change_status ports change id) Applies
  unfolding change_status change_loaded
  change_sure = bind_triple (begin_sure laws before) (λ begun.
      bind_triple (find_credential_sure laws id stored) (λ o. fact_triple (λ found.
        bind_triple (require_sure ports _ o found) (λ c. fact_triple (λ same. rw same (
          ite_triple (FareCredentialStatus-discrete loaded.aggregate.status (target change))
            unchanged_sure update_sure))))))

-- With an adapter that enforces the save conditions and refuses nothing else, the activation,
-- suspension or revocation of a durably stored credential succeeds if the domain allows the change
-- and the version can be increased. If the credential has the target status, the result says so and
-- the durable store stays as it was. Otherwise the durable store has the changed credential under
-- the next version and one more event, that of the change, and nothing else changed; the result
-- reports the status before, the target status, and for a revocation the reason that is stored.
pub change_status_succeeds {ℓ} :
    {W : Type ℓ} {ports : Ports W} (laws : Conforming ports) (change : StatusChange)
    (id : FareCredentialId) (loaded : VersionedAggregate FareCredential) (next : AggregateVersion)
    (w : W)
    → (laws.durable w).credentials id ≡ some loaded
    → loaded.aggregate.id ≡ id
    → next_version loaded ≡ some next
    → (mutate change loaded.aggregate).0 ≡ ok tt
    → (out : ChangedFareCredential) × ((change_status ports change id w).0 ≡ ok out)
      × Applied change id loaded next
          (laws.durable w)
          out
          (laws.durable (change_status ports change id w).1)
change_status_succeeds {ports = ports} laws change id loaded next w stored keyed versioned allowed =
    sure-ok (Applies laws change id loaded next (laws.durable w) stored keyed versioned allowed)
      (change_status ports change id)
      (change_sure laws change id loaded next (laws.durable w) stored keyed versioned allowed) w
      refl
